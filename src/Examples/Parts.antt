-- ===== src/Examples/Parts.antt =====
-- The Bloom filter, the chunker and the text functions of src/platform.cpp at concrete inputs.
use caravault.Base.{◌≡◌, ◌∷◌, [], refl, text, Text, true, arith, there, here, List}
use caravault.BloomFilter.{filter_of, might_contain, insert_all, might_contain-insert_all}
use caravault.Chunker.{CdcChunker, chunk_buffer}
use caravault.Chunker.Tiling.{IsTiling, chunk_buffer-IsTiling}
use caravault.Platform.{
  FilePermissions, permissions_of, mode_of, serialize_permissions, deserialize_permissions,
  deserialize-serialize_permissions, HasNoBackslash, normalize_path, normalize_path_lem,
}
use caravault.Examples.Writes.{same_text}

abbrev names : List Text
names = text "a" ∷ text "b" ∷ []

might_contain-insert_all_example :
    might_contain (text "b") (insert_all names (filter_of 16 2)) ≡ true
might_contain-insert_all_example =
    might_contain-insert_all (text "b") names (filter_of 16 2) (omega arith) (there (here refl))

abbrev small_chunker : CdcChunker
small_chunker = record { avg_chunk_size = 16384; mask = 16383 }

chunk_buffer-IsTiling_example :
    IsTiling same_text (text "abc") 0 0 (chunk_buffer same_text small_chunker (text "abc") 0)
chunk_buffer-IsTiling_example = chunk_buffer-IsTiling same_text small_chunker (text "abc") 0

-- rwxr-x---
abbrev some_permissions : FilePermissions
some_permissions = permissions_of 7 5 0

deserialize-serialize_permissions_example :
    deserialize_permissions (serialize_permissions some_permissions)
    ≡ record some_permissions { raw_mode = mode_of some_permissions }
deserialize-serialize_permissions_example = deserialize-serialize_permissions some_permissions

normalize_path_lem_example :
    HasNoBackslash (normalize_path (text "a\\b//"))
    × (normalize_path (normalize_path (text "a\\b//")) ≡ normalize_path (text "a\\b//"))
normalize_path_lem_example = normalize_path_lem (text "a\\b//")
