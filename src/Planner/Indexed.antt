-- ===== src/Planner/Indexed.antt =====
-- Look-ups in `file_index` of `plan_sync` in src/sync_planner.cpp, against the lists of the drives.
use caravault.Base.{
  ◌≡◌, refl, ◌∙◌, Option, none, some, List, [], ◌∷◌, arith, ◌=?◌, =?_iff, if◌then◌else◌, Text,
  text_ord, cmp_text_iff, Bool-cases, inl, inr,
}
use caravault.Base.Map
use caravault.Base.Map.{Map}
use caravault.Base.Map.Sorted
use caravault.Base.Map.Sorted.{or_else}
use caravault.Manifest.{FileMetadata}
use caravault.Conflict.Gathering.{last_file}
use caravault.Planner.Operations.{FileIndex, file_at}
use caravault.Planner.Index.{index_file, index_files, index_drives}

file_at-index_file :
    (d e path : Text) (f : FileMetadata) (idx : FileIndex)
    → file_at (index_file d f idx) e path ≡ (
        if e =? d
        then or_else (if path =? f.path then some f else none) (file_at idx e path)
        else file_at idx e path)
unfolding index_file
file_at-index_file d e path f idx = rw (Map.lookup-insert) (elim (Bool-cases (e =? d)) [
  | inl t ↦ let same = (=?_iff e d).0 t in simp (t, Map.lookup-insert) (rw same (ground arith))
  | inr t ↦ simp t (ground arith)
])

file_at-index_files :
    (d e path : Text) (files : List FileMetadata) (idx : FileIndex)
    → file_at (index_files d files idx) e path
      ≡ (if e =? d then or_else (last_file path files) (file_at idx e path) else file_at idx e path)
unfolding index_files last_file
file_at-index_files d e path [] idx = ground arith
file_at-index_files d e path (f ∷ files) idx =
    file_at-index_files d e path files (index_file d f idx)
    ∙ rw (file_at-index_file d e path f idx) (ground arith)

abbrev pub listed : Text → Option (List FileMetadata) → Option FileMetadata
listed path none = none
listed path (some files) = last_file path files

pub file_at-index_drives :
    (e path : Text) (drives : Map Text (List FileMetadata)) (idx : FileIndex)
    → Sorted.IsSorted drives
    → file_at (index_drives drives idx) e path
      ≡ or_else (listed path (Map.lookup e drives)) (file_at idx e path)
unfolding index_drives Map.lookup
file_at-index_drives e path [] idx s = refl
file_at-index_drives e path ((d, files) ∷ drives) idx (a, s) =
    file_at-index_drives e path drives (index_files d files idx) s
    ∙ rw (file_at-index_files d e path files idx)
        (ground (arith, Sorted.lookup-of_IsAbove e drives, cmp_text_iff e d))

index_files-IsSorted :
    (d : Text) (files : List FileMetadata) (idx : FileIndex)
    → Sorted.IsSorted idx
    → Sorted.IsSorted (index_files d files idx)
unfolding index_files index_file
index_files-IsSorted d [] idx s = s
index_files-IsSorted d (f ∷ files) idx s =
    index_files-IsSorted d files (index_file d f idx) (Sorted.insert-IsSorted d _ idx s)

pub index_drives-IsSorted :
    (drives : Map Text (List FileMetadata)) (idx : FileIndex)
    → Sorted.IsSorted idx
    → Sorted.IsSorted (index_drives drives idx)
unfolding index_drives
index_drives-IsSorted [] idx s = s
index_drives-IsSorted ((d, files) ∷ drives) idx s =
    index_drives-IsSorted drives (index_files d files idx) (index_files-IsSorted d files idx s)
