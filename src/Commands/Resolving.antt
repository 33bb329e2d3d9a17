-- ===== src/Commands/Resolving.antt =====
-- `do_resolve` of src/main.cpp.
use caravault.Base.{ℕ, Bool, Option, none, some, List, [], ◌∷◌, Text, text_ord}
use caravault.Base.Map
use caravault.Base.Map.{Map}
use caravault.Base.Results.{Result, ok, ◌>>=◌}
use caravault.VersionVector.{VersionVector, merge, increment}
use caravault.VersionVector.Json.{JsonError}
use caravault.Manifest.{FileMetadata, ManifestStore, get_file, upsert_file}
use caravault.Executor.{Stores}
use caravault.Commands.{Databases, open_drive_manifests, on_targets, resolve_drive_targets}

abbrev pub merge_found : VersionVector → Option FileMetadata → VersionVector
merge_found merged none = merged
merge_found merged (some meta) = merge merged meta.version_vector

-- The loop that merges the version vectors of the path.
unfoldable pub merge_known : Text → Stores → VersionVector → Result JsonError VersionVector
merge_known path [] merged = ok merged
merge_known path ((drive_id, s) ∷ stores) merged =
    get_file path s >>= λ meta. merge_known path stores (merge_found merged meta)

-- The loop that stores the resolved entry.
unfoldable pub store_resolved : FileMetadata → Stores → Stores
store_resolved resolved [] = []
store_resolved resolved ((drive_id, s) ∷ stores) =
    (drive_id, upsert_file resolved s) ∷ store_resolved resolved stores

-- The entry of the winner, with the merged clocks and its own clock advanced.
abbrev pub resolved_entry : Text → FileMetadata → VersionVector → FileMetadata
resolved_entry use_drive_id winner merged = record winner {
  version_vector = increment use_drive_id merged;
}

unfoldable pub resolve_found :
    Text → Text → Stores → Option FileMetadata → Result JsonError (ℕ × Stores)
resolve_found path use_drive_id stores none = ok (1, stores)
resolve_found path use_drive_id stores (some winner) =
    merge_known path stores winner.version_vector >>= λ merged.
    ok (0, store_resolved (resolved_entry use_drive_id winner merged) stores)

unfoldable pub resolve_with :
    Text → Text → Stores → Option ManifestStore → Result JsonError (ℕ × Stores)
resolve_with path use_drive_id stores none = ok (1, stores)
resolve_with path use_drive_id stores (some s) =
    get_file path s >>= λ winner. resolve_found path use_drive_id stores winner

abbrev pub resolve_opened : Text → Text → Stores → Result JsonError (ℕ × Stores)
resolve_opened path use_drive_id stores =
    resolve_with path use_drive_id stores (Map.lookup use_drive_id stores)

-- The exit code, and the stores that were opened as they are at the end.
unfoldable pub do_resolve :
    Text → Text → List Text → Bool → List Text → Databases → Result JsonError (ℕ × Stores)
do_resolve path use_drive_id drive_paths all detected databases =
    on_targets (ok (1, []))
      (λ targets.
        resolve_opened path use_drive_id (open_drive_manifests databases targets).manifests)
      (resolve_drive_targets all drive_paths detected)
