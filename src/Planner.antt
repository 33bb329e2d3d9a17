-- ===== src/Planner.antt =====
-- `plan_sync` of src/sync_planner.cpp. A manifest comes as what `get_all_files` returns, and `none` is a
-- null pointer to a store. `file_index[id]` of a drive that is not in the map adds an empty map there,
-- which no later search tells from a missing one: it is a look-up with the empty map as default.
pub mod Operations
pub mod Paths
pub mod Renames
pub mod Sorting
pub mod Coalescing
pub mod Index
pub mod Emission
pub mod Choice
pub mod Indexed
pub mod Detected
pub mod Chosen
pub mod Soundness
pub mod Targets
pub mod Quiet
pub mod Agreement
use caravault.Base.{
  ℕ, ◌*◌, Bool, true, false, Option, none, some, List, [], ◌∷◌, ◌=?◌, ltb, length, is_empty,
  if◌then◌else◌, Text, text_ord, pair_ord, not, ◌||◌, ◌&&◌,
}
use caravault.Base.Map
use caravault.Base.Set
use caravault.VersionVector.{VersionVector, Ordering, compare, dominates}
use caravault.Manifest.{FileMetadata}
use caravault.Conflict.{Manifests, Resolution}
use caravault.Planner.Operations.{SyncOp, remove, copy, replace, FileIndex, file_at, is_live}
use caravault.Planner.Renames.{detect_renames}
use caravault.Planner.Sorting.{topological_sort}
use caravault.Planner.Coalescing.{coalesce}
use caravault.Planner.Index.{drive_files, index_drives, all_paths}
use caravault.Planner.Emission.{
  Plan, no_plan, push, file_op, emit_mkdirs, merge_path, plan_rename_maps,
}
use caravault.Planner.Choice.{Tally, no_tombstones, count_tombstones, choose}

-- The loop that propagates a quorum of tombstones.
unfoldable pub remove_live : FileIndex → Text → Tally → List Text → Plan → Plan
remove_live idx path t [] p = p
remove_live idx path t (tgt ∷ drives) p = remove_live idx path t drives (
    if Set.contains (tgt, path) p.rename_handled
    then p
    else if is_live (file_at idx tgt path)
    then push (file_op remove t.tombstone_src tgt path t.tombstone_vv) p
    else p)

abbrev pub is_dominates : Ordering → Bool
is_dominates dominates = true
is_dominates _ = false

-- A live version for a target drive, over what the target holds at the path.
unfoldable pub plan_live :
    Text → FileMetadata → Text → Text → VersionVector → Option FileMetadata → Plan → Plan
plan_live src meta tgt path vv none p = push (file_op copy src tgt path vv) (emit_mkdirs path tgt p)
plan_live src meta tgt path vv (some f) p =
    if f.tombstone
    then push (file_op copy src tgt path vv) (emit_mkdirs path tgt p)
    else if is_dominates (compare meta.version_vector f.version_vector) || not (meta.hash =? f.hash)
    then push (file_op replace src tgt path vv) p
    else p

-- The loop over the target drives.
unfoldable pub plan_targets :
    FileIndex → Text → Text → FileMetadata → VersionVector → List Text → Plan → Plan
plan_targets idx path src meta vv [] p = p
plan_targets idx path src meta vv (tgt ∷ drives) p = plan_targets idx path src meta vv drives (
    if tgt =? src
    then p
    else if Set.contains (tgt, path) p.rename_handled
    then p
    else if meta.tombstone
    then (if is_live (file_at idx tgt path) then push (file_op remove src tgt path vv) p else p)
    else plan_live src meta tgt path vv (file_at idx tgt path) p)

unfoldable pub plan_choice :
    FileIndex → Text → List Text → Option (Text × FileMetadata) → Plan → Plan
plan_choice idx path drives none p = p
plan_choice idx path drives (some (src, meta)) p =
    plan_targets idx path src meta (merge_path path meta.version_vector idx) drives p

unfoldable pub plan_path : FileIndex → List Text → List Resolution → Text → Plan → Plan
plan_path idx drives resolutions path p =
    let t = count_tombstones path idx no_tombstones in
    if not (is_empty drives) && ltb (length drives) (t.tombstone_count * 2)
    then remove_live idx path t drives p
    else plan_choice idx path drives (choose path idx resolutions) p

unfoldable pub plan_paths : FileIndex → List Text → List Resolution → List Text → Plan → Plan
plan_paths idx drives resolutions [] p = p
plan_paths idx drives resolutions (path ∷ paths) p =
    plan_paths idx drives resolutions paths (plan_path idx drives resolutions path p)

-- The operations before they are sorted.
unfoldable pub emit_ops : Manifests → List Resolution → Plan
emit_ops manifests resolutions =
    let files = drive_files manifests in
    let idx = index_drives files [] in
    plan_paths idx (Map.keys manifests) resolutions (all_paths files [])
      (plan_rename_maps idx (detect_renames files) no_plan)

unfoldable pub plan_sync : Manifests → List Resolution → List SyncOp
plan_sync manifests resolutions =
    if is_empty manifests
    then []
    else coalesce (topological_sort (emit_ops manifests resolutions).ops)
