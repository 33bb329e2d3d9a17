-- ===== src/Planner/Emission.antt =====
-- The operations that `plan_sync` of src/sync_planner.cpp emits for directories and for renames.
use caravault.Base.{
  Option, none, some, List, [], ◌∷◌, ◌++◌, ◌=?◌, is_empty, if◌then◌else◌, Text, text_ord, pair_ord,
}
use caravault.Base.Map
use caravault.Base.Map.{Map}
use caravault.Base.Set
use caravault.Base.Set.{Set}
use caravault.VersionVector
use caravault.VersionVector.{VersionVector, merge}
use caravault.Manifest.{FileMetadata}
use caravault.Planner.Operations.{SyncOp, SyncOpType, mkdir, rename, FileIndex, Renames}
use caravault.Planner.Paths.{ancestor_dirs}

-- What the loops of `plan_sync` change.
pub record Plan : Type 0 where
  pub ops : List SyncOp
  pub mkdir_emitted : Set (Text × Text)
  pub rename_handled : Set (Text × Text)

abbrev pub no_plan : Plan
no_plan = record { ops = []; mkdir_emitted = []; rename_handled = [] }

-- `ops.push_back(op)`
abbrev pub push : SyncOp → Plan → Plan
push op p = record p { ops = p.ops ++ op ∷ [] }

abbrev pub mkdir_op : Text → Text → SyncOp
mkdir_op tgt dir = record {
  type = mkdir;
  source_drive_id = [];
  target_drive_id = tgt;
  path = dir;
  new_path = none;
  new_version_vector = VersionVector.empty;
}

abbrev pub file_op : SyncOpType → Text → Text → Text → VersionVector → SyncOp
file_op type src tgt path vv = record {
  type = type;
  source_drive_id = src;
  target_drive_id = tgt;
  path = path;
  new_path = none;
  new_version_vector = vv;
}

abbrev pub rename_op : Text → Text → Text → Text → VersionVector → SyncOp
rename_op src tgt old_path new_path vv = record (file_op rename src tgt old_path vv) {
  new_path = some new_path;
}

-- The loop of `emit_mkdirs`.
unfoldable pub emit_dirs : Text → List Text → Plan → Plan
emit_dirs tgt [] p = p
emit_dirs tgt (dir ∷ dirs) p = emit_dirs tgt dirs (
    if Set.contains (tgt, dir) p.mkdir_emitted
    then p
    else push (mkdir_op tgt dir)
        (record p { mkdir_emitted = Set.insert (tgt, dir) p.mkdir_emitted }))

abbrev pub emit_mkdirs : Text → Text → Plan → Plan
emit_mkdirs path tgt p = emit_dirs tgt (ancestor_dirs path) p

-- The first drive but `tgt` that holds a live file at `path`.
unfoldable pub find_live : Text → Text → FileIndex → Option (Text × FileMetadata)
find_live path tgt [] = none
find_live path tgt ((did, fidx) ∷ idx) =
    let rest = find_live path tgt idx in
    if did =? tgt then rest else elim (Map.lookup path fidx) [
      | none ↦ rest
      | some meta ↦ if meta.tombstone then rest else some (did, meta)
    ]

abbrev pub merge_found : VersionVector → Option FileMetadata → VersionVector
merge_found vv none = vv
merge_found vv (some f) = merge vv f.version_vector

-- The loop that makes `merged_vv` of a path.
unfoldable pub merge_path : Text → VersionVector → FileIndex → VersionVector
merge_path path vv [] = vv
merge_path path vv ((_, fidx) ∷ idx) = merge_path path (merge_found vv (Map.lookup path fidx)) idx

-- The loop that makes `merged_vv` of a rename.
unfoldable pub merge_rename : Text → Text → VersionVector → FileIndex → VersionVector
merge_rename old_path new_path vv [] = vv
merge_rename old_path new_path vv ((_, fidx) ∷ idx) =
    merge_rename old_path new_path
      (merge_found (merge_found vv (Map.lookup old_path fidx)) (Map.lookup new_path fidx)) idx

unfoldable pub emit_rename :
    FileIndex → Text → Text → Text → Option (Text × FileMetadata) → Plan → Plan
emit_rename idx tgt old_path new_path none p = p
emit_rename idx tgt old_path new_path (some (src, meta)) p =
    if is_empty src
    then p
    else let q = emit_mkdirs new_path tgt p in
      let vv = merge_rename old_path new_path meta.version_vector idx in
      record (push (rename_op src tgt old_path new_path vv) q) {
        rename_handled = Set.insert (tgt, new_path) (Set.insert (tgt, old_path) q.rename_handled);
      }

unfoldable pub plan_renames : FileIndex → Text → Map Text Text → Plan → Plan
plan_renames idx tgt [] p = p
plan_renames idx tgt ((old_path, new_path) ∷ renames) p =
    plan_renames idx tgt renames
      (emit_rename idx tgt old_path new_path (find_live new_path tgt idx) p)

unfoldable pub plan_rename_maps : FileIndex → Renames → Plan → Plan
plan_rename_maps idx [] p = p
plan_rename_maps idx ((tgt, renames) ∷ maps) p =
    plan_rename_maps idx maps (plan_renames idx tgt renames p)
