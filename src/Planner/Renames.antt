-- ===== src/Planner/Renames.antt =====
-- `detect_renames` of src/sync_planner.cpp.
use caravault.Base.{none, some, List, [], ◌∷◌, ◌++◌, ◌=?◌, if◌then◌else◌, not, Text, text_ord}
use caravault.Base.Map
use caravault.Base.Map.{Map}
use caravault.Base.Set
use caravault.Base.Set.{Set}
use caravault.Manifest.{FileMetadata, value_or}
use caravault.Planner.Operations.{Renames}

pub record DriveIndex : Type 0 where
  pub hash_to_paths : Map Text (List Text)
  pub live_paths : Set Text
  pub tombstones : Set Text

abbrev pub no_index : DriveIndex
no_index = record { hash_to_paths = []; live_paths = []; tombstones = [] }

unfoldable pub add_to_index : FileMetadata → DriveIndex → DriveIndex
add_to_index f idx =
    if f.tombstone
    then record idx { tombstones = Set.insert f.path idx.tombstones }
    else record idx {
      hash_to_paths =
          Map.insert f.hash (value_or [] (Map.lookup f.hash idx.hash_to_paths) ++ f.path ∷ [])
            idx.hash_to_paths;
      live_paths = Set.insert f.path idx.live_paths;
    }

unfoldable pub drive_index : List FileMetadata → DriveIndex → DriveIndex
drive_index [] idx = idx
drive_index (f ∷ files) idx = drive_index files (add_to_index f idx)

-- `indices`: the keys are those of `drive_files`, and stand in their order.
unfoldable pub indices : Map Text (List FileMetadata) → Map Text DriveIndex
indices [] = []
indices ((drive_id, files) ∷ drives) = (drive_id, drive_index files no_index) ∷ indices drives

-- `result[tgt_id][tgt_path] = src_path`
unfoldable pub add_rename : Text → Text → Text → Renames → Renames
add_rename tgt_id tgt_path src_path result =
    Map.insert tgt_id (Map.insert tgt_path src_path (value_or [] (Map.lookup tgt_id result))) result

-- The loop over `tgt_path`.
unfoldable pub rename_from : DriveIndex → Text → Text → List Text → Renames → Renames
rename_from src_idx tgt_id src_path [] result = result
rename_from src_idx tgt_id src_path (tgt_path ∷ tgt_paths) result =
    rename_from src_idx tgt_id src_path tgt_paths (
      if tgt_path =? src_path
      then result
      else if not (Set.contains tgt_path src_idx.tombstones)
      then result
      else add_rename tgt_id tgt_path src_path result)

-- The loop over `src_path`.
unfoldable pub rename_paths :
    DriveIndex → Text → DriveIndex → List Text → List Text → Renames → Renames
rename_paths src_idx tgt_id tgt_idx tgt_paths [] result = result
rename_paths src_idx tgt_id tgt_idx tgt_paths (src_path ∷ src_paths) result =
    rename_paths src_idx tgt_id tgt_idx tgt_paths src_paths (
      if Set.contains src_path tgt_idx.live_paths
      then result
      else rename_from src_idx tgt_id src_path tgt_paths result)

-- The loop over the hashes of the source.
unfoldable pub rename_hashes :
    DriveIndex → Text → DriveIndex → Map Text (List Text) → Renames → Renames
rename_hashes src_idx tgt_id tgt_idx [] result = result
rename_hashes src_idx tgt_id tgt_idx ((hash, src_paths) ∷ hashes) result =
    rename_hashes src_idx tgt_id tgt_idx hashes (elim (Map.lookup hash tgt_idx.hash_to_paths) [
      | none ↦ result
      | some tgt_paths ↦ rename_paths src_idx tgt_id tgt_idx tgt_paths src_paths result
    ])

-- The loop over the target drives.
unfoldable pub rename_targets : Text → DriveIndex → Map Text DriveIndex → Renames → Renames
rename_targets src_id src_idx [] result = result
rename_targets src_id src_idx ((tgt_id, tgt_idx) ∷ targets) result =
    rename_targets src_id src_idx targets (
      if src_id =? tgt_id
      then result
      else rename_hashes src_idx tgt_id tgt_idx src_idx.hash_to_paths result)

-- The loop over the source drives.
unfoldable pub rename_sources : Map Text DriveIndex → Map Text DriveIndex → Renames → Renames
rename_sources all [] result = result
rename_sources all ((src_id, src_idx) ∷ sources) result =
    rename_sources all sources (rename_targets src_id src_idx all result)

unfoldable pub detect_renames : Map Text (List FileMetadata) → Renames
detect_renames drive_files = let all = indices drive_files in rename_sources all all []
