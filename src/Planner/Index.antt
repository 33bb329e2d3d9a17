-- ===== src/Planner/Index.antt =====
-- What `plan_sync` of src/sync_planner.cpp gathers from the stores: the files of each drive by path,
-- and all paths.
use caravault.Base.{none, some, List, [], ◌∷◌, Text, text_ord}
use caravault.Base.Map
use caravault.Base.Map.{Map}
use caravault.Base.Set
use caravault.Base.Set.{Set}
use caravault.Manifest.{FileMetadata, value_or}
use caravault.Conflict.{Manifests}
use caravault.Planner.Operations.{FileIndex}

-- `drive_files`: the drives that have a store.
unfoldable pub drive_files : Manifests → Map Text (List FileMetadata)
drive_files [] = []
drive_files ((_, none) ∷ manifests) = drive_files manifests
drive_files ((drive_id, some files) ∷ manifests) = Map.insert drive_id files (drive_files manifests)

-- `file_index[drive_id][f.path] = f`
unfoldable pub index_file : Text → FileMetadata → FileIndex → FileIndex
index_file drive_id f idx =
    Map.insert drive_id (Map.insert f.path f (value_or [] (Map.lookup drive_id idx))) idx

unfoldable pub index_files : Text → List FileMetadata → FileIndex → FileIndex
index_files drive_id [] idx = idx
index_files drive_id (f ∷ files) idx = index_files drive_id files (index_file drive_id f idx)

unfoldable pub index_drives : Map Text (List FileMetadata) → FileIndex → FileIndex
index_drives [] idx = idx
index_drives ((drive_id, files) ∷ drives) idx = index_drives drives (index_files drive_id files idx)

unfoldable pub insert_paths : List FileMetadata → Set Text → Set Text
insert_paths [] paths = paths
insert_paths (f ∷ files) paths = insert_paths files (Set.insert f.path paths)

unfoldable pub all_paths : Map Text (List FileMetadata) → Set Text → Set Text
all_paths [] paths = paths
all_paths ((_, files) ∷ drives) paths = all_paths drives (insert_paths files paths)
