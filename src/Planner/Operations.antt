-- ===== src/Planner/Operations.antt =====
-- `SyncOp` of include/sync_planner.hpp and the maps that `plan_sync` in src/sync_planner.cpp keeps.
use caravault.Base.{Bool, false, Option, none, some, not, [], Text, text_ord}
use caravault.Base.Map
use caravault.Base.Map.{Map}
use caravault.VersionVector.{VersionVector}
use caravault.Manifest.{FileMetadata, value_or}

pub data SyncOpType : Type 0 where
  copy replace remove rename mkdir : SyncOpType

pub record SyncOp : Type 0 where
  pub type : SyncOpType
  pub source_drive_id : Text
  pub target_drive_id : Text
  pub path : Text
  pub new_path : Option Text
  pub new_version_vector : VersionVector

-- The files of each drive by path.
abbrev pub FileIndex : Type 0
FileIndex = Map Text (Map Text FileMetadata)

-- For a drive, the new name of a file by its old one.
abbrev pub Renames : Type 0
Renames = Map Text (Map Text Text)

-- `file_index[drive_id].find(path)`
abbrev pub file_at : FileIndex → Text → Text → Option FileMetadata
file_at idx drive_id path = Map.lookup path (value_or [] (Map.lookup drive_id idx))

abbrev pub is_live : Option FileMetadata → Bool
is_live none = false
is_live (some f) = not f.tombstone
