-- ===== src/Executor.antt =====
-- `Executor::execute` of src/executor.cpp and include/executor.hpp, over the stores and roots of the
-- drives by id. Error messages are told apart by their cause. Calls to the progress reporter are left
-- out.
pub mod Disk
pub mod Writing
pub mod Recovery
pub mod Replicas
pub mod Safety
pub mod Transfers
pub mod Cleanup
pub mod Success
pub mod Completion
use caravault.Base.{
  ℕ, Bool, true, false, Option, none, some, List, [], ◌∷◌, ◌=?◌, if◌then◌else◌, Text, text_ord,
  text, not, ◌||◌,
}
use caravault.Base.Map
use caravault.Base.Map.{Map}
use caravault.Base.Results.{Result, ok, err}
use caravault.VersionVector
use caravault.VersionVector.{VersionVector}
use caravault.VersionVector.Json.{JsonError}
use caravault.Manifest.{
  FileMetadata, ManifestStore, get_file, upsert_file, delete_file, begin_operation,
  complete_operation,
}
use caravault.Planner.Operations.{SyncOp, copy, replace, remove, rename, mkdir}
use caravault.Planner.Paths.{parent_dir}
use caravault.Executor.Disk.{
  World, fault, tick, join, exists, create_directories, rename_file, remove_file,
}
use caravault.Executor.Writing.{Failure, atomic_write}

pub data ExecutionError : Type 0 where
  unknown_target target_inaccessible mkdir_failed unknown_source : ExecutionError
  source_inaccessible not_in_manifest missing_new_path : ExecutionError
  parent_failed rename_failed : ExecutionError
  -- What `catch` catches: from a map's `at`, from a store, from `atomic_write`.
  no_store : ExecutionError
  store_error : JsonError → ExecutionError
  write_error : Failure → ExecutionError

pub record ExecutionResult : Type 0 where
  pub success : Bool
  pub error : Option ExecutionError
  pub bytes_transferred : ℕ

abbrev pub Stores : Type 0
Stores = Map Text ManifestStore

abbrev pub Roots : Type 0
Roots = Map Text Text

pub record Outcome : Type 0 where
  pub result : ExecutionResult
  pub world : World
  pub stores : Stores

abbrev pub failed : ExecutionError → World → Stores → Outcome
failed e w stores = record {
  result = record { success = false; error = some e; bytes_transferred = 0 };
  world = w;
  stores = stores;
}

abbrev pub succeeded : ℕ → World → Stores → Outcome
succeeded bytes w stores = record {
  result = record { success = true; error = none; bytes_transferred = bytes };
  world = w;
  stores = stores;
}

unfoldable pub execute_mkdir : Text → SyncOp → World → Stores → Outcome
execute_mkdir root op w stores =
    if fault w
    then failed mkdir_failed (tick w) stores
    else succeeded 0 (create_directories (join root op.path) w) stores

unfoldable pub copied : Text → ℕ → Stores → Option Failure × World × ManifestStore → Outcome
copied tgt size stores (none, w, s) = succeeded size w (Map.insert tgt s stores)
copied tgt size stores (some e, w, s) = failed (write_error e) w (Map.insert tgt s stores)

abbrev pub Read : Type 0
Read = Result JsonError (Option FileMetadata)

module _ (sha256 : Text → Text) where
  unfoldable pub copy_version :
      Text → Text → ManifestStore → SyncOp → ℕ → Read → World → Stores → Outcome
  copy_version src_root root s op now (err e) w stores = failed (store_error e) w stores
  copy_version src_root root s op now (ok none) w stores = failed not_in_manifest w stores
  copy_version src_root root s op now (ok (some src_meta)) w stores =
      copied op.target_drive_id src_meta.size stores (
        atomic_write sha256 (join src_root op.path) (join root op.path) src_meta.hash
          (record src_meta { version_vector = op.new_version_vector }) now w s)

  unfoldable pub copy_from :
      Text → Text → ManifestStore → SyncOp → ℕ → Option ManifestStore → World → Stores → Outcome
  copy_from src_root root s op now none w stores = failed no_store w stores
  copy_from src_root root s op now (some src_store) w stores =
      copy_version src_root root s op now (get_file op.path src_store) w stores

  unfoldable pub execute_copy :
      Option Text → Text → ManifestStore → SyncOp → ℕ → World → Stores → Outcome
  execute_copy none root s op now w stores = failed unknown_source w stores
  execute_copy (some src_root) root s op now w stores =
      if not (exists src_root w) || fault w
      then failed source_inaccessible (tick w) stores
      else copy_from src_root root s op now (Map.lookup op.source_drive_id stores) (tick w) stores

-- `FileMetadata tombstone_meta;` leaves `size` and `mtime` uninitialised: they are `junk`.
abbrev pub blank : ℕ × ℕ → Text → FileMetadata
blank junk path = record {
  path = path;
  hash = [];
  size = junk.0;
  mtime = junk.1;
  version_vector = VersionVector.empty;
  tombstone = false;
  corrupted = false;
  inode = none;
}

abbrev pub existing_or : ℕ × ℕ → Text → Option FileMetadata → FileMetadata
existing_or junk path none = blank junk path
existing_or junk path (some m) = m

unfoldable pub tombstoned : ℕ × ℕ → SyncOp → ManifestStore → ℕ → Read → World → Stores → Outcome
tombstoned junk op s log_id (err e) w stores =
    failed (store_error e) w (Map.insert op.target_drive_id s stores)
tombstoned junk op s log_id (ok existing) w stores =
    let meta = record (existing_or junk op.path existing) {
      tombstone = true;
      version_vector = op.new_version_vector;
    } in
    succeeded 0 w
      (Map.insert op.target_drive_id (complete_operation log_id (upsert_file meta s)) stores)

unfoldable pub execute_remove : ℕ × ℕ → Text → ManifestStore → SyncOp → ℕ → World → Stores → Outcome
execute_remove junk root s op now w stores =
    let (s', log_id) = begin_operation (text "DELETE") (join root op.path) now s in
    tombstoned junk op s' log_id (get_file op.path s') (remove_file (join root op.path) w) stores

unfoldable pub move_row : SyncOp → Text → ManifestStore → ℕ → Read → World → Stores → Outcome
move_row op new_path s log_id (err e) w stores =
    failed (store_error e) w (Map.insert op.target_drive_id s stores)
move_row op new_path s log_id (ok none) w stores =
    succeeded 0 w (Map.insert op.target_drive_id (complete_operation log_id s) stores)
move_row op new_path s log_id (ok (some existing)) w stores =
    let meta = record existing { path = new_path; version_vector = op.new_version_vector } in
    succeeded 0 w (
      Map.insert op.target_drive_id
        (complete_operation log_id (upsert_file meta (delete_file op.path s))) stores)

-- The rename of the file, once its parent directory is there.
unfoldable pub rename_logged : Text → SyncOp → Text → ManifestStore → ℕ → World → Stores → Outcome
rename_logged root op new_path s log_id w stores =
    let closed = Map.insert op.target_drive_id (complete_operation log_id s) stores in
    if fault w
    then failed rename_failed (tick w) closed
    else if not (exists (join root op.path) w)
    then failed rename_failed (tick w) closed
    else move_row op new_path s log_id (get_file op.path s)
        (rename_file (join root op.path) (join root new_path) w) stores

unfoldable pub execute_rename :
    Text → ManifestStore → SyncOp → ℕ → Option Text → World → Stores → Outcome
execute_rename root s op now none w stores = failed missing_new_path w stores
execute_rename root s op now (some new_path) w stores =
    let (s', log_id) = begin_operation (text "RENAME") (join root op.path) now s in
    if fault w
    then failed parent_failed (tick w)
        (Map.insert op.target_drive_id (complete_operation log_id s') stores)
    else rename_logged root op new_path s' log_id
        (create_directories (parent_dir (join root new_path)) w) stores

module _ (sha256 : Text → Text) (junk : ℕ × ℕ) where
  -- The `switch` over the type of the operation.
  unfoldable pub dispatch : Roots → SyncOp → ℕ → Text → ManifestStore → World → Stores → Outcome
  dispatch roots op now root s w stores = elim op.type [
    | mkdir ↦ execute_mkdir root op w stores
    | remove ↦ execute_remove junk root s op now w stores
    | rename ↦ execute_rename root s op now op.new_path w stores
    | _ ↦ execute_copy sha256 (Map.lookup op.source_drive_id roots) root s op now w stores
  ]

  unfoldable pub with_store :
      Roots → SyncOp → ℕ → Text → Option ManifestStore → World → Stores → Outcome
  with_store roots op now root none w stores = failed no_store w stores
  with_store roots op now root (some s) w stores = dispatch roots op now root s w stores

  unfoldable pub with_root : Roots → SyncOp → ℕ → Option Text → World → Stores → Outcome
  with_root roots op now none w stores = failed unknown_target w stores
  with_root roots op now (some root) w stores =
      if not (exists root w) || fault w
      then failed target_inaccessible (tick w) stores
      else with_store roots op now root (Map.lookup op.target_drive_id stores) (tick w) stores

  unfoldable pub execute : Roots → SyncOp → ℕ → World → Stores → Outcome
  execute roots op now w stores =
      with_root roots op now (Map.lookup op.target_drive_id roots) w stores
