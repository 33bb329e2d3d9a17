-- ===== src/Executor/Replicas.antt =====
-- `is_drive_accessible`, `read_file_verified` and `restore_from_replica` of src/executor.cpp.
use caravault.Base.{
  ℕ, Bool, true, false, Option, none, some, [], ◌∷◌, ◌=?◌, ◌==◌, if◌then◌else◌, Text, text_ord,
  text, not, ◌||◌, ◌&&◌,
}
use caravault.Base.Map
use caravault.Base.Results.{Result, ok, err, ◌>>=◌}
use caravault.VersionVector.Json.{JsonError}
use caravault.Manifest.{FileMetadata, ManifestStore, get_file, upsert_file}
use caravault.Executor.{Stores, Roots, Read}
use caravault.Executor.Disk.{World, fault, tick, join, exists}
use caravault.Executor.Writing.{Failure, verify_hash, atomic_write}

unfoldable pub is_drive_accessible : Text → World → Bool
is_drive_accessible root w = exists root w && not (fault w)

unfoldable pub component : Text → Text
component [] = []
component (c ∷ s) = let rest = component s in if c == 47 then [] else c ∷ rest

-- `*rel.begin()`: the root directory of an absolute path, and else the bytes before the first slash.
unfoldable pub first_component : Text → Text
first_component [] = []
first_component (c ∷ s) = if c == 47 then 47 ∷ [] else component (c ∷ s)

-- The call of `manifests.at` throws where the drive has no store.
pub data ReplicaError : Type 0 where
  no_store : ReplicaError
  store_error : JsonError → ReplicaError

module _ (sha256 : Text → Text) where
  unfoldable pub verified :
      Text → Option FileMetadata → World → ManifestStore → Bool × World × ManifestStore
  verified abs_path none w s = (true, w, s)
  verified abs_path (some meta) w s =
      if verify_hash sha256 abs_path meta.hash w
      then (true, tick w, s)
      else (false, tick w, upsert_file (record meta { corrupted = true }) s)

  unfoldable pub read_file_verified :
      Text → Text → World → ManifestStore → Result JsonError (Bool × World × ManifestStore)
  read_file_verified rel_path abs_path w s =
      if first_component rel_path =? text ".caravault"
      then ok (true, w, s)
      else get_file rel_path s >>= λ meta. ok (verified abs_path meta w s)

  -- Is the entry of a replica the version that is looked for?
  abbrev pub is_replica : Text → Option FileMetadata → Bool
  is_replica expected none = false
  is_replica expected (some meta) = not (meta.tombstone || not (meta.hash =? expected))

  abbrev pub Restored : Type 0
  Restored = Option ReplicaError × Bool × World × Stores

  -- The loop goes on where the write throws.
  unfoldable pub after_write :
      Text → Stores → Option Failure × World × ManifestStore → Bool × World × Stores
  after_write target_drive stores (none, w, s) = (true, w, Map.insert target_drive s stores)
  after_write target_drive stores (some e, w, s) = (false, w, Map.insert target_drive s stores)

  -- The write of the copy on a drive, where that copy is intact.
  unfoldable pub try_copy :
      Text
      → Text
      → Text
      → Text
      → FileMetadata
      → ℕ
      → Option ManifestStore
      → World
      → Stores
      → Bool × World × Stores
  try_copy rel_path target_drive target_root src meta now none w stores = (false, w, stores)
  try_copy rel_path target_drive target_root src meta now (some s) w stores =
      if not (exists src w) || not (verify_hash sha256 src meta.hash (tick w))
      then (false, tick (tick w), stores)
      else after_write target_drive stores (
          atomic_write sha256 src (join target_root rel_path) meta.hash
            (record meta { corrupted = false }) now (tick (tick w)) s)

  abbrev pub none_thrown : Bool × World × Stores → Restored
  none_thrown (done, w, stores) = (none, done, w, stores)

  -- One drive of the loop.
  unfoldable pub try_replica :
      Text → Text → Text → Text → FileMetadata → ℕ → Read → World → Stores → Restored
  try_replica rel_path target_drive target_root root meta now (err e) w stores =
      (some (store_error e), false, w, stores)
  try_replica rel_path target_drive target_root root meta now (ok found) w stores =
      if not (is_replica meta.hash found)
      then (none, false, w, stores)
      else none_thrown (
          try_copy rel_path target_drive target_root (join root rel_path) meta now
            (Map.lookup target_drive stores) w stores)

  unfoldable pub try_drive :
      Text
      → Text
      → Text
      → Text
      → FileMetadata
      → ℕ
      → Option ManifestStore
      → World
      → Stores
      → Restored
  try_drive rel_path target_drive target_root root meta now none w stores = (none, false, w, stores)
  try_drive rel_path target_drive target_root root meta now (some s) w stores =
      try_replica rel_path target_drive target_root root meta now (get_file rel_path s) w stores

  -- The loop over the drives: a copy that is made, or what is thrown, ends it.
  unfoldable pub try_drives : Text → Text → Text → FileMetadata → ℕ → Roots → Restored → Restored
  try_drives rel_path target_drive target_root meta now roots (some e, done, w, stores) =
      (some e, done, w, stores)
  try_drives rel_path target_drive target_root meta now roots (none, true, w, stores) =
      (none, true, w, stores)
  try_drives rel_path target_drive target_root meta now [] (none, false, w, stores) =
      (none, false, w, stores)
  try_drives rel_path target_drive target_root meta now ((drive_id, root) ∷ roots)
        (none, false, w, stores) =
      try_drives rel_path target_drive target_root meta now roots (
        if drive_id =? target_drive
        then (none, false, w, stores)
        else try_drive rel_path target_drive target_root root meta now (Map.lookup drive_id stores)
            w stores)

  unfoldable pub restore_read : Text → Text → Text → ℕ → Roots → Read → World → Stores → Restored
  restore_read rel_path target_drive target_root now roots (err e) w stores =
      (some (store_error e), false, w, stores)
  restore_read rel_path target_drive target_root now roots (ok none) w stores =
      (none, false, w, stores)
  restore_read rel_path target_drive target_root now roots (ok (some meta)) w stores =
      try_drives rel_path target_drive target_root meta now roots (none, false, w, stores)

  unfoldable pub restore_store :
      Text → Text → Text → ℕ → Roots → Option ManifestStore → World → Stores → Restored
  restore_store rel_path target_drive target_root now roots none w stores =
      (some no_store, false, w, stores)
  restore_store rel_path target_drive target_root now roots (some s) w stores =
      restore_read rel_path target_drive target_root now roots (get_file rel_path s) w stores

  unfoldable pub restore_root : Text → Text → ℕ → Roots → Option Text → World → Stores → Restored
  restore_root rel_path target_drive now roots none w stores = (none, false, w, stores)
  restore_root rel_path target_drive now roots (some target_root) w stores =
      restore_store rel_path target_drive target_root now roots (Map.lookup target_drive stores) w
        stores

  unfoldable pub restore_from_replica : Text → Text → ℕ → Roots → World → Stores → Restored
  restore_from_replica rel_path target_drive now roots w stores =
      restore_root rel_path target_drive now roots (Map.lookup target_drive roots) w stores
