-- ===== src/Commands.antt =====
-- What the commands of src/main.cpp share: the drives that they act on, the manifests that they open, and
-- the names that they print. Mount points come as `detect_drives` finds them. What goes to standard error is
-- left out.
pub mod Listing
pub mod Opening
pub mod Merging
pub mod Settling
pub mod Sweeping
pub mod Scanned
pub mod Scanning
pub mod Queries
pub mod Resolving
pub mod Syncing
pub mod Agreeing
use caravault.Base.{
  ℕ, Bool, true, false, Option, none, some, List, [], ◌∷◌, ◌++◌, ◌&&◌, ◌||◌, ◌==◌, leb, is_empty,
  if◌then◌else◌, Text, text_ord, text,
}
use caravault.Base.Map
use caravault.Base.Map.{Map}
use caravault.Base.Results.{Result, ok, err, ◌>>=◌}
use caravault.VersionVector.Json.{JsonError, decimal, max_digits}
use caravault.Manifest.{
  ManifestStore, FileMetadata, fresh, get_all_drives, get_all_files, register_drive,
}
use caravault.Conflict.{
  Manifests, ResolutionStrategy, dominant_version, majority_quorum, tombstone_wins, last_write_wins,
  copy_all_versions, manual_resolution,
}
use caravault.Planner.Operations.{SyncOpType, copy, replace, remove, rename, mkdir}
use caravault.Executor.{Stores, Roots}

unfoldable pub sync_op_type_str : SyncOpType → Text
sync_op_type_str copy = text "COPY"
sync_op_type_str replace = text "REPLACE"
sync_op_type_str remove = text "DELETE"
sync_op_type_str rename = text "RENAME"
sync_op_type_str mkdir = text "MKDIR"

unfoldable pub resolution_strategy_str : ResolutionStrategy → Text
resolution_strategy_str dominant_version = text "DOMINANT_VERSION"
resolution_strategy_str majority_quorum = text "MAJORITY_QUORUM"
resolution_strategy_str tombstone_wins = text "TOMBSTONE_WINS"
resolution_strategy_str last_write_wins = text "LAST_WRITE_WINS"
resolution_strategy_str copy_all_versions = text "COPY_ALL_VERSIONS"
resolution_strategy_str manual_resolution = text "MANUAL_RESOLUTION"

-- A number as `<<` prints it.
abbrev pub number : ℕ → Text
number n = decimal max_digits n

-- `std::isalnum` in the locale of C.
abbrev pub is_alnum : ℕ → Bool
is_alnum c = (leb 48 c && leb c 57) || ((leb 65 c && leb c 90) || (leb 97 c && leb c 122))

unfoldable pub alnum_of : Text → Text
alnum_of [] = []
alnum_of (c ∷ hint) = let rest = alnum_of hint in if is_alnum c then c ∷ rest else rest

abbrev pub first_or : Text → List Text → Text
first_or d [] = d
first_or d (x ∷ xs) = x

-- The drive id that a hint gives.
abbrev pub id_of_hint : Text → Text
id_of_hint hint = if is_empty (alnum_of hint) then text "drive" else alnum_of hint

unfoldable pub first_or_register : Text → ℕ → ManifestStore → List Text → Text × ManifestStore
first_or_register hint now s [] = (id_of_hint hint, register_drive (id_of_hint hint) now s)
first_or_register hint now s (id ∷ ids) = (id, s)

abbrev pub get_or_register_drive_id : Text → ℕ → ManifestStore → Text × ManifestStore
get_or_register_drive_id hint now s = first_or_register hint now s (get_all_drives s)

-- The mount points to act on; `none` is the exit with an error.
unfoldable pub resolve_drive_targets : Bool → List Text → List Text → Option (List Text)
resolve_drive_targets true drive_paths detected = if is_empty detected then none else some detected
resolve_drive_targets false drive_paths detected =
    if is_empty drive_paths then none else some drive_paths

-- A command ends with an error where there are no drives to act on.
unfoldable pub on_targets {ℓ} : {A : Type ℓ} → A → (List Text → A) → Option (List Text) → A
on_targets failure command none = failure
on_targets failure command (some targets) = command targets

-- A database that is there: what it holds, or none where opening it throws.
abbrev pub Databases : Type 0
Databases = Map Text (Option ManifestStore)

unfoldable pub after_slash : Text → Text → Text
after_slash name [] = name
after_slash name (c ∷ path) =
    if c == 47 then after_slash [] path else after_slash (name ++ c ∷ []) path

-- `mount.filename()`
abbrev pub filename : Text → Text
filename path = after_slash [] path

-- The registered id, or the name of the mount point.
abbrev pub drive_id_of : Text → ManifestStore → Text
drive_id_of mount s = first_or (filename mount) (get_all_drives s)

-- `manifests` and `drive_roots`; the stores are their own owners.
pub record Opened : Type 0 where
  pub manifests : Stores
  pub drive_roots : Roots

abbrev pub open_found : Text → Option (Option ManifestStore) → Opened → Opened
open_found mount none o = o
open_found mount (some none) o = o
open_found mount (some (some s)) o = record {
  manifests = Map.insert (drive_id_of mount s) s o.manifests;
  drive_roots = Map.insert (drive_id_of mount s) mount o.drive_roots;
}

unfoldable pub open_mounts : Databases → List Text → Opened → Opened
open_mounts databases [] o = o
open_mounts databases (mount ∷ mounts) o =
    open_mounts databases mounts (open_found mount (Map.lookup mount databases) o)

abbrev pub open_drive_manifests : Databases → List Text → Opened
open_drive_manifests databases mounts =
    open_mounts databases mounts (record { manifests = []; drive_roots = [] })

-- What `get_all_files` returns for each store.
unfoldable pub read_manifests : Stores → Result JsonError Manifests
read_manifests [] = ok []
read_manifests ((drive_id, s) ∷ stores) =
    let rest = read_manifests stores in
    get_all_files s >>= λ files. rest >>= λ ms. ok ((drive_id, some files) ∷ ms)
