-- ===== src/Manifest.antt =====
-- `ManifestStore` of src/manifest_store.cpp and include/manifest_store.hpp: the four tables that its
-- SQL statements keep, and one function for each method. A table is the list of its rows, and a
-- SELECT without ORDER BY returns them as they stand. The statements succeed.
pub mod Tables
pub mod Files
pub mod Log
pub mod Deletion
pub mod Retry
use caravault.Base.{
  ℕ, zero, ◌+◌, ◌≡◌, Bool, true, false, Option, none, some, List, [], ◌∷◌, ◌++◌, ◌==◌, ◌=?◌,
  if◌then◌else◌, Text, text_ord, cmp_text, not, select, ◌&&◌,
}
use caravault.Base.Results.{Result, ok, err, ◌>>=◌}
use caravault.VersionVector.{VersionVector, empty, increment}
use caravault.VersionVector.Json.{JsonError, to_json, from_json}

pub record FileMetadata : Type 0 where
  pub path : Text
  pub hash : Text
  pub size : ℕ
  pub mtime : ℕ
  pub version_vector : VersionVector
  pub tombstone : Bool
  pub corrupted : Bool
  pub inode : Option ℕ

pub record PendingOperation : Type 0 where
  pub id : ℕ
  pub operation : Text
  pub path : Text
  pub timestamp : ℕ

-- A row of `files`; the version vector is stored as its JSON text.
pub record FileRow : Type 0 where
  pub path : Text
  pub hash : Text
  pub size : ℕ
  pub mtime : ℕ
  pub version_vector : Text
  pub tombstone : Bool
  pub corrupted : Bool
  pub inode : Option ℕ

pub record DriveRow : Type 0 where
  pub drive_id : Text
  pub last_seen : ℕ

pub record NodeRow : Type 0 where
  pub path : Text
  pub level : ℕ
  pub hash : Text

pub record LogRow : Type 0 where
  pub id : ℕ
  pub operation : Text
  pub path : Text
  pub timestamp : ℕ
  pub completed : Bool

-- `last_id` is the row id that AUTOINCREMENT gave last.
pub record ManifestStore : Type 0 where
  pub drives : List DriveRow
  pub files : List FileRow
  pub merkle_nodes : List NodeRow
  pub transaction_log : List LogRow
  pub last_id : ℕ

-- The tables of `create_schema`.
abbrev pub fresh : ManifestStore
fresh = record { drives = []; files = []; merkle_nodes = []; transaction_log = []; last_id = 0 }

-- `sqlite3_bind_text(…, s.c_str(), -1, …)`: the bytes before the first NUL.
unfoldable pub c_str : Text → Text
c_str [] = []
c_str (c ∷ s) = let rest = c_str s in if c == 0 then [] else c ∷ rest

-- INSERT … ON CONFLICT … DO UPDATE, over a test for the primary key: the row in conflict is
-- updated in its place, and a new row is appended.
unfoldable pub upsert {ℓ} : {R : Type ℓ} → (R → Bool) → R → List R → List R
upsert same row [] = row ∷ []
upsert same row (r ∷ rows) =
    let rest = upsert same row rows in if same r then row ∷ rows else r ∷ rest

unfoldable pub find_row {ℓ} : {R : Type ℓ} → (R → Bool) → List R → Option R
find_row same [] = none
find_row same (r ∷ rows) = if same r then some r else find_row same rows

-- DELETE … WHERE
unfoldable pub delete_rows {ℓ} : {R : Type ℓ} → (R → Bool) → List R → List R
delete_rows same [] = []
delete_rows same (r ∷ rows) = let rest = delete_rows same rows in if same r then rest else r ∷ rest

-- UPDATE … WHERE
unfoldable pub update_rows {ℓ} : {R : Type ℓ} → (R → Bool) → (R → R) → List R → List R
update_rows same change [] = []
update_rows same change (r ∷ rows) = (if same r then change r else r) ∷ update_rows same change rows

unfoldable pub register_drive : Text → ℕ → ManifestStore → ManifestStore
register_drive drive_id now s = record s {
  drives =
      upsert (λ r. r.drive_id =? c_str drive_id)
        (record { drive_id = c_str drive_id; last_seen = now }) s.drives;
}

drive_ids : List DriveRow → List Text
drive_ids [] = []
drive_ids (r ∷ rows) = r.drive_id ∷ drive_ids rows

unfoldable pub get_all_drives : ManifestStore → List Text
unfolding drive_ids
get_all_drives s = drive_ids s.drives

unfoldable pub update_last_seen : Text → ℕ → ManifestStore → ManifestStore
update_last_seen drive_id now s = record s {
  drives =
      update_rows (λ r. r.drive_id =? c_str drive_id) (λ r. record r { last_seen = now }) s.drives;
}

unfoldable pub file_row : FileMetadata → FileRow
file_row m = record {
  path = c_str m.path;
  hash = c_str m.hash;
  size = m.size;
  mtime = m.mtime;
  version_vector = c_str (to_json m.version_vector);
  tombstone = m.tombstone;
  corrupted = m.corrupted;
  inode = m.inode;
}

abbrev pub has_path : Text → FileRow → Bool
has_path path r = r.path =? path

unfoldable pub upsert_file : FileMetadata → ManifestStore → ManifestStore
upsert_file m s = record s { files = upsert (has_path (c_str m.path)) (file_row m) s.files }

-- Throws what `from_json` throws.
unfoldable pub row_to_file_metadata : FileRow → Result JsonError FileMetadata
row_to_file_metadata r = from_json r.version_vector >>= λ v. ok (record {
  path = r.path;
  hash = r.hash;
  size = r.size;
  mtime = r.mtime;
  version_vector = v;
  tombstone = r.tombstone;
  corrupted = r.corrupted;
  inode = r.inode;
})

unfoldable pub read_row : Option FileRow → Result JsonError (Option FileMetadata)
read_row none = ok none
read_row (some r) = row_to_file_metadata r >>= λ m. ok (some m)

unfoldable pub get_file : Text → ManifestStore → Result JsonError (Option FileMetadata)
unfolding read_row
get_file path s = read_row (find_row (has_path (c_str path)) s.files)

unfoldable pub read_rows : List FileRow → Result JsonError (List FileMetadata)
read_rows [] = ok []
read_rows (r ∷ rows) = do m ← row_to_file_metadata r; ms ← read_rows rows; ok (m ∷ ms)

unfoldable pub get_all_files : ManifestStore → Result JsonError (List FileMetadata)
unfolding read_rows
get_all_files s = read_rows s.files

abbrev pub new_tombstone : Text → ℕ → FileMetadata
new_tombstone path now = record {
  path = path;
  hash = [];
  size = 0;
  mtime = now;
  version_vector = empty;
  tombstone = false;
  corrupted = false;
  inode = none;
}

abbrev pub value_or {ℓ} : {A : Type ℓ} → A → Option A → A
value_or d none = d
value_or d (some a) = a

-- Tombstones the file and advances the clock of the drive.
unfoldable pub mark_deleted : Text → Text → ℕ → ManifestStore → Result JsonError ManifestStore
mark_deleted path drive_id now s = do
  existing ← get_file path s
  let m = value_or (new_tombstone path now) existing
  ok (
      upsert_file
        (record m { tombstone = true; version_vector = increment drive_id m.version_vector }) s)

unfoldable pub delete_file : Text → ManifestStore → ManifestStore
delete_file path s = record s { files = delete_rows (has_path (c_str path)) s.files }

abbrev pub is_node : Text → ℕ → NodeRow → Bool
is_node path level r = (r.path =? path) && (r.level == level)

unfoldable pub upsert_merkle_node : Text → Text → ℕ → ManifestStore → ManifestStore
upsert_merkle_node path hash level s = record s {
  merkle_nodes =
      upsert (is_node (c_str path) level)
        (record { path = c_str path; level = level; hash = c_str hash }) s.merkle_nodes;
}

node_hash : Option NodeRow → Option Text
node_hash none = none
node_hash (some r) = some r.hash

unfoldable pub get_merkle_hash : Text → ℕ → ManifestStore → Option Text
unfolding node_hash
get_merkle_hash path level s = node_hash (find_row (is_node (c_str path) level) s.merkle_nodes)

-- AUTOINCREMENT gives an id above every id that was ever given.
unfoldable pub begin_operation : Text → Text → ℕ → ManifestStore → ManifestStore × ℕ
begin_operation operation path now s =
    let id = s.last_id + 1 in
    (
      record s {
        transaction_log =
            s.transaction_log
            ++ (record {
              id = id;
              operation = c_str operation;
              path = c_str path;
              timestamp = now;
              completed = false;
            }
                ∷ []);
        last_id = id;
      },
      id,
    )

unfoldable pub complete_operation : ℕ → ManifestStore → ManifestStore
complete_operation id s = record s {
  transaction_log =
      update_rows (λ r. r.id == id) (λ r. record r { completed = true }) s.transaction_log;
}

pending : List LogRow → List PendingOperation
pending [] = []
pending (r ∷ rows) =
    let rest = pending rows in
    if r.completed
    then rest
    else record { id = r.id; operation = r.operation; path = r.path; timestamp = r.timestamp }
      ∷ rest

-- ORDER BY id: rows are appended with ascending ids, so the log stands in that order.
unfoldable pub get_incomplete_operations : ManifestStore → List PendingOperation
unfolding pending
get_incomplete_operations s = pending s.transaction_log
