-- ===== src/Examples/Stores.antt =====
-- Manifests of src/manifest_store.cpp at concrete entries.
use caravault.Base.{
  ◌≡◌, ◌∷◌, [], arith, text, Text, text_ord, ◌=?◌, if◌then◌else◌, false, none, some, ◌⊎◌, ℕ, zero,
  suc, refl,
}
use caravault.Base.Results.{ok, err}
use caravault.Base.Map
use caravault.VersionVector.{increment}
use caravault.Manifest.{
  FileMetadata, ManifestStore, fresh, upsert_file, get_file, delete_file, mark_deleted,
  begin_operation, complete_operation, get_incomplete_operations,
}
use caravault.Manifest.Tables.{NoNul}
use caravault.Manifest.Files.{
  IsStorable, IsReadable, get_file-upsert_file, get_file-delete_file, upsert_file-IsReadable,
  get_file_total,
}
use caravault.Manifest.Deletion.{mark_deleted_lem, before_deletion, tombstone_of, KeepsTables}
use caravault.Manifest.Retry.{
  ResultCode, sqlite_ok, sqlite_busy, sqlite_locked, try_from, exec_with_retry, IsRetried,
  exec_with_retry-IsRetried,
}
use caravault.Manifest.Log.{complete-begin}
use caravault.Examples.Vectors.{ann, by_ann, by_ann-IsValid}

abbrev pub note_path : Text
note_path = text "a/note"

abbrev pub note : FileMetadata
note = record {
  path = note_path;
  hash = text "h1";
  size = 3;
  mtime = 7;
  version_vector = by_ann;
  tombstone = false;
  corrupted = false;
  inode = none;
}

pub note-IsStorable : IsStorable note
note-IsStorable = record {
  path = omega arith;
  hash = omega arith;
  drive_ids = unfold increment Map.insert in omega arith;
  vector = by_ann-IsValid;
}

abbrev pub one_note : ManifestStore
one_note = upsert_file note fresh

get_file-upsert_file_example :
    get_file note_path one_note
    ≡ (if note_path =? note_path then ok (some note) else get_file note_path fresh)
get_file-upsert_file_example =
    get_file-upsert_file note fresh note_path note-IsStorable (omega arith)

get_file-delete_file_example :
    get_file note_path (delete_file note_path one_note)
    ≡ (if note_path =? note_path then ok none else get_file note_path one_note)
get_file-delete_file_example =
    get_file-delete_file note_path note_path one_note (omega arith) (omega arith)

one_note-IsReadable : IsReadable one_note.files
one_note-IsReadable = upsert_file-IsReadable note fresh note-IsStorable tt

get_file_total_example :
    (get_file note_path one_note ≡ ok none)
    ⊎ ((m : FileMetadata) × (get_file note_path one_note ≡ ok (some m))
        × IsStorable m
        × (m.path ≡ note_path))
get_file_total_example = get_file_total note_path one_note (omega arith) one_note-IsReadable

mark_deleted_lem_example :
    let m = tombstone_of ann (before_deletion note_path 9 (get_file note_path one_note)) in
    (s' : ManifestStore) × (mark_deleted note_path ann 9 one_note ≡ ok s')
    × ((q : Text)
        → NoNul q
        → get_file q s' ≡ (if note_path =? q then ok (some m) else get_file q one_note))
    × KeepsTables one_note s'
    × IsReadable s'.files
mark_deleted_lem_example =
    mark_deleted_lem note_path ann 9 one_note (omega arith) (omega arith) one_note-IsReadable

abbrev writing : Text
writing = text "WRITE"

complete-begin_example :
    let (t, id) = begin_operation writing note_path 5 fresh in
    get_incomplete_operations (complete_operation id t) ≡ get_incomplete_operations fresh
complete-begin_example = complete-begin fresh writing note_path 5 (omega arith)

-- The database is busy, then locked, then free.
abbrev answers : ℕ → ResultCode
answers zero = sqlite_busy
answers (suc zero) = sqlite_locked
answers (suc (suc n)) = sqlite_ok

retries :
    (exec_with_retry answers 5 10 ≡ (10 ∷ 20 ∷ [], ok tt))
    × (exec_with_retry answers 1 10 ≡ (10 ∷ [], err 2))
unfolding exec_with_retry try_from
retries = (refl, refl)

exec_with_retry-IsRetried_example : IsRetried answers 1 0 10 (exec_with_retry answers 1 10)
exec_with_retry-IsRetried_example = exec_with_retry-IsRetried answers 1 10 (omega arith)
