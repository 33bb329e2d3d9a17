-- ===== src/Executor/Writing.antt =====
-- `verify_hash`, `copy_file_contents`, `copy_metadata` and `atomic_write` of src/executor.cpp. SHA-256
-- is a parameter. Calls to the progress reporter are left out, and with them the variant of the copy
-- that differs by them alone.
use caravault.Base.{
  ℕ, zero, suc, Bool, true, false, Option, none, some, [], ◌∷◌, ◌++◌, ◌=?◌, if◌then◌else◌, Text,
  text_ord, text, not, is_empty, length, ◌&&◌, ◌||◌,
}
use caravault.Base.Map
use caravault.Manifest.{
  FileMetadata, ManifestStore, upsert_file, begin_operation, complete_operation,
}
use caravault.Planner.Paths.{parent_dir, prefix}
use caravault.Executor.Disk.{
  File, World, fault, tick, create_directories, truncate, append, rename_file, remove_file,
  set_metadata,
}

-- What is thrown, by its cause.
pub data Failure : Type 0 where
  source_mismatch source_not_found source_unreadable cannot_open : Failure
  write_failed flush_failed tmp_mismatch filesystem_error sql_error : Failure

abbrev pub tmp_path : Text → Text
tmp_path target = target ++ text ".caravault.tmp"

-- `kCopyChunkSize`, the size of the buffer.
abbrev pub chunk_size : ℕ
chunk_size = 65536

abbrev pub suffix : ℕ → Text → Text
suffix zero s = s
suffix (suc n) [] = []
suffix (suc n) (c ∷ s) = suffix n s

-- The loop of the copy, on fuel that bounds the length of what is left to read. A read that fails
-- delivers nothing and ends the loop as the end of the file does.
unfoldable pub copy_chunks : ℕ → Text → Text → World → Bool × World
copy_chunks zero dst left w = (true, tick w)
copy_chunks (suc fuel) dst left w =
    let later =
      copy_chunks fuel dst (suffix chunk_size left)
        (append dst (prefix chunk_size left) (tick w)) in
    if fault w || is_empty left
    then (true, tick w)
    else if fault (tick w)
    then (false, tick (tick w))
    else later

abbrev pub flush : Bool × World → Option Failure × World
flush (false, w) = (some write_failed, w)
flush (true, w) = if fault w then (some flush_failed, tick w) else (none, tick w)

unfoldable pub copy_found : Text → Option File → World → Option Failure × World
copy_found dst none w = (some source_not_found, tick w)
copy_found dst (some f) w =
    if fault w
    then (some source_unreadable, tick w)
    else if fault (tick w)
    then (some cannot_open, tick (tick w))
    else flush (copy_chunks (length f.content) dst f.content (truncate dst (tick w)))

unfoldable pub copy_file_contents : Text → Text → World → Option Failure × World
copy_file_contents src dst w = copy_found dst (Map.lookup src w.files) w

unfoldable pub metadata_found : Text → Option File → World → World
metadata_found dst none w = tick w
metadata_found dst (some f) w = if fault w then tick w else set_metadata f dst (tick w)

-- It gives up without a word where `stat` fails.
unfoldable pub copy_metadata : Text → Text → World → World
copy_metadata src dst w = metadata_found dst (Map.lookup src w.files) w

-- The handler, whose `complete_operation` may throw an error of its own.
abbrev pub handle :
    Text → ℕ → Failure → World → ManifestStore → Option Failure × World × ManifestStore
handle target log_id e w s =
    let w' = remove_file (tmp_path target) w in
    if fault w'
    then (some sql_error, tick w', s)
    else (some e, tick w', complete_operation log_id s)

-- The rest of the `try` block: the two statements of SQL may fail, and a statement that fails changes nothing.
unfoldable pub finish_write :
    Text
    → FileMetadata
    → ℕ
    → ManifestStore
    → Option Failure × World
    → Option Failure × World × ManifestStore
finish_write target new_meta log_id s (none, w) =
    if fault w
    then handle target log_id sql_error (tick w) s
    else if fault (tick w)
    then handle target log_id sql_error (tick (tick w)) (upsert_file new_meta s)
    else (none, tick (tick w), complete_operation log_id (upsert_file new_meta s))
finish_write target new_meta log_id s (some e, w) = handle target log_id e w s

module _ (sha256 : Text → Text) where
  unfoldable pub verify_found : Text → Option File → World → Bool
  verify_found expected none w = false
  verify_found expected (some f) w = not (fault w) && (sha256 f.content =? expected)

  -- `verify_hash`: false on any error. A read that fails is taken for a hash that differs.
  unfoldable pub verify_hash : Text → Text → World → Bool
  verify_hash path expected w = verify_found expected (Map.lookup path w.files) w

  -- The check of the temporary file and its rename.
  unfoldable pub commit : Text → Text → World → Option Failure × World
  commit target expected w =
      if not (verify_hash (tmp_path target) expected w)
      then (
        (if fault (tick w) then some filesystem_error else some tmp_mismatch),
        remove_file (tmp_path target) (tick w),
      )
      else if fault (tick w)
      then (some filesystem_error, tick (tick w))
      else (none, rename_file (tmp_path target) target (tick w))

  unfoldable pub commit_copy : Text → Text → Text → Option Failure × World → Option Failure × World
  commit_copy src target expected (some e, w) = (some e, w)
  commit_copy src target expected (none, w) =
      commit target expected (copy_metadata src (tmp_path target) w)

  -- The body of the `try` block before the manifest is written. The first call is `file_size`.
  unfoldable pub write_target : Text → Text → Text → World → Option Failure × World
  write_target src target expected w =
      commit_copy src target expected (copy_file_contents src (tmp_path target) (tick w))

  -- `begin_operation` stands before the `try` block.
  unfoldable pub logged_write :
      Text
      → Text
      → Text
      → FileMetadata
      → ℕ
      → World
      → ManifestStore
      → Option Failure × World × ManifestStore
  logged_write src target expected new_meta now w s =
      let (begun, log_id) = begin_operation (text "WRITE") target now s in
      if fault w
      then (some sql_error, tick w, s)
      else finish_write target new_meta log_id begun (write_target src target expected (tick w))

  -- `now` is the time of the log entry. Of a file directly below the root directory no parent is made.
  unfoldable pub atomic_write :
      Text
      → Text
      → Text
      → FileMetadata
      → ℕ
      → World
      → ManifestStore
      → Option Failure × World × ManifestStore
  atomic_write src target expected new_meta now w s =
      if not (verify_hash src expected w)
      then (some source_mismatch, tick w, s)
      else if is_empty (parent_dir target)
      then logged_write src target expected new_meta now (tick w) s
      else if fault (tick w)
      then (some filesystem_error, tick (tick w), s)
      else logged_write src target expected new_meta now
          (create_directories (parent_dir target) (tick w)) s
