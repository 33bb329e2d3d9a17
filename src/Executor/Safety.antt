-- ===== src/Executor/Safety.antt =====
-- The target of `atomic_write` in src/executor.cpp, in every state that the disk goes through.
use caravault.Base.{
  ◌≡◌, refl, ◌∙◌, ◌⊎◌, inl, inr, ℕ, zero, suc, Bool, true, false, Option, none, some, [], ◌=?◌,
  =?_iff, =?_refl, Text, text_ord, text, arith, Bool-cases, ◌||◌, is_empty, length, length-append,
  ap, All,
}
use caravault.Base.Map
use caravault.Base.Map.Erasing
use caravault.Base.Map.Erasing.{erase}
use caravault.Manifest.{FileMetadata, ManifestStore, begin_operation}
use caravault.Planner.Paths.{parent_dir, prefix}
use caravault.Executor.Disk.{
  File, Files, World, fault, tick, change, create_directories, truncate, append, append_found,
  set_found, rename_file, rename_found, remove_file, set_metadata,
}
use caravault.Executor.Writing.{
  Failure, tmp_path, chunk_size, suffix, copy_chunks, flush, copy_found, copy_file_contents,
  metadata_found, copy_metadata, verify_found, verify_hash, commit, commit_copy, write_target,
  finish_write, logged_write, atomic_write, handle, sql_error, source_mismatch, source_not_found,
  source_unreadable, cannot_open, write_failed, flush_failed, tmp_mismatch, filesystem_error,
}

tmp_path_lem : (target : Text) → (target =? tmp_path target) ≡ false
tmp_path_lem target = elim (Bool-cases (target =? tmp_path target)) [
  | inl y ↦
      let longer = ap length ((=?_iff target (tmp_path target)).0 y) in
      let stuck : ⊥ = omega (arith, longer, length-append target (text ".caravault.tmp")) in
      elim stuck [ ]
  | inr y ↦ y
]

module _ (sha256 : Text → Text) (target expected : Text) (old : Option File) where
  -- The target is as it was, or holds what was to be written.
  abbrev pub IsWhole : Files → Type 0
  IsWhole files =
      (Map.lookup target files ≡ old)
      ⊎ ((f : File) × (Map.lookup target files ≡ some f) × (sha256 f.content ≡ expected))

  abbrev pub IsSafe : World → Type 0
  IsSafe w = IsWhole w.files × All IsWhole w.history

  -- The target is as it was, now and before.
  abbrev pub IsUntouched : World → Type 0
  IsUntouched w = (Map.lookup target w.files ≡ old) × All IsWhole w.history

  IsSafe-of_untouched : (w : World) → IsUntouched w → IsSafe w
  IsSafe-of_untouched w (u, a) = (inl u, a)

  change-IsUntouched :
      (files : Files) (w : World)
      → Map.lookup target files ≡ Map.lookup target w.files
      → IsUntouched w
      → IsUntouched (change files w)
  change-IsUntouched files w h (u, a) = (h ∙ u, (inl u, a))

  insert_tmp-IsUntouched :
      (f : File) (w : World)
      → IsUntouched w
      → IsUntouched (change (Map.insert (tmp_path target) f w.files) w)
  insert_tmp-IsUntouched f w u =
      change-IsUntouched (Map.insert (tmp_path target) f w.files) w
        (Map.lookup-insert target (tmp_path target) f w.files ∙ rw (tmp_path_lem target) refl) u

  truncate-IsUntouched : (w : World) → IsUntouched w → IsUntouched (truncate (tmp_path target) w)
  unfolding truncate
  truncate-IsUntouched w u = insert_tmp-IsUntouched _ w u

  append-IsUntouched :
      (bytes : Text) (w : World) → IsUntouched w → IsUntouched (append (tmp_path target) bytes w)
  unfolding append
  append-IsUntouched bytes w u =
      elim (Map.lookup (tmp_path target) w.files)
        as (λ found. IsUntouched (append_found (tmp_path target) bytes found w)) [
          | none ↦ u
          | some f ↦ insert_tmp-IsUntouched _ w u
        ]

  set_metadata-IsUntouched :
      (g : File) (w : World) → IsUntouched w → IsUntouched (set_metadata g (tmp_path target) w)
  unfolding set_metadata
  set_metadata-IsUntouched g w u =
      elim (Map.lookup (tmp_path target) w.files)
        as (λ found. IsUntouched (set_found g (tmp_path target) found w)) [
          | none ↦ u
          | some f ↦ insert_tmp-IsUntouched _ w u
        ]

  remove_file-IsUntouched :
      (w : World) → IsUntouched w → IsUntouched (remove_file (tmp_path target) w)
  unfolding remove_file
  remove_file-IsUntouched w u = elim (Bool-cases (fault w)) [
    | inl y ↦ simp y u
    | inr y ↦ simp y (
        change-IsUntouched (erase (tmp_path target) w.files) w
          (Erasing.lookup-erase target (tmp_path target) w.files ∙ rw (tmp_path_lem target) refl) u)
  ]

  copy_chunks-IsUntouched :
      (fuel : ℕ) (left : Text) (w : World)
      → IsUntouched w
      → IsUntouched (copy_chunks fuel (tmp_path target) left w).1
  unfolding copy_chunks
  copy_chunks-IsUntouched zero left w u = u
  copy_chunks-IsUntouched (suc fuel) left w u = elim (Bool-cases (fault w || is_empty left)) [
    | inl y ↦ simp y u
    | inr y ↦ elim (Bool-cases (fault (tick w))) [
      | inl z ↦ simp (y, z) u
      | inr z ↦
          simp (y, z)
            (copy_chunks-IsUntouched fuel (suffix chunk_size left) _
              (append-IsUntouched (prefix chunk_size left) (tick w) u))
    ]
  ]

  flush-IsUntouched : (r : Bool × World) → IsUntouched r.1 → IsUntouched (flush r).1
  flush-IsUntouched (false, w) u = u
  flush-IsUntouched (true, w) u = ground arith

  copy_found-IsUntouched :
      (found : Option File) (w : World)
      → IsUntouched w
      → IsUntouched (copy_found (tmp_path target) found w).1
  unfolding copy_found
  copy_found-IsUntouched none w u = u
  copy_found-IsUntouched (some f) w u = elim (Bool-cases (fault w)) [
    | inl y ↦ simp y u
    | inr y ↦ elim (Bool-cases (fault (tick w))) [
      | inl z ↦ simp (y, z) u
      | inr z ↦
          simp (y, z)
            (flush-IsUntouched _ (
              copy_chunks-IsUntouched (length f.content) f.content _
                (truncate-IsUntouched (tick w) u)))
    ]
  ]

  metadata_found-IsUntouched :
      (found : Option File) (w : World)
      → IsUntouched w
      → IsUntouched (metadata_found (tmp_path target) found w)
  unfolding metadata_found
  metadata_found-IsUntouched none w u = u
  metadata_found-IsUntouched (some f) w u = elim (Bool-cases (fault w)) [
    | inl y ↦ simp y u
    | inr y ↦ simp y (set_metadata-IsUntouched f (tick w) u)
  ]

  -- The outcome of the write: on an error the target is untouched, else it is safe and holds what was
  -- to be written.
  abbrev pub IsSettled : Option Failure × World → Type 0
  IsSettled (some e, w) = IsUntouched w
  IsSettled (none, w) =
      IsSafe w × ((f : File) × (Map.lookup target w.files ≡ some f) × (sha256 f.content ≡ expected))

  rename_found-IsSettled :
      (found : Option File) (w v : World)
      → verify_found sha256 expected found v ≡ true
      → IsUntouched w
      → IsSettled (none, rename_found (tmp_path target) target found w)
  unfolding verify_found
  rename_found-IsSettled none w v h u = let stuck : ⊥ = ground arith in elim stuck [ ]
  rename_found-IsSettled (some f) w v h (u, a) =
      let at : Map.lookup target (Map.insert target f (erase (tmp_path target) w.files)) ≡ some f =
        Map.lookup-insert target target f (erase (tmp_path target) w.files)
        ∙ rw (=?_refl target) refl in
      let fits : sha256 f.content ≡ expected =
        (=?_iff (sha256 f.content) expected).0 (ground arith) in
      ((inr (f, at, fits), (inl u, a)), (f, at, fits))

  commit-IsSettled : (w : World) → IsUntouched w → IsSettled (commit sha256 target expected w)
  unfolding commit verify_hash rename_file
  commit-IsSettled w u = elim (Bool-cases (verify_hash sha256 (tmp_path target) expected w)) [
    | inr v ↦ elim (Bool-cases (fault (tick w))) [
      | inl z ↦ simp (v, z) (remove_file-IsUntouched (tick w) u)
      | inr z ↦ simp (v, z) (remove_file-IsUntouched (tick w) u)
    ]
    | inl v ↦ elim (Bool-cases (fault (tick w))) [
      | inl z ↦ simp (v, z) u
      | inr z ↦
          simp (v, z) (rename_found-IsSettled (Map.lookup (tmp_path target) w.files) (tick w) w v u)
    ]
  ]

  commit_copy-IsSettled :
      (src : Text) (r : Option Failure × World)
      → IsUntouched r.1
      → IsSettled (commit_copy sha256 src target expected r)
  unfolding commit_copy copy_metadata
  commit_copy-IsSettled src (some e, w) u = u
  commit_copy-IsSettled src (none, w) u =
      commit-IsSettled _ (metadata_found-IsUntouched (Map.lookup src w.files) w u)

  write_target-IsSettled :
      (src : Text) (w : World)
      → IsUntouched w
      → IsSettled (write_target sha256 src target expected w)
  unfolding write_target copy_file_contents
  write_target-IsSettled src w u =
      commit_copy-IsSettled src _ (copy_found-IsUntouched (Map.lookup src w.files) (tick w) u)

  -- What `atomic_write` returns: where a statement of SQL fails it may be behind the rename.
  abbrev pub IsWritten : Option Failure × World × ManifestStore → Type 0
  IsWritten (some sql_error, w, s) = IsSafe w
  IsWritten (e, w, s) = IsSettled (e, w)

  remove_file-IsSafe : (w : World) → IsSafe w → IsSafe (remove_file (tmp_path target) w)
  unfolding remove_file
  remove_file-IsSafe w (h, a) = elim (Bool-cases (fault w)) [
    | inl y ↦ simp y (h, a)
    | inr y ↦
        simp (y, Erasing.lookup-erase target (tmp_path target) w.files, tmp_path_lem target)
          (h, (h, a))
  ]

  IsWritten-of_untouched :
      (e : Failure) (w : World) (s : ManifestStore) → IsUntouched w → IsWritten (some e, w, s)
  IsWritten-of_untouched sql_error w s u = IsSafe-of_untouched w u
  IsWritten-of_untouched source_mismatch w s u = u
  IsWritten-of_untouched source_not_found w s u = u
  IsWritten-of_untouched source_unreadable w s u = u
  IsWritten-of_untouched cannot_open w s u = u
  IsWritten-of_untouched write_failed w s u = u
  IsWritten-of_untouched flush_failed w s u = u
  IsWritten-of_untouched tmp_mismatch w s u = u
  IsWritten-of_untouched filesystem_error w s u = u

  handle-IsWritten :
      (log_id : ℕ) (e : Failure) (w : World) (s : ManifestStore)
      → IsUntouched w
      → IsWritten (handle target log_id e w s)
  handle-IsWritten log_id e w s u =
      let w' = remove_file (tmp_path target) w in
      let u' = remove_file-IsUntouched w u in
      elim (Bool-cases (fault w')) [
        | inl y ↦ simp y (IsSafe-of_untouched w' u')
        | inr y ↦ simp y (IsWritten-of_untouched e (tick w') _ u')
      ]

  handle_sql-IsWritten :
      (log_id : ℕ) (w : World) (s : ManifestStore)
      → IsSafe w
      → IsWritten (handle target log_id sql_error w s)
  handle_sql-IsWritten log_id w s h = elim (Bool-cases (fault (remove_file (tmp_path target) w))) [
    | inl y ↦ simp y (remove_file-IsSafe w h)
    | inr y ↦ simp y (remove_file-IsSafe w h)
  ]

  finish_write-IsWritten :
      (meta : FileMetadata) (log_id : ℕ) (s : ManifestStore) (r : Option Failure × World)
      → IsSettled r
      → IsWritten (finish_write target meta log_id s r)
  unfolding finish_write
  finish_write-IsWritten meta log_id s (none, w) h = elim (Bool-cases (fault w)) [
    | inl y ↦ simp y (handle_sql-IsWritten log_id (tick w) s h.0)
    | inr y ↦ elim (Bool-cases (fault (tick w))) [
      | inl z ↦ simp (y, z) (handle_sql-IsWritten log_id (tick (tick w)) _ h.0)
      | inr z ↦ simp (y, z) h
    ]
  ]
  finish_write-IsWritten meta log_id s (some e, w) u = handle-IsWritten log_id e w s u

  logged_write-IsWritten :
      (src : Text) (meta : FileMetadata) (now : ℕ) (w : World) (s : ManifestStore)
      → IsUntouched w
      → IsWritten (logged_write sha256 src target expected meta now w s)
  unfolding logged_write begin_operation
  logged_write-IsWritten src meta now w s u = elim (Bool-cases (fault w)) [
    | inl y ↦ simp y (IsSafe-of_untouched w u)
    | inr y ↦ simp y (finish_write-IsWritten meta _ _ _ (write_target-IsSettled src (tick w) u))
  ]

  atomic_write-IsUntouched :
      (src : Text) (meta : FileMetadata) (now : ℕ) (w : World) (s : ManifestStore)
      → IsUntouched w
      → IsWritten (atomic_write sha256 src target expected meta now w s)
  unfolding atomic_write create_directories
  atomic_write-IsUntouched src meta now w s u =
      elim (Bool-cases (verify_hash sha256 src expected w)) [
        | inr v ↦ simp v u
        | inl v ↦ elim (Bool-cases (is_empty (parent_dir target))) [
          | inl p ↦ simp (v, p) (logged_write-IsWritten src meta now (tick w) s u)
          | inr p ↦ elim (Bool-cases (fault (tick w))) [
            | inl z ↦ simp (v, p, z) u
            | inr z ↦ simp (v, p, z) (logged_write-IsWritten src meta now _ s u)
          ]
        ]
      ]

-- Whatever fails, calls on files and statements of SQL, in every state that a disk without a history goes through the
-- target is as it was or has contents of the expected hash; at its end the first where the write throws an
-- error that is not of SQL, and the second where it does not throw.
pub atomic_write-IsWritten :
    (sha256 : Text → Text) (src target expected : Text) (meta : FileMetadata) (now : ℕ) (w : World)
    (s : ManifestStore)
    → w.history ≡ []
    → IsWritten sha256 target expected
        (Map.lookup target w.files)
        (atomic_write sha256 src target expected meta now w s)
atomic_write-IsWritten sha256 src target expected meta now w s h =
    atomic_write-IsUntouched sha256 target expected (Map.lookup target w.files) src meta now w s
      (refl, rw h tt)
