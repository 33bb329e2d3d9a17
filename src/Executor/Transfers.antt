-- ===== src/Executor/Transfers.antt =====
-- What a copy or a replacement of `execute` in src/executor.cpp leaves on the disk and in the store.
use caravault.Base.{
  ◌≡◌, refl, ◌∙◌, ◌⊎◌, inl, inr, ℕ, true, Option, none, some, [], ◌||◌, not, =?_refl, Text,
  text_ord, Bool-cases, is_empty,
}
use caravault.Base.Map
use caravault.Base.Results.{ok}
use caravault.Manifest.{FileMetadata, ManifestStore, get_file, upsert_file, complete_operation}
use caravault.Manifest.Files.{IsStorable, get_file-upsert_file}
use caravault.Planner.Operations.{SyncOp, copy, replace}
use caravault.Planner.Paths.{parent_dir}
use caravault.Executor.{
  Stores, Roots, Outcome, execute, copied, copy_version, copy_from, execute_copy, dispatch,
  with_store, with_root,
}
use caravault.Executor.Disk.{File, World, fault, tick, join, exists, remove_file}
use caravault.Executor.Writing.{
  Failure, tmp_path, sql_error, verify_hash, write_target, handle, finish_write, logged_write,
  atomic_write,
}
use caravault.Executor.Safety.{IsWritten, atomic_write-IsWritten}

-- A write that does not throw leaves this entry in the store.
abbrev IsStored : FileMetadata → Option Failure × World × ManifestStore → Type 0
IsStored m (some e, w, s) = Unit
IsStored m (none, w, s) = get_file m.path s ≡ ok (some m)

module _ (target : Text) (m : FileMetadata) (storable : IsStorable m) where
  handle-IsStored :
      (log_id : ℕ) (e : Failure) (w : World) (s : ManifestStore)
      → IsStored m (handle target log_id e w s)
  handle-IsStored log_id e w s = elim (Bool-cases (fault (remove_file (tmp_path target) w))) [
    | inl y ↦ simp y tt
    | inr y ↦ simp y tt
  ]

  stored :
      (log_id : ℕ) (s : ManifestStore)
      → get_file m.path (complete_operation log_id (upsert_file m s)) ≡ ok (some m)
  unfolding complete_operation get_file
  stored log_id s =
      get_file-upsert_file m s m.path storable storable.path ∙ rw (=?_refl m.path) refl

  finish_write-IsStored :
      (log_id : ℕ) (s : ManifestStore) (r : Option Failure × World)
      → IsStored m (finish_write target m log_id s r)
  unfolding finish_write
  finish_write-IsStored log_id s (some e, w) = handle-IsStored log_id e w s
  finish_write-IsStored log_id s (none, w) = elim (Bool-cases (fault w)) [
    | inl y ↦ simp y (handle-IsStored log_id sql_error (tick w) s)
    | inr y ↦ elim (Bool-cases (fault (tick w))) [
      | inl z ↦ simp (y, z) (handle-IsStored log_id sql_error (tick (tick w)) (upsert_file m s))
      | inr z ↦ simp (y, z) (stored log_id s)
    ]
  ]

  logged_write-IsStored :
      (sha256 : Text → Text) (src expected : Text) (now : ℕ) (w : World) (s : ManifestStore)
      → IsStored m (logged_write sha256 src target expected m now w s)
  unfolding logged_write
  logged_write-IsStored sha256 src expected now w s = elim (Bool-cases (fault w)) [
    | inl y ↦ simp y tt
    | inr y ↦ simp y (finish_write-IsStored _ _ (write_target sha256 src target expected (tick w)))
  ]

  atomic_write-IsStored :
      (sha256 : Text → Text) (src expected : Text) (now : ℕ) (w : World) (s : ManifestStore)
      → IsStored m (atomic_write sha256 src target expected m now w s)
  unfolding atomic_write
  atomic_write-IsStored sha256 src expected now w s =
      elim (Bool-cases (verify_hash sha256 src expected w)) [
        | inr v ↦ simp v tt
        | inl v ↦ elim (Bool-cases (is_empty (parent_dir target))) [
          | inl p ↦ simp (v, p) (logged_write-IsStored sha256 src expected now (tick w) s)
          | inr p ↦ elim (Bool-cases (fault (tick w))) [
            | inl z ↦ simp (v, p, z) tt
            | inr z ↦ simp (v, p, z) (logged_write-IsStored sha256 src expected now _ s)
          ]
        ]
      ]

module _ (sha256 : Text → Text) (target expected tgt : Text) (m : FileMetadata) where
  -- The target has contents of the expected hash, and the drive's store the entry.
  abbrev pub IsTransferred : Outcome → Type 0
  IsTransferred o =
      ((f : File) × (Map.lookup target o.world.files ≡ some f) × (sha256 f.content ≡ expected))
      × ((t : ManifestStore) × (Map.lookup tgt o.stores ≡ some t)
          × (get_file m.path t ≡ ok (some m)))

  copied-IsTransferred :
      (size : ℕ) (stores : Stores) (old : Option File) (r : Option Failure × World × ManifestStore)
      → IsWritten sha256 target expected old r
      → IsStored m r
      → (copied tgt size stores r).result.success ≡ true
      → IsTransferred (copied tgt size stores r)
  unfolding copied
  copied-IsTransferred size stores old (some e, w, s) h k t = absurd (cc t)
  copied-IsTransferred size stores old (none, w, s) (safe, at) k t =
      (at, (s, Map.lookup-insert tgt tgt s stores ∙ rw (=?_refl tgt) refl, k))

-- Where an operation is reported as a success, it has transferred the file.
abbrev HasEffect : (Text → Text) → Text → Text → Text → FileMetadata → Outcome → Type 0
HasEffect sha256 target expected tgt m o =
    o.result.success ≡ true → IsTransferred sha256 target expected tgt m o

module _ (sha256 : Text → Text) (junk : ℕ × ℕ) (roots : Roots) (op : SyncOp) (now : ℕ)
    (stores : Stores) (root src_root : Text) (s src_store : ManifestStore) (meta : FileMetadata)
    (storable : IsStorable (record meta { version_vector = op.new_version_vector })) where
  abbrev new_meta : FileMetadata
  new_meta = record meta { version_vector = op.new_version_vector }

  abbrev Effect : Outcome → Type 0
  Effect = HasEffect sha256 (join root op.path) meta.hash op.target_drive_id new_meta

  execute_copy-HasEffect :
      (w : World)
      → w.history ≡ []
      → Map.lookup op.source_drive_id stores ≡ some src_store
      → get_file op.path src_store ≡ ok (some meta)
      → Effect (execute_copy sha256 (some src_root) root s op now w stores)
  unfolding execute_copy copy_from copy_version
  execute_copy-HasEffect w fresh u found = elim (Bool-cases (not (exists src_root w) || fault w)) [
    | inl y ↦ simp y (λ d. absurd (cc d))
    | inr y ↦
        simp (y, u, found)
          (copied-IsTransferred sha256 (join root op.path) meta.hash op.target_drive_id new_meta
            meta.size stores (Map.lookup (join root op.path) w.files) _
            (atomic_write-IsWritten sha256 (join src_root op.path) (join root op.path) meta.hash
              new_meta now (tick w) s fresh)
            (atomic_write-IsStored (join root op.path) new_meta storable sha256
              (join src_root op.path) meta.hash now (tick w) s))
  ]

  dispatch-HasEffect :
      (w : World)
      → (op.type ≡ copy) ⊎ (op.type ≡ replace)
      → w.history ≡ []
      → Map.lookup op.source_drive_id roots ≡ some src_root
      → Map.lookup op.source_drive_id stores ≡ some src_store
      → get_file op.path src_store ≡ ok (some meta)
      → Effect (dispatch sha256 junk roots op now root s w stores)
  unfolding dispatch execute_copy copy_from copy_version
  dispatch-HasEffect w (inl k) fresh q u found = rw (k, q) (execute_copy-HasEffect w fresh u found)
  dispatch-HasEffect w (inr k) fresh q u found = rw (k, q) (execute_copy-HasEffect w fresh u found)

  -- Whatever fails, a copy or a replacement that `execute` reports as a success leaves at the target contents
  -- of the hash that the source's store has, and in the target's store the source's entry under the vector of
  -- the operation, where the roots and stores of both drives are known, the source's store has the path, and a
  -- row can hold the entry, and the disk has no history.
  pub execute-IsTransferred :
      (w : World)
      → (op.type ≡ copy) ⊎ (op.type ≡ replace)
      → w.history ≡ []
      → Map.lookup op.target_drive_id roots ≡ some root
      → Map.lookup op.source_drive_id roots ≡ some src_root
      → Map.lookup op.target_drive_id stores ≡ some s
      → Map.lookup op.source_drive_id stores ≡ some src_store
      → get_file op.path src_store ≡ ok (some meta)
      → (execute sha256 junk roots op now w stores).result.success ≡ true
      → IsTransferred sha256
          (join root op.path)
          meta.hash
          op.target_drive_id
          (record meta { version_vector = op.new_version_vector })
          (execute sha256 junk roots op now w stores)
  execute-IsTransferred w kind fresh r q t u found done = effect done
    where
      effect : Effect (execute sha256 junk roots op now w stores)
      effect =
          unfold execute with_root with_store in
          rw r (elim (Bool-cases (not (exists root w) || fault w)) [
            | inl y ↦ simp y (λ d. absurd (cc d))
            | inr y ↦ simp (y, t) (dispatch-HasEffect (tick w) kind fresh q u found)
          ])
