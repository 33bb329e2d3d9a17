-- ===== src/Executor/Cleanup.antt =====
-- The transaction log after `atomic_write` and after `recover_incomplete_operations` of
-- src/executor.cpp.
use caravault.Base.{
  ◌≡◌, refl, ◌∙◌, ap, ◌⊎◌, ◌++◌, ℕ, Bool, true, Option, none, some, List, [], ◌∷◌, ◌=?◌, ◌==◌, any,
  All, Text, text_ord, text, arith, subst, Bool-cases, is_empty, inl, inr,
}
use caravault.Base.Results.{Result, ok, err}
use caravault.VersionVector.Json.{JsonError}
use caravault.Manifest.{
  FileMetadata, ManifestStore, PendingOperation, upsert_file, begin_operation, complete_operation,
  get_incomplete_operations, c_str,
}
use caravault.Manifest.Log.{
  others, IsOrdered, complete-begin, complete_operation-pending, begin_operation-pending,
}
use caravault.Planner.Paths.{parent_dir}
use caravault.Executor.Disk.{World, fault, tick, exists, remove_file}
use caravault.Executor.Writing.{
  Failure, tmp_path, verify_hash, write_target, finish_write, logged_write, atomic_write, handle,
  sql_error,
}
use caravault.Executor.Recovery.{
  Recovered, settle_read, recover_write, and_complete, recover_all, recover_incomplete_operations,
}

-- The log entry of a write.
abbrev pub own_entry : Text → ℕ → ManifestStore → PendingOperation
own_entry target now s = record {
  id = (begin_operation (text "WRITE") target now s).1;
  operation = c_str (text "WRITE");
  path = c_str target;
  timestamp = now;
}

-- What a write of the entry `o` returns: these operations are pending, and its own too only where it throws an error of SQL.
abbrev pub HasPending :
    List PendingOperation → PendingOperation → Option Failure × World × ManifestStore → Type 0
HasPending ops o (e, w, s) =
    (get_incomplete_operations s ≡ ops)
    ⊎ ((e ≡ some sql_error) × (get_incomplete_operations s ≡ ops ++ o ∷ []))

module _ (target : Text) (now : ℕ) (s : ManifestStore) (ordered : IsOrdered s) where
  abbrev begun : ManifestStore
  begun = (begin_operation (text "WRITE") target now s).0

  abbrev log_id : ℕ
  log_id = (begin_operation (text "WRITE") target now s).1

  abbrev IsDue : Option Failure × World × ManifestStore → Type 0
  IsDue = HasPending (get_incomplete_operations s) (own_entry target now s)

  -- The handler, of a store whose log is the one behind `begin_operation`.
  handle-HasPending :
      (e : Failure) (w : World) (t : ManifestStore)
      → t.transaction_log ≡ begun.transaction_log
      → IsDue (handle target log_id e w t)
  unfolding complete_operation get_incomplete_operations
  handle-HasPending e w t same = elim (Bool-cases (fault (remove_file (tmp_path target) w))) [
    | inl y ↦ simp y (inr (refl, rw same (begin_operation-pending s (text "WRITE") target now)))
    | inr y ↦ simp y (inl (rw same (complete-begin s (text "WRITE") target now ordered)))
  ]

  finish_write-HasPending :
      (meta : FileMetadata) (r : Option Failure × World)
      → IsDue (finish_write target meta log_id begun r)
  unfolding finish_write upsert_file complete_operation get_incomplete_operations
  finish_write-HasPending meta (none, w) = elim (Bool-cases (fault w)) [
    | inl y ↦ simp y (handle-HasPending sql_error (tick w) begun refl)
    | inr y ↦ elim (Bool-cases (fault (tick w))) [
      | inl z ↦
          simp (y, z) (handle-HasPending sql_error (tick (tick w)) (upsert_file meta begun) refl)
      | inr z ↦ simp (y, z) (inl (complete-begin s (text "WRITE") target now ordered))
    ]
  ]
  finish_write-HasPending meta (some e, w) = handle-HasPending e w begun refl

  logged_write-HasPending :
      (sha256 : Text → Text) (src expected : Text) (meta : FileMetadata) (w : World)
      → IsDue (logged_write sha256 src target expected meta now w s)
  unfolding logged_write
  logged_write-HasPending sha256 src expected meta w = elim (Bool-cases (fault w)) [
    | inl y ↦ simp y (inl refl)
    | inr y ↦
        simp y (finish_write-HasPending meta (write_target sha256 src target expected (tick w)))
  ]

-- Whatever fails, calls on files and statements of SQL, `atomic_write` leaves the operations of an ordered
-- log pending that were, and its own entry besides only where it throws an error of SQL.
pub atomic_write-HasPending :
    (sha256 : Text → Text) (src target expected : Text) (meta : FileMetadata) (now : ℕ) (w : World)
    (s : ManifestStore)
    → IsOrdered s
    → HasPending
        (get_incomplete_operations s)
        (own_entry target now s)
        (atomic_write sha256 src target expected meta now w s)
unfolding atomic_write
atomic_write-HasPending sha256 src target expected meta now w s o =
    elim (Bool-cases (verify_hash sha256 src expected w)) [
      | inr v ↦ simp v (inl refl)
      | inl v ↦ elim (Bool-cases (is_empty (parent_dir target))) [
        | inl p ↦
            simp (v, p) (logged_write-HasPending target now s o sha256 src expected meta (tick w))
        | inr p ↦ elim (Bool-cases (fault (tick w))) [
          | inl z ↦ simp (v, p, z) (inl refl)
          | inr z ↦
              simp (v, p, z) (logged_write-HasPending target now s o sha256 src expected meta _)
        ]
      ]
    ]

-- What is left of the pending operations once these are completed.
others_all : List PendingOperation → List PendingOperation → List PendingOperation
others_all [] ps = ps
others_all (o ∷ ops) ps = others_all ops (others o.id ps)

abbrev has_id : List PendingOperation → PendingOperation → Bool
has_id ops p = any (λ o. p.id == o.id) ops

others-has_id :
    (o : PendingOperation) (ops ps : List PendingOperation)
    → All (λ p. has_id (o ∷ ops) p ≡ true) ps
    → All (λ p. has_id ops p ≡ true) (others o.id ps)
others-has_id o ops [] a = tt
others-has_id o ops (p ∷ ps) (h, a) = ground (arith, others-has_id o ops ps a)

others_all-nil :
    (ops ps : List PendingOperation) → All (λ p. has_id ops p ≡ true) ps → others_all ops ps ≡ []
unfolding others_all
others_all-nil [] [] a = refl
others_all-nil [] (p ∷ ps) (h, a) = ground arith
others_all-nil (o ∷ ops) ps a = others_all-nil ops (others o.id ps) (others-has_id o ops ps a)

has_id-cons :
    (o : PendingOperation) (ops ps : List PendingOperation)
    → All (λ p. has_id ops p ≡ true) ps
    → All (λ p. has_id (o ∷ ops) p ≡ true) ps
has_id-cons o ops [] a = tt
has_id-cons o ops (p ∷ ps) (h, a) = (ground arith, has_id-cons o ops ps a)

has_id_self : (ops : List PendingOperation) → All (λ p. has_id ops p ≡ true) ops
has_id_self [] = tt
has_id_self (o ∷ ops) = (ground arith, has_id-cons o ops ops (has_id_self ops))

-- What recovery returns leaves these operations pending, unless it throws.
abbrev pub IsCleared : List PendingOperation → Recovered → Type 0
IsCleared ops (some e, w, s) = Unit
IsCleared ops (none, w, s) = get_incomplete_operations s ≡ ops

-- The store of what recovery returns.
abbrev Keeps : ManifestStore → Recovered → Type 0
Keeps s (e, w, t) = t ≡ s

settle_read-Keeps :
    (sha256 : Text → Text) (target : Text) (r : Result JsonError (Option FileMetadata)) (w : World)
    (s : ManifestStore)
    → Keeps s (settle_read sha256 target r w s)
unfolding settle_read
settle_read-Keeps sha256 target (err e) w s = refl
settle_read-Keeps sha256 target (ok m) w s = refl

recover_write-Keeps :
    (sha256 : Text → Text) (root : Text) (op : PendingOperation) (w : World) (s : ManifestStore)
    → Keeps s (recover_write sha256 root op w s)
unfolding recover_write
recover_write-Keeps sha256 root op w s = elim (Bool-cases (op.operation =? text "WRITE")) [
  | inr a ↦ simp a refl
  | inl a ↦ elim (Bool-cases (fault w)) [
    | inl b ↦ simp (a, b) refl
    | inr b ↦ elim (Bool-cases (exists (tmp_path op.path) w)) [
      | inr c ↦ simp (a, b, c) refl
      | inl c ↦ simp (a, b, c) (settle_read-Keeps sha256 op.path _ _ s)
    ]
  ]
]

and_complete-IsCleared :
    (id : ℕ) (r : Recovered) (s : ManifestStore)
    → Keeps s r
    → IsCleared (others id (get_incomplete_operations s)) (and_complete id r)
and_complete-IsCleared id (some e, w, t) s k = tt
and_complete-IsCleared id (none, w, t) s k =
    complete_operation-pending t id ∙ ap (λ u. others id (get_incomplete_operations u)) k

recover_all-IsCleared :
    (sha256 : Text → Text) (root : Text) (ops ps : List PendingOperation) (r : Recovered)
    → IsCleared ps r
    → IsCleared (others_all ops ps) (recover_all sha256 root ops r)
unfolding recover_all others_all
recover_all-IsCleared sha256 root ops ps (some e, w, s) c = tt
recover_all-IsCleared sha256 root [] ps (none, w, s) c = c
recover_all-IsCleared sha256 root (op ∷ ops) ps (none, w, s) c =
    recover_all-IsCleared sha256 root ops (others op.id ps) _ (
      subst
        (λ qs. IsCleared (others op.id qs) (and_complete op.id (recover_write sha256 root op w s)))
        c
        (and_complete-IsCleared op.id (recover_write sha256 root op w s) s
          (recover_write-Keeps sha256 root op w s)))

-- Recovery that does not throw leaves no operation pending.
pub recover_incomplete_operations-IsCleared :
    (sha256 : Text → Text) (root : Text) (w : World) (s : ManifestStore)
    → IsCleared [] (recover_incomplete_operations sha256 root w s)
unfolding recover_incomplete_operations
recover_incomplete_operations-IsCleared sha256 root w s =
    let ops = get_incomplete_operations s in
    subst (λ qs. IsCleared qs (recover_all sha256 root ops (none, w, s)))
      (others_all-nil ops ops (has_id_self ops))
      (recover_all-IsCleared sha256 root ops ops (none, w, s) refl)
