-- ===== src/Manifest/Log.antt =====
-- The transaction log of src/manifest_store.cpp and its pending operations.
use caravault.Base.{
  ℕ, suc, ◌+◌, ◌≤◌, ◌<◌, ◌≡◌, refl, ap, ◌∙◌, true, false, List, [], ◌∷◌, ◌++◌, arith, ◌==◌, not,
  select, Text,
}
use caravault.Manifest.{
  ManifestStore, LogRow, PendingOperation, c_str, begin_operation, complete_operation,
  get_incomplete_operations, pending, update_rows,
}

-- Every id in the log lies above `low` and is at most `high`, and the ids ascend.
abbrev pub IsAscending : ℕ → ℕ → List LogRow → Type 0
IsAscending low high [] = low ≤ high
IsAscending low high (r ∷ rows) = (low < r.id) × IsAscending r.id high rows

-- The invariant of the log: ids ascend, and none is above the last that was given.
abbrev pub IsOrdered : ManifestStore → Type 0
IsOrdered s = IsAscending 0 s.last_id s.transaction_log

IsAscending-append :
    (low high : ℕ) (rows : List LogRow) (r : LogRow)
    → IsAscending low high rows
    → r.id ≡ suc high
    → IsAscending low (suc high) (rows ++ r ∷ [])
IsAscending-append low high [] r h e = (omega arith, omega arith)
IsAscending-append low high (q ∷ rows) r (p, h) e = (p, IsAscending-append q.id high rows r h e)

complete_rows : ℕ → List LogRow → List LogRow
complete_rows id = update_rows (λ r. r.id == id) (λ r. record r { completed = true })

complete_rows-IsAscending :
    (id low high : ℕ) (rows : List LogRow)
    → IsAscending low high rows
    → IsAscending low high (complete_rows id rows)
unfolding complete_rows update_rows
complete_rows-IsAscending id low high [] h = h
complete_rows-IsAscending id low high (r ∷ rows) (p, h) =
    ground (arith, complete_rows-IsAscending id r.id high rows h)

-- Opening and closing operations keeps the log ordered.
pub log-IsOrdered :
    (s : ManifestStore) (operation path : Text) (now id : ℕ)
    → IsOrdered s
    → IsOrdered (begin_operation operation path now s).0 × IsOrdered (complete_operation id s)
unfolding begin_operation complete_operation complete_rows
log-IsOrdered s operation path now id h =
    let e : s.last_id + 1 ≡ suc s.last_id = omega arith in
    (
      rw e (IsAscending-append 0 s.last_id s.transaction_log _ h refl),
      complete_rows-IsAscending id 0 s.last_id s.transaction_log h,
    )

pending-append :
    (rows : List LogRow) (r : LogRow)
    → r.completed ≡ false
    → pending (rows ++ r ∷ [])
      ≡ pending rows
        ++ record { id = r.id; operation = r.operation; path = r.path; timestamp = r.timestamp }
          ∷ []
unfolding pending
pending-append [] r h = ground arith
pending-append (q ∷ rows) r h = ground (arith, pending-append rows r h)

-- Pending operations other than `id`.
abbrev pub others : ℕ → List PendingOperation → List PendingOperation
others id = select (λ o. not (o.id == id))

pending-complete_rows :
    (id : ℕ) (rows : List LogRow) → pending (complete_rows id rows) ≡ others id (pending rows)
unfolding pending complete_rows update_rows
pending-complete_rows id [] = refl
pending-complete_rows id (r ∷ rows) = ground (arith, pending-complete_rows id rows)

-- A begun operation is pending, last and under the id that was returned, behind those that were.
pub begin_operation-pending :
    (s : ManifestStore) (operation path : Text) (now : ℕ)
    → get_incomplete_operations (begin_operation operation path now s).0
      ≡ get_incomplete_operations s
        ++ record {
          id = (begin_operation operation path now s).1;
          operation = c_str operation;
          path = c_str path;
          timestamp = now;
        }
          ∷ []
unfolding begin_operation get_incomplete_operations
begin_operation-pending s operation path now = pending-append s.transaction_log _ refl

-- Completing an operation takes it, and no other, out of the pending ones.
pub complete_operation-pending :
    (s : ManifestStore) (id : ℕ)
    → get_incomplete_operations (complete_operation id s) ≡ others id (get_incomplete_operations s)
unfolding complete_operation get_incomplete_operations complete_rows
complete_operation-pending s id = pending-complete_rows id s.transaction_log

others_last :
    (id : ℕ) (os : List PendingOperation) (o : PendingOperation)
    → o.id ≡ id
    → others id (os ++ o ∷ []) ≡ others id os
others_last id [] o e = ground arith
others_last id (x ∷ os) o e = ground (arith, others_last id os o e)

IsAscending-le : (low high : ℕ) (rows : List LogRow) → IsAscending low high rows → low ≤ high
IsAscending-le low high [] h = h
IsAscending-le low high (r ∷ rows) (p, h) = omega (arith, IsAscending-le r.id high rows h)

-- An id that is above all ids in the log is not among the pending ones.
others-of_IsAscending :
    (id low high : ℕ) (rows : List LogRow)
    → IsAscending low high rows
    → high < id
    → others id (pending rows) ≡ pending rows
unfolding pending
others-of_IsAscending id low high [] h k = refl
others-of_IsAscending id low high (r ∷ rows) (p, h) k =
    ground (arith, others-of_IsAscending id r.id high rows h k, IsAscending-le r.id high rows h)

-- In an ordered log an operation that is begun and completed leaves the pending ones as they were.
pub complete-begin :
    (s : ManifestStore) (operation path : Text) (now : ℕ)
    → IsOrdered s
    → let (t, id) = begin_operation operation path now s in
      get_incomplete_operations (complete_operation id t) ≡ get_incomplete_operations s
unfolding begin_operation get_incomplete_operations
complete-begin s operation path now h =
    let (t, id) = begin_operation operation path now s in
    complete_operation-pending t id
    ∙ (ap (others id) (begin_operation-pending s operation path now)
        ∙ (others_last id (get_incomplete_operations s) _ refl
            ∙ others-of_IsAscending id 0 s.last_id s.transaction_log h (omega arith)))
