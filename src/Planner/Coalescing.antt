-- ===== src/Planner/Coalescing.antt =====
-- `coalesce` of src/sync_planner.cpp.
use caravault.Base.{
  ◌≡◌, refl, ◌∙◌, List, [], ◌∷◌, ◌++◌, ◌=?◌, =?_iff, if◌then◌else◌, Text, text_ord, pair_ord, arith,
  Bool, select, sym,
}
use mathlib.Core.List.{append_assoc}
use caravault.Base.Set
use caravault.Base.Set.{Set}
use caravault.Planner.Operations.{SyncOp}

abbrev pub key : SyncOp → Text × Text
key op = (op.target_drive_id, op.path)

abbrev pub reverse {ℓ} : {A : Type ℓ} → List A → List A
reverse [] = []
reverse (x ∷ xs) = reverse xs ++ x ∷ []

-- The loop, over the operations from the last to the first.
unfoldable pub keep_last : Set (Text × Text) → List SyncOp → List SyncOp
keep_last seen [] = []
keep_last seen (op ∷ ops) =
    let rest = keep_last (Set.insert (key op) seen) ops in
    if Set.contains (key op) seen then rest else op ∷ rest

unfoldable pub coalesce : List SyncOp → List SyncOp
coalesce ops = reverse (keep_last [] (reverse ops))

-- The operations on one path of one drive.
abbrev pub ops_on : Text × Text → List SyncOp → List SyncOp
ops_on k ops = select (λ op. key op =? k) ops

abbrev pub first : List SyncOp → List SyncOp
first [] = []
first (op ∷ _) = op ∷ []

unfoldable pub last_op : List SyncOp → List SyncOp
last_op ops = first (reverse ops)

append_nil {ℓ} : {A : Type ℓ} (xs : List A) → xs ++ [] ≡ xs
append_nil [] = refl
append_nil (x ∷ xs) = rw (append_nil xs) refl

select-append {ℓ} :
    {A : Type ℓ} (p : A → Bool) (xs ys : List A) → select p (xs ++ ys) ≡ select p xs ++ select p ys
select-append p [] ys = refl
select-append p (x ∷ xs) ys = ground (arith, select-append p xs ys)

select-reverse {ℓ} :
    {A : Type ℓ} (p : A → Bool) (xs : List A) → select p (reverse xs) ≡ reverse (select p xs)
select-reverse p [] = refl
select-reverse p (x ∷ xs) =
    rw (select-append p (reverse xs) (x ∷ []), select-reverse p xs)
      (ground (arith, append_nil (reverse (select p xs))))

reverse-append {ℓ} : {A : Type ℓ} (xs ys : List A) → reverse (xs ++ ys) ≡ reverse ys ++ reverse xs
reverse-append [] ys = sym (append_nil (reverse ys))
reverse-append (x ∷ xs) ys =
    rw (reverse-append xs ys) (append_assoc (reverse ys) (reverse xs) (x ∷ []))

reverse-reverse {ℓ} : {A : Type ℓ} (xs : List A) → reverse (reverse xs) ≡ xs
reverse-reverse [] = refl
reverse-reverse (x ∷ xs) = rw (reverse-append (reverse xs) (x ∷ []), reverse-reverse xs) refl

keep_last_lem :
    (k : Text × Text) (seen : Set (Text × Text)) (ops : List SyncOp)
    → ops_on k (keep_last seen ops) ≡ (if Set.contains k seen then [] else first (ops_on k ops))
unfolding keep_last
keep_last_lem k seen [] = ground arith
keep_last_lem k seen (op ∷ ops) = ground (
  arith,
  keep_last_lem k (Set.insert (key op) seen) ops,
  Set.contains-insert k (key op) seen,
  =?_iff (key op) k,
  =?_iff k (key op),
)

first-reverse : (ops : List SyncOp) → reverse (first ops) ≡ first ops
first-reverse [] = refl
first-reverse (op ∷ ops) = refl

-- The operations on one path of one drive that are left are the last of those that were planned,
-- and none where none was planned.
pub coalesce_lem :
    (k : Text × Text) (ops : List SyncOp) → ops_on k (coalesce ops) ≡ last_op (ops_on k ops)
unfolding coalesce last_op Set.contains
coalesce_lem k ops =
    select-reverse (λ op. key op =? k) (keep_last [] (reverse ops))
    ∙ rw (keep_last_lem k [] (reverse ops), select-reverse (λ op. key op =? k) ops)
        (first-reverse (reverse (ops_on k ops)))
