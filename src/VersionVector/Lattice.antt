-- ===== src/VersionVector/Lattice.antt =====
-- The algebra of `merge` in src/version_vector.cpp.
use caravault.Base.{◌≡◌, refl, ℕ, Option, none, some, arith, Text, text_ord, ap, ◌∙◌}
use caravault.Base.Map
use caravault.Base.Map.Sorted
use caravault.VersionVector.{VersionVector, merge}
use caravault.VersionVector.Clocks.{join, IsValid, lookup-merge, merge-IsValid}

-- Valid vectors with the same entries are equal.
pub vector_ext :
    (v w : VersionVector)
    → IsValid v
    → IsValid w
    → ((d : Text) → Map.lookup d v.clocks ≡ Map.lookup d w.clocks)
    → v ≡ w
vector_ext v w p q h =
    ap (λ m. record { clocks = m }) (Sorted.ext v.clocks w.clocks p.sorted q.sorted h)

join_comm : (x y : Option ℕ) → join x y ≡ join y x
join_comm none none = refl
join_comm none (some b) = refl
join_comm (some a) none = refl
join_comm (some a) (some b) = ground arith

join_assoc : (x y z : Option ℕ) → join (join x y) z ≡ join x (join y z)
join_assoc none y z = refl
join_assoc (some a) none z = refl
join_assoc (some a) (some b) none = refl
join_assoc (some a) (some b) (some c) = ground arith

join_self : (x : Option ℕ) → join x x ≡ x
join_self none = refl
join_self (some a) = ground arith

-- On valid vectors `merge` is commutative.
pub merge_comm : (v w : VersionVector) → IsValid v → IsValid w → merge v w ≡ merge w v
merge_comm v w p q =
    vector_ext (merge v w) (merge w v) (merge-IsValid v w p q) (merge-IsValid w v q p) λ d.
      rw (lookup-merge v w d q, lookup-merge w v d p)
        (join_comm (Map.lookup d v.clocks) (Map.lookup d w.clocks))

-- On valid vectors `merge` is associative.
pub merge_assoc :
    (u v w : VersionVector)
    → IsValid u
    → IsValid v
    → IsValid w
    → merge (merge u v) w ≡ merge u (merge v w)
merge_assoc u v w o p q =
    let uv = merge-IsValid u v o p in
    let vw = merge-IsValid v w p q in
    vector_ext (merge (merge u v) w) (merge u (merge v w)) (merge-IsValid _ w uv q)
      (merge-IsValid u _ o vw)
      λ d.
        rw
          (
            lookup-merge (merge u v) w d q,
            lookup-merge u (merge v w) d vw,
            lookup-merge u v d p,
            lookup-merge v w d q,
          )
          (join_assoc (Map.lookup d u.clocks) (Map.lookup d v.clocks) (Map.lookup d w.clocks))

-- Merging a valid vector into itself changes nothing.
pub merge_self : (v : VersionVector) → IsValid v → merge v v ≡ v
merge_self v p =
    vector_ext (merge v v) v (merge-IsValid v v p p) p
      λ d. lookup-merge v v d p ∙ join_self (Map.lookup d v.clocks)

-- The laws of a join in one statement.
pub merge_semilattice :
    (u v w : VersionVector)
    → IsValid u
    → IsValid v
    → IsValid w
    → (merge u v ≡ merge v u) × (merge (merge u v) w ≡ merge u (merge v w)) × (merge u u ≡ u)
merge_semilattice u v w o p q = (merge_comm u v o p, merge_assoc u v w o p q, merge_self u o)
