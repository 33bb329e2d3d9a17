-- ===== src/VersionVector/Progress.antt =====
-- `compare` of src/version_vector.cpp on what `merge` and `increment` make.
use caravault.Base.{
  ◌≡◌, ◌⊎◌, inl, inr, ◌+◌, arith, Text, text_ord, cmp_text_iff, if◌then◌else◌, ltb, Bool-cases,
}
use caravault.VersionVector.{
  VersionVector, Ordering, dominates, dominated_by, concurrent, equal, get_clock, increment, merge,
  compare, u64_mod,
}
use caravault.VersionVector.Clocks.{IsValid, get_clock-increment, get_clock-merge}
use caravault.VersionVector.Causality.{IsBelow, compare_iff, compare-Causal, Causal}

abbrev pub IsAtLeast : Ordering → Type 0
IsAtLeast o = (o ≡ dominates) ⊎ (o ≡ equal)

IsAtLeast-of_below : (v w : VersionVector) → IsBelow w v → IsAtLeast (compare v w)
IsAtLeast-of_below v w h = go (compare v w) (compare-Causal v w)
  where
    go : (o : Ordering) → Causal v w o → IsAtLeast o
    go dominates c = ground arith
    go dominated_by (a, (d, b)) = absurd (omega (arith, h d))
    go concurrent (a, (d, b)) = absurd (omega (arith, h d))
    go equal c = ground arith

-- A merged vector dominates or equals both vectors that were merged.
merge-IsAtLeast :
    (v w : VersionVector)
    → IsValid w
    → IsAtLeast (compare (merge v w) v) × IsAtLeast (compare (merge v w) w)
merge-IsAtLeast v w q = (
  IsAtLeast-of_below (merge v w) v (λ d. rw (get_clock-merge v w d q) (omega arith)),
  IsAtLeast-of_below (merge v w) w (λ d. rw (get_clock-merge v w d q) (omega arith)),
)

-- Below the largest 64-bit clock an increment makes a vector that dominates the old one; at the
-- largest clock the count wraps to 0 and the new vector is dominated by the old one.
pub compare-increment :
    (d : Text) (v : VersionVector)
    → IsValid v
    → compare (increment d v) v
      ≡ (if ltb (get_clock v d + 1) u64_mod then dominates else dominated_by)
compare-increment d v p = elim (Bool-cases (ltb (get_clock v d + 1) u64_mod)) [
  | inl t ↦ rw t (
      (compare_iff (increment d v) v dominates).1 (
        (λ e. ground (arith, get_clock-increment v d e, cmp_text_iff e d)),
        (d, ground (arith, get_clock-increment v d d, cmp_text_iff d d)),
      ))
  | inr f ↦ rw f (
      (compare_iff (increment d v) v dominated_by).1 (
        (λ e. ground (arith, get_clock-increment v d e, cmp_text_iff e d, p.fits d)),
        (d, ground (arith, get_clock-increment v d d, cmp_text_iff d d, p.fits d)),
      ))
]
