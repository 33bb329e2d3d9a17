-- ===== src/VersionVector/Causality.antt =====
-- `compare` of src/version_vector.cpp, against the causal order over all drives, those that neither
-- map names included.
use caravault.Base.{
  ℕ, ◌≤◌, ◌<◌, ◌≡◌, ◌↔◌, refl, sym, Bool, true, false, ◌||◌, List, [], ◌∷◌, none, some, Option,
  arith, ltb, any, Text, text_ord, cmp_text_iff, Bool-cases, ◌⊎◌, inl, inr, ltb→lt, ltb_false→le,
  subst,
}
use caravault.Base.Map
use caravault.Base.Map.{Map}
use caravault.Base.Set
use caravault.Base.Set.{Set}
use caravault.VersionVector.{
  VersionVector, Ordering, dominates, dominated_by, concurrent, equal, get_clock, compare,
  compare_loop, insert_drives, all_drives, verdict,
}

-- No clock of `v` is above that of `w`.
abbrev pub IsBelow : VersionVector → VersionVector → Type 0
IsBelow v w = (d : Text) → get_clock v d ≤ get_clock w d

-- Some clock of `v` is above that of `w`.
abbrev pub Exceeds : VersionVector → VersionVector → Type 0
Exceeds v w = (d : Text) × (get_clock w d < get_clock v d)

-- The documented meaning of each verdict.
abbrev pub Causal : VersionVector → VersionVector → Ordering → Type 0
Causal v w dominates = IsBelow w v × Exceeds v w
Causal v w dominated_by = IsBelow v w × Exceeds w v
Causal v w concurrent = Exceeds v w × Exceeds w v
Causal v w equal = (d : Text) → get_clock v d ≡ get_clock w d

abbrev exceeds_at : VersionVector → VersionVector → Text → Bool
exceeds_at v w d = ltb (get_clock w d) (get_clock v d)

compare_loop-flags :
    (v w : VersionVector) (ds : List Text) (p q : Bool)
    → compare_loop v w ds p q ≡ (p || any (exceeds_at v w) ds, q || any (exceeds_at w v) ds)
unfolding compare_loop
compare_loop-flags v w [] p q = ground arith
compare_loop-flags v w (d ∷ ds) p q = rw (compare_loop-flags v w ds) (ground arith)

-- A drive that passes the test and stands in the list is found.
any_of_contains :
    (p : Text → Bool) (d : Text) (ds : Set Text)
    → Set.contains d ds ≡ true
    → p d ≡ true
    → any p ds ≡ true
unfolding Set.contains
any_of_contains p d [] h k = ground arith
any_of_contains p d (e ∷ ds) h k = ground (arith, any_of_contains p d ds, cmp_text_iff d e)

any-true : (p : Text → Bool) (ds : List Text) → any p ds ≡ true → (d : Text) × (p d ≡ true)
any-true p [] h = cc
any-true p (e ∷ ds) h = elim (Bool-cases (p e)) [
  | inl t ↦ (e, t)
  | inr f ↦ any-true p ds (ground arith)
]

abbrev is_some : Option ℕ → Bool
is_some none = false
is_some (some c) = true

contains-insert_drives :
    (d : Text) (m : Map Text ℕ) (s : Set Text)
    → Set.contains d (insert_drives m s) ≡ (is_some (Map.lookup d m) || Set.contains d s)
unfolding insert_drives Map.lookup
contains-insert_drives d [] s = refl
contains-insert_drives d ((k, c) ∷ m) s =
    ground (arith, contains-insert_drives d m (Set.insert k s), Set.contains-insert d k s)

-- A drive at which one vector exceeds the other is among those that `compare` visits.
contains-all_drives :
    (v w : VersionVector) (d : Text)
    → (get_clock w d < get_clock v d) ⊎ (get_clock v d < get_clock w d)
    → Set.contains d (all_drives v w) ≡ true
unfolding all_drives get_clock
contains-all_drives v w d h = ground (
  arith,
  contains-insert_drives d w.clocks (insert_drives v.clocks []),
  contains-insert_drives d v.clocks [],
)

IsBelow-of_none :
    (v w : VersionVector) → any (exceeds_at v w) (all_drives v w) ≡ false → IsBelow v w
IsBelow-of_none v w h d = elim (Bool-cases (exceeds_at v w d)) [
  | inl t ↦ absurd (
      ground (
        arith,
        any_of_contains (exceeds_at v w) d (all_drives v w)
            (contains-all_drives v w d (inl (ltb→lt _ _ t))) t,
      ))
  | inr f ↦ ltb_false→le _ _ f
]

IsBelow-of_none' :
    (v w : VersionVector) → any (exceeds_at w v) (all_drives v w) ≡ false → IsBelow w v
IsBelow-of_none' v w h d = elim (Bool-cases (exceeds_at w v d)) [
  | inl t ↦ absurd (
      ground (
        arith,
        any_of_contains (exceeds_at w v) d (all_drives v w)
            (contains-all_drives v w d (inr (ltb→lt _ _ t))) t,
      ))
  | inr f ↦ ltb_false→le _ _ f
]

Exceeds-of_any :
    (v w : VersionVector) (ds : List Text) → any (exceeds_at v w) ds ≡ true → Exceeds v w
Exceeds-of_any v w ds h = let (d, t) = any-true (exceeds_at v w) ds h in (d, ltb→lt _ _ t)

compare_lem :
    (v w : VersionVector)
    → compare v w
      ≡ verdict (any (exceeds_at v w) (all_drives v w)) (any (exceeds_at w v) (all_drives v w))
unfolding compare
compare_lem v w = rw compare_loop-flags

-- The verdict of `compare` has its documented meaning.
pub compare-Causal : (v w : VersionVector) → Causal v w (compare v w)
compare-Causal v w =
    let this = any (exceeds_at v w) (all_drives v w) in
    let other = any (exceeds_at w v) (all_drives v w) in
    rw compare_lem (elim (Bool-cases this) [
      | inl t ↦ elim (Bool-cases other) [
        | inl u ↦ rw (t, u) (Exceeds-of_any v w _ t, Exceeds-of_any w v _ u)
        | inr u ↦ rw (t, u) (IsBelow-of_none' v w u, Exceeds-of_any v w _ t)
      ]
      | inr t ↦ elim (Bool-cases other) [
        | inl u ↦ rw (t, u) (IsBelow-of_none v w t, Exceeds-of_any w v _ u)
        | inr u ↦ rw (t, u) (λ d. omega (arith, IsBelow-of_none v w t d, IsBelow-of_none' v w u d))
      ]
    ])

-- No two verdicts can both have their documented meaning.
Causal-unique : (v w : VersionVector) (o p : Ordering) → Causal v w o → Causal v w p → o ≡ p
Causal-unique v w dominates dominates h k = refl
Causal-unique v w dominates dominated_by (a, (d, b)) (c, e) = absurd (omega (arith, c d))
Causal-unique v w dominates concurrent (a, b) (c, (d, e)) = absurd (omega (arith, a d))
Causal-unique v w dominates equal (a, (d, b)) k = absurd (omega (arith, k d))
Causal-unique v w dominated_by dominates (a, b) (c, (d, e)) = absurd (omega (arith, a d))
Causal-unique v w dominated_by dominated_by h k = refl
Causal-unique v w dominated_by concurrent (a, b) ((d, c), e) = absurd (omega (arith, a d))
Causal-unique v w dominated_by equal (a, (d, b)) k = absurd (omega (arith, k d))
Causal-unique v w concurrent dominates (a, (d, b)) (c, e) = absurd (omega (arith, c d))
Causal-unique v w concurrent dominated_by ((d, a), b) (c, e) = absurd (omega (arith, c d))
Causal-unique v w concurrent concurrent h k = refl
Causal-unique v w concurrent equal ((d, a), b) k = absurd (omega (arith, k d))
Causal-unique v w equal dominates h (c, (d, e)) = absurd (omega (arith, h d))
Causal-unique v w equal dominated_by h (c, (d, e)) = absurd (omega (arith, h d))
Causal-unique v w equal concurrent h ((d, c), e) = absurd (omega (arith, h d))
Causal-unique v w equal equal h k = refl

-- `compare` returns a verdict exactly when the documented condition of that verdict holds.
pub compare_iff : (v w : VersionVector) (o : Ordering) → (compare v w ≡ o) ↔ Causal v w o
compare_iff v w o = (
  λ e. subst (Causal v w) e (compare-Causal v w),
  λ h. Causal-unique v w (compare v w) o (compare-Causal v w) h,
)

abbrev pub flip : Ordering → Ordering
flip dominates = dominated_by
flip dominated_by = dominates
flip concurrent = concurrent
flip equal = equal

Causal-flip : (v w : VersionVector) (o : Ordering) → Causal v w o → Causal w v (flip o)
Causal-flip v w dominates h = h
Causal-flip v w dominated_by h = h
Causal-flip v w concurrent (a, b) = (b, a)
Causal-flip v w equal h = λ d. sym (h d)

-- Exchanging the arguments exchanges "dominates" and "dominated by".
pub compare-flip : (v w : VersionVector) → compare w v ≡ flip (compare v w)
compare-flip v w =
    (compare_iff w v (flip (compare v w))).1 (Causal-flip v w (compare v w) (compare-Causal v w))
