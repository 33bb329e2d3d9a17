-- ===== src/VersionVector/Clocks.antt =====
-- The clocks after `increment` and `merge` of src/version_vector.cpp.
use caravault.Base.{
  ℕ, ◌+◌, ◌<◌, Option, ◌%◌, ◌≡◌, none, some, [], ◌∷◌, max, arith, if◌then◌else◌, Text, text_ord,
  cmp_text_iff, ◌=?◌, Option-cases, inl, inr,
}
use caravault.Base.Map
use caravault.Base.Map.Sorted
use caravault.Base.Map.{Map}
use caravault.VersionVector.{
  VersionVector, empty, get_clock, increment, merge_clock, merge_clocks, merge, u64_mod,
}

-- `increment` adds one to the clock of its drive, modulo 2 ^ 64, and leaves every other clock.
pub get_clock-increment :
    (v : VersionVector) (drive_id d : Text)
    → get_clock (increment drive_id v) d
      ≡ (if d =? drive_id then (get_clock v drive_id + 1) % u64_mod else get_clock v d)
unfolding get_clock increment
get_clock-increment v drive_id d =
    ground (arith, Map.lookup-insert d drive_id ((get_clock v drive_id + 1) % u64_mod) v.clocks)

-- The entry of a drive that one map or both have.
abbrev pub join : Option ℕ → Option ℕ → Option ℕ
join none c = c
join (some a) none = some a
join (some a) (some c) = some (max a c)

lookup-merge_clock :
    (k : Text) (c : ℕ) (m : Map Text ℕ) (d : Text)
    → Map.lookup d (merge_clock k c m)
      ≡ (if d =? k then join (Map.lookup d m) (some c) else Map.lookup d m)
unfolding merge_clock
lookup-merge_clock k c m d = elim (Option-cases (Map.lookup k m)) [
  | inl e ↦ rw (e, merge_clock) (rw Map.lookup-insert (ground (arith, cmp_text_iff d k, e)))
  | inr (a, e) ↦ rw (e, merge_clock) (rw Map.lookup-insert (ground (arith, cmp_text_iff d k, e)))
]

merge_clock-IsSorted :
    (k : Text) (c : ℕ) (m : Map Text ℕ) → Sorted.IsSorted m → Sorted.IsSorted (merge_clock k c m)
unfolding merge_clock
merge_clock-IsSorted k c m s = elim (Option-cases (Map.lookup k m)) [
  | inl e ↦ rw (e, merge_clock) (Sorted.insert-IsSorted k c m s)
  | inr (a, e) ↦ rw (e, merge_clock) (Sorted.insert-IsSorted k (max a c) m s)
]

lookup-merge_clocks :
    (m other : Map Text ℕ) (d : Text)
    → Sorted.IsSorted other
    → Map.lookup d (merge_clocks m other) ≡ join (Map.lookup d m) (Map.lookup d other)
unfolding merge_clocks Map.lookup
lookup-merge_clocks m [] d s = ground arith
lookup-merge_clocks m ((k, c) ∷ other) d (a, s) = ground (
  arith,
  lookup-merge_clocks (merge_clock k c m) other d s,
  lookup-merge_clock k c m d,
  cmp_text_iff d k,
  Sorted.lookup-of_IsAbove k other a,
)

merge_clocks-IsSorted :
    (m other : Map Text ℕ) → Sorted.IsSorted m → Sorted.IsSorted (merge_clocks m other)
unfolding merge_clocks
merge_clocks-IsSorted m [] s = s
merge_clocks-IsSorted m ((k, c) ∷ other) s =
    merge_clocks-IsSorted (merge_clock k c m) other (merge_clock-IsSorted k c m s)

-- A version vector as the program builds it: a map with its keys in order, clocks of 64 bits.
pub record IsValid (v : VersionVector) : Type 0 where
  pub sorted : Sorted.IsSorted v.clocks
  pub fits : (d : Text) → get_clock v d < u64_mod

pub lookup-merge :
    (v w : VersionVector) (d : Text)
    → IsValid w
    → Map.lookup d (merge v w).clocks ≡ join (Map.lookup d v.clocks) (Map.lookup d w.clocks)
unfolding merge
lookup-merge v w d q = lookup-merge_clocks v.clocks w.clocks d q.sorted

-- The merged clock of every drive is the larger of the two.
pub get_clock-merge :
    (v w : VersionVector) (d : Text)
    → IsValid w
    → get_clock (merge v w) d ≡ max (get_clock v d) (get_clock w d)
unfolding get_clock merge
get_clock-merge v w d q = ground (arith, lookup-merge_clocks v.clocks w.clocks d q.sorted)

-- `merge` and `increment` keep vectors valid.
pub merge-IsValid : (v w : VersionVector) → IsValid v → IsValid w → IsValid (merge v w)
merge-IsValid v w p q = record {
  sorted = unfold merge in merge_clocks-IsSorted v.clocks w.clocks p.sorted;
  fits = λ d. rw (get_clock-merge v w d q) (omega (arith, p.fits d, q.fits d));
}

pub increment-IsValid : (d : Text) (v : VersionVector) → IsValid v → IsValid (increment d v)
increment-IsValid d v p = record {
  sorted = unfold increment in Sorted.insert-IsSorted d _ v.clocks p.sorted;
  fits = λ e. ground (arith, get_clock-increment v d e, p.fits e);
}

pub empty-IsValid : IsValid empty
unfolding get_clock Map.lookup
empty-IsValid = record { sorted = tt; fits = λ d. omega arith }
