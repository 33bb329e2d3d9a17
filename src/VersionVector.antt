-- ===== src/VersionVector.antt =====
-- `VersionVector` of src/version_vector.cpp and include/version_vector.hpp: a clock for each drive.
-- A clock is a `uint64_t`: `increment` wraps at 2 ^ 64.
pub mod Clocks
pub mod Lattice
pub mod Causality
pub mod Progress
pub mod Json
use caravault.Base.{
  ℕ, ◌+◌, ◌%◌, ◌^◌, Bool, true, false, Option, none, some, List, [], ◌∷◌, max, not, ◌&&◌, ltb,
  if◌then◌else◌, Text, text_ord,
}
use caravault.Base.Map
use caravault.Base.Map.{Map}
use caravault.Base.Set
use caravault.Base.Set.{Set}

-- 2 ^ 64
abbrev pub u64_mod : ℕ
u64_mod = 2 ^ 64

pub record VersionVector : Type 0 where
  pub clocks : Map Text ℕ

pub data Ordering : Type 0 where
  dominates dominated_by concurrent equal : Ordering

abbrev pub empty : VersionVector
empty = record { clocks = [] }

abbrev pub found_clock : Option ℕ → ℕ
found_clock none = 0
found_clock (some clock) = clock

-- A drive that is missing has clock 0.
unfoldable pub get_clock : VersionVector → Text → ℕ
get_clock v drive_id = found_clock (Map.lookup drive_id v.clocks)

-- `clocks_[drive_id]++`
unfoldable pub increment : Text → VersionVector → VersionVector
increment drive_id v = record {
  clocks = Map.insert drive_id ((get_clock v drive_id + 1) % u64_mod) v.clocks;
}

-- One round of the loop of `merge`.
unfoldable pub merge_clock : Text → ℕ → Map Text ℕ → Map Text ℕ
merge_clock drive_id clock clocks = elim (Map.lookup drive_id clocks) [
  | none ↦ Map.insert drive_id clock clocks
  | some mine ↦ Map.insert drive_id (max mine clock) clocks
]

unfoldable pub merge_clocks : Map Text ℕ → Map Text ℕ → Map Text ℕ
merge_clocks clocks [] = clocks
merge_clocks clocks ((drive_id, clock) ∷ other) =
    merge_clocks (merge_clock drive_id clock clocks) other

-- `v.merge(other)`
unfoldable pub merge : VersionVector → VersionVector → VersionVector
merge v other = record { clocks = merge_clocks v.clocks other.clocks }

unfoldable pub insert_drives : Map Text ℕ → Set Text → Set Text
insert_drives [] drives = drives
insert_drives ((drive_id, _) ∷ clocks) drives = insert_drives clocks (Set.insert drive_id drives)

-- The loop of `compare`, over the flags `this_greater` and `other_greater`.
unfoldable pub compare_loop : VersionVector → VersionVector → List Text → Bool → Bool → Bool × Bool
compare_loop this other [] this_greater other_greater = (this_greater, other_greater)
compare_loop this other (drive_id ∷ drives) this_greater other_greater =
    let this_clock = get_clock this drive_id in
    let other_clock = get_clock other drive_id in
    compare_loop this other drives (if ltb other_clock this_clock then true else this_greater) (
      if ltb other_clock this_clock
      then other_greater
      else if ltb this_clock other_clock
      then true
      else other_greater)

abbrev pub verdict : Bool → Bool → Ordering
verdict this_greater other_greater =
    if not this_greater && not other_greater
    then equal
    else if this_greater && not other_greater
    then dominates
    else if not this_greater && other_greater
    then dominated_by
    else concurrent

unfoldable pub all_drives : VersionVector → VersionVector → Set Text
all_drives this other = insert_drives other.clocks (insert_drives this.clocks [])

unfoldable pub compare : VersionVector → VersionVector → Ordering
compare this other =
    let (this_greater, other_greater) =
      compare_loop this other (all_drives this other) false false in
    verdict this_greater other_greater
