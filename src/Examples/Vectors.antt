-- ===== src/Examples/Vectors.antt =====
-- Version vectors of src/version_vector.cpp: runs, and the theorems at concrete vectors.
use caravault.Base.{
  ◌≡◌, ◌≢◌, ◌↔◌, refl, ◌∷◌, [], text, Text, cmp_text, text_ord, ltb, if◌then◌else◌, ◌+◌,
}
use caravault.Base.Map
use caravault.Base.Set
use caravault.Base.Results.{ok, err}
use caravault.VersionVector.{
  VersionVector, empty, dominates, dominated_by, concurrent, equal, get_clock, increment, merge,
  merge_clock, merge_clocks, compare, compare_loop, all_drives, insert_drives, u64_mod,
}
use caravault.VersionVector.Clocks.{IsValid, empty-IsValid, increment-IsValid, merge-IsValid}
use caravault.VersionVector.Lattice.{merge_semilattice}
use caravault.VersionVector.Causality.{Causal, compare_iff}
use caravault.VersionVector.Progress.{compare-increment}
use caravault.VersionVector.Json.{to_json, from_json, no_fuel}
use caravault.VersionVector.Json.RoundTrip.{from_json-to_json}
use caravault.VersionVector.Json.Fuel.{from_json-ne-no_fuel}

abbrev pub ann : Text
ann = text "ann"

abbrev pub bob : Text
bob = text "bob"

-- One write on ann's drive, then one on bob's without the first.
abbrev pub by_ann : VersionVector
by_ann = increment ann empty

abbrev pub by_bob : VersionVector
by_bob = increment bob empty

pub by_ann-IsValid : IsValid by_ann
by_ann-IsValid = increment-IsValid ann empty empty-IsValid

pub by_bob-IsValid : IsValid by_bob
by_bob-IsValid = increment-IsValid bob empty empty-IsValid

runs :
    (compare by_ann by_bob ≡ concurrent)
    × (compare (merge by_ann by_bob) by_bob ≡ dominates)
    × (compare empty by_bob ≡ dominated_by)
    × (compare by_bob by_bob ≡ equal)
unfolding compare all_drives insert_drives compare_loop merge merge_clocks merge_clock increment
    get_clock Map.lookup Map.insert Set.insert cmp_text
runs = (refl, refl, refl, refl)

compare_iff_example : (compare by_ann by_bob ≡ concurrent) ↔ Causal by_ann by_bob concurrent
compare_iff_example = compare_iff by_ann by_bob concurrent

merge_semilattice_example :
    (merge by_ann by_bob ≡ merge by_bob by_ann)
    × (merge (merge by_ann by_bob) empty ≡ merge by_ann (merge by_bob empty))
    × (merge by_ann by_ann ≡ by_ann)
merge_semilattice_example =
    merge_semilattice by_ann by_bob empty by_ann-IsValid by_bob-IsValid empty-IsValid

compare-increment_example :
    compare (increment bob by_ann) by_ann
    ≡ (if ltb (get_clock by_ann bob + 1) u64_mod then dominates else dominated_by)
compare-increment_example = compare-increment bob by_ann by_ann-IsValid

merged-IsValid : IsValid (merge by_ann by_bob)
merged-IsValid = merge-IsValid by_ann by_bob by_ann-IsValid by_bob-IsValid

-- The largest clock: the next write of the drive wraps to 0.
abbrev worn : VersionVector
worn = record { clocks = (ann, 18446744073709551615) ∷ [] }

wraps : compare (increment ann worn) worn ≡ dominated_by
unfolding compare all_drives insert_drives compare_loop increment get_clock Map.lookup Map.insert
    Set.insert cmp_text
wraps = refl

from_json-to_json_example : from_json (to_json (merge by_ann by_bob)) ≡ ok (merge by_ann by_bob)
from_json-to_json_example = from_json-to_json (merge by_ann by_bob) merged-IsValid

from_json-ne-no_fuel_example : from_json (text "{\"a\":1 \"b\"") ≢ err no_fuel
from_json-ne-no_fuel_example = from_json-ne-no_fuel (text "{\"a\":1 \"b\"")
