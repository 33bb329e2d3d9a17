-- ===== src/Base/Map/Erasing.antt =====
-- `erase` of `std::map`.
use mathlib.Core.Path.{◌≡◌}
use mathlib.Core.Option.{none}
use mathlib.Core.List.{[], ◌∷◌}
use native.Mathlib.Omega.{arith}
use caravault.Base.Tests.{if◌then◌else◌}
use caravault.Base.Order.{Ord, ◌=?◌}
use caravault.Base.Map
use caravault.Base.Map.{Map}

module _ {ℓ κ} {K : Type ℓ} {V : Type κ} ⦃o : Ord K⦄ where
  unfoldable pub erase : K → Map K V → Map K V
  erase k [] = []
  erase k ((j, v) ∷ m) = let rest = erase k m in if k =? j then rest else (j, v) ∷ rest

  pub lookup-erase :
      (j k : K) (m : Map K V) → Map.lookup j (erase k m) ≡ (if j =? k then none else Map.lookup j m)
  unfolding Map.lookup erase
  lookup-erase j k [] = ground arith
  lookup-erase j k ((i, v) ∷ m) =
      ground (arith, lookup-erase j k m, o.cmp_iff j k, o.cmp_iff j i, o.cmp_iff k i)
