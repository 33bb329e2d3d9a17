-- ===== src/Base/Map/Every.antt =====
-- What holds of every entry of a `std::map`.
use mathlib.Core.Path.{◌≡◌}
use mathlib.Core.Option.{some}
use mathlib.Core.List.{[], ◌∷◌}
use native.Mathlib.Omega.{arith}
use caravault.Base.Order.{Ord}
use caravault.Base.Map
use caravault.Base.Map.{Map}
use caravault.Base.Map.Sorted

module _ {ℓ κ} {K : Type ℓ} {V : Type κ} where
  abbrev pub Every {μ} : (K → V → Type μ) → Map K V → Type μ
  Every P [] = Unit
  Every P ((k, v) ∷ m) = P k v × Every P m

  pub Every-mono {μ ν} :
      (P : K → V → Type μ) (Q : K → V → Type ν) (m : Map K V)
      → ((k : K) (v : V) → P k v → Q k v)
      → Every P m
      → Every Q m
  Every-mono P Q [] f e = tt
  Every-mono P Q ((k, v) ∷ m) f (p, e) = (f k v p, Every-mono P Q m f e)

module _ {ℓ κ μ} {K : Type ℓ} {V : Type κ} ⦃o : Ord K⦄ (P : K → V → Type μ) where
  pub insert-Every : (k : K) (v : V) (m : Map K V) → P k v → Every P m → Every P (Map.insert k v m)
  unfolding Map.insert
  insert-Every k v [] p e = (p, tt)
  insert-Every k v ((j, w) ∷ m) p (q, e) = ground (arith, insert-Every k v m p e)

  pub lookup-Every : (k : K) (v : V) (m : Map K V) → Every P m → Map.lookup k m ≡ some v → P k v
  unfolding Map.lookup
  lookup-Every k v [] e h = ground arith
  lookup-Every k v ((j, w) ∷ m) (q, e) h = ground (arith, lookup-Every k v m e, o.cmp_iff k j)

module _ {ℓ κ} {K : Type ℓ} {V : Type κ} ⦃o : Ord K⦄ where
  -- Every entry of a sorted list is what a look-up of its key finds.
  pub Every-lookup :
      (m : Map K V) → Sorted.IsSorted m → Every (λ (k : K) (v : V). Map.lookup k m ≡ some v) m
  unfolding Map.lookup
  Every-lookup [] s = tt
  Every-lookup ((k, v) ∷ m) (a, s) = (
    ground (arith, o.cmp_iff k k),
    Every-mono (λ (i : K) (w : V). Map.lookup i m ≡ some w)
        (λ (i : K) (w : V). Map.lookup i ((k, v) ∷ m) ≡ some w) m
        (λ i w. Sorted.lookup-cons i k w v m a) (Every-lookup m s),
  )
