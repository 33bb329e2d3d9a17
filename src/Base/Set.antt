-- ===== src/Base/Set.antt =====
-- `std::set`: a list in ascending order.
use Prim.Native.Nat.{Ordering}
use mathlib.Core.Path.{◌≡◌, refl}
use mathlib.Core.Bool.{Bool, false, ◌||◌}
use mathlib.Core.List.{List, [], ◌∷◌}
use native.Mathlib.Omega.{arith}
use caravault.Base.Order.{Ord, ◌=?◌}

abbrev pub Set {ℓ} : Type ℓ → Type ℓ
Set K = List K

module _ {ℓ} {K : Type ℓ} ⦃o : Ord K⦄ where
  -- `count`
  unfoldable pub contains : K → Set K → Bool
  contains k [] = false
  contains k (j ∷ s) = (k =? j) || contains k s

  unfoldable pub insert : K → Set K → Set K
  insert k [] = k ∷ []
  insert k (j ∷ s) =
      let rest = insert k s in
      elim (o.cmp k j) [ Ordering.lt ↦ k ∷ j ∷ s | Ordering.eq ↦ j ∷ s | Ordering.gt ↦ j ∷ rest ]

  pub contains-insert : (j k : K) (s : Set K) → contains j (insert k s) ≡ ((j =? k) || contains j s)
  unfolding contains insert
  contains-insert j k [] = refl
  contains-insert j k (i ∷ s) =
      ground (arith, contains-insert j k s, o.cmp_iff j k, o.cmp_iff j i, o.cmp_iff k i)
