-- ===== src/Base/Order.antt =====
-- A total order with a three-way test, as `std::map` and `std::set` ask of their keys.
use Prim.Native.Nat.{Ordering}
use mathlib.Core.Path.{◌≡◌}
use mathlib.Core.Logic.{◌↔◌}
use mathlib.Core.Bool.{Bool, true, false}
use native.Mathlib.Omega.{arith}

pub record Ord {ℓ} (K : Type ℓ) : Type ℓ where
  pub cmp : K → K → Ordering
  pub cmp_iff : (a b : K) → (cmp a b ≡ Ordering.eq) ↔ (a ≡ b)
  pub cmp_swap : (a b : K) → cmp a b ≡ Ordering.lt → cmp b a ≡ Ordering.gt
  pub cmp_swap' : (a b : K) → cmp a b ≡ Ordering.gt → cmp b a ≡ Ordering.lt
  pub cmp_trans :
      (a b c : K) → cmp a b ≡ Ordering.lt → cmp b c ≡ Ordering.lt → cmp a c ≡ Ordering.lt

abbrev pub is_eq : Ordering → Bool
is_eq Ordering.eq = true
is_eq _ = false

-- Equality of keys as a Boolean.
infix 50 ◌=?◌
abbrev pub ◌=?◌ {ℓ} : {K : Type ℓ} ⦃o : Ord K⦄ → K → K → Bool
◌=?◌ ⦃o⦄ a b = is_eq (o.cmp a b)

module _ {ℓ} {K : Type ℓ} ⦃o : Ord K⦄ where
  pub =?_refl : (a : K) → (a =? a) ≡ true
  =?_refl a = ground (arith, o.cmp_iff a a)

  pub =?_iff : (a b : K) → ((a =? b) ≡ true) ↔ (a ≡ b)
  =?_iff a b = ground (arith, o.cmp_iff a b)

  pub cmp_irrefl : (a : K) → o.cmp a a ≡ Ordering.lt → ⊥
  cmp_irrefl a h = ground (arith, o.cmp_iff a a)

-- Pairs are ordered by their first part, then by their second.
module _ {ℓ κ} {K : Type ℓ} {L : Type κ} ⦃o : Ord K⦄ ⦃q : Ord L⦄ where
  abbrev pub cmp_pair : K × L → K × L → Ordering
  cmp_pair (a, b) (c, d) = elim (o.cmp a c) [ Ordering.eq ↦ q.cmp b d | r ↦ r ]

  pub cmp_pair_iff : (x y : K × L) → (cmp_pair x y ≡ Ordering.eq) ↔ (x ≡ y)
  cmp_pair_iff (a, b) (c, d) = ground (arith, o.cmp_iff a c, q.cmp_iff b d)

  pub cmp_pair_swap : (x y : K × L) → cmp_pair x y ≡ Ordering.lt → cmp_pair y x ≡ Ordering.gt
  cmp_pair_swap (a, b) (c, d) h =
      ground (arith, o.cmp_swap a c, q.cmp_swap b d, o.cmp_iff a c, o.cmp_iff c a)

  pub cmp_pair_swap' : (x y : K × L) → cmp_pair x y ≡ Ordering.gt → cmp_pair y x ≡ Ordering.lt
  cmp_pair_swap' (a, b) (c, d) h =
      ground (arith, o.cmp_swap' a c, q.cmp_swap' b d, o.cmp_iff a c, o.cmp_iff c a)

  pub cmp_pair_trans :
      (x y z : K × L)
      → cmp_pair x y ≡ Ordering.lt
      → cmp_pair y z ≡ Ordering.lt
      → cmp_pair x z ≡ Ordering.lt
  cmp_pair_trans (a, b) (c, d) (e, f) h k =
      ground
        (arith, o.cmp_trans a c e, q.cmp_trans b d f, o.cmp_iff a c, o.cmp_iff c e, o.cmp_iff a e)

  instance abbrev pub pair_ord : Ord (K × L)
  pair_ord = record {
    cmp = cmp_pair;
    cmp_iff = cmp_pair_iff;
    cmp_swap = cmp_pair_swap;
    cmp_swap' = cmp_pair_swap';
    cmp_trans = cmp_pair_trans;
  }
