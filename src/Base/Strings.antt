-- ===== src/Base/Strings.antt =====
-- `std::string` as the list of its bytes, in the order of `std::string::operator<`.
use Prim.Native.Nat.{ℕ, compare, Ordering}
use Prim.Native.Char.{code}
use Prim.Native.String.{String}
use mathlib.Core.Path.{◌≡◌, refl}
use mathlib.Core.Logic.{◌↔◌}
use mathlib.Core.List.{List, [], ◌∷◌}
use native.Mathlib.Omega.{arith}
use caravault.Base.Order.{Ord}

abbrev pub Text : Type 0
Text = List ℕ

-- The bytes of a literal in ASCII.
abbrev pub text : String → Text
text String.[] = []
text (String.◌∷◌ c s) = code c ∷ text s

unfoldable pub cmp_text : Text → Text → Ordering
cmp_text [] [] = Ordering.eq
cmp_text [] (d ∷ t) = Ordering.lt
cmp_text (c ∷ s) [] = Ordering.gt
cmp_text (c ∷ s) (d ∷ t) =
    let rest = cmp_text s t in elim (compare c d) [ Ordering.eq ↦ rest | r ↦ r ]

pub cmp_text_iff : (s t : Text) → (cmp_text s t ≡ Ordering.eq) ↔ (s ≡ t)
unfolding cmp_text
cmp_text_iff [] [] = (λ h. refl, λ h. refl)
cmp_text_iff [] (d ∷ t) = ground arith
cmp_text_iff (c ∷ s) [] = ground arith
cmp_text_iff (c ∷ s) (d ∷ t) = ground (arith, cmp_text_iff s t)

pub cmp_text_swap : (s t : Text) → cmp_text s t ≡ Ordering.lt → cmp_text t s ≡ Ordering.gt
unfolding cmp_text
cmp_text_swap [] [] h = ground arith
cmp_text_swap [] (d ∷ t) h = refl
cmp_text_swap (c ∷ s) [] h = ground arith
cmp_text_swap (c ∷ s) (d ∷ t) h = ground (arith, cmp_text_swap s t)

pub cmp_text_swap' : (s t : Text) → cmp_text s t ≡ Ordering.gt → cmp_text t s ≡ Ordering.lt
unfolding cmp_text
cmp_text_swap' [] [] h = ground arith
cmp_text_swap' [] (d ∷ t) h = ground arith
cmp_text_swap' (c ∷ s) [] h = refl
cmp_text_swap' (c ∷ s) (d ∷ t) h = ground (arith, cmp_text_swap' s t)

pub cmp_text_trans :
    (s t u : Text)
    → cmp_text s t ≡ Ordering.lt
    → cmp_text t u ≡ Ordering.lt
    → cmp_text s u ≡ Ordering.lt
unfolding cmp_text
cmp_text_trans [] [] u h k = ground arith
cmp_text_trans [] (d ∷ t) [] h k = ground arith
cmp_text_trans [] (d ∷ t) (e ∷ u) h k = refl
cmp_text_trans (c ∷ s) [] u h k = ground arith
cmp_text_trans (c ∷ s) (d ∷ t) [] h k = ground arith
cmp_text_trans (c ∷ s) (d ∷ t) (e ∷ u) h k = ground (arith, cmp_text_trans s t u)

instance abbrev pub text_ord : Ord Text
text_ord = record {
  cmp = cmp_text;
  cmp_iff = cmp_text_iff;
  cmp_swap = cmp_text_swap;
  cmp_swap' = cmp_text_swap';
  cmp_trans = cmp_text_trans;
}
