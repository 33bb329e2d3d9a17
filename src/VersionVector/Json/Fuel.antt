-- ===== src/VersionVector/Json/Fuel.antt =====
-- The fuel of the main loop of `from_json` in src/version_vector.cpp.
use caravault.Base.{
  ℕ, zero, suc, ◌+◌, ◌*◌, ◌-◌, ◌%◌, ◌≤◌, ◌<◌, ◌≢◌, [], ◌∷◌, ◌++◌, arith, length, Text, text_ord,
}
use caravault.Base.Map
use caravault.Base.Map.{Map}
use caravault.Base.Results.{Result, ok, err, ◌>>=◌}
use caravault.VersionVector.{u64_mod}
use caravault.VersionVector.Json.{
  JsonError, no_fuel, skip_ws, parse_key, parse_digits, parse_value, parse_entry, parse_entries,
  next_entry, from_json, expect_colon,
}

length-skip_ws : (s : Text) → length (skip_ws s) ≤ length s
unfolding skip_ws
length-skip_ws [] = omega arith
length-skip_ws (c ∷ s) = ground (arith, length-skip_ws s)

length-parse_digits : (v : ℕ) (s : Text) → length (parse_digits v s).1 ≤ length s
unfolding parse_digits
length-parse_digits v [] = omega arith
length-parse_digits v (c ∷ s) =
    ground (arith, length-parse_digits ((v * 10 + (c - b'0')) % u64_mod) s)

-- What a successful step leaves is no longer than what it was given, and no step lacks fuel.
abbrev Shrinks : {A : Type 0} → (A → Text) → ℕ → Result JsonError A → Type 0
Shrinks left n (ok a) = length (left a) ≤ n
Shrinks left n (err e) = e ≢ no_fuel

length-parse_key : (key s : Text) → Shrinks (λ r. r.1) (length s) (parse_key key s)
unfolding parse_key
length-parse_key key [] = ground arith
length-parse_key key (c ∷ []) = ground arith
length-parse_key key (c ∷ e ∷ s) =
    ground (arith, length-parse_key (key ++ e ∷ []) s, length-parse_key (key ++ c ∷ []) (e ∷ s))

length-parse_value : (s : Text) → Shrinks (λ r. r.1) (length s) (parse_value s)
unfolding parse_value
length-parse_value [] = ground arith
length-parse_value (c ∷ s) = ground (arith, length-parse_digits 0 (c ∷ s))

length-expect_colon : (s : Text) → Shrinks (λ t. t) (length s) (expect_colon s)
length-expect_colon [] = ground arith
length-expect_colon (c ∷ s) = ground arith

Shrinks-mono :
    {A : Type 0} (left : A → Text) (n m : ℕ) (r : Result JsonError A)
    → n ≤ m
    → Shrinks left n r
    → Shrinks left m r
Shrinks-mono left n m (ok a) h p = omega arith
Shrinks-mono left n m (err e) h p = p

Shrinks-bind :
    {A B : Type 0} (f : A → Text) (g : B → Text) (n : ℕ) (r : Result JsonError A)
    (k : A → Result JsonError B)
    → Shrinks f n r
    → ((a : A) → Shrinks g (length (f a)) (k a))
    → Shrinks g n (r >>= k)
Shrinks-bind f g n (ok a) k p q = Shrinks-mono g (length (f a)) n (k a) p (q a)
Shrinks-bind f g n (err e) k p q = p

length-parse_entry : (s : Text) → Shrinks (λ r. r.2) (length s) (parse_entry s)
unfolding parse_entry
length-parse_entry s =
    Shrinks-bind (λ r. r.1) (λ r. r.2) _ (parse_key [] s) _ (length-parse_key [] s)
      λ (key, s1).
        Shrinks-bind (λ t. t) (λ r. r.2) _ (expect_colon (skip_ws s1)) _
          (Shrinks-mono (λ t. t) _ _ (expect_colon (skip_ws s1)) (length-skip_ws s1)
            (length-expect_colon (skip_ws s1)))
          λ s2.
            Shrinks-bind (λ r. r.1) (λ r. r.2) _ (parse_value (skip_ws s2)) _
              (Shrinks-mono (λ r. r.1) _ _ (parse_value (skip_ws s2)) (length-skip_ws s2)
                (length-parse_value (skip_ws s2)))
              λ (value, s3). length-skip_ws s3

module _ (n : ℕ) (continue : Map Text ℕ → Text → Result JsonError (Map Text ℕ))
    (ends : (m : Map Text ℕ) (t : Text) → length t < n → continue m t ≢ err no_fuel) where
  next_entry-ne-no_fuel :
      (m : Map Text ℕ) (t : Text) → length t < n → next_entry continue m t ≢ err no_fuel
  unfolding next_entry
  next_entry-ne-no_fuel m [] h = ground arith
  next_entry-ne-no_fuel m (d ∷ t) h = ground (arith, ends m t, ends m (d ∷ t))

  bind_entry-ne-no_fuel :
      (clocks : Map Text ℕ) (s : Text) (r : Result JsonError (Text × ℕ × Text))
      → length s < n
      → Shrinks (λ e. e.2) (length s) r
      → (r >>= λ e. next_entry continue (Map.insert e.0 e.1 clocks) e.2) ≢ err no_fuel
  bind_entry-ne-no_fuel clocks s (ok (k, v, t)) h q =
      next_entry-ne-no_fuel (Map.insert k v clocks) t (omega arith)
  bind_entry-ne-no_fuel clocks s (err e) h q = ground arith

parse_entries-ne-no_fuel :
    (fuel : ℕ) (clocks : Map Text ℕ) (s : Text)
    → length s < fuel
    → parse_entries fuel clocks s ≢ err no_fuel
unfolding parse_entries
parse_entries-ne-no_fuel zero clocks s h = absurd (omega arith)
parse_entries-ne-no_fuel (suc fuel) clocks [] h = ground arith
parse_entries-ne-no_fuel (suc fuel) clocks (c ∷ s) h = ground (
  arith,
  bind_entry-ne-no_fuel fuel (parse_entries fuel) (parse_entries-ne-no_fuel fuel) clocks s
      (parse_entry s) (omega arith) (length-parse_entry s),
)

-- For every text the loop of `from_json` ends with the fuel that it is given: the text is parsed
-- or one of the messages of the source is thrown.
pub from_json-ne-no_fuel : (s : Text) → from_json s ≢ err no_fuel
unfolding from_json
from_json-ne-no_fuel [] = ground arith
from_json-ne-no_fuel (c ∷ s) =
    ground (arith, parse_entries-ne-no_fuel (suc (length s)) [] (skip_ws s), length-skip_ws s)
