-- ===== src/VersionVector/Json/RoundTrip.antt =====
-- `from_json` of src/version_vector.cpp on what `to_json` writes.
use mathlib.Core.List.{append_assoc, append-nil}
use native.Mathlib.Nat.{pow-suc}
use caravault.Base.{
  ℕ, zero, suc, ◌+◌, ◌*◌, ◌/◌, ◌%◌, ◌^◌, ◌≤◌, ◌<◌, ◌-◌, ◌||◌, ◌≡◌, refl, ◌∙◌, true, false, ◌⊎◌, inl,
  inr, [], ◌∷◌, ◌++◌, arith, ltb, ◌==◌, Bool, cmp_text_iff, length, length-append, Text, text_ord,
  Bool-cases, ltb→lt,
}
use caravault.Base.Map
use caravault.Base.Map.{Map}
use caravault.Base.Map.Sorted
use caravault.Base.Results.{ok}
use caravault.VersionVector.{VersionVector, u64_mod, get_clock, found_clock}
use caravault.VersionVector.Clocks.{IsValid}
use caravault.VersionVector.Json.{
  backslash, decimal, max_digits, escape, print_clocks, to_json, is_space, is_digit, skip_ws,
  parse_key, parse_digits, parse_value, parse_entry, parse_entries, next_entry, from_json,
}

parse_digits_step :
    (v x n : ℕ) (rest : Text)
    → x < 10
    → n < u64_mod
    → v * 10 + x ≡ n
    → parse_digits v ((b'0' + x) ∷ rest) ≡ parse_digits n rest
unfolding parse_digits
parse_digits_step v x n rest h k e =
    let value : (v * 10 + (b'0' + x - b'0')) % u64_mod ≡ n = omega arith in
    let digit : is_digit (b'0' + x) ≡ true = ground arith in rw (digit, value)

parse_digits-decimal :
    (f n : ℕ) (rest : Text)
    → n < 10 ^ suc f
    → n < u64_mod
    → parse_digits 0 (decimal f n ++ rest) ≡ parse_digits n rest
unfolding parse_digits decimal
parse_digits-decimal zero n rest h k =
    parse_digits_step 0 (n % 10) n rest (omega arith) k (omega arith)
parse_digits-decimal (suc f) n rest h k = elim (Bool-cases (ltb n 10)) [
  | inl t ↦ rw t (parse_digits_step 0 n n rest (ltb→lt n 10 t) k (omega arith))
  | inr t ↦
      rw
        (
          t,
          append_assoc,
          parse_digits-decimal f (n / 10) _ (omega (arith, pow-suc 10 (suc f))) (omega arith),
        )
        (parse_digits_step (n / 10) (n % 10) n rest (omega arith) k (omega arith))
]

decimal_head : (f n : ℕ) → (d : ℕ) × (t : Text) × (decimal f n ≡ d ∷ t) × (is_digit d ≡ true)
unfolding decimal
decimal_head zero n = (b'0' + n % 10, [], refl, ground arith)
decimal_head (suc f) n = elim (Bool-cases (ltb n 10)) [
  | inl t ↦ (b'0' + n, [], rw t refl, ground arith)
  | inr t ↦
      let (d, s, e, g) = decimal_head f (n / 10) in
      (d, s ++ (b'0' + n % 10) ∷ [], rw (t, e) refl, g)
]

skip_ws-cons : (c : ℕ) (s : Text) → is_space c ≡ false → skip_ws (c ∷ s) ≡ c ∷ s
unfolding skip_ws
skip_ws-cons c s h = ground arith

parse_key_plain :
    (key : Text) (c : ℕ) (s : Text)
    → (c == b'"') ≡ false
    → (c == backslash) ≡ false
    → parse_key key (c ∷ s) ≡ parse_key (key ++ c ∷ []) s
unfolding parse_key
parse_key_plain key c [] h k = ground arith
parse_key_plain key c (e ∷ s) h k = ground arith

parse_key_escaped :
    (key : Text) (c : ℕ) (s : Text)
    → ((c == backslash) || (c == b'"')) ≡ true
    → parse_key key (backslash ∷ c ∷ s) ≡ parse_key (key ++ c ∷ []) s
unfolding parse_key
parse_key_escaped key c s h = ground arith

parse_key_quote : (key s : Text) → parse_key key (b'"' ∷ s) ≡ ok (key, s)
unfolding parse_key
parse_key_quote key [] = refl
parse_key_quote key (e ∷ s) = refl

parse_key-escape :
    (key k rest : Text) → parse_key key (escape k ++ (b'"' ∷ rest)) ≡ ok (key ++ k, rest)
unfolding escape
parse_key-escape key [] rest = rw (append-nil) (parse_key_quote key rest)
parse_key-escape key (c ∷ k) rest = elim (Bool-cases ((c == backslash) || (c == b'"'))) [
  | inl t ↦
      rw t (parse_key_escaped key c _ t ∙ parse_key-escape (key ++ c ∷ []) k rest ∙ rw append_assoc)
  | inr t ↦ rw t (
      parse_key_plain key c _ (ground arith) (ground arith)
      ∙ parse_key-escape (key ++ c ∷ []) k rest
      ∙ rw append_assoc)
]

parse_value-decimal :
    (f n : ℕ) (rest : Text)
    → n < 10 ^ suc f
    → n < u64_mod
    → parse_digits n rest ≡ (n, rest)
    → parse_value (skip_ws (decimal f n ++ rest)) ≡ ok (n, rest)
unfolding parse_value
parse_value-decimal f n rest h k stop =
    let (d, s, e, g) = decimal_head f n in
    let digits = rw e at (parse_digits-decimal f n rest h k) in
    rw (e, skip_ws-cons d _ (ground arith), g, digits, stop)

-- One printed entry, up to the comma or the brace behind it, is read back.
parse_entry-print :
    (k : Text) (n c : ℕ) (rest : Text)
    → n < u64_mod
    → (c ≡ b',') ⊎ (c ≡ b'}')
    → parse_entry (escape k ++ (b'"' ∷ b':' ∷ (decimal max_digits n ++ c ∷ rest)))
      ≡ ok (k, n, c ∷ rest)
unfolding parse_entry
parse_entry-print k n c rest h end =
    let stop : parse_digits n (c ∷ rest) ≡ (n, c ∷ rest) = unfold parse_digits in ground arith in
    rw (
      parse_key-escape [] k _,
      skip_ws-cons b':' _ refl,
      parse_value-decimal max_digits n (c ∷ rest) (omega arith) h stop,
      skip_ws-cons c rest (ground arith),
    )

abbrev closed : Bool → Map Text ℕ → Text
closed first m = print_clocks first m ++ (b'}' ∷ [])

parse_entry-closed :
    (k : Text) (n : ℕ) (m : Map Text ℕ)
    → n < u64_mod
    → parse_entry (
        (escape k ++ (b'"' ∷ b':' ∷ (decimal max_digits n ++ print_clocks false m))) ++ (b'}' ∷ []))
      ≡ ok (k, n, closed false m)
unfolding print_clocks
parse_entry-closed k n [] h =
    simp (append_assoc, append-nil) (parse_entry-print k n b'}' [] h (inr refl))
parse_entry-closed k n ((j, o) ∷ m) h =
    simp append_assoc (parse_entry-print k n b',' _ h (inl refl))

AllFit : Map Text ℕ → Type 0
AllFit [] = Unit
AllFit ((k, n) ∷ m) = (n < u64_mod) × AllFit m

AllFit-of_lookup :
    (m : Map Text ℕ)
    → Sorted.IsSorted m
    → ((d : Text) → found_clock (Map.lookup d m) < u64_mod)
    → AllFit m
unfolding AllFit Map.lookup
AllFit-of_lookup [] s h = tt
AllFit-of_lookup ((k, n) ∷ m) (a, s) h = (
  ground (arith, h k, cmp_text_iff k k),
  AllFit-of_lookup m s λ d. ground (arith, h d, cmp_text_iff d k, Sorted.lookup-of_IsAbove k m a),
)

-- The rounds over printed clocks assign each of them.
parse_entries-print :
    (fuel : ℕ) (acc m : Map Text ℕ)
    → length m < fuel
    → AllFit m
    → parse_entries fuel acc (closed true m) ≡ ok (Sorted.insert_all acc m)
unfolding parse_entries next_entry print_clocks AllFit Sorted.insert_all
parse_entries-print zero acc m h fits = absurd (omega arith)
parse_entries-print (suc fuel) acc [] h fits = refl
parse_entries-print (suc fuel) acc ((k, n) ∷ []) h (fit, fits) =
    rw (parse_entry-closed k n [] fit) refl
parse_entries-print (suc fuel) acc ((k, n) ∷ (j, o) ∷ m) h (fit, fits) =
    rw (parse_entry-closed k n ((j, o) ∷ m) fit)
      (parse_entries-print fuel (Map.insert k n acc) ((j, o) ∷ m) (omega arith) fits)

length-print_clocks : (first : Bool) (m : Map Text ℕ) → length m ≤ length (print_clocks first m)
unfolding print_clocks
length-print_clocks first [] = omega arith
length-print_clocks first ((k, n) ∷ m) =
    simp length-append (omega (arith, length-print_clocks false m))

skip_ws-closed : (m : Map Text ℕ) → skip_ws (closed true m) ≡ closed true m
unfolding skip_ws print_clocks
skip_ws-closed [] = refl
skip_ws-closed ((k, n) ∷ m) = refl

-- A valid vector survives being printed and parsed.
pub from_json-to_json : (v : VersionVector) → IsValid v → from_json (to_json v) ≡ ok v
unfolding from_json to_json get_clock
from_json-to_json v p =
    let enough : length v.clocks < suc (length (closed true v.clocks)) =
      simp length-append (omega (arith, length-print_clocks true v.clocks)) in
    rw (
      skip_ws-closed v.clocks,
      parse_entries-print (suc (length (closed true v.clocks))) [] v.clocks enough
          (AllFit-of_lookup v.clocks p.sorted p.fits),
      Sorted.insert_all-nil v.clocks p.sorted,
    )
