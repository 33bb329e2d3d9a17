-- ===== src/Config/Values.antt =====
-- The values of src/config.cpp that are lists and numbers.
use mathlib.Core.List.{append_assoc, append-nil}
use native.Mathlib.Nat.{pow-suc}
use caravault.Base.{
  ℕ, suc, ◌<◌, ◌+◌, ◌-◌, ◌*◌, ◌/◌, ◌%◌, ◌^◌, ◌≡◌, refl, true, false, some, List, [], ◌∷◌, ◌++◌,
  ◌==◌, ltb, zero, is_empty, All, arith, Text, Bool-cases, inl, inr, ltb→lt, lt→ltb, ap, sym, ◌∙◌,
}
use caravault.VersionVector.Json.{decimal, max_digits, is_digit, skip_ws}
use caravault.Config.Parsing.{
  LogLevel, log_level_to_string, log_level_from_string, iequal, trim_right, split, keep_tokens,
  split_csv, join_csv, read_digits, in_range, signed, parse_positive,
}
use caravault.Config.Lines.{
  NoByte, NoByte-append, split_at, split_last, IsPlain, trim_right-append, trim_right-solid,
  StartsSolid, trim_left_of_StartsSolid,
}

pub log_level_from_string-to_string :
    (level : LogLevel) → log_level_from_string (log_level_to_string level) ≡ some level
unfolding log_level_from_string log_level_to_string iequal
log_level_from_string-to_string LogLevel.error = refl
log_level_from_string-to_string LogLevel.warning = refl
log_level_from_string-to_string LogLevel.info = refl
log_level_from_string-to_string LogLevel.debug = refl

-- A pattern that a list of them gives back: not empty, plain, and without a comma.
pub record IsToken (t : Text) : Type 0 where
  pub filled : is_empty t ≡ false
  pub no_comma : NoByte 44 t
  pub plain : IsPlain t

keep_tokens-cons :
    (t : Text) (ts : List Text) → IsToken t → keep_tokens (t ∷ ts) ≡ t ∷ keep_tokens ts
unfolding keep_tokens
keep_tokens-cons t ts h = rw (trim_left_of_StartsSolid t h.plain.left, h.plain.right, h.filled) refl

pub split_csv-join_csv : (ts : List Text) → All IsToken ts → split_csv (join_csv ts) ≡ ts
unfolding join_csv
split_csv-join_csv [] h = unfold split keep_tokens in refl
split_csv-join_csv ((c ∷ t) ∷ []) (h, hs) =
    rw (split_last 44 c t h.no_comma, keep_tokens-cons (c ∷ t) [] h) (unfold keep_tokens in refl)
split_csv-join_csv ([] ∷ []) (h, hs) = absurd (ground (arith, h.filled))
split_csv-join_csv (t ∷ u ∷ ts) (h, hs) =
    rw
      (
        split_at 44 t (join_csv (u ∷ ts)) h.no_comma,
        keep_tokens-cons t _ h,
        split_csv-join_csv (u ∷ ts) hs,
      )
      refl

StartsSolid-append : (s t : Text) → is_empty s ≡ false → StartsSolid s → StartsSolid (s ++ t)
StartsSolid-append [] t e h = absurd (ground (arith, e))
StartsSolid-append (c ∷ s) t e h = h

pub join_csv-IsPlain : (ts : List Text) → All IsToken ts → IsPlain (join_csv ts)
unfolding join_csv
join_csv-IsPlain [] h = record {
  no_newline = tt;
  no_hash = tt;
  left = tt;
  right = unfold trim_right in refl;
}
join_csv-IsPlain (t ∷ []) (h, hs) = h.plain
join_csv-IsPlain (t ∷ u ∷ ts) (h, hs) =
    let rest = join_csv (u ∷ ts) in
    let plain = join_csv-IsPlain (u ∷ ts) hs in
    record {
      no_newline = NoByte-append 10 t (44 ∷ rest) h.plain.no_newline (refl, plain.no_newline);
      no_hash = NoByte-append 35 t (44 ∷ rest) h.plain.no_hash (refl, plain.no_hash);
      left = StartsSolid-append t (44 ∷ rest) h.filled h.plain.left;
      right = trim_right-append t rest 44 (trim_right-solid 44 rest refl plain.right);
    }

AreDigits : Text → Type 0
AreDigits s = All (λ c. is_digit c ≡ true) s

AreDigits-append : (s t : Text) → AreDigits s → AreDigits t → AreDigits (s ++ t)
unfolding AreDigits
AreDigits-append [] t h k = k
AreDigits-append (c ∷ s) t (p, h) k = (p, AreDigits-append s t h k)

decimal-AreDigits : (f n : ℕ) → AreDigits (decimal f n)
unfolding decimal AreDigits
decimal-AreDigits zero n = (ground arith, tt)
decimal-AreDigits (suc f) n = elim (Bool-cases (ltb n 10)) [
  | inl t ↦ rw t (ground arith, tt)
  | inr t ↦
      rw t
        (AreDigits-append (decimal f (n / 10)) _ (decimal-AreDigits f (n / 10)) (ground arith, tt))
]

NoByte-of_AreDigits : (b : ℕ) (s : Text) → is_digit b ≡ false → AreDigits s → NoByte b s
unfolding AreDigits
NoByte-of_AreDigits b [] e h = tt
NoByte-of_AreDigits b (c ∷ s) e (p, h) = (ground (arith, e, p), NoByte-of_AreDigits b s e h)

StartsSolid-of_AreDigits : (s : Text) → AreDigits s → StartsSolid s
unfolding AreDigits
StartsSolid-of_AreDigits [] h = tt
StartsSolid-of_AreDigits (c ∷ s) (p, h) = ground (arith, p)

trim_right-of_AreDigits : (s : Text) → AreDigits s → trim_right s ≡ s
unfolding AreDigits
trim_right-of_AreDigits [] h = unfold trim_right in refl
trim_right-of_AreDigits (c ∷ s) (p, h) =
    trim_right-solid c s (ground (arith, p)) (trim_right-of_AreDigits s h)

pub decimal-IsPlain : (n : ℕ) → IsPlain (decimal max_digits n)
decimal-IsPlain n =
    let digits = decimal-AreDigits max_digits n in
    record {
      no_newline = NoByte-of_AreDigits 10 _ refl digits;
      no_hash = NoByte-of_AreDigits 35 _ refl digits;
      left = StartsSolid-of_AreDigits _ digits;
      right = trim_right-of_AreDigits _ digits;
    }

read_digits-nil : (v : ℕ) → read_digits v [] ≡ v
unfolding read_digits
read_digits-nil v = refl

read_digits_step :
    (v x n : ℕ) (rest : Text)
    → x < 10
    → v * 10 + x ≡ n
    → read_digits v ((48 + x) ∷ rest) ≡ read_digits n rest
unfolding read_digits
read_digits_step v x n rest h e =
    let value : v * 10 + (48 + x - 48) ≡ n = omega arith in
    let digit : is_digit (48 + x) ≡ true = ground arith in rw (digit, value) refl

read_digits-decimal :
    (f n : ℕ) (rest : Text)
    → n < 10 ^ suc f
    → read_digits 0 (decimal f n ++ rest) ≡ read_digits n rest
unfolding decimal
read_digits-decimal zero n rest h = read_digits_step 0 (n % 10) n rest (omega arith) (omega arith)
read_digits-decimal (suc f) n rest h = elim (Bool-cases (ltb n 10)) [
  | inl t ↦ rw t (read_digits_step 0 n n rest (ltb→lt n 10 t) (omega arith))
  | inr t ↦
      rw (t, append_assoc, read_digits-decimal f (n / 10) _ (omega (arith, pow-suc 10 (suc f))))
        (read_digits_step (n / 10) (n % 10) n rest (omega arith) (omega arith))
]

pub parse_positive-decimal :
    (n : ℕ) → 0 < n → n < 2 ^ 63 → parse_positive (decimal max_digits n) ≡ some n
unfolding parse_positive AreDigits
parse_positive-decimal n low high = go (decimal max_digits n) (decimal-AreDigits max_digits n) read
  where
    read : read_digits 0 (decimal max_digits n) ≡ n
    read =
        ap (read_digits 0) (sym (append-nil (decimal max_digits n)))
        ∙ (read_digits-decimal max_digits n [] (omega (arith, high)) ∙ read_digits-nil n)

    fits : in_range n ≡ some n
    fits = rw (lt→ltb 0 n low, lt→ltb n (2 ^ 63) high) refl

    go : (s : Text) → AreDigits s → read_digits 0 s ≡ n → signed (skip_ws s) ≡ some n
    go [] h e = let z : 0 ≡ n = sym (read_digits-nil 0) ∙ e in absurd (omega (arith, low))
    go (c ∷ s) (p, h) e =
        let solid : skip_ws (c ∷ s) ≡ c ∷ s = unfold skip_ws in ground (arith, p) in
        let not_plus : (c == 43) ≡ false = ground (arith, p) in rw (solid, not_plus, p, e) fits
