-- ===== src/VersionVector/Json.antt =====
-- `to_json` and `from_json` of src/version_vector.cpp, over the bytes of the text. A position in
-- the text is the list of the bytes from there on.
pub mod RoundTrip
pub mod Fuel
use caravault.Base.{
  ℕ, zero, suc, ◌+◌, ◌-◌, ◌*◌, ◌/◌, ◌%◌, ◌≡◌, refl, not, text, cmp_text, Bool, true, false, ◌&&◌,
  ◌||◌, List, [], ◌∷◌, ◌++◌, ltb, leb, ◌==◌, if◌then◌else◌, length, Text, text_ord,
}
use caravault.Base.Map
use caravault.Base.Map.{Map}
use caravault.Base.Results.{Result, ok, err, ◌>>=◌}
use caravault.VersionVector.{VersionVector, u64_mod}

-- The messages of the exceptions; `no_fuel` is none of them and stands for a loop cut short.
pub data JsonError : Type 0 where
  no_open_brace no_key_quote bad_escape unterminated no_colon no_number unexpected_end : JsonError
  no_fuel : JsonError

abbrev pub backslash : ℕ
backslash = 92

-- `oss << clock`, at most `fuel` + 1 digits.
unfoldable pub decimal : ℕ → ℕ → Text
decimal zero n = (b'0' + n % 10) ∷ []
decimal (suc fuel) n =
    let more = decimal fuel (n / 10) ++ (b'0' + n % 10) ∷ [] in
    if ltb n 10 then (b'0' + n) ∷ [] else more

-- A 64-bit number has at most 20 digits.
abbrev pub max_digits : ℕ
max_digits = 19

-- The drive id between its quotes.
unfoldable pub escape : Text → Text
escape [] = []
escape (c ∷ s) =
    let rest = escape s in
    if (c == backslash) || (c == b'"') then backslash ∷ c ∷ rest else c ∷ rest

unfoldable pub print_clocks : Bool → Map Text ℕ → Text
print_clocks first [] = []
print_clocks first ((drive_id, clock) ∷ clocks) =
    (if first then [] else b',' ∷ [])
    ++ (b'"'
        ∷ (escape drive_id
            ++ (b'"' ∷ b':' ∷ (decimal max_digits clock ++ print_clocks false clocks))))

unfoldable pub to_json : VersionVector → Text
to_json v = b'{' ∷ (print_clocks true v.clocks ++ (b'}' ∷ []))

abbrev pub is_space : ℕ → Bool
is_space c = (c == 32) || (leb 9 c && leb c 13)

abbrev pub is_digit : ℕ → Bool
is_digit c = leb b'0' c && leb c b'9'

unfoldable pub skip_ws : Text → Text
skip_ws [] = []
skip_ws (c ∷ s) = let rest = skip_ws s in if is_space c then rest else c ∷ s

-- The loop that collects a key, up to its closing quote; then the text behind that quote.
unfoldable pub parse_key : Text → Text → Result JsonError (Text × Text)
parse_key key [] = err unterminated
parse_key key (c ∷ []) =
    if c == b'"' then ok (key, []) else if c == backslash then err bad_escape else err unterminated
parse_key key (c ∷ e ∷ s) =
    let escaped = parse_key (key ++ e ∷ []) s in
    let plain = parse_key (key ++ c ∷ []) (e ∷ s) in
    if c == b'"'
    then ok (key, e ∷ s)
    else if c == backslash
    then (if (e == b'"') || (e == backslash) then escaped else err bad_escape)
    else plain

abbrev pub expect_colon : Text → Result JsonError Text
expect_colon [] = err no_colon
expect_colon (c ∷ s) = if c == b':' then ok s else err no_colon

-- The loop over the digits, in 64 bits.
unfoldable pub parse_digits : ℕ → Text → ℕ × Text
parse_digits value [] = (value, [])
parse_digits value (c ∷ s) =
    let more = parse_digits ((value * 10 + (c - b'0')) % u64_mod) s in
    if is_digit c then more else (value, c ∷ s)

unfoldable pub parse_value : Text → Result JsonError (ℕ × Text)
parse_value [] = err no_number
parse_value (c ∷ s) = if is_digit c then ok (parse_digits 0 (c ∷ s)) else err no_number

-- One `"key" : value`, from behind the opening quote.
unfoldable pub parse_entry : Text → Result JsonError (Text × ℕ × Text)
parse_entry s = do
  (key, s1) ← parse_key [] s
  s2 ← expect_colon (skip_ws s1)
  (value, s3) ← parse_value (skip_ws s2)
  ok (key, value, skip_ws s3)

-- The rounds of the main loop. Behind a value any byte but `,` and `}` begins the next round.
unfoldable pub next_entry :
    (Map Text ℕ → Text → Result JsonError (Map Text ℕ))
    → Map Text ℕ
    → Text
    → Result JsonError (Map Text ℕ)
next_entry continue clocks [] = err unexpected_end
next_entry continue clocks (c ∷ s) =
    let behind = continue clocks s in
    let again = continue clocks (c ∷ s) in
    if c == b',' then behind else if c == b'}' then ok clocks else again

unfoldable pub parse_entries : ℕ → Map Text ℕ → Text → Result JsonError (Map Text ℕ)
parse_entries zero clocks s = err no_fuel
parse_entries (suc fuel) clocks [] = ok clocks
parse_entries (suc fuel) clocks (c ∷ s) =
    if c == b'}'
    then ok clocks
    else if not (c == b'"')
    then err no_key_quote
    else (parse_entry s >>= λ entry.
        next_entry (parse_entries fuel) (Map.insert entry.0 entry.1 clocks) entry.2)

-- Every round reads a byte, so the length of the text is fuel enough.
unfoldable pub from_json : Text → Result JsonError VersionVector
from_json [] = err no_open_brace
from_json (c ∷ s) =
    if not (c == b'{')
    then err no_open_brace
    else (parse_entries (suc (length s)) [] (skip_ws s) >>= λ clocks.
        ok (record { clocks = clocks }))

sample : VersionVector
sample = record { clocks = (text "A", 17) ∷ (text "B", 18446744073709551615) ∷ [] }

sample_prints : to_json sample ≡ text "{\"A\":17,\"B\":18446744073709551615}"
unfolding to_json print_clocks decimal escape sample
sample_prints = refl

sample_parses : from_json (text "{ \"A\" : 17 ,\"B\":18446744073709551615}") ≡ ok sample
unfolding from_json skip_ws parse_entries parse_entry parse_key parse_value parse_digits next_entry
    Map.insert cmp_text sample
sample_parses = refl
