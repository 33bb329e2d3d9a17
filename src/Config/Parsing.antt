-- ===== src/Config/Parsing.antt =====
-- The helpers of src/config.cpp that take texts apart and put them together, and its log levels.
use caravault.Base.{
  ℕ, ◌+◌, ◌-◌, ◌*◌, ◌^◌, Bool, true, false, Option, none, some, List, [], ◌∷◌, ◌++◌, ◌==◌, ◌&&◌,
  ◌||◌, leb, ltb, is_empty, if◌then◌else◌, Text, text_ord, text,
}
use caravault.VersionVector.Json.{is_digit, skip_ws}

pub data LogLevel : Type 0 where
  error warning info debug : LogLevel

-- One of " \t\r\n".
abbrev pub is_blank : ℕ → Bool
is_blank c = (c == 32) || ((c == 9) || ((c == 13) || (c == 10)))

unfoldable pub trim_left : Text → Text
trim_left [] = []
trim_left (c ∷ s) = let rest = trim_left s in if is_blank c then rest else c ∷ s

unfoldable pub trim_right : Text → Text
trim_right [] = []
trim_right (c ∷ s) = let rest = trim_right s in if is_empty rest && is_blank c then [] else c ∷ rest

abbrev pub trim : Text → Text
trim s = trim_right (trim_left s)

-- A byte put in front of the first piece.
abbrev pub grow : ℕ → List Text → List Text
grow c [] = (c ∷ []) ∷ []
grow c (t ∷ ts) = (c ∷ t) ∷ ts

-- The pieces that `std::getline` reads up to each separator; behind the last one there is none if
-- nothing is left.
unfoldable pub split : ℕ → Text → List Text
split sep [] = []
split sep (c ∷ s) = let rest = split sep s in if c == sep then [] ∷ rest else grow c rest

unfoldable pub keep_tokens : List Text → List Text
keep_tokens [] = []
keep_tokens (t ∷ ts) =
    let rest = keep_tokens ts in if is_empty (trim t) then rest else trim t ∷ rest

abbrev pub split_csv : Text → List Text
split_csv s = keep_tokens (split 44 s)

unfoldable pub join_csv : List Text → Text
join_csv [] = []
join_csv (t ∷ []) = t
join_csv (t ∷ u ∷ ts) = t ++ (44 ∷ join_csv (u ∷ ts))

-- `std::tolower` in the locale of C.
abbrev pub to_lower : ℕ → ℕ
to_lower c = if leb 65 c && leb c 90 then c + 32 else c

unfoldable pub iequal : Text → Text → Bool
iequal [] [] = true
iequal [] (d ∷ t) = false
iequal (c ∷ s) [] = false
iequal (c ∷ s) (d ∷ t) = let rest = iequal s t in if to_lower c == to_lower d then rest else false

-- The number that the digits at the front make.
unfoldable pub read_digits : ℕ → Text → ℕ
read_digits value [] = value
read_digits value (c ∷ s) =
    let more = read_digits (value * 10 + (c - 48)) s in if is_digit c then more else value

-- `std::stoll` throws where there is no digit, and above 2 ^ 63 - 1.
abbrev pub in_range : ℕ → Option ℕ
in_range v = if ltb 0 v && ltb v (2 ^ 63) then some v else none

abbrev pub unsigned : Text → Option ℕ
unsigned [] = none
unsigned (c ∷ s) = if is_digit c then in_range (read_digits 0 (c ∷ s)) else none

-- What is negative is refused with what is no number.
abbrev pub signed : Text → Option ℕ
signed [] = none
signed (c ∷ s) = if c == 43 then unsigned s else unsigned (c ∷ s)

-- The result -1 is `none`.
unfoldable pub parse_positive : Text → Option ℕ
parse_positive value = signed (skip_ws value)

unfoldable pub log_level_to_string : LogLevel → Text
log_level_to_string error = text "ERROR"
log_level_to_string warning = text "WARNING"
log_level_to_string info = text "INFO"
log_level_to_string debug = text "DEBUG"

unfoldable pub log_level_from_string : Text → Option LogLevel
log_level_from_string s =
    if iequal s (text "ERROR")
    then some error
    else if iequal s (text "WARNING") || iequal s (text "WARN")
    then some warning
    else if iequal s (text "INFO")
    then some info
    else if iequal s (text "DEBUG")
    then some debug
    else none

-- The bytes before the first `sep`, and those behind it.
unfoldable pub break_at : ℕ → Text → Option (Text × Text)
break_at sep [] = none
break_at sep (c ∷ s) =
    let rest = break_at sep s in
    if c == sep
    then some ([], s)
    else elim rest [ none ↦ none | some (before, behind) ↦ some (c ∷ before, behind) ]

-- `line.substr(0, comment_pos)`
unfoldable pub before_comment : Text → Text
before_comment [] = []
before_comment (c ∷ s) = let rest = before_comment s in if c == 35 then [] else c ∷ rest

-- Each line with its newline.
unfoldable pub print_lines : List Text → Text
print_lines [] = []
print_lines (line ∷ lines) = line ++ (10 ∷ print_lines lines)
