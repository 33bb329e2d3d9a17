-- ===== src/Manifest/Tables.antt =====
-- The SQL statements of src/manifest_store.cpp on the `files` table, row by row, and the strings
-- that pass through a C string unchanged.
use caravault.Base.{
  ℕ, ◌<◌, ◌+◌, ◌%◌, ◌/◌, ◌≡◌, refl, Bool, true, false, none, some, List, [], ◌∷◌, ◌++◌, arith, ◌=?◌,
  if◌then◌else◌, Text, text_ord, cmp_text_iff, zero, suc,
}
use caravault.Base.Map.{Map}
use caravault.VersionVector.{VersionVector}
use caravault.VersionVector.Json.{decimal, escape, max_digits, print_clocks, to_json}
use caravault.Manifest.{FileRow, c_str, upsert, find_row, delete_rows, has_path}

-- A string with no NUL byte.
abbrev pub NoNul : Text → Type 0
NoNul [] = Unit
NoNul (c ∷ s) = (0 < c) × NoNul s

pub c_str_of_NoNul : (s : Text) → NoNul s → c_str s ≡ s
unfolding c_str
c_str_of_NoNul [] h = refl
c_str_of_NoNul (c ∷ s) (p, h) = ground (arith, c_str_of_NoNul s h)

pub NoNul-append : (s t : Text) → NoNul s → NoNul t → NoNul (s ++ t)
NoNul-append [] t h k = k
NoNul-append (c ∷ s) t (p, h) k = (p, NoNul-append s t h k)

NoNul-decimal : (f n : ℕ) → NoNul (decimal f n)
unfolding decimal
NoNul-decimal zero n = (omega arith, tt)
NoNul-decimal (suc f) n = ground (
  arith,
  NoNul-append (decimal f (n / 10)) ((b'0' + n % 10) ∷ []) (NoNul-decimal f (n / 10))
      (omega arith, tt),
)

NoNul-escape : (s : Text) → NoNul s → NoNul (escape s)
unfolding escape
NoNul-escape [] h = tt
NoNul-escape (c ∷ s) (p, h) = ground (arith, NoNul-escape s h)

-- Drive ids without NUL.
abbrev pub CleanIds : Map Text ℕ → Type 0
CleanIds [] = Unit
CleanIds ((d, _) ∷ m) = NoNul d × CleanIds m

NoNul-print_clocks : (first : Bool) (m : Map Text ℕ) → CleanIds m → NoNul (print_clocks first m)
unfolding print_clocks
NoNul-print_clocks first [] h = tt
NoNul-print_clocks first ((d, n) ∷ m) (p, h) = ground (
  arith,
  NoNul-append (escape d) (b'"' ∷ b':' ∷ (decimal max_digits n ++ print_clocks false m))
      (NoNul-escape d p)
      (
        omega arith,
        (
          omega arith,
          NoNul-append (decimal max_digits n) (print_clocks false m) (NoNul-decimal max_digits n)
              (NoNul-print_clocks false m h),
        ),
      ),
)

pub NoNul-to_json : (v : VersionVector) → CleanIds v.clocks → NoNul (to_json v)
unfolding to_json
NoNul-to_json v h =
    (omega arith, NoNul-append _ _ (NoNul-print_clocks true v.clocks h) (omega arith, tt))

-- A written row is found under its own path, and every other path has the row that it had.
pub find_row-upsert :
    (p q : Text) (row : FileRow) (rows : List FileRow)
    → row.path ≡ p
    → find_row (has_path q) (upsert (has_path p) row rows)
      ≡ (if p =? q then some row else find_row (has_path q) rows)
unfolding find_row upsert
find_row-upsert p q row [] e = ground (arith, e)
find_row-upsert p q row (r ∷ rows) e = ground (
  arith,
  e,
  find_row-upsert p q row rows e,
  cmp_text_iff r.path p,
  cmp_text_iff r.path q,
  cmp_text_iff p q,
)

-- A deleted path has no row, and every other path has the row that it had.
pub find_row-delete_rows :
    (p q : Text) (rows : List FileRow)
    → find_row (has_path q) (delete_rows (has_path p) rows)
      ≡ (if p =? q then none else find_row (has_path q) rows)
unfolding find_row delete_rows
find_row-delete_rows p q [] = ground arith
find_row-delete_rows p q (r ∷ rows) = ground (
  arith,
  find_row-delete_rows p q rows,
  cmp_text_iff r.path p,
  cmp_text_iff r.path q,
  cmp_text_iff p q,
)

-- The primary key: no two rows have one path.
abbrev pub HasUniquePaths : List FileRow → Type 0
HasUniquePaths [] = Unit
HasUniquePaths (r ∷ rows) = (find_row (has_path r.path) rows ≡ none) × HasUniquePaths rows

pub upsert-HasUniquePaths :
    (p : Text) (row : FileRow) (rows : List FileRow)
    → row.path ≡ p
    → HasUniquePaths rows
    → HasUniquePaths (upsert (has_path p) row rows)
unfolding upsert find_row
upsert-HasUniquePaths p row [] e u = (refl, tt)
upsert-HasUniquePaths p row (r ∷ rows) e (fresh, u) = ground (
  arith,
  e,
  upsert-HasUniquePaths p row rows e u,
  find_row-upsert p r.path row rows e,
  cmp_text_iff r.path p,
  cmp_text_iff p r.path,
)
