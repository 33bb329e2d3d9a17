-- ===== src/Config/Lines.antt =====
-- The lines of a file of settings, as src/config.cpp splits and trims them.
use caravault.Base.{
  ℕ, ◌≡◌, refl, ◌∙◌, false, some, List, [], ◌∷◌, ◌++◌, ◌==◌, is_empty, All, arith, Text,
}
use caravault.Config.{Config, Doubles, set_key, load_line}
use caravault.Config.Parsing.{
  is_blank, trim_left, trim_right, trim, split, before_comment, break_at, print_lines,
}

-- The text does not have this byte.
abbrev pub NoByte : ℕ → Text → Type 0
NoByte b s = All (λ c. (c == b) ≡ false) s

-- The text does not begin with a blank.
abbrev pub StartsSolid : Text → Type 0
StartsSolid [] = Unit
StartsSolid (c ∷ s) = is_blank c ≡ false

pub trim_left_of_StartsSolid : (s : Text) → StartsSolid s → trim_left s ≡ s
unfolding trim_left
trim_left_of_StartsSolid [] h = refl
trim_left_of_StartsSolid (c ∷ s) h = rw h refl

-- What a line can hold behind `=` and give back: no newline, no `#`, no blanks at its ends.
pub record IsPlain (s : Text) : Type 0 where
  pub no_newline : NoByte 10 s
  pub no_hash : NoByte 35 s
  pub left : StartsSolid s
  pub right : trim_right s ≡ s

pub split_at :
    (sep : ℕ) (s rest : Text) → NoByte sep s → split sep (s ++ (sep ∷ rest)) ≡ s ∷ split sep rest
unfolding split
split_at sep [] rest h = ground arith
split_at sep (c ∷ s) rest (ne, h) = rw (split_at sep s rest h, ne) refl

-- Lines without newlines are read as they were printed.
pub split-print_lines :
    (lines : List Text) → All (NoByte 10) lines → split 10 (print_lines lines) ≡ lines
unfolding split print_lines
split-print_lines [] h = refl
split-print_lines (line ∷ lines) (p, h) =
    split_at 10 line (print_lines lines) p ∙ rw (split-print_lines lines h) refl

-- The last piece has no separator behind it.
pub split_last : (sep c : ℕ) (s : Text) → NoByte sep (c ∷ s) → split sep (c ∷ s) ≡ (c ∷ s) ∷ []
unfolding split
split_last sep c [] (ne, h) = rw ne refl
split_last sep c (d ∷ s) (ne, h) = rw (split_last sep d s h, ne) refl

pub NoByte-append : (b : ℕ) (s t : Text) → NoByte b s → NoByte b t → NoByte b (s ++ t)
NoByte-append b [] t h k = k
NoByte-append b (c ∷ s) t (p, h) k = (p, NoByte-append b s t h k)

before_comment_plain : (s : Text) → NoByte 35 s → before_comment s ≡ s
unfolding before_comment
before_comment_plain [] h = refl
before_comment_plain (c ∷ s) (ne, h) = rw (ne, before_comment_plain s h) refl

break_at_first : (k v : Text) → NoByte 61 k → break_at 61 (k ++ (61 ∷ v)) ≡ some (k, v)
unfolding break_at
break_at_first [] v h = refl
break_at_first (c ∷ k) v (ne, h) = rw (ne, break_at_first k v h) refl

is_empty-append : (s t : Text) (c : ℕ) → is_empty (s ++ (c ∷ t)) ≡ false
is_empty-append [] t c = refl
is_empty-append (d ∷ s) t c = refl

pub trim_right-append :
    (s t : Text) (c : ℕ) → trim_right (c ∷ t) ≡ c ∷ t → trim_right (s ++ (c ∷ t)) ≡ s ++ (c ∷ t)
unfolding trim_right
trim_right-append [] t c h = h
trim_right-append (d ∷ s) t c h = rw (trim_right-append s t c h, is_empty-append s t c) refl

pub trim_right-solid :
    (c : ℕ) (v : Text) → is_blank c ≡ false → trim_right v ≡ v → trim_right (c ∷ v) ≡ c ∷ v
unfolding trim_right
trim_right-solid c v solid h = ground (arith, h, solid)

module _ {D : Type 0} (f : Doubles D) where
  -- A line of a key and a plain value sets the key to the value.
  pub load_line-set_key :
      (c : ℕ) (k value : Text) (cfg : Config D)
      → is_blank c ≡ false
      → NoByte 35 (c ∷ k)
      → NoByte 61 (c ∷ k)
      → trim (c ∷ k) ≡ c ∷ k
      → IsPlain value
      → load_line f (c ∷ (k ++ (61 ∷ value))) cfg ≡ set_key f (c ∷ k) value cfg
  unfolding load_line
  load_line-set_key c k value cfg solid no_hash no_eq trimmed p =
      let line = c ∷ (k ++ (61 ∷ value)) in
      let left : trim_left line ≡ line = unfold trim_left in ground (arith, solid) in
      let right : trim_right line ≡ line =
        trim_right-append (c ∷ k) value 61 (trim_right-solid 61 value refl p.right) in
      let whole : before_comment line ≡ line =
        before_comment_plain line
          (NoByte-append 35 (c ∷ k) (61 ∷ value) no_hash (refl, p.no_hash)) in
      rw
        (
          whole,
          left,
          right,
          break_at_first (c ∷ k) value no_eq,
          trimmed,
          trim_left_of_StartsSolid value p.left,
          p.right,
        )
        refl
