-- ===== src/Planner/Paths.antt =====
-- `parent_dir` and `ancestor_dirs` of src/sync_planner.cpp.
use caravault.Base.{
  ap, ◌≡◌, ◌≤◌, ◌<◌, refl, arith, ℕ, zero, suc, Option, none, some, List, [], ◌∷◌, ◌==◌,
  if◌then◌else◌, is_empty, length, Text,
}

-- `path.rfind('/')`
unfoldable pub rfind_slash : Text → Option ℕ
rfind_slash [] = none
rfind_slash (c ∷ s) = elim (rfind_slash s) [
  | some i ↦ some (suc i)
  | none ↦ if c == 47 then some 0 else none
]

-- `path.substr(0, n)`
abbrev pub prefix : ℕ → Text → Text
prefix zero s = []
prefix (suc n) [] = []
prefix (suc n) (c ∷ s) = c ∷ prefix n s

abbrev pub before : Text → Option ℕ → Text
before path none = []
before path (some pos) = prefix pos path

unfoldable pub parent_dir : Text → Text
parent_dir path = before path (rfind_slash path)

-- The loop, on fuel that bounds the length of `cur`.
unfoldable pub dirs_from : ℕ → Text → List Text
dirs_from zero cur = []
dirs_from (suc fuel) cur =
    let rest = dirs_from fuel (parent_dir cur) in if is_empty cur then [] else cur ∷ rest

unfoldable pub ancestor_dirs : Text → List Text
ancestor_dirs path = dirs_from (length path) (parent_dir path)

length-prefix : (n : ℕ) (s : Text) → length (prefix n s) ≤ n
length-prefix zero s = omega arith
length-prefix (suc n) [] = omega arith
length-prefix (suc n) (c ∷ s) = omega (arith, length-prefix n s)

rfind_slash-lt : (s : Text) (i : ℕ) → rfind_slash s ≡ some i → i < length s
unfolding rfind_slash
rfind_slash-lt [] i h = ground arith
rfind_slash-lt (c ∷ s) zero h = omega arith
rfind_slash-lt (c ∷ s) (suc i) h = ground (arith, rfind_slash-lt s i)

length-before :
    (s : Text) (n : ℕ) (o : Option ℕ) → ((i : ℕ) → o ≡ some i → i ≤ n) → length (before s o) ≤ n
length-before s n none h = omega arith
length-before s n (some i) h = omega (arith, length-prefix i s, h i refl)

-- The parent of a path is shorter.
length-parent_dir : (c : ℕ) (s : Text) → length (parent_dir (c ∷ s)) ≤ length s
unfolding parent_dir
length-parent_dir c s =
    length-before (c ∷ s) (length s) (rfind_slash (c ∷ s))
      (λ i h. omega (arith, rfind_slash-lt (c ∷ s) i h))

dirs_from_enough :
    (n m : ℕ) (cur : Text) → length cur ≤ n → length cur ≤ m → dirs_from n cur ≡ dirs_from m cur
unfolding dirs_from
dirs_from_enough zero zero cur h k = refl
dirs_from_enough zero (suc m) [] h k = refl
dirs_from_enough (suc n) zero [] h k = refl
dirs_from_enough (suc n) (suc m) [] h k = refl
dirs_from_enough zero (suc m) (c ∷ s) h k = ground arith
dirs_from_enough (suc n) zero (c ∷ s) h k = ground arith
dirs_from_enough (suc n) (suc m) (c ∷ s) h k =
    ap (λ ds. (c ∷ s) ∷ ds)
      (dirs_from_enough n m (parent_dir (c ∷ s)) (omega (arith, length-parent_dir c s))
        (omega (arith, length-parent_dir c s)))

-- The loop of `ancestor_dirs` ends with its fuel: more of it gives the same directories.
pub ancestor_dirs_enough :
    (path : Text) (n : ℕ) → length path ≤ n → dirs_from n (parent_dir path) ≡ ancestor_dirs path
unfolding ancestor_dirs
ancestor_dirs_enough [] n h =
    dirs_from_enough n 0 (parent_dir []) (unfold parent_dir rfind_slash in omega arith)
      (unfold parent_dir rfind_slash in omega arith)
ancestor_dirs_enough (c ∷ s) n h =
    dirs_from_enough n (length (c ∷ s)) (parent_dir (c ∷ s)) (omega (arith, length-parent_dir c s))
      (omega (arith, length-parent_dir c s))
