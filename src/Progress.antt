-- ===== src/Progress.antt =====
-- `ProgressReporter` of src/progress_reporter.cpp and include/progress_reporter.hpp, with the line that it
-- draws. Times and the summary, which are printed in floating point, are left out.
use caravault.Base.{
  ℕ, zero, suc, ◌-◌, ◌*◌, ◌/◌, ◌%◌, ◌^◌, ◌≤◌, ◌<◌, ◌≡◌, refl, Bool, true, false, Option, none, some,
  [], ◌∷◌, ◌++◌, ltb, length, length-append, replicate, if◌then◌else◌, arith, Text, text,
  Bool-cases, inl, inr, ltb_false→le, ltb→lt, ◌∙◌,
}
use native.Mathlib.Nat.{div-le_of_le-mul}
use caravault.VersionVector.{u64_mod}
use caravault.VersionVector.Json.{decimal, max_digits}
use caravault.Merkle.{concatenate}
use caravault.Executor.Writing.{suffix}

pub record ProgressReporter : Type 0 where
  pub files_processed : ℕ
  pub total_files : ℕ
  pub bytes_transferred : ℕ
  pub total_bytes : ℕ
  pub current_operation : Text
  pub is_tty : Bool
  pub started : Bool

unfoldable pub start : ℕ → ℕ → ProgressReporter → ProgressReporter
start total_files total_bytes r = record r {
  files_processed = 0;
  total_files = total_files;
  bytes_transferred = 0;
  total_bytes = total_bytes;
  current_operation = [];
  started = true;
}

-- `static_cast<int>((files_processed_ * 100) / total_files_)`: 32 bits, of which the upper half is negative.
unfoldable pub percent : ℕ → ℕ → ℕ
percent files_processed zero = 0
percent files_processed (suc total) = ((files_processed * 100) % u64_mod / suc total) % 2 ^ 32

abbrev pub bar_width : ℕ
bar_width = 20

-- The bar; `none` is a write outside its 20 bytes, or a percentage that is negative as an `int`.
unfoldable pub bar : ℕ → Option Text
bar pct =
    let filled = pct * bar_width / 100 in
    if ltb bar_width filled
    then none
    else if ltb filled bar_width
    then some (replicate filled 61 ++ (62 ∷ replicate (bar_width - suc filled) 32))
    else some (replicate filled 61)

abbrev pub max_op_length : ℕ
max_op_length = 40

-- A label that is too long keeps its end.
unfoldable pub shorten : Text → Text
shorten op =
    if ltb max_op_length (length op)
    then text "..." ++ suffix (length op - (max_op_length - 3)) op
    else op

-- `%3d`
unfoldable pub pad : Text → Text
pad digits = replicate (3 - length digits) 32 ++ digits

abbrev pub drawn : ProgressReporter → ℕ → Option Text → Option Text
drawn r pct none = none
drawn r pct (some b) = some (
    concatenate (
      (if r.is_tty then 13 ∷ 91 ∷ [] else 91 ∷ [])
      ∷ b
      ∷ text "] "
      ∷ pad (decimal max_digits pct)
      ∷ text "% ("
      ∷ decimal max_digits r.files_processed
      ∷ text "/"
      ∷ decimal max_digits r.total_files
      ∷ text " files) - "
      ∷ shorten r.current_operation
      ∷ (if r.is_tty then [] else 10 ∷ [])
      ∷ []))

-- What is drawn.
unfoldable pub render : ProgressReporter → Option Text
render r = let pct = percent r.files_processed r.total_files in drawn r pct (bar pct)

unfoldable pub update : ℕ → Text → ProgressReporter → ProgressReporter × Option Text
update files_processed current_op r =
    let r' = record r { files_processed = files_processed; current_operation = current_op } in
    (r', render r')

unfoldable pub update_bytes : ℕ → ProgressReporter → ProgressReporter × Option Text
update_bytes bytes_transferred r =
    let r' = record r { bytes_transferred = bytes_transferred } in (r', render r')

unfoldable pub finish : ProgressReporter → ProgressReporter
finish r = record r { started = false }

length-replicate : (n c : ℕ) → length (replicate n c) ≡ n
length-replicate zero c = refl
length-replicate (suc n) c = omega (arith, length-replicate n c)

length-suffix : (n : ℕ) (s : Text) → length (suffix n s) ≡ length s - n
length-suffix zero s = omega arith
length-suffix (suc n) [] = omega arith
length-suffix (suc n) (c ∷ s) = omega (arith, length-suffix n s)

-- A label that is drawn has at most 40 bytes.
length-shorten : (op : Text) → length (shorten op) ≤ max_op_length
unfolding shorten
length-shorten op = elim (Bool-cases (ltb max_op_length (length op))) [
  | inl t ↦ rw t (omega (arith, length-suffix (length op - 37) op, ltb→lt _ _ t))
  | inr u ↦ rw u (ltb_false→le _ _ u)
]

percent_le : (files total : ℕ) → files ≤ total → total * 100 < u64_mod → percent files total ≤ 100
unfolding percent
percent_le files zero h k = omega arith
percent_le files (suc total) h k =
    let exact : files * 100 % u64_mod ≡ files * 100 = ground arith in
    let few : files * 100 / suc total ≤ 100 =
      div-le_of_le-mul (suc total) {n = 100} (ground arith) in
    rw exact (ground arith)

length-bar :
    (filled : ℕ)
    → filled < bar_width
    → length {A = ℕ} (replicate filled 61 ++ (62 ∷ replicate (bar_width - suc filled) 32))
      ≡ bar_width
length-bar filled h =
    rw length-append
      (omega (arith, h, length-replicate filled 61, length-replicate (bar_width - suc filled) 32))

-- A percentage of at most 100 is drawn inside the bar.
bar_total : (pct : ℕ) → pct ≤ 100 → (b : Text) × (bar pct ≡ some b) × (length b ≡ bar_width)
unfolding bar
bar_total pct h =
    let inside : pct * bar_width / 100 ≤ bar_width =
      div-le_of_le-mul 100 {n = bar_width} (ground arith) in
    let drawn_in : ltb bar_width (pct * bar_width / 100) ≡ false = ground arith in
    elim (Bool-cases (ltb (pct * bar_width / 100) bar_width)) [
      | inl t ↦ rw (drawn_in, t) (_, refl, length-bar _ (ltb→lt _ _ t))
      | inr u ↦
          let full : pct * bar_width / 100 ≡ bar_width = ground arith in
          rw (drawn_in, u) (_, refl, length-replicate _ 61 ∙ full)
    ]

-- Where no more files are processed than there are, the bar is drawn inside its 20 bytes, and its percentage is at most 100.
pub render_total :
    (r : ProgressReporter)
    → r.files_processed ≤ r.total_files
    → r.total_files * 100 < u64_mod
    → (b : Text) × (render r ≡ drawn r (percent r.files_processed r.total_files) (some b))
      × (length b ≡ bar_width)
      × (percent r.files_processed r.total_files ≤ 100)
unfolding render
render_total r h k =
    let few = percent_le r.files_processed r.total_files h k in
    let (b, e, n) = bar_total (percent r.files_processed r.total_files) few in
    (b, rw e refl, n, few)
