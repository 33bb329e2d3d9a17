-- ===== src/Logger/Rotation.antt =====
-- The lines of src/logger.cpp across rotations.
use mathlib.Core.List.{append_assoc}
use caravault.Base.{
  ℕ, ◌<◌, ◌≡◌, ◌⊎◌, inl, inr, refl, sym, ◌∙◌, Bool, true, false, Option, none, some, ◌++◌, ◌=?◌,
  =?_iff, =?_refl, suc, ltb, length, Text, text_ord, subst, Bool-cases,
}
use caravault.Base.Map
use caravault.Base.Map.{Map}
use caravault.Base.Map.Erasing.{lookup-erase}
use caravault.Config.Parsing.{LogLevel}
use caravault.Logger.{
  append_found, Logger, rank, open_log_file, rotated_path, rotate, rotate_found, rotate_if_needed,
  log_line, append_line, write,
}

-- Some file has the text in it.
abbrev pub IsKept : Text → Map Text Text → Type 0
IsKept t files =
    (path before after : Text) × (Map.lookup path files ≡ some (before ++ (t ++ after)))

-- A file keeps what it has where the log gets more.
append_line-IsKept :
    (t line : Text) (l : Logger) → IsKept t l.files → IsKept t (append_line line l).files
unfolding append_line
append_line-IsKept t line l kept = go (Map.lookup l.log_path l.files) refl kept
  where
    go :
        (o : Option Text)
        → Map.lookup l.log_path l.files ≡ o
        → IsKept t l.files
        → IsKept t (append_found line o l).files
    go none n k = k
    go (some content) n (path, before, after, e) = elim (Bool-cases (path =? l.log_path)) [
      | inl y ↦
          let own = (=?_iff path l.log_path).0 y in
          let log : Map.lookup l.log_path l.files ≡ some (before ++ (t ++ after)) = rw (← own) e in
          let same : content ≡ before ++ (t ++ after) = cc (n, log) in
          (
            l.log_path,
            before,
            after ++ line,
            rw (Map.lookup-insert, =?_refl, same) (simp append_assoc refl),
          )
      | inr m ↦ (path, before, after, rw (Map.lookup-insert, m) e)
    ]

open_log_file-IsKept : (t : Text) (l : Logger) → IsKept t l.files → IsKept t (open_log_file l).files
unfolding open_log_file
open_log_file-IsKept t l (path, before, after, e) = elim (Bool-cases (path =? l.log_path)) [
  | inl y ↦
      let own = (=?_iff path l.log_path).0 y in
      let log : Map.lookup l.log_path l.files ≡ some (before ++ (t ++ after)) = rw (← own) e in
      (l.log_path, before, after, rw (Map.lookup-insert, =?_refl, log) refl)
  | inr n ↦ (path, before, after, rw (Map.lookup-insert, n) e)
]

-- The name of the rotated log is free, or the rename fails.
abbrev pub IsFree : Bool → Text → Logger → Type 0
IsFree fails timestamp l =
    (fails ≡ true) ⊎ (Map.lookup (rotated_path l.log_path timestamp) l.files ≡ none)

rotate-IsKept :
    (fails : Bool) (timestamp content t : Text) (l : Logger)
    → Map.lookup l.log_path l.files ≡ some content
    → IsFree fails timestamp l
    → IsKept t l.files
    → IsKept t (rotate fails timestamp content l).files
unfolding rotate
rotate-IsKept true timestamp content t l e free kept =
    open_log_file-IsKept t (record l { rotation_count = suc l.rotation_count }) kept
rotate-IsKept false timestamp content t l e (inl bad) kept = absurd (cc bad)
rotate-IsKept false timestamp content t l e (inr free) (path, before, after, k) =
    open_log_file-IsKept t _ (elim (Bool-cases (path =? l.log_path)) [
      | inl y ↦
          let own = (=?_iff path l.log_path).0 y in
          let same = subst (λ p. Map.lookup p l.files ≡ some (before ++ (t ++ after))) own k in
          (rotated, before, after, rw (Map.lookup-insert, =?_refl) (sym e ∙ same))
      | inr n ↦ (path, before, after, rw (Map.lookup-insert, taken, lookup-erase, n) k)
    ])
  where
    rotated : Text
    rotated = rotated_path l.log_path timestamp

    taken : (path =? rotated) ≡ false
    taken = elim (Bool-cases (path =? rotated)) [
      | inl y ↦ absurd (
          cc (
            subst (λ p. Map.lookup p l.files ≡ some (before ++ (t ++ after)))
                ((=?_iff path rotated).0 y) k,
            free,
          ))
      | inr n ↦ n
    ]

rotate_if_needed-IsKept :
    (fails : Bool) (timestamp t : Text) (l : Logger)
    → IsFree fails timestamp l
    → IsKept t l.files
    → IsKept t (rotate_if_needed fails timestamp l).files
unfolding rotate_if_needed
rotate_if_needed-IsKept fails timestamp t l free kept = go (Map.lookup l.log_path l.files) refl
  where
    go :
        (o : Option Text)
        → Map.lookup l.log_path l.files ≡ o
        → IsKept t (rotate_found fails timestamp o l).files
    go none e = kept
    go (some content) e = elim (Bool-cases (ltb (length content) l.rotation_size)) [
      | inl y ↦ simp y kept
      | inr n ↦ simp n (rotate-IsKept fails timestamp content t l e free kept)
    ]

-- Where the name of a rotated log is free, or its rename fails, a write keeps what the files have.
pub write-IsKept :
    (fails : Bool) (rotated_at written_at : Text) (level : LogLevel) (message t : Text) (l : Logger)
    → IsFree fails rotated_at l
    → IsKept t l.files
    → IsKept t (write fails rotated_at written_at level message l).files
unfolding write
write-IsKept fails rotated_at written_at level message t l free kept =
    elim (Bool-cases (ltb (rank l.level) (rank level))) [
      | inl y ↦ simp y kept
      | inr n ↦ simp n (
          append_line-IsKept t (log_line written_at level message)
            (rotate_if_needed fails rotated_at l)
            (rotate_if_needed-IsKept fails rotated_at t l free kept))
    ]

-- The log is there, and has less than the size for a rotation.
abbrev IsSmall : Option Text → ℕ → Type 0
IsSmall o size = (content : Text) × (o ≡ some content) × (length content < size)
