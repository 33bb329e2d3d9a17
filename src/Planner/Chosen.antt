-- ===== src/Planner/Chosen.antt =====
-- The versions that `plan_sync` of src/sync_planner.cpp chooses, against the files of the drives.
use caravault.Base.{
  ◌≡◌, ◌⊎◌, inl, inr, true, Option, none, some, List, [], ◌∷◌, Text, text_ord, arith, Bool-cases,
  Option-cases, is_empty,
}
use caravault.Base.Map
use caravault.Base.Map.{Map}
use caravault.Base.Map.Sorted.{or_else}
use caravault.Base.Map.Every.{Every}
use caravault.Manifest.{FileMetadata}
use caravault.Conflict.{Resolution}
use caravault.Planner.Operations.{FileIndex, file_at, is_live}
use caravault.Planner.Choice.{
  Tally, count_tombstone, count_tombstones, is_contested, find_winner, better, find_best, choose,
}
use caravault.Planner.Emission.{find_live}

abbrev pub Entries : FileIndex → FileIndex → Type 0
Entries idx part = Every (λ (d : Text) (m : Map Text FileMetadata). Map.lookup d idx ≡ some m) part

-- A tombstone stands at the path of the drive.
abbrev pub HasTombstone : FileIndex → Text → Text → Type 0
HasTombstone idx d path = (f : FileMetadata) × (file_at idx d path ≡ some f) × (f.tombstone ≡ true)

abbrev pub IsHeld : FileIndex → Text → Option (Text × FileMetadata) → Type 0
IsHeld idx path none = Unit
IsHeld idx path (some (d, f)) = file_at idx d path ≡ some f

module _ (idx : FileIndex) (path : Text) where
  pub find_live_lem :
      (tgt d : Text) (f : FileMetadata) (part : FileIndex)
      → Entries idx part
      → find_live path tgt part ≡ some (d, f)
      → is_live (file_at idx d path) ≡ true
  unfolding find_live
  find_live_lem tgt d f [] e h = ground arith
  find_live_lem tgt d f ((c, m) ∷ part) (p, e) h = ground (arith, find_live_lem tgt d f part e)

  abbrev pub IsCounted : Tally → Type 0
  IsCounted t =
      ((t.tombstone_count ≡ 0) × (is_empty t.tombstone_src ≡ true))
      ⊎ HasTombstone idx t.tombstone_src path

  count_tombstone-IsCounted :
      (d : Text) (f : FileMetadata) (t : Tally)
      → HasTombstone idx d path
      → IsCounted t
      → IsCounted (count_tombstone d f t)
  unfolding count_tombstone
  count_tombstone-IsCounted d f t h c = elim (Bool-cases (is_empty t.tombstone_src)) [
    | inl e ↦ rw e (inr h)
    | inr e ↦ rw e (elim c [ inl (_, e') ↦ ground arith | inr g ↦ inr g ])
  ]

  pub count_tombstones-IsCounted :
      (part : FileIndex) (t : Tally)
      → Entries idx part
      → IsCounted t
      → IsCounted (count_tombstones path part t)
  unfolding count_tombstones
  count_tombstones-IsCounted [] t e c = c
  count_tombstones-IsCounted ((d, m) ∷ part) t (p, e) c =
      count_tombstones-IsCounted part _ e (elim (Option-cases (Map.lookup path m)) [
        | inl h ↦ rw h c
        | inr (f, h) ↦ rw h (elim (Bool-cases f.tombstone) [
          | inl y ↦ simp y (count_tombstone-IsCounted d f t (f, rw p h, y) c)
          | inr y ↦ simp y c
        ])
      ])

  find_winner-IsHeld :
      (resolutions : List Resolution) → IsHeld idx path (find_winner path idx resolutions)
  unfolding find_winner
  find_winner-IsHeld [] = tt
  find_winner-IsHeld (res ∷ resolutions) = elim (Bool-cases (is_empty res.winning_drive_id)) [
    | inl e ↦ rw e (find_winner-IsHeld resolutions)
    | inr e ↦ rw e (elim (Option-cases (file_at idx res.winning_drive_id path)) [
      | inl h ↦ rw h (find_winner-IsHeld resolutions)
      | inr (f, h) ↦ rw h (elim (Bool-cases (is_contested path res.winning_drive_id f idx)) [
        | inl y ↦ rw y h
        | inr y ↦ rw y (find_winner-IsHeld resolutions)
      ])
    ])
  ]

  better-IsHeld :
      (d : Text) (f : FileMetadata) (best : Option (Text × FileMetadata))
      → file_at idx d path ≡ some f
      → IsHeld idx path best
      → IsHeld idx path (better d f best)
  unfolding better
  better-IsHeld d f none h c = h
  better-IsHeld d f (some (src, meta)) h c = ground arith

  find_best-IsHeld :
      (part : FileIndex) (best : Option (Text × FileMetadata))
      → Entries idx part
      → IsHeld idx path best
      → IsHeld idx path (find_best path part best)
  unfolding find_best
  find_best-IsHeld [] best e c = c
  find_best-IsHeld ((d, m) ∷ part) best (p, e) c =
      find_best-IsHeld part _ e (elim (Option-cases (Map.lookup path m)) [
        | inl h ↦ rw h c
        | inr (f, h) ↦ rw h (better-IsHeld d f best (rw p h) c)
      ])

  or_else-IsHeld :
      (x y : Option (Text × FileMetadata))
      → IsHeld idx path x
      → IsHeld idx path y
      → IsHeld idx path (or_else x y)
  or_else-IsHeld none y h k = k
  or_else-IsHeld (some x) y h k = h

  pub choose-IsHeld :
      (resolutions : List Resolution)
      → Entries idx idx
      → IsHeld idx path (choose path idx resolutions)
  unfolding choose
  choose-IsHeld resolutions e =
      or_else-IsHeld (find_winner path idx resolutions) (find_best path idx none)
        (find_winner-IsHeld resolutions) (find_best-IsHeld idx none e tt)
