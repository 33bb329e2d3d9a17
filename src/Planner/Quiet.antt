-- ===== src/Planner/Quiet.antt =====
-- `plan_sync` of src/sync_planner.cpp over stores that hold the same live files.
use caravault.Base.{
  ◌≡◌, refl, sym, ◌∙◌, ap, inl, inr, ◌*◌, true, false, Option, none, some, List, [], ◌∷◌, ◌=?◌,
  =?_refl, Text, text_ord, pair_ord, arith, Bool-cases, Option-cases, All, is_empty, length, ltb,
  not, ◌&&◌, if◌then◌else◌, subst,
}
use caravault.Base.Map.{Map}
use caravault.Base.Map.Every.{Every}
use caravault.Base.Set
use caravault.VersionVector.{VersionVector, compare, equal}
use caravault.VersionVector.Causality.{compare_iff}
use caravault.Manifest.{FileMetadata}
use caravault.Conflict.{Resolution}
use caravault.Conflict.Gathering.{last_file}
use caravault.Planner.{
  is_dominates, remove_live, plan_live, plan_targets, plan_choice, plan_path, plan_paths,
}
use caravault.Planner.Operations.{FileIndex, Renames, file_at, is_live, remove}
use caravault.Planner.Emission.{
  Plan, push, file_op, find_live, emit_rename, plan_renames, plan_rename_maps,
}
use caravault.Planner.Detected.{Misses, IsMissed}
use caravault.Planner.Choice.{Tally, no_tombstones, count_tombstones, choose}
use caravault.Planner.Chosen.{
  Entries, IsHeld, find_live_lem, count_tombstones-IsCounted, choose-IsHeld,
}

-- What a live entry holds: its hash and its version vector.
abbrev pub live_entry : Option FileMetadata → Option (Text × VersionVector)
live_entry none = none
live_entry (some f) = if f.tombstone then none else some (f.hash, f.version_vector)

-- Every file of the drive is the one of the reference, and a drive has a store.
abbrev pub IsReplica : (Text → Option (Text × VersionVector)) → Option (List FileMetadata) → Type 0
IsReplica reference none = ⊥
IsReplica reference (some files) =
    (path : Text) → live_entry (last_file path files) ≡ reference path

module _ (idx : FileIndex) (reference : Text → Option (Text × VersionVector)) where
  abbrev pub Conforms : Text → Type 0
  Conforms d = (path : Text) → live_entry (file_at idx d path) ≡ reference path

  is_live_lem : (o : Option FileMetadata) → live_entry o ≡ none → is_live o ≡ false
  is_live_lem none h = refl
  is_live_lem (some f) h = ground arith

  live_of_same :
      (o q : Option FileMetadata)
      → live_entry o ≡ live_entry q
      → is_live o ≡ true
      → is_live q ≡ true
  live_of_same none q h l = ground arith
  live_of_same (some f) none h l = ground arith
  live_of_same (some f) (some g) h l = ground arith

  remove_live_quiet :
      (path : Text) (t : Tally) (drives : List Text) (p : Plan)
      → reference path ≡ none
      → All Conforms drives
      → remove_live idx path t drives p ≡ p
  unfolding remove_live
  remove_live_quiet path t [] p none_there c = refl
  remove_live_quiet path t (tgt ∷ drives) p none_there (c, cs) =
      let dead = is_live_lem (file_at idx tgt path) (c path ∙ none_there) in
      simp dead (elim (Bool-cases (Set.contains (tgt, path) p.rename_handled)) [
        | inl y ↦ simp y (remove_live_quiet path t drives p none_there cs)
        | inr y ↦ simp y (remove_live_quiet path t drives p none_there cs)
      ])

  not_dominates : (v : VersionVector) → is_dominates (compare v v) ≡ false
  not_dominates v = rw ((compare_iff v v equal).1 (λ d. refl)) refl

  plan_live_quiet :
      (src tgt path : Text) (meta : FileMetadata) (vv : VersionVector) (found : Option FileMetadata)
      (p : Plan)
      → meta.tombstone ≡ false
      → live_entry found ≡ live_entry (some meta)
      → plan_live src meta tgt path vv found p ≡ p
  unfolding plan_live
  plan_live_quiet src tgt path meta vv none p l h = absurd (cc (rw l at h))
  plan_live_quiet src tgt path meta vv (some f) p l h = elim (Bool-cases f.tombstone) [
    | inl t ↦ absurd (cc (rw (t, l) at h))
    | inr u ↦
        let both : some (f.hash, f.version_vector) ≡ some (meta.hash, meta.version_vector) =
          rw (u, l) at h in
        let hash : meta.hash ≡ f.hash = cc both in
        let vector : meta.version_vector ≡ f.version_vector = cc both in
        let behind : is_dominates (compare meta.version_vector f.version_vector) ≡ false =
          subst (λ v. is_dominates (compare meta.version_vector v) ≡ false) vector
            (not_dominates meta.version_vector) in
        let same : (meta.hash =? f.hash) ≡ true =
          subst (λ s. (meta.hash =? s) ≡ true) hash (=?_refl meta.hash) in
        simp (u, behind, same) refl
  ]

  plan_targets_quiet :
      (path src : Text) (meta : FileMetadata) (vv : VersionVector) (drives : List Text) (p : Plan)
      → live_entry (some meta) ≡ reference path
      → All Conforms drives
      → plan_targets idx path src meta vv drives p ≡ p
  unfolding plan_targets
  plan_targets_quiet path src meta vv [] p h c = refl
  plan_targets_quiet path src meta vv (tgt ∷ drives) p h (c, cs) =
      ap (plan_targets idx path src meta vv drives) step
      ∙ plan_targets_quiet path src meta vv drives p h cs
    where
      target : live_entry (file_at idx tgt path) ≡ live_entry (some meta)
      target = c path ∙ sym h

      dead : meta.tombstone ≡ true → is_live (file_at idx tgt path) ≡ false
      dead w = is_live_lem (file_at idx tgt path) (target ∙ rw w refl)

      step :
          (if tgt =? src
            then p
            else if Set.contains (tgt, path) p.rename_handled
            then p
            else if meta.tombstone
            then (if is_live (file_at idx tgt path)
                then push (file_op remove src tgt path vv) p
                else p)
            else plan_live src meta tgt path vv (file_at idx tgt path) p)
          ≡ p
      step = elim (Bool-cases (tgt =? src)) [
        | inl y ↦ simp y refl
        | inr y ↦ elim (Bool-cases (Set.contains (tgt, path) p.rename_handled)) [
          | inl z ↦ simp (y, z) refl
          | inr z ↦ elim (Bool-cases meta.tombstone) [
            | inl w ↦ simp (y, z, w, dead w) refl
            | inr w ↦
                simp (y, z, w)
                  (plan_live_quiet src tgt path meta vv (file_at idx tgt path) p w target)
          ]
        ]
      ]

  plan_choice_quiet :
      (path : Text) (drives : List Text) (choice : Option (Text × FileMetadata)) (p : Plan)
      → ((d : Text) (f : FileMetadata)
          → file_at idx d path ≡ some f
          → live_entry (some f) ≡ reference path)
      → IsHeld idx path choice
      → All Conforms drives
      → plan_choice idx path drives choice p ≡ p
  unfolding plan_choice
  plan_choice_quiet path drives none p r h c = refl
  plan_choice_quiet path drives (some (src, meta)) p r h c =
      plan_targets_quiet path src meta _ drives p (r src meta h) c

  module _ (drives : List Text) (all : All Conforms drives) (entries : Entries idx idx)
      (held : (d path : Text) (f : FileMetadata)
        → file_at idx d path ≡ some f
        → live_entry (some f) ≡ reference path) where
    plan_path_quiet :
        (resolutions : List Resolution) (path : Text) (p : Plan)
        → plan_path idx drives resolutions path p ≡ p
    unfolding plan_path
    plan_path_quiet resolutions path p =
        let t = count_tombstones path idx no_tombstones in
        elim (Bool-cases (not (is_empty drives) && ltb (length drives) (t.tombstone_count * 2))) [
          | inl y ↦ simp y (
              remove_live_quiet path t drives p
                (elim (count_tombstones-IsCounted idx path idx no_tombstones entries
                  (inl (refl, refl))) [
                    | inl (z, _) ↦ absurd (ground (arith, y, z))
                    | inr (f, at, dead) ↦ sym (held t.tombstone_src path f at) ∙ rw dead refl
                  ])
                all)
          | inr y ↦ simp y (
              plan_choice_quiet path drives (choose path idx resolutions) p
                (λ d f h. held d path f h) (choose-IsHeld idx path resolutions entries) all)
        ]

    pub plan_paths_quiet :
        (resolutions : List Resolution) (paths : List Text) (p : Plan)
        → plan_paths idx drives resolutions paths p ≡ p
    unfolding plan_paths
    plan_paths_quiet resolutions [] p = refl
    plan_paths_quiet resolutions (path ∷ paths) p =
        ap (plan_paths idx drives resolutions paths) (plan_path_quiet resolutions path p)
        ∙ plan_paths_quiet resolutions paths p

    emit_rename_quiet :
        (tgt old_path new_path : Text) (p : Plan)
        → Conforms tgt
        → Misses idx tgt new_path
        → emit_rename idx tgt old_path new_path (find_live new_path tgt idx) p ≡ p
    unfolding emit_rename
    emit_rename_quiet tgt old_path new_path p c m =
        elim (Option-cases (find_live new_path tgt idx)) [
          | inl e ↦ rw e refl
          | inr ((src, f), e) ↦
              let live = find_live_lem idx new_path tgt src f idx entries e in
              absurd (clash src (file_at idx src new_path) refl live)
        ]
      where
        clash :
            (src : Text) (o : Option FileMetadata)
            → file_at idx src new_path ≡ o
            → is_live o ≡ true
            → ⊥
        clash src none e l = ground (arith, l)
        clash src (some g) e l =
            let same = held src new_path g e ∙ sym (c new_path) in
            ground (arith, m, live_of_same (some g) (file_at idx tgt new_path) same l)

    plan_renames_quiet :
        (tgt : Text) (renames : Map Text Text) (p : Plan)
        → Conforms tgt
        → Every (λ (o n : Text). Misses idx tgt n) renames
        → plan_renames idx tgt renames p ≡ p
    unfolding plan_renames
    plan_renames_quiet tgt [] p c m = refl
    plan_renames_quiet tgt ((o, n) ∷ renames) p c (h, m) =
        ap (plan_renames idx tgt renames) (emit_rename_quiet tgt o n p c h)
        ∙ plan_renames_quiet tgt renames p c m

    pub plan_rename_maps_quiet :
        (maps : Renames) (p : Plan)
        → Every (λ (tgt : Text) (renames : Map Text Text). Conforms tgt) maps
        → IsMissed idx maps
        → plan_rename_maps idx maps p ≡ p
    unfolding plan_rename_maps
    plan_rename_maps_quiet [] p c m = refl
    plan_rename_maps_quiet ((tgt, renames) ∷ maps) p (c, cs) (h, m) =
        ap (plan_rename_maps idx maps) (plan_renames_quiet tgt renames p c h)
        ∙ plan_rename_maps_quiet maps p cs m
