-- ===== src/Planner/Soundness/Files.antt =====
-- The loops of `plan_sync` in src/sync_planner.cpp and the grounds of their operations.
use caravault.Base.{
  ◌≡◌, refl, ◌⊎◌, inl, inr, ◌≢◌, true, false, Option, none, some, List, [], ◌∷◌, ◌=?◌, Text,
  text_ord, pair_ord, cmp_text_iff, arith, Bool-cases, is_empty, length, ltb, ◌*◌, not, ◌&&◌, ◌||◌,
}
use caravault.Base.Map.{Map}
use caravault.Base.Map.Every.{Every}
use caravault.Base.Set
use caravault.VersionVector.{
  VersionVector, compare, Ordering, dominates, dominated_by, concurrent, equal,
}
use caravault.Manifest.{FileMetadata}
use caravault.Conflict.{Resolution}
use caravault.Planner.{
  is_dominates, remove_live, plan_live, plan_targets, plan_choice, plan_path, plan_paths,
}
use caravault.Planner.Operations.{copy, replace, remove, FileIndex, Renames, file_at, is_live}
use caravault.Planner.Emission.{Plan, file_op, find_live, plan_renames, plan_rename_maps}
use caravault.Planner.Detected.{Misses, IsMissed}
use caravault.Planner.Choice.{Tally, no_tombstones, count_tombstones}
use caravault.Planner.Chosen.{
  Entries, HasTombstone, IsHeld, find_live_lem, count_tombstones-IsCounted, choose-IsHeld,
}
use caravault.Planner.Soundness.{
  AllSound, append-AllSound, emit_mkdirs-AllSound, emit_rename-AllSound,
}

module _ (idx : FileIndex) where
  plan_renames-AllSound :
      (tgt : Text) (renames : Map Text Text) (p : Plan)
      → Entries idx idx
      → Every (λ (o n : Text). Misses idx tgt n) renames
      → AllSound idx p
      → AllSound idx (plan_renames idx tgt renames p)
  unfolding plan_renames
  plan_renames-AllSound tgt [] p e m a = a
  plan_renames-AllSound tgt ((o, n) ∷ renames) p e (h, m) a =
      plan_renames-AllSound tgt renames _ e m (
        emit_rename-AllSound idx tgt o n (find_live n tgt idx) p
          (λ d f same. find_live_lem idx n tgt d f idx e same) h a)

  pub plan_rename_maps-AllSound :
      (maps : Renames) (p : Plan)
      → Entries idx idx
      → IsMissed idx maps
      → AllSound idx p
      → AllSound idx (plan_rename_maps idx maps p)
  unfolding plan_rename_maps
  plan_rename_maps-AllSound [] p e m a = a
  plan_rename_maps-AllSound ((tgt, renames) ∷ maps) p e (h, m) a =
      plan_rename_maps-AllSound maps _ e m (plan_renames-AllSound tgt renames p e h a)

  remove_live-AllSound :
      (path : Text) (t : Tally) (drives : List Text) (p : Plan)
      → HasTombstone idx t.tombstone_src path
      → AllSound idx p
      → AllSound idx (remove_live idx path t drives p)
  unfolding remove_live
  remove_live-AllSound path t [] p h a = a
  remove_live-AllSound path t (tgt ∷ drives) p h a =
      remove_live-AllSound path t drives _ h
        (elim (Bool-cases (Set.contains (tgt, path) p.rename_handled)) [
          | inl y ↦ simp y a
          | inr y ↦ elim (Bool-cases (is_live (file_at idx tgt path))) [
            | inl z ↦
                simp (y, z)
                  (append-AllSound idx (file_op remove t.tombstone_src tgt path t.tombstone_vv)
                    p.ops (h, z) a)
            | inr z ↦ simp (y, z) a
          ]
        ])

  is_dominates_lem : (o : Ordering) → is_dominates o ≡ true → o ≡ dominates
  is_dominates_lem dominates h = refl
  is_dominates_lem dominated_by h = ground arith
  is_dominates_lem concurrent h = ground arith
  is_dominates_lem equal h = ground arith

  differs_lem :
      (meta f : FileMetadata)
      → (is_dominates (compare meta.version_vector f.version_vector) || not (meta.hash =? f.hash))
        ≡ true
      → (compare meta.version_vector f.version_vector ≡ dominates) ⊎ (meta.hash ≢ f.hash)
  differs_lem meta f z = elim (Bool-cases (meta.hash =? f.hash)) [
    | inl y ↦ inl (is_dominates_lem (compare meta.version_vector f.version_vector) (ground arith))
    | inr y ↦ inr (λ same. ground (arith, cmp_text_iff meta.hash f.hash))
  ]

  plan_live-AllSound :
      (src tgt path : Text) (meta : FileMetadata) (vv : VersionVector) (found : Option FileMetadata)
      (p : Plan)
      → file_at idx src path ≡ some meta
      → meta.tombstone ≡ false
      → file_at idx tgt path ≡ found
      → AllSound idx p
      → AllSound idx (plan_live src meta tgt path vv found p)
  unfolding plan_live
  plan_live-AllSound src tgt path meta vv none p h l g a =
      append-AllSound idx (file_op copy src tgt path vv) _ (ground arith, ground arith)
        (emit_mkdirs-AllSound idx src path tgt p (ground arith) (ground arith) a)
  plan_live-AllSound src tgt path meta vv (some f) p h l g a = elim (Bool-cases f.tombstone) [
    | inl y ↦ simp y (
        append-AllSound idx (file_op copy src tgt path vv) _ (ground arith, ground arith)
          (emit_mkdirs-AllSound idx src path tgt p (ground arith) (ground arith) a))
    | inr y ↦
        elim (Bool-cases (
          is_dominates (compare meta.version_vector f.version_vector)
          || not (meta.hash =? f.hash))) [
            | inl z ↦
                simp (y, z)
                  (append-AllSound idx (file_op replace src tgt path vv) p.ops
                    (ground arith, ground arith, (meta, f, h, g, differs_lem meta f z)) a)
            | inr z ↦ simp (y, z) a
          ]
  ]

  plan_targets-AllSound :
      (path src : Text) (meta : FileMetadata) (vv : VersionVector) (drives : List Text) (p : Plan)
      → file_at idx src path ≡ some meta
      → AllSound idx p
      → AllSound idx (plan_targets idx path src meta vv drives p)
  unfolding plan_targets
  plan_targets-AllSound path src meta vv [] p h a = a
  plan_targets-AllSound path src meta vv (tgt ∷ drives) p h a =
      plan_targets-AllSound path src meta vv drives _ h (elim (Bool-cases (tgt =? src)) [
        | inl y ↦ simp y a
        | inr y ↦ elim (Bool-cases (Set.contains (tgt, path) p.rename_handled)) [
          | inl z ↦ simp (y, z) a
          | inr z ↦ elim (Bool-cases meta.tombstone) [
            | inl w ↦ elim (Bool-cases (is_live (file_at idx tgt path))) [
              | inl v ↦
                  simp (y, z, w, v)
                    (append-AllSound idx (file_op remove src tgt path vv) p.ops ((meta, h, w), v) a)
              | inr v ↦ simp (y, z, w, v) a
            ]
            | inr w ↦
                simp (y, z, w)
                  (plan_live-AllSound src tgt path meta vv (file_at idx tgt path) p h w refl a)
          ]
        ]
      ])

  plan_choice-AllSound :
      (path : Text) (drives : List Text) (choice : Option (Text × FileMetadata)) (p : Plan)
      → IsHeld idx path choice
      → AllSound idx p
      → AllSound idx (plan_choice idx path drives choice p)
  unfolding plan_choice
  plan_choice-AllSound path drives none p h a = a
  plan_choice-AllSound path drives (some (src, meta)) p h a =
      plan_targets-AllSound path src meta _ drives p h a

  plan_path-AllSound :
      (drives : List Text) (resolutions : List Resolution) (path : Text) (p : Plan)
      → Entries idx idx
      → AllSound idx p
      → AllSound idx (plan_path idx drives resolutions path p)
  unfolding plan_path
  plan_path-AllSound drives resolutions path p e a =
      let t = count_tombstones path idx no_tombstones in
      elim (Bool-cases (not (is_empty drives) && ltb (length drives) (t.tombstone_count * 2))) [
        | inl y ↦ simp y (
            remove_live-AllSound path t drives p
              (elim (count_tombstones-IsCounted idx path idx no_tombstones e (inl (refl, refl))) [
                | inl (z, _) ↦ ground arith
                | inr h ↦ h
              ])
              a)
        | inr y ↦
            simp y (plan_choice-AllSound path drives _ p (choose-IsHeld idx path resolutions e) a)
      ]

  pub plan_paths-AllSound :
      (drives : List Text) (resolutions : List Resolution) (paths : List Text) (p : Plan)
      → Entries idx idx
      → AllSound idx p
      → AllSound idx (plan_paths idx drives resolutions paths p)
  unfolding plan_paths
  plan_paths-AllSound drives resolutions [] p e a = a
  plan_paths-AllSound drives resolutions (path ∷ paths) p e a =
      plan_paths-AllSound drives resolutions paths _ e
        (plan_path-AllSound drives resolutions path p e a)
