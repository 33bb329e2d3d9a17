-- ===== src/Planner/Soundness.antt =====
-- The grounds of an operation of `plan_sync` in src/sync_planner.cpp, and the operations that it emits
-- for directories and renames.
pub mod Files
pub mod Plans
use caravault.Base.{
  ◌≡◌, ◌≢◌, refl, sym, ◌⊎◌, inl, inr, ◌*◌, ◌<◌, Bool, true, false, Option, none, some, List, [],
  ◌∷◌, ◌++◌, ◌=?◌, =?_iff, Text, text_ord, pair_ord, cmp_text_iff, arith, Bool-cases, Option-cases,
  is_empty, length, ltb, All, ◌||◌, not, ◌&&◌, In, here, there,
}
use caravault.Base.Map
use caravault.Base.Map.{Map}
use caravault.Base.Map.Sorted
use caravault.Base.Map.Every
use caravault.Base.Map.Every.{Every}
use caravault.Base.Set
use caravault.VersionVector.{VersionVector, compare, dominates}
use caravault.Manifest.{FileMetadata}
use caravault.Conflict.{Manifests, Resolution}
use caravault.Planner.{
  remove_live, plan_live, plan_targets, plan_choice, plan_path, plan_paths, emit_ops, plan_sync,
}
use caravault.Planner.Operations.{
  SyncOp, copy, replace, remove, rename, mkdir, FileIndex, Renames, file_at, is_live,
}
use caravault.Planner.Paths.{ancestor_dirs}
use caravault.Planner.Index.{drive_files, index_drives, all_paths}
use caravault.Planner.Indexed.{index_drives-IsSorted}
use caravault.Planner.Emission.{
  Plan, no_plan, push, file_op, mkdir_op, rename_op, emit_dirs, emit_mkdirs, merge_path,
  merge_rename, find_live, emit_rename, plan_renames, plan_rename_maps,
}
use caravault.Planner.Detected.{Misses, IsMissed, detect_renames-IsMissed}
use caravault.Planner.Choice.{Tally, no_tombstones, count_tombstones, choose}
use caravault.Planner.Chosen.{
  Entries, HasTombstone, IsHeld, IsCounted, find_live_lem, count_tombstones-IsCounted,
  choose-IsHeld,
}

module _ (idx : FileIndex) where
  abbrev pub Holds : Text → Text → Type 0
  Holds d path = is_live (file_at idx d path) ≡ true

  -- The source holds a newer version than the target, or other contents.
  abbrev pub Differs : Text → Text → Text → Type 0
  Differs src tgt path =
      (f : FileMetadata) × (g : FileMetadata) × (file_at idx src path ≡ some f)
      × (file_at idx tgt path ≡ some g)
      × ((compare f.version_vector g.version_vector ≡ dominates) ⊎ (f.hash ≢ g.hash))

  -- A directory above a file that is to come to the target from another drive.
  abbrev pub IsNeeded : Text → Text → Type 0
  IsNeeded tgt dir =
      (src : Text) × (path : Text) × Holds src path
      × Misses idx tgt path
      × In dir (ancestor_dirs path)

  -- The grounds of an operation: a copy or a rename brings what the source holds live and the target
  -- does not, a replacement what differs, a removal a tombstone to a drive where the file is live.
  abbrev pub IsSound : SyncOp → Type 0
  IsSound op = elim op.type [
    | copy ↦ Holds op.source_drive_id op.path × Misses idx op.target_drive_id op.path
    | replace ↦
        Holds op.source_drive_id op.path
        × Holds op.target_drive_id op.path
        × Differs op.source_drive_id op.target_drive_id op.path
    | remove ↦ HasTombstone idx op.source_drive_id op.path × Holds op.target_drive_id op.path
    | rename ↦ elim op.new_path [
      | none ↦ ⊥
      | some path ↦ Holds op.source_drive_id path × Misses idx op.target_drive_id path
    ]
    | mkdir ↦ IsNeeded op.target_drive_id op.path
  ]

  abbrev pub AllSound : Plan → Type 0
  AllSound p = All IsSound p.ops

  pub append-AllSound :
      (op : SyncOp) (ops : List SyncOp)
      → IsSound op
      → All IsSound ops
      → All IsSound (ops ++ op ∷ [])
  append-AllSound op [] s a = (s, tt)
  append-AllSound op (o ∷ ops) s (t, a) = (t, append-AllSound op ops s a)

  emit_dirs-AllSound :
      (tgt : Text) (dirs : List Text) (p : Plan)
      → ((dir : Text) → In dir dirs → IsNeeded tgt dir)
      → AllSound p
      → AllSound (emit_dirs tgt dirs p)
  unfolding emit_dirs
  emit_dirs-AllSound tgt [] p n a = a
  emit_dirs-AllSound tgt (dir ∷ dirs) p n a =
      emit_dirs-AllSound tgt dirs _ (λ d i. n d (there i))
        (elim (Bool-cases (Set.contains (tgt, dir) p.mkdir_emitted)) [
          | inl y ↦ simp y a
          | inr y ↦ simp y (append-AllSound (mkdir_op tgt dir) p.ops (n dir (here refl)) a)
        ])

  pub emit_mkdirs-AllSound :
      (src path tgt : Text) (p : Plan)
      → Holds src path
      → Misses idx tgt path
      → AllSound p
      → AllSound (emit_mkdirs path tgt p)
  emit_mkdirs-AllSound src path tgt p h m a =
      emit_dirs-AllSound tgt (ancestor_dirs path) p (λ dir i. (src, path, h, m, i)) a

  pub emit_rename-AllSound :
      (tgt old_path new_path : Text) (found : Option (Text × FileMetadata)) (p : Plan)
      → ((d : Text) (f : FileMetadata) → found ≡ some (d, f) → Holds d new_path)
      → Misses idx tgt new_path
      → AllSound p
      → AllSound (emit_rename idx tgt old_path new_path found p)
  unfolding emit_rename
  emit_rename-AllSound tgt old_path new_path none p h m a = a
  emit_rename-AllSound tgt old_path new_path (some (src, meta)) p h m a =
      elim (Bool-cases (is_empty src)) [
        | inl y ↦ rw y a
        | inr y ↦ rw y (
            append-AllSound (rename_op src tgt old_path new_path _) _ (h src meta refl, m)
              (emit_mkdirs-AllSound src new_path tgt p (h src meta refl) m a))
      ]
