-- ===== src/Examples/Plans.antt =====
-- Plans of src/sync_planner.cpp for concrete stores.
use caravault.Base.{
  arith, ◌≡◌, refl, ◌∷◌, [], ◌=?◌, text, Text, text_ord, cmp_text, cmp_text_iff, List, All, Option,
  some, none, true, if◌then◌else◌,
}
use caravault.VersionVector.{VersionVector}
use caravault.Manifest.{FileMetadata}
use caravault.Conflict.Gathering.{last_file}
use caravault.Planner.Quiet.{live_entry}
use caravault.Planner.Agreement.{plan_sync_quiet}
use caravault.VersionVector
use caravault.Conflict.{Manifests}
use caravault.Planner.{plan_sync}
use caravault.Planner.Operations.{SyncOp, copy, remove, mkdir}
use caravault.Planner.Paths.{parent_dir, dirs_from, ancestor_dirs, ancestor_dirs_enough}
use caravault.Planner.Coalescing.{coalesce, ops_on, last_op, coalesce_lem}
use caravault.Planner.Soundness.{IsSound}
use caravault.Planner.Soundness.Plans.{indexed, plan_sync-IsSound}
use caravault.Examples.Vectors.{ann, bob}
use caravault.Examples.Stores.{note, note_path}

abbrev step : SyncOp
step = record {
  type = copy;
  source_drive_id = ann;
  target_drive_id = bob;
  path = note_path;
  new_path = none;
  new_version_vector = VersionVector.empty;
}

-- Two operations on one path, and one on its directory.
abbrev steps : List SyncOp
steps = step ∷ record step { type = mkdir; path = text "a" } ∷ record step { type = remove } ∷ []

coalesce_lem_example :
    ops_on (bob, note_path) (coalesce steps) ≡ last_op (ops_on (bob, note_path) steps)
coalesce_lem_example = coalesce_lem (bob, note_path) steps

-- One drive has a note, the other has nothing.
abbrev apart : Manifests
apart = (ann, some (note ∷ [])) ∷ (bob, some []) ∷ []

plan_sync-IsSound_example : All (IsSound (indexed apart)) (plan_sync apart [])
plan_sync-IsSound_example = plan_sync-IsSound apart []

ancestor_dirs_enough_example :
    dirs_from 9 (parent_dir (text "a/b/c")) ≡ ancestor_dirs (text "a/b/c")
ancestor_dirs_enough_example = ancestor_dirs_enough (text "a/b/c") 9 (omega arith)

-- Both drives have the note, and one has a tombstone besides.
abbrev old_file : FileMetadata
old_file = record note { path = text "old"; tombstone = true }

abbrev agreeing : Manifests
agreeing = (ann, some (note ∷ [])) ∷ (bob, some (old_file ∷ note ∷ [])) ∷ []

abbrev agreed : Text → Option (Text × VersionVector)
agreed path = if path =? note_path then live_entry (some note) else none

plan_sync_quiet_example : plan_sync agreeing [] ≡ []
unfolding last_file cmp_text
plan_sync_quiet_example =
    plan_sync_quiet agreeing agreed ((refl, tt), (tt, tt))
      ((λ path. ground arith), ((λ path. ground (arith, cmp_text_iff path note_path)), tt)) []
