-- ===== src/Commands/Agreeing.antt =====
-- `do_sync` of src/main.cpp over drives that agree.
use caravault.Base.{
  ℕ, ◌≤◌, ◌≡◌, refl, Bool, false, Option, some, List, [], ◌∷◌, ltb, length, arith, Text, text_ord,
}
use caravault.Base.Map.Sorted
use caravault.Base.Map.Every.{Every}
use caravault.Base.Results.{ok}
use caravault.VersionVector.{VersionVector}
use caravault.Manifest.{FileMetadata, ManifestStore, get_all_files}
use caravault.Conflict.{Manifests}
use caravault.Planner.Quiet.{IsReplica}
use caravault.Planner.Agreement.{plan_sync_quiet}
use caravault.Executor.{Stores}
use caravault.Executor.Disk.{World}
use caravault.Commands.{
  Databases, open_drive_manifests, on_targets, resolve_drive_targets, read_manifests,
}
use caravault.Commands.Opening.{AreSound, open_drive_manifests-IsTidy}
use caravault.Commands.Syncing.{SyncPlan, in_sync, plan_stores, sync_opened, do_sync}

-- The live files that a store lists are those of the reference.
abbrev pub IsAgreed : (Text → Option (Text × VersionVector)) → ManifestStore → Type 0
IsAgreed reference s =
    (files : List FileMetadata) × (get_all_files s ≡ ok files) × IsReplica reference (some files)

abbrev pub AllAgreed : (Text → Option (Text × VersionVector)) → Stores → Type 0
AllAgreed reference stores = Every (λ (d : Text) (s : ManifestStore). IsAgreed reference s) stores

module _ (reference : Text → Option (Text × VersionVector)) where
  -- What is read is in the order of the drives too.
  read_manifests-IsReplica :
      (stores : Stores)
      → AllAgreed reference stores
      → Sorted.IsSorted stores
      → (ms : Manifests) × (read_manifests stores ≡ ok ms)
        × Sorted.IsSorted ms
        × ((d : Text) → Sorted.IsAbove d stores → Sorted.IsAbove d ms)
        × Every (λ (d : Text) (o : Option (List FileMetadata)). IsReplica reference o) ms
  unfolding read_manifests
  read_manifests-IsReplica [] h t = ([], refl, tt, (λ d a. tt), tt)
  read_manifests-IsReplica ((d, s) ∷ stores) ((files, listed, same), h) (above, t) =
      let (ms, read, sorted, over, replicas) = read_manifests-IsReplica stores h t in
      (
        (d, some files) ∷ ms,
        rw (listed, read) refl,
        (over d above, sorted),
        (λ e a. (a.0, over e a.1)),
        (same, replicas),
      )

  plan_stores_quiet :
      (stores : Stores)
      → AllAgreed reference stores
      → Sorted.IsSorted stores
      → (p : SyncPlan) × (plan_stores stores ≡ ok p) × (p.ops ≡ [])
  unfolding plan_stores
  plan_stores_quiet stores h t =
      let (ms, read, sorted, over, replicas) = read_manifests-IsReplica stores h t in
      rw read (_, refl, plan_sync_quiet ms reference sorted replicas _)

  -- Where at least two databases open, all of these can be read, and all list the same live files under
  -- the same hashes and vectors, a run and a dry run end with the report that the drives are in sync, with the
  -- disk and the opened stores as they were.
  pub do_sync_quiet :
      (sha256 : Text → Text) (junk : ℕ × ℕ) (clock : ℕ → ℕ) (dry_run : Bool)
      (drive_paths : List Text) (all : Bool) (detected targets : List Text) (databases : Databases)
      (w : World)
      → AreSound databases
      → resolve_drive_targets all drive_paths detected ≡ some targets
      → 2 ≤ length (open_drive_manifests databases targets).manifests
      → AllAgreed reference (open_drive_manifests databases targets).manifests
      → do_sync sha256 junk clock dry_run drive_paths all detected databases w
        ≡ ok (in_sync w (open_drive_manifests databases targets).manifests)
  unfolding do_sync on_targets sync_opened
  do_sync_quiet sha256 junk clock dry_run drive_paths all detected targets databases w sound chosen
        two agreed =
      let stores = (open_drive_manifests databases targets).manifests in
      let (p, planned, none_left) =
        plan_stores_quiet stores agreed (open_drive_manifests-IsTidy databases targets sound).0 in
      let enough : ltb (length stores) 2 ≡ false = ground arith in
      rw (chosen, enough, planned, none_left) refl
