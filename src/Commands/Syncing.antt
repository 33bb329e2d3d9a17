-- ===== src/Commands/Syncing.antt =====
-- `do_sync` of src/main.cpp. What it prints is left out, but for the counts of its summaries; so are the
-- calls to the progress reporter and the time that is measured for it.
use caravault.Base.{
  ℕ, suc, ◌+◌, Bool, true, false, Option, none, some, List, [], ◌∷◌, ltb, length, is_empty,
  if◌then◌else◌, Text, text_ord,
}
use caravault.Base.Map
use caravault.Base.Map.{Map}
use caravault.Base.Results.{Result, ok, ◌>>=◌}
use caravault.VersionVector.Json.{JsonError}
use caravault.Manifest.{ManifestStore, FileMetadata, get_file}
use caravault.Conflict.{ConflictInfo, Resolution, detect_conflicts, resolve}
use caravault.Planner.{plan_sync}
use caravault.Planner.Operations.{SyncOp, SyncOpType, copy, replace, remove, rename, mkdir}
use caravault.Executor.{Stores, Roots, Outcome, execute}
use caravault.Executor.Disk.{World}
use caravault.Commands.{
  Databases, Opened, open_drive_manifests, on_targets, resolve_drive_targets, read_manifests,
}

unfoldable pub resolve_all : ℕ → List ConflictInfo → List Resolution
resolve_all total_drives [] = []
resolve_all total_drives (c ∷ conflicts) =
    resolve c total_drives ∷ resolve_all total_drives conflicts

-- The conflicts, their resolutions and the plan.
pub record SyncPlan : Type 0 where
  pub conflicts : List ConflictInfo
  pub resolutions : List Resolution
  pub ops : List SyncOp

unfoldable pub plan_stores : Stores → Result JsonError SyncPlan
plan_stores stores = read_manifests stores >>= λ manifests.
    let conflicts = detect_conflicts manifests in
    let resolutions = resolve_all (length stores) conflicts in
    ok (record {
      conflicts = conflicts;
      resolutions = resolutions;
      ops = plan_sync manifests resolutions;
    })

pub record DryRunCounts : Type 0 where
  pub n_copy : ℕ
  pub n_replace : ℕ
  pub n_delete : ℕ
  pub n_rename : ℕ
  pub n_mkdir : ℕ

abbrev pub no_counts : DryRunCounts
no_counts = record { n_copy = 0; n_replace = 0; n_delete = 0; n_rename = 0; n_mkdir = 0 }

abbrev pub count_op : SyncOpType → DryRunCounts → DryRunCounts
count_op copy c = record c { n_copy = suc c.n_copy }
count_op replace c = record c { n_replace = suc c.n_replace }
count_op remove c = record c { n_delete = suc c.n_delete }
count_op rename c = record c { n_rename = suc c.n_rename }
count_op mkdir c = record c { n_mkdir = suc c.n_mkdir }

unfoldable pub count_ops : List SyncOp → DryRunCounts → DryRunCounts
count_ops [] c = c
count_ops (op ∷ ops) c = count_ops ops (count_op op.type c)

abbrev pub add_size : ℕ → Option FileMetadata → ℕ
add_size total none = total
add_size total (some meta) = total + meta.size

abbrev pub brings : SyncOpType → Bool
brings copy = true
brings replace = true
brings _ = false

-- The size of what an operation brings.
abbrev pub size_of : SyncOp → Option ManifestStore → Result JsonError (Option FileMetadata)
size_of op none = ok none
size_of op (some s) = if brings op.type then get_file op.path s else ok none

unfoldable pub total_bytes : Stores → List SyncOp → ℕ → Result JsonError ℕ
total_bytes stores [] total = ok total
total_bytes stores (op ∷ ops) total = size_of op (Map.lookup op.source_drive_id stores) >>= λ meta.
    total_bytes stores ops (add_size total meta)

-- The state of the loop over the operations.
pub record SyncRun : Type 0 where
  pub world : World
  pub stores : Stores
  pub done : ℕ
  pub files_copied : ℕ
  pub files_deleted : ℕ
  pub files_renamed : ℕ
  pub exit_code : ℕ

abbrev pub start_run : World → Stores → SyncRun
start_run w stores = record {
  world = w;
  stores = stores;
  done = 0;
  files_copied = 0;
  files_deleted = 0;
  files_renamed = 0;
  exit_code = 0;
}

abbrev pub count_success : SyncOpType → SyncRun → SyncRun
count_success copy r = record r { files_copied = suc r.files_copied }
count_success replace r = record r { files_copied = suc r.files_copied }
count_success remove r = record r { files_deleted = suc r.files_deleted }
count_success rename r = record r { files_renamed = suc r.files_renamed }
count_success mkdir r = r

abbrev pub after_op : SyncOp → Outcome → SyncRun → SyncRun
after_op op o r =
    let r' = record r { world = o.world; stores = o.stores; done = suc r.done } in
    if o.result.success then count_success op.type r' else record r' { exit_code = 1 }

-- How a run ends; where the drives are in sync, with what it was given.
pub data SyncEnd : Type 0 where
  bad_targets too_few_drives : SyncEnd
  in_sync : World → Stores → SyncEnd
  dry : DryRunCounts → ℕ → SyncEnd
  complete : SyncRun → SyncEnd

abbrev pub exit_of : SyncEnd → ℕ
exit_of bad_targets = 1
exit_of too_few_drives = 0
exit_of (in_sync w stores) = 0
exit_of (dry counts total) = 0
exit_of (complete r) = r.exit_code

-- `clock` tells the time at each operation.
module _ (sha256 : Text → Text) (junk : ℕ × ℕ) (clock : ℕ → ℕ) where
  unfoldable pub run_ops : Roots → List SyncOp → SyncRun → SyncRun
  run_ops roots [] r = r
  run_ops roots (op ∷ ops) r =
      run_ops roots ops
        (after_op op (execute sha256 junk roots op (clock r.done) r.world r.stores) r)

  abbrev pub run_plan : Bool → Opened → World → List SyncOp → Result JsonError SyncEnd
  run_plan true o w ops = ok (dry (count_ops ops no_counts) (length ops))
  run_plan false o w ops = total_bytes o.manifests ops 0 >>= λ total.
      ok (complete (run_ops o.drive_roots ops (start_run w o.manifests)))

  unfoldable pub sync_opened : Bool → Opened → World → Result JsonError SyncEnd
  sync_opened dry_run o w =
      if ltb (length o.manifests) 2
      then ok too_few_drives
      else (plan_stores o.manifests >>= λ plan.
          if is_empty plan.ops then ok (in_sync w o.manifests) else run_plan dry_run o w plan.ops)

  unfoldable pub do_sync :
      Bool → List Text → Bool → List Text → Databases → World → Result JsonError SyncEnd
  do_sync dry_run drive_paths all detected databases w =
      on_targets (ok bad_targets)
        (λ targets. sync_opened dry_run (open_drive_manifests databases targets) w)
        (resolve_drive_targets all drive_paths detected)
