-- ===== src/Examples/Syncs.antt =====
-- The commands of src/main.cpp at concrete drives.
use caravault.Base.{
  ◌≡◌, refl, ◌∷◌, [], text, Text, text_ord, true, false, none, some, List, Option, ℕ, cmp_text,
}
use caravault.Base.Results.{Result, ok}
use caravault.VersionVector.Json.{JsonError}
use caravault.Manifest.{
  FileMetadata, ManifestStore, fresh, find_row, upsert_file, get_file, get_all_files,
  get_all_drives,
}
use caravault.Manifest.Tables.{NoNul}
use caravault.Conflict.Gathering.{last_file}
use caravault.Commands.Listing.{IsTidyList, get_all_files-get_file}
use caravault.VersionVector.{get_clock, increment}
use caravault.Base.Map
use caravault.Manifest.Files.{IsSound, upsert_file-IsSound}
use caravault.Executor.Disk.{World}
use caravault.Commands.{Databases, Opened, open_mounts, after_slash, resolve_drive_targets}
use caravault.Commands.Syncing.{
  DryRunCounts, no_counts, SyncRun, start_run, SyncEnd, dry, complete, do_sync,
}
use caravault.Examples.Stores.{note, one_note, note-IsStorable}
use caravault.Examples.Writes.{same_text}

-- The drive /x has the note, and /y has nothing.
abbrev databases : Databases
databases = (text "/x", some one_note) ∷ (text "/y", some fresh) ∷ []

abbrev mounts : List Text
mounts = text "/x" ∷ text "/y" ∷ []

abbrev disk : World
disk = record {
  files = (text "/x/a/note", record { content = text "h1"; mode = 420; mtime = 7 }) ∷ [];
  dirs = text "/x" ∷ text "/x/a" ∷ text "/y" ∷ [];
  faults = [];
  history = [];
}

abbrev counts_of : Result JsonError SyncEnd → DryRunCounts
counts_of (ok (dry counts total)) = counts
counts_of _ = no_counts

abbrev total_of : Result JsonError SyncEnd → ℕ
total_of (ok (dry counts total)) = total
total_of _ = 0

abbrev run_of : Result JsonError SyncEnd → SyncRun
run_of (ok (complete r)) = r
run_of _ = start_run disk []

abbrev announced : Result JsonError SyncEnd
announced = do_sync same_text (0, 0) (λ n. n) true mounts false [] databases disk

abbrev run : Result JsonError SyncEnd
run = do_sync same_text (0, 0) (λ n. n) false mounts false [] databases disk

-- A dry run announces one directory and one copy, and the run makes them.
synced :
    (announced ≡ ok (dry (counts_of announced) (total_of announced)))
    × (run ≡ ok (complete (run_of run)))
    × ((run_of run).exit_code ≡ 0)
    × (total_of announced ≡ 2)
unfolding caravault.Manifest.c_str caravault.Manifest.upsert caravault.Manifest.find_row
    caravault.Manifest.delete_rows caravault.Manifest.update_rows caravault.Manifest.register_drive
    caravault.Manifest.get_all_drives caravault.Manifest.update_last_seen
    caravault.Manifest.file_row caravault.Manifest.upsert_file
    caravault.Manifest.row_to_file_metadata caravault.Manifest.read_row caravault.Manifest.get_file
    caravault.Manifest.read_rows caravault.Manifest.get_all_files caravault.Manifest.mark_deleted
    caravault.Manifest.delete_file caravault.Manifest.upsert_merkle_node
    caravault.Manifest.get_merkle_hash caravault.Manifest.begin_operation
    caravault.Manifest.complete_operation caravault.Manifest.get_incomplete_operations
    caravault.VersionVector.get_clock caravault.VersionVector.increment
    caravault.VersionVector.merge_clock caravault.VersionVector.merge_clocks
    caravault.VersionVector.merge caravault.VersionVector.insert_drives
    caravault.VersionVector.compare_loop caravault.VersionVector.all_drives
    caravault.VersionVector.compare caravault.VersionVector.Json.decimal
    caravault.VersionVector.Json.escape caravault.VersionVector.Json.print_clocks
    caravault.VersionVector.Json.to_json caravault.VersionVector.Json.skip_ws
    caravault.VersionVector.Json.parse_key caravault.VersionVector.Json.parse_digits
    caravault.VersionVector.Json.parse_value caravault.VersionVector.Json.parse_entry
    caravault.VersionVector.Json.next_entry caravault.VersionVector.Json.parse_entries
    caravault.VersionVector.Json.from_json caravault.Conflict.add_version
    caravault.Conflict.add_files caravault.Conflict.add_manifests caravault.Conflict.is_conflict
    caravault.Conflict.conflicts_with caravault.Conflict.has_concurrent
    caravault.Conflict.collect_conflicts caravault.Conflict.detect_conflicts
    caravault.Conflict.dominates_all caravault.Conflict.find_dominant caravault.Conflict.vote
    caravault.Conflict.group_by_hash caravault.Conflict.find_quorum
    caravault.Conflict.find_tombstone caravault.Conflict.latest caravault.Conflict.last_write
    caravault.Conflict.tombstone_or_latest caravault.Conflict.quorum_or_later
    caravault.Conflict.dominant_or_later caravault.Conflict.resolve caravault.Planner.remove_live
    caravault.Planner.plan_live caravault.Planner.plan_targets caravault.Planner.plan_choice
    caravault.Planner.plan_path caravault.Planner.plan_paths caravault.Planner.emit_ops
    caravault.Planner.plan_sync caravault.Planner.Paths.rfind_slash
    caravault.Planner.Paths.parent_dir caravault.Planner.Paths.dirs_from
    caravault.Planner.Paths.ancestor_dirs caravault.Planner.Renames.add_to_index
    caravault.Planner.Renames.drive_index caravault.Planner.Renames.indices
    caravault.Planner.Renames.add_rename caravault.Planner.Renames.rename_from
    caravault.Planner.Renames.rename_paths caravault.Planner.Renames.rename_hashes
    caravault.Planner.Renames.rename_targets caravault.Planner.Renames.rename_sources
    caravault.Planner.Renames.detect_renames caravault.Planner.Sorting.add_edge
    caravault.Planner.Sorting.index_paths caravault.Planner.Sorting.is_below
    caravault.Planner.Sorting.mkdir_edges caravault.Planner.Sorting.rename_edges
    caravault.Planner.Sorting.copy_edges caravault.Planner.Sorting.op_edges
    caravault.Planner.Sorting.edges caravault.Planner.Sorting.graph caravault.Planner.Sorting.roots
    caravault.Planner.Sorting.release caravault.Planner.Sorting.drain
    caravault.Planner.Sorting.append_rest caravault.Planner.Sorting.topological_sort
    caravault.Planner.Coalescing.keep_last caravault.Planner.Coalescing.coalesce
    caravault.Planner.Coalescing.last_op caravault.Planner.Index.drive_files
    caravault.Planner.Index.index_file caravault.Planner.Index.index_files
    caravault.Planner.Index.index_drives caravault.Planner.Index.insert_paths
    caravault.Planner.Index.all_paths caravault.Planner.Emission.emit_dirs
    caravault.Planner.Emission.find_live caravault.Planner.Emission.merge_path
    caravault.Planner.Emission.merge_rename caravault.Planner.Emission.emit_rename
    caravault.Planner.Emission.plan_renames caravault.Planner.Emission.plan_rename_maps
    caravault.Planner.Choice.count_tombstone caravault.Planner.Choice.count_tombstones
    caravault.Planner.Choice.is_contested caravault.Planner.Choice.find_winner
    caravault.Planner.Choice.better caravault.Planner.Choice.find_best
    caravault.Planner.Choice.choose caravault.Executor.execute_mkdir caravault.Executor.copied
    caravault.Executor.copy_version caravault.Executor.copy_from caravault.Executor.execute_copy
    caravault.Executor.tombstoned caravault.Executor.execute_remove caravault.Executor.move_row
    caravault.Executor.rename_logged caravault.Executor.execute_rename caravault.Executor.dispatch
    caravault.Executor.with_store caravault.Executor.with_root caravault.Executor.execute
    caravault.Executor.Disk.join caravault.Executor.Disk.exists caravault.Executor.Disk.insert_dirs
    caravault.Executor.Disk.create_directories caravault.Executor.Disk.truncate
    caravault.Executor.Disk.append caravault.Executor.Disk.rename_file
    caravault.Executor.Disk.remove_file caravault.Executor.Disk.set_metadata
    caravault.Executor.Writing.copy_chunks caravault.Executor.Writing.copy_found
    caravault.Executor.Writing.copy_file_contents caravault.Executor.Writing.metadata_found
    caravault.Executor.Writing.copy_metadata caravault.Executor.Writing.finish_write
    caravault.Executor.Writing.verify_found caravault.Executor.Writing.verify_hash
    caravault.Executor.Writing.commit caravault.Executor.Writing.commit_copy
    caravault.Executor.Writing.write_target caravault.Executor.Writing.logged_write
    caravault.Executor.Writing.atomic_write caravault.Commands.sync_op_type_str
    caravault.Commands.resolution_strategy_str caravault.Commands.alnum_of
    caravault.Commands.first_or_register caravault.Commands.resolve_drive_targets
    caravault.Commands.on_targets caravault.Commands.after_slash caravault.Commands.open_mounts
    caravault.Commands.read_manifests caravault.Commands.Syncing.resolve_all
    caravault.Commands.Syncing.plan_stores caravault.Commands.Syncing.count_ops
    caravault.Commands.Syncing.total_bytes caravault.Commands.Syncing.run_ops
    caravault.Commands.Syncing.sync_opened caravault.Commands.Syncing.do_sync
    caravault.Base.Map.lookup caravault.Base.Map.insert caravault.Base.Map.Erasing.erase
    caravault.Base.Set.contains caravault.Base.Set.insert caravault.Base.cmp_text
synced = (refl, refl, refl, refl)

one_note-IsSound : IsSound one_note
one_note-IsSound = upsert_file-IsSound note fresh note-IsStorable (tt, tt)

get_all_files-get_file_example :
    (ms : List FileMetadata) × (get_all_files one_note ≡ ok ms)
    × ((q : Text) → NoNul q → get_file q one_note ≡ ok (last_file q ms))
    × IsTidyList ms
get_all_files-get_file_example =
    get_all_files-get_file one_note one_note-IsSound.0 one_note-IsSound.1
