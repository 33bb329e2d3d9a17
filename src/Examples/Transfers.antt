-- ===== src/Examples/Transfers.antt =====
-- A copy of src/executor.cpp from one drive to another.
use caravault.Base.{
  ◌≡◌, refl, inl, ◌∷◌, [], text, Text, text_ord, true, some, none, arith, ℕ, ◌∙◌, =?_refl,
}
use caravault.Base.Map
use caravault.Base.Results.{ok}
use caravault.Manifest.{FileMetadata, ManifestStore, fresh, get_file}
use caravault.Manifest.Files.{get_file-upsert_file}
use caravault.Planner.Operations.{SyncOp, copy}
use caravault.Executor.{Stores, Roots, Outcome, execute}
use caravault.Executor.Disk.{World, join}
use caravault.Executor.Transfers.{IsTransferred, execute-IsTransferred}
use caravault.Examples.Stores.{note, note_path, one_note, note-IsStorable}
use caravault.Examples.Writes.{same_text}

abbrev bring : SyncOp
bring = record {
  type = copy;
  source_drive_id = text "x";
  target_drive_id = text "y";
  path = note_path;
  new_path = none;
  new_version_vector = note.version_vector;
}

abbrev roots : Roots
roots = (text "x", text "/x") ∷ (text "y", text "/y") ∷ []

abbrev stores : Stores
stores = (text "x", one_note) ∷ (text "y", fresh) ∷ []

abbrev disk : World
disk = record {
  files = (text "/x/a/note", record { content = text "h1"; mode = 420; mtime = 7 }) ∷ [];
  dirs = text "/x" ∷ text "/x/a" ∷ text "/y" ∷ [];
  faults = [];
  history = [];
}

abbrev outcome : Outcome
outcome = execute same_text (0, 0) roots bring 1 disk stores

done : outcome.result.success ≡ true
unfolding caravault.Manifest.c_str caravault.Manifest.upsert caravault.Manifest.find_row
    caravault.Manifest.delete_rows caravault.Manifest.update_rows caravault.Manifest.file_row
    caravault.Manifest.upsert_file caravault.Manifest.row_to_file_metadata
    caravault.Manifest.read_row caravault.Manifest.get_file caravault.Manifest.begin_operation
    caravault.Manifest.complete_operation caravault.VersionVector.get_clock
    caravault.VersionVector.increment caravault.VersionVector.Json.decimal
    caravault.VersionVector.Json.escape caravault.VersionVector.Json.print_clocks
    caravault.VersionVector.Json.to_json caravault.VersionVector.Json.skip_ws
    caravault.VersionVector.Json.parse_key caravault.VersionVector.Json.parse_digits
    caravault.VersionVector.Json.parse_value caravault.VersionVector.Json.parse_entry
    caravault.VersionVector.Json.next_entry caravault.VersionVector.Json.parse_entries
    caravault.VersionVector.Json.from_json caravault.Planner.Paths.rfind_slash
    caravault.Planner.Paths.parent_dir caravault.Planner.Paths.dirs_from
    caravault.Planner.Paths.ancestor_dirs caravault.Executor.copied caravault.Executor.copy_version
    caravault.Executor.copy_from caravault.Executor.execute_copy caravault.Executor.dispatch
    caravault.Executor.with_store caravault.Executor.with_root caravault.Executor.execute
    caravault.Executor.Disk.join caravault.Executor.Disk.exists caravault.Executor.Disk.insert_dirs
    caravault.Executor.Disk.create_directories caravault.Executor.Disk.truncate
    caravault.Executor.Disk.append caravault.Executor.Disk.rename_file
    caravault.Executor.Disk.remove_file caravault.Executor.Disk.set_metadata
    caravault.Executor.Writing.copy_chunks caravault.Executor.Writing.copy_found
    caravault.Executor.Writing.copy_file_contents caravault.Executor.Writing.metadata_found
    caravault.Executor.Writing.copy_metadata caravault.Executor.Writing.finish_write
    caravault.Executor.Writing.verify_found caravault.Executor.Writing.verify_hash
    caravault.Executor.Writing.commit caravault.Executor.Writing.commit_copy
    caravault.Executor.Writing.write_target caravault.Executor.Writing.logged_write
    caravault.Executor.Writing.atomic_write caravault.Base.Map.lookup caravault.Base.Map.insert
    caravault.Base.Map.Erasing.erase caravault.Base.Set.contains caravault.Base.Set.insert
    caravault.Base.cmp_text
done = refl

found : get_file note_path one_note ≡ ok (some note)
found =
    get_file-upsert_file note fresh note_path note-IsStorable (omega arith)
    ∙ rw (=?_refl note_path) refl

known :
    (Map.lookup (text "y") roots ≡ some (text "/y"))
    × (Map.lookup (text "x") roots ≡ some (text "/x"))
    × (Map.lookup (text "y") stores ≡ some fresh)
    × (Map.lookup (text "x") stores ≡ some one_note)
unfolding Map.lookup caravault.Base.cmp_text
known = (refl, refl, refl, refl)

execute-IsTransferred_example :
    IsTransferred same_text (join (text "/y") note_path) (text "h1") (text "y") note outcome
execute-IsTransferred_example =
    execute-IsTransferred same_text (0, 0) roots bring 1 stores (text "/y") (text "/x") fresh
      one_note note note-IsStorable disk (inl refl) refl known.0 known.1 known.2 known.3 found done
