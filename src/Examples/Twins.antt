-- ===== src/Examples/Twins.antt =====
-- A run of src/main.cpp over two drives with the same note.
use caravault.Base.{
  ◌≡◌, refl, ◌∷◌, [], text, Text, text_ord, arith, false, none, some, List, Option, ◌=?◌,
  if◌then◌else◌, cmp_text,
}
use caravault.Base.Map
use caravault.Base.Results.{ok}
use caravault.VersionVector.{VersionVector}
use caravault.Manifest.{
  FileMetadata, ManifestStore, fresh, upsert_file, get_all_files, get_all_drives,
}
use caravault.Manifest.Files.{IsSound, upsert_file-IsSound}
use caravault.Conflict.Gathering.{last_file}
use caravault.Planner.Quiet.{live_entry}
use caravault.Executor.Disk.{World}
use caravault.Commands.{
  Databases, open_mounts, after_slash, open_drive_manifests, resolve_drive_targets,
}
use caravault.Commands.Syncing.{in_sync, do_sync}
use caravault.Commands.Agreeing.{AllAgreed, do_sync_quiet}
use caravault.Examples.Stores.{note, note_path, one_note, note-IsStorable}
use caravault.Examples.Writes.{same_text}

abbrev twins : Databases
twins = (text "/x", some one_note) ∷ (text "/y", some one_note) ∷ []

abbrev twin_mounts : List Text
twin_mounts = text "/x" ∷ text "/y" ∷ []

abbrev no_files : World
no_files = record { files = []; dirs = []; faults = []; history = [] }

abbrev only_note : Text → Option (Text × VersionVector)
only_note path = if path =? note_path then live_entry (some note) else none

listed : get_all_files one_note ≡ ok (note ∷ [])
unfolding get_all_files upsert_file caravault.Manifest.upsert
    caravault.Manifest.row_to_file_metadata caravault.VersionVector.Json.from_json
    caravault.Manifest.file_row caravault.Manifest.c_str caravault.VersionVector.Json.to_json
    caravault.VersionVector.Json.parse_entries caravault.VersionVector.Json.skip_ws
    caravault.VersionVector.Json.print_clocks caravault.VersionVector.increment Map.insert
    caravault.VersionVector.Json.parse_entry caravault.VersionVector.Json.parse_key
    caravault.VersionVector.Json.escape caravault.VersionVector.Json.parse_value
    caravault.VersionVector.Json.decimal Map.lookup cmp_text caravault.Manifest.read_rows
    caravault.VersionVector.Json.next_entry caravault.VersionVector.Json.parse_digits
    caravault.VersionVector.get_clock
listed = refl

opened :
    (open_drive_manifests twins twin_mounts).manifests
    ≡ ((text "x", one_note) ∷ (text "y", one_note) ∷ [])
unfolding open_mounts after_slash Map.insert Map.lookup get_all_drives cmp_text upsert_file
opened = refl

note-IsSound : IsSound one_note
note-IsSound = upsert_file-IsSound note fresh note-IsStorable (tt, tt)

chosen : resolve_drive_targets false twin_mounts [] ≡ some twin_mounts
unfolding resolve_drive_targets
chosen = refl

agreed : AllAgreed only_note (open_drive_manifests twins twin_mounts).manifests
unfolding last_file
agreed =
    rw opened (
      (note ∷ [], listed, (λ path. ground arith)),
      ((note ∷ [], listed, (λ path. ground arith)), tt),
    )

do_sync_quiet_example :
    do_sync same_text (0, 0) (λ n. n) false twin_mounts false [] twins no_files
    ≡ ok (in_sync no_files (open_drive_manifests twins twin_mounts).manifests)
do_sync_quiet_example =
    do_sync_quiet only_note same_text (0, 0) (λ n. n) false twin_mounts false [] twin_mounts twins
      no_files (note-IsSound, (note-IsSound, tt)) chosen (rw opened (omega arith)) agreed
