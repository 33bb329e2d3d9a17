-- ===== src/Commands/Queries.antt =====
-- `do_status`, `do_conflicts` and `do_verify` of src/main.cpp, with what the first two print to standard
-- output.
use caravault.Base.{
  ℕ, suc, ◌+◌, ◌%◌, Bool, false, Option, none, some, List, [], ◌∷◌, ◌++◌, ◌==◌, length,
  if◌then◌else◌, Text, text_ord, text, is_empty,
}
use caravault.Base.Map
use caravault.Base.Map.{Map}
use caravault.Base.Results.{Result, ok, err, ◌>>=◌}
use caravault.VersionVector.{u64_mod}
use caravault.VersionVector.Json.{JsonError}
use caravault.Manifest.{ManifestStore, FileMetadata, get_all_files}
use caravault.Conflict.{ConflictInfo, Versions, detect_conflicts}
use caravault.Executor.{Stores}
use caravault.Executor.Disk.{World, join}
use caravault.Executor.Replicas.{read_file_verified}
use caravault.Commands.{
  Databases, number, drive_id_of, filename, open_drive_manifests, on_targets, resolve_drive_targets,
  resolution_strategy_str, read_manifests,
}

-- `file_count` and `total_size`, which wraps.
unfoldable pub count_files : List FileMetadata → ℕ × ℕ → ℕ × ℕ
count_files [] counts = counts
count_files (f ∷ files) (file_count, total_size) = count_files files (
    if f.tombstone
    then (file_count, total_size)
    else (suc file_count, (total_size + f.size) % u64_mod))

-- Where `get_all_files` throws, both are still 0.
abbrev pub counted : Result JsonError (List FileMetadata) → ℕ × ℕ
counted (ok files) = count_files files (0, 0)
counted (err e) = (0, 0)

pub record Status : Type 0 where
  pub drive_id : Text
  pub file_count : ℕ
  pub total_size : ℕ

unfoldable pub mount_status : Text → Option (Option ManifestStore) → Status
mount_status mount (some (some s)) =
    let (file_count, total_size) = counted (get_all_files s) in
    record { drive_id = drive_id_of mount s; file_count = file_count; total_size = total_size }
mount_status mount _ = record { drive_id = filename mount; file_count = 0; total_size = 0 }

abbrev pub line : Text → Text
line t = t ++ 10 ∷ []

unfoldable pub print_status : Text → Status → Text
print_status mount s =
    line (text "  ID:         " ++ s.drive_id)
    ++ (line (text "  Mount:      " ++ mount)
        ++ (line (text "  Files:      " ++ number s.file_count)
            ++ line (line (text "  Total size: " ++ (number s.total_size ++ text " bytes")))))

unfoldable pub print_mounts : Databases → List Text → Text
print_mounts databases [] = []
print_mounts databases (mount ∷ mounts) =
    print_status mount (mount_status mount (Map.lookup mount databases))
    ++ print_mounts databases mounts

abbrev pub no_drives : List Text → Text
no_drives [] = line (text "No drives found at the specified paths.")
no_drives (mount ∷ mounts) = []

unfoldable pub do_status : List Text → Bool → List Text → Databases → ℕ × Text
do_status drive_paths all detected databases =
    on_targets ((1, []))
      (λ targets. (
        0,
        line (text "Connected drives:") ++ (print_mounts databases targets ++ no_drives targets),
      ))
      (resolve_drive_targets all drive_paths detected)

unfoldable pub print_versions : Versions → Text
print_versions [] = []
print_versions ((drive_id, meta) ∷ versions) =
    line (
      text "    Drive "
      ++ (drive_id ++ (text ": hash=" ++ (meta.hash ++ (text " size=" ++ number meta.size)))))
    ++ print_versions versions

unfoldable pub print_conflicts : List ConflictInfo → Text
print_conflicts [] = []
print_conflicts (c ∷ conflicts) =
    line (text "  Path: " ++ c.path)
    ++ (line (text "  Versions:")
        ++ (print_versions c.versions
            ++ (line (
                  line (
                    text "  Recommended strategy: "
                    ++ resolution_strategy_str c.recommended_strategy))
                ++ print_conflicts conflicts)))

unfoldable pub conflicts_text : List ConflictInfo → Text
conflicts_text conflicts =
    if is_empty conflicts
    then line (text "No conflicts detected.")
    else line (line (number (length conflicts) ++ text " conflict(s) detected:"))
      ++ print_conflicts conflicts

unfoldable pub conflicts_of : Stores → Result JsonError (ℕ × Text)
conflicts_of stores =
    if is_empty stores
    then ok (0, line (text "No manifest databases found. Run 'caravault scan' first."))
    else (read_manifests stores >>= λ manifests.
        ok (0, conflicts_text (detect_conflicts manifests)))

unfoldable pub do_conflicts : List Text → Bool → List Text → Databases → Result JsonError (ℕ × Text)
do_conflicts drive_paths all detected databases =
    on_targets (ok (1, []))
      (λ targets. conflicts_of (open_drive_manifests databases targets).manifests)
      (resolve_drive_targets all drive_paths detected)

-- What the check of a drive leaves: whether something was thrown, and the number of corrupt files.
pub record Verified : Type 0 where
  pub thrown : Option JsonError
  pub corrupt : ℕ
  pub world : World
  pub store : ManifestStore

pub record VerifyRun : Type 0 where
  pub exit_code : ℕ
  pub world : World
  pub databases : Databases

module _ (sha256 : Text → Text) where
  abbrev pub checked : Verified → Result JsonError (Bool × World × ManifestStore) → Verified
  checked v (err e) = record v { thrown = some e }
  checked v (ok (intact, w, s)) = record v {
    corrupt = if intact then v.corrupt else suc v.corrupt;
    world = w;
    store = s;
  }

  -- Something thrown ends the loop.
  abbrev pub check_file : Text → FileMetadata → Verified → Verified
  check_file mount f v = elim v.thrown [
    | some e ↦ v
    | none ↦
        if f.tombstone
        then v
        else checked v (read_file_verified sha256 f.path (join mount f.path) v.world v.store)
  ]

  unfoldable pub verify_files : Text → List FileMetadata → Verified → Verified
  verify_files mount [] v = v
  verify_files mount (f ∷ files) v = verify_files mount files (check_file mount f v)

  unfoldable pub verify_store : Text → World → ManifestStore → Verified
  verify_store mount w s = elim (get_all_files s) [
    | err e ↦ record { thrown = some e; corrupt = 0; world = w; store = s }
    | ok files ↦
        verify_files mount files (record { thrown = none; corrupt = 0; world = w; store = s })
  ]

  abbrev pub is_clean : Verified → Bool
  is_clean v = elim v.thrown [ none ↦ v.corrupt == 0 | some e ↦ false ]

  abbrev pub after_verify : Text → Verified → VerifyRun → VerifyRun
  after_verify mount v r = record {
    exit_code = if is_clean v then r.exit_code else 1;
    world = v.world;
    databases = Map.insert mount (some v.store) r.databases;
  }

  abbrev pub verify_mount : Text → Option (Option ManifestStore) → VerifyRun → VerifyRun
  verify_mount mount (some (some s)) r = after_verify mount (verify_store mount r.world s) r
  verify_mount mount _ r = record r { exit_code = 1 }

  unfoldable pub verify_mounts : List Text → VerifyRun → VerifyRun
  verify_mounts [] r = r
  verify_mounts (mount ∷ mounts) r =
      verify_mounts mounts (verify_mount mount (Map.lookup mount r.databases) r)

  unfoldable pub do_verify : List Text → Bool → List Text → Databases → World → VerifyRun
  do_verify drive_paths all detected databases w =
      on_targets (record { exit_code = 1; world = w; databases = databases })
        (λ targets.
          verify_mounts targets (record { exit_code = 0; world = w; databases = databases }))
        (resolve_drive_targets all drive_paths detected)
