-- ===== src/Commands/Scanning.antt =====
-- `do_scan` of src/main.cpp: the scan of each drive and the tombstones for files that it no longer finds.
use caravault.Base.{
  ℕ, Bool, Option, none, some, List, [], ◌∷◌, ◌=?◌, ◌==◌, ◌||◌, any, not, if◌then◌else◌, Text,
  text_ord,
}
use caravault.Base.Map
use caravault.Base.Map.{Map}
use caravault.Base.Results.{Result, ok, err, ◌>>=◌}
use caravault.Manifest.{ManifestStore, FileMetadata, fresh, get_all_files, mark_deleted}
use caravault.Merkle.{MerkleNode, collect_leaves}
use caravault.Merkle.Scan.{Entry, Scan, Thrown, thrown_at, build_tree}
use caravault.Commands.{
  Databases, get_or_register_drive_id, on_targets, resolve_drive_targets, filename,
}

-- A live entry whose path was not visited.
abbrev pub is_gone : List Text → FileMetadata → Bool
is_gone visited f = not (f.tombstone || any (λ p. p =? f.path) visited)

unfoldable pub tombstone_gone :
    List Text → Text → ℕ → List FileMetadata → ManifestStore → Result Thrown ManifestStore
tombstone_gone visited drive_id now [] s = ok s
tombstone_gone visited drive_id now (f ∷ files) s =
    let swept =
      if is_gone visited f then thrown_at s (mark_deleted f.path drive_id now s) else ok s in
    swept >>= tombstone_gone visited drive_id now files

abbrev pub leaves : MerkleNode → List Text
leaves tree = collect_leaves tree []

-- Everything behind the scan of the tree.
unfoldable pub sweep : Text → ℕ → MerkleNode × Scan → Result Thrown ManifestStore
sweep drive_id now (tree, scan) = thrown_at scan.store (get_all_files scan.store) >>= λ files.
    tombstone_gone (leaves tree) drive_id now files scan.store

module _ (sha256 : Text → Text) (now : ℕ) where
  -- The body of `try` once the manifest is open.
  unfoldable pub scan_drive : Text → Entry → ManifestStore → Result Thrown ManifestStore
  scan_drive mount root opened =
      let (drive_id, s) = get_or_register_drive_id (filename mount) now opened in
      build_tree sha256 root s >>= λ scanned. sweep drive_id now scanned

  -- What was written before something was thrown stays.
  abbrev pub after_scan : Text → Databases → Result Thrown ManifestStore → ℕ × Databases
  after_scan mount databases (ok s) = (0, Map.insert mount (some s) databases)
  after_scan mount databases (err (e, s)) = (1, Map.insert mount (some s) databases)

  -- A database that is missing is created.
  unfoldable pub scan_mount :
      Text → Option Entry → Option (Option ManifestStore) → Databases → ℕ × Databases
  scan_mount mount none db databases = (1, databases)
  scan_mount mount (some root) (some none) databases = (1, databases)
  scan_mount mount (some root) none databases =
      after_scan mount databases (scan_drive mount root fresh)
  scan_mount mount (some root) (some (some s)) databases =
      after_scan mount databases (scan_drive mount root s)

  -- The trees are those below the mount points that exist.
  unfoldable pub scan_mounts : Map Text Entry → List Text → ℕ × Databases → ℕ × Databases
  scan_mounts trees [] (exit_code, databases) = (exit_code, databases)
  scan_mounts trees (mount ∷ mounts) (exit_code, databases) =
      let (failed, after) =
        scan_mount mount (Map.lookup mount trees) (Map.lookup mount databases) databases in
      scan_mounts trees mounts ((if failed == 0 then exit_code else 1), after)

  unfoldable pub do_scan : List Text → Bool → List Text → Map Text Entry → Databases → ℕ × Databases
  do_scan drive_paths scan_all detected trees databases =
      on_targets ((1, databases)) (λ targets. scan_mounts trees targets (0, databases))
        (resolve_drive_targets scan_all drive_paths detected)
