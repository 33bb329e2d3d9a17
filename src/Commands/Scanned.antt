-- ===== src/Commands/Scanned.antt =====
-- What `do_scan` of src/main.cpp leaves in the manifest of a drive.
use caravault.Base.{ℕ, ◌≡◌, Text, text_ord}
use caravault.Base.Results.{ok}
use caravault.Manifest.{ManifestStore, get_file}
use caravault.Manifest.Tables.{NoNul}
use caravault.Manifest.Files.{IsReadable}
use caravault.Merkle.{MerkleNode}
use caravault.Merkle.Scan.{Entry, Scan, build_tree}
use caravault.Commands.{get_or_register_drive_id, filename}
use caravault.Commands.Scanning.{leaves, scan_drive}
use caravault.Commands.Sweeping.{swept}

module _ (sha256 : Text → Text) (hash_clean : (t : Text) → NoNul (sha256 t)) (now : ℕ)
    (mount : Text) (root : Entry) (opened : ManifestStore) where
  abbrev drive_id : Text
  drive_id = (get_or_register_drive_id (filename mount) now opened).0

  -- The tree that is built, the manifest behind it and the manifest at the end.
  abbrev pub IsScanned : MerkleNode → Scan → ManifestStore → Type 0
  IsScanned tree scan s' =
      (build_tree sha256 root (get_or_register_drive_id (filename mount) now opened).1
        ≡ ok (tree, scan))
      × (scan_drive sha256 now mount root opened ≡ ok s')
      × ((q : Text)
          → NoNul q
          → get_file q s'
            ≡ swept (leaves tree) (get_or_register_drive_id (filename mount) now opened).0
                (get_file q scan.store))
      × IsReadable s'.files
