-- ===== src/Examples/Scans.antt =====
-- Trees and scans of src/merkle_engine.cpp and src/main.cpp at concrete inputs.
use caravault.Base.{◌≡◌, [], text, Text, text_ord, some}
use caravault.Base.{Option}
use caravault.Base.Results.{Result, ok, err}
use caravault.Base.Map
use caravault.VersionVector.Json.{JsonError}
use caravault.Manifest.{FileMetadata, ManifestStore}
use caravault.Merkle.{Children, diff, no_diff, child_hashes}
use caravault.Merkle.Shuffles.{Shuffle, directory_node, diff-Shuffle}
use caravault.Merkle.Scan.{Entry, Entries, Scan, Thrown, leaf}
use caravault.Commands.Scanning.{scan_drive}
use caravault.Examples.Stores.{note, one_note}
use caravault.Examples.Writes.{same_text}

-- A directory in which a file was renamed.
abbrev before : Children
before =
    Children.cons (leaf (text "a") (text "h1"))
      (Children.cons (leaf (text "b") (text "h2")) Children.nil)

abbrev renamed : Children
renamed =
    Children.cons (leaf (text "b") (text "h2"))
      (Children.cons (leaf (text "c") (text "h1")) Children.nil)

diff-Shuffle_example :
    diff (directory_node same_text (text ".") before) (directory_node same_text (text ".") renamed)
    ≡ no_diff
unfolding child_hashes
diff-Shuffle_example =
    diff-Shuffle same_text (text ".") (text ".") before renamed
      (Shuffle.swap (text "h1") (text "h2") [])

abbrev fixed_hash : Text → Text
fixed_hash t = text "h"

abbrev mount : Text
mount = text "/x"

-- A drive with a new file, in which the file of the manifest is gone.
abbrev drive : Entry
drive = Entry.directory (text "x") (
    Entries.cons
      (Entry.file (text "new")
        (record { size = some 1; mtime = some 2; content = some (text "n") }))
      Entries.nil)

abbrev store_of : Result Thrown ManifestStore → ManifestStore
store_of (ok s) = s
store_of (err (e, s)) = s

abbrev file_of : Result JsonError (Option FileMetadata) → FileMetadata
file_of (ok (some m)) = m
file_of _ = note

abbrev scanned_store : ManifestStore
scanned_store = store_of (scan_drive fixed_hash 9 mount drive one_note)
