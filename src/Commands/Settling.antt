-- ===== src/Commands/Settling.antt =====
-- `do_resolve` of src/main.cpp over manifests that can be read.
use caravault.Base.{ℕ, ◌≡◌, false, some, ◌=?◌, Text, text_ord, any}
use caravault.Base.Map
use caravault.Base.Map.{Map}
use caravault.Base.Map.Sorted
use caravault.Base.Map.Every.{Every}
use caravault.Base.Results.{Result, ok}
use caravault.VersionVector.Json.{JsonError}
use caravault.Manifest.{FileMetadata, get_file}
use caravault.Conflict.{Manifests, ConflictInfo, detect_conflicts}
use caravault.Executor.{Stores}
use caravault.Commands.{read_manifests}
use caravault.Commands.Opening.{AllSound}
use caravault.Commands.Merging.{AllDominated}

-- Every drive has the entry at the path.
abbrev pub IsSettled : Text → FileMetadata → Stores → Type 0
IsSettled path m stores = Every (λ d s. get_file path s ≡ ok (some m)) stores

-- What `do_resolve` leaves: every drive has the winner's entry at the path, under one vector that dominates
-- each that a drive had, and the path is not reported any more.
abbrev pub IsResolved : Text → FileMetadata → Stores → Result JsonError (ℕ × Stores) → Type 0
IsResolved path winner stores r =
    (m : FileMetadata) × (after : Stores) × (ms : Manifests) × (r ≡ ok (0, after))
    × (record m { version_vector = winner.version_vector } ≡ winner)
    × AllDominated path stores m.version_vector
    × IsSettled path m after
    × AllSound after
    × (read_manifests after ≡ ok ms)
    × (any (λ (c : ConflictInfo). c.path =? path) (detect_conflicts ms) ≡ false)
