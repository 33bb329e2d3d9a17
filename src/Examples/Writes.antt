-- ===== src/Examples/Writes.antt =====
-- Writes and recovery of src/executor.cpp on a small disk.
use caravault.Base.{◌≡◌, some, cmp_text, ◌∷◌, [], refl, text, text_ord, Text, true, false, arith}
use caravault.Base.Map
use caravault.Manifest.{ManifestStore, fresh, begin_operation, get_incomplete_operations}
use caravault.Executor.Disk.{File, World}
use caravault.Executor.Writing.{atomic_write}
use caravault.Executor.Safety.{IsWritten, atomic_write-IsWritten}
use caravault.Executor.Success.{IsDelivered, atomic_write-IsDelivered}
use caravault.Executor.Completion.{IsComplete, recover_incomplete_operations-IsComplete}
use caravault.Executor.Recovery.{
  relative, first_name, steps_up, way, slashed, recover_incomplete_operations,
}
use caravault.Executor.Cleanup.{
  HasPending, own_entry, IsCleared, atomic_write-HasPending,
  recover_incomplete_operations-IsCleared,
}
use caravault.Examples.Stores.{note}

-- A stand-in for SHA-256.
abbrev pub same_text : Text → Text
same_text s = s

abbrev src : Text
src = text "/x/note"

abbrev target : Text
target = text "/y/note"

-- The source holds `h1` and the target something else; the fourth call fails.
abbrev disk : World
disk = record {
  files =
      (src, record { content = text "h1"; mode = 420; mtime = 7 })
      ∷ (target, record { content = text "h0"; mode = 420; mtime = 3 })
      ∷ [];
  dirs = text "/x" ∷ text "/y" ∷ [];
  faults = false ∷ false ∷ false ∷ true ∷ [];
  history = [];
}

atomic_write-IsWritten_example :
    IsWritten same_text target
      (text "h1")
      (Map.lookup target disk.files)
      (atomic_write same_text src target (text "h1") note 1 disk fresh)
atomic_write-IsWritten_example =
    atomic_write-IsWritten same_text src target (text "h1") note 1 disk fresh refl

atomic_write-HasPending_example :
    HasPending
      (get_incomplete_operations fresh)
      (own_entry target 1 fresh)
      (atomic_write same_text src target (text "h1") note 1 disk fresh)
atomic_write-HasPending_example =
    atomic_write-HasPending same_text src target (text "h1") note 1 disk fresh (omega arith)

relative_paths :
    (relative (text "/y/a/note") (text "/y") ≡ text "a/note")
    × (relative (text "/a/note") (text "/") ≡ text "a/note")
    × (relative (text "/z/note") (text "/y") ≡ text "../z/note")
    × (relative (text "/y") (text "/y") ≡ text ".")
unfolding first_name steps_up way slashed cmp_text
relative_paths = (refl, refl, refl, refl)

-- A store that a crash left in the middle of a write.
abbrev crashed : ManifestStore
crashed = (begin_operation (text "WRITE") target 1 fresh).0

recover_incomplete_operations-IsCleared_example :
    IsCleared [] (recover_incomplete_operations same_text (text "/y") disk crashed)
recover_incomplete_operations-IsCleared_example =
    recover_incomplete_operations-IsCleared same_text (text "/y") disk crashed

-- The same disk, where no call fails.
abbrev calm_disk : World
calm_disk = record disk { faults = [] }

abbrev source : File
source = record { content = text "h1"; mode = 420; mtime = 7 }

source_found : Map.lookup src calm_disk.files ≡ some source
unfolding Map.lookup cmp_text
source_found = refl

atomic_write-IsDelivered_example :
    IsDelivered target
      (text "h1")
      note
      1
      fresh
      (atomic_write same_text src target (text "h1") note 1 calm_disk fresh)
atomic_write-IsDelivered_example =
    atomic_write-IsDelivered same_text src target source note 1 calm_disk fresh refl source_found

recover_incomplete_operations-IsComplete_example :
    IsComplete (recover_incomplete_operations same_text (text "/y") calm_disk crashed)
unfolding begin_operation
recover_incomplete_operations-IsComplete_example =
    recover_incomplete_operations-IsComplete same_text (text "/y") calm_disk crashed refl tt
