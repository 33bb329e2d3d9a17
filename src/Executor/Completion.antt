-- ===== src/Executor/Completion.antt =====
-- `recover_incomplete_operations` of src/executor.cpp where no call fails.
use caravault.Base.{
  ◌≡◌, refl, inl, inr, ℕ, Option, none, some, List, [], ◌∷◌, ◌=?◌, Text, text_ord, text, Bool-cases,
  is_empty,
}
use caravault.Base.Map
use caravault.Manifest.{
  FileMetadata, ManifestStore, PendingOperation, complete_operation, get_incomplete_operations,
}
use caravault.Manifest.Files.{IsReadable, get_file_ok}
use caravault.Executor.Disk.{File, World, tick, exists, rename_found, rename_file, remove_file}
use caravault.Executor.Writing.{tmp_path, verify_hash}
use caravault.Executor.Recovery.{
  Recovered, relative, complete_rename, settle, settle_read, recover_write, and_complete,
  recover_all, recover_incomplete_operations,
}
use caravault.Executor.Success.{fault_none}
use caravault.Executor.Cleanup.{IsCleared, recover_incomplete_operations-IsCleared}

abbrev IsCalm : World → Type 0
IsCalm w = w.faults ≡ []

tick-IsCalm : (w : World) → IsCalm w → IsCalm (tick w)
tick-IsCalm w e = rw e refl

remove_file-IsCalm : (path : Text) (w : World) → IsCalm w → IsCalm (remove_file path w)
unfolding remove_file
remove_file-IsCalm path w e = simp (fault_none w e) (rw e refl)

rename_found-IsCalm :
    (from to : Text) (found : Option File) (w : World)
    → IsCalm w
    → IsCalm (rename_found from to found w)
rename_found-IsCalm from to none w e = rw e refl
rename_found-IsCalm from to (some f) w e = rw e refl

complete_rename-IsCalm : (target : Text) (w : World) → IsCalm w → IsCalm (complete_rename target w)
unfolding complete_rename rename_file
complete_rename-IsCalm target w e =
    simp (fault_none w e)
      (rename_found-IsCalm (tmp_path target) target (Map.lookup (tmp_path target) w.files) w e)

-- Recovery goes on, with no call that fails and a readable manifest.
abbrev GoesOn : Recovered → Type 0
GoesOn (some e, w, s) = ⊥
GoesOn (none, w, s) = IsCalm w × IsReadable s.files

module _ (sha256 : Text → Text) where
  settle-IsCalm :
      (target : Text) (meta : Option FileMetadata) (w : World)
      → IsCalm w
      → IsCalm (settle sha256 target meta w)
  unfolding settle
  settle-IsCalm target none w e = remove_file-IsCalm (tmp_path target) w e
  settle-IsCalm target (some meta) w e = elim (Bool-cases (is_empty meta.hash)) [
    | inl a ↦ simp a (remove_file-IsCalm (tmp_path target) w e)
    | inr a ↦ elim (Bool-cases (verify_hash sha256 (tmp_path target) meta.hash w)) [
      | inl b ↦ simp (a, b) (complete_rename-IsCalm target (tick w) (tick-IsCalm w e))
      | inr b ↦ simp (a, b) (remove_file-IsCalm (tmp_path target) (tick w) (tick-IsCalm w e))
    ]
  ]

  recover_write-GoesOn :
      (root : Text) (op : PendingOperation) (w : World) (s : ManifestStore)
      → IsCalm w
      → IsReadable s.files
      → GoesOn (recover_write sha256 root op w s)
  unfolding recover_write settle_read
  recover_write-GoesOn root op w s e h = elim (Bool-cases (op.operation =? text "WRITE")) [
    | inr a ↦ simp a (e, h)
    | inl a ↦ elim (Bool-cases (exists (tmp_path op.path) w)) [
      | inr b ↦ simp (a, fault_none w e, b) (tick-IsCalm w e, h)
      | inl b ↦
          let calm = tick-IsCalm w e in
          let (found, same) = get_file_ok (relative op.path root) s h in
          simp (a, fault_none w e, b, fault_none (tick w) calm)
            (rw same (settle-IsCalm op.path found (tick (tick w)) (tick-IsCalm (tick w) calm), h))
    ]
  ]

  and_complete-GoesOn : (id : ℕ) (r : Recovered) → GoesOn r → GoesOn (and_complete id r)
  unfolding complete_operation
  and_complete-GoesOn id (none, w, s) g = g
  and_complete-GoesOn id (some e, w, s) g = g

  recover_all-GoesOn :
      (root : Text) (ops : List PendingOperation) (r : Recovered)
      → GoesOn r
      → GoesOn (recover_all sha256 root ops r)
  unfolding recover_all
  recover_all-GoesOn root ops (some e, w, s) g = g
  recover_all-GoesOn root [] (none, w, s) g = g
  recover_all-GoesOn root (op ∷ ops) (none, w, s) (e, h) =
      recover_all-GoesOn root ops _
        (and_complete-GoesOn op.id _ (recover_write-GoesOn root op w s e h))

-- Recovery that ended without an error and left nothing pending.
abbrev pub IsComplete : Recovered → Type 0
IsComplete (some e, w, s) = ⊥
IsComplete (none, w, s) = get_incomplete_operations s ≡ []

IsComplete-of_GoesOn : (r : Recovered) → GoesOn r → IsCleared [] r → IsComplete r
IsComplete-of_GoesOn (some e, w, s) g c = elim g [ ]
IsComplete-of_GoesOn (none, w, s) g c = c

-- Where no call fails and the manifest is readable, recovery does not throw, and leaves no operation
-- pending.
pub recover_incomplete_operations-IsComplete :
    (sha256 : Text → Text) (root : Text) (w : World) (s : ManifestStore)
    → w.faults ≡ []
    → IsReadable s.files
    → IsComplete (recover_incomplete_operations sha256 root w s)
recover_incomplete_operations-IsComplete sha256 root w s e h =
    IsComplete-of_GoesOn (recover_incomplete_operations sha256 root w s)
      (unfold recover_incomplete_operations in
        recover_all-GoesOn sha256 root (get_incomplete_operations s) (none, w, s) (e, h))
      (recover_incomplete_operations-IsCleared sha256 root w s)
