-- ===== src/Executor/Success.antt =====
-- `atomic_write` of src/executor.cpp where no call fails.
use mathlib.Core.List.{append_assoc, append-nil}
use caravault.Base.{
  ◌≡◌, refl, ◌∙◌, ap, subst, inl, inr, ℕ, zero, suc, ◌-◌, ◌≤◌, Bool, true, false, Option, none,
  some, [], ◌∷◌, ◌++◌, =?_refl, Text, text_ord, text, arith, Bool-cases, is_empty, length,
}
use caravault.Base.Map
use caravault.Base.Map.Erasing.{erase}
use caravault.Manifest.{
  FileMetadata, ManifestStore, begin_operation, complete_operation, upsert_file,
}
use caravault.Planner.Paths.{parent_dir, prefix}
use caravault.Executor.Disk.{
  File, World, fault, tick, create_directories, truncated, truncate, append, rename_file,
  set_metadata,
}
use caravault.Executor.Writing.{
  Failure, tmp_path, chunk_size, suffix, copy_chunks, flush, copy_found, copy_file_contents,
  metadata_found, copy_metadata, verify_found, verify_hash, commit, commit_copy, write_target,
  finish_write, logged_write, atomic_write,
}

prefix-suffix : (n : ℕ) (s : Text) → prefix n s ++ suffix n s ≡ s
prefix-suffix zero s = refl
prefix-suffix (suc n) [] = refl
prefix-suffix (suc n) (c ∷ s) = ap (λ t. c ∷ t) (prefix-suffix n s)

length-suffix : (n : ℕ) (s : Text) → length (suffix n s) ≡ length s - n
length-suffix zero s = omega arith
length-suffix (suc n) [] = omega arith
length-suffix (suc n) (c ∷ s) = omega (arith, length-suffix n s)

pub fault_none : (w : World) → w.faults ≡ [] → fault w ≡ false
fault_none w e = rw e refl

-- No call fails, and the file at the path has these contents.
abbrev IsReady : Text → Text → World → Type 0
IsReady path c w =
    (w.faults ≡ []) × ((g : File) × (Map.lookup path w.files ≡ some g) × (g.content ≡ c))

insert-found :
    (path : Text) (f : File) (w : World) → Map.lookup path (Map.insert path f w.files) ≡ some f
insert-found path f w = Map.lookup-insert path path f w.files ∙ rw (=?_refl path) refl

truncated-content : (o : Option File) → (truncated o).content ≡ []
truncated-content none = refl
truncated-content (some f) = refl

truncate-IsReady : (path : Text) (w : World) → w.faults ≡ [] → IsReady path [] (truncate path w)
unfolding truncate
truncate-IsReady path w e = (
  rw e refl,
  (
    truncated (Map.lookup path w.files),
    insert-found path _ w,
    truncated-content (Map.lookup path w.files),
  ),
)

append-IsReady :
    (path c bytes : Text) (w : World)
    → IsReady path c w
    → IsReady path (c ++ bytes) (append path bytes w)
unfolding append
append-IsReady path c bytes w (e, (g, at, same)) =
    rw at
      (rw e refl, (record g { content = g.content ++ bytes }, insert-found path _ w, rw same refl))

-- A copy that was done, with these contents at the path.
abbrev IsCopied : Text → Text → Bool × World → Type 0
IsCopied path c (false, w) = ⊥
IsCopied path c (true, w) = IsReady path c w

-- The same, of what does not throw.
abbrev IsDone : Text → Text → Option Failure × World → Type 0
IsDone path c (some e, w) = ⊥
IsDone path c (none, w) = IsReady path c w

copy_chunks-IsCopied :
    (fuel : ℕ) (path c left : Text) (w : World)
    → length left ≤ fuel
    → IsReady path c w
    → IsCopied path (c ++ left) (copy_chunks fuel path left w)
unfolding copy_chunks
copy_chunks-IsCopied zero path c [] w h (e, f) = rw (append-nil c) (rw e refl, f)
copy_chunks-IsCopied zero path c (x ∷ left) w h r = ground arith
copy_chunks-IsCopied (suc fuel) path c [] w h (e, f) =
    simp (fault_none w e) (rw (append-nil c) (rw e refl, f))
copy_chunks-IsCopied (suc fuel) path c (x ∷ left) w h (e, f) =
    let calm : (tick w).faults ≡ [] = rw e refl in
    let s = x ∷ left in
    let whole : (c ++ prefix chunk_size s) ++ suffix chunk_size s ≡ c ++ s =
      append_assoc c (prefix chunk_size s) (suffix chunk_size s)
      ∙ ap (λ t. c ++ t) (prefix-suffix chunk_size s) in
    let next =
      copy_chunks-IsCopied fuel path (c ++ prefix chunk_size s) (suffix chunk_size s)
        (append path (prefix chunk_size s) (tick w)) (omega (arith, length-suffix chunk_size s))
        (append-IsReady path c (prefix chunk_size s) (tick w) (calm, f)) in
    simp (fault_none w e, fault_none (tick w) calm)
      (subst
        (λ t. IsCopied path t (
          copy_chunks fuel path (suffix chunk_size s) (append path (prefix chunk_size s) (tick w))))
        whole next)

flush-IsDone : (path c : Text) (r : Bool × World) → IsCopied path c r → IsDone path c (flush r)
flush-IsDone path c (true, w) (e, f) = simp (fault_none w e) (rw e refl, f)
flush-IsDone path c (false, w) h = elim h [ ]

copy_found-IsDone :
    (path : Text) (f : File) (w : World)
    → w.faults ≡ []
    → IsDone path f.content (copy_found path (some f) w)
unfolding copy_found
copy_found-IsDone path f w e =
    let calm : (tick w).faults ≡ [] = rw e refl in
    simp (fault_none w e, fault_none (tick w) calm)
      (flush-IsDone path f.content _ (
        copy_chunks-IsCopied (length f.content) path [] f.content (truncate path (tick w))
          (omega arith) (truncate-IsReady path (tick w) calm)))

set_metadata-IsReady :
    (g : File) (path c : Text) (w : World)
    → IsReady path c w
    → IsReady path c (set_metadata g path w)
unfolding set_metadata
set_metadata-IsReady g path c w (e, (f, at, same)) =
    rw at (rw e refl, (record f { mode = g.mode; mtime = g.mtime }, insert-found path _ w, same))

metadata_found-IsReady :
    (path c : Text) (found : Option File) (w : World)
    → IsReady path c w
    → IsReady path c (metadata_found path found w)
unfolding metadata_found
metadata_found-IsReady path c none w (e, f) = (rw e refl, f)
metadata_found-IsReady path c (some g) w (e, f) =
    simp (fault_none w e) (set_metadata-IsReady g path c (tick w) (rw e refl, f))

module _ (sha256 : Text → Text) (target c expected : Text) (fits : sha256 c ≡ expected) where
  verify_hash-of_IsReady :
      (path : Text) (w : World) → IsReady path c w → verify_hash sha256 path expected w ≡ true
  unfolding verify_hash verify_found
  verify_hash-of_IsReady path w (e, (f, at, same)) =
      rw (at, fault_none w e, same, fits) (=?_refl expected)

  rename_file-IsReady :
      (w : World)
      → IsReady (tmp_path target) c w
      → IsReady target c (rename_file (tmp_path target) target w)
  unfolding rename_file
  rename_file-IsReady w (e, (f, at, same)) = rw at (
    rw e refl,
    (
      f,
      Map.lookup-insert target target f (erase (tmp_path target) w.files)
          ∙ rw (=?_refl target) refl,
      same,
    ),
  )

  commit-IsDone :
      (w : World)
      → IsReady (tmp_path target) c w
      → IsDone target c (commit sha256 target expected w)
  unfolding commit
  commit-IsDone w r =
      let calm : (tick w).faults ≡ [] = rw (r.0) refl in
      simp (verify_hash-of_IsReady (tmp_path target) w r, fault_none (tick w) calm)
        (rename_file-IsReady (tick w) (calm, r.1))

  commit_copy-IsDone :
      (src : Text) (r : Option Failure × World)
      → IsDone (tmp_path target) c r
      → IsDone target c (commit_copy sha256 src target expected r)
  unfolding commit_copy copy_metadata
  commit_copy-IsDone src (none, w) r =
      commit-IsDone _ (metadata_found-IsReady (tmp_path target) c (Map.lookup src w.files) w r)
  commit_copy-IsDone src (some e, w) r = elim r [ ]

-- What `atomic_write` returns where it does its work: the target holds the contents of the source, and
-- the store the new entry with the log entry closed.
abbrev pub IsDelivered :
    Text → Text → FileMetadata → ℕ → ManifestStore → Option Failure × World × ManifestStore → Type 0
IsDelivered target c meta now s (e, w, t) =
    (e ≡ none)
    × ((g : File) × (Map.lookup target w.files ≡ some g) × (g.content ≡ c))
    × (let (begun, id) = begin_operation (text "WRITE") target now s in
        t ≡ complete_operation id (upsert_file meta begun))

finish_write-IsDelivered :
    (target c : Text) (meta : FileMetadata) (now : ℕ) (s : ManifestStore)
    (r : Option Failure × World)
    → IsDone target c r
    → let (begun, id) = begin_operation (text "WRITE") target now s in
      IsDelivered target c meta now s (finish_write target meta id begun r)
unfolding finish_write
finish_write-IsDelivered target c meta now s (none, w) r =
    let calm : (tick w).faults ≡ [] = rw (r.0) refl in
    simp (fault_none w r.0, fault_none (tick w) calm) (refl, r.1, refl)
finish_write-IsDelivered target c meta now s (some e, w) r = elim r [ ]

module _ (sha256 : Text → Text) (src target : Text) (f : File) where
  logged_write-IsDelivered :
      (meta : FileMetadata) (now : ℕ) (w : World) (s : ManifestStore)
      → w.faults ≡ []
      → Map.lookup src w.files ≡ some f
      → IsDelivered target f.content meta now s
          (logged_write sha256 src target (sha256 f.content) meta now w s)
  unfolding logged_write write_target copy_file_contents begin_operation
  logged_write-IsDelivered meta now w s e at =
      let calm : (tick (tick w)).faults ≡ [] = rw e refl in
      simp (fault_none w e) (
        finish_write-IsDelivered target f.content meta now s _ (
          commit_copy-IsDone sha256 target f.content (sha256 f.content) refl src _
            (rw at (copy_found-IsDone (tmp_path target) f (tick (tick w)) calm))))

  -- Where no call fails and the source holds contents of the expected hash, `atomic_write` does not
  -- throw, the target then holds these contents, and the store the new entry with the log entry closed.
  pub atomic_write-IsDelivered :
      (meta : FileMetadata) (now : ℕ) (w : World) (s : ManifestStore)
      → w.faults ≡ []
      → Map.lookup src w.files ≡ some f
      → IsDelivered target f.content meta now s
          (atomic_write sha256 src target (sha256 f.content) meta now w s)
  unfolding atomic_write create_directories
  atomic_write-IsDelivered meta now w s e at =
      let calm : (tick w).faults ≡ [] = rw e refl in
      let calm' : (tick (tick w)).faults ≡ [] = rw e refl in
      simp
        (verify_hash-of_IsReady sha256 target f.content (sha256 f.content) refl src w
          (e, (f, at, refl)))
        (elim (Bool-cases (is_empty (parent_dir target))) [
          | inl p ↦ simp p (logged_write-IsDelivered meta now (tick w) s calm at)
          | inr p ↦
              simp (p, fault_none (tick w) calm) (logged_write-IsDelivered meta now _ s calm' at)
        ])
