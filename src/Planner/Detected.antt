-- ===== src/Planner/Detected.antt =====
-- The new paths of `detect_renames` in src/sync_planner.cpp, against the files of the target drive.
use caravault.Base.{
  ◌≡◌, refl, false, some, List, [], ◌∷◌, Text, text_ord, arith, Bool-cases, inl, inr, Option-cases,
}
use caravault.Base.Map
use caravault.Base.Map.{Map}
use caravault.Base.Map.Sorted
use caravault.Base.Map.Every
use caravault.Base.Map.Every.{Every}
use caravault.Base.Set
use caravault.Manifest.{FileMetadata, value_or}
use caravault.Conflict.Gathering.{last_file}
use caravault.Planner.Operations.{FileIndex, Renames, file_at, is_live}
use caravault.Planner.Renames.{
  DriveIndex, no_index, add_to_index, drive_index, indices, add_rename, rename_from, rename_paths,
  rename_hashes, rename_targets, rename_sources, detect_renames,
}
use caravault.Planner.Index.{index_drives}
use caravault.Planner.Indexed.{file_at-index_drives}

-- A path that the index does not hold as live is live nowhere in the list.
drive_index_lem :
    (path : Text) (files : List FileMetadata) (ix : DriveIndex)
    → Set.contains path (drive_index files ix).live_paths ≡ false
    → (Set.contains path ix.live_paths ≡ false) × (is_live (last_file path files) ≡ false)
unfolding drive_index add_to_index last_file
drive_index_lem path [] ix h = (h, refl)
drive_index_lem path (f ∷ files) ix h =
    let (before, rest) = drive_index_lem path files (add_to_index f ix) h in
    ground (arith, Set.contains-insert path f.path ix.live_paths)

abbrev pub Misses : FileIndex → Text → Text → Type 0
Misses idx tgt path = is_live (file_at idx tgt path) ≡ false

abbrev Covers : FileIndex → Text → DriveIndex → Type 0
Covers idx tgt ix = (path : Text) → Set.contains path ix.live_paths ≡ false → Misses idx tgt path

indices-Covers :
    (idx : FileIndex) (drives : Map Text (List FileMetadata))
    → Every
        (λ (tgt : Text) (files : List FileMetadata).
          (path : Text) → file_at idx tgt path ≡ last_file path files)
        drives
    → Every (Covers idx) (indices drives)
unfolding indices
indices-Covers idx [] e = tt
indices-Covers idx ((tgt, files) ∷ drives) (p, e) =
    (λ path h. rw (p path) (drive_index_lem path files no_index h).1, indices-Covers idx drives e)

module _ (idx : FileIndex) where
  -- Every new path of the drive is one that it does not hold as live.
  abbrev AllMissed : Text → Map Text Text → Type 0
  AllMissed tgt = Every (λ (old_path new_path : Text). Misses idx tgt new_path)

  abbrev pub IsMissed : Renames → Type 0
  IsMissed = Every AllMissed

  found-AllMissed :
      (tgt : Text) (r : Renames) → IsMissed r → AllMissed tgt (value_or [] (Map.lookup tgt r))
  found-AllMissed tgt r e = elim (Option-cases (Map.lookup tgt r)) [
    | inl h ↦ rw h tt
    | inr (m, h) ↦ rw h (Every.lookup-Every AllMissed tgt m r e h)
  ]

  add_rename-IsMissed :
      (tgt old_path new_path : Text) (r : Renames)
      → Misses idx tgt new_path
      → IsMissed r
      → IsMissed (add_rename tgt old_path new_path r)
  unfolding add_rename
  add_rename-IsMissed tgt old_path new_path r h e =
      Every.insert-Every AllMissed tgt _ r
        (Every.insert-Every (λ (o n : Text). Misses idx tgt n) old_path new_path _ h
          (found-AllMissed tgt r e))
        e

  rename_from-IsMissed :
      (ix : DriveIndex) (tgt path : Text) (paths : List Text) (r : Renames)
      → Misses idx tgt path
      → IsMissed r
      → IsMissed (rename_from ix tgt path paths r)
  unfolding rename_from
  rename_from-IsMissed ix tgt path [] r h e = e
  rename_from-IsMissed ix tgt path (p ∷ paths) r h e =
      rename_from-IsMissed ix tgt path paths _ h
        (ground (arith, add_rename-IsMissed tgt p path r h e))

  rename_paths-IsMissed :
      (ix : DriveIndex) (tgt : Text) (to : DriveIndex) (olds news : List Text) (r : Renames)
      → Covers idx tgt to
      → IsMissed r
      → IsMissed (rename_paths ix tgt to olds news r)
  unfolding rename_paths
  rename_paths-IsMissed ix tgt to olds [] r c e = e
  rename_paths-IsMissed ix tgt to olds (n ∷ news) r c e =
      rename_paths-IsMissed ix tgt to olds news _ c
        (elim (Bool-cases (Set.contains n to.live_paths)) [
          | inl t ↦ rw t e
          | inr t ↦ rw t (rename_from-IsMissed ix tgt n olds r (c n t) e)
        ])

  rename_hashes-IsMissed :
      (ix : DriveIndex) (tgt : Text) (to : DriveIndex) (hashes : Map Text (List Text)) (r : Renames)
      → Covers idx tgt to
      → IsMissed r
      → IsMissed (rename_hashes ix tgt to hashes r)
  unfolding rename_hashes
  rename_hashes-IsMissed ix tgt to [] r c e = e
  rename_hashes-IsMissed ix tgt to ((hash, news) ∷ hashes) r c e =
      rename_hashes-IsMissed ix tgt to hashes _ c
        (elim (Option-cases (Map.lookup hash to.hash_to_paths)) [
          | inl h ↦ rw h e
          | inr (olds, h) ↦ rw h (rename_paths-IsMissed ix tgt to olds news r c e)
        ])

  rename_targets-IsMissed :
      (src : Text) (ix : DriveIndex) (targets : Map Text DriveIndex) (r : Renames)
      → Every (Covers idx) targets
      → IsMissed r
      → IsMissed (rename_targets src ix targets r)
  unfolding rename_targets
  rename_targets-IsMissed src ix [] r c e = e
  rename_targets-IsMissed src ix ((tgt, to) ∷ targets) r (c, cs) e =
      rename_targets-IsMissed src ix targets _ cs
        (ground (arith, rename_hashes-IsMissed ix tgt to ix.hash_to_paths r c e))

  rename_sources-IsMissed :
      (all sources : Map Text DriveIndex) (r : Renames)
      → Every (Covers idx) all
      → IsMissed r
      → IsMissed (rename_sources all sources r)
  unfolding rename_sources
  rename_sources-IsMissed all [] r c e = e
  rename_sources-IsMissed all ((src, ix) ∷ sources) r c e =
      rename_sources-IsMissed all sources _ c (rename_targets-IsMissed src ix all r c e)

pub detect_renames-IsMissed :
    (drives : Map Text (List FileMetadata))
    → Sorted.IsSorted drives
    → IsMissed (index_drives drives []) (detect_renames drives)
unfolding detect_renames Map.lookup
detect_renames-IsMissed drives s =
    rename_sources-IsMissed (index_drives drives []) (indices drives) (indices drives) []
      (indices-Covers (index_drives drives []) drives (
        Every.Every-mono
          (λ (d : Text) (files : List FileMetadata). Map.lookup d drives ≡ some files) _ drives
          (λ d files h path. rw (file_at-index_drives d path drives [] s, h) (ground arith))
          (Every.Every-lookup drives s)))
      tt
