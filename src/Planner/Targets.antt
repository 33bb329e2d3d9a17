-- ===== src/Planner/Targets.antt =====
-- The drives that `detect_renames` of src/sync_planner.cpp finds renames for.
use caravault.Base.{List, [], ◌∷◌, Text, text_ord, arith, Option-cases, inl, inr}
use caravault.Base.Map
use caravault.Base.Map.{Map}
use caravault.Base.Map.Every
use caravault.Base.Map.Every.{Every}
use caravault.Manifest.{FileMetadata}
use caravault.Planner.Operations.{Renames}
use caravault.Planner.Renames.{
  DriveIndex, indices, add_rename, rename_from, rename_paths, rename_hashes, rename_targets,
  rename_sources, detect_renames,
}

-- The drives for which renames are found are those of the files.
module _ (P : Text → Type 0) where
  abbrev pub AllTargets : Renames → Type 0
  AllTargets r = Every (λ (tgt : Text) (renames : Map Text Text). P tgt) r

  abbrev AllDrives : Map Text DriveIndex → Type 0
  AllDrives drives = Every (λ (d : Text) (ix : DriveIndex). P d) drives

  add_rename-AllTargets :
      (tgt old_path new_path : Text) (r : Renames)
      → P tgt
      → AllTargets r
      → AllTargets (add_rename tgt old_path new_path r)
  unfolding add_rename
  add_rename-AllTargets tgt old_path new_path r h a =
      Every.insert-Every (λ tgt renames. P tgt) tgt _ r h a

  rename_from-AllTargets :
      (ix : DriveIndex) (tgt path : Text) (paths : List Text) (r : Renames)
      → P tgt
      → AllTargets r
      → AllTargets (rename_from ix tgt path paths r)
  unfolding rename_from
  rename_from-AllTargets ix tgt path [] r h a = a
  rename_from-AllTargets ix tgt path (p ∷ paths) r h a =
      rename_from-AllTargets ix tgt path paths _ h
        (ground (arith, add_rename-AllTargets tgt p path r h a))

  rename_paths-AllTargets :
      (ix : DriveIndex) (tgt : Text) (to : DriveIndex) (olds news : List Text) (r : Renames)
      → P tgt
      → AllTargets r
      → AllTargets (rename_paths ix tgt to olds news r)
  unfolding rename_paths
  rename_paths-AllTargets ix tgt to olds [] r h a = a
  rename_paths-AllTargets ix tgt to olds (n ∷ news) r h a =
      rename_paths-AllTargets ix tgt to olds news _ h
        (ground (arith, rename_from-AllTargets ix tgt n olds r h a))

  rename_hashes-AllTargets :
      (ix : DriveIndex) (tgt : Text) (to : DriveIndex) (hashes : Map Text (List Text)) (r : Renames)
      → P tgt
      → AllTargets r
      → AllTargets (rename_hashes ix tgt to hashes r)
  unfolding rename_hashes
  rename_hashes-AllTargets ix tgt to [] r h a = a
  rename_hashes-AllTargets ix tgt to ((hash, news) ∷ hashes) r h a =
      rename_hashes-AllTargets ix tgt to hashes _ h
        (elim (Option-cases (Map.lookup hash to.hash_to_paths)) [
          | inl e ↦ rw e a
          | inr (olds, e) ↦ rw e (rename_paths-AllTargets ix tgt to olds news r h a)
        ])

  rename_targets-AllTargets :
      (src : Text) (ix : DriveIndex) (targets : Map Text DriveIndex) (r : Renames)
      → AllDrives targets
      → AllTargets r
      → AllTargets (rename_targets src ix targets r)
  unfolding rename_targets
  rename_targets-AllTargets src ix [] r h a = a
  rename_targets-AllTargets src ix ((tgt, to) ∷ targets) r (h, hs) a =
      rename_targets-AllTargets src ix targets _ hs
        (ground (arith, rename_hashes-AllTargets ix tgt to ix.hash_to_paths r h a))

  rename_sources-AllTargets :
      (all sources : Map Text DriveIndex) (r : Renames)
      → AllDrives all
      → AllTargets r
      → AllTargets (rename_sources all sources r)
  unfolding rename_sources
  rename_sources-AllTargets all [] r h a = a
  rename_sources-AllTargets all ((src, ix) ∷ sources) r h a =
      rename_sources-AllTargets all sources _ h (rename_targets-AllTargets src ix all r h a)

  indices-AllDrives :
      (drives : Map Text (List FileMetadata))
      → Every (λ (d : Text) (files : List FileMetadata). P d) drives
      → AllDrives (indices drives)
  unfolding indices
  indices-AllDrives [] h = tt
  indices-AllDrives ((d, files) ∷ drives) (p, h) = (p, indices-AllDrives drives h)

  pub detect_renames-AllTargets :
      (drives : Map Text (List FileMetadata))
      → Every (λ (d : Text) (files : List FileMetadata). P d) drives
      → AllTargets (detect_renames drives)
  unfolding detect_renames
  detect_renames-AllTargets drives h =
      let all = indices-AllDrives drives h in
      rename_sources-AllTargets (indices drives) (indices drives) [] all tt
