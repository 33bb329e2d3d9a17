-- ===== src/Planner/Agreement.antt =====
-- `plan_sync` of src/sync_planner.cpp where the manifests of all drives agree.
use caravault.Base.{
  ◌≡◌, refl, sym, ◌∙◌, ap, inl, inr, Option, none, some, List, [], ◌∷◌, Text, text_ord, pair_ord,
  arith, Bool-cases, All, is_empty, cmp_text_iff, subst,
}
use caravault.Base.Map
use caravault.Base.Map.{Map}
use caravault.Base.Map.Sorted
use caravault.Base.Map.Sorted.{or_else}
use caravault.Base.Map.Every
use caravault.Base.Map.Every.{Every}
use caravault.VersionVector.{VersionVector}
use caravault.Manifest.{FileMetadata}
use caravault.Conflict.{Manifests, Resolution}
use caravault.Conflict.Gathering.{last_file}
use caravault.Planner.{emit_ops, plan_sync}
use caravault.Planner.Operations.{file_at}
use caravault.Planner.Index.{drive_files, all_paths}
use caravault.Planner.Indexed.{file_at-index_drives, index_drives-IsSorted, listed}
use caravault.Planner.Emission.{no_plan}
use caravault.Planner.Renames.{detect_renames}
use caravault.Planner.Targets.{detect_renames-AllTargets}
use caravault.Planner.Sorting.{topological_sort, graph, drain, roots}
use caravault.Planner.Coalescing.{coalesce, keep_last}
use caravault.Planner.Soundness.Plans.{drive_files-IsSorted, indexed}
use caravault.Planner.Detected.{detect_renames-IsMissed}
use caravault.Planner.Quiet.{
  live_entry, IsReplica, Conforms, plan_paths_quiet, plan_rename_maps_quiet,
}

-- The store of a drive, where it has one.
abbrev store_of : Option (Option (List FileMetadata)) → Option (List FileMetadata)
store_of none = none
store_of (some o) = o

lookup-drive_files :
    (d : Text) (manifests : Manifests)
    → Sorted.IsSorted manifests
    → Map.lookup d (drive_files manifests) ≡ store_of (Map.lookup d manifests)
unfolding drive_files Map.lookup
lookup-drive_files d [] s = refl
lookup-drive_files d ((e, none) ∷ manifests) (a, s) = ground (
  arith,
  lookup-drive_files d manifests s,
  Sorted.lookup-of_IsAbove e manifests a,
  cmp_text_iff d e,
)
lookup-drive_files d ((e, some files) ∷ manifests) (a, s) =
    ground
      (arith, lookup-drive_files d manifests s, Map.lookup-insert d e files (drive_files manifests))

module _ (manifests : Manifests) (reference : Text → Option (Text × VersionVector))
    (sorted : Sorted.IsSorted manifests)
    (replicas : Every
      (λ (d : Text) (o : Option (List FileMetadata)). IsReplica reference o)
      manifests) where
  abbrev drives : Map Text (List FileMetadata)
  drives = drive_files manifests

  file_at-indexed :
      (d path : Text) → file_at (indexed manifests) d path ≡ listed path (Map.lookup d drives)
  file_at-indexed d path =
      file_at-index_drives d path drives [] (drive_files-IsSorted manifests)
      ∙ or_none (listed path (Map.lookup d drives))
    where
      or_none : (o : Option FileMetadata) → or_else o (file_at [] d path) ≡ o
      or_none none = unfold Map.lookup in refl
      or_none (some f) = refl

  -- A drive with a store conforms.
  of_store :
      (d : Text) (files : List FileMetadata)
      → Map.lookup d drives ≡ some files
      → (path : Text) → live_entry (last_file path files) ≡ reference path
  of_store d files h =
      go (Map.lookup d manifests) refl (sym (lookup-drive_files d manifests sorted) ∙ h)
    where
      go :
          (o : Option (Option (List FileMetadata)))
          → Map.lookup d manifests ≡ o
          → store_of o ≡ some files
          → (path : Text) → live_entry (last_file path files) ≡ reference path
      go none e h = absurd (cc h)
      go (some none) e h = absurd (cc h)
      go (some (some files')) e h =
          let same : files' ≡ files = cc h in
          subst (λ fs. (path : Text) → live_entry (last_file path fs) ≡ reference path) same
            (Every.lookup-Every
              (λ (d : Text) (o : Option (List FileMetadata)). IsReplica reference o) d (some files')
              manifests replicas e)

  conforms :
      (d : Text) (files : List FileMetadata)
      → Map.lookup d drives ≡ some files
      → Conforms (indexed manifests) reference d
  conforms d files h path = rw (file_at-indexed d path, h) (of_store d files h path)

  held :
      (d path : Text) (f : FileMetadata)
      → file_at (indexed manifests) d path ≡ some f
      → live_entry (some f) ≡ reference path
  held d path f h = go (Map.lookup d drives) refl (sym (file_at-indexed d path) ∙ h)
    where
      go :
          (o : Option (List FileMetadata))
          → Map.lookup d drives ≡ o
          → listed path o ≡ some f
          → live_entry (some f) ≡ reference path
      go none e h = absurd (cc h)
      go (some files) e h = subst (λ x. live_entry x ≡ reference path) h (of_store d files e path)

  Conforms-keys :
      (part : Manifests)
      → Every (λ (d : Text) (o : Option (List FileMetadata)). Map.lookup d manifests ≡ some o) part
      → Every (λ (d : Text) (o : Option (List FileMetadata)). IsReplica reference o) part
      → All (Conforms (indexed manifests) reference) (Map.keys part)
  Conforms-keys [] e r = tt
  Conforms-keys ((d, none) ∷ part) (h, e) (r, rs) = absurd r
  Conforms-keys ((d, some files) ∷ part) (h, e) (r, rs) = (
    conforms d files (lookup-drive_files d manifests sorted ∙ rw h refl),
    Conforms-keys part e rs,
  )

  emit_ops_quiet : (resolutions : List Resolution) → emit_ops manifests resolutions ≡ no_plan
  unfolding emit_ops
  emit_ops_quiet resolutions =
      let idx = indexed manifests in
      let keys = Map.keys manifests in
      let entries = Every.Every-lookup idx (index_drives-IsSorted drives [] tt) in
      let all = Conforms-keys manifests (Every.Every-lookup manifests sorted) replicas in
      let targets = detect_renames-AllTargets (Conforms idx reference) drives (
        Every.Every-mono
          (λ (d : Text) (files : List FileMetadata). Map.lookup d drives ≡ some files)
          (λ (d : Text) (files : List FileMetadata). Conforms idx reference d) drives conforms
          (Every.Every-lookup drives (drive_files-IsSorted manifests))) in
      plan_paths_quiet idx reference keys all entries held resolutions (all_paths drives []) _
      ∙ plan_rename_maps_quiet idx reference keys all entries held (detect_renames drives) no_plan
          targets (detect_renames-IsMissed drives (drive_files-IsSorted manifests))

  nothing : coalesce (topological_sort []) ≡ []
  unfolding coalesce topological_sort graph keep_last drain roots
  nothing = refl

  -- Where every drive has a store and all stores hold the same live files under the same hashes and
  -- vectors, nothing is planned.
  pub plan_sync_quiet : (resolutions : List Resolution) → plan_sync manifests resolutions ≡ []
  unfolding plan_sync
  plan_sync_quiet resolutions = elim (Bool-cases (is_empty manifests)) [
    | inl t ↦ simp t refl
    | inr u ↦
        simp u (ap (λ p. coalesce (topological_sort p.ops)) (emit_ops_quiet resolutions) ∙ nothing)
  ]
