-- ===== src/Planner/Soundness/Plans.antt =====
-- `plan_sync` of src/sync_planner.cpp and the grounds of its operations: sorting, coalescing, the whole.
use caravault.Base.{
  inl, inr, ℕ, zero, suc, none, some, List, [], ◌∷◌, ◌++◌, Text, text_ord, All, Bool-cases,
  get_elem?, length, ltb, ◌==◌, pair_ord,
}
use caravault.Base.Map
use caravault.Base.Map.{Map}
use caravault.Base.Map.Sorted
use caravault.Base.Map.Every
use caravault.Base.Set
use caravault.Base.Set.{Set}
use caravault.Manifest.{value_or}
use caravault.Conflict.{Manifests, Resolution}
use caravault.Planner.{plan_sync, emit_ops}
use caravault.Planner.Operations.{SyncOp, FileIndex}
use caravault.Planner.Index.{drive_files, index_drives, all_paths}
use caravault.Planner.Indexed.{index_drives-IsSorted}
use caravault.Planner.Emission.{no_plan}
use caravault.Planner.Renames.{detect_renames}
use caravault.Planner.Detected.{detect_renames-IsMissed}
use caravault.Planner.Sorting.{release, push_op, drain, append_rest, topological_sort, graph, roots}
use caravault.Planner.Coalescing.{key, reverse, keep_last, coalesce}
use caravault.Planner.Soundness.{IsSound}
use caravault.Planner.Soundness.Files.{plan_rename_maps-AllSound, plan_paths-AllSound}

module _ (P : SyncOp → Type 0) where
  All-append : (xs ys : List SyncOp) → All P xs → All P ys → All P (xs ++ ys)
  All-append [] ys a b = b
  All-append (x ∷ xs) ys (p, a) b = (p, All-append xs ys a b)

  All-reverse : (xs : List SyncOp) → All P xs → All P (reverse xs)
  All-reverse [] a = tt
  All-reverse (x ∷ xs) (p, a) = All-append (reverse xs) (x ∷ []) (All-reverse xs a) (p, tt)

  All-keep_last :
      (seen : Set (Text × Text)) (ops : List SyncOp) → All P ops → All P (keep_last seen ops)
  unfolding keep_last
  All-keep_last seen [] a = tt
  All-keep_last seen (op ∷ ops) (p, a) = elim (Bool-cases (Set.contains (key op) seen)) [
    | inl y ↦ simp y (All-keep_last (Set.insert (key op) seen) ops a)
    | inr y ↦ simp y (p, All-keep_last (Set.insert (key op) seen) ops a)
  ]

  -- Coalescing adds no operation.
  All-coalesce : (ops : List SyncOp) → All P ops → All P (coalesce ops)
  unfolding coalesce
  All-coalesce ops a =
      All-reverse (keep_last [] (reverse ops)) (All-keep_last [] (reverse ops) (All-reverse ops a))

  All-push_op :
      (ops : List SyncOp) (i : ℕ) (sorted : List SyncOp)
      → All P ops
      → All P sorted
      → All P (push_op ops i sorted)
  All-push_op [] i sorted a b = b
  All-push_op (op ∷ ops) zero sorted (p, a) b = All-append sorted (op ∷ []) b (p, tt)
  All-push_op (op ∷ ops) (suc i) sorted (p, a) b = All-push_op ops i sorted a b

  All-drain :
      (ops : List SyncOp) (adj : List (List ℕ)) (fuel : ℕ) (queue in_degree : List ℕ)
      (sorted : List SyncOp)
      → All P ops
      → All P sorted
      → All P (drain ops adj fuel queue in_degree sorted).1
  unfolding drain
  All-drain ops adj zero queue in_degree sorted a b = b
  All-drain ops adj (suc fuel) [] in_degree sorted a b = b
  All-drain ops adj (suc fuel) (i ∷ queue) in_degree sorted a b =
      let (degrees, later) = release (value_or [] (get_elem? adj i)) in_degree queue in
      All-drain ops adj fuel later degrees (push_op ops i sorted) a (All-push_op ops i sorted a b)

  All-append_rest :
      (ops : List SyncOp) (degrees : List ℕ) (sorted : List SyncOp)
      → All P ops
      → All P sorted
      → All P (append_rest ops degrees sorted)
  unfolding append_rest
  All-append_rest [] degrees sorted a b = b
  All-append_rest (op ∷ ops) [] sorted a b = b
  All-append_rest (op ∷ ops) (d ∷ degrees) sorted (p, a) b =
      All-append_rest ops degrees _ a (elim (Bool-cases (d == 0)) [
        | inl y ↦ simp y b
        | inr y ↦ simp y (All-append sorted (op ∷ []) b (p, tt))
      ])

  -- Nor does sorting.
  All-topological_sort : (ops : List SyncOp) → All P ops → All P (topological_sort ops)
  unfolding topological_sort
  All-topological_sort ops a =
      let g = graph ops in
      let (degrees, sorted) = drain ops g.adj (length ops) (roots 0 g.in_degree) g.in_degree [] in
      let b = All-drain ops g.adj (length ops) (roots 0 g.in_degree) g.in_degree [] a tt in
      elim (Bool-cases (ltb (length sorted) (length ops))) [
        | inl y ↦ simp y (All-append_rest ops degrees sorted a b)
        | inr y ↦ simp y b
      ]

pub drive_files-IsSorted : (manifests : Manifests) → Sorted.IsSorted (drive_files manifests)
unfolding drive_files
drive_files-IsSorted [] = tt
drive_files-IsSorted ((d, none) ∷ manifests) = drive_files-IsSorted manifests
drive_files-IsSorted ((d, some files) ∷ manifests) =
    Sorted.insert-IsSorted d files (drive_files manifests) (drive_files-IsSorted manifests)

-- The files of the stores by drive and path.
abbrev pub indexed : Manifests → FileIndex
indexed manifests = index_drives (drive_files manifests) []

emit_ops-AllSound :
    (manifests : Manifests) (resolutions : List Resolution)
    → All (IsSound (indexed manifests)) (emit_ops manifests resolutions).ops
unfolding emit_ops
emit_ops-AllSound manifests resolutions =
    let idx = indexed manifests in
    let sorted = drive_files-IsSorted manifests in
    let entries = Every.Every-lookup idx (index_drives-IsSorted (drive_files manifests) [] tt) in
    plan_paths-AllSound idx (Map.keys manifests) resolutions (all_paths (drive_files manifests) [])
      _ entries
      (plan_rename_maps-AllSound idx (detect_renames (drive_files manifests)) no_plan entries
        (detect_renames-IsMissed (drive_files manifests) sorted) tt)

-- Every operation of a plan has its grounds in the stores.
pub plan_sync-IsSound :
    (manifests : Manifests) (resolutions : List Resolution)
    → All (IsSound (indexed manifests)) (plan_sync manifests resolutions)
unfolding plan_sync
plan_sync-IsSound [] resolutions = tt
plan_sync-IsSound (m ∷ manifests) resolutions =
    let all = m ∷ manifests in
    All-coalesce (IsSound (indexed all)) _ (
      All-topological_sort (IsSound (indexed all)) (emit_ops all resolutions).ops
        (emit_ops-AllSound all resolutions))
