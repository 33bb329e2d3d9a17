-- ===== src/Planner/Sorting.antt =====
-- `topological_sort` of src/sync_planner.cpp.
use caravault.Base.{
  ℕ, zero, suc, ◌+◌, ◌-◌, ◌^◌, Bool, true, false, Option, none, some, List, [], ◌∷◌, ◌++◌, ◌=?◌,
  ◌==◌, ltb, if◌then◌else◌, not, ◌&&◌, ◌||◌, length, get_elem?, set, replicate, Text, text_ord,
  pair_ord,
}
use caravault.Base.Map
use caravault.Base.Map.{Map}
use caravault.Manifest.{value_or}
use caravault.Planner.Operations.{SyncOp, remove, rename, mkdir}
use caravault.Planner.Paths.{prefix}

-- The nodes are the positions of the operations.
pub record Graph : Type 0 where
  pub adj : List (List ℕ)
  pub in_degree : List ℕ

unfoldable pub add_edge : ℕ → ℕ → Graph → Graph
add_edge from to g = record {
  adj = set g.adj from (value_or [] (get_elem? g.adj from) ++ to ∷ []);
  in_degree = set g.in_degree to (value_or 0 (get_elem? g.in_degree to) + 1);
}

abbrev pub PathIndex : Type 0
PathIndex = Map (Text × Text) (List ℕ)

-- The loop that makes `path_index`, from the position `i`.
unfoldable pub index_paths : ℕ → List SyncOp → PathIndex → PathIndex
index_paths i [] index = index
index_paths i (op ∷ ops) index =
    let k : Text × Text = (op.target_drive_id, op.path) in
    index_paths (i + 1) ops (Map.insert k (value_or [] (Map.lookup k index) ++ i ∷ []) index)

-- Is `jp` below the directory `dir`?
unfoldable pub is_below : Text → Text → Bool
is_below dir jp =
    ltb (length dir + 1) (length jp)
    && ((prefix (length dir) jp =? dir) && (value_or 0 (get_elem? jp (length dir)) == 47))

-- The edges of a MKDIR at the position `i`, to the operations from the position `j`.
unfoldable pub mkdir_edges : ℕ → SyncOp → ℕ → List SyncOp → Graph → Graph
mkdir_edges i op j [] g = g
mkdir_edges i op j (o ∷ ops) g = mkdir_edges i op (j + 1) ops (
    if (i == j) || not (o.target_drive_id =? op.target_drive_id)
    then g
    else if is_below op.path o.path
    then add_edge i j g
    else g)

-- The edges of a RENAME to the operations on its new path.
unfoldable pub rename_edges : ℕ → List ℕ → Graph → Graph
rename_edges i [] g = g
rename_edges i (j ∷ js) g = rename_edges i js (if not (i == j) then add_edge i j g else g)

abbrev pub is_remove : Option SyncOp → Bool
is_remove none = false
is_remove (some op) = elim op.type [ remove ↦ true | _ ↦ false ]

-- The edges of a COPY or REPLACE to the REMOVE operations on its path.
unfoldable pub copy_edges : ℕ → List SyncOp → List ℕ → Graph → Graph
copy_edges i ops [] g = g
copy_edges i ops (j ∷ js) g =
    copy_edges i ops js (if not (i == j) && is_remove (get_elem? ops j) then add_edge i j g else g)

abbrev pub positions : PathIndex → Text → Text → List ℕ
positions index drive_id path = value_or [] (Map.lookup (drive_id, path) index)

unfoldable pub op_edges : List SyncOp → PathIndex → ℕ → SyncOp → Graph → Graph
op_edges ops index i op g = elim op.type [
  | mkdir ↦ mkdir_edges i op 0 ops g
  | rename ↦ elim op.new_path [
    | none ↦ g
    | some path ↦ rename_edges i (positions index op.target_drive_id path) g
  ]
  | remove ↦ g
  | _ ↦ copy_edges i ops (positions index op.target_drive_id op.path) g
]

unfoldable pub edges : List SyncOp → PathIndex → ℕ → List SyncOp → Graph → Graph
edges ops index i [] g = g
edges ops index i (op ∷ rest) g = edges ops index (i + 1) rest (op_edges ops index i op g)

abbrev pub no_edges : ℕ → Graph
no_edges n = record { adj = replicate n []; in_degree = replicate n 0 }

unfoldable pub graph : List SyncOp → Graph
graph ops = edges ops (index_paths 0 ops []) 0 ops (no_edges (length ops))

-- The nodes of in-degree 0, from the position `i`.
unfoldable pub roots : ℕ → List ℕ → List ℕ
roots i [] = []
roots i (d ∷ ds) = let rest = roots (i + 1) ds in if d == 0 then i ∷ rest else rest

-- The loop over the edges of a node: `--in_degree[j]` on a `size_t`.
unfoldable pub release : List ℕ → List ℕ → List ℕ → List ℕ × List ℕ
release [] in_degree queue = (in_degree, queue)
release (j ∷ js) in_degree queue = elim (value_or 0 (get_elem? in_degree j)) [
  | zero ↦ release js (set in_degree j (2 ^ 64 - 1)) queue
  | suc zero ↦ release js (set in_degree j 0) (queue ++ j ∷ [])
  | suc (suc d) ↦ release js (set in_degree j (suc d)) queue
]

-- `sorted.push_back(ops[i])`
abbrev pub push_op : List SyncOp → ℕ → List SyncOp → List SyncOp
push_op ops i sorted = elim (get_elem? ops i) [ none ↦ sorted | some op ↦ sorted ++ op ∷ [] ]

-- The loop over the queue from its head; it returns the in-degrees and the order.
unfoldable pub drain :
    List SyncOp → List (List ℕ) → ℕ → List ℕ → List ℕ → List SyncOp → List ℕ × List SyncOp
drain ops adj zero queue in_degree sorted = (in_degree, sorted)
drain ops adj (suc fuel) [] in_degree sorted = (in_degree, sorted)
drain ops adj (suc fuel) (i ∷ queue) in_degree sorted =
    let (degrees, later) = release (value_or [] (get_elem? adj i)) in_degree queue in
    drain ops adj fuel later degrees (push_op ops i sorted)

-- The cycle guard.
unfoldable pub append_rest : List SyncOp → List ℕ → List SyncOp → List SyncOp
append_rest [] degrees sorted = sorted
append_rest (op ∷ ops) [] sorted = sorted
append_rest (op ∷ ops) (d ∷ degrees) sorted =
    append_rest ops degrees (if not (d == 0) then sorted ++ op ∷ [] else sorted)

unfoldable pub topological_sort : List SyncOp → List SyncOp
topological_sort ops =
    let g = graph ops in
    let (degrees, sorted) = drain ops g.adj (length ops) (roots 0 g.in_degree) g.in_degree [] in
    if ltb (length sorted) (length ops) then append_rest ops degrees sorted else sorted
