-- ===== src/Merkle.antt =====
-- `MerkleNode` and `MerkleEngine` of src/merkle_engine.cpp and include/merkle_engine.hpp: directory
-- hashes, leaves and differences of trees. SHA-256 is a parameter.
pub mod Scan
pub mod Keeping
pub mod Shuffles
use caravault.Base.{
  ℕ, zero, suc, ◌+◌, max, Bool, true, false, Option, none, some, List, [], ◌∷◌, ◌++◌, ◌=?◌, ◌==◌,
  ◌&&◌, not, if◌then◌else◌, Text, text_ord, cmp_text,
}
use Prim.Native.Nat.{Ordering}
use caravault.Base.Map
use caravault.Base.Map.{Map}

-- `level` is 0 for a file and 1 for a directory.
mutual
  pub data MerkleNode : Type 0 where
    node : Text → Text → ℕ → Children → MerkleNode

  pub data Children : Type 0 where
    nil : Children
    cons : MerkleNode → Children → Children

abbrev pub path_of : MerkleNode → Text
path_of (node path hash level children) = path

abbrev pub hash_of : MerkleNode → Text
hash_of (node path hash level children) = hash

abbrev pub level_of : MerkleNode → ℕ
level_of (node path hash level children) = level

abbrev pub children_of : MerkleNode → Children
children_of (node path hash level children) = children

-- The hashes of the children, in their order.
unfoldable pub child_hashes : Children → List Text
child_hashes nil = []
child_hashes (cons n children) = hash_of n ∷ child_hashes children

unfoldable pub insert_sorted : Text → List Text → List Text
insert_sorted h [] = h ∷ []
insert_sorted h (k ∷ ks) =
    let rest = insert_sorted h ks in elim (cmp_text h k) [ Ordering.gt ↦ k ∷ rest | _ ↦ h ∷ k ∷ ks ]

-- `std::sort`
unfoldable pub sort : List Text → List Text
sort [] = []
sort (h ∷ hs) = insert_sorted h (sort hs)

unfoldable pub concatenate : List Text → Text
concatenate [] = []
concatenate (h ∷ hs) = h ++ concatenate hs

unfoldable pub compute_directory_hash : (Text → Text) → List Text → Text
compute_directory_hash sha256 hashes = sha256 (concatenate (sort hashes))

-- The leaves are appended to `out`.
unfoldable mutual
  pub collect_leaves : MerkleNode → List Text → List Text
  collect_leaves (node path hash level children) out =
      if level == 0 then out ++ path ∷ [] else collect_children children out

  pub collect_children : Children → List Text → List Text
  collect_children nil out = out
  collect_children (cons n children) out = collect_children children (collect_leaves n out)

pub record Diff : Type 0 where
  pub added : List Text
  pub modified : List Text
  pub deleted : List Text

abbrev pub no_diff : Diff
no_diff = record { added = []; modified = []; deleted = [] }

-- `map1[child.path] = &child`
unfoldable pub child_map : Children → Map Text MerkleNode → Map Text MerkleNode
child_map nil m = m
child_map (cons n children) m = child_map children (Map.insert (path_of n) n m)

-- The leaves of the nodes of one map whose paths the other lacks.
unfoldable pub collect_missing : Map Text MerkleNode → Map Text MerkleNode → List Text → List Text
collect_missing other [] out = out
collect_missing other ((path, n) ∷ m) out =
    collect_missing other m
      (elim (Map.lookup path other) [ none ↦ collect_leaves n out | some _ ↦ out ])

abbrev pub append_diff : Diff → Diff → Diff
append_diff result sub = record {
  added = result.added ++ sub.added;
  modified = result.modified ++ sub.modified;
  deleted = result.deleted ++ sub.deleted;
}

-- The loop over the paths of both maps; `sub` is the recursive call.
unfoldable pub diff_common :
    (MerkleNode → MerkleNode → Diff) → Map Text MerkleNode → Map Text MerkleNode → Diff → Diff
diff_common sub map1 [] result = result
diff_common sub map1 ((path, node2) ∷ map2) result =
    diff_common sub map1 map2 (elim (Map.lookup path map1) [
      | none ↦ result
      | some node1 ↦
          if hash_of node1 =? hash_of node2 then result else append_diff result (sub node1 node2)
    ])

unfoldable pub diff_maps :
    (MerkleNode → MerkleNode → Diff) → Map Text MerkleNode → Map Text MerkleNode → Diff
diff_maps sub map1 map2 = diff_common sub map1 map2 (record {
  added = collect_missing map1 map2 [];
  modified = [];
  deleted = collect_missing map2 map1 [];
})

-- `diff`, on fuel for its depth.
unfoldable pub diff_fuel : ℕ → MerkleNode → MerkleNode → Diff
diff_fuel zero tree1 tree2 = no_diff
diff_fuel (suc fuel) tree1 tree2 =
    let deeper =
      diff_maps (diff_fuel fuel) (child_map (children_of tree1) [])
        (child_map (children_of tree2) []) in
    if hash_of tree1 =? hash_of tree2
    then no_diff
    else if (level_of tree1 == 0) && (level_of tree2 == 0)
    then record no_diff { modified = path_of tree1 ∷ [] }
    else deeper

unfoldable mutual
  pub depth : MerkleNode → ℕ
  depth (node path hash level children) = suc (depth_children children)

  pub depth_children : Children → ℕ
  depth_children nil = 0
  depth_children (cons n children) = max (depth n) (depth_children children)

unfoldable pub diff : MerkleNode → MerkleNode → Diff
diff tree1 tree2 = diff_fuel (depth tree1) tree1 tree2
