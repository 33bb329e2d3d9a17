-- ===== src/Merkle/Shuffles.antt =====
-- Directory hashes of src/merkle_engine.cpp and the order of the children.
use caravault.Base.{
  ◌≡◌, refl, ◌∙◌, ap, List, [], ◌∷◌, =?_refl, Text, text_ord, cmp_text_iff, cmp_text_swap,
  cmp_text_swap', cmp_text_trans, arith,
}
use caravault.Merkle.{
  MerkleNode, Children, node, child_hashes, insert_sorted, sort, concatenate,
  compute_directory_hash, diff, diff_fuel, depth, no_diff,
}

-- The same items, in another order.
pub data Shuffle {ℓ} {A : Type ℓ} : List A → List A → Type ℓ where
  none : Shuffle [] []
  keep : (x : A) {xs ys : List A} → Shuffle xs ys → Shuffle (x ∷ xs) (x ∷ ys)
  swap : (x y : A) (xs : List A) → Shuffle (x ∷ y ∷ xs) (y ∷ x ∷ xs)
  chain : {xs ys zs : List A} → Shuffle xs ys → Shuffle ys zs → Shuffle xs zs

insert_sorted_comm :
    (a b : Text) (s : List Text)
    → insert_sorted a (insert_sorted b s) ≡ insert_sorted b (insert_sorted a s)
unfolding insert_sorted
insert_sorted_comm a b [] = ground (
  arith,
  cmp_text_iff a b,
  cmp_text_swap a b,
  cmp_text_swap' a b,
  cmp_text_swap b a,
  cmp_text_swap' b a,
  cmp_text_iff b a,
)
insert_sorted_comm a b (k ∷ s) = ground (
  arith,
  insert_sorted_comm a b s,
  cmp_text_iff a b,
  cmp_text_iff b a,
  cmp_text_swap a b,
  cmp_text_swap' a b,
  cmp_text_iff a k,
  cmp_text_iff b k,
  cmp_text_trans a b k,
  cmp_text_trans b a k,
  cmp_text_trans a k b,
  cmp_text_trans b k a,
  cmp_text_swap a k,
  cmp_text_swap b k,
  cmp_text_swap' a k,
  cmp_text_swap' b k,
)

sort-Shuffle : {xs ys : List Text} → Shuffle xs ys → sort xs ≡ sort ys
unfolding sort
sort-Shuffle none = refl
sort-Shuffle (keep x s) = ap (insert_sorted x) (sort-Shuffle s)
sort-Shuffle (swap x y xs) = insert_sorted_comm x y (sort xs)
sort-Shuffle (chain s t) = sort-Shuffle s ∙ sort-Shuffle t

compute_directory_hash-Shuffle :
    (sha256 : Text → Text) (xs ys : List Text)
    → Shuffle xs ys
    → compute_directory_hash sha256 xs ≡ compute_directory_hash sha256 ys
unfolding compute_directory_hash
compute_directory_hash-Shuffle sha256 xs ys s = ap (λ zs. sha256 (concatenate zs)) (sort-Shuffle s)

-- A directory as `build_node` makes it.
abbrev pub directory_node : (Text → Text) → Text → Children → MerkleNode
directory_node sha256 path children =
    node path (compute_directory_hash sha256 (child_hashes children)) 1 children

-- Two directories whose children have the same hashes, in whatever order and under whatever names, have
-- no differences.
pub diff-Shuffle :
    (sha256 : Text → Text) (path1 path2 : Text) (children1 children2 : Children)
    → Shuffle (child_hashes children1) (child_hashes children2)
    → diff (directory_node sha256 path1 children1) (directory_node sha256 path2 children2) ≡ no_diff
unfolding diff diff_fuel depth
diff-Shuffle sha256 path1 path2 children1 children2 s =
    rw (compute_directory_hash-Shuffle sha256 (child_hashes children1) (child_hashes children2) s)
      (rw (=?_refl (compute_directory_hash sha256 (child_hashes children2))) refl)
