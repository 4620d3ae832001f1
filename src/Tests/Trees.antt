-- ===== src/Tests/Trees.antt =====
-- The theorems of Merkle at a tree of three leaves.
use huski_bsc_contract.Base.{
  ◌≡◌, refl, Bool, false, ◌||◌, arith, some, List, [], ◌∷◌, Bytes, bytes_eq, leb_bytes, ok, err,
}
use huski_bsc_contract.Merkle.{
  MerkleTree, empty_tree, not_in_tree, build_tree, get_proof, get_root, fold_proof, sort_bytes,
  insert_sorted, assign,
}
use huski_bsc_contract.Merkle.Sort.{contains}
use huski_bsc_contract.Merkle.Tree.{
  build_tree_total, build_tree-SameMembers, get_proof-fold_proof, get_proof_missing,
}
use huski_bsc_contract.Tests.Hashing.{crypto}

abbrev leaves : List Bytes
leaves = (5 ∷ []) ∷ (2 ∷ []) ∷ (9 ∷ []) ∷ (2 ∷ []) ∷ []

abbrev tree : MerkleTree
tree = record {
  elements = (2 ∷ []) ∷ (5 ∷ []) ∷ (9 ∷ []) ∷ [];
  positions = (2 ∷ [], 0) ∷ (5 ∷ [], 1) ∷ (9 ∷ [], 2) ∷ [];
  layers =
      ((2 ∷ []) ∷ (5 ∷ []) ∷ (9 ∷ []) ∷ [])
      ∷ ((14 ∷ 1 ∷ []) ∷ (9 ∷ []) ∷ [])
      ∷ ((31 ∷ 1 ∷ []) ∷ [])
      ∷ [];
}

tree_lem : build_tree crypto leaves ≡ ok tree
unfolding build_tree bytes_eq leb_bytes assign sort_bytes insert_sorted
tree_lem = refl

get_proof-fold_proof_example :
    (proof : List Bytes) × (get_proof crypto tree (9 ∷ []) ≡ ok proof)
    × (fold_proof crypto (some (9 ∷ [])) proof ≡ get_root tree)
unfolding contains bytes_eq
get_proof-fold_proof_example =
    get_proof-fold_proof crypto leaves tree (9 ∷ []) (λ a b h. h) tree_lem refl

get_proof_missing_example : get_proof crypto tree (3 ∷ []) ≡ err not_in_tree
unfolding contains bytes_eq
get_proof_missing_example = get_proof_missing crypto leaves tree (3 ∷ []) (λ a b h. h) tree_lem refl

same_members : (x y z : Bool) → x || (y || (z || (y || false))) ≡ z || (x || (y || false))
same_members x y z = ground arith

build_tree-SameMembers_example :
    build_tree crypto leaves ≡ build_tree crypto ((9 ∷ []) ∷ (5 ∷ []) ∷ (2 ∷ []) ∷ [])
unfolding contains
build_tree-SameMembers_example =
    build_tree-SameMembers crypto leaves ((9 ∷ []) ∷ (5 ∷ []) ∷ (2 ∷ []) ∷ [])
      λ b. same_members (bytes_eq (5 ∷ []) b) (bytes_eq (2 ∷ []) b) (bytes_eq (9 ∷ []) b)

build_tree_total_example :
    (build_tree crypto [] ≡ err empty_tree)
    × ((x : Bytes) (raw : List Bytes)
        → (t : MerkleTree) × (root : Bytes) × (build_tree crypto (x ∷ raw) ≡ ok t)
          × (get_root t ≡ some root))
build_tree_total_example = build_tree_total crypto
