-- ===== src/Merkle/Tree.antt =====
-- utils/merkle-tree.ts: the constructor, `getProof` and `getRoot` together.
use huski_bsc_contract.Base.{
  ℕ, zero, suc, ◌≡◌, ◌≢◌, refl, ◌∙◌, ap, true, false, inl, inr, none, some, List, [], ◌∷◌, arith,
  length, get_elem?-of_lt, ◌≤◌, Bytes, bytes_eq_refl, ok, err,
}
use huski_bsc_contract.Merkle.{
  Crypto, IsFaithfulHex, empty_tree, not_in_tree, sort_bytes, buf_dedup, lookup, grow_layers,
  get_layers, index_positions, collect_proof, last_head, MerkleTree, tree_of_leaves, build_tree,
  get_proof, get_root, fold_proof,
}
use huski_bsc_contract.Merkle.Sort.{contains, SameMembers, contains-leaves, leaves-eq}
use huski_bsc_contract.Merkle.Layers.{
  pair_up, length-pair_up, grow_layers_total, grow_layers-zero, grow_layers-inv,
}
use huski_bsc_contract.Merkle.Proof.{last_head-grow_layers, fold-collect_proof}
use huski_bsc_contract.Merkle.Positions.{lookup-leaf, lookup-other}

module _ (c : Crypto) where
  -- What the constructor has made of its argument.
  pub record IsTreeOf (raw : List Bytes) (t : MerkleTree) : Type 0 where
    pub leaves : t.elements ≡ buf_dedup (sort_bytes raw)
    pub indexed : t.positions ≡ index_positions c t.elements 0 []
    pub grown : get_layers c t.elements ≡ ok t.layers

  pub build_tree-IsTreeOf :
      (raw : List Bytes) {t : MerkleTree} → build_tree c raw ≡ ok t → IsTreeOf raw t
  unfolding build_tree
  build_tree-IsTreeOf raw h = ground arith

  get_layers-grow_layers :
      (l : List Bytes) {layers : List (List Bytes)}
      → get_layers c l ≡ ok layers
      → grow_layers c (length l) l ≡ ok layers
  unfolding get_layers
  get_layers-grow_layers [] h = absurd (ground arith)
  get_layers-grow_layers (x ∷ l) h = h

  get_layers_total :
      (l : List Bytes) → l ≢ [] → (layers : List (List Bytes)) × (get_layers c l ≡ ok layers)
  unfolding get_layers
  get_layers_total [] h = absurd (h refl)
  get_layers_total (x ∷ l) h =
      grow_layers_total c (length (x ∷ l)) (x ∷ l) (omega arith) (omega arith)

  nonempty_of_contains : (b : Bytes) (l : List Bytes) → contains b l ≡ true → l ≢ []
  unfolding contains
  nonempty_of_contains b [] h e = absurd (ground arith)
  nonempty_of_contains b (x ∷ l) h e = absurd (ground arith)

  contains-first : (x : Bytes) (l : List Bytes) → contains x (x ∷ l) ≡ true
  unfolding contains
  contains-first x l = ground (arith, bytes_eq_refl x)

  get_proof-found :
      (t : MerkleTree) (el : Bytes) {i : ℕ}
      → lookup (c.buffer_to_hex el) t.positions ≡ some i
      → get_proof c t el ≡ ok (collect_proof i t.layers [])
  unfolding get_proof
  get_proof-found t el h = ground arith

  get_proof-absent :
      (t : MerkleTree) (el : Bytes)
      → lookup (c.buffer_to_hex el) t.positions ≡ none
      → get_proof c t el ≡ err not_in_tree
  unfolding get_proof
  get_proof-absent t el h = ground arith

  last_head-some :
      (fuel : ℕ) (layer : List Bytes) {layers : List (List Bytes)}
      → grow_layers c fuel layer ≡ ok layers
      → 1 ≤ length layer
      → (root : Bytes) × (last_head layers ≡ some root)
  unfolding last_head
  last_head-some zero layer h k = absurd (grow_layers-zero c layer h)
  last_head-some (suc fuel) layer h k = elim (grow_layers-inv c fuel layer h) [
    | inl (short, done) ↦ rw done (get_elem?-of_lt layer 0 k)
    | inr (rest, more, e, h') ↦
        let (root, at) =
          last_head-some fuel (pair_up c layer) h' (omega (arith, length-pair_up c layer)) in
        (root, rw e (last_head-grow_layers c fuel (pair_up c layer) layer h' ∙ at))
  ]

  build_tree-of_layers :
      (raw : List Bytes) {layers : List (List Bytes)}
      → get_layers c (buf_dedup (sort_bytes raw)) ≡ ok layers
      → (t : MerkleTree) × (build_tree c raw ≡ ok t) × (t.layers ≡ layers)
  unfolding build_tree
  build_tree-of_layers raw {layers} h = (
    record {
      elements = buf_dedup (sort_bytes raw);
      positions = index_positions c (buf_dedup (sort_bytes raw)) 0 [];
      layers = layers;
    },
    ground arith,
    refl,
  )

  one_le_length : (l : List Bytes) → l ≢ [] → 1 ≤ length l
  one_le_length [] h = absurd (h refl)
  one_le_length (x ∷ l) h = omega arith

  some_tree :
      (raw : List Bytes) (x : Bytes)
      → contains x raw ≡ true
      → (t : MerkleTree) × (root : Bytes) × (build_tree c raw ≡ ok t) × (get_root t ≡ some root)
  unfolding get_root
  some_tree raw x h =
      let leaves = buf_dedup (sort_bytes raw) in
      let ne = nonempty_of_contains x leaves (contains-leaves x raw ∙ h) in
      let (layers, e) = get_layers_total leaves ne in
      let (t, built, same) = build_tree-of_layers raw e in
      let (root, at) =
        last_head-some (length leaves) leaves (get_layers-grow_layers leaves e)
          (one_le_length leaves ne) in
      (t, root, built, ap last_head same ∙ at)

  -- The constructor of a merkle tree throws the error of an empty tree on no leaves, and on one
  -- leaf or more it returns a tree that has a root: its loop ends within the fuel of one round
  -- for each leaf.
  pub build_tree_total :
      (build_tree c [] ≡ err empty_tree)
      × ((x : Bytes) (raw : List Bytes)
          → (t : MerkleTree) × (root : Bytes) × (build_tree c (x ∷ raw) ≡ ok t)
            × (get_root t ≡ some root))
  unfolding build_tree get_layers buf_dedup sort_bytes get_root
  build_tree_total = (refl, λ x raw. some_tree (x ∷ raw) x (contains-first x raw))

  -- Every tree has a root.
  pub build_tree-root :
      (raw : List Bytes) {t : MerkleTree}
      → build_tree c raw ≡ ok t
      → (root : Bytes) × (get_root t ≡ some root)
  build_tree-root [] h = absurd (cc (build_tree_total.0, h))
  build_tree-root (x ∷ raw) {t} h =
      let (t', root, built, at) = build_tree_total.1 x raw in
      let same : t ≡ t' = ground (arith, h, built) in (root, ap get_root same ∙ at)

  -- The tree is the same for any two leaf lists that have the same members, whatever their order
  -- and however often a leaf is repeated.
  pub build_tree-SameMembers :
      (l r : List Bytes) → SameMembers l r → build_tree c l ≡ build_tree c r
  unfolding build_tree
  build_tree-SameMembers l r same = ap (tree_of_leaves c) (leaves-eq l r same)

  -- In a tree built from a list of leaves, where no two buffers have one hex text, `getProof` of
  -- a leaf returns a proof, and hashing the leaf up along this proof gives the root of the tree.
  pub get_proof-fold_proof :
      (raw : List Bytes) (t : MerkleTree) (el : Bytes)
      → IsFaithfulHex c
      → build_tree c raw ≡ ok t
      → contains el raw ≡ true
      → (proof : List Bytes) × (get_proof c t el ≡ ok proof)
        × (fold_proof c (some el) proof ≡ get_root t)
  unfolding get_root
  get_proof-fold_proof raw t el faithful built h =
      let tree = build_tree-IsTreeOf raw built in
      let member : contains el t.elements ≡ true =
        ap (contains el) tree.leaves ∙ contains-leaves el raw ∙ h in
      let (i, at, place) = lookup-leaf c el t.elements faithful member in
      (
        collect_proof i t.layers [],
        get_proof-found t el (ap (lookup (c.buffer_to_hex el)) tree.indexed ∙ at),
        fold-collect_proof c (length t.elements) t.elements i
            (get_layers-grow_layers t.elements tree.grown) place,
      )

  -- In a tree built from a list of leaves, where no two buffers have one hex text, `getProof` of a
  -- buffer that is no leaf throws the error of a missing element.
  pub get_proof_missing :
      (raw : List Bytes) (t : MerkleTree) (el : Bytes)
      → IsFaithfulHex c
      → build_tree c raw ≡ ok t
      → contains el raw ≡ false
      → get_proof c t el ≡ err not_in_tree
  get_proof_missing raw t el faithful built h =
      let tree = build_tree-IsTreeOf raw built in
      let absent : contains el t.elements ≡ false =
        ap (contains el) tree.leaves ∙ contains-leaves el raw ∙ h in
      get_proof-absent t el (
        ap (lookup (c.buffer_to_hex el)) tree.indexed
        ∙ lookup-other c el t.elements faithful absent)
