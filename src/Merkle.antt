-- ===== src/Merkle.antt =====
-- utils/merkle-tree.ts: `class MerkleTree`. A `Buffer` is a list of bytes; `keccak256` and
-- `bufferToHex` are functions of the package ethereumjs-util, so they are fields of `Crypto`.
-- The children are about the order of the leaves, the loop, the fold of a proof, the index of the
-- leaves and the tree as a whole.
pub mod Sort
pub mod Layers
pub mod Proof
pub mod Positions
pub mod Tree
use huski_bsc_contract.Base.{
  ℕ, zero, suc, ◌+◌, ◌-◌, ◌/◌, ◌%◌, ◌≡◌, Bool, true, false, not, ◌||◌, Option, none, some, List, [],
  ◌∷◌, ◌++◌, ltb, ◌==◌, if◌then◌else◌, length, get_elem?, Bytes, bytes_eq, leb_bytes, Result, ok,
  err,
}

-- What the tree uses of ethereumjs-util.
pub record Crypto : Type 0 where
  pub keccak256 : Bytes → Bytes
  pub buffer_to_hex : Bytes → Bytes

-- Two buffers have one hex text only if they are the same buffer.
abbrev pub IsFaithfulHex : Crypto → Type 0
IsFaithfulHex c = (a b : Bytes) → c.buffer_to_hex a ≡ c.buffer_to_hex b → a ≡ b

pub data TreeError : Type 0 where
  empty_tree not_in_tree out_of_fuel : TreeError

-- `elements.sort(Buffer.compare)`: the one ascending arrangement.
unfoldable pub insert_sorted : Bytes → List Bytes → List Bytes
insert_sorted x [] = x ∷ []
insert_sorted x (y ∷ ys) = if leb_bytes x y then x ∷ y ∷ ys else y ∷ insert_sorted x ys

unfoldable pub sort_bytes : List Bytes → List Bytes
sort_bytes [] = []
sort_bytes (x ∷ xs) = insert_sorted x (sort_bytes xs)

-- `bufDedup`: an element stays at index 0, or where the one before it differs.
dedup_after : Bytes → List Bytes → List Bytes
dedup_after prev [] = []
dedup_after prev (el ∷ rest) =
    if not (bytes_eq prev el) then el ∷ dedup_after el rest else dedup_after el rest

pub buf_dedup : List Bytes → List Bytes
unfolding dedup_after
buf_dedup [] = []
buf_dedup (el ∷ rest) = el ∷ dedup_after el rest

-- `sortAndConcat(first, second)`
pub sort_and_concat : Bytes → Bytes → Bytes
sort_and_concat first second = if leb_bytes first second then first ++ second else second ++ first

-- An object with string keys; `memo[key] = value` overwrites.
unfoldable pub lookup {ℓ} : {V : Type ℓ} → Bytes → List (Bytes × V) → Option V
lookup k [] = none
lookup k ((j, v) ∷ m) = if bytes_eq j k then some v else lookup k m

unfoldable pub assign {ℓ} : {V : Type ℓ} → Bytes → V → List (Bytes × V) → List (Bytes × V)
assign k v [] = (k, v) ∷ []
assign k v ((j, w) ∷ m) = if bytes_eq j k then (k, v) ∷ m else (j, w) ∷ assign k v m

pub record MerkleTree : Type 0 where
  pub elements : List Bytes
  pub positions : List (Bytes × ℕ)
  pub layers : List (List Bytes)

-- `getPairElement`: `idx - 1` only where `idx` is odd.
pub get_pair_element : ℕ → List Bytes → Option Bytes
get_pair_element idx layer =
    let pair_idx = if idx % 2 == 0 then idx + 1 else idx - 1 in
    if ltb pair_idx (length layer) then get_elem? layer pair_idx else none

-- `proof.push(pairElement)` where there is one
push_pair : Option Bytes → List Bytes → List Bytes
push_pair none proof = proof
push_pair (some pair) proof = proof ++ pair ∷ []

-- the `reduce` of `getProof`, with the proof so far
pub collect_proof : ℕ → List (List Bytes) → List Bytes → List Bytes
unfolding push_pair get_pair_element
collect_proof idx [] proof = proof
collect_proof idx (layer ∷ layers) proof =
    collect_proof (idx / 2) layers (push_pair (get_pair_element idx layer) proof)

-- `getRoot`: the first node of the last layer; `none` is `undefined`.
pub last_head : List (List Bytes) → Option Bytes
last_head [] = none
last_head (layer ∷ []) = get_elem? layer 0
last_head (layer ∷ next ∷ rest) = last_head (next ∷ rest)

unfoldable pub get_root : MerkleTree → Option Bytes
unfolding last_head
get_root t = last_head t.layers

module _ (c : Crypto) where
  -- `combinedHash`: an absent sibling hands the other node up.
  pub combined_hash : Option Bytes → Option Bytes → Option Bytes
  unfolding sort_and_concat
  combined_hash none second = second
  combined_hash (some first) none = some first
  combined_hash (some first) (some second) = some (c.keccak256 (sort_and_concat first second))

  -- `layer.push(node)`; `combinedHash(el, …)` is never `undefined`, since `el` is a buffer.
  push_node : Option Bytes → List Bytes → List Bytes
  push_node none layer = layer
  push_node (some node) layer = layer ++ node ∷ []

  -- the `reduce` of `getNextLayer`: `rest` is what is left of `arr`, from index `idx` on
  reduce_layer : List Bytes → List Bytes → ℕ → List Bytes → List Bytes
  unfolding push_node combined_hash
  reduce_layer arr [] idx layer = layer
  reduce_layer arr (el ∷ rest) idx layer = reduce_layer arr rest (idx + 1) (
      if idx % 2 == 0
      then push_node (combined_hash (some el) (get_elem? arr (idx + 1))) layer
      else layer)

  pub get_next_layer : List Bytes → List Bytes
  unfolding reduce_layer
  get_next_layer elements = reduce_layer elements elements 0 []

  -- The `while`, on fuel: the layers from this one up to the first that has one node at most.
  pub grow_layers : ℕ → List Bytes → Result TreeError (List (List Bytes))
  unfolding get_next_layer
  grow_layers zero layer = err out_of_fuel
  grow_layers (suc fuel) layer = elim (ltb 1 (length layer)) [
    | false ↦ ok (layer ∷ [])
    | true ↦ elim (grow_layers fuel (get_next_layer layer)) [
      | ok layers ↦ ok (layer ∷ layers)
      | err e ↦ err e
    ]
  ]

  -- Each round halves the layer, so its length is fuel enough.
  pub get_layers : List Bytes → Result TreeError (List (List Bytes))
  unfolding grow_layers
  get_layers [] = err empty_tree
  get_layers (el ∷ elements) = grow_layers (length (el ∷ elements)) (el ∷ elements)

  -- the `reduce` that fills `bufferElementPositionIndex`
  pub index_positions : List Bytes → ℕ → List (Bytes × ℕ) → List (Bytes × ℕ)
  unfolding assign
  index_positions [] index memo = memo
  index_positions (el ∷ rest) index memo =
      index_positions rest (index + 1) (assign (c.buffer_to_hex el) index memo)

  -- the fields of the tree over its leaves
  pub tree_of_leaves : List Bytes → Result TreeError MerkleTree
  unfolding index_positions get_layers
  tree_of_leaves elements = elim (get_layers elements) [
    | ok layers ↦
        ok (record {
          elements = elements;
          positions = index_positions elements 0 [];
          layers = layers;
        })
    | err e ↦ err e
  ]

  -- the constructor
  unfoldable pub build_tree : List Bytes → Result TreeError MerkleTree
  unfolding sort_bytes insert_sorted buf_dedup tree_of_leaves
  build_tree raw = tree_of_leaves (buf_dedup (sort_bytes raw))

  unfoldable pub get_proof : MerkleTree → Bytes → Result TreeError (List Bytes)
  unfolding lookup collect_proof
  get_proof t el = elim (lookup (c.buffer_to_hex el) t.positions) [
    | none ↦ err not_in_tree
    | some idx ↦ ok (collect_proof idx t.layers [])
  ]

  -- The fold of `BalanceTree.verifyProof`, which the contract's `MerkleProof.verify` makes too.
  unfoldable pub fold_proof : Option Bytes → List Bytes → Option Bytes
  unfolding combined_hash
  fold_proof node [] = node
  fold_proof node (item ∷ proof) = fold_proof (combined_hash node (some item)) proof
