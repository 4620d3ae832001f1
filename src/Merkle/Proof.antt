-- ===== src/Merkle/Proof.antt =====
-- utils/merkle-tree.ts: the fold of a proof that the tree gives.
use huski_bsc_contract.Base.{
  ℕ, zero, suc, ◌+◌, ◌-◌, ◌/◌, ◌≤◌, ◌≡◌, refl, sym, ◌∙◌, ap, inl, inr, Option, none, some, List, [],
  ◌∷◌, ◌++◌, append_assoc, append-nil, arith, length, get_elem?, get_elem?-lt_length,
  get_elem?-of_lt, Bytes, leb_bytes_antisymm, leb_bytes-total, ok,
}
use huski_bsc_contract.Merkle.{
  Crypto, sort_and_concat, combined_hash, grow_layers, get_pair_element, push_pair, collect_proof,
  last_head, fold_proof,
}
use huski_bsc_contract.Merkle.Layers.{pair_up, length-pair_up, grow_layers-zero, grow_layers-inv}

-- The pair is hashed in its sorted order, so its sides may be swapped.
pub sort_and_concat_comm : (a b : Bytes) → sort_and_concat a b ≡ sort_and_concat b a
unfolding sort_and_concat
sort_and_concat_comm a b =
    ground (arith, leb_bytes_antisymm a b, leb_bytes-total a b, leb_bytes-total b a)

push_pair-append :
    (o : Option Bytes) (proof : List Bytes) → push_pair o proof ≡ proof ++ push_pair o []
unfolding push_pair
push_pair-append none proof = sym (append-nil proof)
push_pair-append (some pair) proof = refl

collect_proof-append :
    (idx : ℕ) (layers : List (List Bytes)) (proof : List Bytes)
    → collect_proof idx layers proof ≡ proof ++ collect_proof idx layers []
unfolding collect_proof
collect_proof-append idx [] proof = sym (append-nil proof)
collect_proof-append idx (layer ∷ layers) proof =
    let pushed = push_pair (get_pair_element idx layer) in
    collect_proof-append (idx / 2) layers (pushed proof)
    ∙ ap (λ p. p ++ collect_proof (idx / 2) layers [])
        (push_pair-append (get_pair_element idx layer) proof)
    ∙ append_assoc proof (pushed []) (collect_proof (idx / 2) layers [])
    ∙ ap (◌++◌ proof) (sym (collect_proof-append (idx / 2) layers (pushed [])))

get_elem?-shift :
    (a b : Bytes) (layer : List Bytes) (i j : ℕ)
    → i ≡ suc (suc j)
    → get_elem? (a ∷ b ∷ layer) i ≡ get_elem? layer j
get_elem?-shift a b layer i j e = rw e refl

-- Two nodes further on, the sibling stands two nodes further on.
get_pair_element-shift :
    (idx : ℕ) (a b : Bytes) (layer : List Bytes)
    → get_pair_element (suc (suc idx)) (a ∷ b ∷ layer) ≡ get_pair_element idx layer
unfolding get_pair_element
get_pair_element-shift idx a b layer = ground (
  arith,
  get_elem?-shift a b layer (suc (suc idx) + 1) (idx + 1),
  get_elem?-shift a b layer (suc (suc idx) - 1) (idx - 1),
)

module _ (c : Crypto) where
  fold_proof-append :
      (start : Option Bytes) (p q : List Bytes)
      → fold_proof c start (p ++ q) ≡ fold_proof c (fold_proof c start p) q
  unfolding fold_proof
  fold_proof-append start [] q = refl
  fold_proof-append start (item ∷ p) q = fold_proof-append (combined_hash c start (some item)) p q

  -- One layer of the proof leads from a node to its parent.
  fold-parent :
      (layer : List Bytes) (idx : ℕ) {el : Bytes}
      → get_elem? layer idx ≡ some el
      → fold_proof c (some el) (push_pair (get_pair_element idx layer) [])
        ≡ get_elem? (pair_up c layer) (idx / 2)
  unfolding fold_proof combined_hash push_pair get_pair_element pair_up
  fold-parent [] idx h = absurd (ground arith)
  fold-parent (a ∷ []) zero h = ground arith
  fold-parent (a ∷ []) (suc idx) h = absurd (ground arith)
  fold-parent (a ∷ b ∷ rest) zero h = ground arith
  fold-parent (a ∷ b ∷ rest) (suc zero) h = ground (arith, sort_and_concat_comm a b)
  fold-parent (a ∷ b ∷ rest) (suc (suc idx)) h =
      let half : suc (suc idx) / 2 ≡ suc (idx / 2) = omega arith in
      rw (get_pair_element-shift idx a b rest) (rw half (fold-parent rest idx h))

  fold-step :
      (layer : List Bytes) (idx : ℕ) (rest : List (List Bytes)) {el : Bytes}
      → get_elem? layer idx ≡ some el
      → fold_proof c (some el) (collect_proof idx (layer ∷ rest) [])
        ≡ fold_proof c (get_elem? (pair_up c layer) (idx / 2)) (collect_proof (idx / 2) rest [])
  unfolding collect_proof
  fold-step layer idx rest {el} h =
      let pushed = push_pair (get_pair_element idx layer) [] in
      ap (fold_proof c (some el)) (collect_proof-append (idx / 2) rest pushed)
      ∙ fold_proof-append (some el) pushed (collect_proof (idx / 2) rest [])
      ∙ ap (λ n. fold_proof c n (collect_proof (idx / 2) rest [])) (fold-parent layer idx h)

  -- A last layer of one node: no sibling, and the node is the root.
  fold-last :
      (layer : List Bytes) (idx : ℕ) {el : Bytes}
      → length layer ≤ 1
      → get_elem? layer idx ≡ some el
      → fold_proof c (some el) (collect_proof idx (layer ∷ []) []) ≡ get_elem? layer 0
  unfolding fold_proof collect_proof get_pair_element push_pair
  fold-last [] idx short h = absurd (ground arith)
  fold-last (a ∷ []) zero short h = ground arith
  fold-last (a ∷ []) (suc idx) short h = absurd (ground arith)
  fold-last (a ∷ b ∷ rest) idx short h = absurd (omega arith)

  pub last_head-grow_layers :
      (fuel : ℕ) (layer below : List Bytes) {rest : List (List Bytes)}
      → grow_layers c fuel layer ≡ ok rest
      → last_head (below ∷ rest) ≡ last_head rest
  unfolding last_head
  last_head-grow_layers zero layer below h = absurd (grow_layers-zero c layer h)
  last_head-grow_layers (suc fuel) layer below h = elim (grow_layers-inv c fuel layer h) [
    | inl (short, done) ↦ rw done refl
    | inr (rest, more, e', h') ↦ rw e' refl
  ]

  -- From any node of the lowest layer the collected proof leads to the last layer's first node.
  pub fold-collect_proof :
      (fuel : ℕ) (layer : List Bytes) {layers : List (List Bytes)} (idx : ℕ) {el : Bytes}
      → grow_layers c fuel layer ≡ ok layers
      → get_elem? layer idx ≡ some el
      → fold_proof c (some el) (collect_proof idx layers []) ≡ last_head layers
  unfolding last_head
  fold-collect_proof zero layer idx h e = absurd (grow_layers-zero c layer h)
  fold-collect_proof (suc fuel) layer idx {el} h e = elim (grow_layers-inv c fuel layer h) [
    | inl (short, done) ↦ rw done (fold-last layer idx short e)
    | inr (rest, more, e', h') ↦
        let (parent, at) =
          get_elem?-of_lt (pair_up c layer) (idx / 2)
            (omega (arith, length-pair_up c layer, get_elem?-lt_length layer idx e)) in
        rw e' (
          fold-step layer idx rest e
          ∙ ap (λ n. fold_proof c n (collect_proof (idx / 2) rest [])) at
          ∙ fold-collect_proof fuel (pair_up c layer) (idx / 2) h' at
          ∙ sym (last_head-grow_layers fuel (pair_up c layer) layer h'))
  ]
