-- ===== src/Merkle/Layers.antt =====
-- utils/merkle-tree.ts: `getNextLayer` pairs neighbours, and the loop of `getLayers` ends.
use huski_bsc_contract.Base.{
  ℕ, zero, suc, ◌+◌, ◌/◌, ◌%◌, ◌≤◌, ◌<◌, ◌≡◌, refl, sym, ◌∙◌, ap, List, [], ◌∷◌, ◌++◌, append_assoc,
  append-nil, arith, dec_lt, ◌⊎◌, length, get_elem?, Bytes, ok,
}
use huski_bsc_contract.Merkle.{Crypto, sort_and_concat, reduce_layer, get_next_layer, grow_layers}

module _ (c : Crypto) where
  -- The nodes over a layer: neighbours joined from the left, a last odd one handed up.
  unfoldable pub pair_up : List Bytes → List Bytes
  pair_up [] = []
  pair_up (a ∷ []) = a ∷ []
  pair_up (a ∷ b ∷ rest) = c.keccak256 (sort_and_concat a b) ∷ pair_up rest

  -- The index reads `arr` where `rest` begins.
  reduce_layer-pair_up :
      (arr rest : List Bytes) (idx : ℕ) (layer : List Bytes)
      → ((k : ℕ) → get_elem? arr (idx + k) ≡ get_elem? rest k)
      → idx % 2 ≡ 0
      → reduce_layer c arr rest idx layer ≡ layer ++ pair_up rest
  unfolding reduce_layer pair_up
  reduce_layer-pair_up arr [] idx layer h even = sym (append-nil layer)
  reduce_layer-pair_up arr (a ∷ []) idx layer h even = ground (arith, h 1)
  reduce_layer-pair_up arr (a ∷ b ∷ rest) idx layer h even =
      let tail : (k : ℕ) → get_elem? arr (idx + 1 + 1 + k) ≡ get_elem? rest k =
        λ k. ap (get_elem? arr) (omega arith) ∙ h (suc (suc k)) in
      ground (
        arith,
        h 1,
        append_assoc layer (c.keccak256 (sort_and_concat a b) ∷ []) (pair_up rest),
        reduce_layer-pair_up arr rest (idx + 1 + 1)
            (layer ++ c.keccak256 (sort_and_concat a b) ∷ []) tail,
      )

  pub get_next_layer-pair_up : (l : List Bytes) → get_next_layer c l ≡ pair_up l
  unfolding get_next_layer
  get_next_layer-pair_up l =
      reduce_layer-pair_up l l 0 [] (λ k. ap (get_elem? l) (omega arith)) refl

  pub length-pair_up : (l : List Bytes) → length (pair_up l) ≡ (length l + 1) / 2
  unfolding pair_up
  length-pair_up [] = omega arith
  length-pair_up (a ∷ []) = omega arith
  length-pair_up (a ∷ b ∷ rest) = omega (arith, length-pair_up rest)

  -- The loop goes round once more, over the next layer, or stops.
  pub grow_layers_more :
      (fuel : ℕ) (layer : List Bytes) {rest : List (List Bytes)}
      → 1 < length layer
      → grow_layers c fuel (pair_up layer) ≡ ok rest
      → grow_layers c (suc fuel) layer ≡ ok (layer ∷ rest)
  unfolding grow_layers
  grow_layers_more fuel layer more h = ground (arith, get_next_layer-pair_up layer)

  pub grow_layers_stop :
      (fuel : ℕ) (layer : List Bytes)
      → length layer ≤ 1
      → grow_layers c (suc fuel) layer ≡ ok (layer ∷ [])
  unfolding grow_layers
  grow_layers_stop fuel layer done = ground arith

  -- Fuel for as many rounds as there are nodes is enough.
  pub grow_layers_total :
      (fuel : ℕ) (layer : List Bytes)
      → length layer ≤ fuel
      → 1 ≤ fuel
      → (layers : List (List Bytes)) × (grow_layers c fuel layer ≡ ok layers)
  grow_layers_total zero layer h k = absurd (omega arith)
  grow_layers_total (suc fuel) layer h k = elim (dec_lt 1 (length layer)) [
    | yes more ↦
        let (layers, e) =
          grow_layers_total fuel (pair_up layer) (omega (arith, length-pair_up layer))
            (omega arith) in
        (layer ∷ layers, grow_layers_more fuel layer more e)
    | no done ↦ (layer ∷ [], grow_layers_stop fuel layer (omega arith))
  ]

  pub grow_layers-inv :
      (fuel : ℕ) (layer : List Bytes) {layers : List (List Bytes)}
      → grow_layers c (suc fuel) layer ≡ ok layers
      → ((length layer ≤ 1) × (layers ≡ layer ∷ []))
        ⊎ ((rest : List (List Bytes)) × (1 < length layer)
            × (layers ≡ layer ∷ rest)
            × (grow_layers c fuel (pair_up layer) ≡ ok rest))
  unfolding grow_layers
  grow_layers-inv fuel layer h = ground (arith, get_next_layer-pair_up layer)

  pub grow_layers-zero :
      (layer : List Bytes) {layers : List (List Bytes)} → ¬ (grow_layers c 0 layer ≡ ok layers)
  unfolding grow_layers
  grow_layers-zero layer h = absurd (ground arith)
