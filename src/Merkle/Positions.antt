-- ===== src/Merkle/Positions.antt =====
-- utils/merkle-tree.ts: `bufferElementPositionIndex` at the leaves and at other buffers.
use huski_bsc_contract.Base.{
  ℕ, zero, suc, ◌+◌, ◌≡◌, refl, ◌∙◌, ap, true, false, inl, inr, none, some, List, [], ◌∷◌, arith,
  Bool-cases, Option-cases, if◌then◌else◌, get_elem?, Bytes, bytes_eq, bytes_eq_refl, bytes_eq-eq,
}
use huski_bsc_contract.Merkle.{Crypto, IsFaithfulHex, lookup, assign, index_positions}
use huski_bsc_contract.Merkle.Sort.{contains}

-- An assignment is seen at its own key only.
pub lookup-assign {ℓ} :
    {V : Type ℓ} (k j : Bytes) (v : V) (m : List (Bytes × V))
    → lookup k (assign j v m) ≡ (if bytes_eq j k then some v else lookup k m)
unfolding lookup assign
lookup-assign k j v [] = refl
lookup-assign k j v ((i, w) ∷ m) = elim (Bool-cases (bytes_eq i j)) [
  | inl same ↦ rw same (rw (bytes_eq-eq i j same) (ground arith))
  | inr other ↦
      ground
        (arith, other, bytes_eq-eq j k, bytes_eq-eq i k, bytes_eq_refl k, lookup-assign k j v m)
]

module _ (c : Crypto) where
  -- Every entry stands for a leaf with that hex text.
  abbrev IsSound : List Bytes → List (Bytes × ℕ) → Type 0
  IsSound arr m =
      (k : Bytes) (i : ℕ)
      → lookup k m ≡ some i
      → (el : Bytes) × (get_elem? arr i ≡ some el) × (c.buffer_to_hex el ≡ k)

  assign-IsSound :
      (arr : List Bytes) (el : Bytes) (i : ℕ) (m : List (Bytes × ℕ))
      → get_elem? arr i ≡ some el
      → IsSound arr m
      → IsSound arr (assign (c.buffer_to_hex el) i m)
  assign-IsSound arr el i m at s k j h = elim (Bool-cases (bytes_eq (c.buffer_to_hex el) k)) [
    | inl same ↦
        let e : some i ≡ some j =
          ground (arith, h, same, lookup-assign k (c.buffer_to_hex el) i m) in
        (el, ground (arith, at), bytes_eq-eq (c.buffer_to_hex el) k same)
    | inr other ↦ s k j (ground (arith, h, other, lookup-assign k (c.buffer_to_hex el) i m))
  ]

  index_positions-IsSound :
      (arr rest : List Bytes) (idx : ℕ) (m : List (Bytes × ℕ))
      → ((k : ℕ) → get_elem? arr (idx + k) ≡ get_elem? rest k)
      → IsSound arr m
      → IsSound arr (index_positions c rest idx m)
  unfolding index_positions
  index_positions-IsSound arr [] idx m h s = s
  index_positions-IsSound arr (x ∷ rest) idx m h s =
      index_positions-IsSound arr rest (idx + 1) (assign (c.buffer_to_hex x) idx m)
        (λ k. ap (get_elem? arr) (omega arith) ∙ h (suc k))
        (assign-IsSound arr x idx m (ap (get_elem? arr) (omega arith) ∙ h 0) s)

  -- Later leaves may overwrite an entry, and never remove it.
  index_positions-keeps :
      (k : Bytes) (rest : List Bytes) (idx : ℕ) (m : List (Bytes × ℕ)) {i : ℕ}
      → lookup k m ≡ some i
      → (j : ℕ) × (lookup k (index_positions c rest idx m) ≡ some j)
  unfolding index_positions
  index_positions-keeps k [] idx m {i} h = (i, h)
  index_positions-keeps k (x ∷ rest) idx m {i} h =
      elim (Bool-cases (bytes_eq (c.buffer_to_hex x) k)) [
        | inl same ↦
            index_positions-keeps k rest (idx + 1) (assign (c.buffer_to_hex x) idx m) {i = idx}
              (ground (arith, same, lookup-assign k (c.buffer_to_hex x) idx m))
        | inr other ↦
            index_positions-keeps k rest (idx + 1) (assign (c.buffer_to_hex x) idx m) {i = i}
              (ground (arith, h, other, lookup-assign k (c.buffer_to_hex x) idx m))
      ]

  index_positions-has :
      (el : Bytes) (rest : List Bytes) (idx : ℕ) (m : List (Bytes × ℕ))
      → contains el rest ≡ true
      → (j : ℕ) × (lookup (c.buffer_to_hex el) (index_positions c rest idx m) ≡ some j)
  unfolding index_positions contains
  index_positions-has el [] idx m h = absurd (ground arith)
  index_positions-has el (x ∷ rest) idx m h = elim (Bool-cases (bytes_eq x el)) [
    | inl same ↦
        let k = c.buffer_to_hex el in
        let at : lookup k (assign (c.buffer_to_hex x) idx m) ≡ some idx =
          rw (bytes_eq-eq x el same) (lookup-assign k k idx m ∙ rw (bytes_eq_refl k) refl) in
        index_positions-keeps k rest (idx + 1) (assign (c.buffer_to_hex x) idx m) at
    | inr other ↦
        index_positions-has el rest (idx + 1) (assign (c.buffer_to_hex x) idx m) (ground (arith, h))
  ]

  contains-get_elem? :
      (el : Bytes) (l : List Bytes) (i : ℕ) → get_elem? l i ≡ some el → contains el l ≡ true
  unfolding contains
  contains-get_elem? el [] i h = absurd (ground arith)
  contains-get_elem? el (x ∷ l) zero h = ground (arith, bytes_eq_refl x)
  contains-get_elem? el (x ∷ l) (suc i) h = ground (arith, contains-get_elem? el l i)

  nothing : (arr : List Bytes) → IsSound arr []
  unfolding lookup
  nothing arr k i h = absurd (ground arith)

  -- A leaf is found, at a place where it stands.
  pub lookup-leaf :
      (el : Bytes) (l : List Bytes)
      → IsFaithfulHex c
      → contains el l ≡ true
      → (i : ℕ) × (lookup (c.buffer_to_hex el) (index_positions c l 0 []) ≡ some i)
        × (get_elem? l i ≡ some el)
  lookup-leaf el l faithful h =
      let (i, at) = index_positions-has el l 0 [] h in
      let (el', place, same) =
        index_positions-IsSound l l 0 [] (λ k. ap (get_elem? l) (omega arith)) (nothing l)
          (c.buffer_to_hex el) i at in
      (i, at, place ∙ ap some (faithful el' el same))

  -- No other buffer is found.
  pub lookup-other :
      (el : Bytes) (l : List Bytes)
      → IsFaithfulHex c
      → contains el l ≡ false
      → lookup (c.buffer_to_hex el) (index_positions c l 0 []) ≡ none
  lookup-other el l faithful h =
      elim (Option-cases (lookup (c.buffer_to_hex el) (index_positions c l 0 []))) [
        | inl absent ↦ absent
        | inr (i, at) ↦
            let (el', place, same) =
              index_positions-IsSound l l 0 [] (λ k. ap (get_elem? l) (omega arith)) (nothing l)
                (c.buffer_to_hex el) i at in
            let e : el' ≡ el = faithful el' el same in
            absurd (cc (h, contains-get_elem? el l i (place ∙ ap some e)))
      ]
