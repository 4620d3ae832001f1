-- ===== src/Distributor/Bits.antt =====
-- contracts/6/token/MerkleDistributor.sol: reading and writing the bit map.
use huski_bsc_contract.Base.{
  ℕ, zero, suc, ◌/◌, ◌%◌, ◌≡◌, refl, ◌∙◌, ap, true, false, inl, inr, ltb, ◌==◌, if◌then◌else◌,
  arith, Bool-cases, test_refl, test_of_ne, eq_of_test,
}
use huski_bsc_contract.Evm.{}
use huski_bsc_contract.Distributor.{
  Word, shifted_one, bit_and, same_word, Distributor, is_claimed, set_claimed,
}

-- The test of a mask with one bit is the bit.
same_word-mask :
    (n k : ℕ) (w : Word)
    → same_word n (bit_and w (shifted_one k)) (shifted_one k) ≡ (if ltb k n then w k else true)
unfolding same_word
same_word-mask zero k w = ground arith
same_word-mask (suc n) k w = elim (Bool-cases (k == n)) [
  | inl here ↦
      let same = eq_of_test k n here in
      let bit : w k ≡ w n = ap w same in
      let rest = same_word-mask n k w in ground (arith, here, same, bit, rest)
  | inr other ↦ let rest = same_word-mask n k w in ground (arith, other, rest)
]

-- `isClaimed` reads the bit of its index.
pub is_claimed_lem :
    (d : Distributor) (index : ℕ)
    → is_claimed d index ≡ d.claimed_bit_map (index / 256) (index % 256)
unfolding is_claimed
is_claimed_lem d index =
    let small : ltb (index % 256) 256 ≡ true = ground arith in
    same_word-mask 256 (index % 256) (d.claimed_bit_map (index / 256)) ∙ rw small refl

same_place : (i j : ℕ) → i / 256 ≡ j / 256 → i % 256 ≡ j % 256 → i ≡ j
same_place i j words bits = omega (arith, words, bits)

-- `_setClaimed` marks its index, and no other.
pub is_claimed-set_claimed :
    (d : Distributor) (i j : ℕ)
    → is_claimed (set_claimed i d) j ≡ (if i == j then true else is_claimed d j)
unfolding set_claimed
is_claimed-set_claimed d i j = is_claimed_lem (set_claimed i d) j ∙ elim (Bool-cases (i == j)) [
  | inl same ↦
      let eq = eq_of_test i j same in
      let words : (i / 256 == j / 256) ≡ true = rw eq (test_refl (j / 256)) in
      let bits : (i % 256 == j % 256) ≡ true = rw eq (test_refl (j % 256)) in
      ground (arith, same, words, bits)
  | inr other ↦ elim (Bool-cases (i / 256 == j / 256)) [
    | inl words ↦
        let eq = eq_of_test (i / 256) (j / 256) words in
        let here = ap (λ k. d.claimed_bit_map k (j % 256)) eq in
        let bits : (i % 256 == j % 256) ≡ false =
          test_of_ne (i % 256) (j % 256)
            λ low. absurd (ground (arith, other, same_place i j eq low)) in
        ground (arith, other, words, bits, here, is_claimed_lem d j)
    | inr far ↦ ground (arith, other, far, is_claimed_lem d j)
  ]
]
