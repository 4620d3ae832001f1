-- ===== src/Distributor/Payable.antt =====
-- contracts/6/token/MerkleDistributor.sol with utils/parse-balance-map.ts: the claims that the
-- parser puts out, made at the contract.
use huski_bsc_contract.Base.{
  ℕ, ◌≡◌, refl, ◌∙◌, ap, true, false, some, List, ◌∷◌, Bytes, test_refl, get_elem?, ok, err, pos,
  subst, >>=-use, arith,
}
use huski_bsc_contract.Merkle.{Crypto, IsFaithfulHex}
use huski_bsc_contract.BalanceTree.{Ethers, to_node, verify_proof, buf_arr_to_hex_arr}
use huski_bsc_contract.BalanceMap.{
  NewFormat, Balances, DistributorInfo, Claim, balances_in_new_format, parse_balance_map,
}
use huski_bsc_contract.BalanceMap.Whole.{parse_balance_map-claims}
use huski_bsc_contract.Distributor.{
  Distributor, Callees, IsMerkleProof, already_claimed, is_claimed, set_claimed, claim,
}
use huski_bsc_contract.Distributor.Bits.{is_claimed-set_claimed}
use huski_bsc_contract.Distributor.Once.{Attempt, attempt_all, is_claimed-attempt_all}
use huski_bsc_contract.BalanceTree.Verify.{to_node-eq_ok}

module _ (c : Crypto) (e : Ethers) (k : Callees) where
  -- The distributor after a payment.
  abbrev pub after_claim : ℕ → Bytes → ℕ → Distributor → Distributor
  after_claim index account amount d = record (set_claimed index d) {
    paid = record { index = index; account = account; amount = amount } ∷ d.paid;
  }

  claim-ok :
      (index : ℕ) (account : Bytes) (amount : ℕ) (proof : List Bytes) (d : Distributor)
      → is_claimed d index ≡ false
      → k.verify proof d.merkle_root (e.solidity_keccak256 index account amount) ≡ true
      → k.transfer account amount ≡ true
      → claim c e k index account amount proof d ≡ ok (after_claim index account amount d)
  unfolding claim set_claimed
  claim-ok index account amount proof d new valid sent = rw (new, claim) (rw valid (rw sent refl))

  is_claimed-after_claim :
      (index : ℕ) (account : Bytes) (amount : ℕ) (d : Distributor)
      → is_claimed (after_claim index account amount d) index ≡ true
  unfolding is_claimed
  is_claimed-after_claim index account amount d =
      is_claimed-set_claimed d index index ∙ rw (test_refl index) refl

  -- The contract's check is that of the script.
  verify-verify_proof :
      (index : ℕ) (account : Bytes) (amount : ℕ) (proof : List Bytes) (root : Bytes)
      → IsMerkleProof c k
      → verify_proof c e index account amount proof root ≡ ok true
      → k.verify proof root (e.solidity_keccak256 index account amount) ≡ true
  unfolding verify_proof
  verify-verify_proof index account amount proof root merkle h =
      >>=-use (to_node c e index account amount) _ h λ node hashed rest.
        let (same, _, _) = to_node-eq_ok c e index account amount hashed in
        subst (λ x. k.verify proof root x ≡ true) same
          (merkle proof root node ∙ ground (arith, rest))

  claim_claimed :
      (index : ℕ) (account : Bytes) (amount : ℕ) (proof : List Bytes) (d : Distributor)
      → is_claimed d index ≡ true
      → claim c e k index account amount proof d ≡ err already_claimed
  unfolding claim
  claim_claimed index account amount proof d marked = rw (marked, claim) refl

  -- Where `MerkleProof.verify` does what it documents and no two buffers have one hex text, a
  -- distributor whose root has the hex text of the output of `parseBalanceMap`, that has not paid
  -- an index and whose token transfers succeed, pays every balance of the input: the output has a
  -- claim under the balance's checksummed address whose hex proof is that of buffers with which
  -- `claim` goes through for the claim's index, the address and the amount that was read; it adds
  -- this payment to those made. After that the index is claimed for good: after any transactions
  -- that claim, those that revert included, `claim` of the index reverts, whatever the account, the
  -- amount and the proof.
  pub claim-parse_balance_map :
      (balances : Balances) (info : DistributorInfo) (j : ℕ) (b : NewFormat) (d : Distributor)
      (later : List Attempt) (other : Bytes) (m : ℕ) (wrong : List Bytes)
      → IsFaithfulHex c
      → IsMerkleProof c k
      → parse_balance_map c e balances ≡ ok info
      → get_elem? (balances_in_new_format balances) j ≡ some b
      → c.buffer_to_hex d.merkle_root ≡ info.merkle_root
      → ((index : ℕ) → is_claimed d index ≡ false)
      → ((account : Bytes) (amount : ℕ) → k.transfer account amount ≡ true)
      → (n : ℕ) × (cl : Claim) × (proof : List Bytes) × (d' : Distributor) × (get_elem? info.claims
            cl.index
          ≡ some (e.get_address b.address, cl))
        × (e.big_number b.earnings ≡ some (pos n))
        × (cl.amount ≡ e.to_hex_string n)
        × (cl.proof ≡ buf_arr_to_hex_arr proof)
        × (claim c e k cl.index (e.get_address b.address) n proof d ≡ ok d')
        × (d'.paid
            ≡ record { index = cl.index; account = e.get_address b.address; amount = n } ∷ d.paid)
        × (claim c e k cl.index other m wrong (attempt_all c e k later d') ≡ err already_claimed)
  claim-parse_balance_map balances info j b d later other m wrong faithful merkle parsed at
        same_root new sends =
      let (
        _,
        (i, n, cl, proof, root, place, index, read, amount, _, proof_text, root_text, verified),
      ) =
        parse_balance_map-claims c e balances info j b faithful parsed at in
      let account = e.get_address b.address in
      let roots : d.merkle_root ≡ root = faithful d.merkle_root root (same_root ∙ root_text) in
      let node = e.solidity_keccak256 cl.index account n in
      let valid : k.verify proof d.merkle_root node ≡ true =
        rw roots (rw index (verify-verify_proof i account n proof root merkle verified)) in
      (
        n,
        cl,
        proof,
        after_claim cl.index account n d,
        ap (get_elem? info.claims) index ∙ place,
        read,
        amount,
        proof_text,
        claim-ok cl.index account n proof d (new cl.index) valid (sends account n),
        refl,
        claim_claimed cl.index other m wrong
            (attempt_all c e k later (after_claim cl.index account n d))
            (is_claimed-attempt_all c e k later cl.index (after_claim cl.index account n d)
              (is_claimed-after_claim cl.index account n d)),
      )
