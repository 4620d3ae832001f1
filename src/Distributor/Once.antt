-- ===== src/Distributor/Once.antt =====
-- contracts/6/token/MerkleDistributor.sol: sequences of claims.
use huski_bsc_contract.Base.{
  ℕ, ◌≡◌, sym, ◌∙◌, ap, Bool, true, false, not, List, [], ◌∷◌, ◌==◌, if◌then◌else◌, arith, Bytes,
  Result, ok, err, refl, >>=-use, require, require-eq-ok,
}
use huski_bsc_contract.Merkle.{Crypto}
use huski_bsc_contract.BalanceTree.{Ethers}
use huski_bsc_contract.Distributor.{
  Payment, Distributor, ClaimError, Callees, already_claimed, invalid_proof, transfer_failed,
  is_claimed, set_claimed, claim,
}
use huski_bsc_contract.Distributor.Bits.{is_claimed-set_claimed}

-- Whether an index has been paid.
unfoldable pub is_paid : ℕ → List Payment → Bool
is_paid index [] = false
is_paid index (p ∷ paid) = if p.index == index then true else is_paid index paid

-- No index is paid twice.
abbrev pub HasDistinctIndices : List Payment → Type 0
HasDistinctIndices [] = Unit {0}
HasDistinctIndices (p ∷ paid) = (is_paid p.index paid ≡ false) × HasDistinctIndices paid

pub record Attempt : Type 0 where
  pub index : ℕ
  pub account : Bytes
  pub amount : ℕ
  pub proof : List Bytes

module _ (c : Crypto) (e : Ethers) (k : Callees) where
  -- Each payment has a proof for the root.
  abbrev pub AllProved : Bytes → List Payment → Type 0
  AllProved root [] = Unit {0}
  AllProved root (p ∷ paid) =
      ((proof : List Bytes) × (k.verify proof root (e.solidity_keccak256 p.index p.account p.amount)
          ≡ true))
      × AllProved root paid

  -- The bit map marks what has been paid, once and with a proof.
  pub record IsSound (d : Distributor) : Type 0 where
    pub marked : (index : ℕ) → is_claimed d index ≡ is_paid index d.paid
    pub distinct : HasDistinctIndices d.paid
    pub proved : AllProved d.merkle_root d.paid

  -- Claims that go through, one after the other.
  pub data Claims (d : Distributor) : Distributor → Type 0 where
    no_claim : Claims d d
    and_claim :
        {d1 d2 : Distributor} (index : ℕ) (account : Bytes) (amount : ℕ) (proof : List Bytes)
        → Claims d d1
        → claim c e k index account amount proof d1 ≡ ok d2
        → Claims d d2

  -- What a claim that goes through has found and done.
  pub claim-eq_ok :
      (index : ℕ) (account : Bytes) (amount : ℕ) (proof : List Bytes) (d : Distributor)
      {d' : Distributor}
      → claim c e k index account amount proof d ≡ ok d'
      → (is_claimed d index ≡ false)
        × (k.verify proof d.merkle_root (e.solidity_keccak256 index account amount) ≡ true)
        × (d' ≡ record (set_claimed index d) {
          paid = record { index = index; account = account; amount = amount } ∷ d.paid;
        })
  unfolding claim set_claimed
  claim-eq_ok index account amount proof d h =
      >>=-use (require (not (is_claimed d index)) already_claimed) _ h λ _ new h1.
        >>=-use
          (require (k.verify proof d.merkle_root (e.solidity_keccak256 index account amount))
            invalid_proof)
          _ h1
          λ _ valid h2.
            >>=-use (require (k.transfer account amount) transfer_failed) _ h2 λ _ sent h3. (
              ground (arith, require-eq-ok (not (is_claimed d index)) already_claimed new),
              require-eq-ok
                  (k.verify proof d.merkle_root (e.solidity_keccak256 index account amount))
                  invalid_proof valid,
              ground (arith, h3),
            )

  paid-IsSound :
      (index : ℕ) (account : Bytes) (amount : ℕ) (proof : List Bytes) (d : Distributor)
      → is_claimed d index ≡ false
      → k.verify proof d.merkle_root (e.solidity_keccak256 index account amount) ≡ true
      → IsSound d
      → IsSound (record (set_claimed index d) {
        paid = record { index = index; account = account; amount = amount } ∷ d.paid;
      })
  unfolding is_paid set_claimed is_claimed
  paid-IsSound index account amount proof d new valid s = record {
    marked = λ j.
        is_claimed-set_claimed d index j ∙ ap (λ b. if index == j then true else b) (s.marked j);
    distinct = (sym (s.marked index) ∙ new, s.distinct);
    proved = ((proof, valid), s.proved);
  }

  -- From a distributor whose bit map marks the indices that have been paid, each of them once and
  -- with a proof that `MerkleProof.verify` accepts for the root, any sequence of claims that go
  -- through leads to such a distributor: whatever is claimed, and by whom, no index is paid twice
  -- and nothing is paid without a proof.
  pub Claims-IsSound : {d d' : Distributor} → Claims d d' → IsSound d → IsSound d'
  Claims-IsSound no_claim s = s
  Claims-IsSound (and_claim {d1 = d1} index account amount proof claims h) s =
      let (new, valid, same) = claim-eq_ok index account amount proof d1 h in
      rw same (paid-IsSound index account amount proof d1 new valid (Claims-IsSound claims s))

  -- A transaction that claims; where it reverts, nothing changes.
  unfoldable pub attempt : Attempt → Distributor → Distributor
  attempt a d = elim (claim c e k a.index a.account a.amount a.proof d) [ ok d' ↦ d' | err x ↦ d ]

  -- Transactions that claim, one after the other.
  unfoldable pub attempt_all : List Attempt → Distributor → Distributor
  unfolding attempt
  attempt_all [] d = d
  attempt_all (a ∷ rest) d = attempt_all rest (attempt a d)

  is_claimed-attempt :
      (a : Attempt) (index : ℕ) (d : Distributor)
      → is_claimed d index ≡ true
      → is_claimed (attempt a d) index ≡ true
  unfolding attempt is_claimed
  is_claimed-attempt a index d h = go (claim c e k a.index a.account a.amount a.proof d) refl
    where
      go :
          (r : Result ClaimError Distributor)
          → claim c e k a.index a.account a.amount a.proof d ≡ r
          → is_claimed (elim r [ ok d' ↦ d' | err x ↦ d ]) index ≡ true
      go (ok d') done =
          let (_, _, same) = claim-eq_ok a.index a.account a.amount a.proof d done in
          let bits : is_claimed d' index ≡ is_claimed (set_claimed a.index d) index =
            ap (λ x. is_claimed x index) same in
          bits ∙ is_claimed-set_claimed d a.index index ∙ ground (arith, h)
      go (err x) done = h

  -- What is claimed stays claimed.
  pub is_claimed-attempt_all :
      (later : List Attempt) (index : ℕ) (d : Distributor)
      → is_claimed d index ≡ true
      → is_claimed (attempt_all later d) index ≡ true
  unfolding attempt_all
  is_claimed-attempt_all [] index d h = h
  is_claimed-attempt_all (a ∷ later) index d h =
      is_claimed-attempt_all later index (attempt a d) (is_claimed-attempt a index d h)
