-- ===== src/Distributor.antt =====
-- contracts/6/token/MerkleDistributor.sol: `isClaimed`, `_setClaimed` and `claim`. The owner's
-- deposits and withdrawals move tokens and leave the state of this contract as it is. A word of
-- the bit map is its bits from the lowest on; an account is its checksummed text.
pub mod Bits
pub mod Once
pub mod Payable
use huski_bsc_contract.Base.{
  ℕ, zero, suc, ◌+◌, ◌/◌, ◌%◌, ◌≡◌, Bool, true, false, not, ◌&&◌, ◌||◌, List, [], ◌∷◌, ◌==◌,
  if◌then◌else◌, Bytes, bytes_eq, Option, none, some, Result, ok, err, ◌>>=◌, ◌>>◌, require,
}
use huski_bsc_contract.Merkle.{Crypto, fold_proof}
use huski_bsc_contract.BalanceTree.{Ethers}
use huski_bsc_contract.Evm.{update}

abbrev pub Word : Type 0
Word = ℕ → Bool

-- `1 << k`
abbrev pub shifted_one : ℕ → Word
shifted_one k j = k == j

-- `a & b` and `a | b`
abbrev pub bit_and : Word → Word → Word
bit_and a b j = a j && b j

abbrev pub bit_or : Word → Word → Word
bit_or a b j = a j || b j

-- `a == b`, on the lowest bits
unfoldable pub same_word : ℕ → Word → Word → Bool
same_word zero a b = true
same_word (suc n) a b = (if a n then b n else not (b n)) && same_word n a b

-- a transfer that `claim` has made
pub record Payment : Type 0 where
  pub index : ℕ
  pub account : Bytes
  pub amount : ℕ

-- `paid` has the transfers that were made, the last one first.
pub record Distributor : Type 0 where
  pub merkle_root : Bytes
  pub claimed_bit_map : ℕ → Word
  pub paid : List Payment

pub data ClaimError : Type 0 where
  already_claimed invalid_proof transfer_failed : ClaimError

-- What the contract calls: `MerkleProof.verify` of OpenZeppelin, and whether a transfer of the
-- token succeeds.
pub record Callees : Type 0 where
  pub verify : List Bytes → Bytes → Bytes → Bool
  pub transfer : Bytes → ℕ → Bool

-- `MerkleProof.verify` folds the proof from the leaf and compares the result with the root.
abbrev pub IsMerkleProof : Crypto → Callees → Type 0
IsMerkleProof c k =
    (proof : List Bytes) (root leaf : Bytes)
    → k.verify proof root leaf ≡ (elim (fold_proof c (some leaf) proof) [
      | none ↦ false
      | some folded ↦ bytes_eq folded root
    ])

unfoldable pub is_claimed : Distributor → ℕ → Bool
unfolding same_word
is_claimed d index =
    let claimed_word = d.claimed_bit_map (index / 256) in
    let mask = shifted_one (index % 256) in same_word 256 (bit_and claimed_word mask) mask

-- `_setClaimed`
unfoldable pub set_claimed : ℕ → Distributor → Distributor
set_claimed index d = record d {
  claimed_bit_map =
      update d.claimed_bit_map (index / 256)
        (bit_or (d.claimed_bit_map (index / 256)) (shifted_one (index % 256)));
}

module _ (c : Crypto) (e : Ethers) (k : Callees) where
  -- The node is `keccak256(abi.encodePacked(index, account, amount))`, which ethers computes, too.
  unfoldable pub claim : ℕ → Bytes → ℕ → List Bytes → Distributor → Result ClaimError Distributor
  claim index account amount merkle_proof d = do
    require (not (is_claimed d index)) already_claimed
    require (k.verify merkle_proof d.merkle_root (e.solidity_keccak256 index account amount))
        invalid_proof
    let marked = set_claimed index d
    require (k.transfer account amount) transfer_failed
    ok (record marked {
      paid = record { index = index; account = account; amount = amount } ∷ marked.paid;
    })
