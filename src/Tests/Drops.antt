-- ===== src/Tests/Drops.antt =====
-- The theorems of Distributor where the two balances are dropped.
use huski_bsc_contract.Base.{
  ℕ, ◌≡◌, refl, true, false, none, some, List, [], ◌∷◌, get_elem?, Bytes, bytes_eq, leb_bytes, ok,
  err, pos,
}
use huski_bsc_contract.Merkle.{fold_proof}
use huski_bsc_contract.BalanceTree.{buf_arr_to_hex_arr}
use huski_bsc_contract.BalanceMap.{Claim, balances_in_new_format}
use huski_bsc_contract.Distributor.{
  Distributor, Callees, already_claimed, invalid_proof, is_claimed, set_claimed, claim, same_word,
}
use huski_bsc_contract.Distributor.Bits.{is_claimed_lem}
use huski_bsc_contract.Distributor.Once.{
  is_paid, IsSound, no_claim, and_claim, Claims-IsSound, Attempt, attempt_all,
}
use huski_bsc_contract.Distributor.Payable.{claim-parse_balance_map}
use huski_bsc_contract.Tests.Hashing.{crypto, ethers}
use huski_bsc_contract.Tests.Claims.{alice, balances, info, info_lem}

abbrev callees : Callees
callees = record {
  verify = λ proof root leaf. elim (fold_proof crypto (some leaf) proof) [
    | none ↦ false
    | some folded ↦ bytes_eq folded root
  ];
  transfer = λ account amount. true;
}

abbrev drop : Distributor
drop = record { merkle_root = 29 ∷ 1 ∷ []; claimed_bit_map = λ word bit. false; paid = [] }

abbrev bob_paid : Distributor
bob_paid = record (set_claimed 0 drop) {
  paid = record { index = 0; account = 4 ∷ []; amount = 3 } ∷ [];
}

abbrev both_paid : Distributor
both_paid = record (set_claimed 1 bob_paid) {
  paid =
      record { index = 1; account = 9 ∷ []; amount = 5 }
      ∷ record { index = 0; account = 4 ∷ []; amount = 3 }
      ∷ [];
}

bob_lem : claim crypto ethers callees 0 (4 ∷ []) 3 ((1 ∷ 5 ∷ 9 ∷ []) ∷ []) drop ≡ ok bob_paid
unfolding claim is_claimed same_word set_claimed fold_proof bytes_eq leb_bytes
bob_lem = refl

alice_lem : claim crypto ethers callees 1 (9 ∷ []) 5 ((0 ∷ 3 ∷ 4 ∷ []) ∷ []) bob_paid ≡ ok both_paid
unfolding claim is_claimed same_word set_claimed fold_proof bytes_eq leb_bytes
alice_lem = refl

-- a claim of too much, and a second claim
too_much_lem :
    claim crypto ethers callees 1 (9 ∷ []) 6 ((0 ∷ 3 ∷ 4 ∷ []) ∷ []) bob_paid ≡ err invalid_proof
unfolding claim is_claimed same_word set_claimed fold_proof bytes_eq leb_bytes
too_much_lem = refl

drop-IsSound : IsSound crypto ethers callees drop
unfolding is_paid
drop-IsSound = record { marked = λ index. is_claimed_lem drop index; distinct = tt; proved = tt }

Claims-IsSound_example : IsSound crypto ethers callees both_paid
Claims-IsSound_example =
    Claims-IsSound crypto ethers callees {d = drop} {d' = both_paid}
      (and_claim 1 (9 ∷ []) 5 ((0 ∷ 3 ∷ 4 ∷ []) ∷ [])
        (and_claim 0 (4 ∷ []) 3 ((1 ∷ 5 ∷ 9 ∷ []) ∷ []) no_claim bob_lem) alice_lem)
      drop-IsSound

-- a claim of the other balance, in the same word, and one without a proof
abbrev later : List Attempt
later =
    record { index = 0; account = 4 ∷ []; amount = 3; proof = (1 ∷ 5 ∷ 9 ∷ []) ∷ [] }
    ∷ record { index = 7; account = 4 ∷ []; amount = 3; proof = [] }
    ∷ []

claim-parse_balance_map_example :
    (n : ℕ) × (cl : Claim) × (proof : List Bytes) × (d' : Distributor) × (get_elem? info.claims
        cl.index
      ≡ some (9 ∷ [], cl))
    × (ethers.big_number (b'5' ∷ []) ≡ some (pos n))
    × (cl.amount ≡ n ∷ [])
    × (cl.proof ≡ buf_arr_to_hex_arr proof)
    × (claim crypto ethers callees cl.index (9 ∷ []) n proof drop ≡ ok d')
    × (d'.paid ≡ record { index = cl.index; account = 9 ∷ []; amount = n } ∷ [])
    × (claim crypto ethers callees cl.index
          (8 ∷ [])
          100
          []
          (attempt_all crypto ethers callees later d')
        ≡ err already_claimed)
unfolding balances_in_new_format
claim-parse_balance_map_example =
    claim-parse_balance_map crypto ethers callees balances info 0 alice drop later (8 ∷ []) 100 []
      (λ a b h. h) (λ proof root leaf. refl) info_lem refl refl (is_claimed_lem drop)
      (λ account amount. refl)
