-- ===== src/BalanceMap.antt =====
-- utils/parse-balance-map.ts: `parseBalanceMap`. A string is the list of its code units. The
-- object is an association list; those of `dataByAddress` and `claims` have distinct keys, so that
-- the order of insertion is the order of the list.
pub mod Read
pub mod Totals
pub mod Claims
pub mod Whole
pub mod Fits
pub mod Accepts
use huski_bsc_contract.Base.{
  ℕ, zero, suc, ◌+◌, ◌/◌, ◌%◌, Bool, true, false, ◌&&◌, ◌||◌, Option, none, some, List, [], ◌∷◌,
  ◌++◌, map, ltb, ◌==◌, if◌then◌else◌, Bytes, bytes_eq, Result, ok, err, ◌>>=◌, ◌>>◌, require, ℤ,
  pos, negsuc,
}
use huski_bsc_contract.Merkle.{Crypto, MerkleTree, sort_bytes, lookup, assign}
use huski_bsc_contract.BalanceTree.{
  Ethers, BalanceError, hex_digit, get_hex_root, balance_tree, get_balance_proof,
}

pub record NewFormat : Type 0 where
  pub address : Bytes
  pub earnings : Bytes
  pub reasons : Bytes

-- A value of `OldFormat`. A number is an integer that is not negative.
pub data OldAmount : Type 0 where
  number : ℕ → OldAmount
  text : Bytes → OldAmount

pub data Balances : Type 0 where
  old_format : List (Bytes × OldAmount) → Balances
  new_format : List NewFormat → Balances

pub data ParseError : Type 0 where
  invalid_address duplicate_address invalid_amount : Bytes → ParseError
  not_a_number no_such_key : Bytes → ParseError
  balance_error : BalanceError → ParseError
  no_root : ParseError

pub record Flags : Type 0 where
  pub is_socks : Bool
  pub is_lp : Bool
  pub is_user : Bool

-- an entry of `dataByAddress`
pub record Entry : Type 0 where
  pub amount : ℕ
  pub flags : Option Flags

pub record Claim : Type 0 where
  pub index : ℕ
  pub amount : Bytes
  pub proof : List Bytes
  pub flags : Option Flags

pub record DistributorInfo : Type 0 where
  pub merkle_root : Bytes
  pub token_total : Bytes
  pub claims : List (Bytes × Claim)

-- the digits of `n.toString(16)`, on fuel of one round for each digit
hex_digits : ℕ → ℕ → Bytes → Bytes
hex_digits zero n acc = acc
hex_digits (suc fuel) n acc =
    let digits = hex_digit (n % 16) ∷ acc in
    elim (ltb n 16) [ true ↦ digits | false ↦ hex_digits fuel (n / 16) digits ]

-- `balances[account].toString(16)`; a string ignores the base.
pub to_string_16 : OldAmount → Bytes
unfolding hex_digits hex_digit
to_string_16 (number n) = hex_digits (n + 1) n []
to_string_16 (text s) = s

-- the `map` over the keys of an old format
pub new_format_of : List (Bytes × OldAmount) → List NewFormat
unfolding to_string_16
new_format_of [] = []
new_format_of ((account, amount) ∷ rest) =
    record { address = account; earnings = b'0' ∷ b'x' ∷ to_string_16 amount; reasons = [] }
    ∷ new_format_of rest

unfoldable pub balances_in_new_format : Balances → List NewFormat
unfolding new_format_of
balances_in_new_format (old_format m) = new_format_of m
balances_in_new_format (new_format l) = l

is_prefix : Bytes → Bytes → Bool
is_prefix [] s = true
is_prefix (x ∷ word) [] = false
is_prefix (x ∷ word) (y ∷ s) = (x == y) && is_prefix word s

-- `s.includes(word)`
pub includes : Bytes → Bytes → Bool
unfolding is_prefix
includes word [] = is_prefix word []
includes word (y ∷ s) = is_prefix word (y ∷ s) || includes word s

-- `...(reasons === '' ? {} : { flags })`
unfoldable pub flags_of : Bytes → Option Flags
unfolding includes
flags_of [] = none
flags_of (x ∷ reasons) = some (record {
  is_socks = includes (b's' ∷ b'o' ∷ b'c' ∷ b'k' ∷ b's' ∷ []) (x ∷ reasons);
  is_lp = includes (b'l' ∷ b'p' ∷ []) (x ∷ reasons);
  is_user = includes (b'u' ∷ b's' ∷ b'e' ∷ b'r' ∷ []) (x ∷ reasons);
})

abbrev pub Data : Type 0
Data = List (Bytes × Entry)

is_absent : Option Entry → Bool
is_absent none = true
is_absent (some entry) = false

-- `BigNumber.from(earnings)`, then the test `parsedNum.lte(0)`
read_amount : Bytes → Bytes → Option ℤ → Result ParseError ℕ
read_amount account earnings none = err (not_a_number earnings)
read_amount account earnings (some (negsuc n)) = err (invalid_amount account)
read_amount account earnings (some (pos zero)) = err (invalid_amount account)
read_amount account earnings (some (pos (suc n))) = ok (suc n)

-- `Object.keys`
unfoldable pub keys {ℓ} : {V : Type ℓ} → List (Bytes × V) → List Bytes
keys [] = []
keys ((k, v) ∷ m) = k ∷ keys m

-- `dataByAddress[address]`, whose fields are read: a missing entry is a `TypeError`.
unfoldable pub entry_at : Data → Bytes → Result ParseError Entry
entry_at data_by_address address = elim (lookup address data_by_address) [
  | none ↦ err (no_such_key address)
  | some entry ↦ ok entry
]

-- the balances that the tree is constructed from
unfoldable pub tree_balances : Data → List Bytes → Result ParseError (List (Bytes × ℕ))
tree_balances m [] = ok []
tree_balances m (address ∷ rest) = do
  entry ← entry_at m address
  others ← tree_balances m rest
  ok ((address, entry.amount) ∷ others)

-- the `reduce` of `tokenTotal`
unfoldable pub token_total_from : Data → List Bytes → ℕ → Result ParseError ℕ
token_total_from m [] memo = ok memo
token_total_from m (key ∷ rest) memo = do
  entry ← entry_at m key
  token_total_from m rest (memo + entry.amount)

unfoldable pub lift_tree : {A : Type 0} → Result BalanceError A → Result ParseError A
lift_tree (ok a) = ok a
lift_tree (err e) = err (balance_error e)

module _ (e : Ethers) where
  -- one round of the `reduce` into `dataByAddress`
  unfoldable pub add_balance : Data → NewFormat → Result ParseError Data
  unfolding is_absent read_amount
  add_balance memo b = do
    require (e.is_address b.address) (invalid_address b.address)
    let parsed = e.get_address b.address
    require (is_absent (lookup parsed memo)) (duplicate_address parsed)
    amount ← read_amount b.address b.earnings (e.big_number b.earnings)
    ok (assign parsed (record { amount = amount; flags = flags_of b.reasons }) memo)

  unfoldable pub data_by_address : List NewFormat → Data → Result ParseError Data
  data_by_address [] memo = ok memo
  data_by_address (b ∷ rest) memo = do memo' ← add_balance memo b; data_by_address rest memo'

module _ (c : Crypto) (e : Ethers) where
  -- the `reduce` of `claims`
  unfoldable pub claims_from :
      Data → MerkleTree → ℕ → List Bytes → Result ParseError (List (Bytes × Claim))
  claims_from m tree index [] = ok []
  claims_from m tree index (address ∷ rest) = do
    entry ← entry_at m address
    proof ← lift_tree (get_balance_proof c e tree index address entry.amount)
    others ← claims_from m tree (index + 1) rest
    ok (
        (
          address,
          record {
            index = index;
            amount = e.to_hex_string entry.amount;
            proof = proof;
            flags = entry.flags;
          },
        )
        ∷ others)

  unfoldable pub root_text : MerkleTree → Result ParseError Bytes
  root_text tree = elim (get_hex_root c tree) [ none ↦ err no_root | some root ↦ ok root ]

  unfoldable pub parse_balance_map : Balances → Result ParseError DistributorInfo
  parse_balance_map balances = do
    m ← data_by_address e (balances_in_new_format balances) []
    let sorted_addresses = sort_bytes (keys m)
    entries ← tree_balances m sorted_addresses
    tree ← lift_tree (balance_tree c e entries)
    claims ← claims_from m tree 0 sorted_addresses
    total ← token_total_from m sorted_addresses 0
    root ← root_text tree
    ok (record { merkle_root = root; token_total = e.to_hex_string total; claims = claims })
