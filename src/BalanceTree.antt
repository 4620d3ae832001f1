-- ===== src/BalanceTree.antt =====
-- utils/balance-tree.ts: `class BalanceTree`, and `getHexProof` of utils/merkle-tree.ts.
-- `utils.solidityKeccak256` of the package ethers is a field of `Ethers`.
pub mod Verify
use huski_bsc_contract.Base.{
  ℕ, suc, ◌+◌, ◌/◌, ◌%◌, Bool, true, false, Option, none, some, List, [], ◌∷◌, ◌++◌, map, ltb,
  if◌then◌else◌, Bytes, bytes_eq, ℤ, pos, negsuc, Result, ok, err, ◌>>=◌, ◌>>◌, require, ◌^◌, ◌&&◌,
}
use huski_bsc_contract.Merkle.{
  Crypto, MerkleTree, TreeError, build_tree, get_proof, get_root, fold_proof,
}

-- What the sources use of ethers. `solidity_keccak256` has the decoded hash of the packed types
-- uint256, address and uint256, for numbers of these types; `big_number` is `none` where
-- `BigNumber.from` throws.
pub record Ethers : Type 0 where
  pub solidity_keccak256 : ℕ → Bytes → ℕ → Bytes
  pub is_address : Bytes → Bool
  pub get_address : Bytes → Bytes
  pub big_number : Bytes → Option ℤ
  pub to_hex_string : ℕ → Bytes

-- An error of the merkle tree, or a number that is no uint256, which ethers does not encode.
pub data BalanceError : Type 0 where
  value_out_of_bounds : BalanceError
  tree_error : TreeError → BalanceError

unfoldable pub lift_error : {A : Type 0} → Result TreeError A → Result BalanceError A
lift_error (ok a) = ok a
lift_error (err e) = err (tree_error e)

-- the digit of `toString('hex')` and `toString(16)`
unfoldable pub hex_digit : ℕ → ℕ
hex_digit d = if ltb d 10 then 48 + d else 87 + d

hex_text : Bytes → Bytes
unfolding hex_digit
hex_text [] = []
hex_text (b ∷ bytes) = hex_digit (b / 16) ∷ hex_digit (b % 16) ∷ hex_text bytes

-- `'0x' + el.toString('hex')`
unfoldable pub to_hex : Bytes → Bytes
unfolding hex_text
to_hex bytes = b'0' ∷ b'x' ∷ hex_text bytes

-- `bufArrToHexArr`; its test cannot fail, since each entry is a buffer.
unfoldable pub buf_arr_to_hex_arr : List Bytes → List Bytes
buf_arr_to_hex_arr arr = map to_hex arr

module _ (c : Crypto) where
  unfoldable pub get_hex_proof : MerkleTree → Bytes → Result TreeError (List Bytes)
  unfolding buf_arr_to_hex_arr
  get_hex_proof t el = elim (get_proof c t el) [
    | ok proof ↦ ok (buf_arr_to_hex_arr proof)
    | err e ↦ err e
  ]

  -- `getHexRoot`; `none` is the `TypeError` of a missing root, which no tree has.
  unfoldable pub get_hex_root : MerkleTree → Option Bytes
  get_hex_root t = elim (get_root t) [ none ↦ none | some root ↦ some (c.buffer_to_hex root) ]

  module _ (e : Ethers) where
    -- `toNode`: `solidityKeccak256` throws for a number that is no uint256.
    unfoldable pub to_node : ℕ → Bytes → ℕ → Result BalanceError Bytes
    to_node index account amount = do
      require (ltb index (2 ^ 256) && ltb amount (2 ^ 256)) value_out_of_bounds
      ok (e.solidity_keccak256 index account amount)

    -- `verifyProof`
    unfoldable pub verify_proof : ℕ → Bytes → ℕ → List Bytes → Bytes → Result BalanceError Bool
    verify_proof index account amount proof root = do
      node ← to_node index account amount
      ok (elim (fold_proof c (some node) proof) [ none ↦ false | some pair ↦ bytes_eq pair root ])

    -- the leaves that the constructor makes of the balances, from an index on
    unfoldable pub nodes_from : ℕ → List (Bytes × ℕ) → Result BalanceError (List Bytes)
    nodes_from index [] = ok []
    nodes_from index ((account, amount) ∷ rest) = do
      node ← to_node index account amount
      nodes ← nodes_from (index + 1) rest
      ok (node ∷ nodes)

    -- the constructor
    unfoldable pub balance_tree : List (Bytes × ℕ) → Result BalanceError MerkleTree
    unfolding nodes_from lift_error
    balance_tree balances = do nodes ← nodes_from 0 balances; lift_error (build_tree c nodes)

    -- `getProof`
    unfoldable pub get_balance_proof : MerkleTree → ℕ → Bytes → ℕ → Result BalanceError (List Bytes)
    unfolding lift_error
    get_balance_proof t index account amount = do
      node ← to_node index account amount
      lift_error (get_hex_proof t node)
