-- ===== src/Tests/Claims.antt =====
-- Runs of `parseBalanceMap`, and the theorems of BalanceMap and BalanceTree at an input.
use huski_bsc_contract.Base.{
  ◌≤◌, ◌^◌, ℕ, ◌≡◌, refl, ◌↔◌, ◌<◌, true, false, none, some, List, [], ◌∷◌, get_elem?, length,
  Bytes, bytes_eq, leb_bytes, ok, err, pos,
}
use huski_bsc_contract.Merkle.{
  lookup, assign, sort_bytes, insert_sorted, MerkleTree, build_tree, get_root, get_proof,
}
use huski_bsc_contract.BalanceTree.{
  Ethers, buf_arr_to_hex_arr, to_hex, nodes_from, balance_tree, get_balance_proof, get_hex_proof,
  get_hex_root, to_node, lift_error, verify_proof, value_out_of_bounds,
}
use huski_bsc_contract.BalanceTree.Verify.{get_balance_proof-verify_proof}
use huski_bsc_contract.BalanceMap.{
  keys, NewFormat, Balances, new_format, old_format, number, invalid_amount, duplicate_address,
  balance_error, DistributorInfo, Claim, balances_in_new_format, flags_of, entry_at, tree_balances,
  token_total_from, lift_tree, add_balance, data_by_address, claims_from, root_text,
  parse_balance_map,
}
use huski_bsc_contract.BalanceMap.Read.{IsAcceptable}
use huski_bsc_contract.BalanceMap.Fits.{AllFit}
use huski_bsc_contract.BalanceMap.Totals.{input_total}
use huski_bsc_contract.BalanceMap.Whole.{parse_balance_map-claims, parse_balance_map-total}
use huski_bsc_contract.BalanceMap.Accepts.{parse_balance_map_iff}
use huski_bsc_contract.Deploy.{text}
use huski_bsc_contract.Tests.Hashing.{crypto, ethers}

abbrev pub alice : NewFormat
alice = record { address = 9 ∷ []; earnings = b'5' ∷ []; reasons = b'l' ∷ b'p' ∷ [] }

abbrev pub bob : NewFormat
bob = record { address = 4 ∷ []; earnings = b'3' ∷ []; reasons = [] }

abbrev pub balances : Balances
balances = new_format (alice ∷ bob ∷ [])

abbrev pub info : DistributorInfo
info = record {
  merkle_root = 29 ∷ 1 ∷ [];
  token_total = 8 ∷ [];
  claims =
      (4 ∷ [], record { index = 0; amount = 3 ∷ []; proof = text "0x010509" ∷ []; flags = none })
      ∷ (
        9 ∷ [],
        record {
          index = 1;
          amount = 5 ∷ [];
          proof = text "0x000304" ∷ [];
          flags = some (record { is_socks = false; is_lp = true; is_user = false });
        },
      )
      ∷ [];
}

pub info_lem : parse_balance_map crypto ethers balances ≡ ok info
unfolding parse_balance_map data_by_address add_balance tree_balances token_total_from lift_tree
    claims_from root_text entry_at keys balances_in_new_format flags_of balance_tree build_tree
    get_balance_proof get_hex_proof get_hex_root get_proof get_root to_node lift_error nodes_from
    buf_arr_to_hex_arr to_hex bytes_eq leb_bytes lookup assign sort_bytes insert_sorted
info_lem = refl

-- the errors of a repeated address and of an amount that is not above zero
duplicate_lem :
    parse_balance_map crypto ethers (new_format (alice ∷ bob ∷ alice ∷ []))
    ≡ err (duplicate_address (9 ∷ []))
unfolding parse_balance_map data_by_address add_balance balances_in_new_format flags_of bytes_eq
    lookup assign
duplicate_lem = refl

amount_lem :
    parse_balance_map crypto ethers (old_format ((4 ∷ [], number 0) ∷ []))
    ≡ err (invalid_amount (4 ∷ []))
unfolding parse_balance_map data_by_address add_balance balances_in_new_format bytes_eq lookup
amount_lem = refl

-- the error of an amount that is no uint256, as it is read by another reader of numbers
abbrev wide : Ethers
wide = record ethers { big_number = λ earnings. some (pos (2 ^ 256)) }

too_large_lem : parse_balance_map crypto wide balances ≡ err (balance_error value_out_of_bounds)
unfolding parse_balance_map data_by_address add_balance tree_balances token_total_from lift_tree
    claims_from root_text entry_at keys balances_in_new_format flags_of balance_tree build_tree
    get_balance_proof get_hex_proof get_hex_root get_proof get_root to_node lift_error nodes_from
    buf_arr_to_hex_arr to_hex bytes_eq leb_bytes lookup assign sort_bytes insert_sorted
too_large_lem = refl

parse_balance_map-claims_example :
    (length info.claims ≡ 2)
    × ((i n : ℕ) × (cl : Claim) × (proof : List Bytes) × (root : Bytes) × (get_elem? info.claims i
          ≡ some (9 ∷ [], cl))
        × (cl.index ≡ i)
        × (ethers.big_number (b'5' ∷ []) ≡ some (pos n))
        × (cl.amount ≡ n ∷ [])
        × (cl.flags ≡ flags_of (b'l' ∷ b'p' ∷ []))
        × (cl.proof ≡ buf_arr_to_hex_arr proof)
        × (info.merkle_root ≡ root)
        × (verify_proof crypto ethers i (9 ∷ []) n proof root ≡ ok true))
unfolding balances_in_new_format
parse_balance_map-claims_example =
    parse_balance_map-claims crypto ethers balances info 0 alice (λ a b h. h) info_lem refl

parse_balance_map-total_example : info.token_total ≡ input_total ethers (alice ∷ bob ∷ []) ∷ []
unfolding balances_in_new_format
parse_balance_map-total_example = parse_balance_map-total crypto ethers balances info info_lem

parse_balance_map_iff_example :
    ((out : DistributorInfo) × (parse_balance_map crypto ethers balances ≡ ok out)) ↔ (
      IsAcceptable ethers (alice ∷ bob ∷ []) []
      × AllFit ethers (alice ∷ bob ∷ [])
      × (0 < 2)
      × (2 ≤ 2 ^ 256))
unfolding balances_in_new_format
parse_balance_map_iff_example = parse_balance_map_iff crypto ethers balances (λ a b h. h)

-- The tree of the two balances.
abbrev tree : MerkleTree
tree = record {
  elements = (0 ∷ 3 ∷ 4 ∷ []) ∷ (1 ∷ 5 ∷ 9 ∷ []) ∷ [];
  positions = (0 ∷ 3 ∷ 4 ∷ [], 0) ∷ (1 ∷ 5 ∷ 9 ∷ [], 1) ∷ [];
  layers = ((0 ∷ 3 ∷ 4 ∷ []) ∷ (1 ∷ 5 ∷ 9 ∷ []) ∷ []) ∷ ((29 ∷ 1 ∷ []) ∷ []) ∷ [];
}

tree_lem : balance_tree crypto ethers ((4 ∷ [], 3) ∷ (9 ∷ [], 5) ∷ []) ≡ ok tree
unfolding balance_tree build_tree to_node lift_error nodes_from bytes_eq leb_bytes lookup assign
    sort_bytes insert_sorted
tree_lem = refl

get_balance_proof-verify_proof_example :
    (proof : List Bytes) × (root : Bytes) × (get_balance_proof crypto ethers tree 1 (9 ∷ []) 5
      ≡ ok (buf_arr_to_hex_arr proof))
    × (get_root tree ≡ some root)
    × (verify_proof crypto ethers 1 (9 ∷ []) 5 proof root ≡ ok true)
get_balance_proof-verify_proof_example =
    get_balance_proof-verify_proof crypto ethers ((4 ∷ [], 3) ∷ (9 ∷ [], 5) ∷ []) tree 1 (9 ∷ []) 5
      (λ a b h. h) tree_lem refl
