-- ===== src/BalanceMap/Accepts.antt =====
-- utils/parse-balance-map.ts: which inputs `parseBalanceMap` accepts.
use huski_bsc_contract.Base.{
  ℕ, suc, ◌+◌, ◌^◌, ◌≡◌, ◌≤◌, ◌<◌, >>=-use, refl, sym, ◌∙◌, ap, true, ◌↔◌, some, List, [], ◌∷◌,
  arith, length, get_elem?, Bytes, bytes_eq_refl, ok, err, >>=-eq-ok,
}
use huski_bsc_contract.Merkle.{
  Crypto, IsFaithfulHex, MerkleTree, empty_tree, sort_bytes, lookup, get_root,
}
use huski_bsc_contract.Merkle.Sort.{contains, contains-sort_bytes}
use huski_bsc_contract.Merkle.Tree.{build_tree_total}
use huski_bsc_contract.BalanceTree.{
  Ethers, nodes_from, lift_error, tree_error, get_hex_root, balance_tree, get_balance_proof,
  buf_arr_to_hex_arr,
}
use huski_bsc_contract.BalanceTree.Verify.{to_node_fits, get_balance_proof-verify_proof}
use huski_bsc_contract.BalanceMap.{
  NewFormat, Balances, balances_in_new_format, Entry, Data, Claim, DistributorInfo, keys, entry_at,
  tree_balances, lift_tree, data_by_address, claims_from, root_text, parse_balance_map,
}
use huski_bsc_contract.BalanceMap.Read.{
  IsDistinct, Matches, IsAcceptable, data_by_address-of_ok, data_by_address_iff,
}
use huski_bsc_contract.BalanceMap.Totals.{
  lookup_of_contains, entry_at-some, sum_amounts, token_total-sum_amounts,
}
use huski_bsc_contract.BalanceMap.Claims.{tree_balances-at}
use huski_bsc_contract.BalanceMap.Whole.{
  length-sort_bytes, length-keys, length-Matches, Run-of, parse_balance_map-claims,
}
use huski_bsc_contract.BalanceMap.Fits.{
  AllEncoded, Fits, AllFit, AllFit-of, Matches-AllEncoded, nodes_from_total, nodes_from-bound,
  verify_proof-bound,
}

-- Every key of the list has an entry.
abbrev HasEntries : Data → List Bytes → Type 0
HasEntries m [] = Unit {0}
HasEntries m (k ∷ ks) = ((v : Entry) × (lookup k m ≡ some v)) × HasEntries m ks

has_entries :
    (m : Data) (ks : List Bytes)
    → ((k : Bytes) → contains k ks ≡ true → (v : Entry) × (lookup k m ≡ some v))
    → HasEntries m ks
unfolding contains
has_entries m [] h = tt
has_entries m (k ∷ ks) h =
    (h k (rw (bytes_eq_refl k) refl), has_entries m ks (λ j i. h j (ground (arith, i))))

tree_balances_total :
    (m : Data) (ks : List Bytes)
    → HasEntries m ks
    → (bal : List (Bytes × ℕ)) × (tree_balances m ks ≡ ok bal)
unfolding tree_balances
tree_balances_total m [] h = ([], refl)
tree_balances_total m (k ∷ ks) ((v, at), h) =
    let (bal, e) = tree_balances_total m ks h in
    ((k, v.amount) ∷ bal, rw (entry_at-some m k at, e) refl)

length-tree_balances :
    (m : Data) (ks : List Bytes) {bal : List (Bytes × ℕ)}
    → tree_balances m ks ≡ ok bal
    → length bal ≡ length ks
unfolding tree_balances
length-tree_balances m [] h = ground (arith, h)
length-tree_balances m (k ∷ ks) {bal} h =
    let (v, found, h') = >>=-eq-ok (entry_at m k) _ h in
    let (others, rest, h'') = >>=-eq-ok (tree_balances m ks) _ h' in
    ground (arith, h'', length-tree_balances m ks rest)

module _ (c : Crypto) (e : Ethers) where
  claims_from_total :
      (m : Data) (tree : MerkleTree) (index : ℕ) (ks : List Bytes)
      → HasEntries m ks
      → ((i : ℕ) (k : Bytes) (v : Entry)
          → get_elem? ks i ≡ some k
          → lookup k m ≡ some v
          → (p : List Bytes) × (get_balance_proof c e tree (index + i) k v.amount ≡ ok p))
      → (claims : List (Bytes × Claim)) × (claims_from c e m tree index ks ≡ ok claims)
  unfolding claims_from lift_tree
  claims_from_total m tree index [] h proofs = ([], refl)
  claims_from_total m tree index (k ∷ ks) ((v, at), h) proofs =
      let (p, given) = proofs 0 k v refl at in
      let here : index + 0 ≡ index = omega arith in
      let (claims, rest) = claims_from_total m tree (index + 1) ks h (λ i j w place found.
        let next : index + 1 + i ≡ index + suc i = omega arith in
        rw next (proofs (suc i) j w place found)) in
      (
        (k, record { index = index; amount = e.to_hex_string v.amount; proof = p; flags = v.flags })
            ∷ claims,
        rw (entry_at-some m k at, rw here at given, rest) refl,
      )

  balance_tree_total :
      (bal : List (Bytes × ℕ))
      → 0 < length bal
      → AllEncoded bal
      → length bal ≤ 2 ^ 256
      → (t : MerkleTree) × (root : Bytes) × (balance_tree c e bal ≡ ok t) × (get_root t ≡ some root)
  unfolding balance_tree lift_error nodes_from
  balance_tree_total [] h fits bound = absurd (omega (arith, h))
  balance_tree_total ((a, n) ∷ bal) h (n_lt, fits) bound =
      let hashed = to_node_fits c e 0 a n (omega arith) n_lt in
      let (nodes, made) = nodes_from_total c e 1 bal fits (omega (arith, bound)) in
      let (t, root, built, rooted) = (build_tree_total c).1 (e.solidity_keccak256 0 a n) nodes in
      (t, root, rw hashed (rw made (ap (λ r. lift_error r) built)), rooted)

  balance_tree_empty : balance_tree c e [] ≡ err (tree_error empty_tree)
  unfolding balance_tree lift_error nodes_from
  balance_tree_empty = ap (λ r. lift_error r) (build_tree_total c).0

  balance_tree-bound :
      (bal : List (Bytes × ℕ)) {t : MerkleTree}
      → balance_tree c e bal ≡ ok t
      → 0 < length bal
      → length bal ≤ 2 ^ 256
  unfolding balance_tree
  balance_tree-bound bal built some_balance =
      >>=-use (nodes_from c e 0 bal) _ built
        λ nodes made rest. omega (arith, nodes_from-bound c e 0 bal made some_balance)

  root_text_total :
      (t : MerkleTree) {root : Bytes}
      → get_root t ≡ some root
      → root_text c e t ≡ ok (c.buffer_to_hex root)
  unfolding root_text get_hex_root
  root_text_total t at = ground (arith, at)

  proof_at :
      (m : Data) (ks : List Bytes) (bal : List (Bytes × ℕ)) (t : MerkleTree)
      → IsFaithfulHex c
      → tree_balances m ks ≡ ok bal
      → balance_tree c e bal ≡ ok t
      → (i : ℕ) (k : Bytes) (v : Entry) → get_elem? ks i ≡ some k
      → lookup k m ≡ some v
      → (p : List Bytes) × (get_balance_proof c e t (0 + i) k v.amount ≡ ok p)
  proof_at m ks bal t faithful listed built i k v place found =
      let (w, found', at) = tree_balances-at m ks i listed place in
      let same : w ≡ v = ground (arith, found, found') in
      let (p, root, given, _, _) =
        get_balance_proof-verify_proof c e bal t i k v.amount faithful built (rw same at at) in
      let here : i ≡ 0 + i = omega arith in
      (buf_arr_to_hex_arr p, ap (λ n. get_balance_proof c e t n k v.amount) (sym here) ∙ given)

  parse_total :
      (balances : Balances) (m : Data)
      → IsFaithfulHex c
      → data_by_address e (balances_in_new_format balances) [] ≡ ok m
      → IsDistinct m
      → Matches e (balances_in_new_format balances) m
      → AllFit e (balances_in_new_format balances)
      → 0 < length m
      → length m ≤ 2 ^ 256
      → (info : DistributorInfo) × (parse_balance_map c e balances ≡ ok info)
  unfolding parse_balance_map lift_tree
  parse_total balances m faithful read distinct matches fits some_key few =
      let ks = sort_bytes (keys m) in
      let have =
        has_entries m ks
          (λ k h. lookup_of_contains k m (sym (contains-sort_bytes k (keys m)) ∙ h)) in
      let (bal, listed) = tree_balances_total m ks have in
      let counted : length bal ≡ length m =
        omega
          (arith, length-tree_balances m ks listed, length-sort_bytes (keys m), length-keys m) in
      let encoded =
        Matches-AllEncoded e (balances_in_new_format balances) m ks matches fits listed in
      let (t, root, built, rooted) =
        balance_tree_total bal (omega (arith, counted, some_key)) encoded
          (omega (arith, counted, few)) in
      let (claims, claimed) =
        claims_from_total m t 0 ks have
          (λ i k v place found. proof_at m ks bal t faithful listed built i k v place found) in
      (
        record {
          merkle_root = c.buffer_to_hex root;
          token_total = e.to_hex_string (sum_amounts m);
          claims = claims;
        },
        rw
            (
              read,
              listed,
              built,
              claimed,
              token_total-sum_amounts m distinct,
              root_text_total t rooted,
            )
            refl,
      )

  -- A tree is built of one balance at least.
  some_entry :
      (bal : List (Bytes × ℕ)) {t : MerkleTree} {n : ℕ}
      → balance_tree c e bal ≡ ok t
      → length bal ≡ n
      → 0 < n
  some_entry [] built counted = absurd (cc (built, balance_tree_empty))
  some_entry (x ∷ bal) built counted = omega arith

  acceptable :
      (balances : Balances) (info : DistributorInfo)
      → IsFaithfulHex c
      → parse_balance_map c e balances ≡ ok info
      → IsAcceptable e (balances_in_new_format balances) []
        × AllFit e (balances_in_new_format balances)
        × (0 < length (balances_in_new_format balances))
        × (length (balances_in_new_format balances) ≤ 2 ^ 256)
  acceptable balances info faithful h =
      let l = balances_in_new_format balances in
      let r = Run-of c e balances h in
      let (distinct, matches) = data_by_address-of_ok e l r.read in
      let counted : length r.entries ≡ length l = omega (
        arith,
        length-tree_balances r.m (sort_bytes (keys r.m)) r.listed,
        length-sort_bytes (keys r.m),
        length-keys r.m,
        length-Matches e l r.m matches,
      ) in
      let some_balance = some_entry r.entries r.built counted in
      let few = balance_tree-bound r.entries r.built (omega (arith, counted, some_balance)) in
      let fit : (j : ℕ) (b : NewFormat) → get_elem? l j ≡ some b → Fits e b = λ j b at.
        let (_, (i, n, cl, proof, root, _, _, reads, _, _, _, _, verified)) =
          parse_balance_map-claims c e balances info j b faithful h at in
        (n, reads, verify_proof-bound c e i (e.get_address b.address) n proof root verified) in
      (
        (data_by_address_iff e l).1 (r.m, r.read),
        AllFit-of e l fit,
        some_balance,
        omega (arith, counted, few),
      )

  -- Where no two buffers have one hex text, `parseBalanceMap` returns an output exactly if there is
  -- a balance at all, and no more than there are indices, every address is valid and is, in its
  -- checksummed form, the address of no other balance, and every amount is read as a number above
  -- zero that is a uint256. Otherwise it throws.
  pub parse_balance_map_iff :
      (balances : Balances)
      → IsFaithfulHex c
      → ((info : DistributorInfo) × (parse_balance_map c e balances ≡ ok info)) ↔ (
          IsAcceptable e (balances_in_new_format balances) []
          × AllFit e (balances_in_new_format balances)
          × (0 < length (balances_in_new_format balances))
          × (length (balances_in_new_format balances) ≤ 2 ^ 256))
  parse_balance_map_iff balances faithful = (
    λ (info, h). acceptable balances info faithful h,
    λ (good, fits, some_balance, few).
        let (m, read) = (data_by_address_iff e (balances_in_new_format balances)).0 good in
        let (distinct, matches) = data_by_address-of_ok e (balances_in_new_format balances) read in
        let counted = length-Matches e (balances_in_new_format balances) m matches in
        parse_total balances m faithful read distinct matches fits
          (omega (arith, counted, some_balance)) (omega (arith, counted, few)),
  )
