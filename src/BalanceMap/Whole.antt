-- ===== src/BalanceMap/Whole.antt =====
-- utils/parse-balance-map.ts: the whole of `parseBalanceMap`.
use huski_bsc_contract.Base.{
  ℕ, zero, suc, ◌+◌, ◌≡◌, refl, ◌∙◌, ap, true, inl, inr, some, List, [], ◌∷◌, arith, length,
  get_elem?, Bytes, bytes_eq, bytes_eq-eq, bytes_eq_refl, ok, >>=-eq-ok, Bool-cases, pos,
}
use huski_bsc_contract.Merkle.{
  Crypto, IsFaithfulHex, MerkleTree, insert_sorted, sort_bytes, lookup, get_root,
}
use huski_bsc_contract.Merkle.Sort.{contains, contains-sort_bytes}
use huski_bsc_contract.BalanceTree.{
  Ethers, buf_arr_to_hex_arr, get_hex_root, balance_tree, verify_proof,
}
use huski_bsc_contract.BalanceTree.Verify.{get_balance_proof-verify_proof}
use huski_bsc_contract.BalanceMap.{
  NewFormat, Balances, balances_in_new_format, Entry, Data, Claim, DistributorInfo, flags_of, keys,
  tree_balances, token_total_from, lift_tree, data_by_address, claims_from, root_text,
  parse_balance_map,
}
use huski_bsc_contract.BalanceMap.Read.{IsDistinct, Matches, data_by_address-of_ok}
use huski_bsc_contract.BalanceMap.Totals.{
  sum_amounts, token_total-sum_amounts, input_total, sum_amounts-input_total,
}
use huski_bsc_contract.BalanceMap.Claims.{
  tree_balances-at, lift_tree-eq_ok, claims_from-at, length-claims_from,
}

length-insert_sorted : (k : Bytes) (ks : List Bytes) → length (insert_sorted k ks) ≡ suc (length ks)
unfolding insert_sorted
length-insert_sorted k [] = refl
length-insert_sorted k (j ∷ ks) = ground (arith, length-insert_sorted k ks)

pub length-sort_bytes : (ks : List Bytes) → length (sort_bytes ks) ≡ length ks
unfolding sort_bytes
length-sort_bytes [] = refl
length-sort_bytes (k ∷ ks) =
    omega (arith, length-insert_sorted k (sort_bytes ks), length-sort_bytes ks)

pub length-keys : (m : Data) → length (keys m) ≡ length m
unfolding keys
length-keys [] = refl
length-keys ((k, v) ∷ m) = ap suc (length-keys m)

place_of :
    (k : Bytes) (ks : List Bytes) → contains k ks ≡ true → (i : ℕ) × (get_elem? ks i ≡ some k)
unfolding contains
place_of k [] h = absurd (ground arith)
place_of k (j ∷ ks) h = elim (Bool-cases (bytes_eq j k)) [
  | inl same ↦ (0, ap some (bytes_eq-eq j k same))
  | inr other ↦ let (i, at) = place_of k ks (ground (arith, h, other)) in (suc i, at)
]

contains-keys_of_some :
    (k : Bytes) (m : Data) (v : Entry) → lookup k m ≡ some v → contains k (keys m) ≡ true
unfolding lookup contains keys
contains-keys_of_some k [] v h = absurd (cc)
contains-keys_of_some k ((j, w) ∷ m) v h = ground (arith, contains-keys_of_some k m v)

module _ (e : Ethers) where
  pub length-Matches : (l : List NewFormat) (m : Data) → Matches e l m → length m ≡ length l
  length-Matches [] [] h = refl
  length-Matches [] (x ∷ m) h = absurd h
  length-Matches (b ∷ l) [] h = absurd h
  length-Matches (b ∷ l) ((k, v) ∷ m) h =
      let (_, _, _, _, _, rest) = h in ap suc (length-Matches l m rest)

  -- The entry of a balance has its amount and its flags.
  Matches-at :
      (l : List NewFormat) (m : Data) (j : ℕ) {b : NewFormat}
      → Matches e l m
      → IsDistinct m
      → get_elem? l j ≡ some b
      → (v : Entry) × (lookup (e.get_address b.address) m ≡ some v)
        × (e.big_number b.earnings ≡ some (pos v.amount))
        × (v.flags ≡ flags_of b.reasons)
  unfolding lookup
  Matches-at [] m j h d at = absurd (ground arith)
  Matches-at (b ∷ l) [] j h d at = absurd h
  Matches-at (b ∷ l) ((k, v) ∷ m) zero {b = b'} (valid, key, reads, positive, flags, rest) d at =
      let same : b ≡ b' = ground (arith, at) in
      rw (← same) (v, rw key (rw (bytes_eq_refl (e.get_address b.address)) refl), reads, flags)
  Matches-at (b ∷ l) ((k, v) ∷ m) (suc j) {b = b'} (valid, key, reads, positive, flags, rest) d at =
      let (v', found, reads', flags') = Matches-at l m j rest d.1 at in
      (v', ground (arith, d.0, found, bytes_eq-eq k (e.get_address b'.address)), reads', flags')

module _ (c : Crypto) (e : Ethers) where
  -- What a run of `parseBalanceMap` has gone through.
  pub record Run (l : List NewFormat) (info : DistributorInfo) : Type 0 where
    pub m : Data
    pub entries : List (Bytes × ℕ)
    pub tree : MerkleTree
    pub total : ℕ
    pub read : data_by_address e l [] ≡ ok m
    pub listed : tree_balances m (sort_bytes (keys m)) ≡ ok entries
    pub built : balance_tree c e entries ≡ ok tree
    pub claimed : claims_from c e m tree 0 (sort_bytes (keys m)) ≡ ok info.claims
    pub summed : token_total_from m (sort_bytes (keys m)) 0 ≡ ok total
    pub total_text : info.token_total ≡ e.to_hex_string total
    pub rooted : root_text c e tree ≡ ok info.merkle_root

  pub Run-of :
      (balances : Balances) {info : DistributorInfo}
      → parse_balance_map c e balances ≡ ok info
      → Run (balances_in_new_format balances) info
  unfolding parse_balance_map
  Run-of balances {info} h =
      let (m, read, h1) = >>=-eq-ok (data_by_address e (balances_in_new_format balances) []) _ h in
      let (entries, listed, h2) = >>=-eq-ok (tree_balances m (sort_bytes (keys m))) _ h1 in
      let (tree, built, h3) = >>=-eq-ok (lift_tree (balance_tree c e entries)) _ h2 in
      let (claims, claimed, h4) = >>=-eq-ok (claims_from c e m tree 0 (sort_bytes (keys m))) _ h3 in
      let (total, summed, h5) = >>=-eq-ok (token_total_from m (sort_bytes (keys m)) 0) _ h4 in
      let (root, rooted, h6) = >>=-eq-ok (root_text c e tree) _ h5 in
      record {
        m = m;
        entries = entries;
        tree = tree;
        total = total;
        read = read;
        listed = listed;
        built = lift_tree-eq_ok c e (balance_tree c e entries) built;
        claimed = ground (arith, claimed, h6);
        summed = summed;
        total_text = ground (arith, h6);
        rooted = ground (arith, rooted, h6);
      }

  root_text-eq_ok :
      (tree : MerkleTree) (root : Bytes) {t : Bytes}
      → get_root tree ≡ some root
      → root_text c e tree ≡ ok t
      → t ≡ c.buffer_to_hex root
  unfolding root_text get_hex_root
  root_text-eq_ok tree root at h = ground (arith, at, h)

  count_lem :
      (l : List NewFormat) {info : DistributorInfo} (r : Run l info)
      → Matches e l r.m
      → length info.claims ≡ length l
  count_lem l r matches = omega (
    arith,
    length-claims_from c e r.m r.tree 0 (sort_bytes (keys r.m)) r.claimed,
    length-sort_bytes (keys r.m),
    length-keys r.m,
    length-Matches e l r.m matches,
  )

  -- The claim of a balance, and the proof that it carries.
  abbrev HasClaim : NewFormat → DistributorInfo → Type 0
  HasClaim b info =
      (i n : ℕ) × (cl : Claim) × (proof : List Bytes) × (root : Bytes) × (get_elem? info.claims i
        ≡ some (e.get_address b.address, cl))
      × (cl.index ≡ i)
      × (e.big_number b.earnings ≡ some (pos n))
      × (cl.amount ≡ e.to_hex_string n)
      × (cl.flags ≡ flags_of b.reasons)
      × (cl.proof ≡ buf_arr_to_hex_arr proof)
      × (info.merkle_root ≡ c.buffer_to_hex root)
      × (verify_proof c e i (e.get_address b.address) n proof root ≡ ok true)

  claim_of :
      (l : List NewFormat) {info : DistributorInfo} (r : Run l info)
      → IsFaithfulHex c
      → IsDistinct r.m
      → Matches e l r.m
      → (j : ℕ) (b : NewFormat) → get_elem? l j ≡ some b
      → HasClaim b info
  claim_of l {info} r faithful distinct matches j b at =
      let k = e.get_address b.address in
      let ks = sort_bytes (keys r.m) in
      let (v, found, reads, flags) = Matches-at e l r.m j matches distinct at in
      let (i, here) =
        place_of k ks (contains-sort_bytes k (keys r.m) ∙ contains-keys_of_some k r.m v found) in
      let (v1, cl, found1, place, (index, amount, flags1, proved)) =
        claims_from-at c e r.m r.tree 0 ks i r.claimed here in
      let (v2, found2, listed) = tree_balances-at r.m ks i r.listed here in
      let here_zero : 0 + i ≡ i = omega arith in
      let same1 : v1 ≡ v = ground (arith, found, found1) in
      let same2 : v2 ≡ v = ground (arith, found, found2) in
      let (proof, root, given, rooted, accepted) =
        get_balance_proof-verify_proof c e r.entries r.tree i k v.amount faithful r.built
          (rw same2 at listed) in
      (
        i,
        v.amount,
        cl,
        proof,
        root,
        place,
        index ∙ omega arith,
        reads,
        ground (arith, amount, same1),
        ground (arith, flags, flags1, same1),
        ground (arith, given, proved, same1, here_zero),
        root_text-eq_ok r.tree root rooted r.rooted,
        accepted,
      )

  -- In the output of `parseBalanceMap`, where no two buffers have one hex text, there are as many
  -- claims as balances, and each balance has a claim: it stands under the checksummed address at
  -- the position that is its index, with the amount that was read and the flags of the reasons,
  -- and its proof is the hex texts of buffers which `verifyProof` accepts for this index, address
  -- and amount and for the root whose hex text is the merkle root of the output.
  pub parse_balance_map-claims :
      (balances : Balances) (info : DistributorInfo) (j : ℕ) (b : NewFormat)
      → IsFaithfulHex c
      → parse_balance_map c e balances ≡ ok info
      → get_elem? (balances_in_new_format balances) j ≡ some b
      → (length info.claims ≡ length (balances_in_new_format balances))
        × ((i n : ℕ) × (cl : Claim) × (proof : List Bytes) × (root : Bytes) × (get_elem? info.claims
                i
              ≡ some (e.get_address b.address, cl))
            × (cl.index ≡ i)
            × (e.big_number b.earnings ≡ some (pos n))
            × (cl.amount ≡ e.to_hex_string n)
            × (cl.flags ≡ flags_of b.reasons)
            × (cl.proof ≡ buf_arr_to_hex_arr proof)
            × (info.merkle_root ≡ c.buffer_to_hex root)
            × (verify_proof c e i (e.get_address b.address) n proof root ≡ ok true))
  parse_balance_map-claims balances info j b faithful h at =
      let l = balances_in_new_format balances in
      let r = Run-of balances h in
      let (distinct, matches) = data_by_address-of_ok e l r.read in
      (count_lem l r matches, claim_of l r faithful distinct matches j b at)

  -- The token total of the output of `parseBalanceMap` is the sum of the amounts of all balances.
  pub parse_balance_map-total :
      (balances : Balances) (info : DistributorInfo)
      → parse_balance_map c e balances ≡ ok info
      → info.token_total ≡ e.to_hex_string (input_total e (balances_in_new_format balances))
  parse_balance_map-total balances info h =
      let r = Run-of balances h in
      let (distinct, matches) = data_by_address-of_ok e (balances_in_new_format balances) r.read in
      let sums : r.total ≡ sum_amounts r.m =
        ground (arith, r.summed, token_total-sum_amounts r.m distinct) in
      r.total_text
      ∙ ap e.to_hex_string
          (sums ∙ sum_amounts-input_total e (balances_in_new_format balances) r.m matches)
