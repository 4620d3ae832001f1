-- ===== src/BalanceMap/Claims.antt =====
-- utils/parse-balance-map.ts: the balances of the tree and the claims, entry by entry.
use huski_bsc_contract.Base.{
  ℕ, zero, suc, ◌+◌, ◌≡◌, refl, some, List, [], ◌∷◌, arith, length, get_elem?, Bytes, Result, ok,
  err, >>=-eq-ok,
}
use huski_bsc_contract.Merkle.{Crypto, MerkleTree, lookup}
use huski_bsc_contract.Merkle.Sort.{}
use huski_bsc_contract.BalanceTree.{Ethers, BalanceError, get_balance_proof}
use huski_bsc_contract.BalanceTree.Verify.{}
use huski_bsc_contract.BalanceMap.{
  Entry, Data, Claim, entry_at, tree_balances, lift_tree, claims_from,
}
use huski_bsc_contract.BalanceMap.Read.{}
use huski_bsc_contract.BalanceMap.Totals.{}

pub entry_at-eq_ok : (m : Data) (k : Bytes) {v : Entry} → entry_at m k ≡ ok v → lookup k m ≡ some v
unfolding entry_at
entry_at-eq_ok m k h = ground arith

pub tree_balances-at :
    (m : Data) (ks : List Bytes) {bal : List (Bytes × ℕ)} (i : ℕ) {k : Bytes}
    → tree_balances m ks ≡ ok bal
    → get_elem? ks i ≡ some k
    → (v : Entry) × (lookup k m ≡ some v) × (get_elem? bal i ≡ some (k, v.amount))
unfolding tree_balances
tree_balances-at m [] i h at = absurd (ground arith)
tree_balances-at m (j ∷ ks) {bal} zero {k} h at =
    let (v, found, h') = >>=-eq-ok (entry_at m j) _ h in
    let (others, rest, h'') = >>=-eq-ok (tree_balances m ks) _ h' in
    let same : j ≡ k = ground (arith, at) in
    (v, rw (← same) (entry_at-eq_ok m j found), ground (arith, same, h''))
tree_balances-at m (j ∷ ks) {bal} (suc i) {k} h at =
    let (v, found, h') = >>=-eq-ok (entry_at m j) _ h in
    let (others, rest, h'') = >>=-eq-ok (tree_balances m ks) _ h' in
    let (v', found', at') = tree_balances-at m ks i rest at in
    (v', found', ground (arith, at', h''))

module _ (c : Crypto) (e : Ethers) where
  -- What a claim holds, for the entry of its address at its index.
  abbrev pub ClaimOf : MerkleTree → ℕ → Bytes → Entry → Claim → Type 0
  ClaimOf tree i k v cl =
      (cl.index ≡ i)
      × (cl.amount ≡ e.to_hex_string v.amount)
      × (cl.flags ≡ v.flags)
      × (get_balance_proof c e tree i k v.amount ≡ ok cl.proof)

  pub lift_tree-eq_ok :
      {A : Type 0} (r : Result BalanceError A) {a : A} → lift_tree r ≡ ok a → r ≡ ok a
  unfolding lift_tree
  lift_tree-eq_ok (ok a) h = ground arith
  lift_tree-eq_ok (err x) h = absurd (cc)

  pub claims_from-at :
      (m : Data) (tree : MerkleTree) (index : ℕ) (ks : List Bytes) {claims : List (Bytes × Claim)}
      (i : ℕ) {k : Bytes}
      → claims_from c e m tree index ks ≡ ok claims
      → get_elem? ks i ≡ some k
      → (v : Entry) × (cl : Claim) × (lookup k m ≡ some v)
        × (get_elem? claims i ≡ some (k, cl))
        × ClaimOf tree (index + i) k v cl
  unfolding claims_from
  claims_from-at m tree index [] i h at = absurd (ground arith)
  claims_from-at m tree index (j ∷ ks) {claims} zero {k} h at =
      let (v, found, h1) = >>=-eq-ok (entry_at m j) _ h in
      let (proof, proved, h2) =
        >>=-eq-ok (lift_tree (get_balance_proof c e tree index j v.amount)) _ h1 in
      let (others, rest, h3) = >>=-eq-ok (claims_from c e m tree (index + 1) ks) _ h2 in
      let same : j ≡ k = ground (arith, at) in
      let here : index ≡ index + 0 = omega arith in
      let given = lift_tree-eq_ok (get_balance_proof c e tree index j v.amount) proved in
      (
        v,
        record { index = index; amount = e.to_hex_string v.amount; proof = proof; flags = v.flags },
        rw (← same) (entry_at-eq_ok m j found),
        ground (arith, same, h3),
        (here, refl, refl, rw (← same, ← here) given),
      )
  claims_from-at m tree index (j ∷ ks) {claims} (suc i) {k} h at =
      let (v, found, h1) = >>=-eq-ok (entry_at m j) _ h in
      let (proof, proved, h2) =
        >>=-eq-ok (lift_tree (get_balance_proof c e tree index j v.amount)) _ h1 in
      let (others, rest, h3) = >>=-eq-ok (claims_from c e m tree (index + 1) ks) _ h2 in
      let (v', cl, found', at', of) = claims_from-at m tree (index + 1) ks i rest at in
      let next : index + 1 + i ≡ index + suc i = omega arith in
      (v', cl, found', ground (arith, at', h3), rw (← next) of)

  pub length-claims_from :
      (m : Data) (tree : MerkleTree) (index : ℕ) (ks : List Bytes) {claims : List (Bytes × Claim)}
      → claims_from c e m tree index ks ≡ ok claims
      → length claims ≡ length ks
  unfolding claims_from
  length-claims_from m tree index [] h = ground (arith, h)
  length-claims_from m tree index (j ∷ ks) {claims} h =
      let (v, found, h1) = >>=-eq-ok (entry_at m j) _ h in
      let (proof, proved, h2) =
        >>=-eq-ok (lift_tree (get_balance_proof c e tree index j v.amount)) _ h1 in
      let (others, rest, h3) = >>=-eq-ok (claims_from c e m tree (index + 1) ks) _ h2 in
      ground (arith, h3, length-claims_from m tree (index + 1) ks rest)
