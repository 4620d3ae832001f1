-- ===== src/BalanceMap/Fits.antt =====
-- utils/parse-balance-map.ts with utils/balance-tree.ts: the numbers that the tree can encode.
use huski_bsc_contract.Base.{
  ℕ, suc, ◌+◌, ◌^◌, ◌≡◌, ◌≤◌, ◌<◌, refl, true, some, List, [], ◌∷◌, arith, length, get_elem?, Bytes,
  subst, ok, >>=-use, pos,
}
use huski_bsc_contract.Merkle.{Crypto, lookup}
use huski_bsc_contract.BalanceTree.{Ethers, to_node, nodes_from, verify_proof}
use huski_bsc_contract.BalanceTree.Verify.{to_node-eq_ok, to_node_fits}
use huski_bsc_contract.BalanceMap.{NewFormat, Entry, Data, entry_at, tree_balances}
use huski_bsc_contract.BalanceMap.Read.{Matches}
use huski_bsc_contract.BalanceMap.Claims.{entry_at-eq_ok}

abbrev AllSmall : Data → Type 0
AllSmall [] = Unit {0}
AllSmall ((k, v) ∷ m) = (v.amount < 2 ^ 256) × AllSmall m

abbrev pub AllEncoded : List (Bytes × ℕ) → Type 0
AllEncoded [] = Unit {0}
AllEncoded ((a, n) ∷ bal) = (n < 2 ^ 256) × AllEncoded bal

lookup-AllSmall :
    (k : Bytes) (m : Data) {v : Entry} → AllSmall m → lookup k m ≡ some v → v.amount < 2 ^ 256
unfolding lookup
lookup-AllSmall k [] small h = absurd (ground (arith, h))
lookup-AllSmall k ((j, w) ∷ m) {v} (first, rest) h =
    let later = lookup-AllSmall k m {v = v} rest in ground (arith, first, later, h)

tree_balances-AllEncoded :
    (m : Data) (ks : List Bytes) {bal : List (Bytes × ℕ)}
    → AllSmall m
    → tree_balances m ks ≡ ok bal
    → AllEncoded bal
unfolding tree_balances
tree_balances-AllEncoded m [] {bal} small h =
    let same : [] ≡ bal = ground (arith, h) in subst (λ l. AllEncoded l) same tt
tree_balances-AllEncoded m (k ∷ ks) {bal} small h = >>=-use (entry_at m k) _ h λ v found h1.
    >>=-use (tree_balances m ks) _ h1 λ others rest h2.
      let same : (k, v.amount) ∷ others ≡ bal = ground (arith, h2) in
      subst (λ l. AllEncoded l) same
        (
          lookup-AllSmall k m small (entry_at-eq_ok m k found),
          tree_balances-AllEncoded m ks small rest,
        )

module _ (e : Ethers) where
  -- An amount that is read as a uint256.
  abbrev pub Fits : NewFormat → Type 0
  Fits b = (n : ℕ) × (e.big_number b.earnings ≡ some (pos n)) × (n < 2 ^ 256)

  abbrev pub AllFit : List NewFormat → Type 0
  AllFit [] = Unit {0}
  AllFit (b ∷ l) = Fits b × AllFit l

  pub AllFit-of :
      (l : List NewFormat) → ((j : ℕ) (b : NewFormat) → get_elem? l j ≡ some b → Fits b) → AllFit l
  AllFit-of [] h = tt
  AllFit-of (b ∷ l) h = (h 0 b refl, AllFit-of l (λ j d at. h (suc j) d at))

  Matches-AllSmall : (l : List NewFormat) (m : Data) → Matches e l m → AllFit l → AllSmall m
  Matches-AllSmall [] [] h fits = tt
  Matches-AllSmall [] (x ∷ m) h fits = absurd h
  Matches-AllSmall (b ∷ l) [] h fits = absurd h
  Matches-AllSmall (b ∷ l) ((k, v) ∷ m) (_, _, reads, _, _, rest) ((n, read, n_lt), fits) =
      let same : n ≡ v.amount = ground (arith, reads, read) in
      (subst (λ x. x < 2 ^ 256) same n_lt, Matches-AllSmall l m rest fits)

  pub Matches-AllEncoded :
      (l : List NewFormat) (m : Data) (ks : List Bytes) {bal : List (Bytes × ℕ)}
      → Matches e l m
      → AllFit l
      → tree_balances m ks ≡ ok bal
      → AllEncoded bal
  Matches-AllEncoded l m ks matches fits listed =
      tree_balances-AllEncoded m ks (Matches-AllSmall l m matches fits) listed

module _ (c : Crypto) (e : Ethers) where
  pub nodes_from_total :
      (index : ℕ) (bal : List (Bytes × ℕ))
      → AllEncoded bal
      → index + length bal ≤ 2 ^ 256
      → (nodes : List Bytes) × (nodes_from c e index bal ≡ ok nodes)
  unfolding nodes_from
  nodes_from_total index [] fits bound = ([], refl)
  nodes_from_total index ((a, n) ∷ bal) (n_lt, fits) bound =
      let (nodes, made) = nodes_from_total (index + 1) bal fits (omega (arith, bound)) in
      let hashed = to_node_fits c e index a n (omega (arith, bound)) n_lt in
      (e.solidity_keccak256 index a n ∷ nodes, rw hashed (rw made refl))

  -- The last index is a uint256.
  pub nodes_from-bound :
      (index : ℕ) (bal : List (Bytes × ℕ)) {nodes : List Bytes}
      → nodes_from c e index bal ≡ ok nodes
      → 0 < length bal
      → index + length bal ≤ 2 ^ 256
  unfolding nodes_from
  nodes_from-bound index [] made h = absurd (omega (arith, h))
  nodes_from-bound index ((a, n) ∷ []) made h =
      >>=-use (to_node c e index a n) _ made λ node hashed rest.
        let (_, index_lt, _) = to_node-eq_ok c e index a n hashed in omega (arith, index_lt)
  nodes_from-bound index ((a, n) ∷ next ∷ bal) made h =
      >>=-use (to_node c e index a n) _ made λ node hashed made1.
        >>=-use (nodes_from c e (index + 1) (next ∷ bal)) _ made1 λ nodes later made2.
          omega (arith, nodes_from-bound (index + 1) (next ∷ bal) later (omega arith))

  -- A balance whose proof is checked has an amount that fits.
  pub verify_proof-bound :
      (i : ℕ) (account : Bytes) (n : ℕ) (proof : List Bytes) (root : Bytes)
      → verify_proof c e i account n proof root ≡ ok true
      → n < 2 ^ 256
  unfolding verify_proof
  verify_proof-bound i account n proof root h =
      >>=-use (to_node c e i account n) _ h
        λ node hashed rest. let (_, _, n_lt) = to_node-eq_ok c e i account n hashed in n_lt
