-- ===== src/BalanceTree/Verify.antt =====
-- utils/balance-tree.ts: `verifyProof` on what `getProof` returns.
use huski_bsc_contract.Base.{
  ℕ, zero, suc, ◌+◌, ◌^◌, ◌≡◌, ◌<◌, ◌&&◌, refl, ◌∙◌, ap, subst, true, some, List, [], ◌∷◌, arith,
  ltb, get_elem?, Bytes, bytes_eq_refl, Result, ok, err, >>=-use, require, require-eq-ok,
}
use huski_bsc_contract.Merkle.{Crypto, TreeError, IsFaithfulHex, MerkleTree, get_root}
use huski_bsc_contract.Merkle.Sort.{contains}
use huski_bsc_contract.Merkle.Tree.{get_proof-fold_proof, build_tree-root}
use huski_bsc_contract.BalanceTree.{
  Ethers, value_out_of_bounds, lift_error, buf_arr_to_hex_arr, get_hex_proof, to_node, verify_proof,
  nodes_from, balance_tree, get_balance_proof,
}

pub lift_error-eq_ok :
    {A : Type 0} (r : Result TreeError A) {a : A} → lift_error r ≡ ok a → r ≡ ok a
unfolding lift_error
lift_error-eq_ok (ok a) h = ground arith
lift_error-eq_ok (err x) h = absurd (cc)

module _ (c : Crypto) (e : Ethers) where
  -- `toNode` hashes numbers that fit.
  pub to_node-eq_ok :
      (i : ℕ) (account : Bytes) (n : ℕ) {node : Bytes}
      → to_node c e i account n ≡ ok node
      → (node ≡ e.solidity_keccak256 i account n) × (i < 2 ^ 256) × (n < 2 ^ 256)
  unfolding to_node
  to_node-eq_ok i account n h =
      >>=-use (require (ltb i (2 ^ 256) && ltb n (2 ^ 256)) value_out_of_bounds) _ h λ u fits h1.
        let test = require-eq-ok (ltb i (2 ^ 256) && ltb n (2 ^ 256)) value_out_of_bounds fits in
        (ground (arith, h1), ground (arith, test), ground (arith, test))

  pub to_node_fits :
      (i : ℕ) (account : Bytes) (n : ℕ)
      → i < 2 ^ 256
      → n < 2 ^ 256
      → to_node c e i account n ≡ ok (e.solidity_keccak256 i account n)
  unfolding to_node
  to_node_fits i account n i_lt n_lt =
      let test : (ltb i (2 ^ 256) && ltb n (2 ^ 256)) ≡ true = ground (arith, i_lt, n_lt) in
      rw test refl

  contains-nodes_from :
      (index i : ℕ) (balances : List (Bytes × ℕ)) {nodes : List Bytes} {account : Bytes}
      {amount : ℕ}
      → nodes_from c e index balances ≡ ok nodes
      → get_elem? balances i ≡ some (account, amount)
      → (node : Bytes) × (to_node c e (index + i) account amount ≡ ok node)
        × (contains node nodes ≡ true)
  unfolding nodes_from contains
  contains-nodes_from index i [] made h = absurd (ground arith)
  contains-nodes_from index zero ((a, n) ∷ rest) {nodes} {account} {amount} made h =
      >>=-use (to_node c e index a n) _ made λ node hashed made1.
        >>=-use (nodes_from c e (index + 1) rest) _ made1 λ others later made2.
          let same : ◌≡◌ {A = Bytes × ℕ} (a, n) (account, amount) = ground (arith, h) in
          let at : index ≡ index + 0 = omega arith in
          let all : node ∷ others ≡ nodes = ground (arith, made2) in
          (
            node,
            subst (λ x. to_node c e (index + 0) x.0 x.1 ≡ ok node) same
                (subst (λ k. to_node c e k a n ≡ ok node) at hashed),
            subst (λ l. contains node l ≡ true) all (rw (bytes_eq_refl node) refl),
          )
  contains-nodes_from index (suc i) ((a, n) ∷ rest) {nodes} {account} {amount} made h =
      >>=-use (to_node c e index a n) _ made λ first hashed made1.
        >>=-use (nodes_from c e (index + 1) rest) _ made1 λ others later made2.
          let (node, found, member) = contains-nodes_from (index + 1) i rest later h in
          let at : index + 1 + i ≡ index + suc i = omega arith in
          let all : first ∷ others ≡ nodes = ground (arith, made2) in
          (
            node,
            subst (λ k. to_node c e k account amount ≡ ok node) at found,
            subst (λ l. contains node l ≡ true) all (ground (arith, member)),
          )

  -- In a balance tree, where no two buffers have one hex text, `getProof` of a balance at its
  -- index returns the hex texts of a proof that `verifyProof` accepts for this balance and the
  -- root of the tree.
  pub get_balance_proof-verify_proof :
      (balances : List (Bytes × ℕ)) (t : MerkleTree) (i : ℕ) (account : Bytes) (amount : ℕ)
      → IsFaithfulHex c
      → balance_tree c e balances ≡ ok t
      → get_elem? balances i ≡ some (account, amount)
      → (proof : List Bytes) × (root : Bytes) × (get_balance_proof c e t i account amount
          ≡ ok (buf_arr_to_hex_arr proof))
        × (get_root t ≡ some root)
        × (verify_proof c e i account amount proof root ≡ ok true)
  unfolding balance_tree get_balance_proof get_hex_proof verify_proof lift_error
  get_balance_proof-verify_proof balances t i account amount faithful built h =
      >>=-use (nodes_from c e 0 balances) _ built λ nodes made built1.
        let built2 = lift_error-eq_ok _ built1 in
        let (node, hashed0, member) = contains-nodes_from 0 i balances made h in
        let hashed : to_node c e i account amount ≡ ok node =
          ap (λ k. to_node c e k account amount) (omega arith) ∙ hashed0 in
        let (proof, given, folds) = get_proof-fold_proof c nodes t node faithful built2 member in
        let (root, at) = build_tree-root c nodes built2 in
        let hexed : get_hex_proof c t node ≡ ok (buf_arr_to_hex_arr proof) =
          ground (arith, given) in
        let folded = folds ∙ at in
        (
          proof,
          root,
          rw hashed (ap (λ r. lift_error r) hexed),
          at,
          rw hashed (rw folded (rw (bytes_eq_refl root) refl)),
        )
