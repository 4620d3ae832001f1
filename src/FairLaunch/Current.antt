-- ===== src/FairLaunch/Current.antt =====
-- contracts/6/token/FairLaunch.sol: the reward blocks of the pools when a weight changes.
use huski_bsc_contract.Base.{
  ℕ, zero, suc, ◌+◌, ◌<◌, ◌≤◌, ◌≡◌, ◌≢◌, ◌⊎◌, refl, sym, ◌∙◌, ap, Bool, true, inl, inr, some, List,
  [], ◌∷◌, ◌++◌, arith, ltb, if◌then◌else◌, length, get_elem?, get_elem?-lt_length, Bytes, ok,
  >>=-eq-ok, >>=-use, require,
}
use huski_bsc_contract.Evm.{OpenZeppelin, checked, not_owner}
use huski_bsc_contract.FairLaunch.{
  PoolInfo, FairLaunch, Block, set_at, pool_at, update_pool, update_pools_from, mass_update_pools,
  push_pool, add_pool, set_pool,
}
use huski_bsc_contract.FairLaunch.Updates.{
  length-shapes, pool_at-eq_ok, update_pool-Updated, mass_update_pools-SameShape,
}

-- A pool that is read after a write is the one written, or was there before.
get_elem?-set_at :
    (i pid : ℕ) (q : PoolInfo) (pools : List PoolInfo) {p : PoolInfo}
    → get_elem? (set_at pid q pools) i ≡ some p
    → ((i ≡ pid) × (p ≡ q)) ⊎ ((i ≢ pid) × (get_elem? pools i ≡ some p))
unfolding set_at
get_elem?-set_at i pid q [] h = absurd (cc)
get_elem?-set_at zero zero q (r ∷ pools) h = inl (refl, ground (arith, h))
get_elem?-set_at zero (suc pid) q (r ∷ pools) h = inr (omega arith, h)
get_elem?-set_at (suc i) zero q (r ∷ pools) h = inr (omega arith, h)
get_elem?-set_at (suc i) (suc pid) q (r ∷ pools) h = elim (get_elem?-set_at i pid q pools h) [
  | inl (here, same) ↦ inl (ap suc here, same)
  | inr (other, before) ↦ inr (omega (arith, other), before)
]

get_elem?-push :
    (i : ℕ) (q : PoolInfo) (pools : List PoolInfo) {p : PoolInfo}
    → get_elem? (pools ++ q ∷ []) i ≡ some p
    → (p ≡ q) ⊎ (get_elem? pools i ≡ some p)
get_elem?-push zero q [] h = inl (ground (arith, h))
get_elem?-push (suc i) q [] h = absurd (cc)
get_elem?-push zero q (r ∷ pools) h = inr h
get_elem?-push (suc i) q (r ∷ pools) h = get_elem?-push i q pools h

-- The pools before an index have been brought up to a block.
abbrev CurrentBelow : Block → ℕ → List PoolInfo → Type 0
CurrentBelow b n pools =
    (i : ℕ) (p : PoolInfo) → i < n → get_elem? pools i ≡ some p → b.number ≤ p.last_reward_block

-- All pools have.
abbrev AllCurrent : Block → List PoolInfo → Type 0
AllCurrent b pools =
    (i : ℕ) (p : PoolInfo) → get_elem? pools i ≡ some p → b.number ≤ p.last_reward_block

set_at-AllCurrent :
    (b : Block) (pid : ℕ) (q : PoolInfo) (pools : List PoolInfo)
    → b.number ≤ q.last_reward_block
    → AllCurrent b pools
    → AllCurrent b (set_at pid q pools)
set_at-AllCurrent b pid q pools current all i p h = elim (get_elem?-set_at i pid q pools h) [
  | inl (here, same) ↦ rw same current
  | inr (other, before) ↦ all i p before
]

module _ (z : OpenZeppelin) where
  update_pools_from-CurrentBelow :
      (b : Block) (pid rounds : ℕ) (f : FairLaunch) {f' : FairLaunch}
      → update_pools_from z b pid rounds f ≡ ok f'
      → CurrentBelow b pid f.pools
      → CurrentBelow b (pid + rounds) f'.pools
  unfolding update_pools_from
  update_pools_from-CurrentBelow b pid zero f {f'} h below i p small at =
      let same : f ≡ f' = ground (arith, h) in
      below i p (omega (arith, small)) (ap (λ g. get_elem? g.pools i) same ∙ at)
  update_pools_from-CurrentBelow b pid (suc rounds) f h below i p small at =
      let (f1, first, rest) = >>=-eq-ok (update_pool z b pid f) _ h in
      let (pool, _, u) = update_pool-Updated z b pid f first in
      let below1 : CurrentBelow b (pid + 1) f1.pools = λ j q near found.
        elim (get_elem?-set_at j pid u.written f.pools
          (ap (λ l. get_elem? l j) (sym u.new_pools) ∙ found)) [
            | inl (here, same) ↦ rw same u.is_current
            | inr (other, before) ↦ below j q (omega (arith, near, other)) before
          ] in
      update_pools_from-CurrentBelow b (pid + 1) rounds f1 rest below1 i p (omega (arith, small)) at

  mass_update_pools-AllCurrent :
      (b : Block) (f : FairLaunch) {f' : FairLaunch}
      → mass_update_pools z b f ≡ ok f'
      → AllCurrent b f'.pools
  unfolding mass_update_pools
  mass_update_pools-AllCurrent b f {f'} h i p at =
      let same = ap length (mass_update_pools-SameShape z b f h).same_pools in
      let small = get_elem?-lt_length f'.pools i at in
      update_pools_from-CurrentBelow b 0 (length f.pools) f h
        (λ j q none_below found. absurd (omega (arith, none_below))) i p
        (omega (arith, small, same, length-shapes f.pools, length-shapes f'.pools)) at

  push_pool-AllCurrent :
      (b : Block) (symbol : Bytes) (alloc token : ℕ) (f : FairLaunch) {f' : FairLaunch}
      → push_pool z b symbol alloc token f ≡ ok f'
      → AllCurrent b f.pools
      → AllCurrent b f'.pools
  unfolding push_pool
  push_pool-AllCurrent b symbol alloc token f {f'} h all i p at =
      let q : PoolInfo = record {
        symbol = symbol;
        stake_token = token;
        alloc_point = alloc;
        last_reward_block = if ltb f.start_block b.number then b.number else f.start_block;
        acc_husky_per_share = 0;
        acc_husky_per_share_til_bonus_end = 0;
      } in
      let pools : f'.pools ≡ f.pools ++ q ∷ [] = ground (arith, h) in
      elim (get_elem?-push i q f.pools (ap (λ l. get_elem? l i) (sym pools) ∙ at)) [
        | inl same ↦ rw same (ground arith)
        | inr before ↦ all i p before
      ]

  -- A transaction that changes the weight of a pool and brings the pools up to date.
  pub data Weighs (b : Block) (f f' : FairLaunch) : Type 0 where
    adds_pool :
        (sender : ℕ) (symbol : Bytes) (alloc token : ℕ)
        → add_pool z b sender symbol alloc token true f ≡ ok f'
        → Weighs b f f'
    sets_pool :
        (sender pid alloc : ℕ) (with_update : Bool)
        → set_pool z b sender pid alloc with_update f ≡ ok f'
        → Weighs b f f'

  set_pool-AllCurrent :
      (b : Block) (sender pid alloc : ℕ) (with_update : Bool) (f : FairLaunch) {f' : FairLaunch}
      → set_pool z b sender pid alloc with_update f ≡ ok f'
      → AllCurrent b f'.pools
  unfolding set_pool
  set_pool-AllCurrent b sender pid alloc with_update f {f'} h =
      >>=-use (require (z.only_owner f.owner sender) not_owner) _ h λ _ _ h1.
        >>=-use (mass_update_pools z b f) _ h1 λ g updated h2.
          >>=-use (pool_at pid g) _ h2 λ pool found h3.
            >>=-use (checked (z.sub g.total_alloc_point pool.alloc_point)) _ h3 λ less _ h4.
              >>=-use (checked (z.add less alloc)) _ h4 λ total _ h5.
                let q : PoolInfo = record pool { alloc_point = alloc } in
                let pools : f'.pools ≡ set_at pid q g.pools = ground (arith, h5) in
                let all = mass_update_pools-AllCurrent b f updated in
                rw pools
                  (set_at-AllCurrent b pid q g.pools (all pid pool (pool_at-eq_ok pid g found)) all)

  -- After an `addPool` with update, and after a `setPool` whatever its last argument, every pool
  -- of the contract has been brought up to the block of the transaction, or starts later.
  pub Weighs-current :
      (b : Block) (f f' : FairLaunch) (i : ℕ) (p : PoolInfo)
      → Weighs b f f'
      → get_elem? f'.pools i ≡ some p
      → b.number ≤ p.last_reward_block
  unfolding add_pool
  Weighs-current b f f' i p (adds_pool sender symbol alloc token h) at =
      >>=-use (require (z.only_owner f.owner sender) not_owner) _ h λ _ _ h1.
        >>=-use (mass_update_pools z b f) _ h1 λ g updated h2.
          push_pool-AllCurrent b symbol alloc token g h2 (mass_update_pools-AllCurrent b f updated)
            i p at
  Weighs-current b f f' i p (sets_pool sender pid alloc with_update h) at =
      set_pool-AllCurrent b sender pid alloc with_update f h i p at
