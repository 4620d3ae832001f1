-- ===== src/FairLaunch/Updates.antt =====
-- contracts/6/token/FairLaunch.sol: what `updatePool` and `massUpdatePools` write.
use huski_bsc_contract.Base.{
  ◌≤◌, ℕ, zero, suc, ◌+◌, ◌≡◌, refl, sym, ◌∙◌, ap, inl, inr, some, List, [], ◌∷◌, arith, Bool-cases,
  ltb, leb, ◌==◌, length, get_elem?, Bytes, ok, >>=-eq-ok, >>=-use,
}
use huski_bsc_contract.Evm.{OpenZeppelin, checked}
use huski_bsc_contract.FairLaunch.{
  PoolInfo, FairLaunch, Block, HuskyCall, mint, set_at, call_husky, pool_at, get_multiplier, reward,
  lock_dev, accumulate, bonus_part, distribute, update_pool, update_pools_from, mass_update_pools,
}

-- What identifies a pool and its share: all but the reward variables.
abbrev pub Shape : Type 0
Shape = Bytes × ℕ × ℕ

abbrev pub shape : PoolInfo → Shape
shape p = (p.symbol, p.stake_token, p.alloc_point)

unfoldable pub shapes : List PoolInfo → List Shape
shapes [] = []
shapes (p ∷ pools) = shape p ∷ shapes pools

-- The contract is the same but for its reward variables and the calls it has made.
pub record SameShape (f f' : FairLaunch) : Type 0 where
  pub same_pools : shapes f'.pools ≡ shapes f.pools
  pub same_total : f'.total_alloc_point ≡ f.total_alloc_point
  pub same_owner : f'.owner ≡ f.owner
  pub same_start : f'.start_block ≡ f.start_block
  pub same_self : f'.self ≡ f.self

pub SameShape-refl : (f : FairLaunch) → SameShape f f
SameShape-refl f = record {
  same_pools = refl;
  same_total = refl;
  same_owner = refl;
  same_start = refl;
  same_self = refl;
}

pub SameShape-trans : {f g h : FairLaunch} → SameShape f g → SameShape g h → SameShape f h
SameShape-trans s t = record {
  same_pools = t.same_pools ∙ s.same_pools;
  same_total = t.same_total ∙ s.same_total;
  same_owner = t.same_owner ∙ s.same_owner;
  same_start = t.same_start ∙ s.same_start;
  same_self = t.same_self ∙ s.same_self;
}

pub shapes-set_at :
    (pid : ℕ) (q : PoolInfo) (pools : List PoolInfo) {p : PoolInfo}
    → get_elem? pools pid ≡ some p
    → shape q ≡ shape p
    → shapes (set_at pid q pools) ≡ shapes pools
unfolding shapes set_at
shapes-set_at pid q [] at same = absurd (cc)
shapes-set_at zero q (r ∷ pools) {p} at same =
    let here : r ≡ p = ground (arith, at) in ap (λ s. s ∷ shapes pools) (same ∙ ap shape (sym here))
shapes-set_at (suc pid) q (r ∷ pools) at same =
    ap (◌∷◌ (shape r)) (shapes-set_at pid q pools at same)

pub length-shapes : (pools : List PoolInfo) → length (shapes pools) ≡ length pools
unfolding shapes
length-shapes [] = refl
length-shapes (p ∷ pools) = ap suc (length-shapes pools)

-- The contract is the same but for the calls it has made.
record OnlyCalls (f f' : FairLaunch) : Type 0 where
  pools_kept : f'.pools ≡ f.pools
  total_kept : f'.total_alloc_point ≡ f.total_alloc_point
  owner_kept : f'.owner ≡ f.owner
  start_kept : f'.start_block ≡ f.start_block
  self_kept : f'.self ≡ f.self

call_husky-OnlyCalls :
    (b : Block) (c : HuskyCall) (f : FairLaunch) {f' : FairLaunch}
    → call_husky b c f ≡ ok f'
    → OnlyCalls f f'
unfolding call_husky
call_husky-OnlyCalls b c f h = ground arith

OnlyCalls-trans : {f g h : FairLaunch} → OnlyCalls f g → OnlyCalls g h → OnlyCalls f h
OnlyCalls-trans s t = ground arith

OnlyCalls-refl : (f : FairLaunch) → OnlyCalls f f
OnlyCalls-refl f = ground arith

pub pool_at-eq_ok :
    (pid : ℕ) (f : FairLaunch) {pool : PoolInfo}
    → pool_at pid f ≡ ok pool
    → get_elem? f.pools pid ≡ some pool
unfolding pool_at
pool_at-eq_ok pid f h = ground arith

-- The pool at an index is written back with the same shape, and is up to date.
pub record Updated (b : Block) (pid : ℕ) (pool : PoolInfo) (f f' : FairLaunch) : Type 0 where
  pub written : PoolInfo
  pub is_current : b.number ≤ written.last_reward_block
  pub same_shape : shape written ≡ shape pool
  pub new_pools : f'.pools ≡ set_at pid written f.pools
  pub kept_total : f'.total_alloc_point ≡ f.total_alloc_point
  pub kept_owner : f'.owner ≡ f.owner
  pub kept_start : f'.start_block ≡ f.start_block
  pub kept_self : f'.self ≡ f.self

Updated-SameShape :
    (b : Block) (pid : ℕ) (pool : PoolInfo) (f f' : FairLaunch)
    → get_elem? f.pools pid ≡ some pool
    → Updated b pid pool f f'
    → SameShape f f'
Updated-SameShape b pid pool f f' at u = record {
  same_pools = ap shapes u.new_pools ∙ shapes-set_at pid u.written f.pools at u.same_shape;
  same_total = u.kept_total;
  same_owner = u.kept_owner;
  same_start = u.kept_start;
  same_self = u.kept_self;
}

set_at-same :
    (pid : ℕ) (pool : PoolInfo) (pools : List PoolInfo)
    → get_elem? pools pid ≡ some pool
    → set_at pid pool pools ≡ pools
unfolding set_at
set_at-same pid pool [] at = refl
set_at-same zero pool (p ∷ pools) at = ground (arith, at)
set_at-same (suc pid) pool (p ∷ pools) at = ap (◌∷◌ p) (set_at-same pid pool pools at)

module _ (z : OpenZeppelin) where
  lock_dev-OnlyCalls :
      (b : Block) (amount : ℕ) (f : FairLaunch) {f' : FairLaunch}
      → lock_dev z b amount f ≡ ok f'
      → OnlyCalls f f'
  unfolding lock_dev
  lock_dev-OnlyCalls b amount f h =
      let (locked, _, h1) = >>=-eq-ok (checked (z.mul amount f.bonus_lock_up_bps)) _ h in
      let (part, _, h2) = >>=-eq-ok (checked (z.div locked 100_000)) _ h1 in
      call_husky-OnlyCalls b (HuskyCall.lock f.devaddr part) f h2

  bonus_part-OnlyCalls :
      (b : Block) (pool : PoolInfo) (supply husky_reward acc : ℕ) (f f' : FairLaunch) (til : ℕ)
      → bonus_part z b pool supply husky_reward acc f ≡ ok (f', til)
      → OnlyCalls f f'
  unfolding bonus_part
  bonus_part-OnlyCalls b pool supply husky_reward acc f f' til h =
      elim (Bool-cases (leb b.number f.bonus_end_block)) [
        | inl during ↦
            let h0 = rw (during, bonus_part) at h in
            let (f1, locked, h1) = >>=-eq-ok (lock_dev z b husky_reward f) _ h0 in
            let same : f1 ≡ f' = ground (arith, h1) in
            rw (← same) (lock_dev-OnlyCalls b husky_reward f locked)
        | inr after ↦ elim (Bool-cases (ltb pool.last_reward_block f.bonus_end_block)) [
          | inl across ↦
              let h0 = rw (after, across, bonus_part) at h in
              let (early, _, h1) =
                >>=-eq-ok (checked (z.sub f.bonus_end_block pool.last_reward_block)) _ h0 in
              let (bonus, _, h2) = >>=-eq-ok (checked (z.mul early f.bonus_multiplier)) _ h1 in
              let (portion, _, h3) = >>=-eq-ok (reward z f bonus pool.alloc_point) _ h2 in
              let (f1, locked, h4) = >>=-eq-ok (lock_dev z b portion f) _ h3 in
              let (til', _, h5) =
                >>=-eq-ok (accumulate z pool.acc_husky_per_share_til_bonus_end portion supply) _
                  h4 in
              let same : f1 ≡ f' = ground (arith, h5) in
              rw (← same) (lock_dev-OnlyCalls b portion f locked)
          | inr within ↦
              let same : f ≡ f' = ground (arith, h, after, within) in ground (arith, same)
        ]
      ]

  distribute-Updated :
      (b : Block) (pid : ℕ) (pool : PoolInfo) (supply : ℕ) (f : FairLaunch) {f' : FairLaunch}
      → distribute z b pid pool supply f ≡ ok f'
      → Updated b pid pool f f'
  unfolding distribute
  distribute-Updated b pid pool supply f {f'} h =
      >>=-use (get_multiplier z f pool.last_reward_block b.number) _ h λ multiplier _ h1.
        >>=-use (reward z f multiplier pool.alloc_point) _ h1 λ husky_reward _ h2.
          >>=-use (checked (z.div husky_reward 10)) _ h2 λ tenth _ h3.
            >>=-use (call_husky b (mint f.devaddr tenth) f) _ h3 λ f1 dev h4.
              >>=-use (call_husky b (mint f.self husky_reward) f1) _ h4 λ f2 pooled h5.
                >>=-use (accumulate z pool.acc_husky_per_share husky_reward supply) _ h5 λ acc _ h6.
                  >>=-use (bonus_part z b pool supply husky_reward acc f2) _ h6
                    λ (f3, til) bonus h7.
                      let q : PoolInfo = record pool {
                        acc_husky_per_share = acc;
                        acc_husky_per_share_til_bonus_end = til;
                        last_reward_block = b.number;
                      } in
                      let kept =
                        OnlyCalls-trans (call_husky-OnlyCalls b (mint f.devaddr tenth) f dev) (
                          OnlyCalls-trans
                            (call_husky-OnlyCalls b (mint f.self husky_reward) f1 pooled)
                            (bonus_part-OnlyCalls b pool supply husky_reward acc f2 f3 til
                              bonus)) in
                      let pools : f'.pools ≡ set_at pid q f3.pools = ground (arith, h7) in
                      record {
                        written = q;
                        is_current = omega arith;
                        same_shape = refl;
                        new_pools = pools ∙ ap (set_at pid q) kept.pools_kept;
                        kept_total = ground (arith, h7, kept.total_kept);
                        kept_owner = ground (arith, h7, kept.owner_kept);
                        kept_start = ground (arith, h7, kept.start_kept);
                        kept_self = ground (arith, h7, kept.self_kept);
                      }

  -- What an `updatePool` that goes through has done.
  pub update_pool-Updated :
      (b : Block) (pid : ℕ) (f : FairLaunch) {f' : FairLaunch}
      → update_pool z b pid f ≡ ok f'
      → (pool : PoolInfo) × (get_elem? f.pools pid ≡ some pool) × Updated b pid pool f f'
  unfolding update_pool
  update_pool-Updated b pid f {f'} h =
      let (pool, found, h1) = >>=-eq-ok (pool_at pid f) _ h in
      let at = pool_at-eq_ok pid f found in
      elim (Bool-cases (leb b.number pool.last_reward_block)) [
        | inl current ↦
            let same : f ≡ f' = ground (arith, h1, current) in
            (
              pool,
              at,
              record {
                written = pool;
                is_current = ground (arith, current);
                same_shape = refl;
                new_pools = ap (λ g. g.pools) (sym same) ∙ sym (set_at-same pid pool f.pools at);
                kept_total = ap (λ g. g.total_alloc_point) (sym same);
                kept_owner = ap (λ g. g.owner) (sym same);
                kept_start = ap (λ g. g.start_block) (sym same);
                kept_self = ap (λ g. g.self) (sym same);
              },
            )
        | inr behind ↦ elim (Bool-cases (b.staked pool.stake_token == 0)) [
          | inl unstaked ↦
              let q : PoolInfo = record pool { last_reward_block = b.number } in
              let same : record f { pools = set_at pid q f.pools } ≡ f' =
                ground (arith, h1, behind, unstaked) in
              (
                pool,
                at,
                record {
                  written = q;
                  is_current = omega arith;
                  same_shape = refl;
                  new_pools = ap (λ g. g.pools) (sym same);
                  kept_total = ap (λ g. g.total_alloc_point) (sym same);
                  kept_owner = ap (λ g. g.owner) (sym same);
                  kept_start = ap (λ g. g.start_block) (sym same);
                  kept_self = ap (λ g. g.self) (sym same);
                },
              )
          | inr staked ↦ (
            pool,
            at,
            distribute-Updated b pid pool (b.staked pool.stake_token) f
                (ground (arith, h1, behind, staked)),
          )
        ]
      ]

  pub update_pool-SameShape :
      (b : Block) (pid : ℕ) (f : FairLaunch) {f' : FairLaunch}
      → update_pool z b pid f ≡ ok f'
      → SameShape f f'
  update_pool-SameShape b pid f {f'} h =
      let (pool, at, u) = update_pool-Updated b pid f h in Updated-SameShape b pid pool f f' at u

  update_pools_from-SameShape :
      (b : Block) (pid rounds : ℕ) (f : FairLaunch) {f' : FairLaunch}
      → update_pools_from z b pid rounds f ≡ ok f'
      → SameShape f f'
  unfolding update_pools_from
  update_pools_from-SameShape b pid zero f {f'} h =
      let same : f ≡ f' = ground (arith, h) in rw (← same) (SameShape-refl f)
  update_pools_from-SameShape b pid (suc rounds) f h =
      let (f1, first, rest) = >>=-eq-ok (update_pool z b pid f) _ h in
      SameShape-trans (update_pool-SameShape b pid f first)
        (update_pools_from-SameShape b (pid + 1) rounds f1 rest)

  pub mass_update_pools-SameShape :
      (b : Block) (f : FairLaunch) {f' : FairLaunch}
      → mass_update_pools z b f ≡ ok f'
      → SameShape f f'
  unfolding mass_update_pools
  mass_update_pools-SameShape b f h = update_pools_from-SameShape b 0 (length f.pools) f h
