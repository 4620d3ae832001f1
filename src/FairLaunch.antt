-- ===== src/FairLaunch.antt =====
-- contracts/6/token/FairLaunch.sol: the pools and their reward variables. The balance of stake
-- tokens, and whether a call of the HUSKY token goes through, belong to other contracts: they
-- are fields of `Block`. The calls that are made are kept in order in `calls`.
pub mod Current
pub mod Pools
pub mod Reach
pub mod Updates
use huski_bsc_contract.Base.{
  ℕ, zero, suc, ◌+◌, ◌*◌, ◌^◌, Bool, true, false, not, ◌&&◌, Option, none, some, List, [], ◌∷◌,
  ◌++◌, ltb, leb, ◌==◌, if◌then◌else◌, length, get_elem?, Bytes, Result, ok, err, ◌>>=◌, ◌>>◌,
  require,
}
use huski_bsc_contract.Evm.{
  Revert, not_owner, bad_index, no_stake_token, duplicate_stake_token, not_dev, bad_bonus_end,
  bad_bonus_multiplier, husky_call_failed, OpenZeppelin, checked,
}

pub record PoolInfo : Type 0 where
  pub symbol : Bytes
  pub stake_token : ℕ
  pub alloc_point : ℕ
  pub last_reward_block : ℕ
  pub acc_husky_per_share : ℕ
  pub acc_husky_per_share_til_bonus_end : ℕ

-- A call of the HUSKY token: the account and the amount.
pub data HuskyCall : Type 0 where
  mint : ℕ → ℕ → HuskyCall
  lock : ℕ → ℕ → HuskyCall

-- The contract, without the users' stakes and the badges.
pub record FairLaunch : Type 0 where
  pub self : ℕ
  pub owner : ℕ
  pub devaddr : ℕ
  pub husky_per_block : ℕ
  pub bonus_multiplier : ℕ
  pub bonus_end_block : ℕ
  pub bonus_lock_up_bps : ℕ
  pub start_block : ℕ
  pub last_multiplier : ℕ
  pub total_alloc_point : ℕ
  pub pools : List PoolInfo
  pub calls : List HuskyCall

-- What a transaction sees of the chain around this contract.
pub record Block : Type 0 where
  pub number : ℕ
  pub staked : ℕ → ℕ
  pub accepts : HuskyCall → Bool

-- `isDuplicatedPool`
unfoldable pub is_duplicated_pool : ℕ → List PoolInfo → Bool
is_duplicated_pool token [] = false
is_duplicated_pool token (p ∷ pools) =
    let rest = is_duplicated_pool token pools in if p.stake_token == token then true else rest

unfoldable pub pool_length : FairLaunch → ℕ
pool_length f = length f.pools

-- `poolInfo[pid] = pool`
unfoldable pub set_at : ℕ → PoolInfo → List PoolInfo → List PoolInfo
set_at pid pool [] = []
set_at zero pool (p ∷ pools) = pool ∷ pools
set_at (suc pid) pool (p ∷ pools) = p ∷ set_at pid pool pools

unfoldable pub call_husky : Block → HuskyCall → FairLaunch → Result Revert FairLaunch
call_husky b c f = do
  require (b.accepts c) husky_call_failed
  ok (record f { calls = f.calls ++ c ∷ [] })

-- `poolInfo[pid]`: an index out of range is an invalid opcode.
unfoldable pub pool_at : ℕ → FairLaunch → Result Revert PoolInfo
pool_at pid f = elim (get_elem? f.pools pid) [ none ↦ err bad_index | some pool ↦ ok pool ]

module _ (z : OpenZeppelin) where
  unfoldable pub get_multiplier : FairLaunch → ℕ → ℕ → Result Revert ℕ
  get_multiplier f last current = elim (leb current f.bonus_end_block) [
    | true ↦ do blocks ← checked (z.sub current last); checked (z.mul blocks f.bonus_multiplier)
    | false ↦ elim (leb f.bonus_end_block last) [
      | true ↦ checked (z.sub current last)
      | false ↦ do
        early ← checked (z.sub f.bonus_end_block last)
        bonus ← checked (z.mul early f.bonus_multiplier)
        late ← checked (z.sub current f.bonus_end_block)
        checked (z.add bonus late)
    ]
  ]

  -- `huskyReward`, and `huskyBonusPortion` with the bonus multiplier in it
  unfoldable pub reward : FairLaunch → ℕ → ℕ → Result Revert ℕ
  reward f multiplier alloc_point = do
    minted ← checked (z.mul multiplier f.husky_per_block)
    share ← checked (z.mul minted alloc_point)
    checked (z.div share f.total_alloc_point)

  -- `husky.lock(devaddr, amount.mul(bonusLockUpBps).div(100000))`
  unfoldable pub lock_dev : Block → ℕ → FairLaunch → Result Revert FairLaunch
  unfolding call_husky
  lock_dev b amount f = do
    locked ← checked (z.mul amount f.bonus_lock_up_bps)
    part ← checked (z.div locked 100_000)
    call_husky b (lock f.devaddr part) f

  -- `acc.add(amount.mul(1e12).div(lpSupply))`
  unfoldable pub accumulate : ℕ → ℕ → ℕ → Result Revert ℕ
  accumulate acc amount supply = do
    scaled ← checked (z.mul amount (10 ^ 12))
    per_share ← checked (z.div scaled supply)
    checked (z.add acc per_share)

  -- the part of `updatePool` about the end of the bonus: the contract and the new accumulator
  unfoldable pub bonus_part :
      Block → PoolInfo → ℕ → ℕ → ℕ → FairLaunch → Result Revert (FairLaunch × ℕ)
  unfolding lock_dev accumulate reward
  bonus_part b pool supply husky_reward acc f = elim (leb b.number f.bonus_end_block) [
    | true ↦ do f' ← lock_dev b husky_reward f; ok (f', acc)
    | false ↦ elim (ltb pool.last_reward_block f.bonus_end_block) [
      | true ↦ do
        early ← checked (z.sub f.bonus_end_block pool.last_reward_block)
        bonus ← checked (z.mul early f.bonus_multiplier)
        portion ← reward f bonus pool.alloc_point
        f' ← lock_dev b portion f
        til ← accumulate pool.acc_husky_per_share_til_bonus_end portion supply
        ok (f', til)
      | false ↦ ok (f, pool.acc_husky_per_share_til_bonus_end)
    ]
  ]

  -- the rest of `updatePool`, where stake tokens are in the pool
  unfoldable pub distribute : Block → ℕ → PoolInfo → ℕ → FairLaunch → Result Revert FairLaunch
  unfolding get_multiplier reward call_husky accumulate bonus_part set_at
  distribute b pid pool supply f = do
    multiplier ← get_multiplier f pool.last_reward_block b.number
    husky_reward ← reward f multiplier pool.alloc_point
    tenth ← checked (z.div husky_reward 10)
    f1 ← call_husky b (mint f.devaddr tenth) f
    f2 ← call_husky b (mint f.self husky_reward) f1
    acc ← accumulate pool.acc_husky_per_share husky_reward supply
    (f3, til) ← bonus_part b pool supply husky_reward acc f2
    ok (record f3 {
      pools =
          set_at pid
            (record pool {
              acc_husky_per_share = acc;
              acc_husky_per_share_til_bonus_end = til;
              last_reward_block = b.number;
            })
            f3.pools;
      last_multiplier = multiplier;
    })

  unfoldable pub update_pool : Block → ℕ → FairLaunch → Result Revert FairLaunch
  unfolding pool_at distribute set_at
  update_pool b pid f = do
    pool ← pool_at pid f
    elim (leb b.number pool.last_reward_block) [
      | true ↦ ok f
      | false ↦ elim (b.staked pool.stake_token == 0) [
        | true ↦
            ok (record f {
              pools = set_at pid (record pool { last_reward_block = b.number }) f.pools;
            })
        | false ↦ distribute b pid pool (b.staked pool.stake_token) f
      ]
    ]

  -- the loop of `massUpdatePools`, with the rounds that are left
  unfoldable pub update_pools_from : Block → ℕ → ℕ → FairLaunch → Result Revert FairLaunch
  unfolding update_pool
  update_pools_from b pid zero f = ok f
  update_pools_from b pid (suc rounds) f = do
    f' ← update_pool b pid f
    update_pools_from b (pid + 1) rounds f'

  unfoldable pub mass_update_pools : Block → FairLaunch → Result Revert FairLaunch
  unfolding update_pools_from
  mass_update_pools b f = update_pools_from b 0 (length f.pools) f

  -- `addPool` from its second `require` on
  unfoldable pub push_pool : Block → Bytes → ℕ → ℕ → FairLaunch → Result Revert FairLaunch
  unfolding is_duplicated_pool
  push_pool b symbol alloc_point stake_token f = do
    require (not (stake_token == 0)) no_stake_token
    require (not (is_duplicated_pool stake_token f.pools)) duplicate_stake_token
    total ← checked (z.add f.total_alloc_point alloc_point)
    ok (record f {
      total_alloc_point = total;
      pools =
          f.pools
          ++ record {
            symbol = symbol;
            stake_token = stake_token;
            alloc_point = alloc_point;
            last_reward_block = if ltb f.start_block b.number then b.number else f.start_block;
            acc_husky_per_share = 0;
            acc_husky_per_share_til_bonus_end = 0;
          }
            ∷ [];
    })

  unfoldable pub add_pool : Block → ℕ → Bytes → ℕ → ℕ → Bool → FairLaunch → Result Revert FairLaunch
  add_pool b sender symbol alloc_point stake_token with_update f = do
    require (z.only_owner f.owner sender) not_owner
    f' ← elim with_update [ true ↦ mass_update_pools b f | false ↦ ok f ]
    push_pool b symbol alloc_point stake_token f'

  -- `setPool`, which ignores its last argument
  unfoldable pub set_pool : Block → ℕ → ℕ → ℕ → Bool → FairLaunch → Result Revert FairLaunch
  unfolding set_at
  set_pool b sender pid alloc_point with_update f = do
    require (z.only_owner f.owner sender) not_owner
    f' ← mass_update_pools b f
    pool ← pool_at pid f'
    less ← checked (z.sub f'.total_alloc_point pool.alloc_point)
    total ← checked (z.add less alloc_point)
    ok (record f' {
      total_alloc_point = total;
      pools = set_at pid (record pool { alloc_point = alloc_point }) f'.pools;
    })

  unfoldable pub set_dev : ℕ → ℕ → FairLaunch → Result Revert FairLaunch
  set_dev sender devaddr f = do
    require (sender == f.devaddr) not_dev
    ok (record f { devaddr = devaddr })

  unfoldable pub set_husky_per_block : ℕ → ℕ → FairLaunch → Result Revert FairLaunch
  set_husky_per_block sender amount f = do
    require (z.only_owner f.owner sender) not_owner
    ok (record f { husky_per_block = amount })

  unfoldable pub set_bonus : Block → ℕ → ℕ → ℕ → ℕ → FairLaunch → Result Revert FairLaunch
  set_bonus b sender multiplier end_block lock_up_bps f = do
    require (z.only_owner f.owner sender) not_owner
    require (ltb b.number end_block) bad_bonus_end
    require (ltb 1 multiplier) bad_bonus_multiplier
    ok (record f {
      bonus_multiplier = multiplier;
      bonus_end_block = end_block;
      bonus_lock_up_bps = lock_up_bps;
    })
