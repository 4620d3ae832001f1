-- ===== src/Tests/Pools.antt =====
-- The theorems of FairLaunch where two pools are added in a row.
use huski_bsc_contract.Base.{
  ◌≤◌, ◌+◌, ◌-◌, ◌*◌, ◌/◌, ◌^◌, ◌≡◌, refl, true, not, ◌&&◌, none, some, [], ◌∷◌, arith, ltb, leb,
  ◌==◌, if◌then◌else◌, ok,
}
use huski_bsc_contract.Evm.{OpenZeppelin, IsDocumented}
use huski_bsc_contract.FairLaunch.{
  mint, FairLaunch, Block, is_duplicated_pool, mass_update_pools, update_pools_from, update_pool,
  push_pool, add_pool,
}
use huski_bsc_contract.FairLaunch.Current.{adds_pool, Weighs-current}
use huski_bsc_contract.FairLaunch.Updates.{shapes}
use huski_bsc_contract.FairLaunch.Pools.{sum_alloc, Added, IsConsistent, add_pool-Added}
use huski_bsc_contract.FairLaunch.Reach.{start, next, adds, Reachable-IsConsistent}

-- The packages of OpenZeppelin as they compute.
abbrev pub zeppelin : OpenZeppelin
zeppelin = record {
  only_owner = λ o s. o == s;
  transfer_ownership = λ o s n. if (o == s) && not (n == 0) then some n else none;
  approve = λ o s. not (o == 0) && not (s == 0);
  add = λ a b. if ltb (a + b) (2 ^ 256) then some (a + b) else none;
  sub = λ a b. if leb b a then some (a - b) else none;
  mul = λ a b. if ltb (a * b) (2 ^ 256) then some (a * b) else none;
  div = λ a b. if b == 0 then none else some (a / b);
}

pub zeppelin-IsDocumented : IsDocumented zeppelin
zeppelin-IsDocumented = record {
  owner_only = λ o s h. ground (arith, h);
  owner_passes = λ o. ground arith;
  new_owner = λ o s n h. ground (arith, h);
  exact_sum = λ a b h. ground (arith, h);
  exact_difference = λ a b h. ground (arith, h);
  exact_product = λ a b h. ground (arith, h);
  exact_quotient = λ a b h. ground (arith, h);
}

-- Block 12, in which seven stake tokens are in the pool.
abbrev pub block : Block
block = record { number = 12; staked = λ _. 7; accepts = λ _. true }

abbrev empty : FairLaunch
empty = record {
  self = 70;
  owner = 50;
  devaddr = 51;
  husky_per_block = 100;
  bonus_multiplier = 2;
  bonus_end_block = 5;
  bonus_lock_up_bps = 0;
  start_block = 10;
  last_multiplier = 0;
  total_alloc_point = 0;
  pools = [];
  calls = [];
}

abbrev pub one_pool : FairLaunch
one_pool = record empty {
  total_alloc_point = 30;
  pools =
      record {
        symbol = 1 ∷ [];
        stake_token = 80;
        alloc_point = 30;
        last_reward_block = 12;
        acc_husky_per_share = 0;
        acc_husky_per_share_til_bonus_end = 0;
      }
      ∷ [];
}

one_pool_lem : add_pool zeppelin block 50 (1 ∷ []) 30 80 true empty ≡ ok one_pool
unfolding add_pool mass_update_pools update_pools_from push_pool is_duplicated_pool
one_pool_lem = refl

abbrev two_pools : FairLaunch
two_pools = record one_pool {
  total_alloc_point = 50;
  pools =
      record {
        symbol = 1 ∷ [];
        stake_token = 80;
        alloc_point = 30;
        last_reward_block = 12;
        acc_husky_per_share = 0;
        acc_husky_per_share_til_bonus_end = 0;
      }
      ∷ record {
        symbol = 2 ∷ [];
        stake_token = 81;
        alloc_point = 20;
        last_reward_block = 12;
        acc_husky_per_share = 0;
        acc_husky_per_share_til_bonus_end = 0;
      }
      ∷ [];
}

two_pools_lem : add_pool zeppelin block 50 (2 ∷ []) 20 81 true one_pool ≡ ok two_pools
unfolding add_pool mass_update_pools update_pools_from update_pool push_pool is_duplicated_pool
two_pools_lem = refl

empty-IsConsistent : IsConsistent empty
unfolding shapes sum_alloc
empty-IsConsistent = record { total = refl; distinct = tt }

Reachable-IsConsistent_example : IsConsistent two_pools
Reachable-IsConsistent_example =
    Reachable-IsConsistent zeppelin zeppelin-IsDocumented {f = empty} {f' = two_pools}
      (next (next start (adds block 50 (1 ∷ []) 30 80 true one_pool_lem))
        (adds block 50 (2 ∷ []) 20 81 true two_pools_lem))
      empty-IsConsistent

add_pool-Added_example : Added one_pool two_pools (2 ∷ []) 81 20
add_pool-Added_example =
    add_pool-Added zeppelin zeppelin-IsDocumented block 50 (2 ∷ []) 20 81 true one_pool two_pools
      two_pools_lem

-- Block 20, eight blocks after the reward block of the first pool.
abbrev later : Block
later = record { number = 20; staked = λ token. 7; accepts = λ call. true }

abbrev rewarded : FairLaunch
rewarded = record one_pool {
  total_alloc_point = 50;
  last_multiplier = 8;
  calls = mint 51 80 ∷ mint 70 800 ∷ [];
  pools =
      record {
        symbol = 1 ∷ [];
        stake_token = 80;
        alloc_point = 30;
        last_reward_block = 20;
        acc_husky_per_share = 114_285_714_285_714;
        acc_husky_per_share_til_bonus_end = 0;
      }
      ∷ record {
        symbol = 2 ∷ [];
        stake_token = 81;
        alloc_point = 20;
        last_reward_block = 20;
        acc_husky_per_share = 0;
        acc_husky_per_share_til_bonus_end = 0;
      }
      ∷ [];
}

rewarded_lem : add_pool zeppelin later 50 (2 ∷ []) 20 81 true one_pool ≡ ok rewarded
unfolding add_pool mass_update_pools update_pools_from update_pool push_pool is_duplicated_pool
rewarded_lem = refl

Weighs-current_example : 20 ≤ 20
Weighs-current_example =
    Weighs-current zeppelin later one_pool rewarded 0
      (record {
        symbol = 1 ∷ [];
        stake_token = 80;
        alloc_point = 30;
        last_reward_block = 20;
        acc_husky_per_share = 114_285_714_285_714;
        acc_husky_per_share_til_bonus_end = 0;
      })
      (adds_pool 50 (2 ∷ []) 20 81 rewarded_lem) refl
