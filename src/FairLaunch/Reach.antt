-- ===== src/FairLaunch/Reach.antt =====
-- contracts/6/token/FairLaunch.sol: the states that its transactions lead to.
use huski_bsc_contract.Base.{ℕ, ◌≡◌, ap, Bool, arith, Bytes, ok}
use huski_bsc_contract.Evm.{OpenZeppelin, IsDocumented}
use huski_bsc_contract.FairLaunch.{
  FairLaunch, Block, mass_update_pools, update_pool, add_pool, set_pool, set_dev,
  set_husky_per_block, set_bonus,
}
use huski_bsc_contract.FairLaunch.Updates.{
  shapes, SameShape, mass_update_pools-SameShape, update_pool-SameShape,
}
use huski_bsc_contract.FairLaunch.Pools.{
  IsConsistent, add_pool-Added, Added-IsConsistent, set_pool-IsConsistent, SameShape-IsConsistent,
}

-- The transactions that change a parameter of the contract.
pub data Setting (z : OpenZeppelin) (f f' : FairLaunch) : Type 0 where
  dev : (sender devaddr : ℕ) → set_dev z sender devaddr f ≡ ok f' → Setting z f f'
  per_block : (sender amount : ℕ) → set_husky_per_block z sender amount f ≡ ok f' → Setting z f f'
  bonus :
      (b : Block) (sender multiplier end_block lock_up_bps : ℕ)
      → set_bonus z b sender multiplier end_block lock_up_bps f ≡ ok f'
      → Setting z f f'

-- One transaction that goes through.
pub data Step (z : OpenZeppelin) (f f' : FairLaunch) : Type 0 where
  adds :
      (b : Block) (sender : ℕ) (symbol : Bytes) (alloc token : ℕ) (with_update : Bool)
      → add_pool z b sender symbol alloc token with_update f ≡ ok f'
      → Step z f f'
  sets :
      (b : Block) (sender pid alloc : ℕ) (with_update : Bool)
      → set_pool z b sender pid alloc with_update f ≡ ok f'
      → Step z f f'
  updates : (b : Block) (pid : ℕ) → update_pool z b pid f ≡ ok f' → Step z f f'
  updates_all : (b : Block) → mass_update_pools z b f ≡ ok f' → Step z f f'
  other : Setting z f f' → Step z f f'

-- The states that transactions lead to.
pub data Reachable (z : OpenZeppelin) (f : FairLaunch) : FairLaunch → Type 0 where
  start : Reachable z f f
  next : {f' f'' : FairLaunch} → Reachable z f f' → Step z f' f'' → Reachable z f f''

module _ (z : OpenZeppelin) (doc : IsDocumented z) where
  kept :
      (f f' : FairLaunch)
      → f'.pools ≡ f.pools
      → f'.total_alloc_point ≡ f.total_alloc_point
      → f'.owner ≡ f.owner
      → f'.start_block ≡ f.start_block
      → f'.self ≡ f.self
      → SameShape f f'
  kept f f' pools total owner first self = record {
    same_pools = ap shapes pools;
    same_total = total;
    same_owner = owner;
    same_start = first;
    same_self = self;
  }

  other-SameShape : (f f' : FairLaunch) → Setting z f f' → SameShape f f'
  unfolding set_dev set_husky_per_block set_bonus
  other-SameShape f f' (dev sender devaddr h) =
      kept f f' (ground (arith, h)) (ground (arith, h)) (ground (arith, h)) (ground (arith, h))
        (ground (arith, h))
  other-SameShape f f' (per_block sender amount h) =
      kept f f' (ground (arith, h)) (ground (arith, h)) (ground (arith, h)) (ground (arith, h))
        (ground (arith, h))
  other-SameShape f f' (bonus b sender multiplier end_block lock_up_bps h) =
      kept f f' (ground (arith, h)) (ground (arith, h)) (ground (arith, h)) (ground (arith, h))
        (ground (arith, h))

  Step-IsConsistent : (f f' : FairLaunch) → Step z f f' → IsConsistent f → IsConsistent f'
  Step-IsConsistent f f' (adds b sender symbol alloc token with_update h) c =
      Added-IsConsistent z doc symbol token alloc
        (add_pool-Added z doc b sender symbol alloc token with_update f f' h) c
  Step-IsConsistent f f' (sets b sender pid alloc with_update h) c =
      set_pool-IsConsistent z doc b sender pid alloc with_update f f' h c
  Step-IsConsistent f f' (updates b pid h) c =
      SameShape-IsConsistent (update_pool-SameShape z b pid f h) c
  Step-IsConsistent f f' (updates_all b h) c =
      SameShape-IsConsistent (mass_update_pools-SameShape z b f h) c
  Step-IsConsistent f f' (other h) c = SameShape-IsConsistent (other-SameShape f f' h) c

  -- From a state where `totalAllocPoint` is the sum of the allocation points of the pools, where
  -- the stake tokens are distinct and none is the zero address, every state that is reached by
  -- `addPool`, `setPool`, `updatePool`, `massUpdatePools`, `setDev`, `setHuskyPerBlock` and
  -- `setBonus` is such a state too, with `SafeMath` as documented.
  pub Reachable-IsConsistent :
      {f f' : FairLaunch} → Reachable z f f' → IsConsistent f → IsConsistent f'
  Reachable-IsConsistent start c = c
  Reachable-IsConsistent (next {f' = f'} {f'' = f''} r step) c =
      Step-IsConsistent f' f'' step (Reachable-IsConsistent r c)
