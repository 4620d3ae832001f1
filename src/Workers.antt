-- ===== src/Workers.antt =====
-- contracts/6/protocol/workers/PancakeswapV2Worker.sol and configs/WorkerConfig.sol: their state,
-- their owners' functions and the arithmetic of a worker's shares and trades; and of the contracts
-- under contracts/6/protocol/strategies/pancakeswapV2 the list of workers that each serves.
pub mod Shares
pub mod Stakes
pub mod Reach
use huski_bsc_contract.Base.{
  ℕ, ◌/◌, Bool, true, false, ◌&&◌, ◌||◌, Option, none, some, List, [], ◌∷◌, ltb, leb, ◌==◌,
  if◌then◌else◌, length, Result, ok, err, ◌>>=◌, ◌>>◌, require,
}
use huski_bsc_contract.Evm.{
  Revert, not_owner, bad_length, bounty_exceeded, max_bounty_too_low, lp_mismatch, bad_reserves,
  external_call_failed, OpenZeppelin, max_uint, update, checked,
}
use huski_bsc_contract.Contracts.{set_all}

-- What a worker reads of PancakeSwap: of a router, of a pool of a master chef, of a pair and of
-- the master chef. `none` is a call that reverts.
pub record PancakeSwap : Type 0 where
  pub weth : ℕ → Option ℕ
  pub factory : ℕ → Option ℕ
  pub pool_lp_token : ℕ → ℕ → Option ℕ
  pub token_0 : ℕ → Option ℕ
  pub token_1 : ℕ → Option ℕ
  pub cake : ℕ → Option ℕ

-- `PancakeswapV2Worker`
pub record Worker : Type 0 where
  pub owner : ℕ
  pub master_chef : ℕ
  pub factory : ℕ
  pub router : ℕ
  pub lp_token : ℕ
  pub wnative : ℕ
  pub base_token : ℕ
  pub farming_token : ℕ
  pub cake : ℕ
  pub operator : ℕ
  pub pid : ℕ
  pub shares : ℕ → ℕ
  pub ok_strats : ℕ → Bool
  pub total_share : ℕ
  pub add_strat : ℕ
  pub liq_strat : ℕ
  pub reinvest_bounty_bps : ℕ
  pub max_reinvest_bounty_bps : ℕ
  pub ok_reinvestors : ℕ → Bool
  pub fee : ℕ
  pub fee_denom : ℕ

-- The arguments of `initialize`, in order.
pub record WorkerParams : Type 0 where
  pub operator : ℕ
  pub base_token : ℕ
  pub master_chef : ℕ
  pub router : ℕ
  pub pid : ℕ
  pub add_strat : ℕ
  pub liq_strat : ℕ
  pub reinvest_bounty_bps : ℕ

-- A strategy, without its trades.
pub record Strategy : Type 0 where
  pub owner : ℕ
  pub ok_workers : ℕ → Bool

-- `WorkerConfig.Config`
pub record WorkerFactors : Type 0 where
  pub accept_debt : Bool
  pub work_factor : ℕ
  pub kill_factor : ℕ
  pub max_price_diff : ℕ

-- `WorkerConfig`
pub record WorkerConfig : Type 0 where
  pub owner : ℕ
  pub oracle : ℕ
  pub workers : ℕ → WorkerFactors

-- The calls of the pair and of the master chef with which a worker stakes and unstakes.
pub data StakeCall : Type 0 where
  approve_chef deposit withdraw : ℕ → StakeCall

-- What a worker finds there: the LP tokens that it holds, those that it has staked in its pool,
-- and which calls go through.
pub record Stake : Type 0 where
  pub balance : ℕ
  pub staked : ℕ
  pub accepts : StakeCall → Bool

-- A call that reverts with the callee.
abbrev pub external : Option ℕ → Result Revert ℕ
external none = err external_call_failed
external (some a) = ok a

-- the new worker of `initialize`, from what its calls return
unfoldable pub new_worker : ℕ → WorkerParams → ℕ → ℕ → ℕ → ℕ → ℕ → ℕ → Worker
new_worker sender p weth factory lp token_0 token_1 cake = record {
  owner = sender;
  master_chef = p.master_chef;
  factory = factory;
  router = p.router;
  lp_token = lp;
  wnative = weth;
  base_token = p.base_token;
  farming_token = if token_0 == p.base_token then token_1 else token_0;
  cake = cake;
  operator = p.operator;
  pid = p.pid;
  shares = λ _. 0;
  ok_strats = update (update (λ _. false) p.add_strat true) p.liq_strat true;
  total_share = 0;
  add_strat = p.add_strat;
  liq_strat = p.liq_strat;
  reinvest_bounty_bps = p.reinvest_bounty_bps;
  max_reinvest_bounty_bps = 500;
  ok_reinvestors = λ _. false;
  fee = 9975;
  fee_denom = 10000;
}

-- `PancakeswapV2Worker.initialize`
unfoldable pub init_worker : PancakeSwap → ℕ → WorkerParams → Result Revert Worker
unfolding new_worker
init_worker s sender p = do
  weth ← external (s.weth p.router)
  factory ← external (s.factory p.router)
  lp ← external (s.pool_lp_token p.master_chef p.pid)
  token_0 ← external (s.token_0 lp)
  token_1 ← external (s.token_1 lp)
  cake ← external (s.cake p.master_chef)
  let w = new_worker sender p weth factory lp token_0 token_1 cake
  require (leb w.reinvest_bounty_bps w.max_reinvest_bounty_bps) bounty_exceeded
  require
      ((w.farming_token == token_0 || w.farming_token == token_1)
        && (w.base_token == token_0 || w.base_token == token_1))
      lp_mismatch
  ok w

-- the loop of `setConfigs`, over two lists of one length
unfoldable pub set_factors : List ℕ → List WorkerFactors → (ℕ → WorkerFactors) → ℕ → WorkerFactors
set_factors (a ∷ addrs) (c ∷ configs) m = set_factors addrs configs (update m a c)
set_factors _ _ m = m

module _ (z : OpenZeppelin) where
  -- `shareToBalance`, where `total_balance` is what the worker has staked in its pool
  unfoldable pub share_to_balance : ℕ → ℕ → ℕ → Result Revert ℕ
  share_to_balance total_share total_balance share =
      if total_share == 0
      then ok share
      else (checked (z.mul share total_balance) >>= λ product. checked (z.div product total_share))

  -- `balanceToShare`
  unfoldable pub balance_to_share : ℕ → ℕ → ℕ → Result Revert ℕ
  balance_to_share total_share total_balance balance =
      if total_share == 0
      then ok balance
      else (checked (z.mul balance total_share) >>= λ product.
          checked (z.div product total_balance))

  -- `getMktSellAmount` of an amount that is not zero; the last division is the language's
  unfoldable pub sell_amount : ℕ → ℕ → ℕ → Worker → Result Revert ℕ
  sell_amount a_in r_in r_out w = do
    require (ltb 0 r_in && ltb 0 r_out) bad_reserves
    a_in_with_fee ← checked (z.mul a_in w.fee)
    numerator ← checked (z.mul a_in_with_fee r_out)
    scaled ← checked (z.mul r_in w.fee_denom)
    denominator ← checked (z.add scaled a_in_with_fee)
    ok (numerator / denominator)

  -- `getMktSellAmount`
  unfoldable pub get_mkt_sell_amount : ℕ → ℕ → ℕ → Worker → Result Revert ℕ
  get_mkt_sell_amount a_in r_in r_out w = if a_in == 0 then ok 0 else sell_amount a_in r_in r_out w

  -- `_addShare` of a balance that is not zero
  unfoldable pub stake_balance : Stake → ℕ → Worker → Result Revert Worker
  unfolding balance_to_share
  stake_balance stake id w = do
    require (stake.accepts (approve_chef max_uint)) external_call_failed
    share ← balance_to_share w.total_share stake.staked stake.balance
    require (stake.accepts (deposit stake.balance)) external_call_failed
    mine ← checked (z.add (w.shares id) share)
    total ← checked (z.add w.total_share share)
    require (stake.accepts (approve_chef 0)) external_call_failed
    ok (record w { shares = update w.shares id mine; total_share = total })

  -- `_addShare`
  unfoldable pub add_share : Stake → ℕ → Worker → Result Revert Worker
  add_share stake id w = if ltb 0 stake.balance then stake_balance stake id w else ok w

  -- `_removeShare` of a share that is not zero
  unfoldable pub unstake : Stake → ℕ → Worker → Result Revert Worker
  unfolding share_to_balance
  unstake stake id w = do
    balance ← share_to_balance w.total_share stake.staked (w.shares id)
    require (stake.accepts (withdraw balance)) external_call_failed
    total ← checked (z.sub w.total_share (w.shares id))
    ok (record w { shares = update w.shares id 0; total_share = total })

  -- `_removeShare`
  unfoldable pub remove_share : Stake → ℕ → Worker → Result Revert Worker
  remove_share stake id w = if ltb 0 (w.shares id) then unstake stake id w else ok w

  -- `setReinvestBountyBps`
  unfoldable pub set_reinvest_bounty_bps : ℕ → ℕ → Worker → Result Revert Worker
  set_reinvest_bounty_bps sender bounty w = do
    require (z.only_owner w.owner sender) not_owner
    require (leb bounty w.max_reinvest_bounty_bps) bounty_exceeded
    ok (record w { reinvest_bounty_bps = bounty })

  -- `setMaxReinvestBountyBps`
  unfoldable pub set_max_reinvest_bounty_bps : ℕ → ℕ → Worker → Result Revert Worker
  set_max_reinvest_bounty_bps sender most w = do
    require (z.only_owner w.owner sender) not_owner
    require (leb w.reinvest_bounty_bps most) max_bounty_too_low
    ok (record w { max_reinvest_bounty_bps = most })

  -- `setStrategyOk`
  unfoldable pub set_strategy_ok : ℕ → List ℕ → Bool → Worker → Result Revert Worker
  unfolding set_all
  set_strategy_ok sender strats is_ok w = do
    require (z.only_owner w.owner sender) not_owner
    ok (record w { ok_strats = set_all strats is_ok w.ok_strats })

  -- `setReinvestorOk`
  unfoldable pub set_reinvestor_ok : ℕ → List ℕ → Bool → Worker → Result Revert Worker
  unfolding set_all
  set_reinvestor_ok sender reinvestors is_ok w = do
    require (z.only_owner w.owner sender) not_owner
    ok (record w { ok_reinvestors = set_all reinvestors is_ok w.ok_reinvestors })

  -- `setCriticalStrategies`
  unfoldable pub set_critical_strategies : ℕ → ℕ → ℕ → Worker → Result Revert Worker
  set_critical_strategies sender add liq w = do
    require (z.only_owner w.owner sender) not_owner
    ok (record w { add_strat = add; liq_strat = liq })

  -- `setWorkersOk` of a strategy
  unfoldable pub set_workers_ok : ℕ → List ℕ → Bool → Strategy → Result Revert Strategy
  unfolding set_all
  set_workers_ok sender workers is_ok s = do
    require (z.only_owner s.owner sender) not_owner
    ok (record s { ok_workers = set_all workers is_ok s.ok_workers })

  -- `WorkerConfig.setOracle`
  unfoldable pub set_oracle : ℕ → ℕ → WorkerConfig → Result Revert WorkerConfig
  set_oracle sender oracle c = do
    require (z.only_owner c.owner sender) not_owner
    ok (record c { oracle = oracle })

  -- `WorkerConfig.setConfigs`
  unfoldable pub set_configs :
      ℕ → List ℕ → List WorkerFactors → WorkerConfig → Result Revert WorkerConfig
  unfolding set_factors
  set_configs sender addrs configs c = do
    require (z.only_owner c.owner sender) not_owner
    require (length configs == length addrs) bad_length
    ok (record c { workers = set_factors addrs configs c.workers })
