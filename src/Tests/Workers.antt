-- ===== src/Tests/Workers.antt =====
-- The theorems of Workers and of Deploy.Workers on a test network with a results file.
use huski_bsc_contract.Base.{
  ℕ, ◌+◌, ◌≡◌, ◌≤◌, ◌<◌, refl, true, some, [], ◌∷◌, arith, inl, Bytes, bytes_eq, pos, ok, err, ◌^◌,
  ◌==◌, if◌then◌else◌,
}
use huski_bsc_contract.Merkle.{lookup}
use huski_bsc_contract.Evm.{update}
use huski_bsc_contract.Workers.{
  Worker, WorkerParams, Stake, Strategy, init_worker, new_worker, add_share, stake_balance,
  share_to_balance, balance_to_share, sell_amount, get_mkt_sell_amount,
}
use huski_bsc_contract.Workers.Shares.{share_to_balance-balance_to_share, get_mkt_sell_amount-lt}
use huski_bsc_contract.Workers.Stakes.{add_share-no_loss}
use huski_bsc_contract.Workers.Reach.{
  IsSound, WorkerState-IsSound, initialised, stepped, share_added,
}
use huski_bsc_contract.Deploy.{text, VaultEntry, World, bad_argument, config_of}
use huski_bsc_contract.Deploy.Workers.{WorkerRow, rows_from, deploy_workers}
use huski_bsc_contract.Deploy.Workers.Calls.{}
use huski_bsc_contract.Deploy.Workers.Tables.{
  worker_row, busd_rows_1, busd_rows_2, busd_workers_script, huski_workers,
}
use huski_bsc_contract.Deploy.Workers.Round.{Parts, IsRow, StratsOwned}
use huski_bsc_contract.Deploy.Workers.Rounded.{IsOwned}
use huski_bsc_contract.Deploy.Workers.Run.{AllRows, Finished, deploy_workers-Finished}
use huski_bsc_contract.Deploy.Workers.Refused.{huski_workers_refused}
use huski_bsc_contract.Tests.Pools.{zeppelin, zeppelin-IsDocumented}
use huski_bsc_contract.Tests.Scripts.{
  entry, results, world, network, pancake, strategy, vault_config, worker_config,
}

abbrev vault : VaultEntry
vault = record (entry (text "ibBUSD") 32) {
  address = some 1004;
  strategy_add_two_sides_optimal = some 66;
}

abbrev busd_world : World
busd_world = record world {
  testnet = record results { vaults = entry [] 30 ∷ entry (text "ibHUSKI") 31 ∷ vault ∷ [] };
}

abbrev parts : Parts
parts = record {
  bot = 51;
  base_token = 41;
  vault_config = 32;
  worker_config = 60;
  vault = 1004;
  chef = 90;
  router = 91;
  add = 61;
  liq = 62;
  strats = 64 ∷ 65 ∷ 63 ∷ 66 ∷ [];
}

abbrev busd_row : Bytes → ℕ → WorkerRow
unfolding worker_row config_of bytes_eq
busd_row name pid =
    worker_row (text "BUSD") (config_of network busd_world) vault name (pos pid) 7000 8000

abbrev busd_row_facts :
    (name : Bytes) (pid : ℕ) → pid < 2 ^ 256 → IsRow network parts (busd_row name pid)
unfolding busd_row lookup
busd_row_facts name pid fits = record {
  pid = pid;
  facts = record { weth = 5; factory = 93; lp = 2000 + pid; token_0 = 41; token_1 = 43; cake = 94 };
  has_bot = refl;
  has_base_token = refl;
  has_vault_config = refl;
  has_worker_config = refl;
  has_vault = refl;
  has_chef = refl;
  has_router = refl;
  has_add = refl;
  has_liq = refl;
  has_strats = refl;
  has_pid = refl;
  pid_fits = fits;
  small_bounty = omega arith;
  work_factor_fits = omega arith;
  kill_factor_fits = omega arith;
  max_price_diff_fits = omega arith;
  has_pool = record {
    has_weth = refl;
    has_factory = refl;
    has_lp = refl;
    has_token_0 = refl;
    has_token_1 = refl;
    has_cake = refl;
    has_base = inl refl;
  };
}

abbrev busd_owned : IsOwned parts busd_world
unfolding StratsOwned
busd_owned =
    let mine : (s : Strategy) × (some strategy ≡ some s) × (s.owner ≡ 50) =
      (strategy, refl, refl) in
    record {
      wc = worker_config;
      vc = vault_config;
      wc_there = refl;
      wc_mine = refl;
      vc_there = refl;
      vc_mine = refl;
      two = (mine, (mine, tt));
      more = (mine, (mine, (mine, (mine, tt))));
    }

abbrev two_rows :
    AllRows network parts
      (busd_row (text "TRX-BUSD Worker") 442 ∷ busd_row (text "BTT-BUSD Worker") 443 ∷ [])
unfolding AllRows
two_rows = (
  busd_row_facts (text "TRX-BUSD Worker") 442 (omega arith),
  (busd_row_facts (text "BTT-BUSD Worker") 443 (omega arith), tt),
)

deploy_workers-Finished_example :
    (w' : World) × (deploy_workers network busd_workers_script busd_world ≡ (ok tt, w'))
    × Finished network parts busd_workers_script
        (busd_row (text "TRX-BUSD Worker") 442 ∷ busd_row (text "BTT-BUSD Worker") 443 ∷ [])
        vault
        busd_world
        w'
unfolding config_of bytes_eq rows_from busd_rows_1 busd_rows_2 busd_row
deploy_workers-Finished_example =
    deploy_workers-Finished network parts busd_workers_script busd_world zeppelin-IsDocumented
      (λ m n same. omega (arith, same)) refl refl two_rows busd_owned

huski_workers_refused_example : huski_workers network busd_world ≡ (err bad_argument, busd_world)
unfolding config_of bytes_eq
huski_workers_refused_example = huski_workers_refused network busd_world refl

abbrev worker_params : WorkerParams
worker_params = record {
  operator = 1004;
  base_token = 41;
  master_chef = 90;
  router = 91;
  pid = 442;
  add_strat = 61;
  liq_strat = 62;
  reinvest_bounty_bps = 200;
}

abbrev worker : Worker
unfolding new_worker
worker = new_worker 50 worker_params 5 93 2442 41 43 94

-- Forty LP tokens that the worker holds, of fifty that the master chef has of it.
abbrev stake : Stake
stake = record { balance = 40; staked = 50; accepts = λ _. true }

abbrev staked_worker : Worker
staked_worker = record worker { shares = λ id. if id == 7 then 100 else 0; total_share = 100 }

abbrev grown_worker : Worker
grown_worker = record staked_worker {
  shares = λ id. if 8 == id then 80 else (if id == 7 then 100 else 0);
  total_share = 180;
}

WorkerState-IsSound_example :
    IsSound (record worker { shares = update (λ _. 0) 7 40; total_share = 40 })
unfolding init_worker new_worker add_share stake_balance balance_to_share
WorkerState-IsSound_example =
    WorkerState-IsSound zeppelin zeppelin-IsDocumented
      (stepped (initialised pancake 50 worker_params refl) (share_added stake 7 refl))

share_to_balance-balance_to_share_example : 39 ≤ 40 + 0
unfolding share_to_balance balance_to_share
share_to_balance-balance_to_share_example =
    share_to_balance-balance_to_share zeppelin zeppelin-IsDocumented 70 51 40 {share = 54}
      {back = 39} refl refl

get_mkt_sell_amount-lt_example : 181 < 2000
unfolding get_mkt_sell_amount sell_amount new_worker
get_mkt_sell_amount-lt_example =
    get_mkt_sell_amount-lt zeppelin zeppelin-IsDocumented 100 1000 2000 worker {amount = 181}
      (omega arith) (omega arith) refl

add_share-no_loss_example : 50 ≤ 50
unfolding add_share stake_balance balance_to_share share_to_balance new_worker
add_share-no_loss_example =
    add_share-no_loss zeppelin zeppelin-IsDocumented stake 8 7 staked_worker {w' = grown_worker}
      {before = 50} {after = 50} (λ e. absurd (omega (arith, e))) (omega arith) refl refl refl
