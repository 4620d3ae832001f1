-- ===== src/Tests/Scripts.antt =====
-- The theorems of Deploy on a test network with a results file.
use huski_bsc_contract.Base.{
  ℕ, ◌+◌, ◌*◌, ◌^◌, ◌≡◌, refl, false, none, some, [], ◌∷◌, ◌++◌, arith, Bytes, bytes_eq, ok, err,
}
use huski_bsc_contract.Merkle.{lookup}
use huski_bsc_contract.FairLaunch.{
  PoolInfo, FairLaunch, add_pool, mass_update_pools, update_pools_from, update_pool, push_pool,
  is_duplicated_pool,
}
use huski_bsc_contract.Contracts.{BasicVaultConfig, DebtToken, WNativeRelayer}
use huski_bsc_contract.Workers.{PancakeSwap, Strategy, WorkerFactors, WorkerConfig}
use huski_bsc_contract.Deploy.{text, VaultEntry, Config, World, Network, bad_argument, config_of}
use huski_bsc_contract.Deploy.VaultConfigs.{
  ConfigScript, deploy_vault_config, high_interest, all_vault_configs,
}
use huski_bsc_contract.Deploy.VaultConfigs.Single.{Deployed, deploy_vault_config-Deployed}
use huski_bsc_contract.Deploy.VaultConfigs.Series.{symbols, all_vault_configs-symbols}
use huski_bsc_contract.Deploy.Vaults.{deploy_vault, busd_script, huski_vault}
use huski_bsc_contract.Deploy.Vaults.Ready.{IsReady, Linked}
use huski_bsc_contract.Deploy.Vaults.Linked.{deploy_vault-Linked}
use huski_bsc_contract.Deploy.Vaults.Missing.{huski_vault_missing_token}
use huski_bsc_contract.Tests.Pools.{zeppelin, zeppelin-IsDocumented, block, one_pool}

abbrev pub entry : Bytes → ℕ → VaultEntry
entry symbol config = record {
  name = [];
  symbol = symbol;
  address = none;
  base_token = none;
  debt_token = none;
  config = some config;
  triple_slope_model = some 8;
  strategy_add_two_sides_optimal = none;
  workers = [];
}

abbrev pub results : Config
results = record {
  native_address = some 5;
  timelock = some 6;
  admin_address = some 51;
  wnative_relayer = some 7;
  high_interest_triple_slope_model = some 8;
  low_interest_triple_slope_model = some 9;
  worker_config = some 60;
  strategy_add_base_token_only = some 61;
  strategy_liquidate = some 62;
  strategy_withdraw_minimize_trading = some 63;
  strategy_partial_close_liquidate = some 64;
  strategy_partial_close_minimize_trading = some 65;
  master_chef = some 90;
  router_v2 = some 91;
  tokens = (text "HUSKI", 40) ∷ (text "BUSD", 41) ∷ [];
  fair_launch_address = some 70;
  fair_launch_pools = [];
  vaults = entry [] 30 ∷ entry (text "ibHUSKI") 31 ∷ entry (text "ibBUSD") 32 ∷ [];
}

abbrev pub vault_config : BasicVaultConfig
vault_config = record {
  owner = 50;
  min_debt_size = 100 * 10 ^ 18;
  reserve_pool_bps = 1600;
  close_bps = 4;
  kill_bps = 500;
  workers = λ _. 0;
  interest_model = 8;
  wrapped_native = 5;
  wnative_relayer = 7;
  fair_launch = 70;
  max_kill_bps = 500;
}

abbrev wnative : WNativeRelayer
wnative = record { owner = 50; wnative = 5; ok_callers = λ _. false }

abbrev pub strategy : Strategy
strategy = record { owner = 50; ok_workers = λ _. false }

abbrev no_factors : WorkerFactors
no_factors = record { accept_debt = false; work_factor = 0; kill_factor = 0; max_price_diff = 0 }

abbrev pub worker_config : WorkerConfig
worker_config = record { owner = 50; oracle = 92; workers = λ _. no_factors }

abbrev pub pancake : PancakeSwap
pancake = record {
  weth = λ _. some 5;
  factory = λ _. some 93;
  pool_lp_token = λ _ pid. some (2000 + pid);
  token_0 = λ _. some 41;
  token_1 = λ _. some 43;
  cake = λ _. some 94;
}

abbrev pub world : World
world = record {
  deployer = 50;
  nonce = 3;
  configs = λ _. some vault_config;
  debts = λ _. none;
  vaults = λ _. none;
  fair_launches = λ _. some one_pool;
  relayers = λ _. some wnative;
  workers = λ _. none;
  strategies = λ _. some strategy;
  worker_configs = λ _. some worker_config;
  mainnet = results;
  testnet = results;
  queued = [];
  disk = [];
}

abbrev pub network : Network
network = record {
  name = text "testnet";
  zeppelin = zeppelin;
  pancake = pancake;
  create = λ n. 1000 + n;
  block = λ _. block;
  now = λ n. n;
}

abbrev script : ConfigScript
script = record { symbol = text "ibBUSD"; interest_model = high_interest }

deploy_vault_config-Deployed_example :
    (w' : World) × (deploy_vault_config network script world ≡ (ok tt, w'))
    × Deployed network script world w' 8 5 7 70
unfolding config_of bytes_eq
deploy_vault_config-Deployed_example =
    deploy_vault_config-Deployed network script world 8 5 7 70 zeppelin-IsDocumented
      (record { has_model = refl; has_native = refl; has_relayer = refl; has_fair_launch = refl })

all_vault_configs-symbols_example :
    (w' : World) × (all_vault_configs network world ≡ (ok tt, w'))
    × (symbols (config_of network w').vaults
        ≡ symbols (config_of network world).vaults
          ++ text "ibHUSKI"
            ∷ text "ibBUSD"
            ∷ text "ibBNB"
            ∷ text "ibUSDT"
            ∷ text "ibCAKE"
            ∷ text "ibETH"
            ∷ text "ibBTCB"
            ∷ text "ibUSDC"
            ∷ [])
unfolding config_of bytes_eq
all_vault_configs-symbols_example =
    all_vault_configs-symbols network world zeppelin-IsDocumented (record {
      native = 5;
      relayer = 7;
      fair_launch = 70;
      high = 8;
      low = 9;
      has_native = refl;
      has_relayer = refl;
      has_fair_launch = refl;
      has_high = refl;
      has_low = refl;
    })

abbrev pool : Bytes → ℕ → ℕ → PoolInfo
pool symbol token alloc = record {
  symbol = symbol;
  stake_token = token;
  alloc_point = alloc;
  last_reward_block = 12;
  acc_husky_per_share = 0;
  acc_husky_per_share_til_bonus_end = 0;
}

abbrev between : FairLaunch
between = record one_pool {
  total_alloc_point = 330;
  pools = pool (1 ∷ []) 80 30 ∷ pool (text "debtibBUSD") 1003 300 ∷ [];
}

abbrev behind : FairLaunch
behind = record one_pool {
  total_alloc_point = 530;
  pools =
      pool (1 ∷ []) 80 30 ∷ pool (text "debtibBUSD") 1003 300 ∷ pool (text "ibBUSD") 1004 200 ∷ [];
}

abbrev ready : IsReady network busd_script world
unfolding config_of bytes_eq lookup add_pool mass_update_pools update_pools_from update_pool
    push_pool is_duplicated_pool
ready = record {
  entry = entry (text "ibBUSD") 32;
  timelock = 6;
  vault_config = 32;
  token = 41;
  fair_launch = 70;
  relayer = 7;
  contract = vault_config;
  before = one_pool;
  between = between;
  behind = behind;
  wnative = wnative;
  has_entry = refl;
  has_timelock = refl;
  has_config = refl;
  has_token = refl;
  has_fair_launch = refl;
  has_relayer = refl;
  config_there = refl;
  fair_launch_there = refl;
  relayer_there = refl;
  relayer_owned = refl;
  approves = refl;
  transfers = refl;
  adds_debt_pool = refl;
  adds_vault_pool = refl;
  few_pools = omega arith;
}

deploy_vault-Linked_example :
    (w' : World) × (deploy_vault network busd_script world ≡ (ok tt, w'))
    × Linked network busd_script world w' ready
deploy_vault-Linked_example =
    deploy_vault-Linked network busd_script world ready zeppelin-IsDocumented

huski_vault_missing_token_example :
    (w' : World) × (t : DebtToken) × (huski_vault network world ≡ (err bad_argument, w'))
    × (w'.debts 1003 ≡ some t)
    × (t.owner ≡ 50)
    × (w'.vaults ≡ world.vaults)
    × (config_of network w' ≡ config_of network world)
    × (w'.disk ≡ [])
unfolding config_of bytes_eq lookup
huski_vault_missing_token_example =
    huski_vault_missing_token network world (entry (text "ibHUSKI") 31) 6 31 refl refl refl refl
