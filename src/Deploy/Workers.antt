-- ===== src/Deploy/Workers.antt =====
-- deploy/scripts/014-*_deploy_pancakeswapV2_worker*.ts: the eight scripts are one loop over a table
-- of workers. They differ in the table, in where the loop starts and in when the results file is
-- written. The children have the tables and the scripts (Tables), what a step of a round does
-- (Calls), what a round does (Round), what later rounds keep (Kept), the whole loop (Run) and the
-- script that cannot go through (Refused).
pub mod Tables
pub mod Calls
pub mod Round
pub mod Publish
pub mod Rounded
pub mod Kept
pub mod Run
pub mod Refused
use huski_bsc_contract.Base.{
  ℕ, zero, suc, ◌+◌, ◌^◌, Bool, true, Option, none, some, List, [], ◌∷◌, ◌++◌, ltb, get_elem?,
  if◌then◌else◌, Bytes, ℤ, pos, negsuc, Result, ok, err,
}
use huski_bsc_contract.Base
use huski_bsc_contract.Evm.{Revert, update}
use huski_bsc_contract.Contracts.{BasicVaultConfig, set_workers}
use huski_bsc_contract.Workers.{
  Worker, WorkerParams, Strategy, WorkerFactors, WorkerConfig, init_worker, set_strategy_ok,
  set_reinvestor_ok, set_workers_ok, set_configs,
}
use huski_bsc_contract.Deploy.{
  Address, WorkerEntry, VaultEntry, Config, World, Network, Script, ◌>>=◌, ◌>>◌, pure, gets, modify,
  expect, bad_argument, undefined_field, config_of, set_config, write_config, contract_at, transact,
  create_contract,
}

-- A row of `WORKERS`.
pub record WorkerRow : Type 0 where
  pub worker_name : Bytes
  pub pool_id : ℤ
  pub reinvest_bounty_bps : ℕ
  pub work_factor : ℕ
  pub kill_factor : ℕ
  pub max_price_diff : ℕ
  pub reinvest_bot : Address
  pub base_token_addr : Address
  pub vault_config_addr : Address
  pub worker_config_addr : Address
  pub vault_addr : Address
  pub master_chef_addr : Address
  pub pancakeswap_router_addr : Address
  pub add_strat_addr : Address
  pub liq_strat_addr : Address
  pub strats : List Address

-- When a script appends the worker to the results file and writes it: before the worker is linked,
-- at the end of its round, or at the end of its round with one write after the loop.
pub data WriteOrder : Type 0 where
  at_once last after_loop : WriteOrder

-- `vaultIndex`, the start of the loop, and `WORKERS`, from the results file and its entry for the
-- vault.
pub record WorkerScript : Type 0 where
  pub vault_index : ℕ
  pub first : ℕ
  pub workers : Config → VaultEntry → List WorkerRow
  pub order : WriteOrder

-- `WORKERS[i]` for `i` from `first` on
unfoldable pub rows_from : ℕ → List WorkerRow → List WorkerRow
rows_from zero rows = rows
rows_from (suc i) [] = []
rows_from (suc i) (r ∷ rows) = rows_from i rows

-- a number as an argument of the type uint with so many bits
unfoldable pub to_uint : ℕ → ℤ → Script ℕ
to_uint bits (pos n) w = if ltb n (2 ^ bits) then (ok n, w) else (err bad_argument, w)
to_uint bits (negsuc n) w = (err bad_argument, w)

-- a list of addresses as an argument
unfoldable pub to_addresses : List Address → Script (List ℕ)
to_addresses [] = pure []
to_addresses (a ∷ rest) = do
  address ← expect bad_argument a
  addresses ← to_addresses rest
  pure (address ∷ addresses)

-- `vaults[i] = entry`
unfoldable pub set_vault : ℕ → VaultEntry → List VaultEntry → List VaultEntry
set_vault i entry [] = []
set_vault zero entry (v ∷ vaults) = entry ∷ vaults
set_vault (suc i) entry (v ∷ vaults) = v ∷ set_vault i entry vaults

module _ (net : Network) where
  -- the initialisation of a worker that is deployed at an address
  unfoldable pub make_worker : WorkerParams → ℕ → World → Result Revert World
  make_worker p self w =
      Base.◌>>=◌ (init_worker net.pancake w.deployer p)
        λ k. ok (record w { workers = update w.workers self (some k) })

  -- a transaction with the worker at an address
  unfoldable pub on_worker : (Worker → Result Revert Worker) → ℕ → World → Result Revert World
  on_worker f a w =
      Base.◌>>=◌ (contract_at w.workers a)
        λ k. Base.◌>>=◌ (f k) λ k'. ok (record w { workers = update w.workers a (some k') })

  -- `strat.setWorkersOk([worker], true)`
  unfoldable pub allow_worker_at : ℕ → ℕ → World → Result Revert World
  allow_worker_at worker a w = Base.◌>>=◌ (contract_at w.strategies a) λ s.
      Base.◌>>=◌ (set_workers_ok net.zeppelin w.deployer (worker ∷ []) true s)
        λ s'. ok (record w { strategies = update w.strategies a (some s') })

  -- `workerconfig.setConfigs([worker], [factors])`
  unfoldable pub set_factors_at : ℕ → WorkerFactors → ℕ → World → Result Revert World
  set_factors_at worker factors a w = Base.◌>>=◌ (contract_at w.worker_configs a) λ c.
      Base.◌>>=◌ (set_configs net.zeppelin w.deployer (worker ∷ []) (factors ∷ []) c)
        λ c'. ok (record w { worker_configs = update w.worker_configs a (some c') })

  -- `vaultconfig.setWorkers([worker], [config])`
  unfoldable pub set_worker_at : ℕ → ℕ → ℕ → World → Result Revert World
  set_worker_at worker config a w = Base.◌>>=◌ (contract_at w.configs a) λ c.
      Base.◌>>=◌ (set_workers net.zeppelin w.deployer (worker ∷ []) (config ∷ []) c)
        λ c'. ok (record w { configs = update w.configs a (some c') })

  -- `config.Vaults[vaultIndex].workers.push(worker)`
  unfoldable pub push_worker : ℕ → WorkerEntry → Script (Unit {0})
  push_worker i e = do
    config ← gets (config_of net)
    entry ← expect undefined_field (get_elem? config.vaults i)
    modify (
        set_config net (record config {
          vaults = set_vault i (record entry { workers = entry.workers ++ e ∷ [] }) config.vaults;
        }))

  -- the deployment of the worker of a row
  unfoldable pub create_worker : WorkerRow → Script ℕ
  unfolding make_worker
  create_worker r = do
    vault ← expect bad_argument r.vault_addr
    base_token ← expect bad_argument r.base_token_addr
    chef ← expect bad_argument r.master_chef_addr
    router ← expect bad_argument r.pancakeswap_router_addr
    pid ← to_uint 256 r.pool_id
    add ← expect bad_argument r.add_strat_addr
    liq ← expect bad_argument r.liq_strat_addr
    bounty ← to_uint 256 (pos r.reinvest_bounty_bps)
    create_contract net (
        make_worker (record {
          operator = vault;
          base_token = base_token;
          master_chef = chef;
          router = router;
          pid = pid;
          add_strat = add;
          liq_strat = liq;
          reinvest_bounty_bps = bounty;
        }))

  -- the loop over the strategies of a row
  unfoldable pub allow_on_strats : ℕ → List Address → Script (Unit {0})
  allow_on_strats worker [] = pure tt
  allow_on_strats worker (a ∷ rest) = do
    strat ← expect bad_argument a
    transact (allow_worker_at worker strat)
    allow_on_strats worker rest

  -- the reinvestor and the strategies of a worker, and the worker at its strategies
  unfoldable pub allow_strats : WorkerRow → ℕ → Script (Unit {0})
  allow_strats r worker = do
    bot ← expect bad_argument r.reinvest_bot
    transact λ w. on_worker (set_reinvestor_ok net.zeppelin w.deployer (bot ∷ []) true) worker w
    strats ← to_addresses r.strats
    transact λ w. on_worker (set_strategy_ok net.zeppelin w.deployer strats true) worker w
    allow_on_strats worker (r.add_strat_addr ∷ r.liq_strat_addr ∷ [])
    allow_on_strats worker r.strats

  -- the configurations of a worker
  unfoldable pub configure_worker : WorkerRow → ℕ → Script (Unit {0})
  configure_worker r worker = do
    worker_config ← expect bad_argument r.worker_config_addr
    work_factor ← to_uint 64 (pos r.work_factor)
    kill_factor ← to_uint 64 (pos r.kill_factor)
    max_price_diff ← to_uint 64 (pos r.max_price_diff)
    transact (
        set_factors_at worker
          (record {
            accept_debt = true;
            work_factor = work_factor;
            kill_factor = kill_factor;
            max_price_diff = max_price_diff;
          })
          worker_config)
    vault_config ← expect bad_argument r.vault_config_addr
    transact (set_worker_at worker worker_config vault_config)

  -- a worker in the results file
  abbrev pub worker_entry : WorkerRow → ℕ → WorkerEntry
  worker_entry r worker = record {
    name = r.worker_name;
    address = worker;
    config = r.worker_config_addr;
    p_id = r.pool_id;
  }

  -- what is done with the results file before the worker is linked
  unfoldable pub before_links : WorkerScript → WorkerRow → ℕ → Script (Unit {0})
  before_links s r worker = elim s.order [
    | at_once ↦ push_worker s.vault_index (worker_entry r worker) >> modify (write_config net)
    | _ ↦ pure tt
  ]

  -- what is done with it at the end of the round
  unfoldable pub after_links : WorkerScript → WorkerRow → ℕ → Script (Unit {0})
  after_links s r worker = elim s.order [
    | at_once ↦ pure tt
    | last ↦ push_worker s.vault_index (worker_entry r worker) >> modify (write_config net)
    | after_loop ↦ push_worker s.vault_index (worker_entry r worker)
  ]

  -- a round of the loop
  unfoldable pub deploy_worker : WorkerScript → WorkerRow → Script (Unit {0})
  deploy_worker s r = do
    worker ← create_worker r
    before_links s r worker
    allow_strats r worker
    configure_worker r worker
    after_links s r worker

  -- the loop
  unfoldable pub worker_rounds : WorkerScript → List WorkerRow → Script (Unit {0})
  worker_rounds s [] = pure tt
  worker_rounds s (r ∷ rows) = deploy_worker s r >> worker_rounds s rows

  -- what is done after the loop
  unfoldable pub after_rounds : WorkerScript → Script (Unit {0})
  after_rounds s = elim s.order [ after_loop ↦ modify (write_config net) | _ ↦ pure tt ]

  -- the body of a script
  unfoldable pub deploy_workers : WorkerScript → Script (Unit {0})
  deploy_workers s = do
    config ← gets (config_of net)
    entry ← expect undefined_field (get_elem? config.vaults s.vault_index)
    worker_rounds s (rows_from s.first (s.workers config entry))
    after_rounds s
