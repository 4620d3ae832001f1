-- ===== src/Deploy/Timelocks/Requests.antt =====
-- deploy/setup/s001 to s020: what the scripts ask of the timelock, by the function that is queued.
use huski_bsc_contract.Base.{ℕ, Bool, true, List, [], ◌∷◌}
use huski_bsc_contract.Deploy.{text}
use huski_bsc_contract.Deploy.Timelocks.{
  address, number, flag, addresses, factors, Request, NewParams, FactorsUpdate, Migration, Approval,
  WhitelistedWorkers,
}

-- the timelock of all scripts but s001
abbrev pub timelock_addr : ℕ
timelock_addr = 0x2D5408f2287BF9F9B05404794459a846651D0a59

abbrev pub proxy_admin : ℕ
proxy_admin = 0x5379F32C8D5F663EACb61eeF63F722950294f452

-- `setStrategyOk(address[],bool)` of a worker
abbrev pub strategy_request : ℕ → ℕ → List ℕ → Bool → ℕ → Request
strategy_request timelock worker strategies ok_flag eta = record {
  timelock = timelock;
  target = worker;
  value = 0;
  signature = text "setStrategyOk(address[],bool)";
  types = text "address[]" ∷ text "bool" ∷ [];
  values = addresses strategies ∷ flag ok_flag ∷ [];
  eta = eta;
}

-- `upgrade(address,address)` of the proxies' administrator
abbrev pub upgrade_request : ℕ → ℕ → ℕ → Request
upgrade_request proxy impl eta = record {
  timelock = timelock_addr;
  target = proxy_admin;
  value = 0;
  signature = text "upgrade(address,address)";
  types = text "address" ∷ text "address" ∷ [];
  values = address proxy ∷ address impl ∷ [];
  eta = eta;
}

abbrev pub debt_token_request : ℕ → ℕ → ℕ → ℕ → Request
debt_token_request vault debt_token pid eta = record {
  timelock = timelock_addr;
  target = vault;
  value = 0;
  signature = text "updateDebtToken(address,uint256)";
  types = text "address" ∷ text "uint256" ∷ [];
  values = address debt_token ∷ number pid ∷ [];
  eta = eta;
}

abbrev pub admin_request : ℕ → Request
admin_request proxy = record {
  timelock = timelock_addr;
  target = proxy;
  value = 0;
  signature = text "changeAdmin(address)";
  types = text "address" ∷ [];
  values = address proxy_admin ∷ [];
  eta = 1615789200;
}

abbrev pub params_request : NewParams → Request
params_request p = record {
  timelock = p.timelock;
  target = p.vault_config;
  value = 0;
  signature = text "setParams(uint256,uint256,uint256,address,address,address,address)";
  types =
      text "uint256"
      ∷ text "uint256"
      ∷ text "uint256"
      ∷ text "address"
      ∷ text "address"
      ∷ text "address"
      ∷ text "address"
      ∷ [];
  values =
      number p.min_debt_size
      ∷ number p.reserve_pool_bps
      ∷ number p.kill_prize_bps
      ∷ address p.interest_model
      ∷ address p.wbnb
      ∷ address p.wnative_relayer
      ∷ address p.fairlaunch
      ∷ [];
  eta = p.exact_eta;
}

abbrev pub factors_request : FactorsUpdate → Request
factors_request u = record {
  timelock = timelock_addr;
  target = 0xADaBC5FC5da42c85A84e66096460C769a151A8F8;
  value = 0;
  signature = text "setConfigs(address[],(bool,uint64,uint64,uint64)[])";
  types =
      text "address[]"
      ∷ text "(bool acceptDebt,uint64 workFactor,uint64 killFactor,uint64 maxPriceDiff)[]"
      ∷ [];
  values = addresses (u.worker_address ∷ []) ∷ factors (u.factors ∷ []) ∷ [];
  eta = 1622300700;
}

abbrev pub critical_request : ℕ → ℕ → ℕ → Request
critical_request worker add liq = record {
  timelock = timelock_addr;
  target = worker;
  value = 0;
  signature = text "setCriticalStrategies(address,address)";
  types = text "address" ∷ text "address" ∷ [];
  values = address add ∷ address liq ∷ [];
  eta = 1620561000;
}

abbrev pub migration_request : Migration → Request
migration_request m = record {
  timelock = timelock_addr;
  target = m.worker_addr;
  value = 0;
  signature = text "migrateLP(address,uint256,address,address,address,address[],address[])";
  types =
      text "address"
      ∷ text "uint256"
      ∷ text "address"
      ∷ text "address"
      ∷ text "address"
      ∷ text "address[]"
      ∷ text "address[]"
      ∷ [];
  values =
      address m.router_v2
      ∷ number m.new_pool_id
      ∷ address m.twoside_optimal_migration_strat_addr
      ∷ address m.add_strat
      ∷ address m.liq_strat
      ∷ addresses m.ok_strats
      ∷ addresses m.disable_strats
      ∷ [];
  eta = 1619265600;
}

abbrev pub approval_request : ℕ → Approval → Request
approval_request worker a = record {
  timelock = timelock_addr;
  target = worker;
  value = 0;
  signature = text "resetApproval(address,address)";
  types = text "address" ∷ text "address" ∷ [];
  values = address a.token ∷ address a.spender ∷ [];
  eta = 1619231400;
}

abbrev pub whitelist_request : WhitelistedWorkers → Request
whitelist_request p = record {
  timelock = timelock_addr;
  target = p.strat_addr;
  value = 0;
  signature = text "setWorkersOk(address[],bool)";
  types = text "address[]" ∷ text "bool" ∷ [];
  values = addresses p.workers ∷ flag true ∷ [];
  eta = 1619676000;
}
