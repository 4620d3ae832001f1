-- ===== src/Deploy/Timelocks/Plan.antt =====
-- deploy/setup/s001 to s020: what each script is to queue, as a list, for any tables in place of
-- its own.
use huski_bsc_contract.Base.{ℕ, true, false, Option, none, some, List, [], ◌∷◌, ◌++◌, map}
use huski_bsc_contract.Deploy.{Network, Script}
use huski_bsc_contract.Deploy.Timelocks.{
  Request, Timelocks, NewParams, FactorsUpdate, Migration, ResetApproval, WhitelistedWorkers,
}
use huski_bsc_contract.Deploy.Timelocks.Requests.{
  timelock_addr, strategy_request, upgrade_request, debt_token_request, admin_request,
  params_request, factors_request, critical_request, migration_request, approval_request,
  whitelist_request,
}
use huski_bsc_contract.Deploy.Timelocks.Scripts.{
  add_worker_strategy, upgrade_vault_with, change_admins, set_vault_params, update_factors,
  add_strats, upgrade_workers_with, migrate_lps, reset_approvals, whitelist_workers,
}

-- A script with its tables; the new implementation of an upgrade is set.
pub data Plan : Type 0 where
  s001 : Plan
  s007 : ℕ → ℕ → Option ℕ → ℕ → Plan
  s009 : List ℕ → Plan
  s010 : List NewParams → Plan
  s011 : List FactorsUpdate → Plan
  s012 : Option ℕ → Option ℕ → List ℕ → List ℕ → Plan
  s014 : List ℕ → ℕ → Plan
  s015 : List Migration → Plan
  s016 : List ResetApproval → Plan
  s020 : List WhitelistedWorkers → Plan

unfoldable pub run_plan : Timelocks → Network → Plan → Script (Unit {0})
run_plan t net s001 = add_worker_strategy t net
run_plan t net (s007 vault impl debt_token pid) =
    upgrade_vault_with t net vault (some impl) debt_token pid
run_plan t net (s009 proxies) = change_admins t net proxies
run_plan t net (s010 params) = set_vault_params t net params
run_plan t net (s011 updates) = update_factors t net updates
run_plan t net (s012 add liq strategy workers) = add_strats t net add liq strategy workers
run_plan t net (s014 workers impl) = upgrade_workers_with t net workers (some impl)
run_plan t net (s015 migrations) = migrate_lps t net migrations
run_plan t net (s016 rows) = reset_approvals t net rows
run_plan t net (s020 rows) = whitelist_workers t net rows

unfoldable pub concat_map : {A B : Type 0} → (A → List B) → List A → List B
concat_map f [] = []
concat_map f (a ∷ rest) = f a ++ concat_map f rest

unfoldable pub debt_token_requests : ℕ → Option ℕ → ℕ → List Request
debt_token_requests vault none pid = []
debt_token_requests vault (some debt_token) pid =
    debt_token_request vault debt_token pid 1616574600 ∷ []

unfoldable pub critical_requests : ℕ → Option ℕ → Option ℕ → List Request
critical_requests worker none liq = []
critical_requests worker (some add) none = []
critical_requests worker (some add) (some liq) = critical_request worker add liq ∷ []

-- What is to be queued, in this order.
unfoldable pub requests : Plan → List Request
requests s001 =
    strategy_request 0x771F70042ebb6d2Cfc29b7BF9f3caf9F959385B8
      0xF3ECC0e5c238C7082fC59e682104DEA2f49A3787 (0xA4047bdA5288BC718E4a3De68781dA4D7e801e82 ∷ [])
      true 1615447380
    ∷ []
requests (s007 vault impl debt_token pid) =
    upgrade_request vault impl 1616574600 ∷ debt_token_requests vault debt_token pid
requests (s009 proxies) = map admin_request proxies
requests (s010 params) = map params_request params
requests (s011 updates) = map factors_request updates
requests (s012 add liq strategy workers) =
    concat_map
      (λ worker.
        critical_requests worker add liq
        ++ (strategy_request timelock_addr worker strategy false 1620561000 ∷ []))
      workers
requests (s014 workers impl) = map (λ worker. upgrade_request worker impl 1620575100) workers
requests (s015 migrations) = map migration_request migrations
requests (s016 rows) = concat_map (λ r. map (approval_request r.worker_addr) r.reset_approved) rows
requests (s020 rows) = map whitelist_request rows
