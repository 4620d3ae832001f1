-- ===== src/Deploy/Timelocks/Scripts.antt =====
-- deploy/setup/s001, s007, s009, s010, s011, s012, s014, s015, s016 and s020: the scripts. Each
-- goes over its table in the loops of the code.
use huski_bsc_contract.Base.{ℕ, true, false, Option, none, some, List, [], ◌∷◌, ◌++◌}
use huski_bsc_contract.Deploy.{◌>>=◌, bad_argument, expect, Network, Script, pure}
use huski_bsc_contract.Deploy.Timelocks.{
  Timelocks, each, queue_transaction, NewParams, FactorsUpdate, Migration, ResetApproval,
  WhitelistedWorkers,
}
use huski_bsc_contract.Deploy.Timelocks.Requests.{
  timelock_addr, strategy_request, upgrade_request, debt_token_request, admin_request,
  params_request, factors_request, critical_request, migration_request, approval_request,
  whitelist_request,
}
use huski_bsc_contract.Deploy.Timelocks.Tables.{
  new_params, migrations, upgraded_workers, reset_approvals_1, reset_approvals_2,
}

module _ (t : Timelocks) (net : Network) where
  -- s001
  unfoldable pub add_worker_strategy : Script (Unit {0})
  add_worker_strategy = queue_transaction t net (
      strategy_request 0x771F70042ebb6d2Cfc29b7BF9f3caf9F959385B8
        0xF3ECC0e5c238C7082fC59e682104DEA2f49A3787 (0xA4047bdA5288BC718E4a3De68781dA4D7e801e82 ∷ [])
        true 1615447380)

  -- `newImpl`, where `none` is the empty text
  unfoldable pub new_implementation : ℕ → Option ℕ → Script ℕ
  new_implementation proxy none = t.prepare_upgrade proxy
  new_implementation proxy (some impl) = pure impl

  unfoldable pub update_debt_token : ℕ → Option ℕ → ℕ → Script (Unit {0})
  update_debt_token vault none pid = pure tt
  update_debt_token vault (some debt_token) pid =
      queue_transaction t net (debt_token_request vault debt_token pid 1616574600)

  -- the body of s007
  unfoldable pub upgrade_vault_with : ℕ → Option ℕ → Option ℕ → ℕ → Script (Unit {0})
  unfolding new_implementation update_debt_token
  upgrade_vault_with vault new_impl new_debt_token pid =
      new_implementation vault new_impl >>= λ impl.
      queue_transaction t net (upgrade_request vault impl 1616574600) >>= λ _.
      update_debt_token vault new_debt_token pid

  -- s007
  unfoldable pub upgrade_vault : Script (Unit {0})
  unfolding upgrade_vault_with
  upgrade_vault =
      upgrade_vault_with 0x7C9e73d4C71dae564d41F78d56439bB4ba87592f
        (some 0x7EEAA96bf1aBaA206615046c0991E678a2b12Da1)
        (some 0x02dA7035beD00ae645516bDb0c282A7fD4AA7442) 7

  -- the loop of s009
  unfoldable pub change_admins : List ℕ → Script (Unit {0})
  change_admins = each λ proxy. queue_transaction t net (admin_request proxy)

  -- s009
  unfoldable pub change_admin_proxy : Script (Unit {0})
  unfolding change_admins
  change_admin_proxy = change_admins (
      0x166f56F2EDa9817cAB77118AE4FCAA0002A17eC7 ∷ 0xADaBC5FC5da42c85A84e66096460C769a151A8F8
      ∷ 0x53dbb71303ad0F9AFa184B8f7147F9f12Bb5Dc01 ∷ 0xd7D069493685A581d27824Fc46EdA46B7EfC0063
      ∷ 0xd7b805E88c5F52EDE71a9b93F7048c8d632DBEd4 ∷ 0x7C9e73d4C71dae564d41F78d56439bB4ba87592f
      ∷ [])

  -- the loop of s010
  unfoldable pub set_vault_params : List NewParams → Script (Unit {0})
  set_vault_params = each λ p. queue_transaction t net (params_request p)

  -- s010
  unfoldable pub set_params_in_vaults : Script (Unit {0})
  unfolding set_vault_params new_params
  set_params_in_vaults = set_vault_params new_params

  -- the loop of s011
  unfoldable pub update_factors : List FactorsUpdate → Script (Unit {0})
  update_factors = each λ u. queue_transaction t net (factors_request u)

  -- s011
  unfoldable pub update_worker_config : Script (Unit {0})
  unfolding update_factors
  update_worker_config = update_factors (
      (record {
        worker_address = 0xC5954CA8988988362f60498d5aDEc67BA466492B;
        factors = record {
          accept_debt = true;
          work_factor = 8600;
          kill_factor = 9200;
          max_price_diff = 11000;
        };
      })
      ∷ [])

  -- `if (ADD_STRAT && LIQ_STRAT)`
  unfoldable pub set_critical : ℕ → Option ℕ → Option ℕ → Script (Unit {0})
  set_critical worker (some add) (some liq) =
      queue_transaction t net (critical_request worker add liq)
  set_critical worker (some add) none = pure tt
  set_critical worker none liq = pure tt

  -- the loop of s012
  unfoldable pub add_strats : Option ℕ → Option ℕ → List ℕ → List ℕ → Script (Unit {0})
  unfolding set_critical
  add_strats add liq strategy = each λ worker. set_critical worker add liq >>= λ _.
      queue_transaction t net (strategy_request timelock_addr worker strategy false 1620561000)

  -- s012
  unfoldable pub add_strats_to_workers : Script (Unit {0})
  unfolding add_strats
  add_strats_to_workers =
      add_strats none none
        (0xd80783De91fbEd9F7995A97D4C02917295F86F68 ∷ 0xE38EBFE8F314dcaD61d5aDCB29c1A26F41BEd0Be
          ∷ 0xE574dc08aa579720Dfacd70D3DAE883d29874599 ∷ 0x95Ff1336985723aa46078995454d7A7Fd9F5401e
          ∷ [])
        (0xeF1C5D2c20b22Ae50437a2F3bd258Ab1117D1BaD ∷ [])

  -- the loop of s014, behind `newImpl`
  unfoldable pub upgrade_all : List ℕ → ℕ → Script (Unit {0})
  upgrade_all workers impl =
      each (λ worker. queue_transaction t net (upgrade_request worker impl 1620575100)) workers

  -- the body of s014, over a table with its first row
  unfoldable pub upgrade_workers_with : List ℕ → Option ℕ → Script (Unit {0})
  unfolding upgrade_all new_implementation
  upgrade_workers_with [] none = expect bad_argument none
  upgrade_workers_with [] (some impl) = upgrade_all [] impl
  upgrade_workers_with (worker ∷ workers) new_impl =
      new_implementation worker new_impl >>= λ impl. upgrade_all (worker ∷ workers) impl

  -- s014
  unfoldable pub upgrade_workers : Script (Unit {0})
  unfolding upgrade_workers_with upgraded_workers
  upgrade_workers =
      upgrade_workers_with upgraded_workers (some 0xcac73A0f24968e201c2cc326edbC92A87666b430)

  -- the loop of s015
  unfoldable pub migrate_lps : List Migration → Script (Unit {0})
  migrate_lps = each λ m. queue_transaction t net (migration_request m)

  -- s015
  unfoldable pub workers_migrate_lp : Script (Unit {0})
  unfolding migrate_lps migrations
  workers_migrate_lp = migrate_lps migrations

  -- the loops of s016
  unfoldable pub reset_approvals : List ResetApproval → Script (Unit {0})
  reset_approvals =
      each
        λ r. each (λ a. queue_transaction t net (approval_request r.worker_addr a)) r.reset_approved

  -- s016
  unfoldable pub workers_reset_approval : Script (Unit {0})
  unfolding reset_approvals reset_approvals_1 reset_approvals_2
  workers_reset_approval = reset_approvals (reset_approvals_1 ++ reset_approvals_2)

  -- the loop of s020
  unfoldable pub whitelist_workers : List WhitelistedWorkers → Script (Unit {0})
  whitelist_workers = each λ p. queue_transaction t net (whitelist_request p)

  -- s020
  unfoldable pub set_whitelisted_workers : Script (Unit {0})
  unfolding whitelist_workers
  set_whitelisted_workers = whitelist_workers []
