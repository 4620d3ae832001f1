-- ===== src/Deploy/Workers/Tables.antt =====
-- deploy/scripts/014-*: the tables of the eight scripts, and the scripts.
use huski_bsc_contract.Base.{List, [], ◌∷◌, ◌++◌, Bytes, ℤ, pos, negsuc, ℕ}
use huski_bsc_contract.Merkle.{lookup}
use huski_bsc_contract.Deploy.{text, VaultEntry, Config, Network, Script}
use huski_bsc_contract.Deploy.Workers.{
  WorkerRow, WorkerScript, at_once, last, after_loop, deploy_workers,
}

-- A row: the tables differ in the base token, and their rows in the name, the pool and two factors.
unfoldable pub worker_row : Bytes → Config → VaultEntry → Bytes → ℤ → ℕ → ℕ → WorkerRow
worker_row base_token config entry name pool_id work_factor kill_factor = record {
  worker_name = name;
  pool_id = pool_id;
  reinvest_bounty_bps = 200;
  work_factor = work_factor;
  kill_factor = kill_factor;
  max_price_diff = 11000;
  reinvest_bot = config.admin_address;
  base_token_addr = lookup base_token config.tokens;
  vault_config_addr = entry.config;
  worker_config_addr = config.worker_config;
  vault_addr = entry.address;
  master_chef_addr = config.master_chef;
  pancakeswap_router_addr = config.router_v2;
  add_strat_addr = config.strategy_add_base_token_only;
  liq_strat_addr = config.strategy_liquidate;
  strats =
      config.strategy_partial_close_liquidate ∷ config.strategy_partial_close_minimize_trading
      ∷ config.strategy_withdraw_minimize_trading ∷ entry.strategy_add_two_sides_optimal ∷ [];
}

unfoldable pub huski_rows : Config → VaultEntry → List WorkerRow
unfolding worker_row
huski_rows config entry =
    let row = worker_row (text "HUSKY") in
    row config entry (text "BUSD-HUSKI Worker") (negsuc 0) 5500 7000 ∷ []

abbrev pub huski_workers_script : WorkerScript
huski_workers_script = record {
  vault_index = 1;
  first = 0;
  workers = huski_rows;
  order = after_loop;
}

unfoldable pub huski_workers : Network → Script (Unit {0})
unfolding deploy_workers
huski_workers net = deploy_workers net huski_workers_script

unfoldable pub busd_rows_1 : Config → VaultEntry → List WorkerRow
unfolding worker_row
busd_rows_1 config entry =
    let row = worker_row (text "BUSD") in
    row config entry (text "CAKE-BUSD Worker") (pos 389) 7000 8000
    ∷ row config entry (text "BNB-BUSD Worker") (pos 252) 7000 8000
    ∷ row config entry (text "USDT-BUSD Worker") (pos 258) 8600 9100
    ∷ row config entry (text "USDC-BUSD Worker") (pos 283) 7800 8900
    ∷ row config entry (text "DAI-BUSD Worker") (pos 282) 7800 8900
    ∷ []

unfoldable pub busd_rows_2 : Config → VaultEntry → List WorkerRow
unfolding worker_row
busd_rows_2 config entry =
    let row = worker_row (text "BUSD") in
    row config entry (text "TRX-BUSD Worker") (pos 442) 7000 8000
    ∷ row config entry (text "BTT-BUSD Worker") (pos 443) 7000 8000
    ∷ []

abbrev pub busd_workers_script : WorkerScript
busd_workers_script = record {
  vault_index = 2;
  first = 5;
  workers = λ config entry. busd_rows_1 config entry ++ busd_rows_2 config entry;
  order = last;
}

unfoldable pub busd_workers : Network → Script (Unit {0})
unfolding deploy_workers
busd_workers net = deploy_workers net busd_workers_script

unfoldable pub bnb_rows_1 : Config → VaultEntry → List WorkerRow
unfolding worker_row
bnb_rows_1 config entry =
    let row = worker_row (text "WBNB") in
    row config entry (text "CAKE-BNB Worker") (pos 251) 7000 8000
    ∷ row config entry (text "BUSD-BNB Worker") (pos 252) 7000 8000
    ∷ row config entry (text "USDT-BNB Worker") (pos 264) 7000 8000
    ∷ row config entry (text "ETH-BNB Worker") (pos 261) 7000 8000
    ∷ row config entry (text "BTCB-BNB Worker") (pos 262) 7000 8000
    ∷ []

unfoldable pub bnb_rows_2 : Config → VaultEntry → List WorkerRow
unfolding worker_row
bnb_rows_2 config entry =
    let row = worker_row (text "WBNB") in
    row config entry (text "DOT-BNB Worker") (pos 255) 7000 8000
    ∷ row config entry (text "ADA-BNB Worker") (pos 253) 7000 8000
    ∷ row config entry (text "UNI-BNB Worker") (pos 268) 7000 8000
    ∷ row config entry (text "LINK-BNB Worker") (pos 257) 7000 8000
    ∷ row config entry (text "XVS-BNB Worker") (pos 260) 7000 8000
    ∷ []

unfoldable pub bnb_rows_3 : Config → VaultEntry → List WorkerRow
unfolding worker_row
bnb_rows_3 config entry =
    let row = worker_row (text "WBNB") in
    row config entry (text "DOT-BNB Worker") (pos 255) 7000 8000
    ∷ row config entry (text "AXS-BNB Worker") (pos 430) 7000 8000
    ∷ row config entry (text "DODO-BNB Worker") (pos 305) 7000 8000
    ∷ []

abbrev pub bnb_workers_script : WorkerScript
bnb_workers_script = record {
  vault_index = 3;
  first = 12;
  workers =
      λ config entry. bnb_rows_1 config entry ++ bnb_rows_2 config entry ++ bnb_rows_3 config entry;
  order = at_once;
}

unfoldable pub bnb_workers : Network → Script (Unit {0})
unfolding deploy_workers
bnb_workers net = deploy_workers net bnb_workers_script

unfoldable pub usdt_rows : Config → VaultEntry → List WorkerRow
unfolding worker_row
usdt_rows config entry =
    let row = worker_row (text "USDT") in
    row config entry (text "CAKE-USDT Worker") (pos 422) 7000 8000
    ∷ row config entry (text "BNB-USDT Worker") (pos 264) 7000 8000
    ∷ row config entry (text "BUSD-USDT Worker") (pos 258) 8600 9100
    ∷ row config entry (text "USDC-USDT Worker") (pos 423) 7800 8900
    ∷ []

abbrev pub usdt_workers_script : WorkerScript
usdt_workers_script = record { vault_index = 4; first = 1; workers = usdt_rows; order = at_once }

unfoldable pub usdt_workers : Network → Script (Unit {0})
unfolding deploy_workers
usdt_workers net = deploy_workers net usdt_workers_script

unfoldable pub cake_rows : Config → VaultEntry → List WorkerRow
unfolding worker_row
cake_rows config entry =
    let row = worker_row (text "CAKE") in
    row config entry (text "BNB-CAKE Worker") (pos 21) 7000 8000
    ∷ row config entry (text "USDT-CAKE Worker") (pos 57) 7000 8000
    ∷ row config entry (text "BUSD-CAKE Worker") (pos 49) 7000 8000
    ∷ []

abbrev pub cake_workers_script : WorkerScript
cake_workers_script = record { vault_index = 5; first = 0; workers = cake_rows; order = at_once }

unfoldable pub cake_workers : Network → Script (Unit {0})
unfolding deploy_workers
cake_workers net = deploy_workers net cake_workers_script

unfoldable pub eth_rows : Config → VaultEntry → List WorkerRow
unfolding worker_row
eth_rows config entry =
    let row = worker_row (text "ETH") in
    row config entry (text "BNB-ETH Worker") (pos 261) 7000 8000
    ∷ row config entry (text "SUSHI-ETH Worker") (pos 306) 7000 8000
    ∷ []

abbrev pub eth_workers_script : WorkerScript
eth_workers_script = record { vault_index = 6; first = 0; workers = eth_rows; order = at_once }

unfoldable pub eth_workers : Network → Script (Unit {0})
unfolding deploy_workers
eth_workers net = deploy_workers net eth_workers_script

unfoldable pub btcb_rows : Config → VaultEntry → List WorkerRow
unfolding worker_row
btcb_rows config entry =
    let row = worker_row (text "BTCB") in
    row config entry (text "BNB-BTCB Worker") (pos 262) 5500 7000
    ∷ row config entry (text "BUSD-BTCB Worker") (pos 365) 5500 7000
    ∷ []

abbrev pub btcb_workers_script : WorkerScript
btcb_workers_script = record { vault_index = 7; first = 0; workers = btcb_rows; order = at_once }

unfoldable pub btcb_workers : Network → Script (Unit {0})
unfolding deploy_workers
btcb_workers net = deploy_workers net btcb_workers_script

unfoldable pub usdc_rows : Config → VaultEntry → List WorkerRow
unfolding worker_row
usdc_rows config entry =
    let row = worker_row (text "USDC") in
    row config entry (text "BUSD-USDC Worker") (pos 283) 7800 8900
    ∷ row config entry (text "USDT-USDC Worker") (pos 423) 7800 8900
    ∷ []

abbrev pub usdc_workers_script : WorkerScript
usdc_workers_script = record { vault_index = 8; first = 0; workers = usdc_rows; order = at_once }

unfoldable pub usdc_workers : Network → Script (Unit {0})
unfolding deploy_workers
usdc_workers net = deploy_workers net usdc_workers_script
