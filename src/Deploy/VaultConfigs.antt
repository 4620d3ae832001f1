-- ===== src/Deploy/VaultConfigs.antt =====
-- deploy/scripts/010-*_deploy_configurable_interest_vault_config.ts: the eight scripts are one
-- text but for the symbol and the interest model.
pub mod Series
pub mod Single
use huski_bsc_contract.Base.{
  ℕ, ◌+◌, ◌*◌, ◌^◌, ◌≡◌, Bool, true, false, Option, none, some, List, [], ◌∷◌, ◌++◌, Bytes, Result,
  ok, err,
}
use huski_bsc_contract.Base
use huski_bsc_contract.Evm.{Revert, OpenZeppelin, update}
use huski_bsc_contract.Contracts.{BasicVaultConfig, VaultParams, init_vault_config}
use huski_bsc_contract.Deploy.{
  text, Address, VaultEntry, Config, World, Network, Script, ◌>>=◌, ◌>>◌, pure, gets, modify,
  expect, bad_argument, config_of, set_config, write_config, create_contract,
}

-- The constants of a script that differ.
pub record ConfigScript : Type 0 where
  pub symbol : Bytes
  pub interest_model : Config → Address

-- `ethers.utils.parseEther`
abbrev parse_ether : ℕ → ℕ
parse_ether n = n * 10 ^ 18

-- the entry that is pushed to `config.Vaults`
unfoldable pub new_vault_entry : Bytes → ℕ → Address → VaultEntry
new_vault_entry symbol address interest_model = record {
  name = [];
  symbol = symbol;
  address = none;
  base_token = none;
  debt_token = none;
  config = some address;
  triple_slope_model = interest_model;
  strategy_add_two_sides_optimal = none;
  workers = [];
}

module _ (net : Network) where
  -- the creation of the contract, with `initialize`
  unfoldable pub make_vault_config : VaultParams → ℕ → World → Result Revert World
  make_vault_config p self w =
      Base.◌>>=◌ (init_vault_config net.zeppelin w.deployer p)
        λ c. ok (record w { configs = update w.configs self (some c) })

  -- `config.Vaults.push(vaultConfig)`
  unfoldable pub push_vault : VaultEntry → World → World
  push_vault entry w =
      let config = config_of net w in
      set_config net (record config { vaults = config.vaults ++ entry ∷ [] }) w

  -- the body of a script
  unfoldable pub deploy_vault_config : ConfigScript → Script (Unit {0})
  deploy_vault_config s = do
    config ← gets (config_of net)
    let interest_model = s.interest_model config
    model ← expect bad_argument interest_model
    native ← expect bad_argument config.native_address
    relayer ← expect bad_argument config.wnative_relayer
    fair_launch ← expect bad_argument config.fair_launch_address
    address ← create_contract net (
        make_vault_config (record {
          min_debt_size = parse_ether 100;
          reserve_pool_bps = 1600;
          close_bps = 4;
          kill_bps = 500;
          interest_model = model;
          wrapped_native = native;
          wnative_relayer = relayer;
          fair_launch = fair_launch;
        }))
    modify (push_vault (new_vault_entry s.symbol address interest_model))
    modify (write_config net)

-- `INTEREST_MODEL`
abbrev pub high_interest : Config → Address
high_interest c = c.high_interest_triple_slope_model

abbrev pub low_interest : Config → Address
low_interest c = c.low_interest_triple_slope_model

-- the eight scripts
unfoldable pub ib_huski_config : Network → Script (Unit {0})
unfolding deploy_vault_config
ib_huski_config net =
    deploy_vault_config net (record { symbol = text "ibHUSKI"; interest_model = high_interest })

unfoldable pub ib_busd_config : Network → Script (Unit {0})
unfolding deploy_vault_config
ib_busd_config net =
    deploy_vault_config net (record { symbol = text "ibBUSD"; interest_model = high_interest })

unfoldable pub ib_bnb_config : Network → Script (Unit {0})
unfolding deploy_vault_config
ib_bnb_config net =
    deploy_vault_config net (record { symbol = text "ibBNB"; interest_model = high_interest })

unfoldable pub ib_usdt_config : Network → Script (Unit {0})
unfolding deploy_vault_config
ib_usdt_config net =
    deploy_vault_config net (record { symbol = text "ibUSDT"; interest_model = low_interest })

unfoldable pub ib_cake_config : Network → Script (Unit {0})
unfolding deploy_vault_config
ib_cake_config net =
    deploy_vault_config net (record { symbol = text "ibCAKE"; interest_model = high_interest })

unfoldable pub ib_eth_config : Network → Script (Unit {0})
unfolding deploy_vault_config
ib_eth_config net =
    deploy_vault_config net (record { symbol = text "ibETH"; interest_model = low_interest })

unfoldable pub ib_btcb_config : Network → Script (Unit {0})
unfolding deploy_vault_config
ib_btcb_config net =
    deploy_vault_config net (record { symbol = text "ibBTCB"; interest_model = low_interest })

unfoldable pub ib_usdc_config : Network → Script (Unit {0})
unfolding deploy_vault_config
ib_usdc_config net =
    deploy_vault_config net (record { symbol = text "ibUSDC"; interest_model = low_interest })

-- hardhat-deploy: scripts one after the other
unfoldable pub run_scripts : List (Script (Unit {0})) → Script (Unit {0})
run_scripts [] = pure tt
run_scripts (script ∷ scripts) = script >> run_scripts scripts

-- The eight scripts in the order of their numbers.
unfoldable pub all_vault_configs : Network → Script (Unit {0})
unfolding run_scripts
all_vault_configs net = run_scripts (
    ib_huski_config net
    ∷ ib_busd_config net
    ∷ ib_bnb_config net
    ∷ ib_usdt_config net
    ∷ ib_cake_config net
    ∷ ib_eth_config net
    ∷ ib_btcb_config net
    ∷ ib_usdc_config net
    ∷ [])
