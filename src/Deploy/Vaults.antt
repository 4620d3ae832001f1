-- ===== src/Deploy/Vaults.antt =====
-- deploy/scripts/011-*_deploy_vault.ts: the eight scripts are one text but for their five
-- constants. Each step runs in the state that the steps before it leave: the transactions are
-- mined in order, which the waits of ten seconds are for, and nobody else sends one in between.
pub mod Filling
pub mod Linked
pub mod Missing
pub mod Phases
pub mod Ready
use huski_bsc_contract.Base.{
  ℕ, zero, suc, ◌+◌, ◌^◌, ◌≡◌, Bool, true, false, Option, none, some, List, [], ◌∷◌, ◌++◌, ltb,
  get_elem?, if◌then◌else◌, Bytes, bytes_eq, Result, ok, err,
}
use huski_bsc_contract.Base
use huski_bsc_contract.Merkle.{lookup}
use huski_bsc_contract.Evm.{Revert, no_contract, OpenZeppelin, update}
use huski_bsc_contract.FairLaunch.{FairLaunch, add_pool, pool_length}
use huski_bsc_contract.Contracts.{
  DebtToken, Vault, WNativeRelayer, init_debt_token, init_vault, set_ok_holders,
  transfer_debt_token, approve_max, set_fair_launch_pool_id, set_caller_ok,
}
use huski_bsc_contract.Deploy.{
  text, Address, VaultEntry, PoolEntry, Config, World, Network, Script, ◌>>=◌, ◌>>◌, pure, gets,
  modify, expect, bad_argument, reverted, undefined_field, unsafe_number, config_of, set_config,
  write_config, contract_at, transact, create_contract,
}

-- The constants of a script that differ; `base_token` is the key of `config.Tokens`.
pub record VaultScript : Type 0 where
  pub vault_index : ℕ
  pub name : Bytes
  pub alloc_point_for_deposit : ℕ
  pub alloc_point_for_open_position : ℕ
  pub base_token : Bytes

-- `config.FairLaunch.pools.push(entry)`
unfoldable pub push_pool_entry : Network → PoolEntry → World → World
push_pool_entry net entry w =
    let config = config_of net w in
    set_config net (record config { fair_launch_pools = config.fair_launch_pools ++ entry ∷ [] }) w

-- `n.toNumber()`
unfoldable pub to_number : ℕ → Script ℕ
to_number n w = if ltb n (2 ^ 53) then (ok n, w) else (err unsafe_number, w)

-- the assignments to an entry of `config.Vaults`
unfoldable pub fill_vault : Bytes → Bytes → ℕ → Address → ℕ → VaultEntry → VaultEntry
fill_vault symbol name vault base_token debt entry = record entry {
  name = name;
  symbol = symbol;
  address = some vault;
  base_token = base_token;
  debt_token = some debt;
}

-- the loop over `config.Vaults`: the entries that it has passed, and those before it
unfoldable pub fill_vaults :
    Network → Bytes → (VaultEntry → VaultEntry) → List VaultEntry → List VaultEntry → World → World
unfolding config_of
fill_vaults net symbol fill passed [] w = w
fill_vaults net symbol fill passed (entry ∷ entries) w = elim (bytes_eq entry.symbol symbol) [
  | true ↦ fill_vaults net symbol fill (passed ++ fill entry ∷ []) entries (
      write_config net
        (set_config net (record (config_of net w) { vaults = passed ++ fill entry ∷ entries }) w))
  | false ↦ fill_vaults net symbol fill (passed ++ entry ∷ []) entries w
]

module _ (net : Network) where
  -- a transaction with the debt token at an address
  unfoldable pub on_debt : (DebtToken → Result Revert DebtToken) → ℕ → World → Result Revert World
  on_debt f debt w =
      Base.◌>>=◌ (contract_at w.debts debt)
        λ t. Base.◌>>=◌ (f t) λ t'. ok (record w { debts = update w.debts debt (some t') })

  -- the approval of a vault, which passes over an address without a contract
  unfoldable pub approve_debt : ℕ → ℕ → ℕ → World → Result Revert World
  unfolding on_debt
  approve_debt self debt spender w = elim (w.debts debt) [
    | none ↦ ok w
    | some t ↦ on_debt (approve_max net.zeppelin self spender) debt w
  ]

  -- the creation of the debt token
  unfoldable pub make_debt_token : Bytes → ℕ → ℕ → World → Result Revert World
  make_debt_token name timelock self w = ok (record w {
    debts = update w.debts self (some (init_debt_token w.deployer name name timelock));
  })

  -- the creation of the vault
  unfoldable pub make_vault : ℕ → ℕ → Bytes → Bytes → ℕ → ℕ → World → Result Revert World
  make_vault config token name symbol debt self w = Base.◌>>=◌ (contract_at w.configs config) λ c.
      Base.◌>>=◌ (approve_debt self debt c.fair_launch w) λ w1. ok (record w1 {
        vaults =
            update w1.vaults self
              (some (init_vault w.deployer (net.now w.nonce) config token name symbol 18 debt));
      })

  -- `fairlaunch.addPool(symbol, alloc, token, true)`
  unfoldable pub add_pool_at : ℕ → Bytes → ℕ → ℕ → World → Result Revert World
  add_pool_at fair_launch symbol alloc token w =
      Base.◌>>=◌ (contract_at w.fair_launches fair_launch) λ f.
        Base.◌>>=◌ (add_pool net.zeppelin (net.block w.nonce) w.deployer symbol alloc token true f)
          λ f'. ok (record w { fair_launches = update w.fair_launches fair_launch (some f') })

  -- `vault.setFairLaunchPoolId(pid)`
  unfoldable pub set_pool_id_at : ℕ → ℕ → World → Result Revert World
  set_pool_id_at vault pid w = Base.◌>>=◌ (contract_at w.vaults vault) λ v.
      Base.◌>>=◌ (set_fair_launch_pool_id net.zeppelin w.deployer pid v) λ v'.
        Base.◌>>=◌ (contract_at w.configs v.config) λ c.
          Base.◌>>=◌ (approve_debt vault v.debt_token c.fair_launch w)
            λ w1. ok (record w1 { vaults = update w1.vaults vault (some v') })

  -- `wNativeRelayer.setCallerOk([vault], true)`
  unfoldable pub allow_caller_at : ℕ → ℕ → World → Result Revert World
  allow_caller_at relayer vault w = Base.◌>>=◌ (contract_at w.relayers relayer) λ r.
      Base.◌>>=◌ (set_caller_ok net.zeppelin w.deployer (vault ∷ []) true r)
        λ r'. ok (record w { relayers = update w.relayers relayer (some r') })

  -- `(await fairlaunch.poolLength()).sub(1)`, where a pool has been added
  unfoldable pub last_pool : ℕ → Script ℕ
  last_pool fair_launch = do
    launches ← gets λ w. w.fair_launches
    f ← expect (reverted no_contract) (launches fair_launch)
    elim (pool_length f) [ zero ↦ expect bad_argument none | suc n ↦ pure n ]

  -- the contracts of a script
  unfoldable pub deploy_tokens : VaultScript → Config → VaultEntry → Script (ℕ × ℕ)
  deploy_tokens s config entry = do
    timelock ← expect bad_argument config.timelock
    debt ←
        create_contract net (make_debt_token (text "debt" ++ entry.symbol ++ text "_V2") timelock)
    vault_config ← expect bad_argument entry.config
    token ← expect bad_argument (lookup s.base_token config.tokens)
    vault ← create_contract net (make_vault vault_config token s.name entry.symbol debt)
    pure (debt, vault)

  -- the holders and the owner of the debt token
  unfoldable pub hand_over : ℕ → ℕ → ℕ → Script (Unit {0})
  hand_over fair_launch debt vault = do
    transact
        λ w. on_debt (set_ok_holders net.zeppelin w.deployer (vault ∷ fair_launch ∷ []) true) debt w
    transact λ w. on_debt (transfer_debt_token net.zeppelin w.deployer vault) debt w

  -- the pool of the debt token
  unfoldable pub add_debt_pool : VaultScript → Bytes → ℕ → ℕ → ℕ → Script (Unit {0})
  add_debt_pool s symbol fair_launch debt vault = do
    transact (add_pool_at fair_launch (text "debt" ++ symbol) s.alloc_point_for_open_position debt)
    pid ← last_pool fair_launch
    transact (set_pool_id_at vault pid)
    id ← to_number pid
    modify (
        push_pool_entry net
          (record { id = id; staking_token = text "debt" ++ symbol; address = debt }))

  -- the pool of the vault
  unfoldable pub add_vault_pool : VaultScript → Bytes → ℕ → ℕ → Script (Unit {0})
  add_vault_pool s symbol fair_launch vault = do
    transact (add_pool_at fair_launch symbol s.alloc_point_for_deposit vault)
    pid ← last_pool fair_launch
    id ← to_number pid
    modify (push_pool_entry net (record { id = id; staking_token = symbol; address = vault }))

  -- the body of a script
  unfoldable pub deploy_vault : VaultScript → Script (Unit {0})
  deploy_vault s = do
    config ← gets (config_of net)
    entry ← expect undefined_field (get_elem? config.vaults s.vault_index)
    (debt, vault) ← deploy_tokens s config entry
    fair_launch ← expect bad_argument config.fair_launch_address
    hand_over fair_launch debt vault
    add_debt_pool s entry.symbol fair_launch debt vault
    add_vault_pool s entry.symbol fair_launch vault
    relayer ← expect bad_argument config.wnative_relayer
    transact (allow_caller_at relayer vault)
    entries ← gets λ w. (config_of net w).vaults
    let fill = fill_vault entry.symbol s.name vault (lookup s.base_token config.tokens) debt
    modify (fill_vaults net entry.symbol fill [] entries)

-- the eight scripts
abbrev pub huski_script : VaultScript
huski_script = record {
  vault_index = 1;
  name = text "Interest Bearing HUSKI";
  alloc_point_for_deposit = 0;
  alloc_point_for_open_position = 0;
  base_token = text "HUSKY";
}

unfoldable pub huski_vault : Network → Script (Unit {0})
huski_vault net = deploy_vault net huski_script

abbrev pub busd_script : VaultScript
busd_script = record {
  vault_index = 2;
  name = text "Interest Bearing BUSD";
  alloc_point_for_deposit = 200;
  alloc_point_for_open_position = 300;
  base_token = text "BUSD";
}

unfoldable pub busd_vault : Network → Script (Unit {0})
busd_vault net = deploy_vault net busd_script

abbrev pub bnb_script : VaultScript
bnb_script = record {
  vault_index = 3;
  name = text "Interest Bearing WBNB";
  alloc_point_for_deposit = 200;
  alloc_point_for_open_position = 300;
  base_token = text "WBNB";
}

unfoldable pub bnb_vault : Network → Script (Unit {0})
bnb_vault net = deploy_vault net bnb_script

abbrev pub usdt_script : VaultScript
usdt_script = record {
  vault_index = 4;
  name = text "Interest Bearing USDT";
  alloc_point_for_deposit = 100;
  alloc_point_for_open_position = 100;
  base_token = text "USDT";
}

unfoldable pub usdt_vault : Network → Script (Unit {0})
usdt_vault net = deploy_vault net usdt_script

abbrev pub cake_script : VaultScript
cake_script = record {
  vault_index = 5;
  name = text "Interest Bearing CAKE";
  alloc_point_for_deposit = 0;
  alloc_point_for_open_position = 0;
  base_token = text "CAKE";
}

unfoldable pub cake_vault : Network → Script (Unit {0})
cake_vault net = deploy_vault net cake_script

abbrev pub eth_script : VaultScript
eth_script = record {
  vault_index = 6;
  name = text "Interest Bearing ETH";
  alloc_point_for_deposit = 100;
  alloc_point_for_open_position = 100;
  base_token = text "ETH";
}

unfoldable pub eth_vault : Network → Script (Unit {0})
eth_vault net = deploy_vault net eth_script

abbrev pub btcb_script : VaultScript
btcb_script = record {
  vault_index = 7;
  name = text "Interest Bearing BTCB";
  alloc_point_for_deposit = 100;
  alloc_point_for_open_position = 50;
  base_token = text "BTCB";
}

unfoldable pub btcb_vault : Network → Script (Unit {0})
btcb_vault net = deploy_vault net btcb_script

abbrev pub usdc_script : VaultScript
usdc_script = record {
  vault_index = 8;
  name = text "Interest Bearing USDC";
  alloc_point_for_deposit = 100;
  alloc_point_for_open_position = 100;
  base_token = text "USDC";
}

unfoldable pub usdc_vault : Network → Script (Unit {0})
usdc_vault net = deploy_vault net usdc_script
