-- ===== src/Deploy/Vaults/Ready.antt =====
-- deploy/scripts/011-*_deploy_vault.ts: what a script finds and what it leaves behind.
use huski_bsc_contract.Base.{
  ℕ, suc, ◌+◌, ◌^◌, ◌≡◌, ◌<◌, ◌∙◌, ap, sym, true, some, [], ◌∷◌, ◌++◌, arith, get_elem?, length,
  length-append, Bytes, ok,
}
use huski_bsc_contract.Merkle.{lookup}
use huski_bsc_contract.Evm.{max_uint}
use huski_bsc_contract.FairLaunch.{FairLaunch, add_pool, pool_length}
use huski_bsc_contract.FairLaunch.Updates.{shapes, length-shapes}
use huski_bsc_contract.FairLaunch.Pools.{Added}
use huski_bsc_contract.Contracts.{BasicVaultConfig, DebtToken, Vault, WNativeRelayer}
use huski_bsc_contract.Deploy.{text, VaultEntry, PoolEntry, World, Network, config_of}
use huski_bsc_contract.Deploy.Steps.{config_of-set_config}
use huski_bsc_contract.Deploy.Vaults.{VaultScript, push_pool_entry, fill_vault}
use huski_bsc_contract.Deploy.Chain.{SameChain, set_config-SameChain}
use huski_bsc_contract.Deploy.Vaults.Filling.{fill_matching}
use huski_bsc_contract.Deploy.Vaults.Phases.{}

module _ (net : Network) where
  -- What a script finds: the entries of the results file, the contracts that they name, of which
  -- the deployer owns the relayer, and a chain that lets the script's transactions through.
  pub record IsReady (s : VaultScript) (w : World) : Type 0 where
    pub entry : VaultEntry
    pub timelock : ℕ
    pub vault_config : ℕ
    pub token : ℕ
    pub fair_launch : ℕ
    pub relayer : ℕ
    pub contract : BasicVaultConfig
    pub before : FairLaunch
    pub between : FairLaunch
    pub behind : FairLaunch
    pub wnative : WNativeRelayer
    pub has_entry : get_elem? (config_of net w).vaults s.vault_index ≡ some entry
    pub has_timelock : (config_of net w).timelock ≡ some timelock
    pub has_config : entry.config ≡ some vault_config
    pub has_token : lookup s.base_token (config_of net w).tokens ≡ some token
    pub has_fair_launch : (config_of net w).fair_launch_address ≡ some fair_launch
    pub has_relayer : (config_of net w).wnative_relayer ≡ some relayer
    pub config_there : w.configs vault_config ≡ some contract
    pub fair_launch_there : w.fair_launches fair_launch ≡ some before
    pub relayer_there : w.relayers relayer ≡ some wnative
    pub relayer_owned : wnative.owner ≡ w.deployer
    pub approves : net.zeppelin.approve (net.create (w.nonce + 1)) contract.fair_launch ≡ true
    pub transfers :
        net.zeppelin.transfer_ownership w.deployer w.deployer (net.create (w.nonce + 1))
        ≡ some (net.create (w.nonce + 1))
    pub adds_debt_pool :
        add_pool net.zeppelin
          (net.block (w.nonce + 1 + 1 + 1 + 1))
          w.deployer
          (text "debt" ++ entry.symbol)
          s.alloc_point_for_open_position
          (net.create w.nonce)
          true
          before
        ≡ ok between
    pub adds_vault_pool :
        add_pool net.zeppelin
          (net.block (w.nonce + 1 + 1 + 1 + 1 + 1 + 1))
          w.deployer
          entry.symbol
          s.alloc_point_for_deposit
          (net.create (w.nonce + 1))
          true
          between
        ≡ ok behind
    pub few_pools : length before.pools + 1 < 2 ^ 53

  -- What a script leaves behind.
  pub record Linked (s : VaultScript) (w w' : World) (r : IsReady s w) : Type 0 where
    pub debt_token : DebtToken
    pub vault : Vault
    pub pools : FairLaunch
    pub wnative : WNativeRelayer
    pub debt_token_there : w'.debts (net.create w.nonce) ≡ some debt_token
    pub debt_token_owned : debt_token.owner ≡ net.create (w.nonce + 1)
    pub vault_holds : debt_token.ok_holders (net.create (w.nonce + 1)) ≡ true
    pub fair_launch_holds : debt_token.ok_holders r.fair_launch ≡ true
    pub allowed : debt_token.allowance (net.create (w.nonce + 1)) r.contract.fair_launch ≡ max_uint
    pub vault_there : w'.vaults (net.create (w.nonce + 1)) ≡ some vault
    pub vault_owned : vault.owner ≡ w.deployer
    pub vault_token : vault.token ≡ r.token
    pub vault_config : vault.config ≡ r.vault_config
    pub vault_debt : vault.debt_token ≡ net.create w.nonce
    pub pools_there : w'.fair_launches r.fair_launch ≡ some pools
    pub pools_added :
        shapes pools.pools
        ≡ shapes r.before.pools
          ++ (text "debt" ++ r.entry.symbol, net.create w.nonce, s.alloc_point_for_open_position)
            ∷ (r.entry.symbol, net.create (w.nonce + 1), s.alloc_point_for_deposit)
            ∷ []
    pub vault_pool : vault.fair_launch_pool_id ≡ length r.before.pools
    pub wnative_there : w'.relayers r.relayer ≡ some wnative
    pub vault_calls : wnative.ok_callers (net.create (w.nonce + 1)) ≡ true
    pub pools_listed :
        (config_of net w').fair_launch_pools
        ≡ ((config_of net w).fair_launch_pools
            ++ record {
              id = length r.before.pools;
              staking_token = text "debt" ++ r.entry.symbol;
              address = net.create w.nonce;
            }
              ∷ [])
          ++ record {
            id = length r.before.pools + 1;
            staking_token = r.entry.symbol;
            address = net.create (w.nonce + 1);
          }
            ∷ []
    pub vaults_filled :
        (config_of net w').vaults
        ≡ fill_matching r.entry.symbol
            (fill_vault r.entry.symbol s.name
              (net.create (w.nonce + 1))
              (some r.token)
              (net.create w.nonce))
            (config_of net w).vaults
    pub written : lookup net.name w'.disk ≡ some (config_of net w')

  -- One pool more: the index of the last one is the number of those before.
  pub Added-pool_length :
      (f f' : FairLaunch) {symbol : Bytes} {token alloc : ℕ}
      → Added f f' symbol token alloc
      → pool_length f' ≡ suc (length f.pools)
  unfolding pool_length
  Added-pool_length f f' {symbol} {token} {alloc} a =
      sym (length-shapes f'.pools)
      ∙ ap length a.added_shapes
      ∙ length-append (shapes f.pools) ((symbol, token, alloc) ∷ [])
      ∙ omega (arith, length-shapes f.pools)

  pub push_pool_entry-SameChain :
      (e : PoolEntry) (w : World) → SameChain w (push_pool_entry net e w)
  unfolding push_pool_entry
  push_pool_entry-SameChain e w =
      set_config-SameChain net
        (record (config_of net w) {
          fair_launch_pools = (config_of net w).fair_launch_pools ++ e ∷ [];
        })
        w

  pub config_of-push_pool_entry :
      (e : PoolEntry) (w : World)
      → config_of net (push_pool_entry net e w) ≡ record (config_of net w) {
        fair_launch_pools = (config_of net w).fair_launch_pools ++ e ∷ [];
      }
  unfolding push_pool_entry
  config_of-push_pool_entry e w =
      config_of-set_config net
        (record (config_of net w) {
          fair_launch_pools = (config_of net w).fair_launch_pools ++ e ∷ [];
        })
        w
