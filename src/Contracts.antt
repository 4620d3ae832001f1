-- ===== src/Contracts.antt =====
-- The contracts that the deployment scripts set up, but for FairLaunch: their state and their
-- administrative functions. `initializer` and the owner that `__Ownable_init` sets, the sender,
-- are OpenZeppelin's; a proxy is initialised once, when it is deployed.
use huski_bsc_contract.Base.{
  ℕ, Bool, false, none, some, List, [], ◌∷◌, leb, ◌==◌, length, Bytes, Result, ok, err, ◌>>◌,
  require,
}
use huski_bsc_contract.Evm.{
  Revert, not_owner, kill_bps_exceeded, bad_length, safe_approve_failed, transfer_ownership_failed,
  OpenZeppelin, max_uint, update,
}

-- contracts/6/protocol/configs/BasicVaultConfig.sol
pub record BasicVaultConfig : Type 0 where
  pub owner : ℕ
  pub min_debt_size : ℕ
  pub reserve_pool_bps : ℕ
  pub close_bps : ℕ
  pub kill_bps : ℕ
  pub workers : ℕ → ℕ
  pub interest_model : ℕ
  pub wrapped_native : ℕ
  pub wnative_relayer : ℕ
  pub fair_launch : ℕ
  pub max_kill_bps : ℕ

-- The arguments of `initialize` and of `setParams`, in order.
pub record VaultParams : Type 0 where
  pub min_debt_size : ℕ
  pub reserve_pool_bps : ℕ
  pub close_bps : ℕ
  pub kill_bps : ℕ
  pub interest_model : ℕ
  pub wrapped_native : ℕ
  pub wnative_relayer : ℕ
  pub fair_launch : ℕ

-- contracts/6/protocol/DebtToken.sol, without the balances
pub record DebtToken : Type 0 where
  pub owner : ℕ
  pub name : Bytes
  pub symbol : Bytes
  pub timelock : ℕ
  pub ok_holders : ℕ → Bool
  pub allowance : ℕ → ℕ → ℕ

-- contracts/6/protocol/Vault.sol, without the positions and the debt
pub record Vault : Type 0 where
  pub owner : ℕ
  pub name : Bytes
  pub symbol : Bytes
  pub decimals : ℕ
  pub next_position_id : ℕ
  pub config : ℕ
  pub last_accrue_time : ℕ
  pub token : ℕ
  pub fair_launch_pool_id : ℕ
  pub debt_token : ℕ

-- contracts/6/protocol/WNativeRelayer.sol, without the native coins
pub record WNativeRelayer : Type 0 where
  pub owner : ℕ
  pub wnative : ℕ
  pub ok_callers : ℕ → Bool

-- the loop of `setOkHolders` and of `setCallerOk`
unfoldable pub set_all : List ℕ → Bool → (ℕ → Bool) → ℕ → Bool
set_all [] is_ok m = m
set_all (a ∷ rest) is_ok m = set_all rest is_ok (update m a is_ok)

-- the loop of `setWorkers`, over two lists of one length
unfoldable pub set_worker_configs : List ℕ → List ℕ → (ℕ → ℕ) → ℕ → ℕ
set_worker_configs (a ∷ addrs) (c ∷ configs) m = set_worker_configs addrs configs (update m a c)
set_worker_configs _ _ m = m

-- `DebtToken.initialize`
unfoldable pub init_debt_token : ℕ → Bytes → Bytes → ℕ → DebtToken
init_debt_token sender name symbol timelock = record {
  owner = sender;
  name = name;
  symbol = symbol;
  timelock = timelock;
  ok_holders = λ _. false;
  allowance = λ _ _. 0;
}

-- `Vault.initialize`, but for the approval
unfoldable pub init_vault : ℕ → ℕ → ℕ → ℕ → Bytes → Bytes → ℕ → ℕ → Vault
init_vault sender now config token name symbol decimals debt_token = record {
  owner = sender;
  name = name;
  symbol = symbol;
  decimals = decimals;
  next_position_id = 1;
  config = config;
  last_accrue_time = now;
  token = token;
  fair_launch_pool_id = max_uint;
  debt_token = debt_token;
}

module _ (z : OpenZeppelin) where
  -- `BasicVaultConfig.setParams`
  unfoldable pub set_params : ℕ → VaultParams → BasicVaultConfig → Result Revert BasicVaultConfig
  set_params sender p c = do
    require (z.only_owner c.owner sender) not_owner
    require (leb p.kill_bps c.max_kill_bps) kill_bps_exceeded
    ok (record c {
      min_debt_size = p.min_debt_size;
      reserve_pool_bps = p.reserve_pool_bps;
      close_bps = p.close_bps;
      kill_bps = p.kill_bps;
      interest_model = p.interest_model;
      wrapped_native = p.wrapped_native;
      wnative_relayer = p.wnative_relayer;
      fair_launch = p.fair_launch;
    })

  -- `BasicVaultConfig.initialize`, over the zeros of a new contract
  unfoldable pub init_vault_config : ℕ → VaultParams → Result Revert BasicVaultConfig
  unfolding set_params
  init_vault_config sender p = set_params sender p (record {
    owner = sender;
    min_debt_size = 0;
    reserve_pool_bps = 0;
    close_bps = 0;
    kill_bps = 0;
    workers = λ _. 0;
    interest_model = 0;
    wrapped_native = 0;
    wnative_relayer = 0;
    fair_launch = 0;
    max_kill_bps = 500;
  })

  -- `BasicVaultConfig.setWorkers`
  unfoldable pub set_workers :
      ℕ → List ℕ → List ℕ → BasicVaultConfig → Result Revert BasicVaultConfig
  unfolding set_worker_configs
  set_workers sender addrs configs c = do
    require (z.only_owner c.owner sender) not_owner
    require (length addrs == length configs) bad_length
    ok (record c { workers = set_worker_configs addrs configs c.workers })

  -- `DebtToken.setOkHolders`
  unfoldable pub set_ok_holders : ℕ → List ℕ → Bool → DebtToken → Result Revert DebtToken
  unfolding set_all
  set_ok_holders sender holders is_ok t = do
    require (z.only_owner t.owner sender) not_owner
    ok (record t { ok_holders = set_all holders is_ok t.ok_holders })

  -- `transferOwnership` of the debt token
  unfoldable pub transfer_debt_token : ℕ → ℕ → DebtToken → Result Revert DebtToken
  transfer_debt_token sender new_owner t = elim (z.transfer_ownership t.owner sender new_owner) [
    | none ↦ err transfer_ownership_failed
    | some owner ↦ ok (record t { owner = owner })
  ]

  -- `SafeToken.safeApprove(debtToken, spender, uint256(-1))` of a vault at `self`
  unfoldable pub approve_max : ℕ → ℕ → DebtToken → Result Revert DebtToken
  approve_max self spender t = do
    require (z.approve self spender) safe_approve_failed
    ok (record t {
      allowance = update t.allowance self (update (t.allowance self) spender max_uint);
    })

  -- `Vault.setFairLaunchPoolId`, but for the approval
  unfoldable pub set_fair_launch_pool_id : ℕ → ℕ → Vault → Result Revert Vault
  set_fair_launch_pool_id sender pool_id v = do
    require (z.only_owner v.owner sender) not_owner
    ok (record v { fair_launch_pool_id = pool_id })

  -- `WNativeRelayer.setCallerOk`
  unfoldable pub set_caller_ok : ℕ → List ℕ → Bool → WNativeRelayer → Result Revert WNativeRelayer
  unfolding set_all
  set_caller_ok sender callers is_ok r = do
    require (z.only_owner r.owner sender) not_owner
    ok (record r { ok_callers = set_all callers is_ok r.ok_callers })
