-- ===== src/Vault.antt =====
-- contracts/6/protocol/Vault.sol: the lenders' tokens, the positions and their debt. What the
-- scripts set up of a vault is in Contracts.antt. The calls of a strategy, `requestFunds` and
-- `injectSerialCode`, and with them the serial code of a position, are left out; so are the list
-- of an owner's positions, which no modelled function reads, and the guards against reentrance:
-- each transaction runs alone.
pub mod Payments
pub mod Operations
pub mod Debt
pub mod Moves
pub mod Work
pub mod Kill
pub mod Conserved
pub mod Covered
pub mod Balanced
pub mod Lenders
use huski_bsc_contract.Base.{
  ℕ, ◌+◌, ◌-◌, ◌^◌, Bool, true, not, ◌&&◌, ◌||◌, Option, none, some, ltb, leb, ◌==◌, if◌then◌else◌,
  Result, ok, err, ◌>>=◌, ◌>>◌, require,
}
use huski_bsc_contract.Evm.{
  Revert, not_eoa, not_wnative, bad_value, tiny_shares, pool_id_not_set, bad_position_id,
  bad_position_worker, not_position_owner, not_worker, no_more_debt, insufficient_funds, small_debt,
  bad_work_factor, no_debt, cannot_liquidate, external_call_failed, OpenZeppelin, max_uint, update,
  checked,
}

pub record Position : Type 0 where
  pub worker : ℕ
  pub owner : ℕ
  pub debt_share : ℕ
  pub block_number : ℕ

-- A vault: its positions, its debt and its reserve, the tokens that it holds, and how many of its
-- own tokens there are.
pub record Accounts : Type 0 where
  pub token : ℕ
  pub positions : ℕ → Position
  pub next_position_id : ℕ
  pub fair_launch_pool_id : ℕ
  pub vault_debt_share : ℕ
  pub vault_debt_val : ℕ
  pub last_accrue_time : ℕ
  pub reserve_pool : ℕ
  pub balance : ℕ
  pub total_supply : ℕ

-- A transaction and what its calls return: `none` is a call that reverts. The token's calls return
-- the vault's new balance, those of OpenZeppelin's token the new supply, and those of a worker the
-- vault's new balance. `fair_launch_deposit` tells whether the minting of debt tokens and their
-- deposit go through, and `fair_launch_withdraw` whether the transaction goes on after the
-- withdrawal, which it does where the withdrawal fails, or succeeds and its tokens are burnt.
pub record Call : Type 0 where
  pub sender : ℕ
  pub is_eoa : Bool
  pub msg_value : ℕ
  pub now : ℕ
  pub block_number : ℕ
  pub wrapped_native : ℕ
  pub wnative_relayer : ℕ
  pub reserve_pool_bps : ℕ
  pub close_bps : ℕ
  pub kill_bps : ℕ
  pub min_debt_size : ℕ
  pub interest_rate : ℕ → ℕ → Option ℕ
  pub is_worker : ℕ → Bool
  pub accept_debt : ℕ → Option Bool
  pub work_factor : ℕ → ℕ → Option ℕ
  pub kill_factor : ℕ → ℕ → Option ℕ
  pub transfer_from : ℕ → ℕ → Option ℕ
  pub deposit_native : ℕ → ℕ → Option ℕ
  pub transfer : ℕ → ℕ → ℕ → Option ℕ
  pub unwrap : ℕ → ℕ → Bool
  pub mint : ℕ → ℕ → Option ℕ
  pub burn : ℕ → ℕ → Option ℕ
  pub fair_launch_deposit : ℕ → ℕ → Bool
  pub fair_launch_withdraw : ℕ → ℕ → Bool
  pub work : ℕ → ℕ → ℕ → Option ℕ
  pub liquidate : ℕ → ℕ → Option ℕ
  pub health : ℕ → Option ℕ

-- the accounts of `initialize`, over the zeros of a new contract
unfoldable pub new_accounts : ℕ → ℕ → ℕ → Accounts
new_accounts token now balance = record {
  token = token;
  positions = λ _. record { worker = 0; owner = 0; debt_share = 0; block_number = 0 };
  next_position_id = 1;
  fair_launch_pool_id = max_uint;
  vault_debt_share = 0;
  vault_debt_val = 0;
  last_accrue_time = now;
  reserve_pool = 0;
  balance = balance;
  total_supply = 0;
}

-- `setFairLaunchPoolId` of the owner
unfoldable pub set_pool_id : ℕ → Accounts → Accounts
set_pool_id pool_id v = record v { fair_launch_pool_id = pool_id }

-- A call that reverts with the callee.
abbrev pub external : Option ℕ → Result Revert ℕ
external none = err external_call_failed
external (some a) = ok a

-- `Math.min`
abbrev pub min : ℕ → ℕ → ℕ
min a b = if ltb a b then a else b

-- `pos.debtShare = share`
abbrev pub with_debt_share : ℕ → Position → Position
with_debt_share share pos = record pos { debt_share = share }

module _ (z : OpenZeppelin) where
  -- `a.mul(b).div(c)`
  abbrev pub mul_div : ℕ → ℕ → ℕ → Result Revert ℕ
  mul_div a b c = checked (z.mul a b) >>= λ product. checked (z.div product c)

  -- `debtShareToVal`
  unfoldable pub debt_share_to_val : ℕ → Accounts → Result Revert ℕ
  debt_share_to_val share v =
      if v.vault_debt_share == 0
      then ok share
      else mul_div share v.vault_debt_val v.vault_debt_share

  -- `debtValToShare`
  unfoldable pub debt_val_to_share : ℕ → Accounts → Result Revert ℕ
  debt_val_to_share val v =
      if v.vault_debt_share == 0 then ok val else mul_div val v.vault_debt_share v.vault_debt_val

  -- `_addDebt`
  unfoldable pub add_debt : ℕ → ℕ → Accounts → Result Revert Accounts
  add_debt id val v = do
    share ← debt_val_to_share val v
    mine ← checked (z.add (v.positions id).debt_share share)
    shares ← checked (z.add v.vault_debt_share share)
    vals ← checked (z.add v.vault_debt_val val)
    ok (record v {
      positions = update v.positions id (with_debt_share mine (v.positions id));
      vault_debt_share = shares;
      vault_debt_val = vals;
    })

  -- `_removeDebt` of a position that has debt
  unfoldable pub clear_debt : ℕ → Accounts → Result Revert (ℕ × Accounts)
  clear_debt id v = do
    val ← debt_share_to_val (v.positions id).debt_share v
    shares ← checked (z.sub v.vault_debt_share (v.positions id).debt_share)
    vals ← checked (z.sub v.vault_debt_val val)
    ok (
      val,
      record v {
        positions = update v.positions id (with_debt_share 0 (v.positions id));
        vault_debt_share = shares;
        vault_debt_val = vals;
      },
    )

  -- `_removeDebt`
  unfoldable pub remove_debt : ℕ → Accounts → Result Revert (ℕ × Accounts)
  remove_debt id v = if ltb 0 (v.positions id).debt_share then clear_debt id v else ok (0, v)

  -- `totalToken`
  unfoldable pub total_token : Accounts → Result Revert ℕ
  total_token v = do
    sum ← checked (z.add v.balance v.vault_debt_val)
    checked (z.sub sum v.reserve_pool)
