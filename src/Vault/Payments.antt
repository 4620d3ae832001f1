-- ===== src/Vault/Payments.antt =====
-- contracts/6/protocol/Vault.sol: the interest, and the tokens that come in and go out.
use huski_bsc_contract.Base.{ℕ, ◌^◌, ltb, ◌==◌, if◌then◌else◌, Result, ok, ◌>>=◌, ◌>>◌, require}
use huski_bsc_contract.Evm.{
  Revert, not_wnative, bad_value, external_call_failed, OpenZeppelin, checked,
}
use huski_bsc_contract.Vault.{Accounts, Call, external, mul_div}

module _ (z : OpenZeppelin) (c : Call) where
  -- `pendingInterest` after time has passed
  unfoldable pub interest_since : ℕ → Accounts → Result Revert ℕ
  interest_since value v = do
    time_past ← checked (z.sub c.now v.last_accrue_time)
    floating ← checked (z.sub v.balance value)
    rate ← external (c.interest_rate v.vault_debt_val floating)
    per_second ← checked (z.mul rate v.vault_debt_val)
    mul_div z per_second time_past (10 ^ 18)

  -- the modifier `accrue` after time has passed
  unfoldable pub accrue_interest : ℕ → Accounts → Result Revert Accounts
  accrue_interest value v = do
    interest ← interest_since value v
    to_reserve ← mul_div z interest c.reserve_pool_bps 10000
    reserve ← checked (z.add v.reserve_pool to_reserve)
    vals ← checked (z.add v.vault_debt_val interest)
    ok (record v { reserve_pool = reserve; vault_debt_val = vals; last_accrue_time = c.now })

  -- the modifier `accrue`
  unfoldable pub accrue : ℕ → Accounts → Result Revert Accounts
  accrue value v = if ltb v.last_accrue_time c.now then accrue_interest value v else ok v

  -- the native coins of a transaction, wrapped
  unfoldable pub take_native : ℕ → Accounts → Result Revert ℕ
  take_native value v = do
    require (v.token == c.wrapped_native) not_wnative
    require (value == c.msg_value) bad_value
    external (c.deposit_native c.msg_value v.balance)

  -- the tokens of a transaction
  unfoldable pub move_in : ℕ → Accounts → Result Revert ℕ
  move_in value v =
      if c.msg_value == 0 then external (c.transfer_from value v.balance) else take_native value v

  -- the modifier `transferTokenToVault`
  unfoldable pub take_token : ℕ → Accounts → Result Revert Accounts
  take_token value v = do balance ← move_in value v; ok (record v { balance = balance })

  -- `_smartSafeTransfer` to the relayer
  unfoldable pub send_native : ℕ → ℕ → Accounts → Result Revert ℕ
  send_native to amount v = do
    balance ← external (c.transfer c.wnative_relayer amount v.balance)
    require (c.unwrap to amount) external_call_failed
    ok balance

  -- the two ways of `_smartSafeTransfer`
  unfoldable pub move_out : ℕ → ℕ → Accounts → Result Revert ℕ
  move_out to amount v =
      if v.token == c.wrapped_native
      then send_native to amount v
      else external (c.transfer to amount v.balance)

  -- `_smartSafeTransfer`
  unfoldable pub send_token : ℕ → ℕ → Accounts → Result Revert Accounts
  send_token to amount v = do balance ← move_out to amount v; ok (record v { balance = balance })
