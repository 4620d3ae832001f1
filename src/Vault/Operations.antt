-- ===== src/Vault/Operations.antt =====
-- contracts/6/protocol/Vault.sol: `deposit`, `withdraw`, `work` and `kill`.
use huski_bsc_contract.Base.{
  ℕ, ◌+◌, ◌-◌, ◌^◌, Bool, true, not, ◌||◌, none, some, ltb, leb, ◌==◌, if◌then◌else◌, Result, ok,
  err, ◌>>=◌, ◌>>◌, require,
}
use huski_bsc_contract.Evm.{
  Revert, not_eoa, tiny_shares, pool_id_not_set, bad_position_id, bad_position_worker,
  not_position_owner, not_worker, no_more_debt, insufficient_funds, small_debt, bad_work_factor,
  no_debt, cannot_liquidate, external_call_failed, OpenZeppelin, max_uint, update, checked,
}
use huski_bsc_contract.Vault.{
  Accounts, Call, external, min, mul_div, total_token, add_debt, remove_debt,
}
use huski_bsc_contract.Vault.Payments.{accrue, take_token, send_token}

module _ (z : OpenZeppelin) (c : Call) where
  -- `_deposit`, where the tokens are in the vault already
  unfoldable pub deposit_taken : ℕ → Accounts → Result Revert Accounts
  unfolding total_token
  deposit_taken amount v = do
    all ← total_token z v
    total ← checked (z.sub all amount)
    share ← (if total == 0 then ok amount else mul_div z amount v.total_supply total)
    supply ← external (c.mint share v.total_supply)
    require (ltb (10 ^ 17) supply) tiny_shares
    ok (record v { total_supply = supply })

  -- `deposit`
  unfoldable pub deposit : ℕ → Accounts → Result Revert Accounts
  unfolding take_token accrue deposit_taken
  deposit amount v = do v ← take_token z c amount v; v ← accrue z c amount v; deposit_taken amount v

  -- `withdraw` behind its modifiers
  unfoldable pub withdraw_accrued : ℕ → Accounts → Result Revert Accounts
  unfolding total_token send_token
  withdraw_accrued share v = do
    all ← total_token z v
    amount ← mul_div z share all v.total_supply
    supply ← external (c.burn share v.total_supply)
    v ← send_token z c c.sender amount (record v { total_supply = supply })
    require (ltb (10 ^ 17) supply) tiny_shares
    ok v

  -- `withdraw`
  unfoldable pub withdraw : ℕ → Accounts → Result Revert Accounts
  unfolding accrue withdraw_accrued
  withdraw share v = do v ← accrue z c 0 v; withdraw_accrued share v

  -- the start of `work` with a new position
  abbrev pub new_position : ℕ → Accounts → ℕ × Accounts
  new_position worker v = (
    v.next_position_id,
    record v {
      positions = update v.positions v.next_position_id (record (v.positions v.next_position_id) {
        worker = worker;
        owner = c.sender;
        block_number = c.block_number;
      });
      next_position_id = v.next_position_id + 1;
    },
  )

  -- the start of `work` with an old one
  unfoldable pub old_position : ℕ → ℕ → Accounts → Result Revert (ℕ × Accounts)
  old_position id worker v = do
    require (ltb id v.next_position_id) bad_position_id
    require ((v.positions id).worker == worker) bad_position_worker
    require ((v.positions id).owner == c.sender) not_position_owner
    require
        (not (ltb 0 (v.positions id).debt_share)
          || c.fair_launch_withdraw id (v.positions id).debt_share)
        external_call_failed
    ok (id, v)

  unfoldable pub open_position : ℕ → ℕ → Accounts → Result Revert (ℕ × Accounts)
  open_position id worker v =
      if id == 0 then ok (new_position worker v) else old_position id worker v

  -- `loan == 0 || config.acceptDebt(worker)`
  unfoldable pub takes_loan : ℕ → ℕ → Result Revert Bool
  takes_loan loan worker =
      if loan == 0
      then ok true
      else (elim (c.accept_debt worker) [ none ↦ err external_call_failed | some b ↦ ok b ])

  -- the worker's part of `work`: what is back after it
  unfoldable pub work_out : ℕ → ℕ → ℕ → ℕ → Accounts → Result Revert (ℕ × Accounts)
  work_out id worker debt sent v = do
    require (leb sent v.balance) insufficient_funds
    before ← checked (z.sub v.balance sent)
    balance ← external (c.transfer worker sent v.balance)
    balance ← external (c.work id debt balance)
    back ← checked (z.sub balance before)
    ok (back, record v { balance = balance })

  -- the debt that is left, under the checks of `work`
  unfoldable pub keep_debt : ℕ → ℕ → ℕ → Accounts → Result Revert Accounts
  unfolding add_debt
  keep_debt id worker debt v = do
    require (leb c.min_debt_size debt) small_debt
    health ← external (c.health id)
    factor ← external (c.work_factor worker debt)
    covered ← checked (z.mul health factor)
    needed ← checked (z.mul debt 10000)
    require (leb needed covered) bad_work_factor
    v ← add_debt z id debt v
    require
        (not (ltb 0 (v.positions id).debt_share)
          || c.fair_launch_deposit id (v.positions id).debt_share)
        external_call_failed
    ok v

  unfoldable pub settle_debt : ℕ → ℕ → ℕ → Accounts → Result Revert Accounts
  settle_debt id worker debt v = if ltb 0 debt then keep_debt id worker debt v else ok v

  -- the excess: `reservePool.add(prize)` computes a sum and drops it
  unfoldable pub pay_excess : ℕ → Accounts → Result Revert Accounts
  unfolding send_token
  pay_excess excess v = do
    prize ← mul_div z excess c.close_bps 10000
    dropped ← (if ltb 0 prize then checked (z.add v.reserve_pool prize) else ok 0)
    paid ← checked (z.sub excess prize)
    send_token z c c.sender paid v

  unfoldable pub return_excess : ℕ → ℕ → Accounts → Result Revert Accounts
  return_excess back less v =
      if ltb less back then (checked (z.sub back less) >>= λ excess. pay_excess excess v) else ok v

  -- `work` behind its modifiers
  unfoldable pub work_position : ℕ → ℕ → ℕ → ℕ → ℕ → Accounts → Result Revert Accounts
  unfolding open_position remove_debt work_out settle_debt return_excess takes_loan
  work_position id worker principal loan max_return v = do
    require (not (v.fair_launch_pool_id == max_uint)) pool_id_not_set
    (id, v) ← open_position id worker v
    require (c.is_worker worker) not_worker
    takes ← takes_loan loan worker
    require takes no_more_debt
    (old, v) ← remove_debt z id v
    debt ← checked (z.add old loan)
    sent ← checked (z.add principal loan)
    (back, v) ← work_out id worker debt sent v
    let less = min debt (min back max_return)
    left ← checked (z.sub debt less)
    v ← settle_debt id worker left v
    return_excess back less v

  -- `work`
  unfoldable pub work : ℕ → ℕ → ℕ → ℕ → ℕ → Accounts → Result Revert Accounts
  unfolding take_token accrue work_position
  work id worker principal loan max_return v = do
    require c.is_eoa not_eoa
    v ← take_token z c principal v
    v ← accrue z c principal v
    work_position id worker principal loan max_return v

  -- a payment of `kill`, which is left out where there is nothing to pay
  unfoldable pub pay : ℕ → ℕ → Accounts → Result Revert Accounts
  unfolding send_token
  pay to amount v = if ltb 0 amount then send_token z c to amount v else ok v

  -- `kill` behind its modifiers
  unfoldable pub kill_position : ℕ → Accounts → Result Revert Accounts
  unfolding remove_debt pay
  kill_position id v = do
    require (not (v.fair_launch_pool_id == max_uint)) pool_id_not_set
    require (ltb 0 (v.positions id).debt_share) no_debt
    require (c.fair_launch_withdraw id (v.positions id).debt_share) external_call_failed
    (debt, v) ← remove_debt z id v
    health ← external (c.health id)
    factor ← external (c.kill_factor (v.positions id).worker debt)
    covered ← checked (z.mul health factor)
    needed ← checked (z.mul debt 10000)
    require (ltb covered needed) cannot_liquidate
    balance ← external (c.liquidate id v.balance)
    back ← checked (z.sub balance v.balance)
    prize ← mul_div z back c.kill_bps 10000
    rest ← checked (z.sub back prize)
    v ← pay c.sender prize (record v { balance = balance })
    pay (v.positions id).owner (if ltb debt rest then rest - debt else 0) v

  -- `kill`
  unfoldable pub kill : ℕ → Accounts → Result Revert Accounts
  unfolding accrue kill_position
  kill id v = do require c.is_eoa not_eoa; v ← accrue z c 0 v; kill_position id v
