-- ===== src/Tests/Vault.antt =====
-- The theorems of Vault where two lenders deposit, one position borrows and is killed.
use huski_bsc_contract.Base.{
  ◌<◌, ℕ, ◌+◌, ◌-◌, ◌*◌, ◌/◌, ◌^◌, ◌≡◌, ◌≤◌, ◌⊎◌, refl, true, none, some, arith, leb, ◌==◌,
  if◌then◌else◌, Result, ok, err,
}
use huski_bsc_contract.Evm.{Revert}
use huski_bsc_contract.Vault.{
  min, remove_debt, Accounts, Call, new_accounts, set_pool_id, total_token, debt_share_to_val,
  debt_val_to_share, clear_debt,
}
use huski_bsc_contract.Vault.Payments.{
  accrue, interest_since, accrue_interest, take_token, move_in, move_out,
}
use huski_bsc_contract.Vault.Operations.{
  open_position, work_out, deposit, withdraw, work, kill, old_position, keep_debt, pay_excess,
}
use huski_bsc_contract.Vault.Debt.{IsExactToken}
use huski_bsc_contract.Vault.Lenders.{IsExactShare, deposit-no_loss, withdraw-no_loss}
use huski_bsc_contract.Vault.Work.{Chosen, Worked}
use huski_bsc_contract.Vault.Kill.{}
use huski_bsc_contract.Vault.Conserved.{work-conserved, kill-conserved}
use huski_bsc_contract.Vault.Covered.{Covered, work-Covered}
use huski_bsc_contract.Vault.Balanced.{
  IsBalanced, fresh, after, pool_set, deposited, withdrawn, worked, killed, VaultState-IsBalanced,
}
use huski_bsc_contract.Tests.Pools.{zeppelin, zeppelin-IsDocumented}

-- The sender 7 at a time. The worker brings 4 * 10 ^ 17, and 2 * 10 ^ 17 when it liquidates.
abbrev call : ℕ → Call
call now = record {
  sender = 7;
  is_eoa = true;
  msg_value = 0;
  now = now;
  block_number = 12;
  wrapped_native = 5;
  wnative_relayer = 6;
  reserve_pool_bps = 1000;
  close_bps = 100;
  kill_bps = 500;
  min_debt_size = 10 ^ 16;
  interest_rate = λ debt floating. some (10 ^ 10);
  is_worker = λ worker. worker == 8;
  accept_debt = λ worker. some true;
  work_factor = λ worker debt. some 7000;
  kill_factor = λ worker debt. some 3000;
  transfer_from = λ value b. some (b + value);
  deposit_native = λ value b. some (b + value);
  transfer = λ to amount b. if leb amount b then some (b - amount) else none;
  unwrap = λ to amount. true;
  mint = λ share supply. some (supply + share);
  burn = λ share supply. if leb share supply then some (supply - share) else none;
  fair_launch_deposit = λ id amount. true;
  fair_launch_withdraw = λ id amount. true;
  work = λ id debt b. some (b + 4 * 10 ^ 17);
  liquidate = λ id b. some (b + 2 * 10 ^ 17);
  health = λ id. some (3 * 10 ^ 17);
}

call-IsExactToken : (now : ℕ) → IsExactToken (call now)
call-IsExactToken now = record {
  taken = λ value b h. ground (arith, h);
  wrapped = λ value b h. ground (arith, h);
  sent = λ to amount b h. ground (arith, h);
}

call-IsExactShare : (now : ℕ) → IsExactShare (call now)
call-IsExactShare now = record {
  minted = λ share supply h. ground (arith, h);
  burned = λ share supply h. ground (arith, h);
}

abbrev result_or : Accounts → Result Revert Accounts → Accounts
result_or v (ok v') = v'
result_or v (err e) = v

abbrev new_vault : Accounts
new_vault = new_accounts 41 1000 0

abbrev pool_vault : Accounts
pool_vault = set_pool_id 3 new_vault

abbrev first_vault : Accounts
first_vault = result_or new_vault (deposit zeppelin (call 1010) (10 ^ 18) pool_vault)

first_deposit : deposit zeppelin (call 1010) (10 ^ 18) pool_vault ≡ ok first_vault
unfolding deposit withdraw work kill debt_share_to_val debt_val_to_share clear_debt total_token
    set_pool_id new_accounts move_in move_out accrue_interest interest_since old_position keep_debt
    pay_excess
first_deposit = refl

abbrev second_vault : Accounts
second_vault = result_or new_vault (deposit zeppelin (call 1020) (2 * 10 ^ 18) first_vault)

second_deposit : deposit zeppelin (call 1020) (2 * 10 ^ 18) first_vault ≡ ok second_vault
unfolding deposit withdraw work kill debt_share_to_val debt_val_to_share clear_debt total_token
    set_pool_id new_accounts move_in move_out accrue_interest interest_since old_position keep_debt
    pay_excess
second_deposit = refl

abbrev worked_vault : Accounts
worked_vault =
    result_or new_vault
      (work zeppelin (call 1030) 0 8 (10 ^ 17) (2 * 10 ^ 17) (10 ^ 17) second_vault)

first_work :
    work zeppelin (call 1030) 0 8 (10 ^ 17) (2 * 10 ^ 17) (10 ^ 17) second_vault ≡ ok worked_vault
unfolding deposit withdraw work kill debt_share_to_val debt_val_to_share clear_debt total_token
    set_pool_id new_accounts move_in move_out accrue_interest interest_since old_position keep_debt
    pay_excess
first_work = refl

abbrev killed_vault : Accounts
killed_vault = result_or new_vault (kill zeppelin (call 2030) 1 worked_vault)

first_kill : kill zeppelin (call 2030) 1 worked_vault ≡ ok killed_vault
unfolding deposit withdraw work kill debt_share_to_val debt_val_to_share clear_debt total_token
    set_pool_id new_accounts move_in move_out accrue_interest interest_since old_position keep_debt
    pay_excess
first_kill = refl

abbrev left_vault : Accounts
left_vault = result_or new_vault (withdraw zeppelin (call 3000) (10 ^ 18) killed_vault)

first_withdraw : withdraw zeppelin (call 3000) (10 ^ 18) killed_vault ≡ ok left_vault
unfolding deposit withdraw work kill debt_share_to_val debt_val_to_share clear_debt total_token
    set_pool_id new_accounts move_in move_out accrue_interest interest_since old_position keep_debt
    pay_excess
first_withdraw = refl

first_work_debt : worked_vault.vault_debt_val ≡ 10 ^ 17
unfolding deposit withdraw work kill debt_share_to_val debt_val_to_share clear_debt total_token
    set_pool_id new_accounts move_in move_out accrue_interest interest_since old_position keep_debt
    pay_excess
first_work_debt = refl

abbrev number_or : Result Revert ℕ → ℕ
number_or (ok n) = n
number_or (err e) = 0

abbrev taken_vault : Accounts
taken_vault = result_or new_vault (take_token zeppelin (call 1500) (10 ^ 18) worked_vault)

abbrev accrued_vault : Accounts
accrued_vault = result_or new_vault (accrue zeppelin (call 1500) (10 ^ 18) taken_vault)

abbrev third_vault : Accounts
third_vault = result_or new_vault (deposit zeppelin (call 1500) (10 ^ 18) worked_vault)

-- what the lenders have before the third deposit
abbrev lent : ℕ
lent = number_or (total_token zeppelin accrued_vault) - 10 ^ 18

deposit-no_loss_example :
    (total_token zeppelin third_vault ≡ ok (lent + 10 ^ 18))
    × (5 * lent / accrued_vault.total_supply ≤ 5 * (lent + 10 ^ 18) / third_vault.total_supply)
unfolding deposit withdraw work kill debt_share_to_val debt_val_to_share clear_debt total_token
    set_pool_id new_accounts move_in move_out accrue_interest interest_since old_position keep_debt
    pay_excess
deposit-no_loss_example =
    deposit-no_loss zeppelin zeppelin-IsDocumented (call 1500) (call-IsExactShare 1500) (10 ^ 18) 5
      lent worked_vault taken_vault accrued_vault refl refl refl (omega arith) (omega arith) refl

abbrev accrued_killed : Accounts
accrued_killed = result_or new_vault (accrue zeppelin (call 3000) 0 killed_vault)

abbrev lent_killed : ℕ
lent_killed = number_or (total_token zeppelin accrued_killed)

withdraw-no_loss_example :
    (rest : ℕ) × (rest + left_vault.reserve_pool ≡ left_vault.balance + left_vault.vault_debt_val)
    × (rest + 10 ^ 18 * lent_killed / accrued_killed.total_supply ≡ lent_killed)
    × (5 * lent_killed / accrued_killed.total_supply ≤ 5 * rest / left_vault.total_supply)
unfolding deposit withdraw work kill debt_share_to_val debt_val_to_share clear_debt total_token
    set_pool_id new_accounts move_in move_out accrue_interest interest_since old_position keep_debt
    pay_excess
withdraw-no_loss_example =
    withdraw-no_loss zeppelin zeppelin-IsDocumented (call 3000) (call-IsExactShare 3000) (10 ^ 18) 5
      lent_killed killed_vault accrued_killed (call-IsExactToken 3000) refl refl first_withdraw

work-conserved_example :
    (taken accrued opened cleared returned : Accounts) × (chosen old back : ℕ) × (take_token
        zeppelin
        (call 1030)
        (10 ^ 17)
        second_vault
      ≡ ok taken)
    × (accrue zeppelin (call 1030) (10 ^ 17) taken ≡ ok accrued)
    × (open_position zeppelin (call 1030) 0 8 accrued ≡ ok (chosen, opened))
    × (remove_debt zeppelin chosen opened ≡ ok (old, cleared))
    × (work_out zeppelin (call 1030) chosen 8 (old + 2 * 10 ^ 17) (10 ^ 17 + 2 * 10 ^ 17) cleared
        ≡ ok (back, returned))
    × (worked_vault.vault_debt_val + min (old + 2 * 10 ^ 17) (min back (10 ^ 17))
        ≡ accrued.vault_debt_val + 2 * 10 ^ 17)
    × (worked_vault.balance + worked_vault.vault_debt_val
        ≡ second_vault.balance
          + accrued.vault_debt_val
          + (back - min (old + 2 * 10 ^ 17) (min back (10 ^ 17))) * 100 / 10000)
    × (worked_vault.reserve_pool ≡ accrued.reserve_pool)
work-conserved_example =
    work-conserved zeppelin zeppelin-IsDocumented (call 1030) 0 8 (10 ^ 17) (2 * 10 ^ 17) (10 ^ 17)
      second_vault (call-IsExactToken 1030) first_work

work-Covered_example :
    (accrued : Accounts) × (w : Worked zeppelin
      (call 1030)
      0
      8
      (10 ^ 17)
      (2 * 10 ^ 17)
      (10 ^ 17)
      accrued
      worked_vault)
    × Chosen (call 1030) 0 8 second_vault w.chosen
    × (((worked_vault.positions w.chosen).debt_share ≡ 0) ⊎ Covered (call 1030) 8 w.chosen w.left)
    × ((other : ℕ)
        → ¬ (w.chosen ≡ other)
        → (worked_vault.positions other).debt_share ≡ (second_vault.positions other).debt_share)
work-Covered_example =
    work-Covered zeppelin zeppelin-IsDocumented (call 1030) 0 8 (10 ^ 17) (2 * 10 ^ 17) (10 ^ 17)
      second_vault (call-IsExactToken 1030) first_work

kill-conserved_example :
    (accrued cleared : Accounts) × (debt health factor back : ℕ) × (accrue zeppelin
        (call 2030)
        0
        worked_vault
      ≡ ok accrued)
    × (0 < (accrued.positions 1).debt_share)
    × (remove_debt zeppelin 1 accrued ≡ ok (debt, cleared))
    × ((call 2030).health 1 ≡ some health)
    × ((call 2030).kill_factor (cleared.positions 1).worker debt ≡ some factor)
    × (health * factor < debt * 10000)
    × ((call 2030).liquidate 1 cleared.balance ≡ some (cleared.balance + back))
    × ((killed_vault.positions 1).debt_share ≡ 0)
    × (killed_vault.balance + killed_vault.vault_debt_val + (debt - (back - back * 500 / 10000))
        ≡ worked_vault.balance + accrued.vault_debt_val)
    × (killed_vault.reserve_pool ≡ accrued.reserve_pool)
kill-conserved_example =
    kill-conserved zeppelin zeppelin-IsDocumented (call 2030) 1 worked_vault
      (call-IsExactToken 2030) first_kill

VaultState-IsBalanced_example : IsBalanced left_vault
VaultState-IsBalanced_example = VaultState-IsBalanced zeppelin zeppelin-IsDocumented (
    after
      (after
        (after
          (after
            (after (after (fresh 41 1000 0) (pool_set 3 refl)) (
              deposited (call 1010) (10 ^ 18) (call-IsExactToken 1010) (call-IsExactShare 1010)
                first_deposit))
            (deposited (call 1020) (2 * 10 ^ 18) (call-IsExactToken 1020) (call-IsExactShare 1020)
              second_deposit))
          (worked (call 1030) 0 8 (10 ^ 17) (2 * 10 ^ 17) (10 ^ 17) (call-IsExactToken 1030)
            first_work))
        (killed (call 2030) 1 (call-IsExactToken 2030) first_kill))
      (withdrawn (call 3000) (10 ^ 18) (call-IsExactToken 3000) (call-IsExactShare 3000)
        first_withdraw))
