-- ===== src/Vault/Moves.antt =====
-- contracts/6/protocol/Vault.sol: what the steps of a transaction do to the tokens, the debt and
-- the reserve.
use Prim.Native.Nat.{◌*◌, ◌/◌}
use native.Mathlib.Nat.{}
use huski_bsc_contract.Base.{
  ℕ, ◌+◌, ◌-◌, ◌≡◌, ◌≤◌, ◌<◌, ◌⊎◌, inl, inr, refl, sym, ◌∙◌, ap, subst, true, false, not, ◌||◌,
  some, arith, ltb, leb, ◌==◌, eq_of_test, if_use, if◌then◌else◌, Option, Result, ok, >>=-use,
  require, require-eq-ok,
}
use huski_bsc_contract.Base
use huski_bsc_contract.Evm.{
  not_wnative, bad_value, insufficient_funds, small_debt, bad_work_factor, external_call_failed,
  OpenZeppelin, IsDocumented, checked, checked-eq-ok,
}
use huski_bsc_contract.Vault.{Accounts, Call, external, mul_div, debt_val_to_share, add_debt}
use huski_bsc_contract.Vault.Payments.{
  move_in, take_token, take_native, move_out, send_token, send_native,
}
use huski_bsc_contract.Vault.Operations.{
  work_out, keep_debt, settle_debt, pay_excess, return_excess,
}
use huski_bsc_contract.Vault.Debt.{
  IsExactToken, external-eq_ok, SameBooks, DebtAdded, mul_div-eq_ok, add_debt-DebtAdded,
}

-- The balance is another one, and nothing else.
pub record Paid (balance : ℕ) (v v' : Accounts) : Type 0 where
  pub balance_set : v'.balance ≡ balance
  pub reserve_kept : v'.reserve_pool ≡ v.reserve_pool
  pub vals_kept : v'.vault_debt_val ≡ v.vault_debt_val
  pub supply_kept : v'.total_supply ≡ v.total_supply
  pub books : SameBooks v v'

pub set_balance-Paid :
    (balance : ℕ) (v : Accounts) → Paid balance v (record v { balance = balance })
set_balance-Paid balance v = record {
  balance_set = refl;
  reserve_kept = refl;
  vals_kept = refl;
  supply_kept = refl;
  books = record { same_positions = refl; same_next = refl; same_shares = refl };
}

module _ (z : OpenZeppelin) (c : Call) where
  -- What `work` checks before a position keeps debt, and does.
  pub record Kept (id worker debt : ℕ) (v v' : Accounts) : Type 0 where
    pub share : ℕ
    pub health : ℕ
    pub factor : ℕ
    pub health_found : c.health id ≡ some health
    pub factor_found : c.work_factor worker debt ≡ some factor
    pub large_enough : c.min_debt_size ≤ debt
    pub covered : debt * 10000 ≤ health * factor
    pub given : debt_val_to_share z debt v ≡ ok share
    pub added : DebtAdded id debt share v v'

module _ (z : OpenZeppelin) (doc : IsDocumented z) (c : Call) (exact : IsExactToken c) where
  send_native-eq_ok :
      (to amount : ℕ) (v : Accounts) {b : ℕ}
      → send_native z c to amount v ≡ ok b
      → b + amount ≡ v.balance
  unfolding send_native
  send_native-eq_ok to amount v {b} h =
      >>=-use (external (c.transfer c.wnative_relayer amount v.balance)) _ h λ balance sent h1.
        >>=-use (require (c.unwrap to amount) external_call_failed) _ h1 λ u a h2.
          let same : balance ≡ b = ground (arith, h2) in
          let moved = exact.sent c.wnative_relayer amount v.balance (external-eq_ok _ sent) in
          omega (arith, same, moved)

  move_out-eq_ok :
      (to amount : ℕ) (v : Accounts) {b : ℕ}
      → move_out z c to amount v ≡ ok b
      → b + amount ≡ v.balance
  unfolding move_out
  move_out-eq_ok to amount v h =
      if_use (v.token == c.wrapped_native) (send_native z c to amount v)
        (external (c.transfer to amount v.balance)) h (λ native e. send_native-eq_ok to amount v e)
        λ other e. exact.sent to amount v.balance (external-eq_ok _ e)

  pub send_token-Paid :
      (to amount : ℕ) (v : Accounts) {v' : Accounts}
      → send_token z c to amount v ≡ ok v'
      → (balance : ℕ) × Paid balance v v' × (balance + amount ≡ v.balance)
  unfolding send_token
  send_token-Paid to amount v {v'} h = >>=-use (move_out z c to amount v) _ h λ balance moved h1.
      let same : record v { balance = balance } ≡ v' = ground (arith, h1) in
      (
        balance,
        subst (λ x. Paid balance v x) same (set_balance-Paid balance v),
        move_out-eq_ok to amount v moved,
      )

  take_native-eq_ok :
      (value : ℕ) (v : Accounts) {b : ℕ} → take_native z c value v ≡ ok b → b ≡ v.balance + value
  unfolding take_native
  take_native-eq_ok value v {b} h =
      >>=-use (require (v.token == c.wrapped_native) not_wnative) _ h λ u a h1.
        >>=-use (require (value == c.msg_value) bad_value) _ h1 λ u2 same h2.
          let value_lem = eq_of_test value c.msg_value (require-eq-ok _ bad_value same) in
          omega (arith, exact.wrapped c.msg_value v.balance (external-eq_ok _ h2), value_lem)

  move_in-eq_ok :
      (value : ℕ) (v : Accounts) {b : ℕ} → move_in z c value v ≡ ok b → b ≡ v.balance + value
  unfolding move_in
  move_in-eq_ok value v h =
      if_use (c.msg_value == 0) (external (c.transfer_from value v.balance))
        (take_native z c value v) h (λ token e. exact.taken value v.balance (external-eq_ok _ e))
        λ native e. take_native-eq_ok value v e

  pub take_token-Paid :
      (value : ℕ) (v : Accounts) {v' : Accounts}
      → take_token z c value v ≡ ok v'
      → Paid (v.balance + value) v v'
  unfolding take_token
  take_token-Paid value v {v'} h = >>=-use (move_in z c value v) _ h λ balance moved h1.
      let same : record v { balance = balance } ≡ v' = ground (arith, h1) in
      subst (λ b. Paid b v v') (move_in-eq_ok value v moved)
        (subst (λ x. Paid balance v x) same (set_balance-Paid balance v))

  -- What the worker's part of `work` does.
  pub work_out-Paid :
      (id worker debt sent back : ℕ) (v v' : Accounts)
      → work_out z c id worker debt sent v ≡ ok (back, v')
      → (balance : ℕ) × Paid balance v v' × (balance + sent ≡ v.balance + back)
  unfolding work_out
  work_out-Paid id worker debt sent back v v' h =
      >>=-use (require (leb sent v.balance) insufficient_funds) _ h λ u a h1.
        >>=-use (checked (z.sub v.balance sent)) _ h1 λ before b h2.
          >>=-use (external (c.transfer worker sent v.balance)) _ h2 λ left t h3.
            >>=-use (external (c.work id debt left)) _ h3 λ balance w h4.
              >>=-use (checked (z.sub balance before)) _ h4 λ gained g h5.
                let same : record v { balance = balance } ≡ v' = ground (arith, h5) in
                let back_lem : gained ≡ back = ground (arith, h5) in
                let before_lem =
                  doc.exact_difference v.balance sent (checked-eq-ok (z.sub v.balance sent) b) in
                let gained_lem =
                  doc.exact_difference balance before (checked-eq-ok (z.sub balance before) g) in
                (
                  balance,
                  subst (λ x. Paid balance v x) same (set_balance-Paid balance v),
                  omega (arith, back_lem, before_lem, gained_lem),
                )

  pub keep_debt-Kept :
      (id worker debt : ℕ) (v : Accounts) {v' : Accounts}
      → keep_debt z c id worker debt v ≡ ok v'
      → Kept z c id worker debt v v'
  unfolding keep_debt
  keep_debt-Kept id worker debt v {v'} h =
      >>=-use (require (leb c.min_debt_size debt) small_debt) _ h λ u large h1.
        >>=-use (external (c.health id)) _ h1 λ health a h2.
          >>=-use (external (c.work_factor worker debt)) _ h2 λ factor b h3.
            >>=-use (checked (z.mul health factor)) _ h3 λ covered d h4.
              >>=-use (checked (z.mul debt 10000)) _ h4 λ needed e h5.
                >>=-use (require (leb needed covered) bad_work_factor) _ h5 λ u2 enough h6.
                  >>=-use (add_debt z id debt v) _ h6 λ v1 added h7.
                    >>=-use
                      (require
                        (not (ltb 0 (v1.positions id).debt_share)
                          || c.fair_launch_deposit id (v1.positions id).debt_share)
                        external_call_failed)
                      _ h7
                      λ u3 f h8.
                        let same : v1 ≡ v' = ground (arith, h8) in
                        let (share, given, books) = add_debt-DebtAdded z doc id debt v added in
                        let covered_lem =
                          doc.exact_product health factor (checked-eq-ok (z.mul health factor) d) in
                        let needed_lem =
                          doc.exact_product debt 10000 (checked-eq-ok (z.mul debt 10000) e) in
                        let test = require-eq-ok (leb needed covered) bad_work_factor enough in
                        let size = require-eq-ok (leb c.min_debt_size debt) small_debt large in
                        let le : needed ≤ covered = ground (arith, test) in
                        record {
                          share = share;
                          health = health;
                          factor = factor;
                          health_found = external-eq_ok _ a;
                          factor_found = external-eq_ok _ b;
                          large_enough = ground (arith, size);
                          covered = omega (arith, le, covered_lem, needed_lem);
                          given = given;
                          added = subst (λ x. DebtAdded id debt share v x) same books;
                        }

  -- A position is left without debt, or with debt that has passed the checks.
  pub settle_debt-Kept :
      (id worker debt : ℕ) (v : Accounts) {v' : Accounts}
      → settle_debt z c id worker debt v ≡ ok v'
      → ((debt ≡ 0) × (v' ≡ v)) ⊎ Kept z c id worker debt v v'
  unfolding settle_debt
  settle_debt-Kept id worker debt v {v'} h =
      if_use (ltb 0 debt) (keep_debt z c id worker debt v) (ok v) h
        (λ some_debt e. inr (keep_debt-Kept id worker debt v e))
        λ no_debt e. inl (ground (arith, no_debt), ground (arith, e))

  pay_excess-Paid :
      (excess : ℕ) (v : Accounts) {v' : Accounts}
      → pay_excess z c excess v ≡ ok v'
      → (prize : ℕ) × (balance : ℕ) × Paid balance v v'
        × (balance + excess ≡ v.balance + prize)
        × (prize ≡ excess * c.close_bps / 10000)
  unfolding pay_excess
  pay_excess-Paid excess v {v'} h = >>=-use (mul_div z excess c.close_bps 10000) _ h λ prize p h1.
      >>=-use (if ltb 0 prize then checked (z.add v.reserve_pool prize) else ok 0) _ h1 λ sum d h2.
        >>=-use (checked (z.sub excess prize)) _ h2 λ paid s h3.
          let (balance, moved, balance_lem) = send_token-Paid c.sender paid v h3 in
          let paid_lem = doc.exact_difference excess prize (checked-eq-ok (z.sub excess prize) s) in
          let (prize_lem, _) = mul_div-eq_ok z doc excess c.close_bps 10000 p in
          (prize, balance, moved, omega (arith, balance_lem, paid_lem), prize_lem)

  -- What goes back to the sender, but for a share that stays.
  pub return_excess-Paid :
      (back less : ℕ) (v : Accounts) {v' : Accounts}
      → less ≤ back
      → return_excess z c back less v ≡ ok v'
      → (prize : ℕ) × (balance : ℕ) × Paid balance v v'
        × (balance + back ≡ v.balance + less + prize)
        × (prize ≡ (back - less) * c.close_bps / 10000)
  unfolding return_excess
  return_excess-Paid back less v {v'} bound h =
      if_use (ltb less back)
        (Base.◌>>=◌ (checked (z.sub back less)) λ excess. pay_excess z c excess v) (ok v) h
        (λ more e. >>=-use (checked (z.sub back less)) _ e λ excess s h1.
          let (prize, balance, moved, balance_lem, prize_lem) = pay_excess-Paid excess v h1 in
          let excess_lem = doc.exact_difference back less (checked-eq-ok (z.sub back less) s) in
          let excess_eq : excess ≡ back - less = omega (arith, excess_lem) in
          (
            prize,
            balance,
            moved,
            omega (arith, balance_lem, excess_lem),
            prize_lem ∙ ap (λ x. x * c.close_bps / 10000) excess_eq,
          ))
        λ nothing e.
          let same : v ≡ v' = ground (arith, e) in
          let equal : back ≡ less = ground (arith, nothing, bound) in
          let no_excess : back - less ≡ 0 = omega (arith, equal) in
          let none_left : 0 ≡ 0 * c.close_bps / 10000 = omega arith in
          (
            0,
            v.balance,
            subst (λ x. Paid v.balance v x) same (set_balance-Paid v.balance v),
            omega (arith, equal),
            none_left ∙ sym (ap (λ x. x * c.close_bps / 10000) no_excess),
          )
