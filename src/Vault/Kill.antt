-- ===== src/Vault/Kill.antt =====
-- contracts/6/protocol/Vault.sol: the steps of `kill`, one after the other.
use Prim.Native.Nat.{◌*◌, ◌/◌}
use huski_bsc_contract.Base.{
  ℕ, ◌+◌, ◌-◌, ◌≡◌, ◌<◌, ◌∙◌, sym, ap, subst, not, some, arith, ltb, ◌==◌, if_use, if◌then◌else◌,
  ok, >>=-use, require, require-eq-ok,
}
use huski_bsc_contract.Evm.{
  pool_id_not_set, no_debt, cannot_liquidate, external_call_failed, OpenZeppelin, IsDocumented,
  checked, checked-eq-ok, max_uint,
}
use huski_bsc_contract.Vault.{Accounts, Call, external, mul_div, remove_debt}
use huski_bsc_contract.Vault.Payments.{send_token}
use huski_bsc_contract.Vault.Operations.{pay, kill_position}
use huski_bsc_contract.Vault.Debt.{
  IsExactToken, external-eq_ok, DebtRemoved, mul_div-eq_ok, remove_debt-DebtRemoved,
}
use huski_bsc_contract.Vault.Moves.{Paid, set_balance-Paid, send_token-Paid}

module _ (z : OpenZeppelin) (doc : IsDocumented z) (c : Call) where
  pay-Paid :
      (to amount : ℕ) (v : Accounts) {v' : Accounts}
      → IsExactToken c
      → pay z c to amount v ≡ ok v'
      → (balance : ℕ) × Paid balance v v' × (balance + amount ≡ v.balance)
  unfolding pay
  pay-Paid to amount v {v'} exact h =
      if_use (ltb 0 amount) (send_token z c to amount v) (ok v) h
        (λ some_amount e. send_token-Paid z doc c exact to amount v e)
        λ nothing e.
          let same : v ≡ v' = ground (arith, e) in
          let none_paid : amount ≡ 0 = ground (arith, nothing) in
          (
            v.balance,
            subst (λ x. Paid v.balance v x) same (set_balance-Paid v.balance v),
            omega (arith, none_paid),
          )

  -- Two payments, one after the other.
  Paid-Paid : {b1 b2 : ℕ} (v v1 v2 : Accounts) → Paid b1 v v1 → Paid b2 v1 v2 → Paid b2 v v2
  Paid-Paid v v1 v2 p q = record {
    balance_set = q.balance_set;
    reserve_kept = q.reserve_kept ∙ p.reserve_kept;
    vals_kept = q.vals_kept ∙ p.vals_kept;
    supply_kept = q.supply_kept ∙ p.supply_kept;
    books = record {
      same_positions = q.books.same_positions ∙ p.books.same_positions;
      same_next = q.books.same_next ∙ p.books.same_next;
      same_shares = q.books.same_shares ∙ p.books.same_shares;
    };
  }

  -- What `kill` does behind its modifiers: `rest` is what the liquidation brings, less the prize.
  pub record Killed (id : ℕ) (v v' : Accounts) : Type 0 where
    pub debt : ℕ
    pub health : ℕ
    pub factor : ℕ
    pub rest : ℕ
    pub cleared : Accounts
    pub last_balance : ℕ
    pub had_debt : 0 < (v.positions id).debt_share
    pub removes : remove_debt z id v ≡ ok (debt, cleared)
    pub clears : DebtRemoved id debt v cleared
    pub health_found : c.health id ≡ some health
    pub factor_found : c.kill_factor (cleared.positions id).worker debt ≡ some factor
    pub unhealthy : health * factor < debt * 10000
    pub liquidated_balance : ℕ
    pub back : ℕ
    pub liquidates : c.liquidate id cleared.balance ≡ some liquidated_balance
    pub back_lem : liquidated_balance ≡ cleared.balance + back
    pub rest_lem : rest + back * c.kill_bps / 10000 ≡ back
    pub pays : Paid last_balance cleared v'
    pub last_lem : last_balance + (rest - debt) ≡ cleared.balance + rest

  pub kill_position-Killed :
      (id : ℕ) (v : Accounts) {v' : Accounts}
      → IsExactToken c
      → kill_position z c id v ≡ ok v'
      → Killed id v v'
  unfolding kill_position
  kill_position-Killed id v {v'} exact h =
      let share = (v.positions id).debt_share in
      >>=-use (require (not (v.fair_launch_pool_id == max_uint)) pool_id_not_set) _ h λ u a h1.
        >>=-use (require (ltb 0 share) no_debt) _ h1 λ u2 indebted h2.
          >>=-use (require (c.fair_launch_withdraw id share) external_call_failed) _ h2 λ u3 b h3.
            >>=-use (remove_debt z id v) _ h3 λ (debt, v1) clears h4.
              >>=-use (external (c.health id)) _ h4 λ health d h5.
                >>=-use (external (c.kill_factor (v1.positions id).worker debt)) _ h5 λ factor e h6.
                  >>=-use (checked (z.mul health factor)) _ h6 λ covered f h7.
                    >>=-use (checked (z.mul debt 10000)) _ h7 λ needed g h8.
                      >>=-use (require (ltb covered needed) cannot_liquidate) _ h8 λ u4 low h9.
                        >>=-use (external (c.liquidate id v1.balance)) _ h9 λ balance i h10.
                          >>=-use (checked (z.sub balance v1.balance)) _ h10 λ back j h11.
                            >>=-use (mul_div z back c.kill_bps 10000) _ h11 λ prize k h12.
                              >>=-use (checked (z.sub back prize)) _ h12 λ rest l h13.
                                >>=-use (pay z c c.sender prize (record v1 { balance = balance })) _
                                  h13
                                  λ v2 first h14.
                                    let (b1, p1, first_lem) =
                                      pay-Paid c.sender prize (record v1 { balance = balance })
                                        exact first in
                                    let (b2, p2, second_lem) =
                                      pay-Paid (v2.positions id).owner
                                        (if ltb debt rest then rest - debt else 0) v2 exact h14 in
                                    let left_lem : (if ltb debt rest then rest - debt else 0)
                                        ≡ rest - debt =
                                      ground arith in
                                    let back_lem =
                                      doc.exact_difference balance v1.balance
                                        (checked-eq-ok (z.sub balance v1.balance) j) in
                                    let rest_lem =
                                      doc.exact_difference back prize
                                        (checked-eq-ok (z.sub back prize) l) in
                                    let (prize_lem, _) =
                                      mul_div-eq_ok z doc back c.kill_bps 10000 k in
                                    let covered_lem =
                                      doc.exact_product health factor
                                        (checked-eq-ok (z.mul health factor) f) in
                                    let needed_lem =
                                      doc.exact_product debt 10000
                                        (checked-eq-ok (z.mul debt 10000) g) in
                                    let low_test =
                                      require-eq-ok (ltb covered needed) cannot_liquidate low in
                                    let low_lt : covered < needed = ground (arith, low_test) in
                                    let debt_test = require-eq-ok (ltb 0 share) no_debt indebted in
                                    record {
                                      debt = debt;
                                      health = health;
                                      factor = factor;
                                      rest = rest;
                                      cleared = v1;
                                      last_balance = b2;
                                      had_debt = ground (arith, debt_test);
                                      removes = clears;
                                      clears = remove_debt-DebtRemoved z doc id debt v v1 clears;
                                      health_found = external-eq_ok _ d;
                                      factor_found = external-eq_ok _ e;
                                      unhealthy = omega (arith, low_lt, covered_lem, needed_lem);
                                      liquidated_balance = balance;
                                      back = back;
                                      liquidates = external-eq_ok _ i;
                                      back_lem = omega (arith, back_lem);
                                      rest_lem = ap (λ x. rest + x) (sym prize_lem) ∙ rest_lem;
                                      pays =
                                          Paid-Paid v1 (record v1 { balance = balance }) v'
                                            (set_balance-Paid balance v1)
                                            (Paid-Paid (record v1 { balance = balance }) v2 v' p1
                                              p2);
                                      last_lem = omega (
                                        arith, left_lem, back_lem, rest_lem, first_lem, second_lem,
                                        p1.balance_set,
                                      );
                                    }
