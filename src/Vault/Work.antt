-- ===== src/Vault/Work.antt =====
-- contracts/6/protocol/Vault.sol: the steps of `work`, one after the other.
use Prim.Native.Nat.{◌*◌, ◌/◌}
use huski_bsc_contract.Base.{
  ℕ, ◌+◌, ◌-◌, ◌≡◌, ◌≤◌, ◌<◌, ◌⊎◌, inl, inr, refl, ap, subst, not, ◌||◌, arith, ltb, ◌==◌, if_use,
  eq_of_test, Bool-cases, ok, >>=-use, require, require-eq-ok,
}
use huski_bsc_contract.Evm.{
  pool_id_not_set, bad_position_id, bad_position_worker, not_position_owner, not_worker,
  no_more_debt, external_call_failed, OpenZeppelin, IsDocumented, checked, checked-eq-ok, max_uint,
}
use huski_bsc_contract.Vault.{Accounts, Call, min, remove_debt}
use huski_bsc_contract.Vault.Payments.{}
use huski_bsc_contract.Vault.Operations.{
  new_position, old_position, open_position, takes_loan, work_out, settle_debt, work_position,
}
use huski_bsc_contract.Vault.Debt.{IsExactToken, SameFunds, DebtRemoved, remove_debt-DebtRemoved}
use huski_bsc_contract.Vault.Moves.{Paid, work_out-Paid, Kept, settle_debt-Kept, return_excess-Paid}

-- A position is chosen, and no funds or debts have moved.
pub record Opened (id : ℕ) (v v' : Accounts) : Type 0 where
  pub funds : SameFunds v v'
  pub vals_kept : v'.vault_debt_val ≡ v.vault_debt_val
  pub shares_kept : v'.vault_debt_share ≡ v.vault_debt_share
  pub debts_kept : (i : ℕ) → (v'.positions i).debt_share ≡ (v.positions i).debt_share
  pub next_grown : v.next_position_id ≤ v'.next_position_id
  pub id_known : id < v'.next_position_id

-- The position that `work` works on.
pub data Chosen (c : Call) (id worker : ℕ) (v : Accounts) (chosen : ℕ) : Type 0 where
  opened : id ≡ 0 → chosen ≡ v.next_position_id → Chosen c id worker v chosen
  owned :
      chosen ≡ id
      → (v.positions id).worker ≡ worker
      → (v.positions id).owner ≡ c.sender
      → Chosen c id worker v chosen

-- What `work` does behind its modifiers.
pub record Worked (z : OpenZeppelin) (c : Call) (id worker principal loan max_return : ℕ)
    (v v' : Accounts) : Type 0 where
  pub chosen : ℕ
  pub old : ℕ
  pub back : ℕ
  pub less : ℕ
  pub left : ℕ
  pub prize : ℕ
  pub opened : Accounts
  pub cleared : Accounts
  pub returned : Accounts
  pub settled : Accounts
  pub balance : ℕ
  pub last_balance : ℕ
  pub found : open_position z c id worker v ≡ ok (chosen, opened)
  pub removes : remove_debt z chosen opened ≡ ok (old, cleared)
  pub works_out :
      work_out z c chosen worker (old + loan) (principal + loan) cleared ≡ ok (back, returned)
  pub less_lem : less ≡ min (old + loan) (min back max_return)
  pub less_bound : less ≤ back
  pub chooses : Chosen c id worker v chosen
  pub opens : Opened chosen v opened
  pub clears : DebtRemoved chosen old opened cleared
  pub works : Paid balance cleared returned
  pub back_lem : balance + (principal + loan) ≡ cleared.balance + back
  pub left_lem : left + less ≡ old + loan
  pub settles : ((left ≡ 0) × (settled ≡ returned)) ⊎ Kept z c chosen worker left returned settled
  pub pays : Paid last_balance settled v'
  pub last_lem : last_balance + back ≡ settled.balance + less + prize
  pub prize_lem : prize ≡ (back - less) * c.close_bps / 10000

module _ (z : OpenZeppelin) (doc : IsDocumented z) (c : Call) where
  new_position-Opened :
      (worker : ℕ) (v : Accounts) → Opened v.next_position_id v (new_position z c worker v).1
  new_position-Opened worker v =
      let n = v.next_position_id in
      record {
        funds = record { same_balance = refl; same_reserve = refl };
        vals_kept = refl;
        shares_kept = refl;
        debts_kept = λ i. elim (Bool-cases (n == i)) [
          | inl same ↦ rw same (ap (λ j. (v.positions j).debt_share) (eq_of_test n i same))
          | inr other ↦ rw other refl
        ];
        next_grown = omega arith;
        id_known = omega arith;
      }

  pub open_position-Opened :
      (id worker : ℕ) (v : Accounts) {id' : ℕ} {v' : Accounts}
      → open_position z c id worker v ≡ ok (id', v')
      → Opened id' v v'
  unfolding open_position old_position
  open_position-Opened id worker v {id'} {v'} h =
      if_use (id == 0) (ok (new_position z c worker v)) (old_position z c id worker v) h
        (λ fresh e.
          let same : new_position z c worker v ≡ (id', v') = ground (arith, e) in
          subst (λ x. Opened x.0 v x.1) same (new_position-Opened worker v))
        λ old e. >>=-use (require (ltb id v.next_position_id) bad_position_id) _ e λ u known h1.
          >>=-use (require ((v.positions id).worker == worker) bad_position_worker) _ h1 λ u2 a h2.
            >>=-use (require ((v.positions id).owner == c.sender) not_position_owner) _ h2
              λ u3 b h3.
                >>=-use
                  (require
                    (not (ltb 0 (v.positions id).debt_share)
                      || c.fair_launch_withdraw id (v.positions id).debt_share)
                    external_call_failed)
                  _ h3
                  λ u4 d h4.
                    let same : ◌≡◌ {A = ℕ × Accounts} (id, v) (id', v') = ground (arith, h4) in
                    let test = require-eq-ok (ltb id v.next_position_id) bad_position_id known in
                    subst (λ x. Opened x.0 v x.1) same
                      (record {
                        funds = record { same_balance = refl; same_reserve = refl };
                        vals_kept = refl;
                        shares_kept = refl;
                        debts_kept = λ i. refl;
                        next_grown = omega arith;
                        id_known = ground (arith, test);
                      })

  open_position-Chosen :
      (id worker : ℕ) (v : Accounts) {id' : ℕ} {v' : Accounts}
      → open_position z c id worker v ≡ ok (id', v')
      → Chosen c id worker v id'
  unfolding open_position old_position
  open_position-Chosen id worker v {id'} {v'} h =
      if_use (id == 0) (ok (new_position z c worker v)) (old_position z c id worker v) h
        (λ fresh e. opened (ground (arith, fresh)) (ground (arith, e)))
        λ old e. >>=-use (require (ltb id v.next_position_id) bad_position_id) _ e λ u known h1.
          >>=-use (require ((v.positions id).worker == worker) bad_position_worker) _ h1 λ u2 a h2.
            >>=-use (require ((v.positions id).owner == c.sender) not_position_owner) _ h2
              λ u3 b h3.
                >>=-use
                  (require
                    (not (ltb 0 (v.positions id).debt_share)
                      || c.fair_launch_withdraw id (v.positions id).debt_share)
                    external_call_failed)
                  _ h3
                  λ u4 d h4.
                    let worker_test =
                      require-eq-ok ((v.positions id).worker == worker) bad_position_worker a in
                    let owner_test =
                      require-eq-ok ((v.positions id).owner == c.sender) not_position_owner b in
                    owned (ground (arith, h4))
                      (eq_of_test (v.positions id).worker worker worker_test)
                      (eq_of_test (v.positions id).owner c.sender owner_test)

  min_le_left : (a b : ℕ) → min a b ≤ a
  min_le_left a b = ground arith

  min_le_right : (a b : ℕ) → min a b ≤ b
  min_le_right a b = ground arith

  pub work_position-Worked :
      (id worker principal loan max_return : ℕ) (v : Accounts) {v' : Accounts}
      → IsExactToken c
      → work_position z c id worker principal loan max_return v ≡ ok v'
      → Worked z c id worker principal loan max_return v v'
  unfolding work_position
  work_position-Worked id worker principal loan max_return v {v'} exact h =
      >>=-use (require (not (v.fair_launch_pool_id == max_uint)) pool_id_not_set) _ h λ u a h1.
        >>=-use (open_position z c id worker v) _ h1 λ (chosen, v1) opens h2.
          >>=-use (require (c.is_worker worker) not_worker) _ h2 λ u2 b h3.
            >>=-use (takes_loan z c loan worker) _ h3 λ takes t h4.
              >>=-use (require takes no_more_debt) _ h4 λ u3 d h5.
                >>=-use (remove_debt z chosen v1) _ h5 λ (old, v2) clears h6.
                  >>=-use (checked (z.add old loan)) _ h6 λ debt e h7.
                    >>=-use (checked (z.add principal loan)) _ h7 λ sent f h8.
                      >>=-use (work_out z c chosen worker debt sent v2) _ h8 λ (back, v3) works h9.
                        let less = min debt (min back max_return) in
                        >>=-use (checked (z.sub debt less)) _ h9 λ left g h10.
                          >>=-use (settle_debt z c chosen worker left v3) _ h10 λ v4 settles h11.
                            let less_le : less ≤ back = omega (
                              arith,
                              min_le_right debt (min back max_return),
                              min_le_left back max_return,
                            ) in
                            let (balance, moved, balance_lem) =
                              work_out-Paid z doc c exact chosen worker debt sent back v2 v3
                                works in
                            let (prize, last_balance, pays, last_lem, prize_lem) =
                              return_excess-Paid z doc c exact back less v4 less_le h11 in
                            let debt_lem =
                              doc.exact_sum old loan (checked-eq-ok (z.add old loan) e) in
                            let sent_lem =
                              doc.exact_sum principal loan
                                (checked-eq-ok (z.add principal loan) f) in
                            let left_lem =
                              doc.exact_difference debt less (checked-eq-ok (z.sub debt less) g) in
                            record {
                              chosen = chosen;
                              old = old;
                              back = back;
                              less = less;
                              left = left;
                              prize = prize;
                              opened = v1;
                              cleared = v2;
                              returned = v3;
                              settled = v4;
                              balance = balance;
                              last_balance = last_balance;
                              found = opens;
                              removes = clears;
                              works_out =
                                  subst
                                    (λ x.
                                      work_out z c chosen worker x (principal + loan) v2
                                      ≡ ok (back, v3))
                                    debt_lem
                                    (subst
                                      (λ y. work_out z c chosen worker debt y v2 ≡ ok (back, v3))
                                      sent_lem works);
                              less_lem = ap (λ x. min x (min back max_return)) debt_lem;
                              less_bound = less_le;
                              chooses = open_position-Chosen id worker v opens;
                              opens = open_position-Opened id worker v opens;
                              clears = remove_debt-DebtRemoved z doc chosen old v1 v2 clears;
                              works = moved;
                              back_lem = omega (arith, balance_lem, sent_lem);
                              left_lem = omega (arith, left_lem, debt_lem);
                              settles =
                                  settle_debt-Kept z doc c exact chosen worker left v3 settles;
                              pays = pays;
                              last_lem = last_lem;
                              prize_lem = prize_lem;
                            }
