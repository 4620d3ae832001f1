-- ===== src/Vault/Conserved.antt =====
-- contracts/6/protocol/Vault.sol: what `work` and `kill` leave of the lenders' funds.
use Prim.Native.Nat.{}
use huski_bsc_contract.Base.{
  some, ◌*◌, ◌/◌, sym, ◌<◌, ℕ, ◌+◌, ◌-◌, ◌≡◌, inl, inr, refl, ◌∙◌, ap, subst, arith, ltb, if_use,
  ok, >>=-use, require,
}
use huski_bsc_contract.Evm.{not_eoa, OpenZeppelin, IsDocumented, checked}
use huski_bsc_contract.Vault.{min, remove_debt, Accounts, Call, mul_div}
use huski_bsc_contract.Vault.Payments.{interest_since, take_token, accrue_interest, accrue}
use huski_bsc_contract.Vault.Operations.{open_position, work_out, work, kill}
use huski_bsc_contract.Vault.Debt.{IsExactToken, SameBooks}
use huski_bsc_contract.Vault.Moves.{Paid, take_token-Paid}
use huski_bsc_contract.Vault.Work.{Worked, work_position-Worked}
use huski_bsc_contract.Vault.Kill.{Killed, kill_position-Killed}

module _ (z : OpenZeppelin) (doc : IsDocumented z) (c : Call) where
  pub accrue-kept :
      (value : ℕ) (v : Accounts) {v' : Accounts}
      → accrue z c value v ≡ ok v'
      → (v'.balance ≡ v.balance) × SameBooks v v'
  unfolding accrue accrue_interest
  accrue-kept value v {v'} h =
      let kept : (x : Accounts)
          → x ≡ v'
          → x.balance ≡ v.balance
          → SameBooks v x
          → (v'.balance ≡ v.balance) × SameBooks v v' =
        λ x same b s. subst (λ y. (y.balance ≡ v.balance) × SameBooks v y) same (b, s) in
      let books : SameBooks v v = record {
        same_positions = refl;
        same_next = refl;
        same_shares = refl;
      } in
      if_use (ltb v.last_accrue_time c.now) (accrue_interest z c value v) (ok v) h
        (λ later e. >>=-use (interest_since z c value v) _ e λ interest a h1.
          >>=-use (mul_div z interest c.reserve_pool_bps 10000) _ h1 λ to_reserve b h2.
            >>=-use (checked (z.add v.reserve_pool to_reserve)) _ h2 λ reserve d h3.
              >>=-use (checked (z.add v.vault_debt_val interest)) _ h3 λ vals f h4.
                kept
                  (record v {
                    reserve_pool = reserve;
                    vault_debt_val = vals;
                    last_accrue_time = c.now;
                  })
                  (ground (arith, h4)) refl
                  (record { same_positions = refl; same_next = refl; same_shares = refl }))
        λ at_once e. kept v (ground (arith, e)) refl books

  -- The parts of `work`.
  pub work-parts :
      (id worker principal loan max_return : ℕ) (v : Accounts) {v' : Accounts}
      → IsExactToken c
      → work z c id worker principal loan max_return v ≡ ok v'
      → (taken : Accounts) × (accrued : Accounts) × (take_token z c principal v ≡ ok taken)
        × (accrue z c principal taken ≡ ok accrued)
        × Paid (v.balance + principal) v taken
        × Worked z c id worker principal loan max_return accrued v'
  unfolding work
  work-parts id worker principal loan max_return v {v'} exact h =
      >>=-use (require c.is_eoa not_eoa) _ h λ u eoa h1.
        >>=-use (take_token z c principal v) _ h1 λ taken t h2.
          >>=-use (accrue z c principal taken) _ h2 λ accrued a h3. (
            taken,
            accrued,
            t,
            a,
            take_token-Paid z doc c exact principal v t,
            work_position-Worked z doc c id worker principal loan max_return accrued exact h3,
          )

  -- The parts of `kill`.
  pub kill-parts :
      (id : ℕ) (v : Accounts) {v' : Accounts}
      → IsExactToken c
      → kill z c id v ≡ ok v'
      → (accrued : Accounts) × (accrue z c 0 v ≡ ok accrued) × Killed z doc c id accrued v'
  unfolding kill
  kill-parts id v {v'} exact h = >>=-use (require c.is_eoa not_eoa) _ h λ u eoa h1.
      >>=-use (accrue z c 0 v) _ h1
        λ accrued a h2. (accrued, a, kill_position-Killed z doc c id accrued exact h2)

  pub settled-funds :
      (id worker principal loan max_return : ℕ) (v v' : Accounts)
      (w : Worked z c id worker principal loan max_return v v')
      → (w.settled.balance ≡ w.returned.balance)
        × (w.settled.reserve_pool ≡ w.returned.reserve_pool)
        × (w.settled.vault_debt_val ≡ w.returned.vault_debt_val + w.left)
  settled-funds id worker principal loan max_return v v' w = elim w.settles [
    | inl (nothing, same) ↦ (
      ap (λ x. x.balance) same,
      ap (λ x. x.reserve_pool) same,
      ap (λ x. x.vault_debt_val) same ∙ omega (arith, nothing),
    )
    | inr k ↦ (k.added.funds.same_balance, k.added.funds.same_reserve, k.added.vals_grown)
  ]

  -- When `work` goes through, its steps are these, each with its result: the tokens are taken, the
  -- interest accrues, the position is opened and its old debt removed, and the worker brings `back`.
  -- The debts to the vault have then grown by the loan and shrunk by the least of the old debt with
  -- the loan, of what is back and of `maxReturn`. The tokens of the vault and the debts to it are
  -- together the tokens from before, the debts after the interest, and the prize, which is the
  -- share `closeBps` of what is back above the debt that it pays. The prize is not added to the
  -- reserve, which stays as the interest left it. The token moves exact amounts, and `SafeMath` is
  -- as documented.
  pub work-conserved :
      (id worker principal loan max_return : ℕ) (v : Accounts) {v' : Accounts}
      → IsExactToken c
      → work z c id worker principal loan max_return v ≡ ok v'
      → (taken accrued opened cleared returned : Accounts) × (chosen old back : ℕ) × (take_token z c
            principal v
          ≡ ok taken)
        × (accrue z c principal taken ≡ ok accrued)
        × (open_position z c id worker accrued ≡ ok (chosen, opened))
        × (remove_debt z chosen opened ≡ ok (old, cleared))
        × (work_out z c chosen worker (old + loan) (principal + loan) cleared ≡ ok (back, returned))
        × (v'.vault_debt_val + min (old + loan) (min back max_return)
            ≡ accrued.vault_debt_val + loan)
        × (v'.balance + v'.vault_debt_val
            ≡ v.balance
              + accrued.vault_debt_val
              + (back - min (old + loan) (min back max_return)) * c.close_bps / 10000)
        × (v'.reserve_pool ≡ accrued.reserve_pool)
  work-conserved id worker principal loan max_return v {v'} exact h =
      let (taken, accrued, t, a, paid, w) =
        work-parts id worker principal loan max_return v exact h in
      let (balance_kept, _) = accrue-kept principal taken a in
      let (settled_balance, settled_reserve, settled_vals) =
        settled-funds id worker principal loan max_return accrued v' w in
      let prize_lem = w.prize_lem ∙ ap (λ n. (w.back - n) * c.close_bps / 10000) w.less_lem in
      let debts : v'.vault_debt_val + w.less ≡ accrued.vault_debt_val + loan = omega (
        arith, settled_vals, w.pays.vals_kept, w.works.vals_kept, w.left_lem, w.clears.vals_shrunk,
        w.opens.vals_kept,
      ) in
      let sums : v'.balance + v'.vault_debt_val ≡ v.balance + accrued.vault_debt_val + w.prize =
        omega (
          arith, paid.balance_set, balance_kept, settled_balance, settled_vals, w.pays.balance_set,
          w.pays.vals_kept, w.last_lem, w.works.balance_set, w.works.vals_kept, w.back_lem,
          w.left_lem, w.clears.vals_shrunk, w.clears.funds.same_balance, w.opens.vals_kept,
          w.opens.funds.same_balance,
        ) in
      (
        taken,
        accrued,
        w.opened,
        w.cleared,
        w.returned,
        w.chosen,
        w.old,
        w.back,
        t,
        a,
        w.found,
        w.removes,
        w.works_out,
        ap (λ n. v'.vault_debt_val + n) (sym w.less_lem) ∙ debts,
        sums ∙ ap (λ n. v.balance + accrued.vault_debt_val + n) prize_lem,
        w.pays.reserve_kept ∙ settled_reserve ∙ w.works.reserve_kept ∙ w.clears.funds.same_reserve
            ∙ w.opens.funds.same_reserve,
      )

  -- When `kill` goes through, the position had debt, which its health times the kill factor did not
  -- cover any more, and has none left. What the liquidation brings to the vault is `back`, of which
  -- the share `killBps` is the prize. The tokens of the vault and the debts to it are together what
  -- they were when the interest had accrued, less the part of the removed debt that `back` without
  -- the prize does not pay; the reserve stays. The token moves exact amounts, and `SafeMath` is as
  -- documented.
  pub kill-conserved :
      (id : ℕ) (v : Accounts) {v' : Accounts}
      → IsExactToken c
      → kill z c id v ≡ ok v'
      → (accrued cleared : Accounts) × (debt health factor back : ℕ) × (accrue z c 0 v ≡ ok accrued)
        × (0 < (accrued.positions id).debt_share)
        × (remove_debt z id accrued ≡ ok (debt, cleared))
        × (c.health id ≡ some health)
        × (c.kill_factor (cleared.positions id).worker debt ≡ some factor)
        × (health * factor < debt * 10000)
        × (c.liquidate id cleared.balance ≡ some (cleared.balance + back))
        × ((v'.positions id).debt_share ≡ 0)
        × (v'.balance + v'.vault_debt_val + (debt - (back - back * c.kill_bps / 10000))
            ≡ v.balance + accrued.vault_debt_val)
        × (v'.reserve_pool ≡ accrued.reserve_pool)
  kill-conserved id v {v'} exact h =
      let (accrued, a, k) = kill-parts id v exact h in
      let (balance_kept, _) = accrue-kept 0 v a in
      let rest_lem : k.rest ≡ k.back - k.back * c.kill_bps / 10000 = omega (arith, k.rest_lem) in
      let sums : v'.balance + v'.vault_debt_val + (k.debt - k.rest)
          ≡ v.balance + accrued.vault_debt_val =
        omega (
          arith, balance_kept, k.pays.balance_set, k.pays.vals_kept, k.last_lem,
          k.clears.vals_shrunk, k.clears.funds.same_balance,
        ) in
      (
        accrued,
        k.cleared,
        k.debt,
        k.health,
        k.factor,
        k.back,
        a,
        k.had_debt,
        k.removes,
        k.health_found,
        k.factor_found,
        k.unhealthy,
        k.liquidates ∙ ap (λ n. some n) k.back_lem,
        ap (λ m. (m id).debt_share) k.pays.books.same_positions ∙ k.clears.mine_gone,
        subst
            (λ n.
              v'.balance + v'.vault_debt_val + (k.debt - n) ≡ v.balance + accrued.vault_debt_val)
            rest_lem sums,
        k.pays.reserve_kept ∙ k.clears.funds.same_reserve,
      )
