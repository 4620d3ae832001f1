-- ===== src/Vault/Debt.antt =====
-- contracts/6/protocol/Vault.sol: what `_addDebt` and `_removeDebt` do.
use Prim.Native.Nat.{◌*◌, ◌/◌}
use huski_bsc_contract.Base.{
  ℕ, ◌+◌, ◌≡◌, ◌<◌, refl, ◌∙◌, ap, subst, some, arith, ltb, if_use, Option, ok, >>=-use,
}
use huski_bsc_contract.Evm.{
  OpenZeppelin, IsDocumented, checked, checked-eq-ok, update, update_here, update_other,
}
use huski_bsc_contract.Vault.{
  Accounts, Call, external, with_debt_share, mul_div, debt_share_to_val, debt_val_to_share,
  add_debt, clear_debt, remove_debt,
}

-- The token moves what it is told to move.
pub record IsExactToken (c : Call) : Type 0 where
  pub taken : (value b : ℕ) {b' : ℕ} → c.transfer_from value b ≡ some b' → b' ≡ b + value
  pub wrapped : (value b : ℕ) {b' : ℕ} → c.deposit_native value b ≡ some b' → b' ≡ b + value
  pub sent : (to amount b : ℕ) {b' : ℕ} → c.transfer to amount b ≡ some b' → b' + amount ≡ b

pub external-eq_ok : (o : Option ℕ) {a : ℕ} → external o ≡ ok a → o ≡ some a
external-eq_ok o h = ground arith

-- Two vaults with the same positions and shares of debt.
pub record SameBooks (v v' : Accounts) : Type 0 where
  pub same_positions : v'.positions ≡ v.positions
  pub same_next : v'.next_position_id ≡ v.next_position_id
  pub same_shares : v'.vault_debt_share ≡ v.vault_debt_share

-- Two vaults with the same tokens and the same reserve.
pub record SameFunds (v v' : Accounts) : Type 0 where
  pub same_balance : v'.balance ≡ v.balance
  pub same_reserve : v'.reserve_pool ≡ v.reserve_pool

pub record DebtAdded (id val share : ℕ) (v v' : Accounts) : Type 0 where
  pub funds : SameFunds v v'
  pub next_kept : v'.next_position_id ≡ v.next_position_id
  pub mine_grown : (v'.positions id).debt_share ≡ (v.positions id).debt_share + share
  pub others_kept : (other : ℕ) → ¬ (id ≡ other) → v'.positions other ≡ v.positions other
  pub shares_grown : v'.vault_debt_share ≡ v.vault_debt_share + share
  pub vals_grown : v'.vault_debt_val ≡ v.vault_debt_val + val

pub record DebtRemoved (id val : ℕ) (v v' : Accounts) : Type 0 where
  pub funds : SameFunds v v'
  pub next_kept : v'.next_position_id ≡ v.next_position_id
  pub mine_gone : (v'.positions id).debt_share ≡ 0
  pub others_kept : (other : ℕ) → ¬ (id ≡ other) → v'.positions other ≡ v.positions other
  pub shares_shrunk : v'.vault_debt_share + (v.positions id).debt_share ≡ v.vault_debt_share
  pub vals_shrunk : v'.vault_debt_val + val ≡ v.vault_debt_val

module _ (z : OpenZeppelin) (doc : IsDocumented z) where
  pub mul_div-eq_ok : (a b d : ℕ) {r : ℕ} → mul_div z a b d ≡ ok r → (r ≡ a * b / d) × (0 < d)
  mul_div-eq_ok a b d h = >>=-use (checked (z.mul a b)) _ h λ n product rest.
      let n_lem = doc.exact_product a b (checked-eq-ok (z.mul a b) product) in
      let (r_lem, d_pos) = doc.exact_quotient n d (checked-eq-ok (z.div n d) rest) in
      (r_lem ∙ ap (λ x. x / d) n_lem, d_pos)

  pub add_debt-DebtAdded :
      (id val : ℕ) (v : Accounts) {v' : Accounts}
      → add_debt z id val v ≡ ok v'
      → (share : ℕ) × (debt_val_to_share z val v ≡ ok share) × DebtAdded id val share v v'
  unfolding add_debt
  add_debt-DebtAdded id val v {v'} h =
      let mine_before = (v.positions id).debt_share in
      >>=-use (debt_val_to_share z val v) _ h λ share given h1.
        >>=-use (checked (z.add mine_before share)) _ h1 λ mine m h2.
          >>=-use (checked (z.add v.vault_debt_share share)) _ h2 λ shares s h3.
            >>=-use (checked (z.add v.vault_debt_val val)) _ h3 λ vals l h4.
              let pos = with_debt_share mine (v.positions id) in
              let after : Accounts = record v {
                positions = update v.positions id pos;
                vault_debt_share = shares;
                vault_debt_val = vals;
              } in
              let same : after ≡ v' = ground (arith, h4) in
              let mine_lem =
                doc.exact_sum mine_before share (checked-eq-ok (z.add mine_before share) m) in
              let shares_lem =
                doc.exact_sum v.vault_debt_share share
                  (checked-eq-ok (z.add v.vault_debt_share share) s) in
              let vals_lem =
                doc.exact_sum v.vault_debt_val val (checked-eq-ok (z.add v.vault_debt_val val) l) in
              (
                share,
                given,
                subst (λ x. DebtAdded id val share v x) same
                    (record {
                      funds = record { same_balance = refl; same_reserve = refl };
                      next_kept = refl;
                      mine_grown =
                          ap (λ x. x.debt_share) (update_here v.positions id pos) ∙ mine_lem;
                      others_kept = λ other apart. update_other v.positions id other pos apart;
                      shares_grown = shares_lem;
                      vals_grown = vals_lem;
                    }),
              )

  clear_debt-DebtRemoved :
      (id val : ℕ) (v v' : Accounts)
      → clear_debt z id v ≡ ok (val, v')
      → DebtRemoved id val v v' × (debt_share_to_val z (v.positions id).debt_share v ≡ ok val)
  unfolding clear_debt
  clear_debt-DebtRemoved id val v v' h =
      let mine = (v.positions id).debt_share in
      >>=-use (debt_share_to_val z mine v) _ h λ worth given h1.
        >>=-use (checked (z.sub v.vault_debt_share mine)) _ h1 λ shares s h2.
          >>=-use (checked (z.sub v.vault_debt_val worth)) _ h2 λ vals l h3.
            let pos = with_debt_share 0 (v.positions id) in
            let after : Accounts = record v {
              positions = update v.positions id pos;
              vault_debt_share = shares;
              vault_debt_val = vals;
            } in
            let same : after ≡ v' = ground (arith, h3) in
            let worth_lem : worth ≡ val = ground (arith, h3) in
            let shares_lem =
              doc.exact_difference v.vault_debt_share mine
                (checked-eq-ok (z.sub v.vault_debt_share mine) s) in
            let vals_lem =
              doc.exact_difference v.vault_debt_val worth
                (checked-eq-ok (z.sub v.vault_debt_val worth) l) in
            (
              subst (λ x. DebtRemoved id val v x) same
                  (record {
                    funds = record { same_balance = refl; same_reserve = refl };
                    next_kept = refl;
                    mine_gone = ap (λ x. x.debt_share) (update_here v.positions id pos);
                    others_kept = λ other apart. update_other v.positions id other pos apart;
                    shares_shrunk = shares_lem;
                    vals_shrunk = subst (λ x. vals + x ≡ v.vault_debt_val) worth_lem vals_lem;
                  }),
              subst (λ x. debt_share_to_val z mine v ≡ ok x) worth_lem given,
            )

  -- What `_removeDebt` does: a position without debt stays as it is.
  pub remove_debt-DebtRemoved :
      (id val : ℕ) (v v' : Accounts) → remove_debt z id v ≡ ok (val, v') → DebtRemoved id val v v'
  unfolding remove_debt
  remove_debt-DebtRemoved id val v v' h =
      if_use (ltb 0 (v.positions id).debt_share) (clear_debt z id v) (ok (0, v)) h
        (λ some_debt e. (clear_debt-DebtRemoved id val v v' e).0)
        λ no_debt e.
          let same : v ≡ v' = ground (arith, e) in
          let zero_val : 0 ≡ val = ground (arith, e) in
          let no_share : (v.positions id).debt_share ≡ 0 = ground (arith, no_debt) in
          subst (λ x. DebtRemoved id val v x) same
            (record {
              funds = record { same_balance = refl; same_reserve = refl };
              next_kept = refl;
              mine_gone = no_share;
              others_kept = λ other apart. refl;
              shares_shrunk = omega (arith, no_share);
              vals_shrunk = omega (arith, zero_val);
            })
