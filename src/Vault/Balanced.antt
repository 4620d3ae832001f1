-- ===== src/Vault/Balanced.antt =====
-- contracts/6/protocol/Vault.sol: the shares of the debt in every state that a vault can be in.
use Prim.Native.Nat.{}
use huski_bsc_contract.Base.{
  ℕ, ◌+◌, ◌≡◌, ◌≤◌, ◌<◌, inl, inr, refl, sym, ◌∙◌, ap, subst, Bool-cases, arith, ltb, ok, >>=-use,
  sum_below, sum_below-change, sum_below-zeros,
}
use huski_bsc_contract.Evm.{OpenZeppelin, IsDocumented}
use huski_bsc_contract.Vault.{Accounts, Call, new_accounts, set_pool_id}
use huski_bsc_contract.Vault.Payments.{take_token, accrue}
use huski_bsc_contract.Vault.Operations.{deposit, withdraw, work, kill}
use huski_bsc_contract.Vault.Debt.{IsExactToken, SameBooks, DebtAdded, DebtRemoved}
use huski_bsc_contract.Vault.Moves.{take_token-Paid}
use huski_bsc_contract.Vault.Work.{Opened, Worked}
use huski_bsc_contract.Vault.Kill.{}
use huski_bsc_contract.Vault.Lenders.{
  IsExactShare, deposit_taken-Deposited, withdraw_accrued-Withdrawn,
}
use huski_bsc_contract.Vault.Conserved.{accrue-kept, work-parts, kill-parts}

-- The shares of the positions.
pub debt_shares : Accounts → ℕ → ℕ
debt_shares v id = (v.positions id).debt_share

-- Positions that have not been opened have no debt, and the shares of all positions are the
-- vault's.
pub record IsBalanced (v : Accounts) : Type 0 where
  pub none_above : (id : ℕ) → v.next_position_id ≤ id → debt_shares v id ≡ 0
  pub shares_sum : v.vault_debt_share ≡ sum_below v.next_position_id (debt_shares v)

new_accounts-IsBalanced : (token now balance : ℕ) → IsBalanced (new_accounts token now balance)
unfolding new_accounts debt_shares sum_below
new_accounts-IsBalanced token now balance = record {
  none_above = λ id id_ge. refl;
  shares_sum = omega arith;
}

-- One position changes, and maybe there is one more.
change-IsBalanced :
    (v v' : Accounts) (id : ℕ)
    → IsBalanced v
    → v.next_position_id ≤ v'.next_position_id
    → id < v'.next_position_id
    → ((other : ℕ) → ¬ (id ≡ other) → debt_shares v' other ≡ debt_shares v other)
    → v'.vault_debt_share + debt_shares v id ≡ v.vault_debt_share + debt_shares v' id
    → IsBalanced v'
change-IsBalanced v v' id b grown known others total =
    let n = v'.next_position_id in
    let sums = sum_below-change n id (debt_shares v) (debt_shares v') others known in
    let before = sum_below-zeros v.next_position_id n (debt_shares v) b.none_above grown in
    record {
      none_above = λ i i_ge.
          others i (λ e. absurd (omega (arith, e, i_ge, known)))
          ∙ b.none_above i (omega (arith, i_ge, grown));
      shares_sum = omega (arith, b.shares_sum, total, sums, before);
    }

SameBooks-IsBalanced : (v v' : Accounts) → SameBooks v v' → IsBalanced v → IsBalanced v'
unfolding debt_shares
SameBooks-IsBalanced v v' s b = record {
  none_above = λ id id_ge.
      ap (λ m. (m id).debt_share) s.same_positions
      ∙ b.none_above id (omega (arith, s.same_next, id_ge));
  shares_sum =
      s.same_shares
      ∙ b.shares_sum
      ∙ ap (λ n. sum_below n (debt_shares v)) (sym s.same_next)
      ∙ ap (λ m. sum_below v'.next_position_id (λ i. (m i).debt_share)) (sym s.same_positions);
}

Opened-IsBalanced : (id : ℕ) (v v' : Accounts) → Opened id v v' → IsBalanced v → IsBalanced v'
unfolding debt_shares
Opened-IsBalanced id v v' o b =
    change-IsBalanced v v' id b o.next_grown o.id_known (λ other apart. o.debts_kept other)
      (omega (arith, o.shares_kept, o.debts_kept id))

DebtRemoved-IsBalanced :
    (id val : ℕ) (v v' : Accounts)
    → DebtRemoved id val v v'
    → id < v.next_position_id
    → IsBalanced v
    → IsBalanced v'
unfolding debt_shares
DebtRemoved-IsBalanced id val v v' d known b =
    change-IsBalanced v v' id b (omega (arith, d.next_kept)) (omega (arith, known, d.next_kept))
      (λ other apart. ap (λ p. p.debt_share) (d.others_kept other apart))
      (omega (arith, d.shares_shrunk, d.mine_gone))

DebtAdded-IsBalanced :
    (id val share : ℕ) (v v' : Accounts)
    → DebtAdded id val share v v'
    → id < v.next_position_id
    → IsBalanced v
    → IsBalanced v'
unfolding debt_shares
DebtAdded-IsBalanced id val share v v' d known b =
    change-IsBalanced v v' id b (omega (arith, d.next_kept)) (omega (arith, known, d.next_kept))
      (λ other apart. ap (λ p. p.debt_share) (d.others_kept other apart))
      (omega (arith, d.shares_grown, d.mine_grown))

-- One transaction that goes through, with what its calls return.
pub data VaultStep (z : OpenZeppelin) (v v' : Accounts) : Type 0 where
  pool_set : (pool_id : ℕ) → set_pool_id pool_id v ≡ v' → VaultStep z v v'
  deposited :
      (c : Call) (amount : ℕ)
      → IsExactToken c
      → IsExactShare c
      → deposit z c amount v ≡ ok v'
      → VaultStep z v v'
  withdrawn :
      (c : Call) (share : ℕ)
      → IsExactToken c
      → IsExactShare c
      → withdraw z c share v ≡ ok v'
      → VaultStep z v v'
  worked :
      (c : Call) (id worker principal loan max_return : ℕ)
      → IsExactToken c
      → work z c id worker principal loan max_return v ≡ ok v'
      → VaultStep z v v'
  killed : (c : Call) (id : ℕ) → IsExactToken c → kill z c id v ≡ ok v' → VaultStep z v v'

-- The states of a vault.
pub data VaultState (z : OpenZeppelin) : Accounts → Type 0 where
  fresh : (token now balance : ℕ) → VaultState z (new_accounts token now balance)
  after : {v v' : Accounts} → VaultState z v → VaultStep z v v' → VaultState z v'

module _ (z : OpenZeppelin) (doc : IsDocumented z) where
  Worked-IsBalanced :
      (c : Call) (id worker principal loan max_return : ℕ) (v v' : Accounts)
      → Worked z c id worker principal loan max_return v v'
      → IsBalanced v
      → IsBalanced v'
  Worked-IsBalanced c id worker principal loan max_return v v' w b =
      let known = w.opens.id_known in
      let opened = Opened-IsBalanced w.chosen v w.opened w.opens b in
      let cleared =
        DebtRemoved-IsBalanced w.chosen w.old w.opened w.cleared w.clears known opened in
      let returned = SameBooks-IsBalanced w.cleared w.returned w.works.books cleared in
      let settled : IsBalanced w.settled = elim w.settles [
        | inl (nothing, same) ↦ subst (λ x. IsBalanced x) (sym same) returned
        | inr k ↦
            DebtAdded-IsBalanced w.chosen w.left k.share w.returned w.settled k.added
              (omega (arith, known, w.clears.next_kept, w.works.books.same_next)) returned
      ] in
      SameBooks-IsBalanced w.settled v' w.pays.books settled

  deposit-IsBalanced :
      (c : Call) (amount : ℕ) (v : Accounts) {v' : Accounts}
      → IsExactToken c
      → IsExactShare c
      → deposit z c amount v ≡ ok v'
      → IsBalanced v
      → IsBalanced v'
  unfolding deposit
  deposit-IsBalanced c amount v {v'} exact shares h b =
      >>=-use (take_token z c amount v) _ h λ v1 t h1.
        >>=-use (accrue z c amount v1) _ h1 λ v2 a h2.
          let paid = take_token-Paid z doc c exact amount v t in
          let (_, kept) = accrue-kept z doc c amount v1 a in
          let d = deposit_taken-Deposited z doc c shares amount v2 h2 in
          SameBooks-IsBalanced v2 v' d.books
            (SameBooks-IsBalanced v1 v2 kept (SameBooks-IsBalanced v v1 paid.books b))

  withdraw-IsBalanced :
      (c : Call) (share : ℕ) (v : Accounts) {v' : Accounts}
      → IsExactToken c
      → IsExactShare c
      → withdraw z c share v ≡ ok v'
      → IsBalanced v
      → IsBalanced v'
  unfolding withdraw
  withdraw-IsBalanced c share v {v'} exact shares h b = >>=-use (accrue z c 0 v) _ h λ v1 a h1.
      let (_, kept) = accrue-kept z doc c 0 v a in
      let d = withdraw_accrued-Withdrawn z doc c shares share v1 exact h1 in
      SameBooks-IsBalanced v1 v' d.books (SameBooks-IsBalanced v v1 kept b)

  work-IsBalanced :
      (c : Call) (id worker principal loan max_return : ℕ) (v : Accounts) {v' : Accounts}
      → IsExactToken c
      → work z c id worker principal loan max_return v ≡ ok v'
      → IsBalanced v
      → IsBalanced v'
  work-IsBalanced c id worker principal loan max_return v {v'} exact h b =
      let (taken, accrued, _, a, paid, w) =
        work-parts z doc c id worker principal loan max_return v exact h in
      let (_, kept) = accrue-kept z doc c principal taken a in
      Worked-IsBalanced c id worker principal loan max_return accrued v' w
        (SameBooks-IsBalanced taken accrued kept (SameBooks-IsBalanced v taken paid.books b))

  kill-IsBalanced :
      (c : Call) (id : ℕ) (v : Accounts) {v' : Accounts}
      → IsExactToken c
      → kill z c id v ≡ ok v'
      → IsBalanced v
      → IsBalanced v'
  unfolding debt_shares
  kill-IsBalanced c id v {v'} exact h b =
      let (accrued, a, k) = kill-parts z doc c id v exact h in
      let (_, kept) = accrue-kept z doc c 0 v a in
      let b1 = SameBooks-IsBalanced v accrued kept b in
      let known : id < accrued.next_position_id =
        elim (Bool-cases (ltb id accrued.next_position_id)) [
          | inl below ↦ ground (arith, below)
          | inr above ↦
              let far : accrued.next_position_id ≤ id = ground (arith, above) in
              absurd (omega (arith, k.had_debt, b1.none_above id far))
        ] in
      SameBooks-IsBalanced k.cleared v' k.pays.books
        (DebtRemoved-IsBalanced id k.debt accrued k.cleared k.clears known b1)

  VaultStep-IsBalanced : (v v' : Accounts) → VaultStep z v v' → IsBalanced v → IsBalanced v'
  unfolding set_pool_id debt_shares
  VaultStep-IsBalanced v v' (pool_set pool_id same) b =
      subst (λ x. IsBalanced x) same
        (record { none_above = b.none_above; shares_sum = b.shares_sum })
  VaultStep-IsBalanced v v' (deposited c amount exact shares h) b =
      deposit-IsBalanced c amount v exact shares h b
  VaultStep-IsBalanced v v' (withdrawn c share exact shares h) b =
      withdraw-IsBalanced c share v exact shares h b
  VaultStep-IsBalanced v v' (worked c id worker principal loan max_return exact h) b =
      work-IsBalanced c id worker principal loan max_return v exact h b
  VaultStep-IsBalanced v v' (killed c id exact h) b = kill-IsBalanced c id v exact h b

  -- In every state that a new vault comes to by deposits, withdrawals, `work`, `kill` and the
  -- setting of its pool id, whatever the workers do, `vaultDebtShare` is the sum of the debt shares
  -- of all positions, and a position that has not been opened has none. The tokens move, are minted
  -- and are burnt exactly, and `SafeMath` is as documented.
  pub VaultState-IsBalanced : {v : Accounts} → VaultState z v → IsBalanced v
  VaultState-IsBalanced (fresh token now balance) = new_accounts-IsBalanced token now balance
  VaultState-IsBalanced (after {v = v} {v' = v'} state step) =
      VaultStep-IsBalanced v v' step (VaultState-IsBalanced state)
