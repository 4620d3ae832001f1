-- ===== src/Vault/Covered.antt =====
-- contracts/6/protocol/Vault.sol: what the position of a `work` has to have.
use huski_bsc_contract.Base.{ℕ, ◌≡◌, ◌≤◌, ◌*◌, ◌⊎◌, inl, inr, sym, ◌∙◌, ap, some, ok}
use huski_bsc_contract.Evm.{OpenZeppelin, IsDocumented}
use huski_bsc_contract.Vault.{Accounts, Call}
use huski_bsc_contract.Vault.Operations.{work}
use huski_bsc_contract.Vault.Debt.{IsExactToken}
use huski_bsc_contract.Vault.Work.{Chosen, opened, owned, Worked}
use huski_bsc_contract.Vault.Conserved.{accrue-kept, work-parts}

-- A debt that a position may keep.
pub record Covered (c : Call) (worker id debt : ℕ) : Type 0 where
  pub health : ℕ
  pub factor : ℕ
  pub health_found : c.health id ≡ some health
  pub factor_found : c.work_factor worker debt ≡ some factor
  pub large_enough : c.min_debt_size ≤ debt
  pub covered : debt * 10000 ≤ health * factor

Chosen-kept :
    (c : Call) (id worker chosen : ℕ) (v v' : Accounts)
    → v'.positions ≡ v.positions
    → v'.next_position_id ≡ v.next_position_id
    → Chosen c id worker v' chosen
    → Chosen c id worker v chosen
Chosen-kept c id worker chosen v v' positions_kept next_kept (opened fresh next) =
    opened fresh (next ∙ next_kept)
Chosen-kept c id worker chosen v v' positions_kept next_kept (owned old by_worker by_owner) =
    owned old (ap (λ m. (m id).worker) (sym positions_kept) ∙ by_worker)
      (ap (λ m. (m id).owner) (sym positions_kept) ∙ by_owner)

module _ (z : OpenZeppelin) (doc : IsDocumented z) (c : Call) where
  chosen-share :
      (id worker principal loan max_return : ℕ) (v v' : Accounts)
      (w : Worked z c id worker principal loan max_return v v')
      → ((v'.positions w.chosen).debt_share ≡ 0) ⊎ Covered c worker w.chosen w.left
  chosen-share id worker principal loan max_return v v' w = elim w.settles [
    | inl (nothing, same) ↦ inl (
        ap (λ m. (m w.chosen).debt_share) w.pays.books.same_positions
        ∙ ap (λ x. (x.positions w.chosen).debt_share) same
        ∙ ap (λ m. (m w.chosen).debt_share) w.works.books.same_positions
        ∙ w.clears.mine_gone)
    | inr k ↦ inr (record {
      health = k.health;
      factor = k.factor;
      health_found = k.health_found;
      factor_found = k.factor_found;
      large_enough = k.large_enough;
      covered = k.covered;
    })
  ]

  settled-other :
      (id worker principal loan max_return other : ℕ) (v v' : Accounts)
      (w : Worked z c id worker principal loan max_return v v')
      → ¬ (w.chosen ≡ other)
      → w.settled.positions other ≡ w.returned.positions other
  settled-other id worker principal loan max_return other v v' w apart = elim w.settles [
    | inl (nothing, same) ↦ ap (λ x. x.positions other) same
    | inr k ↦ k.added.others_kept other apart
  ]

  -- When `work` goes through, its position is a new one, or one of the sender that has this worker.
  -- In the end the position has no debt, or the debt that is left is at least the least size and
  -- its health times the work factor covers it. The debt shares of all other positions stay. The
  -- token moves exact amounts, and `SafeMath` is as documented.
  pub work-Covered :
      (id worker principal loan max_return : ℕ) (v : Accounts) {v' : Accounts}
      → IsExactToken c
      → work z c id worker principal loan max_return v ≡ ok v'
      → (accrued : Accounts) × (w : Worked z c id worker principal loan max_return accrued v')
        × Chosen c id worker v w.chosen
        × (((v'.positions w.chosen).debt_share ≡ 0) ⊎ Covered c worker w.chosen w.left)
        × ((other : ℕ)
            → ¬ (w.chosen ≡ other)
            → (v'.positions other).debt_share ≡ (v.positions other).debt_share)
  work-Covered id worker principal loan max_return v {v'} exact h =
      let (taken, accrued, _, a, paid, w) =
        work-parts z doc c id worker principal loan max_return v exact h in
      let (_, kept) = accrue-kept z doc c principal taken a in
      let positions_kept = kept.same_positions ∙ paid.books.same_positions in
      let next_kept = kept.same_next ∙ paid.books.same_next in
      (
        accrued,
        w,
        Chosen-kept c id worker w.chosen v accrued positions_kept next_kept w.chooses,
        chosen-share id worker principal loan max_return accrued v' w,
        λ other apart.
            ap (λ m. (m other).debt_share) w.pays.books.same_positions
            ∙ ap (λ p. p.debt_share)
                (settled-other id worker principal loan max_return other accrued v' w apart)
            ∙ ap (λ m. (m other).debt_share) w.works.books.same_positions
            ∙ ap (λ p. p.debt_share) (w.clears.others_kept other apart)
            ∙ w.opens.debts_kept other
            ∙ ap (λ m. (m other).debt_share) positions_kept,
      )
