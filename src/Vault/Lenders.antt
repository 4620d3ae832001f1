-- ===== src/Vault/Lenders.antt =====
-- contracts/6/protocol/Vault.sol: what `deposit` and `withdraw` do to the lenders' tokens.
use Prim.Native.Nat.{◌*◌, ◌/◌}
use native.Mathlib.Nat.{div-le_of_le-mul, div-mul-le_self}
use huski_bsc_contract.Base.{
  no_loss_le, no_loss_leaving_le, mul-le-mul, require-eq-ok, ℕ, ◌+◌, ◌-◌, ◌^◌, ◌≡◌, ◌≤◌, ◌<◌, refl,
  sym, ◌∙◌, ap, subst, some, arith, ltb, ◌==◌, if_use, if◌then◌else◌, ok, >>=-use, require,
}
use huski_bsc_contract.Evm.{tiny_shares, OpenZeppelin, IsDocumented, checked, checked-eq-ok}
use huski_bsc_contract.Vault.{Accounts, Call, external, mul_div, total_token}
use huski_bsc_contract.Vault.Payments.{take_token, accrue, send_token}
use huski_bsc_contract.Vault.Operations.{deposit_taken, deposit, withdraw_accrued, withdraw}
use huski_bsc_contract.Vault.Debt.{IsExactToken, external-eq_ok, SameBooks, mul_div-eq_ok}
use huski_bsc_contract.Vault.Moves.{send_token-Paid}
use huski_bsc_contract.Vault.Conserved.{}

-- The vault's own token mints and burns what it is told to.
pub record IsExactShare (c : Call) : Type 0 where
  pub minted : (share supply : ℕ) {s : ℕ} → c.mint share supply ≡ some s → s ≡ supply + share
  pub burned : (share supply : ℕ) {s : ℕ} → c.burn share supply ≡ some s → s + share ≡ supply

-- What a deposit does once its tokens are in the vault: `total` is what the lenders had before.
pub record Deposited (z : OpenZeppelin) (amount : ℕ) (v v' : Accounts) : Type 0 where
  pub total : ℕ
  pub share : ℕ
  pub total_found : total_token z v ≡ ok (total + amount)
  pub total_kept : total_token z v' ≡ ok (total + amount)
  pub first : total ≡ 0 → share ≡ amount
  pub fair : 0 < total → share ≡ amount * v.total_supply / total
  pub supply_lem : v'.total_supply ≡ v.total_supply + share
  pub books : SameBooks v v'

module _ (z : OpenZeppelin) (doc : IsDocumented z) (c : Call) (shares : IsExactShare c) where
  pub deposit_taken-Deposited :
      (amount : ℕ) (v : Accounts) {v' : Accounts}
      → deposit_taken z c amount v ≡ ok v'
      → Deposited z amount v v'
  unfolding deposit_taken total_token
  deposit_taken-Deposited amount v {v'} h = >>=-use (total_token z v) _ h λ all found h1.
      >>=-use (checked (z.sub all amount)) _ h1 λ total t h2.
        >>=-use (if total == 0 then ok amount else mul_div z amount v.total_supply total) _ h2
          λ share given h3. >>=-use (external (c.mint share v.total_supply)) _ h3 λ supply m h4.
            >>=-use (require (ltb (10 ^ 17) supply) tiny_shares) _ h4 λ u large h5.
              let same : record v { total_supply = supply } ≡ v' = ground (arith, h5) in
              let supply_lem = shares.minted share v.total_supply (external-eq_ok _ m) in
              let all_lem = doc.exact_difference all amount (checked-eq-ok (z.sub all amount) t) in
              let found_lem : total_token z v ≡ ok (total + amount) =
                subst (λ x. total_token z v ≡ ok x) (sym all_lem) found in
              subst (λ x. Deposited z amount v x) same
                (record {
                  total = total;
                  share = share;
                  total_found = found_lem;
                  total_kept = found_lem;
                  first = λ none.
                      if_use (total == 0) (ok amount) (mul_div z amount v.total_supply total) given
                        (λ zero e. ground (arith, e))
                        λ some_total e. absurd (ground (arith, none, some_total));
                  fair = λ positive.
                      if_use (total == 0) (ok amount) (mul_div z amount v.total_supply total) given
                        (λ zero e. absurd (ground (arith, positive, zero)))
                        λ some_total e. (mul_div-eq_ok z doc amount v.total_supply total e).0;
                  supply_lem = supply_lem;
                  books = record { same_positions = refl; same_next = refl; same_shares = refl };
                })

  -- When `deposit` goes through where the lenders had tokens before, no other lender loses: a
  -- number of the vault's own tokens is worth at least as much after the deposit as when the
  -- interest had accrued, and what all lenders have has grown by the amount. The vault's token
  -- is minted exactly, and `SafeMath` is as documented.
  pub deposit-no_loss :
      (amount x total : ℕ) (v taken accrued : Accounts) {v' : Accounts}
      → take_token z c amount v ≡ ok taken
      → accrue z c amount taken ≡ ok accrued
      → total_token z accrued ≡ ok (total + amount)
      → 0 < total
      → 0 < accrued.total_supply
      → deposit z c amount v ≡ ok v'
      → (total_token z v' ≡ ok (total + amount))
        × (x * total / accrued.total_supply ≤ x * (total + amount) / v'.total_supply)
  unfolding deposit
  deposit-no_loss amount x total v taken accrued {v'} takes accrues found total_pos supply_pos h =
      let chain : deposit z c amount v ≡ deposit_taken z c amount accrued =
        rw (takes, deposit) (rw accrues refl) in
      let d = deposit_taken-Deposited amount accrued (sym chain ∙ h) in
      let sums : ok (total + amount) ≡ ok (d.total + amount) = sym found ∙ d.total_found in
      let sums_lem : total + amount ≡ d.total + amount = ground (arith, sums) in
      let total_lem : d.total ≡ total = omega (arith, sums_lem) in
      let fair = d.fair (omega (arith, total_lem, total_pos)) in
      let bound : d.share * d.total ≤ amount * accrued.total_supply =
        subst (λ s. s * d.total ≤ amount * accrued.total_supply) (sym fair)
          (div-mul-le_self (amount * accrued.total_supply) d.total) in
      let worth =
        no_loss_le accrued.total_supply d.total amount d.share x supply_pos
          (omega (arith, total_lem, total_pos)) bound in
      let worth' =
        subst (λ s. x * d.total / accrued.total_supply ≤ x * (d.total + amount) / s)
          (sym d.supply_lem) worth in
      (
        d.total_kept ∙ sym sums,
        subst (λ n. x * n / accrued.total_supply ≤ x * (n + amount) / v'.total_supply) total_lem
            worth',
      )

  total_token-eq_ok :
      (v : Accounts) {all : ℕ}
      → total_token z v ≡ ok all
      → all + v.reserve_pool ≡ v.balance + v.vault_debt_val
  unfolding total_token
  total_token-eq_ok v {all} h = >>=-use (checked (z.add v.balance v.vault_debt_val)) _ h λ sum s h1.
      let sum_lem =
        doc.exact_sum v.balance v.vault_debt_val
          (checked-eq-ok (z.add v.balance v.vault_debt_val) s) in
      let all_lem =
        doc.exact_difference sum v.reserve_pool (checked-eq-ok (z.sub sum v.reserve_pool) h1) in
      omega (arith, sum_lem, all_lem)

  -- What a withdrawal does once the interest has accrued.
  pub record Withdrawn (share : ℕ) (v v' : Accounts) : Type 0 where
    pub all : ℕ
    pub amount : ℕ
    pub all_found : total_token z v ≡ ok all
    pub amount_lem : amount ≡ share * all / v.total_supply
    pub supply_lem : v'.total_supply + share ≡ v.total_supply
    pub supply_large : 10 ^ 17 < v'.total_supply
    pub balance_lem : v'.balance + amount ≡ v.balance
    pub vals_kept : v'.vault_debt_val ≡ v.vault_debt_val
    pub reserve_kept : v'.reserve_pool ≡ v.reserve_pool
    pub books : SameBooks v v'

  pub withdraw_accrued-Withdrawn :
      (share : ℕ) (v : Accounts) {v' : Accounts}
      → IsExactToken c
      → withdraw_accrued z c share v ≡ ok v'
      → Withdrawn share v v'
  unfolding withdraw_accrued
  withdraw_accrued-Withdrawn share v {v'} exact h = >>=-use (total_token z v) _ h λ all found h1.
      >>=-use (mul_div z share all v.total_supply) _ h1 λ amount m h2.
        >>=-use (external (c.burn share v.total_supply)) _ h2 λ supply b h3.
          let burnt : Accounts = record v { total_supply = supply } in
          >>=-use (send_token z c c.sender amount burnt) _ h3 λ v1 sends h4.
            >>=-use (require (ltb (10 ^ 17) supply) tiny_shares) _ h4 λ u large h5.
              let same : v1 ≡ v' = ground (arith, h5) in
              let (balance, paid, balance_lem) =
                send_token-Paid z doc c exact c.sender amount burnt sends in
              let test = require-eq-ok (ltb (10 ^ 17) supply) tiny_shares large in
              let big : 10 ^ 17 < supply = ground (arith, test) in
              subst (λ x. Withdrawn share v x) same
                (record {
                  all = all;
                  amount = amount;
                  all_found = found;
                  amount_lem = (mul_div-eq_ok z doc share all v.total_supply m).0;
                  supply_lem = omega (
                    arith,
                    paid.supply_kept,
                    shares.burned share v.total_supply (external-eq_ok _ b),
                  );
                  supply_large = omega (arith, paid.supply_kept, big);
                  balance_lem = omega (arith, paid.balance_set, balance_lem);
                  vals_kept = paid.vals_kept;
                  reserve_kept = paid.reserve_kept;
                  books = record {
                    same_positions = paid.books.same_positions;
                    same_next = paid.books.same_next;
                    same_shares = paid.books.same_shares;
                  };
                })

  -- When `withdraw` goes through, the lenders that stay lose nothing: if `all` was theirs when the
  -- interest had accrued and `rest` is theirs now, a number of the vault's own tokens is worth at
  -- least as much as it was. The tokens move and are burnt exactly, and `SafeMath` is as
  -- documented.
  pub withdraw-no_loss :
      (share x all : ℕ) (v accrued : Accounts) {v' : Accounts}
      → IsExactToken c
      → accrue z c 0 v ≡ ok accrued
      → total_token z accrued ≡ ok all
      → withdraw z c share v ≡ ok v'
      → (rest : ℕ) × (rest + v'.reserve_pool ≡ v'.balance + v'.vault_debt_val)
        × (rest + share * all / accrued.total_supply ≡ all)
        × (x * all / accrued.total_supply ≤ x * rest / v'.total_supply)
  unfolding withdraw
  withdraw-no_loss share x all v accrued {v'} exact accrues found h =
      let chain : withdraw z c share v ≡ withdraw_accrued z c share accrued =
        rw (accrues, withdraw) refl in
      let d = withdraw_accrued-Withdrawn share accrued exact (sym chain ∙ h) in
      let alls : ok all ≡ ok d.all = sym found ∙ d.all_found in
      let all_lem : d.all ≡ all = ground (arith, alls) in
      let t = accrued.total_supply in
      let out = share * all / t in
      let out_lem : d.amount ≡ out = d.amount_lem ∙ ap (λ n. share * n / t) all_lem in
      let out_le : out ≤ all =
        div-le_of_le-mul t
          (mul-le-mul share t all all (omega (arith, d.supply_lem)) (omega arith)) in
      let rest = all - out in
      let rest_lem : rest + out ≡ all = omega (arith, out_le) in
      let price : out * t ≤ share * all = div-mul-le_self (share * all) t in
      let bound : out * (v'.total_supply + share) ≤ share * (rest + out) =
        subst (λ n. out * n ≤ share * (rest + out)) (sym d.supply_lem)
          (subst (λ n. out * t ≤ share * n) (sym rest_lem) price) in
      let worth =
        no_loss_leaving_le v'.total_supply share rest out x (omega (arith, d.supply_large)) bound in
      let worth' =
        subst (λ n. x * (rest + out) / n ≤ x * rest / v'.total_supply) d.supply_lem worth in
      (
        rest,
        omega (
          arith,
          rest_lem,
          out_lem,
          total_token-eq_ok accrued found,
          d.balance_lem,
          d.vals_kept,
          d.reserve_kept,
        ),
        rest_lem,
        subst (λ n. x * n / t ≤ x * rest / v'.total_supply) rest_lem worth',
      )
