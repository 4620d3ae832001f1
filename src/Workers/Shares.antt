-- ===== src/Workers/Shares.antt =====
-- contracts/6/protocol/workers/PancakeswapV2Worker.sol: the arithmetic of shares and trades.
use Prim.Native.Nat.{◌*◌, ◌/◌}
use native.Mathlib.Nat.{div-mul-le_self, div-le_of_le-mul, div-lt_iff_lt-mul}
use huski_bsc_contract.Base.{
  round_trip_le, mul-le-mul, ℕ, zero, suc, ◌+◌, ◌≡◌, ◌≤◌, ◌<◌, refl, ◌∙◌, ap, ap₂, true, false,
  some, arith, inl, inr, ltb, ◌&&◌, require, sym, subst, test_of_ne, ◌==◌, if◌then◌else◌,
  Bool-cases, eq_of_test, Result, ok, >>=-use, require-eq-ok,
}
use huski_bsc_contract.Base
use huski_bsc_contract.Evm.{bad_reserves, OpenZeppelin, IsDocumented, checked, checked-eq-ok}
use huski_bsc_contract.Workers.{
  Worker, share_to_balance, balance_to_share, sell_amount, get_mkt_sell_amount,
}

module _ (z : OpenZeppelin) (doc : IsDocumented z) where
  quotient_lem :
      (a b c : ℕ) {r : ℕ}
      → (Base.◌>>=◌ (checked (z.mul a b)) λ n. checked (z.div n c)) ≡ ok r
      → (r ≡ a * b / c) × (0 < c)
  quotient_lem a b c h = >>=-use (checked (z.mul a b)) _ h λ n product rest.
      let n_lem = doc.exact_product a b (checked-eq-ok (z.mul a b) product) in
      let (r_lem, c_pos) = doc.exact_quotient n c (checked-eq-ok (z.div n c) rest) in
      (r_lem ∙ ap (λ x. x / c) n_lem, c_pos)

  pub share_to_balance-eq_ok :
      (total staked share : ℕ) {r : ℕ}
      → share_to_balance z total staked share ≡ ok r
      → 0 < total
      → r ≡ share * staked / total
  unfolding share_to_balance
  share_to_balance-eq_ok total staked share {r} h k =
      let some_shares = test_of_ne total 0 (λ e. absurd (omega (arith, e, k))) in
      let chain : share_to_balance z total staked share
          ≡ (Base.◌>>=◌ (checked (z.mul share staked)) λ n. checked (z.div n total)) =
        rw some_shares refl in
      (quotient_lem share staked total (sym chain ∙ h)).0

  pub balance_to_share-eq_ok :
      (total staked balance : ℕ) {s : ℕ}
      → balance_to_share z total staked balance ≡ ok s
      → 0 < total
      → (s ≡ balance * total / staked) × (0 < staked)
  unfolding balance_to_share
  balance_to_share-eq_ok total staked balance {s} h k =
      let some_shares = test_of_ne total 0 (λ e. absurd (omega (arith, e, k))) in
      let chain : balance_to_share z total staked balance
          ≡ (Base.◌>>=◌ (checked (z.mul balance total)) λ n. checked (z.div n staked)) =
        rw some_shares refl in
      quotient_lem balance total staked (sym chain ∙ h)

  balance_to_share_first :
      (staked balance : ℕ) {s : ℕ} → balance_to_share z 0 staked balance ≡ ok s → s ≡ balance
  unfolding balance_to_share
  balance_to_share_first staked balance h = ground arith

  share_to_balance_first :
      (staked share : ℕ) {r : ℕ} → share_to_balance z 0 staked share ≡ ok r → r ≡ share
  unfolding share_to_balance
  share_to_balance_first staked share h = ground arith

  -- Whoever stakes LP tokens for shares and turns the shares back into LP tokens gets no more than
  -- was staked, and what was staked before without shares: nothing, where there are shares already,
  -- and else all that the worker has, with `SafeMath` as documented.
  pub share_to_balance-balance_to_share :
      (total staked balance : ℕ) {share back : ℕ}
      → balance_to_share z total staked balance ≡ ok share
      → share_to_balance z (total + share) (staked + balance) share ≡ ok back
      → back ≤ balance + (if total == 0 then staked else 0)
  share_to_balance-balance_to_share zero staked balance {share} {back} given returned =
      let same : share ≡ balance = balance_to_share_first staked balance given in
      elim (Bool-cases (share == 0)) [
        | inl none_given ↦
            let share_zero = eq_of_test share 0 none_given in
            let back_lem = share_to_balance_first (staked + balance) share (
              subst (λ x. share_to_balance z x (staked + balance) share ≡ ok back)
                (omega (arith, share_zero)) returned) in
            omega (arith, back_lem, same)
        | inr some_given ↦
            let share_pos : 0 < share = ground arith in
            let back_lem =
              share_to_balance-eq_ok (0 + share) (staked + balance) share returned
                (omega (arith, share_pos)) in
            let bound : share * (staked + balance) / (0 + share) ≤ balance + staked =
              div-le_of_le-mul (0 + share) (omega arith) in
            omega (arith, back_lem, bound)
      ]
  share_to_balance-balance_to_share (suc n) staked balance {share} {back} given returned =
      let (share_lem, staked_pos) =
        balance_to_share-eq_ok (suc n) staked balance given (omega arith) in
      let back_lem =
        share_to_balance-eq_ok (suc n + share) (staked + balance) share returned (omega arith) in
      let bound : share * staked ≤ balance * suc n =
        subst (λ x. x * staked ≤ balance * suc n) (sym share_lem)
          (div-mul-le_self (balance * suc n) staked) in
      omega (arith, back_lem, round_trip_le (suc n) staked balance share bound (omega arith))

  sell_amount-eq_ok :
      (a_in r_in r_out : ℕ) (w : Worker) {amount : ℕ}
      → sell_amount z a_in r_in r_out w ≡ ok amount
      → (0 < r_in) × (amount ≡ a_in * w.fee * r_out / (r_in * w.fee_denom + a_in * w.fee))
  unfolding sell_amount
  sell_amount-eq_ok a_in r_in r_out w {amount} h =
      >>=-use (require (ltb 0 r_in && ltb 0 r_out) bad_reserves) _ h λ u reserves h1.
        >>=-use (checked (z.mul a_in w.fee)) _ h1 λ fee_in p1 h2.
          >>=-use (checked (z.mul fee_in r_out)) _ h2 λ numerator p2 h3.
            >>=-use (checked (z.mul r_in w.fee_denom)) _ h3 λ scaled p3 h4.
              >>=-use (checked (z.add scaled fee_in)) _ h4 λ denominator p4 h5.
                let fee_lem = doc.exact_product a_in w.fee (checked-eq-ok (z.mul a_in w.fee) p1) in
                let top = doc.exact_product fee_in r_out (checked-eq-ok (z.mul fee_in r_out) p2) in
                let scaled_lem =
                  doc.exact_product r_in w.fee_denom (checked-eq-ok (z.mul r_in w.fee_denom) p3) in
                let bottom = doc.exact_sum scaled fee_in (checked-eq-ok (z.add scaled fee_in) p4) in
                let test = require-eq-ok (ltb 0 r_in && ltb 0 r_out) bad_reserves reserves in
                let amount_lem : amount ≡ numerator / denominator = ground arith in
                (
                  ground (arith, test),
                  amount_lem
                      ∙ ap₂ (◌/◌) (top ∙ ap (λ x. x * r_out) fee_lem)
                          (bottom ∙ ap₂ (◌+◌) scaled_lem fee_lem),
                )

  -- What LP tokens fetch on the pair is less than its reserve, where it has one and the fee's
  -- denominator is not zero, with `SafeMath` as documented.
  pub get_mkt_sell_amount-lt :
      (a_in r_in r_out : ℕ) (w : Worker) {amount : ℕ}
      → 0 < w.fee_denom
      → 0 < r_out
      → get_mkt_sell_amount z a_in r_in r_out w ≡ ok amount
      → amount < r_out
  unfolding get_mkt_sell_amount
  get_mkt_sell_amount-lt a_in r_in r_out w {amount} denom_pos r_pos h =
      elim (Bool-cases (a_in == 0)) [
        | inl no_input ↦
            let nothing : get_mkt_sell_amount z a_in r_in r_out w ≡ ok 0 = rw no_input refl in
            let same : ok 0 ≡ ok amount = sym nothing ∙ h in
            let amount_zero : amount ≡ 0 = ground (arith, same) in omega (arith, amount_zero, r_pos)
        | inr some_input ↦
            let chain : get_mkt_sell_amount z a_in r_in r_out w ≡ sell_amount z a_in r_in r_out w =
              rw some_input refl in
            let (in_pos, amount_lem) = sell_amount-eq_ok a_in r_in r_out w (sym chain ∙ h) in
            let bottom_pos = mul-le-mul 1 r_in 1 w.fee_denom in_pos denom_pos in
            let reserve_pos = mul-le-mul 1 r_out 1 (r_in * w.fee_denom) r_pos bottom_pos in
            let small =
              (div-lt_iff_lt-mul {k = r_in * w.fee_denom + a_in * w.fee} {x = a_in * w.fee * r_out}
                  {y = r_out} (omega (arith, bottom_pos))).1
                (omega (arith, reserve_pos)) in
            omega (arith, amount_lem, small)
      ]
