-- ===== src/Workers/Stakes.antt =====
-- contracts/6/protocol/workers/PancakeswapV2Worker.sol: what `_addShare` and `_removeShare` do to
-- the shares of the positions.
use Prim.Native.Nat.{◌*◌}
use native.Mathlib.Nat.{div-mul-le_self}
use huski_bsc_contract.Base.{
  no_loss_le, no_loss_same_le, ℕ, ◌+◌, ◌≡◌, ◌≤◌, ◌<◌, ◌⊎◌, refl, sym, ◌∙◌, subst, arith, inl, inr,
  ltb, Bool-cases, ok, >>=-use, require,
}
use huski_bsc_contract.Evm.{
  external_call_failed, OpenZeppelin, IsDocumented, checked, checked-eq-ok, max_uint, update,
  update_here, update_other,
}
use huski_bsc_contract.Workers.{
  Stake, Worker, approve_chef, deposit, withdraw, share_to_balance, balance_to_share, stake_balance,
  add_share, unstake, remove_share,
}
use huski_bsc_contract.Workers.Shares.{share_to_balance-eq_ok, balance_to_share-eq_ok}

-- Two workers that differ in no more than the shares.
pub record SameSettings (w w' : Worker) : Type 0 where
  pub same_bounty : w'.reinvest_bounty_bps ≡ w.reinvest_bounty_bps
  pub same_max_bounty : w'.max_reinvest_bounty_bps ≡ w.max_reinvest_bounty_bps
  pub same_fee_denom : w'.fee_denom ≡ w.fee_denom

-- A position has more shares, or none any more.
pub record Grown (id share : ℕ) (w w' : Worker) : Type 0 where
  pub total_grown : w'.total_share ≡ w.total_share + share
  pub share_grown : w'.shares id ≡ w.shares id + share
  pub others_kept : (other : ℕ) → ¬ (id ≡ other) → w'.shares other ≡ w.shares other
  pub settings : SameSettings w w'

pub record Removed (id : ℕ) (w w' : Worker) : Type 0 where
  pub total_shrunk : w'.total_share + w.shares id ≡ w.total_share
  pub share_gone : w'.shares id ≡ 0
  pub others_kept : (other : ℕ) → ¬ (id ≡ other) → w'.shares other ≡ w.shares other
  pub settings : SameSettings w w'

module _ (z : OpenZeppelin) (doc : IsDocumented z) where
  stake_balance-Grown :
      (stake : Stake) (id : ℕ) (w : Worker) {w' : Worker}
      → stake_balance z stake id w ≡ ok w'
      → (share : ℕ) × Grown id share w w'
        × (balance_to_share z w.total_share stake.staked stake.balance ≡ ok share)
  unfolding stake_balance
  stake_balance-Grown stake id w {w'} h =
      >>=-use (require (stake.accepts (approve_chef max_uint)) external_call_failed) _ h λ u a h1.
        >>=-use (balance_to_share z w.total_share stake.staked stake.balance) _ h1 λ share given h2.
          >>=-use (require (stake.accepts (deposit stake.balance)) external_call_failed) _ h2
            λ u2 b h3. >>=-use (checked (z.add (w.shares id) share)) _ h3 λ mine m h4.
              >>=-use (checked (z.add w.total_share share)) _ h4 λ total t h5.
                >>=-use (require (stake.accepts (approve_chef 0)) external_call_failed) _ h5
                  λ u3 c h6.
                    let after : Worker = record w {
                      shares = update w.shares id mine;
                      total_share = total;
                    } in
                    let same : after ≡ w' = ground (arith, h6) in
                    let mine_lem =
                      doc.exact_sum (w.shares id) share
                        (checked-eq-ok (z.add (w.shares id) share) m) in
                    let total_lem =
                      doc.exact_sum w.total_share share
                        (checked-eq-ok (z.add w.total_share share) t) in
                    (
                      share,
                      subst (λ x. Grown id share w x) same
                          (record {
                            total_grown = total_lem;
                            share_grown = update_here w.shares id mine ∙ mine_lem;
                            others_kept = λ other apart. update_other w.shares id other mine apart;
                            settings = record {
                              same_bounty = refl;
                              same_max_bounty = refl;
                              same_fee_denom = refl;
                            };
                          }),
                      given,
                    )

  -- What `_addShare` does: nothing, or it gives a position the shares of the whole balance.
  pub add_share-Grown :
      (stake : Stake) (id : ℕ) (w : Worker) {w' : Worker}
      → add_share z stake id w ≡ ok w'
      → (w' ≡ w)
        ⊎ ((share : ℕ) × Grown id share w w'
            × (balance_to_share z w.total_share stake.staked stake.balance ≡ ok share))
  unfolding add_share
  add_share-Grown stake id w {w'} h = elim (Bool-cases (ltb 0 stake.balance)) [
    | inl some_balance ↦
        let chain : add_share z stake id w ≡ stake_balance z stake id w = rw some_balance refl in
        inr (stake_balance-Grown stake id w (sym chain ∙ h))
    | inr no_balance ↦
        let chain : add_share z stake id w ≡ ok w = rw no_balance refl in
        let same : ok w ≡ ok w' = sym chain ∙ h in inl (ground (arith, same))
  ]

  unstake-Removed :
      (stake : Stake) (id : ℕ) (w : Worker) {w' : Worker}
      → unstake z stake id w ≡ ok w'
      → Removed id w w'
  unfolding unstake
  unstake-Removed stake id w {w'} h =
      >>=-use (share_to_balance z w.total_share stake.staked (w.shares id)) _ h λ balance b h1.
        >>=-use (require (stake.accepts (withdraw balance)) external_call_failed) _ h1 λ u a h2.
          >>=-use (checked (z.sub w.total_share (w.shares id))) _ h2 λ total t h3.
            let after : Worker = record w { shares = update w.shares id 0; total_share = total } in
            let same : after ≡ w' = ground (arith, h3) in
            let total_lem =
              doc.exact_difference w.total_share (w.shares id)
                (checked-eq-ok (z.sub w.total_share (w.shares id)) t) in
            subst (λ x. Removed id w x) same
              (record {
                total_shrunk = total_lem;
                share_gone = update_here w.shares id 0;
                others_kept = λ other apart. update_other w.shares id other 0 apart;
                settings = record {
                  same_bounty = refl;
                  same_max_bounty = refl;
                  same_fee_denom = refl;
                };
              })

  -- What `_removeShare` does: nothing, or the position has no shares any more.
  pub remove_share-Removed :
      (stake : Stake) (id : ℕ) (w : Worker) {w' : Worker}
      → remove_share z stake id w ≡ ok w'
      → (w' ≡ w) ⊎ Removed id w w'
  unfolding remove_share
  remove_share-Removed stake id w {w'} h = elim (Bool-cases (ltb 0 (w.shares id))) [
    | inl some_share ↦
        let chain : remove_share z stake id w ≡ unstake z stake id w = rw some_share refl in
        inr (unstake-Removed stake id w (sym chain ∙ h))
    | inr no_share ↦
        let chain : remove_share z stake id w ≡ ok w = rw no_share refl in
        let same : ok w ≡ ok w' = sym chain ∙ h in inl (ground (arith, same))
  ]

  -- When `_addShare` stakes the LP tokens of a position, where there are shares already, no other
  -- position loses: where the master chef then has as many more tokens of the worker, the shares
  -- of the other position are worth at least as many tokens as before, with `SafeMath` as
  -- documented.
  pub add_share-no_loss :
      (stake : Stake) (id other : ℕ) (w : Worker) {w' : Worker} {before after : ℕ}
      → ¬ (id ≡ other)
      → 0 < w.total_share
      → add_share z stake id w ≡ ok w'
      → share_to_balance z w.total_share stake.staked (w.shares other) ≡ ok before
      → share_to_balance z w'.total_share (stake.staked + stake.balance) (w'.shares other)
        ≡ ok after
      → before ≤ after
  add_share-no_loss stake id other w {w'} {before} {after} apart some_shares added worth now =
      let before_lem =
        share_to_balance-eq_ok z doc w.total_share stake.staked (w.shares other) worth
          some_shares in
      elim (add_share-Grown stake id w added) [
        | inl same ↦
            let now' =
              subst
                (λ x.
                  share_to_balance z x.total_share (stake.staked + stake.balance) (x.shares other)
                  ≡ ok after)
                same now in
            let after_lem =
              share_to_balance-eq_ok z doc w.total_share (stake.staked + stake.balance)
                (w.shares other) now' some_shares in
            omega (
              arith,
              before_lem,
              after_lem,
              no_loss_same_le w.total_share stake.staked stake.balance (w.shares other) some_shares,
            )
        | inr (share, g, given) ↦
            let (share_lem, staked_pos) =
              balance_to_share-eq_ok z doc w.total_share stake.staked stake.balance given
                some_shares in
            let bound : share * stake.staked ≤ stake.balance * w.total_share =
              subst (λ x. x * stake.staked ≤ stake.balance * w.total_share) (sym share_lem)
                (div-mul-le_self (stake.balance * w.total_share) stake.staked) in
            let now' =
              subst
                (λ n. share_to_balance z w'.total_share (stake.staked + stake.balance) n ≡ ok after)
                (g.others_kept other apart) now in
            let now'' =
              subst
                (λ t.
                  share_to_balance z t (stake.staked + stake.balance) (w.shares other) ≡ ok after)
                g.total_grown now' in
            let after_lem =
              share_to_balance-eq_ok z doc (w.total_share + share) (stake.staked + stake.balance)
                (w.shares other) now'' (omega (arith, some_shares)) in
            omega (
              arith,
              before_lem,
              after_lem,
              no_loss_le w.total_share stake.staked stake.balance share (w.shares other) some_shares
                  staked_pos bound,
            )
      ]
