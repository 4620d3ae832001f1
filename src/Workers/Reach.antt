-- ===== src/Workers/Reach.antt =====
-- contracts/6/protocol/workers/PancakeswapV2Worker.sol: the states that a worker can be in. Its
-- trades change none of this state but the shares.
use huski_bsc_contract.Base.{
  ℕ, ◌+◌, ◌≡◌, ◌≤◌, refl, sym, ◌∙◌, ap, subst, Bool, List, arith, inl, inr, leb, ◌==◌, ◌&&◌, ◌||◌,
  ok, >>=-use, require, require-eq-ok, sum_below, sum_below-change, sum_below-zeros,
}
use huski_bsc_contract.Evm.{bounty_exceeded, lp_mismatch, OpenZeppelin, IsDocumented}
use huski_bsc_contract.Workers.{
  PancakeSwap, Stake, Worker, WorkerParams, external, new_worker, init_worker, add_share,
  remove_share, set_reinvest_bounty_bps, set_max_reinvest_bounty_bps, set_strategy_ok,
  set_reinvestor_ok, set_critical_strategies,
}
use huski_bsc_contract.Workers.Stakes.{SameSettings, add_share-Grown, remove_share-Removed}

-- The bounty is within its bound, the fee's denominator is not zero, and the total is the sum of
-- the shares of all positions, which are those below some number.
pub record IsSound (w : Worker) : Type 0 where
  pub bounty_bounded : w.reinvest_bounty_bps ≤ w.max_reinvest_bounty_bps
  pub fee_denom_set : w.fee_denom ≡ 10000
  pub bound : ℕ
  pub none_above : (id : ℕ) → bound ≤ id → w.shares id ≡ 0
  pub total_sum : w.total_share ≡ sum_below bound w.shares

module _ (w w' : Worker) (id : ℕ) where
  -- The sum follows a change of one position.
  change-IsSound :
      IsSound w
      → SameSettings w w'
      → ((other : ℕ) → ¬ (id ≡ other) → w'.shares other ≡ w.shares other)
      → w'.total_share + w.shares id ≡ w.total_share + w'.shares id
      → IsSound w'
  change-IsSound s same others total =
      let n = s.bound + id + 1 in
      let n_above : (i : ℕ) → n ≤ i → w'.shares i ≡ 0 = λ i i_ge.
        others i (λ e. absurd (omega (arith, e, i_ge))) ∙ s.none_above i (omega (arith, i_ge)) in
      let sums = sum_below-change n id w.shares w'.shares others (omega arith) in
      let before = sum_below-zeros s.bound n w.shares s.none_above (omega arith) in
      record {
        bounty_bounded = omega (arith, s.bounty_bounded, same.same_bounty, same.same_max_bounty);
        fee_denom_set = same.same_fee_denom ∙ s.fee_denom_set;
        bound = n;
        none_above = n_above;
        total_sum = omega (arith, s.total_sum, total, sums, before);
      }

-- One transaction of the worker that goes through.
pub data WorkerStep (z : OpenZeppelin) (w w' : Worker) : Type 0 where
  bounty_set :
      (sender bounty : ℕ) → set_reinvest_bounty_bps z sender bounty w ≡ ok w' → WorkerStep z w w'
  max_bounty_set :
      (sender most : ℕ) → set_max_reinvest_bounty_bps z sender most w ≡ ok w' → WorkerStep z w w'
  strategy_set :
      (sender : ℕ) (strats : List ℕ) (is_ok : Bool)
      → set_strategy_ok z sender strats is_ok w ≡ ok w'
      → WorkerStep z w w'
  reinvestor_set :
      (sender : ℕ) (bots : List ℕ) (is_ok : Bool)
      → set_reinvestor_ok z sender bots is_ok w ≡ ok w'
      → WorkerStep z w w'
  critical_set :
      (sender add liq : ℕ) → set_critical_strategies z sender add liq w ≡ ok w' → WorkerStep z w w'
  share_added : (stake : Stake) (id : ℕ) → add_share z stake id w ≡ ok w' → WorkerStep z w w'
  share_removed : (stake : Stake) (id : ℕ) → remove_share z stake id w ≡ ok w' → WorkerStep z w w'

-- The states that lead from the initialisation of a worker.
pub data WorkerState (z : OpenZeppelin) : Worker → Type 0 where
  initialised :
      {w : Worker} (s : PancakeSwap) (sender : ℕ) (p : WorkerParams)
      → init_worker s sender p ≡ ok w
      → WorkerState z w
  stepped : {w w' : Worker} → WorkerState z w → WorkerStep z w w' → WorkerState z w'

init_worker-IsSound :
    (s : PancakeSwap) (sender : ℕ) (p : WorkerParams) {w : Worker}
    → init_worker s sender p ≡ ok w
    → IsSound w
unfolding init_worker new_worker sum_below
init_worker-IsSound s sender p {w} h = >>=-use (external (s.weth p.router)) _ h λ weth a1 h1.
    >>=-use (external (s.factory p.router)) _ h1 λ factory a2 h2.
      >>=-use (external (s.pool_lp_token p.master_chef p.pid)) _ h2 λ lp a3 h3.
        >>=-use (external (s.token_0 lp)) _ h3 λ token_0 a4 h4.
          >>=-use (external (s.token_1 lp)) _ h4 λ token_1 a5 h5.
            >>=-use (external (s.cake p.master_chef)) _ h5 λ cake a6 h6.
              >>=-use (require (leb p.reinvest_bounty_bps 500) bounty_exceeded) _ h6 λ u a7 h7.
                let test = require-eq-ok (leb p.reinvest_bounty_bps 500) bounty_exceeded a7 in
                let started = new_worker sender p weth factory lp token_0 token_1 cake in
                let bounded : p.reinvest_bounty_bps ≤ 500 = ground (arith, test) in
                >>=-use
                  (require
                    ((started.farming_token == token_0 || started.farming_token == token_1)
                      && (started.base_token == token_0 || started.base_token == token_1))
                    lp_mismatch)
                  _ h7
                  λ u8 a8 h8.
                    let same : started ≡ w = ground (arith, h8) in
                    subst (λ x. IsSound x) same
                      (record {
                        bounty_bounded = bounded;
                        fee_denom_set = refl;
                        bound = 0;
                        none_above = λ id id_ge. refl;
                        total_sum = refl;
                      })

module _ (z : OpenZeppelin) (doc : IsDocumented z) where
  -- The worker after a setting that leaves the shares and the bounds alone.
  setting-IsSound :
      (w w' : Worker)
      → w'.reinvest_bounty_bps ≤ w'.max_reinvest_bounty_bps
      → w'.fee_denom ≡ w.fee_denom
      → w'.shares ≡ w.shares
      → w'.total_share ≡ w.total_share
      → IsSound w
      → IsSound w'
  setting-IsSound w w' bounded fee shares total s = record {
    bounty_bounded = bounded;
    fee_denom_set = fee ∙ s.fee_denom_set;
    bound = s.bound;
    none_above = λ id id_ge. ap (λ f. f id) shares ∙ s.none_above id id_ge;
    total_sum = total ∙ s.total_sum ∙ ap (sum_below s.bound) (sym shares);
  }

  WorkerStep-IsSound : (w w' : Worker) → WorkerStep z w w' → IsSound w → IsSound w'
  unfolding set_reinvest_bounty_bps set_max_reinvest_bounty_bps set_strategy_ok set_reinvestor_ok
      set_critical_strategies
  WorkerStep-IsSound w w' (bounty_set sender bounty h) s =
      setting-IsSound w w' (ground (arith, h)) (ground (arith, h)) (ground (arith, h))
        (ground (arith, h)) s
  WorkerStep-IsSound w w' (max_bounty_set sender most h) s =
      setting-IsSound w w' (ground (arith, h)) (ground (arith, h)) (ground (arith, h))
        (ground (arith, h)) s
  WorkerStep-IsSound w w' (strategy_set sender strats is_ok h) s =
      setting-IsSound w w' (ground (arith, h, s.bounty_bounded)) (ground (arith, h))
        (ground (arith, h)) (ground (arith, h)) s
  WorkerStep-IsSound w w' (reinvestor_set sender bots is_ok h) s =
      setting-IsSound w w' (ground (arith, h, s.bounty_bounded)) (ground (arith, h))
        (ground (arith, h)) (ground (arith, h)) s
  WorkerStep-IsSound w w' (critical_set sender add liq h) s =
      setting-IsSound w w' (ground (arith, h, s.bounty_bounded)) (ground (arith, h))
        (ground (arith, h)) (ground (arith, h)) s
  WorkerStep-IsSound w w' (share_added stake id h) s = elim (add_share-Grown z doc stake id w h) [
    | inl same ↦ subst (λ x. IsSound x) (sym same) s
    | inr (share, g, _) ↦
        change-IsSound w w' id s g.settings g.others_kept
          (omega (arith, g.total_grown, g.share_grown))
  ]
  WorkerStep-IsSound w w' (share_removed stake id h) s =
      elim (remove_share-Removed z doc stake id w h) [
        | inl same ↦ subst (λ x. IsSound x) (sym same) s
        | inr g ↦
            change-IsSound w w' id s g.settings g.others_kept
              (omega (arith, g.total_shrunk, g.share_gone))
      ]

  -- From the initialisation of a worker on, whatever its owner sets and whichever positions stake
  -- and unstake, the bounty stays within its bound, the fee's denominator stays 10000, and
  -- `totalShare` is the sum of the shares of all positions, with `SafeMath` as documented.
  pub WorkerState-IsSound : {w : Worker} → WorkerState z w → IsSound w
  WorkerState-IsSound (initialised s sender p h) = init_worker-IsSound s sender p h
  WorkerState-IsSound (stepped {w = w} {w' = w'} state step) =
      WorkerStep-IsSound w w' step (WorkerState-IsSound state)
