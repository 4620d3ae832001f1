-- ===== src/Deploy/Workers/Calls.antt =====
-- deploy/scripts/014-*: what a row needs, and what the calls of a round do where the contracts let
-- them through.
use huski_bsc_contract.Base.{
  ℕ, ◌^◌, ◌≡◌, ◌≤◌, ◌<◌, ◌⊎◌, refl, true, ◌&&◌, ◌||◌, some, List, [], ◌∷◌, map, arith, ltb, leb,
  ◌==◌, if◌then◌else◌, pos, ok,
}
use huski_bsc_contract.Evm.{IsDocumented, update}
use huski_bsc_contract.Contracts.{BasicVaultConfig, set_all, set_workers, set_worker_configs}
use huski_bsc_contract.Workers.{
  PancakeSwap, Worker, WorkerParams, Strategy, WorkerFactors, WorkerConfig, new_worker, init_worker,
  set_strategy_ok, set_reinvestor_ok, set_workers_ok, set_configs, set_factors,
}
use huski_bsc_contract.Deploy.{World, Network, expect, bad_argument, contract_at}
use huski_bsc_contract.Deploy.Steps.{>>=-go, expect-some}
use huski_bsc_contract.Deploy.Workers.{
  to_uint, to_addresses, make_worker, on_worker, allow_worker_at, set_factors_at, set_worker_at,
}

-- What PancakeSwap tells of a pool.
pub record PoolFacts : Type 0 where
  pub weth : ℕ
  pub factory : ℕ
  pub lp : ℕ
  pub token_0 : ℕ
  pub token_1 : ℕ
  pub cake : ℕ

-- PancakeSwap tells this of the worker's pool, whose pair has the base token.
pub record HasPool (s : PancakeSwap) (p : WorkerParams) (facts : PoolFacts) : Type 0 where
  pub has_weth : s.weth p.router ≡ some facts.weth
  pub has_factory : s.factory p.router ≡ some facts.factory
  pub has_lp : s.pool_lp_token p.master_chef p.pid ≡ some facts.lp
  pub has_token_0 : s.token_0 facts.lp ≡ some facts.token_0
  pub has_token_1 : s.token_1 facts.lp ≡ some facts.token_1
  pub has_cake : s.cake p.master_chef ≡ some facts.cake
  pub has_base : (p.base_token ≡ facts.token_0) ⊎ (p.base_token ≡ facts.token_1)

-- The worker that is initialised with these.
abbrev pub initial : ℕ → WorkerParams → PoolFacts → Worker
initial sender p facts =
    new_worker sender p facts.weth facts.factory facts.lp facts.token_0 facts.token_1 facts.cake

match_tests :
    (base token_0 token_1 : ℕ)
    → (base ≡ token_0) ⊎ (base ≡ token_1)
    → (((if token_0 == base then token_1 else token_0) == token_0
          || (if token_0 == base then token_1 else token_0) == token_1)
        && (base == token_0 || base == token_1))
      ≡ true
match_tests base token_0 token_1 h = ground (arith, h)

init_worker-ok :
    (s : PancakeSwap) (sender : ℕ) (p : WorkerParams) (facts : PoolFacts)
    → HasPool s p facts
    → p.reinvest_bounty_bps ≤ 500
    → init_worker s sender p ≡ ok (initial sender p facts)
unfolding init_worker new_worker
init_worker-ok s sender p facts h small =
    let bounded : leb p.reinvest_bounty_bps 500 ≡ true = ground (arith, small) in
    rw (h.has_weth, init_worker)
      (rw h.has_factory (
        rw h.has_lp (
          rw h.has_token_0 (
            rw h.has_token_1 (
              rw h.has_cake (
                rw bounded
                  (rw (match_tests p.base_token facts.token_0 facts.token_1 h.has_base) refl)))))))

pub to_uint-ok : (bits n : ℕ) (w : World) → n < 2 ^ bits → to_uint bits (pos n) w ≡ (ok n, w)
unfolding to_uint
to_uint-ok bits n w h = let small : ltb n (2 ^ bits) ≡ true = ground (arith, h) in rw small refl

pub to_addresses-ok :
    (addresses : List ℕ) (w : World) → to_addresses (map some addresses) w ≡ (ok addresses, w)
unfolding to_addresses
to_addresses-ok [] w = refl
to_addresses-ok (a ∷ rest) w =
    >>=-go (expect bad_argument (some a)) _ w (expect-some bad_argument (some a) w refl)
      (>>=-go (to_addresses (map some rest)) _ w (to_addresses-ok rest w) refl)

-- A strategy that serves one more worker.
abbrev pub serving : ℕ → Strategy → Strategy
serving worker s = record s { ok_workers = update s.ok_workers worker true }

module _ (net : Network) where
  pub make_worker-ok :
      (p : WorkerParams) (facts : PoolFacts) (self : ℕ) (w : World)
      → HasPool net.pancake p facts
      → p.reinvest_bounty_bps ≤ 500
      → make_worker net p self w
        ≡ ok (record w { workers = update w.workers self (some (initial w.deployer p facts)) })
  unfolding make_worker
  make_worker-ok p facts self w h small =
      rw (init_worker-ok net.pancake w.deployer p facts h small) refl

  pub set_reinvestor_ok-ok :
      (bot a : ℕ) (w : World) {k : Worker}
      → IsDocumented net.zeppelin
      → w.workers a ≡ some k
      → k.owner ≡ w.deployer
      → on_worker net (set_reinvestor_ok net.zeppelin w.deployer (bot ∷ []) true) a w
        ≡ ok (record w {
          workers =
              update w.workers a
                (some (record k { ok_reinvestors = update k.ok_reinvestors bot true }));
        })
  unfolding on_worker contract_at set_reinvestor_ok set_all
  set_reinvestor_ok-ok bot a w doc there mine =
      rw (there, on_worker, contract_at)
        (rw (mine, set_reinvestor_ok) (rw (doc.owner_passes w.deployer) refl))

  pub set_strategy_ok-ok :
      (strats : List ℕ) (a : ℕ) (w : World) {k : Worker}
      → IsDocumented net.zeppelin
      → w.workers a ≡ some k
      → k.owner ≡ w.deployer
      → on_worker net (set_strategy_ok net.zeppelin w.deployer strats true) a w
        ≡ ok (record w {
          workers =
              update w.workers a (some (record k { ok_strats = set_all strats true k.ok_strats }));
        })
  unfolding on_worker contract_at set_strategy_ok
  set_strategy_ok-ok strats a w doc there mine =
      rw (there, on_worker, contract_at)
        (rw (mine, set_strategy_ok) (rw (doc.owner_passes w.deployer) refl))

  pub allow_worker_at-ok :
      (worker a : ℕ) (w : World) {s : Strategy}
      → IsDocumented net.zeppelin
      → w.strategies a ≡ some s
      → s.owner ≡ w.deployer
      → allow_worker_at net worker a w
        ≡ ok (record w { strategies = update w.strategies a (some (serving worker s)) })
  unfolding allow_worker_at contract_at set_workers_ok set_all
  allow_worker_at-ok worker a w doc there mine =
      rw (there, allow_worker_at, contract_at)
        (rw (mine, set_workers_ok) (rw (doc.owner_passes w.deployer) refl))

  pub set_factors_at-ok :
      (worker : ℕ) (factors : WorkerFactors) (a : ℕ) (w : World) {c : WorkerConfig}
      → IsDocumented net.zeppelin
      → w.worker_configs a ≡ some c
      → c.owner ≡ w.deployer
      → set_factors_at net worker factors a w
        ≡ ok (record w {
          worker_configs =
              update w.worker_configs a
                (some (record c { workers = update c.workers worker factors }));
        })
  unfolding set_factors_at contract_at set_configs set_factors
  set_factors_at-ok worker factors a w doc there mine =
      rw (there, set_factors_at, contract_at)
        (rw (mine, set_configs) (rw (doc.owner_passes w.deployer) refl))

  pub set_worker_at-ok :
      (worker config a : ℕ) (w : World) {c : BasicVaultConfig}
      → IsDocumented net.zeppelin
      → w.configs a ≡ some c
      → c.owner ≡ w.deployer
      → set_worker_at net worker config a w
        ≡ ok (record w {
          configs =
              update w.configs a (some (record c { workers = update c.workers worker config }));
        })
  unfolding set_worker_at contract_at set_workers set_worker_configs
  set_worker_at-ok worker config a w doc there mine =
      rw (there, set_worker_at, contract_at)
        (rw (mine, set_workers) (rw (doc.owner_passes w.deployer) refl))
