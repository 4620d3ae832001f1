-- ===== src/Deploy/Workers/Round.antt =====
-- deploy/scripts/014-*: what the phases of a round do where the contracts let each transaction
-- through.
use huski_bsc_contract.Base.{
  ℕ, ◌+◌, ◌^◌, ◌≡◌, ◌≤◌, ◌<◌, refl, true, Option, none, some, List, [], ◌∷◌, map, arith, ◌==◌,
  Bool-cases, inl, inr, pos, ok,
}
use huski_bsc_contract.Evm.{IsDocumented, update, update_here}
use huski_bsc_contract.Contracts.{BasicVaultConfig, set_all}
use huski_bsc_contract.Workers.{Worker, WorkerParams, Strategy, WorkerFactors, WorkerConfig}
use huski_bsc_contract.Deploy.{World, Network, expect, bad_argument, transact}
use huski_bsc_contract.Deploy.Steps.{
  >>=-go, expect-some, expect-go, transact-ok, transact-go, create_contract-ok,
}
use huski_bsc_contract.Deploy.Workers.{
  WorkerRow, to_uint, to_addresses, make_worker, allow_worker_at, set_worker_at, create_worker,
  allow_on_strats, allow_strats, configure_worker,
}
use huski_bsc_contract.Deploy.Workers.Calls.{
  PoolFacts, HasPool, initial, serving, to_uint-ok, to_addresses-ok, make_worker-ok,
  set_reinvestor_ok-ok, set_strategy_ok-ok, allow_worker_at-ok, set_factors_at-ok, set_worker_at-ok,
}

-- The addresses that the rows of a table share.
pub record Parts : Type 0 where
  pub bot : ℕ
  pub base_token : ℕ
  pub vault_config : ℕ
  pub worker_config : ℕ
  pub vault : ℕ
  pub chef : ℕ
  pub router : ℕ
  pub add : ℕ
  pub liq : ℕ
  pub strats : List ℕ

abbrev pub params : Parts → ℕ → ℕ → WorkerParams
params p pid bounty = record {
  operator = p.vault;
  base_token = p.base_token;
  master_chef = p.chef;
  router = p.router;
  pid = pid;
  add_strat = p.add;
  liq_strat = p.liq;
  reinvest_bounty_bps = bounty;
}

-- The factors that a row sets.
abbrev pub factors_of : WorkerRow → WorkerFactors
factors_of r = record {
  accept_debt = true;
  work_factor = r.work_factor;
  kill_factor = r.kill_factor;
  max_price_diff = r.max_price_diff;
}

-- The strategies are on the chain and the deployer owns them.
unfoldable pub StratsOwned : (ℕ → Option Strategy) → ℕ → List ℕ → Type 0
StratsOwned m deployer [] = Unit {0}
StratsOwned m deployer (a ∷ rest) =
    ((s : Strategy) × (m a ≡ some s) × (s.owner ≡ deployer)) × StratsOwned m deployer rest

abbrev pub allowed : ℕ → Option Strategy → Option Strategy
allowed worker none = none
allowed worker (some s) = some (serving worker s)

-- The strategies after the loop that allows a worker on them.
unfoldable pub whitelisted : ℕ → List ℕ → (ℕ → Option Strategy) → ℕ → Option Strategy
whitelisted worker [] m = m
whitelisted worker (a ∷ rest) m = whitelisted worker rest (update m a (allowed worker (m a)))

-- The nonce after a transaction for each address.
unfoldable pub count : ℕ → List ℕ → ℕ
count n [] = n
count n (a ∷ rest) = count (n + 1) rest

pub StratsOwned-update :
    (m : ℕ → Option Strategy) (deployer a : ℕ) (s : Strategy) (l : List ℕ)
    → s.owner ≡ deployer
    → StratsOwned m deployer l
    → StratsOwned (update m a (some s)) deployer l
unfolding StratsOwned
StratsOwned-update m deployer a s [] mine h = tt
StratsOwned-update m deployer a s (b ∷ rest) mine ((t, there, owned), h) = (
  elim (Bool-cases (a == b)) [
    | inl same ↦ (s, rw same refl, mine)
    | inr other ↦ (t, rw other there, owned)
  ],
  StratsOwned-update m deployer a s rest mine h,
)

pub StratsOwned-whitelisted :
    (worker : ℕ) (strats : List ℕ) (m : ℕ → Option Strategy) (deployer : ℕ) (l : List ℕ)
    → StratsOwned m deployer strats
    → StratsOwned m deployer l
    → StratsOwned (whitelisted worker strats m) deployer l
unfolding StratsOwned whitelisted
StratsOwned-whitelisted worker [] m deployer l h k = k
StratsOwned-whitelisted worker (a ∷ rest) m deployer l ((s, there, owned), h) k =
    let s' = serving worker s in
    rw there (
      StratsOwned-whitelisted worker rest (update m a (some s')) deployer l
        (StratsOwned-update m deployer a s' rest owned h)
        (StratsOwned-update m deployer a s' l owned k))

module _ (net : Network) where
  pub allow_on_strats-ok :
      (worker : ℕ) (strats : List ℕ) (w : World)
      → IsDocumented net.zeppelin
      → StratsOwned w.strategies w.deployer strats
      → allow_on_strats net worker (map some strats) w ≡ (
        ok tt,
        record w {
          strategies = whitelisted worker strats w.strategies;
          nonce = count w.nonce strats;
        },
      )
  unfolding allow_on_strats whitelisted count StratsOwned
  allow_on_strats-ok worker [] w doc h = refl
  allow_on_strats-ok worker (a ∷ rest) w doc ((s, there, owned), h) =
      let s' = serving worker s in
      let w1 : World = record w {
        strategies = update w.strategies a (some s');
        nonce = w.nonce + 1;
      } in
      rw there (
        >>=-go (expect bad_argument (some a)) _ w (expect-some bad_argument (some a) w refl) (
          >>=-go (transact (allow_worker_at net worker a)) _ w
            (transact-ok (allow_worker_at net worker a) w
              (allow_worker_at-ok net worker a w doc there owned))
            (allow_on_strats-ok worker rest w1 doc
              (StratsOwned-update w.strategies w.deployer a s' rest owned h))))

module _ (net : Network) (p : Parts) where
  -- The addresses and numbers of a row are there, and PancakeSwap has the pool.
  pub record IsRow (r : WorkerRow) : Type 0 where
    pub pid : ℕ
    pub facts : PoolFacts
    pub has_bot : r.reinvest_bot ≡ some p.bot
    pub has_base_token : r.base_token_addr ≡ some p.base_token
    pub has_vault_config : r.vault_config_addr ≡ some p.vault_config
    pub has_worker_config : r.worker_config_addr ≡ some p.worker_config
    pub has_vault : r.vault_addr ≡ some p.vault
    pub has_chef : r.master_chef_addr ≡ some p.chef
    pub has_router : r.pancakeswap_router_addr ≡ some p.router
    pub has_add : r.add_strat_addr ≡ some p.add
    pub has_liq : r.liq_strat_addr ≡ some p.liq
    pub has_strats : r.strats ≡ map some p.strats
    pub has_pid : r.pool_id ≡ pos pid
    pub pid_fits : pid < 2 ^ 256
    pub small_bounty : r.reinvest_bounty_bps ≤ 500
    pub work_factor_fits : r.work_factor < 2 ^ 64
    pub kill_factor_fits : r.kill_factor < 2 ^ 64
    pub max_price_diff_fits : r.max_price_diff < 2 ^ 64
    pub has_pool : HasPool net.pancake (params p pid r.reinvest_bounty_bps) facts

  module _ (r : WorkerRow) (row : IsRow r) where
    -- The worker after its deployment, and after its reinvestor and strategies are set.
    abbrev pub created : World → Worker
    created w = initial w.deployer (params p row.pid r.reinvest_bounty_bps) row.facts

    abbrev pub with_bot : Worker → Worker
    with_bot k = record k { ok_reinvestors = update k.ok_reinvestors p.bot true }

    abbrev pub with_strats : Worker → Worker
    with_strats k = record k { ok_strats = set_all p.strats true k.ok_strats }

    abbrev pub after_create : World → World
    after_create w = record w {
      workers = update w.workers (net.create w.nonce) (some (created w));
      nonce = w.nonce + 1;
    }

    pub create_worker-ok :
        (w : World) → create_worker net r w ≡ (ok (net.create w.nonce), after_create w)
    unfolding create_worker
    create_worker-ok w =
        let bounty_fits : r.reinvest_bounty_bps < 2 ^ 256 = omega (arith, row.small_bounty) in
        rw (row.has_pid, create_worker)
          (expect-go bad_argument r.vault_addr _ w row.has_vault (
            expect-go bad_argument r.base_token_addr _ w row.has_base_token (
              expect-go bad_argument r.master_chef_addr _ w row.has_chef (
                expect-go bad_argument r.pancakeswap_router_addr _ w row.has_router (
                  >>=-go (to_uint 256 (pos row.pid)) _ w (to_uint-ok 256 row.pid w row.pid_fits) (
                    expect-go bad_argument r.add_strat_addr _ w row.has_add (
                      expect-go bad_argument r.liq_strat_addr _ w row.has_liq (
                        >>=-go (to_uint 256 (pos r.reinvest_bounty_bps)) _ w
                          (to_uint-ok 256 r.reinvest_bounty_bps w bounty_fits)
                          (create_contract-ok net
                            (make_worker net (params p row.pid r.reinvest_bounty_bps)) w
                            (make_worker-ok net (params p row.pid r.reinvest_bounty_bps) row.facts
                              (net.create w.nonce) w row.has_pool row.small_bounty))))))))))

    -- The world after the reinvestor and the strategies of a worker are set.
    abbrev pub after_allow : ℕ → Worker → World → World
    after_allow worker k w =
        let m = update w.workers worker (some (with_bot k)) in
        let two = whitelisted worker (p.add ∷ p.liq ∷ []) w.strategies in
        record w {
          workers = update m worker (some (with_strats (with_bot k)));
          strategies = whitelisted worker p.strats two;
          nonce = count (count (w.nonce + 1 + 1) (p.add ∷ p.liq ∷ [])) p.strats;
        }

    pub allow_strats-ok :
        (worker : ℕ) (w : World) {k : Worker}
        → IsDocumented net.zeppelin
        → w.workers worker ≡ some k
        → k.owner ≡ w.deployer
        → StratsOwned w.strategies w.deployer (p.add ∷ p.liq ∷ [])
        → StratsOwned w.strategies w.deployer p.strats
        → allow_strats net r worker w ≡ (ok tt, after_allow worker k w)
    unfolding allow_strats
    allow_strats-ok worker w {k} doc there mine two more =
        let w1 : World = record w {
          workers = update w.workers worker (some (with_bot k));
          nonce = w.nonce + 1;
        } in
        let w2 : World = record w1 {
          workers = update w1.workers worker (some (with_strats (with_bot k)));
          nonce = w.nonce + 1 + 1;
        } in
        let w3 : World = record w2 {
          strategies = whitelisted worker (p.add ∷ p.liq ∷ []) w.strategies;
          nonce = count (w.nonce + 1 + 1) (p.add ∷ p.liq ∷ []);
        } in
        rw (row.has_strats, allow_strats)
          (rw (row.has_add, allow_strats)
            (rw (row.has_liq, allow_strats)
              (expect-go bad_argument r.reinvest_bot _ w row.has_bot (
                transact-go _ _ w (set_reinvestor_ok-ok net p.bot worker w doc there mine) (
                  >>=-go (to_addresses (map some p.strats)) _ w1 (to_addresses-ok p.strats w1) (
                    transact-go _ _ w1
                      (set_strategy_ok-ok net p.strats worker w1 doc
                        (update_here w.workers worker (some (with_bot k))) mine)
                      (>>=-go (allow_on_strats net worker (map some (p.add ∷ p.liq ∷ []))) _ w2
                        (allow_on_strats-ok net worker (p.add ∷ p.liq ∷ []) w2 doc two)
                        (allow_on_strats-ok net worker p.strats w3 doc (
                          StratsOwned-whitelisted worker (p.add ∷ p.liq ∷ []) w.strategies
                            w.deployer p.strats two more)))))))))

    -- The world after the configurations of a worker are set.
    abbrev pub after_configure : ℕ → WorkerConfig → BasicVaultConfig → World → World
    after_configure worker wc vc w = record w {
      worker_configs =
          update w.worker_configs p.worker_config
            (some (record wc { workers = update wc.workers worker (factors_of r) }));
      configs =
          update w.configs p.vault_config
            (some (record vc { workers = update vc.workers worker p.worker_config }));
      nonce = w.nonce + 1 + 1;
    }

    pub configure_worker-ok :
        (worker : ℕ) (w : World) {wc : WorkerConfig} {vc : BasicVaultConfig}
        → IsDocumented net.zeppelin
        → w.worker_configs p.worker_config ≡ some wc
        → wc.owner ≡ w.deployer
        → w.configs p.vault_config ≡ some vc
        → vc.owner ≡ w.deployer
        → configure_worker net r worker w ≡ (ok tt, after_configure worker wc vc w)
    unfolding configure_worker
    configure_worker-ok worker w {wc} {vc} doc wc_there wc_mine vc_there vc_mine =
        let w1 : World = record w {
          worker_configs =
              update w.worker_configs p.worker_config
                (some (record wc { workers = update wc.workers worker (factors_of r) }));
          nonce = w.nonce + 1;
        } in
        expect-go bad_argument r.worker_config_addr _ w row.has_worker_config (
          >>=-go (to_uint 64 (pos r.work_factor)) _ w
            (to_uint-ok 64 r.work_factor w row.work_factor_fits)
            (>>=-go (to_uint 64 (pos r.kill_factor)) _ w
              (to_uint-ok 64 r.kill_factor w row.kill_factor_fits)
              (>>=-go (to_uint 64 (pos r.max_price_diff)) _ w
                (to_uint-ok 64 r.max_price_diff w row.max_price_diff_fits)
                (transact-go _ _ w
                  (set_factors_at-ok net worker (factors_of r) p.worker_config w doc wc_there
                    wc_mine)
                  (expect-go bad_argument r.vault_config_addr _ w1 row.has_vault_config (
                    transact-ok (set_worker_at net worker p.worker_config p.vault_config) w1 (
                      set_worker_at-ok net worker p.worker_config p.vault_config w1 doc vc_there
                        vc_mine)))))))
