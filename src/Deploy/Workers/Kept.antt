-- ===== src/Deploy/Workers/Kept.antt =====
-- deploy/scripts/014-*: a linked worker, and that the rounds of other workers leave it linked.
use huski_bsc_contract.Base.{
  ℕ, ◌≡◌, refl, ◌∙◌, ap, sym, subst, Bool, true, Option, none, some, List, [], ◌∷◌, ◌==◌,
  Bool-cases, inl, inr, eq_of_test, pos,
}
use huski_bsc_contract.Evm.{update, update_here, update_other}
use huski_bsc_contract.Contracts.{BasicVaultConfig, set_all}
use huski_bsc_contract.Workers.{Worker, Strategy, WorkerConfig, new_worker}
use huski_bsc_contract.Deploy.{World, Network}
use huski_bsc_contract.Deploy.Steps.{set_here}
use huski_bsc_contract.Deploy.Workers.{WorkerRow}
use huski_bsc_contract.Deploy.Workers.Calls.{serving}
use huski_bsc_contract.Deploy.Workers.Round.{
  Parts, IsRow, StratsOwned, whitelisted, factors_of, created, with_bot, with_strats,
  StratsOwned-update, StratsOwned-whitelisted,
}
use huski_bsc_contract.Deploy.Workers.Rounded.{IsOwned, Rounded}

-- Every address of the list is in the mapping.
pub AllOk : (ℕ → Bool) → List ℕ → Type 0
AllOk f [] = Unit {0}
AllOk f (a ∷ rest) = (f a ≡ true) × AllOk f rest

-- The strategy at an address serves a worker.
pub Serves : (ℕ → Option Strategy) → ℕ → ℕ → Type 0
Serves m worker a = (s : Strategy) × (m a ≡ some s) × (s.ok_workers worker ≡ true)

pub AllServe : (ℕ → Option Strategy) → ℕ → List ℕ → Type 0
AllServe m worker [] = Unit {0}
AllServe m worker (a ∷ rest) = Serves m worker a × AllServe m worker rest

update-eq_true : (f : ℕ → Bool) (a b : ℕ) → f b ≡ true → update f a true b ≡ true
update-eq_true f a b h = elim (Bool-cases (a == b)) [
  | inl same ↦ rw same refl
  | inr other ↦ rw other h
]

set_all-eq_true : (l : List ℕ) (f : ℕ → Bool) (b : ℕ) → f b ≡ true → set_all l true f b ≡ true
unfolding set_all
set_all-eq_true [] f b h = h
set_all-eq_true (a ∷ rest) f b h = set_all-eq_true rest (update f a true) b (update-eq_true f a b h)

pub set_all-AllOk : (l : List ℕ) (f : ℕ → Bool) → AllOk (set_all l true f) l
unfolding set_all AllOk
set_all-AllOk [] f = tt
set_all-AllOk (a ∷ rest) f =
    (set_all-eq_true rest (update f a true) a (update_here f a true), set_all-AllOk rest _)

Serves-update :
    (m : ℕ → Option Strategy) (worker other a b : ℕ) (s : Strategy)
    → m a ≡ some s
    → Serves m other b
    → Serves (update m a (some (serving worker s))) other b
unfolding Serves
Serves-update m worker other a b s here (t, there, ok_t) = elim (Bool-cases (a == b)) [
  | inl same ↦
      let st : some s ≡ some t = sym here ∙ ap m (eq_of_test a b same) ∙ there in
      let kept : s.ok_workers other ≡ true =
        ap (λ o. elim o [ some x ↦ x.ok_workers other | none ↦ true ]) st ∙ ok_t in
      (serving worker s, rw same refl, update-eq_true s.ok_workers worker other kept)
  | inr apart ↦ (t, rw apart there, ok_t)
]

Serves-whitelisted :
    (worker : ℕ) (l : List ℕ) (m : ℕ → Option Strategy) (deployer other b : ℕ)
    → StratsOwned m deployer l
    → Serves m other b
    → Serves (whitelisted worker l m) other b
unfolding whitelisted StratsOwned
Serves-whitelisted worker [] m deployer other b h k = k
Serves-whitelisted worker (a ∷ rest) m deployer other b ((s, there, owned), h) k = rw there (
    Serves-whitelisted worker rest (update m a (some (serving worker s))) deployer other b
      (StratsOwned-update m deployer a (serving worker s) rest owned h)
      (Serves-update m worker other a b s there k))

AllServe-whitelisted :
    (worker : ℕ) (l : List ℕ) (m : ℕ → Option Strategy) (deployer other : ℕ) (l' : List ℕ)
    → StratsOwned m deployer l
    → AllServe m other l'
    → AllServe (whitelisted worker l m) other l'
unfolding AllServe
AllServe-whitelisted worker l m deployer other [] h k = tt
AllServe-whitelisted worker l m deployer other (b ∷ rest) h (k, more) = (
  Serves-whitelisted worker l m deployer other b h k,
  AllServe-whitelisted worker l m deployer other rest h more,
)

whitelisted-cons :
    (worker a : ℕ) (rest : List ℕ) (m : ℕ → Option Strategy) {s : Strategy}
    → m a ≡ some s
    → whitelisted worker (a ∷ rest) m
      ≡ whitelisted worker rest (update m a (some (serving worker s)))
unfolding whitelisted
whitelisted-cons worker a rest m there = rw there refl

whitelisted-AllServe :
    (worker : ℕ) (l : List ℕ) (m : ℕ → Option Strategy) (deployer : ℕ)
    → StratsOwned m deployer l
    → AllServe (whitelisted worker l m) worker l
unfolding StratsOwned AllServe Serves
whitelisted-AllServe worker [] m deployer h = tt
whitelisted-AllServe worker (a ∷ rest) m deployer ((s, there, owned), h) =
    let s' = serving worker s in
    let still = StratsOwned-update m deployer a s' rest owned h in
    let here =
      Serves-whitelisted worker rest (update m a (some s')) deployer worker a still
        (s', update_here m a (some s'), update_here s.ok_workers worker true) in
    let behind = whitelisted-AllServe worker rest (update m a (some s')) deployer still in
    let step = whitelisted-cons worker a rest m there in
    (rw step here, subst (λ x. AllServe x worker rest) (sym step) behind)

module _ (net : Network) (p : Parts) where
  -- A worker is linked: it belongs to the vault and its pool, takes the bot and the strategies of
  -- its row, all of which serve it, has the factors of its row in the worker configuration, and
  -- that is its configuration for the vault.
  pub record IsLinked (r : WorkerRow) (a : ℕ) (w : World) : Type 0 where
    pub worker : Worker
    pub worker_there : w.workers a ≡ some worker
    pub operated : worker.operator ≡ p.vault
    pub based : worker.base_token ≡ p.base_token
    pub pooled : pos worker.pid ≡ r.pool_id
    pub takes_bot : worker.ok_reinvestors p.bot ≡ true
    pub takes_strats : AllOk worker.ok_strats p.strats
    pub two_serve : AllServe w.strategies a (p.add ∷ p.liq ∷ [])
    pub strats_serve : AllServe w.strategies a p.strats
    pub factors_kept :
        (c : WorkerConfig) × (w.worker_configs p.worker_config ≡ some c)
        × (c.workers a ≡ factors_of r)
    pub config_kept :
        (c : BasicVaultConfig) × (w.configs p.vault_config ≡ some c)
        × (c.workers a ≡ p.worker_config)

  pub Rounded-IsOwned :
      (r : WorkerRow) (row : IsRow net p r) (w w' : World) (o : IsOwned p w)
      → Rounded net p r row w o w'
      → IsOwned p w'
  Rounded-IsOwned r row w w' o d =
      let a = net.create w.nonce in
      let two = p.add ∷ p.liq ∷ [] in
      let after_two = StratsOwned-whitelisted a two w.strategies w.deployer p.strats o.two o.more in
      record {
        wc = record o.wc { workers = update o.wc.workers a (factors_of r) };
        vc = record o.vc { workers = update o.vc.workers a p.worker_config };
        wc_there = set_here w.worker_configs p.worker_config _ d.factors_set;
        wc_mine = o.wc_mine ∙ sym d.deployer_kept;
        vc_there = set_here w.configs p.vault_config _ d.configs_set;
        vc_mine = o.vc_mine ∙ sym d.deployer_kept;
        two = rw d.strategies_set (
            rw d.deployer_kept (
              StratsOwned-whitelisted a p.strats (whitelisted a two w.strategies) w.deployer two
                after_two (StratsOwned-whitelisted a two w.strategies w.deployer two o.two o.two)));
        more = rw d.strategies_set (
            rw d.deployer_kept (
              StratsOwned-whitelisted a p.strats (whitelisted a two w.strategies) w.deployer
                p.strats after_two after_two));
      }

  pub Rounded-IsLinked :
      (r : WorkerRow) (row : IsRow net p r) (w w' : World) (o : IsOwned p w)
      → Rounded net p r row w o w'
      → IsLinked r (net.create w.nonce) w'
  unfolding new_worker
  Rounded-IsLinked r row w w' o d =
      let a = net.create w.nonce in
      let two = p.add ∷ p.liq ∷ [] in
      let after_two = StratsOwned-whitelisted a two w.strategies w.deployer p.strats o.two o.more in
      record {
        worker = with_strats net p r row (with_bot net p r row (created net p r row w));
        worker_there = d.worker_new;
        operated = refl;
        based = refl;
        pooled = sym row.has_pid;
        takes_bot = update_here (created net p r row w).ok_reinvestors p.bot true;
        takes_strats = set_all-AllOk p.strats _;
        two_serve = rw d.strategies_set (
            AllServe-whitelisted a p.strats (whitelisted a two w.strategies) w.deployer a two
              after_two (whitelisted-AllServe a two w.strategies w.deployer o.two));
        strats_serve =
            rw d.strategies_set (
              whitelisted-AllServe a p.strats (whitelisted a two w.strategies) w.deployer
                after_two);
        factors_kept = (
          record o.wc { workers = update o.wc.workers a (factors_of r) },
          set_here w.worker_configs p.worker_config _ d.factors_set,
          update_here o.wc.workers a (factors_of r),
        );
        config_kept = (
          record o.vc { workers = update o.vc.workers a p.worker_config },
          set_here w.configs p.vault_config _ d.configs_set,
          update_here o.vc.workers a p.worker_config,
        );
      }

  -- A round leaves the other workers linked.
  pub Rounded-IsLinked_other :
      (r : WorkerRow) (row : IsRow net p r) (w w' : World) (o : IsOwned p w) (q : WorkerRow) (b : ℕ)
      → Rounded net p r row w o w'
      → ¬ (net.create w.nonce ≡ b)
      → IsLinked q b w
      → IsLinked q b w'
  Rounded-IsLinked_other r row w w' o q b d apart k =
      let a = net.create w.nonce in
      let two = p.add ∷ p.liq ∷ [] in
      let after_two = StratsOwned-whitelisted a two w.strategies w.deployer p.strats o.two o.more in
      let (wc, wc_there, has_factors) = k.factors_kept in
      let (vc, vc_there, has_config) = k.config_kept in
      let same_wc : o.wc.workers b ≡ wc.workers b =
        ap (λ x. elim x [ some c ↦ c.workers b | none ↦ wc.workers b ])
          (sym o.wc_there ∙ wc_there) in
      let same_vc : o.vc.workers b ≡ vc.workers b =
        ap (λ x. elim x [ some c ↦ c.workers b | none ↦ vc.workers b ])
          (sym o.vc_there ∙ vc_there) in
      record {
        worker = k.worker;
        worker_there = d.workers_kept b apart ∙ k.worker_there;
        operated = k.operated;
        based = k.based;
        pooled = k.pooled;
        takes_bot = k.takes_bot;
        takes_strats = k.takes_strats;
        two_serve = rw d.strategies_set (
            AllServe-whitelisted a p.strats (whitelisted a two w.strategies) w.deployer b two
              after_two
              (AllServe-whitelisted a two w.strategies w.deployer b two o.two k.two_serve));
        strats_serve = rw d.strategies_set (
            AllServe-whitelisted a p.strats (whitelisted a two w.strategies) w.deployer b p.strats
              after_two
              (AllServe-whitelisted a two w.strategies w.deployer b p.strats o.two k.strats_serve));
        factors_kept = (
          record o.wc { workers = update o.wc.workers a (factors_of r) },
          set_here w.worker_configs p.worker_config _ d.factors_set,
          update_other o.wc.workers a b (factors_of r) apart ∙ same_wc ∙ has_factors,
        );
        config_kept = (
          record o.vc { workers = update o.vc.workers a p.worker_config },
          set_here w.configs p.vault_config _ d.configs_set,
          update_other o.vc.workers a b p.worker_config apart ∙ same_vc ∙ has_config,
        );
      }
