-- ===== src/Deploy/Workers/Rounded.antt =====
-- deploy/scripts/014-*: what a whole round does.
use huski_bsc_contract.Base.{
  ℕ, ◌+◌, ◌≡◌, ◌≤◌, ◌<◌, ◌⊎◌, inl, inr, refl, ◌∙◌, ap, sym, some, List, [], ◌∷◌, arith, get_elem?,
  ok,
}
use huski_bsc_contract.Merkle.{lookup}
use huski_bsc_contract.Evm.{IsDocumented, update, update_here, update_other}
use huski_bsc_contract.Contracts.{BasicVaultConfig}
use huski_bsc_contract.Workers.{WorkerConfig, new_worker}
use huski_bsc_contract.Deploy.{VaultEntry, World, Network, config_of}
use huski_bsc_contract.Deploy.Steps.{>>=-go}
use huski_bsc_contract.Deploy.Chain.{SameChain, SameChain-refl}
use huski_bsc_contract.Deploy.Workers.{
  WorkerRow, WriteOrder, WorkerScript, at_once, last, after_loop, create_worker, allow_strats,
  configure_worker, worker_entry, before_links, after_links, deploy_worker,
}
use huski_bsc_contract.Deploy.Workers.Calls.{}
use huski_bsc_contract.Deploy.Workers.Round.{
  Parts, IsRow, StratsOwned, whitelisted, count, factors_of, created, with_bot, with_strats,
  after_create, after_allow, after_configure, create_worker-ok, allow_strats-ok,
  configure_worker-ok,
}
use huski_bsc_contract.Deploy.Workers.Publish.{
  with_workers, push_worker-Published, push_and_write-Published,
}

le_count : (n : ℕ) (l : List ℕ) → n ≤ count n l
unfolding count
le_count n [] = omega arith
le_count n (a ∷ l) = omega (arith, le_count (n + 1) l)

-- The contracts that the rows name are on the chain, and the deployer owns them.
pub record IsOwned (p : Parts) (w : World) : Type 0 where
  pub wc : WorkerConfig
  pub vc : BasicVaultConfig
  pub wc_there : w.worker_configs p.worker_config ≡ some wc
  pub wc_mine : wc.owner ≡ w.deployer
  pub vc_there : w.configs p.vault_config ≡ some vc
  pub vc_mine : vc.owner ≡ w.deployer
  pub two : StratsOwned w.strategies w.deployer (p.add ∷ p.liq ∷ [])
  pub more : StratsOwned w.strategies w.deployer p.strats

module _ (net : Network) (p : Parts) where
  -- What a round does to the contracts.
  pub record Rounded (r : WorkerRow) (row : IsRow net p r) (w : World) (o : IsOwned p w)
      (w' : World) : Type 0 where
    pub deployer_kept : w'.deployer ≡ w.deployer
    pub later : w.nonce < w'.nonce
    pub worker_new :
        w'.workers (net.create w.nonce)
        ≡ some (with_strats net p r row (with_bot net p r row (created net p r row w)))
    pub workers_kept : (a : ℕ) → ¬ (net.create w.nonce ≡ a) → w'.workers a ≡ w.workers a
    pub strategies_set :
        w'.strategies
        ≡ whitelisted
            (net.create w.nonce)
            p.strats
            (whitelisted (net.create w.nonce) (p.add ∷ p.liq ∷ []) w.strategies)
    pub factors_set :
        w'.worker_configs
        ≡ update w.worker_configs p.worker_config (
            some
              (record o.wc { workers = update o.wc.workers (net.create w.nonce) (factors_of r) }))
    pub configs_set :
        w'.configs
        ≡ update w.configs p.vault_config (
            some
              (record o.vc { workers = update o.vc.workers (net.create w.nonce) p.worker_config }))

  module _ (r : WorkerRow) (row : IsRow net p r) (w : World) (o : IsOwned p w) where
    -- The world of the links, from a world in which the worker is created.
    abbrev linked : World → World
    linked w1 =
        after_configure net p r row (net.create w.nonce) o.wc o.vc
          (after_allow net p r row (net.create w.nonce) (created net p r row w) w1)

    linked-Rounded :
        (w1 w4 : World)
        → SameChain (after_create net p r row w) w1
        → SameChain (linked w1) w4
        → Rounded r row w o w4
    linked-Rounded w1 w4 before behind =
        let a = net.create w.nonce in
        let k = created net p r row w in
        let k1 = with_bot net p r row k in
        let two = p.add ∷ p.liq ∷ [] in
        record {
          deployer_kept = behind.same_deployer ∙ before.same_deployer;
          later = omega (
            arith,
            behind.same_nonce,
            before.same_nonce,
            le_count (w1.nonce + 1 + 1) two,
            le_count (count (w1.nonce + 1 + 1) two) p.strats,
          );
          worker_new =
              ap (λ m. m a) behind.same_workers
              ∙ update_here (update w1.workers a (some k1)) a (some (with_strats net p r row k1));
          workers_kept = λ b h.
              ap (λ m. m b) behind.same_workers
              ∙ update_other (update w1.workers a (some k1)) a b (some (with_strats net p r row k1))
                  h
              ∙ update_other w1.workers a b (some k1) h
              ∙ ap (λ m. m b) before.same_workers
              ∙ update_other w.workers a b (some k) h;
          strategies_set =
              behind.same_strategies
              ∙ ap (λ m. whitelisted a p.strats (whitelisted a two m)) before.same_strategies;
          factors_set =
              behind.same_worker_configs
              ∙ ap
                  (λ m.
                    update m p.worker_config
                      (some (record o.wc { workers = update o.wc.workers a (factors_of r) })))
                  before.same_worker_configs;
          configs_set =
              behind.same_configs
              ∙ ap
                  (λ m.
                    update m p.vault_config
                      (some (record o.vc { workers = update o.vc.workers a p.worker_config })))
                  before.same_configs;
        }

    StratsOwned-SameChain :
        (w1 : World) (l : List ℕ)
        → SameChain (after_create net p r row w) w1
        → StratsOwned w.strategies w.deployer l
        → StratsOwned w1.strategies w1.deployer l
    StratsOwned-SameChain w1 l c h = rw c.same_strategies (rw c.same_deployer h)

    deploy_worker-ran :
        (s : WorkerScript) (w1 w4 : World)
        → IsDocumented net.zeppelin
        → before_links net s r (net.create w.nonce) (after_create net p r row w) ≡ (ok tt, w1)
        → SameChain (after_create net p r row w) w1
        → after_links net s r (net.create w.nonce) (linked w1) ≡ (ok tt, w4)
        → deploy_worker net s r w ≡ (ok tt, w4)
    unfolding deploy_worker new_worker
    deploy_worker-ran s w1 w4 doc published c behind =
        let a = net.create w.nonce in
        let k = created net p r row w in
        >>=-go (create_worker net r) _ w (create_worker-ok net p r row w) (
          >>=-go (before_links net s r a) _ (after_create net p r row w) published (
            >>=-go (allow_strats net r a) _ w1
              (allow_strats-ok net p r row a w1 doc
                (ap (λ m. m a) c.same_workers ∙ update_here w.workers a (some k))
                (sym c.same_deployer) (StratsOwned-SameChain w1 (p.add ∷ p.liq ∷ []) c o.two)
                (StratsOwned-SameChain w1 p.strats c o.more))
              (>>=-go (configure_worker net r a) _ _
                (configure_worker-ok net p r row a _ doc
                  (ap (λ m. m p.worker_config) c.same_worker_configs ∙ o.wc_there)
                  (o.wc_mine ∙ sym c.same_deployer)
                  (ap (λ m. m p.vault_config) c.same_configs ∙ o.vc_there)
                  (o.vc_mine ∙ sym c.same_deployer))
                behind)))

    -- What a round does, and that it goes through.
    pub record Ran (s : WorkerScript) (entry : VaultEntry) (w' : World) : Type 0 where
      pub ran : deploy_worker net s r w ≡ (ok tt, w')
      pub rounded : Rounded r row w o w'
      pub listed :
          config_of net w'
          ≡ with_workers s.vault_index entry
              (worker_entry net r (net.create w.nonce) ∷ [])
              (config_of net w)
      pub written : (s.order ≡ after_loop) ⊎ (lookup net.name w'.disk ≡ some (config_of net w'))

    pub deploy_worker-Ran :
        (s : WorkerScript) {entry : VaultEntry}
        → IsDocumented net.zeppelin
        → get_elem? (config_of net w).vaults s.vault_index ≡ some entry
        → (w' : World) × Ran s entry w'
    unfolding before_links after_links config_of
    deploy_worker-Ran s {entry} doc has_entry = by_order s.order refl
      where
        by_order : (order : WriteOrder) → s.order ≡ order → (w' : World) × Ran s entry w'
        by_order at_once is =
            let (w1, ran, d, on_disk) =
              push_and_write-Published net s.vault_index (worker_entry net r (net.create w.nonce))
                (after_create net p r row w) has_entry in
            (
              linked w1,
              record {
                ran = deploy_worker-ran s w1 (linked w1) doc (rw is ran) d.chain (rw is refl);
                rounded = linked-Rounded w1 (linked w1) d.chain (SameChain-refl (linked w1));
                listed = d.published;
                written = inr on_disk;
              },
            )
        by_order last is =
            let (w4, ran, d, on_disk) =
              push_and_write-Published net s.vault_index (worker_entry net r (net.create w.nonce))
                (linked (after_create net p r row w)) has_entry in
            (
              w4,
              record {
                ran =
                    deploy_worker-ran s (after_create net p r row w) w4 doc (rw is refl)
                      (SameChain-refl (after_create net p r row w)) (rw is ran);
                rounded =
                    linked-Rounded (after_create net p r row w) w4
                      (SameChain-refl (after_create net p r row w)) d.chain;
                listed = d.published;
                written = inr on_disk;
              },
            )
        by_order after_loop is =
            let (w4, ran, d) =
              push_worker-Published net s.vault_index (worker_entry net r (net.create w.nonce))
                (linked (after_create net p r row w)) has_entry in
            (
              w4,
              record {
                ran =
                    deploy_worker-ran s (after_create net p r row w) w4 doc (rw is refl)
                      (SameChain-refl (after_create net p r row w)) (rw is ran);
                rounded =
                    linked-Rounded (after_create net p r row w) w4
                      (SameChain-refl (after_create net p r row w)) d.chain;
                listed = d.published;
                written = inl is;
              },
            )
