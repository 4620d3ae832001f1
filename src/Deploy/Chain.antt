-- ===== src/Deploy/Chain.antt =====
-- The scripts under deploy/: the steps that only touch the results files.
use huski_bsc_contract.Base.{◌≡◌, refl, ◌∙◌}
use huski_bsc_contract.Deploy.{Config, World, Network, set_config, write_config}

-- Two worlds with the same contracts.
pub record SameChain (w w' : World) : Type 0 where
  pub same_configs : w'.configs ≡ w.configs
  pub same_debts : w'.debts ≡ w.debts
  pub same_vaults : w'.vaults ≡ w.vaults
  pub same_fair_launches : w'.fair_launches ≡ w.fair_launches
  pub same_relayers : w'.relayers ≡ w.relayers
  pub same_workers : w'.workers ≡ w.workers
  pub same_strategies : w'.strategies ≡ w.strategies
  pub same_worker_configs : w'.worker_configs ≡ w.worker_configs
  pub same_nonce : w'.nonce ≡ w.nonce
  pub same_deployer : w'.deployer ≡ w.deployer
  pub same_queued : w'.queued ≡ w.queued

pub SameChain-refl : (w : World) → SameChain w w
SameChain-refl w = record {
  same_configs = refl;
  same_debts = refl;
  same_vaults = refl;
  same_fair_launches = refl;
  same_relayers = refl;
  same_workers = refl;
  same_strategies = refl;
  same_worker_configs = refl;
  same_nonce = refl;
  same_deployer = refl;
  same_queued = refl;
}

pub SameChain-trans : {w w1 w2 : World} → SameChain w w1 → SameChain w1 w2 → SameChain w w2
SameChain-trans a b = record {
  same_configs = b.same_configs ∙ a.same_configs;
  same_debts = b.same_debts ∙ a.same_debts;
  same_vaults = b.same_vaults ∙ a.same_vaults;
  same_fair_launches = b.same_fair_launches ∙ a.same_fair_launches;
  same_relayers = b.same_relayers ∙ a.same_relayers;
  same_workers = b.same_workers ∙ a.same_workers;
  same_strategies = b.same_strategies ∙ a.same_strategies;
  same_worker_configs = b.same_worker_configs ∙ a.same_worker_configs;
  same_nonce = b.same_nonce ∙ a.same_nonce;
  same_deployer = b.same_deployer ∙ a.same_deployer;
  same_queued = b.same_queued ∙ a.same_queued;
}

module _ (net : Network) where
  pub set_config-SameChain : (c : Config) (w : World) → SameChain w (set_config net c w)
  unfolding set_config
  set_config-SameChain c w = record {
    same_configs = refl;
    same_debts = refl;
    same_vaults = refl;
    same_fair_launches = refl;
    same_relayers = refl;
    same_workers = refl;
    same_strategies = refl;
    same_worker_configs = refl;
    same_nonce = refl;
    same_deployer = refl;
    same_queued = refl;
  }

  pub write_config-SameChain : (w : World) → SameChain w (write_config net w)
  unfolding write_config
  write_config-SameChain w = record {
    same_configs = refl;
    same_debts = refl;
    same_vaults = refl;
    same_fair_launches = refl;
    same_relayers = refl;
    same_workers = refl;
    same_strategies = refl;
    same_worker_configs = refl;
    same_nonce = refl;
    same_deployer = refl;
    same_queued = refl;
  }
