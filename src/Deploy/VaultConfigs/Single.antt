-- ===== src/Deploy/VaultConfigs/Single.antt =====
-- deploy/scripts/010-*: what one script leaves behind.
use huski_bsc_contract.Base.{
  ℕ, ◌+◌, ◌*◌, ◌^◌, ◌≡◌, ◌≤◌, refl, sym, ◌∙◌, ap, some, [], ◌∷◌, ◌++◌, arith, ok,
}
use huski_bsc_contract.Merkle.{lookup}
use huski_bsc_contract.Evm.{OpenZeppelin, IsDocumented, update, update_here}
use huski_bsc_contract.Contracts.{BasicVaultConfig, VaultParams, init_vault_config}
use huski_bsc_contract.Deploy.{
  VaultEntry, Config, World, Network, gets, modify, expect, bad_argument, config_of, set_config,
  write_config, create_contract,
}
use huski_bsc_contract.Deploy.Steps.{
  >>=-go, expect-some, create_contract-ok, config_of-set_config, write_config_lem,
}
use huski_bsc_contract.Deploy.VaultConfigs.{
  ConfigScript, new_vault_entry, make_vault_config, push_vault, deploy_vault_config,
}

-- The parameters that a script passes to `initialize`.
abbrev pub params_of : ℕ → ℕ → ℕ → ℕ → VaultParams
params_of model native relayer fair_launch = record {
  min_debt_size = 100 * 10 ^ 18;
  reserve_pool_bps = 1600;
  close_bps = 4;
  kill_bps = 500;
  interest_model = model;
  wrapped_native = native;
  wnative_relayer = relayer;
  fair_launch = fair_launch;
}

module _ (net : Network) where
  -- The four addresses that a script takes from the results file.
  pub record IsReady (s : ConfigScript) (w : World) (model native relayer fair_launch : ℕ)
      : Type 0 where
    pub has_model : s.interest_model (config_of net w) ≡ some model
    pub has_native : (config_of net w).native_address ≡ some native
    pub has_relayer : (config_of net w).wnative_relayer ≡ some relayer
    pub has_fair_launch : (config_of net w).fair_launch_address ≡ some fair_launch

  -- What a script leaves behind.
  pub record Deployed (s : ConfigScript) (w w' : World) (model native relayer fair_launch : ℕ)
      : Type 0 where
    pub contract : BasicVaultConfig
    pub at_address : w'.configs (net.create w.nonce) ≡ some contract
    pub owned : contract.owner ≡ w.deployer
    pub kill_bounded : contract.kill_bps ≤ contract.max_kill_bps
    pub model_set : contract.interest_model ≡ model
    pub native_set : contract.wrapped_native ≡ native
    pub relayer_set : contract.wnative_relayer ≡ relayer
    pub fair_launch_set : contract.fair_launch ≡ fair_launch
    pub listed :
        (config_of net w').vaults
        ≡ (config_of net w).vaults
          ++ new_vault_entry s.symbol (net.create w.nonce) (s.interest_model (config_of net w)) ∷ []
    pub written : lookup net.name w'.disk ≡ some (config_of net w')
    pub next_nonce : w'.nonce ≡ w.nonce + 1
    pub rest_kept :
        config_of net w' ≡ record (config_of net w) { vaults = (config_of net w').vaults }

  init_ok :
      (z : OpenZeppelin) (sender model native relayer fair_launch : ℕ)
      → IsDocumented z
      → (c : BasicVaultConfig) × (init_vault_config z sender
            (params_of model native relayer fair_launch)
          ≡ ok c)
        × (c.owner ≡ sender)
        × (c.kill_bps ≤ c.max_kill_bps)
        × (c.interest_model ≡ model)
        × (c.wrapped_native ≡ native)
        × (c.wnative_relayer ≡ relayer)
        × (c.fair_launch ≡ fair_launch)
  unfolding init_vault_config
  init_ok z sender model native relayer fair_launch doc = (
    record {
      owner = sender;
      min_debt_size = 100 * 10 ^ 18;
      reserve_pool_bps = 1600;
      close_bps = 4;
      kill_bps = 500;
      workers = λ _. 0;
      interest_model = model;
      wrapped_native = native;
      wnative_relayer = relayer;
      fair_launch = fair_launch;
      max_kill_bps = 500;
    },
    rw (doc.owner_passes sender) refl,
    refl,
    omega arith,
    refl,
    refl,
    refl,
    refl,
  )

  -- The world after a script that has created the contract `c`.
  after : ConfigScript → World → BasicVaultConfig → World
  after s w c = write_config net (
      push_vault net
        (new_vault_entry s.symbol (net.create w.nonce) (s.interest_model (config_of net w)))
        (record w {
          configs = update w.configs (net.create w.nonce) (some c);
          nonce = w.nonce + 1;
        }))

  made_in :
      (w : World) (p : VaultParams) (c : BasicVaultConfig)
      → init_vault_config net.zeppelin w.deployer p ≡ ok c
      → make_vault_config net p (net.create w.nonce) w
        ≡ ok (record w { configs = update w.configs (net.create w.nonce) (some c) })
  unfolding make_vault_config
  made_in w p c h = rw h refl

  deploy_vault_config-after :
      (s : ConfigScript) (w : World) (model native relayer fair_launch : ℕ) (c : BasicVaultConfig)
      → IsReady s w model native relayer fair_launch
      → init_vault_config net.zeppelin w.deployer (params_of model native relayer fair_launch)
        ≡ ok c
      → deploy_vault_config net s w ≡ (ok tt, after s w c)
  unfolding deploy_vault_config after
  deploy_vault_config-after s w model native relayer fair_launch c r made =
      >>=-go (gets (config_of net)) _ w refl (
        >>=-go (expect bad_argument (s.interest_model (config_of net w))) _ w
          (expect-some bad_argument (s.interest_model (config_of net w)) w r.has_model)
          (>>=-go (expect bad_argument (config_of net w).native_address) _ w
            (expect-some bad_argument (config_of net w).native_address w r.has_native)
            (>>=-go (expect bad_argument (config_of net w).wnative_relayer) _ w
              (expect-some bad_argument (config_of net w).wnative_relayer w r.has_relayer)
              (>>=-go (expect bad_argument (config_of net w).fair_launch_address) _ w
                (expect-some bad_argument (config_of net w).fair_launch_address w r.has_fair_launch)
                (>>=-go
                  (create_contract net
                    (make_vault_config net (params_of model native relayer fair_launch)))
                  _ w
                  (create_contract-ok net
                    (make_vault_config net (params_of model native relayer fair_launch)) w
                    (made_in w (params_of model native relayer fair_launch) c made))
                  (>>=-go
                    (modify (
                      push_vault net (
                        new_vault_entry s.symbol (net.create w.nonce)
                          (s.interest_model (config_of net w)))))
                    _ _ refl refl))))))

  push_vault_lem :
      (e : VaultEntry) (w : World)
      → (config_of net (push_vault net e w)
          ≡ record (config_of net w) { vaults = (config_of net w).vaults ++ e ∷ [] })
        × ((push_vault net e w).configs ≡ w.configs)
        × ((push_vault net e w).nonce ≡ w.nonce)
  unfolding push_vault set_config
  push_vault_lem e w = (
    config_of-set_config net
        (record (config_of net w) { vaults = (config_of net w).vaults ++ e ∷ [] }) w,
    ground arith,
    ground arith,
  )

  record_config :
      (w : World) (a : ℕ) (c : BasicVaultConfig)
      → config_of net (record w { configs = update w.configs a (some c); nonce = w.nonce + 1 })
        ≡ config_of net w
  unfolding config_of
  record_config w a c = refl

  write_config-world :
      (w : World)
      → ((write_config net w).configs ≡ w.configs) × ((write_config net w).nonce ≡ w.nonce)
  unfolding write_config
  write_config-world w = (refl, refl)

  after-Deployed :
      (s : ConfigScript) (w : World) (c : BasicVaultConfig) (model native relayer fair_launch : ℕ)
      → (c.owner ≡ w.deployer)
        × (c.kill_bps ≤ c.max_kill_bps)
        × (c.interest_model ≡ model)
        × (c.wrapped_native ≡ native)
        × (c.wnative_relayer ≡ relayer)
        × (c.fair_launch ≡ fair_launch)
      → Deployed s w (after s w c) model native relayer fair_launch
  unfolding after
  after-Deployed s w c model native relayer fair_launch (owned, bounded, m, n, l, f) =
      let entry =
        new_vault_entry s.symbol (net.create w.nonce) (s.interest_model (config_of net w)) in
      let created : World = record w {
        configs = update w.configs (net.create w.nonce) (some c);
        nonce = w.nonce + 1;
      } in
      let (pushed, same_configs, same_nonce) = push_vault_lem entry created in
      let (on_disk, kept) = write_config_lem net (push_vault net entry created) in
      let (w_configs, w_nonce) = write_config-world (push_vault net entry created) in
      let whole =
        kept
        ∙ pushed
        ∙ ap (λ (k : Config). record k { vaults = k.vaults ++ entry ∷ [] })
            (record_config w (net.create w.nonce) c) in
      record {
        contract = c;
        at_address =
            ap (λ m. m (net.create w.nonce)) (w_configs ∙ same_configs)
            ∙ update_here w.configs (net.create w.nonce) (some c);
        owned = owned;
        kill_bounded = bounded;
        model_set = m;
        native_set = n;
        relayer_set = l;
        fair_launch_set = f;
        listed = ap (λ k. k.vaults) whole;
        written = on_disk ∙ ap some (sym kept);
        next_nonce = w_nonce ∙ same_nonce;
        rest_kept =
            whole
            ∙ ap (λ l. record (config_of net w) { vaults = l }) (sym (ap (λ k. k.vaults) whole));
      }

  -- A script that finds its four addresses in the results file goes through, with OpenZeppelin's
  -- `onlyOwner` as documented: it leaves a contract at the address of the creation that the
  -- deployer owns, within its kill bound, with the four addresses in it; the results file on disk
  -- is the config, which has one more vault, last, and is the same otherwise.
  pub deploy_vault_config-Deployed :
      (s : ConfigScript) (w : World) (model native relayer fair_launch : ℕ)
      → IsDocumented net.zeppelin
      → IsReady s w model native relayer fair_launch
      → (w' : World) × (deploy_vault_config net s w ≡ (ok tt, w'))
        × Deployed s w w' model native relayer fair_launch
  unfolding after
  deploy_vault_config-Deployed s w model native relayer fair_launch doc r =
      let (c, made, owned, bounded, m, n, l, f) =
        init_ok net.zeppelin w.deployer model native relayer fair_launch doc in
      (
        after s w c,
        deploy_vault_config-after s w model native relayer fair_launch c r made,
        after-Deployed s w c model native relayer fair_launch (owned, bounded, m, n, l, f),
      )
