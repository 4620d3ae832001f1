-- ===== src/Deploy/VaultConfigs/Series.antt =====
-- deploy/scripts/010-*: the eight scripts in a row.
use huski_bsc_contract.Base.{
  ℕ, ◌≡◌, ◌⊎◌, inl, inr, refl, sym, ◌∙◌, ap, some, List, [], ◌∷◌, ◌++◌, append_assoc, append-nil,
  Bytes, ok,
}
use huski_bsc_contract.Merkle.{}
use huski_bsc_contract.Evm.{IsDocumented}
use huski_bsc_contract.Contracts.{}
use huski_bsc_contract.Deploy.{text, VaultEntry, Config, World, Network, Script, config_of}
use huski_bsc_contract.Deploy.Steps.{>>=-go}
use huski_bsc_contract.Deploy.VaultConfigs.{
  ConfigScript, new_vault_entry, deploy_vault_config, ib_huski_config, ib_busd_config,
  ib_bnb_config, ib_usdt_config, ib_cake_config, ib_eth_config, ib_btcb_config, ib_usdc_config,
  high_interest, low_interest, run_scripts, all_vault_configs,
}
use huski_bsc_contract.Deploy.VaultConfigs.Single.{deploy_vault_config-Deployed}

pub symbols : List VaultEntry → List Bytes
symbols [] = []
symbols (v ∷ vaults) = v.symbol ∷ symbols vaults

pub symbols-append : (l r : List VaultEntry) → symbols (l ++ r) ≡ symbols l ++ symbols r
unfolding symbols
symbols-append [] r = refl
symbols-append (v ∷ l) r = ap (◌∷◌ v.symbol) (symbols-append l r)

module _ (net : Network) where
  -- The addresses that the eight scripts take from the results file are there.
  pub record IsStocked (w : World) : Type 0 where
    pub native : ℕ
    pub relayer : ℕ
    pub fair_launch : ℕ
    pub high : ℕ
    pub low : ℕ
    pub has_native : (config_of net w).native_address ≡ some native
    pub has_relayer : (config_of net w).wnative_relayer ≡ some relayer
    pub has_fair_launch : (config_of net w).fair_launch_address ≡ some fair_launch
    pub has_high : (config_of net w).high_interest_triple_slope_model ≡ some high
    pub has_low : (config_of net w).low_interest_triple_slope_model ≡ some low

  -- The interest model of a script is one of the two of the results file.
  IsShared : ConfigScript → Type 0
  IsShared s =
      ((c : Config) → s.interest_model c ≡ c.high_interest_triple_slope_model)
      ⊎ ((c : Config) → s.interest_model c ≡ c.low_interest_triple_slope_model)

  model_found :
      (s : ConfigScript) (w : World)
      → IsShared s
      → IsStocked w
      → (model : ℕ) × (s.interest_model (config_of net w) ≡ some model)
  unfolding IsShared
  model_found s w (inl h) k = (k.high, h (config_of net w) ∙ k.has_high)
  model_found s w (inr h) k = (k.low, h (config_of net w) ∙ k.has_low)

  IsStocked-after :
      (w w' : World) (vaults : List VaultEntry)
      → config_of net w' ≡ record (config_of net w) { vaults = vaults }
      → IsStocked w
      → IsStocked w'
  IsStocked-after w w' vaults h k = record {
    native = k.native;
    relayer = k.relayer;
    fair_launch = k.fair_launch;
    high = k.high;
    low = k.low;
    has_native = ap (λ c. c.native_address) h ∙ k.has_native;
    has_relayer = ap (λ c. c.wnative_relayer) h ∙ k.has_relayer;
    has_fair_launch = ap (λ c. c.fair_launch_address) h ∙ k.has_fair_launch;
    has_high = ap (λ c. c.high_interest_triple_slope_model) h ∙ k.has_high;
    has_low = ap (λ c. c.low_interest_triple_slope_model) h ∙ k.has_low;
  }

  script_symbols : List ConfigScript → List Bytes
  script_symbols [] = []
  script_symbols (s ∷ scripts) = s.symbol ∷ script_symbols scripts

  AllShared : List ConfigScript → Type 0
  AllShared [] = Unit {0}
  AllShared (s ∷ scripts) = IsShared s × AllShared scripts

  run : List ConfigScript → List (Script (Unit {0}))
  run [] = []
  run (s ∷ scripts) = deploy_vault_config net s ∷ run scripts

  run_scripts-symbols :
      (scripts : List ConfigScript) (w : World)
      → IsDocumented net.zeppelin
      → AllShared scripts
      → IsStocked w
      → (w' : World) × (run_scripts (run scripts) w ≡ (ok tt, w'))
        × IsStocked w'
        × (symbols (config_of net w').vaults
            ≡ symbols (config_of net w).vaults ++ script_symbols scripts)
  unfolding run_scripts run AllShared script_symbols symbols new_vault_entry
  run_scripts-symbols [] w doc a k =
      (w, refl, k, sym (append-nil (symbols (config_of net w).vaults)))
  run_scripts-symbols (s ∷ scripts) w doc (a, rest) k =
      let (model, has_model) = model_found s w a k in
      let (w1, ran, d) =
        deploy_vault_config-Deployed net s w model k.native k.relayer k.fair_launch doc (record {
          has_model = has_model;
          has_native = k.has_native;
          has_relayer = k.has_relayer;
          has_fair_launch = k.has_fair_launch;
        }) in
      let (w', ran', k', symbols_lem) =
        run_scripts-symbols scripts w1 doc rest
          (IsStocked-after w w1 (config_of net w1).vaults d.rest_kept k) in
      (
        w',
        >>=-go (deploy_vault_config net s) _ w ran ran',
        k',
        symbols_lem
            ∙ ap (λ l. symbols l ++ script_symbols scripts) d.listed
            ∙ ap (λ l. l ++ script_symbols scripts)
                (symbols-append (config_of net w).vaults (
                  new_vault_entry s.symbol (net.create w.nonce) (s.interest_model (config_of net w))
                  ∷ []))
            ∙ append_assoc (symbols (config_of net w).vaults) (s.symbol ∷ [])
                (script_symbols scripts),
      )

  -- Where the results file has the addresses, the eight scripts in the order of their numbers go
  -- through, with OpenZeppelin's `onlyOwner` as documented, and the results file has eight more
  -- vaults behind those it had, whose symbols are in the order of the scripts.
  pub all_vault_configs-symbols :
      (w : World)
      → IsDocumented net.zeppelin
      → IsStocked w
      → (w' : World) × (all_vault_configs net w ≡ (ok tt, w'))
        × (symbols (config_of net w').vaults
            ≡ symbols (config_of net w).vaults
              ++ text "ibHUSKI"
                ∷ text "ibBUSD"
                ∷ text "ibBNB"
                ∷ text "ibUSDT"
                ∷ text "ibCAKE"
                ∷ text "ibETH"
                ∷ text "ibBTCB"
                ∷ text "ibUSDC"
                ∷ [])
  unfolding all_vault_configs ib_huski_config ib_busd_config ib_bnb_config ib_usdt_config
      ib_cake_config ib_eth_config ib_btcb_config ib_usdc_config run AllShared IsShared
      script_symbols
  all_vault_configs-symbols w doc k =
      let (w', ran, _, symbols_lem) =
        run_scripts-symbols
          (record { symbol = text "ibHUSKI"; interest_model = high_interest }
            ∷ record { symbol = text "ibBUSD"; interest_model = high_interest }
            ∷ record { symbol = text "ibBNB"; interest_model = high_interest }
            ∷ record { symbol = text "ibUSDT"; interest_model = low_interest }
            ∷ record { symbol = text "ibCAKE"; interest_model = high_interest }
            ∷ record { symbol = text "ibETH"; interest_model = low_interest }
            ∷ record { symbol = text "ibBTCB"; interest_model = low_interest }
            ∷ record { symbol = text "ibUSDC"; interest_model = low_interest }
            ∷ [])
          w doc
          (
            inl (λ c. refl),
            (
              inl (λ c. refl),
              (
                inl (λ c. refl),
                (
                  inr (λ c. refl),
                  (inl (λ c. refl), (inr (λ c. refl), (inr (λ c. refl), (inr (λ c. refl), tt)))),
                ),
              ),
            ),
          )
          k in
      (w', ran, symbols_lem)
