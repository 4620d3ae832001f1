-- ===== src/Deploy/Vaults/Filling.antt =====
-- deploy/scripts/011-*_deploy_vault.ts: the loop that fills in the entries of a vault.
use huski_bsc_contract.Base.{
  ℕ, zero, suc, get_elem?, bytes_eq_refl, ◌≡◌, refl, ◌∙◌, ap, sym, inl, inr, Bool, true, false,
  some, List, [], ◌∷◌, ◌++◌, append_assoc, arith, if◌then◌else◌, Bool-cases, Bytes, bytes_eq,
}
use huski_bsc_contract.Merkle.{lookup}
use huski_bsc_contract.Contracts.{}
use huski_bsc_contract.FairLaunch.{}
use huski_bsc_contract.Deploy.{
  VaultEntry, Config, World, Network, config_of, set_config, write_config,
}
use huski_bsc_contract.Deploy.Steps.{config_of-set_config, write_config_lem}
use huski_bsc_contract.Deploy.Chain.{
  SameChain, SameChain-refl, SameChain-trans, set_config-SameChain, write_config-SameChain,
}
use huski_bsc_contract.Deploy.Vaults.{fill_vaults}

-- The entries with a symbol are filled in, the others stay.
pub fill_matching : Bytes → (VaultEntry → VaultEntry) → List VaultEntry → List VaultEntry
fill_matching symbol fill [] = []
fill_matching symbol fill (entry ∷ entries) =
    (if bytes_eq entry.symbol symbol then fill entry else entry) ∷ fill_matching symbol fill entries

pub has_symbol : Bytes → List VaultEntry → Bool
has_symbol symbol [] = false
has_symbol symbol (entry ∷ entries) =
    if bytes_eq entry.symbol symbol then true else has_symbol symbol entries

module _ (net : Network) where
  -- What one assignment in the loop and its write do.
  record Written (c : Config) (w w' : World) : Type 0 where
    config_set : config_of net w' ≡ c
    on_disk : lookup net.name w'.disk ≡ some (config_of net w')
    chain : SameChain w w'

  written : (c : Config) (w : World) → Written c w (write_config net (set_config net c w))
  written c w =
      let (on_disk, kept) = write_config_lem net (set_config net c w) in
      record {
        config_set = kept ∙ config_of-set_config net c w;
        on_disk = on_disk ∙ ap some (sym kept);
        chain =
            SameChain-trans (set_config-SameChain net c w)
              (write_config-SameChain net (set_config net c w));
      }

  -- What the loop does from some entry on.
  pub record Filled (symbol : Bytes) (fill : VaultEntry → VaultEntry)
      (passed entries : List VaultEntry) (w w' : World) : Type 0 where
    pub filled :
        config_of net w'
        ≡ record (config_of net w) { vaults = passed ++ fill_matching symbol fill entries }
    pub chain : SameChain w w'
    pub stays_written :
        lookup net.name w.disk ≡ some (config_of net w)
        → lookup net.name w'.disk ≡ some (config_of net w')
    pub gets_written :
        has_symbol symbol entries ≡ true → lookup net.name w'.disk ≡ some (config_of net w')

  pub fill_vaults-Filled :
      (symbol : Bytes) (fill : VaultEntry → VaultEntry) (passed entries : List VaultEntry)
      (w : World)
      → (config_of net w).vaults ≡ passed ++ entries
      → Filled symbol fill passed entries w (fill_vaults net symbol fill passed entries w)
  unfolding fill_vaults fill_matching has_symbol
  fill_vaults-Filled symbol fill passed [] w h = record {
    filled = ap (λ l. record (config_of net w) { vaults = l }) h;
    chain = SameChain-refl w;
    stays_written = λ d. d;
    gets_written = λ d. absurd (cc);
  }
  fill_vaults-Filled symbol fill passed (entry ∷ entries) w h =
      elim (Bool-cases (bytes_eq entry.symbol symbol)) [
        | inl same ↦
            let here : fill entry ≡ (if bytes_eq entry.symbol symbol then fill entry else entry) =
              rw same refl in
            let w1 = write_config net (
              set_config net (record (config_of net w) { vaults = passed ++ fill entry ∷ entries })
                w) in
            let done =
              written (record (config_of net w) { vaults = passed ++ fill entry ∷ entries }) w in
            let r = fill_vaults-Filled symbol fill (passed ++ fill entry ∷ []) entries w1 (
              ap (λ c. c.vaults) done.config_set
              ∙ sym (append_assoc passed (fill entry ∷ []) entries)) in
            rw (same, fill_vaults)
              (record {
                filled =
                    r.filled
                    ∙ ap
                        (λ (c : Config). record c {
                          vaults = (passed ++ fill entry ∷ []) ++ fill_matching symbol fill entries;
                        })
                        done.config_set
                    ∙ ap (λ l. record (config_of net w) { vaults = l })
                        (append_assoc passed (fill entry ∷ []) (fill_matching symbol fill entries)
                          ∙ ap (λ e. passed ++ e ∷ fill_matching symbol fill entries) here);
                chain = SameChain-trans done.chain r.chain;
                stays_written = λ _. r.stays_written done.on_disk;
                gets_written = λ _. r.stays_written done.on_disk;
              })
        | inr other ↦
            let here : entry ≡ (if bytes_eq entry.symbol symbol then fill entry else entry) =
              rw other refl in
            let r =
              fill_vaults-Filled symbol fill (passed ++ entry ∷ []) entries w
                (h ∙ sym (append_assoc passed (entry ∷ []) entries)) in
            rw (other, fill_vaults)
              (record {
                filled =
                    r.filled
                    ∙ ap (λ l. record (config_of net w) { vaults = l })
                        (append_assoc passed (entry ∷ []) (fill_matching symbol fill entries)
                          ∙ ap (λ e. passed ++ e ∷ fill_matching symbol fill entries) here);
                chain = r.chain;
                stays_written = r.stays_written;
                gets_written = λ d. r.gets_written (ground (arith, d, other));
              })
      ]

pub has_symbol-get_elem? :
    (entries : List VaultEntry) (i : ℕ) {entry : VaultEntry}
    → get_elem? entries i ≡ some entry
    → has_symbol entry.symbol entries ≡ true
unfolding has_symbol
has_symbol-get_elem? [] i h = absurd (cc)
has_symbol-get_elem? (first ∷ entries) zero {entry} h =
    let same : first.symbol ≡ entry.symbol = ground (arith, h) in
    rw same (rw (bytes_eq_refl entry.symbol) refl)
has_symbol-get_elem? (first ∷ entries) (suc i) {entry} h =
    ground (arith, has_symbol-get_elem? entries i h)
