-- ===== src/Deploy/Vaults/Missing.antt =====
-- deploy/scripts/011-*_deploy_vault.ts: a script whose base token is not in the results file.
use huski_bsc_contract.Base.{ℕ, ◌+◌, ◌≡◌, refl, none, some, ◌++◌, get_elem?, Bytes, err}
use huski_bsc_contract.Merkle.{lookup}
use huski_bsc_contract.Evm.{update, update_here}
use huski_bsc_contract.Contracts.{DebtToken, init_debt_token}
use huski_bsc_contract.Deploy.{
  text, VaultEntry, World, Network, gets, expect, bad_argument, undefined_field, config_of,
  create_contract,
}
use huski_bsc_contract.Deploy.Steps.{>>=-go, >>=-stop, expect-some, expect-none, create_contract-ok}
use huski_bsc_contract.Deploy.Vaults.{
  VaultScript, make_debt_token, deploy_tokens, deploy_vault, huski_script, huski_vault,
}
use huski_bsc_contract.Deploy.Vaults.Phases.{new_debt}

module _ (net : Network) where
  stopped : Bytes → ℕ → World → World
  stopped symbol timelock w = record w {
    debts = update w.debts (net.create w.nonce) (some (new_debt net w symbol timelock));
    nonce = w.nonce + 1;
  }

  deploy_vault-stopped :
      (s : VaultScript) (w : World) (entry : VaultEntry) (timelock vault_config : ℕ)
      → get_elem? (config_of net w).vaults s.vault_index ≡ some entry
      → (config_of net w).timelock ≡ some timelock
      → entry.config ≡ some vault_config
      → lookup s.base_token (config_of net w).tokens ≡ none
      → deploy_vault net s w ≡ (err bad_argument, stopped entry.symbol timelock w)
  unfolding deploy_vault deploy_tokens make_debt_token stopped
  deploy_vault-stopped s w entry timelock vault_config has_entry has_timelock has_config missing =
      let make = make_debt_token net (text "debt" ++ entry.symbol ++ text "_V2") timelock in
      let w1 = stopped entry.symbol timelock w in
      >>=-go (gets (config_of net)) _ w refl (
        >>=-go (expect undefined_field (get_elem? (config_of net w).vaults s.vault_index)) _ w
          (expect-some undefined_field (get_elem? (config_of net w).vaults s.vault_index) w
            has_entry)
          (>>=-stop (deploy_tokens net s (config_of net w) entry) _ w (
            >>=-go (expect bad_argument (config_of net w).timelock) _ w
              (expect-some bad_argument (config_of net w).timelock w has_timelock)
              (>>=-go (create_contract net make) _ w (create_contract-ok net make w refl) (
                >>=-go (expect bad_argument entry.config) _ w1
                  (expect-some bad_argument entry.config w1 has_config)
                  (>>=-stop (expect bad_argument (lookup s.base_token (config_of net w).tokens)) _
                    w1
                    (expect-none bad_argument (lookup s.base_token (config_of net w).tokens) w1
                      missing)))))))

  -- `011-1-huski_deploy_vault.ts` asks the results file for the token `HUSKY`. Where the file has
  -- the vault of the script's index with its config, and a timelock, but no token of that name,
  -- the script fails on the missing argument, when its debt token has been deployed: that one
  -- belongs to the deployer, no vault is created, and the results file and the disk are as before.
  pub huski_vault_missing_token :
      (w : World) (entry : VaultEntry) (timelock vault_config : ℕ)
      → get_elem? (config_of net w).vaults 1 ≡ some entry
      → (config_of net w).timelock ≡ some timelock
      → entry.config ≡ some vault_config
      → lookup (text "HUSKY") (config_of net w).tokens ≡ none
      → (w' : World) × (t : DebtToken) × (huski_vault net w ≡ (err bad_argument, w'))
        × (w'.debts (net.create w.nonce) ≡ some t)
        × (t.owner ≡ w.deployer)
        × (w'.vaults ≡ w.vaults)
        × (config_of net w' ≡ config_of net w)
        × (w'.disk ≡ w.disk)
  unfolding huski_vault stopped init_debt_token config_of
  huski_vault_missing_token w entry timelock vault_config has_entry has_timelock has_config
        missing =
      (
        stopped entry.symbol timelock w,
        new_debt net w entry.symbol timelock,
        deploy_vault-stopped huski_script w entry timelock vault_config has_entry has_timelock
            has_config missing,
        update_here w.debts (net.create w.nonce) (some (new_debt net w entry.symbol timelock)),
        refl,
        refl,
        refl,
        refl,
      )
