-- ===== src/Deploy/Vaults/Phases.antt =====
-- deploy/scripts/011-*_deploy_vault.ts: what the phases of a script do where the contracts let
-- each transaction through.
use huski_bsc_contract.Base.{
  ℕ, suc, ◌+◌, ◌^◌, ◌≡◌, ◌<◌, refl, true, some, [], ◌∷◌, ◌++◌, arith, ltb, Bytes, ok,
}
use huski_bsc_contract.Merkle.{lookup}
use huski_bsc_contract.Evm.{no_contract, IsDocumented, max_uint, update, update_here}
use huski_bsc_contract.FairLaunch.{FairLaunch, add_pool, pool_length}
use huski_bsc_contract.Contracts.{
  BasicVaultConfig, DebtToken, Vault, WNativeRelayer, init_debt_token, init_vault, set_all,
  set_ok_holders, transfer_debt_token, approve_max, set_fair_launch_pool_id, set_caller_ok,
}
use huski_bsc_contract.Deploy.{
  text, VaultEntry, World, Network, gets, expect, bad_argument, reverted, config_of, contract_at,
  transact, create_contract,
}
use huski_bsc_contract.Deploy.Steps.{>>=-go, expect-some, transact-ok, create_contract-ok}
use huski_bsc_contract.Deploy.Vaults.{
  VaultScript, push_pool_entry, to_number, on_debt, approve_debt, make_debt_token, make_vault,
  add_pool_at, set_pool_id_at, allow_caller_at, last_pool, deploy_tokens, hand_over, add_debt_pool,
  add_vault_pool,
}

module _ (net : Network) where
  abbrev pub approved : ℕ → ℕ → DebtToken → DebtToken
  approved vault spender t = record t {
    allowance = update t.allowance vault (update (t.allowance vault) spender max_uint);
  }

  approve_debt-ok :
      (self debt spender : ℕ) (w : World) {t : DebtToken}
      → w.debts debt ≡ some t
      → net.zeppelin.approve self spender ≡ true
      → approve_debt net self debt spender w
        ≡ ok (record w { debts = update w.debts debt (some (approved self spender t)) })
  unfolding approve_debt on_debt contract_at approve_max
  approve_debt-ok self debt spender w there passes =
      rw (there, approve_debt) (rw (there, contract_at) (rw passes refl))

  -- The vault that a script creates.
  abbrev pub new_vault : ℕ → World → ℕ → ℕ → Bytes → Bytes → ℕ → Vault
  new_vault self w config token name symbol debt =
      init_vault w.deployer (net.now w.nonce) config token name symbol 18 debt

  make_vault-ok :
      (config token : ℕ) (name symbol : Bytes) (debt self : ℕ) (w : World) {c : BasicVaultConfig}
      {t : DebtToken}
      → w.configs config ≡ some c
      → w.debts debt ≡ some t
      → net.zeppelin.approve self c.fair_launch ≡ true
      → make_vault net config token name symbol debt self w
        ≡ ok (record w {
          debts = update w.debts debt (some (approved self c.fair_launch t));
          vaults = update w.vaults self (some (new_vault self w config token name symbol debt));
        })
  unfolding make_vault contract_at
  make_vault-ok config token name symbol debt self w {c} has_config has_debt passes =
      rw (has_config, make_vault, contract_at)
        (rw (approve_debt-ok self debt c.fair_launch w has_debt passes) refl)

  add_pool_at-ok :
      (fair_launch : ℕ) (symbol : Bytes) (alloc token : ℕ) (w : World) {f f' : FairLaunch}
      → w.fair_launches fair_launch ≡ some f
      → add_pool net.zeppelin (net.block w.nonce) w.deployer symbol alloc token true f ≡ ok f'
      → add_pool_at net fair_launch symbol alloc token w
        ≡ ok (record w { fair_launches = update w.fair_launches fair_launch (some f') })
  unfolding add_pool_at contract_at
  add_pool_at-ok fair_launch symbol alloc token w there added =
      rw (there, add_pool_at, contract_at) (rw added refl)

  set_pool_id_at-ok :
      (vault pid debt : ℕ) (w : World) {u : Vault} {c : BasicVaultConfig} {t : DebtToken}
      → IsDocumented net.zeppelin
      → w.vaults vault ≡ some u
      → u.owner ≡ w.deployer
      → w.configs u.config ≡ some c
      → u.debt_token ≡ debt
      → w.debts debt ≡ some t
      → net.zeppelin.approve vault c.fair_launch ≡ true
      → set_pool_id_at net vault pid w
        ≡ ok (record w {
          debts = update w.debts debt (some (approved vault c.fair_launch t));
          vaults = update w.vaults vault (some (record u { fair_launch_pool_id = pid }));
        })
  unfolding set_pool_id_at contract_at set_fair_launch_pool_id
  set_pool_id_at-ok vault pid debt w {u} {c} doc there mine has_config linked has_debt passes =
      rw (there, set_pool_id_at, contract_at)
        (rw (mine, set_fair_launch_pool_id)
          (rw (doc.owner_passes w.deployer) (
            rw (has_config, contract_at)
              (rw linked (rw (approve_debt-ok vault debt c.fair_launch w has_debt passes) refl)))))

  pub allow_caller_at-ok :
      (relayer vault : ℕ) (w : World) {r : WNativeRelayer}
      → IsDocumented net.zeppelin
      → w.relayers relayer ≡ some r
      → r.owner ≡ w.deployer
      → allow_caller_at net relayer vault w
        ≡ ok (record w {
          relayers =
              update w.relayers relayer
                (some (record r { ok_callers = update r.ok_callers vault true }));
        })
  unfolding allow_caller_at contract_at set_caller_ok set_all
  allow_caller_at-ok relayer vault w doc there mine =
      rw (there, allow_caller_at, contract_at)
        (rw (mine, set_caller_ok) (rw (doc.owner_passes w.deployer) refl))

  last_pool-ok :
      (fair_launch : ℕ) (w : World) {f : FairLaunch} {n : ℕ}
      → w.fair_launches fair_launch ≡ some f
      → pool_length f ≡ suc n
      → last_pool net fair_launch w ≡ (ok n, w)
  unfolding last_pool
  last_pool-ok fair_launch w there count = >>=-go (gets λ x. x.fair_launches) _ w refl (
      >>=-go (expect (reverted no_contract) (w.fair_launches fair_launch)) _ w
        (expect-some (reverted no_contract) (w.fair_launches fair_launch) w there) (rw count refl))

  to_number-ok : (n : ℕ) (w : World) → n < 2 ^ 53 → to_number n w ≡ (ok n, w)
  unfolding to_number
  to_number-ok n w h = let small : ltb n (2 ^ 53) ≡ true = ground (arith, h) in rw small refl

  -- The debt token that a script creates.
  abbrev pub new_debt : World → Bytes → ℕ → DebtToken
  new_debt w symbol timelock =
      let name = text "debt" ++ symbol ++ text "_V2" in
      init_debt_token w.deployer name name timelock

  -- The world after the two creations.
  abbrev pub after_tokens : Bytes → Bytes → ℕ → ℕ → ℕ → ℕ → World → World
  after_tokens name symbol timelock vault_config token spender w =
      let debt = net.create w.nonce in
      let vault = net.create (w.nonce + 1) in
      let t = new_debt w symbol timelock in
      let created = record w { debts = update w.debts debt (some t); nonce = w.nonce + 1 } in
      record created {
        debts = update created.debts debt (some (approved vault spender t));
        vaults =
            update w.vaults vault
              (some (new_vault vault created vault_config token name symbol debt));
        nonce = w.nonce + 1 + 1;
      }

  pub deploy_tokens-ok :
      (s : VaultScript) (entry : VaultEntry) (w : World) {timelock vault_config token : ℕ}
      {c : BasicVaultConfig}
      → (config_of net w).timelock ≡ some timelock
      → entry.config ≡ some vault_config
      → lookup s.base_token (config_of net w).tokens ≡ some token
      → w.configs vault_config ≡ some c
      → net.zeppelin.approve (net.create (w.nonce + 1)) c.fair_launch ≡ true
      → deploy_tokens net s (config_of net w) entry w ≡ (
        ok (net.create w.nonce, net.create (w.nonce + 1)),
        after_tokens s.name entry.symbol timelock vault_config token c.fair_launch w,
      )
  unfolding deploy_tokens make_debt_token
  deploy_tokens-ok s entry w {timelock} {vault_config} {token} {c} has_timelock has_config has_token
        config_there passes =
      let debt = net.create w.nonce in
      let t = new_debt w entry.symbol timelock in
      let name = text "debt" ++ entry.symbol ++ text "_V2" in
      let w1 : World = record w { debts = update w.debts debt (some t); nonce = w.nonce + 1 } in
      >>=-go (expect bad_argument (config_of net w).timelock) _ w
        (expect-some bad_argument (config_of net w).timelock w has_timelock)
        (>>=-go (create_contract net (make_debt_token net name timelock)) _ w
          (create_contract-ok net (make_debt_token net name timelock) w refl)
          (>>=-go (expect bad_argument entry.config) _ w1
            (expect-some bad_argument entry.config w1 has_config)
            (>>=-go (expect bad_argument (lookup s.base_token (config_of net w).tokens)) _ w1
              (expect-some bad_argument (lookup s.base_token (config_of net w).tokens) w1 has_token)
              (>>=-go
                (create_contract net (make_vault net vault_config token s.name entry.symbol debt)) _
                w1
                (create_contract-ok net (make_vault net vault_config token s.name entry.symbol debt)
                  w1
                  (make_vault-ok vault_config token s.name entry.symbol debt
                    (net.create (w.nonce + 1)) w1 config_there (update_here w.debts debt (some t))
                    passes))
                refl))))

  set_ok_holders-ok :
      (fair_launch debt vault : ℕ) (w : World) {t : DebtToken}
      → IsDocumented net.zeppelin
      → w.debts debt ≡ some t
      → t.owner ≡ w.deployer
      → on_debt net (set_ok_holders net.zeppelin w.deployer (vault ∷ fair_launch ∷ []) true) debt w
        ≡ ok (record w {
          debts = update w.debts debt (
              some (record t {
                ok_holders = update (update t.ok_holders vault true) fair_launch true;
              }));
        })
  unfolding on_debt contract_at set_ok_holders set_all
  set_ok_holders-ok fair_launch debt vault w doc there mine =
      rw (there, on_debt, contract_at)
        (rw (mine, set_ok_holders) (rw (doc.owner_passes w.deployer) refl))

  transfer_debt_token-ok :
      (debt vault : ℕ) (w : World) {t : DebtToken}
      → w.debts debt ≡ some t
      → t.owner ≡ w.deployer
      → net.zeppelin.transfer_ownership w.deployer w.deployer vault ≡ some vault
      → on_debt net (transfer_debt_token net.zeppelin w.deployer vault) debt w
        ≡ ok (record w { debts = update w.debts debt (some (record t { owner = vault })) })
  unfolding on_debt contract_at transfer_debt_token
  transfer_debt_token-ok debt vault w there mine given =
      rw (there, on_debt, contract_at) (rw (mine, transfer_debt_token) (rw given refl))

  -- The world after the two transactions with the debt token.
  abbrev pub after_hand_over : ℕ → ℕ → ℕ → DebtToken → World → World
  after_hand_over fair_launch debt vault t w =
      let t1 : DebtToken = record t {
        ok_holders = update (update t.ok_holders vault true) fair_launch true;
      } in
      let m = update w.debts debt (some t1) in
      record w {
        debts = update m debt (some (record t1 { owner = vault }));
        nonce = w.nonce + 1 + 1;
      }

  pub hand_over-ok :
      (fair_launch debt vault : ℕ) (w : World) {t : DebtToken}
      → IsDocumented net.zeppelin
      → w.debts debt ≡ some t
      → t.owner ≡ w.deployer
      → net.zeppelin.transfer_ownership w.deployer w.deployer vault ≡ some vault
      → hand_over net fair_launch debt vault w ≡ (ok tt, after_hand_over fair_launch debt vault t w)
  unfolding hand_over
  hand_over-ok fair_launch debt vault w {t} doc there mine given =
      let t1 : DebtToken = record t {
        ok_holders = update (update t.ok_holders vault true) fair_launch true;
      } in
      let w1 : World = record w { debts = update w.debts debt (some t1); nonce = w.nonce + 1 } in
      >>=-go
        (transact λ x.
          on_debt net (set_ok_holders net.zeppelin x.deployer (vault ∷ fair_launch ∷ []) true) debt
            x)
        _ w
        (transact-ok
          (λ x.
            on_debt net (set_ok_holders net.zeppelin x.deployer (vault ∷ fair_launch ∷ []) true)
              debt x)
          w (set_ok_holders-ok fair_launch debt vault w doc there mine))
        (transact-ok (λ x. on_debt net (transfer_debt_token net.zeppelin x.deployer vault) debt x)
          w1 (transfer_debt_token-ok debt vault w1 (update_here w.debts debt (some t1)) mine given))

  -- The world after the pool of the debt token.
  abbrev pub after_debt_pool :
      Bytes → ℕ → ℕ → ℕ → Vault → DebtToken → FairLaunch → ℕ → ℕ → World → World
  after_debt_pool symbol fair_launch debt vault u t f spender pid w =
      push_pool_entry net
        (record { id = pid; staking_token = text "debt" ++ symbol; address = debt })
        (record w {
          fair_launches = update w.fair_launches fair_launch (some f);
          debts = update w.debts debt (some (approved vault spender t));
          vaults = update w.vaults vault (some (record u { fair_launch_pool_id = pid }));
          nonce = w.nonce + 1 + 1;
        })

  pub add_debt_pool-ok :
      (s : VaultScript) (symbol : Bytes) (fair_launch debt vault pid : ℕ) (w : World) {u : Vault}
      {t : DebtToken} {c : BasicVaultConfig} {f f' : FairLaunch}
      → IsDocumented net.zeppelin
      → w.fair_launches fair_launch ≡ some f
      → add_pool net.zeppelin
          (net.block w.nonce)
          w.deployer
          (text "debt" ++ symbol)
          s.alloc_point_for_open_position
          debt
          true
          f
        ≡ ok f'
      → pool_length f' ≡ suc pid
      → pid < 2 ^ 53
      → w.vaults vault ≡ some u
      → u.owner ≡ w.deployer
      → u.debt_token ≡ debt
      → w.configs u.config ≡ some c
      → w.debts debt ≡ some t
      → net.zeppelin.approve vault c.fair_launch ≡ true
      → add_debt_pool net s symbol fair_launch debt vault w
        ≡ (ok tt, after_debt_pool symbol fair_launch debt vault u t f' c.fair_launch pid w)
  unfolding add_debt_pool
  add_debt_pool-ok s symbol fair_launch debt vault pid w {u} {t} {c} {f} {f'} doc there added count
        few has_vault mine linked config_there has_debt passes =
      let name = text "debt" ++ symbol in
      let w1 : World = record w {
        fair_launches = update w.fair_launches fair_launch (some f');
        nonce = w.nonce + 1;
      } in
      let step =
        set_pool_id_at-ok vault pid debt w1 doc has_vault mine config_there linked has_debt
          passes in
      >>=-go (transact (add_pool_at net fair_launch name s.alloc_point_for_open_position debt)) _ w
        (transact-ok (add_pool_at net fair_launch name s.alloc_point_for_open_position debt) w
          (add_pool_at-ok fair_launch name s.alloc_point_for_open_position debt w there added))
        (>>=-go (last_pool net fair_launch) _ w1
          (last_pool-ok fair_launch w1 (update_here w.fair_launches fair_launch (some f')) count)
          (>>=-go (transact (set_pool_id_at net vault pid)) _ w1
            (transact-ok (set_pool_id_at net vault pid) w1 step)
            (>>=-go (to_number pid) _ _ (to_number-ok pid _ few) refl)))

  -- The world after the pool of the vault.
  abbrev pub after_vault_pool : Bytes → ℕ → ℕ → FairLaunch → ℕ → World → World
  after_vault_pool symbol fair_launch vault f pid w =
      push_pool_entry net (record { id = pid; staking_token = symbol; address = vault })
        (record w {
          fair_launches = update w.fair_launches fair_launch (some f);
          nonce = w.nonce + 1;
        })

  pub add_vault_pool-ok :
      (s : VaultScript) (symbol : Bytes) (fair_launch vault pid : ℕ) (w : World) {f f' : FairLaunch}
      → w.fair_launches fair_launch ≡ some f
      → add_pool net.zeppelin
          (net.block w.nonce)
          w.deployer
          symbol
          s.alloc_point_for_deposit
          vault
          true
          f
        ≡ ok f'
      → pool_length f' ≡ suc pid
      → pid < 2 ^ 53
      → add_vault_pool net s symbol fair_launch vault w
        ≡ (ok tt, after_vault_pool symbol fair_launch vault f' pid w)
  unfolding add_vault_pool
  add_vault_pool-ok s symbol fair_launch vault pid w {f} {f'} there added count few =
      let w1 : World = record w {
        fair_launches = update w.fair_launches fair_launch (some f');
        nonce = w.nonce + 1;
      } in
      >>=-go (transact (add_pool_at net fair_launch symbol s.alloc_point_for_deposit vault)) _ w
        (transact-ok (add_pool_at net fair_launch symbol s.alloc_point_for_deposit vault) w
          (add_pool_at-ok fair_launch symbol s.alloc_point_for_deposit vault w there added))
        (>>=-go (last_pool net fair_launch) _ w1
          (last_pool-ok fair_launch w1 (update_here w.fair_launches fair_launch (some f')) count)
          (>>=-go (to_number pid) _ w1 (to_number-ok pid w1 few) refl))
