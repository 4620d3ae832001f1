-- ===== src/Deploy/Vaults/Linked.antt =====
-- deploy/scripts/011-*_deploy_vault.ts: the whole script, and how it links the contracts.
use huski_bsc_contract.Base.{
  ℕ, ◌+◌, ◌≡◌, refl, ◌∙◌, ap, sym, true, Option, some, List, [], ◌∷◌, ◌++◌, append_assoc, arith,
  get_elem?, length, test_refl, ok,
}
use huski_bsc_contract.Merkle.{lookup}
use huski_bsc_contract.Evm.{IsDocumented, max_uint, update, update_here}
use huski_bsc_contract.FairLaunch.{pool_length}
use huski_bsc_contract.FairLaunch.Updates.{shapes}
use huski_bsc_contract.FairLaunch.Pools.{add_pool-Added}
use huski_bsc_contract.Contracts.{DebtToken, Vault, WNativeRelayer, init_debt_token, init_vault}
use huski_bsc_contract.Deploy.{
  text, VaultEntry, PoolEntry, Config, World, Network, gets, expect, bad_argument, undefined_field,
  config_of, transact,
}
use huski_bsc_contract.Deploy.Steps.{>>=-go, expect-some, transact-ok}
use huski_bsc_contract.Deploy.Vaults.{
  VaultScript, push_pool_entry, fill_vault, fill_vaults, allow_caller_at, deploy_tokens, hand_over,
  add_debt_pool, add_vault_pool, deploy_vault,
}
use huski_bsc_contract.Deploy.Chain.{SameChain}
use huski_bsc_contract.Deploy.Vaults.Filling.{
  fill_matching, has_symbol, fill_vaults-Filled, has_symbol-get_elem?,
}
use huski_bsc_contract.Deploy.Vaults.Phases.{
  approved, new_debt, new_vault, after_tokens, after_hand_over, after_debt_pool, after_vault_pool,
  deploy_tokens-ok, hand_over-ok, add_debt_pool-ok, add_vault_pool-ok, allow_caller_at-ok,
}
use huski_bsc_contract.Deploy.Vaults.Ready.{
  IsReady, Linked, Added-pool_length, push_pool_entry-SameChain, config_of-push_pool_entry,
}

module _ (net : Network) where
  module _ (s : VaultScript) (w : World) (r : IsReady net s w) where
    abbrev debt_address : ℕ
    debt_address = net.create w.nonce

    abbrev vault_address : ℕ
    vault_address = net.create (w.nonce + 1)

    -- the debt token after the vault's creation, and after it has been handed over
    abbrev first_debt : DebtToken
    first_debt =
        approved net vault_address r.contract.fair_launch (new_debt net w r.entry.symbol r.timelock)

    abbrev owned_debt : DebtToken
    owned_debt = record first_debt {
      ok_holders = update (update first_debt.ok_holders vault_address true) r.fair_launch true;
      owner = vault_address;
    }

    abbrev first_vault : Vault
    first_vault =
        new_vault net vault_address (record w { nonce = w.nonce + 1 }) r.vault_config r.token s.name
          r.entry.symbol debt_address

    -- the worlds between the phases
    abbrev with_tokens : World
    with_tokens =
        after_tokens net s.name r.entry.symbol r.timelock r.vault_config r.token
          r.contract.fair_launch w

    abbrev with_owner : World
    with_owner = after_hand_over net r.fair_launch debt_address vault_address first_debt with_tokens

    abbrev with_debt_pool : World
    with_debt_pool =
        after_debt_pool net r.entry.symbol r.fair_launch debt_address vault_address first_vault
          owned_debt r.between r.contract.fair_launch (length r.before.pools) with_owner

    abbrev with_pools : World
    with_pools =
        after_vault_pool net r.entry.symbol r.fair_launch vault_address r.behind
          (length r.before.pools + 1) with_debt_pool

    abbrev with_caller : World
    with_caller = record with_pools {
      relayers =
          update with_pools.relayers r.relayer (
            some
              (record r.wnative { ok_callers = update r.wnative.ok_callers vault_address true }));
      nonce = with_pools.nonce + 1;
    }

    abbrev filling : VaultEntry → VaultEntry
    filling =
        fill_vault r.entry.symbol s.name vault_address
          (lookup s.base_token (config_of net w).tokens) debt_address

    abbrev at_end : World
    at_end =
        fill_vaults net r.entry.symbol filling [] (config_of net with_caller).vaults with_caller

    abbrev with_middle : ℕ → Option DebtToken
    with_middle = update with_tokens.debts debt_address (
        some (record first_debt {
          ok_holders = update (update first_debt.ok_holders vault_address true) r.fair_launch true;
        }))

    debt_pool_chain :
        SameChain
          (record with_owner {
            fair_launches = update with_owner.fair_launches r.fair_launch (some r.between);
            debts =
                update with_owner.debts debt_address
                  (some (approved net vault_address r.contract.fair_launch owned_debt));
            vaults =
                update with_owner.vaults vault_address
                  (some (record first_vault { fair_launch_pool_id = length r.before.pools }));
            nonce = with_owner.nonce + 1 + 1;
          })
          with_debt_pool
    debt_pool_chain = push_pool_entry-SameChain net _ _

    vault_pool_chain :
        SameChain
          (record with_debt_pool {
            fair_launches = update with_debt_pool.fair_launches r.fair_launch (some r.behind);
            nonce = with_debt_pool.nonce + 1;
          })
          with_pools
    vault_pool_chain = push_pool_entry-SameChain net _ _

    -- the contracts that the steps after the pool of the debt token leave alone
    kept_to_pools :
        (with_pools.relayers ≡ w.relayers)
        × (with_pools.deployer ≡ w.deployer)
        × (with_pools.debts
            ≡ update with_owner.debts debt_address
                (some (approved net vault_address r.contract.fair_launch owned_debt)))
        × (with_pools.vaults
            ≡ update with_owner.vaults vault_address
                (some (record first_vault { fair_launch_pool_id = length r.before.pools })))
        × (with_pools.fair_launches
            ≡ update with_debt_pool.fair_launches r.fair_launch (some r.behind))
    kept_to_pools = (
      vault_pool_chain.same_relayers ∙ debt_pool_chain.same_relayers,
      vault_pool_chain.same_deployer ∙ debt_pool_chain.same_deployer,
      vault_pool_chain.same_debts ∙ debt_pool_chain.same_debts,
      vault_pool_chain.same_vaults ∙ debt_pool_chain.same_vaults,
      vault_pool_chain.same_fair_launches,
    )

    -- the config before the loop
    final_pools : List PoolEntry
    final_pools =
        ((config_of net w).fair_launch_pools
          ++ record {
            id = length r.before.pools;
            staking_token = text "debt" ++ r.entry.symbol;
            address = debt_address;
          }
            ∷ [])
        ++ record {
          id = length r.before.pools + 1;
          staking_token = r.entry.symbol;
          address = vault_address;
        }
          ∷ []

    entry_lem :
        (e : PoolEntry) (w1 : World) (l : List PoolEntry)
        → config_of net w1 ≡ record (config_of net w) { fair_launch_pools = l }
        → config_of net (push_pool_entry net e w1)
          ≡ record (config_of net w) { fair_launch_pools = l ++ e ∷ [] }
    entry_lem e w1 l h =
        config_of-push_pool_entry net e w1
        ∙ ap (λ (c : Config). record c { fair_launch_pools = c.fair_launch_pools ++ e ∷ [] }) h

    config_before_loop :
        config_of net with_caller ≡ record (config_of net w) { fair_launch_pools = final_pools }
    unfolding config_of final_pools
    config_before_loop = entry_lem _ _ _ (entry_lem _ _ _ refl)

    first_vault_lem :
        (first_vault.owner ≡ w.deployer)
        × (first_vault.config ≡ r.vault_config)
        × (first_vault.token ≡ r.token)
        × (first_vault.debt_token ≡ debt_address)
    unfolding init_vault
    first_vault_lem = (refl, refl, refl, refl)

    first_debt-owner : first_debt.owner ≡ w.deployer
    unfolding init_debt_token
    first_debt-owner = refl

    module _ (doc : IsDocumented net.zeppelin) where
      debt_pool_ran :
          add_debt_pool net s r.entry.symbol r.fair_launch debt_address vault_address with_owner
          ≡ (ok tt, with_debt_pool)
      debt_pool_ran =
          add_debt_pool-ok net s r.entry.symbol r.fair_launch debt_address vault_address
            (length r.before.pools) with_owner doc r.fair_launch_there r.adds_debt_pool
            (Added-pool_length net r.before r.between
              (add_pool-Added net.zeppelin doc _ _ _ _ _ true r.before r.between r.adds_debt_pool))
            (omega (arith, r.few_pools)) (update_here w.vaults vault_address (some first_vault))
            first_vault_lem.0 first_vault_lem.3 (ap w.configs first_vault_lem.1 ∙ r.config_there)
            (update_here with_middle debt_address (some owned_debt)) r.approves

      vault_pool_ran :
          add_vault_pool net s r.entry.symbol r.fair_launch vault_address with_debt_pool
          ≡ (ok tt, with_pools)
      unfolding pool_length
      vault_pool_ran =
          add_vault_pool-ok net s r.entry.symbol r.fair_launch vault_address
            (length r.before.pools + 1) with_debt_pool
            (ap (λ m. m r.fair_launch) debt_pool_chain.same_fair_launches
              ∙ update_here with_owner.fair_launches r.fair_launch (some r.between))
            (rw debt_pool_chain.same_nonce (rw debt_pool_chain.same_deployer r.adds_vault_pool))
            (Added-pool_length net r.between r.behind (
                add_pool-Added net.zeppelin doc _ _ _ _ _ true r.between r.behind r.adds_vault_pool)
              ∙ omega (
                arith,
                Added-pool_length net r.before r.between (
                    add_pool-Added net.zeppelin doc _ _ _ _ _ true r.before r.between
                      r.adds_debt_pool),
              ))
            r.few_pools

      deploy_vault-ran : deploy_vault net s w ≡ (ok tt, at_end)
      unfolding deploy_vault
      deploy_vault-ran = >>=-go (gets (config_of net)) _ w refl (
          >>=-go (expect undefined_field (get_elem? (config_of net w).vaults s.vault_index)) _ w
            (expect-some undefined_field (get_elem? (config_of net w).vaults s.vault_index) w
              r.has_entry)
            (>>=-go (deploy_tokens net s (config_of net w) r.entry) _ w
              (deploy_tokens-ok net s r.entry w r.has_timelock r.has_config r.has_token
                r.config_there r.approves)
              (>>=-go (expect bad_argument (config_of net w).fair_launch_address) _ with_tokens
                (expect-some bad_argument (config_of net w).fair_launch_address with_tokens
                  r.has_fair_launch)
                (>>=-go (hand_over net r.fair_launch debt_address vault_address) _ with_tokens
                  (hand_over-ok net r.fair_launch debt_address vault_address with_tokens doc
                    (update_here
                      (update w.debts debt_address
                        (some (new_debt net w r.entry.symbol r.timelock)))
                      debt_address (some first_debt))
                    first_debt-owner r.transfers)
                  (>>=-go
                    (add_debt_pool net s r.entry.symbol r.fair_launch debt_address vault_address) _
                    with_owner debt_pool_ran
                    (>>=-go (add_vault_pool net s r.entry.symbol r.fair_launch vault_address) _
                      with_debt_pool vault_pool_ran
                      (>>=-go (expect bad_argument (config_of net w).wnative_relayer) _ with_pools
                        (expect-some bad_argument (config_of net w).wnative_relayer with_pools
                          r.has_relayer)
                        (>>=-go (transact (allow_caller_at net r.relayer vault_address)) _
                          with_pools
                          (transact-ok (allow_caller_at net r.relayer vault_address) with_pools (
                            allow_caller_at-ok net r.relayer vault_address with_pools doc
                              (ap (λ m. m r.relayer) kept_to_pools.0 ∙ r.relayer_there)
                              (r.relayer_owned ∙ sym kept_to_pools.1)))
                          (>>=-go (gets λ x. (config_of net x).vaults) _ with_caller refl
                            refl)))))))))

      at_end-Linked : Linked net s w at_end r
      unfolding final_pools
      at_end-Linked =
          let entries = (config_of net with_caller).vaults in
          let loop = fill_vaults-Filled net r.entry.symbol filling [] entries with_caller refl in
          let same_entries : entries ≡ (config_of net w).vaults =
            ap (λ c. c.vaults) config_before_loop in
          let debt : DebtToken = approved net vault_address r.contract.fair_launch owned_debt in
          let vault : Vault = record first_vault { fair_launch_pool_id = length r.before.pools } in
          let caller : WNativeRelayer = record r.wnative {
            ok_callers = update r.wnative.ok_callers vault_address true;
          } in
          record {
            debt_token = debt;
            vault = vault;
            pools = r.behind;
            wnative = caller;
            debt_token_there =
                ap (λ m. m debt_address) (loop.chain.same_debts ∙ kept_to_pools.2)
                ∙ update_here with_owner.debts debt_address (some debt);
            debt_token_owned = refl;
            vault_holds = ground (arith, test_refl vault_address);
            fair_launch_holds =
                update_here (update first_debt.ok_holders vault_address true) r.fair_launch true;
            allowed =
                ap (λ m. m r.contract.fair_launch)
                  (update_here owned_debt.allowance vault_address
                    (update (owned_debt.allowance vault_address) r.contract.fair_launch max_uint))
                ∙ update_here (owned_debt.allowance vault_address) r.contract.fair_launch max_uint;
            vault_there =
                ap (λ m. m vault_address) (loop.chain.same_vaults ∙ kept_to_pools.3)
                ∙ update_here with_owner.vaults vault_address (some vault);
            vault_owned = first_vault_lem.0;
            vault_token = first_vault_lem.2;
            vault_config = first_vault_lem.1;
            vault_debt = first_vault_lem.3;
            pools_there =
                ap (λ m. m r.fair_launch) (loop.chain.same_fair_launches ∙ kept_to_pools.4)
                ∙ update_here with_debt_pool.fair_launches r.fair_launch (some r.behind);
            pools_added =
                (add_pool-Added net.zeppelin doc _ _ _ _ _ true r.between r.behind
                  r.adds_vault_pool).added_shapes
                ∙ ap (λ l. l ++ (r.entry.symbol, vault_address, s.alloc_point_for_deposit) ∷ [])
                    (add_pool-Added net.zeppelin doc _ _ _ _ _ true r.before r.between
                      r.adds_debt_pool).added_shapes
                ∙ append_assoc (shapes r.before.pools) _ _;
            vault_pool = refl;
            wnative_there =
                ap (λ m. m r.relayer) loop.chain.same_relayers
                ∙ update_here with_pools.relayers r.relayer (some caller);
            vault_calls = update_here r.wnative.ok_callers vault_address true;
            pools_listed =
                ap (λ c. c.fair_launch_pools)
                  (loop.filled
                    ∙ ap
                        (λ (c : Config). record c {
                          vaults = fill_matching r.entry.symbol filling entries;
                        })
                        config_before_loop);
            vaults_filled =
                ap (λ c. c.vaults) loop.filled
                ∙ ap (fill_matching r.entry.symbol filling) same_entries
                ∙ ap
                    (λ o.
                      fill_matching r.entry.symbol
                        (fill_vault r.entry.symbol s.name vault_address o debt_address)
                        (config_of net w).vaults)
                    r.has_token;
            written = loop.gets_written (
                ap (has_symbol r.entry.symbol) same_entries
                ∙ has_symbol-get_elem? (config_of net w).vaults s.vault_index r.has_entry);
          }

  -- A script of 011 whose entries stand in the results file, whose contracts are on the chain and
  -- whose transactions those let through goes through, with OpenZeppelin as documented. Then the
  -- vault owns its debt token, the vault and FairLaunch may hold it, and FairLaunch may spend the
  -- vault's; the vault has the script's base token, config and debt token; FairLaunch has two more
  -- pools, of the debt token and of the vault, and the pool id that the vault keeps is the debt
  -- token's; the relayer serves the vault; the results file lists the two pools under their ids,
  -- has the addresses in each entry of the symbol and nowhere else, and is on disk.
  pub deploy_vault-Linked :
      (s : VaultScript) (w : World) (r : IsReady net s w)
      → IsDocumented net.zeppelin
      → (w' : World) × (deploy_vault net s w ≡ (ok tt, w')) × Linked net s w w' r
  deploy_vault-Linked s w r doc =
      (at_end s w r, deploy_vault-ran s w r doc, at_end-Linked s w r doc)
