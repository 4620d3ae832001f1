-- ===== src/Deploy/Workers/Publish.antt =====
-- deploy/scripts/014-*: a worker's entry in the results file.
use huski_bsc_contract.Base.{
  ℕ, zero, suc, ◌≡◌, refl, ◌∙◌, ap, sym, some, List, [], ◌∷◌, ◌++◌, arith, get_elem?, ok,
}
use huski_bsc_contract.Merkle.{lookup}
use huski_bsc_contract.Deploy.{
  VaultEntry, WorkerEntry, Config, World, Network, gets, modify, undefined_field, config_of,
  set_config, write_config, ◌>>◌,
}
use huski_bsc_contract.Deploy.Steps.{>>=-go, expect-go, config_of-set_config, write_config_lem}
use huski_bsc_contract.Deploy.Chain.{
  SameChain, SameChain-trans, set_config-SameChain, write_config-SameChain,
}
use huski_bsc_contract.Deploy.Workers.{set_vault, push_worker}

pub get_elem?-set_vault :
    (i : ℕ) (e e' : VaultEntry) (l : List VaultEntry)
    → get_elem? l i ≡ some e
    → get_elem? (set_vault i e' l) i ≡ some e'
unfolding set_vault
get_elem?-set_vault i e e' [] h = absurd (cc)
get_elem?-set_vault zero e e' (v ∷ l) h = refl
get_elem?-set_vault (suc i) e e' (v ∷ l) h = get_elem?-set_vault i e e' l h

pub set_vault-set_vault :
    (i : ℕ) (e e' : VaultEntry) (l : List VaultEntry)
    → set_vault i e' (set_vault i e l) ≡ set_vault i e' l
unfolding set_vault
set_vault-set_vault i e e' [] = refl
set_vault-set_vault zero e e' (v ∷ l) = refl
set_vault-set_vault (suc i) e e' (v ∷ l) = ap (◌∷◌ v) (set_vault-set_vault i e e' l)

pub set_vault-get_elem? :
    (i : ℕ) (e : VaultEntry) (l : List VaultEntry) → get_elem? l i ≡ some e → set_vault i e l ≡ l
unfolding set_vault
set_vault-get_elem? i e [] h = refl
set_vault-get_elem? zero e (v ∷ l) h = ap (λ x. x ∷ l) (ground arith)
set_vault-get_elem? (suc i) e (v ∷ l) h = ap (◌∷◌ v) (set_vault-get_elem? i e l h)

-- The results file with more workers of a vault.
abbrev pub with_workers : ℕ → VaultEntry → List WorkerEntry → Config → Config
with_workers i entry more c = record c {
  vaults = set_vault i (record entry { workers = entry.workers ++ more }) c.vaults;
}

module _ (net : Network) where
  pub push_worker-ok :
      (i : ℕ) (e : WorkerEntry) (w : World) {entry : VaultEntry}
      → get_elem? (config_of net w).vaults i ≡ some entry
      → push_worker net i e w
        ≡ (ok tt, set_config net (with_workers i entry (e ∷ []) (config_of net w)) w)
  unfolding push_worker
  push_worker-ok i e w h =
      >>=-go (gets (config_of net)) _ w refl
        (expect-go undefined_field (get_elem? (config_of net w).vaults i) _ w h refl)

  -- A step that does nothing but change the results file.
  pub record Published (c : Config) (w w' : World) : Type 0 where
    pub chain : SameChain w w'
    pub published : config_of net w' ≡ c

  pub push_worker-Published :
      (i : ℕ) (e : WorkerEntry) (w : World) {entry : VaultEntry}
      → get_elem? (config_of net w).vaults i ≡ some entry
      → (w' : World) × (push_worker net i e w ≡ (ok tt, w'))
        × Published (with_workers i entry (e ∷ []) (config_of net w)) w w'
  push_worker-Published i e w {entry} h =
      let c = with_workers i entry (e ∷ []) (config_of net w) in
      (
        set_config net c w,
        push_worker-ok i e w h,
        record { chain = set_config-SameChain net c w; published = config_of-set_config net c w },
      )

  -- The same, and the results file is written.
  pub push_and_write-Published :
      (i : ℕ) (e : WorkerEntry) (w : World) {entry : VaultEntry}
      → get_elem? (config_of net w).vaults i ≡ some entry
      → (w' : World) × ((push_worker net i e >> modify (write_config net)) w ≡ (ok tt, w'))
        × Published (with_workers i entry (e ∷ []) (config_of net w)) w w'
        × (lookup net.name w'.disk ≡ some (config_of net w'))
  push_and_write-Published i e w {entry} h =
      let (w1, ran, p) = push_worker-Published i e w h in
      let (on_disk, kept) = write_config_lem net w1 in
      (
        write_config net w1,
        >>=-go (push_worker net i e) _ w ran refl,
        record {
          chain = SameChain-trans p.chain (write_config-SameChain net w1);
          published = kept ∙ p.published;
        },
        on_disk ∙ ap some (sym kept),
      )
