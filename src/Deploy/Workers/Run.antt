-- ===== src/Deploy/Workers/Run.antt =====
-- deploy/scripts/014-*: the loop over a table, and a whole script.
use huski_bsc_contract.Base.{
  ℕ, ◌≡◌, ◌<◌, ◌⊎◌, inl, inr, refl, ◌∙◌, ap, sym, some, List, [], ◌∷◌, ◌++◌, arith, append_assoc,
  append-nil, get_elem?, ok,
}
use huski_bsc_contract.Merkle.{lookup}
use huski_bsc_contract.Evm.{IsDocumented}
use huski_bsc_contract.Deploy.{
  VaultEntry, WorkerEntry, Config, World, Network, gets, undefined_field, config_of, write_config,
}
use huski_bsc_contract.Deploy.Steps.{>>=-go, expect-go, write_config_lem}
use huski_bsc_contract.Deploy.Workers.{
  WorkerRow, WriteOrder, WorkerScript, at_once, last, after_loop, rows_from, set_vault,
  worker_entry, deploy_worker, worker_rounds, after_rounds, deploy_workers,
}
use huski_bsc_contract.Deploy.Workers.Round.{Parts, IsRow}
use huski_bsc_contract.Deploy.Workers.Publish.{
  get_elem?-set_vault, set_vault-set_vault, set_vault-get_elem?, with_workers,
}
use huski_bsc_contract.Deploy.Workers.Rounded.{IsOwned, deploy_worker-Ran}
use huski_bsc_contract.Deploy.Workers.Kept.{
  IsLinked, Rounded-IsOwned, Rounded-IsLinked, Rounded-IsLinked_other,
}

with_workers-nil :
    (i : ℕ) (entry : VaultEntry) (c : Config)
    → get_elem? c.vaults i ≡ some entry
    → with_workers i entry [] c ≡ c
with_workers-nil i entry c h =
    ap (λ l. record c { vaults = set_vault i (record entry { workers = l }) c.vaults })
      (append-nil entry.workers)
    ∙ ap (λ l. record c { vaults = l }) (set_vault-get_elem? i entry c.vaults h)

with_workers-with_workers :
    (i : ℕ) (entry : VaultEntry) (first more : List WorkerEntry) (c : Config)
    → with_workers i
        (record entry { workers = entry.workers ++ first })
        more
        (with_workers i entry first c)
      ≡ with_workers i entry (first ++ more) c
with_workers-with_workers i entry first more c =
    ap (λ l. record c { vaults = l }) (set_vault-set_vault i _ _ c.vaults)
    ∙ ap (λ l. record c { vaults = set_vault i (record entry { workers = l }) c.vaults })
        (append_assoc entry.workers first more)

module _ (net : Network) (p : Parts) where
  unfoldable pub AllRows : List WorkerRow → Type 0
  AllRows [] = Unit {0}
  AllRows (r ∷ rows) = IsRow net p r × AllRows rows

  -- Each row has its entry, and the worker of the entry is linked.
  pub data Registered (w : World) : List WorkerRow → List WorkerEntry → Type 0 where
    all_done : Registered w [] []
    with_row :
        {r : WorkerRow} {rows : List WorkerRow} {es : List WorkerEntry} (a : ℕ)
        → IsLinked net p r a w
        → Registered w rows es
        → Registered w (r ∷ rows) (worker_entry net r a ∷ es)

  -- The results file is on disk, or is written after the loop.
  IsWritten : WorkerScript → World → Type 0
  IsWritten s w = (s.order ≡ after_loop) ⊎ (lookup net.name w.disk ≡ some (config_of net w))

  -- What the loop does, and that it goes through.
  record Looped (s : WorkerScript) (rows : List WorkerRow) (entry : VaultEntry) (w w' : World)
      : Type 0 where
    entries : List WorkerEntry
    ran : worker_rounds net s rows w ≡ (ok tt, w')
    listed : config_of net w' ≡ with_workers s.vault_index entry entries (config_of net w)
    registered : Registered w' rows entries
    others_linked :
        (n : ℕ) (q : WorkerRow)
        → n < w.nonce
        → IsLinked net p q (net.create n) w
        → IsLinked net p q (net.create n) w'
    written : (rows ≡ [] → IsWritten s w) → IsWritten s w'

  worker_rounds-Looped :
      (s : WorkerScript) (rows : List WorkerRow) (entry : VaultEntry) (w : World)
      → IsDocumented net.zeppelin
      → ((m n : ℕ) → net.create m ≡ net.create n → m ≡ n)
      → AllRows rows
      → IsOwned p w
      → get_elem? (config_of net w).vaults s.vault_index ≡ some entry
      → (w' : World) × Looped s rows entry w w'
  unfolding AllRows worker_rounds IsWritten
  worker_rounds-Looped s [] entry w doc fresh h o has_entry = (
    w,
    record {
      entries = [];
      ran = refl;
      listed = sym (with_workers-nil s.vault_index entry (config_of net w) has_entry);
      registered = all_done;
      others_linked = λ n q n_lt k. k;
      written = λ k. k refl;
    },
  )
  worker_rounds-Looped s (r ∷ rows) entry w doc fresh (row, h) o has_entry =
      let a = net.create w.nonce in
      let first = worker_entry net r a ∷ [] in
      let (w1, d) = deploy_worker-Ran net p r row w o s doc has_entry in
      let entry' : VaultEntry = record entry { workers = entry.workers ++ first } in
      let has_entry' : get_elem? (config_of net w1).vaults s.vault_index ≡ some entry' =
        ap (λ c. get_elem? c.vaults s.vault_index) d.listed
        ∙ get_elem?-set_vault s.vault_index entry entry' (config_of net w).vaults has_entry in
      let (w', l) =
        worker_rounds-Looped s rows entry' w1 doc fresh h
          (Rounded-IsOwned net p r row w w1 o d.rounded) has_entry' in
      (
        w',
        record {
          entries = worker_entry net r a ∷ l.entries;
          ran = >>=-go (deploy_worker net s r) _ w d.ran l.ran;
          listed =
              l.listed
              ∙ ap (with_workers s.vault_index entry' l.entries) d.listed
              ∙ with_workers-with_workers s.vault_index entry first l.entries (config_of net w);
          registered =
              with_row a
                (l.others_linked w.nonce r d.rounded.later
                  (Rounded-IsLinked net p r row w w1 o d.rounded))
                l.registered;
          others_linked = λ n q n_lt k. l.others_linked n q (omega (arith, n_lt, d.rounded.later)) (
              Rounded-IsLinked_other net p r row w w1 o q (net.create n) d.rounded
                (λ same. absurd (omega (arith, n_lt, fresh w.nonce n same))) k);
          written = λ _. l.written (λ _. d.written);
        },
      )

  write_config-IsLinked :
      (r : WorkerRow) (a : ℕ) (w : World)
      → IsLinked net p r a w
      → IsLinked net p r a (write_config net w)
  unfolding write_config
  write_config-IsLinked r a w k = record {
    worker = k.worker;
    worker_there = k.worker_there;
    operated = k.operated;
    based = k.based;
    pooled = k.pooled;
    takes_bot = k.takes_bot;
    takes_strats = k.takes_strats;
    two_serve = k.two_serve;
    strats_serve = k.strats_serve;
    factors_kept = k.factors_kept;
    config_kept = k.config_kept;
  }

  write_config-Registered :
      (w : World) (rows : List WorkerRow) (es : List WorkerEntry)
      → Registered w rows es
      → Registered (write_config net w) rows es
  write_config-Registered w [] [] all_done = all_done
  write_config-Registered w (r ∷ rows) (_ ∷ es) (with_row a k rest) =
      with_row a (write_config-IsLinked r a w k) (write_config-Registered w rows es rest)
  write_config-Registered w [] (_ ∷ es) h = elim h [ ]
  write_config-Registered w (r ∷ rows) [] h = elim h [ ]

  -- What a script leaves behind.
  pub record Finished (s : WorkerScript) (rows : List WorkerRow) (entry : VaultEntry) (w w' : World)
      : Type 0 where
    pub entries : List WorkerEntry
    pub registered : Registered w' rows entries
    pub listed : config_of net w' ≡ with_workers s.vault_index entry entries (config_of net w)
    pub on_disk : lookup net.name w'.disk ≡ some (config_of net w')

  after_rounds-Finished :
      (s : WorkerScript) (rows : List WorkerRow) (entry : VaultEntry) (w w1 : World)
      → (entries : List WorkerEntry) → Registered w1 rows entries
      → config_of net w1 ≡ with_workers s.vault_index entry entries (config_of net w)
      → IsWritten s w1
      → (w' : World) × (after_rounds net s w1 ≡ (ok tt, w')) × Finished s rows entry w w'
  unfolding after_rounds IsWritten
  after_rounds-Finished s rows entry w w1 entries registered listed written =
      by_order s.order refl written
    where
      by_order :
          (order : WriteOrder)
          → s.order ≡ order
          → IsWritten s w1
          → (w' : World) × (after_rounds net s w1 ≡ (ok tt, w')) × Finished s rows entry w w'
      by_order after_loop is h =
          let (on_disk, kept) = write_config_lem net w1 in
          (
            write_config net w1,
            rw is refl,
            record {
              entries = entries;
              registered = write_config-Registered w1 rows entries registered;
              listed = kept ∙ listed;
              on_disk = on_disk ∙ ap some (sym kept);
            },
          )
      by_order at_once is (inl other) = absurd (cc)
      by_order last is (inl other) = absurd (cc)
      by_order at_once is (inr on_disk) = (
        w1,
        rw is refl,
        record { entries = entries; registered = registered; listed = listed; on_disk = on_disk },
      )
      by_order last is (inr on_disk) = (
        w1,
        rw is refl,
        record { entries = entries; registered = registered; listed = listed; on_disk = on_disk },
      )

  -- A script of 014 goes through where the vault has an entry in the results file, the loop has at
  -- least one row, the rows have their addresses and pools, the contracts that they name are the
  -- deployer's, no two transactions create a contract at one address, and OpenZeppelin is as
  -- documented. Then the vault's list of workers has one more entry for each row, in their order,
  -- with the name, pool and configuration of the row; the worker at the address of each entry is
  -- linked, with its strategies and both configurations, also when later rounds have run; nothing
  -- else in the results file has changed, and it is on disk.
  pub deploy_workers-Finished :
      (s : WorkerScript) (w : World) {entry : VaultEntry} {r : WorkerRow} {rows : List WorkerRow}
      → IsDocumented net.zeppelin
      → ((m n : ℕ) → net.create m ≡ net.create n → m ≡ n)
      → get_elem? (config_of net w).vaults s.vault_index ≡ some entry
      → rows_from s.first (s.workers (config_of net w) entry) ≡ r ∷ rows
      → AllRows (r ∷ rows)
      → IsOwned p w
      → (w' : World) × (deploy_workers net s w ≡ (ok tt, w')) × Finished s (r ∷ rows) entry w w'
  unfolding deploy_workers
  deploy_workers-Finished s w {entry} {r} {rows} doc fresh has_entry has_rows h o =
      let (w1, l) = worker_rounds-Looped s (r ∷ rows) entry w doc fresh h o has_entry in
      let (w', ran, done) =
        after_rounds-Finished s (r ∷ rows) entry w w1 l.entries l.registered l.listed
          (l.written (λ e. absurd (cc))) in
      (
        w',
        >>=-go (gets (config_of net)) _ w refl (
            expect-go undefined_field (get_elem? (config_of net w).vaults s.vault_index) _ w
              has_entry
              (>>=-go (worker_rounds net s (rows_from s.first (s.workers (config_of net w) entry)))
                _ w (rw has_rows l.ran) ran)),
        done,
      )
