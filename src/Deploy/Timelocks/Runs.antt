-- ===== src/Deploy/Timelocks/Runs.antt =====
-- deploy/setup/s001 to s020: the scripts against the lists of what they are to queue.
use huski_bsc_contract.Base.{
  ℕ, ◌≡◌, refl, sym, ◌∙◌, ap, Option, none, some, List, [], ◌∷◌, ◌++◌, map, Result, ok, err,
}
use huski_bsc_contract.Deploy.{World, Network, ScriptError, Script, ◌>>=◌, pure}
use huski_bsc_contract.Deploy.Steps.{>>=-go, >>=-stop}
use huski_bsc_contract.Deploy.Timelocks.{Request, Timelocks, each, queue_transaction, queue_all}
use huski_bsc_contract.Deploy.Timelocks.Requests.{
  admin_request, params_request, factors_request, migration_request, approval_request,
  upgrade_request, whitelist_request,
}
use huski_bsc_contract.Deploy.Timelocks.Scripts.{
  add_worker_strategy, new_implementation, update_debt_token, upgrade_vault_with, change_admins,
  set_vault_params, update_factors, set_critical, add_strats, upgrade_all, upgrade_workers_with,
  migrate_lps, reset_approvals, whitelist_workers,
}
use huski_bsc_contract.Deploy.Timelocks.Plan.{
  Plan, s001, s007, s009, s010, s011, s012, s014, s015, s016, s020, run_plan, concat_map,
  debt_token_requests, critical_requests, requests,
}

-- Two scripts that agree, followed by two that agree.
>>=-agree :
    {A B : Type 0} (m m' : Script A) (f f' : A → Script B) (w : World)
    → m w ≡ m' w
    → ((a : A) (w1 : World) → f a w1 ≡ f' a w1)
    → (m >>= f) w ≡ (m' >>= f') w
>>=-agree {A} {B} m m' f f' w h k = go (m' w) refl
  where
    go : (r : Result ScriptError A × World) → m' w ≡ r → (m >>= f) w ≡ (m' >>= f') w
    go (ok a, w1) e = >>=-go m f w (h ∙ e) (k a w1 ∙ sym (>>=-go m' f' w e refl))
    go (err x, w1) e = >>=-stop m f w (h ∙ e) ∙ sym (>>=-stop m' f' w e)

>>=-assoc :
    {A B C : Type 0} (m : Script A) (f : A → Script B) (g : B → Script C) (w : World)
    → ((m >>= f) >>= g) w ≡ (m >>= λ a. f a >>= g) w
unfolding ◌>>=◌
>>=-assoc {A} {B} {C} m f g w = go (m w) refl
  where
    go :
        (r : Result ScriptError A × World)
        → m w ≡ r
        → ((m >>= f) >>= g) w ≡ (m >>= λ a. f a >>= g) w
    go (ok a, w1) e =
        let first : ((m >>= f) >>= g) w ≡ (f a >>= g) w1 =
          ap (λ x. elim x.0 [ ok b ↦ g b x.1 | err y ↦ (err y, x.1) ]) (>>=-go m f w e refl) in
        first ∙ sym (>>=-go m (λ a. f a >>= g) w e refl)
    go (err x, w1) e =
        >>=-stop (m >>= f) g w (>>=-stop m f w e) ∙ sym (>>=-stop m (λ a. f a >>= g) w e)

module _ (t : Timelocks) (net : Network) where
  queue_all-append :
      (xs ys : List Request) (w : World)
      → (queue_all t net xs >>= λ _. queue_all t net ys) w ≡ queue_all t net (xs ++ ys) w
  unfolding queue_all each
  queue_all-append [] ys w = >>=-go (pure tt) (λ _. queue_all t net ys) w refl refl
  queue_all-append (x ∷ xs) ys w =
      >>=-assoc (queue_transaction t net x) (λ _. queue_all t net xs) (λ _. queue_all t net ys) w
      ∙ >>=-agree (queue_transaction t net x) (queue_transaction t net x)
          (λ _. queue_all t net xs >>= λ _. queue_all t net ys) (λ _. queue_all t net (xs ++ ys)) w
          refl λ u w1. queue_all-append xs ys w1

  queue_all-single :
      (r : Request) (w : World) → queue_transaction t net r w ≡ queue_all t net (r ∷ []) w
  unfolding queue_all each ◌>>=◌
  queue_all-single r w = go (queue_transaction t net r w)
    where
      go :
          (x : Result ScriptError (Unit {0}) × World)
          → x ≡ (elim x.0 [ ok a ↦ pure tt x.1 | err e ↦ (err e, x.1) ])
      go (ok tt, w1) = refl
      go (err e, w1) = refl

  each-queue_all :
      {A : Type 0} (f : A → Script (Unit {0})) (g : A → List Request)
      → ((a : A) (w : World) → f a w ≡ queue_all t net (g a) w)
      → (rows : List A) (w : World) → each f rows w ≡ queue_all t net (concat_map g rows) w
  unfolding each concat_map queue_all
  each-queue_all f g h [] w = refl
  each-queue_all f g h (row ∷ rows) w =
      >>=-agree (f row) (queue_all t net (g row)) (λ _. each f rows)
        (λ _. queue_all t net (concat_map g rows)) w (h row w)
        (λ u w1. each-queue_all f g h rows w1)
      ∙ queue_all-append (g row) (concat_map g rows) w

  each-map :
      {A : Type 0} (g : A → Request) (rows : List A) (w : World)
      → each (λ a. queue_transaction t net (g a)) rows w ≡ queue_all t net (map g rows) w
  unfolding each queue_all
  each-map g [] w = refl
  each-map g (row ∷ rows) w =
      >>=-agree (queue_transaction t net (g row)) (queue_transaction t net (g row))
        (λ _. each (λ a. queue_transaction t net (g a)) rows) (λ _. queue_all t net (map g rows)) w
        refl λ u w1. each-map g rows w1

  update_debt_token-queue_all :
      (vault : ℕ) (debt_token : Option ℕ) (pid : ℕ) (w : World)
      → update_debt_token t net vault debt_token pid w
        ≡ queue_all t net (debt_token_requests vault debt_token pid) w
  unfolding update_debt_token debt_token_requests queue_all each
  update_debt_token-queue_all vault none pid w = refl
  update_debt_token-queue_all vault (some debt_token) pid w = queue_all-single _ w

  set_critical-queue_all :
      (worker : ℕ) (add liq : Option ℕ) (w : World)
      → set_critical t net worker add liq w ≡ queue_all t net (critical_requests worker add liq) w
  unfolding set_critical critical_requests queue_all each
  set_critical-queue_all worker none liq w = refl
  set_critical-queue_all worker (some add) none w = refl
  set_critical-queue_all worker (some add) (some liq) w = queue_all-single _ w

  upgrade_vault_with-queue_all :
      (vault impl : ℕ) (debt_token : Option ℕ) (pid : ℕ) (w : World)
      → upgrade_vault_with t net vault (some impl) debt_token pid w
        ≡ queue_all t net
            (upgrade_request vault impl 1616574600 ∷ debt_token_requests vault debt_token pid)
            w
  unfolding upgrade_vault_with new_implementation queue_all each ◌>>=◌
  upgrade_vault_with-queue_all vault impl debt_token pid w =
      >>=-agree (queue_transaction t net (upgrade_request vault impl 1616574600))
        (queue_transaction t net (upgrade_request vault impl 1616574600))
        (λ _. update_debt_token t net vault debt_token pid)
        (λ _. queue_all t net (debt_token_requests vault debt_token pid)) w refl
        λ u w1. update_debt_token-queue_all vault debt_token pid w1

  upgrade_workers_with-queue_all :
      (workers : List ℕ) (impl : ℕ) (w : World)
      → upgrade_workers_with t net workers (some impl) w
        ≡ queue_all t net (map (λ worker. upgrade_request worker impl 1620575100) workers) w
  unfolding upgrade_workers_with upgrade_all new_implementation ◌>>=◌
  upgrade_workers_with-queue_all [] impl w =
      each-map (λ worker. upgrade_request worker impl 1620575100) [] w
  upgrade_workers_with-queue_all (worker ∷ workers) impl w =
      each-map (λ x. upgrade_request x impl 1620575100) (worker ∷ workers) w

  -- A script that is run with any tables, and with the new implementation of an upgrade set, queues
  -- what its list says, one request after the other: its loops and branches come to the list.
  pub run_plan-queue_all :
      (plan : Plan) (w : World) → run_plan t net plan w ≡ queue_all t net (requests plan) w
  unfolding run_plan requests change_admins set_vault_params update_factors add_strats migrate_lps
      reset_approvals whitelist_workers add_worker_strategy
  run_plan-queue_all s001 w = queue_all-single _ w
  run_plan-queue_all (s007 vault impl debt_token pid) w =
      upgrade_vault_with-queue_all vault impl debt_token pid w
  run_plan-queue_all (s009 proxies) w = each-map admin_request proxies w
  run_plan-queue_all (s010 params) w = each-map params_request params w
  run_plan-queue_all (s011 updates) w = each-map factors_request updates w
  run_plan-queue_all (s012 add liq strategy workers) w =
      each-queue_all _ _
        (λ worker w1.
          >>=-agree (set_critical t net worker add liq)
            (queue_all t net (critical_requests worker add liq)) _ _ w1
            (set_critical-queue_all worker add liq w1) (λ u w2. queue_all-single _ w2)
          ∙ queue_all-append (critical_requests worker add liq) _ w1)
        workers w
  run_plan-queue_all (s014 workers impl) w = upgrade_workers_with-queue_all workers impl w
  run_plan-queue_all (s015 migrations) w = each-map migration_request migrations w
  run_plan-queue_all (s016 rows) w =
      each-queue_all _ (λ r. map (approval_request r.worker_addr) r.reset_approved)
        (λ r w1. each-map (approval_request r.worker_addr) r.reset_approved w1) rows w
  run_plan-queue_all (s020 rows) w = each-map whitelist_request rows w
