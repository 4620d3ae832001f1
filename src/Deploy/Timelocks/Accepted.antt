-- ===== src/Deploy/Timelocks/Accepted.antt =====
-- deploy/setup/s001 to s020: which scripts go through.
use huski_bsc_contract.Base.{ℕ, ◌+◌, ◌≡◌, refl, ◌∙◌, true, some, List, [], ◌∷◌, ◌++◌, Bytes, ok}
use huski_bsc_contract.Deploy.{World, Network}
use huski_bsc_contract.Deploy.Steps.{>>=-go}
use huski_bsc_contract.Deploy.Timelocks.{Request, Timelocks, each, queue_transaction, queue_all}
use huski_bsc_contract.Deploy.Timelocks.Plan.{Plan, run_plan, requests}
use huski_bsc_contract.Deploy.Timelocks.Runs.{run_plan-queue_all}
use huski_bsc_contract.Deploy.Timelocks.Queued.{
  call_of, queue_transaction-accepted, HasEnded, run_plan-HasEnded,
}

module _ (t : Timelocks) (net : Network) where
  -- Requests that ethers encodes, and that the timelock accepts in transactions one after the other
  -- from a nonce on.
  pub data AllAccepted (deployer : ℕ) : ℕ → List Request → Type 0 where
    none_asked : {nonce : ℕ} → AllAccepted deployer nonce []
    first_accepted :
        {nonce : ℕ} {r : Request} {rs : List Request} (call_data : Bytes)
        → t.encode r.types r.values ≡ some call_data
        → t.accepts r.timelock deployer (net.now nonce) r.eta ≡ true
        → AllAccepted deployer (nonce + 1) rs
        → AllAccepted deployer nonce (r ∷ rs)

  queue_all_goes :
      (rs : List Request) (w : World)
      → AllAccepted w.deployer w.nonce rs
      → (w' : World) × (queue_all t net rs w ≡ (ok tt, w'))
  unfolding queue_all each
  queue_all_goes [] w none_asked = (w, refl)
  queue_all_goes (x ∷ rs) w (first_accepted call_data encoded accepted later) =
      let w1 : World = record w {
        queued = w.queued ++ (call_of t net x call_data ∷ []);
        nonce = w.nonce + 1;
      } in
      let (w', goes) = queue_all_goes rs w1 later in
      (
        w',
        >>=-go (queue_transaction t net x) (λ _. queue_all t net rs) w
            (queue_transaction-accepted t net x w encoded accepted) goes,
      )

  -- A script, run with any tables and with the new implementation of an upgrade set, goes through
  -- where ethers encodes every request of its list and the timelock accepts each in its turn. Then
  -- all of them are queued.
  pub run_plan_goes :
      (plan : Plan) (w : World)
      → AllAccepted w.deployer w.nonce (requests plan)
      → (w' : World) × (run_plan t net plan w ≡ (ok tt, w'))
        × HasEnded t net (requests plan) w (ok tt) w'
  run_plan_goes plan w all =
      let (w', goes) = queue_all_goes (requests plan) w all in
      let runs = run_plan-queue_all t net plan w ∙ goes in
      (w', runs, run_plan-HasEnded t net plan w w' (ok tt) runs)
