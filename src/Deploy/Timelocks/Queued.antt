-- ===== src/Deploy/Timelocks/Queued.antt =====
-- deploy/setup/s001 to s020: what has been queued when a script has ended.
use huski_bsc_contract.Base.{
  ℕ, ◌+◌, ◌≡◌, refl, sym, ◌∙◌, subst, true, false, Bool-cases, inl, inr, Option, none, some, List,
  [], ◌∷◌, ◌++◌, append_assoc, append-nil, Bytes, Result, ok, err,
}
use huski_bsc_contract.Evm.{external_call_failed}
use huski_bsc_contract.Deploy.{
  World, Network, QueuedCall, ScriptError, reverted, bad_argument, Script, expect,
}
use huski_bsc_contract.Deploy.Steps.{>>=-go, >>=-stop, expect-some, expect-none}
use huski_bsc_contract.Deploy.Timelocks.{
  Request, Timelocks, each, queue_at, queue_transaction, queue_all,
}
use huski_bsc_contract.Deploy.Timelocks.Plan.{Plan, run_plan, requests}
use huski_bsc_contract.Deploy.Timelocks.Runs.{run_plan-queue_all}

module _ (t : Timelocks) (net : Network) where
  -- The calls of the requests, each with its values encoded.
  pub data AllQueued : List Request → List QueuedCall → Type 0 where
    nothing : AllQueued [] []
    one_more :
        (r : Request) (call_data : Bytes) {rs : List Request} {calls : List QueuedCall}
        → t.encode r.types r.values ≡ some call_data
        → AllQueued rs calls
        → AllQueued (r ∷ rs) (
            (record {
              timelock = r.timelock;
              target = r.target;
              value = r.value;
              signature = r.signature;
              call_data = call_data;
              eta = r.eta;
            })
            ∷ calls)

  -- A request that ethers or the timelock refuses.
  pub data IsRefused (deployer : ℕ) (r : Request) : Type 0 where
    not_encoded : t.encode r.types r.values ≡ none → IsRefused deployer r
    not_accepted :
        (nonce : ℕ)
        → t.accepts r.timelock deployer (net.now nonce) r.eta ≡ false
        → IsRefused deployer r

  -- How a list of requests ends: all are queued, or those before one that is refused.
  pub data Ended (deployer : ℕ)
      : List Request → List QueuedCall → Result ScriptError (Unit {0}) → Type 0 where
    all_queued :
        {rs : List Request} {calls : List QueuedCall}
        → AllQueued rs calls
        → Ended deployer rs calls (ok tt)
    refused :
        (r : Request) (later : List Request) {rs : List Request} {calls : List QueuedCall}
        {e : ScriptError}
        → AllQueued rs calls
        → IsRefused deployer r
        → Ended deployer (rs ++ (r ∷ later)) calls (err e)

  -- The call of a request with its encoded data.
  pub call_of : Request → Bytes → QueuedCall
  call_of r call_data = record {
    timelock = r.timelock;
    target = r.target;
    value = r.value;
    signature = r.signature;
    call_data = call_data;
    eta = r.eta;
  }

  -- A list of requests ends with these calls more in the queue.
  pub record HasEnded (rs : List Request) (w : World) (r : Result ScriptError (Unit {0}))
      (w' : World) : Type 0 where
    pub calls : List QueuedCall
    pub queued_lem : w'.queued ≡ w.queued ++ calls
    pub ends : Ended w.deployer rs calls r

  pub queue_transaction-accepted :
      (x : Request) (w : World) {call_data : Bytes}
      → t.encode x.types x.values ≡ some call_data
      → t.accepts x.timelock w.deployer (net.now w.nonce) x.eta ≡ true
      → queue_transaction t net x w
        ≡ (ok tt, record w { queued = w.queued ++ (call_of x call_data ∷ []); nonce = w.nonce + 1 })
  unfolding queue_transaction queue_at call_of
  queue_transaction-accepted x w {call_data} encoded accepted =
      let goes : queue_at t net x call_data w ≡ (
        ok tt,
        record w { queued = w.queued ++ (call_of x call_data ∷ []); nonce = w.nonce + 1 },
      ) =
        rw accepted refl in
      >>=-go (expect bad_argument (t.encode x.types x.values)) (queue_at t net x) w
        (expect-some bad_argument _ w encoded) goes

  queue_transaction-refused :
      (x : Request) (w : World) {call_data : Bytes}
      → t.encode x.types x.values ≡ some call_data
      → t.accepts x.timelock w.deployer (net.now w.nonce) x.eta ≡ false
      → queue_transaction t net x w ≡ (err (reverted external_call_failed), w)
  unfolding queue_transaction queue_at
  queue_transaction-refused x w {call_data} encoded refuses =
      let reverts : queue_at t net x call_data w ≡ (err (reverted external_call_failed), w) =
        rw refuses refl in
      >>=-go (expect bad_argument (t.encode x.types x.values)) (queue_at t net x) w
        (expect-some bad_argument _ w encoded) reverts

  queue_transaction-not_encoded :
      (x : Request) (w : World)
      → t.encode x.types x.values ≡ none
      → queue_transaction t net x w ≡ (err bad_argument, w)
  unfolding queue_transaction
  queue_transaction-not_encoded x w missing =
      >>=-stop (expect bad_argument (t.encode x.types x.values)) (queue_at t net x) w
        (expect-none bad_argument _ w missing)

  HasEnded-eq :
      (rs : List Request) (w : World) {r r' : Result ScriptError (Unit {0})} {w' w1 : World}
      → ◌≡◌ {A = Result ScriptError (Unit {0}) × World} (r, w1) (r', w')
      → HasEnded rs w r w1
      → HasEnded rs w r' w'
  HasEnded-eq rs w e h = subst (λ x. HasEnded rs w x.0 x.1) e h

  one_more-Ended :
      (x : Request) (call_data : Bytes) {deployer : ℕ} {rs : List Request} {calls : List QueuedCall}
      {r : Result ScriptError (Unit {0})}
      → t.encode x.types x.values ≡ some call_data
      → Ended deployer rs calls r
      → Ended deployer (x ∷ rs) (call_of x call_data ∷ calls) r
  unfolding call_of
  one_more-Ended x call_data encoded (all_queued all) =
      all_queued (one_more x call_data encoded all)
  one_more-Ended x call_data encoded (refused y later all no_more) =
      refused y later (one_more x call_data encoded all) no_more

  queue_all-HasEnded :
      (rs : List Request) (w w' : World) (r : Result ScriptError (Unit {0}))
      → queue_all t net rs w ≡ (r, w')
      → HasEnded rs w r w'
  unfolding queue_all each
  queue_all-HasEnded [] w w' r h =
      HasEnded-eq [] w h
        (record { calls = []; queued_lem = sym (append-nil w.queued); ends = all_queued nothing })
  queue_all-HasEnded (x ∷ rs) w w' r h =
      encode_cases (λ w1. queue_all-HasEnded rs w1 w' r) (t.encode x.types x.values) refl
    where
      rest : Unit {0} → Script (Unit {0})
      rest u = queue_all t net rs

      stopped :
          {e : ScriptError} {w1 : World}
          → queue_transaction t net x w ≡ (err e, w1)
          → w1.queued ≡ w.queued
          → IsRefused w.deployer x
          → HasEnded (x ∷ rs) w r w'
      stopped {e} {w1} stop same no_more =
          HasEnded-eq (x ∷ rs) w (sym (>>=-stop (queue_transaction t net x) _ w stop) ∙ h) (record {
            calls = [];
            queued_lem = same ∙ sym (append-nil w.queued);
            ends = refused x rs nothing no_more;
          })

      encode_cases :
          ((w1 : World) → queue_all t net rs w1 ≡ (r, w') → HasEnded rs w1 r w')
          → (o : Option Bytes) → t.encode x.types x.values ≡ o
          → HasEnded (x ∷ rs) w r w'
      encode_cases hyp none missing =
          stopped (queue_transaction-not_encoded x w missing) refl (not_encoded missing)
      encode_cases hyp (some call_data) encoded =
          elim (Bool-cases (t.accepts x.timelock w.deployer (net.now w.nonce) x.eta)) [
            | inl accepted ↦
                let w1 : World = record w {
                  queued = w.queued ++ (call_of x call_data ∷ []);
                  nonce = w.nonce + 1;
                } in
                let later : queue_all t net rs w1 ≡ (r, w') =
                  sym (
                    >>=-go (queue_transaction t net x) _ w
                      (queue_transaction-accepted x w encoded accepted) refl)
                  ∙ h in
                let k = hyp w1 later in
                record {
                  calls = call_of x call_data ∷ k.calls;
                  queued_lem =
                      k.queued_lem ∙ append_assoc w.queued (call_of x call_data ∷ []) k.calls;
                  ends = one_more-Ended x call_data encoded k.ends;
                }
            | inr refuses ↦
                stopped (queue_transaction-refused x w encoded refuses) refl
                  (not_accepted w.nonce refuses)
          ]

  -- However a script ends that is run with any tables, and with the new implementation of an
  -- upgrade set: the calls that it has queued are those of its list, encoded and in order; either it
  -- went through and they are all of the list, or it failed and they are those before a request that
  -- ethers does not encode or that the timelock does not accept.
  pub run_plan-HasEnded :
      (plan : Plan) (w w' : World) (r : Result ScriptError (Unit {0}))
      → run_plan t net plan w ≡ (r, w')
      → HasEnded (requests plan) w r w'
  run_plan-HasEnded plan w w' r h =
      queue_all-HasEnded (requests plan) w w' r (sym (run_plan-queue_all t net plan w) ∙ h)
