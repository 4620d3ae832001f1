-- ===== src/Tests/Timelocks.antt =====
-- The theorems of Deploy.Timelocks with a timelock of one admin and a delay of two days.
use huski_bsc_contract.Base.{
  ◌+◌, ◌*◌, ◌≡◌, refl, ◌&&◌, some, List, [], ◌∷◌, ◌++◌, Bytes, leb, ◌==◌, ok, err,
}
use huski_bsc_contract.Evm.{external_call_failed}
use huski_bsc_contract.Deploy.{World, Network, reverted, text, pure, ◌>>=◌, expect}
use huski_bsc_contract.Deploy.Timelocks.{
  AbiValue, address, number, flag, addresses, factors, Timelocks, each, queue_at, queue_transaction,
}
use huski_bsc_contract.Deploy.Timelocks.Scripts.{reset_approvals}
use huski_bsc_contract.Deploy.Timelocks.Plan.{Plan, s012, s016, run_plan, requests}
use huski_bsc_contract.Deploy.Timelocks.Runs.{}
use huski_bsc_contract.Deploy.Timelocks.Queued.{HasEnded, run_plan-HasEnded}
use huski_bsc_contract.Deploy.Timelocks.Plan.{concat_map}
use huski_bsc_contract.Deploy.Timelocks.Accepted.{none_asked, first_accepted, run_plan_goes}
use huski_bsc_contract.Deploy.Timelocks.Signatures.{AllWellTyped, requests-AllWellTyped}
use huski_bsc_contract.Tests.Scripts.{world, network}

abbrev encoded : List AbiValue → Bytes
encoded [] = []
encoded (address a ∷ rest) = a ∷ encoded rest
encoded (number n ∷ rest) = n ∷ encoded rest
encoded (flag b ∷ rest) = 1 ∷ encoded rest
encoded (addresses l ∷ rest) = l ++ encoded rest
encoded (factors l ∷ rest) = 0 ∷ encoded rest

abbrev timelocks : Timelocks
timelocks = record {
  accepts = λ timelock sender now eta. (sender == 50) && leb (now + 172800) eta;
  encode = λ types values. some (encoded values);
  prepare_upgrade = λ proxy. pure 99;
}

-- Every transaction is mined a day after the one before.
abbrev daily : Network
daily = record network { now = λ nonce. 1618600000 + 86400 * nonce }

abbrev resets : Plan
resets = s016 (
    (record {
      worker_name = text "A";
      worker_addr = 300;
      reset_approved =
          (record { token = 301; spender = 302 }) ∷ (record { token = 303; spender = 304 }) ∷ [];
    })
    ∷ (record {
      worker_name = text "B";
      worker_addr = 400;
      reset_approved =
          (record { token = 401; spender = 402 }) ∷ (record { token = 403; spender = 404 }) ∷ [];
    })
    ∷ [])

-- a world in which the third transaction comes too late
abbrev early_world : World
early_world = record world { deployer = 50; nonce = 4 }

abbrev late_world : World
late_world = (run_plan timelocks daily resets early_world).1

resets_run :
    run_plan timelocks daily resets early_world ≡ (err (reverted external_call_failed), late_world)
unfolding run_plan reset_approvals each queue_transaction queue_at ◌>>=◌ expect
resets_run = refl

resets_queued : late_world.nonce ≡ 6
unfolding run_plan reset_approvals each queue_transaction queue_at ◌>>=◌ expect
resets_queued = refl

run_plan-HasEnded_example :
    HasEnded timelocks daily
      (requests resets)
      early_world
      (err (reverted external_call_failed))
      late_world
run_plan-HasEnded_example =
    run_plan-HasEnded timelocks daily resets early_world late_world
      (err (reverted external_call_failed)) resets_run

requests-AllWellTyped_example : AllWellTyped (requests (s012 (some 7) (some 8) (9 ∷ []) (10 ∷ [])))
requests-AllWellTyped_example = requests-AllWellTyped (s012 (some 7) (some 8) (9 ∷ []) (10 ∷ []))

-- a world in which all transactions are in time
abbrev timely_world : World
timely_world = record world { deployer = 50; nonce = 2 }

run_plan_goes_example :
    (w' : World) × (run_plan timelocks daily resets timely_world ≡ (ok tt, w'))
    × HasEnded timelocks daily (requests resets) timely_world (ok tt) w'
unfolding requests concat_map
run_plan_goes_example = run_plan_goes timelocks daily resets timely_world (
    first_accepted _ refl refl (
      first_accepted _ refl refl
        (first_accepted _ refl refl (first_accepted _ refl refl none_asked))))
