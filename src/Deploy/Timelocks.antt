-- ===== src/Deploy/Timelocks.antt =====
-- deploy/setup/s001, s007, s009, s010, s011, s012, s014, s015, s016 and s020: the scripts that queue
-- transactions on the timelock. The timelock is Compound's, and the encoding is the coder of
-- ethers; both are a `Timelocks`. An address of a table is its number. What a script prints for
-- the execution later is left out, and so are the options on gas.
pub mod Tables
pub mod Requests
pub mod Scripts
pub mod Plan
pub mod Runs
pub mod Queued
pub mod Accepted
pub mod Signatures
use huski_bsc_contract.Base.{
  ◌+◌, ℕ, Bool, Option, none, some, List, [], ◌∷◌, ◌++◌, if◌then◌else◌, Bytes, Result, ok, err,
}
use huski_bsc_contract.Evm.{Revert, external_call_failed}
use huski_bsc_contract.Workers.{WorkerFactors}
use huski_bsc_contract.Deploy.{
  ◌>>=◌, Address, World, Network, QueuedCall, Script, bad_argument, reverted, pure, expect,
}

-- A value for `defaultAbiCoder.encode`.
pub data AbiValue : Type 0 where
  address : ℕ → AbiValue
  number : ℕ → AbiValue
  flag : Bool → AbiValue
  addresses : List ℕ → AbiValue
  factors : List WorkerFactors → AbiValue

-- What a script asks of a timelock: the arguments of `queueTransaction`, where the data is still
-- to be encoded from its types and values.
pub record Request : Type 0 where
  pub timelock : ℕ
  pub target : ℕ
  pub value : ℕ
  pub signature : Bytes
  pub types : List Bytes
  pub values : List AbiValue
  pub eta : ℕ

-- `accepts timelock sender now eta` tells whether `queueTransaction` goes through, and
-- `prepare_upgrade` is the function of OpenZeppelin's plugin that deploys an implementation.
pub record Timelocks : Type 0 where
  pub accepts : ℕ → ℕ → ℕ → ℕ → Bool
  pub encode : List Bytes → List AbiValue → Option Bytes
  pub prepare_upgrade : ℕ → Script ℕ

-- `for (let i = 0; i < rows.length; i++)`
unfoldable pub each : {A : Type 0} → (A → Script (Unit {0})) → List A → Script (Unit {0})
each f [] = pure tt
each f (row ∷ rows) = f row >>= λ _. each f rows

module _ (t : Timelocks) (net : Network) where
  -- `queueTransaction` with encoded data. Where it would revert, the estimate of its gas fails
  -- before anything is sent.
  unfoldable pub queue_at : Request → Bytes → Script (Unit {0})
  queue_at r call_data w =
      if t.accepts r.timelock w.deployer (net.now w.nonce) r.eta
      then (
        ok tt,
        record w {
          nonce = w.nonce + 1;
          queued =
              w.queued
              ++ (record {
                timelock = r.timelock;
                target = r.target;
                value = r.value;
                signature = r.signature;
                call_data = call_data;
                eta = r.eta;
              }
                  ∷ []);
        },
      )
      else (err (reverted external_call_failed), w)

  -- `timelock.queueTransaction(target, value, signature, encode(types, values), eta)`
  unfoldable pub queue_transaction : Request → Script (Unit {0})
  queue_transaction r =
      expect bad_argument (t.encode r.types r.values) >>= λ call_data. queue_at r call_data

  -- the requests of a list, one after the other
  unfoldable pub queue_all : List Request → Script (Unit {0})
  unfolding each
  queue_all = each queue_transaction

-- A row of s010.
pub record NewParams : Type 0 where
  pub vault_name : Bytes
  pub vault_config : ℕ
  pub min_debt_size : ℕ
  pub reserve_pool_bps : ℕ
  pub kill_prize_bps : ℕ
  pub interest_model : ℕ
  pub wbnb : ℕ
  pub wnative_relayer : ℕ
  pub fairlaunch : ℕ
  pub timelock : ℕ
  pub exact_eta : ℕ

-- A row of s011.
pub record FactorsUpdate : Type 0 where
  pub worker_address : ℕ
  pub factors : WorkerFactors

-- A row of s015.
pub record Migration : Type 0 where
  pub worker_name : Bytes
  pub worker_addr : ℕ
  pub router_v2 : ℕ
  pub new_pool_id : ℕ
  pub twoside_optimal_migration_strat_addr : ℕ
  pub add_strat : ℕ
  pub liq_strat : ℕ
  pub ok_strats : List ℕ
  pub disable_strats : List ℕ

pub record Approval : Type 0 where
  pub token : ℕ
  pub spender : ℕ

-- A row of s016.
pub record ResetApproval : Type 0 where
  pub worker_name : Bytes
  pub worker_addr : ℕ
  pub reset_approved : List Approval

-- A row of s020.
pub record WhitelistedWorkers : Type 0 where
  pub strat_name : Bytes
  pub strat_addr : ℕ
  pub workers : List ℕ
