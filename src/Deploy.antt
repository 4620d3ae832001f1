-- ===== src/Deploy.antt =====
-- What the scripts under deploy/ share: the results files (deploy/results), the chain that they
-- talk to, and the steps of a script. `deploy/utils/file.ts` writes a results file.
pub mod Chain
pub mod Steps
pub mod VaultConfigs
pub mod Vaults
pub mod Workers
pub mod Timelocks
use Prim.Native.Char.{code}
use Prim.Native.String
use Prim.Native.String.{String}
use huski_bsc_contract.Base.{
  ℕ, zero, suc, ◌+◌, ◌≡◌, Bool, true, false, Option, none, some, List, [], ◌∷◌, ◌++◌, get_elem?,
  if◌then◌else◌, Bytes, bytes_eq, ℤ, Result, ok, err,
}
use huski_bsc_contract.Merkle.{lookup, assign}
use huski_bsc_contract.Evm.{Revert, no_contract, OpenZeppelin, update}
use huski_bsc_contract.FairLaunch.{FairLaunch, Block}
use huski_bsc_contract.Contracts.{BasicVaultConfig, DebtToken, Vault, WNativeRelayer}
use huski_bsc_contract.Workers.{PancakeSwap, Worker, Strategy, WorkerConfig}

-- The code units of an ASCII literal.
abbrev pub text : String → Bytes
text String.[] = []
text (String.◌∷◌ c s) = code c ∷ text s

-- An address in a results file: `none` is an empty or a missing one, which ethers refuses.
abbrev pub Address : Type 0
Address = Option ℕ

pub record WorkerEntry : Type 0 where
  pub name : Bytes
  pub address : ℕ
  pub config : Address
  pub p_id : ℤ

pub record VaultEntry : Type 0 where
  pub name : Bytes
  pub symbol : Bytes
  pub address : Address
  pub base_token : Address
  pub debt_token : Address
  pub config : Address
  pub triple_slope_model : Address
  pub strategy_add_two_sides_optimal : Address
  pub workers : List WorkerEntry

pub record PoolEntry : Type 0 where
  pub id : ℕ
  pub staking_token : Bytes
  pub address : ℕ

-- The parts of deploy/results/mainnet.json and testnet.json that the scripts below read or write.
pub record Config : Type 0 where
  pub native_address : Address
  pub timelock : Address
  pub admin_address : Address
  pub wnative_relayer : Address
  pub high_interest_triple_slope_model : Address
  pub low_interest_triple_slope_model : Address
  pub worker_config : Address
  pub strategy_add_base_token_only : Address
  pub strategy_liquidate : Address
  pub strategy_withdraw_minimize_trading : Address
  pub strategy_partial_close_liquidate : Address
  pub strategy_partial_close_minimize_trading : Address
  pub master_chef : Address
  pub router_v2 : Address
  pub tokens : List (Bytes × ℕ)
  pub fair_launch_address : Address
  pub fair_launch_pools : List PoolEntry
  pub vaults : List VaultEntry

-- A call of a timelock's `queueTransaction` that has gone through.
pub record QueuedCall : Type 0 where
  pub timelock : ℕ
  pub target : ℕ
  pub value : ℕ
  pub signature : Bytes
  pub call_data : Bytes
  pub eta : ℕ

-- The chain and the machine that runs the scripts. `nonce` counts the transactions of the
-- deployer, `queued` lists the calls that queue a transaction on a timelock,
-- `mainnet` and `testnet` are the imported objects, `disk` the files by name.
pub record World : Type 0 where
  pub deployer : ℕ
  pub nonce : ℕ
  pub configs : ℕ → Option BasicVaultConfig
  pub debts : ℕ → Option DebtToken
  pub vaults : ℕ → Option Vault
  pub fair_launches : ℕ → Option FairLaunch
  pub relayers : ℕ → Option WNativeRelayer
  pub workers : ℕ → Option Worker
  pub strategies : ℕ → Option Strategy
  pub worker_configs : ℕ → Option WorkerConfig
  pub queued : List QueuedCall
  pub mainnet : Config
  pub testnet : Config
  pub disk : List (Bytes × Config)

-- The network: its name, the address of the contract that the n-th transaction creates, and the
-- block and the time in which the n-th transaction is mined.
pub record Network : Type 0 where
  pub name : Bytes
  pub zeppelin : OpenZeppelin
  pub pancake : PancakeSwap
  pub create : ℕ → ℕ
  pub block : ℕ → Block
  pub now : ℕ → ℕ

-- A failed transaction, an argument that ethers refuses, or a field of `undefined`.
pub data ScriptError : Type 0 where
  reverted : Revert → ScriptError
  bad_argument : ScriptError
  undefined_field : ScriptError
  unsafe_number : ScriptError

-- A script that fails keeps what it has done so far.
abbrev pub Script : Type 0 → Type 0
Script A = World → Result ScriptError A × World

infixl 5 ◌>>=◌ ◌>>◌
unfoldable pub ◌>>=◌ : {A B : Type 0} → Script A → (A → Script B) → Script B
◌>>=◌ m f w = let (r, w') = m w in elim r [ ok a ↦ f a w' | err e ↦ (err e, w') ]

abbrev pub ◌>>◌ : {A B : Type 0} → Script A → Script B → Script B
m >> k = m >>= λ _. k

abbrev pub pure : {A : Type 0} → A → Script A
pure a w = (ok a, w)

abbrev pub gets : {A : Type 0} → (World → A) → Script A
gets f w = (ok (f w), w)

abbrev pub modify : (World → World) → Script (Unit {0})
modify f w = (ok tt, f w)

-- The value of an `Option`, or the error of a missing one.
unfoldable pub expect : {A : Type 0} → ScriptError → Option A → Script A
expect e none w = (err e, w)
expect e (some a) w = (ok a, w)

-- `config = network.name === "mainnet" ? MainnetConfig : TestnetConfig`
unfoldable pub config_of : Network → World → Config
config_of net w = if bytes_eq net.name (text "mainnet") then w.mainnet else w.testnet

-- An assignment to a field of `config`.
unfoldable pub set_config : Network → Config → World → World
set_config net c w =
    let main = bytes_eq net.name (text "mainnet") in
    record w { mainnet = if main then c else w.mainnet; testnet = if main then w.testnet else c }

-- `FileService.write(network.name, config)`
unfoldable pub write_config : Network → World → World
unfolding config_of
write_config net w = record w { disk = assign net.name (config_of net w) w.disk }

-- The contract at an address, for a call of it.
unfoldable pub contract_at : {A : Type 0} → (ℕ → Option A) → ℕ → Result Revert A
contract_at m a = elim (m a) [ none ↦ err no_contract | some c ↦ ok c ]

-- How a transaction ends: a revert undoes all but the nonce.
unfoldable pub settle :
    {A : Type 0} → A → World → Result Revert World → Result ScriptError A × World
settle a w (ok w') = (ok a, record w' { nonce = w.nonce + 1 })
settle a w (err r) = (err (reverted r), record w { nonce = w.nonce + 1 })

-- A transaction of the deployer.
unfoldable pub transact : (World → Result Revert World) → Script (Unit {0})
unfolding settle
transact step w = settle tt w (step w)

-- A transaction that creates a contract, with the address that it gets.
unfoldable pub create_contract : Network → (ℕ → World → Result Revert World) → Script ℕ
unfolding settle
create_contract net make w = settle (net.create w.nonce) w (make (net.create w.nonce) w)
