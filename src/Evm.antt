-- ===== src/Evm.antt =====
-- What the contracts under contracts/6 share: addresses, reverts, mappings, and the packages of
-- OpenZeppelin that they inherit from or use. An address and a uint256 are numbers; the zero
-- address is 0. A mapping is a function.
use huski_bsc_contract.Base.{
  ℕ, ◌+◌, ◌-◌, ◌*◌, ◌/◌, ◌^◌, ◌≡◌, ◌<◌, Bool, true, Option, none, some, ◌==◌, if◌then◌else◌, Result,
  ok, err, arith, refl, test_refl, test_of_ne,
}

-- The reason of a revert.
pub data Revert : Type 0 where
  not_owner safe_math bad_index : Revert
  kill_bps_exceeded bad_length : Revert
  no_stake_token duplicate_stake_token : Revert
  not_dev bad_bonus_end bad_bonus_multiplier : Revert
  husky_call_failed : Revert
  safe_approve_failed : Revert
  transfer_ownership_failed : Revert
  bounty_exceeded max_bounty_too_low lp_mismatch bad_reserves : Revert
  not_eoa not_wnative bad_value tiny_shares pool_id_not_set : Revert
  bad_position_id bad_position_worker not_position_owner not_worker no_more_debt : Revert
  insufficient_funds small_debt bad_work_factor no_debt cannot_liquidate : Revert
  external_call_failed : Revert
  no_contract : Revert

-- The largest uint256, `uint256(-1)`.
abbrev pub max_uint : ℕ
max_uint = 2 ^ 256 - 1

-- `m[k] = v`
abbrev pub update {ℓ} : {V : Type ℓ} → (ℕ → V) → ℕ → V → ℕ → V
update m k v j = if k == j then v else m j

-- What the contracts use of OpenZeppelin: `only_owner owner sender` is the modifier's test,
-- `transfer_ownership owner sender new` the new owner, `approve owner spender` whether
-- `approve` goes through, and `none` stands for a revert.
pub record OpenZeppelin : Type 0 where
  pub only_owner : ℕ → ℕ → Bool
  pub transfer_ownership : ℕ → ℕ → ℕ → Option ℕ
  pub approve : ℕ → ℕ → Bool
  pub add : ℕ → ℕ → Option ℕ
  pub sub : ℕ → ℕ → Option ℕ
  pub mul : ℕ → ℕ → Option ℕ
  pub div : ℕ → ℕ → Option ℕ

-- What its documentation says of them: `SafeMath` returns the exact result or reverts, only the
-- owner passes the modifier, and `transferOwnership` sets the owner.
pub record IsDocumented (z : OpenZeppelin) : Type 0 where
  pub owner_only : (o s : ℕ) → z.only_owner o s ≡ true → o ≡ s
  pub owner_passes : (o : ℕ) → z.only_owner o o ≡ true
  pub new_owner : (o s n : ℕ) {r : ℕ} → z.transfer_ownership o s n ≡ some r → r ≡ n
  pub exact_sum : (a b : ℕ) {c : ℕ} → z.add a b ≡ some c → c ≡ a + b
  pub exact_difference : (a b : ℕ) {c : ℕ} → z.sub a b ≡ some c → c + b ≡ a
  pub exact_product : (a b : ℕ) {c : ℕ} → z.mul a b ≡ some c → c ≡ a * b
  pub exact_quotient : (a b : ℕ) {c : ℕ} → z.div a b ≡ some c → (c ≡ a / b) × (0 < b)

-- `a.add(b)` and the like, as a step of a transaction
abbrev pub checked : {A : Type 0} → Option A → Result Revert A
checked none = err Revert.safe_math
checked (some a) = ok a

pub checked-eq-ok : {A : Type 0} (o : Option A) {a : A} → checked o ≡ ok a → o ≡ some a
checked-eq-ok none h = absurd (cc)
checked-eq-ok (some a) h = ground arith

-- What is stored at an address is read from it.
pub update_here : {V : Type 0} (m : ℕ → V) (k : ℕ) (v : V) → update m k v k ≡ v
update_here m k v = rw (test_refl k) refl

pub update_other : {V : Type 0} (m : ℕ → V) (k j : ℕ) (v : V) → ¬ (k ≡ j) → update m k v j ≡ m j
update_other m k j v h = rw (test_of_ne k j h) refl
