-- ===== src/Deploy/Steps.antt =====
-- The steps of the scripts under deploy/: what a step that goes through has done.
use huski_bsc_contract.Base.{
  ℕ, ◌+◌, ◌≡◌, refl, ◌∙◌, ap, Option, none, some, arith, bytes_eq_refl, Result, ok, err,
}
use huski_bsc_contract.Merkle.{lookup}
use huski_bsc_contract.Merkle.Positions.{lookup-assign}
use huski_bsc_contract.Evm.{Revert, update, update_here}
use huski_bsc_contract.Deploy.{
  Config, World, Network, ScriptError, Script, ◌>>=◌, expect, config_of, set_config, write_config,
  contract_at, settle, transact, create_contract,
}

-- A script that goes through has gone through its first step, and then through the rest.
pub >>=-then {ℓ} :
    {A B : Type 0} {P : Type ℓ} (m : Script A) (f : A → Script B) (w : World) {b : B} {w' : World}
    → (m >>= f) w ≡ (ok b, w')
    → ((a : A) (w1 : World) → m w ≡ (ok a, w1) → f a w1 ≡ (ok b, w') → P)
    → P
unfolding ◌>>=◌
>>=-then {A} {B} {P} m f w {b} {w'} h k = go (m w) refl h
  where
    go :
        (r : Result ScriptError A × World)
        → m w ≡ r
        → (elim r.0 [ ok a ↦ f a r.1 | err e ↦ (err e, r.1) ]) ≡ (ok b, w')
        → P
    go (ok a, w1) e h' = k a w1 e h'
    go (err x, w1) e h' = absurd (cc)

-- A step that goes through leads to the rest.
pub >>=-go :
    {A B : Type 0} (m : Script A) (f : A → Script B) (w : World) {a : A} {w1 : World}
    {r : Result ScriptError B × World}
    → m w ≡ (ok a, w1)
    → f a w1 ≡ r
    → (m >>= f) w ≡ r
unfolding ◌>>=◌
>>=-go m f w h k = ap (λ x. elim x.0 [ ok a ↦ f a x.1 | err e ↦ (err e, x.1) ]) h ∙ k

-- A step that fails ends the script.
pub >>=-stop :
    {A B : Type 0} (m : Script A) (f : A → Script B) (w : World) {e : ScriptError} {w1 : World}
    → m w ≡ (err e, w1)
    → (m >>= f) w ≡ (err e, w1)
unfolding ◌>>=◌
>>=-stop m f w h = ap (λ x. elim x.0 [ ok a ↦ f a x.1 | err e ↦ (err e, x.1) ]) h

pub expect-none :
    {A : Type 0} (e : ScriptError) (o : Option A) (w : World) → o ≡ none → expect e o w ≡ (err e, w)
unfolding expect
expect-none e o w h = rw h refl

pub expect-some :
    {A : Type 0} (e : ScriptError) (o : Option A) (w : World) {a : A}
    → o ≡ some a
    → expect e o w ≡ (ok a, w)
unfolding expect
expect-some e o w h = rw h refl

pub transact-ok :
    (step : World → Result Revert World) (w : World) {w1 : World}
    → step w ≡ ok w1
    → transact step w ≡ (ok tt, record w1 { nonce = w.nonce + 1 })
unfolding transact
transact-ok step w h = ap (settle tt w) h

pub create_contract-ok :
    (net : Network) (make : ℕ → World → Result Revert World) (w : World) {w1 : World}
    → make (net.create w.nonce) w ≡ ok w1
    → create_contract net make w ≡ (ok (net.create w.nonce), record w1 { nonce = w.nonce + 1 })
unfolding create_contract
create_contract-ok net make w h = ap (settle (net.create w.nonce) w) h

-- An address or entry that is there leads to the rest.
pub expect-go :
    {A B : Type 0} (e : ScriptError) (o : Option A) (f : A → Script B) (w : World) {a : A}
    {r : Result ScriptError B × World}
    → o ≡ some a
    → f a w ≡ r
    → (expect e o >>= f) w ≡ r
expect-go e o f w h k = >>=-go (expect e o) f w (expect-some e o w h) k

-- A transaction that goes through leads to the rest.
pub transact-go :
    {B : Type 0} (step : World → Result Revert World) (f : Unit {0} → Script B) (w : World)
    {w1 : World} {r : Result ScriptError B × World}
    → step w ≡ ok w1
    → f tt (record w1 { nonce = w.nonce + 1 }) ≡ r
    → (transact step >>= f) w ≡ r
transact-go step f w h k = >>=-go (transact step) f w (transact-ok step w h) k

pub expect-eq_ok :
    {A : Type 0} (e : ScriptError) (o : Option A) (w : World) {a : A} {w' : World}
    → expect e o w ≡ (ok a, w')
    → (o ≡ some a) × (w' ≡ w)
unfolding expect
expect-eq_ok e none w h = absurd (cc)
expect-eq_ok e (some a) w h = (ground arith, ground arith)

settle-eq_ok :
    {A : Type 0} (v : A) (w : World) (r : Result Revert World) {a : A} {w' : World}
    → settle v w r ≡ (ok a, w')
    → (w1 : World) × (a ≡ v) × (r ≡ ok w1) × (w' ≡ record w1 { nonce = w.nonce + 1 })
unfolding settle
settle-eq_ok v w (ok x) h = (x, ground arith, refl, ground arith)
settle-eq_ok v w (err r) h = absurd (cc)

pub transact-eq_ok :
    (step : World → Result Revert World) (w : World) {u : Unit {0}} {w' : World}
    → transact step w ≡ (ok u, w')
    → (w1 : World) × (step w ≡ ok w1) × (w' ≡ record w1 { nonce = w.nonce + 1 })
unfolding transact
transact-eq_ok step w h =
    let (w1, _, done, after) = settle-eq_ok tt w (step w) h in (w1, done, after)

pub create_contract-eq_ok :
    (net : Network) (make : ℕ → World → Result Revert World) (w : World) {a : ℕ} {w' : World}
    → create_contract net make w ≡ (ok a, w')
    → (w1 : World) × (a ≡ net.create w.nonce)
      × (make (net.create w.nonce) w ≡ ok w1)
      × (w' ≡ record w1 { nonce = w.nonce + 1 })
unfolding create_contract
create_contract-eq_ok net make w h =
    settle-eq_ok (net.create w.nonce) w (make (net.create w.nonce) w) h

pub contract_at-eq_ok :
    {A : Type 0} (m : ℕ → Option A) (a : ℕ) {c : A} → contract_at m a ≡ ok c → m a ≡ some c
unfolding contract_at
contract_at-eq_ok m a h = ground arith

-- What is assigned to the config is read from it.
pub config_of-set_config :
    (net : Network) (c : Config) (w : World) → config_of net (set_config net c w) ≡ c
unfolding config_of set_config
config_of-set_config net c w = ground arith

-- A written file holds the config, and the config stays.
pub write_config_lem :
    (net : Network) (w : World)
    → (lookup net.name (write_config net w).disk ≡ some (config_of net w))
      × (config_of net (write_config net w) ≡ config_of net w)
unfolding write_config config_of
write_config_lem net w = (
  lookup-assign net.name net.name (config_of net w) w.disk ∙ ground (arith, bytes_eq_refl net.name),
  refl,
)

-- What is stored in a mapping that is known by an equation.
pub set_here : {V : Type 0} (m : ℕ → V) {m' : ℕ → V} (k : ℕ) (v : V) → m' ≡ update m k v → m' k ≡ v
set_here m k v h = ap (λ f. f k) h ∙ update_here m k v

-- A step behind an address that may be missing, where the step refuses an argument, too.
pub expect-refused :
    {A B : Type 0} (e : ScriptError) (o : Option A) (f : A → Script B) (w : World)
    → ((a : A) → f a w ≡ (err e, w))
    → (expect e o >>= f) w ≡ (err e, w)
expect-refused e none f w h = >>=-stop (expect e none) f w (expect-none e none w refl)
expect-refused e (some a) f w h = expect-go e (some a) f w refl (h a)
