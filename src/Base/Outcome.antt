-- ===== src/Base/Outcome.antt =====
-- A value or an error: a JavaScript exception, or the revert of a transaction.
use mathlib.Core.Path.{◌≡◌, refl}
use mathlib.Core.Bool.{Bool, true, false}

pub data Result (E A : Type 0) : Type 0 where
  ok : A → Result E A
  err : E → Result E A

module _ {E : Type 0} where
  -- `require(test, reason)`, or `if (!test) throw reason`
  abbrev pub require : Bool → E → Result E (Unit {0})
  require false reason = err reason
  require true reason = ok tt

  infixl 5 ◌>>=◌
  -- The first error ends the chain.
  abbrev pub ◌>>=◌ : {A B : Type 0} → Result E A → (A → Result E B) → Result E B
  err reason >>= next = err reason
  ok value >>= next = next value

  infixl 5 ◌>>◌
  abbrev pub ◌>>◌ : {B : Type 0} → Result E (Unit {0}) → Result E B → Result E B
  first >> second = first >>= λ u. second

  -- A chain that gives a value has a first value, from which the rest gives it.
  pub >>=-eq-ok :
      {A B : Type 0} (first : Result E A) (rest : A → Result E B) {final : B}
      → (first >>= rest) ≡ ok final
      → (value : A) × (first ≡ ok value) × (rest value ≡ ok final)
  >>=-eq-ok (err reason) rest done = absurd (cc)
  >>=-eq-ok (ok value) rest done = (value, refl, done)

  -- The same, for a proof that goes on under names for the value and the equations.
  pub >>=-use {ℓ} :
      {A B : Type 0} {P : Type ℓ} (m : Result E A) (f : A → Result E B) {b : B}
      → (m >>= f) ≡ ok b
      → ((a : A) → m ≡ ok a → f a ≡ ok b → P)
      → P
  >>=-use (ok a) f h k = k a refl h
  >>=-use (err e) f h k = absurd (cc)

  pub require-eq-ok : (b : Bool) (e : E) {u : Unit {0}} → require b e ≡ ok u → b ≡ true
  require-eq-ok true e h = refl
  require-eq-ok false e h = absurd (cc)
