-- ===== src/Base/Sums.antt =====
-- Sums of the values of a function.
use Prim.Native.Nat.{ℕ, zero, suc, ◌+◌, ◌≤◌, ◌<◌}
use mathlib.Core.Path.{◌≡◌, refl}
use mathlib.Core.Logic.{inl, inr}
use native.Mathlib.Omega.{arith}
use huski_bsc_contract.Base.Tests.{◌==◌, Bool-cases, eq_of_test}

-- The sum of the values below a number.
unfoldable pub sum_below : ℕ → (ℕ → ℕ) → ℕ
sum_below zero f = 0
sum_below (suc n) f = sum_below n f + f n

pub sum_below_same :
    (n : ℕ) (f g : ℕ → ℕ) → ((i : ℕ) → i < n → g i ≡ f i) → sum_below n g ≡ sum_below n f
unfolding sum_below
sum_below_same zero f g h = refl
sum_below_same (suc n) f g h =
    omega (arith, sum_below_same n f g (λ i i_lt. h i (omega (arith, i_lt))), h n (omega arith))

-- The sum where one value changes.
pub sum_below-change :
    (n id : ℕ) (f g : ℕ → ℕ)
    → ((other : ℕ) → ¬ (id ≡ other) → g other ≡ f other)
    → id < n
    → sum_below n g + f id ≡ sum_below n f + g id
unfolding sum_below
sum_below-change zero id f g h k = absurd (omega (arith, k))
sum_below-change (suc n) id f g h k = elim (Bool-cases (id == n)) [
  | inl same ↦
      let e = eq_of_test id n same in
      let below =
        sum_below_same n f g (λ i i_lt. h i (λ is. absurd (omega (arith, is, e, i_lt)))) in
      rw e (omega (arith, below))
  | inr apart ↦
      let id_ne : ¬ (id ≡ n) = λ e. absurd (ground (arith, e, apart)) in
      omega (arith, sum_below-change n id f g h (omega (arith, k, id_ne)), h n id_ne)
]

pub sum_below-zeros :
    (n m : ℕ) (f : ℕ → ℕ) → ((i : ℕ) → n ≤ i → f i ≡ 0) → n ≤ m → sum_below m f ≡ sum_below n f
unfolding sum_below
sum_below-zeros n zero f h k = let e : n ≡ 0 = omega (arith, k) in rw e refl
sum_below-zeros n (suc m) f h k = elim (Bool-cases (n == suc m)) [
  | inl same ↦ let e = eq_of_test n (suc m) same in rw e refl
  | inr apart ↦
      let n_ne : ¬ (n ≡ suc m) = λ e. absurd (ground (arith, e, apart)) in
      let n_le : n ≤ m = omega (arith, k, n_ne) in
      omega (arith, sum_below-zeros n m f h n_le, h m n_le)
]
