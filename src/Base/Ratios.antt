-- ===== src/Base/Ratios.antt =====
-- Shares of a sum, rounded down.
use Prim.Native.Nat.{ℕ, ◌+◌, ◌*◌, ◌/◌, ◌≤◌, ◌<◌}
use mathlib.Core.Path.{}
use native.Mathlib.Omega.{arith}
use native.Mathlib.Nat.{
  div-mul-le_self, div-le_of_le-mul, le-div_iff_mul-le, mul-le-mul_left, le_of_mul-le-mul_left,
}

-- What the first `s` of `t` shares are worth, where they were given for `b` at the old price.
pub round_trip_le : (t v b s : ℕ) → s * v ≤ b * t → 0 < t + s → s * (v + b) / (t + s) ≤ b
round_trip_le t v b s h k = div-le_of_le-mul (t + s) (omega (arith, h))

pub mul-le-mul : (a b c d : ℕ) → a ≤ b → c ≤ d → a * c ≤ b * d
mul-le-mul a b c d h k = omega (arith, mul-le-mul_left a k, mul-le-mul_left d h)

pub no_loss_le : (t v b s x : ℕ) → 0 < t → 0 < v → s * v ≤ b * t → x * v / t ≤ x * (v + b) / (t + s)
no_loss_le t v b s x t_pos v_pos h =
    let q = x * v / t in
    let q_le : q * t ≤ x * v = div-mul-le_self (x * v) t in
    let both : (q * t) * (s * v) ≤ (x * v) * (b * t) =
      mul-le-mul (q * t) (x * v) (s * v) (b * t) q_le h in
    let tv_pos : 0 < t * v = mul-le-mul 1 t 1 v t_pos v_pos in
    let scaled : (t * v) * (q * s) ≤ (t * v) * (x * b) = omega (arith, both) in
    let qs_le : q * s ≤ x * b = le_of_mul-le-mul_left scaled tv_pos in
    (le-div_iff_mul-le (omega (arith, t_pos))).1 (omega (arith, q_le, qs_le))

pub no_loss_same_le : (t v b x : ℕ) → 0 < t → x * v / t ≤ x * (v + b) / t
no_loss_same_le t v b x t_pos =
    (le-div_iff_mul-le t_pos).1 (omega (arith, div-mul-le_self (x * v) t))

-- Who leaves with no more than the price of some shares makes the others no poorer.
pub no_loss_leaving_le :
    (stay s rest out x : ℕ)
    → 0 < stay
    → out * (stay + s) ≤ s * (rest + out)
    → x * (rest + out) / (stay + s) ≤ x * rest / stay
no_loss_leaving_le stay s rest out x stay_pos h =
    let t = stay + s in
    let v = rest + out in
    let q = x * v / t in
    let q_le : q * t ≤ x * v = div-mul-le_self (x * v) t in
    let kept : v * stay ≤ rest * t = omega (arith, h) in
    let first : (q * t) * stay ≤ (x * v) * stay =
      mul-le-mul (q * t) (x * v) stay stay q_le (omega arith) in
    let second : x * (v * stay) ≤ x * (rest * t) = mul-le-mul_left x kept in
    let scaled : t * (q * stay) ≤ t * (x * rest) = omega (arith, first, second) in
    let small : q * stay ≤ x * rest = le_of_mul-le-mul_left scaled (omega (arith, stay_pos)) in
    (le-div_iff_mul-le stay_pos).1 small
