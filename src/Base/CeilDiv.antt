-- ===== src/Base/CeilDiv.antt =====
-- Division rounding up, characterised by its two bounds.
use native.Mathlib.Nat.{
  div-eq_of_lt-le, div-mul-le_self, lt-div-mul-add, add-mul, lt_of_mul-lt-mul_right,
}
use zk_os_monorepo.Base.{ℕ, ◌+◌, ◌-◌, ◌*◌, ◌/◌, ◌≤◌, ◌<◌, ◌≡◌, arith}

unfoldable pub ceil_div : ℕ → ℕ → ℕ
ceil_div x d = (x + d - 1) / d

pub le-ceil_div-mul : (x d : ℕ) → 0 < d → x ≤ ceil_div x d * d
unfolding ceil_div
le-ceil_div-mul x d h = omega (arith, lt-div-mul-add {a = x + d - 1} {b = d} h)

pub ceil_div-mul-lt : (x d : ℕ) → 0 < d → ceil_div x d * d < x + d
unfolding ceil_div
ceil_div-mul-lt x d h = omega (arith, div-mul-le_self (x + d - 1) d)

pub ceil_div_unique : (x d k : ℕ) → 0 < d → x ≤ k * d → k * d < x + d → ceil_div x d ≡ k
unfolding ceil_div
ceil_div_unique x d k h lower upper =
    div-eq_of_lt-le d {m = x + d - 1} (omega arith) (omega (arith, add-mul k 1 d))

-- A bound on the rounded quotient from one on the product.
pub ceil_div-le : (x d k : ℕ) → 0 < d → x ≤ k * d → ceil_div x d ≤ k
ceil_div-le x d k h bound =
    let below : ceil_div x d * d < (k + 1) * d =
      omega (arith, ceil_div-mul-lt x d h, add-mul k 1 d) in
    omega (arith, lt_of_mul-lt-mul_right d below)
