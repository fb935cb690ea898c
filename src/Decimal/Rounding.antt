-- ===== src/Decimal/Rounding.antt =====
-- Rounding half to even: `div_half_even`, which `quantize`, `fix` and `div` share, and the
-- digit count.
use native.Mathlib.Nat.{div-add-mod', pow-suc}
use price_monitoring_service.Prelude.{
  ℕ, zero, suc, ◌+◌, ◌*◌, ◌/◌, ◌%◌, ◌^◌, ◌≤◌, ◌<◌, ◌≡◌, ◌⊎◌, arith, inl, inr,
}
use price_monitoring_service.Decimal.{div_half_even, digits, digits_fuel}

-- `div_half_even` rounds down only from a lower half, and up only from an upper half.
div_half_even-cases :
    (n d : ℕ)
    → ((div_half_even n d ≡ n / d) × (2 * (n % d) ≤ d))
      ⊎ ((div_half_even n d ≡ n / d + 1) × (d ≤ 2 * (n % d)))
unfolding div_half_even
div_half_even-cases n d = ground arith

-- The rounded quotient is off by at most half a unit of the divisor.
pub div_half_even_near :
    (n d : ℕ)
    → 0 < d
    → (2 * (div_half_even n d * d) ≤ 2 * n + d) × (2 * n ≤ 2 * (div_half_even n d * d) + d)
div_half_even_near n d h = elim (div_half_even-cases n d) [
  | inl (e, k) ↦ rw e (omega (arith, div-add-mod' n d))
  | inr (e, k) ↦ rw e (omega (arith, div-add-mod' n d))
]

pub div_half_even-le : (n d m : ℕ) → 0 < d → n ≤ m * d → div_half_even n d ≤ m
div_half_even-le n d m h k = grind (arith, div_half_even_near n d h)

pub le-div_half_even : (n d m : ℕ) → 0 < d → m * d ≤ n → m ≤ div_half_even n d
le-div_half_even n d m h k = grind (arith, div_half_even_near n d h)

lt-pow-digits_fuel : (f c : ℕ) → c ≤ f → c < 10 ^ digits_fuel f c
unfolding digits_fuel
lt-pow-digits_fuel zero c h = omega arith
lt-pow-digits_fuel (suc f) c h =
    ground (arith, lt-pow-digits_fuel f (c / 10), pow-suc 10 (digits_fuel f (c / 10)))

pub lt-pow-digits : (c : ℕ) → c < 10 ^ digits c
unfolding digits
lt-pow-digits c = lt-pow-digits_fuel c c (omega arith)
