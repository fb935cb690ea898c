-- ===== src/Decimal/Quantize.antt =====
-- What `quantize(Decimal("0.0001"))` does: the result always has four digits after the point, and
-- is the nearest such amount.
use native.Mathlib.Nat.{pow-suc}
use price_monitoring_service.Prelude.{ap, ◌∙◌, ℕ, zero, suc, ◌+◌, ◌*◌, ◌^◌, ◌≤◌, ◌<◌, ◌≡◌, arith}
use price_monitoring_service.Prelude.Int.{pos, negsuc, ◌+ℤ◌}
use price_monitoring_service.Exec.{ok}
use price_monitoring_service.Decimal.{Decimal, quantize, rescale, div_half_even}
use price_monitoring_service.Decimal.Rounding.{div_half_even_near}

-- an amount of money as the API returns it
pub record IsMoney (d : Decimal) : Type 0 where
  pub places : d.exp ≡ negsuc 3
  pub fits : d.coeff < 10 ^ 28

pub quantize-IsMoney : (d : Decimal) {r : Decimal} → quantize d ≡ ok r → IsMoney r
unfolding quantize
quantize-IsMoney d h = ground arith

quantize_fixed_at : (d : Decimal) → d.exp ≡ negsuc 3 → rescale d.coeff (d.exp +ℤ pos 4) ≡ d.coeff
unfolding rescale ◌+ℤ◌
quantize_fixed_at d e = rw e (omega arith)

pub quantize_fixed : (d : Decimal) → IsMoney d → quantize d ≡ ok d
unfolding quantize
quantize_fixed d m = ground (arith, quantize_fixed_at d m.places)

coeff-quantize :
    (d : Decimal) {r : Decimal} → quantize d ≡ ok r → r.coeff ≡ rescale d.coeff (d.exp +ℤ pos 4)
unfolding quantize
coeff-quantize d h = ground arith

shift_down : (k : ℕ) → negsuc (k + 4) +ℤ pos 4 ≡ negsuc k
unfolding ◌+ℤ◌
shift_down k = ground arith

-- below the exponent -4 digits are dropped
rescale_down : (c k : ℕ) → rescale c (negsuc (k + 4) +ℤ pos 4) ≡ div_half_even c (10 ^ suc k)
unfolding rescale
rescale_down c k = rw (shift_down k)

coeff-quantize_down :
    (d : Decimal) (k : ℕ) {r : Decimal}
    → d.exp ≡ negsuc (k + 4)
    → quantize d ≡ ok r
    → r.coeff ≡ div_half_even d.coeff (10 ^ suc k)
coeff-quantize_down d k e h =
    coeff-quantize d h ∙ ap (λ x. rescale d.coeff (x +ℤ pos 4)) e ∙ rescale_down d.coeff k

pub pow-pos : (k : ℕ) → 0 < 10 ^ k
pow-pos zero = omega arith
pow-pos (suc k) = omega (arith, pow-pos k, pow-suc 10 k)

-- A rounded amount differs from the exact one by at most half of the last digit kept.
pub quantize_near :
    (d : Decimal) (k : ℕ) {r : Decimal}
    → d.exp ≡ negsuc (k + 4)
    → quantize d ≡ ok r
    → (2 * (r.coeff * 10 ^ suc k) ≤ 2 * d.coeff + 10 ^ suc k)
      × (2 * d.coeff ≤ 2 * (r.coeff * 10 ^ suc k) + 10 ^ suc k)
quantize_near d k e h =
    rw (coeff-quantize_down d k e h) (div_half_even_near d.coeff (10 ^ suc k) (pow-pos (suc k)))
