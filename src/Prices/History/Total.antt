-- ===== src/Prices/History/Total.antt =====
-- The average of a day's prices is returned: a sum of amounts of money of at most 28 digits, divided
-- by their number.
use native.Mathlib.Nat.{mul-le-mul}
use price_monitoring_service.Prelude.{
  ℕ, suc, ◌+◌, ◌*◌, ◌^◌, ◌≤◌, ◌≡◌, ap, List, [], ◌∷◌, length, All, inr, arith,
}
use price_monitoring_service.Prelude.Int.{negsuc}
use price_monitoring_service.Decimal.{Decimal, of_int, add}
use price_monitoring_service.Decimal.Bounds.{AtMost, IsAmount, pow-add, pow_mono, quantize_returns}
use price_monitoring_service.Decimal.Bounds.Quotient.{div_returns}
use price_monitoring_service.Decimal.Bounds.Sum.{money, IsSum, add-IsSum, add_first-IsSum}
use price_monitoring_service.Exec.{ok}
use price_monitoring_service.Prices.History.{sum_from, average}

as_money : (d : Decimal) → d.exp ≡ negsuc 3 → d ≡ money d.negative d.coeff
as_money d e = ap (λ x. record d { exp = x }) e

add_amounts :
    (a b : Decimal) (m n : ℕ) → IsSum a m → IsSum b n → m + n ≤ 10 ^ 27 → IsSum (add a b) (m + n)
add_amounts a b m n (e, h) (f, g) small =
    let (x, y) = add-IsSum a.negative b.negative a.coeff b.coeff (omega arith) in
    rw (as_money a e) (rw (as_money b f) (x, omega arith))

module _ (n : ℕ) where
  -- the sum of the rest of the prices
  sum_from-IsSum :
      (prices : List Decimal) (acc : Decimal) (m : ℕ)
      → IsSum acc m
      → All (λ p. IsSum p n) prices
      → m + length prices * n ≤ 10 ^ 27
      → IsSum (sum_from acc prices) (m + length prices * n)
  unfolding sum_from
  sum_from-IsSum [] acc m h ps small = (h.0, omega (arith, h.1))
  sum_from-IsSum (p ∷ prices) acc m h (q, ps) small =
      let step : suc (length prices) * n ≡ n + length prices * n = grind arith in
      let (e, b) =
        sum_from-IsSum prices (add acc p) (m + n) (add_amounts acc p m n h q (omega arith)) ps
          (omega arith) in
      (e, omega arith)

  total-IsSum :
      (p : Decimal) (prices : List Decimal)
      → All (λ p. IsSum p n) (p ∷ prices)
      → suc (length prices) * n ≤ 10 ^ 27
      → IsSum (sum_from (of_int 0) (p ∷ prices)) (suc (length prices) * n)
  unfolding sum_from
  total-IsSum p prices ((e, h), ps) small =
      let step : suc (length prices) * n ≡ n + length prices * n = grind arith in
      let (f, b) = add_first-IsSum p.negative p.coeff (omega arith) in
      let first : IsSum (add (of_int 0) p) n = rw (as_money p e) (f, omega arith) in
      let (g, c) = sum_from-IsSum prices (add (of_int 0) p) n first ps (omega arith) in
      (g, omega arith)

-- With at most 10 ^ j prices of at most 10 ^ k each, and k + j at most 23, the average is returned.
pub average_returns :
    (k j : ℕ) (p : Decimal) (prices : List Decimal)
    → All (IsAmount k) (p ∷ prices)
    → length (p ∷ prices) ≤ 10 ^ j
    → k + j ≤ 23
    → (x : Decimal) × (average (p ∷ prices) ≡ ok x)
unfolding average
average_returns k j p prices amounts few small =
    let total = sum_from (of_int 0) (p ∷ prices) in
    let bound : suc (length prices) * 10 ^ (k + 4) ≤ 10 ^ (j + (k + 4)) =
      rw (pow-add j (k + 4)) (mul-le-mul few (omega arith)) in
    let low : 10 ^ (j + (k + 4)) ≤ 10 ^ 27 = pow_mono {n = 27} (omega arith) in
    let (e, c) = total-IsSum (10 ^ (k + 4)) p prices amounts (omega arith) in
    let size : AtMost (k + j) total = inr (j + (k + 4), rw e (omega arith), omega arith) in
    let (q, divided, size') =
      div_returns (k + j) 0 total (of_int (suc (length prices))) size (omega arith, omega arith) in
    let (x, made, _) = quantize_returns (k + j + 0) q size' (omega arith) in (x, rw divided made)
