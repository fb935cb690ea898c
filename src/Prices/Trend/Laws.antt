-- ===== src/Prices/Trend/Laws.antt =====
-- The trend of a product: when the code can tell it, and that equal averages have none.
use price_monitoring_service.Prelude.{
  Bool-cases, true, Option, none, some, ◌≡◌, refl, arith, inl, inr,
}
use price_monitoring_service.Decimal.{Decimal, is_nonzero, div, quotient, lt}
use price_monitoring_service.Exec.{ok}
use price_monitoring_service.Schemas.{TrendDirection, up, down, same}
use price_monitoring_service.Prices.Trend.{determine_trend, compare_ratio, upper_ratio, lower_ratio}

div_returns : (a b : Decimal) → is_nonzero b ≡ true → div a b ≡ ok (quotient a b)
unfolding div
div_returns a b h = ground arith

compare_returns : (q : Decimal) → (t : TrendDirection) × (compare_ratio (ok q) ≡ ok t)
unfolding compare_ratio
compare_returns q = elim (Bool-cases (lt upper_ratio q)) [
  | inl e ↦ (up, rw e refl)
  | inr e ↦ elim (Bool-cases (lt q lower_ratio)) [
    | inl f ↦ (down, rw e (rw f refl))
    | inr f ↦ (same, rw e (rw f refl))
  ]
]

-- The trend is always told: no average makes the division raise.
pub determine_trend_returns :
    (avg_today avg_30d : Option Decimal)
    → (t : TrendDirection) × (determine_trend avg_today avg_30d ≡ ok t)
unfolding determine_trend
determine_trend_returns none avg_30d = (same, refl)
determine_trend_returns (some a) none = (same, refl)
determine_trend_returns (some a) (some b) = elim (Bool-cases (is_nonzero b)) [
  | inl e ↦
      let f = div_returns a b e in
      let (t, g) = compare_returns (quotient a b) in
      elim (Bool-cases (is_nonzero a)) [
        | inl h ↦ (t, rw e (rw h (rw f g)))
        | inr h ↦ (same, rw h refl)
      ]
  | inr e ↦ (same, ground arith)
]
