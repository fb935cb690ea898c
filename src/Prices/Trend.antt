-- ===== src/Prices/Trend.antt =====
-- `_determine_trend` of app/services/price_service.py.
use price_monitoring_service.Prelude.{
  Bool, true, false, not, ◌||◌, Option, none, some, if◌then◌else◌, ◌≡◌, refl, arith,
}
pub mod Laws
use price_monitoring_service.Prelude.Int.{pos, negsuc}
use price_monitoring_service.Decimal.{Decimal, is_nonzero, div, lt}
use price_monitoring_service.Exec.{Result, ok, err}
use price_monitoring_service.Schemas.{TrendDirection, up, down, same}

-- `1 + _TREND_THRESHOLD` and `1 - _TREND_THRESHOLD`
abbrev pub upper_ratio : Decimal
upper_ratio = record { negative = false; coeff = 101; exp = negsuc 1 }

abbrev pub lower_ratio : Decimal
lower_ratio = record { negative = false; coeff = 99; exp = negsuc 1 }

-- the three returns below the division
compare_ratio : Result Decimal → Result TrendDirection
compare_ratio (err e) = err e
compare_ratio (ok ratio) =
    if lt upper_ratio ratio then ok up else if lt ratio lower_ratio then ok down else ok same

-- A missing average and an average of zero count alike.
unfoldable pub determine_trend : Option Decimal → Option Decimal → Result TrendDirection
unfolding compare_ratio
determine_trend none avg_30d = ok same
determine_trend (some avg_today) none = ok same
determine_trend (some avg_today) (some avg_30d) =
    if not (is_nonzero avg_today) || not (is_nonzero avg_30d)
    then ok same
    else compare_ratio (div avg_today avg_30d)
