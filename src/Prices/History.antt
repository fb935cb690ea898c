-- ===== src/Prices/History.antt =====
-- `get_price_history` of app/services/price_service.py over `get_history` of
-- app/db/repositories/price_repo.py.
pub mod Query
pub mod Series
pub mod Average
pub mod Total
use price_monitoring_service.Prelude.{
  ℕ, ◌+◌, ◌-◌, ◌*◌, String, Bool, Option, none, some, List, [], ◌∷◌, ◌++◌, ltb, ◌==◌, if◌then◌else◌,
  length,
}
use text.Mathlib.Text.{◌==◌ as str_eq}
use price_monitoring_service.Decimal.{Decimal, of_int, add, div, quantize}
use price_monitoring_service.Exec.{Exec, Result, ok, err, pure, lift, ◌>>=◌}
use price_monitoring_service.Env.{Env}
use price_monitoring_service.Schemas.{
  Currency, PriceHistoryPoint, PriceHistorySeries, PriceHistoryResponse,
}
use price_monitoring_service.Models.{World}
use price_monitoring_service.Currency.Service.{convert, date_or_today}
use price_monitoring_service.Prices.Latest.{day_length, utc_day_start}
use price_monitoring_service.Prices.Sort.{sorted}
use price_monitoring_service.Prices.History.Query.{HistoryRow, get_history}

-- `series_map[name].append(point)`: a new name is the last of the dictionary
unfoldable pub append_point :
    String → PriceHistoryPoint → List PriceHistorySeries → List PriceHistorySeries
append_point name point [] = record { shop_name = name; points = point ∷ [] } ∷ []
append_point name point (s ∷ series) =
    if str_eq s.shop_name name
    then record s { points = s.points ++ point ∷ [] } ∷ series
    else s ∷ append_point name point series

-- `daily_all[point_date].append(converted)`
abbrev pub Daily : Type 0
Daily = List (ℕ × List Decimal)

unfoldable pub append_price : ℕ → Decimal → Daily → Daily
append_price day price [] = (day, price ∷ []) ∷ []
append_price day price ((d, prices) ∷ daily) =
    if d == day
    then (d, prices ++ price ∷ []) ∷ daily
    else (d, prices) ∷ append_price day price daily

-- `sum(prices)`, from the number 0
unfoldable pub sum_from : Decimal → List Decimal → Decimal
sum_from acc [] = acc
sum_from acc (price ∷ prices) = sum_from (add acc price) prices

-- `(sum(prices) / len(prices)).quantize(Decimal("0.0001"))`
abbrev pub quantized : Result Decimal → Result Decimal
quantized (ok q) = quantize q
quantized (err e) = err e

unfoldable pub average : List Decimal → Result Decimal
unfolding sum_from
average prices = quantized (div (sum_from (of_int 0) prices) (of_int (length prices)))

-- the list comprehension of `average`, on the sorted items
unfoldable pub averages : Daily → Exec World (List PriceHistoryPoint)
unfolding average
averages [] = pure []
averages ((d, prices) ∷ daily) = do
  price ← lift (average prices)
  rest ← averages daily
  pure (record { date = d; price = price } ∷ rest)

-- `sorted(daily_all.items())`: the keys are different, so they decide
unfoldable pub by_date : Daily → Daily
by_date daily = sorted (λ a b. ltb a.0 b.0) daily

module _ (env : Env) where
  -- the loop over the rows, on the two dictionaries
  unfoldable pub history_each :
      Currency
      → List HistoryRow
      → List PriceHistorySeries
      → Daily
      → Exec World (List PriceHistorySeries × Daily)
  unfolding append_point append_price
  history_each currency [] series daily = pure (series, daily)
  history_each currency (row ∷ rows) series daily = do
    converted ← convert env row.avg_price_usd currency (some row.day)
    history_each currency rows
        (append_point row.shop_name (record { date = row.day; price = converted }) series)
        (append_price row.day converted daily)

  -- what follows the query
  unfoldable pub build_history : Currency → List HistoryRow → Exec World PriceHistoryResponse
  unfolding history_each averages by_date
  build_history currency rows = do
    both ← history_each currency rows [] []
    average ← averages (by_date both.1)
    pure (record { series = both.0; average = average })

  unfoldable pub get_price_history : ℕ → Currency → ℕ → ℕ → Exec World PriceHistoryResponse
  unfolding build_history get_history
  get_price_history product_id currency date_from date_to w =
      build_history currency
        (get_history env product_id (utc_day_start date_from)
          (utc_day_start date_to + (day_length - 1)) w)
        w
