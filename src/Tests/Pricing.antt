-- ===== src/Tests/Pricing.antt =====
-- The product list, the catalogue, the price history and the rates of the day.
use price_monitoring_service.Decimal.{add}
use price_monitoring_service.Decimal.{div}
use price_monitoring_service.Prices.Sort.{sorted}
use price_monitoring_service.Prices.Latest.{max_price}
use price_monitoring_service.Decimal.{quantize}
use price_monitoring_service.Currency.Service.{convert}
use price_monitoring_service.Prices.Latest.{latest_price}
use price_monitoring_service.Prices.Latest.{min_price}
use price_monitoring_service.Prices.Detail.{convert_opt}
use price_monitoring_service.Prices.Averages.{average_of}
use price_monitoring_service.Prices.Trend.{determine_trend}
use price_monitoring_service.Watchlist.{tracks}
use price_monitoring_service.Prices.Detail.{detail_rows}
use price_monitoring_service.Prelude.{ℕ, ◌+◌, ◌-◌, ◌≡◌, refl, true, any, some, [], ◌∷◌}
use price_monitoring_service.Json.{Json, num, str, arr, obj, nil, cons, end, field}
use price_monitoring_service.Schemas.{Currency, price_asc}
use price_monitoring_service.Env.{Env, Request, Reply, response, nbu_today}
use price_monitoring_service.Models.{World}
use price_monitoring_service.Prices.Latest.{day_length, utc_day_start}
use price_monitoring_service.Prices.Detail.Money.{Yields}
use price_monitoring_service.Prices.Listing.{get_products_list, get_catalog}
use price_monitoring_service.Prices.History.{get_price_history}
use price_monitoring_service.Prices.History.Query.{get_history}
use price_monitoring_service.Prices.History.Series.{HasSeries, days_of, get_price_history_series}
use price_monitoring_service.Prices.History.Average.{IsAverage, on_day, get_price_history_average}
use price_monitoring_service.Api.Session.Atomic.{is_ok}
use price_monitoring_service.Tests.Fixtures.{env_with, answers, usd_rate, world, tables}

-- the NBU gives the rate of the dollar in its list of all rates
abbrev rates_body : Json
rates_body = arr (cons (obj (field "cc" (str "USD") (field "rate" (num usd_rate) end))) nil)

abbrev bank_answers : Request → ℕ → Reply
bank_answers nbu_today n = response 200 (some rates_body)
bank_answers url n = answers url n

abbrev env : Env
env = env_with bank_answers true

-- a user who tracks the lamp
abbrev tracking : World
tracking = record world {
  db = record tables { user_products = record { user_id = 1; product_id = 3 } ∷ [] };
}

abbrev usd : Currency
usd = Currency.usd

listed : is_ok (get_products_list env 1 usd 1 20 price_asc tracking).0 ≡ true
unfolding get_products_list detail_rows tracks determine_trend average_of convert_opt min_price
    latest_price convert quantize max_price
listed = refl

catalogued : is_ok (get_catalog env usd 1 20 tracking).0 ≡ true
unfolding get_catalog sorted detail_rows convert_opt min_price latest_price convert quantize
    max_price
catalogued = refl

recorded : is_ok (get_price_history env 3 usd 90 110 tracking).0 ≡ true
unfolding get_price_history sorted convert quantize div add
recorded = refl

get_price_history_series_example :
    Yields
      (λ r.
        HasSeries "FakeStore"
          (days_of "FakeStore"
            (get_history env 3 (utc_day_start 90) (utc_day_start 110 + (day_length - 1)) tracking))
          r.series)
      (get_price_history env 3 usd 90 110 tracking)
get_price_history_series_example = get_price_history_series env usd "FakeStore" 3 90 110 tracking

get_price_history_average_example :
    Yields
      (λ r.
        IsAverage 100
          (any
            (on_day 100)
            (get_history env 3 (utc_day_start 90) (utc_day_start 110 + (day_length - 1)) tracking))
          r.average)
      (get_price_history env 3 usd 90 110 tracking)
get_price_history_average_example = get_price_history_average env usd 100 3 90 110 tracking
