-- ===== src/Api/Routes/Serving.antt =====
-- The reading routes with known rates: a request that is let in is answered.
use price_monitoring_service.Prelude.{ℕ, ◌+◌, ◌-◌, ◌^◌, ◌≤◌, ◌≡◌, true, some, All, length}
use price_monitoring_service.Exec.{Exec}
use price_monitoring_service.Env.{Env}
use price_monitoring_service.Models.{World}
use price_monitoring_service.Currency.Quoted.{IsRated}
use price_monitoring_service.Watchlist.{product_exists}
use price_monitoring_service.Prices.Latest.{day_length, utc_day_start}
use price_monitoring_service.Prices.Detail.{DetailRow, get_detail}
use price_monitoring_service.Prices.Listing.Catalog.{IsBindable}
use price_monitoring_service.Prices.History.Query.{get_history}
use price_monitoring_service.Prices.Quoted.History.{IsReadable}
use price_monitoring_service.Api.Session.{status, Answer}
use price_monitoring_service.Api.Routes.{
  Call, health_call, get_alerts_call, create_alert_call, delete_alert_call, get_catalog_call,
  get_currencies_call, get_products_call, get_product_call, get_product_prices_call,
  get_price_history_call, get_user_products_call, add_user_product_call, remove_user_product_call,
  or_else,
}

-- the answer has the code, and the database is as it was
abbrev pub IsAnswered : World → {A : Type 0} → ℕ → Answer A × World → Type 0
IsAnswered w code (a, w') = (status a ≡ code) × (w'.db ≡ w.db)

module _ (env : Env) (w : World) (k u l j : ℕ) where
  -- the rates of today are known
  abbrev HasRates : Type 0
  HasRates = IsRated u l env.today w

  -- What the answer of a reading call takes: the rates that it converts by, and the product that it
  -- asks for. A call that writes is none of these.
  abbrev pub IsServable : Call → Type 0
  IsServable health_call = Unit
  IsServable get_alerts_call = Unit
  IsServable (create_alert_call alert_id body) = ⊥
  IsServable (delete_alert_call alert_id) = ⊥
  IsServable (get_catalog_call currency page page_size) = HasRates × IsBindable env page page_size
  IsServable get_currencies_call = Unit
  IsServable (get_products_call currency sort page page_size) = HasRates
  IsServable (get_product_call product_id currency) =
      HasRates × (row : DetailRow) × (get_detail env product_id w ≡ some row)
  IsServable (get_product_prices_call product_id currency) =
      HasRates × (product_exists product_id w ≡ true)
  IsServable (get_price_history_call product_id currency date_from date_to) =
      let rows =
        get_history env product_id (utc_day_start (or_else (env.today - 30) date_from))
          (utc_day_start (or_else env.today date_to) + (day_length - 1)) w in
      (length rows ≤ 10 ^ j) × All (IsReadable env currency w k u l) rows
  IsServable (get_user_products_call currency) = HasRates
  IsServable (add_user_product_call product_id) = ⊥
  IsServable (remove_user_product_call product_id) = ⊥
