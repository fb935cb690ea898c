-- ===== src/Api/Routes.antt =====
-- The routes of app/api/v1: what each asks of its request, and which operation of the services it
-- runs in the session of the request.
pub mod Guards
pub mod Reading
pub mod Serving
pub mod LatePages
use price_monitoring_service.Prelude.{
  ℕ, ◌-◌, String, Bool, true, false, ◌&&◌, Option, none, some, List, [], ◌∷◌, leb, if◌then◌else◌,
  map,
}
use price_monitoring_service.Decimal.{Decimal, of_int, lt}
use price_monitoring_service.Schemas.{
  Currency, SortOption, AlertCreate, AlertResponse, CatalogResponse, CurrencyRateItem,
  ProductListResponse, ProductDetail, ShopPriceItem, PriceHistoryResponse, WatchlistItem,
}
use price_monitoring_service.Exec.{Exec, Result, ok, err, pure, gets, ◌>>=◌, ◌>>◌}
use price_monitoring_service.Env.{Env}
use price_monitoring_service.Models.{ExchangeRate, Database, World}
use price_monitoring_service.Currency.Service.{get_today_rates}
use price_monitoring_service.Prices.Detail.{get_product_detail, get_current_prices, list_tracked}
use price_monitoring_service.Prices.Listing.{get_products_list, get_catalog}
use price_monitoring_service.Prices.History.{get_price_history}
use price_monitoring_service.Watchlist.{add, remove}
use price_monitoring_service.Alerts.Service.{get_alerts, create_alert, delete_alert}
use price_monitoring_service.Api.Auth.{TokenPayload, TokenLibrary, authenticated}
use price_monitoring_service.Api.Session.{
  Answer, success, failure, unprocessable, error_status, error_detail, request,
}

-- A call of a route with its path and query parameters and its body. The id of a new alert stands
-- for what `uuid.uuid4()` draws.
pub data Call : Type 0 where
  health_call : Call
  get_alerts_call : Call
  create_alert_call : ℕ → AlertCreate → Call
  delete_alert_call : ℕ → Call
  get_catalog_call : Currency → ℕ → ℕ → Call
  get_currencies_call : Call
  get_products_call : Currency → SortOption → ℕ → ℕ → Call
  get_product_call : ℕ → Currency → Call
  get_product_prices_call : ℕ → Currency → Call
  get_price_history_call : ℕ → Currency → Option ℕ → Option ℕ → Call
  get_user_products_call : Currency → Call
  add_user_product_call : ℕ → Call
  remove_user_product_call : ℕ → Call

-- the body of an answer
pub data Body : Type 0 where
  no_body : Body
  health_body : Body
  alerts_body : List AlertResponse → Body
  alert_body : AlertResponse → Body
  catalog_body : CatalogResponse → Body
  currencies_body : List CurrencyRateItem → Body
  products_body : ProductListResponse → Body
  product_body : ProductDetail → Body
  prices_body : List ShopPriceItem → Body
  history_body : PriceHistoryResponse → Body
  cards_body : List ProductDetail → Body
  watchlist_body : WatchlistItem → Body

-- `Query(1, ge=1)` and `Query(20, ge=1, le=100)`
abbrev pub is_page : ℕ → ℕ → Bool
is_page page page_size = leb 1 page && leb 1 page_size && leb page_size 100

-- the constraints on the parameters and on the body
unfoldable pub is_valid_call : Call → Bool
is_valid_call (create_alert_call alert_id body) = lt (of_int 0) body.threshold_price
is_valid_call (get_catalog_call currency page page_size) = is_page page page_size
is_valid_call (get_products_call currency sort page page_size) = is_page page page_size
is_valid_call _ = true

-- only the health check is public
abbrev pub needs_token : Call → Bool
needs_token health_call = false
needs_token _ = true

-- `status_code` of the route
abbrev pub success_code : Call → ℕ
success_code (create_alert_call alert_id body) = 201
success_code (add_user_product_call product_id) = 201
success_code (delete_alert_call alert_id) = 204
success_code (remove_user_product_call product_id) = 204
success_code _ = 200

-- `CurrencyRateItem.model_validate`
abbrev pub to_rate_item : ExchangeRate → CurrencyRateItem
to_rate_item r = record {
  currency_code = r.currency_code;
  rate_uah_per_unit = r.rate_uah_per_unit;
  date = r.date;
}

abbrev pub or_else : ℕ → Option ℕ → ℕ
or_else default none = default
or_else default (some d) = d

abbrev pub answered : {A : Type 0} → (A → Body) → Exec World A → Exec World Body
answered body operation = do a ← operation; pure (body a)

module _ (env : Env) where
  -- The functions of the routes, with the user of the token.
  abbrev pub get_alerts_route : TokenPayload → Exec World Body
  get_alerts_route user = answered alerts_body (gets (get_alerts user.user_id))

  abbrev pub create_alert_route : ℕ → AlertCreate → TokenPayload → Exec World Body
  create_alert_route alert_id body user =
      answered alert_body (create_alert env alert_id user.user_id body)

  abbrev pub delete_alert_route : ℕ → TokenPayload → Exec World Body
  delete_alert_route alert_id user = answered (λ u. no_body) (delete_alert user.user_id alert_id)

  abbrev pub get_catalog_route : Currency → ℕ → ℕ → Exec World Body
  get_catalog_route currency page page_size =
      answered catalog_body (get_catalog env currency page page_size)

  abbrev pub get_currencies_route : Exec World Body
  get_currencies_route =
      answered (λ rates. currencies_body (map to_rate_item rates)) (gets (get_today_rates env))

  abbrev pub get_products_route : Currency → SortOption → ℕ → ℕ → TokenPayload → Exec World Body
  get_products_route currency sort page page_size user =
      answered products_body (get_products_list env user.user_id currency page page_size sort)

  abbrev pub get_product_route : ℕ → Currency → Exec World Body
  get_product_route product_id currency =
      answered product_body (get_product_detail env product_id currency)

  abbrev pub get_product_prices_route : ℕ → Currency → Exec World Body
  get_product_prices_route product_id currency =
      answered prices_body (get_current_prices env product_id currency)

  abbrev pub get_price_history_route : ℕ → Currency → Option ℕ → Option ℕ → Exec World Body
  get_price_history_route product_id currency date_from date_to = answered history_body (
      get_price_history env product_id currency (or_else (env.today - 30) date_from)
        (or_else env.today date_to))

  abbrev pub get_user_products_route : Currency → TokenPayload → Exec World Body
  get_user_products_route currency user =
      answered cards_body (list_tracked env user.user_id currency)

  abbrev pub add_user_product_route : ℕ → TokenPayload → Exec World Body
  add_user_product_route product_id user =
      answered (λ u. watchlist_body (record { product_id = product_id }))
        (add user.user_id product_id)

  abbrev pub remove_user_product_route : ℕ → TokenPayload → Exec World Body
  remove_user_product_route product_id user =
      answered (λ u. no_body) (remove user.user_id product_id)

  -- the function that the router picks
  unfoldable pub operation : Call → TokenPayload → Exec World Body
  operation health_call user = pure health_body
  operation get_alerts_call user = get_alerts_route user
  operation (create_alert_call alert_id body) user = create_alert_route alert_id body user
  operation (delete_alert_call alert_id) user = delete_alert_route alert_id user
  operation (get_catalog_call currency page page_size) user =
      get_catalog_route currency page page_size
  operation get_currencies_call user = get_currencies_route
  operation (get_products_call currency sort page page_size) user =
      get_products_route currency sort page page_size user
  operation (get_product_call product_id currency) user = get_product_route product_id currency
  operation (get_product_prices_call product_id currency) user =
      get_product_prices_route product_id currency
  operation (get_price_history_call product_id currency date_from date_to) user =
      get_price_history_route product_id currency date_from date_to
  operation (get_user_products_call currency) user = get_user_products_route currency user
  operation (add_user_product_call product_id) user = add_user_product_route product_id user
  operation (remove_user_product_call product_id) user = remove_user_product_route product_id user

  module _ (commits : Database → Bool) (lib : TokenLibrary) (app_secret_key : String) where
    -- the routes that depend on `verify_token`: it comes first, then the constraints
    unfoldable pub serve_as : Call → Result TokenPayload → World → Answer Body × World
    unfolding operation
    serve_as call (err e) w = (failure (error_status e) (error_detail e), w)
    serve_as call (ok user) w =
        if is_valid_call call
        then request commits (success_code call) (operation call user) w
        else (unprocessable, w)

    -- a call with the Authorization header of its request
    unfoldable pub serve : Call → String → World → Answer Body × World
    unfolding serve_as
    serve call header w =
        if needs_token call
        then serve_as call (authenticated lib app_secret_key header) w
        else (success 200 health_body, w)
