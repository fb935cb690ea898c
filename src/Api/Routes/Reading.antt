-- ===== src/Api/Routes/Reading.antt =====
-- The reading routes.
use price_monitoring_service.Prelude.{
  ℕ, ◌-◌, String, ◌≡◌, refl, Bool, true, false, Option, none, some, Option-cases, if◌then◌else◌,
  Bool-cases, inl, inr, sym, subst,
}
use price_monitoring_service.Decimal.{Decimal}
use price_monitoring_service.Schemas.{Currency}
use price_monitoring_service.Exec.{Result, ok, err}
use price_monitoring_service.Env.{Env}
use price_monitoring_service.Models.{Database, World}
use price_monitoring_service.Currency.Repo.{stored_rate}
use price_monitoring_service.Currency.Service.{rows_of}
use price_monitoring_service.Currency.Frame.{with_rates, Reads, Reads-refl, Reads-resume}
use price_monitoring_service.Prices.Detail.{
  get_product_detail, get_current_prices, get_watchlist_details,
}
use price_monitoring_service.Prices.Listing.{get_products_list, get_catalog}
use price_monitoring_service.Prices.History.{get_price_history}
use price_monitoring_service.Prices.Reads.{
  get_product_detail-Reads, get_watchlist_details-Reads, get_current_prices-Reads,
  get_products_list-Reads, get_catalog-Reads, get_price_history-Reads,
}
use price_monitoring_service.Api.Auth.{TokenPayload, TokenLibrary, authenticated}
use price_monitoring_service.Api.Session.Atomic.{db-request}
use price_monitoring_service.Api.Routes.{
  Call, health_call, get_alerts_call, create_alert_call, delete_alert_call, get_catalog_call,
  get_currencies_call, get_products_call, get_product_call, get_product_prices_call,
  get_price_history_call, get_user_products_call, add_user_product_call, remove_user_product_call,
  needs_token, is_valid_call, success_code, operation, serve_as, serve, or_else,
}

-- the routes of method GET
abbrev pub is_reading : Call → Bool
is_reading (create_alert_call alert_id body) = false
is_reading (delete_alert_call alert_id) = false
is_reading (add_user_product_call product_id) = false
is_reading (remove_user_product_call product_id) = false
is_reading _ = true

module _ (env : Env) where
  operation-Reads :
      (call : Call) (user : TokenPayload) (w : World)
      → is_reading call ≡ true
      → Reads w (operation env call user w).1
  unfolding operation
  operation-Reads health_call user w e = Reads-refl w
  operation-Reads get_alerts_call user w e = Reads-refl w
  operation-Reads (create_alert_call alert_id body) user w e = absurd (cc)
  operation-Reads (delete_alert_call alert_id) user w e = absurd (cc)
  operation-Reads (get_catalog_call currency page page_size) user w e =
      Reads-resume _ w (get_catalog env currency page page_size w)
        (get_catalog-Reads env currency page page_size w) λ a w1. Reads-refl w1
  operation-Reads get_currencies_call user w e = Reads-refl w
  operation-Reads (get_products_call currency sort page page_size) user w e =
      Reads-resume _ w (get_products_list env user.user_id currency page page_size sort w)
        (get_products_list-Reads env currency user.user_id page page_size sort w)
        λ a w1. Reads-refl w1
  operation-Reads (get_product_call product_id currency) user w e =
      Reads-resume _ w (get_product_detail env product_id currency w)
        (get_product_detail-Reads env currency product_id w) λ a w1. Reads-refl w1
  operation-Reads (get_product_prices_call product_id currency) user w e =
      Reads-resume _ w (get_current_prices env product_id currency w)
        (get_current_prices-Reads env currency product_id w) λ a w1. Reads-refl w1
  operation-Reads (get_price_history_call product_id currency date_from date_to) user w e =
      Reads-resume _ w
        (get_price_history env product_id currency (or_else (env.today - 30) date_from)
          (or_else env.today date_to) w)
        (get_price_history-Reads env currency product_id (or_else (env.today - 30) date_from)
          (or_else env.today date_to) w)
        λ a w1. Reads-refl w1
  operation-Reads (get_user_products_call currency) user w e =
      Reads-resume _ w (get_watchlist_details env user.user_id currency w)
        (get_watchlist_details-Reads env currency user.user_id w) λ a w1. Reads-refl w1
  operation-Reads (add_user_product_call product_id) user w e = absurd (cc)
  operation-Reads (remove_user_product_call product_id) user w e = absurd (cc)

-- the value that was there, and else the other one
abbrev pub kept_or : Option Decimal → Option Decimal → Option Decimal
kept_or none o = o
kept_or (some rate) o = some rate

kept_or-same : (o : Option Decimal) → o ≡ kept_or o o
kept_or-same none = refl
kept_or-same (some rate) = refl

-- The second database is the first with other rates, and has every rate of the first.
abbrev pub KeepsRates : Database → Database → Type 0
KeepsRates before after =
    (after ≡ with_rates after.exchange_rates before)
    × ((c : Currency) (d : ℕ)
        → stored_rate c d after.exchange_rates
          ≡ kept_or (stored_rate c d before.exchange_rates) (stored_rate c d after.exchange_rates))

KeepsRates-refl : (db : Database) → KeepsRates db db
KeepsRates-refl db = (refl, λ c d. kept_or-same (stored_rate c d db.exchange_rates))

KeepsRates-Reads : (w w' : World) → Reads w w' → KeepsRates w.db w'.db
KeepsRates-Reads w w' h = (
  h.only_rates,
  λ c d. elim (Option-cases (stored_rate c d (rows_of w))) [
    | inl e ↦ rw e refl
    | inr (rate, e) ↦ rw e (h.extends.kept c d rate e)
  ],
)

choice-KeepsRates :
    (b : Bool) (before after : Database)
    → KeepsRates before after
    → KeepsRates before (if b then after else before)
choice-KeepsRates true before after h = h
choice-KeepsRates false before after h = KeepsRates-refl before

module _ (env : Env) (commits : Database → Bool) (lib : TokenLibrary)
    (app_secret_key : String) where
  -- A request of method GET, whatever its answer, changes nothing in the database but exchange
  -- rates, and leaves every rate that was there.
  pub serve_reads :
      (call : Call) (header : String) (w : World)
      → is_reading call ≡ true
      → KeepsRates w.db (serve env commits lib app_secret_key call header w).1.db
  unfolding serve serve_as
  serve_reads call header w get = elim (Bool-cases (needs_token call)) [
    | inl t ↦ rw t (as_user (authenticated lib app_secret_key header))
    | inr t ↦ rw t (KeepsRates-refl w.db)
  ]
    where
      as_user :
          (r : Result TokenPayload)
          → KeepsRates w.db (serve_as env commits lib app_secret_key call r w).1.db
      as_user (err x) = KeepsRates-refl w.db
      as_user (ok user) = elim (Bool-cases (is_valid_call call)) [
        | inl v ↦ rw v (
            subst (KeepsRates w.db)
              (sym (db-request commits (success_code call) (operation env call user) w))
              (choice-KeepsRates _ w.db (operation env call user w).1.db (
                KeepsRates-Reads w (operation env call user w).1
                  (operation-Reads env call user w get))))
        | inr v ↦ rw v (KeepsRates-refl w.db)
      ]
