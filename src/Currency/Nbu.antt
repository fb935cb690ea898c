-- ===== src/Currency/Nbu.antt =====
-- The calls of the NBU: `_fetch_from_nbu` and `_fetch_all_today_from_nbu` of
-- app/services/currency_service.py. The failures that are listed there give no rate.
pub mod Graceful
use price_monitoring_service.Prelude.{
  ℕ, String, Bool, true, false, Option, none, some, List, [], ◌∷◌, if◌then◌else◌,
}
use text.Mathlib.Text.{◌==◌ as str_eq}
use price_monitoring_service.Decimal.{Decimal}
use price_monitoring_service.Schemas.{Currency}
use price_monitoring_service.Exec.{
  Exec, Exception, Result, ok, err, value_error, key_error, type_error, arithmetic_error,
  transport_error, http_status_error, pure, raise, lift, recover, ◌>>=◌,
}
use price_monitoring_service.Json.{
  Json, num, str, arr, obj, Items, nil, cons, end, item, truthy, first,
}
use price_monitoring_service.Env.{Env, nbu_today, nbu_rate}
use price_monitoring_service.HttpRetry.{Link, Response, get_with_retry}
use price_monitoring_service.Models.{World}

-- a call on the HTTP client
abbrev pub on_link : {A : Type 0} → Exec Link A → Exec World A
on_link m w = let (r, l) = m w.link in (r, record w { link = l })

-- `resp.json()`
abbrev pub json : Response → Result Json
json (_, some v) = ok v
json (_, none) = err value_error

-- `except _NBU_FETCH_ERRORS`: httpx.HTTPError, ValueError, KeyError, TypeError, ArithmeticError
abbrev pub is_nbu_fetch_error : Exception → Bool
is_nbu_fetch_error value_error = true
is_nbu_fetch_error key_error = true
is_nbu_fetch_error type_error = true
is_nbu_fetch_error arithmetic_error = true
is_nbu_fetch_error transport_error = true
is_nbu_fetch_error (http_status_error _) = true
is_nbu_fetch_error _ = false

-- the handler: the default for those, and any other exception goes on
abbrev pub caught : {S A : Type 0} → A → Exception → Exec S A
caught default e = if is_nbu_fetch_error e then pure default else raise e

abbrev pub or_arithmetic_error : Option Decimal → Result Decimal
or_arithmetic_error none = err arithmetic_error
or_arithmetic_error (some d) = ok d

-- The rates by the text of their code. `put_rate` is the assignment to a dictionary.
abbrev pub Rates : Type 0
Rates = List (String × Decimal)

put_rate : String → Decimal → Rates → Rates
put_rate cc rate [] = (cc, rate) ∷ []
put_rate cc rate ((k, v) ∷ rates) =
    if str_eq k cc then (cc, rate) ∷ rates else (k, v) ∷ put_rate cc rate rates

unfoldable pub rate_in : String → Rates → Option Decimal
rate_in cc [] = none
rate_in cc ((k, v) ∷ rates) = if str_eq k cc then some v else rate_in cc rates

-- A key that is a list or an object is not hashable; a key of another type than text equals no
-- currency.
add_rate : Json → Decimal → Rates → Result Rates
unfolding put_rate
add_rate (str cc) rate rates = ok (put_rate cc rate rates)
add_rate (arr _) rate rates = err type_error
add_rate (obj _) rate rates = err type_error
add_rate _ rate rates = ok rates

module _ (env : Env) where
  -- `Decimal(str(v))`
  abbrev pub decimal_of : Json → Result Decimal
  decimal_of (num d) = ok d
  decimal_of v = or_arithmetic_error (env.parse_decimal (env.str_of v))

  -- one round of the comprehension
  entry : {S : Type 0} → Json → Rates → Exec S Rates
  unfolding add_rate
  entry r rates = do
    cc ← lift (item r "cc")
    v ← lift (item r "rate")
    rate ← lift (decimal_of v)
    lift (add_rate cc rate rates)

  entries : {S : Type 0} → Items → Rates → Exec S Rates
  unfolding entry
  entries nil rates = pure rates
  entries (cons r rest) rates = do next ← entry r rates; entries rest next

  -- `for r in resp.json()`: an object or a text is walked by texts, which have no key
  rates_of : {S : Type 0} → Json → Exec S Rates
  unfolding entries
  rates_of (arr items) = entries items []
  rates_of (obj end) = pure []
  rates_of (str s) = if str_eq s "" then pure [] else raise type_error
  rates_of _ = raise type_error

  bulk_rates : Exec World Rates
  unfolding rates_of
  bulk_rates = do
    resp ← on_link (get_with_retry env nbu_today env.settings.shop_api_retry_attempts)
    v ← lift (json resp)
    rates_of v

  -- `_fetch_all_today_from_nbu`
  unfoldable pub fetch_all_today_from_nbu : Exec World Rates
  unfolding bulk_rates
  fetch_all_today_from_nbu w = recover (caught []) (bulk_rates w)

  -- `data[0]["rate"]`
  first_rate : {S : Type 0} → Json → Exec S (Option Decimal)
  first_rate v = do
    r ← lift (first v)
    x ← lift (item r "rate")
    rate ← lift (decimal_of x)
    pure (some rate)

  one_rate : Currency → ℕ → Exec World (Option Decimal)
  unfolding first_rate
  one_rate currency for_date = do
    resp ←
        on_link
          (get_with_retry env (nbu_rate currency for_date) env.settings.shop_api_retry_attempts)
    v ← lift (json resp)
    if truthy v then first_rate v else pure none

  -- `_fetch_from_nbu`
  unfoldable pub fetch_from_nbu : Currency → ℕ → Exec World (Option Decimal)
  unfolding one_rate
  fetch_from_nbu currency for_date w = recover (caught none) (one_rate currency for_date w)
