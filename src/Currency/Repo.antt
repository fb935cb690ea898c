-- ===== src/Currency/Repo.antt =====
-- app/db/repositories/exchange_rate_repo.py and the Redis keys of the rates. A row or a key is
-- named by its currency and date.
use price_monitoring_service.Prelude.{
  ℕ, String, Bool, ◌&&◌, Option, none, some, List, [], ◌∷◌, ltb, leb, ◌==◌, if◌then◌else◌, filter,
}
use price_monitoring_service.Decimal.{Decimal}
use price_monitoring_service.Schemas.{Currency, currency_eq}
use price_monitoring_service.Models.{ExchangeRate, CacheEntry}

abbrev pub is_rate_of : Currency → ℕ → ExchangeRate → Bool
is_rate_of currency for_date row = currency_eq row.currency_code currency && row.date == for_date

abbrev pub rate_of : Option ExchangeRate → Option Decimal
rate_of none = none
rate_of (some row) = some row.rate_uah_per_unit

-- `ExchangeRateRepo.get_rate`
unfoldable pub stored_rate : Currency → ℕ → List ExchangeRate → Option Decimal
stored_rate currency for_date [] = none
stored_rate currency for_date (row ∷ rows) =
    if is_rate_of currency for_date row
    then some row.rate_uah_per_unit
    else stored_rate currency for_date rows

-- the later of two rows; of equal dates the first
abbrev pub later_row : ExchangeRate → Option ExchangeRate → ExchangeRate
later_row row none = row
later_row row (some best) = if ltb row.date best.date then best else row

-- ORDER BY date DESC LIMIT 1 over the rows of the currency on or before the date
unfoldable pub latest_row : Currency → ℕ → List ExchangeRate → Option ExchangeRate
latest_row currency for_date [] = none
latest_row currency for_date (row ∷ rows) =
    let rest = latest_row currency for_date rows in
    if currency_eq row.currency_code currency && leb row.date for_date
    then some (later_row row rest)
    else rest

-- `ExchangeRateRepo.get_rate_on_or_before`
unfoldable pub rate_on_or_before : Currency → ℕ → List ExchangeRate → Option Decimal
rate_on_or_before currency for_date rows = rate_of (latest_row currency for_date rows)

-- `ExchangeRateRepo.list_for_date`
unfoldable pub list_for_date : ℕ → List ExchangeRate → List ExchangeRate
list_for_date for_date rows = filter (λ row. row.date == for_date) rows

-- INSERT … ON CONFLICT (currency_code, date) DO UPDATE
unfoldable pub upsert_row : Currency → ℕ → Decimal → String → List ExchangeRate → List ExchangeRate
upsert_row currency for_date rate source [] =
    record {
      currency_code = currency;
      rate_uah_per_unit = rate;
      date = for_date;
      source = some source;
    }
    ∷ []
upsert_row currency for_date rate source (row ∷ rows) =
    if is_rate_of currency for_date row
    then record row { rate_uah_per_unit = rate; source = some source } ∷ rows
    else row ∷ upsert_row currency for_date rate source rows

abbrev pub is_key : Currency → ℕ → CacheEntry → Bool
is_key currency for_date e = currency_eq e.currency currency && e.date == for_date

-- `redis.get(key)`, as the Decimal of the stored text
unfoldable pub cached_rate : Currency → ℕ → List CacheEntry → Option Decimal
cached_rate currency for_date [] = none
cached_rate currency for_date (k ∷ keys) =
    if is_key currency for_date k then some k.rate else cached_rate currency for_date keys

-- `redis.set(key, value, ex=ttl)`
unfoldable pub set_key : CacheEntry → List CacheEntry → List CacheEntry
set_key e [] = e ∷ []
set_key e (k ∷ keys) = if is_key e.currency e.date k then e ∷ keys else k ∷ set_key e keys
