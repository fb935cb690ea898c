-- ===== src/Currency/Service.antt =====
-- `CurrencyService` of app/services/currency_service.py. `date.today()` is the environment's day
-- throughout one call.
use price_monitoring_service.Prelude.{
  ℕ, zero, suc, ◌+◌, ◌-◌, true, false, Option, none, some, List, [], ◌∷◌, leb, ◌==◌, if◌then◌else◌,
}
use price_monitoring_service.Decimal.{Decimal, of_int, mul, div, quantize}
use price_monitoring_service.Schemas.{Currency, code}
use price_monitoring_service.Exec.{
  Exec, ok, err, value_error, data_error, pure, raise, lift, gets, modify, ◌>>=◌, ◌>>◌,
}
use price_monitoring_service.Env.{Env}
use price_monitoring_service.Models.{ExchangeRate, World}
use price_monitoring_service.Currency.Repo.{
  stored_rate, rate_on_or_before, list_for_date, upsert_row, cached_rate, set_key,
}
use price_monitoring_service.Currency.Nbu.{Rates, rate_in, fetch_all_today_from_nbu, fetch_from_nbu}

-- `SYNC_CURRENCIES`
abbrev pub sync_currencies : List Currency
sync_currencies = Currency.usd ∷ Currency.eur ∷ Currency.gbp ∷ []

abbrev pub rows_of : World → List ExchangeRate
rows_of w = w.db.exchange_rates

abbrev pub set_rows : List ExchangeRate → World → World
set_rows rows w = record w { db = record w.db { exchange_rates = rows } }

module _ (env : Env) where
  abbrev pub write_rate : Currency → ℕ → Option Decimal → Exec World (Unit {0})
  write_rate currency for_date none w = (err data_error, w)
  write_rate currency for_date (some rate) w =
      (ok tt, set_rows (upsert_row currency for_date rate "NBU" (rows_of w)) w)

  -- `ExchangeRateRepo.upsert` into a column NUMERIC(16, 8)
  unfoldable pub upsert : Currency → ℕ → Decimal → Exec World (Unit {0})
  upsert currency for_date rate = write_rate currency for_date (env.numeric 16 8 rate)

  -- the `ttl` of `_cache`: a time to live of 0 counts as none
  abbrev pub ttl_for : ℕ → Option ℕ
  ttl_for for_date =
      if for_date == env.today
      then (if env.settings.redis_ttl_exchange_rate == 0
          then none
          else some env.settings.redis_ttl_exchange_rate)
      else none

  -- `_cache`
  unfoldable pub cache : Currency → Decimal → ℕ → Exec World (Unit {0})
  cache currency rate for_date = modify λ w. record w {
    redis =
        set_key
          (record { currency = currency; date = for_date; rate = rate; ttl = ttl_for for_date })
          w.redis;
  }

  -- step 3 of `get_rate`: the nearest earlier rate
  unfoldable pub from_earlier : Currency → ℕ → Option Decimal → Exec World Decimal
  unfolding cache
  from_earlier currency for_date (some rate) = do cache currency rate for_date; pure rate
  from_earlier currency for_date none = raise value_error

  -- step 2: the NBU
  unfoldable pub from_nbu : Currency → ℕ → Option Decimal → Exec World Decimal
  unfolding cache upsert from_earlier
  from_nbu currency for_date (some rate) = do
    upsert currency for_date rate
    cache currency rate for_date
    pure rate
  from_nbu currency for_date none = do
    rate ← gets (λ w. rate_on_or_before currency for_date (rows_of w))
    from_earlier currency for_date rate

  -- step 1: the exact date in the database
  unfoldable pub from_db : Currency → ℕ → Option Decimal → Exec World Decimal
  unfolding cache from_nbu
  from_db currency for_date (some rate) = do cache currency rate for_date; pure rate
  from_db currency for_date none = do
    rate ← fetch_from_nbu env currency for_date
    from_nbu currency for_date rate

  unfoldable pub from_redis : Currency → ℕ → Option Decimal → Exec World Decimal
  unfolding from_db
  from_redis currency for_date (some rate) = pure rate
  from_redis currency for_date none = do
    rate ← gets (λ w. stored_rate currency for_date (rows_of w))
    from_db currency for_date rate

  unfoldable pub get_rate : Currency → ℕ → Exec World Decimal
  unfolding from_redis
  get_rate Currency.uah for_date = pure (of_int 1)
  get_rate currency for_date = do
    cached ← gets (λ w. cached_rate currency for_date w.redis)
    from_redis currency for_date cached

  -- `for_date or date.today()`
  abbrev pub date_or_today : Option ℕ → ℕ
  date_or_today none = env.today
  date_or_today (some d) = d

  unfoldable pub convert : Decimal → Currency → Option ℕ → Exec World Decimal
  convert amount_usd Currency.usd for_date = lift (quantize amount_usd)
  convert amount_usd Currency.uah for_date = do
    rate_usd ← get_rate Currency.usd (date_or_today for_date)
    lift (quantize (mul amount_usd rate_usd))
  convert amount_usd to_currency for_date = do
    rate_usd ← get_rate Currency.usd (date_or_today for_date)
    rate_target ← get_rate to_currency (date_or_today for_date)
    q ← lift (div (mul amount_usd rate_usd) rate_target)
    lift (quantize q)

  unfoldable pub get_today_rates : World → List ExchangeRate
  get_today_rates w = list_for_date env.today (rows_of w)

  -- one round of `sync_today_rates`
  unfoldable pub sync_one : Currency → Option Decimal → ℕ → Exec World ℕ
  unfolding upsert cache
  sync_one currency none synced = pure synced
  sync_one currency (some rate) synced = do
    upsert currency env.today rate
    cache currency rate env.today
    pure (synced + 1)

  unfoldable pub sync_each : List Currency → Rates → ℕ → Exec World ℕ
  unfolding sync_one
  sync_each [] rates synced = pure synced
  sync_each (currency ∷ rest) rates synced = do
    n ← sync_one currency (rate_in (code currency) rates) synced
    sync_each rest rates n

  unfoldable pub sync_today_rates : Exec World ℕ
  unfolding sync_each
  sync_today_rates = do rates ← fetch_all_today_from_nbu env; sync_each sync_currencies rates 0

  unfoldable pub write_fetched : Currency → ℕ → ℕ → Option Decimal → Exec World ℕ
  unfolding upsert
  write_fetched currency current written none = pure written
  write_fetched currency current written (some rate) = do
    upsert currency current rate
    pure (written + 1)

  -- the body of the inner loop, on the rate that the database has
  unfoldable pub sync_missing : Currency → ℕ → ℕ → Option Decimal → Exec World ℕ
  unfolding write_fetched
  sync_missing currency current written (some rate) = pure written
  sync_missing currency current written none = do
    rate ← fetch_from_nbu env currency current
    write_fetched currency current written rate

  unfoldable pub sync_day : List Currency → ℕ → ℕ → Exec World ℕ
  unfolding sync_missing
  sync_day [] current written = pure written
  sync_day (currency ∷ rest) current written = do
    have ← gets (λ w. stored_rate currency current (rows_of w))
    n ← sync_missing currency current written have
    sync_day rest current n

  -- `while current <= date_to`, with the rounds that are left
  unfoldable pub sync_days : ℕ → ℕ → ℕ → ℕ → Exec World ℕ
  unfolding sync_day
  sync_days zero current date_to written = pure written
  sync_days (suc rounds) current date_to written = elim (leb current date_to) [
    | true ↦ do
      n ← sync_day sync_currencies current written
      sync_days rounds (current + 1) date_to n
    | false ↦ pure written
  ]

  unfoldable pub sync_historical_rates : ℕ → ℕ → Exec World ℕ
  unfolding sync_days
  sync_historical_rates date_from date_to = sync_days (date_to + 1 - date_from) date_from date_to 0
