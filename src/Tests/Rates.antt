-- ===== src/Tests/Rates.antt =====
-- The exchange rates.
use price_monitoring_service.Schemas.{currency_eq}
use price_monitoring_service.Prelude.{
  ℕ, ◌≡◌, ◌+◌, refl, true, false, some, [], ◌∷◌, length, All, arith,
}
use price_monitoring_service.Decimal.{of_int, quantize, div}
use price_monitoring_service.Prelude.Int.{negsuc}
use price_monitoring_service.Exec.{ok}
use price_monitoring_service.Schemas.{Currency}
use price_monitoring_service.Json.{num, obj, field, end}
use price_monitoring_service.HttpRetry.{get_with_retry}
use price_monitoring_service.Models.{World}
use price_monitoring_service.Currency.Repo.{
  stored_rate, latest_row, upsert_row, cached_rate, rate_on_or_before,
}
use price_monitoring_service.Currency.Nbu.{fetch_from_nbu}
use price_monitoring_service.Currency.Service.{
  rows_of, sync_currencies, get_rate, sync_historical_rates,
}
use price_monitoring_service.Currency.Rates.{
  get_rate_again, get_rate_first_source, value_of_sources, returned,
}
use price_monitoring_service.Currency.History.{
  stored_rate-sync_historical_rates, length-sync_historical_rates,
}
use price_monitoring_service.Currency.Coverage.{
  AllQuoted, IsQuoted, Returns, HasRate, sync_historical_rates-Returns,
}
use price_monitoring_service.Tests.Fixtures.{
  env_with, one_rate_body, answers, down, world, usd_rate, old_rate, tables,
}

-- The product of a price and a rate, and the quotient of two, as Python computes them.
convert_sample :
    quantize (record { negative = false; coeff = 1194690559665273450138952295; exp = negsuc 25 })
    ≡ ok (record { negative = false; coeff = 119469; exp = negsuc 3 })
unfolding quantize
convert_sample = refl

div_sample :
    div
      (record { negative = false; coeff = 53908500; exp = negsuc 3 })
      (record { negative = false; coeff = 451234; exp = negsuc 3 })
    ≡ ok (record { negative = false; coeff = 1194690559665273450138952295; exp = negsuc 24 })
unfolding div
div_sample = refl

-- no server and an earlier row: the row's rate
earlier_rate : (get_rate (env_with down true) Currency.usd 100 world).0 ≡ ok (of_int 40)
unfolding get_rate cached_rate stored_rate currency_eq fetch_from_nbu get_with_retry
    rate_on_or_before latest_row
earlier_rate = refl

fetched : (get_rate (env_with answers true) Currency.usd 100 world).0 ≡ ok usd_rate
unfolding get_rate cached_rate stored_rate currency_eq fetch_from_nbu get_with_retry
fetched = refl

-- the world that the call leaves, with the rate in the database and in Redis
abbrev fetched_world : World
fetched_world = (get_rate (env_with answers true) Currency.usd 100 world).1

fetched_outcome :
    get_rate (env_with answers true) Currency.usd 100 world ≡ (ok usd_rate, fetched_world)
unfolding get_rate cached_rate stored_rate currency_eq fetch_from_nbu get_with_retry
fetched_outcome = refl

get_rate_again_example :
    get_rate (env_with answers true) Currency.usd 100 fetched_world ≡ (ok usd_rate, fetched_world)
get_rate_again_example =
    get_rate_again (env_with answers true) Currency.usd 100 world fetched_outcome

get_rate_first_source_example :
    (get_rate (env_with answers true) Currency.usd 100 world).0
    ≡ value_of_sources
        (env_with answers true)
        (cached_rate Currency.usd 100 world.redis)
        (stored_rate Currency.usd 100 (rows_of world))
        (returned (fetch_from_nbu (env_with answers true) Currency.usd 100 world).0)
        (rate_on_or_before Currency.usd 100 (rows_of world))
get_rate_first_source_example =
    get_rate_first_source (env_with answers true) Currency.usd 100 world (λ e. cc)

stored_old : stored_rate Currency.usd 90 (rows_of world) ≡ some (of_int 40)
unfolding stored_rate currency_eq
stored_old = refl

stored_rate-sync_historical_rates_example :
    stored_rate Currency.usd 90
      (rows_of (sync_historical_rates (env_with answers true) 89 91 world).1)
    ≡ some (of_int 40)
stored_rate-sync_historical_rates_example =
    stored_rate-sync_historical_rates (env_with answers true) 89 91 world Currency.usd 90 stored_old

-- one day of which the database has one rate of three
abbrev synced : World
synced = record world {
  db = record tables {
    exchange_rates =
        old_rate
        ∷ record {
          currency_code = Currency.eur;
          rate_uah_per_unit = usd_rate;
          date = 90;
          source = some "NBU";
        }
        ∷ record {
          currency_code = Currency.gbp;
          rate_uah_per_unit = usd_rate;
          date = 90;
          source = some "NBU";
        }
        ∷ [];
  };
  link = record { sent = 2; slept = 0 };
}

one_day : sync_historical_rates (env_with answers true) 90 90 world ≡ (ok 2, synced)
unfolding sync_historical_rates stored_rate currency_eq fetch_from_nbu get_with_retry upsert_row
one_day = refl

length-sync_historical_rates_example : length (rows_of synced) ≡ length (rows_of world) + 2
length-sync_historical_rates_example =
    length-sync_historical_rates (env_with answers true) 90 90 world one_day

every_reply : (c : Currency) (d n : ℕ) → IsQuoted (env_with answers true) c d n
every_reply c d n = (
  one_rate_body,
  obj (field "rate" (num usd_rate) end),
  usd_rate,
  usd_rate,
  refl,
  refl,
  refl,
  refl,
  refl,
)

quoted_range : AllQuoted (env_with answers true) 89 91
quoted_range e lo hi =
    (every_reply Currency.usd e, (every_reply Currency.eur e, (every_reply Currency.gbp e, tt)))

sync_historical_rates-Returns_example :
    Returns
      (λ after. All (HasRate 90 (rows_of after)) sync_currencies)
      (sync_historical_rates (env_with answers true) 89 91 world)
sync_historical_rates-Returns_example =
    sync_historical_rates-Returns (env_with answers true) (omega arith) refl 89 91 world 90
      quoted_range (omega arith) (omega arith)
