-- ===== src/Tests/Rated.antt =====
-- Readings of prices on a day with known rates: the dollar's in Redis, the others in the database.
use price_monitoring_service.Prelude.{
  ℕ, String, Pairs, ◌≡◌, true, false, refl, some, none, [], ◌∷◌, arith, inr,
}
use price_monitoring_service.Prelude.Int.{negsuc}
use price_monitoring_service.Decimal.{Decimal, of_int}
use price_monitoring_service.Decimal.Bounds.{IsAmount}
use price_monitoring_service.Schemas.{Currency, currency_eq, price_asc}
use price_monitoring_service.Exec.{ok}
use price_monitoring_service.Env.{Env, Request, Reply, response, nbu_today}
use price_monitoring_service.Json.{Json, num, str, arr, obj, nil, cons, end, field}
use price_monitoring_service.Currency.Nbu.{Rates}
use price_monitoring_service.Models.{CacheEntry, ExchangeRate, World}
use price_monitoring_service.Currency.Repo.{cached_rate, stored_rate}
use price_monitoring_service.Currency.Service.{convert}
use price_monitoring_service.Currency.Known.{Settles}
use price_monitoring_service.Currency.Quoted.{quoted, IsRated, convert-quoted}
use price_monitoring_service.Prices.Detail.{list_watchlist_details, get_watchlist_details}
use price_monitoring_service.Prices.Listing.{get_products_list, get_catalog}
use price_monitoring_service.Prices.Quoted.Cards.{IsCardOf, get_watchlist_details-quoted}
use price_monitoring_service.Prices.Quoted.Pages.{
  IsListOf, IsCatalogOf, get_products_list-quoted, get_catalog-quoted,
}
use price_monitoring_service.Tests.Fixtures.{env_with, down, usd_rate, world, tables}

abbrev env : Env
env = env_with down true

abbrev eur_rate : ExchangeRate
eur_rate = record {
  currency_code = Currency.eur;
  rate_uah_per_unit = record { negative = false; coeff = 452; exp = negsuc 0 };
  date = 100;
  source = some "NBU";
}

abbrev gbp_rate : ExchangeRate
gbp_rate = record eur_rate {
  currency_code = Currency.gbp;
  rate_uah_per_unit = record { negative = false; coeff = 525; exp = negsuc 0 };
}

abbrev usd_entry : CacheEntry
usd_entry = record { currency = Currency.usd; date = 100; rate = usd_rate; ttl = some 3600 }

-- a user who tracks the lamp, on a day with rates
abbrev rated_world : World
rated_world = record world {
  db = record tables {
    user_products = record { user_id = 1; product_id = 3 } ∷ [];
    exchange_rates = eur_rate ∷ gbp_rate ∷ [];
  };
  redis = usd_entry ∷ [];
}

rated : IsRated 2 1 100 rated_world
unfolding cached_rate stored_rate currency_eq
rated Currency.usd = (usd_rate, refl, inr (3, refl, omega arith), (omega arith, omega arith))
rated Currency.uah = (of_int 1, refl, inr (2, refl, omega arith), (omega arith, omega arith))
rated Currency.eur =
    (eur_rate.rate_uah_per_unit, refl, inr (3, refl, omega arith), (omega arith, omega arith))
rated Currency.gbp =
    (gbp_rate.rate_uah_per_unit, refl, inr (3, refl, omega arith), (omega arith, omega arith))

convert-quoted_example :
    Settles
      (λ x. (quoted Currency.eur 100 rated_world (of_int 20) ≡ ok x) × IsAmount 5 x)
      rated_world
      (convert env (of_int 20) Currency.eur none rated_world)
convert-quoted_example =
    convert-quoted env 2 2 1 (omega arith) (of_int 20) (inr (2, refl, omega arith)) none
      Currency.eur rated_world rated

get_watchlist_details-quoted_example :
    Settles
      (Pairs (IsCardOf env Currency.eur rated_world) (list_watchlist_details env 1 rated_world))
      rated_world
      (get_watchlist_details env 1 Currency.eur rated_world)
get_watchlist_details-quoted_example =
    get_watchlist_details-quoted env Currency.eur rated_world 2 2 1 (omega arith) rated
      (inr (2, refl, omega arith), tt) 1

get_products_list-quoted_example :
    Settles
      (IsListOf env Currency.gbp rated_world 1 1 20 price_asc)
      rated_world
      (get_products_list env 1 Currency.gbp 1 20 price_asc rated_world)
get_products_list-quoted_example =
    get_products_list-quoted env Currency.gbp rated_world 2 2 1 (omega arith) rated
      (inr (2, refl, omega arith), tt) 1 1 20 price_asc

get_catalog-quoted_example :
    Settles
      (IsCatalogOf env Currency.uah rated_world 1 20)
      rated_world
      (get_catalog env Currency.uah 1 20 rated_world)
get_catalog-quoted_example =
    get_catalog-quoted env Currency.uah rated_world 2 2 1 (omega arith) rated
      (inr (2, refl, omega arith), tt) 1 20 (omega arith, omega arith)

abbrev listed : String → Decimal → Json
listed name rate = obj (field "cc" (str name) (field "rate" (num rate) end))

-- a bank that lists three rates
abbrev bank : Request → ℕ → Reply
bank nbu_today n = response 200 (
    some (
      arr (
        cons (listed "USD" usd_rate) (
          cons (listed "EUR" eur_rate.rate_uah_per_unit)
            (cons (listed "GBP" gbp_rate.rate_uah_per_unit) nil)))))
bank url n = down url n

abbrev bank_env : Env
bank_env = env_with bank true

abbrev bank_rates : Rates
bank_rates =
    ("USD", usd_rate)
    ∷ ("EUR", eur_rate.rate_uah_per_unit)
    ∷ ("GBP", gbp_rate.rate_uah_per_unit)
    ∷ []
