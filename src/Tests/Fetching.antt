-- ===== src/Tests/Fetching.antt =====
-- The price fetcher and its task, the adapters, the matching and the partitions.
use price_monitoring_service.Prelude.{filter}
use price_monitoring_service.Prelude.{
  ℕ, String, ◌≡◌, ◌-◌, refl, sym, ap, Bool, true, false, none, some, List, [], ◌∷◌, length, arith,
}
use price_monitoring_service.Decimal.{of_int, lt}
use price_monitoring_service.Exec.{Exec, ok, err, Result}
use price_monitoring_service.Json.{str}
use price_monitoring_service.Env.{Env}
use price_monitoring_service.Models.{World, Database}
use price_monitoring_service.Adapters.{ShopProduct, dummyjson}
use price_monitoring_service.Adapters.Paging.{TotalAtMost, Outcome, dummyjson_ends}
use price_monitoring_service.Fetcher.{
  Session, history, fetch_all, write_prices, priced_since, dedup_window,
}
use price_monitoring_service.Fetcher.Counts.{Adapters, LeavesDb}
use price_monitoring_service.Fetcher.Dedup.{rows_for, write_prices_dedup}
use price_monitoring_service.Adapters.Registry.{registry}
use price_monitoring_service.Tasks.{fetch_prices_async}
use price_monitoring_service.Tasks.Fetching.{Records, fetch_prices_async_lem}
use price_monitoring_service.Seed.{map_by_nearest_price}
use price_monitoring_service.Seed.Matching.{IsMatching, map_by_nearest_price-IsMatching}
use price_monitoring_service.Partition.{
  Date, PartitionTable, first_partitions, holds, create_partitions,
}
use price_monitoring_service.Partition.Coverage.{
  IsTimely, first_month, next_month, create_partitions_lem,
}
use price_monitoring_service.Tests.Fixtures.{
  env_with, answers, link, world, tables, lamp_price, lamp_shop,
}

abbrev lamp : ShopProduct
lamp = record {
  external_id = "1";
  title = str "Lamp";
  description = str "";
  category = str "";
  price_usd = of_int 20;
}

abbrev fetches : Exec World (List ShopProduct)
fetches w = (ok (lamp ∷ []), w)

-- a stub_registry of adapters that return one product
abbrev stub_registry : Adapters
stub_registry key url = ok fetches

stub_leaves : LeavesDb stub_registry
stub_leaves key url m e w = sym (ap same_tables e)
  where
    same_tables : Result (Exec World (List ShopProduct)) → Database
    same_tables (ok n) = (n w).1.db
    same_tables (err x) = w.db

-- the price of the tables is older than an hour
abbrev fresh_world : World
fresh_world = record world {
  db = record tables { price_history = record lamp_price { recorded_at = 0 } ∷ [] };
}

abbrev session : Session
session = record { world = fresh_world; before = fresh_world.db.price_history; failed = false }

abbrev recent_session : Session
recent_session = record { world = world; before = world.db.price_history; failed = false }

-- an environment in which no price fits its column
abbrev overflowing : Env
overflowing = record (env_with answers true) { numeric = λ precision scale d. none }

one_written :
    (fetch_all (env_with answers true) stub_registry session).0 ≡ (some "fakestore", 1) ∷ []
unfolding fetch_all
one_written = refl

flushed : (fetch_all (env_with answers true) stub_registry session).1.failed ≡ false
unfolding fetch_all
flushed = refl

overflowed : (fetch_all overflowing stub_registry session).1.failed ≡ true
unfolding fetch_all
overflowed = refl

priced : priced_since ((env_with answers true).now - dedup_window) (history recent_session) 5 ≡ true
priced = refl

kept_going :
    (write_prices (env_with answers true) lamp_shop (lamp ∷ []) recent_session).1.failed ≡ false
unfolding write_prices
kept_going = refl

write_prices_dedup_example :
    rows_for 5
      (history (write_prices (env_with answers true) lamp_shop (lamp ∷ []) recent_session).1)
    ≡ rows_for 5 (history recent_session)
write_prices_dedup_example =
    write_prices_dedup (env_with answers true) lamp_shop (lamp ∷ []) recent_session 5 priced
      kept_going

-- the page of these answers states a total of 1
at_most_one_page : (url : String) → TotalAtMost (env_with answers true) url 1
unfolding lt
at_most_one_page url skip n = refl

dummyjson_ends_example : (o : Outcome) × (dummyjson (env_with answers true) "u" 1 link ≡ some o)
dummyjson_ends_example =
    dummyjson_ends (env_with answers true) "u" 1 (at_most_one_page "u") 1 link (omega arith)
      (omega arith)

-- the database takes the commit
abbrev commits : Database → Bool
commits db = true

fetch_prices_async_lem_example : Records fresh_world (
    fetch_prices_async
      (env_with answers true)
      commits
      (registry (env_with answers true) 1 at_most_one_page)
      fresh_world)
fetch_prices_async_lem_example =
    fetch_prices_async_lem (env_with answers true) commits 1 at_most_one_page fresh_world

abbrev date : ℕ → ℕ → Date
date month day = record { year = 2026; month = month; day = day }

-- July, July again, and August
abbrev run_days : List Date
run_days = date 7 1 ∷ date 7 2 ∷ date 8 1 ∷ []

timely : IsTimely first_month next_month run_days
timely = (
  (omega arith, omega arith, omega arith, omega arith),
  omega arith,
  omega arith,
  omega arith,
  omega arith,
  (
    (omega arith, omega arith, omega arith, omega arith),
    omega arith,
    omega arith,
    omega arith,
    omega arith,
    (
      (omega arith, omega arith, omega arith, omega arith),
      omega arith,
      omega arith,
      omega arith,
      omega arith,
      tt,
    ),
  ),
)

-- the last day of September
create_partitions_lem_example :
    (tables : List PartitionTable) × (create_partitions run_days (ok first_partitions) ≡ ok tables)
    × (length (filter (holds (date 9 30)) tables) ≡ 1)
create_partitions_lem_example =
    create_partitions_lem run_days (date 9 30) timely
      (omega arith, omega arith, omega arith, omega arith)

map_by_nearest_price-IsMatching_example :
    IsMatching (length (lamp ∷ [])) [] (map_by_nearest_price (lamp ∷ []) (lamp ∷ lamp ∷ []))
map_by_nearest_price-IsMatching_example =
    map_by_nearest_price-IsMatching (lamp ∷ []) (lamp ∷ lamp ∷ [])
