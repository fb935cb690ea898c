-- ===== src/Lib.antt =====
-- The price monitoring service: users watch products, workers fetch the prices of several shops
-- and the exchange rates of the National Bank of Ukraine (NBU), and alerts tell users of low
-- prices. This library models the services and repositories of app/ as functions on explicit
-- state, and proves what they do.
--
-- The parts, by file. One step of a service is a function from a world to a result and a world
-- (Exec); a world holds the tables, the Redis keys, what the HTTP client has done, and the mail.
--
--   Exec         exceptions (app/core/exceptions.py and those of the libraries), results
--   Decimal      the arithmetic of Python's decimal module, at its default context (28 digits,
--                half to even); without NaN, infinities and the limits of the exponent; Bounds
--                has the magnitudes of products, quotients and roundings
--   Schemas      app/schemas: enums, requests, responses
--   Models       app/db/models: the rows of the tables, and the world
--   Env, Json    what comes from outside: replies of servers, the settings (app/core/config.py), the
--                clock, the mail server
--   HttpRetry    app/core/http_retry.py: get_with_retry
--   Currency     app/services/currency_service.py: Service (get_rate, convert,
--                sync_today_rates, sync_historical_rates), Nbu (the two calls of the NBU), Repo
--                (app/db/repositories/exchange_rate_repo.py and the keys of the cache)
--   Prices       app/services/price_service.py: Trend (_determine_trend), Sort (_sort_items), Page
--                (the slice of a page), Detail (get_product_detail, get_watchlist_details,
--                get_current_prices), Listing (get_products_list, get_catalog), History
--                (get_price_history); of app/db/repositories/price_repo.py, Latest
--                (latest_price_subq), Averages (avg_today_by_products,
--                avg_prev_30d_by_products) and History/Query (get_history); the queries of
--                app/db/repositories/product_repo.py stand in Detail and Listing; Quoted has
--                what these return when the rates are known
--   Watchlist    app/services/user_product_service.py and app/db/repositories/user_product_repo.py
--   Alerts       app/services/alert_service.py, app/db/repositories/alert_repo.py,
--                app/core/email.py
--   Adapters     app/services/shop_adapters: fetch_products of both shops, the registry
--   Fetcher      app/services/price_fetcher.py, app/db/repositories/shop_repo.py
--   Partition    app/tasks/prices.py: _create_partition_async, from the partitions of the first
--                migration on
--   Migrations   alembic/versions: Initial and ScalingIndexes (upgrade and downgrade as lists of
--                operations), Schema (what an operation does to a schema), Metadata (the tables
--                that the classes of app/db/models declare), Local, RoundTrip and Agreement
--   Seed         app/tasks/seed.py: _map_by_nearest_price; Startup (seed_shops, seed_products,
--                seed_demo_user, run_seed_if_needed)
--   WaitForDb    app/core/wait_for_db.py
--   Api          Auth (app/core/security.py, app/schemas/auth.py, scripts/generate_token.py),
--                Session (_get_db of app/api/deps.py, app/api/errors.py, begin_task_session of
--                app/services/db_service.py), Routes (app/api/v1: a call, its checks, and the
--                operation that it runs), Watching (the requests that write the watchlist,
--                against a set of pairs), Races (requests that add products at the same time,
--                as steps in any order; whether a commit is taken is a parameter)
--   Tasks        the coroutines of app/tasks/alerts.py, app/tasks/rates.py and
--                app/tasks/prices.py with their sessions, and scripts/sync_historical_rates.py;
--                Beat has the schedule of app/tasks/celery_app.py, and Rating ties the task of the
--                rates to a request in the world that it leaves
--   Tests        the theorems at concrete inputs
--
-- How the parts meet: a route verifies its token, checks its parameters and runs one operation of
-- a service in the session of the request, which is committed or rolled back as a whole; a task
-- does the same with its service. The currency service and the adapters call get_with_retry on the
-- HTTP client of the world; prices and alerts ask the currency service for rates; the alert check
-- and the fetcher read and write the tables. The fetcher takes the registry of adapters as a
-- parameter, which Adapters/Registry fills. FastAPI (0.138 in uv.lock) runs what stands behind the
-- yield of a dependency when the answer is out, so the commit of a request cannot change its answer.
--
-- Loops. The attempts of get_with_retry and the days of sync_historical_rates are counted by the
-- number of rounds that the code's own test allows. The paging loop of DummyJsonAdapter has no
-- bound of its own, so it takes a number of rounds and gives none when they do not suffice; with a
-- bound on the totals that the server states, as many rounds as the bound plus one suffice, and
-- Adapters/Registry has the loop without the number.
--
-- A Redis key keeps its time to live, but its expiry is no step of the model: what is said of the
-- world behind a call holds while the day and the keys of Redis are those that it left. The day and
-- the moment are fixed during one call.
--
-- What is a parameter: the servers, aiosmtplib, the clock, str and Decimal of a text, what a
-- NUMERIC column keeps of a value, the width at which the driver binds LIMIT and OFFSET, avg and the order of texts of the database, whether it takes a
-- commit, the token library, the bearer scheme, and the keys that the database and uuid draw. Not
-- modelled: how FastAPI parses a request, the engines of SQLAlchemy, Celery, logging, the text of
-- the statement for a partition, how Alembic finds its database (alembic/env.py) and the command
-- lines of the scripts. The table_name that op.drop_index is given has no effect in PostgreSQL and
-- is left out. The fetcher's writes take for granted that the moment has a partition.
pub mod Prelude
pub mod Exec
pub mod Decimal
pub mod Schemas
pub mod Json
pub mod Env
pub mod HttpRetry
pub mod Models
pub mod Currency
pub mod Prices
pub mod Watchlist
pub mod Alerts
pub mod Adapters
pub mod Fetcher
pub mod Partition
pub mod Migrations
pub mod Seed
pub mod WaitForDb
pub mod Api
pub mod Tasks
pub mod Tests
