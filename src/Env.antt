-- ===== src/Env.antt =====
-- What the services take from outside the repository: the servers that they call, the mail
-- server, the clock and the settings. Each is a parameter of the model.
use price_monitoring_service.Prelude.{ℕ, String, Bool, true, false, Option, List}
use price_monitoring_service.Decimal.{Decimal}
use price_monitoring_service.Json.{Json}
use price_monitoring_service.Schemas.{Currency}

-- A URL by its parts.
pub data Request : Type 0 where
  nbu_today : Request
  nbu_rate : Currency → ℕ → Request
  dummyjson_products : String → ℕ → ℕ → Request
  fakestore_products : String → Request

-- What `client.get` does: it raises a `TransportError`, or returns a response with a status code
-- and a body, which is no JSON in the case `none`.
pub data Reply : Type 0 where
  transport_failure : Reply
  response : ℕ → Option Json → Reply

pub record Email : Type 0 where
  pub to : String
  pub subject : String
  pub body : String

-- app/core/config.py: `Settings`
pub record Settings : Type 0 where
  pub app_env : String
  pub app_secret_key : String
  pub debug : Bool
  pub run_seed_on_startup : Bool
  pub database_url : String
  pub db_pool_size : ℕ
  pub db_max_overflow : ℕ
  pub redis_url : String
  pub redis_ttl_exchange_rate : ℕ
  pub redis_ttl_product_prices : ℕ
  pub redis_ttl_user_products : ℕ
  pub celery_broker_url : String
  pub celery_result_backend : String
  pub fetch_prices_interval_hours : ℕ
  pub check_alerts_interval_minutes : ℕ
  pub sync_rates_cron_hour : ℕ
  pub email_enabled : Bool
  pub smtp_host : String
  pub smtp_port : ℕ
  pub smtp_user : String
  pub smtp_password : String
  pub smtp_from : String
  pub smtp_use_tls : Bool
  pub nbu_api_url : String
  pub nbu_historical_years : ℕ
  pub dummyjson_url : String
  pub fakestore_url : String
  pub shop_api_timeout : ℕ
  pub shop_api_retry_attempts : ℕ

-- the settings of an environment that gives only the fields without a default
abbrev pub default_settings : String → String → String → String → String → Settings
default_settings secret database redis broker backend = record {
  app_env = "dev";
  app_secret_key = secret;
  debug = false;
  run_seed_on_startup = false;
  database_url = database;
  db_pool_size = 10;
  db_max_overflow = 20;
  redis_url = redis;
  redis_ttl_exchange_rate = 3600;
  redis_ttl_product_prices = 3600;
  redis_ttl_user_products = 300;
  celery_broker_url = broker;
  celery_result_backend = backend;
  fetch_prices_interval_hours = 4;
  check_alerts_interval_minutes = 60;
  sync_rates_cron_hour = 8;
  email_enabled = false;
  smtp_host = "localhost";
  smtp_port = 587;
  smtp_user = "";
  smtp_password = "";
  smtp_from = "noreply@pricetracker.com";
  smtp_use_tls = true;
  nbu_api_url = "https://bank.gov.ua/NBUStatService/v1/statdirectory/exchange";
  nbu_historical_years = 5;
  dummyjson_url = "https://dummyjson.com";
  fakestore_url = "https://fakestoreapi.com";
  shop_api_timeout = 10;
  shop_api_retry_attempts = 3;
}

pub record Env : Type 0 where
  pub settings : Settings
  -- the answer to the n-th request
  pub reply : Request → ℕ → Reply
  -- whether `raise_for_status` raises for a status code
  pub raises_for : ℕ → Bool
  -- `Decimal(s)` and `str(v)` of the standard library
  pub parse_decimal : String → Option Decimal
  pub str_of : Json → String
  pub str_decimal : Decimal → String
  -- what a column NUMERIC(precision, scale) keeps of a value; none where the value overflows it
  pub numeric : ℕ → ℕ → Decimal → Option Decimal
  -- what `avg` of SQL makes of the values of a group, which is never empty
  pub sql_avg : List Decimal → Decimal
  -- the numbers from this one on overflow the integer as which the driver binds a LIMIT or OFFSET
  pub bind_bound : ℕ
  -- whether a text stands before another in the database's order
  pub text_before : String → String → Bool
  -- the day of a moment in the database's time zone, `date(recorded_at)` in SQL
  pub sql_date : ℕ → ℕ
  -- whether the mail server takes the n-th message
  pub smtp_accepts : Email → ℕ → Bool
  -- `date.today()` and `datetime.now(timezone.utc)`
  pub today : ℕ
  pub now : ℕ
