-- ===== src/Tests/Fixtures.antt =====
-- Concrete servers, settings and tables for the tests.
use price_monitoring_service.Prelude.{
  ◌/◌, ◌^◌, List, ℕ, zero, suc, Bool, true, false, not, ◌&&◌, none, some, [], ◌∷◌, leb, ltb,
}
use price_monitoring_service.Prelude.Int.{negsuc}
use price_monitoring_service.Decimal.{Decimal, of_int}
use price_monitoring_service.Schemas.{Currency}
use price_monitoring_service.Json.{Json, num, str, arr, obj, nil, cons, end, field}
use price_monitoring_service.Env.{
  Env, Settings, default_settings, Request, Reply, transport_failure, response, nbu_today, nbu_rate,
  dummyjson_products, fakestore_products,
}
use price_monitoring_service.HttpRetry.{Link}
use price_monitoring_service.Models.{
  Shop, ProductShop, PriceHistory, PriceAlert, ExchangeRate, Database, World,
}

abbrev pub settings : Settings
settings =
    record (default_settings "s" "postgresql://postgres" "redis://redis/0" "redis://redis/1"
      "redis://redis/2") { email_enabled = true }

-- 41.5
abbrev pub usd_rate : Decimal
usd_rate = record { negative = false; coeff = 415; exp = negsuc 0 }

abbrev pub one_rate_body : Json
one_rate_body = arr (cons (obj (field "rate" (num usd_rate) end)) nil)

abbrev pub product_body : Json
product_body =
    obj (
      field "id" (num (of_int 1))
        (field "title" (str "Lamp") (field "price" (num (of_int 20)) end)))

abbrev pub page_body : Json
page_body =
    obj (field "products" (arr (cons product_body nil)) (field "total" (num (of_int 1)) end))

-- servers that answer every request
abbrev pub answers : Request → ℕ → Reply
answers nbu_today n = response 200 (some (arr nil))
answers (nbu_rate currency for_date) n = response 200 (some one_rate_body)
answers (dummyjson_products url limit skip) n = response 200 (some page_body)
answers (fakestore_products url) n = response 200 (some (arr (cons product_body nil)))

-- servers that fail on their first request
abbrev pub flaky : Request → ℕ → Reply
flaky url zero = response 503 none
flaky url (suc n) = answers url n

-- servers that cannot be reached
abbrev pub down : Request → ℕ → Reply
down url n = transport_failure

-- the average of prices that are all the same
abbrev pub first_price : List Decimal → Decimal
first_price [] = of_int 0
first_price (price ∷ prices) = price

abbrev pub env_with : (Request → ℕ → Reply) → Bool → Env
env_with reply mail = record {
  settings = settings;
  reply = reply;
  raises_for = λ status. not (leb 200 status && ltb status 300);
  parse_decimal = λ s. none;
  str_of = λ v. "1";
  str_decimal = λ d. "20";
  numeric = λ precision scale d. some d;
  sql_avg = first_price;
  text_before = λ a b. false;
  bind_bound = 2 ^ 31;
  sql_date = λ moment. moment / 86400000000;
  smtp_accepts = λ m n. mail;
  today = 100;
  now = 8640000000000;
}

abbrev pub lamp_price : PriceHistory
lamp_price = record { product_shop_id = 5; price_usd = of_int 20; recorded_at = 8640000000000 }

abbrev pub lamp_alert : PriceAlert
lamp_alert = record {
  id = 7;
  user_id = 1;
  product_id = 3;
  threshold_price_usd = some (of_int 25);
  currency_code = some Currency.usd;
  is_active = true;
  triggered_at = none;
  created_at = 0;
}

abbrev pub cheap_alert : PriceAlert
cheap_alert = record lamp_alert { id = 8; threshold_price_usd = some (of_int 10) }

abbrev pub old_rate : ExchangeRate
old_rate = record {
  currency_code = Currency.usd;
  rate_uah_per_unit = of_int 40;
  date = 90;
  source = some "NBU";
}

abbrev pub lamp_shop : Shop
lamp_shop = record {
  id = 2;
  name = "FakeStore";
  base_url = some "https://fakestoreapi.com";
  adapter_key = some "fakestore";
  is_active = true;
}

abbrev pub lamp_row : ProductShop
lamp_row = record { id = 5; product_id = 3; shop_id = 2; external_id = "1" }

abbrev pub tables : Database
tables = record {
  users = record { id = 1; email = "a@b.c"; is_active = true } ∷ [];
  shops = lamp_shop ∷ [];
  products =
      record {
        id = 3;
        title = "Lamp";
        description = none;
        category = none;
        description_source_shop_id = none;
      }
      ∷ [];
  product_shops = lamp_row ∷ [];
  user_products = [];
  price_history = lamp_price ∷ [];
  price_alerts = lamp_alert ∷ cheap_alert ∷ [];
  exchange_rates = old_rate ∷ [];
}

abbrev pub link : Link
link = record { sent = 0; slept = 0 }

abbrev pub world : World
world = record { db = tables; redis = []; link = link; mails_tried = 0; outbox = [] }
