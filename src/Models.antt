-- ===== src/Models.antt =====
-- The tables of app/db/models, as lists of rows, and the state that the services share: the
-- database, the Redis cache, the HTTP client and the mail that was sent. Surrogate keys that
-- nothing reads (those of exchange_rates and price_history) are left out.
use price_monitoring_service.Prelude.{ℕ, String, Bool, Option, List}
use price_monitoring_service.Decimal.{Decimal}
use price_monitoring_service.Schemas.{Currency}
use price_monitoring_service.Env.{Email}
use price_monitoring_service.HttpRetry.{Link}

pub record User : Type 0 where
  pub id : ℕ
  pub email : String
  pub is_active : Bool

pub record Shop : Type 0 where
  pub id : ℕ
  pub name : String
  pub base_url : Option String
  pub adapter_key : Option String
  pub is_active : Bool

pub record Product : Type 0 where
  pub id : ℕ
  pub title : String
  pub description : Option String
  pub category : Option String
  pub description_source_shop_id : Option ℕ

pub record ProductShop : Type 0 where
  pub id : ℕ
  pub product_id : ℕ
  pub shop_id : ℕ
  pub external_id : String

pub record UserProduct : Type 0 where
  pub user_id : ℕ
  pub product_id : ℕ

pub record PriceHistory : Type 0 where
  pub product_shop_id : ℕ
  pub price_usd : Decimal
  pub recorded_at : ℕ

pub record PriceAlert : Type 0 where
  pub id : ℕ
  pub user_id : ℕ
  pub product_id : ℕ
  pub threshold_price_usd : Option Decimal
  pub currency_code : Option Currency
  pub is_active : Bool
  pub triggered_at : Option ℕ
  pub created_at : ℕ

pub record ExchangeRate : Type 0 where
  pub currency_code : Currency
  pub rate_uah_per_unit : Decimal
  pub date : ℕ
  pub source : Option String

pub record Database : Type 0 where
  pub users : List User
  pub shops : List Shop
  pub products : List Product
  pub product_shops : List ProductShop
  pub user_products : List UserProduct
  pub price_history : List PriceHistory
  pub price_alerts : List PriceAlert
  pub exchange_rates : List ExchangeRate

-- A key `exchange_rate:{currency}:{date}` with its value and its time to live in seconds.
pub record CacheEntry : Type 0 where
  pub currency : Currency
  pub date : ℕ
  pub rate : Decimal
  pub ttl : Option ℕ

pub record World : Type 0 where
  pub db : Database
  pub redis : List CacheEntry
  pub link : Link
  pub mails_tried : ℕ
  pub outbox : List Email
