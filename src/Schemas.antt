-- ===== src/Schemas.antt =====
-- app/schemas/enums.py and the request and response models of app/schemas. A UUID and a row id
-- are numbers, a date is a day number (`date.toordinal()`), a moment is the number of microseconds
-- since the start of day 0, in UTC.
use price_monitoring_service.Prelude.{ℕ, String, Bool, true, Option, List, ◌==◌, ◌≡◌, ◌↔◌, arith}
use price_monitoring_service.Decimal.{Decimal}

pub data Currency : Type 0 where
  usd uah eur gbp : Currency

pub data TrendDirection : Type 0 where
  up down same : TrendDirection

pub data SortOption : Type 0 where
  price_asc price_desc trend_asc trend_desc : SortOption

abbrev index : Currency → ℕ
index Currency.usd = 0
index Currency.uah = 1
index Currency.eur = 2
index Currency.gbp = 3

-- `==` on the members of the enum
unfoldable pub currency_eq : Currency → Currency → Bool
currency_eq c j = index c == index j

pub currency_eq_iff : (c j : Currency) → (currency_eq c j ≡ true) ↔ (c ≡ j)
unfolding currency_eq
currency_eq_iff c j = ground arith

pub currency_eq_refl : (c : Currency) → currency_eq c c ≡ true
unfolding currency_eq
currency_eq_refl c = ground arith

-- the string that a member equals
abbrev pub code : Currency → String
code Currency.usd = "USD"
code Currency.uah = "UAH"
code Currency.eur = "EUR"
code Currency.gbp = "GBP"

pub record ProductListItem : Type 0 where
  pub id : ℕ
  pub title : String
  pub category : Option String
  pub price_min : Option Decimal
  pub price_max : Option Decimal
  pub currency : Currency
  pub trend : TrendDirection

pub record ProductListResponse : Type 0 where
  pub items : List ProductListItem
  pub page : ℕ
  pub page_size : ℕ
  pub total : ℕ

pub record ProductDetail : Type 0 where
  pub id : ℕ
  pub title : String
  pub description : Option String
  pub category : Option String
  pub price_min : Option Decimal
  pub price_max : Option Decimal
  pub currency : Currency
  pub shops_count : ℕ

pub record CatalogItem : Type 0 where
  pub id : ℕ
  pub title : String
  pub category : Option String
  pub price_min : Option Decimal
  pub price_max : Option Decimal
  pub currency : Currency
  pub shops_count : ℕ

pub record CatalogResponse : Type 0 where
  pub items : List CatalogItem
  pub page : ℕ
  pub page_size : ℕ
  pub total : ℕ

pub record ShopPriceItem : Type 0 where
  pub shop_name : String
  pub price : Decimal
  pub currency : Currency
  pub last_updated : ℕ

pub record PriceHistoryPoint : Type 0 where
  pub date : ℕ
  pub price : Decimal

pub record PriceHistorySeries : Type 0 where
  pub shop_name : String
  pub points : List PriceHistoryPoint

pub record PriceHistoryResponse : Type 0 where
  pub series : List PriceHistorySeries
  pub average : List PriceHistoryPoint

pub record AlertCreate : Type 0 where
  pub product_id : ℕ
  pub threshold_price : Decimal
  pub currency : Currency

pub record AlertResponse : Type 0 where
  pub id : ℕ
  pub product_id : ℕ
  pub threshold_price_usd : Option Decimal
  pub currency_code : Option Currency
  pub is_active : Bool
  pub created_at : ℕ

pub record CurrencyRateItem : Type 0 where
  pub currency_code : Currency
  pub rate_uah_per_unit : Decimal
  pub date : ℕ

pub record WatchlistItem : Type 0 where
  pub product_id : ℕ
