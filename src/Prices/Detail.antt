-- ===== src/Prices/Detail.antt =====
-- The cards of products and the current prices: `get_product_detail`, `get_watchlist_details`,
-- `get_current_prices` and `_convert_opt` of app/services/price_service.py, over the queries of
-- app/db/repositories/product_repo.py and price_repo.py. SQL leaves the order of the rows open; the
-- model takes that of the tables.
pub mod Money
use price_monitoring_service.Prelude.{
  not, ◌++◌, ℕ, String, Bool, true, false, ◌&&◌, Option, none, some, List, [], ◌∷◌, ◌==◌,
  if◌then◌else◌, filter, length, any,
}
use price_monitoring_service.Decimal.{Decimal}
use price_monitoring_service.Exec.{Exec, Result, ok, err, not_found, pure, raise, ◌>>=◌}
use price_monitoring_service.Env.{Env}
use price_monitoring_service.Schemas.{Currency, ProductDetail, ShopPriceItem}
use price_monitoring_service.Models.{
  Product, ProductShop, Shop, UserProduct, PriceHistory, Database, World,
}
use price_monitoring_service.Currency.Service.{convert}
use price_monitoring_service.Watchlist.{product_exists, tracks}
use price_monitoring_service.Prices.Latest.{utc_day_start, latest_price, min_price, max_price}

-- a row of `list_watchlist_details` and `get_detail`
pub record DetailRow : Type 0 where
  pub id : ℕ
  pub title : String
  pub description : Option String
  pub category : Option String
  pub price_min : Option Decimal
  pub price_max : Option Decimal
  pub shops_count : ℕ

-- a row of `PriceRepo.get_current_prices`
pub record PriceRow : Type 0 where
  pub shop_name : String
  pub price_usd : Decimal
  pub recorded_at : ℕ

-- the elements that there are
abbrev pub kept : {A : Type 0} → Option A → List A → List A
kept none rest = rest
kept (some a) rest = a ∷ rest

module _ (env : Env) where
  -- `utc_today_start()`: the day is `date.today()`
  abbrev pub utc_today_start : ℕ
  utc_today_start = utc_day_start env.today

  -- The group of a product: the inner join with product_shops drops a product that has none.
  abbrev pub detail_row : Database → Product → Option DetailRow
  detail_row db p =
      let shops = length (filter (λ ps. ps.product_id == p.id) db.product_shops) in
      if shops == 0
      then none
      else some (record {
        id = p.id;
        title = p.title;
        description = p.description;
        category = p.category;
        price_min = min_price (some utc_today_start) p.id db.price_history db.product_shops;
        price_max = max_price (some utc_today_start) p.id db.price_history db.product_shops;
        shops_count = shops;
      })

  unfoldable pub detail_rows : Database → List Product → List DetailRow
  detail_rows db [] = []
  detail_rows db (p ∷ products) = kept (detail_row db p) (detail_rows db products)

  -- `ProductRepo.list_watchlist_details`
  unfoldable pub list_watchlist_details : ℕ → World → List DetailRow
  unfolding detail_rows
  list_watchlist_details user_id w =
      detail_rows w.db (filter (λ p. tracks user_id p.id w) w.db.products)

  abbrev pub head : List DetailRow → Option DetailRow
  head [] = none
  head (row ∷ rows) = some row

  -- `ProductRepo.get_detail`
  unfoldable pub get_detail : ℕ → World → Option DetailRow
  unfolding detail_rows
  get_detail product_id w = head (detail_rows w.db (filter (λ p. p.id == product_id) w.db.products))

  -- `_convert_opt`
  unfoldable pub convert_opt : Option Decimal → Currency → Exec World (Option Decimal)
  convert_opt none currency = pure none
  convert_opt (some amount_usd) currency = do
    d ← convert env amount_usd currency none
    pure (some d)

  -- `ProductDetail(...)` of a row
  unfoldable pub product_detail : Currency → DetailRow → Exec World ProductDetail
  unfolding convert_opt
  product_detail currency row = do
    price_min ← convert_opt row.price_min currency
    price_max ← convert_opt row.price_max currency
    pure (record {
      id = row.id;
      title = row.title;
      description = row.description;
      category = row.category;
      price_min = price_min;
      price_max = price_max;
      currency = currency;
      shops_count = row.shops_count;
    })

  unfoldable pub detail_or_raise : Currency → Option DetailRow → Exec World ProductDetail
  unfolding product_detail
  detail_or_raise currency none = raise (not_found "Product not found")
  detail_or_raise currency (some row) = product_detail currency row

  unfoldable pub get_product_detail : ℕ → Currency → Exec World ProductDetail
  unfolding detail_or_raise get_detail
  get_product_detail product_id currency w = detail_or_raise currency (get_detail product_id w) w

  -- the list comprehension of `get_watchlist_details`
  unfoldable pub detail_each : Currency → List DetailRow → Exec World (List ProductDetail)
  unfolding product_detail
  detail_each currency [] = pure []
  detail_each currency (row ∷ rows) = do
    d ← product_detail currency row
    rest ← detail_each currency rows
    pure (d ∷ rest)

  unfoldable pub get_watchlist_details : ℕ → Currency → Exec World (List ProductDetail)
  unfolding detail_each list_watchlist_details
  get_watchlist_details user_id currency w =
      detail_each currency (list_watchlist_details user_id w) w

  -- the shop of a row, by its primary key
  abbrev pub shop_named : ℕ → Option PriceHistory → List Shop → List PriceRow
  shop_named shop_id none shops = []
  shop_named shop_id (some row) [] = []
  shop_named shop_id (some row) (s ∷ shops) =
      let rest = shop_named shop_id (some row) shops in
      if s.id == shop_id
      then record { shop_name = s.name; price_usd = row.price_usd; recorded_at = row.recorded_at }
        ∷ rest
      else rest

  -- the rows of the product_shops of a product, each with its latest price of the day and its shop
  unfoldable pub price_rows : Database → ℕ → List ProductShop → List PriceRow
  price_rows db product_id [] = []
  price_rows db product_id (ps ∷ product_shops) =
      let rest = price_rows db product_id product_shops in
      if ps.product_id == product_id
      then shop_named ps.shop_id (latest_price (some utc_today_start) ps.id db.price_history)
          db.shops
        ++ rest
      else rest

  -- `PriceRepo.get_current_prices`
  unfoldable pub current_prices : ℕ → World → List PriceRow
  unfolding price_rows
  current_prices product_id w = price_rows w.db product_id w.db.product_shops

  -- the loop of `get_current_prices`
  unfoldable pub price_each : Currency → List PriceRow → Exec World (List ShopPriceItem)
  price_each currency [] = pure []
  price_each currency (row ∷ rows) = do
    price ← convert env row.price_usd currency none
    rest ← price_each currency rows
    pure (
        record {
          shop_name = row.shop_name;
          price = price;
          currency = currency;
          last_updated = row.recorded_at;
        }
        ∷ rest)

  -- `if not rows and not await self.products.exists(product_id)`
  unfoldable pub prices_or_raise : ℕ → Currency → List PriceRow → Exec World (List ShopPriceItem)
  unfolding price_each
  prices_or_raise product_id currency [] w =
      if not (product_exists product_id w)
      then (err (not_found "Product not found"), w)
      else (ok [], w)
  prices_or_raise product_id currency (row ∷ rows) w = price_each currency (row ∷ rows) w

  unfoldable pub get_current_prices : ℕ → Currency → Exec World (List ShopPriceItem)
  unfolding prices_or_raise current_prices
  get_current_prices product_id currency w =
      prices_or_raise product_id currency (current_prices product_id w) w

  -- `UserProductService.list_tracked` of app/services/user_product_service.py
  abbrev pub list_tracked : ℕ → Currency → Exec World (List ProductDetail)
  list_tracked user_id currency = get_watchlist_details user_id currency
