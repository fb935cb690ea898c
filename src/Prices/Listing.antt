-- ===== src/Prices/Listing.antt =====
-- `get_products_list` and `get_catalog` of app/services/price_service.py over
-- `list_watchlist_with_prices`, `list_catalog` and `count_all` of
-- app/db/repositories/product_repo.py.
pub mod Pages
pub mod Catalog
use price_monitoring_service.Prelude.{
  ℕ, zero, suc, ◌*◌, ◌<◌, ◌≤◌, ◌≡◌, refl, ltb, ◌&&◌, if◌then◌else◌, arith, Option, none, some, List,
  [], ◌∷◌, length, map, filter, take, drop,
}
use price_monitoring_service.Decimal.{Decimal}
use price_monitoring_service.Exec.{Exec, Result, ok, err, data_error, pure, lift, gets, ◌>>=◌}
use price_monitoring_service.Prelude.Int.{ℤ, pos, negsuc, sub_ℕ}
use price_monitoring_service.Env.{Env}
use price_monitoring_service.Schemas.{
  Currency, SortOption, ProductListItem, ProductListResponse, CatalogItem, CatalogResponse,
}
use price_monitoring_service.Models.{Product, Database, World}
use price_monitoring_service.Watchlist.{tracks}
use price_monitoring_service.Prices.Trend.{determine_trend}
use price_monitoring_service.Prices.Sort.{sorted, sort_items}
use price_monitoring_service.Prices.Page.{page_of}
use price_monitoring_service.Prices.Detail.{DetailRow, detail_rows, convert_opt}
use price_monitoring_service.Prices.Averages.{
  average_of, avg_today_by_products, avg_prev_30d_by_products,
}

module _ (env : Env) where
  -- `ProductRepo.list_watchlist_with_prices`; nothing reads the description of its rows
  unfoldable pub list_watchlist_with_prices : ℕ → World → List DetailRow
  list_watchlist_with_prices user_id w =
      detail_rows env w.db (filter (λ p. tracks user_id p.id w) w.db.products)

  -- the body of the loop
  unfoldable pub list_item :
      Currency → List (ℕ × Decimal) → List (ℕ × Decimal) → DetailRow → Exec World ProductListItem
  list_item currency today_map hist_map row = do
    trend ← lift (determine_trend (average_of row.id today_map) (average_of row.id hist_map))
    price_min ← convert_opt env row.price_min currency
    price_max ← convert_opt env row.price_max currency
    pure (record {
      id = row.id;
      title = row.title;
      category = row.category;
      price_min = price_min;
      price_max = price_max;
      currency = currency;
      trend = trend;
    })

  unfoldable pub list_items :
      Currency
      → List (ℕ × Decimal)
      → List (ℕ × Decimal)
      → List DetailRow
      → Exec World (List ProductListItem)
  unfolding list_item
  list_items currency today_map hist_map [] = pure []
  list_items currency today_map hist_map (row ∷ rows) = do
    item ← list_item currency today_map hist_map row
    rest ← list_items currency today_map hist_map rows
    pure (item ∷ rest)

  -- the answer, from the items before they are sorted
  abbrev pub list_response : ℕ → ℕ → SortOption → List ProductListItem → ProductListResponse
  list_response page page_size sort items = record {
    items = page_of page page_size (sort_items items sort);
    page = page;
    page_size = page_size;
    total = length (sort_items items sort);
  }

  -- what follows the queries
  unfoldable pub build_list :
      Currency
      → ℕ
      → ℕ
      → SortOption
      → List (ℕ × Decimal)
      → List (ℕ × Decimal)
      → List DetailRow
      → Exec World ProductListResponse
  unfolding list_items
  build_list currency page page_size sort today_map hist_map rows = do
    items ← list_items currency today_map hist_map rows
    pure (list_response page page_size sort items)

  abbrev pub ids_of : List DetailRow → List ℕ
  ids_of rows = map (λ row. row.id) rows

  unfoldable pub get_products_list :
      ℕ → Currency → ℕ → ℕ → SortOption → Exec World ProductListResponse
  unfolding build_list list_watchlist_with_prices avg_today_by_products avg_prev_30d_by_products
  get_products_list user_id currency page page_size sort w =
      build_list currency page page_size sort
        (avg_today_by_products env (ids_of (list_watchlist_with_prices user_id w)) w)
        (avg_prev_30d_by_products env (ids_of (list_watchlist_with_prices user_id w)) w)
        (list_watchlist_with_prices user_id w) w

  -- the rows of the catalogue in the order of their titles; those of equal titles, which SQL leaves
  -- open, in the order of the table
  unfoldable pub catalog_rows : World → List DetailRow
  catalog_rows w =
      sorted (λ a b. env.text_before a.title b.title) (detail_rows env w.db w.db.products)

  -- `ProductRepo.list_catalog`: the driver refuses a number that overflows its integer, and
  -- PostgreSQL an offset below 0
  unfoldable pub list_catalog : ℕ → ℤ → Exec World (List DetailRow)
  unfolding catalog_rows
  list_catalog limit (negsuc n) w = (err data_error, w)
  list_catalog limit (pos offset) w =
      if ltb limit env.bind_bound && ltb offset env.bind_bound
      then (ok (take limit (drop offset (catalog_rows w))), w)
      else (err data_error, w)

  -- `ProductRepo.count_all`
  abbrev pub count_all : World → ℕ
  count_all w = length w.db.products

  unfoldable pub catalog_items : Currency → List DetailRow → Exec World (List CatalogItem)
  catalog_items currency [] = pure []
  catalog_items currency (row ∷ rows) = do
    price_min ← convert_opt env row.price_min currency
    price_max ← convert_opt env row.price_max currency
    rest ← catalog_items currency rows
    pure (
        record {
          id = row.id;
          title = row.title;
          category = row.category;
          price_min = price_min;
          price_max = price_max;
          currency = currency;
          shops_count = row.shops_count;
        }
        ∷ rest)

  unfoldable pub build_catalog : Currency → ℕ → ℕ → ℕ → List DetailRow → Exec World CatalogResponse
  unfolding catalog_items
  build_catalog currency page page_size total rows = do
    items ← catalog_items currency rows
    pure (record { items = items; page = page; page_size = page_size; total = total })

  -- `(page - 1) * page_size`
  abbrev pub offset_of : ℕ → ℕ → ℤ
  offset_of zero page_size = sub_ℕ 0 page_size
  offset_of (suc n) page_size = pos (n * page_size)

  unfoldable pub get_catalog : Currency → ℕ → ℕ → Exec World CatalogResponse
  unfolding build_catalog list_catalog
  get_catalog currency page page_size = do
    rows ← list_catalog page_size (offset_of page page_size)
    total ← gets count_all
    build_catalog currency page page_size total rows
