-- ===== src/Prices/Quoted/Pages.antt =====
-- The pages of the list and of the catalogue, with known rates.
use price_monitoring_service.Prelude.{
  Pairs, All-take, All-drop, ℕ, zero, suc, ◌+◌, ◌*◌, ◌≤◌, ◌≡◌, refl, ap, List, [], ◌∷◌, All,
}
use price_monitoring_service.Decimal.{Decimal}
use price_monitoring_service.Schemas.{Currency}
use price_monitoring_service.Exec.{ok}
use price_monitoring_service.Env.{Env}
use price_monitoring_service.Models.{World}
use price_monitoring_service.Currency.Known.{
  SameRates, SameRates-refl, SameRates-trans, Settles, Settles-resume, settled,
}
use price_monitoring_service.Currency.Quoted.{IsRated}
use price_monitoring_service.Prices.Detail.{DetailRow}
use price_monitoring_service.Prices.Quoted.{IsBoundedRow, IsQuotedOpt, both-quoted}
use price_monitoring_service.Prices.Quoted.Rows.{HasBounds, detail_rows-bounds}
use price_monitoring_service.Schemas.{
  SortOption, ProductListItem, ProductListResponse, CatalogItem, CatalogResponse,
}
use price_monitoring_service.Prices.Page.{page_of}
use price_monitoring_service.Prices.Listing.Catalog.{IsBindable, get_catalog-page_of}
use price_monitoring_service.Prices.Sort.Keeps.{All-sorted}
use price_monitoring_service.Prices.Trend.{determine_trend}
use price_monitoring_service.Prices.Trend.Laws.{determine_trend_returns}
use price_monitoring_service.Prices.Averages.{
  average_of, avg_today_by_products, avg_prev_30d_by_products,
}
use price_monitoring_service.Prices.Listing.{
  list_watchlist_with_prices, list_item, list_items, build_list, list_response, ids_of,
  get_products_list, catalog_rows, count_all, catalog_items, build_catalog, get_catalog,
}

module _ (env : Env) (currency : Currency) (w0 : World) where
  module _ (today_map hist_map : List (ℕ × Decimal)) where
    -- an item of the list, of a row
    abbrev pub IsItemOf : DetailRow → ProductListItem → Type 0
    IsItemOf row i =
        (i.id ≡ row.id)
        × (i.currency ≡ currency)
        × (determine_trend (average_of row.id today_map) (average_of row.id hist_map) ≡ ok i.trend)
        × IsQuotedOpt env currency w0 row.price_min i.price_min
        × IsQuotedOpt env currency w0 row.price_max i.price_max

  -- an item of the catalogue, of a row
  abbrev pub IsEntryOf : DetailRow → CatalogItem → Type 0
  IsEntryOf row i =
      (i.id ≡ row.id)
      × (i.currency ≡ currency)
      × (i.shops_count ≡ row.shops_count)
      × IsQuotedOpt env currency w0 row.price_min i.price_min
      × IsQuotedOpt env currency w0 row.price_max i.price_max

  -- the response is made of the items of all rows
  abbrev pub IsListOf : ℕ → ℕ → ℕ → SortOption → ProductListResponse → Type 0
  IsListOf user_id page page_size sort r =
      let rows = list_watchlist_with_prices env user_id w0 in
      (items : List ProductListItem) × (r ≡ list_response env page page_size sort items)
      × Pairs
          (IsItemOf (avg_today_by_products env (ids_of env rows) w0)
            (avg_prev_30d_by_products env (ids_of env rows) w0))
          rows items

  abbrev pub IsCatalogOf : ℕ → ℕ → CatalogResponse → Type 0
  IsCatalogOf page page_size r =
      (r.total ≡ count_all env w0)
      × (r.page ≡ page)
      × (r.page_size ≡ page_size)
      × Pairs IsEntryOf (page_of page page_size (catalog_rows env w0)) r.items

  module _ (k u l : ℕ) (small : k + u + l ≤ 23) (rated : IsRated u l env.today w0) where
    module _ (today_map hist_map : List (ℕ × Decimal)) where
      abbrev Item : DetailRow → ProductListItem → Type 0
      Item = IsItemOf today_map hist_map

      list_item-quoted :
          (row : DetailRow) (w : World)
          → IsBoundedRow k row
          → SameRates w0 w
          → Settles (Item row) w (list_item env currency today_map hist_map row w)
      unfolding list_item
      list_item-quoted row w (bl, bh) s =
          let (t, told) =
            determine_trend_returns (average_of row.id today_map) (average_of row.id hist_map) in
          Settles-resume
            (λ t. determine_trend (average_of row.id today_map) (average_of row.id hist_map) ≡ ok t)
            (Item row) _ w
            (determine_trend (average_of row.id today_map) (average_of row.id hist_map), w)
            (t, w, ap (λ r. (r, w)) told, SameRates-refl w, told)
            λ t w1 s1 trend.
              both-quoted env currency w0 k u l small rated (Item row) row.price_min row.price_max _
                w1 bl bh (SameRates-trans s s1)
                λ a b v s2 qa qb. settled (Item row) _ v (refl, refl, trend, qa, qb)

      list_items-quoted :
          (rows : List DetailRow) (w : World)
          → All (IsBoundedRow k) rows
          → SameRates w0 w
          → Settles (Pairs Item rows) w (list_items env currency today_map hist_map rows w)
      unfolding list_items
      list_items-quoted [] w b s = settled (Pairs Item []) [] w tt
      list_items-quoted (row ∷ rows) w (b, bs) s =
          Settles-resume (Item row) (Pairs Item (row ∷ rows)) _ w
            (list_item env currency today_map hist_map row w) (list_item-quoted row w b s)
            λ i w1 s1 item.
              Settles-resume (Pairs Item rows) (Pairs Item (row ∷ rows)) _ w1
                (list_items env currency today_map hist_map rows w1)
                (list_items-quoted rows w1 bs (SameRates-trans s s1))
                λ rest w2 s2 items. settled (Pairs Item (row ∷ rows)) (i ∷ rest) w2 (item, items)

    catalog_items-quoted :
        (rows : List DetailRow) (w : World)
        → All (IsBoundedRow k) rows
        → SameRates w0 w
        → Settles (Pairs IsEntryOf rows) w (catalog_items env currency rows w)
    unfolding catalog_items
    catalog_items-quoted [] w b s = settled (Pairs IsEntryOf []) [] w tt
    catalog_items-quoted (row ∷ rows) w ((bl, bh), bs) s =
        both-quoted env currency w0 k u l small rated (Pairs IsEntryOf (row ∷ rows)) row.price_min
          row.price_max _ w bl bh s
          λ a b v s1 qa qb.
            Settles-resume (Pairs IsEntryOf rows) (Pairs IsEntryOf (row ∷ rows)) _ v
              (catalog_items env currency rows v) (catalog_items-quoted rows v bs s1)
              λ rest w2 s2 items.
                settled (Pairs IsEntryOf (row ∷ rows)) (_ ∷ rest) w2
                  ((refl, refl, refl, qa, qb), items)

    module _ (bounds : HasBounds k w0.db.price_history) where
      -- If every recorded price is at most 10 ^ k dollars, every currency has a known rate for today,
      -- of at most 10 ^ u, not zero and of at most l digits after the point, and k + u + l is at
      -- most 23, the list is returned: a page of the sorted items, one for each row of the query,
      -- each with the row's id, the currency asked for, the trend of the row's averages and its
      -- prices at today's rates. At most Redis changes, and no rate that is known does.
      pub get_products_list-quoted :
          (user_id page page_size : ℕ) (sort : SortOption)
          → Settles
              (IsListOf user_id page page_size sort)
              w0
              (get_products_list env user_id currency page page_size sort w0)
      unfolding get_products_list build_list list_watchlist_with_prices
      get_products_list-quoted user_id page page_size sort =
          let rows = list_watchlist_with_prices env user_id w0 in
          Settles-resume (Pairs (IsItemOf _ _) rows) (IsListOf user_id page page_size sort) _ w0
            (list_items env currency _ _ rows w0)
            (list_items-quoted _ _ rows w0 (detail_rows-bounds k env w0.db bounds _)
              (SameRates-refl w0))
            λ items w1 s1 h. settled (IsListOf user_id page page_size sort) _ w1 (items, refl, h)

      catalog_bounds :
          (page page_size : ℕ) → All (IsBoundedRow k) (page_of page page_size (catalog_rows env w0))
      unfolding page_of catalog_rows
      catalog_bounds zero page_size = tt
      catalog_bounds (suc n) page_size = All-take (IsBoundedRow k) page_size _ (
          All-drop (IsBoundedRow k) (n * page_size) _ (
            All-sorted (IsBoundedRow k) _ _ (detail_rows-bounds k env w0.db bounds w0.db.products)))

      -- If every recorded price is at most 10 ^ k dollars, every currency has a known rate for today,
      -- of at most 10 ^ u, not zero and of at most l digits after the point, k + u + l is at most 23,
      -- the page is at least 1, and the driver takes its limit and its offset, the catalogue is
      -- returned: the number of all products, and an item for each row of the page in the order of
      -- the titles, each with the row's id and number of shops, the currency asked for and its prices
      -- at today's rates. At most Redis changes, and no rate that is known does.
      pub get_catalog-quoted :
          (page page_size : ℕ)
          → IsBindable env page page_size
          → Settles (IsCatalogOf page page_size) w0 (get_catalog env currency page page_size w0)
      unfolding build_catalog
      get_catalog-quoted page page_size binds =
          let rows = page_of page page_size (catalog_rows env w0) in
          rw (get_catalog-page_of env currency page page_size w0 binds) (
            Settles-resume (Pairs IsEntryOf rows) (IsCatalogOf page page_size) _ w0
              (catalog_items env currency rows w0)
              (catalog_items-quoted rows w0 (catalog_bounds page page_size) (SameRates-refl w0))
              λ items w1 s1 h. settled (IsCatalogOf page page_size) _ w1 (refl, refl, refl, h))
