-- ===== src/Prices/Listing/Pages.antt =====
-- What the product list answers.
use price_monitoring_service.Prelude.{ℕ, ◌≡◌, refl, List, [], ◌∷◌}
use price_monitoring_service.Decimal.{Decimal}
use price_monitoring_service.Exec.{Result, ok, err}
use price_monitoring_service.Env.{Env}
use price_monitoring_service.Schemas.{
  Currency, SortOption, TrendDirection, ProductListItem, ProductListResponse,
}
use price_monitoring_service.Models.{World}
use price_monitoring_service.Prices.Trend.{determine_trend}
use price_monitoring_service.Prices.Detail.{DetailRow, convert_opt}
use price_monitoring_service.Prices.Detail.Money.{
  IsPrice, Yields, Yields-resume, convert_opt-IsPrice,
}
use price_monitoring_service.Prices.Averages.{
  average_of, avg_today_by_products, avg_prev_30d_by_products,
}
use price_monitoring_service.Prices.Listing.{
  list_watchlist_with_prices, list_item, list_items, build_list, get_products_list, list_response,
  ids_of,
}

module _ (env : Env) (currency : Currency) where
  -- The item of a row: its product, the trend of the two averages, and prices that are money in the
  -- currency.
  abbrev pub IsItemOf :
      List (ℕ × Decimal) → List (ℕ × Decimal) → DetailRow → ProductListItem → Type 0
  IsItemOf today_map hist_map row item =
      (item.id ≡ row.id)
      × (item.currency ≡ currency)
      × (determine_trend (average_of row.id today_map) (average_of row.id hist_map) ≡ ok item.trend)
      × IsPrice item.price_min
      × IsPrice item.price_max

  -- a list with the item of each row, in the order of the rows
  abbrev pub AreItemsOf :
      List (ℕ × Decimal) → List (ℕ × Decimal) → List DetailRow → List ProductListItem → Type 0
  AreItemsOf today_map hist_map [] [] = Unit
  AreItemsOf today_map hist_map [] (item ∷ items) = ⊥
  AreItemsOf today_map hist_map (row ∷ rows) [] = ⊥
  AreItemsOf today_map hist_map (row ∷ rows) (item ∷ items) =
      IsItemOf today_map hist_map row item × AreItemsOf today_map hist_map rows items

  lift_trend : (r : Result TrendDirection) (w : World) → Yields (λ t. r ≡ ok t) (r, w)
  lift_trend (ok t) w = refl
  lift_trend (err e) w = tt

  module _ (today_map hist_map : List (ℕ × Decimal)) where
    list_item-IsItemOf :
        (row : DetailRow) (w : World)
        → Yields (IsItemOf today_map hist_map row) (list_item env currency today_map hist_map row w)
    unfolding list_item
    list_item-IsItemOf row w =
        Yields-resume _ (IsItemOf today_map hist_map row) _
          (determine_trend (average_of row.id today_map) (average_of row.id hist_map), w)
          (lift_trend (determine_trend (average_of row.id today_map) (average_of row.id hist_map))
            w)
          λ t w1 trend.
            Yields-resume IsPrice (IsItemOf today_map hist_map row) _
              (convert_opt env row.price_min currency w1)
              (convert_opt-IsPrice env currency row.price_min w1)
              λ lo w2 lo_ok.
                Yields-resume IsPrice (IsItemOf today_map hist_map row) _
                  (convert_opt env row.price_max currency w2)
                  (convert_opt-IsPrice env currency row.price_max w2)
                  λ hi w3 hi_ok. (refl, refl, trend, lo_ok, hi_ok)

    list_items-AreItemsOf :
        (rows : List DetailRow) (w : World)
        → Yields
            (AreItemsOf today_map hist_map rows)
            (list_items env currency today_map hist_map rows w)
    unfolding list_items
    list_items-AreItemsOf [] w = tt
    list_items-AreItemsOf (row ∷ rows) w =
        Yields-resume (IsItemOf today_map hist_map row) (AreItemsOf today_map hist_map (row ∷ rows))
          _ (list_item env currency today_map hist_map row w) (list_item-IsItemOf row w)
          λ item w1 one.
            Yields-resume (AreItemsOf today_map hist_map rows)
              (AreItemsOf today_map hist_map (row ∷ rows)) _
              (list_items env currency today_map hist_map rows w1) (list_items-AreItemsOf rows w1)
              λ rest w2 more. (one, more)

  -- An answer that is the page of the sorted items of the rows.
  abbrev pub IsListOf :
      List (ℕ × Decimal)
      → List (ℕ × Decimal)
      → List DetailRow
      → ℕ
      → ℕ
      → SortOption
      → ProductListResponse
      → Type 0
  IsListOf today_map hist_map rows page page_size sort r =
      (items : List ProductListItem) × AreItemsOf today_map hist_map rows items
      × (r ≡ list_response env page page_size sort items)

  -- If the list is returned, it is the page asked for of the items of the user's products, sorted as
  -- asked for, with the number of all the items; each item has the trend of its product's averages,
  -- the currency, and prices that are amounts of money.
  pub get_products_list_lem :
      (user_id page page_size : ℕ) (sort : SortOption) (w : World)
      → Yields
          (IsListOf
            (avg_today_by_products env (ids_of env (list_watchlist_with_prices env user_id w)) w)
            (avg_prev_30d_by_products env (ids_of env (list_watchlist_with_prices env user_id w)) w)
            (list_watchlist_with_prices env user_id w)
            page
            page_size
            sort)
          (get_products_list env user_id currency page page_size sort w)
  unfolding get_products_list build_list
  get_products_list_lem user_id page page_size sort w =
      Yields-resume _ _ _ (list_items env currency _ _ (list_watchlist_with_prices env user_id w) w)
        (list_items-AreItemsOf _ _ (list_watchlist_with_prices env user_id w) w)
        λ items w1 are. (items, are, refl)
