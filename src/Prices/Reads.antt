-- ===== src/Prices/Reads.antt =====
-- What the operations of the price service write: exchange rates that are new.
use price_monitoring_service.Prelude.Int.{ℤ, pos, negsuc}
use price_monitoring_service.Prelude.{
  ltb, ◌&&◌, Bool-cases, inl, inr, ℕ, ◌+◌, ◌-◌, Option, none, some, List, [], ◌∷◌, Bool-cases, inl,
  inr,
}
use price_monitoring_service.Decimal.{Decimal}
use price_monitoring_service.Schemas.{Currency, SortOption, PriceHistorySeries}
use price_monitoring_service.Exec.{Exec, resume}
use price_monitoring_service.Env.{Env}
use price_monitoring_service.Models.{World}
use price_monitoring_service.Currency.Service.{convert}
use price_monitoring_service.Currency.Frame.{Reads, Reads-refl, Reads-resume, convert-Reads}
use price_monitoring_service.Watchlist.{product_exists}
use price_monitoring_service.Prices.Latest.{day_length, utc_day_start}
use price_monitoring_service.Prices.Trend.{determine_trend}
use price_monitoring_service.Prices.Detail.{
  DetailRow, PriceRow, get_detail, convert_opt, product_detail, detail_or_raise, get_product_detail,
  detail_each, list_watchlist_details, get_watchlist_details, price_each, prices_or_raise,
  current_prices, get_current_prices,
}
use price_monitoring_service.Prices.Averages.{average_of}
use price_monitoring_service.Prices.Listing.{
  list_watchlist_with_prices, list_item, list_items, build_list, get_products_list, list_catalog,
  catalog_items, build_catalog, get_catalog, offset_of,
}
use price_monitoring_service.Prices.History.Query.{HistoryRow, get_history}
use price_monitoring_service.Prices.History.{
  Daily, average, averages, by_date, history_each, build_history, get_price_history,
}

averages-Reads : (daily : Daily) (w : World) → Reads w (averages daily w).1
unfolding averages
averages-Reads [] w = Reads-refl w
averages-Reads ((d, prices) ∷ daily) w =
    Reads-resume _ w (average prices, w) (Reads-refl w)
      λ price w1.
        Reads-resume _ w1 (averages daily w1) (averages-Reads daily w1) λ rest w2. Reads-refl w2

module _ (env : Env) (currency : Currency) where
  convert_opt-Reads : (o : Option Decimal) (w : World) → Reads w (convert_opt env o currency w).1
  unfolding convert_opt
  convert_opt-Reads none w = Reads-refl w
  convert_opt-Reads (some amount) w =
      Reads-resume _ w (convert env amount currency none w)
        (convert-Reads env amount none currency w) λ d w1. Reads-refl w1

  -- two prices, and what is made of them
  both-Reads :
      {A : Type 0} (lo hi : Option Decimal) (f : Option Decimal → Option Decimal → Exec World A)
      (w : World)
      → ((a b : Option Decimal) (v : World) → Reads v (f a b v).1)
      → Reads w
          (resume
            (λ a. λ v. resume (λ b. f a b) (convert_opt env hi currency v))
            (convert_opt env lo currency w)).1
  both-Reads lo hi f w h =
      Reads-resume _ w (convert_opt env lo currency w) (convert_opt-Reads lo w) λ a w1.
        Reads-resume _ w1 (convert_opt env hi currency w1) (convert_opt-Reads hi w1)
          λ b w2. h a b w2

  product_detail-Reads :
      (row : DetailRow) (w : World) → Reads w (product_detail env currency row w).1
  unfolding product_detail
  product_detail-Reads row w = both-Reads row.price_min row.price_max _ w λ a b v. Reads-refl v

  detail_or_raise-Reads :
      (row : Option DetailRow) (w : World) → Reads w (detail_or_raise env currency row w).1
  unfolding detail_or_raise
  detail_or_raise-Reads none w = Reads-refl w
  detail_or_raise-Reads (some row) w = product_detail-Reads row w

  pub get_product_detail-Reads :
      (product_id : ℕ) (w : World) → Reads w (get_product_detail env product_id currency w).1
  unfolding get_product_detail
  get_product_detail-Reads product_id w = detail_or_raise-Reads (get_detail env product_id w) w

  detail_each-Reads :
      (rows : List DetailRow) (w : World) → Reads w (detail_each env currency rows w).1
  unfolding detail_each
  detail_each-Reads [] w = Reads-refl w
  detail_each-Reads (row ∷ rows) w =
      Reads-resume _ w (product_detail env currency row w) (product_detail-Reads row w) λ d w1.
        Reads-resume _ w1 (detail_each env currency rows w1) (detail_each-Reads rows w1)
          λ rest w2. Reads-refl w2

  pub get_watchlist_details-Reads :
      (user_id : ℕ) (w : World) → Reads w (get_watchlist_details env user_id currency w).1
  unfolding get_watchlist_details
  get_watchlist_details-Reads user_id w = detail_each-Reads (list_watchlist_details env user_id w) w

  price_each-Reads : (rows : List PriceRow) (w : World) → Reads w (price_each env currency rows w).1
  unfolding price_each
  price_each-Reads [] w = Reads-refl w
  price_each-Reads (row ∷ rows) w =
      Reads-resume _ w (convert env row.price_usd currency none w)
        (convert-Reads env row.price_usd none currency w)
        λ d w1.
          Reads-resume _ w1 (price_each env currency rows w1) (price_each-Reads rows w1)
            λ rest w2. Reads-refl w2

  prices_or_raise-Reads :
      (product_id : ℕ) (rows : List PriceRow) (w : World)
      → Reads w (prices_or_raise env product_id currency rows w).1
  unfolding prices_or_raise
  prices_or_raise-Reads product_id [] w = elim (Bool-cases (product_exists product_id w)) [
    | inl known ↦ rw known (Reads-refl w)
    | inr unknown ↦ rw unknown (Reads-refl w)
  ]
  prices_or_raise-Reads product_id (row ∷ rows) w = price_each-Reads (row ∷ rows) w

  pub get_current_prices-Reads :
      (product_id : ℕ) (w : World) → Reads w (get_current_prices env product_id currency w).1
  unfolding get_current_prices
  get_current_prices-Reads product_id w =
      prices_or_raise-Reads product_id (current_prices env product_id w) w

  list_items-Reads :
      (today_map hist_map : List (ℕ × Decimal)) (rows : List DetailRow) (w : World)
      → Reads w (list_items env currency today_map hist_map rows w).1
  unfolding list_items list_item
  list_items-Reads today_map hist_map [] w = Reads-refl w
  list_items-Reads today_map hist_map (row ∷ rows) w =
      Reads-resume _ w (list_item env currency today_map hist_map row w)
        (Reads-resume _ w
          (determine_trend (average_of row.id today_map) (average_of row.id hist_map), w)
          (Reads-refl w) λ t w1. both-Reads row.price_min row.price_max _ w1 λ a b v. Reads-refl v)
        λ item w1.
          Reads-resume _ w1 (list_items env currency today_map hist_map rows w1)
            (list_items-Reads today_map hist_map rows w1) λ rest w2. Reads-refl w2

  pub get_products_list-Reads :
      (user_id page page_size : ℕ) (sort : SortOption) (w : World)
      → Reads w (get_products_list env user_id currency page page_size sort w).1
  unfolding get_products_list build_list
  get_products_list-Reads user_id page page_size sort w =
      Reads-resume _ w (list_items env currency _ _ (list_watchlist_with_prices env user_id w) w)
        (list_items-Reads _ _ (list_watchlist_with_prices env user_id w) w)
        λ items w1. Reads-refl w1

  catalog_items-Reads :
      (rows : List DetailRow) (w : World) → Reads w (catalog_items env currency rows w).1
  unfolding catalog_items
  catalog_items-Reads [] w = Reads-refl w
  catalog_items-Reads (row ∷ rows) w = both-Reads row.price_min row.price_max _ w λ a b v.
      Reads-resume _ v (catalog_items env currency rows v) (catalog_items-Reads rows v)
        λ rest w2. Reads-refl w2

  list_catalog-Reads :
      (limit : ℕ) (offset : ℤ) (w : World) → Reads w (list_catalog env limit offset w).1
  unfolding list_catalog
  list_catalog-Reads limit (negsuc n) w = Reads-refl w
  list_catalog-Reads limit (pos offset) w =
      elim (Bool-cases (ltb limit env.bind_bound && ltb offset env.bind_bound)) [
        | inl e ↦ rw e (Reads-refl w)
        | inr e ↦ rw e (Reads-refl w)
      ]

  pub get_catalog-Reads :
      (page page_size : ℕ) (w : World) → Reads w (get_catalog env currency page page_size w).1
  unfolding get_catalog build_catalog
  get_catalog-Reads page page_size w =
      Reads-resume _ w (list_catalog env page_size (offset_of env page page_size) w)
        (list_catalog-Reads page_size (offset_of env page page_size) w)
        λ rows w1.
          Reads-resume _ w1 (catalog_items env currency rows w1) (catalog_items-Reads rows w1)
            λ items w2. Reads-refl w2

  history_each-Reads :
      (rows : List HistoryRow) (series : List PriceHistorySeries) (daily : Daily) (w : World)
      → Reads w (history_each env currency rows series daily w).1
  unfolding history_each
  history_each-Reads [] series daily w = Reads-refl w
  history_each-Reads (row ∷ rows) series daily w =
      Reads-resume _ w (convert env row.avg_price_usd currency (some row.day) w)
        (convert-Reads env row.avg_price_usd (some row.day) currency w)
        λ price w1. history_each-Reads rows _ _ w1

  pub get_price_history-Reads :
      (product_id date_from date_to : ℕ) (w : World)
      → Reads w (get_price_history env product_id currency date_from date_to w).1
  unfolding get_price_history build_history
  get_price_history-Reads product_id date_from date_to w =
      Reads-resume _ w
        (history_each env currency
          (get_history env product_id (utc_day_start date_from)
            (utc_day_start date_to + (day_length - 1)) w)
          [] [] w)
        (history_each-Reads _ [] [] w)
        λ both w1.
          Reads-resume _ w1 (averages (by_date both.1) w1) (averages-Reads (by_date both.1) w1)
            λ points w2. Reads-refl w2
