-- ===== src/Prices/Averages.antt =====
-- `avg_today_by_products` and `avg_prev_30d_by_products` of app/db/repositories/price_repo.py.
use price_monitoring_service.Prelude.{
  ℕ, ◌-◌, ◌*◌, Bool, ◌&&◌, Option, none, some, List, [], ◌∷◌, ◌++◌, ltb, leb, ◌==◌, if◌then◌else◌,
  filter, map,
}
use price_monitoring_service.Decimal.{Decimal}
use price_monitoring_service.Env.{Env}
use price_monitoring_service.Models.{ProductShop, PriceHistory, Database, World}
use price_monitoring_service.Prices.Latest.{day_length, utc_day_start}

-- the prices of a product's shops among the rows that pass a test
unfoldable pub prices_where :
    (PriceHistory → Bool) → List PriceHistory → ℕ → List ProductShop → List Decimal
prices_where test history product_id [] = []
prices_where test history product_id (ps ∷ product_shops) =
    let rest = prices_where test history product_id product_shops in
    if ps.product_id == product_id
    then map (λ r. r.price_usd) (filter (λ r. r.product_shop_id == ps.id && test r) history) ++ rest
    else rest

-- `today_map.get(row.id)`
unfoldable pub average_of : ℕ → List (ℕ × Decimal) → Option Decimal
average_of product_id [] = none
average_of product_id ((id, avg) ∷ averages) =
    if id == product_id then some avg else average_of product_id averages

module _ (env : Env) where
  -- a group with no row is not in the result
  abbrev pub add_average : ℕ → List Decimal → List (ℕ × Decimal) → List (ℕ × Decimal)
  add_average product_id [] rest = rest
  add_average product_id (price ∷ prices) rest = (product_id, env.sql_avg (price ∷ prices)) ∷ rest

  unfoldable pub averages : (PriceHistory → Bool) → Database → List ℕ → List (ℕ × Decimal)
  unfolding prices_where
  averages test db [] = []
  averages test db (id ∷ ids) =
      add_average id (prices_where test db.price_history id db.product_shops) (averages test db ids)

  unfoldable pub avg_today_by_products : List ℕ → World → List (ℕ × Decimal)
  unfolding averages
  avg_today_by_products product_ids w =
      averages (λ r. leb (utc_day_start env.today) r.recorded_at) w.db product_ids

  unfoldable pub avg_prev_30d_by_products : List ℕ → World → List (ℕ × Decimal)
  unfolding averages
  avg_prev_30d_by_products product_ids w =
      averages
        (λ r.
          leb (utc_day_start env.today - 30 * day_length) r.recorded_at
          && ltb r.recorded_at (utc_day_start env.today))
        w.db product_ids
