-- ===== src/Prices/History/Query.antt =====
-- `PriceRepo.get_history`: the rows by shop name and day, in that order.
use price_monitoring_service.Prelude.{
  ℕ, String, Bool, not, ◌&&◌, ◌||◌, List, [], ◌∷◌, ◌++◌, ltb, leb, ◌==◌, if◌then◌else◌, filter, map,
  any,
}
use text.Mathlib.Text.{◌==◌ as str_eq}
use price_monitoring_service.Decimal.{Decimal}
use price_monitoring_service.Env.{Env}
use price_monitoring_service.Models.{Shop, ProductShop, PriceHistory, Database, World}
use price_monitoring_service.Prices.Sort.{sorted}

-- a row of the result
pub record HistoryRow : Type 0 where
  pub shop_name : String
  pub day : ℕ
  pub avg_price_usd : Decimal

-- a row of the joined tables: the keys that it is grouped by, and its price
pub record Joined : Type 0 where
  pub name : String
  pub on_day : ℕ
  pub price_usd : Decimal

abbrev pub same_group : Joined → Joined → Bool
same_group a b = str_eq a.name b.name && a.on_day == b.on_day

-- one row of each group
unfoldable pub groups : List Joined → List Joined
groups [] = []
groups (j ∷ rows) = let rest = groups rows in if any (same_group j) rest then rest else j ∷ rest

module _ (env : Env) where
  -- the shops of a product_shop, by the primary key
  unfoldable pub join_shops : PriceHistory → ℕ → List Shop → List Joined
  join_shops r shop_id [] = []
  join_shops r shop_id (s ∷ shops) =
      let rest = join_shops r shop_id shops in
      if s.id == shop_id
      then record { name = s.name; on_day = env.sql_date r.recorded_at; price_usd = r.price_usd }
        ∷ rest
      else rest

  unfoldable pub join_product_shops : Database → ℕ → PriceHistory → List ProductShop → List Joined
  unfolding join_shops
  join_product_shops db product_id r [] = []
  join_product_shops db product_id r (ps ∷ rows) =
      let rest = join_product_shops db product_id r rows in
      if ps.id == r.product_shop_id && ps.product_id == product_id
      then join_shops r ps.shop_id db.shops ++ rest
      else rest

  unfoldable pub joined_rows : Database → ℕ → List PriceHistory → List Joined
  unfolding join_product_shops
  joined_rows db product_id [] = []
  joined_rows db product_id (r ∷ history) =
      join_product_shops db product_id r db.product_shops ++ joined_rows db product_id history

  -- `order_by(Shop.name, func.date(...))`
  abbrev pub group_before : Joined → Joined → Bool
  group_before a b =
      env.text_before a.name b.name || not (env.text_before b.name a.name) && ltb a.on_day b.on_day

  abbrev pub row_of : List Joined → Joined → HistoryRow
  row_of rows g = record {
    shop_name = g.name;
    day = g.on_day;
    avg_price_usd = env.sql_avg (map (λ j. j.price_usd) (filter (same_group g) rows));
  }

  abbrev pub grouped : List Joined → List HistoryRow
  grouped rows = map (row_of rows) (sorted group_before (groups rows))

  unfoldable pub get_history : ℕ → ℕ → ℕ → World → List HistoryRow
  unfolding joined_rows groups
  get_history product_id dt_from dt_to w = grouped (
      joined_rows w.db product_id
        (filter (λ r. leb dt_from r.recorded_at && leb r.recorded_at dt_to) w.db.price_history))
