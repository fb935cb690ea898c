-- ===== src/Prices/Latest.antt =====
-- `latest_price_subq` and `utc_today_start` of app/db/repositories/price_repo.py, and the smallest
-- of the latest prices of a product. Where two rows of a shop have the same moment SQL leaves open
-- which is the last; the model takes the first in the table.
use price_monitoring_service.Prelude.{
  ℕ, ◌*◌, Bool, true, ◌&&◌, Option, none, some, List, [], ◌∷◌, ltb, leb, ◌==◌, if◌then◌else◌,
}
use price_monitoring_service.Decimal.{Decimal, lt}
use price_monitoring_service.Models.{ProductShop, PriceHistory}

-- microseconds of a day
abbrev pub day_length : ℕ
day_length = 86400000000

-- the first moment of a day, in UTC
abbrev pub utc_day_start : ℕ → ℕ
utc_day_start day = day * day_length

-- the rows that the subquery keeps: from `since` on, if it is given
abbrev pub is_since : Option ℕ → PriceHistory → Bool
is_since none row = true
is_since (some since) row = leb since row.recorded_at

abbrev pub newer_row : PriceHistory → Option PriceHistory → PriceHistory
newer_row row none = row
newer_row row (some best) = if ltb row.recorded_at best.recorded_at then best else row

-- the row with `rn == 1` of one product_shop_id
unfoldable pub latest_price : Option ℕ → ℕ → List PriceHistory → Option PriceHistory
latest_price since product_shop_id [] = none
latest_price since product_shop_id (row ∷ rows) =
    let rest = latest_price since product_shop_id rows in
    if row.product_shop_id == product_shop_id && is_since since row
    then some (newer_row row rest)
    else rest

abbrev pub smaller : PriceHistory → Option Decimal → Decimal
smaller row none = row.price_usd
smaller row (some best) = if lt best row.price_usd then best else row.price_usd

abbrev pub larger : PriceHistory → Option Decimal → Decimal
larger row none = row.price_usd
larger row (some best) = if lt row.price_usd best then best else row.price_usd

module _ (since : Option ℕ) (product_id : ℕ) (history : List PriceHistory) where
  abbrev pub with_latest :
      (PriceHistory → Option Decimal → Decimal)
      → Option PriceHistory
      → Option Decimal
      → Option Decimal
  with_latest pick none best = best
  with_latest pick (some row) best = some (pick row best)

  -- `func.min(latest.c.price_usd)` over the shops of a product; null where no shop has a price
  unfoldable pub min_price : List ProductShop → Option Decimal
  min_price [] = none
  min_price (ps ∷ shops) =
      let rest = min_price shops in
      if ps.product_id == product_id
      then with_latest smaller (latest_price since ps.id history) rest
      else rest

  -- `func.max(latest.c.price_usd)`
  unfoldable pub max_price : List ProductShop → Option Decimal
  max_price [] = none
  max_price (ps ∷ shops) =
      let rest = max_price shops in
      if ps.product_id == product_id
      then with_latest larger (latest_price since ps.id history) rest
      else rest
