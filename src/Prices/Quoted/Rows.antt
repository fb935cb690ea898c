-- ===== src/Prices/Quoted/Rows.antt =====
-- The rows of the queries: their prices are prices of the history, so bounds on those bound them.
use price_monitoring_service.Prelude.{
  ℕ, length, All-append, Option, none, some, List, [], ◌∷◌, All, Bool-cases, inl, inr, ltb, ◌==◌,
  filter, ◌&&◌,
}
use price_monitoring_service.Decimal.{Decimal, lt}
use price_monitoring_service.Decimal.Bounds.{AtMost}
use price_monitoring_service.Env.{Env}
use price_monitoring_service.Models.{Product, ProductShop, Shop, PriceHistory, Database}
use price_monitoring_service.Prices.Latest.{
  latest_price, min_price, max_price, is_since, newer_row, smaller, larger, with_latest,
}
use price_monitoring_service.Prices.Detail.{detail_rows, price_rows, shop_named, utc_today_start}
use price_monitoring_service.Prices.Quoted.{IsBounded, IsBoundedRow}

-- every recorded price is at most 10 ^ k dollars
abbrev pub HasBounds : ℕ → List PriceHistory → Type 0
HasBounds k history = All (λ row. AtMost k row.price_usd) history

-- no row, or one with such a price
abbrev IsBoundedPrice : ℕ → Option PriceHistory → Type 0
IsBoundedPrice k none = Unit
IsBoundedPrice k (some row) = AtMost k row.price_usd

newer_row-bound :
    (k : ℕ) (row : PriceHistory) (rest : Option PriceHistory)
    → AtMost k row.price_usd
    → IsBoundedPrice k rest
    → AtMost k (newer_row row rest).price_usd
newer_row-bound k row none b h = b
newer_row-bound k row (some best) b h = elim (Bool-cases (ltb row.recorded_at best.recorded_at)) [
  | inl e ↦ rw e h
  | inr e ↦ rw e b
]

latest_price-bound :
    (k : ℕ) (since : Option ℕ) (id : ℕ) (history : List PriceHistory)
    → HasBounds k history
    → IsBoundedPrice k (latest_price since id history)
unfolding latest_price
latest_price-bound k since id [] h = tt
latest_price-bound k since id (row ∷ rows) (b, h) =
    elim (Bool-cases (row.product_shop_id == id && is_since since row)) [
      | inl e ↦ rw e (
          newer_row-bound k row (latest_price since id rows) b
            (latest_price-bound k since id rows h))
      | inr e ↦ rw e (latest_price-bound k since id rows h)
    ]

module _ (k : ℕ) where
  -- a choice between the price of a row and another
  abbrev Picks : (PriceHistory → Option Decimal → Decimal) → Type 0
  Picks pick =
      (row : PriceHistory) (o : Option Decimal)
      → AtMost k row.price_usd
      → IsBounded k o
      → AtMost k (pick row o)

  smaller-Picks : Picks smaller
  smaller-Picks row none b h = b
  smaller-Picks row (some best) b h = elim (Bool-cases (lt best row.price_usd)) [
    | inl e ↦ rw e h
    | inr e ↦ rw e b
  ]

  larger-Picks : Picks larger
  larger-Picks row none b h = b
  larger-Picks row (some best) b h = elim (Bool-cases (lt row.price_usd best)) [
    | inl e ↦ rw e h
    | inr e ↦ rw e b
  ]

  module _ (since : Option ℕ) (id : ℕ) (history : List PriceHistory)
      (bounds : HasBounds k history) where
    with_latest-bound :
        (pick : PriceHistory → Option Decimal → Decimal) (o : Option PriceHistory)
        (best : Option Decimal)
        → Picks pick
        → IsBoundedPrice k o
        → IsBounded k best
        → IsBounded k (with_latest since id history pick o best)
    with_latest-bound pick none best p b h = h
    with_latest-bound pick (some row) best p b h = p row best b h

    min_price-bound : (shops : List ProductShop) → IsBounded k (min_price since id history shops)
    unfolding min_price
    min_price-bound [] = tt
    min_price-bound (ps ∷ shops) = elim (Bool-cases (ps.product_id == id)) [
      | inl e ↦ rw e (
          with_latest-bound smaller (latest_price since ps.id history) _ smaller-Picks
            (latest_price-bound k since ps.id history bounds) (min_price-bound shops))
      | inr e ↦ rw e (min_price-bound shops)
    ]

    max_price-bound : (shops : List ProductShop) → IsBounded k (max_price since id history shops)
    unfolding max_price
    max_price-bound [] = tt
    max_price-bound (ps ∷ shops) = elim (Bool-cases (ps.product_id == id)) [
      | inl e ↦ rw e (
          with_latest-bound larger (latest_price since ps.id history) _ larger-Picks
            (latest_price-bound k since ps.id history bounds) (max_price-bound shops))
      | inr e ↦ rw e (max_price-bound shops)
    ]

  module _ (env : Env) (db : Database) (bounds : HasBounds k db.price_history) where
    pub detail_rows-bounds :
        (products : List Product) → All (IsBoundedRow k) (detail_rows env db products)
    unfolding detail_rows
    detail_rows-bounds [] = tt
    detail_rows-bounds (p ∷ products) =
        elim (Bool-cases (length (filter (λ ps. ps.product_id == p.id) db.product_shops) == 0)) [
          | inl zero_shops ↦ rw zero_shops (detail_rows-bounds products)
          | inr there ↦ rw there (
            (
              min_price-bound _ p.id db.price_history bounds db.product_shops,
              max_price-bound _ p.id db.price_history bounds db.product_shops,
            ),
            detail_rows-bounds products,
          )
        ]

    shop_named-bounds :
        (id : ℕ) (o : Option PriceHistory) (shops : List Shop)
        → IsBoundedPrice k o
        → All (λ r. AtMost k r.price_usd) (shop_named env id o shops)
    shop_named-bounds id none shops b = tt
    shop_named-bounds id (some row) [] b = tt
    shop_named-bounds id (some row) (s ∷ shops) b = elim (Bool-cases (s.id == id)) [
      | inl e ↦ rw e (b, shop_named-bounds id (some row) shops b)
      | inr e ↦ rw e (shop_named-bounds id (some row) shops b)
    ]

    pub price_rows-bounds :
        (id : ℕ) (shops : List ProductShop)
        → All (λ r. AtMost k r.price_usd) (price_rows env db id shops)
    unfolding price_rows
    price_rows-bounds id [] = tt
    price_rows-bounds id (ps ∷ shops) = elim (Bool-cases (ps.product_id == id)) [
      | inl e ↦ rw e (
          All-append (λ r. AtMost k r.price_usd)
            (shop_named env ps.shop_id
              (latest_price (some (utc_today_start env)) ps.id db.price_history) db.shops)
            (price_rows env db id shops)
            (shop_named-bounds ps.shop_id
              (latest_price (some (utc_today_start env)) ps.id db.price_history) db.shops
              (latest_price-bound k (some (utc_today_start env)) ps.id db.price_history bounds))
            (price_rows-bounds id shops))
      | inr e ↦ rw e (price_rows-bounds id shops)
    ]
