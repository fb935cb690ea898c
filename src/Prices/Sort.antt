-- ===== src/Prices/Sort.antt =====
-- `_sort_items` of app/services/price_service.py. Python's `sorted` is stable, also with
-- `reverse=True`.
pub mod Laws
pub mod Order
pub mod Keeps
pub mod Unpriced
pub mod Ascending
use price_monitoring_service.Prelude.{
  ℕ, Bool, true, false, not, ◌&&◌, ◌||◌, Option, none, some, List, [], ◌∷◌, ltb, if◌then◌else◌,
}
use price_monitoring_service.Decimal.{Decimal, of_int, is_nonzero, lt}
use price_monitoring_service.Schemas.{
  TrendDirection, up, down, same, SortOption, price_asc, price_desc, trend_asc, trend_desc,
  ProductListItem,
}

module _ {ℓ} {A : Type ℓ} where
  -- An element goes behind all that are not greater.
  insert : (A → A → Bool) → A → List A → List A
  insert less x [] = x ∷ []
  insert less x (y ∷ ys) = if less y x then y ∷ insert less x ys else x ∷ y ∷ ys

  -- `sorted(items, key)`, the test `less` being that of the keys. From the right, each element is
  -- put before those that are not smaller, so equal ones keep their order.
  unfoldable pub sorted : (A → A → Bool) → List A → List A
  unfolding insert
  sorted less [] = []
  sorted less (x ∷ xs) = insert less x (sorted less xs)

-- the keys of the two orders by price: `(price is None, price or 0)`
abbrev pub price_key : Option Decimal → Bool × Decimal
price_key none = (true, of_int 0)
price_key (some d) = (false, if is_nonzero d then d else of_int 0)

-- `<` of two such keys, as tuples compare
abbrev pub key_lt : Bool × Decimal → Bool × Decimal → Bool
key_lt (false, a) (false, b) = lt a b
key_lt (false, a) (true, b) = true
key_lt (true, a) (false, b) = false
key_lt (true, a) (true, b) = lt a b

-- `order[x.trend]` of the two orders by trend
abbrev pub trend_rank_asc : TrendDirection → ℕ
trend_rank_asc TrendDirection.down = 0
trend_rank_asc TrendDirection.same = 1
trend_rank_asc TrendDirection.up = 2

abbrev pub trend_rank_desc : TrendDirection → ℕ
trend_rank_desc TrendDirection.up = 0
trend_rank_desc TrendDirection.same = 1
trend_rank_desc TrendDirection.down = 2

-- which of two items goes strictly before the other
unfoldable pub before : SortOption → ProductListItem → ProductListItem → Bool
before SortOption.price_asc x y = key_lt (price_key x.price_min) (price_key y.price_min)
before SortOption.price_desc x y = key_lt (price_key y.price_max) (price_key x.price_max)
before SortOption.trend_asc x y = ltb (trend_rank_asc x.trend) (trend_rank_asc y.trend)
before SortOption.trend_desc x y = ltb (trend_rank_desc x.trend) (trend_rank_desc y.trend)

unfoldable pub sort_items : List ProductListItem → SortOption → List ProductListItem
unfolding sorted before
sort_items items sort = sorted (before sort) items
