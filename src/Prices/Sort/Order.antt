-- ===== src/Prices/Sort/Order.antt =====
-- The order of the sorted list of products, by its four options.
use mathlib.Core.List.{Perm}
use price_monitoring_service.Prelude.{
  Option, none, some, ltb, ◌==◌, ◌≡◌, false, List, [], ◌∷◌, if◌then◌else◌, arith,
}
use price_monitoring_service.Decimal.{Decimal, of_int, lt}
use price_monitoring_service.Schemas.{TrendDirection, SortOption, ProductListItem}
use price_monitoring_service.Prices.Sort.Laws.{IsSorted, sort_items-IsSorted, sort_items-perm}
use price_monitoring_service.Prices.Sort.{
  before, sort_items, key_lt, price_key, trend_rank_asc, trend_rank_desc,
}

-- a price as a number; a price of zero counts as the integer 0
abbrev or_zero : Decimal → Decimal
or_zero d = if d.coeff == 0 then of_int 0 else d

-- The first price is not the greater one, and a product without a price is not before one with.
abbrev pub PriceRises : Option Decimal → Option Decimal → Type 0
PriceRises (some a) (some b) = lt (or_zero b) (or_zero a) ≡ false
PriceRises none (some b) = ⊥
PriceRises _ none = Unit

-- The first price is not the smaller one, and a product with a price is not before one without.
abbrev pub PriceFalls : Option Decimal → Option Decimal → Type 0
PriceFalls (some a) (some b) = lt (or_zero a) (or_zero b) ≡ false
PriceFalls (some a) none = ⊥
PriceFalls none _ = Unit

-- falling prices, then those that stay, then rising ones
abbrev pub TrendRises : TrendDirection → TrendDirection → Type 0
TrendRises TrendDirection.up TrendDirection.down = ⊥
TrendRises TrendDirection.up TrendDirection.same = ⊥
TrendRises TrendDirection.same TrendDirection.down = ⊥
TrendRises _ _ = Unit

-- What each order says of two items of which one stands in front of the other.
abbrev pub IsBehind : SortOption → ProductListItem → ProductListItem → Type 0
IsBehind SortOption.price_asc x y = PriceRises x.price_min y.price_min
IsBehind SortOption.price_desc x y = PriceFalls x.price_max y.price_max
IsBehind SortOption.trend_asc x y = TrendRises x.trend y.trend
IsBehind SortOption.trend_desc x y = TrendRises y.trend x.trend

abbrev pub IsInOrder : SortOption → List ProductListItem → Type 0
IsInOrder s [] = Unit
IsInOrder s (x ∷ []) = Unit
IsInOrder s (x ∷ y ∷ ys) = IsBehind s x y × IsInOrder s (y ∷ ys)

price_key-PriceRises :
    (a b : Option Decimal) → key_lt (price_key b) (price_key a) ≡ false → PriceRises a b
price_key-PriceRises (some a) (some b) h = ground (arith, h)
price_key-PriceRises none (some b) h = cc
price_key-PriceRises (some a) none h = tt
price_key-PriceRises none none h = tt

price_key-PriceFalls :
    (a b : Option Decimal) → key_lt (price_key a) (price_key b) ≡ false → PriceFalls a b
price_key-PriceFalls (some a) (some b) h = ground (arith, h)
price_key-PriceFalls (some a) none h = cc
price_key-PriceFalls none (some b) h = tt
price_key-PriceFalls none none h = tt

rank-TrendRises :
    (a b : TrendDirection) → ltb (trend_rank_asc b) (trend_rank_asc a) ≡ false → TrendRises a b
rank-TrendRises TrendDirection.up TrendDirection.up h = tt
rank-TrendRises TrendDirection.up TrendDirection.down h = cc
rank-TrendRises TrendDirection.up TrendDirection.same h = cc
rank-TrendRises TrendDirection.down TrendDirection.up h = tt
rank-TrendRises TrendDirection.down TrendDirection.down h = tt
rank-TrendRises TrendDirection.down TrendDirection.same h = tt
rank-TrendRises TrendDirection.same TrendDirection.up h = tt
rank-TrendRises TrendDirection.same TrendDirection.down h = cc
rank-TrendRises TrendDirection.same TrendDirection.same h = tt

rank-TrendFalls :
    (a b : TrendDirection) → ltb (trend_rank_desc b) (trend_rank_desc a) ≡ false → TrendRises b a
rank-TrendFalls TrendDirection.up TrendDirection.up h = tt
rank-TrendFalls TrendDirection.up TrendDirection.down h = tt
rank-TrendFalls TrendDirection.up TrendDirection.same h = tt
rank-TrendFalls TrendDirection.down TrendDirection.up h = cc
rank-TrendFalls TrendDirection.down TrendDirection.down h = tt
rank-TrendFalls TrendDirection.down TrendDirection.same h = cc
rank-TrendFalls TrendDirection.same TrendDirection.up h = cc
rank-TrendFalls TrendDirection.same TrendDirection.down h = tt
rank-TrendFalls TrendDirection.same TrendDirection.same h = tt

before-IsBehind : (s : SortOption) (x y : ProductListItem) → before s y x ≡ false → IsBehind s x y
unfolding before
before-IsBehind SortOption.price_asc x y h = price_key-PriceRises x.price_min y.price_min h
before-IsBehind SortOption.price_desc x y h = price_key-PriceFalls x.price_max y.price_max h
before-IsBehind SortOption.trend_asc x y h = rank-TrendRises x.trend y.trend h
before-IsBehind SortOption.trend_desc x y h = rank-TrendFalls x.trend y.trend h

IsSorted-IsInOrder :
    (s : SortOption) (xs : List ProductListItem) → IsSorted (before s) xs → IsInOrder s xs
IsSorted-IsInOrder s [] h = tt
IsSorted-IsInOrder s (x ∷ []) h = tt
IsSorted-IsInOrder s (x ∷ y ∷ ys) h = (before-IsBehind s x y h.0, IsSorted-IsInOrder s (y ∷ ys) h.1)

-- The result is a permutation of the items given. By `price_asc` the smallest prices rise, and the
-- products without one stand behind; by `price_desc` the largest prices fall, and the products without
-- one stand in front; by `trend_asc` falling prices stand in front of those that stay, and these in
-- front of rising ones; by `trend_desc` it is the other way round.
pub sort_items-IsInOrder :
    (items : List ProductListItem) (s : SortOption)
    → Perm (sort_items items s) items × IsInOrder s (sort_items items s)
sort_items-IsInOrder items s = (
  sort_items-perm items s,
  IsSorted-IsInOrder s (sort_items items s) (sort_items-IsSorted items s),
)
