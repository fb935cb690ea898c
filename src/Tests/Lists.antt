-- ===== src/Tests/Lists.antt =====
-- The order of the list, the trend, and the cards.
use price_monitoring_service.Prices.Latest.{latest_price}
use price_monitoring_service.Decimal.{lt}
use price_monitoring_service.Prelude.{ℕ, ◌≡◌, refl, true, Option, none, some, List, [], ◌∷◌}
use mathlib.Core.List.{Perm}
use price_monitoring_service.Decimal.{Decimal, of_int, lt}
use price_monitoring_service.Schemas.{same, price_asc, price_desc, ProductListItem, Currency}
use price_monitoring_service.Models.{World}
use price_monitoring_service.Prices.Sort.{sort_items}
use price_monitoring_service.Prices.Sort.Order.{IsInOrder, sort_items-IsInOrder}
use price_monitoring_service.Watchlist.{add}
use price_monitoring_service.Prelude.{length}
use price_monitoring_service.Prices.Detail.{current_prices}
use price_monitoring_service.Tests.Fixtures.{world, env_with, answers}

abbrev item : ℕ → Option Decimal → ProductListItem
item i price = record {
  id = i;
  title = "Lamp";
  category = none;
  price_min = price;
  price_max = price;
  currency = Currency.usd;
  trend = same;
}

abbrev three_items : List ProductListItem
three_items = item 1 none ∷ item 2 (some (of_int 9)) ∷ item 3 (some (of_int 5)) ∷ []

-- by descending price the product without a price is the first
desc_sample :
    sort_items three_items price_desc
    ≡ item 1 none ∷ item 2 (some (of_int 9)) ∷ item 3 (some (of_int 5)) ∷ []
unfolding sort_items lt
desc_sample = refl

sort_items-IsInOrder_example :
    Perm (sort_items three_items price_asc) three_items
    × IsInOrder price_asc (sort_items three_items price_asc)
sort_items-IsInOrder_example = sort_items-IsInOrder three_items price_asc

abbrev added_world : World
added_world = (add 1 3 world).1

-- one row, of today
one_price : length (current_prices (env_with answers true) 3 world) ≡ 1
unfolding current_prices latest_price
one_price = refl
