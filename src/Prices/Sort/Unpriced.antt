-- ===== src/Prices/Sort/Unpriced.antt =====
-- Where the products with no price for today stand in the orders by price.
use price_monitoring_service.Prelude.{◌≡◌, none, some, List, All, ◌++◌}
use price_monitoring_service.Decimal.{Decimal}
use price_monitoring_service.Schemas.{ProductListItem}

abbrev pub HasNoMin : ProductListItem → Type 0
HasNoMin x = x.price_min ≡ none

abbrev pub HasMin : ProductListItem → Type 0
HasMin x = (d : Decimal) × (x.price_min ≡ some d)

abbrev pub HasNoMax : ProductListItem → Type 0
HasNoMax x = x.price_max ≡ none

abbrev pub HasMax : ProductListItem → Type 0
HasMax x = (d : Decimal) × (x.price_max ≡ some d)

-- a list that is one of items with the first property and behind it one with the second
abbrev pub Splits :
    (ProductListItem → Type 0) → (ProductListItem → Type 0) → List ProductListItem → Type 0
Splits P Q xs =
    (front : List ProductListItem) × (back : List ProductListItem) × (xs ≡ front ++ back)
    × All P front
    × All Q back
