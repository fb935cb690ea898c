-- ===== src/Seed.antt =====
-- `_map_by_nearest_price` of app/tasks/seed.py.
pub mod Matching
pub mod Startup
use price_monitoring_service.Prelude.{
  ℕ, ◌+◌, Bool, true, false, Option, none, some, List, [], ◌∷◌, ◌==◌, if◌then◌else◌, any,
}
use price_monitoring_service.Decimal.{Decimal, lt, gap}
use price_monitoring_service.Adapters.{ShopProduct}

-- `i in used`
abbrev pub is_used : List ℕ → ℕ → Bool
is_used used i = any (λ j. j == i) used

-- `if best_gap is None or gap < best_gap: best_idx, best_gap = i, gap`
unfoldable pub closer : ℕ → Decimal → Option (ℕ × Decimal) → Option (ℕ × Decimal)
closer i g none = some (i, g)
closer i g (some (j, h)) = if lt g h then some (i, g) else some (j, h)

-- the inner loop, from index `i` on, on `best_idx` and `best_gap`
unfoldable pub scan :
    List ℕ → Decimal → ℕ → List ShopProduct → Option (ℕ × Decimal) → Option (ℕ × Decimal)
unfolding closer
scan used price i [] best = best
scan used price i (dummy ∷ rest) best =
    scan used price (i + 1) rest
      (if is_used used i then best else closer i (gap dummy.price_usd price) best)

-- what the outer loop does with the best index: `break`, or the entry and the products behind it
abbrev pub map_next :
    (ℕ → List (ℕ × ShopProduct)) → ShopProduct → Option (ℕ × Decimal) → List (ℕ × ShopProduct)
map_next again fakestore none = []
map_next again fakestore (some (best_idx, best_gap)) = (best_idx, fakestore) ∷ again best_idx

-- the outer loop: the entries of `mapping` in the order in which they are made
unfoldable pub map_each : List ShopProduct → List ℕ → List ShopProduct → List (ℕ × ShopProduct)
unfolding scan
map_each dummy_products used [] = []
map_each dummy_products used (fakestore ∷ rest) =
    map_next (λ best_idx. map_each dummy_products (best_idx ∷ used) rest) fakestore
      (scan used fakestore.price_usd 0 dummy_products none)

unfoldable pub map_by_nearest_price : List ShopProduct → List ShopProduct → List (ℕ × ShopProduct)
unfolding map_each
map_by_nearest_price dummy_products fakestore_products =
    map_each dummy_products [] fakestore_products
