-- ===== src/Fetcher.antt =====
-- `PriceFetcherService` of app/services/price_fetcher.py over app/db/repositories/shop_repo.py and
-- the writing half of app/db/repositories/price_repo.py. The registry of adapters is a parameter: a
-- shop's adapter is what `fetch_products` does.
pub mod Counts
pub mod Dedup
use price_monitoring_service.Prelude.{
  ℕ, ◌+◌, ◌-◌, String, Bool, true, false, ◌&&◌, Option, none, some, List, [], ◌∷◌, ◌++◌, ◌==◌, leb,
  if◌then◌else◌, any, filter, length,
}
use text.Mathlib.Text.{◌==◌ as str_eq}
use price_monitoring_service.Decimal.{Decimal}
use price_monitoring_service.Exec.{
  Exec, Exception, Result, ok, err, data_error, pending_rollback_error, pure, raise, lift, gets,
  modify, ◌>>=◌, ◌>>◌,
}
use price_monitoring_service.Env.{Env}
use price_monitoring_service.Models.{Shop, ProductShop, PriceHistory, Database, World}
use price_monitoring_service.Adapters.{ShopProduct}

-- The session of one run: the world with what the transaction has written, the rows of
-- price_history from before the transaction, and whether a flush has failed. SQLAlchemy rolls a
-- transaction back when a flush fails, and then refuses every statement until `rollback()`.
pub record Session : Type 0 where
  pub world : World
  pub before : List PriceHistory
  pub failed : Bool

abbrev pub history : Session → List PriceHistory
history s = s.world.db.price_history

abbrev pub set_history : List PriceHistory → Session → Session
set_history rows s = record s {
  world = record s.world { db = record s.world.db { price_history = rows } };
}

-- a statement of the session
unfoldable pub query : {A : Type 0} → (World → A) → Exec Session A
query f s = if s.failed then (err pending_rollback_error, s) else (ok (f s.world), s)

-- an action on the world, such as the calls of a server
abbrev pub on_world : {A : Type 0} → Exec World A → Exec Session A
on_world m s = let (r, w) = m s.world in (r, record s { world = w })

-- `ShopRepo.list_active`
abbrev pub list_active : World → List Shop
list_active w = filter (λ s. s.is_active) w.db.shops

-- `ShopRepo.list_product_shops`
abbrev pub list_product_shops : ℕ → World → List ProductShop
list_product_shops shop_id w = filter (λ ps. ps.shop_id == shop_id) w.db.product_shops

-- `PriceRepo.product_shop_ids_priced_since`, as the test of membership
abbrev pub priced_since : ℕ → List PriceHistory → ℕ → Bool
priced_since since rows product_shop_id =
    any (λ r. r.product_shop_id == product_shop_id && leb since r.recorded_at) rows

-- `ps_by_external_id.get`: the last of equal keys stands in the dictionary
unfoldable pub ps_for : String → List ProductShop → Option ProductShop
ps_for external_id [] = none
ps_for external_id (ps ∷ rest) =
    let later = ps_for external_id rest in
    elim later [
      | some found ↦ some found
      | none ↦ if str_eq ps.external_id external_id then some ps else none
    ]

-- `_DEDUP_WINDOW`, in microseconds
abbrev pub dedup_window : ℕ
dedup_window = 3600000000

-- the prices that the loop adds to the session: the product_shop id and the price
unfoldable pub to_add : (ℕ → Bool) → List ProductShop → List ShopProduct → List (ℕ × Decimal)
unfolding ps_for
to_add recent rows [] = []
to_add recent rows (p ∷ fetched) =
    let rest = to_add recent rows fetched in
    elim (ps_for p.external_id rows) [
      | none ↦ rest
      | some ps ↦ if recent ps.id then rest else (ps.id, p.price_usd) ∷ rest
    ]

-- `try ... except Exception`
abbrev pub count_or_zero : Result ℕ → ℕ
count_or_zero (ok n) = n
count_or_zero (err e) = 0

module _ (env : Env) where
  -- the rows that a flush writes; none where a price overflows NUMERIC(12, 4)
  unfoldable pub new_rows : List (ℕ × Decimal) → Option (List PriceHistory)
  new_rows [] = some []
  new_rows ((id, price) ∷ prices) =
      let rest = new_rows prices in
      elim (env.numeric 12 4 price) [
        | none ↦ none
        | some kept ↦ elim rest [
          | none ↦ none
          | some rows ↦
              some (record { product_shop_id = id; price_usd = kept; recorded_at = env.now } ∷ rows)
        ]
      ]

  -- the outcome of the flush
  unfoldable pub written : Option (List PriceHistory) → Exec Session (Unit {0})
  written none s = (err data_error, record (set_history s.before s) { failed = true })
  written (some rows) s = (ok tt, set_history (history s ++ rows) s)

  -- `flush`: with nothing pending it does nothing
  unfoldable pub flush : List (ℕ × Decimal) → Exec Session (Unit {0})
  unfolding new_rows written
  flush prices = written (new_rows prices)

  -- the prices that were added, and the counter that went up with each
  unfoldable pub add_prices : List (ℕ × Decimal) → Exec Session ℕ
  unfolding flush
  add_prices prices = do flush prices; pure (length prices)

  -- `_fetch_shop` from the second statement on
  unfoldable pub write_prices : Shop → List ShopProduct → Exec Session ℕ
  unfolding add_prices to_add query
  write_prices shop fetched = do
    ps_rows ← query (list_product_shops shop.id)
    recently_priced ← query (λ w. priced_since (env.now - dedup_window) w.db.price_history)
    add_prices (to_add recently_priced ps_rows fetched)

  module _
      (get_adapter : Option String → Option String → Result (Exec World (List ShopProduct))) where
    unfoldable pub fetch_with : Shop → Result (Exec World (List ShopProduct)) → Exec Session ℕ
    unfolding write_prices
    fetch_with shop (ok fetch_products) = do
      fetched ← on_world fetch_products
      write_prices shop fetched
    fetch_with shop (err e) = raise e

    -- `_fetch_shop`
    unfoldable pub fetch_shop : Shop → Exec Session ℕ
    unfolding fetch_with
    fetch_shop shop = fetch_with shop (get_adapter shop.adapter_key shop.base_url)

    -- The loop over the shops: the assignments to `results`, in order. The keys of shops are unique,
    -- and a shop without a key has no adapter and gives 0, so they have the sum of the dictionary.
    unfoldable pub fetch_each : List Shop → Session → List (Option String × ℕ) × Session
    unfolding fetch_shop
    fetch_each [] s = ([], s)
    fetch_each (shop ∷ shops) s =
        let (r, after) = fetch_shop shop s in
        let (results, last) = fetch_each shops after in
        ((shop.adapter_key, count_or_zero r) ∷ results, last)

    -- `fetch_all`
    unfoldable pub fetch_all : Session → List (Option String × ℕ) × Session
    unfolding fetch_each
    fetch_all s = fetch_each (list_active s.world) s
