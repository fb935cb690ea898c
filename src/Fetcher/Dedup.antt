-- ===== src/Fetcher/Dedup.antt =====
-- Products whose price was taken within the last hour.
use price_monitoring_service.Prelude.{
  ℕ, ◌-◌, ◌≡◌, refl, ap, ◌∙◌, Bool, true, false, some, List, [], ◌∷◌, ◌++◌, ◌==◌, any, filter,
  filter-append, arith, Option-cases, Bool-cases, inl, inr,
}
use price_monitoring_service.Decimal.{Decimal}
use price_monitoring_service.Env.{Env}
use price_monitoring_service.Models.{Shop, ProductShop, PriceHistory}
use price_monitoring_service.Adapters.{ShopProduct}
use price_monitoring_service.Fetcher.{
  Session, history, new_rows, written, flush, add_prices, write_prices, to_add, list_product_shops,
  priced_since, dedup_window,
}
use price_monitoring_service.Fetcher.Counts.{query_failed, query_ok}

abbrev pub rows_for : ℕ → List PriceHistory → List PriceHistory
rows_for id rows = filter (λ r. r.product_shop_id == id) rows

abbrev for_id : ℕ → ℕ × Decimal → Bool
for_id id x = x.0 == id

any-to_add :
    (recent : ℕ → Bool) (rows : List ProductShop) (fetched : List ShopProduct) (id : ℕ)
    → recent id ≡ true
    → any (for_id id) (to_add recent rows fetched) ≡ false
unfolding to_add
any-to_add recent rows [] id fresh = refl
any-to_add recent rows (p ∷ fetched) id fresh =
    ground (arith, any-to_add recent rows fetched id fresh, fresh)

append_nil : (rows : List PriceHistory) → rows ++ [] ≡ rows
append_nil [] = refl
append_nil (r ∷ rows) = ap (λ l. r ∷ l) (append_nil rows)

module _ (env : Env) where
  rows_for-new_rows :
      (prices : List (ℕ × Decimal)) (id : ℕ) {rows : List PriceHistory}
      → new_rows env prices ≡ some rows
      → any (for_id id) prices ≡ false
      → rows_for id rows ≡ []
  unfolding new_rows
  rows_for-new_rows [] id {rows} e other = ground arith
  rows_for-new_rows ((j, price) ∷ prices) id {rows} e other =
      elim (Option-cases (new_rows env prices)) [
        | inl bad ↦ ground (arith, bad)
        | inr (rest, good) ↦ ground (arith, good, rows_for-new_rows prices id good)
      ]

  rows_for-add_prices :
      (prices : List (ℕ × Decimal)) (id : ℕ) (s : Session)
      → any (for_id id) prices ≡ false
      → (add_prices env prices s).1.failed ≡ false
      → rows_for id (history (add_prices env prices s).1) ≡ rows_for id (history s)
  unfolding add_prices flush written
  rows_for-add_prices prices id s other = elim (Option-cases (new_rows env prices)) [
    | inl bad ↦ rw bad (λ e. absurd (ground arith))
    | inr (rows, good) ↦ rw good (λ e.
        filter-append (λ r. r.product_shop_id == id) (history s) rows
        ∙ rw (rows_for-new_rows prices id good other) (append_nil (rows_for id (history s))))
  ]

  -- Unless the flush fails, a run on a shop leaves the rows of a product_shop as they are if one of
  -- them is no older than the window, whatever the shop returned.
  pub write_prices_dedup :
      (shop : Shop) (fetched : List ShopProduct) (s : Session) (id : ℕ)
      → priced_since (env.now - dedup_window) (history s) id ≡ true
      → (write_prices env shop fetched s).1.failed ≡ false
      → rows_for id (history (write_prices env shop fetched s).1) ≡ rows_for id (history s)
  unfolding write_prices
  write_prices_dedup shop fetched s id fresh = elim (Bool-cases s.failed) [
    | inl bad ↦ rw (query_failed (list_product_shops shop.id) s bad) (λ e. refl)
    | inr good ↦ rw (query_ok (list_product_shops shop.id) s good) (
        rw (query_ok (λ w. priced_since (env.now - dedup_window) w.db.price_history) s good) (
          rows_for-add_prices
            (to_add (priced_since (env.now - dedup_window) (history s))
              (list_product_shops shop.id s.world) fetched)
            id s
            (any-to_add (priced_since (env.now - dedup_window) (history s))
              (list_product_shops shop.id s.world) fetched id fresh)))
  ]
