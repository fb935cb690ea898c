-- ===== src/Prices/Listing/Catalog.antt =====
-- Which pages of the catalogue its query takes.
use price_monitoring_service.Prelude.{
  ℕ, zero, suc, ◌*◌, ◌<◌, ◌≤◌, ◌≡◌, refl, ltb, lt→ltb, Bool-cases, inl, inr, arith,
}
use price_monitoring_service.Schemas.{Currency}
use price_monitoring_service.Exec.{ok, err, data_error}
use price_monitoring_service.Env.{Env}
use price_monitoring_service.Models.{World}
use price_monitoring_service.Prices.Page.{page_of}
use price_monitoring_service.Prices.Listing.{
  catalog_rows, list_catalog, offset_of, count_all, build_catalog, get_catalog,
}

module _ (env : Env) where
  -- The driver takes the limit and the offset of the page.
  abbrev pub IsBindable : ℕ → ℕ → Type 0
  IsBindable zero page_size = ⊥
  IsBindable (suc n) page_size = (page_size < env.bind_bound) × (n * page_size < env.bind_bound)

  -- Such a page is one of the rows in their order.
  pub list_catalog-page_of :
      (page page_size : ℕ) (w : World)
      → IsBindable page page_size
      → list_catalog env page_size (offset_of env page page_size) w
        ≡ (ok (page_of page page_size (catalog_rows env w)), w)
  unfolding list_catalog page_of
  list_catalog-page_of zero page_size w h = absurd h
  list_catalog-page_of (suc n) page_size w (lo, hi) =
      rw (lt→ltb page_size env.bind_bound lo) (rw (lt→ltb (n * page_size) env.bind_bound hi) refl)

  list_catalog_refused :
      (page page_size : ℕ) (w : World)
      → 1 ≤ page_size
      → ¬ IsBindable page page_size
      → list_catalog env page_size (offset_of env page page_size) w ≡ (err data_error, w)
  unfolding list_catalog
  list_catalog_refused zero zero w some_items h = absurd (omega arith)
  list_catalog_refused zero (suc m) w some_items h = ground arith
  list_catalog_refused (suc n) page_size w some_items h =
      elim (Bool-cases (ltb page_size env.bind_bound)) [
        | inl a ↦ elim (Bool-cases (ltb (n * page_size) env.bind_bound)) [
          | inl b ↦ absurd (h (ground arith, ground arith))
          | inr b ↦ rw a (rw b refl)
        ]
        | inr a ↦ rw a refl
      ]

  -- If the page has at least one item and the driver does not take its limit or its offset, or the
  -- page is 0, the catalogue is not returned: the call raises a DataError and changes nothing.
  pub get_catalog_refused :
      (currency : Currency) (page page_size : ℕ) (w : World)
      → 1 ≤ page_size
      → ¬ IsBindable page page_size
      → get_catalog env currency page page_size w ≡ (err data_error, w)
  unfolding get_catalog
  get_catalog_refused currency page page_size w some_items h =
      rw (list_catalog_refused page page_size w some_items h) refl

  -- What follows the queries of a page that they take.
  pub get_catalog-page_of :
      (currency : Currency) (page page_size : ℕ) (w : World)
      → IsBindable page page_size
      → get_catalog env currency page page_size w
        ≡ build_catalog env currency page page_size
            (count_all env w)
            (page_of page page_size (catalog_rows env w))
            w
  unfolding get_catalog
  get_catalog-page_of currency page page_size w h =
      rw (list_catalog-page_of page page_size w h) refl
