-- ===== src/Adapters/Registry.antt =====
-- The registry of adapters as the price fetcher uses it. Where a bound on DummyJSON's total is
-- known, the paging loop ends, and the rounds that it may take are no longer an argument.
use price_monitoring_service.Prelude.{
  ℕ, ◌+◌, ◌≡◌, refl, ◌∙◌, sym, ap, String, Option, none, some, List, if◌then◌else◌, Bool-cases, inl,
  inr, arith,
}
use text.Mathlib.Text.{◌==◌ as str_eq}
use price_monitoring_service.Exec.{Exec, Result, ok, err, key_error}
use price_monitoring_service.Env.{Env}
use price_monitoring_service.HttpRetry.{Link}
use price_monitoring_service.Models.{Database, World}
use price_monitoring_service.Adapters.{ShopProduct, fakestore}
use price_monitoring_service.Adapters.Paging.{TotalAtMost, dummyjson_ends}
use price_monitoring_service.Fetcher.Counts.{Adapters, LeavesDb}

-- the calls of an adapter, in the world
abbrev pub on_link : {A : Type 0} → Exec Link A → Exec World A
on_link m w = let (r, l) = m w.link in (r, record w { link = l })

module _ (env : Env) (bound : ℕ)
    (at_most : (base_url : String) → TotalAtMost env base_url bound) where
  -- `DummyJsonAdapter.fetch_products`, with the outcome that the loop reaches
  abbrev pub dummyjson_ended : String → Exec Link (List ShopProduct)
  dummyjson_ended base_url l =
      (dummyjson_ends env base_url bound (at_most base_url) (bound + 1) l (omega arith)
        (omega arith)).0

  -- a missing base URL in an f-string
  abbrev url_text : Option String → String
  url_text none = "None"
  url_text (some url) = url

  -- `get_adapter(adapter_key, base_url).fetch_products`: the registry has no adapter of no key
  unfoldable pub registry : Adapters
  unfolding fakestore
  registry none base_url = err key_error
  registry (some adapter_key) base_url =
      if str_eq adapter_key "dummyjson"
      then ok (on_link (dummyjson_ended (url_text base_url)))
      else if str_eq adapter_key "fakestore"
      then ok (on_link (fakestore env (url_text base_url)))
      else err key_error

  db_after : World → Result (Exec World (List ShopProduct)) → Database
  db_after w (ok m) = (m w).1.db
  db_after w (err e) = w.db

  db-registry : (key url : Option String) (w : World) → db_after w (registry key url) ≡ w.db
  unfolding registry db_after
  db-registry none url w = refl
  db-registry (some key) url w = elim (Bool-cases (str_eq key "dummyjson")) [
    | inl e ↦ rw e refl
    | inr e ↦
        rw e (elim (Bool-cases (str_eq key "fakestore")) [ inl f ↦ rw f refl | inr f ↦ rw f refl ])
  ]

  pub registry-LeavesDb : LeavesDb registry
  unfolding db_after
  registry-LeavesDb key url m e w = sym (ap (db_after w) e) ∙ db-registry key url w
