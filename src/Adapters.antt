-- ===== src/Adapters.antt =====
-- The adapters of app/services/shop_adapters: the products that a shop's server returns.
pub mod Paging
pub mod Registry
use price_monitoring_service.Prelude.{
  ℕ, zero, suc, ◌+◌, String, Bool, true, false, not, Option, none, some, List, [], ◌∷◌, ◌++◌,
  if◌then◌else◌, map,
}
use text.Mathlib.Text.{◌==◌ as str_eq}
use price_monitoring_service.Decimal.{Decimal, of_int, lt}
use price_monitoring_service.Exec.{
  Exec, Result, ok, err, type_error, key_error, pure, raise, lift, ◌>>=◌, resume,
}
use price_monitoring_service.Json.{
  Json, null, bool, num, str, arr, obj, Items, nil, cons, Fields, end, field, item, get_or,
}
use price_monitoring_service.Env.{Env, dummyjson_products, fakestore_products}
use price_monitoring_service.HttpRetry.{Link, get_with_retry}
use price_monitoring_service.Currency.Nbu.{json, decimal_of}

-- `ShopProduct` of base.py. The class does not check that title, description and category are text.
pub record ShopProduct : Type 0 where
  pub external_id : String
  pub title : Json
  pub description : Json
  pub category : Json
  pub price_usd : Decimal

-- What a `for` walks. A text or an object is walked by texts, of which the first has no key: one
-- element stands for them.
abbrev pub walked : Json → Result Items
walked (arr items) = ok items
walked (str s) = ok (if str_eq s "" then nil else cons (str s) nil)
walked (obj end) = ok nil
walked (obj (field k _ _)) = ok (cons (str k) nil)
walked _ = err type_error

-- `skip >= total`; a bool is the number 0 or 1
abbrev pub reached : ℕ → Json → Result Bool
reached skip (num total) = ok (not (lt (of_int skip) total))
reached skip (bool true) = ok (not (lt (of_int skip) (of_int 1)))
reached skip (bool false) = ok true
reached skip _ = err type_error

module _ (env : Env) where
  -- `ShopProduct(...)` of one element
  unfoldable pub shop_product : Json → Exec Link ShopProduct
  shop_product p = do
    id ← lift (item p "id")
    title ← lift (item p "title")
    description ← lift (get_or p "description" (str ""))
    category ← lift (get_or p "category" (str ""))
    v ← lift (item p "price")
    price ← lift (decimal_of env v)
    pure (record {
      external_id = env.str_of id;
      title = title;
      description = description;
      category = category;
      price_usd = price;
    })

  -- the loop over the elements of a page, on the products so far
  unfoldable pub append_products : Items → List ShopProduct → Exec Link (List ShopProduct)
  unfolding shop_product
  append_products nil products = pure products
  append_products (cons p rest) products = do
    x ← shop_product p
    append_products rest (products ++ x ∷ [])

  -- `FakeStoreAdapter.fetch_products`
  unfoldable pub fakestore : String → Exec Link (List ShopProduct)
  unfolding append_products
  fakestore base_url = do
    resp ← get_with_retry env (fakestore_products base_url) env.settings.shop_api_retry_attempts
    body ← lift (json resp)
    items ← lift (walked body)
    append_products items []

  -- one round of `DummyJsonAdapter.fetch_products`: the products so far, and whether it was the
  -- last. `data["total"]` is read before the elements are.
  unfoldable pub dummyjson_page :
      String → ℕ → List ShopProduct → Exec Link (List ShopProduct × Bool)
  unfolding append_products
  dummyjson_page base_url skip products = do
    resp ←
        get_with_retry env (dummyjson_products base_url 100 skip)
          env.settings.shop_api_retry_attempts
    body ← lift (json resp)
    page ← lift (item body "products")
    items ← lift (walked page)
    total ← lift (item body "total")
    more ← append_products items products
    last ← lift (reached (skip + 100) total)
    pure (more, last)

  -- what follows a round: `break`, the next round, or the exception
  unfoldable pub dummyjson_next :
      (List ShopProduct → Link → Option (Result (List ShopProduct) × Link))
      → Result (List ShopProduct × Bool) × Link
      → Option (Result (List ShopProduct) × Link)
  dummyjson_next again (ok (products, true), l) = some (ok products, l)
  dummyjson_next again (ok (products, false), l) = again products l
  dummyjson_next again (err e, l) = some (err e, l)

  -- `while True`, with the rounds that are left: none if they do not suffice
  unfoldable pub dummyjson_loop :
      String → ℕ → ℕ → List ShopProduct → Link → Option (Result (List ShopProduct) × Link)
  unfolding dummyjson_next dummyjson_page
  dummyjson_loop base_url zero skip products l = none
  dummyjson_loop base_url (suc rounds) skip products l =
      dummyjson_next (dummyjson_loop base_url rounds (skip + 100))
        (dummyjson_page base_url skip products l)

  -- `DummyJsonAdapter.fetch_products`
  unfoldable pub dummyjson : String → ℕ → Link → Option (Result (List ShopProduct) × Link)
  unfolding dummyjson_loop
  dummyjson base_url rounds = dummyjson_loop base_url rounds 0 []

  -- `get_adapter(adapter_key, base_url).fetch_products`, with the rounds of the paging loop
  unfoldable pub get_adapter :
      String → String → Result (ℕ → Link → Option (Result (List ShopProduct) × Link))
  unfolding dummyjson fakestore
  get_adapter adapter_key base_url =
      if str_eq adapter_key "dummyjson"
      then ok (dummyjson base_url)
      else if str_eq adapter_key "fakestore"
      then ok (λ rounds l. some (fakestore base_url l))
      else err key_error
