-- ===== src/Seed/Startup.antt =====
-- `seed_demo_user`, `seed_shops`, `seed_products` and `run_seed_if_needed` of app/tasks/seed.py.
-- Parameters: whether the database takes a commit, what the two adapters return, and the keys that
-- `uuid.uuid4()` and the sequences of the database draw.
pub mod Products
pub mod Again
pub mod Basics
use price_monitoring_service.Prelude.{
  ℕ, zero, suc, ◌+◌, String, Bool, true, false, not, Option, none, some, List, [], ◌∷◌, ◌++◌, ◌==◌,
  if◌then◌else◌, any, map, length, get_elem?,
}
use text.Mathlib.Text.{◌==◌ as str_eq}
use price_monitoring_service.Exec.{
  Exec, Exception, Result, ok, err, key_error, integrity_error, data_error, pure, raise, lift, gets,
  ◌>>=◌, ◌>>◌,
}
use price_monitoring_service.Json.{Json, null, str}
use price_monitoring_service.Env.{Env}
use price_monitoring_service.Models.{User, Shop, Product, ProductShop, Database, World}
use price_monitoring_service.Adapters.{ShopProduct}
use price_monitoring_service.Currency.Nbu.{fetch_all_today_from_nbu}
use price_monitoring_service.Currency.Service.{sync_today_rates}
use price_monitoring_service.Api.Session.{run_task}
use price_monitoring_service.Seed.{map_by_nearest_price}

pub record Sources : Type 0 where
  pub commits : Database → Bool
  pub fetch_dummyjson : Exec World (List ShopProduct)
  pub fetch_fakestore : Exec World (List ShopProduct)
  -- the n-th `uuid.uuid4()` of the run, and the next values of the sequences
  pub draw : ℕ → ℕ
  pub next_shop_id : ℕ
  pub next_product_shop_id : ℕ

-- `DEMO_USER_ID`, as a number
abbrev pub demo_user_id : ℕ
demo_user_id = 21267647932558653966460912964485513217

abbrev pub dummyjson_key : String
dummyjson_key = "dummyjson"

abbrev pub fakestore_key : String
fakestore_key = "fakestore"

-- `shop_ids[key]`
unfoldable pub id_for : String → List (String × ℕ) → Result ℕ
id_for key [] = err key_error
id_for key ((k, id) ∷ shop_ids) = if str_eq k key then ok id else id_for key shop_ids

-- A value for a column of text: the driver takes a text, and null where the column may be null.
abbrev pub text_of : Json → Option String
text_of (str s) = some s
text_of _ = none

abbrev pub nullable_text_of : Json → Option (Option String)
nullable_text_of (str s) = some (some s)
nullable_text_of null = some none
nullable_text_of _ = none

-- the rows of a product of DummyJSON: none if the driver takes a value not
abbrev pub product_of :
    ℕ → ℕ → Option String → Option (Option String) → Option (Option String) → Option Product
product_of id source (some title) (some description) (some category) = some (record {
  id = id;
  title = title;
  description = description;
  category = category;
  description_source_shop_id = some source;
})
product_of id source _ _ _ = none

abbrev pub cons_product : Option Product → Option (List Product) → Option (List Product)
cons_product (some p) (some ps) = some (p ∷ ps)
cons_product _ _ = none

module _ (draw : ℕ → ℕ) (dummyjson_id : ℕ) where
  -- the products that the first loop adds, from the n-th draw on
  unfoldable pub products_from : ℕ → List ShopProduct → Option (List Product)
  products_from n [] = some []
  products_from n (dummy ∷ rest) =
      cons_product
        (product_of (draw n) dummyjson_id (text_of dummy.title) (nullable_text_of dummy.description)
          (nullable_text_of dummy.category))
        (products_from (n + 1) rest)

  -- and the shops of the products, with their keys
  unfoldable pub first_shops : ℕ → ℕ → List ShopProduct → List ProductShop
  first_shops key n [] = []
  first_shops key n (dummy ∷ rest) =
      record {
        id = key;
        product_id = draw n;
        shop_id = dummyjson_id;
        external_id = dummy.external_id;
      }
      ∷ first_shops (key + 1) (n + 1) rest

-- the second loop: `product_ids[dummy_idx]` is the draw of that index
unfoldable pub second_shops : (ℕ → ℕ) → ℕ → ℕ → List (ℕ × ShopProduct) → List ProductShop
second_shops draw fakestore_id key [] = []
second_shops draw fakestore_id key ((dummy_idx, fakestore) ∷ mapped) =
    record {
      id = key;
      product_id = draw dummy_idx;
      shop_id = fakestore_id;
      external_id = fakestore.external_id;
    }
    ∷ second_shops draw fakestore_id (key + 1) mapped

module _ (env : Env) (from : Sources) where
  -- `db.add(...)` and `await db.commit()`: a commit that fails rolls back to the last one
  unfoldable pub commit : Database → Exec World (Unit {0})
  commit db w = if from.commits db then (ok tt, record w { db = db }) else (err integrity_error, w)

  abbrev pub demo_user : User
  demo_user = record { id = demo_user_id; email = "admin@pricetracker.com"; is_active = true }

  abbrev pub has_demo_user : Database → Bool
  has_demo_user db = any (λ u. u.id == demo_user_id) db.users

  unfoldable pub seed_demo_user : Exec World (Unit {0})
  unfolding commit
  seed_demo_user w =
      if has_demo_user w.db
      then (ok tt, w)
      else commit (record w.db { users = w.db.users ++ demo_user ∷ [] }) w

  abbrev pub seeded_shops : List Shop
  seeded_shops =
      record {
        id = from.next_shop_id;
        name = "DummyJSON";
        base_url = some env.settings.dummyjson_url;
        adapter_key = some dummyjson_key;
        is_active = true;
      }
      ∷ record {
        id = from.next_shop_id + 1;
        name = "FakeStore";
        base_url = some env.settings.fakestore_url;
        adapter_key = some fakestore_key;
        is_active = true;
      }
      ∷ []

  abbrev keyed_id : Option String → ℕ → List (String × ℕ) → List (String × ℕ)
  keyed_id none id ids = ids
  keyed_id (some key) id ids = (key, id) ∷ ids

  -- `{s.adapter_key: s.id for s in shops}`; nothing looks up the id of a shop without a key
  abbrev pub ids_by_key : List Shop → List (String × ℕ)
  ids_by_key [] = []
  ids_by_key (s ∷ shops) = keyed_id s.adapter_key s.id (ids_by_key shops)

  unfoldable pub seed_shops : Exec World (List (String × ℕ))
  unfolding commit
  seed_shops w =
      (do
        commit (record w.db { shops = w.db.shops ++ seeded_shops })
        pure (ids_by_key seeded_shops))
        w

  -- the commit at the end of `seed_products`: a value that the driver does not take fails it
  unfoldable pub commit_products : Option (List Product) → List ProductShop → Exec World (Unit {0})
  unfolding commit
  commit_products none shops w = (err data_error, w)
  commit_products (some products) shops w =
      commit
        (record w.db {
          products = w.db.products ++ products;
          product_shops = w.db.product_shops ++ shops;
        })
        w

  unfoldable pub seed_products : List (String × ℕ) → Exec World (Unit {0})
  unfolding commit_products products_from first_shops second_shops id_for
  seed_products shop_ids = do
    dummyjson_id ← lift (id_for dummyjson_key shop_ids)
    fakestore_id ← lift (id_for fakestore_key shop_ids)
    dummy_products ← from.fetch_dummyjson
    fakestore_products ← from.fetch_fakestore
    commit_products (products_from from.draw dummyjson_id 0 dummy_products) (
        first_shops from.draw dummyjson_id from.next_product_shop_id 0 dummy_products
        ++ second_shops from.draw fakestore_id (from.next_product_shop_id + length dummy_products)
            (map_by_nearest_price dummy_products fakestore_products))

  -- The startup's one session refuses every further statement when one has failed, in a flush or a
  -- commit: nothing rolls it back.
  abbrev pub is_statement_error : Exception → Bool
  is_statement_error integrity_error = true
  is_statement_error data_error = true
  is_statement_error _ = false

  -- `except Exception as e: logger.warning(...)`: whether the session takes statements afterwards
  unfoldable pub session_after : Result (Unit {0}) × World → Result Bool × World
  session_after (ok u, w) = (ok true, w)
  session_after (err e, w) = (ok (not (is_statement_error e)), w)

  unfoldable pub shop_ids_or_seed : List Shop → Exec World (List (String × ℕ))
  unfolding seed_shops
  shop_ids_or_seed [] = seed_shops
  shop_ids_or_seed (s ∷ shops) = pure (ids_by_key (s ∷ shops))

  unfoldable pub products_if_none : List (String × ℕ) → Exec World Bool
  unfolding seed_products session_after
  products_if_none shop_ids w =
      if length w.db.products == 0 then session_after (seed_products shop_ids w) else (ok true, w)

  abbrev pub logged : {A : Type 0} → Result A × World → Result (Unit {0}) × World
  logged (r, w) = (ok tt, w)

  -- The second `try`: in a session that refuses statements, the rates are asked for, and the first
  -- upsert, or the commit, raises.
  unfoldable pub rates_on_startup : Bool → Exec World (Unit {0})
  rates_on_startup true w = logged (run_task from.commits (sync_today_rates env) w)
  rates_on_startup false w = logged (fetch_all_today_from_nbu env w)

  unfoldable pub run_seed_if_needed : Exec World (Unit {0})
  unfolding seed_demo_user shop_ids_or_seed products_if_none rates_on_startup
  run_seed_if_needed = do
    seed_demo_user
    shops ← gets (λ w. w.db.shops)
    shop_ids ← shop_ids_or_seed shops
    usable ← products_if_none shop_ids
    rates_on_startup usable
