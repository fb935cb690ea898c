-- ===== src/Tests/Seeding.antt =====
-- The startup seed.
use price_monitoring_service.Prelude.{ℕ, ◌≡◌, refl, String, true, List, [], ◌∷◌}
use price_monitoring_service.Decimal.{of_int}
use price_monitoring_service.Exec.{ok}
use price_monitoring_service.Json.{str, null}
use price_monitoring_service.Env.{Env}
use price_monitoring_service.Models.{World}
use price_monitoring_service.Adapters.{ShopProduct}
use price_monitoring_service.Currency.Frame.{OnlyRates}
use price_monitoring_service.Seed.Startup.{
  Sources, demo_user_id, id_for, seed_products, run_seed_if_needed,
}
use price_monitoring_service.Seed.Startup.{has_demo_user}
use price_monitoring_service.Prelude.{length, ◌==◌, false}
use price_monitoring_service.Seed.Startup.Basics.{run_seed_if_needed_basics}
use price_monitoring_service.Seed.Startup.Again.{run_seed_if_needed_again}
use price_monitoring_service.Seed.Startup.Products.{Seeds, seed_products_lem}
use price_monitoring_service.Tests.Fixtures.{env_with, answers, world, tables}

abbrev env : Env
env = env_with answers true

abbrev desk : ShopProduct
desk = record {
  external_id = "1";
  title = str "Desk";
  description = null;
  category = str "office";
  price_usd = of_int 90;
}

abbrev chair : ShopProduct
chair = record desk { external_id = "2"; title = str "Chair"; price_usd = of_int 30 }

abbrev stool : ShopProduct
stool = record desk { external_id = "9"; title = str "Stool"; price_usd = of_int 35 }

abbrev sources : Sources
sources = record {
  commits = λ db. true;
  fetch_dummyjson = λ w. (ok (desk ∷ chair ∷ []), w);
  fetch_fakestore = λ w. (ok (stool ∷ []), w);
  draw = λ n. n;
  next_shop_id = 1;
  next_product_shop_id = 1;
}

abbrev shop_ids : List (String × ℕ)
shop_ids = ("dummyjson", 1) ∷ ("fakestore", 2) ∷ []

dummyjson_there : id_for "dummyjson" shop_ids ≡ ok 1
unfolding id_for
dummyjson_there = refl

fakestore_there : id_for "fakestore" shop_ids ≡ ok 2
unfolding id_for
fakestore_there = refl

seed_products_lem_example :
    Seeds 1 2 (desk ∷ chair ∷ []) world (seed_products env sources shop_ids world)
seed_products_lem_example =
    seed_products_lem env sources shop_ids world dummyjson_there fakestore_there refl refl

abbrev seeded_world : World
seeded_world = record world {
  db = record tables {
    users = record { id = demo_user_id; email = "a@b.c"; is_active = true } ∷ [];
  };
}

run_seed_if_needed_again_example :
    ((run_seed_if_needed env sources seeded_world).0 ≡ ok tt)
    × OnlyRates seeded_world (run_seed_if_needed env sources seeded_world).1
run_seed_if_needed_again_example = run_seed_if_needed_again env sources seeded_world refl refl refl

-- a database with nothing in it
abbrev bare_world : World
bare_world = record world {
  db = record tables {
    users = [];
    shops = [];
    products = [];
    product_shops = [];
    price_history = [];
  };
}

run_seed_if_needed_basics_example :
    ((run_seed_if_needed env sources bare_world).0 ≡ ok tt)
    × (has_demo_user env sources (run_seed_if_needed env sources bare_world).1.db ≡ true)
    × ((length (run_seed_if_needed env sources bare_world).1.db.shops == 0) ≡ false)
run_seed_if_needed_basics_example =
    run_seed_if_needed_basics env sources (λ db. refl) (λ w. refl) (λ w. refl) bare_world
