-- ===== src/Seed/Startup/Basics.antt =====
-- What every run of the startup seed establishes.
use price_monitoring_service.Prelude.{
  ℕ, ◌≡◌, refl, ap, ◌∙◌, Bool, true, false, Option, none, some, String, List, [], ◌∷◌, ◌++◌, ◌==◌,
  any, any-append, length, arith, Bool-cases, inl, inr,
}
use price_monitoring_service.Exec.{Exec, Result, ok, err, resume}
use price_monitoring_service.Env.{Env}
use price_monitoring_service.Models.{Shop, Product, ProductShop, Database, World}
use price_monitoring_service.Currency.Nbu.Graceful.{fetch_all_graceful}
use price_monitoring_service.Seed.Startup.{
  Sources, demo_user_id, demo_user, has_demo_user, seed_demo_user, commit, ids_by_key, seeded_shops,
  shop_ids_or_seed, seed_shops, id_for, products_if_none, session_after, seed_products,
  commit_products, rates_on_startup, run_seed_if_needed,
}
use price_monitoring_service.Seed.Startup.Again.{rates_on_startup-OnlyRates}

-- the users and the shops of two worlds are the same
abbrev pub KeepsBasics : World → World → Type 0
KeepsBasics w w' = (w'.db.users ≡ w.db.users) × (w'.db.shops ≡ w.db.shops)

Keeps-resume :
    {A B : Type 0} (f : A → Exec World B) (w : World) (o : Result A × World)
    → KeepsBasics w o.1
    → ((a : A) (v : World) → KeepsBasics v (f a v).1)
    → KeepsBasics w (resume f o).1
Keeps-resume f w (ok a, v) k h = ((h a v).0 ∙ k.0, (h a v).1 ∙ k.1)
Keeps-resume f w (err e, v) k h = k

length-snoc :
    (shops : List Shop) (s : Shop) (more : List Shop) → (length (shops ++ s ∷ more) == 0) ≡ false
length-snoc [] s more = ground arith
length-snoc (t ∷ shops) s more = ground arith

module _ (env : Env) (from : Sources) where
  commit_products-Keeps :
      (made : Option (List Product)) (shops : List ProductShop) (w : World)
      → KeepsBasics w (commit_products env from made shops w).1
  unfolding commit_products commit
  commit_products-Keeps none shops w = (refl, refl)
  commit_products-Keeps (some products) shops w =
      elim (Bool-cases (
        from.commits (record w.db {
          products = w.db.products ++ products;
          product_shops = w.db.product_shops ++ shops;
        }))) [ inl c ↦ rw c (refl, refl) | inr c ↦ rw c (refl, refl) ]

  -- the database takes every commit, and the adapters leave it alone
  module _ (accepts : (db : Database) → from.commits db ≡ true)
      (dummyjson_leaves : (w : World) → (from.fetch_dummyjson w).1.db ≡ w.db)
      (fakestore_leaves : (w : World) → (from.fetch_fakestore w).1.db ≡ w.db) where
    seed_products-Keeps :
        (shop_ids : List (String × ℕ)) (w : World)
        → KeepsBasics w (seed_products env from shop_ids w).1
    unfolding seed_products
    seed_products-Keeps shop_ids w =
        Keeps-resume _ w (id_for "dummyjson" shop_ids, w) (refl, refl)
          λ a w1.
            Keeps-resume _ w1 (id_for "fakestore" shop_ids, w1) (refl, refl)
              λ b w2.
                Keeps-resume _ w2 (from.fetch_dummyjson w2)
                  (
                    ap (λ db. db.users) (dummyjson_leaves w2),
                    ap (λ db. db.shops) (dummyjson_leaves w2),
                  )
                  λ dummies w3.
                    Keeps-resume _ w3 (from.fetch_fakestore w3)
                      (
                        ap (λ db. db.users) (fakestore_leaves w3),
                        ap (λ db. db.shops) (fakestore_leaves w3),
                      )
                      λ fakes w4. commit_products-Keeps _ _ w4

    abbrev with_user : World → Database
    with_user w = record w.db { users = w.db.users ++ demo_user env from ∷ [] }

    abbrev with_shops : World → Database
    with_shops w = record w.db { shops = w.db.shops ++ seeded_shops env from }

    demo_user_there :
        (w : World)
        → (v : World) × (seed_demo_user env from w ≡ (ok tt, v))
          × (has_demo_user env from v.db ≡ true)
    unfolding seed_demo_user commit
    demo_user_there w = elim (Bool-cases (has_demo_user env from w.db)) [
      | inl there ↦ (w, rw there refl, there)
      | inr missing ↦ (
        record w { db = with_user w },
        rw missing (rw (accepts (with_user w)) refl),
        any-append (λ u. u.id == demo_user_id) w.db.users (demo_user env from ∷ []) ∙ ground arith,
      )
    ]

    shops_there :
        (shops : List Shop) (w : World)
        → w.db.shops ≡ shops
        → (ids : List (String × ℕ)) × (v : World) × (shop_ids_or_seed env from shops w
            ≡ (ok ids, v))
          × (v.db.users ≡ w.db.users)
          × ((length v.db.shops == 0) ≡ false)
    unfolding shop_ids_or_seed seed_shops commit
    shops_there [] w e = (
      ids_by_key env from (seeded_shops env from),
      record w { db = with_shops w },
      rw (accepts (with_shops w)) refl,
      refl,
      length-snoc w.db.shops _ _,
    )
    shops_there (s ∷ shops) w e =
        (ids_by_key env from (s ∷ shops), w, refl, refl, rw e (ground arith))

    products_there :
        (shop_ids : List (String × ℕ)) (w : World)
        → (usable : Bool) × (v : World) × (products_if_none env from shop_ids w ≡ (ok usable, v))
          × KeepsBasics w v
    unfolding products_if_none session_after
    products_there shop_ids w = elim (Bool-cases (length w.db.products == 0)) [
      | inl e ↦ rw e (after (seed_products env from shop_ids w) (seed_products-Keeps shop_ids w))
      | inr e ↦ rw e (true, w, refl, (refl, refl))
    ]
      where
        after :
            (o : Result (Unit {0}) × World)
            → KeepsBasics w o.1
            → (usable : Bool) × (v : World) × (session_after env from o ≡ (ok usable, v))
              × KeepsBasics w v
        after (ok u, v) k = (_, v, refl, k)
        after (err x, v) k = (_, v, refl, k)

    rates_there :
        (usable : Bool) (w : World)
        → (v : World) × (rates_on_startup env from usable w ≡ (ok tt, v)) × KeepsBasics w v
    unfolding rates_on_startup
    rates_there true w =
        let only = rates_on_startup-OnlyRates env from w in
        (
          (rates_on_startup env from true w).1,
          refl,
          (ap (λ db. db.users) only, ap (λ db. db.shops) only),
        )
    rates_there false w =
        let (rates, l, e) = fetch_all_graceful env w in
        (record w { link = l }, rw e refl, (refl, refl))

    -- Where the database takes every commit and no adapter writes to it, the startup seed returns on
    -- any database, whatever errors the shops and the NBU give, and leaves one with the demo user and
    -- at least one shop.
    pub run_seed_if_needed_basics :
        (w : World)
        → ((run_seed_if_needed env from w).0 ≡ ok tt)
          × (has_demo_user env from (run_seed_if_needed env from w).1.db ≡ true)
          × ((length (run_seed_if_needed env from w).1.db.shops == 0) ≡ false)
    unfolding run_seed_if_needed
    run_seed_if_needed_basics w =
        let (w1, e1, user) = demo_user_there w in
        let (ids, w2, e2, users2, shop) = shops_there w1.db.shops w1 refl in
        let (usable, w3, e3, (users3, shops3)) = products_there ids w2 in
        let (w4, e4, (users4, shops4)) = rates_there usable w3 in
        rw e1 (
          rw e2 (
            rw e3 (
              rw e4 (
                refl,
                ap (any (λ u. u.id == demo_user_id)) (users4 ∙ users3 ∙ users2) ∙ user,
                ap (λ shops. length shops == 0) (shops4 ∙ shops3) ∙ shop,
              ))))
