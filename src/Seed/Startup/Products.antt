-- ===== src/Seed/Startup/Products.antt =====
-- What the seed of the products adds.
use price_monitoring_service.Prelude.{
  ℕ, zero, suc, ◌+◌, ◌<◌, ◌≡◌, refl, ap, sym, subst, String, Bool, true, false, Option, none, some,
  List, [], ◌∷◌, ◌++◌, ◌==◌, any, length, All, arith, if◌then◌else◌,
}
use price_monitoring_service.Exec.{Result, ok, err, integrity_error}
use price_monitoring_service.Env.{Env}
use price_monitoring_service.Models.{Product, ProductShop, Database, World}
use price_monitoring_service.Adapters.{ShopProduct}
use price_monitoring_service.Seed.{map_by_nearest_price}
use price_monitoring_service.Seed.Matching.{IsMatching, map_by_nearest_price-IsMatching}
use price_monitoring_service.Seed.Startup.{
  Sources, products_from, first_shops, second_shops, product_of, cons_product, text_of,
  nullable_text_of, commit, commit_products, seed_products, id_for, dummyjson_key, fakestore_key,
}

-- Products, the rows that tie them to DummyJSON, and the items that they come from, one by one.
abbrev pub AreFrom : ℕ → List Product → List ProductShop → List ShopProduct → Type 0
AreFrom shop_id [] [] [] = Unit
AreFrom shop_id (p ∷ ps) (s ∷ shops) (dummy ∷ dummies) =
    (s.product_id ≡ p.id)
    × (s.shop_id ≡ shop_id)
    × (s.external_id ≡ dummy.external_id)
    × (text_of dummy.title ≡ some p.title)
    × AreFrom shop_id ps shops dummies
AreFrom shop_id _ _ _ = ⊥

-- the product of a row is among the given ones
abbrev pub IsOfOne : List Product → ProductShop → Type 0
IsOfOne ps s = any (λ p. p.id == s.product_id) ps ≡ true

module _ (draw : ℕ → ℕ) (shop_id : ℕ) where
  -- the parts that a product was made of
  product_parts :
      (id : ℕ) (title : Option String) (description category : Option (Option String))
      (rest : Option (List Product)) {ps : List Product}
      → cons_product (product_of id shop_id title description category) rest ≡ some ps
      → (p : Product) × (qs : List Product) × (ps ≡ p ∷ qs)
        × (p.id ≡ id)
        × (title ≡ some p.title)
        × (rest ≡ some qs)
  product_parts id none d c rest e = absurd (cc)
  product_parts id (some t) none c rest e = absurd (cc)
  product_parts id (some t) (some d) none rest e = absurd (cc)
  product_parts id (some t) (some d) (some c) none e = absurd (cc)
  product_parts id (some t) (some d) (some c) (some qs) e = (
    record {
      id = id;
      title = t;
      description = d;
      category = c;
      description_source_shop_id = some shop_id;
    },
    qs,
    cc,
    refl,
    refl,
    refl,
  )

  products_from-AreFrom :
      (key n : ℕ) (dummies : List ShopProduct) {ps : List Product}
      → products_from draw shop_id n dummies ≡ some ps
      → AreFrom shop_id ps (first_shops draw shop_id key n dummies) dummies
  unfolding products_from first_shops
  products_from-AreFrom key n [] {ps} e = subst (λ l. AreFrom shop_id l [] []) (nothing ps e) tt
    where
      nothing : (ps : List Product) → some [] ≡ some ps → [] ≡ ps
      nothing ps e = cc
  products_from-AreFrom key n (dummy ∷ dummies) {ps} e =
      let x =
        product_parts (draw n) (text_of dummy.title) (nullable_text_of dummy.description)
          (nullable_text_of dummy.category) (products_from draw shop_id (n + 1) dummies) e in
      subst
        (λ l.
          AreFrom shop_id l (first_shops draw shop_id key n (dummy ∷ dummies)) (dummy ∷ dummies))
        (sym x.2) (sym x.3, refl, refl, x.4, products_from-AreFrom (key + 1) (n + 1) dummies x.5)

  id_of_draw :
      (n i : ℕ) (dummies : List ShopProduct) {ps : List Product}
      → products_from draw shop_id n dummies ≡ some ps
      → i < length dummies
      → any (λ p. p.id == draw (n + i)) ps ≡ true
  unfolding products_from
  id_of_draw n i [] e lo = absurd (omega arith)
  id_of_draw n zero (dummy ∷ dummies) {ps} e lo =
      let x =
        product_parts (draw n) (text_of dummy.title) (nullable_text_of dummy.description)
          (nullable_text_of dummy.category) (products_from draw shop_id (n + 1) dummies) e in
      rw x.2 (ground (arith, x.3, ap draw (plus_zero n)))
    where
      plus_zero : (n : ℕ) → n + 0 ≡ n
      plus_zero n = omega arith
  id_of_draw n (suc i) (dummy ∷ dummies) {ps} e lo =
      let x =
        product_parts (draw n) (text_of dummy.title) (nullable_text_of dummy.description)
          (nullable_text_of dummy.category) (products_from draw shop_id (n + 1) dummies) e in
      rw x.2
        (ground (arith, id_of_draw (n + 1) i dummies x.5 (omega arith), ap draw (plus_suc n i)))
    where
      plus_suc : (n i : ℕ) → n + 1 + i ≡ n + suc i
      plus_suc n i = omega arith

module _ (draw : ℕ → ℕ) (source shop_id : ℕ) (dummies : List ShopProduct) (ps : List Product)
    (made : products_from draw source 0 dummies ≡ some ps) where
  second_shops-IsOfOne :
      (key : ℕ) (used : List ℕ) (mapped : List (ℕ × ShopProduct))
      → IsMatching (length dummies) used mapped
      → All (IsOfOne ps) (second_shops draw shop_id key mapped)
  unfolding second_shops
  second_shops-IsOfOne key used [] m = tt
  second_shops-IsOfOne key used ((i, fake) ∷ mapped) m = (
    subst (λ k. any (λ p. p.id == draw k) ps ≡ true) (zero_plus i)
        (id_of_draw draw source 0 i dummies made m.1),
    second_shops-IsOfOne (key + 1) (i ∷ used) mapped m.2,
  )
    where
      zero_plus : (i : ℕ) → 0 + i ≡ i
      zero_plus i = omega arith

-- What the commit of the products leaves: all of them with their shops, or nothing.
abbrev pub Seeds : ℕ → ℕ → List ShopProduct → World → Result (Unit {0}) × World → Type 0
Seeds dummyjson_id fakestore_id dummies w (ok u, w') =
    (ps : List Product) × (first second : List ProductShop) × (w'.db ≡ record w.db {
      products = w.db.products ++ ps;
      product_shops = w.db.product_shops ++ (first ++ second);
    })
    × AreFrom dummyjson_id ps first dummies
    × All (IsOfOne ps) second
    × All (λ s. s.shop_id ≡ fakestore_id) second
Seeds dummyjson_id fakestore_id dummies w (err e, w') = w'.db ≡ w.db

second_shops-shop_id :
    (draw : ℕ → ℕ) (shop_id key : ℕ) (mapped : List (ℕ × ShopProduct))
    → All (λ s. s.shop_id ≡ shop_id) (second_shops draw shop_id key mapped)
unfolding second_shops
second_shops-shop_id draw shop_id key [] = tt
second_shops-shop_id draw shop_id key ((i, fake) ∷ mapped) =
    (refl, second_shops-shop_id draw shop_id (key + 1) mapped)

module _ (env : Env) (from : Sources) where
  commit-Seeds :
      (a b : ℕ) (dummies : List ShopProduct) (w : World) (ps : List Product)
      (first second : List ProductShop)
      → AreFrom a ps first dummies
      → All (IsOfOne ps) second
      → All (λ s. s.shop_id ≡ b) second
      → Seeds a b dummies w (commit_products env from (some ps) (first ++ second) w)
  unfolding commit_products commit
  commit-Seeds a b dummies w ps first second f g h = decided (from.commits after)
    where
      after : Database
      after = record w.db {
        products = w.db.products ++ ps;
        product_shops = w.db.product_shops ++ (first ++ second);
      }

      decided :
          (taken : Bool)
          → Seeds a b dummies w
              (if taken then (ok tt, record w { db = after }) else (err integrity_error, w))
      decided true = (ps, first, second, refl, f, g, h)
      decided false = refl

  commit_products-Seeds :
      (a b : ℕ) (dummies fakes : List ShopProduct) (w : World) (made : Option (List Product))
      → products_from from.draw a 0 dummies ≡ made
      → Seeds a b dummies w (
          commit_products env from made
            (first_shops from.draw a from.next_product_shop_id 0 dummies
              ++ second_shops from.draw b
                  (from.next_product_shop_id + length dummies)
                  (map_by_nearest_price dummies fakes))
            w)
  unfolding commit_products
  commit_products-Seeds a b dummies fakes w none e = refl
  commit_products-Seeds a b dummies fakes w (some ps) e =
      let mapped = map_by_nearest_price dummies fakes in
      let key = from.next_product_shop_id + length dummies in
      commit-Seeds a b dummies w ps (first_shops from.draw a from.next_product_shop_id 0 dummies)
        (second_shops from.draw b key mapped)
        (products_from-AreFrom from.draw a from.next_product_shop_id 0 dummies e)
        (second_shops-IsOfOne from.draw a b dummies ps e key [] mapped
          (map_by_nearest_price-IsMatching dummies fakes))
        (second_shops-shop_id from.draw b key mapped)

  -- If both shops are known and both answer, the seed adds a product for every product of DummyJSON,
  -- in its order, each with a row of that shop, and behind these rows of FakeStore that each belong
  -- to one of the added products; or it raises, and the database is as the answers left it.
  pub seed_products_lem :
      (shop_ids : List (String × ℕ)) (w : World) {a b : ℕ} {dummies fakes : List ShopProduct}
      {w1 w2 : World}
      → id_for dummyjson_key shop_ids ≡ ok a
      → id_for fakestore_key shop_ids ≡ ok b
      → from.fetch_dummyjson w ≡ (ok dummies, w1)
      → from.fetch_fakestore w1 ≡ (ok fakes, w2)
      → Seeds a b dummies w2 (seed_products env from shop_ids w)
  unfolding seed_products
  seed_products_lem shop_ids w {a} {b} {dummies} {fakes} {w1} {w2} i j d f =
      rw i (rw j (rw d (rw f (commit_products-Seeds a b dummies fakes w2 _ refl))))
