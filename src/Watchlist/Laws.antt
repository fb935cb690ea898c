-- ===== src/Watchlist/Laws.antt =====
-- The watchlist: what each call changes, on every branch, and that removing undoes adding.
use price_monitoring_service.Prelude.{
  ℕ, ◌≡◌, refl, ap, sym, ◌∙◌, Bool, true, false, not, ◌&&◌, ◌||◌, List, [], ◌∷◌, ◌++◌, ◌==◌,
  if◌then◌else◌, any, filter, length, any-append, arith, Bool-cases, inl, inr,
}
use price_monitoring_service.Exec.{Exception, Result, ok, err, not_found}
use price_monitoring_service.Models.{UserProduct, World}
use price_monitoring_service.Watchlist.{
  product_exists, is_row, tracks, set_user_products, add_row, delete_rows, add, found_some, remove,
}

abbrev pub same_row : ℕ → ℕ → ℕ → ℕ → Bool
same_row u p v q = u == v && p == q

pub tracks-add_row :
    (u p v q : ℕ) (w : World) → tracks v q (add_row u p w) ≡ (tracks v q w || same_row u p v q)
unfolding tracks
tracks-add_row u p v q w = any-append (is_row v q) w.db.user_products _ ∙ ground arith

-- No row is found among those that a delete leaves, and any other as before.
any-without :
    (u p v q : ℕ) (rows : List UserProduct)
    → any (is_row v q) (filter (λ row. not (is_row u p row)) rows)
      ≡ (any (is_row v q) rows && not (same_row u p v q))
any-without u p v q [] = refl
any-without u p v q (row ∷ rows) = ground (arith, any-without u p v q rows)

pub count-any :
    (u p : ℕ) (rows : List UserProduct)
    → (length (filter (is_row u p) rows) == 0) ≡ not (any (is_row u p) rows)
count-any u p [] = refl
count-any u p (row ∷ rows) = ground (arith, count-any u p rows)

filter-none :
    (u p : ℕ) (rows : List UserProduct)
    → any (is_row u p) rows ≡ false
    → filter (λ row. not (is_row u p row)) rows ≡ rows
filter-none u p [] h = refl
filter-none u p (row ∷ rows) h = ground (arith, filter-none u p rows)

already :
    (u p v q : ℕ) (w : World)
    → tracks u p w ≡ true
    → tracks v q w ≡ (tracks v q w || same_row u p v q)
already u p v q w h = ground arith

-- After `add`, whatever it returned, a product is tracked if it was, or if it is the one given,
-- of the user given, and is in the catalogue.
pub tracks-add :
    (u p v q : ℕ) (w : World)
    → tracks v q (add u p w).1 ≡ (tracks v q w || product_exists p w && same_row u p v q)
unfolding add
tracks-add u p v q w = elim (Bool-cases (product_exists p w)) [
  | inl known ↦ elim (Bool-cases (tracks u p w)) [
    | inl old ↦ rw known (rw old (already u p v q w old))
    | inr new ↦ rw known (rw new (tracks-add_row u p v q w))
  ]
  | inr unknown ↦ rw unknown (ground arith)
]

-- After `remove`, whatever it returned, the product given is not tracked by the user given, and
-- every other pair of a user and a product is tracked as before.
pub tracks-remove :
    (u p v q : ℕ) (w : World)
    → tracks v q (remove u p w).1 ≡ (tracks v q w && not (same_row u p v q))
unfolding remove tracks delete_rows
tracks-remove u p v q w =
    removed (length (filter (is_row u p) w.db.user_products))
    ∙ any-without u p v q w.db.user_products
  where
    removed :
        (n : ℕ)
        → any
            (is_row v q)
            (found_some n (
              set_user_products
                (filter (λ row. not (is_row u p row)) w.db.user_products)
                w)).1.db.user_products
          ≡ any (is_row v q) (filter (λ row. not (is_row u p row)) w.db.user_products)
    removed n = ground arith

-- `remove` raises exactly where the product is not tracked.
pub remove_result :
    (u p : ℕ) (w : World)
    → (remove u p w).0
      ≡ (if tracks u p w then ok tt else err (not_found "Product not in watchlist"))
unfolding remove tracks delete_rows
remove_result u p w = ground (arith, count-any u p w.db.user_products)

-- the three ends of `add`
add_ends :
    (known old : Bool) (e f : Exception) (w v w' : World)
    → ◌≡◌ {A = Result (Unit {0}) × World}
        (if not known then (err e, w) else if old then (err f, w) else (ok tt, v))
        (ok tt, w')
    → (old ≡ false) × (v ≡ w')
add_ends true false e f w v w' h = (refl, ap (λ (o : Result (Unit {0}) × World). o.1) h)
add_ends true true e f w v w' h = cc (ap (λ (o : Result (Unit {0}) × World). o.0) h)
add_ends false old e f w v w' h = cc (ap (λ (o : Result (Unit {0}) × World). o.0) h)

add-ok :
    (u p : ℕ) (w w' : World)
    → add u p w ≡ (ok tt, w')
    → (tracks u p w ≡ false) × (add_row u p w ≡ w')
unfolding add
add-ok u p w w' h = add_ends (product_exists p w) (tracks u p w) _ _ w (add_row u p w) w' h

without-append :
    (u p : ℕ) (rows : List UserProduct)
    → any (is_row u p) rows ≡ false
    → filter (λ row. not (is_row u p row)) (rows ++ record { user_id = u; product_id = p } ∷ [])
      ≡ rows
without-append u p [] h = ground arith
without-append u p (row ∷ rows) h = ground (arith, without-append u p rows)

count-append :
    (u p : ℕ) (rows : List UserProduct)
    → (length (filter (is_row u p) (rows ++ record { user_id = u; product_id = p } ∷ [])) == 0)
      ≡ false
count-append u p [] = ground arith
count-append u p (row ∷ rows) = ground (arith, count-append u p rows)

remove-add_row :
    (u p : ℕ) (w : World) → tracks u p w ≡ false → remove u p (add_row u p w) ≡ (ok tt, w)
unfolding remove delete_rows tracks
remove-add_row u p w new =
    rw (without-append u p w.db.user_products new) (rw (count-append u p w.db.user_products) refl)

-- A product that was added is removed again without a trace.
pub remove-add : (u p : ℕ) (w w' : World) → add u p w ≡ (ok tt, w') → remove u p w' ≡ (ok tt, w)
remove-add u p w w' h = let (new, e) = add-ok u p w w' h in rw (sym e) (remove-add_row u p w new)
