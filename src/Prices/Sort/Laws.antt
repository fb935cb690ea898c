-- ===== src/Prices/Sort/Laws.antt =====
-- The sorted list of products: a permutation, sorted by the test of its option, and stable.
use mathlib.Core.List.{Perm}
use mathlib.Core.List.Perm
use price_monitoring_service.Prelude.{
  length, ◌+◌, ◌≡◌, refl, ap, Bool, true, false, List, [], ◌∷◌, if◌then◌else◌, arith, filter,
  Bool-cases, inl, inr, ◌∙◌,
}
use price_monitoring_service.Decimal.{Decimal, lt}
use price_monitoring_service.Schemas.{SortOption, ProductListItem}
use price_monitoring_service.Prices.Sort.{insert, sorted, before, sort_items, key_lt, price_key}

module _ {A : Type 0} (less : A → A → Bool) where
  insert-perm : (x : A) (ys : List A) → Perm (insert less x ys) (x ∷ ys)
  unfolding insert
  insert-perm x [] = Perm.refl (x ∷ [])
  insert-perm x (y ∷ ys) = elim (Bool-cases (less y x)) [
    | inl e ↦ rw e (Perm.trans (Perm.cons y (insert-perm x ys)) (Perm.swap x y ys))
    | inr e ↦ rw e (Perm.refl (x ∷ y ∷ ys))
  ]

  pub sorted-perm : (xs : List A) → Perm (sorted less xs) xs
  unfolding sorted
  sorted-perm [] = Perm.refl []
  sorted-perm (x ∷ xs) = Perm.trans (insert-perm x (sorted less xs)) (Perm.cons x (sorted-perm xs))

  length-insert : (x : A) (ys : List A) → length (insert less x ys) ≡ length ys + 1
  unfolding insert
  length-insert x [] = omega arith
  length-insert x (y ∷ ys) = ground (arith, length-insert x ys)

  pub length-sorted : (xs : List A) → length (sorted less xs) ≡ length xs
  unfolding sorted
  length-sorted [] = refl
  length-sorted (x ∷ xs) = omega (arith, length-insert x (sorted less xs), length-sorted xs)

  -- no element goes strictly before the one in front of it
  abbrev pub IsSorted : List A → Type 0
  IsSorted [] = Unit
  IsSorted (x ∷ []) = Unit
  IsSorted (x ∷ y ∷ ys) = (less y x ≡ false) × IsSorted (y ∷ ys)

  abbrev HeadOk : A → List A → Type 0
  HeadOk x [] = Unit
  HeadOk x (y ∷ ys) = less y x ≡ false

  IsSorted-cons : (x : A) (ys : List A) → HeadOk x ys → IsSorted ys → IsSorted (x ∷ ys)
  IsSorted-cons x [] h s = tt
  IsSorted-cons x (y ∷ ys) h s = (h, s)

  IsSorted-tail : (x : A) (ys : List A) → IsSorted (x ∷ ys) → IsSorted ys × HeadOk x ys
  IsSorted-tail x [] s = (tt, tt)
  IsSorted-tail x (y ∷ ys) s = (s.1, s.0)

  module _ (asym : (x y : A) → less x y ≡ true → less y x ≡ false) where
    HeadOk-insert :
        (x y : A) (ys : List A) → less y x ≡ true → HeadOk y ys → HeadOk y (insert less x ys)
    unfolding insert
    HeadOk-insert x y [] e h = asym y x e
    HeadOk-insert x y (z ∷ ys) e h = elim (Bool-cases (less z x)) [
      | inl p ↦ rw p h
      | inr p ↦ rw p (asym y x e)
    ]

    insert-IsSorted : (x : A) (ys : List A) → IsSorted ys → IsSorted (insert less x ys)
    unfolding insert
    insert-IsSorted x [] s = tt
    insert-IsSorted x (y ∷ ys) s = elim (Bool-cases (less y x)) [
      | inl e ↦
          let t : IsSorted ys × HeadOk y ys = IsSorted-tail y ys s in
          rw e (
            IsSorted-cons y (insert less x ys) (HeadOk-insert x y ys e t.1)
              (insert-IsSorted x ys t.0))
      | inr e ↦ rw e (e, s)
    ]

    pub sorted-IsSorted : (xs : List A) → IsSorted (sorted less xs)
    unfolding sorted
    sorted-IsSorted [] = tt
    sorted-IsSorted (x ∷ xs) = insert-IsSorted x (sorted less xs) (sorted-IsSorted xs)

  module _ (p : A → Bool) (ties : (x y : A) → p x ≡ true → p y ≡ true → less y x ≡ false) where
    filter-insert : (x : A) (ys : List A) → filter p (insert less x ys) ≡ filter p (x ∷ ys)
    unfolding insert
    filter-insert x [] = refl
    filter-insert x (y ∷ ys) = ground (arith, ties x y, filter-insert x ys)

    pub filter-sorted : (xs : List A) → filter p (sorted less xs) ≡ filter p xs
    unfolding sorted
    filter-sorted [] = refl
    filter-sorted (x ∷ xs) =
        filter-insert x (sorted less xs)
        ∙ ap (λ rest. if p x then x ∷ rest else rest) (filter-sorted xs)

lt_asym : (a b : Decimal) → lt a b ≡ true → lt b a ≡ false
unfolding lt
lt_asym a b h = ground arith

key_lt_asym : (x y : Bool × Decimal) → key_lt x y ≡ true → key_lt y x ≡ false
key_lt_asym (false, a) (false, b) h = lt_asym a b h
key_lt_asym (false, a) (true, b) h = refl
key_lt_asym (true, a) (false, b) h = cc
key_lt_asym (true, a) (true, b) h = lt_asym a b h

before_asym : (s : SortOption) (x y : ProductListItem) → before s x y ≡ true → before s y x ≡ false
unfolding before
before_asym SortOption.price_asc x y h =
    key_lt_asym (price_key x.price_min) (price_key y.price_min) h
before_asym SortOption.price_desc x y h =
    key_lt_asym (price_key y.price_max) (price_key x.price_max) h
before_asym SortOption.trend_asc x y h = ground arith
before_asym SortOption.trend_desc x y h = ground arith

pub sort_items-IsSorted :
    (items : List ProductListItem) (s : SortOption) → IsSorted (before s) (sort_items items s)
unfolding sort_items
sort_items-IsSorted items s = sorted-IsSorted (before s) (before_asym s) items

pub sort_items-perm :
    (items : List ProductListItem) (s : SortOption) → Perm (sort_items items s) items
unfolding sort_items
sort_items-perm items s = sorted-perm (before s) items

-- The sort is stable: of any class of items of which none goes before another, the result has the
-- same items in the same order.
pub sort_items_stable :
    (items : List ProductListItem) (s : SortOption) (p : ProductListItem → Bool)
    → ((x y : ProductListItem) → p x ≡ true → p y ≡ true → before s y x ≡ false)
    → filter p (sort_items items s) ≡ filter p items
unfolding sort_items
sort_items_stable items s p ties = filter-sorted (before s) p ties items
