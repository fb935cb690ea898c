-- ===== src/Prices/Sort/Ascending.antt =====
-- A list sorted by a number that is different for all its elements is strictly ascending.
use price_monitoring_service.Prelude.{
  ℕ, ◌≡◌, refl, ◌∙◌, Bool, true, false, ◌||◌, List, [], ◌∷◌, ltb, ◌==◌, any, arith, Bool-cases, inl,
  inr,
}
use price_monitoring_service.Prices.Sort.{insert, sorted}

module _ {A : Type 0} (key : A → ℕ) where
  abbrev pub by_key : A → A → Bool
  by_key a b = ltb (key a) (key b)

  abbrev pub IsAscending : List A → Type 0
  IsAscending [] = Unit
  IsAscending (x ∷ []) = Unit
  IsAscending (x ∷ y ∷ ys) = (by_key x y ≡ true) × IsAscending (y ∷ ys)

  abbrev pub has_key : ℕ → A → Bool
  has_key k a = key a == k

  abbrev pub IsDistinct : List A → Type 0
  IsDistinct [] = Unit
  IsDistinct (x ∷ xs) = (any (has_key (key x)) xs ≡ false) × IsDistinct xs

  any-insert :
      (k : ℕ) (x : A) (ys : List A)
      → any (has_key k) (insert by_key x ys) ≡ (has_key k x || any (has_key k) ys)
  unfolding insert
  any-insert k x [] = refl
  any-insert k x (y ∷ ys) = ground (arith, any-insert k x ys)

  pub any-sorted : (k : ℕ) (xs : List A) → any (has_key k) (sorted by_key xs) ≡ any (has_key k) xs
  unfolding sorted
  any-sorted k [] = refl
  any-sorted k (x ∷ xs) = any-insert k x (sorted by_key xs) ∙ ground (arith, any-sorted k xs)

  abbrev Above : A → List A → Type 0
  Above x [] = Unit
  Above x (y ∷ ys) = by_key x y ≡ true

  IsAscending-cons : (x : A) (ys : List A) → Above x ys → IsAscending ys → IsAscending (x ∷ ys)
  IsAscending-cons x [] h s = tt
  IsAscending-cons x (y ∷ ys) h s = (h, s)

  IsAscending-tail : (x : A) (ys : List A) → IsAscending (x ∷ ys) → IsAscending ys × Above x ys
  IsAscending-tail x [] s = (tt, tt)
  IsAscending-tail x (y ∷ ys) s = (s.1, s.0)

  Above-insert :
      (x y : A) (ys : List A) → by_key y x ≡ true → Above y ys → Above y (insert by_key x ys)
  unfolding insert
  Above-insert x y [] e h = e
  Above-insert x y (z ∷ ys) e h = elim (Bool-cases (by_key z x)) [ inl p ↦ rw p h | inr p ↦ rw p e ]

  insert-IsAscending :
      (x : A) (ys : List A)
      → any (has_key (key x)) ys ≡ false
      → IsAscending ys
      → IsAscending (insert by_key x ys)
  unfolding insert
  insert-IsAscending x [] new s = tt
  insert-IsAscending x (y ∷ ys) new s = elim (Bool-cases (by_key y x)) [
    | inl e ↦
        let t : IsAscending ys × Above y ys = IsAscending-tail y ys s in
        rw e (
          IsAscending-cons y (insert by_key x ys) (Above-insert x y ys e t.1)
            (insert-IsAscending x ys (ground (arith, new)) t.0))
    | inr e ↦ rw e (ground (arith, new), s)
  ]

  pub sorted-IsAscending : (xs : List A) → IsDistinct xs → IsAscending (sorted by_key xs)
  unfolding sorted
  sorted-IsAscending [] d = tt
  sorted-IsAscending (x ∷ xs) d =
      insert-IsAscending x (sorted by_key xs) (any-sorted (key x) xs ∙ d.0)
        (sorted-IsAscending xs d.1)
