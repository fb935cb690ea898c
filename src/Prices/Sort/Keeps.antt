-- ===== src/Prices/Sort/Keeps.antt =====
-- What holds of the elements holds of the sorted ones.
use price_monitoring_service.Prelude.{Bool, List, [], ◌∷◌, All, Bool-cases, inl, inr}
use price_monitoring_service.Prices.Sort.{insert, sorted}

module _ {A : Type 0} (P : A → Type 0) (less : A → A → Bool) where
  All-insert : (x : A) (ys : List A) → P x → All P ys → All P (insert less x ys)
  unfolding insert
  All-insert x [] p h = (p, tt)
  All-insert x (y ∷ ys) p h = elim (Bool-cases (less y x)) [
    | inl e ↦ rw e (h.0, All-insert x ys p h.1)
    | inr e ↦ rw e (p, h)
  ]

  pub All-sorted : (xs : List A) → All P xs → All P (sorted less xs)
  unfolding sorted
  All-sorted [] h = tt
  All-sorted (x ∷ xs) h = All-insert x (sorted less xs) h.0 (All-sorted xs h.1)
