-- ===== src/Prices/Page.antt =====
-- The paging of `get_products_list`: `items[offset : offset + page_size]`.
use price_monitoring_service.Prelude.{
  sym, ◌∙◌, ℕ, zero, suc, ◌+◌, ◌-◌, ◌*◌, ◌≡◌, refl, List, [], ◌∷◌, ◌++◌, take, drop, length, arith,
  length-take, length-drop, min, ap,
}

-- The route asks for pages from 1 on. On page 0 the slice ends at 0 and begins before it: it is
-- empty.
unfoldable pub page_of {ℓ} : {A : Type ℓ} → ℕ → ℕ → List A → List A
page_of zero page_size items = []
page_of (suc n) page_size items = take page_size (drop (n * page_size) items)

-- the first pages, one after the other
abbrev pub pages {ℓ} : {A : Type ℓ} → ℕ → ℕ → List A → List A
pages zero page_size items = []
pages (suc n) page_size items = pages n page_size items ++ page_of (suc n) page_size items

suc_plus : (m n : ℕ) → suc m + n ≡ suc (m + n)
suc_plus m n = omega arith

module _ {A : Type 0} where
  take_nil : (n : ℕ) → take {A = A} n [] ≡ []
  take_nil zero = refl
  take_nil (suc n) = refl

  take_none : (k : ℕ) (xs : List A) → k ≡ 0 → [] ≡ take k xs
  take_none zero xs e = refl
  take_none (suc k) xs e = absurd (omega arith)

  take-add : (m n : ℕ) (xs : List A) → take (m + n) xs ≡ take m xs ++ take n (drop m xs)
  take-add zero n xs = let e : zero + n ≡ n = omega arith in ap (λ k. take k xs) e
  take-add (suc m) n [] = take_nil (suc m + n) ∙ sym (take_nil n)
  take-add (suc m) n (x ∷ xs) =
      ap (λ k. take k (x ∷ xs)) (suc_plus m n) ∙ ap (◌∷◌ x) (take-add m n xs)

  -- The first n pages are the first n * page_size items, in order.
  pub pages-eq-take :
      (n page_size : ℕ) (items : List A) → pages n page_size items ≡ take (n * page_size) items
  unfolding page_of
  pages-eq-take zero page_size items = take_none (zero * page_size) items (omega arith)
  pages-eq-take (suc n) page_size items =
      let next : n * page_size + page_size ≡ suc n * page_size = omega arith in
      ap (λ front. front ++ take page_size (drop (n * page_size) items))
        (pages-eq-take n page_size items)
      ∙ sym (take-add (n * page_size) page_size items)
      ∙ ap (λ k. take k items) next

  -- A page from the first on has at most `page_size` items, and one behind the last item is empty.
  pub length-page_of :
      (n page_size : ℕ) (items : List A)
      → length (page_of (suc n) page_size items) ≡ min page_size (length items - n * page_size)
  unfolding page_of
  length-page_of n page_size items =
      omega (
        arith,
        length-take page_size (drop (n * page_size) items),
        length-drop (n * page_size) items,
      )
