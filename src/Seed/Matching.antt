-- ===== src/Seed/Matching.antt =====
-- The matching by the nearest price.
use price_monitoring_service.Prelude.{
  ℕ, ◌+◌, ◌<◌, ◌≡◌, false, Option, none, some, List, [], ◌∷◌, length, arith, Bool-cases, inl, inr,
}
use price_monitoring_service.Decimal.{Decimal, lt, gap}
use price_monitoring_service.Adapters.{ShopProduct}
use price_monitoring_service.Seed.{is_used, closer, scan, map_next, map_each, map_by_nearest_price}

-- an index that may be taken: unused, and of a product
abbrev IsFree : List ℕ → ℕ → Option (ℕ × Decimal) → Type 0
IsFree used n none = Unit
IsFree used n (some (i, g)) = (is_used used i ≡ false) × (i < n)

closer-IsFree :
    (used : List ℕ) (n i : ℕ) (g : Decimal) (best : Option (ℕ × Decimal))
    → is_used used i ≡ false
    → i < n
    → IsFree used n best
    → IsFree used n (closer i g best)
unfolding closer
closer-IsFree used n i g none free lo h = (free, lo)
closer-IsFree used n i g (some (j, k)) free lo h = elim (Bool-cases (lt g k)) [
  | inl e ↦ rw e (free, lo)
  | inr e ↦ rw e h
]

scan-IsFree :
    (used : List ℕ) (price : Decimal) (n i : ℕ) (dummies : List ShopProduct)
    (best : Option (ℕ × Decimal))
    → i + length dummies ≡ n
    → IsFree used n best
    → IsFree used n (scan used price i dummies best)
unfolding scan
scan-IsFree used price n i [] best len h = h
scan-IsFree used price n i (dummy ∷ rest) best len h = elim (Bool-cases (is_used used i)) [
  | inl e ↦ rw e (scan-IsFree used price n (i + 1) rest best (omega arith) h)
  | inr e ↦ rw e (
      scan-IsFree used price n (i + 1) rest (closer i (gap dummy.price_usd price) best)
        (omega arith) (closer-IsFree used n i (gap dummy.price_usd price) best e (omega arith) h))
]

-- the entries' indices are of products, not among the used ones, and pairwise different
abbrev pub IsMatching : ℕ → List ℕ → List (ℕ × ShopProduct) → Type 0
IsMatching n used [] = Unit
IsMatching n used ((i, p) ∷ rest) =
    (is_used used i ≡ false) × (i < n) × IsMatching n (i ∷ used) rest

map_next-IsMatching :
    (n : ℕ) (used : List ℕ) (again : ℕ → List (ℕ × ShopProduct)) (fake : ShopProduct)
    (best : Option (ℕ × Decimal))
    → IsFree used n best
    → ((i : ℕ) → IsMatching n (i ∷ used) (again i))
    → IsMatching n used (map_next again fake best)
map_next-IsMatching n used again fake none free rest = tt
map_next-IsMatching n used again fake (some (i, g)) free rest = (free.0, free.1, rest i)

map_each-IsMatching :
    (dummies : List ShopProduct) (used : List ℕ) (fakes : List ShopProduct)
    → IsMatching (length dummies) used (map_each dummies used fakes)
unfolding map_each
map_each-IsMatching dummies used [] = tt
map_each-IsMatching dummies used (fake ∷ rest) =
    map_next-IsMatching (length dummies) used (λ i. map_each dummies (i ∷ used) rest) fake
      (scan used fake.price_usd 0 dummies none)
      (scan-IsFree used fake.price_usd (length dummies) 0 dummies none (omega arith) tt)
      λ i. map_each-IsMatching dummies (i ∷ used) rest

-- Every FakeStore product in the mapping stands at the index of a DummyJSON product, and no index
-- is taken twice.
pub map_by_nearest_price-IsMatching :
    (dummies fakes : List ShopProduct)
    → IsMatching (length dummies) [] (map_by_nearest_price dummies fakes)
unfolding map_by_nearest_price
map_by_nearest_price-IsMatching dummies fakes = map_each-IsMatching dummies [] fakes
