-- ===== src/Prices/Detail/Money.antt =====
-- The prices on the cards, and the current prices.
use price_monitoring_service.Prelude.{
  ℕ, suc, ◌≡◌, refl, Option, none, some, List, [], ◌∷◌, All, length, ap, Bool-cases, inl, inr,
}
use price_monitoring_service.Decimal.{Decimal}
use price_monitoring_service.Decimal.Quantize.{IsMoney}
use price_monitoring_service.Exec.{Exec, Result, ok, err, resume}
use price_monitoring_service.Env.{Env}
use price_monitoring_service.Schemas.{Currency, ProductDetail, ShopPriceItem}
use price_monitoring_service.Models.{World}
use price_monitoring_service.Currency.Service.{convert}
use price_monitoring_service.Currency.Convert.{PaysMoney, convert-IsMoney}
use price_monitoring_service.Watchlist.{product_exists}
use price_monitoring_service.Prices.Detail.{
  DetailRow, PriceRow, price_each, prices_or_raise, current_prices, get_current_prices, convert_opt,
  product_detail, detail_each, get_watchlist_details, list_watchlist_details,
}

-- no price, or an amount of money
abbrev pub IsPrice : Option Decimal → Type 0
IsPrice none = Unit
IsPrice (some d) = IsMoney d

-- a card in the currency, with its prices as money
abbrev pub IsCard : Currency → ProductDetail → Type 0
IsCard currency d = (d.currency ≡ currency) × IsPrice d.price_min × IsPrice d.price_max

-- an outcome with the property, or an exception
abbrev pub Yields : {A : Type 0} → (A → Type 0) → Result A × World → Type 0
Yields P (ok a, w) = P a
Yields P (err e, w) = Unit

pub Yields-resume :
    {A B : Type 0} (P : A → Type 0) (Q : B → Type 0) (f : A → Exec World B) (o : Result A × World)
    → Yields P o
    → ((a : A) (w : World) → P a → Yields Q (f a w))
    → Yields Q (resume f o)
Yields-resume P Q f (ok a, w) p h = h a w p
Yields-resume P Q f (err e, w) p h = tt

pub PaysMoney-Yields : (o : Result Decimal × World) → PaysMoney o → Yields IsMoney o
PaysMoney-Yields (ok r, w) h = h
PaysMoney-Yields (err e, w) h = tt

-- a shop's price in the currency, as money
abbrev pub IsItem : Currency → ShopPriceItem → Type 0
IsItem currency i = (i.currency ≡ currency) × IsMoney i.price

module _ (env : Env) (currency : Currency) where
  pub convert_opt-IsPrice :
      (o : Option Decimal) (w : World) → Yields IsPrice (convert_opt env o currency w)
  unfolding convert_opt
  convert_opt-IsPrice none w = tt
  convert_opt-IsPrice (some amount) w =
      Yields-resume IsMoney IsPrice _ (convert env amount currency none w)
        (PaysMoney-Yields (convert env amount currency none w)
          (convert-IsMoney env amount none currency w))
        λ d v h. h

  product_detail-IsCard :
      (row : DetailRow) (w : World) → Yields (IsCard currency) (product_detail env currency row w)
  unfolding product_detail
  product_detail-IsCard row w =
      Yields-resume IsPrice (IsCard currency) _ (convert_opt env row.price_min currency w)
        (convert_opt-IsPrice row.price_min w)
        λ lo w1 lo_ok.
          Yields-resume IsPrice (IsCard currency) _ (convert_opt env row.price_max currency w1)
            (convert_opt-IsPrice row.price_max w1) λ hi w2 hi_ok. (refl, lo_ok, hi_ok)

  -- a card for every row
  abbrev pub AreCards : ℕ → List ProductDetail → Type 0
  AreCards n cards = (length cards ≡ n) × All (IsCard currency) cards

  detail_each-AreCards :
      (rows : List DetailRow) (w : World)
      → Yields (AreCards (length rows)) (detail_each env currency rows w)
  unfolding detail_each
  detail_each-AreCards [] w = (refl, tt)
  detail_each-AreCards (row ∷ rows) w =
      Yields-resume (IsCard currency) (AreCards (length (row ∷ rows))) _
        (product_detail env currency row w) (product_detail-IsCard row w)
        λ d w1 card.
          Yields-resume (AreCards (length rows)) (AreCards (length (row ∷ rows))) _
            (detail_each env currency rows w1) (detail_each-AreCards rows w1)
            λ rest w2 cards. (ap suc cards.0, (card, cards.1))

  -- If the watchlist's cards are returned, there is one for each row of the query, each in the
  -- currency asked for, and each price has four digits after the point and at most 28 digits.
  pub get_watchlist_details-AreCards :
      (user_id : ℕ) (w : World)
      → Yields
          (AreCards (length (list_watchlist_details env user_id w)))
          (get_watchlist_details env user_id currency w)
  unfolding get_watchlist_details
  get_watchlist_details-AreCards user_id w =
      detail_each-AreCards (list_watchlist_details env user_id w) w

  -- an item for every row
  abbrev pub AreItems : ℕ → List ShopPriceItem → Type 0
  AreItems n items = (length items ≡ n) × All (IsItem currency) items

  price_each-AreItems :
      (rows : List PriceRow) (w : World)
      → Yields (AreItems (length rows)) (price_each env currency rows w)
  unfolding price_each
  price_each-AreItems [] w = (refl, tt)
  price_each-AreItems (row ∷ rows) w =
      Yields-resume IsMoney (AreItems (length (row ∷ rows))) _
        (convert env row.price_usd currency none w)
        (PaysMoney-Yields (convert env row.price_usd currency none w)
          (convert-IsMoney env row.price_usd none currency w))
        λ d w1 money.
          Yields-resume (AreItems (length rows)) (AreItems (length (row ∷ rows))) _
            (price_each env currency rows w1) (price_each-AreItems rows w1)
            λ rest w2 items. (ap suc items.0, ((refl, money), items.1))

  prices_or_raise-AreItems :
      (product_id : ℕ) (rows : List PriceRow) (w : World)
      → Yields (AreItems (length rows)) (prices_or_raise env product_id currency rows w)
  unfolding prices_or_raise
  prices_or_raise-AreItems product_id [] w = elim (Bool-cases (product_exists product_id w)) [
    | inl known ↦ rw known (refl, tt)
    | inr unknown ↦ rw unknown tt
  ]
  prices_or_raise-AreItems product_id (row ∷ rows) w = price_each-AreItems (row ∷ rows) w

  -- If the current prices are returned, there is one for each row of the query, each in the
  -- currency asked for, and each price has four digits after the point and at most 28 digits.
  pub get_current_prices-AreItems :
      (product_id : ℕ) (w : World)
      → Yields
          (AreItems (length (current_prices env product_id w)))
          (get_current_prices env product_id currency w)
  unfolding get_current_prices
  get_current_prices-AreItems product_id w =
      prices_or_raise-AreItems product_id (current_prices env product_id w) w
