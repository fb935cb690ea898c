-- ===== src/Prices/Quoted/Cards.antt =====
-- The cards of the watchlist and the current prices of a product, with known rates.
use price_monitoring_service.Prelude.{
  Option, some, subst, arith, Pairs, ℕ, ◌+◌, ◌≤◌, ◌≡◌, refl, none, List, [], ◌∷◌, All, true,
}
use price_monitoring_service.Decimal.Bounds.{AtMost}
use price_monitoring_service.Schemas.{Currency, ProductDetail, ShopPriceItem}
use price_monitoring_service.Env.{Env}
use price_monitoring_service.Models.{World}
use price_monitoring_service.Currency.Service.{convert}
use price_monitoring_service.Currency.Known.{
  SameRates, SameRates-refl, SameRates-trans, Settles, Settles-resume, settled,
}
use price_monitoring_service.Currency.Quoted.{IsRated}
use price_monitoring_service.Prices.Detail.{
  head, detail_or_raise, get_detail, get_product_detail, DetailRow, PriceRow, product_detail,
  detail_each, price_each, prices_or_raise, current_prices, get_current_prices,
  get_watchlist_details, list_watchlist_details,
}
use price_monitoring_service.Prices.Quoted.{
  IsBoundedRow, IsQuoted, IsQuotedOpt, convert_today, both-quoted,
}
use price_monitoring_service.Prices.Quoted.Rows.{HasBounds, detail_rows-bounds, price_rows-bounds}
use price_monitoring_service.Watchlist.{product_exists}

module _ (env : Env) (currency : Currency) (w0 : World) where
  -- a card of a row
  abbrev pub IsCardOf : DetailRow → ProductDetail → Type 0
  IsCardOf row d =
      (d.id ≡ row.id)
      × (d.currency ≡ currency)
      × (d.shops_count ≡ row.shops_count)
      × IsQuotedOpt env currency w0 row.price_min d.price_min
      × IsQuotedOpt env currency w0 row.price_max d.price_max

  -- the price of a shop
  abbrev pub IsItemOf : PriceRow → ShopPriceItem → Type 0
  IsItemOf row i =
      (i.shop_name ≡ row.shop_name)
      × (i.currency ≡ currency)
      × (i.last_updated ≡ row.recorded_at)
      × IsQuoted env currency w0 row.price_usd i.price

  module _ (k u l : ℕ) (small : k + u + l ≤ 23) (rated : IsRated u l env.today w0) where
    product_detail-quoted :
        (row : DetailRow) (w : World)
        → IsBoundedRow k row
        → SameRates w0 w
        → Settles (IsCardOf row) w (product_detail env currency row w)
    unfolding product_detail
    product_detail-quoted row w (bl, bh) s =
        both-quoted env currency w0 k u l small rated (IsCardOf row) row.price_min row.price_max _ w
          bl bh s λ a b v s1 qa qb. settled (IsCardOf row) _ v (refl, refl, refl, qa, qb)

    detail_each-quoted :
        (rows : List DetailRow) (w : World)
        → All (IsBoundedRow k) rows
        → SameRates w0 w
        → Settles (Pairs IsCardOf rows) w (detail_each env currency rows w)
    unfolding detail_each
    detail_each-quoted [] w b s = settled (Pairs IsCardOf []) [] w tt
    detail_each-quoted (row ∷ rows) w (b, bs) s =
        Settles-resume (IsCardOf row) (Pairs IsCardOf (row ∷ rows)) _ w
          (product_detail env currency row w) (product_detail-quoted row w b s)
          λ d w1 s1 card.
            Settles-resume (Pairs IsCardOf rows) (Pairs IsCardOf (row ∷ rows)) _ w1
              (detail_each env currency rows w1)
              (detail_each-quoted rows w1 bs (SameRates-trans s s1))
              λ rest w2 s2 cards. settled (Pairs IsCardOf (row ∷ rows)) (d ∷ rest) w2 (card, cards)

    price_each-quoted :
        (rows : List PriceRow) (w : World)
        → All (λ r. AtMost k r.price_usd) rows
        → SameRates w0 w
        → Settles (Pairs IsItemOf rows) w (price_each env currency rows w)
    unfolding price_each
    price_each-quoted [] w b s = settled (Pairs IsItemOf []) [] w tt
    price_each-quoted (row ∷ rows) w (b, bs) s =
        Settles-resume (IsQuoted env currency w0 row.price_usd) (Pairs IsItemOf (row ∷ rows)) _ w
          (convert env row.price_usd currency none w)
          (convert_today env currency w0 k u l small rated row.price_usd w b s)
          λ price w1 s1 q.
            Settles-resume (Pairs IsItemOf rows) (Pairs IsItemOf (row ∷ rows)) _ w1
              (price_each env currency rows w1)
              (price_each-quoted rows w1 bs (SameRates-trans s s1))
              λ rest w2 s2 items.
                settled (Pairs IsItemOf (row ∷ rows)) (_ ∷ rest) w2 ((refl, refl, refl, q), items)

    module _ (bounds : HasBounds k w0.db.price_history) where
      -- If every recorded price is at most 10 ^ k dollars, every currency has a known rate for today,
      -- of at most 10 ^ u, not zero and of at most l digits after the point, and k + u + l is at
      -- most 23, the watchlist's cards are returned: one for each row of the query and in that order,
      -- each with the row's id and number of shops, the currency asked for and its prices at today's
      -- rates. At most Redis changes, and no rate that is known does.
      pub get_watchlist_details-quoted :
          (user_id : ℕ)
          → Settles
              (Pairs IsCardOf (list_watchlist_details env user_id w0))
              w0
              (get_watchlist_details env user_id currency w0)
      unfolding get_watchlist_details list_watchlist_details
      get_watchlist_details-quoted user_id =
          detail_each-quoted (list_watchlist_details env user_id w0) w0
            (detail_rows-bounds k env w0.db bounds _) (SameRates-refl w0)

      -- the row that a query finds is one of its rows
      head-bounds :
          (rows : List DetailRow) {row : DetailRow}
          → All (IsBoundedRow k) rows
          → head env rows ≡ some row
          → IsBoundedRow k row
      head-bounds [] b e = absurd (cc)
      head-bounds (r ∷ rows) {row} b e =
          let same : r ≡ row = ground (arith, e) in subst (IsBoundedRow k) same b.0

      detail_or_raise-quoted :
          (o : Option DetailRow) {row : DetailRow}
          → o ≡ some row
          → IsBoundedRow k row
          → Settles (IsCardOf row) w0 (detail_or_raise env currency o w0)
      unfolding detail_or_raise
      detail_or_raise-quoted o {row} e b = rw e (product_detail-quoted row w0 b (SameRates-refl w0))

      -- With prices and rates that are bounded like this, the card of a product of which the query
      -- has a row is returned.
      pub get_product_detail-quoted :
          (product_id : ℕ) {row : DetailRow}
          → get_detail env product_id w0 ≡ some row
          → Settles (IsCardOf row) w0 (get_product_detail env product_id currency w0)
      unfolding get_product_detail get_detail
      get_product_detail-quoted product_id e =
          detail_or_raise-quoted (get_detail env product_id w0) e
            (head-bounds _ (detail_rows-bounds k env w0.db bounds _) e)

      prices_or_raise-quoted :
          (product_id : ℕ) (rows : List PriceRow)
          → All (λ r. AtMost k r.price_usd) rows
          → product_exists product_id w0 ≡ true
          → Settles (Pairs IsItemOf rows) w0 (prices_or_raise env product_id currency rows w0)
      unfolding prices_or_raise
      prices_or_raise-quoted product_id [] b known = rw known (settled (Pairs IsItemOf []) [] w0 tt)
      prices_or_raise-quoted product_id (row ∷ rows) b known =
          price_each-quoted (row ∷ rows) w0 b (SameRates-refl w0)

      -- With prices and rates that are bounded like this, the current prices of a product that
      -- exists are returned: one for each row of the query and in that order, each with the row's
      -- shop and moment, the currency asked for and the price at today's rates. At most Redis
      -- changes, and no rate that is known does.
      pub get_current_prices-quoted :
          (product_id : ℕ)
          → product_exists product_id w0 ≡ true
          → Settles
              (Pairs IsItemOf (current_prices env product_id w0))
              w0
              (get_current_prices env product_id currency w0)
      unfolding get_current_prices current_prices
      get_current_prices-quoted product_id known =
          prices_or_raise-quoted product_id (current_prices env product_id w0)
            (price_rows-bounds k env w0.db bounds product_id w0.db.product_shops) known
