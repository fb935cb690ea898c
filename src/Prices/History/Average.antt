-- ===== src/Prices/History/Average.antt =====
-- The average of the price history: one point for each day that has a row.
use price_monitoring_service.Prelude.{
  ℕ, ◌+◌, ◌-◌, ◌≡◌, refl, ap, ◌∙◌, subst, Bool, false, ◌||◌, List, [], ◌∷◌, All, any, ◌==◌, arith,
  Bool-cases, inl, inr, some,
}
use price_monitoring_service.Decimal.{Decimal, quantize, div}
use price_monitoring_service.Decimal.Quantize.{IsMoney, quantize-IsMoney}
use price_monitoring_service.Exec.{Result, ok, err}
use price_monitoring_service.Env.{Env}
use price_monitoring_service.Schemas.{Currency, PriceHistoryPoint, PriceHistorySeries}
use price_monitoring_service.Models.{World}
use price_monitoring_service.Currency.Service.{convert}
use price_monitoring_service.Prices.Latest.{day_length, utc_day_start}
use price_monitoring_service.Prices.Sort.{sorted}
use price_monitoring_service.Prices.Sort.Ascending.{
  by_key, has_key, IsAscending, IsDistinct, any-sorted, sorted-IsAscending,
}
use price_monitoring_service.Prices.Detail.Money.{Yields, Yields-resume}
use price_monitoring_service.Prices.History.Query.{HistoryRow, get_history}
use price_monitoring_service.Prices.History.Series.{IsMoneyPoint}
use price_monitoring_service.Prices.History.{
  append_point, append_price, Daily, average, quantized, averages, by_date, history_each,
  build_history, get_price_history,
}

abbrev day_of : ℕ × List Decimal → ℕ
day_of entry = entry.0

abbrev pub date_of : PriceHistoryPoint → ℕ
date_of p = p.date

any-append_price :
    (k d : ℕ) (price : Decimal) (daily : Daily)
    → any (has_key day_of k) (append_price d price daily) ≡ (any (has_key day_of k) daily || d == k)
unfolding append_price
any-append_price k d price [] = ground arith
any-append_price k d price ((e, prices) ∷ daily) = ground (arith, any-append_price k d price daily)

append_price-IsDistinct :
    (d : ℕ) (price : Decimal) (daily : Daily)
    → IsDistinct day_of daily
    → IsDistinct day_of (append_price d price daily)
unfolding append_price
append_price-IsDistinct d price [] h = (refl, tt)
append_price-IsDistinct d price ((e, prices) ∷ daily) h = elim (Bool-cases (e == d)) [
  | inl same ↦ rw same h
  | inr other ↦ rw other (
    any-append_price e d price daily ∙ ground (arith, h.0),
    append_price-IsDistinct d price daily h.1,
  )
]

-- whether a row has the day
abbrev pub on_day : ℕ → HistoryRow → Bool
on_day k row = row.day == k

-- the days of a dictionary are different, and the day given is there in the given case
abbrev HasDays : ℕ → Bool → Daily → Type 0
HasDays k there daily = IsDistinct day_of daily × (any (has_key day_of k) daily ≡ there)

average-IsMoney : (prices : List Decimal) (w : World) → Yields IsMoney (average prices, w)
unfolding average
average-IsMoney prices w = quantized-IsMoney (div _ _)
  where
    of_quantize : (q : Decimal) (r : Result Decimal) → quantize q ≡ r → Yields IsMoney (r, w)
    of_quantize q (ok m) e = quantize-IsMoney q e
    of_quantize q (err x) e = tt

    quantized-IsMoney : (r : Result Decimal) → Yields IsMoney (quantized r, w)
    quantized-IsMoney (ok q) = of_quantize q (quantize q) refl
    quantized-IsMoney (err x) = tt

-- points with the days of the dictionary, in its order, and prices that are money
abbrev AreAverages : Daily → List PriceHistoryPoint → Type 0
AreAverages [] [] = Unit
AreAverages [] (p ∷ points) = ⊥
AreAverages (entry ∷ daily) [] = ⊥
AreAverages (entry ∷ daily) (p ∷ points) =
    (p.date ≡ entry.0) × IsMoneyPoint p × AreAverages daily points

averages-AreAverages : (daily : Daily) (w : World) → Yields (AreAverages daily) (averages daily w)
unfolding averages
averages-AreAverages [] w = tt
averages-AreAverages ((d, prices) ∷ daily) w =
    Yields-resume IsMoney (AreAverages ((d, prices) ∷ daily)) _ (average prices, w)
      (average-IsMoney prices w)
      λ price w1 money.
        Yields-resume (AreAverages daily) (AreAverages ((d, prices) ∷ daily)) _ (averages daily w1)
          (averages-AreAverages daily w1) λ rest w2 more. (refl, money, more)

-- The average: its days ascend strictly, the day given is there in the given case, and the prices
-- are amounts of money.
abbrev pub IsAverage : ℕ → Bool → List PriceHistoryPoint → Type 0
IsAverage k there points =
    IsAscending date_of points × (any (has_key date_of k) points ≡ there) × All IsMoneyPoint points

AreAverages-IsAscending :
    (daily : Daily) (points : List PriceHistoryPoint)
    → AreAverages daily points
    → IsAscending day_of daily
    → IsAscending date_of points
AreAverages-IsAscending [] [] a s = tt
AreAverages-IsAscending [] (p ∷ points) a s = absurd a
AreAverages-IsAscending (e ∷ daily) [] a s = absurd a
AreAverages-IsAscending (e ∷ []) (p ∷ []) a s = tt
AreAverages-IsAscending (e ∷ []) (p ∷ q ∷ points) a s = absurd a.2
AreAverages-IsAscending (e ∷ f ∷ daily) (p ∷ []) a s = absurd a.2
AreAverages-IsAscending (e ∷ f ∷ daily) (p ∷ q ∷ points) a s =
    (rw (a.0, a.2.0) s.0, AreAverages-IsAscending (f ∷ daily) (q ∷ points) a.2 s.1)

AreAverages-any :
    (k : ℕ) (daily : Daily) (points : List PriceHistoryPoint)
    → AreAverages daily points
    → any (has_key date_of k) points ≡ any (has_key day_of k) daily
AreAverages-any k [] [] a = refl
AreAverages-any k [] (p ∷ points) a = absurd a
AreAverages-any k (e ∷ daily) [] a = absurd a
AreAverages-any k (e ∷ daily) (p ∷ points) a = rw (a.0, AreAverages-any k daily points a.2) refl

AreAverages-money :
    (daily : Daily) (points : List PriceHistoryPoint)
    → AreAverages daily points
    → All IsMoneyPoint points
AreAverages-money [] [] a = tt
AreAverages-money [] (p ∷ points) a = absurd a
AreAverages-money (e ∷ daily) [] a = absurd a
AreAverages-money (e ∷ daily) (p ∷ points) a = (a.1, AreAverages-money daily points a.2)

module _ (env : Env) (currency : Currency) (k : ℕ) where
  history_each-HasDays :
      (rows : List HistoryRow) (there : Bool) (series : List PriceHistorySeries) (daily : Daily)
      (w : World)
      → HasDays k there daily
      → Yields
          (λ both. HasDays k (there || any (on_day k) rows) both.1)
          (history_each env currency rows series daily w)
  unfolding history_each
  history_each-HasDays [] there series daily w h = (h.0, h.1 ∙ ground arith)
  history_each-HasDays (row ∷ rows) there series daily w h =
      Yields-resume (λ price. Unit)
        (λ both. HasDays k (there || any (on_day k) (row ∷ rows)) both.1) _
        (convert env row.avg_price_usd currency (some row.day) w) (anything _)
        λ price w1 u.
          subst
            (λ (b : Bool).
              Yields (λ (both : List PriceHistorySeries × Daily). HasDays k b both.1)
                (history_each env currency rows
                  (append_point row.shop_name (record { date = row.day; price = price }) series)
                  (append_price row.day price daily) w1))
            after_row
            (history_each-HasDays rows (there || row.day == k) _ (append_price row.day price daily)
              w1
              (
                append_price-IsDistinct row.day price daily h.0,
                any-append_price k row.day price daily ∙ ap (λ b. b || row.day == k) h.1,
              ))
    where
      after_row :
          ((there || row.day == k) || any (on_day k) rows) ≡ (there || any (on_day k) (row ∷ rows))
      after_row = ground arith

      anything : (o : Result Decimal × World) → Yields (λ price. Unit) o
      anything (ok price, w1) = tt
      anything (err e, w1) = tt

  averages-IsAverage :
      (there : Bool) (daily : Daily) (w : World)
      → HasDays k there daily
      → Yields (IsAverage k there) (averages (by_date daily) w)
  unfolding by_date
  averages-IsAverage there daily w h =
      of_averages (averages (by_date daily) w) (averages-AreAverages (by_date daily) w)
    where
      of_averages :
          (o : Result (List PriceHistoryPoint) × World)
          → Yields (AreAverages (sorted (by_key day_of) daily)) o
          → Yields (IsAverage k there) o
      of_averages (ok points, w1) a = (
        AreAverages-IsAscending (sorted (by_key day_of) daily) points a
            (sorted-IsAscending day_of daily h.0),
        AreAverages-any k (sorted (by_key day_of) daily) points a ∙ any-sorted day_of k daily ∙ h.1,
        AreAverages-money (sorted (by_key day_of) daily) points a,
      )
      of_averages (err e, w1) a = tt

  -- If the history is returned, the days of its average ascend strictly, a day is among them exactly
  -- if it has a row, and the prices are amounts of money.
  pub get_price_history_average :
      (product_id date_from date_to : ℕ) (w : World)
      → Yields
          (λ r.
            IsAverage k
              (any (on_day k) (
                get_history env product_id
                  (utc_day_start date_from)
                  (utc_day_start date_to + (day_length - 1))
                  w))
              r.average)
          (get_price_history env product_id currency date_from date_to w)
  unfolding get_price_history build_history
  get_price_history_average product_id date_from date_to w =
      let rows : List HistoryRow =
        get_history env product_id (utc_day_start date_from)
          (utc_day_start date_to + (day_length - 1)) w in
      Yields-resume (λ both. HasDays k (any (on_day k) rows) both.1)
        (λ r. IsAverage k (any (on_day k) rows) r.average) _
        (history_each env currency rows [] [] w)
        (history_each-HasDays rows false [] [] w (tt, refl))
        λ both w1 h.
          Yields-resume (IsAverage k (any (on_day k) rows))
            (λ r. IsAverage k (any (on_day k) rows) r.average) _ (averages (by_date both.1) w1)
            (averages-IsAverage (any (on_day k) rows) both.1 w1 h) λ points w2 a. a
