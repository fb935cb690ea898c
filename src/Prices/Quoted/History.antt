-- ===== src/Prices/Quoted/History.antt =====
-- The price history with known rates: no conversion and no average of a day raises.
use price_monitoring_service.Prelude.{
  ℕ, suc, ◌+◌, ◌-◌, ◌^◌, ◌≤◌, ◌<◌, ◌≡◌, ap, subst, some, List, [], ◌∷◌, All, All-append, length,
  length-append, ◌==◌, Bool-cases, inl, inr, arith,
}
use price_monitoring_service.Decimal.{Decimal}
use price_monitoring_service.Decimal.Bounds.{AtMost, IsAmount}
use price_monitoring_service.Schemas.{Currency, PriceHistorySeries}
use price_monitoring_service.Env.{Env}
use price_monitoring_service.Models.{World}
use price_monitoring_service.Currency.Service.{convert}
use price_monitoring_service.Currency.Known.{
  Any, SameRates, SameRates-refl, SameRates-trans, Settles, Settles-resume, settled,
}
use price_monitoring_service.Currency.Quoted.{IsRated, IsRated-SameRates, convert-quoted}
use price_monitoring_service.Prices.Latest.{day_length, utc_day_start}
use price_monitoring_service.Prices.Sort.Keeps.{All-sorted}
use price_monitoring_service.Prices.History.Query.{HistoryRow, get_history}
use price_monitoring_service.Prices.History.{
  Daily, append_point, append_price, average, averages, by_date, history_each, build_history,
  get_price_history,
}
use price_monitoring_service.Prices.History.Total.{average_returns}

module _ (n : ℕ) where
  -- the prices of a day: some, at most m, and each of at most 10 ^ n
  abbrev IsDay : ℕ → ℕ × List Decimal → Type 0
  IsDay m (d, prices) = (0 < length prices) × (length prices ≤ m) × All (IsAmount n) prices

  IsDay-suc : (m : ℕ) (daily : Daily) → All (IsDay m) daily → All (IsDay (suc m)) daily
  IsDay-suc m [] h = tt
  IsDay-suc m (e ∷ daily) h = ((h.0.0, omega (arith, h.0.1), h.0.2), IsDay-suc m daily h.1)

  append_price-IsDay :
      (m d : ℕ) (price : Decimal) (daily : Daily)
      → IsAmount n price
      → All (IsDay m) daily
      → All (IsDay (suc m)) (append_price d price daily)
  unfolding append_price
  append_price-IsDay m d price [] a h = ((omega arith, omega arith, (a, tt)), tt)
  append_price-IsDay m d price ((e, prices) ∷ daily) a h = elim (Bool-cases (e == d)) [
    | inl same ↦
        let size = length-append prices (price ∷ []) in
        rw same (
          (
            omega arith,
            omega (arith, h.0.1),
            All-append (IsAmount n) prices (price ∷ []) h.0.2 (a, tt),
          ),
          IsDay-suc m daily h.1,
        )
    | inr other ↦
        rw other ((h.0.0, omega (arith, h.0.1), h.0.2), append_price-IsDay m d price daily a h.1)
  ]

  averages-returns :
      (j m : ℕ) (daily : Daily) (w : World)
      → n + j ≤ 23
      → m ≤ 10 ^ j
      → All (IsDay m) daily
      → Settles Any w (averages daily w)
  unfolding averages
  averages-returns j m [] w small few h = settled Any [] w tt
  averages-returns j m ((d, []) ∷ daily) w small few h = absurd (omega (arith, h.0.0))
  averages-returns j m ((d, p ∷ prices) ∷ daily) w small few ((some_, le, amounts), h) =
      let (x, made) = average_returns n j p prices amounts (omega arith) small in
      Settles-resume Any Any _ w (average (p ∷ prices), w)
        (x, w, ap (λ r. (r, w)) made, SameRates-refl w, tt)
        λ price w1 s1 q.
          Settles-resume Any Any _ w1 (averages daily w1)
            (averages-returns j m daily w1 small few h) λ rest w2 s2 q2. settled Any _ w2 tt

module _ (env : Env) (currency : Currency) (w0 : World) (k u l : ℕ) where
  -- the average of the row is at most 10 ^ k dollars, and the rates of its day are known
  abbrev pub IsReadable : HistoryRow → Type 0
  IsReadable row = AtMost k row.avg_price_usd × IsRated u l row.day w0

  history_each-Settles :
      (rows : List HistoryRow) (series : List PriceHistorySeries) (daily : Daily) (m : ℕ)
      (w : World)
      → k + u + l ≤ 23
      → All IsReadable rows
      → All (IsDay (k + u + l) m) daily
      → SameRates w0 w
      → Settles
          (λ both. All (IsDay (k + u + l) (m + length rows)) both.1)
          w
          (history_each env currency rows series daily w)
  unfolding history_each
  history_each-Settles [] series daily m w small readable days s =
      let e : m ≡ m + 0 = omega arith in
      settled _ (series, daily) w (subst (λ i. All (IsDay (k + u + l) i) daily) e days)
  history_each-Settles (row ∷ rows) series daily m w small ((b, rated), readable) days s =
      Settles-resume _ _ _ w (convert env row.avg_price_usd currency (some row.day) w)
        (convert-quoted env k u l small row.avg_price_usd b (some row.day) currency w
          (IsRated-SameRates u l row.day s rated))
        λ price w1 s1 q.
          let e : suc m + length rows ≡ m + length (row ∷ rows) = omega arith in
          let series' =
            append_point row.shop_name (record { date = row.day; price = price }) series in
          let daily' = append_price row.day price daily in
          subst
            (λ i.
              Settles (λ both. All (IsDay (k + u + l) i) both.1) w1
                (history_each env currency rows series' daily' w1))
            e
            (history_each-Settles rows series' daily' (suc m) w1 small readable
              (append_price-IsDay (k + u + l) m row.day price daily q.1 days)
              (SameRates-trans s s1))

  build_history-Settles :
      (j : ℕ) (rows : List HistoryRow)
      → k + u + l + j ≤ 23
      → length rows ≤ 10 ^ j
      → All IsReadable rows
      → Settles Any w0 (build_history env currency rows w0)
  unfolding build_history by_date
  build_history-Settles j rows small few readable =
      Settles-resume _ Any _ w0 (history_each env currency rows [] [] w0)
        (history_each-Settles rows [] [] 0 w0 (omega arith) readable tt (SameRates-refl w0))
        λ both w1 s1 days.
          Settles-resume Any Any _ w1 (averages (by_date both.1) w1)
            (averages-returns (k + u + l) j (0 + length rows) (by_date both.1) w1 small
              (omega arith) (All-sorted _ _ both.1 days))
            λ points w2 s2 q. settled Any _ w2 tt

  -- The price history is returned, if the query has at most 10 ^ j rows, the average of each is at
  -- most 10 ^ k dollars, every currency has a known rate for its day, of at most 10 ^ u, not zero
  -- and of at most l digits after the point, and k + u + l + j is at most 23. At most Redis
  -- changes, and no rate that is known does.
  pub get_price_history-Settles :
      (j product_id date_from date_to : ℕ)
      → k + u + l + j ≤ 23
      → length (
          get_history env product_id
            (utc_day_start date_from)
            (utc_day_start date_to + (day_length - 1))
            w0)
        ≤ 10 ^ j
      → All IsReadable (
          get_history env product_id
            (utc_day_start date_from)
            (utc_day_start date_to + (day_length - 1))
            w0)
      → Settles Any w0 (get_price_history env product_id currency date_from date_to w0)
  unfolding get_price_history
  get_price_history-Settles j product_id date_from date_to small few readable =
      build_history-Settles j _ small few readable
