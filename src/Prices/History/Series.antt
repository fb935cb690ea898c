-- ===== src/Prices/History/Series.antt =====
-- The series of the price history: one for each shop's name, with the days of its rows.
use text.Mathlib.Text.{◌==◌ as str_eq}
use text.Mathlib.TextEquality.{eq_iff}
use price_monitoring_service.Prelude.{
  ℕ, ◌+◌, ◌-◌, subst, String, ◌≡◌, refl, ap, ◌∙◌, Bool, false, ◌||◌, some, List, [], ◌∷◌, ◌++◌, All,
  All-append, if◌then◌else◌, any, map, filter, arith, Bool-cases, inl, inr,
}
use price_monitoring_service.Decimal.{Decimal}
use price_monitoring_service.Decimal.Quantize.{IsMoney}
use price_monitoring_service.Exec.{Exec, Result, ok, err, resume}
use price_monitoring_service.Env.{Env}
use price_monitoring_service.Schemas.{Currency, PriceHistoryPoint, PriceHistorySeries}
use price_monitoring_service.Models.{World}
use price_monitoring_service.Currency.Service.{convert}
use price_monitoring_service.Currency.Convert.{convert-IsMoney}
use price_monitoring_service.Prices.Latest.{day_length, utc_day_start}
use price_monitoring_service.Prices.Detail.Money.{Yields, Yields-resume, PaysMoney-Yields}
use price_monitoring_service.Prices.History.Query.{HistoryRow, get_history}
use price_monitoring_service.Prices.History.{
  append_point, append_price, Daily, averages, by_date, history_each, build_history,
  get_price_history,
}

-- the points of the series with a name
abbrev pub points_of : String → List PriceHistorySeries → List PriceHistoryPoint
points_of name [] = []
points_of name (s ∷ series) = if str_eq s.shop_name name then s.points else points_of name series

abbrev pub is_named : String → PriceHistorySeries → Bool
is_named name s = str_eq s.shop_name name

-- no two series have the same name
abbrev pub AreDistinct : List PriceHistorySeries → Type 0
AreDistinct [] = Unit
AreDistinct (s ∷ series) = (any (is_named s.shop_name) series ≡ false) × AreDistinct series

points_of-append_point :
    (m n : String) (p : PriceHistoryPoint) (series : List PriceHistorySeries)
    → points_of n (append_point m p series)
      ≡ (if str_eq m n then points_of n series ++ p ∷ [] else points_of n series)
unfolding append_point
points_of-append_point m n p [] = ground arith
points_of-append_point m n p (s ∷ series) = ground (
  arith,
  points_of-append_point m n p series,
  eq_iff m n,
  eq_iff s.shop_name m,
  eq_iff s.shop_name n,
)

any-append_point :
    (m n : String) (p : PriceHistoryPoint) (series : List PriceHistorySeries)
    → any (is_named n) (append_point m p series) ≡ (any (is_named n) series || str_eq m n)
unfolding append_point
any-append_point m n p [] = ground arith
any-append_point m n p (s ∷ series) =
    ground
      (arith, any-append_point m n p series, eq_iff m n, eq_iff s.shop_name m, eq_iff s.shop_name n)

append_point-AreDistinct :
    (m : String) (p : PriceHistoryPoint) (series : List PriceHistorySeries)
    → AreDistinct series
    → AreDistinct (append_point m p series)
unfolding append_point
append_point-AreDistinct m p [] h = (refl, tt)
append_point-AreDistinct m p (s ∷ series) h = elim (Bool-cases (str_eq s.shop_name m)) [
  | inl e ↦ rw e h
  | inr e ↦ rw e (
    any-append_point m s.shop_name p series
        ∙ ground (arith, h.0, eq_iff m s.shop_name, eq_iff s.shop_name m),
    append_point-AreDistinct m p series h.1,
  )
]

abbrev pub IsMoneyPoint : PriceHistoryPoint → Type 0
IsMoneyPoint p = IsMoney p.price

abbrev pub days_of : String → List HistoryRow → List ℕ
days_of name rows = map (λ r. r.day) (filter (λ r. str_eq r.shop_name name) rows)

abbrev pub dates : List PriceHistoryPoint → List ℕ
dates points = map (λ p. p.date) points

-- The points of a name have the given days, in order, and prices that are money; no name is there
-- twice.
abbrev pub HasSeries : String → List ℕ → List PriceHistorySeries → Type 0
HasSeries name days series =
    (dates (points_of name series) ≡ days)
    × All IsMoneyPoint (points_of name series)
    × AreDistinct series

dates-append : (xs ys : List PriceHistoryPoint) → dates (xs ++ ys) ≡ dates xs ++ dates ys
dates-append [] ys = refl
dates-append (x ∷ xs) ys = ap (λ ds. x.date ∷ ds) (dates-append xs ys)

append_assoc_one : (xs : List ℕ) (d : ℕ) (ys : List ℕ) → (xs ++ d ∷ []) ++ ys ≡ xs ++ d ∷ ys
append_assoc_one [] d ys = refl
append_assoc_one (x ∷ xs) d ys = ap (λ ds. x ∷ ds) (append_assoc_one xs d ys)

append_nil : (xs : List ℕ) → xs ++ [] ≡ xs
append_nil [] = refl
append_nil (x ∷ xs) = ap (λ ds. x ∷ ds) (append_nil xs)

-- the days of a name with those of one row more
abbrev then_row : String → HistoryRow → List ℕ → List ℕ
then_row name row days = if str_eq row.shop_name name then days ++ row.day ∷ [] else days

append_point-HasSeries :
    (name : String) (row : HistoryRow) (price : Decimal) (days : List ℕ)
    (series : List PriceHistorySeries)
    → IsMoney price
    → HasSeries name days series
    → HasSeries name
        (then_row name row days)
        (append_point row.shop_name (record { date = row.day; price = price }) series)
append_point-HasSeries name row price days series money h =
    let p : PriceHistoryPoint = record { date = row.day; price = price } in
    elim (Bool-cases (str_eq row.shop_name name)) [
      | inl e ↦
          let q : points_of name (append_point row.shop_name p series)
              ≡ points_of name series ++ p ∷ [] =
            points_of-append_point row.shop_name name p series ∙ ground (arith, e) in
          (
            rw (q, e)
                (dates-append (points_of name series) (p ∷ []) ∙ ap (λ ds. ds ++ row.day ∷ []) h.0),
            rw q (All-append IsMoneyPoint (points_of name series) (p ∷ []) h.1 (money, tt)),
            append_point-AreDistinct row.shop_name p series h.2,
          )
      | inr e ↦
          let q : points_of name (append_point row.shop_name p series) ≡ points_of name series =
            points_of-append_point row.shop_name name p series ∙ ground (arith, e) in
          (rw (q, e) h.0, rw q h.1, append_point-AreDistinct row.shop_name p series h.2)
    ]

then_rows :
    (name : String) (row : HistoryRow) (days : List ℕ) (rows : List HistoryRow)
    → then_row name row days ++ days_of name rows ≡ days ++ days_of name (row ∷ rows)
then_rows name row days rows = elim (Bool-cases (str_eq row.shop_name name)) [
  | inl e ↦ rw e (append_assoc_one days row.day (days_of name rows))
  | inr e ↦ rw e refl
]

module _ (env : Env) (currency : Currency) (name : String) where
  history_each-HasSeries :
      (rows : List HistoryRow) (days : List ℕ) (series : List PriceHistorySeries) (daily : Daily)
      (w : World)
      → HasSeries name days series
      → Yields
          (λ both. HasSeries name (days ++ days_of name rows) both.0)
          (history_each env currency rows series daily w)
  unfolding history_each
  history_each-HasSeries [] days series daily w h = rw (append_nil days) h
  history_each-HasSeries (row ∷ rows) days series daily w h =
      Yields-resume IsMoney (λ both. HasSeries name (days ++ days_of name (row ∷ rows)) both.0) _
        (convert env row.avg_price_usd currency (some row.day) w)
        (PaysMoney-Yields _ (convert-IsMoney env row.avg_price_usd (some row.day) currency w))
        λ price w1 money.
          subst
            (λ ds.
              Yields (λ both. HasSeries name ds both.0)
                (history_each env currency rows
                  (append_point row.shop_name (record { date = row.day; price = price }) series)
                  (append_price row.day price daily) w1))
            (then_rows name row days rows)
            (history_each-HasSeries rows (then_row name row days) _
              (append_price row.day price daily) w1
              (append_point-HasSeries name row price days series money h))

  Yields-any :
      {A B : Type 0} (Q : B → Type 0) (f : A → Exec World B) (o : Result A × World)
      → ((a : A) (w : World) → Yields Q (f a w))
      → Yields Q (resume f o)
  Yields-any Q f (ok a, w) h = h a w
  Yields-any Q f (err e, w) h = tt

  -- If the history is returned, its series have different names, and the series of any shop's name
  -- has the days of the rows with that name, in order; its prices are amounts of money. A name with
  -- no row has no point.
  pub get_price_history_series :
      (product_id date_from date_to : ℕ) (w : World)
      → Yields
          (λ r.
            HasSeries name
              (days_of name (
                get_history env product_id
                  (utc_day_start date_from)
                  (utc_day_start date_to + (day_length - 1))
                  w))
              r.series)
          (get_price_history env product_id currency date_from date_to w)
  unfolding get_price_history build_history
  get_price_history_series product_id date_from date_to w =
      let rows : List HistoryRow =
        get_history env product_id (utc_day_start date_from)
          (utc_day_start date_to + (day_length - 1)) w in
      Yields-resume (λ both. HasSeries name (days_of name rows) both.0)
        (λ r. HasSeries name (days_of name rows) r.series) _
        (history_each env currency rows [] [] w)
        (history_each-HasSeries rows [] [] [] w (refl, tt, tt))
        λ both w1 h.
          Yields-any (λ r. HasSeries name (days_of name rows) r.series) _
            (averages (by_date both.1) w1) λ points w2. h
