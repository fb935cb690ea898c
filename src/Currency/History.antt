-- ===== src/Currency/History.antt =====
-- `sync_historical_rates`: it adds what is missing, counts what it adds, and its loop ends by
-- its test.
use price_monitoring_service.Prelude.{
  ℕ, zero, suc, ◌+◌, ◌-◌, String, ◌≡◌, refl, true, false, Option, none, some, List, [], ◌∷◌, arith,
  Option-cases, Bool-cases, inl, inr, leb, length, subst,
}
use price_monitoring_service.Decimal.{Decimal}
use price_monitoring_service.Schemas.{Currency}
use price_monitoring_service.Exec.{Exec, Result, ok, err, resume}
use price_monitoring_service.Env.{Env}
use price_monitoring_service.Models.{ExchangeRate, World}
use price_monitoring_service.Currency.Repo.{stored_rate, upsert_row}
use price_monitoring_service.Currency.Nbu.Graceful.{fetch_from_nbu_graceful}
use price_monitoring_service.Currency.Keeps.{
  Extends, Extends-refl, Extends-trans, upsert_row-Extends,
}
use price_monitoring_service.Currency.Service.{
  upsert, rows_of, write_fetched, sync_missing, sync_day, sync_days, sync_historical_rates,
  sync_currencies,
}

length-upsert_row_new :
    (c : Currency) (d : ℕ) (rate : Decimal) (source : String) (rows : List ExchangeRate)
    → stored_rate c d rows ≡ none
    → length (upsert_row c d rate source rows) ≡ length rows + 1
unfolding upsert_row stored_rate
length-upsert_row_new c d rate source [] new = omega arith
length-upsert_row_new c d rate source (row ∷ rows) new =
    ground (arith, length-upsert_row_new c d rate source rows)

-- An outcome that has extended the rows, by as many as its count has grown.
abbrev pub Adds : ℕ → World → Result ℕ × World → Type 0
Adds written w (ok n, w') =
    Extends (rows_of w) (rows_of w') × (length (rows_of w') + written ≡ length (rows_of w) + n)
Adds written w (err e, w') = Extends (rows_of w) (rows_of w')

Adds-after :
    (written n : ℕ) (w w' : World) (o : Result ℕ × World)
    → Adds written w (ok n, w')
    → Adds n w' o
    → Adds written w o
Adds-after written n w w' (ok m, w'') p q = (Extends-trans p.0 q.0, omega (arith, p.1, q.1))
Adds-after written n w w' (err e, w'') p q = Extends-trans p.0 q

Adds-resume :
    (f : ℕ → Exec World ℕ) (written : ℕ) (w : World) (o : Result ℕ × World)
    → Adds written w o
    → ((n : ℕ) (w' : World) → Adds n w' (f n w'))
    → Adds written w (resume f o)
Adds-resume f written w (ok n, w') p h = Adds-after written n w w' (f n w') p (h n w')
Adds-resume f written w (err e, w') p h = p

Adds-Extends :
    (written : ℕ) (w : World) (o : Result ℕ × World)
    → Adds written w o
    → Extends (rows_of w) (rows_of o.1)
Adds-Extends written w (ok n, w') p = p.0
Adds-Extends written w (err e, w') p = p

Adds-refl : (written : ℕ) (w w' : World) → rows_of w' ≡ rows_of w → Adds written w (ok written, w')
Adds-refl written w w' e = rw e (Extends-refl (rows_of w), refl)

module _ (env : Env) where
  write_fetched-Adds :
      (c : Currency) (d written : ℕ) (o : Option Decimal) (w : World)
      → stored_rate c d (rows_of w) ≡ none
      → Adds written w (write_fetched env c d written o w)
  unfolding write_fetched upsert
  write_fetched-Adds c d written none w new = Adds-refl written w w refl
  write_fetched-Adds c d written (some rate) w new = elim (Option-cases (env.numeric 16 8 rate)) [
    | inl e ↦ rw e (Extends-refl (rows_of w))
    | inr (x, e) ↦ rw e (
      upsert_row-Extends c d x "NBU" (rows_of w) new,
      omega (arith, length-upsert_row_new c d x "NBU" (rows_of w) new),
    )
  ]

  sync_missing-Adds :
      (c : Currency) (d written : ℕ) (o : Option Decimal) (w : World)
      → stored_rate c d (rows_of w) ≡ o
      → Adds written w (sync_missing env c d written o w)
  unfolding sync_missing
  sync_missing-Adds c d written (some rate) w have = Adds-refl written w w refl
  sync_missing-Adds c d written none w new =
      let (o, l, e) = fetch_from_nbu_graceful env c d w in
      rw e (
        Adds-after written written w (record w { link = l }) _
          (Adds-refl written w (record w { link = l }) refl)
          (write_fetched-Adds c d written o (record w { link = l }) new))

  pub sync_day-Adds :
      (cs : List Currency) (d written : ℕ) (w : World)
      → Adds written w (sync_day env cs d written w)
  unfolding sync_day
  sync_day-Adds [] d written w = Adds-refl written w w refl
  sync_day-Adds (c ∷ cs) d written w =
      Adds-resume _ written w (sync_missing env c d written (stored_rate c d (rows_of w)) w)
        (sync_missing-Adds c d written (stored_rate c d (rows_of w)) w refl)
        λ n w'. sync_day-Adds cs d n w'

  -- the loop goes on, and ends, by its test
  pub days_more :
      (rounds d date_to written : ℕ) (w : World)
      → leb d date_to ≡ true
      → sync_days env (suc rounds) d date_to written w
        ≡ resume
            (λ n. sync_days env rounds (d + 1) date_to n)
            (sync_day env sync_currencies d written w)
  unfolding sync_days
  days_more rounds d date_to written w e = ground arith

  pub days_done :
      (rounds d date_to written : ℕ) (w : World)
      → leb d date_to ≡ false
      → sync_days env (suc rounds) d date_to written w ≡ (ok written, w)
  unfolding sync_days
  days_done rounds d date_to written w e = ground arith

  pub sync_days-Adds :
      (rounds d date_to written : ℕ) (w : World)
      → Adds written w (sync_days env rounds d date_to written w)
  unfolding sync_days
  sync_days-Adds zero d date_to written w = Adds-refl written w w refl
  sync_days-Adds (suc rounds) d date_to written w = elim (Bool-cases (leb d date_to)) [
    | inl e ↦ rw (days_more rounds d date_to written w e) (
        Adds-resume _ written w (sync_day env sync_currencies d written w)
          (sync_day-Adds sync_currencies d written w)
          λ n w'. sync_days-Adds rounds (d + 1) date_to n w')
    | inr e ↦ rw (days_done rounds d date_to written w e) (Adds-refl written w w refl)
  ]

  historical-Adds :
      (date_from date_to : ℕ) (w : World) → Adds 0 w (sync_historical_rates env date_from date_to w)
  unfolding sync_historical_rates
  historical-Adds date_from date_to w =
      sync_days-Adds (date_to + 1 - date_from) date_from date_to 0 w

  historical-Extends :
      (date_from date_to : ℕ) (w : World)
      → Extends (rows_of w) (rows_of (sync_historical_rates env date_from date_to w).1)
  historical-Extends date_from date_to w = Adds-Extends 0 w _ (historical-Adds date_from date_to w)

  -- However the NBU answers, and also if the call raises, a rate that the database had stays what
  -- it was.
  pub stored_rate-sync_historical_rates :
      (date_from date_to : ℕ) (w : World) (j : Currency) (e : ℕ) {rate : Decimal}
      → stored_rate j e (rows_of w) ≡ some rate
      → stored_rate j e (rows_of (sync_historical_rates env date_from date_to w).1) ≡ some rate
  stored_rate-sync_historical_rates date_from date_to w j e {rate} h =
      (historical-Extends date_from date_to w).kept j e rate h

  -- If the call returns a number, the table has grown by so many rows.
  pub length-sync_historical_rates :
      (date_from date_to : ℕ) (w : World) {n : ℕ} {after : World}
      → sync_historical_rates env date_from date_to w ≡ (ok n, after)
      → length (rows_of after) ≡ length (rows_of w) + n
  length-sync_historical_rates date_from date_to w {n} {after} e =
      let a : Adds 0 w (ok n, after) =
        subst (λ o. Adds 0 w o) e (historical-Adds date_from date_to w) in
      omega (arith, a.1)
