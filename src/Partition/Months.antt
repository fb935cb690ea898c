-- ===== src/Partition/Months.antt =====
-- The bounds of the next partition.
use price_monitoring_service.Prelude.{
  ℕ, ◌+◌, ◌*◌, ◌≤◌, ◌<◌, ◌≡◌, refl, ◌==◌, Bool-cases, inl, inr, arith,
}
use price_monitoring_service.Exec.{ok}
use price_monitoring_service.Partition.{Date, first_of_month, next_month_bounds}

-- the number of a date's month
abbrev pub month_number : Date → ℕ
month_number d = 12 * d.year + d.month

abbrev pub IsFirst : Date → Type 0
IsFirst d = (1 ≤ d.month) × (d.month ≤ 12) × (d.day ≡ 1)

abbrev first : ℕ → ℕ → Date
first y m = record { year = y; month = m; day = 1 }

first_of_month_ok :
    (y m : ℕ) → 1 ≤ y → y ≤ 9999 → 1 ≤ m → m ≤ 12 → first_of_month y m ≡ ok (first y m)
unfolding first_of_month
first_of_month_ok y m a b c d = ground arith

-- On a valid date before the year 9999 the bounds are the first days of the next month and of the
-- month behind it.
pub next_month_bounds_lem :
    (today : Date)
    → 1 ≤ today.year
    → today.year < 9999
    → 1 ≤ today.month
    → today.month ≤ 12
    → (start : Date) × (end : Date) × (next_month_bounds today ≡ ok (start, end))
      × IsFirst start
      × IsFirst end
      × (month_number start ≡ month_number today + 1)
      × (month_number end ≡ month_number today + 2)
unfolding next_month_bounds
next_month_bounds_lem today y y' m m' = elim (Bool-cases (today.month == 12)) [
  | inl e ↦
      let d : today.month ≡ 12 = ground arith in
      (
        first (today.year + 1) 1,
        first (today.year + 1) 2,
        rw e (
            rw
              (first_of_month_ok (today.year + 1) 1 (omega arith) (omega arith) (omega arith)
                (omega arith))
              (rw
                (first_of_month_ok (today.year + 1) 2 (omega arith) (omega arith) (omega arith)
                  (omega arith))
                refl)),
        (omega arith, omega arith, refl),
        (omega arith, omega arith, refl),
        omega arith,
        omega arith,
      )
  | inr e ↦
      let n : today.month < 12 = ground arith in
      elim (Bool-cases ((today.month + 1) == 12)) [
        | inl k ↦
            let d : today.month ≡ 11 = ground arith in
            (
              first today.year (today.month + 1),
              first (today.year + 1) 1,
              rw e (
                  rw k (
                    rw
                      (first_of_month_ok today.year (today.month + 1) y (omega arith) (omega arith)
                        (omega arith))
                      (rw
                        (first_of_month_ok (today.year + 1) 1 (omega arith) (omega arith)
                          (omega arith) (omega arith))
                        refl))),
              (omega arith, omega arith, refl),
              (omega arith, omega arith, refl),
              omega arith,
              omega arith,
            )
        | inr k ↦
            let d : today.month < 11 = ground arith in
            (
              first today.year (today.month + 1),
              first today.year (today.month + 2),
              rw e (
                  rw k (
                    rw
                      (first_of_month_ok today.year (today.month + 1) y (omega arith) (omega arith)
                        (omega arith))
                      (rw
                        (first_of_month_ok today.year (today.month + 2) y (omega arith)
                          (omega arith) (omega arith))
                        refl))),
              (omega arith, omega arith, refl),
              (omega arith, omega arith, refl),
              omega arith,
              omega arith,
            )
      ]
]
