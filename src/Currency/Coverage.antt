-- ===== src/Currency/Coverage.antt =====
-- With an NBU that has the rates of the range, `sync_historical_rates` returns, and leaves no gap: its loop
-- reaches every day of the range.
use price_monitoring_service.Prelude.{
  sym, ℕ, zero, suc, ◌+◌, ◌-◌, ◌≤◌, ◌<◌, ◌≡◌, refl, ap, Option, none, some, true, false, List, [],
  ◌∷◌, arith, Bool-cases, inl, inr, ◌∙◌, leb, All,
}
use native.Mathlib.Decide.{ℕ_discrete}
use price_monitoring_service.Decimal.{Decimal}
use price_monitoring_service.Schemas.{Currency, currency_eq_refl}
use price_monitoring_service.Exec.{Exec, Result, ok, err, resume}
use price_monitoring_service.Env.{Env, Request, nbu_rate, response}
use price_monitoring_service.Json.{Json, num, truthy, first, item}
use price_monitoring_service.HttpRetry.{Link, get_with_retry}
use price_monitoring_service.HttpRetry.Attempts.{get_with_retry-final, link_eq}
use price_monitoring_service.Models.{ExchangeRate, World}
use price_monitoring_service.Currency.Repo.{stored_rate}
use price_monitoring_service.Currency.Nbu.{fetch_from_nbu}
use price_monitoring_service.Currency.Tables.{stored_rate-upsert_row}
use price_monitoring_service.Currency.Keeps.{Extends}
use price_monitoring_service.Currency.History.{
  Adds, sync_day-Adds, sync_days-Adds, days_more, days_done,
}
use price_monitoring_service.Currency.Service.{
  upsert, rows_of, write_fetched, sync_missing, sync_day, sync_days, sync_historical_rates,
  sync_currencies,
}

-- the rows have a rate for the currency and the day
abbrev pub HasRate : ℕ → List ExchangeRate → Currency → Type 0
HasRate d rows c = (rate : Decimal) × (stored_rate c d rows ≡ some rate)

-- The n-th answer of the NBU on the currency and the day is a response of status 200 with a list
-- whose first entry has a number for its rate, which the column of the rates keeps.
abbrev pub IsQuoted : Env → Currency → ℕ → ℕ → Type 0
IsQuoted env c d n =
    (v r : Json) × (rate kept : Decimal) × (env.reply (nbu_rate c d) n ≡ response 200 (some v))
    × (truthy v ≡ true)
    × (first v ≡ ok r)
    × (item r "rate" ≡ ok (num rate))
    × (env.numeric 16 8 rate ≡ some kept)

-- on the day, whatever the number of its request
abbrev pub AreQuoted : Env → List Currency → ℕ → Type 0
AreQuoted env cs d = All (λ c. (n : ℕ) → IsQuoted env c d n) cs

-- the NBU has a rate of every synchronised currency for any day from `d` to `date_to`
abbrev pub AllQuoted : Env → ℕ → ℕ → Type 0
AllQuoted env d date_to = (e : ℕ) → d ≤ e → e ≤ date_to → AreQuoted env sync_currencies e

-- an outcome that has returned, in a world with the property
abbrev pub Returns : (World → Type 0) → Result ℕ × World → Type 0
Returns P (ok n, w) = P w
Returns P (err e, w) = ⊥

HasRate-Extends :
    (d : ℕ) (a b : List ExchangeRate) (cs : List Currency)
    → Extends a b
    → All (HasRate d a) cs
    → All (HasRate d b) cs
HasRate-Extends d a b [] x h = tt
HasRate-Extends d a b (c ∷ cs) x h =
    ((h.0.0, x.kept c d h.0.0 h.0.1), HasRate-Extends d a b cs x h.1)

module _ (env : Env) (tries : 1 ≤ env.settings.shop_api_retry_attempts)
    (final : env.raises_for 200 ≡ false) where
  first_reply :
      (url : Request) (attempts : ℕ) (l : Link) (v : Json)
      → 1 ≤ attempts
      → env.reply url l.sent ≡ response 200 (some v)
      → get_with_retry env url attempts l ≡ (ok (200, some v), record l { sent = l.sent + 1 })
  first_reply url attempts l v some_try e =
      get_with_retry-final env url attempts 0 200 (some v) l (omega arith) tt
        (ap (env.reply url) (omega arith) ∙ e) refl
      ∙ rw final (
          ap (λ k. (ok (200, some v), k))
            (link_eq {a = l.sent + 0 + 1} {b = l.sent + 1} (omega arith) (omega arith)))

  -- such an answer is what the call gives
  fetch_from_nbu-IsQuoted :
      (c : Currency) (d : ℕ) (w : World)
      → IsQuoted env c d w.link.sent
      → (rate kept : Decimal) × (l : Link) × (fetch_from_nbu env c d w
          ≡ (ok (some rate), record w { link = l }))
        × (env.numeric 16 8 rate ≡ some kept)
  unfolding fetch_from_nbu
  fetch_from_nbu-IsQuoted c d w (v, r, rate, kept, answered, full, entry, number, fits) =
      let sent =
        first_reply (nbu_rate c d) env.settings.shop_api_retry_attempts w.link v tries answered in
      (
        rate,
        kept,
        record w.link { sent = w.link.sent + 1 },
        rw sent (rw full (rw entry (rw number refl))),
        fits,
      )

  write_fetched-Returns :
      (c : Currency) (d written : ℕ) (rate kept : Decimal) (w : World)
      → env.numeric 16 8 rate ≡ some kept
      → Returns (λ w'. HasRate d (rows_of w') c) (write_fetched env c d written (some rate) w)
  unfolding write_fetched upsert
  write_fetched-Returns c d written rate kept w e = rw e (
    kept,
    stored_rate-upsert_row c d kept "NBU" c d (rows_of w) ∙ ground (arith, currency_eq_refl c),
  )

  sync_missing-Returns :
      (c : Currency) (d written : ℕ) (o : Option Decimal) (w : World)
      → IsQuoted env c d w.link.sent
      → stored_rate c d (rows_of w) ≡ o
      → Returns (λ w'. HasRate d (rows_of w') c) (sync_missing env c d written o w)
  unfolding sync_missing
  sync_missing-Returns c d written (some rate) w q have = (rate, have)
  sync_missing-Returns c d written none w q new =
      let (rate, kept, l, e, fits) = fetch_from_nbu-IsQuoted c d w q in
      rw e (write_fetched-Returns c d written rate kept (record w { link = l }) fits)

  resume-Returns :
      (P Q : World → Type 0) (f : ℕ → Exec World ℕ) (o : Result ℕ × World)
      → Returns P o
      → ((n : ℕ) (w : World) → P w → Returns Q (f n w))
      → Returns Q (resume f o)
  resume-Returns P Q f (ok n, w) p h = h n w p
  resume-Returns P Q f (err e, w) p h = absurd p

  -- what has been filled stays so in an extension of the rows
  later-Returns :
      (P Q : World → Type 0) (written : ℕ) (w : World) (o : Result ℕ × World)
      → Adds written w o
      → Returns Q o
      → ((w' : World) → Extends (rows_of w) (rows_of w') → Q w' → P w')
      → Returns P o
  later-Returns P Q written w (ok n, w') a q h = h w' a.0 q
  later-Returns P Q written w (err e, w') a q h = q

  sync_day-Returns :
      (cs : List Currency) (d written : ℕ) (w : World)
      → AreQuoted env cs d
      → Returns (λ w'. All (HasRate d (rows_of w')) cs) (sync_day env cs d written w)
  unfolding sync_day
  sync_day-Returns [] d written w qs = tt
  sync_day-Returns (c ∷ cs) d written w (q, qs) =
      resume-Returns (λ w'. HasRate d (rows_of w') c) (λ w'. All (HasRate d (rows_of w')) (c ∷ cs))
        _ (sync_missing env c d written (stored_rate c d (rows_of w)) w)
        (sync_missing-Returns c d written (stored_rate c d (rows_of w)) w (q w.link.sent) refl)
        λ n w' have.
          later-Returns (λ v. All (HasRate d (rows_of v)) (c ∷ cs))
            (λ v. All (HasRate d (rows_of v)) cs) n w' (sync_day env cs d n w')
            (sync_day-Adds env cs d n w') (sync_day-Returns cs d n w' qs)
            λ v x rest. ((have.0, x.kept c d have.0 have.1), rest)

  -- every day from `d` to `date_to` is filled
  abbrev pub Filled : ℕ → ℕ → World → Type 0
  Filled d date_to w = (e : ℕ) → d ≤ e → e ≤ date_to → All (HasRate e (rows_of w)) sync_currencies

  Filled-next :
      (d date_to : ℕ) (w w' : World)
      → All (HasRate d (rows_of w)) sync_currencies
      → Extends (rows_of w) (rows_of w')
      → Filled (d + 1) date_to w'
      → Filled d date_to w'
  Filled-next d date_to w w' now x rest e lo hi = elim (ℕ_discrete d e) [
    | yes same ↦ rw (sym same) (HasRate-Extends d (rows_of w) (rows_of w') sync_currencies x now)
    | no other ↦ rest e (omega arith) hi
  ]

  sync_days-Returns :
      (rounds d date_to written : ℕ) (w : World)
      → date_to < d + rounds
      → AllQuoted env d date_to
      → Returns (Filled d date_to) (sync_days env rounds d date_to written w)
  unfolding sync_days
  sync_days-Returns zero d date_to written w fuel qs = λ e lo hi. absurd (omega arith)
  sync_days-Returns (suc rounds) d date_to written w fuel qs = elim (Bool-cases (leb d date_to)) [
    | inl more ↦ rw (days_more env rounds d date_to written w more) (
        resume-Returns (λ v. All (HasRate d (rows_of v)) sync_currencies) (Filled d date_to) _
          (sync_day env sync_currencies d written w)
          (sync_day-Returns sync_currencies d written w (qs d (omega arith) (ground arith)))
          λ n w' now.
            later-Returns (Filled d date_to) (Filled (d + 1) date_to) n w'
              (sync_days env rounds (d + 1) date_to n w')
              (sync_days-Adds env rounds (d + 1) date_to n w')
              (sync_days-Returns rounds (d + 1) date_to n w' (omega arith)
                λ e lo hi. qs e (omega arith) hi)
              λ v x rest. Filled-next d date_to w' v now x rest)
    | inr done ↦
        rw (days_done env rounds d date_to written w done) (λ e lo hi. absurd (ground arith))
  ]

  Returns-map :
      (P Q : World → Type 0) (o : Result ℕ × World)
      → ((w : World) → P w → Q w)
      → Returns P o
      → Returns Q o
  Returns-map P Q (ok n, w) h p = h w p
  Returns-map P Q (err x, w) h p = p

  -- If a request is sent at least once and status 200 does not raise, and the NBU answers on every
  -- synchronised currency and day of the range with a rate that the column keeps, the call returns,
  -- and afterwards the database has a rate of every synchronised currency for any day of the range.
  pub sync_historical_rates-Returns :
      (date_from date_to : ℕ) (w : World) (e : ℕ)
      → AllQuoted env date_from date_to
      → date_from ≤ e
      → e ≤ date_to
      → Returns
          (λ after. All (HasRate e (rows_of after)) sync_currencies)
          (sync_historical_rates env date_from date_to w)
  unfolding sync_historical_rates
  sync_historical_rates-Returns date_from date_to w e qs lo hi =
      Returns-map (Filled date_from date_to)
        (λ after. All (HasRate e (rows_of after)) sync_currencies) _
        (λ after filled. filled e lo hi)
        (sync_days-Returns (date_to + 1 - date_from) date_from date_to 0 w (omega arith) qs)
