-- ===== src/Currency/Today.antt =====
-- `sync_today_rates`: what it writes of the rates of the day, and that it writes nothing else.
use price_monitoring_service.Prelude.{
  ℕ, ◌≡◌, refl, ap, ◌∙◌, true, false, Option, none, some, List, [], ◌∷◌, any, arith, Option-cases,
  Bool-cases, inl, inr, sym, subst,
}
use price_monitoring_service.Decimal.{Decimal}
use price_monitoring_service.Schemas.{
  Currency, code, currency_eq, currency_eq_iff, currency_eq_refl,
}
use price_monitoring_service.Exec.{Exec, Result, ok, err, resume}
use price_monitoring_service.Env.{Env}
use price_monitoring_service.Models.{World}
use price_monitoring_service.Currency.Repo.{stored_rate, cached_rate}
use price_monitoring_service.Currency.Nbu.{Rates, rate_in, fetch_all_today_from_nbu}
use price_monitoring_service.Currency.Nbu.Graceful.{fetch_all_graceful}
use price_monitoring_service.Currency.Tables.{stored_rate-upsert_row, cached_rate-set_key}
use price_monitoring_service.Currency.Coverage.{Returns}
use price_monitoring_service.Currency.Frame.{with_rates, OnlyRates}
use price_monitoring_service.Currency.Service.{
  rows_of, sync_currencies, upsert, cache, sync_one, sync_each, sync_today_rates,
}

-- The column of the rates keeps each rate of the list that is read for a currency.
abbrev pub KeepsListed : Env → Rates → Type 0
KeepsListed env rates =
    (c : Currency) (r : Decimal)
    → rate_in (code c) rates ≡ some r
    → (kept : Decimal) × (env.numeric 16 8 r ≡ some kept)

module _ (env : Env) where
  OnlyRates-resume :
      {A B : Type 0} (f : A → Exec World B) (w : World) (o : Result A × World)
      → OnlyRates w o.1
      → ((a : A) (w' : World) → OnlyRates w' (f a w').1)
      → OnlyRates w (resume f o).1
  OnlyRates-resume f w (ok a, w') p h = h a w' ∙ ap (with_rates (rows_of (f a w').1)) p
  OnlyRates-resume f w (err e, w') p h = p

  sync_one-OnlyRates :
      (c : Currency) (o : Option Decimal) (n : ℕ) (w : World) → OnlyRates w (sync_one env c o n w).1
  unfolding sync_one upsert cache
  sync_one-OnlyRates c none n w = refl
  sync_one-OnlyRates c (some rate) n w = elim (Option-cases (env.numeric 16 8 rate)) [
    | inl e ↦ rw e refl
    | inr (x, e) ↦ rw e refl
  ]

  sync_each-OnlyRates :
      (cs : List Currency) (rates : Rates) (n : ℕ) (w : World)
      → OnlyRates w (sync_each env cs rates n w).1
  unfolding sync_each
  sync_each-OnlyRates [] rates n w = refl
  sync_each-OnlyRates (c ∷ cs) rates n w =
      OnlyRates-resume _ w (sync_one env c (rate_in (code c) rates) n w)
        (sync_one-OnlyRates c (rate_in (code c) rates) n w)
        λ m w1. sync_each-OnlyRates cs rates m w1

  pub sync_today_rates-OnlyRates : (w : World) → OnlyRates w (sync_today_rates env w).1
  unfolding sync_today_rates
  sync_today_rates-OnlyRates w =
      let (rates, l, e) = fetch_all_graceful env w in
      rw e (sync_each-OnlyRates sync_currencies rates 0 (record w { link = l }))

  module _ (c : Currency) (rate kept : Decimal) (fits : env.numeric 16 8 rate ≡ some kept) where
    -- the currency has today's rate in the database and in Redis
    abbrev pub HasToday : World → Type 0
    HasToday w =
        (stored_rate c env.today (rows_of w) ≡ some kept)
        × (cached_rate c env.today w.redis ≡ some rate)

    Returns-resume :
        (P Q : World → Type 0) (f : ℕ → Exec World ℕ) (o : Result ℕ × World)
        → Returns P o
        → ((n : ℕ) (w : World) → P w → Returns Q (f n w))
        → Returns Q (resume f o)
    Returns-resume P Q f (ok n, w) p h = h n w p
    Returns-resume P Q f (err e, w) p h = absurd p

    module _ (rates : Rates) (takes : KeepsListed env rates)
        (there : rate_in (code c) rates ≡ some rate) where
      one_stores :
          (n : ℕ) (w : World) → Returns HasToday (sync_one env c (rate_in (code c) rates) n w)
      unfolding sync_one upsert cache
      one_stores n w = rw there (
          rw fits (
            stored_rate-upsert_row c env.today kept "NBU" c env.today (rows_of w)
                ∙ ground (arith, currency_eq_refl c),
            cached_rate-set_key _ c env.today w.redis ∙ ground (arith, currency_eq_refl c),
          ))

      other_rate :
          (j : Currency) (o : Option Decimal) (n : ℕ) (w : World)
          → rate_in (code j) rates ≡ o
          → currency_eq j c ≡ false
          → HasToday w
          → Returns HasToday (sync_one env j o n w)
      unfolding sync_one upsert cache
      other_rate j none n w at ne h = h
      other_rate j (some r) n w at ne h =
          let (x, e) = takes j r at in
          rw e (
            stored_rate-upsert_row j env.today x "NBU" c env.today (rows_of w) ∙ rw ne h.0,
            cached_rate-set_key _ c env.today w.redis ∙ rw ne h.1,
          )

      one_keeps :
          (j : Currency) (n : ℕ) (w : World)
          → HasToday w
          → Returns HasToday (sync_one env j (rate_in (code j) rates) n w)
      one_keeps j n w h = elim (Bool-cases (currency_eq j c)) [
        | inl e ↦
            subst (λ k. Returns HasToday (sync_one env k (rate_in (code k) rates) n w))
              (sym ((currency_eq_iff j c).0 e)) (one_stores n w)
        | inr e ↦ other_rate j (rate_in (code j) rates) n w refl e h
      ]

      each_keeps :
          (cs : List Currency) (n : ℕ) (w : World)
          → HasToday w
          → Returns HasToday (sync_each env cs rates n w)
      unfolding sync_each
      each_keeps [] n w h = h
      each_keeps (j ∷ cs) n w h =
          Returns-resume HasToday HasToday _ (sync_one env j (rate_in (code j) rates) n w)
            (one_keeps j n w h) λ m w1 k. each_keeps cs m w1 k

      sync_one-Returns :
          (o : Option Decimal) (j : Currency) (n : ℕ) (w : World)
          → rate_in (code j) rates ≡ o
          → Returns (λ v. Unit) (sync_one env j o n w)
      unfolding sync_one upsert cache
      sync_one-Returns none j n w at = tt
      sync_one-Returns (some r) j n w at = let (x, e) = takes j r at in rw e tt

      each_stores :
          (cs : List Currency) (n : ℕ) (w : World)
          → any (λ j. currency_eq j c) cs ≡ true
          → Returns HasToday (sync_each env cs rates n w)
      unfolding sync_each
      each_stores [] n w e = absurd (cc)
      each_stores (j ∷ cs) n w e = elim (Bool-cases (currency_eq j c)) [
        | inl same ↦
            Returns-resume HasToday HasToday _ (sync_one env j (rate_in (code j) rates) n w)
              (subst (λ k. Returns HasToday (sync_one env k (rate_in (code k) rates) n w))
                (sym ((currency_eq_iff j c).0 same)) (one_stores n w))
              λ m w1 k. each_keeps cs m w1 k
        | inr other ↦
            Returns-resume (λ v. Unit) HasToday _ (sync_one env j (rate_in (code j) rates) n w)
              (sync_one-Returns (rate_in (code j) rates) j n w refl)
              λ m w1 k. each_stores cs m w1 (ground (arith, e, other))
      ]

    -- If the column keeps each rate that the list has, the call returns, and afterwards, for a synchronised currency of
    -- which the NBU has a rate, the database has for today what the column keeps of that rate, and
    -- Redis the rate itself.
    pub sync_today_rates_stores :
        (w : World) {rates : Rates} {w' : World}
        → KeepsListed env rates
        → fetch_all_today_from_nbu env w ≡ (ok rates, w')
        → rate_in (code c) rates ≡ some rate
        → any (λ j. currency_eq j c) sync_currencies ≡ true
        → Returns HasToday (sync_today_rates env w)
    unfolding sync_today_rates
    sync_today_rates_stores w {rates} {w'} takes e there s =
        rw e (each_stores rates takes there sync_currencies 0 w' s)
