-- ===== src/Currency/Frame.antt =====
-- `get_rate` and `convert` write no table but exchange_rates, in which they keep every rate.
use price_monitoring_service.Prelude.{
  ◌≡◌, refl, ap, ◌∙◌, ℕ, Option, none, some, Option-cases, inl, inr, List,
}
use price_monitoring_service.Decimal.{Decimal, mul, div}
use price_monitoring_service.Schemas.{Currency}
use price_monitoring_service.Exec.{Exec, Result, ok, err, resume}
use price_monitoring_service.Env.{Env}
use price_monitoring_service.Models.{ExchangeRate, Database, World}
use price_monitoring_service.Currency.Repo.{stored_rate, rate_on_or_before, cached_rate}
use price_monitoring_service.Currency.Nbu.Graceful.{fetch_from_nbu_graceful}
use price_monitoring_service.Currency.Keeps.{Extends, Extends-refl, Extends-trans, get_rate-Extends}
use price_monitoring_service.Currency.Service.{
  get_rate, convert, date_or_today, upsert, cache, rows_of, from_redis, from_db, from_nbu,
  from_earlier,
}

-- a database with other rates
abbrev pub with_rates : List ExchangeRate → Database → Database
with_rates rows db = record db { exchange_rates = rows }

-- the second database is the first with other rates
abbrev pub OnlyRates : World → World → Type 0
OnlyRates w w' = w'.db ≡ with_rates (rows_of w') w.db

module _ (env : Env) (c : Currency) (d : ℕ) where
  from_earlier-OnlyRates :
      (o : Option Decimal) (w : World) → OnlyRates w (from_earlier env c d o w).1
  unfolding from_earlier cache
  from_earlier-OnlyRates none w = refl
  from_earlier-OnlyRates (some rate) w = refl

  from_nbu-OnlyRates : (o : Option Decimal) (w : World) → OnlyRates w (from_nbu env c d o w).1
  unfolding from_nbu upsert cache
  from_nbu-OnlyRates none w = from_earlier-OnlyRates (rate_on_or_before c d (rows_of w)) w
  from_nbu-OnlyRates (some rate) w = elim (Option-cases (env.numeric 16 8 rate)) [
    | inl e ↦ rw e refl
    | inr (x, e) ↦ rw e refl
  ]

  from_db-OnlyRates : (o : Option Decimal) (w : World) → OnlyRates w (from_db env c d o w).1
  unfolding from_db cache
  from_db-OnlyRates none w =
      let (o, l, e) = fetch_from_nbu_graceful env c d w in
      rw e (from_nbu-OnlyRates o (record w { link = l }))
  from_db-OnlyRates (some rate) w = refl

  from_redis-OnlyRates : (o : Option Decimal) (w : World) → OnlyRates w (from_redis env c d o w).1
  unfolding from_redis
  from_redis-OnlyRates none w = from_db-OnlyRates (stored_rate c d (rows_of w)) w
  from_redis-OnlyRates (some rate) w = refl

-- From one world to another the database changes in its rates only, and keeps those that it has.
pub record Reads (w w' : World) : Type 0 where
  pub only_rates : OnlyRates w w'
  pub extends : Extends (rows_of w) (rows_of w')

pub Reads-refl : (w : World) → Reads w w
Reads-refl w = record { only_rates = refl; extends = Extends-refl (rows_of w) }

pub Reads-trans : {w w' w'' : World} → Reads w w' → Reads w' w'' → Reads w w''
Reads-trans {w} {w'} {w''} p q = record {
  only_rates = q.only_rates ∙ ap (with_rates (rows_of w'')) p.only_rates;
  extends = Extends-trans p.extends q.extends;
}

pub Reads-resume :
    {A B : Type 0} (f : A → Exec World B) (w : World) (o : Result A × World)
    → Reads w o.1
    → ((a : A) (w' : World) → Reads w' (f a w').1)
    → Reads w (resume f o).1
Reads-resume f w (ok a, w') p h = Reads-trans p (h a w')
Reads-resume f w (err e, w') p h = p

module _ (env : Env) where
  get_rate-OnlyRates : (c : Currency) (d : ℕ) (w : World) → OnlyRates w (get_rate env c d w).1
  unfolding get_rate
  get_rate-OnlyRates Currency.uah d w = refl
  get_rate-OnlyRates Currency.usd d w =
      from_redis-OnlyRates env Currency.usd d (cached_rate Currency.usd d w.redis) w
  get_rate-OnlyRates Currency.eur d w =
      from_redis-OnlyRates env Currency.eur d (cached_rate Currency.eur d w.redis) w
  get_rate-OnlyRates Currency.gbp d w =
      from_redis-OnlyRates env Currency.gbp d (cached_rate Currency.gbp d w.redis) w

  pub get_rate-Reads : (c : Currency) (d : ℕ) (w : World) → Reads w (get_rate env c d w).1
  get_rate-Reads c d w = record {
    only_rates = get_rate-OnlyRates c d w;
    extends = get_rate-Extends env c d w;
  }

  pub alerts-get_rate :
      (c : Currency) (d : ℕ) (w : World)
      → (get_rate env c d w).1.db.price_alerts ≡ w.db.price_alerts
  alerts-get_rate c d w = ap (λ db. db.price_alerts) (get_rate-OnlyRates c d w)

  module _ (amount_usd : Decimal) (for_date : Option ℕ) where
    pub convert-Reads : (c : Currency) (w : World) → Reads w (convert env amount_usd c for_date w).1
    unfolding convert
    convert-Reads Currency.usd w = Reads-refl w
    convert-Reads Currency.uah w =
        Reads-resume _ w (get_rate env Currency.usd (date_or_today env for_date) w)
          (get_rate-Reads Currency.usd (date_or_today env for_date) w) λ rate_usd w1. Reads-refl w1
    convert-Reads Currency.eur w =
        Reads-resume _ w (get_rate env Currency.usd (date_or_today env for_date) w)
          (get_rate-Reads Currency.usd (date_or_today env for_date) w)
          λ rate_usd w1.
            Reads-resume _ w1 (get_rate env Currency.eur (date_or_today env for_date) w1)
              (get_rate-Reads Currency.eur (date_or_today env for_date) w1)
              λ rate_target w2.
                Reads-resume _ w2 (div (mul amount_usd rate_usd) rate_target, w2) (Reads-refl w2)
                  λ q w3. Reads-refl w3
    convert-Reads Currency.gbp w =
        Reads-resume _ w (get_rate env Currency.usd (date_or_today env for_date) w)
          (get_rate-Reads Currency.usd (date_or_today env for_date) w)
          λ rate_usd w1.
            Reads-resume _ w1 (get_rate env Currency.gbp (date_or_today env for_date) w1)
              (get_rate-Reads Currency.gbp (date_or_today env for_date) w1)
              λ rate_target w2.
                Reads-resume _ w2 (div (mul amount_usd rate_usd) rate_target, w2) (Reads-refl w2)
                  λ q w3. Reads-refl w3
