-- ===== src/Currency/Keeps.antt =====
-- Reading and synchronising rates changes no rate that the database has, and keeps its unique
-- constraint.
use price_monitoring_service.Prelude.{
  ℕ, String, ◌≡◌, refl, Option, none, some, List, arith, Option-cases, inl, inr,
}
use price_monitoring_service.Decimal.{Decimal}
use price_monitoring_service.Schemas.{Currency, currency_eq_iff}
use price_monitoring_service.Exec.{Exec, Result, ok, err, resume}
use price_monitoring_service.Env.{Env}
use price_monitoring_service.Models.{ExchangeRate, World}
use price_monitoring_service.Currency.Repo.{stored_rate, rate_on_or_before, upsert_row, cached_rate}
use price_monitoring_service.Currency.Nbu.Graceful.{fetch_from_nbu_graceful}
use price_monitoring_service.Currency.Tables.{stored_rate-upsert_row, IsUnique, upsert_row-IsUnique}
use price_monitoring_service.Currency.Service.{
  get_rate, upsert, cache, rows_of, from_redis, from_db, from_nbu, from_earlier,
}

-- From one list of rows to another no stored rate changes, and unique keys stay unique.
pub record Extends (a b : List ExchangeRate) : Type 0 where
  pub kept :
      (j : Currency) (e : ℕ) (rate : Decimal)
      → stored_rate j e a ≡ some rate
      → stored_rate j e b ≡ some rate
  pub unique : IsUnique a → IsUnique b

pub Extends-refl : (a : List ExchangeRate) → Extends a a
Extends-refl a = record { kept = λ j e rate h. h; unique = λ u. u }

pub Extends-trans : {a b c : List ExchangeRate} → Extends a b → Extends b c → Extends a c
Extends-trans p q = record {
  kept = λ j e rate h. q.kept j e rate (p.kept j e rate h);
  unique = λ u. q.unique (p.unique u);
}

-- A rate that is new to the table extends it.
pub upsert_row-Extends :
    (c : Currency) (d : ℕ) (rate : Decimal) (source : String) (rows : List ExchangeRate)
    → stored_rate c d rows ≡ none
    → Extends rows (upsert_row c d rate source rows)
upsert_row-Extends c d rate source rows new = record {
  kept = λ j e x h.
      rw (stored_rate-upsert_row c d rate source j e rows) (ground (arith, currency_eq_iff c j));
  unique = upsert_row-IsUnique c d rate source rows;
}

module _ (env : Env) where
  pub upsert-Extends :
      (c : Currency) (d : ℕ) (rate : Decimal) (w : World)
      → stored_rate c d (rows_of w) ≡ none
      → Extends (rows_of w) (rows_of (upsert env c d rate w).1)
  unfolding upsert
  upsert-Extends c d rate w new = elim (Option-cases (env.numeric 16 8 rate)) [
    | inl e ↦ rw e (Extends-refl (rows_of w))
    | inr (x, e) ↦ rw e (upsert_row-Extends c d x "NBU" (rows_of w) new)
  ]

  resume-Extends :
      {A B : Type 0} (f : A → Exec World B) (rows : List ExchangeRate) (o : Result A × World)
      → Extends rows (rows_of o.1)
      → ((a : A) (w : World) → Extends (rows_of w) (rows_of (f a w).1))
      → Extends rows (rows_of (resume f o).1)
  resume-Extends f rows (ok a, w) p h = Extends-trans p (h a w)
  resume-Extends f rows (err e, w) p h = p

  module _ (c : Currency) (d : ℕ) where
    from_earlier-Extends :
        (o : Option Decimal) (w : World)
        → Extends (rows_of w) (rows_of (from_earlier env c d o w).1)
    unfolding from_earlier cache
    from_earlier-Extends none w = Extends-refl (rows_of w)
    from_earlier-Extends (some rate) w = Extends-refl (rows_of w)

    from_nbu-Extends :
        (o : Option Decimal) (w : World)
        → stored_rate c d (rows_of w) ≡ none
        → Extends (rows_of w) (rows_of (from_nbu env c d o w).1)
    unfolding from_nbu cache
    from_nbu-Extends none w new = from_earlier-Extends (rate_on_or_before c d (rows_of w)) w
    from_nbu-Extends (some rate) w new =
        resume-Extends _ (rows_of w) (upsert env c d rate w) (upsert-Extends c d rate w new)
          λ _ w'. Extends-refl (rows_of w')

    from_db-Extends :
        (o : Option Decimal) (w : World)
        → stored_rate c d (rows_of w) ≡ o
        → Extends (rows_of w) (rows_of (from_db env c d o w).1)
    unfolding from_db cache
    from_db-Extends none w new =
        let (o, l, e) = fetch_from_nbu_graceful env c d w in
        rw e (from_nbu-Extends o (record w { link = l }) new)
    from_db-Extends (some rate) w new = Extends-refl (rows_of w)

    from_redis-Extends :
        (o : Option Decimal) (w : World) → Extends (rows_of w) (rows_of (from_redis env c d o w).1)
    unfolding from_redis
    from_redis-Extends none w = from_db-Extends (stored_rate c d (rows_of w)) w refl
    from_redis-Extends (some rate) w = Extends-refl (rows_of w)

  -- Whatever `get_rate` does, every rate that the database had is there unchanged, and no key is
  -- there twice if none was.
  pub get_rate-Extends :
      (c : Currency) (d : ℕ) (w : World) → Extends (rows_of w) (rows_of (get_rate env c d w).1)
  unfolding get_rate
  get_rate-Extends Currency.uah d w = Extends-refl (rows_of w)
  get_rate-Extends Currency.usd d w =
      from_redis-Extends Currency.usd d (cached_rate Currency.usd d w.redis) w
  get_rate-Extends Currency.eur d w =
      from_redis-Extends Currency.eur d (cached_rate Currency.eur d w.redis) w
  get_rate-Extends Currency.gbp d w =
      from_redis-Extends Currency.gbp d (cached_rate Currency.gbp d w.redis) w

  -- Whatever `get_rate` does, a rate that the database had stays what it was.
  pub stored_rate-get_rate :
      (c : Currency) (d : ℕ) (w : World) (j : Currency) (e : ℕ) {rate : Decimal}
      → stored_rate j e (rows_of w) ≡ some rate
      → stored_rate j e (rows_of (get_rate env c d w).1) ≡ some rate
  stored_rate-get_rate c d w j e {rate} h = (get_rate-Extends c d w).kept j e rate h

  -- If no key was there twice, none is after `get_rate`.
  pub get_rate-IsUnique :
      (c : Currency) (d : ℕ) (w : World)
      → IsUnique (rows_of w)
      → IsUnique (rows_of (get_rate env c d w).1)
  get_rate-IsUnique c d w = (get_rate-Extends c d w).unique
