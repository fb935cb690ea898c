-- ===== src/Currency/Known.antt =====
-- The rates that `get_rate` finds without the NBU: what it reads through Redis and the database, as
-- one function.
use price_monitoring_service.Prelude.{
  ℕ, ◌≡◌, refl, ap, ◌∙◌, sym, Option, none, some, Option-cases, inl, inr, Bool-cases, arith,
  if◌then◌else◌,
}
use price_monitoring_service.Decimal.{Decimal, of_int}
use price_monitoring_service.Schemas.{Currency, currency_eq_iff}
use price_monitoring_service.Exec.{Exec, Result, ok, resume}
use price_monitoring_service.Env.{Env}
use price_monitoring_service.Models.{CacheEntry, World}
use price_monitoring_service.Currency.Repo.{stored_rate, cached_rate}
use price_monitoring_service.Currency.Tables.{cached_rate-set_key, same_key}
use price_monitoring_service.Currency.Service.{
  get_rate, from_redis, from_db, cache, ttl_for, rows_of,
}

abbrev pub redis_or : Option Decimal → Option Decimal → Option Decimal
redis_or none o = o
redis_or (some r) o = some r

-- the rate of a currency and a day, by Redis and then the database; hryvnias are worth 1
abbrev pub known_rate : Currency → ℕ → World → Option Decimal
known_rate Currency.uah d w = some (of_int 1)
known_rate c d w = redis_or (cached_rate c d w.redis) (stored_rate c d (rows_of w))

-- The second world differs from the first in Redis only, and every rate is known as before.
pub record SameRates (w w' : World) : Type 0 where
  pub only_redis : w' ≡ record w { redis = w'.redis }
  pub same : (c : Currency) (d : ℕ) → known_rate c d w' ≡ known_rate c d w

pub SameRates-refl : (w : World) → SameRates w w
SameRates-refl w = record { only_redis = refl; same = λ c d. refl }

pub SameRates-trans : {w w' w'' : World} → SameRates w w' → SameRates w' w'' → SameRates w w''
SameRates-trans {w} {w'} {w''} p q = record {
  only_redis =
      q.only_redis ∙ ap {A = World} {B = World} (λ v. record v { redis = w''.redis }) p.only_redis;
  same = λ c d. q.same c d ∙ p.same c d;
}

-- an outcome that has returned a value with the property, the rates as they were known
abbrev pub Settles : {A : Type 0} → (A → Type 0) → World → Result A × World → Type 0
Settles {A} P w o = (a : A) × (w' : World) × (o ≡ (ok a, w')) × SameRates w w' × P a

pub Settles-resume :
    {A B : Type 0} (P : A → Type 0) (Q : B → Type 0) (f : A → Exec World B) (w : World)
    (o : Result A × World)
    → Settles P w o
    → ((a : A) (w' : World) → SameRates w w' → P a → Settles Q w' (f a w'))
    → Settles Q w (resume f o)
Settles-resume P Q f w o (a, w', e, s, p) h =
    let (b, w'', e', s', q) = h a w' s p in (b, w'', ap (resume f) e ∙ e', SameRates-trans s s', q)

-- no condition on the value
abbrev pub Any : {A : Type 0} → A → Type 0
Any a = Unit

pub settled : {A : Type 0} (P : A → Type 0) (a : A) (w : World) → P a → Settles P w (ok a, w)
settled P a w p = (a, w, refl, SameRates-refl w, p)

module _ (env : Env) where
  -- Copying a stored rate to Redis changes no rate that is known.
  cache-known :
      (c : Currency) (d : ℕ) (r : Decimal) (w : World)
      → cached_rate c d w.redis ≡ none
      → stored_rate c d (rows_of w) ≡ some r
      → SameRates w (cache env c r d w).1
  unfolding cache
  cache-known c d r w missed there = record { only_redis = refl; same = same }
    where
      entry : CacheEntry
      entry = record { currency = c; date = d; rate = r; ttl = ttl_for env d }

      rate :
          (j : Currency) (e : ℕ)
          → redis_or
              (if same_key c d j e then some r else cached_rate j e w.redis)
              (stored_rate j e (rows_of w))
            ≡ redis_or (cached_rate j e w.redis) (stored_rate j e (rows_of w))
      rate j e = elim (Bool-cases (same_key c d j e)) [
        | inr other ↦ rw other refl
        | inl this ↦
            let f : c ≡ j = ground (arith, currency_eq_iff c j) in
            let g : d ≡ e = ground arith in
            rw this (rw (sym f) (rw (sym g) (rw missed (rw there refl))))
      ]

      same : (j : Currency) (e : ℕ) → known_rate j e (cache env c r d w).1 ≡ known_rate j e w
      same Currency.uah e = refl
      same Currency.usd e =
          rw (cached_rate-set_key entry Currency.usd e w.redis) (rate Currency.usd e)
      same Currency.eur e =
          rw (cached_rate-set_key entry Currency.eur e w.redis) (rate Currency.eur e)
      same Currency.gbp e =
          rw (cached_rate-set_key entry Currency.gbp e w.redis) (rate Currency.gbp e)

  -- A rate that Redis or the database has is found there.
  from_redis-known :
      (c : Currency) (d : ℕ) (w : World) {r : Decimal}
      → redis_or (cached_rate c d w.redis) (stored_rate c d (rows_of w)) ≡ some r
      → Settles (λ x. x ≡ r) w (from_redis env c d (cached_rate c d w.redis) w)
  unfolding from_redis from_db
  from_redis-known c d w {r} h = elim (Option-cases (cached_rate c d w.redis)) [
    | inr (x, hit) ↦ rw hit (settled (λ y. y ≡ r) x w (ground arith))
    | inl missed ↦
        let there : stored_rate c d (rows_of w) ≡ some r =
          sym (ap (λ o. redis_or o (stored_rate c d (rows_of w))) missed) ∙ h in
        rw missed
          (rw there (r, (cache env c r d w).1, refl, cache-known c d r w missed there, refl))
  ]

  -- A rate that is known is what `get_rate` returns.
  pub get_rate-known :
      (c : Currency) (d : ℕ) (w : World) {r : Decimal}
      → known_rate c d w ≡ some r
      → Settles (λ x. x ≡ r) w (get_rate env c d w)
  unfolding get_rate
  get_rate-known Currency.uah d w {r} h = settled (λ x. x ≡ r) (of_int 1) w (ground arith)
  get_rate-known Currency.usd d w h = from_redis-known Currency.usd d w h
  get_rate-known Currency.eur d w h = from_redis-known Currency.eur d w h
  get_rate-known Currency.gbp d w h = from_redis-known Currency.gbp d w h
