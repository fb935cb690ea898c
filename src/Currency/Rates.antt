-- ===== src/Currency/Rates.antt =====
-- `get_rate`: the order in which it asks its sources, what it leaves behind, and that a second
-- call returns the same rate.
use price_monitoring_service.Prelude.{
  ℕ, ◌≡◌, ◌≢◌, refl, Option, none, some, arith, Option-cases, inl, inr, ◌∙◌,
}
use price_monitoring_service.Decimal.{Decimal}
use price_monitoring_service.Schemas.{Currency, currency_eq_refl}
use price_monitoring_service.Exec.{Result, ok, err, value_error, data_error}
use price_monitoring_service.Env.{Env}
use price_monitoring_service.Models.{World}
use price_monitoring_service.Currency.Repo.{
  stored_rate, rate_on_or_before, upsert_row, cached_rate, set_key,
}
use price_monitoring_service.Currency.Nbu.{fetch_from_nbu}
use price_monitoring_service.Currency.Nbu.Graceful.{fetch_from_nbu_graceful}
use price_monitoring_service.Currency.Tables.{cached_rate-set_key}
use price_monitoring_service.Currency.Service.{
  get_rate, upsert, cache, ttl_for, rows_of, set_rows, from_redis, from_db, from_nbu, from_earlier,
}

module _ (env : Env) (c : Currency) (d : ℕ) where
  -- the world after `_cache`
  abbrev with_key : Decimal → World → World
  with_key rate w = record w {
    redis = set_key (record { currency = c; date = d; rate = rate; ttl = ttl_for env d }) w.redis;
  }

  cached-with_key :
      (rate : Decimal) (w : World) → cached_rate c d (with_key rate w).redis ≡ some rate
  cached-with_key rate w = cached_rate-set_key _ c d w.redis ∙ ground (arith, currency_eq_refl c)

  -- a world in which Redis has the rate that was returned
  abbrev HasKey : Result Decimal × World → Type 0
  HasKey (ok rate, w) = cached_rate c d w.redis ≡ some rate
  HasKey (err e, w) = Unit

  from_earlier-HasKey : (o : Option Decimal) (w : World) → HasKey (from_earlier env c d o w)
  unfolding from_earlier cache
  from_earlier-HasKey none w = tt
  from_earlier-HasKey (some rate) w = cached-with_key rate w

  from_nbu-HasKey : (o : Option Decimal) (w : World) → HasKey (from_nbu env c d o w)
  unfolding from_nbu upsert cache
  from_nbu-HasKey none w = from_earlier-HasKey (rate_on_or_before c d (rows_of w)) w
  from_nbu-HasKey (some rate) w = elim (Option-cases (env.numeric 16 8 rate)) [
    | inl e ↦ rw e tt
    | inr (x, e) ↦ rw e (cached-with_key rate (set_rows (upsert_row c d x "NBU" (rows_of w)) w))
  ]

  from_db-HasKey : (o : Option Decimal) (w : World) → HasKey (from_db env c d o w)
  unfolding from_db cache
  from_db-HasKey none w =
      let (o, l, e) = fetch_from_nbu_graceful env c d w in
      rw e (from_nbu-HasKey o (record w { link = l }))
  from_db-HasKey (some rate) w = cached-with_key rate w

  from_redis-HasKey : (w : World) → HasKey (from_redis env c d (cached_rate c d w.redis) w)
  unfolding from_redis
  from_redis-HasKey w = elim (Option-cases (cached_rate c d w.redis)) [
    | inl e ↦ rw e (from_db-HasKey (stored_rate c d (rows_of w)) w)
    | inr (rate, e) ↦ rw e e
  ]

-- every currency but the hryvnia goes through Redis
get_rate-from_redis :
    (env : Env) (c : Currency) (d : ℕ) (w : World)
    → c ≢ Currency.uah
    → get_rate env c d w ≡ from_redis env c d (cached_rate c d w.redis) w
unfolding get_rate
get_rate-from_redis env Currency.usd d w h = refl
get_rate-from_redis env Currency.uah d w h = absurd (h refl)
get_rate-from_redis env Currency.eur d w h = refl
get_rate-from_redis env Currency.gbp d w h = refl

module _ (env : Env) where
  again :
      (c : Currency) (d : ℕ) (w : World) {rate : Decimal} {w' : World}
      → c ≢ Currency.uah
      → get_rate env c d w ≡ (ok rate, w')
      → get_rate env c d w' ≡ (ok rate, w')
  unfolding from_redis
  again c d w {rate} {w'} ne h =
      let has : HasKey env c d (get_rate env c d w) =
        rw (get_rate-from_redis env c d w ne) (from_redis-HasKey env c d w) in
      let key : cached_rate c d w'.redis ≡ some rate = rw h at has in
      get_rate-from_redis env c d w' ne ∙ rw key refl

  -- A rate that was returned is returned again from the world that the call left, with no
  -- request and no write.
  pub get_rate_again :
      (c : Currency) (d : ℕ) (w : World) {rate : Decimal} {w' : World}
      → get_rate env c d w ≡ (ok rate, w')
      → get_rate env c d w' ≡ (ok rate, w')
  unfolding get_rate
  get_rate_again Currency.usd d w h = again Currency.usd d w (λ e. cc) h
  get_rate_again Currency.eur d w h = again Currency.eur d w (λ e. cc) h
  get_rate_again Currency.gbp d w h = again Currency.gbp d w (λ e. cc) h
  get_rate_again Currency.uah d w h = cc h

abbrev pub value_or_error : Option Decimal → Result Decimal
value_or_error none = err value_error
value_or_error (some rate) = ok rate

-- what a call of the NBU returned
abbrev pub returned : Result (Option Decimal) → Option Decimal
returned (ok o) = o
returned (err e) = none

-- a rate of the NBU is returned if the column keeps it; if it overflows the column, the write raises
abbrev pub if_kept : Option Decimal → Decimal → Result Decimal
if_kept none rate = err data_error
if_kept (some kept) rate = ok rate

-- What the four sources give together: Redis, the database for the date, the NBU, and the database
-- for the nearest earlier date.
abbrev pub value_of_sources :
    Env → Option Decimal → Option Decimal → Option Decimal → Option Decimal → Result Decimal
value_of_sources env (some rate) stored nbu earlier = ok rate
value_of_sources env none (some rate) nbu earlier = ok rate
value_of_sources env none none (some rate) earlier = if_kept (env.numeric 16 8 rate) rate
value_of_sources env none none none earlier = value_or_error earlier

module _ (env : Env) (c : Currency) (d : ℕ) where
  value-from_earlier :
      (o : Option Decimal) (w : World) → (from_earlier env c d o w).0 ≡ value_or_error o
  unfolding from_earlier cache
  value-from_earlier none w = refl
  value-from_earlier (some rate) w = refl

  value-from_nbu :
      (o : Option Decimal) (w : World)
      → (from_nbu env c d o w).0
        ≡ value_of_sources env none none o (rate_on_or_before c d (rows_of w))
  unfolding from_nbu upsert cache
  value-from_nbu none w = value-from_earlier (rate_on_or_before c d (rows_of w)) w
  value-from_nbu (some rate) w = elim (Option-cases (env.numeric 16 8 rate)) [
    | inl e ↦ rw e refl
    | inr (kept, e) ↦ rw e refl
  ]

  value-from_db :
      (o : Option Decimal) (w : World)
      → (from_db env c d o w).0
        ≡ value_of_sources env none o
            (returned (fetch_from_nbu env c d w).0)
            (rate_on_or_before c d (rows_of w))
  unfolding from_db cache
  value-from_db none w =
      let (o, l, e) = fetch_from_nbu_graceful env c d w in
      rw e (value-from_nbu o (record w { link = l }))
  value-from_db (some rate) w = refl

  -- A currency other than the hryvnia has the first rate that there is: in Redis, in the
  -- database for the date, at the NBU, in the database for the nearest earlier date; and with
  -- none of them the call raises ValueError. A rate of the NBU that overflows the column of the
  -- rates is not returned: the call raises a DataError.
  pub get_rate_first_source :
      (w : World)
      → c ≢ Currency.uah
      → (get_rate env c d w).0
        ≡ value_of_sources env
            (cached_rate c d w.redis)
            (stored_rate c d (rows_of w))
            (returned (fetch_from_nbu env c d w).0)
            (rate_on_or_before c d (rows_of w))
  unfolding from_redis
  get_rate_first_source w ne =
      rw (get_rate-from_redis env c d w ne) (elim (Option-cases (cached_rate c d w.redis)) [
        | inl e ↦ rw e (value-from_db (stored_rate c d (rows_of w)) w)
        | inr (rate, e) ↦ rw e refl
      ])
