-- ===== src/Currency/Tables.antt =====
-- The laws of the rows of exchange_rates and of the Redis keys: what a write changes, and which
-- row the fallback takes.
use price_monitoring_service.Prelude.{
  Option-cases, inl, inr, ℕ, String, ◌≡◌, ◌≤◌, Bool, true, false, ◌&&◌, none, some, List, [], ◌∷◌,
  arith, ltb, leb, ◌==◌, if◌then◌else◌, All,
}
use price_monitoring_service.Decimal.{Decimal}
use price_monitoring_service.Schemas.{Currency, currency_eq, currency_eq_iff}
use price_monitoring_service.Models.{ExchangeRate, CacheEntry}
use price_monitoring_service.Currency.Repo.{
  stored_rate, latest_row, upsert_row, cached_rate, set_key,
}

-- the same key: the same currency and the same date
abbrev pub same_key : Currency → ℕ → Currency → ℕ → Bool
same_key c d j e = currency_eq c j && d == e

-- After an upsert the row of its key has the new rate, and every other key what it had.
pub stored_rate-upsert_row :
    (c : Currency) (d : ℕ) (rate : Decimal) (source : String) (j : Currency) (e : ℕ)
    (rows : List ExchangeRate)
    → stored_rate j e (upsert_row c d rate source rows)
      ≡ (if same_key c d j e then some rate else stored_rate j e rows)
unfolding stored_rate upsert_row
stored_rate-upsert_row c d rate source j e [] = ground arith
stored_rate-upsert_row c d rate source j e (row ∷ rows) = ground (
  arith,
  stored_rate-upsert_row c d rate source j e rows,
  currency_eq_iff row.currency_code c,
  currency_eq_iff row.currency_code j,
  currency_eq_iff c j,
)

-- A key that is set has the new value, and every other key what it had.
pub cached_rate-set_key :
    (k : CacheEntry) (j : Currency) (e : ℕ) (keys : List CacheEntry)
    → cached_rate j e (set_key k keys)
      ≡ (if same_key k.currency k.date j e then some k.rate else cached_rate j e keys)
unfolding cached_rate set_key
cached_rate-set_key k j e [] = ground arith
cached_rate-set_key k j e (x ∷ keys) = ground (
  arith,
  cached_rate-set_key k j e keys,
  currency_eq_iff x.currency k.currency,
  currency_eq_iff x.currency j,
  currency_eq_iff k.currency j,
)

-- A row is a candidate for a date if it has the currency and is no later.
abbrev pub is_candidate : Currency → ℕ → ExchangeRate → Bool
is_candidate c d row = currency_eq row.currency_code c && leb row.date d

-- no candidate is later than the row
abbrev pub NoLater : Currency → ℕ → ExchangeRate → ExchangeRate → Type 0
NoLater c d best row = (is_candidate c d row && ltb best.date row.date) ≡ false

latest_row-none :
    (c : Currency) (d : ℕ) (best : ExchangeRate) (rows : List ExchangeRate)
    → latest_row c d rows ≡ none
    → All (NoLater c d best) rows
unfolding latest_row
latest_row-none c d best [] h = tt
latest_row-none c d best (row ∷ rows) h =
    (ground arith, latest_row-none c d best rows (ground arith))

NoLater-trans :
    (c : Currency) (d : ℕ) (b best : ExchangeRate) (rows : List ExchangeRate)
    → b.date ≤ best.date
    → All (NoLater c d b) rows
    → All (NoLater c d best) rows
NoLater-trans c d b best [] h all = tt
NoLater-trans c d b best (row ∷ rows) h all =
    (ground (arith, all.0), NoLater-trans c d b best rows h all.1)

-- The row that the fallback takes is a candidate, and no candidate is later.
pub latest_row_lem :
    (c : Currency) (d : ℕ) (rows : List ExchangeRate) {best : ExchangeRate}
    → latest_row c d rows ≡ some best
    → (is_candidate c d best ≡ true) × All (NoLater c d best) rows
unfolding latest_row
latest_row_lem c d [] {best} h = cc
latest_row_lem c d (row ∷ rows) {best} h = elim (Option-cases (latest_row c d rows)) [
  | inl missing ↦ (ground arith, (ground arith, latest_row-none c d best rows missing))
  | inr (b, e) ↦ (
    ground (arith, latest_row_lem c d rows e),
    (
      ground arith,
      NoLater-trans c d b best rows (ground (arith, latest_row_lem c d rows e))
          (latest_row_lem c d rows e).1,
    ),
  )
]

-- The rows keep the unique constraint on (currency_code, date): no row's key is found below it.
abbrev pub IsUnique : List ExchangeRate → Type 0
IsUnique [] = Unit
IsUnique (row ∷ rows) = (stored_rate row.currency_code row.date rows ≡ none) × IsUnique rows

pub upsert_row-IsUnique :
    (c : Currency) (d : ℕ) (rate : Decimal) (source : String) (rows : List ExchangeRate)
    → IsUnique rows
    → IsUnique (upsert_row c d rate source rows)
unfolding upsert_row stored_rate
upsert_row-IsUnique c d rate source [] h = ground arith
upsert_row-IsUnique c d rate source (row ∷ rows) h = ground (
  arith,
  upsert_row-IsUnique c d rate source rows h.1,
  stored_rate-upsert_row c d rate source row.currency_code row.date rows,
  currency_eq_iff c row.currency_code,
  currency_eq_iff row.currency_code c,
)
