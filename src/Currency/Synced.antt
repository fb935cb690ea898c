-- ===== src/Currency/Synced.antt =====
-- After `sync_today_rates` every currency has a known rate for today.
use price_monitoring_service.Prelude.{ℕ, ◌≡◌, refl, some, any, true, false, inr, arith}
use price_monitoring_service.Decimal.{Decimal, of_int}
use price_monitoring_service.Decimal.Bounds.{AtMost, AtLeast}
use price_monitoring_service.Decimal.Quantize.{pow-pos}
use price_monitoring_service.Schemas.{Currency, code, currency_eq, currency_eq_refl}
use price_monitoring_service.Exec.{Result, ok, err}
use price_monitoring_service.Env.{Env}
use price_monitoring_service.Models.{World}
use price_monitoring_service.Currency.Nbu.{Rates, rate_in, fetch_all_today_from_nbu}
use price_monitoring_service.Currency.Coverage.{Returns}
use price_monitoring_service.Currency.Repo.{cached_rate}
use price_monitoring_service.Currency.Known.{known_rate}
use price_monitoring_service.Currency.Quoted.{IsRated}
use price_monitoring_service.Currency.Service.{sync_currencies, sync_today_rates}
use price_monitoring_service.Currency.Today.{HasToday, KeepsListed, sync_today_rates_stores}

-- the NBU's list has a rate of the currency, of at most 10 ^ u, not zero and of at most l digits
-- after the point
abbrev pub IsListed : ℕ → ℕ → Rates → Currency → Type 0
IsListed u l rates c = (r : Decimal) × (rate_in (code c) rates ≡ some r) × AtMost u r × AtLeast l r

-- a rate in Redis is known
known_rate-cached :
    (c : Currency) (d : ℕ) (w : World) {r : Decimal}
    → currency_eq c Currency.uah ≡ false
    → cached_rate c d w.redis ≡ some r
    → known_rate c d w ≡ some r
known_rate-cached Currency.uah d w n h = absurd (ground (arith, currency_eq_refl Currency.uah))
known_rate-cached Currency.usd d w n h = rw h refl
known_rate-cached Currency.eur d w n h = rw h refl
known_rate-cached Currency.gbp d w n h = rw h refl

Returns-mono :
    (P Q : World → Type 0) (o : Result ℕ × World)
    → ((v : World) → P v → Q v)
    → Returns P o
    → Returns Q o
Returns-mono P Q (ok n, v) f h = f v h
Returns-mono P Q (err e, v) f h = h

module _ (env : Env) (u l : ℕ) where
  -- the currency has such a rate for today
  abbrev HasRate : Currency → World → Type 0
  HasRate c w = (r : Decimal) × (known_rate c env.today w ≡ some r) × AtMost u r × AtLeast l r

  uah-HasRate : (w : World) → HasRate Currency.uah w
  uah-HasRate w =
      (of_int 1, refl, inr (u, omega arith, omega (arith, pow-pos u)), (omega arith, omega arith))

  all-IsRated :
      (o : Result ℕ × World)
      → Returns (HasRate Currency.usd) o
      → Returns (HasRate Currency.eur) o
      → Returns (HasRate Currency.gbp) o
      → Returns (IsRated u l env.today) o
  all-IsRated (err e, v) usd eur gbp = usd
  all-IsRated (ok n, v) usd eur gbp = rated
    where
      rated : IsRated u l env.today v
      rated Currency.uah = uah-HasRate v
      rated Currency.usd = usd
      rated Currency.eur = eur
      rated Currency.gbp = gbp

  module _ (w : World) {rates : Rates} {w' : World} (takes : KeepsListed env rates)
      (answered : fetch_all_today_from_nbu env w ≡ (ok rates, w')) where
    one-HasRate :
        (c : Currency)
        → currency_eq c Currency.uah ≡ false
        → any (λ j. currency_eq j c) sync_currencies ≡ true
        → IsListed u l rates c
        → Returns (HasRate c) (sync_today_rates env w)
    one-HasRate c n s (r, there, top, low) =
        let (kept, fits) = takes c r there in
        Returns-mono (HasToday env c r kept fits) (HasRate c) (sync_today_rates env w)
          (λ v h. (r, known_rate-cached c env.today v n h.1, top, low))
          (sync_today_rates_stores env c r kept fits w takes answered there s)

    -- If the column keeps each rate of the NBU's list, and the list has a rate of the dollar, the euro and the
    -- pound, each of at most 10 ^ u, not zero and of at most l digits after the point, the call
    -- returns, and afterwards every currency has a known rate for today within these bounds.
    pub sync_today_rates-IsRated :
        IsListed u l rates Currency.usd
        → IsListed u l rates Currency.eur
        → IsListed u l rates Currency.gbp
        → Returns (IsRated u l env.today) (sync_today_rates env w)
    unfolding currency_eq
    sync_today_rates-IsRated usd eur gbp =
        all-IsRated (sync_today_rates env w) (one-HasRate Currency.usd refl refl usd)
          (one-HasRate Currency.eur refl refl eur) (one-HasRate Currency.gbp refl refl gbp)
