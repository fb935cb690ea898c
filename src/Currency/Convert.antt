-- ===== src/Currency/Convert.antt =====
-- `convert`: what it returns is an amount of money with four digits after the point.
use price_monitoring_service.Prelude.{ℕ, ◌≡◌, refl, Option}
use price_monitoring_service.Decimal.{Decimal, quantize, mul, div}
use price_monitoring_service.Decimal.Quantize.{IsMoney, quantize-IsMoney}
use price_monitoring_service.Schemas.{Currency}
use price_monitoring_service.Exec.{Exec, Result, ok, err, resume}
use price_monitoring_service.Env.{Env}
use price_monitoring_service.Models.{World}
use price_monitoring_service.Currency.Service.{convert, get_rate, date_or_today}

-- an outcome that is an amount of money if it is a value
abbrev pub PaysMoney : Result Decimal × World → Type 0
PaysMoney (ok r, w) = IsMoney r
PaysMoney (err e, w) = Unit

resume-PaysMoney :
    {A : Type 0} (f : A → Exec World Decimal) (o : Result A × World)
    → ((a : A) (w : World) → PaysMoney (f a w))
    → PaysMoney (resume f o)
resume-PaysMoney f (ok a, w) h = h a w
resume-PaysMoney f (err e, w) h = tt

quantize-PaysMoney :
    (r : Result Decimal) (w : World) (d : Decimal) → quantize d ≡ r → PaysMoney (r, w)
quantize-PaysMoney (ok x) w d h = quantize-IsMoney d h
quantize-PaysMoney (err e) w d h = tt

module _ (env : Env) (amount_usd : Decimal) (for_date : Option ℕ) where
  through_rate :
      (c : Currency) (w : World) (rate_usd : Decimal)
      → PaysMoney (
          resume
            (λ rate_target w1.
              resume (λ q w2. (quantize q, w2)) (div (mul amount_usd rate_usd) rate_target, w1))
            (get_rate env c (date_or_today env for_date) w))
  through_rate c w rate_usd =
      resume-PaysMoney _ (get_rate env c (date_or_today env for_date) w) λ rate_target w1.
        resume-PaysMoney _ (div (mul amount_usd rate_usd) rate_target, w1)
          λ q w2. quantize-PaysMoney (quantize q) w2 q refl

  -- A conversion that returns a value returns it with exactly four digits after the point, and at
  -- most 28 digits, for every target currency and date.
  pub convert-IsMoney : (c : Currency) (w : World) → PaysMoney (convert env amount_usd c for_date w)
  unfolding convert
  convert-IsMoney Currency.usd w = quantize-PaysMoney (quantize amount_usd) w amount_usd refl
  convert-IsMoney Currency.uah w =
      resume-PaysMoney _ (get_rate env Currency.usd (date_or_today env for_date) w) λ rate_usd w1.
        quantize-PaysMoney (quantize (mul amount_usd rate_usd)) w1 (mul amount_usd rate_usd) refl
  convert-IsMoney Currency.eur w =
      resume-PaysMoney _ (get_rate env Currency.usd (date_or_today env for_date) w)
        λ rate_usd w1. through_rate Currency.eur w1 rate_usd
  convert-IsMoney Currency.gbp w =
      resume-PaysMoney _ (get_rate env Currency.usd (date_or_today env for_date) w)
        λ rate_usd w1. through_rate Currency.gbp w1 rate_usd
