-- ===== src/Currency/Quoted.antt =====
-- `convert` by the rates that are known without the NBU: what it returns, as a function of the
-- amount and the rates.
use price_monitoring_service.Prelude.{
  subst, sym, ℕ, ◌+◌, ◌≤◌, ◌≡◌, refl, ap, ◌∙◌, Option, none, some, arith,
}
use price_monitoring_service.Decimal.{Decimal, mul, div, quantize}
use price_monitoring_service.Decimal.Bounds.{
  AtMost, AtLeast, IsAmount, IsAmount-mono, mul-AtMost, quantize_returns,
}
use price_monitoring_service.Decimal.Bounds.Quotient.{div_returns}
use price_monitoring_service.Schemas.{Currency}
use price_monitoring_service.Exec.{Result, ok, err, value_error, resume}
use price_monitoring_service.Env.{Env}
use price_monitoring_service.Models.{World}
use price_monitoring_service.Currency.Service.{get_rate, convert, date_or_today}
use price_monitoring_service.Currency.Known.{
  known_rate, SameRates, Settles, Settles-resume, settled, get_rate-known,
}

-- an amount of money, of a quotient that there is
abbrev pub money_of : Result Decimal → Result Decimal
money_of (ok q) = quantize q
money_of (err e) = err e

-- the amount in a currency by two known rates
abbrev pub quoted_at : Decimal → Option Decimal → Option Decimal → Result Decimal
quoted_at amount (some rate_usd) (some rate_target) =
    money_of (div (mul amount rate_usd) rate_target)
quoted_at amount none o = err value_error
quoted_at amount (some rate_usd) none = err value_error

-- the amount in hryvnias by the known rate of the dollar
abbrev pub quoted_uah : Decimal → Option Decimal → Result Decimal
quoted_uah amount none = err value_error
quoted_uah amount (some rate_usd) = quantize (mul amount rate_usd)

-- An amount of dollars in a currency, by the rates that are known: to hryvnias, and from there.
unfoldable pub quoted : Currency → ℕ → World → Decimal → Result Decimal
quoted Currency.usd d w amount = quantize amount
quoted Currency.uah d w amount = quoted_uah amount (known_rate Currency.usd d w)
quoted c d w amount = quoted_at amount (known_rate Currency.usd d w) (known_rate c d w)

pub quoted-SameRates :
    (c : Currency) (d : ℕ) {w w' : World} (amount : Decimal)
    → SameRates w w'
    → quoted c d w' amount ≡ quoted c d w amount
unfolding quoted
quoted-SameRates Currency.usd d amount s = refl
quoted-SameRates Currency.uah d amount s = ap (quoted_uah amount) (s.same Currency.usd d)
quoted-SameRates Currency.eur d {w} {w'} amount s =
    ap (λ o. quoted_at amount o (known_rate Currency.eur d w')) (s.same Currency.usd d)
    ∙ ap (quoted_at amount (known_rate Currency.usd d w)) (s.same Currency.eur d)
quoted-SameRates Currency.gbp d {w} {w'} amount s =
    ap (λ o. quoted_at amount o (known_rate Currency.gbp d w')) (s.same Currency.usd d)
    ∙ ap (quoted_at amount (known_rate Currency.usd d w)) (s.same Currency.gbp d)

-- Every currency has a rate for the day: at most 10 ^ u, not zero, and of at most l digits after
-- the point.
abbrev pub IsRated : ℕ → ℕ → ℕ → World → Type 0
IsRated u l d w =
    (c : Currency) → (r : Decimal) × (known_rate c d w ≡ some r) × AtMost u r × AtLeast l r

pub IsRated-SameRates :
    (u l d : ℕ) {w w' : World} → SameRates w w' → IsRated u l d w → IsRated u l d w'
IsRated-SameRates u l d s h c = let (r, e, top, low) = h c in (r, s.same c d ∙ e, top, low)

module _ (env : Env) where
  module _ (k u l : ℕ) (small : k + u + l ≤ 23) (amount : Decimal) (bound : AtMost k amount)
      (for_date : Option ℕ) where
    abbrev day : ℕ
    day = date_or_today env for_date

    through :
        (c : Currency) (w w1 : World) (usd : Decimal)
        → IsRated u l day w
        → known_rate Currency.usd day w ≡ some usd
        → AtMost u usd
        → SameRates w w1
        → Settles
            (λ x. quoted_at amount (known_rate Currency.usd day w) (known_rate c day w) ≡ ok x)
            w1
            (resume
              (λ rate_target w1.
                resume (λ q w2. (quantize q, w2)) (div (mul amount usd) rate_target, w1))
              (get_rate env c day w1))
    through c w w1 usd rated e top s =
        let (r, f, g, low) = rated c in
        let (q, div_ok, size) =
          div_returns (k + u) l (mul amount usd) r (mul-AtMost k u amount usd bound top) low in
        let (x, made, _) = quantize_returns (k + u + l) q size small in
        Settles-resume (λ y. y ≡ r) _ _ w1 (get_rate env c day w1)
          (get_rate-known env c day w1 (s.same c day ∙ f))
          λ y w2 s2 is_r.
            rw is_r (rw div_ok (rw made (rw e (rw f (rw div_ok (settled _ x w2 made))))))

    -- the effects of a conversion
    convert-Settles :
        (c : Currency) (w : World)
        → IsRated u l day w
        → Settles (λ x. quoted c day w amount ≡ ok x) w (convert env amount c for_date w)
    unfolding convert quoted
    convert-Settles Currency.usd w rated =
        let (x, made, _) = quantize_returns k amount bound (omega arith) in
        rw made (settled _ x w refl)
    convert-Settles Currency.uah w rated =
        let (usd, e, top, low) = rated Currency.usd in
        let (x, made, _) =
          quantize_returns (k + u) (mul amount usd) (mul-AtMost k u amount usd bound top)
            (omega arith) in
        Settles-resume (λ y. y ≡ usd) _ _ w (get_rate env Currency.usd day w)
          (get_rate-known env Currency.usd day w e)
          λ y w2 s2 is_usd. rw is_usd (rw made (rw e (rw made (settled _ x w2 refl))))
    convert-Settles Currency.eur w rated =
        let (usd, e, top, low) = rated Currency.usd in
        Settles-resume (λ y. y ≡ usd) _ _ w (get_rate env Currency.usd day w)
          (get_rate-known env Currency.usd day w e)
          λ y w2 s2 is_usd. rw is_usd (through Currency.eur w w2 usd rated e top s2)
    convert-Settles Currency.gbp w rated =
        let (usd, e, top, low) = rated Currency.usd in
        Settles-resume (λ y. y ≡ usd) _ _ w (get_rate env Currency.usd day w)
          (get_rate-known env Currency.usd day w e)
          λ y w2 s2 is_usd. rw is_usd (through Currency.gbp w w2 usd rated e top s2)

    by_rates :
        (c : Currency) (w : World)
        → IsRated u l day w
        → (x : Decimal) × (quoted_at amount (known_rate Currency.usd day w) (known_rate c day w)
            ≡ ok x)
          × IsAmount (k + u + l) x
    by_rates c w rated =
        let (usd, e, top, _) = rated Currency.usd in
        let (r, f, _, low) = rated c in
        let (q, div_ok, size) =
          div_returns (k + u) l (mul amount usd) r (mul-AtMost k u amount usd bound top) low in
        let (x, made, amount) = quantize_returns (k + u + l) q size small in
        (x, rw e (rw f (rw div_ok made)), amount)

    quoted_returns :
        (c : Currency) (w : World)
        → IsRated u l day w
        → (x : Decimal) × (quoted c day w amount ≡ ok x) × IsAmount (k + u + l) x
    unfolding quoted
    quoted_returns Currency.usd w rated =
        let (x, made, size) = quantize_returns k amount bound (omega arith) in
        (x, made, IsAmount-mono x (omega arith) size)
    quoted_returns Currency.uah w rated =
        let (usd, e, top, low) = rated Currency.usd in
        let (x, made, size) =
          quantize_returns (k + u) (mul amount usd) (mul-AtMost k u amount usd bound top)
            (omega arith) in
        (x, rw e made, IsAmount-mono x (omega arith) size)
    quoted_returns Currency.eur w rated = by_rates Currency.eur w rated
    quoted_returns Currency.gbp w rated = by_rates Currency.gbp w rated

    -- If the amount is at most 10 ^ k dollars, every currency has a known rate for the day, of at
    -- most 10 ^ u, not zero and of at most l digits after the point, and k + u + l is at most 23, a
    -- conversion returns the amount by those rates: it has four digits after the point and is at most
    -- 10 ^ (k + u + l). At most Redis changes, and no rate that is known does.
    pub convert-quoted :
        (c : Currency) (w : World)
        → IsRated u l day w
        → Settles
            (λ x. (quoted c day w amount ≡ ok x) × IsAmount (k + u + l) x)
            w
            (convert env amount c for_date w)
    convert-quoted c w rated =
        let (x, w', e, s, q) = convert-Settles c w rated in
        let (y, made, size) = quoted_returns c w rated in
        let same : y ≡ x = ground (arith, sym made ∙ q) in
        (x, w', e, s, (q, subst (IsAmount (k + u + l)) same size))
