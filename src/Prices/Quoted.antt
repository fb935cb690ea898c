-- ===== src/Prices/Quoted.antt =====
-- Readings of prices with known rates: they are returned, in the currency by the rates of the day.
pub mod Rows
pub mod Cards
pub mod Pages
pub mod History
use price_monitoring_service.Prelude.{
  ℕ, ◌+◌, ◌≤◌, ◌≡◌, refl, sym, ◌∙◌, Option, none, some, List, [], ◌∷◌, All, Bool, true, false,
  Bool-cases, inl, inr,
}
use price_monitoring_service.Decimal.{Decimal}
use price_monitoring_service.Decimal.Bounds.{AtMost}
use price_monitoring_service.Schemas.{Currency, ProductDetail, ShopPriceItem}
use price_monitoring_service.Exec.{Exec, Result, ok, err, resume}
use price_monitoring_service.Env.{Env}
use price_monitoring_service.Models.{World}
use price_monitoring_service.Currency.Service.{convert}
use price_monitoring_service.Currency.Known.{
  SameRates, SameRates-refl, SameRates-trans, Settles, Settles-resume, settled,
}
use price_monitoring_service.Currency.Quoted.{
  quoted, quoted-SameRates, IsRated, IsRated-SameRates, convert-quoted,
}
use price_monitoring_service.Prices.Detail.{
  DetailRow, PriceRow, convert_opt, product_detail, detail_each, price_each,
}

-- no price, or one of at most 10 ^ k dollars
abbrev pub IsBounded : ℕ → Option Decimal → Type 0
IsBounded k none = Unit
IsBounded k (some a) = AtMost k a

-- both prices of a row
abbrev pub IsBoundedRow : ℕ → DetailRow → Type 0
IsBoundedRow k row = IsBounded k row.price_min × IsBounded k row.price_max

module _ (env : Env) (currency : Currency) (w0 : World) where
  -- the price is that amount of dollars in the currency, by the rates of today
  abbrev pub IsQuoted : Decimal → Decimal → Type 0
  IsQuoted amount price = quoted currency env.today w0 amount ≡ ok price

  abbrev pub IsQuotedOpt : Option Decimal → Option Decimal → Type 0
  IsQuotedOpt none none = Unit
  IsQuotedOpt none (some price) = ⊥
  IsQuotedOpt (some amount) none = ⊥
  IsQuotedOpt (some amount) (some price) = IsQuoted amount price

  module _ (k u l : ℕ) (small : k + u + l ≤ 23) (rated : IsRated u l env.today w0) where
    pub convert_today :
        (a : Decimal) (w : World)
        → AtMost k a
        → SameRates w0 w
        → Settles (IsQuoted a) w (convert env a currency none w)
    convert_today a w b s =
        let (x, w', e, s', (q, _)) =
          convert-quoted env k u l small a b none currency w
            (IsRated-SameRates u l env.today s rated) in
        (x, w', e, s', sym (quoted-SameRates currency env.today a s) ∙ q)

    -- an optional price
    pub convert_opt-quoted :
        (o : Option Decimal) (w : World)
        → IsBounded k o
        → SameRates w0 w
        → Settles (IsQuotedOpt o) w (convert_opt env o currency w)
    unfolding convert_opt
    convert_opt-quoted none w b s = settled (IsQuotedOpt none) none w tt
    convert_opt-quoted (some a) w b s =
        Settles-resume (IsQuoted a) (IsQuotedOpt (some a)) _ w (convert env a currency none w)
          (convert_today a w b s) λ x w1 s1 q. settled (IsQuotedOpt (some a)) (some x) w1 q

    -- two optional prices, and what is made of them
    pub both-quoted :
        {A : Type 0} (P : A → Type 0) (lo hi : Option Decimal)
        (f : Option Decimal → Option Decimal → Exec World A) (w : World)
        → IsBounded k lo
        → IsBounded k hi
        → SameRates w0 w
        → ((a b : Option Decimal) (v : World)
            → SameRates w0 v
            → IsQuotedOpt lo a
            → IsQuotedOpt hi b
            → Settles P v (f a b v))
        → Settles P w (
            resume
              (λ a. λ v. resume (λ b. f a b) (convert_opt env hi currency v))
              (convert_opt env lo currency w))
    both-quoted P lo hi f w bl bh s h =
        Settles-resume (IsQuotedOpt lo) P _ w (convert_opt env lo currency w)
          (convert_opt-quoted lo w bl s)
          λ a w1 s1 qa.
            let s01 = SameRates-trans s s1 in
            Settles-resume (IsQuotedOpt hi) P _ w1 (convert_opt env hi currency w1)
              (convert_opt-quoted hi w1 bh s01)
              λ b w2 s2 qb. h a b w2 (SameRates-trans s01 s2) qa qb
