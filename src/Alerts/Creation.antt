-- ===== src/Alerts/Creation.antt =====
-- Creating alerts: the row that is added, and its threshold in dollars.
use price_monitoring_service.Prelude.{
  ℕ, ◌≡◌, refl, ap, ◌∙◌, true, ◌&&◌, Option, none, some, ◌++◌, Bool-cases, inl, inr, [], ◌∷◌, arith,
}
use price_monitoring_service.Decimal.{Decimal, mul, div, quantize}
use price_monitoring_service.Exec.{Exec, Result, ok, err, resume}
use price_monitoring_service.Env.{Env}
use price_monitoring_service.Schemas.{Currency, AlertCreate, AlertResponse}
use price_monitoring_service.Models.{World}
use price_monitoring_service.Currency.Service.{get_rate}
use price_monitoring_service.Currency.Frame.{alerts-get_rate}
use price_monitoring_service.Alerts.Service.{
  to_usd, threshold_in_usd, create_alert, store_alert, insert_alert, new_alert,
}
use price_monitoring_service.Watchlist.{user_exists, product_exists}

module _ (env : Env) where
  -- the amount by the two rates, as the result of a division that is rounded to four digits
  abbrev rounded : Result Decimal → Result Decimal
  rounded (ok q) = quantize q
  rounded (err e) = err e

  abbrev pub amount_in_usd : Decimal → Decimal → Decimal → Result Decimal
  amount_in_usd amount rate_other rate_usd = rounded (div (mul amount rate_other) rate_usd)

  -- An amount in dollars: it is the amount itself in dollars, and else the amount times the rate of
  -- its currency over the rate of the dollar, the rates of today that `get_rate` returns.
  abbrev pub IsInUsd : Decimal → Currency → World → Decimal → Type 0
  IsInUsd amount Currency.usd w x = x ≡ amount
  IsInUsd amount c w x =
      (rate_usd rate_other : Decimal) × (w1 w2 : World) × (get_rate env Currency.usd env.today w
        ≡ (ok rate_usd, w1))
      × (get_rate env c env.today w1 ≡ (ok rate_other, w2))
      × (amount_in_usd amount rate_other rate_usd ≡ ok x)

  -- An outcome of the creation in a world: a result comes with one row more at the end, active and of
  -- the user, with what the column keeps of the threshold in dollars, and shows this row; an error
  -- leaves the rows.
  abbrev pub Creates : ℕ → ℕ → AlertCreate → World → Result AlertResponse × World → Type 0
  Creates alert_id user_id body w0 (ok r, w) =
      (x kept : Decimal) × IsInUsd body.threshold_price body.currency w0 x
      × (env.numeric 12 4 x ≡ some kept)
      × (user_exists user_id w ≡ true)
      × (w.db.price_alerts
          ≡ w0.db.price_alerts
            ++ record {
              id = alert_id;
              user_id = user_id;
              product_id = body.product_id;
              threshold_price_usd = some kept;
              currency_code = some body.currency;
              is_active = true;
              triggered_at = none;
              created_at = env.now;
            }
              ∷ [])
      × (r ≡ record {
        id = alert_id;
        product_id = body.product_id;
        threshold_price_usd = some kept;
        currency_code = some body.currency;
        is_active = true;
        created_at = env.now;
      })
  Creates alert_id user_id body w0 (err e, w) = w.db.price_alerts ≡ w0.db.price_alerts

  module _ (w0 : World) where
    -- an outcome whose value has the property and that leaves the alerts
    abbrev LeavesAlerts : {A : Type 0} → (A → World → Type 0) → Result A × World → Type 0
    LeavesAlerts P (ok a, w) = P a w × (w.db.price_alerts ≡ w0.db.price_alerts)
    LeavesAlerts P (err e, w) = w.db.price_alerts ≡ w0.db.price_alerts

    resume-LeavesAlerts :
        {A B : Type 0} (P : A → World → Type 0) (Q : B → World → Type 0) (f : A → Exec World B)
        (o : Result A × World)
        → LeavesAlerts P o
        → ((a : A) (w : World)
            → P a w
            → w.db.price_alerts ≡ w0.db.price_alerts
            → LeavesAlerts Q (f a w))
        → LeavesAlerts Q (resume f o)
    resume-LeavesAlerts P Q f (ok a, w) h rest = rest a w h.0 h.1
    resume-LeavesAlerts P Q f (err e, w) h rest = h

    result-LeavesAlerts :
        {A : Type 0} (o : Result A × World)
        → o.1.db.price_alerts ≡ w0.db.price_alerts
        → LeavesAlerts (λ a w. o ≡ (ok a, w)) o
    result-LeavesAlerts (ok a, w) h = (refl, h)
    result-LeavesAlerts (err e, w) h = h

    rounded-LeavesAlerts :
        (q : Decimal) (w : World) (r : Result Decimal)
        → w.db.price_alerts ≡ w0.db.price_alerts
        → LeavesAlerts (λ x v. r ≡ ok x) (r, w)
    rounded-LeavesAlerts q w (ok x) h = (refl, h)
    rounded-LeavesAlerts q w (err e) h = h

    module _ (amount : Decimal) (c : Currency) where
      abbrev Quotient : Decimal → World → Type 0
      Quotient x v =
          (rate_usd rate_other : Decimal) × (w1 w2 : World) × (get_rate env Currency.usd env.today
              w0
            ≡ (ok rate_usd, w1))
          × (get_rate env c env.today w1 ≡ (ok rate_other, w2))
          × (amount_in_usd amount rate_other rate_usd ≡ ok x)

      threshold-Quotient : LeavesAlerts Quotient (threshold_in_usd env amount c w0)
      unfolding threshold_in_usd
      threshold-Quotient =
          resume-LeavesAlerts _ Quotient _ (get_rate env Currency.usd env.today w0)
            (result-LeavesAlerts _ (alerts-get_rate env Currency.usd env.today w0))
            λ ru w1 e1 s1.
              resume-LeavesAlerts _ Quotient _ (get_rate env c env.today w1)
                (result-LeavesAlerts _ (alerts-get_rate env c env.today w1 ∙ s1))
                λ ro w2 e2 s2.
                  resume-LeavesAlerts (λ q v. div (mul amount ro) ru ≡ ok q) Quotient _
                    (div (mul amount ro) ru, w2)
                    (rounded-LeavesAlerts amount w2 (div (mul amount ro) ru) s2)
                    λ q w3 e3 s3. last ru ro w1 w2 q w3 e1 e2 e3 s3 (quantize q) refl
        where
          last :
              (ru ro : Decimal) (w1 w2 : World) (q : Decimal) (w3 : World)
              → get_rate env Currency.usd env.today w0 ≡ (ok ru, w1)
              → get_rate env c env.today w1 ≡ (ok ro, w2)
              → div (mul amount ro) ru ≡ ok q
              → w3.db.price_alerts ≡ w0.db.price_alerts
              → (r : Result Decimal) → quantize q ≡ r
              → LeavesAlerts Quotient (r, w3)
          last ru ro w1 w2 q w3 e1 e2 e3 s (ok x) e =
              ((ru, ro, w1, w2, e1, e2, ap rounded e3 ∙ e), s)
          last ru ro w1 w2 q w3 e1 e2 e3 s (err x) e = s

    to_usd-IsInUsd :
        (amount : Decimal) (c : Currency)
        → LeavesAlerts (λ x v. IsInUsd amount c w0 x) (to_usd env amount c w0)
    unfolding to_usd
    to_usd-IsInUsd amount Currency.usd = (refl, refl)
    to_usd-IsInUsd amount Currency.uah = threshold-Quotient amount Currency.uah
    to_usd-IsInUsd amount Currency.eur = threshold-Quotient amount Currency.eur
    to_usd-IsInUsd amount Currency.gbp = threshold-Quotient amount Currency.gbp

    module _ (alert_id user_id : ℕ) (body : AlertCreate) where
      insert_alert-Creates :
          (x : Decimal) (o : Option Decimal) (w : World)
          → IsInUsd body.threshold_price body.currency w0 x
          → env.numeric 12 4 x ≡ o
          → w.db.price_alerts ≡ w0.db.price_alerts
          → Creates alert_id user_id body w0 (insert_alert env alert_id user_id body o w)
      unfolding insert_alert
      insert_alert-Creates x none w is fits same = same
      insert_alert-Creates x (some kept) w is fits same =
          elim (Bool-cases (user_exists user_id w && product_exists body.product_id w)) [
            | inl e ↦ rw e (
              x,
              kept,
              is,
              fits,
              ground (arith, e),
              ap (λ rows. rows ++ new_alert env alert_id user_id body kept ∷ []) same,
              refl,
            )
            | inr e ↦ rw e same
          ]

      store-Creates :
          (o : Result Decimal × World)
          → LeavesAlerts (λ x v. IsInUsd body.threshold_price body.currency w0 x) o
          → Creates alert_id user_id body w0
              (resume (λ x. insert_alert env alert_id user_id body (env.numeric 12 4 x)) o)
      store-Creates (ok x, w) (is, same) =
          insert_alert-Creates x (env.numeric 12 4 x) w is refl same
      store-Creates (err e, w) same = same

  -- A creation that succeeds adds one row behind the others: active, of the user, who exists, and
  -- with what the column keeps of the threshold in dollars, which for another currency is the amount
  -- times the rate of this currency over that of the dollar. The answer shows this row. A creation
  -- that fails, whether for an unknown product or user, a missing rate or an overflow, adds none.
  pub create_alert-Creates :
      (alert_id user_id : ℕ) (body : AlertCreate) (w : World)
      → Creates alert_id user_id body w (create_alert env alert_id user_id body w)
  unfolding create_alert store_alert
  create_alert-Creates alert_id user_id body w =
      elim (Bool-cases (product_exists body.product_id w)) [
        | inl known ↦ rw known (
            store-Creates w alert_id user_id body (to_usd env body.threshold_price body.currency w)
              (to_usd-IsInUsd w body.threshold_price body.currency))
        | inr unknown ↦ rw unknown refl
      ]
