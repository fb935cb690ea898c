-- ===== src/Alerts/Service.antt =====
-- `AlertService` of app/services/alert_service.py and `send_email` of app/core/email.py. The id of
-- a new alert is an argument: `uuid.uuid4()` draws it.
use price_monitoring_service.Prelude.{
  ℕ, ◌+◌, true, not, ◌&&◌, Option, none, some, List, [], ◌∷◌, ◌++◌, ◌==◌, if◌then◌else◌, map,
}
use price_monitoring_service.Decimal.{Decimal, mul, div, quantize}
use price_monitoring_service.Schemas.{Currency, AlertCreate, AlertResponse}
use price_monitoring_service.Exec.{
  Exec, Result, ok, err, not_found, data_error, integrity_error, smtp_error, pure, raise, lift,
  ◌>>=◌,
}
use price_monitoring_service.Env.{Env, Email}
use price_monitoring_service.Models.{PriceAlert, World}
use price_monitoring_service.Currency.Service.{get_rate}
use price_monitoring_service.Watchlist.{user_exists, product_exists}
use price_monitoring_service.Alerts.Message.{TriggeredRow, message}
use price_monitoring_service.Alerts.Repo.{
  set_alerts, list_by_user, delete_rows, list_triggered, deactivate,
}

-- `AlertResponse.model_validate`
abbrev pub to_response : PriceAlert → AlertResponse
to_response a = record {
  id = a.id;
  product_id = a.product_id;
  threshold_price_usd = a.threshold_price_usd;
  currency_code = a.currency_code;
  is_active = a.is_active;
  created_at = a.created_at;
}

unfoldable pub get_alerts : ℕ → World → List AlertResponse
get_alerts user_id w = map to_response (list_by_user user_id w)

abbrev pub some_deleted : ℕ → Exec World (Unit {0})
some_deleted deleted = if deleted == 0 then raise (not_found "Alert not found") else pure tt

unfoldable pub delete_alert : ℕ → ℕ → Exec World (Unit {0})
unfolding delete_rows
delete_alert user_id alert_id = do deleted ← delete_rows alert_id user_id; some_deleted deleted

module _ (env : Env) where
  -- the two rates are asked for in this order
  unfoldable pub threshold_in_usd : Decimal → Currency → Exec World Decimal
  threshold_in_usd amount currency = do
    rate_usd ← get_rate env Currency.usd env.today
    rate_other ← get_rate env currency env.today
    q ← lift (div (mul amount rate_other) rate_usd)
    lift (quantize q)

  -- `_to_usd`
  unfoldable pub to_usd : Decimal → Currency → Exec World Decimal
  unfolding threshold_in_usd
  to_usd amount Currency.usd = pure amount
  to_usd amount currency = threshold_in_usd amount currency

  abbrev pub new_alert : ℕ → ℕ → AlertCreate → Decimal → PriceAlert
  new_alert alert_id user_id body kept = record {
    id = alert_id;
    user_id = user_id;
    product_id = body.product_id;
    threshold_price_usd = some kept;
    currency_code = some body.currency;
    is_active = true;
    triggered_at = none;
    created_at = env.now;
  }

  -- `add`, `flush` and `refresh`: the row is written with the threshold that NUMERIC(12, 4) keeps, if
  -- its foreign keys hold
  unfoldable pub insert_alert : ℕ → ℕ → AlertCreate → Option Decimal → Exec World AlertResponse
  insert_alert alert_id user_id body none w = (err data_error, w)
  insert_alert alert_id user_id body (some kept) w =
      if user_exists user_id w && product_exists body.product_id w
      then (
        ok (to_response (new_alert alert_id user_id body kept)),
        set_alerts (w.db.price_alerts ++ new_alert alert_id user_id body kept ∷ []) w,
      )
      else (err integrity_error, w)

  unfoldable pub store_alert : ℕ → ℕ → AlertCreate → Exec World AlertResponse
  unfolding to_usd insert_alert
  store_alert alert_id user_id body = do
    threshold_usd ← to_usd body.threshold_price body.currency
    insert_alert alert_id user_id body (env.numeric 12 4 threshold_usd)

  unfoldable pub create_alert : ℕ → ℕ → AlertCreate → Exec World AlertResponse
  unfolding store_alert
  create_alert alert_id user_id body w =
      if not (product_exists body.product_id w)
      then (err (not_found "Product not found"), w)
      else store_alert alert_id user_id body w

  -- `aiosmtplib.send`
  smtp_send : Email → Exec World (Unit {0})
  smtp_send mail w =
      if env.smtp_accepts mail w.mails_tried
      then (ok tt, record w { mails_tried = w.mails_tried + 1; outbox = w.outbox ++ mail ∷ [] })
      else (err smtp_error, record w { mails_tried = w.mails_tried + 1 })

  -- `send_email`: in console mode the message is only logged
  unfoldable pub send_email : Email → Exec World (Unit {0})
  unfolding smtp_send
  send_email mail w = if env.settings.email_enabled then smtp_send mail w else (ok tt, w)

  -- the loop of `check_alerts`, on the rows left, the counter and the outcome of the message
  unfoldable pub after_send :
      (ℕ → Exec World ℕ) → ℕ → ℕ → Result (Unit {0}) × World → Result ℕ × World
  after_send rest alert_id sent (ok _, w) = rest (sent + 1) (deactivate env.now alert_id w)
  after_send rest alert_id sent (err e, w) = rest sent w

  unfoldable pub check_each : List TriggeredRow → ℕ → Exec World ℕ
  unfolding after_send send_email
  check_each [] sent w = (ok sent, w)
  check_each (row ∷ rows) sent w =
      after_send (check_each rows) row.id sent (send_email (message env row) w)

  unfoldable pub check_alerts : Exec World ℕ
  unfolding check_each list_triggered
  check_alerts w = check_each (list_triggered w.db) 0 w
