-- ===== src/Tests/Alerts.antt =====
-- The alerts.
use price_monitoring_service.Decimal.{le}
use price_monitoring_service.Prices.Latest.{latest_price}
use price_monitoring_service.Prices.Latest.{min_price}
use price_monitoring_service.Alerts.Repo.{triggered_row}
use price_monitoring_service.Prelude.{
  Bool, ◌≡◌, refl, true, false, [], if◌then◌else◌, length, any, filter, ◌==◌,
}
use price_monitoring_service.Exec.{ok, err, not_found}
use price_monitoring_service.Alerts.Repo.{is_owned, list_triggered}
use price_monitoring_service.Alerts.Service.{check_alerts, send_email, delete_alert}
use price_monitoring_service.Alerts.Checks.{Delivers, Rejects, check_alerts_delivered}
use price_monitoring_service.Alerts.Others.{alerts_with, check_alerts_others}
use price_monitoring_service.Decimal.{of_int}
use price_monitoring_service.Schemas.{Currency, AlertCreate}
use price_monitoring_service.Alerts.Service.{create_alert}
use price_monitoring_service.Alerts.Owner.{delete_alert_lem}
use price_monitoring_service.Alerts.Creation.{Creates, create_alert-Creates}
use price_monitoring_service.Models.{Database}
use price_monitoring_service.Tasks.{check_alerts_async}
use price_monitoring_service.Tasks.Alerting.{IsOnce, check_alerts_async-IsOnce}
use price_monitoring_service.Tests.Fixtures.{env_with, answers, world}

-- of the two alerts one has fired
fired : (check_alerts (env_with answers true) world).0 ≡ ok 1
unfolding check_alerts triggered_row min_price latest_price le
fired = refl

delivers : Delivers (env_with answers true)
unfolding send_email
delivers m w = refl

rejects : Rejects (env_with answers false)
unfolding send_email
rejects m w = refl

check_alerts_delivered_example :
    ((check_alerts (env_with answers true) world).0 ≡ ok (length (list_triggered world.db)))
    × (list_triggered (check_alerts (env_with answers true) world).1.db ≡ [])
check_alerts_delivered_example = check_alerts_delivered (env_with answers true) world delivers

not_fired : any (λ r. r.id == 8) (list_triggered world.db) ≡ false
unfolding list_triggered triggered_row min_price latest_price le
not_fired = refl

check_alerts_others_example :
    alerts_with 8 (check_alerts (env_with answers true) world).1 ≡ alerts_with 8 world
check_alerts_others_example = check_alerts_others (env_with answers true) 8 world not_fired

delete_alert_lem_example :
    ((delete_alert 1 7 world).0 ≡ (
      if any (is_owned 7 1) world.db.price_alerts
      then ok tt
      else err (not_found "Alert not found")))
    × (any (is_owned 7 1) (delete_alert 1 7 world).1.db.price_alerts ≡ false)
    × (filter (λ a. a.user_id == 2) (delete_alert 1 7 world).1.db.price_alerts
        ≡ filter (λ a. a.user_id == 2) world.db.price_alerts)
delete_alert_lem_example = delete_alert_lem 1 2 7 world refl

-- a database that takes every commit
abbrev commits : Database → Bool
commits db = true

check_alerts_async-IsOnce_example :
    IsOnce
      (env_with answers true)
      commits
      world
      (check_alerts_async (env_with answers true) commits world)
check_alerts_async-IsOnce_example =
    check_alerts_async-IsOnce (env_with answers true) commits delivers world

abbrev wanted : AlertCreate
wanted = record { product_id = 3; threshold_price = of_int 15; currency = Currency.eur }

create_alert-Creates_example :
    Creates
      (env_with answers true)
      9
      1
      wanted
      world
      (create_alert (env_with answers true) 9 1 wanted world)
create_alert-Creates_example = create_alert-Creates (env_with answers true) 9 1 wanted world
