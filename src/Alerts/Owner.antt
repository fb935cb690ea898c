-- ===== src/Alerts/Owner.antt =====
-- Deleting alerts: what the call changes, on every branch, and whose alerts.
use price_monitoring_service.Prelude.{
  ℕ, ◌≡◌, refl, false, not, List, [], ◌∷◌, ◌==◌, if◌then◌else◌, any, filter, length, arith,
}
use price_monitoring_service.Exec.{ok, err, not_found}
use price_monitoring_service.Models.{PriceAlert, World}
use price_monitoring_service.Alerts.Repo.{set_alerts, is_owned, delete_rows}
use price_monitoring_service.Alerts.Service.{delete_alert, some_deleted}

-- the rows that a delete leaves
abbrev pub without : ℕ → ℕ → List PriceAlert → List PriceAlert
without i u = filter (λ a. not (is_owned i u a))

count-any :
    (i u : ℕ) (rows : List PriceAlert)
    → (length (filter (is_owned i u) rows) == 0) ≡ not (any (is_owned i u) rows)
count-any i u [] = refl
count-any i u (a ∷ rows) = ground (arith, count-any i u rows)

any-without : (i u : ℕ) (rows : List PriceAlert) → any (is_owned i u) (without i u rows) ≡ false
any-without i u [] = refl
any-without i u (a ∷ rows) = ground (arith, any-without i u rows)

without-others :
    (i u v : ℕ) (rows : List PriceAlert)
    → (u == v) ≡ false
    → filter (λ a. a.user_id == v) (without i u rows) ≡ filter (λ a. a.user_id == v) rows
without-others i u v [] ne = refl
without-others i u v (a ∷ rows) ne = ground (arith, without-others i u v rows)

alerts-delete_alert :
    (u i : ℕ) (w : World) → (delete_alert u i w).1.db.price_alerts ≡ without i u w.db.price_alerts
unfolding delete_alert delete_rows
alerts-delete_alert u i w =
    ended (length (filter (is_owned i u) w.db.price_alerts))
      (set_alerts (without i u w.db.price_alerts) w)
  where
    ended : (n : ℕ) (v : World) → (some_deleted n v).1.db.price_alerts ≡ v.db.price_alerts
    ended n v = ground arith

delete_alert_result :
    (u i : ℕ) (w : World)
    → ((delete_alert u i w).0 ≡ (
        if any (is_owned i u) w.db.price_alerts then ok tt else err (not_found "Alert not found")))
      × (any (is_owned i u) (delete_alert u i w).1.db.price_alerts ≡ false)
delete_alert_result u i w =
    (deleted, rw (alerts-delete_alert u i w) (any-without i u w.db.price_alerts))
  where
    deleted : (delete_alert u i w).0 ≡ (
        if any (is_owned i u) w.db.price_alerts then ok tt else err (not_found "Alert not found"))
    deleted = unfold delete_alert delete_rows in ground (arith, count-any i u w.db.price_alerts)

delete_alert_others :
    (u v i : ℕ) (w : World)
    → (u == v) ≡ false
    → filter (λ a. a.user_id == v) (delete_alert u i w).1.db.price_alerts
      ≡ filter (λ a. a.user_id == v) w.db.price_alerts
delete_alert_others u v i w ne =
    rw (alerts-delete_alert u i w) (without-others i u v w.db.price_alerts ne)

-- `delete_alert` raises exactly where the user has no such alert; afterwards the user has none, and
-- the alerts of every other user are as they were.
pub delete_alert_lem :
    (u v i : ℕ) (w : World)
    → (u == v) ≡ false
    → ((delete_alert u i w).0 ≡ (
        if any (is_owned i u) w.db.price_alerts then ok tt else err (not_found "Alert not found")))
      × (any (is_owned i u) (delete_alert u i w).1.db.price_alerts ≡ false)
      × (filter (λ a. a.user_id == v) (delete_alert u i w).1.db.price_alerts
          ≡ filter (λ a. a.user_id == v) w.db.price_alerts)
delete_alert_lem u v i w ne =
    let (result, gone) = delete_alert_result u i w in (result, gone, delete_alert_others u v i w ne)
