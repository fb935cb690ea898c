-- ===== src/Tasks/Alerting.antt =====
-- What two runs of the alert task do.
use price_monitoring_service.Prelude.{
  ℕ, ◌≡◌, refl, ap, Bool, true, [], length, Bool-cases, inl, inr,
}
use price_monitoring_service.Exec.{Result, ok, err}
use price_monitoring_service.Env.{Env}
use price_monitoring_service.Models.{Database, World}
use price_monitoring_service.Alerts.Repo.{list_triggered}
use price_monitoring_service.Alerts.Service.{check_each, check_alerts}
use price_monitoring_service.Alerts.Checks.{Delivers, check_alerts_delivered}
use price_monitoring_service.Api.Session.{after_task, run_task}
use price_monitoring_service.Tasks.{check_alerts_async}

module _ (env : Env) (commits : Database → Bool) where
  -- A run that returns has counted all alerts that had fired, and the next run does nothing at all; a
  -- run that raises leaves the database, and all of them fire again.
  abbrev pub IsOnce : World → Result ℕ × World → Type 0
  IsOnce w (ok n, w') =
      (n ≡ length (list_triggered w.db)) × (check_alerts_async env commits w' ≡ (ok 0, w'))
  IsOnce w (err e, w') = w'.db ≡ w.db

  idle :
      (w : World)
      → list_triggered w.db ≡ []
      → commits w.db ≡ true
      → check_alerts_async env commits w ≡ (ok 0, w)
  unfolding check_alerts_async run_task check_alerts check_each after_task
  idle w none_fired c = rw none_fired (rw c refl)

  after_task-IsOnce :
      (w : World) (o : Result ℕ × World)
      → o.0 ≡ ok (length (list_triggered w.db))
      → list_triggered o.1.db ≡ []
      → IsOnce w (after_task commits w.db o)
  unfolding after_task
  after_task-IsOnce w (ok n, w') e none_fired = elim (Bool-cases (commits w'.db)) [
    | inl c ↦ rw c (ap counted e, idle w' none_fired c)
    | inr c ↦ rw c refl
  ]
    where
      counted : Result ℕ → ℕ
      counted (ok n) = n
      counted (err x) = 0
  after_task-IsOnce w (err x, w') e none_fired = refl

  -- If every message goes out, a run of the alert task that returns gives the number of the alerts
  -- that had fired, and a second run right after it sends no message and changes nothing; a run whose
  -- commit is refused leaves the database as it was.
  pub check_alerts_async-IsOnce :
      Delivers env → (w : World) → IsOnce w (check_alerts_async env commits w)
  unfolding check_alerts_async run_task
  check_alerts_async-IsOnce delivers w =
      let (count, none_fire) = check_alerts_delivered env w delivers in
      after_task-IsOnce w (check_alerts env w) count none_fire
