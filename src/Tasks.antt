-- ===== src/Tasks.antt =====
-- The coroutines of the Celery tasks, `_check_alerts_async` of app/tasks/alerts.py,
-- `_sync_today_async` of app/tasks/rates.py and `_fetch_prices_async` of app/tasks/prices.py, and
-- `_run` of scripts/sync_historical_rates.py: each runs a service in a session of its own and
-- commits at the end. Whether the database takes the commit is a parameter.
pub mod Fetching
pub mod Alerting
pub mod Beat
pub mod Rating
use price_monitoring_service.Prelude.{Option, ℕ, ◌-◌, String, Bool, false, List, ltb, if◌then◌else◌}
use price_monitoring_service.Exec.{Exec, Result, ok, err, pending_rollback_error, arithmetic_error}
use price_monitoring_service.Env.{Env}
use price_monitoring_service.Models.{Database, World}
use price_monitoring_service.Currency.Service.{sync_today_rates, sync_historical_rates}
use price_monitoring_service.Alerts.Service.{check_alerts}
use price_monitoring_service.Fetcher.{Session, fetch_all}
use price_monitoring_service.Fetcher.Counts.{Adapters}
use price_monitoring_service.Api.Session.{restore, after_task, run_task}

module _ (env : Env) (commits : Database → Bool) where
  unfoldable pub check_alerts_async : Exec World ℕ
  unfolding run_task
  check_alerts_async = run_task commits (check_alerts env)

  unfoldable pub sync_today_async : Exec World ℕ
  unfolding run_task
  sync_today_async = run_task commits (sync_today_rates env)

  -- `_run(days)` of the script, of a number of days that is not negative: there is no date before
  -- day 1
  unfoldable pub load_historical_rates : ℕ → Exec World ℕ
  unfolding run_task
  load_historical_rates days w =
      if ltb days env.today
      then run_task commits (sync_historical_rates env (env.today - days) env.today) w
      else (err arithmetic_error, w)

  -- the session of the task at its beginning
  abbrev pub fresh_session : World → Session
  fresh_session w = record { world = w; before = w.db.price_history; failed = false }

  -- `await db.commit()` behind the run: the session refuses it after a failed flush
  unfoldable pub commit_prices :
      Database → List (Option String × ℕ) × Session → Result (List (Option String × ℕ)) × World
  unfolding after_task
  commit_prices before (results, s) =
      if s.failed
      then (err pending_rollback_error, restore before s.world)
      else after_task commits before (ok results, s.world)

  unfoldable pub fetch_prices_async : Adapters → Exec World (List (Option String × ℕ))
  unfolding commit_prices fetch_all
  fetch_prices_async get_adapter w =
      commit_prices w.db (fetch_all env get_adapter (fresh_session w))
