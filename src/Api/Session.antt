-- ===== src/Api/Session.antt =====
-- `_get_db` of app/api/deps.py, the answers of app/api/errors.py to exceptions, and the sessions of
-- the tasks. Whether the database takes a transaction at its commit is a parameter.
pub mod Atomic
use price_monitoring_service.Prelude.{ℕ, String, Bool, true, false, ◌&&◌, if◌then◌else◌}
use text.Mathlib.Text.{◌==◌ as str_eq}
use price_monitoring_service.Exec.{
  Exec, Exception, Result, ok, err, app_error, not_found, conflict, http_exception, integrity_error,
}
use price_monitoring_service.Models.{Database, World}

-- `detail or self.default_detail`
abbrev pub detail_or : String → String → String
detail_or detail default_detail = if str_eq detail "" then default_detail else detail

-- `app_error_handler`, the answer of FastAPI to an HTTPException, and `internal_error_handler`
unfoldable pub error_status : Exception → ℕ
error_status (app_error detail) = 400
error_status (not_found detail) = 404
error_status (conflict detail) = 409
error_status (http_exception status detail) = status
error_status _ = 500

unfoldable pub error_detail : Exception → String
error_detail (app_error detail) = detail_or detail "Application error"
error_detail (not_found detail) = detail_or detail "Resource not found"
error_detail (conflict detail) = detail_or detail "Conflict"
error_detail (http_exception status detail) = detail
error_detail _ = "Internal server error"

-- What a client gets: the status code with the body, or with the detail of an error.
pub data Answer (A : Type 0) : Type 0 where
  success : ℕ → A → Answer A
  failure : ℕ → String → Answer A
  unprocessable : Answer A

abbrev pub status : {A : Type 0} → Answer A → ℕ
status (success code a) = code
status (failure code detail) = code
status unprocessable = 422

abbrev pub restore : Database → World → World
restore before w = record w { db = before }

module _ (commits : Database → Bool) where
  -- `await db.commit()`, in the `try`
  unfoldable pub end_session : Database → World → World
  end_session before w = if commits w.db then w else restore before w

  -- The answer is made and sent before the dependency goes on after its `yield`: FastAPI runs the
  -- code there when the response is out.
  unfoldable pub respond : {A : Type 0} → ℕ → Database → Result A × World → Answer A × World
  unfolding end_session error_status error_detail
  respond code before (ok a, w) = (success code a, end_session before w)
  respond code before (err e, w) = (failure (error_status e) (error_detail e), restore before w)

  -- a request that runs a service's operation in the session of `_get_db`
  unfoldable pub request : {A : Type 0} → ℕ → Exec World A → World → Answer A × World
  unfolding respond
  request code operation w = respond code w.db (operation w)

  -- `begin_task_session()` with `await db.commit()` as the last statement of its block: an exception
  -- goes on, and leaving the block without a commit rolls back
  unfoldable pub after_task : {A : Type 0} → Database → Result A × World → Result A × World
  after_task before (ok a, w) =
      if commits w.db then (ok a, w) else (err integrity_error, restore before w)
  after_task before (err e, w) = (err e, restore before w)

  unfoldable pub run_task : {A : Type 0} → Exec World A → Exec World A
  unfolding after_task
  run_task operation w = after_task w.db (operation w)
