-- ===== src/Api/Session/Atomic.antt =====
-- What a request or a task leaves of the database.
use price_monitoring_service.Prelude.{
  ℕ, ◌≡◌, refl, Bool, true, false, ◌&&◌, if◌then◌else◌, Bool-cases, inl, inr,
}
use price_monitoring_service.Exec.{Exec, Result, ok, err}
use price_monitoring_service.Models.{Database, World}
use price_monitoring_service.Api.Session.{
  Answer, success, failure, unprocessable, end_session, respond, request, after_task, run_task,
}

abbrev pub is_success : {A : Type 0} → Answer A → Bool
is_success (success code a) = true
is_success (failure code detail) = false
is_success unprocessable = false

abbrev pub is_ok : {A : Type 0} → Result A → Bool
is_ok (ok a) = true
is_ok (err e) = false

module _ (commits : Database → Bool) where
  db-end_session :
      (before : Database) (w : World)
      → (end_session commits before w).db ≡ (if commits w.db then w.db else before)
  unfolding end_session
  db-end_session before w = elim (Bool-cases (commits w.db)) [
    | inl e ↦ rw e refl
    | inr e ↦ rw e refl
  ]

  db-respond :
      {A : Type 0} (code : ℕ) (before : Database) (o : Result A × World)
      → (respond commits code before o).1.db ≡ (
          if is_success (respond commits code before o).0 && commits o.1.db then o.1.db else before)
  unfolding respond
  db-respond code before (ok a, w) = db-end_session before w
  db-respond code before (err e, w) = refl

  -- After a request the database is what the operation left if the answer is a success and the
  -- database takes the commit, and what it was before in every other case: also after an answer of
  -- success whose commit the database refuses.
  pub db-request :
      {A : Type 0} (code : ℕ) (operation : Exec World A) (w : World)
      → (request commits code operation w).1.db ≡ (
          if is_success (request commits code operation w).0 && commits (operation w).1.db
          then (operation w).1.db
          else w.db)
  unfolding request
  db-request code operation w = db-respond code w.db (operation w)

  db-after_task :
      {A : Type 0} (before : Database) (o : Result A × World)
      → (after_task commits before o).1.db
        ≡ (if is_ok (after_task commits before o).0 then o.1.db else before)
  unfolding after_task
  db-after_task before (ok a, w) = elim (Bool-cases (commits w.db)) [
    | inl e ↦ rw e refl
    | inr e ↦ rw e refl
  ]
  db-after_task before (err e, w) = refl

  -- A task that returns leaves the database as its operation did, and one that raises, the commit
  -- included, leaves it as it was.
  pub db-run_task :
      {A : Type 0} (operation : Exec World A) (w : World)
      → (run_task commits operation w).1.db
        ≡ (if is_ok (run_task commits operation w).0 then (operation w).1.db else w.db)
  unfolding run_task
  db-run_task operation w = db-after_task w.db (operation w)
