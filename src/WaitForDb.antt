-- ===== src/WaitForDb.antt =====
-- `wait_for_db` of app/core/wait_for_db.py. Whether the n-th connection and its statement succeed
-- is a parameter.
pub mod Attempts
use price_monitoring_service.Prelude.{ℕ, zero, suc, ◌+◌, Bool, true, false, ◌==◌, if◌then◌else◌}

-- how the process goes on: the function returns, or `sys.exit(1)`
pub data Ending : Type 0 where
  returned : Ending
  exited : Ending

-- the connections that were tried, and the seconds waited
pub record Waiting : Type 0 where
  pub tried : ℕ
  pub waited : ℕ

module _ (connects : ℕ → Bool) (retries delay : ℕ) where
  -- the rounds that are left, and `attempt`
  pub wait_loop : ℕ → ℕ → Waiting → Ending × Waiting
  wait_loop zero attempt s = (Ending.returned, s)
  wait_loop (suc left) attempt s =
      let tried = record s { tried = s.tried + 1 } in
      let next = wait_loop left (attempt + 1) (record tried { waited = s.waited + delay }) in
      if connects s.tried
      then (Ending.returned, tried)
      else if attempt == retries
      then (Ending.exited, tried)
      else next

  unfoldable pub wait_for_db : Ending × Waiting
  unfolding wait_loop
  wait_for_db = wait_loop retries 1 (record { tried = 0; waited = 0 })
