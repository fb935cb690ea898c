-- ===== src/Tests/Startup.antt =====
-- Waiting for the database.
use price_monitoring_service.Prelude.{ℕ, zero, suc, ◌≡◌, refl, Bool, true, false, arith}
use price_monitoring_service.WaitForDb.{Ending, wait_for_db}
use price_monitoring_service.WaitForDb.Attempts.{wait_for_db_returns}

-- a database that is ready from the third connection on
abbrev slow_start : ℕ → Bool
slow_start zero = false
slow_start (suc zero) = false
slow_start (suc (suc n)) = true

wait_for_db_returns_example :
    wait_for_db slow_start 10 3 ≡ (Ending.returned, record { tried = 3; waited = 6 })
wait_for_db_returns_example =
    wait_for_db_returns slow_start 10 3 2 (omega arith) (refl, (refl, tt)) refl
