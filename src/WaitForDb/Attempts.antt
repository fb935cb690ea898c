-- ===== src/WaitForDb/Attempts.antt =====
-- When `wait_for_db` returns, and when it ends the process.
use price_monitoring_service.Prelude.{
  ℕ, zero, suc, ◌+◌, ◌*◌, ◌<◌, ◌≡◌, Bool, true, false, arith, ap, subst, ◌∙◌,
}
use price_monitoring_service.WaitForDb.{Ending, Waiting, wait_loop, wait_for_db}

-- `count` connections, from the n-th on, fail
abbrev pub AllFail : (ℕ → Bool) → ℕ → ℕ → Type 0
AllFail connects n zero = Unit
AllFail connects n (suc count) = (connects n ≡ false) × AllFail connects (suc n) count

suc_add : (n : ℕ) → suc n ≡ n + 1
suc_add n = omega arith

module _ (connects : ℕ → Bool) (retries delay : ℕ) where
  waited_more : (k waited : ℕ) → waited + delay + k * delay ≡ waited + suc k * delay
  waited_more k waited = grind arith

  loop_fails :
      (left attempt : ℕ) (s : Waiting)
      → connects s.tried ≡ false
      → attempt < retries
      → wait_loop connects retries delay (suc left) attempt s
        ≡ wait_loop connects retries delay left
            (attempt + 1)
            (record { tried = s.tried + 1; waited = s.waited + delay })
  unfolding wait_loop
  loop_fails left attempt s e lo = ground arith

  loop_last :
      (left : ℕ) (s : Waiting)
      → connects s.tried ≡ false
      → wait_loop connects retries delay (suc left) retries s
        ≡ (Ending.exited, record s { tried = s.tried + 1 })
  unfolding wait_loop
  loop_last left s e = ground arith

  loop_ready :
      (left attempt : ℕ) (s : Waiting)
      → connects s.tried ≡ true
      → wait_loop connects retries delay (suc left) attempt s
        ≡ (Ending.returned, record s { tried = s.tried + 1 })
  unfolding wait_loop
  loop_ready left attempt s e = ground arith

  abbrev at : Ending → ℕ → ℕ → Ending × Waiting
  at ending tried waited = (ending, record { tried = tried; waited = waited })

  at_eq : (ending : Ending) {t t' w w' : ℕ} → t ≡ t' → w ≡ w' → at ending t w ≡ at ending t' w'
  at_eq ending p q = cc

  later : (k tried : ℕ) → AllFail connects (suc tried) k → AllFail connects (tried + 1) k
  later k tried fails = subst (λ n. AllFail connects n k) (suc_add tried) fails

  loop_returns :
      (k left tried waited : ℕ)
      → tried + left ≡ retries
      → k < left
      → AllFail connects tried k
      → connects (tried + k) ≡ true
      → wait_loop connects retries delay left
          (tried + 1)
          (record { tried = tried; waited = waited })
        ≡ at Ending.returned (tried + k + 1) (waited + k * delay)
  loop_returns k zero tried waited len lo fails e = absurd (omega arith)
  loop_returns zero (suc left) tried waited len lo fails e =
      loop_ready left (tried + 1) (record { tried = tried; waited = waited })
        (ap connects (omega arith) ∙ e)
      ∙ at_eq Ending.returned (omega arith) (omega arith)
  loop_returns (suc k) (suc left) tried waited len lo fails e =
      loop_fails left (tried + 1) (record { tried = tried; waited = waited }) fails.0 (omega arith)
      ∙ loop_returns k left (tried + 1) (waited + delay) (omega arith) (omega arith)
          (later k tried fails.1) (ap connects (omega arith) ∙ e)
      ∙ at_eq Ending.returned (omega arith) (waited_more k waited)

  loop_exits :
      (k tried waited : ℕ)
      → tried + suc k ≡ retries
      → AllFail connects tried (suc k)
      → wait_loop connects retries delay
          (suc k)
          (tried + 1)
          (record { tried = tried; waited = waited })
        ≡ at Ending.exited (tried + suc k) (waited + k * delay)
  loop_exits zero tried waited len fails =
      ap (λ n. wait_loop connects retries delay 1 n (record { tried = tried; waited = waited })) len
      ∙ loop_last 0 (record { tried = tried; waited = waited }) fails.0
      ∙ at_eq Ending.exited (omega arith) (omega arith)
  loop_exits (suc k) tried waited len fails =
      loop_fails (suc k) (tried + 1) (record { tried = tried; waited = waited }) fails.0
        (omega arith)
      ∙ loop_exits k (tried + 1) (waited + delay) (omega arith) (later (suc k) tried fails.1)
      ∙ at_eq Ending.exited (omega arith) (waited_more k waited)

-- If the first k connections fail, the next one succeeds, and k is below the number of retries,
-- then the function returns after k + 1 connections and k delays.
pub wait_for_db_returns :
    (connects : ℕ → Bool) (retries delay k : ℕ)
    → k < retries
    → AllFail connects 0 k
    → connects k ≡ true
    → wait_for_db connects retries delay
      ≡ (Ending.returned, record { tried = k + 1; waited = k * delay })
unfolding wait_for_db
wait_for_db_returns connects retries delay k lo fails e =
    loop_returns connects retries delay k retries 0 0 (omega arith) lo fails
      (ap connects (omega arith) ∙ e)
    ∙ at_eq connects retries delay Ending.returned (omega arith) (omega arith)

-- If all of k + 1 connections fail, the process ends with k + 1 connections and k delays: none
-- after the last.
pub wait_for_db_exits :
    (connects : ℕ → Bool) (delay k : ℕ)
    → AllFail connects 0 (suc k)
    → wait_for_db connects (suc k) delay
      ≡ (Ending.exited, record { tried = suc k; waited = k * delay })
unfolding wait_for_db
wait_for_db_exits connects delay k fails =
    loop_exits connects (suc k) delay k 0 0 (omega arith) fails
    ∙ at_eq connects (suc k) delay Ending.exited (omega arith) (omega arith)
