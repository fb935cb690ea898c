-- ===== src/Alerts/Others.antt =====
-- `check_alerts` always returns, and it touches no alert that had not fired.
use price_monitoring_service.Prelude.{
  ℕ, suc, ◌+◌, ◌≤◌, ◌≡◌, refl, ap, ◌∙◌, false, List, [], ◌∷◌, ◌==◌, any, filter, length, arith,
}
use price_monitoring_service.Exec.{Exec, Result, ok, err}
use price_monitoring_service.Env.{Env}
use price_monitoring_service.Models.{PriceAlert, World}
use price_monitoring_service.Alerts.Message.{TriggeredRow, message}
use price_monitoring_service.Alerts.Repo.{list_triggered, deactivate_rows, deactivate}
use price_monitoring_service.Alerts.Service.{send_email, after_send, check_each, check_alerts}
use price_monitoring_service.Alerts.Checks.{db-send_email}

-- the rows of one alert
abbrev pub alerts_with : ℕ → World → List PriceAlert
alerts_with i w = filter (λ a. a.id == i) w.db.price_alerts

filter-deactivate_rows :
    (i now k : ℕ) (alerts : List PriceAlert)
    → (k == i) ≡ false
    → filter (λ a. a.id == i) (deactivate_rows now k alerts) ≡ filter (λ a. a.id == i) alerts
unfolding deactivate_rows
filter-deactivate_rows i now k [] h = refl
filter-deactivate_rows i now k (a ∷ alerts) h =
    ground (arith, filter-deactivate_rows i now k alerts)

module _ (env : Env) where
  -- an outcome that is a count between two bounds
  abbrev pub CountsBetween : ℕ → ℕ → Result ℕ → Type 0
  CountsBetween lo hi (ok n) = (lo ≤ n) × (n ≤ hi)
  CountsBetween lo hi (err e) = ⊥

  wider :
      (lo lo' hi hi' : ℕ) (r : Result ℕ)
      → lo' ≤ lo
      → hi ≤ hi'
      → CountsBetween lo hi r
      → CountsBetween lo' hi' r
  wider lo lo' hi hi' (ok n) p q h = omega arith
  wider lo lo' hi hi' (err e) p q h = h

  counts_after :
      (rest : ℕ → Exec World ℕ) (alert_id sent left : ℕ) (o : Result (Unit {0}) × World)
      → ((n : ℕ) (w : World) → CountsBetween n (n + left) (rest n w).0)
      → CountsBetween sent (sent + suc left) (after_send env rest alert_id sent o).0
  unfolding after_send
  counts_after rest alert_id sent left (ok u, w) h =
      wider _ _ _ _ _ (omega arith) (omega arith) (h (sent + 1) (deactivate env.now alert_id w))
  counts_after rest alert_id sent left (err e, w) h =
      wider _ _ _ _ _ (omega arith) (omega arith) (h sent w)

  counts_each :
      (rows : List TriggeredRow) (sent : ℕ) (w : World)
      → CountsBetween sent (sent + length rows) (check_each env rows sent w).0
  unfolding check_each
  counts_each [] sent w = omega arith
  counts_each (row ∷ rows) sent w =
      counts_after (check_each env rows) row.id sent (length rows)
        (send_email env (message env row) w) (counts_each rows)

  -- The check returns a count, whatever the mail server does, and counts no more messages than
  -- alerts had fired.
  pub check_alerts_count :
      (w : World) → CountsBetween 0 (0 + length (list_triggered w.db)) (check_alerts env w).0
  unfolding check_alerts
  check_alerts_count w = counts_each (list_triggered w.db) 0 w

  others_after :
      (i : ℕ) (rest : ℕ → Exec World ℕ) (alert_id sent : ℕ) (o : Result (Unit {0}) × World)
      → (alert_id == i) ≡ false
      → ((n : ℕ) (w : World) → alerts_with i (rest n w).1 ≡ alerts_with i w)
      → alerts_with i (after_send env rest alert_id sent o).1 ≡ alerts_with i o.1
  unfolding after_send deactivate
  others_after i rest alert_id sent (ok u, w) ne h =
      h (sent + 1) (deactivate env.now alert_id w)
      ∙ filter-deactivate_rows i env.now alert_id w.db.price_alerts ne
  others_after i rest alert_id sent (err e, w) ne h = h sent w

  others_each :
      (i : ℕ) (rows : List TriggeredRow) (sent : ℕ) (w : World)
      → any (λ r. r.id == i) rows ≡ false
      → alerts_with i (check_each env rows sent w).1 ≡ alerts_with i w
  unfolding check_each
  others_each i [] sent w h = refl
  others_each i (row ∷ rows) sent w h =
      others_after i (check_each env rows) row.id sent (send_email env (message env row) w)
        (ground arith) (λ n v. others_each i rows n v (ground arith))
      ∙ ap (λ db. filter (λ a. a.id == i) db.price_alerts) (db-send_email env (message env row) w)

  -- An alert that had not fired is left as it was.
  pub check_alerts_others :
      (i : ℕ) (w : World)
      → any (λ r. r.id == i) (list_triggered w.db) ≡ false
      → alerts_with i (check_alerts env w).1 ≡ alerts_with i w
  unfolding check_alerts
  check_alerts_others i w h = others_each i (list_triggered w.db) 0 w h
