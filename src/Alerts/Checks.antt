-- ===== src/Alerts/Checks.antt =====
-- `check_alerts`: what a run of the check leaves behind, with a mail server that takes every
-- message, with one that takes none, and for the alerts that had not fired.
use price_monitoring_service.Prelude.{
  ℕ, ◌+◌, ◌≡◌, refl, ap, ◌∙◌, true, Option, none, some, List, [], ◌∷◌, ◌==◌, any, All, length,
  arith, ◌⊎◌, inl, inr, Bool-cases,
}
use price_monitoring_service.Exec.{Exec, Result, ok, err, smtp_error}
use price_monitoring_service.Env.{Env, Email}
use price_monitoring_service.Models.{PriceAlert, Database, World}
use price_monitoring_service.Alerts.Message.{TriggeredRow, message}
use price_monitoring_service.Alerts.Repo.{
  cons_some, triggered_row, triggered_rows, list_triggered, fired, deactivate_rows, deactivate,
}
use price_monitoring_service.Alerts.Service.{send_email, after_send, check_each, check_alerts}

-- an alert that does not fire, or that one of the rows is about
abbrev IsCovered : Database → List TriggeredRow → PriceAlert → Type 0
IsCovered db rows a = (triggered_row db a ≡ none) ⊎ (any (λ r. r.id == a.id) rows ≡ true)

triggered_row-fired :
    (db : Database) (now : ℕ) (a : PriceAlert) → triggered_row db (fired now a) ≡ none
unfolding triggered_row
triggered_row-fired db now a = ground arith

id-triggered_row :
    (db : Database) (a : PriceAlert) (r : TriggeredRow) → triggered_row db a ≡ some r → r.id ≡ a.id
unfolding triggered_row
id-triggered_row db a r h = ground arith

cover_more :
    (db : Database) (r : TriggeredRow) (rows : List TriggeredRow) (alerts : List PriceAlert)
    → All (IsCovered db rows) alerts
    → All (IsCovered db (r ∷ rows)) alerts
cover_more db r rows [] h = tt
cover_more db r rows (a ∷ alerts) h =
    (elim h.0 [ inl e ↦ inl e | inr e ↦ inr (ground arith) ], cover_more db r rows alerts h.1)

cover_cons :
    (db : Database) (a : PriceAlert) (rows : List TriggeredRow) (alerts : List PriceAlert)
    (o : Option TriggeredRow)
    → triggered_row db a ≡ o
    → All (IsCovered db rows) alerts
    → All (IsCovered db (cons_some o rows)) (a ∷ alerts)
cover_cons db a rows alerts none e h = (inl e, h)
cover_cons db a rows alerts (some r) e h =
    (inr (ground (arith, id-triggered_row db a r e)), cover_more db r rows alerts h)

triggered_rows-cover :
    (db : Database) (alerts : List PriceAlert)
    → All (IsCovered db (triggered_rows db alerts)) alerts
unfolding triggered_rows
triggered_rows-cover db [] = tt
triggered_rows-cover db (a ∷ alerts) =
    cover_cons db a (triggered_rows db alerts) alerts (triggered_row db a) refl
      (triggered_rows-cover db alerts)

cover-deactivate :
    (db : Database) (now : ℕ) (r : TriggeredRow) (rows : List TriggeredRow)
    (alerts : List PriceAlert)
    → All (IsCovered db (r ∷ rows)) alerts
    → All (IsCovered db rows) (deactivate_rows now r.id alerts)
unfolding deactivate_rows
cover-deactivate db now r rows [] h = tt
cover-deactivate db now r rows (a ∷ alerts) h = elim (Bool-cases (a.id == r.id)) [
  | inl e ↦ rw e (inl (triggered_row-fired db now a), cover-deactivate db now r rows alerts h.1)
  | inr e ↦ rw e (
    elim h.0 [ inl f ↦ inl f | inr f ↦ inr (ground arith) ],
    cover-deactivate db now r rows alerts h.1,
  )
]

none_triggered :
    (db : Database) (alerts : List PriceAlert)
    → All (IsCovered db []) alerts
    → triggered_rows db alerts ≡ []
unfolding triggered_rows
none_triggered db [] h = refl
none_triggered db (a ∷ alerts) h = elim h.0 [
  | inl e ↦ rw e (none_triggered db alerts h.1)
  | inr e ↦ cc
]

-- the query reads the other tables only
triggered_row-set_alerts :
    (rows : List PriceAlert) (db : Database) (a : PriceAlert)
    → triggered_row (record db { price_alerts = rows }) a ≡ triggered_row db a
unfolding triggered_row
triggered_row-set_alerts rows db a = refl

IsCovered-set_alerts :
    (t : List PriceAlert) (db : Database) (rows : List TriggeredRow) (alerts : List PriceAlert)
    → All (IsCovered db rows) alerts
    → All (IsCovered (record db { price_alerts = t }) rows) alerts
unfolding triggered_row
IsCovered-set_alerts t db rows [] h = tt
IsCovered-set_alerts t db rows (a ∷ alerts) h = (h.0, IsCovered-set_alerts t db rows alerts h.1)

module _ (env : Env) where
  pub db-send_email : (m : Email) (w : World) → (send_email env m w).1.db ≡ w.db
  unfolding send_email
  db-send_email m w = ground arith

  -- the mail goes out whenever it is sent
  abbrev pub Delivers : Type 0
  Delivers = (m : Email) (w : World) → (send_email env m w).0 ≡ ok tt

  -- no mail goes out
  abbrev pub Rejects : Type 0
  Rejects = (m : Email) (w : World) → (send_email env m w).0 ≡ err smtp_error

  after_send_ok :
      (rest : ℕ → Exec World ℕ) (alert_id sent : ℕ) (o : Result (Unit {0}) × World)
      → o.0 ≡ ok tt
      → after_send env rest alert_id sent o ≡ rest (sent + 1) (deactivate env.now alert_id o.1)
  unfolding after_send
  after_send_ok rest alert_id sent (ok u, w) e = refl
  after_send_ok rest alert_id sent (err x, w) e = cc

  after_send_err :
      (rest : ℕ → Exec World ℕ) (alert_id sent : ℕ) (o : Result (Unit {0}) × World)
      → o.0 ≡ err smtp_error
      → after_send env rest alert_id sent o ≡ rest sent o.1
  unfolding after_send
  after_send_err rest alert_id sent (ok u, w) e = cc
  after_send_err rest alert_id sent (err x, w) e = refl

  check_each-cons :
      (row : TriggeredRow) (rows : List TriggeredRow) (sent : ℕ) (w : World)
      → check_each env (row ∷ rows) sent w
        ≡ after_send env (check_each env rows) row.id sent (send_email env (message env row) w)
  unfolding check_each
  check_each-cons row rows sent w = refl

  cover-next :
      (row : TriggeredRow) (rows : List TriggeredRow) (w : World)
      → All (IsCovered w.db (row ∷ rows)) w.db.price_alerts
      → All
          (IsCovered (deactivate env.now row.id w).db rows)
          (deactivate env.now row.id w).db.price_alerts
  unfolding deactivate
  cover-next row rows w h =
      IsCovered-set_alerts (deactivate_rows env.now row.id w.db.price_alerts) w.db rows _
        (cover-deactivate w.db env.now row rows w.db.price_alerts h)

  delivered_each :
      (delivers : Delivers) (rows : List TriggeredRow) (sent : ℕ) (w : World)
      → All (IsCovered w.db rows) w.db.price_alerts
      → ((check_each env rows sent w).0 ≡ ok (sent + length rows))
        × (list_triggered (check_each env rows sent w).1.db ≡ [])
  unfolding check_each list_triggered
  delivered_each delivers [] sent w h =
      let e : sent ≡ sent + 0 = omega arith in
      (ap (λ n. ok n) e, none_triggered w.db w.db.price_alerts h)
  delivered_each delivers (row ∷ rows) sent w h =
      let w1 : World = (send_email env (message env row) w).1 in
      let same : w1.db ≡ w.db = db-send_email (message env row) w in
      let h1 : All (IsCovered w1.db (row ∷ rows)) w1.db.price_alerts = rw same h in
      let next =
        delivered_each delivers rows (sent + 1) (deactivate env.now row.id w1)
          (cover-next row rows w1 h1) in
      let count : sent + 1 + length rows ≡ sent + length (row ∷ rows) = omega arith in
      rw
        (after_send_ok (check_each env rows) row.id sent (send_email env (message env row) w)
          (delivers (message env row) w))
        (next.0 ∙ ap (λ n. ok n) count, next.1)

  none_delivered :
      (rejects : Rejects) (rows : List TriggeredRow) (sent : ℕ) (w : World)
      → ((check_each env rows sent w).0 ≡ ok sent) × ((check_each env rows sent w).1.db ≡ w.db)
  unfolding check_each
  none_delivered rejects [] sent w = (refl, refl)
  none_delivered rejects (row ∷ rows) sent w =
      let w1 : World = (send_email env (message env row) w).1 in
      let next = none_delivered rejects rows sent w1 in
      rw
        (after_send_err (check_each env rows) row.id sent (send_email env (message env row) w)
          (rejects (message env row) w))
        (next.0, next.1 ∙ db-send_email (message env row) w)

  -- If every message goes out, the check returns the number of the alerts that had fired, and
  -- afterwards none fires.
  pub check_alerts_delivered :
      (w : World)
      → Delivers
      → ((check_alerts env w).0 ≡ ok (length (list_triggered w.db)))
        × (list_triggered (check_alerts env w).1.db ≡ [])
  unfolding check_alerts list_triggered
  check_alerts_delivered w delivers =
      let all =
        delivered_each delivers (list_triggered w.db) 0 w
          (triggered_rows-cover w.db w.db.price_alerts) in
      let e : 0 + length (list_triggered w.db) ≡ length (list_triggered w.db) = omega arith in
      (all.0 ∙ ap (λ n. ok n) e, all.1)

  -- If the mail server takes no message, the check returns 0 without an exception, and every alert
  -- stays as it was, to be tried again.
  pub check_alerts_rejected :
      (w : World) → Rejects → ((check_alerts env w).0 ≡ ok 0) × ((check_alerts env w).1.db ≡ w.db)
  unfolding check_alerts
  check_alerts_rejected w rejects = none_delivered rejects (list_triggered w.db) 0 w
