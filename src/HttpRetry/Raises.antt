-- ===== src/HttpRetry/Raises.antt =====
-- The exceptions of `get_with_retry`.
use price_monitoring_service.Prelude.{
  ℕ, zero, suc, ◌+◌, ◌≡◌, refl, Bool, true, false, Option, none, some, Bool-cases, inl, inr,
}
use price_monitoring_service.Exec.{
  Exception, Result, ok, err, transport_error, http_status_error, type_error,
}
use price_monitoring_service.Env.{Env, Request, Reply, transport_failure, response}
use price_monitoring_service.HttpRetry.{
  Link, Response, checked, give_up, attempt_loop, get_with_retry,
}
use price_monitoring_service.HttpRetry.Attempts.{
  is_retried, exc_of, last_outcome, step_next, step_returned, loop_end,
}

-- what a call can raise: an `httpx.HTTPError`, or the TypeError of `raise None`
abbrev pub is_http_failure : Exception → Bool
is_http_failure transport_error = true
is_http_failure (http_status_error _) = true
is_http_failure type_error = true
is_http_failure _ = false

-- a result, or one of those exceptions
abbrev pub RaisesHttp {ℓ} : {A : Type ℓ} → Result A → Type 0
RaisesHttp (ok _) = Unit
RaisesHttp (err e) = is_http_failure e ≡ true

module _ (env : Env) where
  checked-RaisesHttp : (r : Response) (l : Link) → RaisesHttp (checked env r l).0
  checked-RaisesHttp (status, body) l = elim (Bool-cases (env.raises_for status)) [
    | inl e ↦ rw e refl
    | inr e ↦ rw e tt
  ]

  abbrev LastRaisesHttp : Option Exception → Type 0
  LastRaisesHttp none = Unit
  LastRaisesHttp (some e) = is_http_failure e ≡ true

  give_up-RaisesHttp :
      (lr : Option Response) (le : Option Exception) (l : Link)
      → LastRaisesHttp le
      → RaisesHttp (give_up env lr le l).0
  unfolding give_up
  give_up-RaisesHttp (some r) le l h = checked-RaisesHttp r l
  give_up-RaisesHttp none (some e) l h = h
  give_up-RaisesHttp none none l h = refl

  exc_of-RaisesHttp : (r : Reply) → LastRaisesHttp (exc_of r)
  unfolding exc_of
  exc_of-RaisesHttp transport_failure = refl
  exc_of-RaisesHttp (response status body) = tt

  last_outcome-RaisesHttp : (r : Reply) (l : Link) → RaisesHttp (last_outcome env r l).0
  last_outcome-RaisesHttp transport_failure l = refl
  last_outcome-RaisesHttp (response status body) l = checked-RaisesHttp (status, body) l

  module _ (url : Request) (attempts : ℕ) where
    loop-RaisesHttp :
        (left attempt : ℕ) (lr : Option Response) (le : Option Exception) (l : Link)
        → LastRaisesHttp le
        → RaisesHttp (attempt_loop env url attempts left attempt lr le l).0
    loop-RaisesHttp zero attempt lr le l h =
        rw (loop_end env url attempts attempt lr le l) (give_up-RaisesHttp lr le l h)
    loop-RaisesHttp (suc left) attempt lr le l h =
        elim (Bool-cases (is_retried (env.reply url l.sent))) [
          | inl r ↦
              rw (step_next env url attempts left attempt lr le l r) (
                loop-RaisesHttp left (attempt + 1) _ _ _ (exc_of-RaisesHttp (env.reply url l.sent)))
          | inr r ↦
              rw (step_returned env url attempts left attempt lr le l r)
                (last_outcome-RaisesHttp (env.reply url l.sent) _)
        ]

    -- Whatever the server answers, the call returns a response, or raises an `httpx.HTTPError` or the
    -- TypeError of `raise None`.
    pub get_with_retry-RaisesHttp : (l : Link) → RaisesHttp (get_with_retry env url attempts l).0
    unfolding get_with_retry
    get_with_retry-RaisesHttp l = loop-RaisesHttp attempts 1 none none l tt
