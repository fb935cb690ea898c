-- ===== src/HttpRetry/Replied.antt =====
-- A response that `get_with_retry` returns is one that the server gave.
use price_monitoring_service.Prelude.{
  ℕ, zero, suc, ◌+◌, ◌≡◌, refl, sym, subst, Option, none, some, Bool-cases, inl, inr,
}
use price_monitoring_service.Exec.{Exception, Result, ok, err}
use price_monitoring_service.Env.{Env, Request, Reply, transport_failure, response}
use price_monitoring_service.HttpRetry.Attempts.{
  is_retried, response_of, exc_of, last_outcome, step_returned, step_next,
}
use price_monitoring_service.HttpRetry.{
  Link, Response, checked, give_up, attempt_loop, get_with_retry,
}

module _ (env : Env) (url : Request) where
  -- the server gave the response to one of its requests
  abbrev pub IsReply : Response → Type 0
  IsReply r = (n : ℕ) × (env.reply url n ≡ response r.0 r.1)

  abbrev AreReplies : Option Response → Type 0
  AreReplies none = Unit
  AreReplies (some r) = IsReply r

  -- an outcome whose response is such
  abbrev pub Replied : Result Response × Link → Type 0
  Replied (ok r, l) = IsReply r
  Replied (err e, l) = Unit

  checked-Replied : (r : Response) (l : Link) → IsReply r → Replied (checked env r l)
  checked-Replied (status, body) l h = elim (Bool-cases (env.raises_for status)) [
    | inl e ↦ rw e tt
    | inr e ↦ rw e h
  ]

  give_up-Replied :
      (r : Option Response) (e : Option Exception) (l : Link)
      → AreReplies r
      → Replied (give_up env r e l)
  unfolding give_up
  give_up-Replied (some r) e l h = checked-Replied r l h
  give_up-Replied none (some e) l h = tt
  give_up-Replied none none l h = tt

  response_of-AreReplies :
      (reply : Reply) (n : ℕ) → env.reply url n ≡ reply → AreReplies (response_of reply)
  unfolding response_of
  response_of-AreReplies transport_failure n a = tt
  response_of-AreReplies (response status body) n a = (n, a)

  last_outcome-Replied :
      (reply : Reply) (n : ℕ) (l : Link)
      → env.reply url n ≡ reply
      → Replied (last_outcome env reply l)
  last_outcome-Replied transport_failure n l a = tt
  last_outcome-Replied (response status body) n l a = checked-Replied (status, body) l (n, a)

  loop-Replied :
      (attempts left attempt : ℕ) (r : Option Response) (e : Option Exception) (l : Link)
      → AreReplies r
      → Replied (attempt_loop env url attempts left attempt r e l)
  unfolding attempt_loop
  loop-Replied attempts zero attempt r e l h = give_up-Replied r e l h
  loop-Replied attempts (suc left) attempt r e l h =
      elim (Bool-cases (is_retried (env.reply url l.sent))) [
        | inl again ↦ subst Replied (sym (step_next env url attempts left attempt r e l again)) (
            loop-Replied attempts left (attempt + 1) (response_of (env.reply url l.sent))
              (exc_of (env.reply url l.sent)) _
              (response_of-AreReplies (env.reply url l.sent) l.sent refl))
        | inr over ↦
            subst Replied (sym (step_returned env url attempts left attempt r e l over))
              (last_outcome-Replied (env.reply url l.sent) l.sent _ refl)
      ]

  pub get_with_retry-Replied :
      (attempts : ℕ) (l : Link) → Replied (get_with_retry env url attempts l)
  unfolding get_with_retry
  get_with_retry-Replied attempts l = loop-Replied attempts attempts 1 none none l tt
