-- ===== src/HttpRetry/Attempts.antt =====
-- Which attempt `get_with_retry` returns, how many requests it sends, and how long it waits.
use native.Mathlib.Nat.{pow-suc}
use native.Mathlib.Numerals.{add-one}
use price_monitoring_service.Prelude.{
  ℕ, zero, suc, ◌+◌, ◌-◌, ◌^◌, ◌≤◌, ◌<◌, ◌≡◌, refl, ap, ◌∙◌, Bool, true, false, not, Option, none,
  some, arith,
}
use price_monitoring_service.Exec.{Exec, raise, Exception, transport_error}
use price_monitoring_service.Json.{Json}
use price_monitoring_service.Env.{Env, Request, Reply, transport_failure, response}
use price_monitoring_service.HttpRetry.{
  Link, Response, is_final, checked, give_up, pause, attempt_loop, get_with_retry,
}

-- a reply that calls for another attempt
abbrev pub is_retried : Reply → Bool
is_retried transport_failure = true
is_retried (response status body) = not (is_final status)

-- the replies to `count` requests, from the n-th on, all call for another attempt
abbrev pub AllRetried : (ℕ → Reply) → ℕ → ℕ → Type 0
AllRetried replies n zero = Unit
AllRetried replies n (suc count) =
    (is_retried (replies n) ≡ true) × AllRetried replies (suc n) count

-- the pauses after `count` attempts, from the attempt number `attempt` on
waits : ℕ → ℕ → ℕ
waits attempt zero = 0
waits attempt (suc count) = 2 ^ (attempt - 1) + waits (suc attempt) count

waits_closed : (attempt count : ℕ) → waits (suc attempt) count + 2 ^ attempt ≡ 2 ^ (attempt + count)
unfolding waits
waits_closed attempt zero = ground arith
waits_closed attempt (suc count) =
    let e1 : 2 ^ (suc attempt - 1) ≡ 2 ^ attempt = ap (λ (n : ℕ). 2 ^ n) (omega arith) in
    let e2 : 2 ^ (attempt + suc count) ≡ 2 ^ (suc attempt + count) =
      ap (λ (n : ℕ). 2 ^ n) (omega arith) in
    omega (arith, e1, e2, waits_closed (suc attempt) count, pow-suc 2 attempt)

pub link_eq :
    {a b c d : ℕ}
    → a ≡ b
    → c ≡ d
    → ◌≡◌ {A = Link} (record { sent = a; slept = c }) (record { sent = b; slept = d })
link_eq p q = λ i. record { sent = p i; slept = q i }

waited : (n k : ℕ) → n + waits 1 k ≡ n + (2 ^ k - 1)
waited n k =
    let e : 2 ^ (0 + k) ≡ 2 ^ k = ap (λ (n : ℕ). 2 ^ n) (omega arith) in
    omega (arith, waits_closed 0 k, e)

-- the two variables of the loop after a reply
unfoldable pub response_of : Reply → Option Response
response_of transport_failure = none
response_of (response status body) = some (status, body)

unfoldable pub exc_of : Reply → Option Exception
exc_of transport_failure = some transport_error
exc_of (response status body) = none

module _ (env : Env) where
  -- what the last reply of a failed call raises
  abbrev pub last_outcome : Reply → Exec Link Response
  last_outcome transport_failure = raise transport_error
  last_outcome (response status body) = checked env (status, body)

  give_up_last : (r : Reply) → give_up env (response_of r) (exc_of r) ≡ last_outcome r
  unfolding give_up response_of exc_of
  give_up_last transport_failure = refl
  give_up_last (response status body) = refl

  same_outcome :
      {r r' : Reply} {l l' : Link} → r ≡ r' → l ≡ l' → last_outcome r l ≡ last_outcome r' l'
  same_outcome p q = λ i. last_outcome (p i) (q i)

module _ (env : Env) (url : Request) (attempts left attempt : ℕ) (lr : Option Response)
    (le : Option Exception) (l : Link) where
  step_final :
      (status : ℕ) (body : Option Json)
      → env.reply url l.sent ≡ response status body
      → is_final status ≡ true
      → attempt_loop env url attempts (suc left) attempt lr le l
        ≡ checked env (status, body) (record l { sent = l.sent + 1 })
  unfolding attempt_loop
  step_final status body e f = ground (arith)

  -- the same by the test of the reply, with the pause left shut
  pub step_returned :
      is_retried (env.reply url l.sent) ≡ false
      → attempt_loop env url attempts (suc left) attempt lr le l
        ≡ last_outcome env (env.reply url l.sent) (record l { sent = l.sent + 1 })
  unfolding attempt_loop
  step_returned r = ground arith

  pub step_next :
      is_retried (env.reply url l.sent) ≡ true
      → attempt_loop env url attempts (suc left) attempt lr le l
        ≡ attempt_loop env url attempts left
            (attempt + 1)
            (response_of (env.reply url l.sent))
            (exc_of (env.reply url l.sent))
            (pause attempts attempt (record l { sent = l.sent + 1 }))
  unfolding attempt_loop response_of exc_of
  step_next r = ground arith

  step_retried :
      is_retried (env.reply url l.sent) ≡ true
      → attempt < attempts
      → attempt_loop env url attempts (suc left) attempt lr le l
        ≡ attempt_loop env url attempts left
            (attempt + 1)
            (response_of (env.reply url l.sent))
            (exc_of (env.reply url l.sent))
            (record { sent = l.sent + 1; slept = l.slept + 2 ^ (attempt - 1) })
  unfolding attempt_loop pause response_of exc_of
  step_retried r h = ground (arith)

  step_last :
      is_retried (env.reply url l.sent) ≡ true
      → ¬ (attempt < attempts)
      → attempt_loop env url attempts (suc left) attempt lr le l
        ≡ attempt_loop env url attempts left
            (attempt + 1)
            (response_of (env.reply url l.sent))
            (exc_of (env.reply url l.sent))
            (record l { sent = l.sent + 1 })
  unfolding attempt_loop pause response_of exc_of
  step_last r h = ground (arith)

module _ (env : Env) (url : Request) (attempts : ℕ) where
  loop_final :
      (k left attempt status : ℕ) (body : Option Json) (lr : Option Response)
      (le : Option Exception) (l : Link)
      → k < left
      → attempt + left ≡ attempts + 1
      → AllRetried (env.reply url) l.sent k
      → env.reply url (l.sent + k) ≡ response status body
      → is_final status ≡ true
      → attempt_loop env url attempts left attempt lr le l
        ≡ checked env
            (status, body)
            (record { sent = l.sent + k + 1; slept = l.slept + waits attempt k })
  unfolding waits
  loop_final k zero attempt status body lr le l h n r e f = absurd (omega arith)
  loop_final zero (suc left) attempt status body lr le l h n r e f =
      step_final env url attempts left attempt lr le l status body
        (ap (env.reply url) (omega arith) ∙ e) f
      ∙ ap (checked env (status, body)) (link_eq (omega arith) (omega arith))
  loop_final (suc k) (suc left) attempt status body lr le l h n r e f =
      let l' : Link = record { sent = l.sent + 1; slept = l.slept + 2 ^ (attempt - 1) } in
      step_retried env url attempts left attempt lr le l r.0 (omega arith)
      ∙ loop_final k left (attempt + 1) status body _ _ l' (omega arith) (omega arith)
          (rw (add-one l.sent) r.1) (ap (env.reply url) (omega arith) ∙ e) f
      ∙ ap (checked env (status, body)) (link_eq (omega arith) (rw (add-one attempt) (omega arith)))

  pub loop_end :
      (attempt : ℕ) (lr : Option Response) (le : Option Exception) (l : Link)
      → attempt_loop env url attempts 0 attempt lr le l ≡ give_up env lr le l
  unfolding attempt_loop
  loop_end attempt lr le l = refl

  loop_exhausted :
      (k attempt : ℕ) (lr : Option Response) (le : Option Exception) (l : Link)
      → attempt + k ≡ attempts
      → AllRetried (env.reply url) l.sent (suc k)
      → attempt_loop env url attempts (suc k) attempt lr le l
        ≡ last_outcome env
            (env.reply url (l.sent + k))
            (record { sent = l.sent + suc k; slept = l.slept + waits attempt k })
  unfolding waits
  loop_exhausted zero attempt lr le l n r =
      step_last env url attempts 0 attempt lr le l r.0 (omega arith)
      ∙ loop_end (attempt + 1) _ _ (record l { sent = l.sent + 1 })
      ∙ ap (λ (m : Exec Link Response). m (record l { sent = l.sent + 1 }))
          (give_up_last env (env.reply url l.sent))
      ∙ same_outcome env (ap (env.reply url) (omega arith)) (link_eq (omega arith) (omega arith))
  loop_exhausted (suc k) attempt lr le l n r =
      let l' : Link = record { sent = l.sent + 1; slept = l.slept + 2 ^ (attempt - 1) } in
      step_retried env url attempts (suc k) attempt lr le l r.0 (omega arith)
      ∙ loop_exhausted k (attempt + 1) _ _ l' (omega arith) (rw (add-one l.sent) r.1)
      ∙ same_outcome env (ap (env.reply url) (omega arith))
          (link_eq (omega arith) (rw (add-one attempt) (omega arith)))

  -- If the first k replies call for another attempt and the next one does not, and k is below the
  -- number of attempts, then that reply is checked and returned: k + 1 requests were sent, and
  -- 2 ^ k - 1 units of time waited.
  pub get_with_retry-final :
      (k status : ℕ) (body : Option Json) (l : Link)
      → k < attempts
      → AllRetried (env.reply url) l.sent k
      → env.reply url (l.sent + k) ≡ response status body
      → is_final status ≡ true
      → get_with_retry env url attempts l
        ≡ checked env
            (status, body)
            (record { sent = l.sent + k + 1; slept = l.slept + (2 ^ k - 1) })
  unfolding get_with_retry
  get_with_retry-final k status body l h r e f =
      loop_final k attempts 1 status body none none l h (omega arith) r e f
      ∙ ap (checked env (status, body)) (link_eq refl (waited l.slept k))

module _ (env : Env) (url : Request) where
  -- If all the replies of k + 1 attempts call for another, then the last one decides the
  -- exception: the transport error, or the check of its status code. k + 1 requests are sent, and
  -- no time is waited after the last.
  pub get_with_retry-exhausted :
      (k : ℕ) (l : Link)
      → AllRetried (env.reply url) l.sent (suc k)
      → get_with_retry env url (suc k) l
        ≡ last_outcome env
            (env.reply url (l.sent + k))
            (record { sent = l.sent + suc k; slept = l.slept + (2 ^ k - 1) })
  unfolding get_with_retry
  get_with_retry-exhausted k l r =
      loop_exhausted env url (suc k) k 1 none none l (omega arith) r
      ∙ ap (last_outcome env (env.reply url (l.sent + k))) (link_eq refl (waited l.slept k))

  sent-give_up :
      (lr : Option Response) (le : Option Exception) (l : Link)
      → (give_up env lr le l).1.sent ≡ l.sent
  unfolding give_up
  sent-give_up lr le l = ground arith

  sent-loop :
      (attempts left attempt : ℕ) (lr : Option Response) (le : Option Exception) (l : Link)
      → (attempt_loop env url attempts left attempt lr le l).1.sent ≤ l.sent + left
  unfolding attempt_loop pause
  sent-loop attempts zero attempt lr le l = omega (arith, sent-give_up lr le l)
  sent-loop attempts (suc left) attempt lr le l = grind (arith, sent-loop attempts left)

  -- Whatever the server answers, at most `attempts` requests are sent.
  pub sent-get_with_retry :
      (attempts : ℕ) (l : Link) → (get_with_retry env url attempts l).1.sent ≤ l.sent + attempts
  unfolding get_with_retry
  sent-get_with_retry attempts l = sent-loop attempts attempts 1 none none l
