-- ===== src/HttpRetry.antt =====
-- app/core/http_retry.py: `get_with_retry`, the loop over the attempts with its two variables.
pub mod Attempts
pub mod Raises
pub mod Replied
use price_monitoring_service.Prelude.{
  ℕ, zero, suc, ◌+◌, ◌-◌, ◌*◌, ◌^◌, Bool, true, false, not, ◌&&◌, Option, none, some, ltb, ◌==◌,
  if◌then◌else◌,
}
use price_monitoring_service.Exec.{
  Exec, Exception, Result, ok, err, pure, raise, http_status_error, transport_error, type_error,
}
use price_monitoring_service.Json.{Json}
use price_monitoring_service.Env.{Env, Request, Reply, transport_failure, response}

-- What the client has done: the requests that it has sent, and the time that it has waited,
-- in units of `base_delay`.
pub record Link : Type 0 where
  pub sent : ℕ
  pub slept : ℕ

-- A response: its status code and body.
abbrev pub Response : Type 0
Response = ℕ × Option Json

-- `resp.status_code != 429 and resp.status_code < 500`
abbrev pub is_final : ℕ → Bool
is_final status = not (status == 429) && ltb status 500

-- `if attempt < attempts: await asyncio.sleep(base_delay * 2 ** (attempt - 1))`
pub pause : ℕ → ℕ → Link → Link
pause attempts attempt l =
    if ltb attempt attempts then record l { slept = l.slept + 2 ^ (attempt - 1) } else l

module _ (env : Env) where
  -- `resp.raise_for_status()` and `return resp`
  abbrev pub checked : Response → Exec Link Response
  checked (status, body) =
      if env.raises_for status then raise (http_status_error status) else pure (status, body)

  -- what follows the loop
  pub give_up : Option Response → Option Exception → Exec Link Response
  give_up (some r) last_exc = checked r
  give_up none (some e) = raise e
  give_up none none = raise type_error

  -- The rounds left, the number of the attempt, and the two variables `last_response`, `last_exc`.
  pub attempt_loop : Request → ℕ → ℕ → ℕ → Option Response → Option Exception → Exec Link Response
  unfolding give_up pause
  attempt_loop url attempts zero attempt last_response last_exc l = give_up last_response last_exc l
  attempt_loop url attempts (suc left) attempt last_response last_exc l =
      let l' = record l { sent = l.sent + 1 } in
      elim (env.reply url l.sent) [
        | transport_failure ↦
            attempt_loop url attempts left (attempt + 1) none (some transport_error)
              (pause attempts attempt l')
        | response status body ↦ elim (is_final status) [
          | true ↦ checked (status, body) l'
          | false ↦
              attempt_loop url attempts left (attempt + 1) (some (status, body)) none
                (pause attempts attempt l')
        ]
      ]

  unfoldable pub get_with_retry : Request → ℕ → Exec Link Response
  unfolding attempt_loop
  get_with_retry url attempts = attempt_loop url attempts attempts 1 none none
