-- ===== src/Api/Routes/Guards.antt =====
-- Who is let in, and what a request that fails leaves.
use price_monitoring_service.Prelude.{
  String, ◌≡◌, refl, ◌∙◌, Bool, true, false, Bool-cases, inl, inr,
}
use price_monitoring_service.Exec.{Exception, Result, ok, err}
use price_monitoring_service.Env.{Env}
use price_monitoring_service.Models.{Database, World}
use price_monitoring_service.Api.Auth.{TokenPayload, TokenLibrary, authenticated}
use price_monitoring_service.Api.Session.{failure, error_status, error_detail}
use price_monitoring_service.Api.Session.Atomic.{is_success, db-request}
use price_monitoring_service.Api.Routes.{
  Call, needs_token, is_valid_call, success_code, operation, serve_as, serve,
}

module _ (env : Env) (commits : Database → Bool) (lib : TokenLibrary)
    (app_secret_key : String) where
  -- A request whose token is refused gets the answer of that refusal, and changes nothing at all,
  -- whatever else it asks for; only the health check needs no token.
  pub serve_refused :
      (call : Call) (header : String) (w : World) {e : Exception}
      → needs_token call ≡ true
      → authenticated lib app_secret_key header ≡ err e
      → serve env commits lib app_secret_key call header w
        ≡ (failure (error_status e) (error_detail e), w)
  unfolding serve serve_as
  serve_refused call header w n e = rw n (rw e refl)

  serve_as_failed :
      (call : Call) (r : Result TokenPayload) (w : World)
      → is_success (serve_as env commits lib app_secret_key call r w).0 ≡ false
      → (serve_as env commits lib app_secret_key call r w).1.db ≡ w.db
  unfolding serve_as
  serve_as_failed call (err e) w = λ h. refl
  serve_as_failed call (ok user) w = elim (Bool-cases (is_valid_call call)) [
    | inl e ↦
        rw e λ h. db-request commits (success_code call) (operation env call user) w ∙ rw h refl
    | inr e ↦ rw e λ h. refl
  ]

  -- A request that is not answered with success leaves the database as it was: one with a refused
  -- token, one whose parameters break their constraints, and one whose operation raises.
  pub serve_failed :
      (call : Call) (header : String) (w : World)
      → is_success (serve env commits lib app_secret_key call header w).0 ≡ false
      → (serve env commits lib app_secret_key call header w).1.db ≡ w.db
  unfolding serve
  serve_failed call header w = elim (Bool-cases (needs_token call)) [
    | inl e ↦ rw e λ h. serve_as_failed call (authenticated lib app_secret_key header) w h
    | inr e ↦ rw e λ h. refl
  ]
