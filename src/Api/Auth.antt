-- ===== src/Api/Auth.antt =====
-- `verify_token` of app/core/security.py, `TokenPayload` of app/schemas/auth.py and `make_token` of
-- scripts/generate_token.py. The token library, the bearer scheme of FastAPI and `uuid.UUID` are
-- parameters.
pub mod Tokens
use Prim.Native.String.{◌++◌}
use text.Mathlib.Text.{◌==◌ as str_eq}
use price_monitoring_service.Prelude.{ℕ, String, Option, none, some, if◌then◌else◌}
use price_monitoring_service.Exec.{Result, ok, err, http_exception, key_error}
use price_monitoring_service.Json.{
  Json, null, bool, num, str, arr, obj, Fields, end, field, find_field,
}

pub record TokenPayload : Type 0 where
  pub user_id : ℕ
  pub sub : Option String
  pub role : Option String

pub record TokenLibrary : Type 0 where
  -- `jwt.encode(payload, secret)`, and `jwt.decode(token, secret)`: none is a JWTError
  pub encode : Fields → String → String
  pub decode : String → String → Option Fields
  -- what `HTTPBearer` takes for the credentials of an Authorization header, or the exception that it
  -- raises
  pub credentials : String → Result String
  -- `uuid.UUID(text)`
  pub parse_uuid : String → Option ℕ

-- a claim `str | None = None`: none is a ValidationError
abbrev pub optional_text : Option Json → Option (Option String)
optional_text none = some none
optional_text (some null) = some none
optional_text (some (str s)) = some (some s)
optional_text (some _) = none

abbrev pub uuid_of : (String → Option ℕ) → Option Json → Option ℕ
uuid_of parse (some (str s)) = parse s
uuid_of parse _ = none

abbrev pub payload_of :
    Option ℕ → Option (Option String) → Option (Option String) → Option TokenPayload
payload_of (some user_id) (some sub) (some role) =
    some (record { user_id = user_id; sub = sub; role = role })
payload_of _ _ _ = none

-- `DEMO_USER_ID`
abbrev pub demo_user_text : String
demo_user_text = "10000000-0000-0000-0000-000000000001"

abbrev pub demo_payload : Fields
demo_payload =
    field "sub" (str "admin")
      (field "role" (str "admin") (field "user_id" (str demo_user_text) end))

module _ (lib : TokenLibrary) (app_secret_key : String) where
  -- `TokenPayload.model_validate(raw)`; other claims are ignored
  unfoldable pub model_validate : Fields → Option TokenPayload
  model_validate raw =
      payload_of (uuid_of lib.parse_uuid (find_field "user_id" raw))
        (optional_text (find_field "sub" raw)) (optional_text (find_field "role" raw))

  abbrev pub payload_or_401 : Option TokenPayload → Result TokenPayload
  payload_or_401 none = err (http_exception 401 "Token payload is invalid")
  payload_or_401 (some p) = ok p

  unfoldable pub validated : Option Fields → Result TokenPayload
  unfolding model_validate
  validated none = err (http_exception 401 "Invalid or missing token")
  validated (some raw) = payload_or_401 (model_validate raw)

  unfoldable pub verify_token : String → Result TokenPayload
  unfolding validated
  verify_token credentials = validated (lib.decode credentials app_secret_key)

  abbrev pub verified : Result String → Result TokenPayload
  verified (ok credentials) = verify_token credentials
  verified (err e) = err e

  -- the dependency of a route on `verify_token`
  unfoldable pub authenticated : String → Result TokenPayload
  unfolding verify_token
  authenticated header = verified (lib.credentials header)

  -- `os.environ["APP_SECRET_KEY"]`
  abbrev pub secret_of : Option String → Result String
  secret_of none = err key_error
  secret_of (some key) = ok key

  -- `secret or os.environ["APP_SECRET_KEY"]`
  abbrev pub secret_or : Option String → Option String → Result String
  secret_or none environ = secret_of environ
  secret_or (some secret) environ = if str_eq secret "" then secret_of environ else ok secret

  abbrev pub token_with : Result String → Result String
  token_with (ok secret) = ok ("Bearer " ++ lib.encode demo_payload secret)
  token_with (err e) = err e

  -- `make_token(secret)`, with the variable of the environment
  unfoldable pub make_token : Option String → Option String → Result String
  make_token secret environ = token_with (secret_or secret environ)
