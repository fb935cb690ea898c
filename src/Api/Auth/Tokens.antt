-- ===== src/Api/Auth/Tokens.antt =====
-- Which tokens are let in.
use Prim.Native.String.{◌++◌}
use price_monitoring_service.Prelude.{ℕ, String, ◌≡◌, refl, sym, Option, none, some}
use price_monitoring_service.Exec.{Result, ok, err, http_exception}
use price_monitoring_service.Json.{Json, null, bool, num, str, arr, obj, Fields, find_field}
use price_monitoring_service.Api.Auth.{
  TokenPayload, TokenLibrary, optional_text, uuid_of, payload_of, model_validate, payload_or_401,
  validated, verify_token, demo_user_text, demo_payload, make_token, authenticated,
}

module _ (lib : TokenLibrary) (app_secret_key : String) where
  -- What the payload of a verified token has of the claims: a `user_id` that is the text of a UUID.
  abbrev pub HasClaims : Option Fields → Result TokenPayload → Type 0
  HasClaims (some raw) (ok p) =
      (text : String) × (find_field "user_id" raw ≡ some (str text))
      × (lib.parse_uuid text ≡ some p.user_id)
      × (optional_text (find_field "sub" raw) ≡ some p.sub)
      × (optional_text (find_field "role" raw) ≡ some p.role)
  HasClaims none (ok p) = ⊥
  HasClaims claims (err (http_exception status detail)) = status ≡ 401
  HasClaims claims (err _) = ⊥

  uuid_text :
      (claim : Option Json) {id : ℕ}
      → uuid_of lib.parse_uuid claim ≡ some id
      → (text : String) × (claim ≡ some (str text)) × (lib.parse_uuid text ≡ some id)
  uuid_text none e = absurd (cc)
  uuid_text (some null) e = absurd (cc)
  uuid_text (some (bool b)) e = absurd (cc)
  uuid_text (some (num d)) e = absurd (cc)
  uuid_text (some (str s)) e = (s, refl, e)
  uuid_text (some (arr items)) e = absurd (cc)
  uuid_text (some (obj fs)) e = absurd (cc)

  payload-HasClaims :
      (raw : Fields) (id : Option ℕ) (sub role : Option (Option String))
      → uuid_of lib.parse_uuid (find_field "user_id" raw) ≡ id
      → optional_text (find_field "sub" raw) ≡ sub
      → optional_text (find_field "role" raw) ≡ role
      → HasClaims (some raw) (payload_or_401 lib app_secret_key (payload_of id sub role))
  payload-HasClaims raw none sub role e f g = refl
  payload-HasClaims raw (some id) none role e f g = refl
  payload-HasClaims raw (some id) (some sub) none e f g = refl
  payload-HasClaims raw (some id) (some sub) (some role) e f g =
      let t = uuid_text (find_field "user_id" raw) e in (t.0, t.1, t.2, f, g)

  validated-HasClaims :
      (claims : Option Fields) → HasClaims claims (validated lib app_secret_key claims)
  unfolding validated model_validate
  validated-HasClaims none = refl
  validated-HasClaims (some raw) = payload-HasClaims raw _ _ _ refl refl refl

  -- A token is refused with the status 401, and with no other exception; one that is let in has been
  -- decoded with the secret, and its payload has the user of its claim `user_id`, and the claims
  -- `sub` and `role`, each a text or missing.
  pub verify_token-HasClaims :
      (credentials : String)
      → HasClaims
          (lib.decode credentials app_secret_key)
          (verify_token lib app_secret_key credentials)
  unfolding verify_token
  verify_token-HasClaims credentials = validated-HasClaims (lib.decode credentials app_secret_key)

  -- The token that the script prints, with no secret given and the one of the API in its
  -- environment, is let in as the demo user, where the bearer scheme takes what follows its prefix,
  -- decoding undoes encoding with the same secret, and the fixed text is a UUID.
  pub authenticated-make_token :
      {id : ℕ} {header : String}
      → make_token lib app_secret_key none (some app_secret_key) ≡ ok header
      → lib.credentials ("Bearer " ++ lib.encode demo_payload app_secret_key)
        ≡ ok (lib.encode demo_payload app_secret_key)
      → lib.decode (lib.encode demo_payload app_secret_key) app_secret_key ≡ some demo_payload
      → lib.parse_uuid demo_user_text ≡ some id
      → authenticated lib app_secret_key header
        ≡ ok (record { user_id = id; sub = some "admin"; role = some "admin" })
  unfolding authenticated make_token verify_token validated model_validate
  authenticated-make_token {id} {header} m c d u =
      let printed : "Bearer " ++ lib.encode demo_payload app_secret_key ≡ header = cc in
      rw (sym printed) (rw c (rw d (rw u refl)))
