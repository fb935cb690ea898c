-- ===== src/Tests/Api.antt =====
-- Requests to the API.
use text.Mathlib.Text.{◌==◌ as str_eq}
use price_monitoring_service.Prelude.{
  ◌≡◌, refl, String, Bool, true, false, none, some, List, [], ◌∷◌, if◌then◌else◌,
}
use price_monitoring_service.Exec.{ok, err, http_exception}
use price_monitoring_service.Models.{World}
use price_monitoring_service.Schemas.{Currency, price_asc}
use price_monitoring_service.Env.{Env}
use price_monitoring_service.Models.{Database}
use price_monitoring_service.Watchlist.{add, remove, tracks, product_exists}
use price_monitoring_service.Api.Auth.{
  TokenLibrary, demo_payload, make_token, verify_token, authenticated,
}
use price_monitoring_service.Api.Auth.Tokens.{
  HasClaims, verify_token-HasClaims, authenticated-make_token,
}
use price_monitoring_service.Api.Session.{request}
use price_monitoring_service.Api.Session.Atomic.{is_success}
use price_monitoring_service.Api.Routes.{
  get_products_call, add_user_product_call, is_valid_call, serve,
}
use price_monitoring_service.Api.Routes.Guards.{serve_failed}
use price_monitoring_service.Api.Routes.Reading.{KeepsRates, serve_reads}
use price_monitoring_service.Api.Watching.{
  Change, adds, removes, replay, run, tracked_in, known_in, run_refines,
}
use price_monitoring_service.Api.Races.{Sessions, asked, ended, Reach, start, later, asks, ends}
use price_monitoring_service.Api.Races.Once.{IsKeyed, IsStored, Reach-IsStored}
use price_monitoring_service.Prelude.{All, arith}
use price_monitoring_service.Tests.Fixtures.{env_with, answers, world}

abbrev env : Env
env = env_with answers true

-- a library with one token
abbrev pub lib : TokenLibrary
lib = record {
  encode = λ claims secret. "t";
  decode = λ token secret. if str_eq token "t" then some demo_payload else none;
  credentials = λ header.
      if str_eq header "Bearer t" then ok "t" else err (http_exception 401 "Not authenticated");
  parse_uuid = λ text. some 1;
}

abbrev pub takes_all : Database → Bool
takes_all db = true

abbrev takes_none : Database → Bool
takes_none db = false

verify_token-HasClaims_example : HasClaims lib "s" (some demo_payload) (verify_token lib "s" "t")
verify_token-HasClaims_example = verify_token-HasClaims lib "s" "t"

printed : make_token lib "s" none (some "s") ≡ ok "Bearer t"
unfolding make_token
printed = refl

authenticated-make_token_example :
    authenticated lib "s" "Bearer t"
    ≡ ok (record { user_id = 1; sub = some "admin"; role = some "admin" })
authenticated-make_token_example = authenticated-make_token lib "s" printed refl refl refl

unknown_product :
    is_success (serve env takes_all lib "s" (add_user_product_call 9) "Bearer t" world).0 ≡ false
unfolding serve authenticated add is_valid_call request product_exists
unknown_product = refl

serve_failed_example :
    (serve env takes_all lib "s" (add_user_product_call 9) "Bearer t" world).1.db ≡ world.db
serve_failed_example =
    serve_failed env takes_all lib "s" (add_user_product_call 9) "Bearer t" world unknown_product

-- a world without a rate, in which the request writes the first ones
abbrev unrated : World
unrated = record world { db = record world.db { exchange_rates = [] } }

serve_reads_example :
    KeepsRates unrated.db
      (serve env takes_all lib "s"
        (get_products_call Currency.eur price_asc 1 20)
        "Bearer t"
        unrated).1.db
serve_reads_example =
    serve_reads env takes_all lib "s" (get_products_call Currency.eur price_asc 1 20) "Bearer t"
      unrated refl

-- the second request has no token
abbrev requests : List (String × Change)
requests =
    ("Bearer t", adds 3) ∷ ("x", removes 3) ∷ ("Bearer t", adds 3) ∷ ("Bearer t", removes 3) ∷ []

codes : (run env takes_all lib "s" requests world).0 ≡ 201 ∷ 401 ∷ 409 ∷ 204 ∷ []
unfolding run serve authenticated add is_valid_call request product_exists remove tracks
codes = refl

run_refines_example :
    ((run env takes_all lib "s" requests world).0
      ≡ (replay (known_in world) (authenticated lib "s") requests (tracked_in world)).0)
    × (tracked_in (run env takes_all lib "s" requests world).1
        ≡ (replay (known_in world) (authenticated lib "s") requests (tracked_in world)).1)
run_refines_example = run_refines env takes_all lib "s" (λ db. refl) requests world

-- two requests for one product are both answered with success, and both sessions end
abbrev both_asked : Sessions
both_asked = asked 1 3 (asked 1 3 (record { world = world; pending = []; granted = []; lost = [] }))

abbrev both_ended : Sessions
both_ended = ended takes_all 1 3 [] (ended takes_all 1 3 ((1, 3) ∷ []) both_asked)

two_pending : both_asked.pending ≡ (1, 3) ∷ (1, 3) ∷ []
unfolding asked add product_exists tracks
two_pending = refl

one_pending : (ended takes_all 1 3 ((1, 3) ∷ []) both_asked).pending ≡ (1, 3) ∷ []
unfolding ended asked add product_exists tracks
one_pending = refl

none_pending : both_ended.pending ≡ []
unfolding ended asked add product_exists tracks
none_pending = refl

race : Reach takes_all world both_ended
race =
    later
      (later (later (later start (asks 1 3)) (asks 1 3)) (ends [] ((1, 3) ∷ []) 1 3 two_pending))
      (ends [] [] 1 3 one_pending)

keyed : IsKeyed world
keyed u p = omega arith

Reach-IsStored_example :
    IsKeyed both_ended.world × All (IsStored both_ended.world both_ended.lost) both_ended.granted
Reach-IsStored_example = Reach-IsStored takes_all keyed race none_pending
