-- ===== src/Api/Watching.antt =====
-- The routes of the watchlist against their specification, a set of pairs of a user and a product.
use mathlib.Core.Path.{fun_ext}
use price_monitoring_service.Prelude.{
  ℕ, String, ◌≡◌, refl, ap, ◌∙◌, Bool, true, false, not, ◌&&◌, ◌||◌, List, [], ◌∷◌, if◌then◌else◌,
  length, filter, ◌==◌, Bool-cases, inl, inr,
}
use price_monitoring_service.Exec.{Result, ok, err, not_found, resume, pure}
use price_monitoring_service.Env.{Env}
use price_monitoring_service.Models.{Database, World}
use price_monitoring_service.Watchlist.{
  product_exists, is_row, tracks, add_row, delete_rows, add, remove, found_some,
}
use price_monitoring_service.Watchlist.Laws.{same_row, tracks-add_row, tracks-remove, remove_result}
use price_monitoring_service.Api.Auth.{TokenPayload, TokenLibrary, authenticated}
use price_monitoring_service.Api.Session.{
  Answer, status, error_status, end_session, respond, request,
}
use price_monitoring_service.Api.Routes.{
  Call, add_user_product_call, remove_user_product_call, Body, no_body, is_valid_call, operation,
  serve_as, serve,
}

-- a request that writes the watchlist
pub data Change : Type 0 where
  adds : ℕ → Change
  removes : ℕ → Change

abbrev pub call_of : Change → Call
call_of (adds product_id) = add_user_product_call product_id
call_of (removes product_id) = remove_user_product_call product_id

-- the specification: which user tracks which product
abbrev pub Tracked : Type 0
Tracked = ℕ → ℕ → Bool

abbrev pub insert_pair : ℕ → ℕ → Tracked → Tracked
insert_pair u p f v q = f v q || same_row u p v q

abbrev pub delete_pair : ℕ → ℕ → Tracked → Tracked
delete_pair u p f v q = f v q && not (same_row u p v q)

-- the status code of a change by a user, and the set after it
abbrev pub change : (ℕ → Bool) → ℕ → Change → Tracked → ℕ × Tracked
change known u (adds p) f =
    if not (known p) then (404, f) else if f u p then (409, f) else (201, insert_pair u p f)
change known u (removes p) f = if f u p then (204, delete_pair u p f) else (404, f)

-- the same for a request with a header
abbrev pub change_as : (ℕ → Bool) → Result TokenPayload → Change → Tracked → ℕ × Tracked
change_as known (err e) c f = (error_status e, f)
change_as known (ok user) c f = change known user.user_id c f

unfoldable pub replay :
    (ℕ → Bool)
    → (String → Result TokenPayload)
    → List (String × Change)
    → Tracked
    → List ℕ × Tracked
replay known who [] f = ([], f)
replay known who ((header, c) ∷ requests) f =
    let (code, g) = change_as known (who header) c f in
    let (codes, h) = replay known who requests g in (code ∷ codes, h)

-- the view of a world
abbrev pub tracked_in : World → Tracked
tracked_in w v q = tracks v q w

abbrev pub known_in : World → ℕ → Bool
known_in w p = product_exists p w

module _ (env : Env) (commits : Database → Bool) (lib : TokenLibrary)
    (app_secret_key : String) where
  -- the requests one after the other, and the status codes of their answers
  unfoldable pub run : List (String × Change) → World → List ℕ × World
  run [] w = ([], w)
  run ((header, c) ∷ requests) w =
      let (answer, after) = serve env commits lib app_secret_key (call_of c) header w in
      let (codes, last) = run requests after in (status answer ∷ codes, last)

  module _ (accepts : (db : Database) → commits db ≡ true) where
    -- An answer and a world that agree with a status code and a set, on the products of a world.
    abbrev Agrees : World → ℕ × Tracked → Answer Body × World → Type 0
    Agrees w (code, f) o = (status o.0 ≡ code) × (tracked_in o.1 ≡ f) × (known_in o.1 ≡ known_in w)

    view_eq : {f g : Tracked} → ((v q : ℕ) → f v q ≡ g v q) → f ≡ g
    view_eq h = fun_ext (λ v. fun_ext (λ q. h v q))

    kept_session : (before : Database) (w : World) → end_session commits before w ≡ w
    unfolding end_session
    kept_session before w = rw (accepts w.db) refl

    added-Agrees :
        (user : TokenPayload) (p : ℕ) (w : World)
        → Agrees w
            (change (known_in w) user.user_id (adds p) (tracked_in w))
            (request commits 201 (operation env (add_user_product_call p) user) w)
    unfolding request respond operation add error_status product_exists
    added-Agrees user p w = elim (Bool-cases (product_exists p w)) [
      | inl known ↦ elim (Bool-cases (tracks user.user_id p w)) [
        | inl old ↦ rw known (rw old (refl, refl, refl))
        | inr new ↦ rw known (
            rw new (
              rw (kept_session w.db (add_row user.user_id p w))
                (refl, view_eq (λ v q. tracks-add_row user.user_id p v q w), refl)))
      ]
      | inr unknown ↦ rw unknown (refl, refl, refl)
    ]

    error_of : Result (Unit {0}) → ℕ
    error_of (ok u) = 0
    error_of (err e) = error_status e

    is_fine : Result (Unit {0}) → Bool
    is_fine (ok u) = true
    is_fine (err e) = false

    responded-Agrees :
        (u p : ℕ) (w : World) (o : Result (Unit {0}) × World)
        → o.0 ≡ (if tracks u p w then ok tt else err (not_found "Product not in watchlist"))
        → ((v q : ℕ) → tracks v q o.1 ≡ (tracks v q w && not (same_row u p v q)))
        → known_in o.1 ≡ known_in w
        → Agrees w
            (change (known_in w) u (removes p) (tracked_in w))
            (respond commits 204 w.db (resume (λ a. pure no_body) o))
    unfolding respond error_of is_fine error_status tracks product_exists
    responded-Agrees u p w (ok x, w') r h k = elim (Bool-cases (tracks u p w)) [
      | inl e ↦ rw e (rw (kept_session w.db w') (refl, view_eq h, k))
      | inr e ↦ absurd (cc)
    ]
    responded-Agrees u p w (err x, w') r h k = elim (Bool-cases (tracks u p w)) [
      | inl e ↦ absurd (cc)
      | inr e ↦
          let code : error_status x ≡ 404 =
            ap error_of r
            ∙ ap (λ b. error_of (if b then ok tt else err (not_found "Product not in watchlist")))
                e in
          rw e (code, refl, refl)
    ]

    known-remove : (u p : ℕ) (w : World) → known_in (remove u p w).1 ≡ known_in w
    unfolding remove delete_rows product_exists
    known-remove u p w = ended (length (filter (is_row u p) w.db.user_products)) _
      where
        ended : (n : ℕ) (v : World) → known_in (found_some n v).1 ≡ known_in v
        ended n v = elim (Bool-cases (n == 0)) [ inl e ↦ rw e refl | inr e ↦ rw e refl ]

    removed-Agrees :
        (user : TokenPayload) (p : ℕ) (w : World)
        → Agrees w
            (change (known_in w) user.user_id (removes p) (tracked_in w))
            (request commits 204 (operation env (remove_user_product_call p) user) w)
    unfolding request operation
    removed-Agrees user p w =
        responded-Agrees user.user_id p w (remove user.user_id p w) (remove_result user.user_id p w)
          (λ v q. tracks-remove user.user_id p v q w) (known-remove user.user_id p w)

    serve_as-Agrees :
        (c : Change) (r : Result TokenPayload) (w : World)
        → Agrees w
            (change_as (known_in w) r c (tracked_in w))
            (serve_as env commits lib app_secret_key (call_of c) r w)
    unfolding serve_as is_valid_call
    serve_as-Agrees c (err e) w = (refl, refl, refl)
    serve_as-Agrees (adds p) (ok user) w = added-Agrees user p w
    serve_as-Agrees (removes p) (ok user) w = removed-Agrees user p w

    serve-Agrees :
        (c : Change) (header : String) (w : World)
        → Agrees w
            (change_as (known_in w) (authenticated lib app_secret_key header) c (tracked_in w))
            (serve env commits lib app_secret_key (call_of c) header w)
    unfolding serve
    serve-Agrees (adds p) header w =
        serve_as-Agrees (adds p) (authenticated lib app_secret_key header) w
    serve-Agrees (removes p) header w =
        serve_as-Agrees (removes p) (authenticated lib app_secret_key header) w

    -- Where the database takes every commit, any sequence of requests that add and remove products,
    -- by any users, gets the status codes that the set of pairs gives, and leaves the pairs that it
    -- has at the end.
    pub run_refines :
        (requests : List (String × Change)) (w : World)
        → ((run requests w).0
            ≡ (replay (known_in w) (authenticated lib app_secret_key) requests (tracked_in w)).0)
          × (tracked_in (run requests w).1
              ≡ (replay (known_in w) (authenticated lib app_secret_key) requests (tracked_in w)).1)
    unfolding run replay
    run_refines [] w = (refl, refl)
    run_refines ((header, c) ∷ requests) w =
        let o = serve env commits lib app_secret_key (call_of c) header w in
        let who = authenticated lib app_secret_key in
        let s = change_as (known_in w) (who header) c (tracked_in w) in
        let a = serve-Agrees c header w in
        let rest = run_refines requests o.1 in
        (
          ap (λ code. code ∷ (run requests o.1).0) a.0
              ∙ ap (λ codes. s.0 ∷ codes)
                  (rest.0
                    ∙ ap (λ f. (replay (known_in o.1) who requests f).0) a.1
                    ∙ ap (λ k. (replay k who requests s.1).0) a.2),
          rest.1
              ∙ ap (λ f. (replay (known_in o.1) who requests f).1) a.1
              ∙ ap (λ k. (replay k who requests s.1).1) a.2,
        )
