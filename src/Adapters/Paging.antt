-- ===== src/Adapters/Paging.antt =====
-- The loop of `DummyJsonAdapter.fetch_products` ends.
use native.Mathlib.Nat.{mul-le-mul_right}
use price_monitoring_service.Prelude.{
  ℕ, zero, suc, ◌+◌, ◌*◌, ◌^◌, ◌≤◌, ◌<◌, String, ◌≡◌, refl, subst, Bool, true, false, Option, none,
  some, List, [], Bool-cases, inl, inr, leb, arith,
}
use price_monitoring_service.Prelude.Int.{pos, pos_part, ◌-ℤ◌}
use price_monitoring_service.Decimal.{Decimal, of_int, lt, aligned}
use price_monitoring_service.Json.{Json, null, bool, num, str, arr, obj, item}
use price_monitoring_service.Exec.{Exec, Result, ok, err, resume}
use price_monitoring_service.Env.{Env, Request, Reply, response, dummyjson_products}
use price_monitoring_service.HttpRetry.{Link, Response, get_with_retry}
use price_monitoring_service.HttpRetry.Replied.{IsReply, Replied, get_with_retry-Replied}
use price_monitoring_service.Currency.Nbu.{json}
use price_monitoring_service.Adapters.{
  ShopProduct, walked, reached, append_products, dummyjson_page, dummyjson_loop, dummyjson_next,
  dummyjson,
}

abbrev IsTotalAtMost : ℕ → Result Json → Type 0
IsTotalAtMost bound (ok (num total)) = lt (of_int bound) total ≡ false
IsTotalAtMost bound _ = Unit

abbrev IsPageWithin : ℕ → Reply → Type 0
IsPageWithin bound (response status (some body)) = IsTotalAtMost bound (item body "total")
IsPageWithin bound _ = Unit

-- The total that the server states is at most `bound`: in each of its answers to a request of a page
-- in which it is a number.
abbrev pub TotalAtMost : Env → String → ℕ → Type 0
TotalAtMost env base_url bound =
    (skip n : ℕ) → IsPageWithin bound (env.reply (dummyjson_products base_url 100 skip) n)

abbrev pub Outcome : Type 0
Outcome = Result (List ShopProduct) × Link

-- a number at most `bound` is at most any larger one
total_mono :
    (bound m : ℕ) (total : Decimal)
    → lt (of_int bound) total ≡ false
    → bound ≤ m
    → lt (of_int m) total ≡ false
unfolding lt aligned
total_mono bound m total h le =
    let scale = 10 ^ pos_part (pos 0 -ℤ total.exp) in
    let wider : bound * scale ≤ m * scale = mul-le-mul_right scale le in ground (arith, wider)

past_one : (skip : ℕ) → lt (of_int (skip + 100)) (of_int 1) ≡ false
unfolding lt aligned
past_one skip = ground arith

module _ (env : Env) (base_url : String) (bound : ℕ)
    (at_most : TotalAtMost env base_url bound) where
  -- a round that is not the last starts that far below the bound
  abbrev Goes : ℕ → Result (List ShopProduct × Bool) × Link → Type 0
  Goes skip (ok (more, false), l) = skip + 100 < bound
  Goes skip (ok (more, true), l) = Unit
  Goes skip (err e, l) = Unit

  abbrev Gives : {A : Type 0} → (A → Type 0) → Result A × Link → Type 0
  Gives P (ok a, l) = P a
  Gives P (err e, l) = Unit

  Gives-lift : {A : Type 0} (r : Result A) (l : Link) → Gives (λ a. r ≡ ok a) (r, l)
  Gives-lift (ok a) l = refl
  Gives-lift (err e) l = tt

  Gives-any : {A : Type 0} (o : Result A × Link) → Gives (λ a. Unit) o
  Gives-any (ok a, l) = tt
  Gives-any (err e, l) = tt

  Goes-resume :
      {A : Type 0} (skip : ℕ) (P : A → Type 0) (f : A → Exec Link (List ShopProduct × Bool))
      (o : Result A × Link)
      → Gives P o
      → ((a : A) (l : Link) → P a → Goes skip (f a l))
      → Goes skip (resume f o)
  Goes-resume skip P f (ok a, l) p h = h a l p
  Goes-resume skip P f (err e, l) p h = tt

  last-Goes :
      (skip : ℕ) (total : Json) (products : List ShopProduct) (last : Bool) (l : Link)
      → IsTotalAtMost bound (ok total)
      → reached (skip + 100) total ≡ ok last
      → Goes skip (ok (products, last), l)
  last-Goes skip total products true l h e = tt
  last-Goes skip (num total) products false l h e = elim (Bool-cases (leb bound (skip + 100))) [
    | inl le ↦
        let done = total_mono bound (skip + 100) total h (ground arith) in
        absurd (ground (arith, e, done))
    | inr gt ↦ ground arith
  ]
  last-Goes skip (bool true) products false l h e = absurd (ground (arith, e, past_one skip))
  last-Goes skip (bool false) products false l h e = absurd (cc)
  last-Goes skip null products false l h e = absurd (cc)
  last-Goes skip (str s) products false l h e = absurd (cc)
  last-Goes skip (arr s) products false l h e = absurd (cc)
  last-Goes skip (obj s) products false l h e = absurd (cc)

  page-Goes :
      (skip : ℕ) (products : List ShopProduct) (l : Link)
      → Goes skip (dummyjson_page env base_url skip products l)
  unfolding dummyjson_page
  page-Goes skip products l =
      let url = dummyjson_products base_url 100 skip in
      Goes-resume skip (IsReply env url) _
        (get_with_retry env url env.settings.shop_api_retry_attempts l)
        (replied url (get_with_retry env url env.settings.shop_api_retry_attempts l)
          (get_with_retry-Replied env url env.settings.shop_api_retry_attempts l))
        λ resp l1 r.
          Goes-resume skip (λ body. json resp ≡ ok body) _ (json resp, l1)
            (Gives-lift (json resp) l1)
            λ body l2 b.
              Goes-resume skip (λ a. Unit) _ (item body "products", l2)
                (Gives-any (item body "products", l2))
                λ page l3 u.
                  Goes-resume skip (λ a. Unit) _ (walked page, l3) (Gives-any (walked page, l3))
                    λ items l4 u.
                      Goes-resume skip (λ t. item body "total" ≡ ok t) _ (item body "total", l4)
                        (Gives-lift (item body "total") l4)
                        λ total l5 t.
                          Goes-resume skip (λ a. Unit) _ (append_products env items products l5)
                            (Gives-any (append_products env items products l5))
                            λ more l6 u.
                              Goes-resume skip (λ x. reached (skip + 100) total ≡ ok x) _
                                (reached (skip + 100) total, l6)
                                (Gives-lift (reached (skip + 100) total) l6)
                                λ last l7 e.
                                  last-Goes skip total more last l7
                                    (subst (IsTotalAtMost bound) t (within skip resp body r b)) e
    where
      replied :
          (url : Request) (o : Result Response × Link)
          → Replied env url o
          → Gives (IsReply env url) o
      replied url (ok r, l) h = h
      replied url (err e, l) h = tt

      within :
          (skip : ℕ) (resp : Response) (body : Json)
          → IsReply env (dummyjson_products base_url 100 skip) resp
          → json resp ≡ ok body
          → IsTotalAtMost bound (item body "total")
      within skip (status, none) body r b = absurd (cc)
      within skip (status, some v) body (n, a) b =
          let same : v ≡ body = cc in
          subst (λ x. IsTotalAtMost bound (item x "total")) same
            (subst (IsPageWithin bound) a (at_most skip n))

  next-ends :
      (again : List ShopProduct → Link → Option Outcome) (skip : ℕ)
      (page : Result (List ShopProduct × Bool) × Link)
      → Goes skip page
      → ((more : List ShopProduct) (l' : Link)
          → skip + 100 < bound
          → (o : Outcome) × (again more l' ≡ some o))
      → (o : Outcome) × (dummyjson_next env again page ≡ some o)
  unfolding dummyjson_next
  next-ends again skip (ok (more, true), l') g rest = ((ok more, l'), refl)
  next-ends again skip (ok (more, false), l') g rest = rest more l' g
  next-ends again skip (err x, l') g rest = ((err x, l'), refl)

  loop-ends :
      (rounds skip : ℕ) (products : List ShopProduct) (l : Link)
      → bound ≤ skip + 100 * rounds
      → 0 < rounds
      → (o : Outcome) × (dummyjson_loop env base_url rounds skip products l ≡ some o)
  unfolding dummyjson_loop
  loop-ends zero skip products l fuel start = absurd (omega arith)
  loop-ends (suc rounds) skip products l fuel start =
      next-ends (dummyjson_loop env base_url rounds (skip + 100)) skip
        (dummyjson_page env base_url skip products l) (page-Goes skip products l)
        λ more l' below. loop-ends rounds (skip + 100) more l' (omega arith) (omega arith)

  -- If every total that the server states is at most `bound`, then as many rounds as there are
  -- pages of 100 in it, and at least one, suffice for the call to return or raise.
  pub dummyjson_ends :
      (rounds : ℕ) (l : Link)
      → bound ≤ 100 * rounds
      → 0 < rounds
      → (o : Outcome) × (dummyjson env base_url rounds l ≡ some o)
  unfolding dummyjson
  dummyjson_ends rounds l fuel start = loop-ends rounds 0 [] l (omega arith) start
