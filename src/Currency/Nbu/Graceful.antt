-- ===== src/Currency/Nbu/Graceful.antt =====
-- The calls of the NBU degrade gracefully: whatever the server answers, they return, and they
-- touch nothing but the HTTP client.
use price_monitoring_service.Prelude.{
  Bool-cases, inl, inr, ◌∙◌, ℕ, String, ◌≡◌, refl, ap, true, Option, none, some, [], arith,
}
use price_monitoring_service.Decimal.{Decimal}
use price_monitoring_service.Schemas.{Currency}
use price_monitoring_service.Exec.{Exec, Exception, Result, ok, err, recover, resume}
use price_monitoring_service.Json.{
  Json, null, bool, num, str, arr, obj, Items, nil, cons, end, item, truthy, first, find_field,
  found_or,
}
use price_monitoring_service.Env.{Env, Request, nbu_today, nbu_rate}
use price_monitoring_service.HttpRetry.{Link, Response, get_with_retry}
use price_monitoring_service.HttpRetry.Raises.{RaisesHttp, get_with_retry-RaisesHttp}
use price_monitoring_service.Models.{World}
use price_monitoring_service.Currency.Nbu.{
  on_link, json, is_nbu_fetch_error, caught, or_arithmetic_error, Rates, add_rate, decimal_of,
  entry, entries, rates_of, bulk_rates, fetch_all_today_from_nbu, first_rate, one_rate,
  fetch_from_nbu,
}

-- a result, or an exception that the handler of the NBU calls catches
abbrev IsCaught : {A : Type 0} → Result A → Type 0
IsCaught (ok _) = Unit
IsCaught (err e) = is_nbu_fetch_error e ≡ true

resume-IsCaught :
    {S A B : Type 0} (f : A → Exec S B) (r : Result A) (s : S)
    → IsCaught r
    → ((a : A) (s' : S) → IsCaught (f a s').0)
    → IsCaught (resume f (r, s)).0
resume-IsCaught f (ok a) s h hf = hf a s
resume-IsCaught f (err e) s h hf = h

RaisesHttp→IsCaught : {A : Type 0} (r : Result A) → RaisesHttp r → IsCaught r
RaisesHttp→IsCaught (ok a) h = tt
RaisesHttp→IsCaught (err e) h = ground arith

found_or-IsCaught :
    (e : Exception) (o : Option Json) → is_nbu_fetch_error e ≡ true → IsCaught (found_or (err e) o)
found_or-IsCaught e none h = h
found_or-IsCaught e (some v) h = tt

item-IsCaught : (v : Json) (k : String) → IsCaught (item v k)
item-IsCaught (obj fs) k = found_or-IsCaught _ (find_field k fs) refl
item-IsCaught _ k = refl

first-IsCaught : (v : Json) → IsCaught (first v)
first-IsCaught (arr (cons v vs)) = tt
first-IsCaught (arr nil) = refl
first-IsCaught (str s) = tt
first-IsCaught _ = refl

json-IsCaught : (r : Response) → IsCaught (json r)
json-IsCaught (status, some v) = tt
json-IsCaught (status, none) = refl

or_arithmetic_error-IsCaught : (o : Option Decimal) → IsCaught (or_arithmetic_error o)
or_arithmetic_error-IsCaught none = refl
or_arithmetic_error-IsCaught (some d) = tt

module _ (env : Env) where
  decimal_of-IsCaught : (v : Json) → IsCaught (decimal_of env v)
  decimal_of-IsCaught (num d) = tt
  decimal_of-IsCaught null = or_arithmetic_error-IsCaught _
  decimal_of-IsCaught (bool b) = or_arithmetic_error-IsCaught _
  decimal_of-IsCaught (str s) = or_arithmetic_error-IsCaught _
  decimal_of-IsCaught (arr xs) = or_arithmetic_error-IsCaught _
  decimal_of-IsCaught (obj fs) = or_arithmetic_error-IsCaught _

  add_rate-IsCaught :
      (cc : Json) (rate : Decimal) (rates : Rates) → IsCaught (add_rate cc rate rates)
  unfolding add_rate
  add_rate-IsCaught (str cc) rate rates = tt
  add_rate-IsCaught (arr _) rate rates = refl
  add_rate-IsCaught (obj _) rate rates = refl
  add_rate-IsCaught _ rate rates = tt

  module _ {S : Type 0} where
    entry-IsCaught : (r : Json) (rates : Rates) (s : S) → IsCaught (entry env r rates s).0
    unfolding entry
    entry-IsCaught r rates s = resume-IsCaught _ (item r "cc") s (item-IsCaught r "cc") λ cc s.
        resume-IsCaught _ (item r "rate") s (item-IsCaught r "rate") λ v s.
          resume-IsCaught _ (decimal_of env v) s (decimal_of-IsCaught v)
            λ rate s. add_rate-IsCaught cc rate rates

    entries-IsCaught : (rs : Items) (rates : Rates) (s : S) → IsCaught (entries env rs rates s).0
    unfolding entries
    entries-IsCaught nil rates s = tt
    entries-IsCaught (cons r rs) rates s =
        resume-IsCaught _ (entry env r rates s).0 (entry env r rates s).1 (entry-IsCaught r rates s)
          λ next s. entries-IsCaught rs next s

    rates_of-IsCaught : (v : Json) (s : S) → IsCaught (rates_of env v s).0
    unfolding rates_of
    rates_of-IsCaught (arr rs) s = entries-IsCaught rs [] s
    rates_of-IsCaught (obj end) s = tt
    rates_of-IsCaught (str t) s = ground arith
    rates_of-IsCaught _ s = refl

  recover-caught :
      {S A : Type 0} (default : A) (o : Result A × S)
      → IsCaught o.0
      → (a : A) × (recover (caught default) o ≡ (ok a, o.1))
  recover-caught default (ok a, s) h = (a, refl)
  recover-caught default (err e, s) h = (default, rw h refl)

  -- an outcome that leaves everything but the HTTP client as it was
  abbrev OnlyLink : {A : Type 0} → World → Result A × World → Type 0
  OnlyLink w o = (l : Link) × (o.1 ≡ record w { link = l })

  resume-keeps :
      {S A B : Type 0} (f : A → Exec S B) (r : Result A) (s : S)
      → ((a : A) → (f a s).1 ≡ s)
      → (resume f (r, s)).1 ≡ s
  resume-keeps f (ok a) s h = h a
  resume-keeps f (err e) s h = refl

  resume-keeps_at :
      {S A B : Type 0} (f : A → Exec S B) (o : Result A × S) (s : S)
      → o.1 ≡ s
      → ((a : A) (s' : S) → (f a s').1 ≡ s')
      → (resume f o).1 ≡ s
  resume-keeps_at f (ok a, s') s e h = h a s' ∙ e
  resume-keeps_at f (err x, s') s e h = e

  module _ {S : Type 0} where
    entry-keeps : (r : Json) (rates : Rates) (s : S) → (entry env r rates s).1 ≡ s
    unfolding entry
    entry-keeps r rates s =
        resume-keeps _ (item r "cc") s λ cc.
          resume-keeps _ (item r "rate") s λ v. resume-keeps _ (decimal_of env v) s λ rate. refl

    entries-keeps : (rs : Items) (rates : Rates) (s : S) → (entries env rs rates s).1 ≡ s
    unfolding entries
    entries-keeps nil rates s = refl
    entries-keeps (cons r rs) rates s =
        resume-keeps_at _ (entry env r rates s) s (entry-keeps r rates s)
          λ next s'. entries-keeps rs next s'

    rates_of-keeps : (v : Json) (s : S) → (rates_of env v s).1 ≡ s
    unfolding rates_of
    rates_of-keeps (arr rs) s = entries-keeps rs [] s
    rates_of-keeps (obj end) s = refl
    rates_of-keeps (str t) s = ground arith
    rates_of-keeps _ s = refl

    first_rate-keeps : (v : Json) (s : S) → (first_rate env v s).1 ≡ s
    unfolding first_rate
    first_rate-keeps v s =
        resume-keeps _ (first v) s λ r.
          resume-keeps _ (item r "rate") s λ x. resume-keeps _ (decimal_of env x) s λ rate. refl

    first_rate-IsCaught : (v : Json) (s : S) → IsCaught (first_rate env v s).0
    unfolding first_rate
    first_rate-IsCaught v s = resume-IsCaught _ (first v) s (first-IsCaught v) λ r s.
        resume-IsCaught _ (item r "rate") s (item-IsCaught r "rate")
          λ x s. resume-IsCaught _ (decimal_of env x) s (decimal_of-IsCaught x) λ rate s. tt

  call : Request → World → Result Response × World
  call url w = on_link (get_with_retry env url env.settings.shop_api_retry_attempts) w

  call-IsCaught : (url : Request) (w : World) → IsCaught (call url w).0
  unfolding call
  call-IsCaught url w =
      RaisesHttp→IsCaught _
        (get_with_retry-RaisesHttp env url env.settings.shop_api_retry_attempts w.link)

  one_rate-IsCaught : (c : Currency) (d : ℕ) (w : World) → IsCaught (one_rate env c d w).0
  unfolding one_rate call
  one_rate-IsCaught c d w =
      resume-IsCaught _ (call (nbu_rate c d) w).0 (call (nbu_rate c d) w).1
        (call-IsCaught (nbu_rate c d) w)
        λ resp s. resume-IsCaught _ (json resp) s (json-IsCaught resp) λ v s.
          elim (Bool-cases (truthy v)) [ inl e ↦ rw e (first_rate-IsCaught v s) | inr e ↦ rw e tt ]

  bulk_rates-IsCaught : (w : World) → IsCaught (bulk_rates env w).0
  unfolding bulk_rates call
  bulk_rates-IsCaught w =
      resume-IsCaught _ (call nbu_today w).0 (call nbu_today w).1 (call-IsCaught nbu_today w)
        λ resp s. resume-IsCaught _ (json resp) s (json-IsCaught resp) λ v s. rates_of-IsCaught v s

  resume-OnlyLink :
      {A B : Type 0} (f : A → Exec World B) (r : Result A) (w : World) (l : Link)
      → ((a : A) (s : World) → (f a s).1 ≡ s)
      → OnlyLink w (resume f (r, record w { link = l }))
  resume-OnlyLink f (ok a) w l h = (l, h a (record w { link = l }))
  resume-OnlyLink f (err e) w l h = (l, refl)

  one_rate-OnlyLink : (c : Currency) (d : ℕ) (w : World) → OnlyLink w (one_rate env c d w)
  unfolding one_rate call
  one_rate-OnlyLink c d w =
      resume-OnlyLink _ (call (nbu_rate c d) w).0 w (call (nbu_rate c d) w).1.link λ resp s.
        resume-keeps _ (json resp) s λ v. elim (Bool-cases (truthy v)) [
          | inl e ↦ rw e (first_rate-keeps v s)
          | inr e ↦ rw e refl
        ]

  bulk_rates-OnlyLink : (w : World) → OnlyLink w (bulk_rates env w)
  unfolding bulk_rates call
  bulk_rates-OnlyLink w =
      resume-OnlyLink _ (call nbu_today w).0 w (call nbu_today w).1.link
        λ resp s. resume-keeps _ (json resp) s λ v. rates_of-keeps v s

  -- a caught outcome is a value, and only the HTTP client has changed
  recovered :
      {A : Type 0} (default : A) (w : World) (o : Result A × World)
      → IsCaught o.0
      → OnlyLink w o
      → (a : A) × (l : Link) × (recover (caught default) o ≡ (ok a, record w { link = l }))
  recovered default w o h k =
      let (a, e) = recover-caught default o h in (a, k.0, e ∙ ap (λ s. (ok a, s)) k.1)

  -- Whatever the NBU answers, a single rate is asked for without an exception, and only the HTTP
  -- client changes.
  pub fetch_from_nbu_graceful :
      (c : Currency) (d : ℕ) (w : World)
      → (o : Option Decimal) × (l : Link) × (fetch_from_nbu env c d w
          ≡ (ok o, record w { link = l }))
  unfolding fetch_from_nbu
  fetch_from_nbu_graceful c d w =
      recovered none w (one_rate env c d w) (one_rate-IsCaught c d w) (one_rate-OnlyLink c d w)

  -- Whatever the NBU answers, all rates of the day are asked for without an exception, and only
  -- the HTTP client changes.
  pub fetch_all_graceful :
      (w : World)
      → (rates : Rates) × (l : Link) × (fetch_all_today_from_nbu env w
          ≡ (ok rates, record w { link = l }))
  unfolding fetch_all_today_from_nbu
  fetch_all_graceful w =
      recovered [] w (bulk_rates env w) (bulk_rates-IsCaught w) (bulk_rates-OnlyLink w)
