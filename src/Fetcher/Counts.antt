-- ===== src/Fetcher/Counts.antt =====
-- The numbers that a run reports, and what a failed flush leaves.
use price_monitoring_service.Prelude.{
  Option, ℕ, ◌+◌, ◌-◌, String, ◌≡◌, refl, ap, ◌∙◌, subst, true, false, some, List, [], ◌∷◌, length,
  map, length-append, arith, Option-cases, Bool-cases, inl, inr,
}
use price_monitoring_service.Decimal.{Decimal}
use price_monitoring_service.Exec.{Exec, Result, ok, err, resume, pending_rollback_error}
use price_monitoring_service.Env.{Env}
use price_monitoring_service.Models.{Shop, PriceHistory, World}
use price_monitoring_service.Adapters.{ShopProduct}
use price_monitoring_service.Fetcher.{
  Session, query, history, list_active, new_rows, written, flush, add_prices, write_prices, to_add,
  list_product_shops, priced_since, dedup_window, fetch_with, fetch_shop, fetch_each, fetch_all,
  count_or_zero,
}

abbrev pub Adapters : Type 0
Adapters = Option String → Option String → Result (Exec World (List ShopProduct))

-- no adapter writes to the database
abbrev pub LeavesDb : Adapters → Type 0
LeavesDb get_adapter =
    (key url : Option String) (m : Exec World (List ShopProduct))
    → get_adapter key url ≡ ok m
    → (w : World) → (m w).1.db ≡ w.db

-- the sum of the numbers in a summary
abbrev pub total : List (Option String × ℕ) → ℕ
total [] = 0
total ((key, n) ∷ results) = n + total results

zero_add : (n : ℕ) → 0 + n ≡ n
zero_add n = omega arith

-- From a session to a later one `n` rows have been written, unless a flush has failed.
record Step (s : Session) (n : ℕ) (s' : Session) : Type 0 where
  pub same_start : s'.before ≡ s.before
  pub stays_failed : s.failed ≡ true → (s'.failed ≡ true) × (history s' ≡ history s)
  pub counts :
      s'.failed ≡ false → (s.failed ≡ false) × (length (history s') ≡ length (history s) + n)
  pub rolled_back : s.failed ≡ false → s'.failed ≡ true → history s' ≡ s.before

Step-refl :
    (s s' : Session)
    → s'.before ≡ s.before
    → s'.failed ≡ s.failed
    → history s' ≡ history s
    → Step s 0 s'
Step-refl s s' b f h = record {
  same_start = b;
  stays_failed = λ e. (cc, h);
  counts = λ e. (cc, omega (arith, ap length h));
  rolled_back = λ e e'. absurd (ground (arith, f));
}

Step-trans : {s s' s'' : Session} {n m : ℕ} → Step s n s' → Step s' m s'' → Step s (n + m) s''
Step-trans {s} {s'} {s''} {n} {m} p q = record {
  same_start = q.same_start ∙ p.same_start;
  stays_failed = λ e. let a = p.stays_failed e in let b = q.stays_failed a.0 in (b.0, b.1 ∙ a.1);
  counts = λ e. let b = q.counts e in let a = p.counts b.0 in (a.0, omega (arith, a.1, b.1));
  rolled_back = λ e e'. elim (Bool-cases s'.failed) [
    | inl bad ↦ (q.stays_failed bad).1 ∙ p.rolled_back e bad
    | inr good ↦ q.rolled_back good e' ∙ p.same_start
  ];
}

pub query_failed :
    {A : Type 0} (f : World → A) (s : Session)
    → s.failed ≡ true
    → query f s ≡ (err pending_rollback_error, s)
unfolding query
query_failed f s e = ground (arith, e)

pub query_ok :
    {A : Type 0} (f : World → A) (s : Session) → s.failed ≡ false → query f s ≡ (ok (f s.world), s)
unfolding query
query_ok f s e = ground (arith, e)

Step-after : {s s' s'' : Session} {n : ℕ} → Step s 0 s' → Step s' n s'' → Step s n s''
Step-after {s} {s'} {s''} {n} p q = subst (λ k. Step s k s'') (zero_add n) (Step-trans p q)

module _ (env : Env) where
  length-new_rows :
      (prices : List (ℕ × Decimal)) {rows : List PriceHistory}
      → new_rows env prices ≡ some rows
      → length rows ≡ length prices
  unfolding new_rows
  length-new_rows [] {rows} e = ground arith
  length-new_rows ((id, price) ∷ prices) {rows} e = elim (Option-cases (new_rows env prices)) [
    | inl bad ↦ ground (arith, bad)
    | inr (rest, good) ↦ ground (arith, good, length-new_rows prices good)
  ]

  -- the number that a shop's outcome puts into the results
  abbrev StepOf : Session → Result ℕ × Session → Type 0
  StepOf s o = Step s (count_or_zero o.0) o.1

  add_prices-Step :
      (prices : List (ℕ × Decimal)) (s : Session)
      → s.failed ≡ false
      → StepOf s (add_prices env prices s)
  unfolding add_prices flush written
  add_prices-Step prices s e = elim (Option-cases (new_rows env prices)) [
    | inl bad ↦ rw bad (record {
      same_start = refl;
      stays_failed = λ e'. absurd (ground (arith, e));
      counts = λ e'. absurd (ground arith);
      rolled_back = λ _ _. refl;
    })
    | inr (rows, good) ↦ rw good (record {
      same_start = refl;
      stays_failed = λ e'. absurd (ground (arith, e));
      counts =
          λ e'. (e, omega (arith, length-append (history s) rows, length-new_rows prices good));
      rolled_back = λ _ e'. absurd (ground (arith, e));
    })
  ]

  write_prices-Step :
      (shop : Shop) (fetched : List ShopProduct) (s : Session)
      → StepOf s (write_prices env shop fetched s)
  unfolding write_prices
  write_prices-Step shop fetched s = elim (Bool-cases s.failed) [
    | inl bad ↦ rw (query_failed (list_product_shops shop.id) s bad) (Step-refl s s refl refl refl)
    | inr good ↦ rw (query_ok (list_product_shops shop.id) s good) (
        rw (query_ok (λ w. priced_since (env.now - dedup_window) w.db.price_history) s good) (
          add_prices-Step
            (to_add (priced_since (env.now - dedup_window) (history s))
              (list_product_shops shop.id s.world) fetched)
            s good))
  ]

  fetched-Step :
      (shop : Shop) (s : Session) (o : Result (List ShopProduct) × World)
      → o.1.db ≡ s.world.db
      → StepOf s (resume (write_prices env shop) (o.0, record s { world = o.1 }))
  fetched-Step shop s (err x, w) e =
      Step-refl s (record s { world = w }) refl refl (ap (λ d. d.price_history) e)
  fetched-Step shop s (ok fetched, w) e =
      Step-after (Step-refl s (record s { world = w }) refl refl (ap (λ d. d.price_history) e))
        (write_prices-Step shop fetched (record s { world = w }))

  module _ (get_adapter : Adapters) (leaves : LeavesDb get_adapter) where
    fetch_with-Step :
        (shop : Shop) (s : Session) (m : Result (Exec World (List ShopProduct)))
        → get_adapter shop.adapter_key shop.base_url ≡ m
        → StepOf s (fetch_with env get_adapter shop m s)
    unfolding fetch_with
    fetch_with-Step shop s (err x) e = Step-refl s s refl refl refl
    fetch_with-Step shop s (ok fetch_products) e =
        fetched-Step shop s (fetch_products s.world)
          (leaves shop.adapter_key shop.base_url fetch_products e s.world)

    fetch_each-Step :
        (shops : List Shop) (s : Session)
        → Step s
            (total (fetch_each env get_adapter shops s).0)
            (fetch_each env get_adapter shops s).1
    unfolding fetch_each fetch_shop
    fetch_each-Step [] s = Step-refl s s refl refl refl
    fetch_each-Step (shop ∷ shops) s =
        Step-trans (fetch_with-Step shop s (get_adapter shop.adapter_key shop.base_url) refl)
          (fetch_each-Step shops (fetch_shop env get_adapter shop s).1)

    -- If no adapter writes to the database and no flush of the run has failed, price_history has
    -- grown by the sum of the numbers in the summary, whatever errors the shops' servers gave.
    pub fetch_all_count :
        (s : Session)
        → (fetch_all env get_adapter s).1.failed ≡ false
        → length (history (fetch_all env get_adapter s).1)
          ≡ length (history s) + total (fetch_all env get_adapter s).0
    unfolding fetch_all
    fetch_all_count s good = ((fetch_each-Step (list_active s.world) s).counts good).1

    -- If no adapter writes to the database, and a flush has failed in a run that began with a session
    -- in order, price_history is what it was before the transaction: also what other shops wrote in
    -- the run is gone.
    pub fetch_all_rolled_back :
        (s : Session)
        → s.failed ≡ false
        → (fetch_all env get_adapter s).1.failed ≡ true
        → history (fetch_all env get_adapter s).1 ≡ s.before
    unfolding fetch_all
    fetch_all_rolled_back s fresh bad =
        (fetch_each-Step (list_active s.world) s).rolled_back fresh bad

  keys-fetch_each :
      (get_adapter : Adapters) (shops : List Shop) (s : Session)
      → map (λ r. r.0) (fetch_each env get_adapter shops s).0 ≡ map (λ shop. shop.adapter_key) shops
  unfolding fetch_each
  keys-fetch_each get_adapter [] s = refl
  keys-fetch_each get_adapter (shop ∷ shops) s =
      ap (λ ks. shop.adapter_key ∷ ks)
        (keys-fetch_each get_adapter shops (fetch_shop env get_adapter shop s).1)

  -- No failure of a shop stops the run: the summary has an entry for each active shop, in order.
  pub fetch_all_keys :
      (get_adapter : Adapters) (s : Session)
      → map (λ r. r.0) (fetch_all env get_adapter s).0
        ≡ map (λ shop. shop.adapter_key) (list_active s.world)
  unfolding fetch_all
  fetch_all_keys get_adapter s = keys-fetch_each get_adapter (list_active s.world) s
