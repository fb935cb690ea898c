-- ===== src/Tasks/Fetching.antt =====
-- What a run of the price task leaves.
use price_monitoring_service.Prelude.{
  Option, ℕ, ◌+◌, ◌≡◌, refl, String, Bool, false, List, length, Bool-cases, inl, inr,
}
use price_monitoring_service.Exec.{Result, ok, err}
use price_monitoring_service.Env.{Env}
use price_monitoring_service.Models.{Database, World}
use price_monitoring_service.Adapters.Paging.{TotalAtMost}
use price_monitoring_service.Adapters.Registry.{registry, registry-LeavesDb}
use price_monitoring_service.Fetcher.{Session, history, fetch_all}
use price_monitoring_service.Fetcher.Counts.{Adapters, LeavesDb, total, fetch_all_count}
use price_monitoring_service.Api.Session.{after_task}
use price_monitoring_service.Tasks.{fresh_session, commit_prices, fetch_prices_async}

-- With a summary, price_history is longer by its sum; with an exception the database is unchanged.
abbrev pub Records : World → Result (List (Option String × ℕ)) × World → Type 0
Records w (ok results, w') = length w'.db.price_history ≡ length w.db.price_history + total results
Records w (err e, w') = w'.db ≡ w.db

module _ (env : Env) (commits : Database → Bool) where
  commit_prices-Records :
      (w : World) (o : List (Option String × ℕ) × Session)
      → (o.1.failed ≡ false → length (history o.1) ≡ length w.db.price_history + total o.0)
      → Records w (commit_prices env commits w.db o)
  unfolding commit_prices after_task
  commit_prices-Records w (results, s) counts = elim (Bool-cases s.failed) [
    | inl e ↦ rw e refl
    | inr e ↦
        rw e
          (elim (Bool-cases (commits s.world.db)) [ inl c ↦ rw c (counts e) | inr c ↦ rw c refl ])
  ]

  fetch_prices_async-Records :
      (get_adapter : Adapters)
      → LeavesDb get_adapter
      → (w : World) → Records w (fetch_prices_async env commits get_adapter w)
  unfolding fetch_prices_async
  fetch_prices_async-Records get_adapter leaves w =
      commit_prices-Records w (fetch_all env get_adapter (fresh_session env commits w))
        (fetch_all_count env get_adapter leaves (fresh_session env commits w))

  -- With the registry's adapters, and a bound on the total that DummyJSON states: a run of the task
  -- that returns a summary has committed as many new rows of price_history as the numbers in the
  -- summary add up to; a run that raises, also after a failed flush or a refused commit, leaves the
  -- database as it was.
  pub fetch_prices_async_lem :
      (bound : ℕ) (at_most : (base_url : String) → TotalAtMost env base_url bound) (w : World)
      → Records w (fetch_prices_async env commits (registry env bound at_most) w)
  fetch_prices_async_lem bound at_most w =
      fetch_prices_async-Records (registry env bound at_most) (registry-LeavesDb env bound at_most)
        w
