-- ===== src/Seed/Startup/Again.antt =====
-- The startup seed on a database that was seeded.
use price_monitoring_service.Prelude.{
  ℕ, ◌≡◌, refl, true, false, String, List, [], ◌∷◌, ◌==◌, length, arith, Bool-cases, inl, inr,
}
use price_monitoring_service.Exec.{Result, ok, err}
use price_monitoring_service.Env.{Env}
use price_monitoring_service.Models.{Shop, World}
use price_monitoring_service.Currency.Service.{sync_today_rates}
use price_monitoring_service.Currency.Frame.{OnlyRates}
use price_monitoring_service.Currency.Today.{sync_today_rates-OnlyRates}
use price_monitoring_service.Api.Session.{run_task, after_task}
use price_monitoring_service.Seed.Startup.{
  Sources, has_demo_user, seed_demo_user, shop_ids_or_seed, products_if_none, rates_on_startup,
  run_seed_if_needed,
}

module _ (env : Env) (from : Sources) where
  after_task-OnlyRates :
      (w : World) (o : Result ℕ × World)
      → OnlyRates w o.1
      → OnlyRates w (after_task from.commits w.db o).1
  unfolding after_task
  after_task-OnlyRates w (ok n, w') h = elim (Bool-cases (from.commits w'.db)) [
    | inl e ↦ rw e h
    | inr e ↦ rw e refl
  ]
  after_task-OnlyRates w (err x, w') h = refl

  pub rates_on_startup-OnlyRates : (w : World) → OnlyRates w (rates_on_startup env from true w).1
  unfolding rates_on_startup run_task
  rates_on_startup-OnlyRates w =
      after_task-OnlyRates w (sync_today_rates env w) (sync_today_rates-OnlyRates env w)

  shops_there :
      (shops : List Shop) (w : World)
      → (length shops == 0) ≡ false
      → (ids : List (String × ℕ)) × (shop_ids_or_seed env from shops w ≡ (ok ids, w))
  unfolding shop_ids_or_seed
  shops_there [] w e = absurd (ground arith)
  shops_there (s ∷ shops) w e = (_, refl)

  -- On a database that has the demo user, a shop and a product, the startup seed returns and changes
  -- nothing but exchange rates.
  pub run_seed_if_needed_again :
      (w : World)
      → has_demo_user env from w.db ≡ true
      → (length w.db.shops == 0) ≡ false
      → (length w.db.products == 0) ≡ false
      → ((run_seed_if_needed env from w).0 ≡ ok tt) × OnlyRates w (run_seed_if_needed env from w).1
  unfolding run_seed_if_needed seed_demo_user products_if_none rates_on_startup
  run_seed_if_needed_again w user shop product =
      let (ids, e) = shops_there w.db.shops w shop in
      rw user (rw e (rw product (refl, rates_on_startup-OnlyRates w)))
