-- ===== src/Tests/Http.antt =====
-- The calls of servers.
use price_monitoring_service.Prelude.{◌≡◌, refl, some}
use price_monitoring_service.Json.{arr, cons, nil}
use price_monitoring_service.Env.{fakestore_products}
use price_monitoring_service.HttpRetry.{checked, get_with_retry}
use price_monitoring_service.HttpRetry.Attempts.{
  get_with_retry-final, get_with_retry-exhausted, last_outcome,
}
use price_monitoring_service.Tests.Fixtures.{env_with, flaky, down, link, product_body}
use price_monitoring_service.Prelude.{true, arith}

get_with_retry-final_example :
    get_with_retry (env_with flaky true) (fakestore_products "u") 3 link
    ≡ checked
        (env_with flaky true)
        (200, some (arr (cons product_body nil)))
        (record { sent = 2; slept = 1 })
get_with_retry-final_example =
    get_with_retry-final (env_with flaky true) (fakestore_products "u") 3 1 200
      (some (arr (cons product_body nil))) link (omega arith) (refl, tt) refl refl

get_with_retry-exhausted_example :
    get_with_retry (env_with down true) (fakestore_products "u") 3 link
    ≡ last_outcome
        (env_with down true)
        (down (fakestore_products "u") 2)
        (record { sent = 3; slept = 3 })
get_with_retry-exhausted_example =
    get_with_retry-exhausted (env_with down true) (fakestore_products "u") 2 link
      (refl, (refl, (refl, tt)))
