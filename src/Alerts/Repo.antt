-- ===== src/Alerts/Repo.antt =====
-- app/db/repositories/alert_repo.py.
use price_monitoring_service.Prelude.{
  ℕ, Bool, false, not, ◌&&◌, Option, none, some, List, [], ◌∷◌, ltb, ◌==◌, if◌then◌else◌, filter,
  find, length,
}
use price_monitoring_service.Decimal.{Decimal, le}
use price_monitoring_service.Exec.{Exec, ok}
use price_monitoring_service.Models.{User, Product, PriceAlert, Database, World}
use price_monitoring_service.Prices.Latest.{min_price}
use price_monitoring_service.Prices.Sort.{sorted}
use price_monitoring_service.Alerts.Message.{TriggeredRow}

abbrev pub set_alerts : List PriceAlert → World → World
set_alerts rows w = record w { db = record w.db { price_alerts = rows } }

-- `list_by_user`: ORDER BY created_at DESC
unfoldable pub list_by_user : ℕ → World → List PriceAlert
unfolding sorted
list_by_user user_id w =
    sorted (λ a b. ltb b.created_at a.created_at)
      (filter (λ a. a.user_id == user_id) w.db.price_alerts)

abbrev pub is_owned : ℕ → ℕ → PriceAlert → Bool
is_owned alert_id user_id a = a.id == alert_id && a.user_id == user_id

-- `delete`, with the number of deleted rows
unfoldable pub delete_rows : ℕ → ℕ → Exec World ℕ
delete_rows alert_id user_id w = (
  ok (length (filter (is_owned alert_id user_id) w.db.price_alerts)),
  set_alerts (filter (λ a. not (is_owned alert_id user_id a)) w.db.price_alerts) w,
)

-- one row of the joins, by the parts that an inner join and the WHERE ask for
abbrev joined :
    PriceAlert
    → Option User
    → Option Product
    → Option Decimal
    → Option Decimal
    → Option TriggeredRow
joined a (some user) (some product) (some lowest) (some threshold) =
    if a.is_active && le lowest threshold
    then some (record {
      id = a.id;
      email = user.email;
      product_title = product.title;
      threshold_price_usd = threshold;
      currency_code = a.currency_code;
      min_price_usd = lowest;
    })
    else none
joined a _ _ _ _ = none

unfoldable pub triggered_row : Database → PriceAlert → Option TriggeredRow
triggered_row db a =
    joined a (find (λ u. u.id == a.user_id) db.users) (find (λ p. p.id == a.product_id) db.products)
      (min_price none a.product_id db.price_history db.product_shops) a.threshold_price_usd

abbrev pub cons_some : Option TriggeredRow → List TriggeredRow → List TriggeredRow
cons_some none rows = rows
cons_some (some row) rows = row ∷ rows

unfoldable pub triggered_rows : Database → List PriceAlert → List TriggeredRow
triggered_rows db [] = []
triggered_rows db (a ∷ alerts) = cons_some (triggered_row db a) (triggered_rows db alerts)

-- `list_triggered`
unfoldable pub list_triggered : Database → List TriggeredRow
unfolding triggered_rows
list_triggered db = triggered_rows db db.price_alerts

-- `is_active=False, triggered_at=now()`
abbrev pub fired : ℕ → PriceAlert → PriceAlert
fired now a = record a { is_active = false; triggered_at = some now }

-- UPDATE … WHERE id = alert_id
unfoldable pub deactivate_rows : ℕ → ℕ → List PriceAlert → List PriceAlert
deactivate_rows now alert_id [] = []
deactivate_rows now alert_id (a ∷ alerts) =
    (if a.id == alert_id then fired now a else a) ∷ deactivate_rows now alert_id alerts

-- `deactivate`
unfoldable pub deactivate : ℕ → ℕ → World → World
unfolding deactivate_rows
deactivate now alert_id w = set_alerts (deactivate_rows now alert_id w.db.price_alerts) w
