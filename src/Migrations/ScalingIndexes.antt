-- ===== src/Migrations/ScalingIndexes.antt =====
-- alembic/versions/c7a1e9f2b3d4_scaling_indexes.py: the indexes of the second migration.
use price_monitoring_service.Prelude.{none, some, List, [], ◌∷◌}
use price_monitoring_service.Migrations.Schema.{
  ascending, descending, Index, Operation, create_index, drop_index,
}
use price_monitoring_service.Migrations.Initial.{plain_index}

abbrev pub user_created : Index
user_created = record {
  name = "ix_price_alert_user_created";
  table = "price_alerts";
  keys = ascending "user_id" ∷ descending "created_at" ∷ [];
  where_clause = none;
  include = [];
}

abbrev pub active_alerts : Index
active_alerts = record {
  name = "ix_price_alert_active";
  table = "price_alerts";
  keys = ascending "product_id" ∷ [];
  where_clause = some "is_active";
  include = [];
}

abbrev pub history_lookup : Index
history_lookup = record {
  name = "ix_price_history_lookup";
  table = "price_history";
  keys = ascending "product_shop_id" ∷ descending "recorded_at" ∷ [];
  where_clause = none;
  include = "price_usd" ∷ [];
}

abbrev pub upgrade : List Operation
upgrade =
    create_index (plain_index "ix_product_shop_shop_id" "product_shops" ("shop_id" ∷ []))
    ∷ create_index user_created
    ∷ drop_index "ix_price_alert_active_product"
    ∷ create_index active_alerts
    ∷ drop_index "ix_price_history_lookup"
    ∷ create_index history_lookup
    ∷ []

abbrev pub downgrade : List Operation
downgrade =
    drop_index "ix_price_history_lookup"
    ∷ create_index (
        plain_index "ix_price_history_lookup" "price_history"
          ("product_shop_id" ∷ "recorded_at" ∷ []))
    ∷ drop_index "ix_price_alert_active"
    ∷ create_index (
        plain_index "ix_price_alert_active_product" "price_alerts"
          ("is_active" ∷ "product_id" ∷ []))
    ∷ drop_index "ix_price_alert_user_created"
    ∷ drop_index "ix_product_shop_shop_id"
    ∷ []
