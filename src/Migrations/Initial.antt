-- ===== src/Migrations/Initial.antt =====
-- alembic/versions/11f8cd6cb440_initial.py: the tables and indexes of the first migration, and its
-- two partitions of price_history.
use price_monitoring_service.Prelude.{String, Bool, true, false, none, some, List, [], ◌∷◌, map}
use price_monitoring_service.Partition.{Date}
use price_monitoring_service.Migrations.Schema.{
  ColumnType, integer, big_integer, uuid, boolean, date, text, timestamp_with_time_zone, char,
  string, numeric, Generated, given, autoincrement, identity, now, Column, ForeignKey, Table,
  ascending, Index, RangePartition, Operation, create_table, create_index, create_partition,
  drop_index, drop_table,
}

abbrev pub column : String → ColumnType → Bool → Generated → Column
column name kind nullable generated = record {
  name = name;
  kind = kind;
  nullable = nullable;
  generated = generated;
}

-- a column with `nullable=False`, and one with `nullable=True`
abbrev pub required : String → ColumnType → Column
required name kind = column name kind false given

abbrev pub optional : String → ColumnType → Column
optional name kind = column name kind true given

-- a moment with `server_default=sa.text('now()')`
abbrev pub moment : String → Column
moment name = column name timestamp_with_time_zone false now

-- `sa.ForeignKeyConstraint([column], [table.target])`
abbrev pub references : String → String → String → ForeignKey
references name table target = record { column = name; table = table; target = target }

abbrev pub exchange_rates : Table
exchange_rates = record {
  name = "exchange_rates";
  columns =
      column "id" integer false autoincrement
      ∷ required "currency_code" (char 3)
      ∷ required "rate_uah_per_unit" (numeric 16 8)
      ∷ required "date" date
      ∷ optional "source" (string 50)
      ∷ [];
  foreign_keys = [];
  primary_key = "id" ∷ [];
  unique = ("currency_code" ∷ "date" ∷ []) ∷ [];
  partition_by = none;
}

abbrev pub shops : Table
shops = record {
  name = "shops";
  columns =
      column "id" integer false autoincrement
      ∷ required "name" (string 100)
      ∷ optional "base_url" (string 255)
      ∷ optional "adapter_key" (string 50)
      ∷ required "is_active" boolean
      ∷ [];
  foreign_keys = [];
  primary_key = "id" ∷ [];
  unique = ("adapter_key" ∷ []) ∷ [];
  partition_by = none;
}

abbrev pub users : Table
users = record {
  name = "users";
  columns =
      required "id" uuid
      ∷ required "email" (string 255)
      ∷ optional "password_hash" (string 255)
      ∷ required "is_active" boolean
      ∷ moment "created_at"
      ∷ [];
  foreign_keys = [];
  primary_key = "id" ∷ [];
  unique = ("email" ∷ []) ∷ [];
  partition_by = none;
}

abbrev pub products : Table
products = record {
  name = "products";
  columns =
      required "id" uuid
      ∷ required "title" (string 500)
      ∷ optional "description" text
      ∷ optional "category" (string 200)
      ∷ optional "description_source_shop_id" integer
      ∷ moment "created_at"
      ∷ [];
  foreign_keys = references "description_source_shop_id" "shops" "id" ∷ [];
  primary_key = "id" ∷ [];
  unique = [];
  partition_by = none;
}

abbrev pub price_alerts : Table
price_alerts = record {
  name = "price_alerts";
  columns =
      required "id" uuid
      ∷ required "user_id" uuid
      ∷ required "product_id" uuid
      ∷ optional "threshold_price_usd" (numeric 12 4)
      ∷ optional "currency_code" (char 3)
      ∷ required "is_active" boolean
      ∷ optional "triggered_at" timestamp_with_time_zone
      ∷ moment "created_at"
      ∷ [];
  foreign_keys = references "product_id" "products" "id" ∷ references "user_id" "users" "id" ∷ [];
  primary_key = "id" ∷ [];
  unique = [];
  partition_by = none;
}

-- `op.create_index` with columns only
abbrev pub plain_index : String → String → List String → Index
plain_index name table columns = record {
  name = name;
  table = table;
  keys = map ascending columns;
  where_clause = none;
  include = [];
}

abbrev pub product_shops : Table
product_shops = record {
  name = "product_shops";
  columns =
      column "id" integer false autoincrement
      ∷ required "product_id" uuid
      ∷ required "shop_id" integer
      ∷ required "external_id" (string 100)
      ∷ [];
  foreign_keys = references "product_id" "products" "id" ∷ references "shop_id" "shops" "id" ∷ [];
  primary_key = "id" ∷ [];
  unique = ("product_id" ∷ "shop_id" ∷ []) ∷ [];
  partition_by = none;
}

abbrev pub user_products : Table
user_products = record {
  name = "user_products";
  columns = required "user_id" uuid ∷ required "product_id" uuid ∷ moment "added_at" ∷ [];
  foreign_keys = references "product_id" "products" "id" ∷ references "user_id" "users" "id" ∷ [];
  primary_key = "user_id" ∷ "product_id" ∷ [];
  unique = [];
  partition_by = none;
}

abbrev pub price_history : Table
price_history = record {
  name = "price_history";
  columns =
      column "id" big_integer false identity
      ∷ required "product_shop_id" integer
      ∷ required "price_usd" (numeric 12 4)
      ∷ moment "recorded_at"
      ∷ [];
  foreign_keys = references "product_shop_id" "product_shops" "id" ∷ [];
  primary_key = "id" ∷ "recorded_at" ∷ [];
  unique = [];
  partition_by = some "RANGE (recorded_at)";
}

abbrev pub history_partition : String → Date → Date → RangePartition
history_partition name from to = record {
  name = name;
  parent = "price_history";
  from = from;
  to = to;
}

abbrev pub june : Date
june = record { year = 2026; month = 6; day = 1 }

abbrev pub july : Date
july = record { year = 2026; month = 7; day = 1 }

abbrev pub august : Date
august = record { year = 2026; month = 8; day = 1 }

abbrev pub upgrade : List Operation
upgrade =
    create_table exchange_rates
    ∷ create_table shops
    ∷ create_table users
    ∷ create_table products
    ∷ create_table price_alerts
    ∷ create_index (
        plain_index "ix_price_alert_active_product" "price_alerts"
          ("is_active" ∷ "product_id" ∷ []))
    ∷ create_table product_shops
    ∷ create_index (plain_index "ix_product_shop_product_id" "product_shops" ("product_id" ∷ []))
    ∷ create_table user_products
    ∷ create_table price_history
    ∷ create_index (
        plain_index "ix_price_history_lookup" "price_history"
          ("product_shop_id" ∷ "recorded_at" ∷ []))
    ∷ create_partition (history_partition "price_history_2026_06" june july)
    ∷ create_partition (history_partition "price_history_2026_07" july august)
    ∷ []

abbrev pub downgrade : List Operation
downgrade =
    drop_table "price_history_2026_07"
    ∷ drop_table "price_history_2026_06"
    ∷ drop_index "ix_price_history_lookup"
    ∷ drop_table "price_history"
    ∷ drop_table "user_products"
    ∷ drop_index "ix_product_shop_product_id"
    ∷ drop_table "product_shops"
    ∷ drop_index "ix_price_alert_active_product"
    ∷ drop_table "price_alerts"
    ∷ drop_table "products"
    ∷ drop_table "users"
    ∷ drop_table "shops"
    ∷ drop_table "exchange_rates"
    ∷ []
