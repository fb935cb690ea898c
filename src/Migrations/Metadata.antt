-- ===== src/Migrations/Metadata.antt =====
-- The tables that the classes of app/db/models declare (`Base.metadata`). A `default`, which Python
-- fills in, is no part of a table.
use price_monitoring_service.Prelude.{String, Bool, true, false, Option, none, some, List, [], ◌∷◌}
use price_monitoring_service.Migrations.Schema.{
  ColumnType, integer, big_integer, uuid, boolean, date, text, timestamp_with_time_zone, char,
  string, numeric, Generated, given, autoincrement, identity, now, ascending, descending, Index,
}
use price_monitoring_service.Migrations.Initial.{plain_index}

-- an attribute `name: Mapped[...] = mapped_column(...)`; without a type it has that of the column
-- that its foreign key refers to
pub record Mapped : Type 0 where
  pub name : String
  pub kind : Option ColumnType
  pub is_optional : Bool
  pub generated : Generated
  pub primary_key : Bool
  pub unique : Bool
  pub foreign_key : Option (String × String)

pub record Model : Type 0 where
  pub tablename : String
  pub attributes : List Mapped
  -- `__table_args__`
  pub unique_constraints : List (List String)
  pub indexes : List Index
  pub partition_by : Option String

-- `name: Mapped[T] = mapped_column(kind)`
abbrev pub mapped : String → ColumnType → Mapped
mapped name kind = record {
  name = name;
  kind = some kind;
  is_optional = false;
  generated = given;
  primary_key = false;
  unique = false;
  foreign_key = none;
}

-- `name: Mapped[T] = mapped_column(...)` without a type
abbrev pub untyped : String → Mapped
untyped name = record (mapped name integer) { kind = none }

-- `Mapped[T | None]`
abbrev pub optional : Mapped → Mapped
optional m = record m { is_optional = true }

-- `primary_key=True`
abbrev pub key : Mapped → Mapped
key m = record m { primary_key = true }

-- `unique=True`
abbrev pub distinct : Mapped → Mapped
distinct m = record m { unique = true }

-- `server_default=func.now()`, `Identity()` or `autoincrement=True`
abbrev pub made : Generated → Mapped → Mapped
made g m = record m { generated = g }

-- `ForeignKey("table.target")`
abbrev pub foreign : String → String → Mapped → Mapped
foreign name target m = record m { foreign_key = some (name, target) }

abbrev pub exchange_rate : Model
exchange_rate = record {
  tablename = "exchange_rates";
  attributes =
      key (made autoincrement (mapped "id" integer))
      ∷ mapped "currency_code" (char 3)
      ∷ mapped "rate_uah_per_unit" (numeric 16 8)
      ∷ mapped "date" date
      ∷ optional (mapped "source" (string 50))
      ∷ [];
  unique_constraints = ("currency_code" ∷ "date" ∷ []) ∷ [];
  indexes = [];
  partition_by = none;
}

abbrev pub shop : Model
shop = record {
  tablename = "shops";
  attributes =
      key (made autoincrement (mapped "id" integer))
      ∷ mapped "name" (string 100)
      ∷ optional (mapped "base_url" (string 255))
      ∷ optional (distinct (mapped "adapter_key" (string 50)))
      ∷ mapped "is_active" boolean
      ∷ [];
  unique_constraints = [];
  indexes = [];
  partition_by = none;
}

abbrev pub user : Model
user = record {
  tablename = "users";
  attributes =
      key (mapped "id" uuid)
      ∷ distinct (mapped "email" (string 255))
      ∷ optional (mapped "password_hash" (string 255))
      ∷ mapped "is_active" boolean
      ∷ made now (mapped "created_at" timestamp_with_time_zone)
      ∷ [];
  unique_constraints = [];
  indexes = [];
  partition_by = none;
}

abbrev pub product : Model
product = record {
  tablename = "products";
  attributes =
      key (mapped "id" uuid)
      ∷ mapped "title" (string 500)
      ∷ optional (mapped "description" text)
      ∷ optional (mapped "category" (string 200))
      ∷ optional (foreign "shops" "id" (mapped "description_source_shop_id" integer))
      ∷ made now (mapped "created_at" timestamp_with_time_zone)
      ∷ [];
  unique_constraints = [];
  indexes = [];
  partition_by = none;
}

abbrev pub price_alert : Model
price_alert = record {
  tablename = "price_alerts";
  attributes =
      key (mapped "id" uuid)
      ∷ foreign "users" "id" (mapped "user_id" uuid)
      ∷ foreign "products" "id" (mapped "product_id" uuid)
      ∷ optional (mapped "threshold_price_usd" (numeric 12 4))
      ∷ optional (mapped "currency_code" (char 3))
      ∷ mapped "is_active" boolean
      ∷ optional (mapped "triggered_at" timestamp_with_time_zone)
      ∷ made now (mapped "created_at" timestamp_with_time_zone)
      ∷ [];
  unique_constraints = [];
  indexes =
      record {
        name = "ix_price_alert_user_created";
        table = "price_alerts";
        keys = ascending "user_id" ∷ descending "created_at" ∷ [];
        where_clause = none;
        include = [];
      }
      ∷ record {
        name = "ix_price_alert_active";
        table = "price_alerts";
        keys = ascending "product_id" ∷ [];
        where_clause = some "is_active";
        include = [];
      }
      ∷ [];
  partition_by = none;
}

abbrev pub product_shop : Model
product_shop = record {
  tablename = "product_shops";
  attributes =
      key (made autoincrement (mapped "id" integer))
      ∷ foreign "products" "id" (mapped "product_id" uuid)
      ∷ foreign "shops" "id" (untyped "shop_id")
      ∷ mapped "external_id" (string 100)
      ∷ [];
  unique_constraints = ("product_id" ∷ "shop_id" ∷ []) ∷ [];
  indexes =
      plain_index "ix_product_shop_product_id" "product_shops" ("product_id" ∷ [])
      ∷ plain_index "ix_product_shop_shop_id" "product_shops" ("shop_id" ∷ [])
      ∷ [];
  partition_by = none;
}

abbrev pub user_product : Model
user_product = record {
  tablename = "user_products";
  attributes =
      key (foreign "users" "id" (mapped "user_id" uuid))
      ∷ key (foreign "products" "id" (mapped "product_id" uuid))
      ∷ made now (mapped "added_at" timestamp_with_time_zone)
      ∷ [];
  unique_constraints = [];
  indexes = [];
  partition_by = none;
}

abbrev pub price_history : Model
price_history = record {
  tablename = "price_history";
  attributes =
      key (made identity (mapped "id" big_integer))
      ∷ foreign "product_shops" "id" (untyped "product_shop_id")
      ∷ mapped "price_usd" (numeric 12 4)
      ∷ key (made now (mapped "recorded_at" timestamp_with_time_zone))
      ∷ [];
  unique_constraints = [];
  indexes =
      record {
        name = "ix_price_history_lookup";
        table = "price_history";
        keys = ascending "product_shop_id" ∷ descending "recorded_at" ∷ [];
        where_clause = none;
        include = "price_usd" ∷ [];
      }
      ∷ [];
  partition_by = some "RANGE (recorded_at)";
}

-- the classes, those first whose tables the migration creates last
abbrev pub models : List Model
models =
    price_history ∷ user_product ∷ product_shop ∷ price_alert ∷ product ∷ user ∷ shop
    ∷ exchange_rate ∷ []
