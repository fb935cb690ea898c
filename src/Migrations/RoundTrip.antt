-- ===== src/Migrations/RoundTrip.antt =====
-- Each migration and its downgrade, on any schema that has nothing to do with their relations.
use mathlib.Core.List.{Perm, perm_middle}
use mathlib.Core.List.Perm
use price_monitoring_service.Prelude.{String, ◌≡◌, refl, ap, ◌∙◌, some, List, [], ◌∷◌, ◌++◌, All}
use price_monitoring_service.Migrations.Schema.{
  Relation, table, index, partition, Schema, Operation, run,
}
use price_monitoring_service.Migrations.Initial.{
  exchange_rates, shops, users, products, price_alerts, product_shops, user_products, price_history,
  plain_index, history_partition, june, july, august, upgrade, downgrade,
}
use price_monitoring_service.Migrations.ScalingIndexes.{user_created, active_alerts, history_lookup}
use price_monitoring_service.Migrations.ScalingIndexes as Scaling
use price_monitoring_service.Migrations.Local.{onto, IsApart, IsWithin, run_local}

-- the relations that the two migrations name
abbrev pub migrated_names : List String
migrated_names =
    "exchange_rates" ∷ "shops" ∷ "users" ∷ "products" ∷ "price_alerts" ∷ "product_shops"
    ∷ "user_products" ∷ "price_history" ∷ "price_history_2026_06" ∷ "price_history_2026_07"
    ∷ "ix_price_alert_active_product" ∷ "ix_product_shop_product_id" ∷ "ix_price_history_lookup"
    ∷ "ix_product_shop_shop_id" ∷ "ix_price_alert_user_created" ∷ "ix_price_alert_active" ∷ []

-- the schema has nothing to do with the migrations
abbrev pub IsForeign : Schema → Type 0
IsForeign s = All (IsApart migrated_names) s

abbrev old_lookup : Relation
old_lookup =
    index (
      plain_index "ix_price_history_lookup" "price_history"
        ("product_shop_id" ∷ "recorded_at" ∷ []))

abbrev old_active : Relation
old_active =
    index
      (plain_index "ix_price_alert_active_product" "price_alerts" ("is_active" ∷ "product_id" ∷ []))

abbrev partitions : Schema
partitions =
    partition (history_partition "price_history_2026_07" july august)
    ∷ partition (history_partition "price_history_2026_06" june july)
    ∷ []

-- what lies between the two indexes that the second migration replaces
abbrev middle : Schema
middle =
    table price_history
    ∷ table user_products
    ∷ index (plain_index "ix_product_shop_product_id" "product_shops" ("product_id" ∷ []))
    ∷ table product_shops
    ∷ []

abbrev bottom : Schema
bottom = table price_alerts ∷ table products ∷ table users ∷ table shops ∷ table exchange_rates ∷ []

-- the relations of the first migration, and those of both
abbrev base : Schema
base = partitions ++ old_lookup ∷ middle ++ old_active ∷ bottom

abbrev pub head : Schema
head =
    index history_lookup
      ∷ index active_alerts
      ∷ index user_created
      ∷ index (plain_index "ix_product_shop_shop_id" "product_shops" ("shop_id" ∷ []))
      ∷ partitions
    ++ middle
    ++ bottom

-- the relations of the first migration, after an upgrade to the second and a downgrade
abbrev back : Schema
back = old_active ∷ old_lookup ∷ partitions ++ middle ++ bottom

base_made : run upgrade [] ≡ some base
unfolding run
base_made = refl

head_made : run Scaling.upgrade base ≡ some head
unfolding run
head_made = refl

back_made : run Scaling.downgrade head ≡ some back
unfolding run
back_made = refl

base_unmade : run downgrade base ≡ some []
unfolding run
base_unmade = refl

back_unmade : run downgrade back ≡ some []
unfolding run
back_unmade = refl

-- the operations name only relations of the migrations
pub upgrade-IsWithin : All (IsWithin migrated_names) upgrade
upgrade-IsWithin = (
  refl,
  (
    refl,
    (refl, (refl, (refl, (refl, (refl, (refl, (refl, (refl, (refl, (refl, (refl, tt))))))))))),
  ),
)

downgrade-IsWithin : All (IsWithin migrated_names) downgrade
downgrade-IsWithin = (
  refl,
  (
    refl,
    (refl, (refl, (refl, (refl, (refl, (refl, (refl, (refl, (refl, (refl, (refl, tt))))))))))),
  ),
)

pub scaling-IsWithin : All (IsWithin migrated_names) Scaling.upgrade
scaling-IsWithin = (refl, (refl, (refl, (refl, (refl, (refl, tt))))))

unscaling-IsWithin : All (IsWithin migrated_names) Scaling.downgrade
unscaling-IsWithin = (refl, (refl, (refl, (refl, (refl, (refl, tt))))))

module _ (s : Schema) (foreign : IsForeign s) where
  -- a migration on top of the schema
  above :
      (os : List Operation) (p : Schema) {p' : Schema}
      → All (IsWithin migrated_names) os
      → run os p ≡ some p'
      → run os (p ++ s) ≡ some (p' ++ s)
  above os p w e = run_local migrated_names s foreign os w p ∙ ap (onto s) e

  back-perm : Perm back base
  back-perm = Perm.symm (
      Perm.trans (perm_middle (partitions ++ old_lookup ∷ middle) bottom)
        (Perm.cons old_active (perm_middle partitions (middle ++ bottom))))

  -- On a schema that has none of the relations of the migrations, and none that stands on one of
  -- them, the first migration and then the second are taken. The downgrade of the second leaves the
  -- relations of the first, in another order. The downgrade of the first gives back the schema, both
  -- from there and directly after its upgrade.
  pub downgrade-upgrade :
      (base head back : Schema) × (run upgrade s ≡ some base)
      × (run Scaling.upgrade base ≡ some head)
      × (run Scaling.downgrade head ≡ some back)
      × Perm back base
      × (run downgrade back ≡ some s)
      × (run downgrade base ≡ some s)
  downgrade-upgrade = (
    base ++ s,
    head ++ s,
    back ++ s,
    above upgrade [] upgrade-IsWithin base_made,
    above Scaling.upgrade base scaling-IsWithin head_made,
    above Scaling.downgrade head unscaling-IsWithin back_made,
    Perm.append_right s back-perm,
    above downgrade back downgrade-IsWithin back_unmade,
    above downgrade base downgrade-IsWithin base_unmade,
  )
