-- ===== src/Tests/Migrating.antt =====
-- The migrations on a database that has Alembic's own table.
use mathlib.Core.List.{Perm}
use price_monitoring_service.Prelude.{◌≡◌, refl, none, some, [], ◌∷◌, ◌++◌, Pairs}
use price_monitoring_service.Migrations.Schema.{Schema, table, string, drop_table, run}
use price_monitoring_service.Migrations.Initial.{required, upgrade, downgrade}
use price_monitoring_service.Migrations.ScalingIndexes as Scaling
use price_monitoring_service.Migrations.Metadata.{models}
use price_monitoring_service.Migrations.RoundTrip.{head, IsForeign, downgrade-upgrade}
use price_monitoring_service.Migrations.Agreement.{
  IsTableOf, tables_of, indexes_of, declared_indexes, upgrade-IsTableOf,
}

abbrev alembic_only : Schema
alembic_only =
    table (record {
      name = "alembic_version";
      columns = required "version_num" (string 32) ∷ [];
      foreign_keys = [];
      primary_key = "version_num" ∷ [];
      unique = [];
      partition_by = none;
    })
    ∷ []

foreign : IsForeign alembic_only
foreign = ((refl, refl), tt)

downgrade-upgrade_example :
    (base head back : Schema) × (run upgrade alembic_only ≡ some base)
    × (run Scaling.upgrade base ≡ some head)
    × (run Scaling.downgrade head ≡ some back)
    × Perm back base
    × (run downgrade back ≡ some alembic_only)
    × (run downgrade base ≡ some alembic_only)
downgrade-upgrade_example = downgrade-upgrade alembic_only foreign

upgrade-IsTableOf_example :
    (p : Schema) × (run (upgrade ++ Scaling.upgrade) alembic_only ≡ some (p ++ alembic_only))
    × Pairs IsTableOf models (tables_of p)
    × Perm (indexes_of p) (declared_indexes models)
upgrade-IsTableOf_example = upgrade-IsTableOf alembic_only foreign

-- a table to which others refer is not dropped, and a name that is taken is refused
shops_kept : run (drop_table "shops" ∷ []) head ≡ none
unfolding run
shops_kept = refl

twice : run upgrade head ≡ none
unfolding run
twice = refl
