-- ===== src/Migrations/Agreement.antt =====
-- The migrations against the models: what a table has to be for a class of app/db/models, and that
-- the head of the migrations has these tables and their indexes.
use mathlib.Core.List.{Perm, reverse_perm}
use mathlib.Core.List.Perm
use package.text.Mathlib.Text.{◌==◌ as str_eq}
use price_monitoring_service.Prelude.{
  String, ◌≡◌, refl, ap, ◌∙◌, Option, none, some, List, [], ◌∷◌, ◌++◌, map, filter, find,
  All-append, Pairs,
}
use price_monitoring_service.Migrations.Schema.{
  ColumnType, Column, ForeignKey, Table, Index, table, index, partition, Schema, run,
}
use price_monitoring_service.Migrations.Initial.{upgrade}
use price_monitoring_service.Migrations.ScalingIndexes as Scaling
use price_monitoring_service.Migrations.Local.{onto, IsWithin, run_local}
use price_monitoring_service.Migrations.Metadata.{Mapped, Model, models}
use price_monitoring_service.Migrations.RoundTrip.{
  head, migrated_names, IsForeign, upgrade-IsWithin, scaling-IsWithin,
}

-- the type that an attribute declares
abbrev declared_kind : Option Mapped → Option ColumnType
declared_kind none = none
declared_kind (some m) = m.kind

abbrev target_of : Option Model → String → Option ColumnType
target_of none name = none
target_of (some m) name = declared_kind (find (λ a. str_eq a.name name) m.attributes)

abbrev referred_kind : Option (String × String) → Option ColumnType
referred_kind none = none
referred_kind (some (name, target)) = target_of (find (λ m. str_eq m.tablename name) models) target

-- the type of its column: its own, or that of the column that it refers to
abbrev kind_of : Mapped → Option ColumnType
kind_of m = elim m.kind [ some kind ↦ some kind | none ↦ referred_kind m.foreign_key ]

abbrev foreign_keys_of : List Mapped → List ForeignKey
foreign_keys_of [] = []
foreign_keys_of (m ∷ rest) =
    let others = foreign_keys_of rest in
    elim m.foreign_key [
      | some (name, target) ↦ record { column = m.name; table = name; target = target } ∷ others
      | none ↦ others
    ]

-- the column is the one that the attribute declares
abbrev pub IsColumnOf : Mapped → Column → Type 0
IsColumnOf m c =
    (c.name ≡ m.name)
    × (some c.kind ≡ kind_of m)
    × (c.nullable ≡ m.is_optional)
    × (c.generated ≡ m.generated)

-- the table is the one that the class declares; its foreign keys are in any order
abbrev pub IsTableOf : Model → Table → Type 0
IsTableOf m t =
    (t.name ≡ m.tablename)
    × Pairs IsColumnOf m.attributes t.columns
    × (t.primary_key ≡ map (λ a. a.name) (filter (λ a. a.primary_key) m.attributes))
    × (t.unique
        ≡ map (λ a. a.name ∷ []) (filter (λ a. a.unique) m.attributes) ++ m.unique_constraints)
    × Perm t.foreign_keys (foreign_keys_of m.attributes)
    × (t.partition_by ≡ m.partition_by)

abbrev pub tables_of : Schema → List Table
tables_of [] = []
tables_of (table t ∷ s) = t ∷ tables_of s
tables_of (index i ∷ s) = tables_of s
tables_of (partition p ∷ s) = tables_of s

abbrev pub indexes_of : Schema → List Index
indexes_of [] = []
indexes_of (table t ∷ s) = indexes_of s
indexes_of (index i ∷ s) = i ∷ indexes_of s
indexes_of (partition p ∷ s) = indexes_of s

-- the indexes of the classes
abbrev pub declared_indexes : List Model → List Index
declared_indexes [] = []
declared_indexes (m ∷ rest) = m.indexes ++ declared_indexes rest

head_tables : Pairs IsTableOf models (tables_of head)
head_tables = search (Perm.refl, Perm.swap)

head_indexes : Perm (indexes_of head) (declared_indexes models)
head_indexes = Perm.cons _ (reverse_perm _)

all_made : run (upgrade ++ Scaling.upgrade) [] ≡ some head
unfolding run
all_made = refl

-- On a schema that has none of the relations of the migrations, and none that stands on one of
-- them, both migrations are taken. What they add is a table for each class of app/db/models, and
-- no other, with its columns, their types, nullability and generated values, its primary key,
-- unique constraints, foreign keys and partitioning; and the indexes that the classes declare, and
-- no other.
pub upgrade-IsTableOf :
    (s : Schema)
    → IsForeign s
    → (p : Schema) × (run (upgrade ++ Scaling.upgrade) s ≡ some (p ++ s))
      × Pairs IsTableOf models (tables_of p)
      × Perm (indexes_of p) (declared_indexes models)
upgrade-IsTableOf s foreign = (
  head,
  run_local migrated_names s foreign (upgrade ++ Scaling.upgrade)
        (All-append (IsWithin migrated_names) upgrade Scaling.upgrade upgrade-IsWithin
          scaling-IsWithin)
        []
      ∙ ap (onto s) all_made,
  head_tables,
  head_indexes,
)
