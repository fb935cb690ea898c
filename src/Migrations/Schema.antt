-- ===== src/Migrations/Schema.antt =====
-- Schemas, and what Alembic's operations do to them by PostgreSQL's documentation: the names of
-- tables, partitions and indexes are one name space, a name that is taken is refused, a statement is refused where a
-- table, an index or a column that it names does not exist, and a table is not dropped while a
-- foreign key of another one refers to it; with a table go its indexes and partitions. The indexes
-- that PostgreSQL makes of its own, for constraints and for the partitions of an indexed table, are
-- left out.
use package.text.Mathlib.Text.{◌==◌ as str_eq}
use price_monitoring_service.Prelude.{
  ℕ, String, Bool, true, false, not, ◌&&◌, ◌||◌, Option, none, some, List, [], ◌∷◌, ◌++◌, any, map,
  filter, if◌then◌else◌, ltb,
}
use price_monitoring_service.Partition.{Date, order}

-- the types of columns, as SQLAlchemy names them
pub data ColumnType : Type 0 where
  integer big_integer uuid boolean date text timestamp_with_time_zone : ColumnType
  char string : ℕ → ColumnType
  numeric : ℕ → ℕ → ColumnType

-- where the database finds a value that an INSERT leaves out
pub data Generated : Type 0 where
  given autoincrement identity now : Generated

pub record Column : Type 0 where
  pub name : String
  pub kind : ColumnType
  pub nullable : Bool
  pub generated : Generated

pub record ForeignKey : Type 0 where
  pub column : String
  pub table : String
  pub target : String

pub record Table : Type 0 where
  pub name : String
  pub columns : List Column
  pub foreign_keys : List ForeignKey
  pub primary_key : List String
  pub unique : List (List String)
  pub partition_by : Option String

pub data IndexKey : Type 0 where
  ascending descending : String → IndexKey

pub record Index : Type 0 where
  pub name : String
  pub table : String
  pub keys : List IndexKey
  pub where_clause : Option String
  pub include : List String

-- a partition by range of a table
pub record RangePartition : Type 0 where
  pub name : String
  pub parent : String
  pub from : Date
  pub to : Date

pub data Relation : Type 0 where
  table : Table → Relation
  index : Index → Relation
  partition : RangePartition → Relation

-- the newest relation is the first
abbrev pub Schema : Type 0
Schema = List Relation

abbrev pub relation_name : Relation → String
relation_name (table t) = t.name
relation_name (index i) = i.name
relation_name (partition p) = p.name

abbrev pub mem : String → List String → Bool
mem x names = any (str_eq x) names

abbrev pub has_name : String → Relation → Bool
has_name name r = str_eq (relation_name r) name

-- the name is taken
abbrev pub has : String → Schema → Bool
has name s = any (has_name name) s

-- the table of a name has these columns
abbrev pub has_columns : String → List String → Relation → Bool
has_columns name columns (table t) =
    str_eq t.name name && not (any (λ c. not (mem c (map (λ x. x.name) t.columns))) columns)
has_columns name columns (index i) = false
has_columns name columns (partition p) = false

abbrev pub is_table_with : String → List String → Schema → Bool
is_table_with name columns s = any (has_columns name columns) s

abbrev pub key_column : IndexKey → String
key_column (ascending c) = c
key_column (descending c) = c

-- a table that is partitioned, of the name
abbrev pub is_partitioned : String → Relation → Bool
is_partitioned name (table t) =
    str_eq t.name name && elim t.partition_by [ some how ↦ true | none ↦ false ]
is_partitioned name (index i) = false
is_partitioned name (partition p) = false

-- a partition of the same table, whose bounds overlap those of the new one
abbrev pub overlaps : RangePartition → Relation → Bool
overlaps new (table t) = false
overlaps new (index i) = false
overlaps new (partition p) =
    str_eq p.parent new.parent
    && (ltb (order p.from) (order new.to) && ltb (order new.from) (order p.to))

abbrev pub is_index : String → Relation → Bool
is_index name (table t) = false
is_index name (index i) = str_eq i.name name
is_index name (partition p) = false

-- a table or a partition of the name
abbrev pub is_table : String → Relation → Bool
is_table name (table t) = str_eq t.name name
is_table name (index i) = false
is_table name (partition p) = str_eq p.name name

-- a foreign key of the table refers to the table of that name, which is another one
abbrev pub blocks_drop : String → Relation → Bool
blocks_drop name (table t) =
    not (str_eq t.name name) && any (λ k. str_eq k.table name) t.foreign_keys
blocks_drop name (index i) = false
blocks_drop name (partition p) = false

-- what a table takes along: itself, its indexes and its partitions
abbrev pub goes_with : String → Relation → Bool
goes_with name (table t) = str_eq t.name name
goes_with name (index i) = str_eq i.table name
goes_with name (partition p) = str_eq p.name name || str_eq p.parent name

-- Alembic's operations
pub data Operation : Type 0 where
  create_table : Table → Operation
  create_index : Index → Operation
  create_partition : RangePartition → Operation
  drop_index drop_table : String → Operation

-- some schema if the statement is taken, none if it is refused
unfoldable pub apply : Operation → Schema → Option Schema
apply (create_table t) s =
    if has t.name s || any (λ k. not (is_table_with k.table (k.target ∷ []) s)) t.foreign_keys
    then none
    else some (table t ∷ s)
apply (create_index i) s =
    if has i.name s || not (is_table_with i.table (map key_column i.keys ++ i.include) s)
    then none
    else some (index i ∷ s)
apply (create_partition p) s =
    if has p.name s || not (any (is_partitioned p.parent) s) || any (overlaps p) s
    then none
    else some (partition p ∷ s)
apply (drop_index name) s =
    if any (is_index name) s then some (filter (λ r. not (has_name name r)) s) else none
apply (drop_table name) s =
    if not (any (is_table name) s) || any (blocks_drop name) s
    then none
    else some (filter (λ r. not (goes_with name r)) s)

-- an operation on the schema that another one leaves
abbrev pub and_then : (Schema → Option Schema) → Option Schema → Option Schema
and_then f none = none
and_then f (some s) = f s

-- one operation after another, up to the first that is refused
unfoldable pub run : List Operation → Schema → Option Schema
unfolding apply
run [] s = some s
run (o ∷ rest) s = and_then (run rest) (apply o s)
