-- ===== src/Partition.antt =====
-- `_create_partition_async` of app/tasks/prices.py: the bounds of the partition that it creates, and
-- the partitions of price_history that its statement leaves, from those of the first migration
-- (alembic/versions/11f8cd6cb440_initial.py) on. The statement's text and the commit are left out.
pub mod Months
pub mod Coverage
use price_monitoring_service.Prelude.{
  ℕ, ◌+◌, ◌*◌, Bool, ◌&&◌, List, [], ◌∷◌, ◌++◌, any, leb, ltb, ◌==◌, if◌then◌else◌,
}
use price_monitoring_service.Exec.{Result, ok, err, value_error, data_error}

pub record Date : Type 0 where
  pub year : ℕ
  pub month : ℕ
  pub day : ℕ

-- `date(year, month, 1)`
unfoldable pub first_of_month : ℕ → ℕ → Result Date
first_of_month y m =
    if leb 1 y && leb y 9999 && leb 1 m && leb m 12
    then ok (record { year = y; month = m; day = 1 })
    else err value_error

-- the assignments of `next_start` and `next_end`
abbrev pub both : Result Date → Result Date → Result (Date × Date)
both (ok a) (ok b) = ok (a, b)
both (ok a) (err e) = err e
both (err e) b = err e

unfoldable pub next_month_bounds : Date → Result (Date × Date)
next_month_bounds today =
    if today.month == 12
    then both (first_of_month (today.year + 1) 1) (first_of_month (today.year + 1) 2)
    else both (first_of_month today.year (today.month + 1)) (
        if (today.month + 1) == 12
        then first_of_month (today.year + 1) 1
        else first_of_month today.year (today.month + 2))

-- A partition of price_history: the year and the month in its name, and the bounds of its rows.
pub record PartitionTable : Type 0 where
  pub name_year : ℕ
  pub name_month : ℕ
  pub from : Date
  pub to : Date

abbrev pub month_table : ℕ → ℕ → ℕ → ℕ → PartitionTable
month_table y m y' m' = record {
  name_year = y;
  name_month = m;
  from = record { year = y; month = m; day = 1 };
  to = record { year = y'; month = m'; day = 1 };
}

-- the partitions that the first migration creates
abbrev pub first_partitions : List PartitionTable
first_partitions = month_table 2026 6 2026 7 ∷ month_table 2026 7 2026 8 ∷ []

-- dates in their order, as numbers
abbrev pub order : Date → ℕ
order d = 372 * d.year + 31 * d.month + d.day

-- a row of the day goes to the partition
abbrev pub holds : Date → PartitionTable → Bool
holds d p = leb (order p.from) (order d) && ltb (order d) (order p.to)

abbrev pub is_named : Date → PartitionTable → Bool
is_named start p = p.name_year == start.year && p.name_month == start.month

abbrev pub overlaps : Date → Date → PartitionTable → Bool
overlaps start end p = ltb (order p.from) (order end) && ltb (order start) (order p.to)

-- `CREATE TABLE IF NOT EXISTS ... PARTITION OF price_history`: PostgreSQL skips a name that exists,
-- and refuses bounds that overlap those of another partition
unfoldable pub create_table :
    List PartitionTable → Result (Date × Date) → Result (List PartitionTable)
create_table tables (err e) = err e
create_table tables (ok (start, end)) =
    if any (is_named start) tables
    then ok tables
    else if any (overlaps start end) tables
    then err data_error
    else ok (
        tables
        ++ record { name_year = start.year; name_month = start.month; from = start; to = end } ∷ [])

-- `_create_partition_async` on a day
unfoldable pub create_partition_async : Date → List PartitionTable → Result (List PartitionTable)
unfolding create_table
create_partition_async today tables = create_table tables (next_month_bounds today)

-- the runs of the task, one after the other, up to the first that raises
unfoldable pub create_partitions :
    List Date → Result (List PartitionTable) → Result (List PartitionTable)
unfolding create_partition_async
create_partitions [] tables = tables
create_partitions (today ∷ todays) (err e) = err e
create_partitions (today ∷ todays) (ok tables) =
    create_partitions todays (create_partition_async today tables)
