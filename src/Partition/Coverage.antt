-- ===== src/Partition/Coverage.antt =====
-- The days that the partitions hold which the runs of the task leave.
use price_monitoring_service.Prelude.{
  ℕ, ◌+◌, ◌≤◌, ◌<◌, ◌≡◌, refl, ◌∙◌, true, false, ◌&&◌, List, [], ◌∷◌, ◌++◌, any, filter, length,
  leb, ltb, ◌==◌, if◌then◌else◌, Bool-cases, inl, inr, arith,
}
use price_monitoring_service.Exec.{ok}
use price_monitoring_service.Partition.{
  Date, PartitionTable, first_partitions, holds, is_named, overlaps, create_table,
  create_partition_async, create_partitions,
}
use price_monitoring_service.Partition.Months.{month_number, IsFirst, next_month_bounds_lem}

-- a date by its numbers
abbrev pub IsDate : Date → Type 0
IsDate d = (1 ≤ d.month) × (d.month ≤ 12) × (1 ≤ d.day) × (d.day ≤ 31)

-- the partition of a month, by the month's number
abbrev pub IsMonth : ℕ → PartitionTable → Type 0
IsMonth n p =
    IsFirst p.from
    × IsFirst p.to
    × (month_number p.from ≡ n)
    × (month_number p.to ≡ n + 1)
    × (p.name_year ≡ p.from.year)
    × (p.name_month ≡ p.from.month)

-- a partition for each month from one to before another, in order
abbrev pub IsChain : ℕ → ℕ → List PartitionTable → Type 0
IsChain lo hi [] = lo ≡ hi
IsChain lo hi (p ∷ tables) = IsMonth lo p × IsChain (lo + 1) hi tables

chain_le : (lo hi : ℕ) (tables : List PartitionTable) → IsChain lo hi tables → lo ≤ hi
chain_le lo hi [] c = ground (arith, c)
chain_le lo hi (p ∷ tables) c = let le = chain_le (lo + 1) hi tables c.1 in omega arith

IsChain-snoc :
    (lo hi : ℕ) (tables : List PartitionTable) (p : PartitionTable)
    → IsChain lo hi tables
    → IsMonth hi p
    → IsChain lo (hi + 1) (tables ++ p ∷ [])
IsChain-snoc lo hi [] p c m = rw c (m, refl)
IsChain-snoc lo hi (q ∷ tables) p c m = (c.0, IsChain-snoc (lo + 1) hi tables p c.1 m)

holds_month :
    (n : ℕ) (p : PartitionTable) (d : Date)
    → IsMonth n p
    → IsDate d
    → holds d p ≡ (month_number d == n)
holds_month n p d m v = ground arith

named_month :
    (n : ℕ) (p : PartitionTable) (start : Date)
    → IsMonth n p
    → IsFirst start
    → is_named start p ≡ (month_number start == n)
named_month n p start m v = ground arith

-- exactly one partition holds a day of the months of a chain
count_holds :
    (lo hi : ℕ) (tables : List PartitionTable) (d : Date)
    → IsChain lo hi tables
    → IsDate d
    → length (filter (holds d) tables)
      ≡ (if leb lo (month_number d) && ltb (month_number d) hi then 1 else 0)
count_holds lo hi [] d c v = ground (arith, c)
count_holds lo hi (p ∷ tables) d c v = ground (
  arith,
  holds_month lo p d c.0 v,
  count_holds (lo + 1) hi tables d c.1 v,
  chain_le (lo + 1) hi tables c.1,
)

any_named :
    (lo hi : ℕ) (tables : List PartitionTable) (start : Date)
    → IsChain lo hi tables
    → IsFirst start
    → any (is_named start) tables ≡ (leb lo (month_number start) && ltb (month_number start) hi)
any_named lo hi [] start c v = ground (arith, c)
any_named lo hi (p ∷ tables) start c v = ground (
  arith,
  named_month lo p start c.0 v,
  any_named (lo + 1) hi tables start c.1 v,
  chain_le (lo + 1) hi tables c.1,
)

none_overlaps :
    (lo hi : ℕ) (tables : List PartitionTable) (start end : Date)
    → IsChain lo hi tables
    → IsFirst start
    → month_number start ≡ hi
    → any (overlaps start end) tables ≡ false
none_overlaps lo hi [] start end c v e = refl
none_overlaps lo hi (p ∷ tables) start end c v e =
    ground
      (arith, none_overlaps (lo + 1) hi tables start end c.1 v e, chain_le (lo + 1) hi tables c.1)

-- the month behind the partitions, after a run on a day
abbrev pub extended : ℕ → Date → ℕ
extended hi today = if month_number today + 1 == hi then hi + 1 else hi

create_table-IsChain :
    (lo hi : ℕ) (tables : List PartitionTable) (today start end : Date)
    → IsChain lo hi tables
    → IsFirst start
    → IsFirst end
    → month_number start ≡ month_number today + 1
    → month_number end ≡ month_number today + 2
    → lo ≤ month_number today + 1
    → month_number today + 1 ≤ hi
    → (more : List PartitionTable) × (create_table tables (ok (start, end)) ≡ ok more)
      × IsChain lo (extended hi today) more
unfolding create_table
create_table-IsChain lo hi tables today start end c s e ns ne low high =
    elim (Bool-cases (month_number today + 1 == hi)) [
      | inl new ↦
          let none : any (is_named start) tables ≡ false =
            any_named lo hi tables start c s ∙ ground arith in
          let free : any (overlaps start end) tables ≡ false =
            none_overlaps lo hi tables start end c s (ground arith) in
          rw new (
            rw none (
              rw free (
                _,
                refl,
                IsChain-snoc lo hi tables _ c (s, e, ground arith, ground arith, refl, refl),
              )))
      | inr old ↦
          let there : any (is_named start) tables ≡ true =
            any_named lo hi tables start c s ∙ ground arith in
          rw old (rw there (tables, refl, c))
    ]

-- Days on which the task runs: each is valid, and in a month that the partitions have reached.
abbrev pub IsTimely : ℕ → ℕ → List Date → Type 0
IsTimely lo hi [] = Unit
IsTimely lo hi (today ∷ todays) =
    IsDate today
    × (1 ≤ today.year)
    × (today.year < 9999)
    × (lo ≤ month_number today + 1)
    × (month_number today + 1 ≤ hi)
    × IsTimely lo (extended hi today) todays

abbrev pub reach : ℕ → List Date → ℕ
reach hi [] = hi
reach hi (today ∷ todays) = reach (extended hi today) todays

create_partitions-IsChain :
    (lo hi : ℕ) (todays : List Date) (tables : List PartitionTable)
    → IsChain lo hi tables
    → IsTimely lo hi todays
    → (more : List PartitionTable) × (create_partitions todays (ok tables) ≡ ok more)
      × IsChain lo (reach hi todays) more
unfolding create_partitions create_partition_async
create_partitions-IsChain lo hi [] tables c t = (tables, refl, c)
create_partitions-IsChain lo hi (today ∷ todays) tables c (v, y, y', low, high, rest) =
    let (start, end, bounds, s, e, ns, ne) = next_month_bounds_lem today y y' v.0 v.1 in
    let (more, made, chain) =
      create_table-IsChain lo hi tables today start end c s e ns ne low high in
    let (last, run, whole) =
      create_partitions-IsChain lo (extended hi today) todays more chain rest in
    (last, rw bounds (rw made run), whole)

-- June 2026, and the month behind the partitions of the migration
abbrev pub first_month : ℕ
first_month = 24318

abbrev pub next_month : ℕ
next_month = 24320

-- From the partitions of the migration on, if each run of the task is on a day after April 2026 and
-- not after the months that the partitions have reached by then, all runs return, however many there
-- are in a month, and every day from June 2026 to before the month that they reach has exactly one
-- partition for its rows; the days outside have none.
pub create_partitions_lem :
    (todays : List Date) (d : Date)
    → IsTimely first_month next_month todays
    → IsDate d
    → (tables : List PartitionTable) × (create_partitions todays (ok first_partitions) ≡ ok tables)
      × (length (filter (holds d) tables) ≡ (
          if leb first_month (month_number d) && ltb (month_number d) (reach next_month todays)
          then 1
          else 0))
create_partitions_lem todays d timely v =
    let (tables, run, chain) =
      create_partitions-IsChain first_month next_month todays first_partitions begins timely in
    (tables, run, count_holds first_month (reach next_month todays) tables d chain v)
  where
    begins : IsChain first_month next_month first_partitions
    begins = (
      ((omega arith, omega arith, refl), (omega arith, omega arith, refl), refl, refl, refl, refl),
      (
        (
          (omega arith, omega arith, refl),
          (omega arith, omega arith, refl),
          refl,
          refl,
          refl,
          refl,
        ),
        refl,
      ),
    )
