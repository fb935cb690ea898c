-- ===== src/Migrations/Local.antt =====
-- Operations are local: those that name only relations of a list of names do on a schema what they
-- do on the part of it that has these names.
use package.text.Mathlib.Text.{◌==◌ as str_eq}
use package.text.Mathlib.TextEquality.{eq_iff}
use price_monitoring_service.Prelude.{
  String, ◌≡◌, refl, sym, ap, ◌∙◌, Bool, true, false, not, ◌||◌, Option, none, some, List, [], ◌∷◌,
  ◌++◌, any, any-append, map, filter, filter-append, if◌then◌else◌, All, Bool-cases, Option-cases,
  inl, inr, arith,
}
use price_monitoring_service.Migrations.Schema.{
  RangePartition, ForeignKey, Relation, table, index, partition, Schema, relation_name, mem,
  has_name, has, has_columns, is_table_with, is_partitioned, overlaps, is_index, is_table,
  blocks_drop, goes_with, key_column, Operation, create_table, create_index, create_partition,
  drop_index, drop_table, apply, run,
}

-- what a relation stands on
abbrev pub refers : Relation → List String
refers (table t) = map (λ k. k.table) t.foreign_keys
refers (index i) = i.table ∷ []
refers (partition p) = p.parent ∷ []

-- the relations that an operation names
abbrev pub mentions : Operation → List String
mentions (create_table t) = t.name ∷ map (λ k. k.table) t.foreign_keys
mentions (create_index i) = i.name ∷ i.table ∷ []
mentions (create_partition p) = p.name ∷ p.parent ∷ []
mentions (drop_index name) = name ∷ []
mentions (drop_table name) = name ∷ []

-- the schema below what an operation leaves
abbrev pub onto : Schema → Option Schema → Option Schema
onto s none = none
onto s (some p) = some (p ++ s)

module _ (names : List String) where
  -- The relation has none of the names and stands on none of them.
  abbrev pub IsApart : Relation → Type 0
  IsApart r = (mem (relation_name r) names ≡ false) × (any (λ n. mem n names) (refers r) ≡ false)

  -- The operation names only these relations.
  abbrev pub IsWithin : Operation → Type 0
  IsWithin o = any (λ n. not (mem n names)) (mentions o) ≡ false

  outside : (a n : String) → mem a names ≡ false → mem n names ≡ true → str_eq a n ≡ false
  outside a n h k = elim (Bool-cases (str_eq a n)) [
    | inl e ↦
        let same : a ≡ n = (eq_iff a n).0 e in
        absurd (ground (arith, sym (ap (λ x. mem x names) same) ∙ h))
    | inr e ↦ e
  ]

  none_outside :
      (ks : List ForeignKey) (n : String)
      → any (λ x. mem x names) (map (λ k. k.table) ks) ≡ false
      → mem n names ≡ true
      → any (λ k. str_eq k.table n) ks ≡ false
  none_outside [] n h m = refl
  none_outside (k ∷ ks) n h m =
      ground (arith, none_outside ks n (ground arith) m, outside k.table n (ground arith) m)

  module _ (s : Schema) (apart : All IsApart s) where
    any_apart :
        (q : Relation → Bool) (s' : Schema)
        → ((r : Relation) → IsApart r → q r ≡ false)
        → All IsApart s'
        → any q s' ≡ false
    any_apart q [] h a = refl
    any_apart q (r ∷ s') h a = ground (arith, h r a.0, any_apart q s' h a.1)

    -- a test that no relation of the rest passes
    any_local :
        (q : Relation → Bool) (p : Schema)
        → ((r : Relation) → IsApart r → q r ≡ false)
        → any q (p ++ s) ≡ any q p
    any_local q p h = ground (arith, any-append q p s, any_apart q s h apart)

    filter_apart :
        (q : Relation → Bool) (s' : Schema)
        → ((r : Relation) → IsApart r → q r ≡ false)
        → All IsApart s'
        → filter (λ r. not (q r)) s' ≡ s'
    filter_apart q [] h a = refl
    filter_apart q (r ∷ s') h a = rw (h r a.0) (ap (λ t. r ∷ t) (filter_apart q s' h a.1))

    filter_local :
        (q : Relation → Bool) (p : Schema)
        → ((r : Relation) → IsApart r → q r ≡ false)
        → filter (λ r. not (q r)) (p ++ s) ≡ filter (λ r. not (q r)) p ++ s
    filter_local q p h =
        filter-append (λ r. not (q r)) p s
        ∙ ap (λ t. filter (λ r. not (q r)) p ++ t) (filter_apart q s h apart)

    module _ (n : String) (known : mem n names ≡ true) where
      has_columns-apart :
          (columns : List String) (r : Relation) → IsApart r → has_columns n columns r ≡ false
      has_columns-apart columns (table t) a = rw (outside t.name n a.0 known) refl
      has_columns-apart columns (index i) a = refl
      has_columns-apart columns (partition p) a = refl

      is_partitioned-apart : (r : Relation) → IsApart r → is_partitioned n r ≡ false
      is_partitioned-apart (table t) a = rw (outside t.name n a.0 known) refl
      is_partitioned-apart (index i) a = refl
      is_partitioned-apart (partition p) a = refl

      is_index-apart : (r : Relation) → IsApart r → is_index n r ≡ false
      is_index-apart (table t) a = refl
      is_index-apart (index i) a = outside i.name n a.0 known
      is_index-apart (partition p) a = refl

      is_table-apart : (r : Relation) → IsApart r → is_table n r ≡ false
      is_table-apart (table t) a = outside t.name n a.0 known
      is_table-apart (index i) a = refl
      is_table-apart (partition p) a = outside p.name n a.0 known

      blocks_drop-apart : (r : Relation) → IsApart r → blocks_drop n r ≡ false
      blocks_drop-apart (table t) a = ground (arith, none_outside t.foreign_keys n a.1 known)
      blocks_drop-apart (index i) a = refl
      blocks_drop-apart (partition p) a = refl

      goes_with-apart : (r : Relation) → IsApart r → goes_with n r ≡ false
      goes_with-apart (table t) a = outside t.name n a.0 known
      goes_with-apart (index i) a = outside i.table n (ground (arith, a.1)) known
      goes_with-apart (partition p) a =
          ground (arith, outside p.name n a.0 known, outside p.parent n (ground (arith, a.1)) known)

    overlaps-apart :
        (new : RangePartition)
        → mem new.parent names ≡ true
        → (r : Relation) → IsApart r
        → overlaps new r ≡ false
    overlaps-apart new known (table t) a = refl
    overlaps-apart new known (index i) a = refl
    overlaps-apart new known (partition p) a =
        rw (outside p.parent new.parent (ground (arith, a.1)) known) refl

    has_local : (n : String) (p : Schema) → mem n names ≡ true → has n (p ++ s) ≡ has n p
    has_local n p known = any_local (has_name n) p λ r a. outside (relation_name r) n a.0 known

    -- the targets of foreign keys
    targets_local :
        (ks : List ForeignKey) (p : Schema)
        → any (λ n. not (mem n names)) (map (λ k. k.table) ks) ≡ false
        → any (λ k. not (is_table_with k.table (k.target ∷ []) (p ++ s))) ks
          ≡ any (λ k. not (is_table_with k.table (k.target ∷ []) p)) ks
    targets_local [] p h = refl
    targets_local (k ∷ ks) p h =
        let here : is_table_with k.table (k.target ∷ []) (p ++ s)
            ≡ is_table_with k.table (k.target ∷ []) p =
          any_local (has_columns k.table (k.target ∷ [])) p
            (has_columns-apart k.table (ground arith) (k.target ∷ [])) in
        rw here (
          ap (λ b. not (is_table_with k.table (k.target ∷ []) p) || b)
            (targets_local ks p (ground arith)))

    -- a refusal, or a schema below which the rest stands
    choice_local :
        (b : Bool) (p : Schema)
        → (if b then none else some (p ++ s)) ≡ onto s (if b then none else some p)
    choice_local true p = refl
    choice_local false p = refl

    taken_local :
        (b : Bool) (p : Schema)
        → (if b then some (p ++ s) else none) ≡ onto s (if b then some p else none)
    taken_local true p = refl
    taken_local false p = refl

    apply_local : (o : Operation) (p : Schema) → IsWithin o → apply o (p ++ s) ≡ onto s (apply o p)
    unfolding apply
    apply_local (create_table t) p w =
        rw (has_local t.name p (ground arith))
          (rw (targets_local t.foreign_keys p (ground arith)) (choice_local _ (table t ∷ p)))
    apply_local (create_index i) p w =
        let columns = map key_column i.keys ++ i.include in
        rw (has_local i.name p (ground arith)) (
          rw
            (any_local (has_columns i.table columns) p
              (has_columns-apart i.table (ground arith) columns))
            (choice_local _ (index i ∷ p)))
    apply_local (create_partition q) p w = rw (has_local q.name p (ground arith)) (
        rw (any_local (is_partitioned q.parent) p (is_partitioned-apart q.parent (ground arith))) (
          rw (any_local (overlaps q) p (overlaps-apart q (ground arith)))
            (choice_local _ (partition q ∷ p))))
    apply_local (drop_index n) p w =
        rw (any_local (is_index n) p (is_index-apart n (ground arith))) (
          rw (filter_local (has_name n) p (λ r a. outside (relation_name r) n a.0 (ground arith)))
            (taken_local (any (is_index n) p) (filter (λ r. not (has_name n r)) p)))
    apply_local (drop_table n) p w =
        rw (any_local (is_table n) p (is_table-apart n (ground arith))) (
          rw (any_local (blocks_drop n) p (blocks_drop-apart n (ground arith))) (
            rw (filter_local (goes_with n) p (goes_with-apart n (ground arith)))
              (choice_local _ (filter (λ r. not (goes_with n r)) p))))

  -- A list of operations that name only these relations does on a schema what it does on a part,
  -- if the rest is apart from the names.
  pub run_local :
      (s : Schema)
      → All IsApart s
      → (os : List Operation) → All IsWithin os
      → (p : Schema) → run os (p ++ s) ≡ onto s (run os p)
  unfolding run
  run_local s apart [] w p = refl
  run_local s apart (o ∷ os) w p = elim (Option-cases (apply o p)) [
    | inl e ↦ rw (apply_local s apart o p w.0) (rw e refl)
    | inr (p', e) ↦ rw (apply_local s apart o p w.0) (rw e (run_local s apart os w.1 p'))
  ]
