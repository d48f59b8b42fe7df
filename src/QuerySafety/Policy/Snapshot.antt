-- ===== src/QuerySafety/Policy/Snapshot.antt =====
-- The policy that `QueryPolicy.from_snapshot` makes of the catalog.
use enterprise_data_copilot.Prelude.{
  false, IsIn, ◌⊎◌, inl, inr, sym, ◌∙◌, Option, some, ◌==◌, ==→≡, ◌≡◌, refl, subst, Text, Bool,
  true, ◌||◌, List, [], ◌∷◌, map, contains, arith, if◌then◌else◌,
}
use enterprise_data_copilot.Prelude.Strings.{text_eq}
use enterprise_data_copilot.Prelude.Dict.{Dict, lookup, has_key, insert, lookup-insert}
use enterprise_data_copilot.Prelude.Unicode.{Unicode}
use enterprise_data_copilot.Prelude.Result.{ok, err}
use enterprise_data_copilot.Metadata.Snapshot.{SchemaSnapshot, TableMetadata, ColumnMetadata}
use enterprise_data_copilot.QuerySafety.Policy.Model.{
  QueryPolicy, Limits, is_valid_policy, columns_by_table, from_snapshot, snapshot_policy,
  value_error,
}

abbrev pub table_names : List TableMetadata → List Text
table_names = map (λ t. t.name)

module _ (u : Unicode) where
  has_key-columns_by_table :
      (t : Text) (ts : List TableMetadata) (columns : Dict Text (List Text))
      → has_key t (columns_by_table u ts columns)
        ≡ (has_key t columns || contains (table_names ts) t)
  unfolding columns_by_table
  has_key-columns_by_table t [] columns = ground arith
  has_key-columns_by_table t (s ∷ ts) columns =
      let names = map (λ (c : ColumnMetadata). c.name) s.columns in
      ground (
        arith,
        lookup-insert s.name t names columns,
        has_key-columns_by_table t ts (insert s.name names columns),
      )

  checked_policy :
      {E A : Type 0} (b : Bool) (x p : A) (e : E)
      → (if b then ok x else err e) ≡ ok p
      → (b ≡ true) × (x ≡ p)
  checked_policy b x p e h = ground arith

  -- The columns of a table of the catalog that has the name.
  abbrev pub AreColumnsOf : List TableMetadata → Text → List Text → Type 0
  AreColumnsOf tables t columns =
      (m : TableMetadata) × IsIn m tables
      × (m.name ≡ t)
      × (columns ≡ map (λ (c : ColumnMetadata). c.name) m.columns)

  inserted :
      (b : Bool) (xs ys : List Text) (other : Option (List Text))
      → (if b then some xs else other) ≡ some ys
      → ((b ≡ true) × (ys ≡ xs)) ⊎ (other ≡ some ys)
  inserted true xs ys other h = inl (refl, cc)
  inserted false xs ys other h = inr h

  columns_by_table-AreColumns :
      (tables ts : List TableMetadata) (d : Dict Text (List Text))
      → ((m : TableMetadata) → IsIn m ts → IsIn m tables)
      → ((t : Text) (columns : List Text)
          → lookup t d ≡ some columns
          → AreColumnsOf tables t columns)
      → (t : Text) (columns : List Text) → lookup t (columns_by_table u ts d) ≡ some columns
      → AreColumnsOf tables t columns
  unfolding columns_by_table
  columns_by_table-AreColumns tables [] d sub known t columns h = known t columns h
  columns_by_table-AreColumns tables (m ∷ ts) d sub known t columns h =
      let names = map (λ (c : ColumnMetadata). c.name) m.columns in
      columns_by_table-AreColumns tables ts (insert m.name names d) (λ x k. sub x (inr k))
        (λ key xs found.
          elim (inserted (m.name == key) names xs (lookup key d)
            (sym (lookup-insert m.name key names d) ∙ found)) [
              | inl (same, it) ↦ (m, sub m (inl refl), ==→≡ m.name key same, it)
              | inr before ↦ known key xs before
            ])
        t columns h

  -- A policy made from a catalog is valid, allows exactly the tables of the catalog in its schema,
  -- and lists for exactly those tables the columns of a table with this name in the catalog.
  pub from_snapshot-covers :
      (s : SchemaSnapshot) (limits : Limits) (p : QueryPolicy)
      → from_snapshot u s limits ≡ ok p
      → (is_valid_policy u p ≡ true)
        × (p.allowed_schema ≡ s.schema_name)
        × (p.allowed_tables ≡ table_names s.tables)
        × ((t : Text) → has_key t p.allowed_columns ≡ contains p.allowed_tables t)
        × ((t : Text) (columns : List Text)
            → lookup t p.allowed_columns ≡ some columns
            → AreColumnsOf s.tables t columns)
  unfolding from_snapshot snapshot_policy
  from_snapshot-covers s limits p h =
      let (valid, same) =
        checked_policy (is_valid_policy u (snapshot_policy u s limits)) _ p value_error h in
      subst
        (λ q.
          (is_valid_policy u q ≡ true)
          × (q.allowed_schema ≡ s.schema_name)
          × (q.allowed_tables ≡ table_names s.tables)
          × ((t : Text) → has_key t q.allowed_columns ≡ contains q.allowed_tables t)
          × ((t : Text) (columns : List Text)
              → lookup t q.allowed_columns ≡ some columns
              → AreColumnsOf s.tables t columns))
        same
        (
          valid,
          refl,
          refl,
          λ t. has_key-columns_by_table t s.tables [],
          columns_by_table-AreColumns s.tables s.tables [] (λ m k. k) (λ t columns found. cc),
        )
