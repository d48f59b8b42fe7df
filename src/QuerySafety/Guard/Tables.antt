-- ===== src/QuerySafety/Guard/Tables.antt =====
-- What the guarded query reports of the tables, and the bound on its rows.
use enterprise_data_copilot.Prelude.{
  sym, All-map, Bool-cases, &&-true, contains-here, ◌⊎◌, inl, inr, ◌≡◌, refl, ap, ◌∙◌, subst, Text,
  true, false, List, [], ◌∷◌, ◌++◌, Option, none, some, codes, All, contains, arith, ◌+◌, ◌≤◌,
}
use enterprise_data_copilot.Prelude.Strings.{sorted_set, insert_sorted, show_nat, is_empty, text_eq}
use enterprise_data_copilot.Prelude.Unicode.{Unicode}
use enterprise_data_copilot.Prelude.Result.{Result, ok, err, >>=-eq-ok, ok-injective}
use enterprise_data_copilot.Codes.{Code}
use enterprise_data_copilot.QuerySafety.SqlGlot.{SqlGlot, Table}
use enterprise_data_copilot.QuerySafety.Policy.Model.{QueryPolicy}
use enterprise_data_copilot.QuerySafety.Guard.Checks.{
  check_table, check_tables, qualify_columns, add_name, is_cte_reference,
}
use enterprise_data_copilot.QuerySafety.Policy.Restriction.{contains-sorted_set}
use enterprise_data_copilot.QuerySafety.Guard.Inspect.{
  GuardedQuery, validated, violation, accept, inspect, guarded_query, bounded_query,
}
use enterprise_data_copilot.QuerySafety.Guard.Admitted.{
  IsAllowedTable, check_table-ok, IsAdmitted, lower_ctes, accept-IsAdmitted, IsAdmitted-accept,
}

-- A reported name: a table of the policy behind the schema of the policy.
abbrev pub IsReported : QueryPolicy → Text → Type 0
IsReported p name =
    (t : Text) × (contains p.allowed_tables t ≡ true) × (name ≡ p.allowed_schema ++ codes "." ++ t)

-- The table stands without a schema under the name of a common table expression of the statement, or
-- it is a table of the policy and one of the reported names.
abbrev pub IsCovered : Unicode → List Text → QueryPolicy → List Text → Table → Type 0
IsCovered u cte_names p names t =
    ((t.db ≡ []) × (contains cte_names (u.lower t.name) ≡ true))
    ⊎ (IsAllowedTable u p t × (contains names (p.allowed_schema ++ codes "." ++ t.name) ≡ true))

module _ {κ} (P : Text → Type κ) where
  insert_sorted-All : (s : Text) (ss : List Text) → P s → All P ss → All P (insert_sorted s ss)
  insert_sorted-All s [] p h = (p, tt)
  insert_sorted-All s (t ∷ ts) p h = ground (arith, insert_sorted-All s ts p h.1)

  pub sorted_set-All : (ss : List Text) → All P ss → All P (sorted_set ss)
  sorted_set-All [] h = tt
  sorted_set-All (s ∷ ss) h = insert_sorted-All s (sorted_set ss) h.0 (sorted_set-All ss h.1)

is_empty→≡ : (s : Text) → is_empty s ≡ true → s ≡ []
is_empty→≡ [] h = refl
is_empty→≡ (c ∷ s) h = cc

module _ (u : Unicode) (cte_names : List Text) (p : QueryPolicy) where
  check_table-IsReported :
      (t : Table) (name : Text) → check_table u cte_names p t ≡ ok (some name) → IsReported p name
  unfolding check_table
  check_table-IsReported t name h = (t.name, ground arith, ground arith)

  add_name-IsReported :
      (name : Option Text) (names : List Text)
      → ((n : Text) → name ≡ some n → IsReported p n)
      → All (IsReported p) names
      → All (IsReported p) (add_name name names)
  add_name-IsReported none names f h = h
  add_name-IsReported (some n) names f h = (f n refl, h)

  pub check_tables-IsReported :
      (ts : List Table) (names : List Text)
      → check_tables u cte_names p ts ≡ ok names
      → All (IsReported p) names
  unfolding check_tables
  check_tables-IsReported [] names h = subst (All (IsReported p)) (ok-injective h) tt
  check_tables-IsReported (t ∷ ts) names h =
      let (name, e, k) = >>=-eq-ok (check_table u cte_names p t) _ h in
      let (rest, e', k') = >>=-eq-ok (check_tables u cte_names p ts) _ k in
      subst (All (IsReported p)) (ok-injective k') (
        add_name-IsReported name rest (λ n same. check_table-IsReported t n (e ∙ ap ok same))
          (check_tables-IsReported ts rest e'))

  check_table-name :
      (t : Table) (name : Option Text)
      → check_table u cte_names p t ≡ ok name
      → is_cte_reference u cte_names t ≡ false
      → name ≡ some (p.allowed_schema ++ codes "." ++ t.name)
  unfolding check_table
  check_table-name t name h other = ground arith

  check_table-IsCovered :
      (t : Table) (name : Option Text) (names : List Text)
      → check_table u cte_names p t ≡ ok name
      → IsCovered u cte_names p (add_name name names) t
  check_table-IsCovered t name names h = elim (Bool-cases (is_cte_reference u cte_names t)) [
    | inl cte ↦
        let (blank, named) = &&-true (is_empty t.db) (contains cte_names (u.lower t.name)) cte in
        inl (is_empty→≡ t.db blank, named)
    | inr other ↦
        let its_name = check_table-name t name h other in
        elim (check_table-ok u cte_names p t name h) [
          | inl (blank, named) ↦ inl (blank, named)
          | inr allowed ↦ inr (
            allowed,
            subst
                (λ n. contains (add_name n names) (p.allowed_schema ++ codes "." ++ t.name) ≡ true)
                (sym its_name) (contains-here (p.allowed_schema ++ codes "." ++ t.name) names),
          )
        ]
  ]

  more-IsCovered :
      (t : Table) (name : Option Text) (names : List Text)
      → IsCovered u cte_names p names t
      → IsCovered u cte_names p (add_name name names) t
  more-IsCovered t none names c = c
  more-IsCovered t (some n) names (inl own) = inl own
  more-IsCovered t (some n) names (inr (allowed, there)) = inr (allowed, ground arith)

  check_tables-AreCovered :
      (ts : List Table) (names : List Text)
      → check_tables u cte_names p ts ≡ ok names
      → All (IsCovered u cte_names p names) ts
  unfolding check_tables
  check_tables-AreCovered [] names h = tt
  check_tables-AreCovered (t ∷ ts) names h =
      let (name, e, k) = >>=-eq-ok (check_table u cte_names p t) _ h in
      let (rest, e', k') = >>=-eq-ok (check_tables u cte_names p ts) _ k in
      subst (λ ns. All (IsCovered u cte_names p ns) (t ∷ ts)) (ok-injective k')
        (
          check_table-IsCovered t name rest e,
          All-map (λ s c. more-IsCovered s name rest c) ts (check_tables-AreCovered ts rest e'),
        )

  sorted-IsCovered :
      (names : List Text) (t : Table)
      → IsCovered u cte_names p names t
      → IsCovered u cte_names p (sorted_set names) t
  sorted-IsCovered names t (inl own) = inl own
  sorted-IsCovered names t (inr (allowed, there)) =
      inr (allowed, contains-sorted_set (p.allowed_schema ++ codes "." ++ t.name) names ∙ there)

-- What holds of every query that the guard lets pass.
pub record IsGuarded (u : Unicode) (g : SqlGlot) (p : QueryPolicy) (query : Text) (r : GuardedQuery)
    : Type 0 where
  pub statement : g.Expression
  pub qualified : g.Expression
  pub admitted : IsAdmitted u g query p statement
  pub columns : qualify_columns u g statement p ≡ ok qualified
  pub normalized : r.normalized_sql ≡ g.sql qualified
  pub bounded :
      r.bounded_sql
      ≡ codes "SELECT * FROM ("
        ++ (r.normalized_sql
            ++ (codes ") AS _copilot_bounded LIMIT " ++ show_nat r.row_fetch_limit))
  pub limit : r.row_fetch_limit ≡ p.max_rows + 1
  pub reported : All (IsReported p) r.referenced_tables
  pub covered :
      All (IsCovered u (lower_ctes u g statement) p r.referenced_tables) (g.tables statement)

validated-ok : (q r : GuardedQuery) → validated q ≡ ok r → q ≡ r
unfolding validated
validated-ok q r h = ground arith

violation-ok : {A : Type 0} (m : Result Code A) {a : A} → violation m ≡ ok a → m ≡ ok a
violation-ok (ok a) h = ap ok (ok-injective h)
violation-ok (err c) h = cc

module _ (u : Unicode) (g : SqlGlot) (sha256_hex : Text → Text) where
  -- A query passes the guard only as one admitted statement. Each of its tables is a table of the
  -- policy that is reported, or stands without a schema under the name of a common table expression
  -- of the statement; the guard does not ask where this name is visible. Every reported table is an
  -- allowed one in the schema of the policy, and the SQL that is executed is the qualified statement
  -- inside an outer `LIMIT` of one row more than the policy allows.
  pub inspect-IsGuarded :
      (query : Text) (p : QueryPolicy) (r : GuardedQuery)
      → inspect u g sha256_hex query p ≡ ok r
      → IsGuarded u g p query r
  unfolding inspect guarded_query bounded_query
  inspect-IsGuarded query p r h =
      let ((qualified, tables), a, k) = >>=-eq-ok (violation (accept u g query p)) _ h in
      let accepted = violation-ok (accept u g query p) a in
      let same = validated-ok _ r k in
      let (e, admitted, columns, names) =
        accept-IsAdmitted u g query p (qualified, tables) accepted in
      subst (IsGuarded u g p query) same (record {
        statement = e;
        qualified = qualified;
        admitted = admitted;
        columns = columns;
        normalized = refl;
        bounded = refl;
        limit = refl;
        reported =
            sorted_set-All (IsReported p) tables
              (check_tables-IsReported u (lower_ctes u g e) p (g.tables e) tables names);
        covered =
            All-map (sorted-IsCovered u (lower_ctes u g e) p tables) (g.tables e)
              (check_tables-AreCovered u (lower_ctes u g e) p (g.tables e) tables names);
      })

  -- The other way round: an admitted statement, in which a table without a schema may have the name of
  -- any common table expression of the statement, is never refused, if its columns qualify to a
  -- statement with a text and the policy allows a row.
  pub IsAdmitted-inspect :
      (query : Text) (p : QueryPolicy) (e qualified : g.Expression)
      → IsAdmitted u g query p e
      → qualify_columns u g e p ≡ ok qualified
      → is_empty (g.sql qualified) ≡ false
      → 1 ≤ p.max_rows
      → (r : GuardedQuery) × (inspect u g sha256_hex query p ≡ ok r)
  unfolding inspect validated guarded_query bounded_query
  IsAdmitted-inspect query p e qualified a q text rows =
      let (tables, accepted) = IsAdmitted-accept u g query p e qualified a q in
      (guarded_query u g sha256_hex (g.sql qualified) p tables, rw (accepted, text) (ground arith))
