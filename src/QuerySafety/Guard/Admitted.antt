-- ===== src/QuerySafety/Guard/Admitted.antt =====
-- What a statement must be for `SQLGuard` to let it pass, described without the checks, and that
-- the checks decide exactly this.
use enterprise_data_copilot.Prelude.{
  ◌≡◌, refl, ap, ◌∙◌, ◌⊎◌, inl, inr, ◌≢◌, Text, true, false, not, List, [], ◌∷◌, ◌++◌, Option, none,
  some, codes, any, All, contains, arith, Bool-cases, map,
}
use enterprise_data_copilot.Prelude.Strings.{is_empty, strip, text_eq}
use enterprise_data_copilot.Prelude.Unicode.{Unicode}
use enterprise_data_copilot.Prelude.Result.{Result, ok, raise_if, >>=-eq-ok, raise_if-eq-ok}
use enterprise_data_copilot.Codes.{
  empty_query, non_read_only_statement, forbidden_sql_operation, recursive_query_not_allowed,
}
use enterprise_data_copilot.QuerySafety.SqlGlot.{
  SqlGlot, Function, Table, Join, boolean, condition, NodeType, ddl, dml, command, copy, into, lock,
  transaction,
}
use enterprise_data_copilot.QuerySafety.Policy.Model.{QueryPolicy}
use enterprise_data_copilot.QuerySafety.Guard.Checks.{
  add_name, check_table, is_forbidden, forbidden_nodes, only_statement, check_functions,
  check_joins, is_cte_reference, check_tables, check_query_shape, qualify_columns,
}
use enterprise_data_copilot.QuerySafety.Guard.Inspect.{accept}

module _ (u : Unicode) where
  -- A function that the library knows, and that is not on the list.
  pub record IsCallable (f : Function) : Type 0 where
    pub known : f.anonymous ≡ false
    pub listed : is_forbidden (u.lower f.sql_name) ≡ false

  -- A join whose condition can be false.
  pub record IsRestricted (j : Join) : Type 0 where
    pub not_cross : u.upper j.kind ≢ codes "CROSS"
    pub conditioned :
        (j.on_condition ≡ some condition)
        ⊎ ((j.on_condition ≡ some (boolean false))
            ⊎ ((j.on_condition ≡ none) × (j.has_using ≡ true)))

  -- A table of the policy, in its schema.
  pub record IsAllowedTable (p : QueryPolicy) (t : Table) : Type 0 where
    pub no_catalog : t.catalog ≡ []
    pub own_schema : (t.db ≡ []) ⊎ (t.db ≡ p.allowed_schema)
    pub listed : contains p.allowed_tables t.name ≡ true

  abbrev pub IsReadable : List Text → QueryPolicy → Table → Type 0
  IsReadable cte_names p t =
      ((t.db ≡ []) × (contains cte_names (u.lower t.name) ≡ true)) ⊎ IsAllowedTable p t

  abbrev pub lower_ctes : (g : SqlGlot) → g.Expression → List Text
  lower_ctes g e = map u.lower (g.cte_names e)

  -- One read-only statement whose tables are allowed ones, or stand without a schema under the name of
  -- a common table expression of the statement, and nothing else.
  pub record IsAdmitted (g : SqlGlot) (query : Text) (p : QueryPolicy) (e : g.Expression)
      : Type 0 where
    pub not_blank : is_empty (strip query) ≡ false
    pub single : g.parse query ≡ some (some e ∷ [])
    pub read_only : g.is_query e ≡ true
    pub no_forbidden_node : (n : NodeType) → g.has_node e n ≡ false
    pub callable : All IsCallable (g.functions e)
    pub not_recursive : g.recursive_with e ≡ false
    pub restricted : All IsRestricted (g.joins e)
    pub readable : All (IsReadable (lower_ctes g e) p) (g.tables e)

  check_functions-ok : (fs : List Function) → check_functions u fs ≡ ok tt → All IsCallable fs
  unfolding check_functions
  check_functions-ok [] h = tt
  check_functions-ok (f ∷ fs) h = ground (arith, check_functions-ok fs)

  ok-check_functions : (fs : List Function) → All IsCallable fs → check_functions u fs ≡ ok tt
  unfolding check_functions
  ok-check_functions [] h = refl
  ok-check_functions (f ∷ fs) (c, h) = ground (arith, c.known, c.listed, ok-check_functions fs h)

  is_empty→≡ : (s : Text) → is_empty s ≡ true → s ≡ []
  is_empty→≡ [] h = refl
  is_empty→≡ (c ∷ s) h = cc

  check_joins-ok : (js : List Join) → check_joins u js ≡ ok tt → All IsRestricted js
  unfolding check_joins
  check_joins-ok [] h = tt
  check_joins-ok (j ∷ js) h =
      ground (arith, text_eq.beq_iff (u.upper j.kind) (codes "CROSS"), check_joins-ok js)

  ok-check_joins : (js : List Join) → All IsRestricted js → check_joins u js ≡ ok tt
  unfolding check_joins
  ok-check_joins [] h = refl
  ok-check_joins (j ∷ js) (r, h) = ground (
    arith,
    r.not_cross,
    r.conditioned,
    text_eq.beq_iff (u.upper j.kind) (codes "CROSS"),
    ok-check_joins js h,
  )

  module _ (cte_names : List Text) (p : QueryPolicy) where
    pub check_table-ok :
        (t : Table) (name : Option Text)
        → check_table u cte_names p t ≡ ok name
        → IsReadable cte_names p t
    unfolding check_table
    check_table-ok t name h =
        ground (arith, is_empty→≡ t.db, is_empty→≡ t.catalog, text_eq.beq_iff t.db p.allowed_schema)

    ok-check_table :
        (t : Table)
        → IsReadable cte_names p t
        → (name : Option Text) × (check_table u cte_names p t ≡ ok name)
    unfolding check_table
    ok-check_table t h = elim (Bool-cases (is_cte_reference u cte_names t)) [
      | inl cte ↦ (none, rw cte)
      | inr other ↦ (
        some (p.allowed_schema ++ codes "." ++ t.name),
        ground (arith, h, text_eq.beq_iff t.db p.allowed_schema),
      )
    ]

    check_tables-ok :
        (ts : List Table) (names : List Text)
        → check_tables u cte_names p ts ≡ ok names
        → All (IsReadable cte_names p) ts
    unfolding check_tables
    check_tables-ok [] names h = tt
    check_tables-ok (t ∷ ts) names h =
        let (name, e, k) = >>=-eq-ok (check_table u cte_names p t) _ h in
        let (rest, e', k') = >>=-eq-ok (check_tables u cte_names p ts) _ k in
        (check_table-ok t name e, check_tables-ok ts rest e')

    ok-check_tables :
        (ts : List Table)
        → All (IsReadable cte_names p) ts
        → (names : List Text) × (check_tables u cte_names p ts ≡ ok names)
    unfolding check_tables
    ok-check_tables [] h = ([], refl)
    ok-check_tables (t ∷ ts) (a, h) =
        let (name, e) = ok-check_table t a in
        let (names, e') = ok-check_tables ts h in (add_name name names, rw (e, e'))

  -- The parts of a pair that was returned.
  ok_fst :
      {E A B : Type 0} {a a' : A} {b b' : B}
      → ◌≡◌ {A = Result E (A × B)} (ok (a, b)) (ok (a', b'))
      → a ≡ a'
  ok_fst h = cc

  ok_snd :
      {E A B : Type 0} {a a' : A} {b b' : B}
      → ◌≡◌ {A = Result E (A × B)} (ok (a, b)) (ok (a', b'))
      → b ≡ b'
  ok_snd h = cc

  module _ (g : SqlGlot) where
    node_free :
        (e : g.Expression)
        → ((n : NodeType) → g.has_node e n ≡ false)
        → any (g.has_node e) forbidden_nodes ≡ false
    node_free e h = rw (h ddl, h dml, h command, h copy, h into, h lock, h transaction)

    no_node :
        (e : g.Expression)
        → any (g.has_node e) forbidden_nodes ≡ false
        → (n : NodeType) → g.has_node e n ≡ false
    no_node e h ddl = ground arith
    no_node e h dml = ground arith
    no_node e h command = ground arith
    no_node e h copy = ground arith
    no_node e h into = ground arith
    no_node e h lock = ground arith
    no_node e h transaction = ground arith

    only_statement-ok :
        (o : Option (List (Option g.Expression))) (e : g.Expression)
        → only_statement o ≡ ok e
        → o ≡ some (some e ∷ [])
    unfolding only_statement
    only_statement-ok none e h = cc
    only_statement-ok (some []) e h = cc
    only_statement-ok (some (none ∷ [])) e h = cc
    only_statement-ok (some (some d ∷ [])) e h = cc
    only_statement-ok (some (none ∷ f ∷ es)) e h = cc
    only_statement-ok (some (some d ∷ f ∷ es)) e h = cc

    -- A text passes every check exactly when it is one admitted statement and its columns qualify.
    pub accept-IsAdmitted :
        (query : Text) (p : QueryPolicy) (result : g.Expression × List Text)
        → accept u g query p ≡ ok result
        → (e : g.Expression) × IsAdmitted g query p e
          × (qualify_columns u g e p ≡ ok result.0)
          × (check_tables u (lower_ctes g e) p (g.tables e) ≡ ok result.1)
    unfolding accept check_query_shape
    accept-IsAdmitted query p result h =
        let (_, blank, h₁) = >>=-eq-ok (raise_if (is_empty (strip query)) empty_query) _ h in
        let (e, single, h₂) = >>=-eq-ok (only_statement (g.parse query)) _ h₁ in
        let (_, read, h₃) =
          >>=-eq-ok (raise_if (not (g.is_query e)) non_read_only_statement) _ h₂ in
        let (_, nodes, h₄) =
          >>=-eq-ok (raise_if (any (g.has_node e) forbidden_nodes) forbidden_sql_operation) _ h₃ in
        let (_, called, h₅) = >>=-eq-ok (check_functions u (g.functions e)) _ h₄ in
        let (_, shape, h₆) = >>=-eq-ok (check_query_shape u g e) _ h₅ in
        let (names, tables, h₇) = >>=-eq-ok (check_tables u (lower_ctes g e) p (g.tables e)) _ h₆ in
        let (qualified, columns, h₈) = >>=-eq-ok (qualify_columns u g e p) _ h₇ in
        let (_, plain, joins) =
          >>=-eq-ok (raise_if (g.recursive_with e) recursive_query_not_allowed) _ shape in
        (
          e,
          record {
            not_blank = raise_if-eq-ok _ empty_query blank;
            single = only_statement-ok _ e single;
            read_only =
                ground (arith, raise_if-eq-ok (not (g.is_query e)) non_read_only_statement read);
            no_forbidden_node = no_node e (raise_if-eq-ok _ forbidden_sql_operation nodes);
            callable = check_functions-ok (g.functions e) called;
            not_recursive = raise_if-eq-ok _ recursive_query_not_allowed plain;
            restricted = check_joins-ok (g.joins e) joins;
            readable = check_tables-ok (lower_ctes g e) p (g.tables e) names tables;
          },
          columns ∙ ap ok (ok_fst h₈),
          tables ∙ ap ok (ok_snd h₈),
        )

    pub IsAdmitted-accept :
        (query : Text) (p : QueryPolicy) (e qualified : g.Expression)
        → IsAdmitted g query p e
        → qualify_columns u g e p ≡ ok qualified
        → (tables : List Text) × (accept u g query p ≡ ok (qualified, tables))
    unfolding accept check_query_shape only_statement ok-check_tables
    IsAdmitted-accept query p e qualified a q =
        let (tables, t) = ok-check_tables (lower_ctes g e) p (g.tables e) a.readable in
        (
          tables,
          rw (
            a.not_blank,
            a.single,
            a.read_only,
            node_free e a.no_forbidden_node,
            ok-check_functions (g.functions e) a.callable,
            a.not_recursive,
            ok-check_joins (g.joins e) a.restricted,
            t,
            q,
          ),
        )
