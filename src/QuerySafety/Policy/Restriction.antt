-- ===== src/QuerySafety/Policy/Restriction.antt =====
-- `QueryPolicy.restrict_to_tables` against what a restriction must be.
use enterprise_data_copilot.Prelude.{
  ◌≡◌, refl, ◌≢◌, ap, subst, Text, Bool, true, false, not, ◌&&◌, ◌||◌, List, [], ◌∷◌, none, some,
  all, All, contains, is_subset, is_none_left, arith, Option-cases, ◌==◌, All-contains, all→All,
  All→all, All-map, inl, inr, if◌then◌else◌,
}
use enterprise_data_copilot.Prelude.Strings.{sorted_set, insert_sorted, text_eq}
use enterprise_data_copilot.Prelude.Dict.{Dict, lookup}
use enterprise_data_copilot.Prelude.Unicode.{Unicode}
use enterprise_data_copilot.Prelude.Result.{ok}
use enterprise_data_copilot.QuerySafety.Policy.Model.{
  QueryPolicy, is_simple_name, are_simple_columns, is_valid_policy, restrict_columns, is_identifier,
  are_valid_limits, restricted, restrict_to_tables,
}

restrict_to_tables-ok :
    (p q : QueryPolicy) (names : List Text)
    → restrict_to_tables p names ≡ ok q
    → (is_none_left names ≡ false)
      × (is_subset names p.allowed_tables ≡ true)
      × (restricted p names ≡ q)
unfolding restrict_to_tables
restrict_to_tables-ok p q names h = (ground arith, ground arith, ground arith)

contains-insert_sorted :
    (s t : Text) (ss : List Text) → contains (insert_sorted s ss) t ≡ (s == t || contains ss t)
contains-insert_sorted s t [] = refl
contains-insert_sorted s t (r ∷ ss) = ground (
  arith,
  text_eq.beq_iff s t,
  text_eq.beq_iff s r,
  text_eq.beq_iff r t,
  contains-insert_sorted s t ss,
)

pub contains-sorted_set : (t : Text) (ss : List Text) → contains (sorted_set ss) t ≡ contains ss t
contains-sorted_set t [] = refl
contains-sorted_set t (s ∷ ss) =
    rw (contains-insert_sorted s t (sorted_set ss), contains-sorted_set t ss)

-- The restricted columns of a table are its own, if it was selected.
pub lookup-restrict_columns :
    (t : Text) (ts : List Text) (columns : Dict Text (List Text))
    → lookup t (restrict_columns ts columns) ≡ (if contains ts t then lookup t columns else none)
unfolding restrict_columns
lookup-restrict_columns t [] columns = refl
lookup-restrict_columns t (s ∷ ts) columns =
    ground (arith, text_eq.beq_iff s t, lookup-restrict_columns t ts columns)

module _ (u : Unicode) where
  lookup-simple :
      (t : Text) (names : List Text) (columns : Dict Text (List Text))
      → are_simple_columns u columns ≡ true
      → lookup t columns ≡ some names
      → (is_simple_name u t && all (is_simple_name u) names) ≡ true
  lookup-simple t names [] h e = cc
  lookup-simple t names ((s, ns) ∷ columns) h e =
      ground (arith, text_eq.beq_iff s t, lookup-simple t names columns)

  restrict_columns-simple :
      (ts : List Text) (columns : Dict Text (List Text))
      → are_simple_columns u columns ≡ true
      → are_simple_columns u (restrict_columns ts columns) ≡ true
  unfolding restrict_columns
  restrict_columns-simple [] columns h = refl
  restrict_columns-simple (t ∷ ts) columns h = elim (Option-cases (lookup t columns)) [
    | inl missing ↦ rw (missing, restrict_columns) (restrict_columns-simple ts columns h)
    | inr (names, found) ↦
        rw (found, restrict_columns, lookup-simple t names columns h found)
          (restrict_columns-simple ts columns h)
  ]

  simple-subset :
      (xs ys : List Text)
      → all (is_simple_name u) ys ≡ true
      → is_subset xs ys ≡ true
      → all (is_simple_name u) xs ≡ true
  simple-subset xs ys h s =
      let simple = all→All (is_simple_name u) ys h in
      All→all (is_simple_name u) xs (
        All-map (λ x c. All-contains (λ y. is_simple_name u y ≡ true) ys x simple c) xs
          (all→All (contains ys) xs s))

  all_but_three :
      (a b c d e b' c' d' : Bool)
      → (a && b && c && d && e) ≡ true
      → b' ≡ true
      → (c ≡ true → c' ≡ true)
      → (d ≡ true → d' ≡ true)
      → (a && b' && c' && d' && e) ≡ true
  all_but_three a b c d e b' c' d' v p q r = ground arith

  restricted-valid :
      (p : QueryPolicy) (names : List Text)
      → is_valid_policy u p ≡ true
      → is_none_left names ≡ false
      → is_subset names p.allowed_tables ≡ true
      → is_valid_policy u (restricted p names) ≡ true
  unfolding restricted
  restricted-valid p names v some_table subset =
      all_but_three (is_identifier p.allowed_schema) (not (is_none_left p.allowed_tables)) _ _
        (are_valid_limits p) (not (is_none_left names)) _ _ v (rw some_table)
        (λ simple. simple-subset names p.allowed_tables simple subset)
        (restrict_columns-simple (sorted_set names) p.allowed_columns)

  -- A restriction skips the validators (`model_copy`), and yet a valid policy stays valid.
  pub restrict_to_tables-valid :
      (p q : QueryPolicy) (names : List Text)
      → is_valid_policy u p ≡ true
      → restrict_to_tables p names ≡ ok q
      → is_valid_policy u q ≡ true
  restrict_to_tables-valid p q names v h =
      let (some_table, subset, same) = restrict_to_tables-ok p q names h in
      subst (λ r. is_valid_policy u r ≡ true) same (restricted-valid p names v some_table subset)

-- What a restriction of a policy to selected tables must be: the selected tables were allowed, no
-- other table stays, a table keeps its own columns, and no limit changes.
pub record IsRestriction (p : QueryPolicy) (names : List Text) (q : QueryPolicy) : Type 0 where
  pub some_table : names ≢ []
  pub were_allowed : All (λ t. contains p.allowed_tables t ≡ true) names
  pub tables : q.allowed_tables ≡ names
  pub columns :
      (t : Text)
      → lookup t q.allowed_columns ≡ (if contains names t then lookup t p.allowed_columns else none)
  pub schema : q.allowed_schema ≡ p.allowed_schema
  pub max_rows : q.max_rows ≡ p.max_rows
  pub max_columns : q.max_columns ≡ p.max_columns
  pub max_result_bytes : q.max_result_bytes ≡ p.max_result_bytes
  pub max_total_cost : q.max_total_cost ≡ p.max_total_cost
  pub max_plan_rows : q.max_plan_rows ≡ p.max_plan_rows

-- `restrict_to_tables` returns a restriction in this sense, or raises.
pub restrict_to_tables-IsRestriction :
    (p q : QueryPolicy) (names : List Text)
    → restrict_to_tables p names ≡ ok q
    → IsRestriction p names q
unfolding restricted
restrict_to_tables-IsRestriction p q names h =
    let (some_table, subset, same) = restrict_to_tables-ok p q names h in
    subst (IsRestriction p names) same (record {
      some_table = λ e. cc (some_table, ap is_none_left e);
      were_allowed = all→All (contains p.allowed_tables) names subset;
      tables = refl;
      columns = λ t. rw (
        lookup-restrict_columns t (sorted_set names) p.allowed_columns,
        contains-sorted_set t names,
      );
      schema = refl;
      max_rows = refl;
      max_columns = refl;
      max_result_bytes = refl;
      max_total_cost = refl;
      max_plan_rows = refl;
    })
