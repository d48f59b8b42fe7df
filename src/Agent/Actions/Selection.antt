-- ===== src/Agent/Actions/Selection.antt =====
-- What a selection of tables leaves in the state.
use enterprise_data_copilot.Prelude.{
  ℕ, suc, ◌⊎◌, ◌≡◌, ◌≢◌, sym, subst, codes, Text, Bool, true, false, not, ◌||◌, List, some, arith,
  is_none_left, is_subset, inl, inr,
}
use enterprise_data_copilot.Prelude.Strings.{text_eq}
use enterprise_data_copilot.Prelude.Unicode.{Unicode}
use enterprise_data_copilot.Prelude.Result.{
  Result, ok, err, raise_if, >>=-eq-ok, raise_if-eq-ok, ok-injective,
}
use enterprise_data_copilot.Llm.Client.Generate.{StructuredLlmResult, GenerateError}
use enterprise_data_copilot.Metadata.Snapshot.{SchemaSnapshot}
use enterprise_data_copilot.QuerySafety.Policy.Model.{
  QueryPolicy, ValueError, is_valid_policy, from_snapshot, restrict_to_tables,
}
use enterprise_data_copilot.QuerySafety.Policy.Restriction.{restrict_to_tables-valid}
use enterprise_data_copilot.QuerySafety.Policy.Snapshot.{from_snapshot-covers}
use enterprise_data_copilot.Nl2sql.Errors.{Nl2sqlError, schema_selection}
use enterprise_data_copilot.Nl2sql.Tables.{normalize_reported_tables, catalog_names}
use enterprise_data_copilot.Nl2sql.Answer.{selection_messages}
use enterprise_data_copilot.Agent.State.{AgentState, Update, no_update}
use enterprise_data_copilot.Agent.Failures.{Failure, value_error}
use enterprise_data_copilot.Agent.Actions.Backend.{
  validation_error, of_nl2sql, ConfidentTableSelection, SelectionPrompt, with_confidence,
  with_correction, Backend,
}
use enterprise_data_copilot.Agent.Actions.Schema.{
  of_selection, or_failure, selected_tables, limits, select_from, after_selection, select_schema,
}

-- The answer of the model to a prompt reports the given tables of the policy with a confidence.
pub record IsAnswer {V E : Type 0} (b : Backend V E) (policy : QueryPolicy) (names : List Text)
    (prompt : SelectionPrompt) (selected : List Text) (confidence : ℕ) : Type 0 where
  pub result : StructuredLlmResult ConfidentTableSelection
  pub answered : b.select prompt names ≡ ok result
  pub reported : normalize_reported_tables policy.allowed_schema result.output.tables ≡ ok selected
  pub some_tables : is_none_left selected ≡ false
  pub allowed : is_subset selected policy.allowed_tables ≡ true
  pub same_confidence : confidence ≡ result.output.confidence

-- The tables, the confidence and the policy come from the catalog and from the answer to the first
-- prompt, or to the second after an answer with a bad selection.
pub record IsSelected {V E : Type 0} (u : Unicode) (b : Backend V E) (s : AgentState V)
    (w : Update V) : Type 0 where
  pub snapshot : SchemaSnapshot
  pub policy : QueryPolicy
  pub restricted : QueryPolicy
  pub names : List Text
  pub selected : List Text
  pub confidence : ℕ
  pub introspected : b.introspect ≡ ok snapshot
  pub from_catalog : from_snapshot u snapshot (limits u b) ≡ ok policy
  pub offered : catalog_names policy.allowed_schema policy.allowed_tables ≡ ok names
  pub answered :
      IsAnswer b policy names
        (with_confidence (selection_messages s.identity.question snapshot))
        selected
        confidence
      ⊎ IsAnswer b policy names
          (with_correction (with_confidence (selection_messages s.identity.question snapshot)))
          selected
          confidence
  pub restricts : restrict_to_tables policy selected ≡ ok restricted
  pub valid : is_valid_policy u restricted ≡ true
  pub stored : w ≡ record no_update {
    candidate_tables = some selected;
    selection_confidence = some confidence;
    schema_snapshot = some snapshot;
    query_policy = some restricted;
  }

of_selection-ok :
    {A : Type 0} (broken : Failure) (r : Result GenerateError A) (a : A)
    → of_selection broken r ≡ ok a
    → r ≡ ok a
of_selection-ok broken (ok c) a h = ground arith
of_selection-ok broken (err e) a h = ground arith

or_failure-ok :
    {A : Type 0} (failure : Failure) (r : Result ValueError A) (a : A)
    → or_failure failure r ≡ ok a
    → r ≡ ok a
or_failure-ok failure (ok c) a h = ground arith
or_failure-ok failure (err e) a h = cc

of_nl2sql-ok : {A : Type 0} (r : Result Nl2sqlError A) (a : A) → of_nl2sql r ≡ ok a → r ≡ ok a
of_nl2sql-ok (ok c) a h = ground arith
of_nl2sql-ok (err e) a h = cc

neither : (a b : Bool) → (a || not b) ≡ false → (a ≡ false) × (b ≡ true)
neither a b h = ground arith

module _ {V E : Type 0} (u : Unicode) (b : Backend V E) where
  selected_tables-ok :
      (policy : QueryPolicy) (reported selected : List Text)
      → selected_tables policy reported ≡ ok selected
      → (normalize_reported_tables policy.allowed_schema reported ≡ ok selected)
        × (is_none_left selected ≡ false)
        × (is_subset selected policy.allowed_tables ≡ true)
  unfolding selected_tables
  selected_tables-ok policy reported selected h =
      let (names, normal, h₁) =
        >>=-eq-ok (normalize_reported_tables policy.allowed_schema reported) _ h in
      let (_, kept, h₂) =
        >>=-eq-ok
          (raise_if (is_none_left names || not (is_subset names policy.allowed_tables))
            schema_selection)
          _ h₁ in
      let (some_tables, allowed) = neither _ _ (raise_if-eq-ok _ schema_selection kept) in
      subst
        (λ t.
          (normalize_reported_tables policy.allowed_schema reported ≡ ok t)
          × (is_none_left t ≡ false)
          × (is_subset t policy.allowed_tables ≡ true))
        (ok-injective h₂) (normal, some_tables, allowed)

  after_selection-ok :
      (last : Bool) (again : Result Failure (List Text × ℕ)) (output : ConfidentTableSelection)
      (checked : Result Nl2sqlError (List Text)) (selected : List Text) (confidence : ℕ)
      → after_selection u b last again output checked ≡ ok (selected, confidence)
      → ((checked ≡ ok selected) × (confidence ≡ output.confidence))
        ⊎ (again ≡ ok (selected, confidence))
  after_selection-ok last again output (ok t) selected confidence h =
      inl (ground arith, ground arith)
  after_selection-ok true again output (err e) selected confidence h = cc
  after_selection-ok false again output (err e) selected confidence h = inr h

  select_from-answers :
      (policy : QueryPolicy) (names : List Text) (left : ℕ) (prompt : SelectionPrompt)
      (selected : List Text) (confidence : ℕ)
      → select_from u b policy names (suc left) prompt ≡ ok (selected, confidence)
      → IsAnswer b policy names prompt selected confidence
        ⊎ (select_from u b policy names left (with_correction prompt) ≡ ok (selected, confidence))
  unfolding select_from
  select_from-answers policy names left prompt selected confidence h =
      let (result, answer, h₁) = >>=-eq-ok (of_selection b.broken (b.select prompt names)) _ h in
      elim (after_selection-ok _ (select_from u b policy names left (with_correction prompt))
        result.output (selected_tables policy result.output.tables) selected confidence h₁) [
          | inl (checked, same) ↦
              let (reported, some_tables, allowed) =
                selected_tables-ok policy result.output.tables selected checked in
              inl (record {
                result = result;
                answered = of_selection-ok b.broken (b.select prompt names) result answer;
                reported = reported;
                some_tables = some_tables;
                allowed = allowed;
                same_confidence = same;
              })
          | inr again ↦ inr again
        ]

  select_from-nothing :
      (policy : QueryPolicy) (names : List Text) (prompt : SelectionPrompt) (r : List Text × ℕ)
      → select_from u b policy names 0 prompt ≢ ok r
  unfolding select_from
  select_from-nothing policy names prompt r h = cc

  select_from-IsAnswer :
      (policy : QueryPolicy) (names : List Text) (prompt : SelectionPrompt) (selected : List Text)
      (confidence : ℕ)
      → select_from u b policy names 2 prompt ≡ ok (selected, confidence)
      → IsAnswer b policy names prompt selected confidence
        ⊎ IsAnswer b policy names (with_correction prompt) selected confidence
  select_from-IsAnswer policy names prompt selected confidence h =
      elim (select_from-answers policy names 1 prompt selected confidence h) [
        | inl first ↦ inl first
        | inr again ↦
            elim (select_from-answers policy names 0 (with_correction prompt) selected confidence
              again) [
                | inl second ↦ inr second
                | inr rest ↦ absurd (select_from-nothing policy names _ _ rest)
              ]
      ]

  -- The schema is selected only by a policy made from the catalog, and by the answer to the first
  -- prompt or to its one correction: the stored tables are some of the policy, named by that
  -- answer, and the stored policy is a valid restriction to them.
  pub select_schema-IsSelected :
      (s : AgentState V) (w : Update V) → select_schema u b s ≡ ok w → IsSelected u b s w
  unfolding select_schema
  select_schema-IsSelected s w h =
      let (snapshot, introspected, h₁) = >>=-eq-ok b.introspect _ h in
      let (policy, made, h₂) =
        >>=-eq-ok (or_failure validation_error (from_snapshot u snapshot (limits u b))) _ h₁ in
      let (names, offered, h₃) =
        >>=-eq-ok (of_nl2sql (catalog_names policy.allowed_schema policy.allowed_tables)) _ h₂ in
      let prompt = with_confidence (selection_messages s.identity.question snapshot) in
      let ((selected, confidence), found, h₄) =
        >>=-eq-ok (select_from u b policy names 2 prompt) _ h₃ in
      let (restricted, kept, h₅) =
        >>=-eq-ok
          (or_failure (value_error (codes "VALUEERROR")) (restrict_to_tables policy selected)) _
          h₄ in
      let from_catalog =
        or_failure-ok validation_error (from_snapshot u snapshot (limits u b)) policy made in
      let restricts = or_failure-ok _ (restrict_to_tables policy selected) restricted kept in
      record {
        snapshot = snapshot;
        policy = policy;
        restricted = restricted;
        names = names;
        selected = selected;
        confidence = confidence;
        introspected = introspected;
        from_catalog = from_catalog;
        offered =
            of_nl2sql-ok (catalog_names policy.allowed_schema policy.allowed_tables) names offered;
        answered = select_from-IsAnswer policy names prompt selected confidence found;
        restricts = restricts;
        valid =
            restrict_to_tables-valid u policy restricted selected
              (from_snapshot-covers u snapshot (limits u b) policy from_catalog).0 restricts;
        stored = sym (ok-injective h₅);
      }
