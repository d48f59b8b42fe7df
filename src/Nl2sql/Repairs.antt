-- ===== src/Nl2sql/Repairs.antt =====
-- What an answer rests on.
use enterprise_data_copilot.Prelude.{
  ltb-eq-false, ℕ, ◌+◌, ◌≤◌, ◌<◌, ◌≡◌, sym, subst, Text, Bool, true, false, not, ◌||◌, List, All,
  all→All, length, contains, arith,
}
use enterprise_data_copilot.Prelude.Strings.{text_eq}
use enterprise_data_copilot.Prelude.Result.{ok, >>=-eq-ok}
use enterprise_data_copilot.Metadata.Snapshot.{SchemaSnapshot}
use enterprise_data_copilot.QuerySafety.Policy.Model.{QueryPolicy, restrict_to_tables}
use enterprise_data_copilot.Nl2sql.Errors.{schema_selection}
use enterprise_data_copilot.Nl2sql.Question.{inspect_question}
use enterprise_data_copilot.Nl2sql.Models.{TableSelection, Nl2sqlResult}
use enterprise_data_copilot.Nl2sql.Tables.{normalize_reported_tables, catalog_names}
use enterprise_data_copilot.Nl2sql.Answer.{
  selection_messages, generation_messages, Assistants, nl2sql, llm, value_error, map_err,
  usable_tables, validate_selection, answer,
}
use enterprise_data_copilot.Nl2sql.Drafts.{
  Refused, IsDrafted, draft_from-IsRepaired, map_err-ok, passed_check,
}

module _ {V : Type 0} (env : Assistants V) (max_repairs : ℕ) where
  -- An answer: some tables of the catalog that the policy allows, few enough, and the SQL text of
  -- the last draft, executed under the policy restricted to these tables after at most the allowed
  -- number of repairs, one for each draft before, whose SQL was refused by a repairable error. Every
  -- draft reports selected tables only.
  pub record IsAnswered (max_selected : ℕ) (snapshot : SchemaSnapshot) (policy : QueryPolicy)
      (r : Nl2sqlResult V) : Type 0 where
    pub restriction : QueryPolicy
    pub restricted : restrict_to_tables policy r.selected_tables ≡ ok restriction
    pub known : All (λ t. contains (usable_tables snapshot policy) t ≡ true) r.selected_tables
    pub few : length r.selected_tables ≤ max_selected
    pub repairs : r.repair_count ≤ max_repairs
    pub refused :
        (n : ℕ)
        → n < r.repair_count
        → Refused env max_repairs policy.allowed_schema r.selected_tables restriction n
    pub drafted :
        IsDrafted env max_repairs policy.allowed_schema r.selected_tables r.repair_count r.sql
    pub executed : env.execute_generated r.repair_count r.sql restriction ≡ ok r.outcome

  or-false : (a b c : Bool) → (a || (b || not c)) ≡ false → (b ≡ false) × (c ≡ true)
  or-false a b c h = ground arith

  validate_selection-ok :
      (max_selected : ℕ) (selection : TableSelection) (snapshot : SchemaSnapshot)
      (policy : QueryPolicy) (tables : List Text)
      → validate_selection max_selected selection snapshot policy ≡ ok tables
      → All (λ t. contains (usable_tables snapshot policy) t ≡ true) tables
        × (length tables ≤ max_selected)
  unfolding validate_selection
  validate_selection-ok max_selected selection snapshot policy tables h =
      let (ts, _, h₁) =
        >>=-eq-ok (normalize_reported_tables policy.allowed_schema selection.tables) _ h in
      let (passed, same) = passed_check env max_repairs _ schema_selection ts tables h₁ in
      let (few, subset) = or-false _ _ _ passed in
      subst
        (λ us.
          All (λ t. contains (usable_tables snapshot policy) t ≡ true) us
          × (length us ≤ max_selected))
        same
        (
          all→All (contains (usable_tables snapshot policy)) ts subset,
          ltb-eq-false max_selected (length ts) few,
        )

  -- Every answer is one in this sense, whatever the model proposes and the database refuses.
  pub answer-IsAnswered :
      (max_selected : ℕ) (question : Text) (snapshot : SchemaSnapshot) (policy : QueryPolicy)
      (r : Nl2sqlResult V)
      → answer env max_repairs max_selected question snapshot policy ≡ ok r
      → IsAnswered max_selected snapshot policy r
  unfolding answer validate_selection
  answer-IsAnswered max_selected question snapshot policy r h =
      let (safe, _, h₁) = >>=-eq-ok (map_err nl2sql (inspect_question env.patterns question)) _ h in
      let (names, _, h₂) =
        >>=-eq-ok
          (map_err nl2sql (catalog_names policy.allowed_schema (usable_tables snapshot policy))) _
          h₁ in
      let (selection, _, h₃) =
        >>=-eq-ok (map_err llm (env.select (selection_messages safe snapshot) names)) _ h₂ in
      let (tables, chosen, h₄) =
        >>=-eq-ok
          (map_err nl2sql (validate_selection max_selected selection.output snapshot policy)) _
          h₃ in
      let (restriction, made, h₅) =
        >>=-eq-ok (map_err (λ e. value_error) (restrict_to_tables policy tables)) _ h₄ in
      let b =
        draft_from-IsRepaired env max_repairs tables policy.allowed_schema restriction
          (generation_messages safe snapshot tables restriction) (max_repairs + 1) 0 _
          selection.attempts selection.usage r (omega arith) h₅ in
      let good =
        validate_selection-ok max_selected selection.output snapshot policy tables
          (map_err-ok env max_repairs nl2sql _ tables chosen) in
      record {
        restriction = restriction;
        restricted =
            subst (λ ts. restrict_to_tables policy ts ≡ ok restriction) (sym b.selected)
              (map_err-ok env max_repairs (λ e. value_error) _ restriction made);
        known =
            subst (All (λ t. contains (usable_tables snapshot policy) t ≡ true)) (sym b.selected)
              good.0;
        few = subst (λ (ts : List Text). length ts ≤ max_selected) (sym b.selected) good.1;
        repairs = b.allowed;
        refused = λ n low.
            subst (λ ts. Refused env max_repairs policy.allowed_schema ts restriction n)
              (sym b.selected) (b.refused n (omega arith) low);
        drafted =
            subst (λ ts. IsDrafted env max_repairs policy.allowed_schema ts r.repair_count r.sql)
              (sym b.selected) b.drafted;
        executed = b.executed;
      }
