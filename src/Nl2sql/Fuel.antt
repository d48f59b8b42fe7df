-- ===== src/Nl2sql/Fuel.antt =====
-- The repairs end within the fuel of the loop.
use enterprise_data_copilot.Prelude.{
  leb-eq-false, ℕ, zero, suc, ◌+◌, ◌≤◌, ◌<◌, ◌≡◌, ◌≢◌, refl, Text, Bool, true, false, List, leb,
  arith, if◌then◌else◌,
}
use enterprise_data_copilot.Prelude.Strings.{text_eq}
use enterprise_data_copilot.Prelude.Result.{Result, ok, err, ◌>>=◌}
use enterprise_data_copilot.Codes.{Code}
use enterprise_data_copilot.Llm.Client.Generate.{LlmTokenUsage, GenerateError}
use enterprise_data_copilot.Metadata.Snapshot.{SchemaSnapshot}
use enterprise_data_copilot.QuerySafety.Errors.{
  policy_violation, timeout, permission_denied, execution_failed, result_limit, audit_failed,
  approval_required, Raised, safety, unexpected,
}
use enterprise_data_copilot.QuerySafety.Policy.Model.{QueryPolicy, restrict_to_tables}
use enterprise_data_copilot.QuerySafety.Result.{SafeQueryOutcome}
use enterprise_data_copilot.Nl2sql.Errors.{Nl2sqlError, repair_exhausted}
use enterprise_data_copilot.Nl2sql.Question.{inspect_question}
use enterprise_data_copilot.Nl2sql.Models.{Nl2sqlResult}
use enterprise_data_copilot.Nl2sql.Tables.{catalog_names}
use enterprise_data_copilot.Nl2sql.Answer.{
  Messages, selection_messages, generation_messages, Assistants, AnswerError, nl2sql, llm,
  value_error, unfinished, map_err, add_usage, usable_tables, validate_selection,
  validate_draft_tables, after_execution, draft_from, answer,
}

module _ {V : Type 0} (env : Assistants V) (max_repairs : ℕ) where
  err-injective :
      {A : Type 0} {d e : AnswerError} → ◌≡◌ {A = Result AnswerError A} (err d) (err e) → d ≡ e
  err-injective h = cc

  llm_finishes : {e : GenerateError} → llm e ≢ unfinished
  llm_finishes h = cc

  nl2sql_finishes : {e : Nl2sqlError} → nl2sql e ≢ unfinished
  nl2sql_finishes h = cc

  -- An error that is passed on is never the end of the fuel.
  passes_on :
      {E A B : Type 0} (g : E → AnswerError) (m : Result E A) (f : A → Result AnswerError B)
      → ((e : E) → g e ≢ unfinished)
      → ((a : A) → f a ≢ err unfinished)
      → (map_err g m >>= f) ≢ err unfinished
  passes_on g (ok a) f h k = k a
  passes_on g (err e) f h k = λ same. h e (err-injective same)

  branch-finishes :
      (b : Bool) (code : Code) (x : Result AnswerError (Nl2sqlResult V))
      → (b ≡ false → x ≢ err unfinished)
      → (if b then err (nl2sql (repair_exhausted code)) else x) ≢ err unfinished
  branch-finishes true code x h = λ same. nl2sql_finishes (err-injective same)
  branch-finishes false code x h = h refl

  spent-finishes :
      (first : ℕ) (code : Code) (x : Result AnswerError (Nl2sqlResult V))
      → (first < max_repairs → x ≢ err unfinished)
      → (if leb max_repairs first then err (nl2sql (repair_exhausted code)) else x) ≢ err unfinished
  spent-finishes first code x h =
      branch-finishes (leb max_repairs first) code x (λ e. h (leb-eq-false max_repairs first e))

  after_execution-finishes :
      (first : ℕ) (again : Code → Result AnswerError (Nl2sqlResult V))
      (result : SafeQueryOutcome V → Nl2sqlResult V) (outcome : Result Raised (SafeQueryOutcome V))
      → (first < max_repairs → (c : Code) → again c ≢ err unfinished)
      → after_execution env max_repairs first again result outcome ≢ err unfinished
  after_execution-finishes first again result (ok outcome) h = λ e. cc
  after_execution-finishes first again result (err unexpected) h = λ e. cc
  after_execution-finishes first again result (err (safety (approval_required reason cost rows)))
        h =
      λ e. cc
  after_execution-finishes first again result (err (safety (policy_violation c))) h =
      spent-finishes first c (again c) (λ more. h more c)
  after_execution-finishes first again result (err (safety timeout)) h =
      spent-finishes first _ _ (λ more. h more _)
  after_execution-finishes first again result (err (safety permission_denied)) h =
      spent-finishes first _ _ (λ more. h more _)
  after_execution-finishes first again result (err (safety execution_failed)) h =
      spent-finishes first _ _ (λ more. h more _)
  after_execution-finishes first again result (err (safety result_limit)) h =
      spent-finishes first _ _ (λ more. h more _)
  after_execution-finishes first again result (err (safety audit_failed)) h =
      spent-finishes first _ _ (λ more. h more _)

  -- The fuel is enough: the loop ends after at most `max_repairs + 1` drafts.
  draft_from-finishes :
      (tables : List Text) (schema : Text) (policy : QueryPolicy) (base : Messages) (fuel first : ℕ)
      (messages : Messages) (calls : ℕ) (usage : LlmTokenUsage)
      → max_repairs < fuel + first
      → first ≤ max_repairs
      → draft_from env max_repairs tables schema policy base fuel first messages calls usage
        ≢ err unfinished
  unfolding draft_from
  draft_from-finishes tables schema policy base zero first messages calls usage h low =
      absurd (omega arith)
  draft_from-finishes tables schema policy base (suc fuel) first messages calls usage h low =
      passes_on llm (env.draft first messages) _ (λ e. llm_finishes)
        (λ draft.
          passes_on nl2sql (validate_draft_tables draft.output tables schema) _
            (λ e. nl2sql_finishes)
            (λ valid.
              after_execution-finishes first _ _
                (env.execute_generated first draft.output.sql policy)
                (λ more code.
                  draft_from-finishes tables schema policy base fuel (first + 1) _
                    (calls + draft.attempts) (add_usage usage draft.usage) (omega arith)
                    (omega arith))))

  -- Whatever is answered, `answer` returns or raises within its fuel, `max_repairs + 1` drafts.
  pub answer-finishes :
      (max_selected : ℕ) (question : Text) (snapshot : SchemaSnapshot) (policy : QueryPolicy)
      → answer env max_repairs max_selected question snapshot policy ≢ err unfinished
  unfolding answer
  answer-finishes max_selected question snapshot policy =
      passes_on nl2sql (inspect_question env.patterns question) _ (λ e. nl2sql_finishes)
        (λ safe.
          passes_on nl2sql (catalog_names policy.allowed_schema (usable_tables snapshot policy)) _
            (λ e. nl2sql_finishes)
            (λ names.
              passes_on llm (env.select (selection_messages safe snapshot) names) _
                (λ e. llm_finishes)
                (λ selection.
                  passes_on nl2sql
                    (validate_selection max_selected selection.output snapshot policy) _
                    (λ e. nl2sql_finishes)
                    (λ tables.
                      passes_on (λ e. value_error) (restrict_to_tables policy tables) _ (λ e h. cc)
                        (λ restriction.
                          draft_from-finishes tables policy.allowed_schema restriction
                            (generation_messages safe snapshot tables restriction) (max_repairs + 1)
                            0 _ selection.attempts selection.usage (omega arith) (omega arith))))))
