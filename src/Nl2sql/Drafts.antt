-- ===== src/Nl2sql/Drafts.antt =====
-- The loop of drafts and repairs.
use enterprise_data_copilot.Prelude.{
  is_subset, ap, ℕ, zero, suc, ◌+◌, ◌≤◌, ◌<◌, ◌≡◌, refl, subst, Text, Bool, true, false, not, List,
  All, all→All, leb, contains, arith, if◌then◌else◌,
}
use native.Mathlib.Decide.{dec_lt}
use enterprise_data_copilot.Prelude.Strings.{text_eq}
use enterprise_data_copilot.Prelude.Result.{
  Result, ok, err, ◌>>◌, raise_if, >>=-eq-ok, ok-injective,
}
use enterprise_data_copilot.Codes.{Code}
use enterprise_data_copilot.Llm.Client.Generate.{LlmTokenUsage, StructuredLlmResult}
use enterprise_data_copilot.QuerySafety.Errors.{
  QuerySafetyError, policy_violation, timeout, permission_denied, execution_failed, result_limit,
  audit_failed, approval_required, Raised, safety, unexpected,
}
use enterprise_data_copilot.QuerySafety.Policy.Model.{QueryPolicy}
use enterprise_data_copilot.QuerySafety.Result.{SafeQueryOutcome}
use enterprise_data_copilot.Nl2sql.Errors.{schema_selection, repair_exhausted}
use enterprise_data_copilot.Nl2sql.Models.{Nl2sqlDraft, Nl2sqlResult}
use enterprise_data_copilot.Nl2sql.Tables.{normalize_reported_tables}
use enterprise_data_copilot.Nl2sql.Answer.{
  Messages, Assistants, AnswerError, nl2sql, llm, map_err, add_usage, validate_draft_tables,
  after_execution, result_of, draft_from,
}

-- An error after which another draft is asked for: any of the hierarchy but the need of an approval.
abbrev pub IsRepairable : QuerySafetyError → Type 0
IsRepairable (approval_required reason cost rows) = ⊥
IsRepairable error = Unit

module _ {V : Type 0} (env : Assistants V) (max_repairs : ℕ) where
  -- The SQL text of the draft with this number, whose reported tables are selected ones.
  pub record IsDrafted (schema : Text) (tables : List Text) (n : ℕ) (sql : Text) : Type 0 where
    pub messages : Messages
    pub draft : StructuredLlmResult Nl2sqlDraft
    pub drafted : env.draft n messages ≡ ok draft
    pub its_sql : draft.output.sql ≡ sql
    pub reported : List Text
    pub normalized : normalize_reported_tables schema draft.output.tables_used ≡ ok reported
    pub selected : All (λ t. contains tables t ≡ true) reported

  abbrev pub Refused : Text → List Text → QueryPolicy → ℕ → Type 0
  Refused schema tables policy n =
      (sql : Text) × (error : QuerySafetyError) × IsDrafted schema tables n sql
      × (env.execute_generated n sql policy ≡ err (safety error))
      × IsRepairable error

  -- The loop, from the given number of repairs on: the query of the last draft was executed, and
  -- every draft before it was refused by a repairable error.
  pub record IsRepaired (schema : Text) (policy : QueryPolicy) (tables : List Text) (first : ℕ)
      (r : Nl2sqlResult V) : Type 0 where
    pub selected : r.selected_tables ≡ tables
    pub after_first : first ≤ r.repair_count
    pub allowed : r.repair_count ≤ max_repairs
    pub refused : (n : ℕ) → first ≤ n → n < r.repair_count → Refused schema tables policy n
    pub drafted : IsDrafted schema tables r.repair_count r.sql
    pub executed : env.execute_generated r.repair_count r.sql policy ≡ ok r.outcome

  not_spent :
      {A : Type 0} (first : ℕ) (e : AnswerError) (x : Result AnswerError A) (a : A)
      → (if leb max_repairs first then err e else x) ≡ ok a
      → (first < max_repairs) × (x ≡ ok a)
  not_spent first e x a h = ground arith

  pub map_err-ok :
      {E F A : Type 0} (f : E → F) (m : Result E A) (a : A) → map_err f m ≡ ok a → m ≡ ok a
  map_err-ok f (ok b) a h = ap ok (ok-injective h)
  map_err-ok f (err e) a h = cc

  pub passed_check :
      {E A : Type 0} (b : Bool) (e : E) (x y : A)
      → (raise_if b e >> ok x) ≡ ok y
      → (b ≡ false) × (x ≡ y)
  passed_check true e x y h = cc
  passed_check false e x y h = (refl, ok-injective h)

  checked : (b : Bool) → raise_if (not b) schema_selection ≡ ok tt → b ≡ true
  checked true h = refl
  checked false h = cc

  validate_draft_tables-ok :
      (draft : Nl2sqlDraft) (tables : List Text) (schema : Text)
      → validate_draft_tables draft tables schema ≡ ok tt
      → (reported : List Text) × (normalize_reported_tables schema draft.tables_used ≡ ok reported)
        × All (λ t. contains tables t ≡ true) reported
  unfolding validate_draft_tables
  validate_draft_tables-ok draft tables schema h =
      let (reported, normalized, h₁) =
        >>=-eq-ok (normalize_reported_tables schema draft.tables_used) _ h in
      let subset : is_subset reported tables ≡ true = checked _ h₁ in
      (reported, normalized, all→All (contains tables) reported subset)

  module _ (tables : List Text) (schema : Text) (policy : QueryPolicy) (base : Messages) where
    earlier-IsRepaired :
        (first : ℕ) (r : Nl2sqlResult V)
        → Refused schema tables policy first
        → IsRepaired schema policy tables (first + 1) r
        → IsRepaired schema policy tables first r
    earlier-IsRepaired first r refusal b = record {
      selected = b.selected;
      after_first = omega (arith, b.after_first);
      allowed = b.allowed;
      drafted = b.drafted;
      refused = λ n low high. elim (dec_lt first n) [
        | yes later ↦ b.refused n (omega arith) high
        | no h ↦ subst (Refused schema tables policy) (omega arith) refusal
      ];
      executed = b.executed;
    }

    repaired :
        (first : ℕ) (code : Code) (r : Nl2sqlResult V)
        (again : Code → Result AnswerError (Nl2sqlResult V))
        → first ≤ max_repairs
        → Refused schema tables policy first
        → (if leb max_repairs first then err (nl2sql (repair_exhausted code)) else again code)
          ≡ ok r
        → (first < max_repairs
            → (c : Code) → again c ≡ ok r
            → IsRepaired schema policy tables (first + 1) r)
        → IsRepaired schema policy tables first r
    repaired first code r again low refusal h ih =
        let (more, asked) = not_spent first (nl2sql (repair_exhausted code)) (again code) r h in
        earlier-IsRepaired first r refusal (ih more code asked)

    after_execution-IsRepaired :
        (first : ℕ) (again : Code → Result AnswerError (Nl2sqlResult V))
        (draft : StructuredLlmResult Nl2sqlDraft) (calls : ℕ) (usage : LlmTokenUsage)
        (outcome : Result Raised (SafeQueryOutcome V)) (r : Nl2sqlResult V)
        → IsDrafted schema tables first draft.output.sql
        → env.execute_generated first draft.output.sql policy ≡ outcome
        → first ≤ max_repairs
        → after_execution env max_repairs first again
            (result_of env max_repairs tables schema policy base draft first calls usage)
            outcome
          ≡ ok r
        → (first < max_repairs
            → (c : Code) → again c ≡ ok r
            → IsRepaired schema policy tables (first + 1) r)
        → IsRepaired schema policy tables first r
    after_execution-IsRepaired first again draft calls usage (ok outcome) r made e low h ih =
        subst (IsRepaired schema policy tables first) (ok-injective h) (record {
          selected = refl;
          after_first = omega arith;
          allowed = low;
          refused = λ n low high. absurd (omega arith);
          drafted = made;
          executed = e;
        })
    after_execution-IsRepaired first again draft calls usage (err unexpected) r made e low h ih = cc
    after_execution-IsRepaired first again draft calls usage
          (err (safety (approval_required reason cost rows))) r made e low h ih =
        cc
    after_execution-IsRepaired first again draft calls usage (err (safety (policy_violation c))) r
          made e low h ih =
        repaired first c r again low (draft.output.sql, policy_violation c, made, e, tt) h ih
    after_execution-IsRepaired first again draft calls usage (err (safety timeout)) r made e low h
          ih =
        repaired first _ r again low (draft.output.sql, timeout, made, e, tt) h ih
    after_execution-IsRepaired first again draft calls usage (err (safety permission_denied)) r made
          e low h ih =
        repaired first _ r again low (draft.output.sql, permission_denied, made, e, tt) h ih
    after_execution-IsRepaired first again draft calls usage (err (safety execution_failed)) r made
          e low h ih =
        repaired first _ r again low (draft.output.sql, execution_failed, made, e, tt) h ih
    after_execution-IsRepaired first again draft calls usage (err (safety result_limit)) r made e
          low h ih =
        repaired first _ r again low (draft.output.sql, result_limit, made, e, tt) h ih
    after_execution-IsRepaired first again draft calls usage (err (safety audit_failed)) r made e
          low h ih =
        repaired first _ r again low (draft.output.sql, audit_failed, made, e, tt) h ih

    pub draft_from-IsRepaired :
        (fuel first : ℕ) (messages : Messages) (calls : ℕ) (usage : LlmTokenUsage)
        (r : Nl2sqlResult V)
        → first ≤ max_repairs
        → draft_from env max_repairs tables schema policy base fuel first messages calls usage
          ≡ ok r
        → IsRepaired schema policy tables first r
    unfolding draft_from
    draft_from-IsRepaired zero first messages calls usage r low h = cc
    draft_from-IsRepaired (suc fuel) first messages calls usage r low h =
        let (draft, drafted, h₁) = >>=-eq-ok (map_err llm (env.draft first messages)) _ h in
        let (_, valid, h₂) =
          >>=-eq-ok (map_err nl2sql (validate_draft_tables draft.output tables schema)) _ h₁ in
        let (reported, normalized, selected) =
          validate_draft_tables-ok draft.output tables schema (map_err-ok nl2sql _ _ valid) in
        after_execution-IsRepaired first _ draft (calls + draft.attempts)
          (add_usage usage draft.usage) _ r
          (record {
            messages = messages;
            draft = draft;
            drafted = map_err-ok llm _ draft drafted;
            its_sql = refl;
            reported = reported;
            normalized = normalized;
            selected = selected;
          })
          refl low h₂
          (λ more c again.
            draft_from-IsRepaired fuel (first + 1) _ (calls + draft.attempts)
              (add_usage usage draft.usage) r (omega arith) again)
