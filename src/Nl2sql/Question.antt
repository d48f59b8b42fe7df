-- ===== src/Nl2sql/Question.antt =====
-- agent-service/app/nl2sql/question_guard.py. What the regular expressions match is a parameter.
use enterprise_data_copilot.Prelude.{
  ℕ, ltb-eq-false, ◌↔◌, ◌≡◌, ◌≤◌, subst, false, arith, Text, Bool, length, ltb, ◌||◌,
}
use enterprise_data_copilot.Prelude.Strings.{is_empty, normalize_space}
use enterprise_data_copilot.Prelude.Result.{
  Result, ok, ◌>>◌, raise_if, >>=-eq-ok, raise_if-eq-ok, ok-injective,
}
use enterprise_data_copilot.Codes.{
  empty_question, question_too_long, write_request_not_allowed, safety_override_not_allowed,
  secret_request_not_allowed, cross_tenant_request_not_allowed, sensitive_data_not_allowed,
  arbitrary_code_not_allowed,
}
use enterprise_data_copilot.Nl2sql.Errors.{Nl2sqlError, question_rejected}

-- Whether `search` finds the pattern: those of the class and the literal ones beside them.
pub record Patterns : Type 0 where
  pub write_sql : Text → Bool
  pub write_request : Text → Bool
  pub override : Text → Bool
  pub override_request : Text → Bool
  pub secrets : Text → Bool
  pub secret_request : Text → Bool
  pub other_tenant : Text → Bool
  pub sensitive_data : Text → Bool
  pub code : Text → Bool
  pub code_request : Text → Bool

unfoldable pub inspect_question : Patterns → Text → Result Nl2sqlError Text
inspect_question patterns question = do
  let normalized = normalize_space question
  raise_if (is_empty normalized) (question_rejected empty_question)
  raise_if (ltb 5000 (length normalized)) (question_rejected question_too_long)
  raise_if (patterns.write_sql normalized || patterns.write_request normalized)
      (question_rejected write_request_not_allowed)
  raise_if (patterns.override normalized || patterns.override_request normalized)
      (question_rejected safety_override_not_allowed)
  raise_if (patterns.secrets normalized || patterns.secret_request normalized)
      (question_rejected secret_request_not_allowed)
  raise_if (patterns.other_tenant normalized) (question_rejected cross_tenant_request_not_allowed)
  raise_if (patterns.sensitive_data normalized) (question_rejected sensitive_data_not_allowed)
  raise_if (patterns.code normalized || patterns.code_request normalized)
      (question_rejected arbitrary_code_not_allowed)
  ok normalized

-- A question that the guard accepts: not blank, short enough, and free of every pattern.
pub record IsClean (patterns : Patterns) (question : Text) : Type 0 where
  pub some_text : is_empty question ≡ false
  pub short : length question ≤ 5000
  pub no_write : (patterns.write_sql question ≡ false) × (patterns.write_request question ≡ false)
  pub no_override :
      (patterns.override question ≡ false) × (patterns.override_request question ≡ false)
  pub no_secret : (patterns.secrets question ≡ false) × (patterns.secret_request question ≡ false)
  pub own_tenant : patterns.other_tenant question ≡ false
  pub not_sensitive : patterns.sensitive_data question ≡ false
  pub no_code : (patterns.code question ≡ false) × (patterns.code_request question ≡ false)

le-ltb : (a b : ℕ) → b ≤ a → ltb a b ≡ false
le-ltb a b h = ground arith

neither : (a b : Bool) → (a || b) ≡ false → (a ≡ false) × (b ≡ false)
neither a b h = ground arith

-- The guard returns a text exactly when it is the question with its white space normalized, and
-- this is clean.
pub inspect_question-IsClean :
    (patterns : Patterns) (question safe : Text)
    → (inspect_question patterns question ≡ ok safe)
      ↔ ((normalize_space question ≡ safe) × IsClean patterns safe)
unfolding inspect_question
inspect_question-IsClean patterns question safe = (
  λ h.
      let q = normalize_space question in
      let (_, some_text, h₁) =
        >>=-eq-ok (raise_if (is_empty q) (question_rejected empty_question)) _ h in
      let (_, short, h₂) =
        >>=-eq-ok (raise_if (ltb 5000 (length q)) (question_rejected question_too_long)) _ h₁ in
      let (_, write, h₃) =
        >>=-eq-ok
          (raise_if (patterns.write_sql q || patterns.write_request q)
            (question_rejected write_request_not_allowed))
          _ h₂ in
      let (_, over, h₄) =
        >>=-eq-ok
          (raise_if (patterns.override q || patterns.override_request q)
            (question_rejected safety_override_not_allowed))
          _ h₃ in
      let (_, secret, h₅) =
        >>=-eq-ok
          (raise_if (patterns.secrets q || patterns.secret_request q)
            (question_rejected secret_request_not_allowed))
          _ h₄ in
      let (_, tenant, h₆) =
        >>=-eq-ok
          (raise_if (patterns.other_tenant q) (question_rejected cross_tenant_request_not_allowed))
          _ h₅ in
      let (_, sensitive, h₇) =
        >>=-eq-ok
          (raise_if (patterns.sensitive_data q) (question_rejected sensitive_data_not_allowed)) _
          h₆ in
      let (_, coded, h₈) =
        >>=-eq-ok
          (raise_if (patterns.code q || patterns.code_request q)
            (question_rejected arbitrary_code_not_allowed))
          _ h₇ in
      (
        ok-injective h₈,
        subst (IsClean patterns) (ok-injective h₈) (record {
          some_text = raise_if-eq-ok _ (question_rejected empty_question) some_text;
          short =
              ltb-eq-false 5000 (length q)
                (raise_if-eq-ok _ (question_rejected question_too_long) short);
          no_write =
              neither _ _ (raise_if-eq-ok _ (question_rejected write_request_not_allowed) write);
          no_override =
              neither _ _ (raise_if-eq-ok _ (question_rejected safety_override_not_allowed) over);
          no_secret =
              neither _ _ (raise_if-eq-ok _ (question_rejected secret_request_not_allowed) secret);
          own_tenant = raise_if-eq-ok _ (question_rejected cross_tenant_request_not_allowed) tenant;
          not_sensitive = raise_if-eq-ok _ (question_rejected sensitive_data_not_allowed) sensitive;
          no_code =
              neither _ _ (raise_if-eq-ok _ (question_rejected arbitrary_code_not_allowed) coded);
        }),
      ),
  λ h.
      let c = h.1 in
      rw (
        h.0,
        c.some_text,
        le-ltb 5000 (length safe) c.short,
        c.no_write.0,
        c.no_write.1,
        c.no_override.0,
        c.no_override.1,
        c.no_secret.0,
        c.no_secret.1,
        c.own_tenant,
        c.not_sensitive,
        c.no_code.0,
        c.no_code.1,
      ),
)
