-- ===== src/Agent/Actions/Inspection.antt =====
-- What the real actions have checked of a query when the workflow executes it.
use enterprise_data_copilot.Prelude.{
  if◌then◌else◌, ℕ, ◌≤◌, ◌≡◌, refl, ap, subst, ◌∙◌, ◌⊎◌, Text, Bool, true, false, List, [], ◌∷◌,
  Option, none, some, arith, is_none_left,
}
use enterprise_data_copilot.Prelude.Unicode.{Unicode}
use enterprise_data_copilot.Prelude.Result.{Result, ok, err, >>=-eq-ok, ok-injective}
use enterprise_data_copilot.Codes.{Code}
use enterprise_data_copilot.QuerySafety.SqlGlot.{SqlGlot}
use enterprise_data_copilot.QuerySafety.Errors.{Raised, safety, unexpected}
use enterprise_data_copilot.QuerySafety.Policy.Model.{QueryPolicy, is_valid_policy}
use enterprise_data_copilot.QuerySafety.Guard.Inspect.{
  GuardedQuery, inspect, accept, validated, violation, guarded_query,
}
use enterprise_data_copilot.QuerySafety.Guard.Tables.{IsGuarded, inspect-IsGuarded}
use enterprise_data_copilot.QuerySafety.Result.{QueryCostEstimate}
use enterprise_data_copilot.Agent.State.{
  AgentState, Update, SqlRisk, safe, approval, get_or, attempts_of, apply_update,
}
use enterprise_data_copilot.Agent.Failures.{Failure}
use enterprise_data_copilot.Agent.Charting.{Cell}
use enterprise_data_copilot.Agent.Answering.{Values}
use enterprise_data_copilot.Agent.Steps.Record.{classify, execute_sql}
use enterprise_data_copilot.Agent.Steps.Timed.{Observers}
use enterprise_data_copilot.Agent.Graph.Machine.{at, Reach}
use enterprise_data_copilot.Agent.Graph.Approval.{IsCleared, Inspects, execution-IsCleared}
use enterprise_data_copilot.Agent.Actions.Backend.{Backend, required, validation_error, of_raised}
use enterprise_data_copilot.Agent.Actions.Schema.{revalidated}
use enterprise_data_copilot.Agent.Actions.Guarding.{
  full_confidence, controlled_references, risk_reasons, after_inspection, guard_sql, executed,
}
use enterprise_data_copilot.Agent.Actions.Guarding
use enterprise_data_copilot.Agent.Actions.Nodes.{northwind_actions}

validated-same : (q r : GuardedQuery) → validated q ≡ ok r → validated r ≡ ok r
unfolding validated
validated-same q r h = ground arith

passed-ok :
    {A : Type 0} (test : Bool) (a c : A) (failure : Failure)
    → (if test then ok a else err failure) ≡ ok c
    → (test ≡ true) × (a ≡ c)
passed-ok true a c failure h = (refl, ok-injective h)
passed-ok false a c failure h = cc

module _ {V : Type 0} (u : Unicode) (g : SqlGlot) (sha256_hex : Text → Text)
    (b : Backend V g.Expression) where
  -- Nothing about the query asks for an approval.
  pub record IsHarmless (confidence : Option ℕ) (policy : QueryPolicy) (controlled : List Text)
      (estimate : QueryCostEstimate) : Type 0 where
    pub affordable : estimate.total_cost ≤ policy.max_total_cost
    pub few_rows : estimate.plan_rows ≤ policy.max_plan_rows
    pub not_controlled : controlled ≡ []
    pub confident : b.minimum_confidence ≤ get_or full_confidence confidence

  -- The state keeps what the guard made of its own text under its own valid policy, the query was
  -- estimated and searched for controlled columns, and a query called safe is harmless.
  pub record IsInspected (s : AgentState V) : Type 0 where
    pub policy : QueryPolicy
    pub text : Text
    pub guarded : GuardedQuery
    pub controlled : List Text
    pub estimate : QueryCostEstimate
    pub has_policy : s.values.query_policy ≡ some policy
    pub valid : is_valid_policy u policy ≡ true
    pub has_text : s.values.sql_text ≡ some text
    pub has_query : s.values.guarded_query ≡ some guarded
    pub inspected : inspect u g sha256_hex text policy ≡ ok guarded
    pub searched : controlled_references u g sha256_hex b guarded.normalized_sql ≡ ok controlled
    pub estimated : b.estimate (attempts_of s) guarded ≡ ok estimate
    pub harmless :
        s.values.sql_risk ≡ some safe
        → IsHarmless s.values.selection_confidence policy controlled estimate

  required-ok : {A : Type 0} (o : Option A) (a : A) → required o ≡ ok a → o ≡ some a
  required-ok none a h = cc
  required-ok (some a') a h = ground arith

  revalidated-ok :
      (p q : QueryPolicy) → revalidated u p ≡ ok q → (p ≡ q) × (is_valid_policy u q ≡ true)
  revalidated-ok p q h =
      let (valid, same) = passed-ok (is_valid_policy u p) p q validation_error h in
      (same, subst (λ r. is_valid_policy u r ≡ true) same valid)

  of_raised-ok :
      {A : Type 0} (failure : Failure) (r : Result Raised A) (a : A)
      → of_raised failure r ≡ ok a
      → r ≡ ok a
  of_raised-ok failure (ok a') a h = ground arith
  of_raised-ok failure (err (safety e)) a h = cc
  of_raised-ok failure (err unexpected) a h = cc

  no_reasons :
      (s : AgentState V) (policy : QueryPolicy) (controlled : List Text)
      (estimate : QueryCostEstimate)
      → is_none_left (risk_reasons u g sha256_hex b s policy controlled estimate) ≡ true
      → IsHarmless s.values.selection_confidence policy controlled estimate
  unfolding risk_reasons
  no_reasons s policy controlled estimate h = record {
    affordable = ground arith;
    few_rows = ground arith;
    not_controlled = ground arith;
    confident = ground arith;
  }

  inspect-validated :
      (text : Text) (p : QueryPolicy) (q : GuardedQuery)
      → inspect u g sha256_hex text p ≡ ok q
      → validated q ≡ ok q
  unfolding inspect
  inspect-validated text p q h =
      let ((qualified, tables), _, k) = >>=-eq-ok (violation (accept u g text p)) _ h in
      validated-same (guarded_query u g sha256_hex (g.sql qualified) p tables) q k

  safe-clean :
      (reasons : List Code)
      → ◌≡◌ {A = Option SqlRisk}
          (some (if is_none_left reasons then safe else approval))
          (some safe)
      → is_none_left reasons ≡ true
  safe-clean [] h = refl
  safe-clean (r ∷ rs) h = cc

  after_inspection-IsInspected :
      (s : AgentState V) (policy : QueryPolicy) (text : Text) (m : Result Raised GuardedQuery)
      (w : Update V)
      → inspect u g sha256_hex text policy ≡ m
      → s.values.query_policy ≡ some policy
      → is_valid_policy u policy ≡ true
      → s.values.sql_text ≡ some text
      → after_inspection u g sha256_hex b s policy m ≡ ok w
      → ((apply_update s w).values.sql_risk ≡ some safe)
        ⊎ ((apply_update s w).values.sql_risk ≡ some approval)
      → IsInspected (apply_update s w)
  after_inspection-IsInspected s policy text (err (safety e)) w m p v t h risk = ground arith
  after_inspection-IsInspected s policy text (err unexpected) w m p v t h risk = cc
  after_inspection-IsInspected s policy text (ok guarded) w m p v t h risk =
      let (controlled, searched, h₁) =
        >>=-eq-ok (controlled_references u g sha256_hex b guarded.normalized_sql) _ h in
      let (estimate, estimated, h₂) =
        >>=-eq-ok (of_raised b.broken (b.estimate (attempts_of s) guarded)) _ h₁ in
      let reasons = risk_reasons u g sha256_hex b s policy controlled estimate in
      subst (λ w. IsInspected (apply_update s w)) (ok-injective h₂)
        (record {
          policy = policy;
          text = text;
          guarded = guarded;
          controlled = controlled;
          estimate = estimate;
          has_policy = p;
          valid = v;
          has_text = t;
          has_query = refl;
          inspected = m;
          searched = searched;
          estimated = of_raised-ok b.broken (b.estimate (attempts_of s) guarded) estimate estimated;
          harmless = λ risk. no_reasons s policy controlled estimate (safe-clean reasons risk);
        })

  pub guarded-IsInspected :
      (s : AgentState V) (w : Update V)
      → guard_sql u g sha256_hex b s ≡ ok w
      → ((apply_update s w).values.sql_risk ≡ some safe)
        ⊎ ((apply_update s w).values.sql_risk ≡ some approval)
      → IsInspected (apply_update s w)
  unfolding guard_sql
  guarded-IsInspected s w h risk =
      let (stored, has_policy, h₁) = >>=-eq-ok (required s.values.query_policy) _ h in
      let (policy, valid, h₂) = >>=-eq-ok (revalidated u stored) _ h₁ in
      let (text, has_text, h₃) = >>=-eq-ok (required s.values.sql_text) _ h₂ in
      let (same, is_valid) = revalidated-ok stored policy valid in
      after_inspection-IsInspected s policy text (inspect u g sha256_hex text policy) w refl
        (required-ok _ stored has_policy ∙ ap some same) is_valid (required-ok _ text has_text) h₃
        risk

  -- The only keys that a decision writes are the decision and the error code.
  pub northwind-Inspects :
      {D : Type 0} (values : Values V D) (cell : V → Cell)
      → Inspects (northwind_actions u g sha256_hex values cell b) IsInspected
  northwind-Inspects values cell = record {
    guarded = guarded-IsInspected;
    stable = λ s d e i. record {
      policy = i.policy;
      text = i.text;
      guarded = i.guarded;
      controlled = i.controlled;
      estimate = i.estimate;
      has_policy = i.has_policy;
      valid = i.valid;
      has_text = i.has_text;
      has_query = i.has_query;
      inspected = i.inspected;
      searched = i.searched;
      estimated = i.estimated;
      harmless = i.harmless;
    };
  }

  -- What the execution does in such a state.
  pub IsInspected-executes :
      (s : AgentState V) (i : IsInspected s)
      → Guarding.execute_sql u g sha256_hex b s
        ≡ executed u g sha256_hex b (b.execute (attempts_of s) i.guarded i.policy)
  unfolding Guarding.execute_sql
  IsInspected-executes s i =
      rw (
        i.has_query,
        inspect-validated i.text i.policy i.guarded i.inspected,
        i.has_policy,
        i.valid,
      )

  -- However a run of the real actions goes, it comes to the execution only in a state that was
  -- cleared and inspected; the text of the state is then one admitted statement over the tables of
  -- its policy, and the execution runs the bounded query that the guard made of it, under this
  -- policy, and nothing else.
  pub execution-IsInspected :
      {D : Type 0} (values : Values V D) (cell : V → Cell) (o : Observers V) (max_repairs : ℕ)
      (s t : AgentState V)
      → Reach
          (northwind_actions u g sha256_hex values cell b)
          o
          max_repairs
          (at classify s)
          (at execute_sql t)
      → IsCleared t
        × ((i : IsInspected t) × IsGuarded u g i.policy i.text i.guarded
            × (Guarding.execute_sql u g sha256_hex b t
                ≡ executed u g sha256_hex b (b.execute (attempts_of t) i.guarded i.policy)))
  execution-IsInspected values cell o max_repairs s t r =
      let (cleared, i) =
        execution-IsCleared IsInspected max_repairs (northwind_actions u g sha256_hex values cell b)
          o (northwind-Inspects values cell) s t r in
      (
        cleared,
        (
          i,
          inspect-IsGuarded u g sha256_hex i.text i.policy i.guarded i.inspected,
          IsInspected-executes t i,
        ),
      )
