-- ===== src/Examples/Workflow.antt =====
-- Actions that draft one query, whose guard asks for an approval.
use enterprise_data_copilot.Prelude.{ℕ, ◌+◌, ◌≡◌, refl, subst, [], ◌∷◌, none, some, codes}
use enterprise_data_copilot.Prelude.Result.{ok, ok-injective}
use enterprise_data_copilot.Agent.State.{
  AgentState, Update, no_update, sql, safe, approval, attempts_of, apply_update,
}
use enterprise_data_copilot.Agent.Steps.Timed.{Observers}
use enterprise_data_copilot.Agent.Graph.Nodes.{AgentActions}
use enterprise_data_copilot.Agent.Graph.Approval.{Inspects}
use enterprise_data_copilot.Agent.Graph.Attempts.{Counts}
use enterprise_data_copilot.Examples.Dialect.{same_text, orders, orders_query}

abbrev pub fresh : AgentState ℕ
fresh = record {
  identity = record {
    run_id = codes "run";
    tenant_id = codes "tenant";
    user_id = codes "user";
    role = codes "analyst";
    data_source_id = codes "northwind";
    trace_id = codes "0123456789abcdef";
    question = codes "How many orders are there?";
  };
  values = no_update;
}

abbrev pub sample_actions : AgentActions ℕ
sample_actions = record {
  classify = λ s. ok (record no_update { intent = some sql; sql_risk = some safe });
  retrieve_metrics = λ s. ok (record no_update { metric_context = some [] });
  select_schema = λ s. ok (record no_update { candidate_tables = some (orders ∷ []) });
  generate_sql =
      λ s. ok (record no_update { sql_text = some orders; attempts = some (attempts_of s + 1) });
  guard_sql =
      λ s. ok (record no_update { guarded_query = some orders_query; sql_risk = some approval });
  execute_sql = λ s. ok (record no_update { rows = some []; error_code = some none });
  verify = λ s. ok no_update;
  compose = λ s. ok (record no_update { answer = some (codes "None.") });
}

abbrev pub sample_observers : Observers ℕ
sample_observers = record {
  record_step = λ log r. none;
  ensure_pending = λ log s. none;
  duration_ms = λ log. 1;
  sha256_hex = same_text;
}

abbrev pub HasOrdersQuery : AgentState ℕ → Type 0
HasOrdersQuery s = s.values.guarded_query ≡ some orders_query

pub sample-Counts : Counts sample_actions
sample-Counts = record {
  classify = λ s u h. subst (λ (v : Update ℕ). v.attempts ≡ none) (ok-injective h) refl;
  retrieve_metrics = λ s u h. subst (λ (v : Update ℕ). v.attempts ≡ none) (ok-injective h) refl;
  select_schema = λ s u h. subst (λ (v : Update ℕ). v.attempts ≡ none) (ok-injective h) refl;
  generate_sql = λ s u h.
      subst (λ (v : Update ℕ). v.attempts ≡ some (attempts_of s + 1)) (ok-injective h) refl;
  guard_sql = λ s u h. subst (λ (v : Update ℕ). v.attempts ≡ none) (ok-injective h) refl;
  execute_sql = λ s u h. subst (λ (v : Update ℕ). v.attempts ≡ none) (ok-injective h) refl;
  verify = λ s u h. subst (λ (v : Update ℕ). v.attempts ≡ none) (ok-injective h) refl;
  compose = λ s u h. subst (λ (v : Update ℕ). v.attempts ≡ none) (ok-injective h) refl;
}

pub sample-Inspects : Inspects sample_actions HasOrdersQuery
sample-Inspects = record {
  guarded = λ s u h risk. subst (λ v. HasOrdersQuery (apply_update s v)) (ok-injective h) refl;
  stable = λ s d e h. h;
}
