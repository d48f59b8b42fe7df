-- ===== src/Agent/Actions/Counter.antt =====
-- The counter of drafts, as the real actions keep it.
use enterprise_data_copilot.Prelude.{Text, arith}
use enterprise_data_copilot.Prelude.Unicode.{Unicode}
use enterprise_data_copilot.QuerySafety.SqlGlot.{SqlGlot}
use enterprise_data_copilot.Agent.Charting.{Cell}
use enterprise_data_copilot.Agent.Answering.{Values}
use enterprise_data_copilot.Agent.Graph.Attempts.{Counts}
use enterprise_data_copilot.Agent.Actions.Backend.{Backend}
use enterprise_data_copilot.Agent.Actions.Schema.{select_schema, generate_sql}
use enterprise_data_copilot.Agent.Actions.Guarding.{guard_sql, execute_sql}
use enterprise_data_copilot.Agent.Actions.Nodes.{
  classify, retrieve_metrics, verify, compose, northwind_actions,
}

module _ {V D : Type 0} (u : Unicode) (g : SqlGlot) (sha256_hex : Text → Text) (values : Values V D)
    (cell : V → Cell) (b : Backend V g.Expression) where
  -- Every action leaves the counter alone, but for `generate_sql`, which adds one to it.
  pub northwind-Counts : Counts (northwind_actions u g sha256_hex values cell b)
  unfolding classify retrieve_metrics select_schema generate_sql guard_sql execute_sql verify
      compose
  northwind-Counts = record {
    classify = λ s w h. ground arith;
    retrieve_metrics = λ s w h. ground arith;
    select_schema = λ s w h. ground arith;
    generate_sql = λ s w h. ground arith;
    guard_sql = λ s w h. ground arith;
    execute_sql = λ s w h. ground arith;
    verify = λ s w h. ground arith;
    compose = λ s w h. ground arith;
  }
