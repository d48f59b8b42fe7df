-- ===== src/Examples/Services.antt =====
-- Runs of the workflow service, and one catalog in the cache.
use enterprise_data_copilot.Prelude.{
  ℕ, ◌+◌, ◌≡◌, refl, ◌⊎◌, Text, [], ◌∷◌, codes, ltb, if◌then◌else◌, pair_eq,
}
use enterprise_data_copilot.Prelude.Dict.{Dict}
use enterprise_data_copilot.Prelude.Strings.{text_eq}
use enterprise_data_copilot.Prelude.Result.{Result, ok, err}
use enterprise_data_copilot.Metadata.Snapshot.{SchemaSnapshot}
use enterprise_data_copilot.Metadata.Cache.{get_or_load, invalidate}
use enterprise_data_copilot.Metadata.Expiry.{get_or_load-expiry}
use enterprise_data_copilot.Agent.State.{approved}
use enterprise_data_copilot.Agent.Steps.Record.{request_approval}
use enterprise_data_copilot.Agent.Graph.Machine.{Run, waiting}
use enterprise_data_copilot.Agent.Workflow.Runs.{StartRun, start_run, resume_run}
use enterprise_data_copilot.Agent.Workflow.Ownership.{
  IsAuthorized, resume_run-IsAuthorized, IsReplayed, IsStarted, start_run-IsStarted,
}
use enterprise_data_copilot.Examples.Workflow.{
  fresh, sample_actions, sample_observers, sample-Counts,
}
use enterprise_data_copilot.Examples.Policies.{catalog}

abbrev waiting_run : Dict Text (Run ℕ)
waiting_run = (codes "run", waiting request_approval fresh) ∷ []

resume_run-IsAuthorized_example :
    IsAuthorized sample_actions sample_observers 2 (codes "run") (codes "tenant") waiting_run [] (
      resume_run sample_actions sample_observers 2
        (codes "run")
        (codes "tenant")
        approved
        waiting_run
        [])
resume_run-IsAuthorized_example =
    resume_run-IsAuthorized sample_actions sample_observers 2 (codes "run") (codes "tenant")
      approved waiting_run []

abbrev request : StartRun
request = record {
  run_id = codes "other run";
  tenant_id = codes "tenant";
  user_id = codes "user";
  role = codes "ANALYST";
  data_source_id = codes "northwind";
  trace_id = codes "0123456789abcdef";
  question = codes " How many? ";
}

start_run-IsStarted_example :
    IsReplayed sample_actions sample_observers 2 request waiting_run []
      (start_run sample_actions sample_observers 2 request waiting_run [])
    ⊎ IsStarted sample_actions sample_observers 2 request waiting_run
        (start_run sample_actions sample_observers 2 request waiting_run [])
start_run-IsStarted_example =
    start_run-IsStarted sample_actions sample_observers 2 sample-Counts request waiting_run []

abbrev unavailable : Result Text SchemaSnapshot
unavailable = err (codes "DATA_SOURCE_UNAVAILABLE")

get_or_load-expiry_example :
    ((get_or_load 300 10
        (codes "source")
        (codes "northwind")
        unavailable
        (get_or_load {E = Text} 300 5 (codes "source") (codes "northwind") (ok catalog) []).1).0
      ≡ (if ltb 10 (5 + 300) then ok catalog else unavailable))
    × ((get_or_load 300 10 (codes "source") (codes "northwind") unavailable (
          invalidate
            (codes "source")
            (codes "northwind")
            (get_or_load {E = Text} 300 5
              (codes "source")
              (codes "northwind")
              (ok catalog)
              []).1)).0
        ≡ unavailable)
get_or_load-expiry_example =
    get_or_load-expiry Text 300 5 10 (codes "source") (codes "northwind") catalog unavailable []
      refl
