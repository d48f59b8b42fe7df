-- ===== src/Agent/Workflow/Ownership.antt =====
-- Who may change which run.
use enterprise_data_copilot.Prelude.{
  ℕ, ◌≡◌, ◌≢◌, refl, ◌∙◌, ◌⊎◌, inl, inr, Text, Bool, true, false, List, Option, none, some,
  if◌then◌else◌, ◌==◌, ==→≡, ==_refl, Bool-cases, &&-true, arith,
}
use enterprise_data_copilot.Prelude.Strings.{text_eq}
use enterprise_data_copilot.Prelude.Dict.{Dict, lookup, insert, lookup-insert}
use enterprise_data_copilot.Prelude.Result.{ok, err}
use enterprise_data_copilot.Agent.State.{AgentState, ApprovalDecision}
use enterprise_data_copilot.Agent.Steps.Record.{Node, classify, AgentStepRecord}
use enterprise_data_copilot.Agent.Steps.Timed.{Observers}
use enterprise_data_copilot.Agent.Graph.Nodes.{AgentActions}
use enterprise_data_copilot.Agent.Graph.Machine.{Run, at, ended, waiting, crashed, invoke}
use enterprise_data_copilot.Agent.Graph.Attempts.{Counts}
use enterprise_data_copilot.Agent.Graph.Termination.{IsStopped, start-stops}
use enterprise_data_copilot.Agent.Workflow.Runs.{
  StartRun, conflict, identity_mismatch, initial_state, snapshot_result, is_same_request,
  state_of_run, Served, enough, started, start_known, start_run, continued, is_own_run,
  resume_waiting, resume_run,
}

module _ {V : Type 0} where
  -- The run waits for an approval and belongs to the tenant.
  pub record IsOwned (run_id tenant_id : Text) (runs : Dict Text (Run V)) : Type 0 where
    pub node : Node
    pub state : AgentState V
    pub waits : lookup run_id runs ≡ some (waiting node state)
    pub same_run : state.identity.run_id ≡ run_id
    pub same_tenant : state.identity.tenant_id ≡ tenant_id

  -- Nothing happened but a refusal.
  pub record IsRefused (runs : Dict Text (Run V)) (log : List AgentStepRecord) (served : Served V)
      : Type 0 where
    pub refused : (served.0 ≡ err conflict) ⊎ (served.0 ≡ err identity_mismatch)
    pub same_runs : served.1 ≡ runs
    pub same_log : served.2 ≡ log

  -- Other runs are as they were.
  abbrev pub KeepsOthers : Text → Dict Text (Run V) → Dict Text (Run V) → Type 0
  KeepsOthers run_id runs runs' = (j : Text) → j ≢ run_id → lookup j runs' ≡ lookup j runs

  insert-KeepsOthers :
      (run_id : Text) (r : Run V) (runs : Dict Text (Run V))
      → KeepsOthers run_id runs (insert run_id r runs)
  insert-KeepsOthers run_id r runs j other =
      ground (arith, lookup-insert run_id j r runs, text_eq.beq_iff run_id j)

  lookup-inserted :
      (run_id : Text) (r : Run V) (runs : Dict Text (Run V))
      → lookup run_id (insert run_id r runs) ≡ some r
  lookup-inserted run_id r runs = lookup-insert run_id run_id r runs ∙ rw (==_refl run_id)

  module _ (actions : AgentActions V) (o : Observers V) (max_repairs : ℕ) where
    -- A resume: a refusal that changes nothing, or the run was owned and no other run changed.
    abbrev pub IsAuthorized :
        Text → Text → Dict Text (Run V) → List AgentStepRecord → Served V → Type 0
    IsAuthorized run_id tenant_id runs log served =
        IsRefused runs log served
        ⊎ (IsOwned run_id tenant_id runs × KeepsOthers run_id runs served.1)

    owned_branch :
        (run_id tenant_id : Text) (runs : Dict Text (Run V)) (log : List AgentStepRecord) (n : Node)
        (s : AgentState V) (next : Run V × List AgentStepRecord) (b : Bool)
        → is_own_run actions o max_repairs run_id tenant_id s ≡ b
        → lookup run_id runs ≡ some (waiting n s)
        → IsAuthorized run_id tenant_id runs log (
            if b
            then continued actions o max_repairs run_id runs next
            else (err identity_mismatch, runs, log))
    owned_branch run_id tenant_id runs log n s next false e h =
        inl (record { refused = inr refl; same_runs = refl; same_log = refl })
    owned_branch run_id tenant_id runs log n s next true e h =
        let (run, tenant) = &&-true (s.identity.run_id == run_id) _ e in
        inr (
          record {
            node = n;
            state = s;
            waits = h;
            same_run = ==→≡ s.identity.run_id run_id run;
            same_tenant = ==→≡ s.identity.tenant_id tenant_id tenant;
          },
          insert-KeepsOthers run_id next.0 runs,
        )

    resume_waiting-IsAuthorized :
        (run_id tenant_id : Text) (verdict : ApprovalDecision) (runs : Dict Text (Run V))
        (log : List AgentStepRecord) (found : Option (Run V))
        → lookup run_id runs ≡ found
        → IsAuthorized run_id tenant_id runs log
            (resume_waiting actions o max_repairs run_id tenant_id verdict runs log found)
    resume_waiting-IsAuthorized run_id tenant_id verdict runs log none h =
        inl (record { refused = inl refl; same_runs = refl; same_log = refl })
    resume_waiting-IsAuthorized run_id tenant_id verdict runs log (some (at n s)) h =
        inl (record { refused = inl refl; same_runs = refl; same_log = refl })
    resume_waiting-IsAuthorized run_id tenant_id verdict runs log (some (ended s)) h =
        inl (record { refused = inl refl; same_runs = refl; same_log = refl })
    resume_waiting-IsAuthorized run_id tenant_id verdict runs log (some (crashed n s f)) h =
        inl (record { refused = inl refl; same_runs = refl; same_log = refl })
    resume_waiting-IsAuthorized run_id tenant_id verdict runs log (some (waiting n s)) h =
        owned_branch run_id tenant_id runs log n s _ _ refl h

    -- A resume of a run that does not wait, or that belongs to another tenant, changes nothing; any
    -- other resume changes that run alone.
    pub resume_run-IsAuthorized :
        (run_id tenant_id : Text) (verdict : ApprovalDecision) (runs : Dict Text (Run V))
        (log : List AgentStepRecord)
        → IsAuthorized run_id tenant_id runs log
            (resume_run actions o max_repairs run_id tenant_id verdict runs log)
    unfolding resume_run
    resume_run-IsAuthorized run_id tenant_id verdict runs log =
        resume_waiting-IsAuthorized run_id tenant_id verdict runs log (lookup run_id runs) refl

    -- A start of a run id that is already known: the runs and the records stay, and the answer is
    -- the snapshot of the known run, or a conflict for another request.
    pub record IsReplayed (request : StartRun) (runs : Dict Text (Run V))
        (log : List AgentStepRecord) (served : Served V) : Type 0 where
      pub known : Run V
      pub stored : lookup request.run_id runs ≡ some known
      pub same_runs : served.1 ≡ runs
      pub same_log : served.2 ≡ log
      pub answered :
          ((is_same_request (state_of_run known).identity request ≡ true)
            × (served.0 ≡ ok (snapshot_result request.run_id known)))
          ⊎ ((is_same_request (state_of_run known).identity request ≡ false)
              × (served.0 ≡ err conflict))

    -- A start of a new run id: the run is stored under it, has stopped, and is answered by its
    -- snapshot; no other run changed.
    pub record IsStarted (request : StartRun) (runs : Dict Text (Run V)) (served : Served V)
        : Type 0 where
      pub run : Run V
      pub fresh : lookup request.run_id runs ≡ none
      pub stored : lookup request.run_id served.1 ≡ some run
      pub stopped : IsStopped run
      pub answered : served.0 ≡ ok (snapshot_result request.run_id run)
      pub others : KeepsOthers request.run_id runs served.1

    known-IsReplayed :
        (request : StartRun) (runs : Dict Text (Run V)) (log : List AgentStepRecord) (r : Run V)
        → lookup request.run_id runs ≡ some r
        → IsReplayed request runs log (start_known actions o max_repairs request runs log r)
    known-IsReplayed request runs log r h = record {
      known = r;
      stored = h;
      same_runs = refl;
      same_log = refl;
      answered = elim (Bool-cases (is_same_request (state_of_run r).identity request)) [
        | inl e ↦ inl (e, rw e)
        | inr e ↦ inr (e, rw e)
      ];
    }

    start_found :
        (request : StartRun) (runs : Dict Text (Run V)) (log : List AgentStepRecord)
        (laws : Counts actions) (found : Option (Run V))
        → lookup request.run_id runs ≡ found
        → let served : Served V = elim found [
          | some r ↦ start_known actions o max_repairs request runs log r
          | none ↦ started actions o max_repairs request.run_id runs (
              invoke actions o max_repairs
                (enough actions o max_repairs)
                (at classify (initial_state request))
                log)
        ] in
          IsReplayed request runs log served ⊎ IsStarted request runs served
    unfolding initial_state
    start_found request runs log laws (some r) h = inl (known-IsReplayed request runs log r h)
    start_found request runs log laws none h = inr (record {
      run = _;
      fresh = h;
      stored = lookup-inserted request.run_id _ runs;
      stopped =
          start-stops max_repairs actions o laws (initial_state request) log
            (enough actions o max_repairs) refl (omega arith);
      answered = refl;
      others = insert-KeepsOthers request.run_id _ runs;
    })

    -- Where the actions keep count of the drafts, a start of a known run id replays its snapshot or
    -- is refused, and changes nothing; a start of a new one stores a run that has stopped, answers
    -- with it even if it crashed, and changes no other run.
    pub start_run-IsStarted :
        (laws : Counts actions) (request : StartRun) (runs : Dict Text (Run V))
        (log : List AgentStepRecord)
        → IsReplayed request runs log (start_run actions o max_repairs request runs log)
          ⊎ IsStarted request runs (start_run actions o max_repairs request runs log)
    unfolding start_run
    start_run-IsStarted laws request runs log =
        start_found request runs log laws (lookup request.run_id runs) refl
