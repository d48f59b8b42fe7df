-- ===== src/Agent/Graph/Termination.antt =====
-- Every `invoke` ends, and no run makes too many drafts.
use enterprise_data_copilot.Prelude.{
  ℕ, zero, suc, ◌+◌, ◌*◌, ◌≤◌, ◌<◌, ◌≡◌, refl, sym, subst, List, Option, none, some, arith,
}
use enterprise_data_copilot.Prelude.Result.{Result, ok, err}
use enterprise_data_copilot.Agent.State.{AgentState, Update, attempts_of, apply_update}
use enterprise_data_copilot.Agent.Steps.Record.{Node, classify, AgentStepRecord}
use enterprise_data_copilot.Agent.Steps.Timed.{Stop, interrupted, raised, Observers}
use enterprise_data_copilot.Agent.Graph.Nodes.{
  AgentActions, Payload, run_node, Edge, to, end, missing_key, edge,
}
use enterprise_data_copilot.Agent.Graph.Diagram.{edge-Follows}
use enterprise_data_copilot.Agent.Graph.Inversion.{run_node-ok}
use enterprise_data_copilot.Agent.Graph.Attempts.{
  Counts, drafts, operation-attempts, upcoming, IsWithin, base, rank, Follows-falls,
}
use enterprise_data_copilot.Agent.Graph.Machine.{
  Run, at, ended, waiting, crashed, follow, after_node, run_at, Step, advance, resume, Reach, here,
  next, invoke,
}

-- `invoke` has come to an end: the workflow ended, waits for an approval, or raised.
abbrev pub IsStopped : {V : Type 0} → Run V → Type 0
IsStopped (at n s) = ⊥
IsStopped (ended s) = Unit
IsStopped (waiting n s) = Unit
IsStopped (crashed n s f) = Unit

abbrev pub state_of : {V : Type 0} → Run V → AgentState V
state_of (at n s) = s
state_of (ended s) = s
state_of (waiting n s) = s
state_of (crashed n s f) = s

module _ {V : Type 0} (max_repairs : ℕ) (actions : AgentActions V) (o : Observers V)
    (laws : Counts actions) where
  -- A run after a node of the given rank: it has made few enough drafts, and if it goes on then at
  -- a node of smaller rank.
  abbrev Falls : ℕ → Run V → Type 0
  Falls k (at n s) = IsWithin max_repairs n s × (rank max_repairs n s < k)
  Falls k (ended s) = attempts_of s ≤ max_repairs + 1
  Falls k (waiting n s) = IsWithin max_repairs n s
  Falls k (crashed n s f) = attempts_of s ≤ max_repairs + 1

  -- The same without the rank.
  abbrev Fits : Run V → Type 0
  Fits (at n s) = IsWithin max_repairs n s
  Fits (ended s) = attempts_of s ≤ max_repairs + 1
  Fits (waiting n s) = IsWithin max_repairs n s
  Fits (crashed n s f) = attempts_of s ≤ max_repairs + 1

  Falls-Fits : (k : ℕ) (r : Run V) → Falls k r → Fits r
  Falls-Fits k (at n s) h = h.0
  Falls-Fits k (ended s) h = h
  Falls-Fits k (waiting n s) h = h
  Falls-Fits k (crashed n s f) h = h

  follow-Falls :
      (n : Node) (s t : AgentState V) (e : Edge)
      → IsWithin max_repairs n s
      → attempts_of t ≡ attempts_of s + drafts n
      → edge max_repairs n t ≡ e
      → attempts_of t ≤ max_repairs + 1
      → Falls (rank max_repairs n s) (follow actions o max_repairs n s t e)
  follow-Falls n s t (to m) w a h l =
      Follows-falls max_repairs actions o laws s t w a (edge-Follows max_repairs t n m h)
  follow-Falls n s t end w a h l = l
  follow-Falls n s t missing_key w a h l = omega arith

  drafts-le-upcoming : (n : Node) → drafts n ≤ upcoming n
  drafts-le-upcoming n = ground arith

  after_node-Falls :
      (payload : Option Payload) (n : Node) (s : AgentState V) (log : List AgentStepRecord)
      (result : Result Stop (Update V))
      → IsWithin max_repairs n s
      → (run_node actions o payload n s log).0 ≡ result
      → Falls (rank max_repairs n s) (after_node actions o max_repairs n s result)
  after_node-Falls payload n s log (ok u) w h =
      let a =
        operation-attempts max_repairs actions o laws payload n s log u
          (run_node-ok actions o payload n s log u h) in
      follow-Falls n s (apply_update s u) _ w a refl (omega (arith, a, drafts-le-upcoming n))
  after_node-Falls payload n s log (err interrupted) w h = w
  after_node-Falls payload n s log (err (raised f)) w h = omega arith

  base_pos : (n : Node) → 0 < base n
  base_pos n = ground arith

  settled :
      (fuel : ℕ) (r : Run V) (k : ℕ) (log : List AgentStepRecord)
      → Falls k r
      → k ≤ suc fuel
      → ((n : Node) (s : AgentState V) (l : List AgentStepRecord)
          → IsWithin max_repairs n s
          → rank max_repairs n s ≤ fuel
          → IsStopped (invoke actions o max_repairs fuel (at n s) l).0)
      → IsStopped (invoke actions o max_repairs fuel r log).0
  unfolding invoke
  settled fuel (at n s) k log f h ih = ih n s log f.0 (omega arith)
  settled zero (ended s) k log f h ih = tt
  settled (suc fuel) (ended s) k log f h ih = tt
  settled zero (waiting n s) k log f h ih = tt
  settled (suc fuel) (waiting n s) k log f h ih = tt
  settled zero (crashed n s g) k log f h ih = tt
  settled (suc fuel) (crashed n s g) k log f h ih = tt

  -- From any node within the limit, as many rounds as its rank are enough for `invoke` to stop.
  pub invoke-stops :
      (fuel : ℕ) (n : Node) (s : AgentState V) (log : List AgentStepRecord)
      → IsWithin max_repairs n s
      → rank max_repairs n s ≤ fuel
      → IsStopped (invoke actions o max_repairs fuel (at n s) log).0
  unfolding invoke run_at
  invoke-stops zero n s log w h = absurd (omega (arith, base_pos n))
  invoke-stops (suc fuel) n s log w h =
      settled fuel _ (rank max_repairs n s) _ (after_node-Falls none n s log _ w refl) h
        (invoke-stops fuel)

  Fits-Step : {r t : Run V} → Step actions o max_repairs r t → Fits r → Fits t
  unfolding run_at
  Fits-Step (advance n s log e) w =
      subst Fits (sym e) (Falls-Fits _ _ (after_node-Falls none n s log _ w refl))
  Fits-Step (resume n s log payload e) w =
      subst Fits (sym e) (Falls-Fits _ _ (after_node-Falls (some payload) n s log _ w refl))

  Fits-Reach : {r t : Run V} → Reach actions o max_repairs r t → Fits r → Fits t
  Fits-Reach here w = w
  Fits-Reach (next r st) w = Fits-Step st (Fits-Reach r w)

  Fits-attempts : (r : Run V) → Fits r → attempts_of (state_of r) ≤ max_repairs + 1
  Fits-attempts (at n s) w = omega arith
  Fits-attempts (ended s) w = w
  Fits-attempts (waiting n s) w = omega arith
  Fits-attempts (crashed n s f) w = w

  -- A run that begins with no draft never counts more than `max_repairs + 1`, however often it is
  -- interrupted and resumed.
  pub drafts_bounded :
      (s : AgentState V) (r : Run V)
      → attempts_of s ≡ 0
      → Reach actions o max_repairs (at classify s) r
      → attempts_of (state_of r) ≤ max_repairs + 1
  drafts_bounded s r fresh reach = Fits-attempts r (Fits-Reach reach (omega arith))

  -- A new run stops after at most `5 * max_repairs + 9` nodes: 19 for the largest `max_repairs`, 2.
  pub start-stops :
      (s : AgentState V) (log : List AgentStepRecord) (fuel : ℕ)
      → attempts_of s ≡ 0
      → 5 * max_repairs + 9 ≤ fuel
      → IsStopped (invoke actions o max_repairs fuel (at classify s) log).0
  start-stops s log fuel fresh enough = invoke-stops fuel classify s log (omega arith) (omega arith)
