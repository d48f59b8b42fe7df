-- ===== src/Knowledge/Search.antt =====
-- The search for a path ends, and finds a route to the target if there is one.
use enterprise_data_copilot.Prelude.{
  All, ℕ, zero, suc, ◌+◌, ◌*◌, ◌-◌, ◌≤◌, ◌<◌, ◌≡◌, ◌≢◌, refl, sym, ap, subst, inl, inr, Text, true,
  false, List, [], ◌∷◌, ◌++◌, IsIn, IsIn-left, IsIn-right, length, length-append, leb, arith,
  Bool-cases, ◌==◌, ==→≡, leb-eq-false,
}
use enterprise_data_copilot.Prelude.Strings.{text_eq, sorted_set}
use enterprise_data_copilot.Prelude.Dict.{Dict}
use enterprise_data_copilot.Prelude.Result.{err}
use enterprise_data_copilot.Knowledge.Models.{GraphNode, GraphEdge}
use enterprise_data_copilot.Knowledge.Store.{
  Entry, unfinished, nodes_at, extended, is_fresh, successors, path_graph, next_queue, search,
  entries,
}
use enterprise_data_copilot.Knowledge.Paths.{IsRoute, next_queue-AreRoutes}

entries_pos : (m n : ℕ) → 1 ≤ entries m n
entries_pos m zero = omega arith
entries_pos m (suc n) = omega arith

module _ (d : Dict Text GraphNode) (edges : List GraphEdge) (target : Text) (depth : ℕ) where
  -- The entries that an entry of the queue can still lead to.
  abbrev weight : Entry → ℕ
  weight entry = entries (length edges) (depth - length entry.route)

  abbrev pub total : List Entry → ℕ
  total [] = 0
  total (entry ∷ queue) = weight entry + total queue

  total-append : (xs ys : List Entry) → total (xs ++ ys) ≡ total xs + total ys
  total-append [] ys = omega arith
  total-append (x ∷ xs) ys = omega (arith, total-append xs ys)

  extended-weight :
      (entry : Entry) (e : GraphEdge) (left : ℕ)
      → depth - length entry.route ≡ suc left
      → weight (extended d edges target depth entry e) ≡ entries (length edges) left
  extended-weight entry e left h =
      ap (entries (length edges)) (omega (arith, length-append entry.route (e ∷ [])))

  successors-total :
      (entry : Entry) (es : List GraphEdge) (left : ℕ)
      → depth - length entry.route ≡ suc left
      → total (successors d edges target depth entry es) ≤ length es * entries (length edges) left
  unfolding successors
  successors-total entry [] left h = omega arith
  successors-total entry (e ∷ es) left h =
      let rest = successors-total entry es left h in
      let first = extended-weight entry e left h in
      elim (Bool-cases (is_fresh d edges target depth entry e)) [
        | inl fresh ↦ rw fresh (omega arith)
        | inr stale ↦ rw stale (omega arith)
      ]

  next_queue-total :
      (entry : Entry) (queue : List Entry)
      → total (next_queue d edges target depth entry queue) < weight entry + total queue
  next_queue-total entry queue = elim (Bool-cases (leb depth (length entry.route))) [
    | inl long ↦ rw long (omega (arith, entries_pos (length edges) (depth - length entry.route)))
    | inr short ↦
        let left = depth - length entry.route - 1 in
        let room = leb-eq-false depth (length entry.route) short in
        let more : depth - length entry.route ≡ suc left = omega (arith, room) in
        let next = successors d edges target depth entry edges in
        let full : weight entry ≡ entries (length edges) (suc left) =
          ap (entries (length edges)) more in
        rw short
          (omega (arith, full, total-append queue next, successors-total entry edges left more))
  ]

  nodes_at-finishes : (keys : List Text) → nodes_at d keys ≢ err unfinished
  unfolding nodes_at
  nodes_at-finishes [] h = cc h
  nodes_at-finishes (key ∷ keys) h = ground (arith, nodes_at-finishes keys)

  path_graph-finishes : (entry : Entry) → path_graph d edges target depth entry ≢ err unfinished
  path_graph-finishes entry h = ground (arith, nodes_at-finishes (sorted_set entry.visited))

  -- With more fuel than the queue can lead to, the search ends.
  pub search-finishes :
      (fuel : ℕ) (queue : List Entry)
      → total queue < fuel
      → search d edges target depth fuel queue ≢ err unfinished
  unfolding search nodes_at
  search-finishes zero queue enough h = absurd (omega (arith, enough))
  search-finishes (suc fuel) [] enough h = cc h
  search-finishes (suc fuel) (entry ∷ queue) enough h = elim (Bool-cases (entry.node == target)) [
    | inl here ↦ path_graph-finishes entry (rw here at h)
    | inr on ↦
        search-finishes fuel (next_queue d edges target depth entry queue)
          (omega (arith, next_queue-total entry queue, enough)) (rw on at h)
  ]

  -- The entry can go on to the target, over fresh edges and within the depth.
  pub data Leads : Entry → Type 0 where
    arrived : {entry : Entry} → entry.node ≡ target → Leads entry
    onward :
        {entry : Entry} (e : GraphEdge)
        → IsIn e edges
        → is_fresh d edges target depth entry e ≡ true
        → length entry.route < depth
        → Leads (extended d edges target depth entry e)
        → Leads entry

  successors-IsIn :
      (entry : Entry) (e : GraphEdge) (es : List GraphEdge)
      → IsIn e es
      → is_fresh d edges target depth entry e ≡ true
      → IsIn (extended d edges target depth entry e) (successors d edges target depth entry es)
  unfolding successors
  successors-IsIn entry e [] m fresh = absurd m
  successors-IsIn entry e (f ∷ es) (inl same) fresh =
      subst
        (λ f.
          IsIn (extended d edges target depth entry e)
            (successors d edges target depth entry (f ∷ es)))
        (sym same) (rw fresh (inl refl))
  successors-IsIn entry e (f ∷ es) (inr later) fresh =
      elim (Bool-cases (is_fresh d edges target depth entry f)) [
        | inl also ↦ rw also (inr (successors-IsIn entry e es later fresh))
        | inr stale ↦ rw stale (successors-IsIn entry e es later fresh)
      ]

  -- What stays in the queue, and what comes into it.
  next_queue-keeps :
      (entry other : Entry) (queue : List Entry)
      → IsIn other queue
      → IsIn other (next_queue d edges target depth entry queue)
  next_queue-keeps entry other queue m = elim (Bool-cases (leb depth (length entry.route))) [
    | inl long ↦ rw long m
    | inr short ↦ rw short (IsIn-left other queue _ m)
  ]

  next_queue-adds :
      (entry : Entry) (e : GraphEdge) (queue : List Entry)
      → IsIn e edges
      → is_fresh d edges target depth entry e ≡ true
      → length entry.route < depth
      → IsIn (extended d edges target depth entry e) (next_queue d edges target depth entry queue)
  next_queue-adds entry e queue m fresh room =
      let short : leb depth (length entry.route) ≡ false = ground arith in
      rw short (IsIn-right _ queue _ (successors-IsIn entry e edges m fresh))

  abbrev HasLead : List Entry → Type 0
  HasLead queue = (entry : Entry) × IsIn entry queue × Leads entry

  Leads-HasLead :
      (entry : Entry) (queue : List Entry)
      → (entry.node == target) ≡ false
      → Leads entry
      → HasLead (next_queue d edges target depth entry queue)
  Leads-HasLead entry queue on (arrived here) = cc ((text_eq.beq_iff entry.node target).1 here)
  Leads-HasLead entry queue on (onward e m fresh room leads) =
      (extended d edges target depth entry e, next_queue-adds entry e queue m fresh room, leads)

  next_queue-HasLead :
      (entry : Entry) (queue : List Entry)
      → (entry.node == target) ≡ false
      → HasLead (entry ∷ queue)
      → HasLead (next_queue d edges target depth entry queue)
  next_queue-HasLead entry queue on (other, inr later, leads) =
      (other, next_queue-keeps entry other queue later, leads)
  next_queue-HasLead entry queue on (other, inl same, leads) =
      Leads-HasLead entry queue on (subst Leads (sym same) leads)

  -- A search with enough fuel arrives, if an entry of its queue leads to the target.
  pub search-arrives :
      (source : Text) (fuel : ℕ) (queue : List Entry)
      → total queue < fuel
      → All (IsRoute d edges source target depth) queue
      → HasLead queue
      → (entry : Entry) × IsRoute d edges source target depth entry
        × (entry.node ≡ target)
        × (search d edges target depth fuel queue ≡ path_graph d edges target depth entry)
  unfolding search
  search-arrives source zero queue enough is lead = absurd (omega (arith, enough))
  search-arrives source (suc fuel) [] enough is (entry, m, leads) = absurd m
  search-arrives source (suc fuel) (entry ∷ queue) enough is lead =
      elim (Bool-cases (entry.node == target)) [
        | inl here ↦ (entry, is.0, ==→≡ entry.node target here, rw here refl)
        | inr on ↦
            let (found, route, same, h) =
              search-arrives source fuel (next_queue d edges target depth entry queue)
                (omega (arith, next_queue-total entry queue, enough))
                (next_queue-AreRoutes d edges source target depth entry queue is.0 is.1)
                (next_queue-HasLead entry queue on lead) in
            (found, route, same, rw on h)
      ]
