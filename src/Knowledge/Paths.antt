-- ===== src/Knowledge/Paths.antt =====
-- The search for a path in the graph of a tenant, against walks over its edges.
use enterprise_data_copilot.Prelude.{
  ℕ, zero, suc, ◌≤◌, ◌<◌, ◌≡◌, refl, sym, ◌⊎◌, inl, inr, Text, true, false, List, [], ◌∷◌, ◌++◌,
  All, IsIn, All-append, length, length-append, contains, leb, arith, Bool-cases, ◌==◌, ==→≡,
  leb-eq-false,
}
use enterprise_data_copilot.Prelude.Strings.{is_empty, text_eq}
use enterprise_data_copilot.Prelude.Dict.{Dict}
use enterprise_data_copilot.Prelude.Result.{Result, ok, err}
use enterprise_data_copilot.Knowledge.Models.{GraphNode, GraphEdge, Subgraph}
use enterprise_data_copilot.Knowledge.Store.{
  no_graph, Entry, PathError, unfinished, neighbor, extended, is_fresh, successors, path_graph,
  next_queue, search,
}

-- The edge joins the two nodes, in one direction or the other.
abbrev pub Joins : GraphEdge → Text → Text → Type 0
Joins e node next =
    ((e.source ≡ node) × (e.target ≡ next)) ⊎ ((e.target ≡ node) × (e.source ≡ next))

-- A walk from the source over edges of the list, with its edges in order and its nodes from the last
-- one, none of them twice.
pub data Walk (edges : List GraphEdge) (source : Text)
    : List GraphEdge → List Text → Text → Type 0 where
  stay : Walk edges source [] (source ∷ []) source
  move :
      {route : List GraphEdge} {visited : List Text} {node : Text}
      → Walk edges source route visited node
      → (e : GraphEdge) (next : Text) → IsIn e edges
      → Joins e node next
      → contains visited next ≡ false
      → Walk edges source (route ++ e ∷ []) (next ∷ visited) next

joined :
    (node : Text) (e : GraphEdge)
    → is_empty (neighbor node e) ≡ false
    → Joins e node (neighbor node e)
joined node e h = ground (arith, ==→≡ e.source node, ==→≡ e.target node)

module _ (d : Dict Text GraphNode) (edges : List GraphEdge) (source target : Text) (depth : ℕ) where
  -- An entry of the queue stands for a walk that is short enough.
  pub record IsRoute (entry : Entry) : Type 0 where
    pub walk : Walk edges source entry.route entry.visited entry.node
    pub short : length entry.route ≤ depth

  extended-IsRoute :
      (entry : Entry) (e : GraphEdge)
      → IsRoute entry
      → length entry.route < depth
      → IsIn e edges
      → is_fresh d edges target depth entry e ≡ true
      → IsRoute (extended d edges target depth entry e)
  extended-IsRoute entry e i l m f = record {
    walk =
        move i.walk e (neighbor entry.node e) m (joined entry.node e (ground arith)) (ground arith);
    short = omega (arith, length-append entry.route (e ∷ []));
  }

  successors-AreRoutes :
      (entry : Entry) (es : List GraphEdge)
      → IsRoute entry
      → length entry.route < depth
      → ((e : GraphEdge) → IsIn e es → IsIn e edges)
      → All IsRoute (successors d edges target depth entry es)
  unfolding successors
  successors-AreRoutes entry [] i l sub = tt
  successors-AreRoutes entry (e ∷ es) i l sub =
      let rest = successors-AreRoutes entry es i l (λ x m. sub x (inr m)) in
      elim (Bool-cases (is_fresh d edges target depth entry e)) [
        | inl fresh ↦ rw fresh (extended-IsRoute entry e i l (sub e (inl refl)) fresh, rest)
        | inr stale ↦ rw stale rest
      ]

  pub next_queue-AreRoutes :
      (entry : Entry) (queue : List Entry)
      → IsRoute entry
      → All IsRoute queue
      → All IsRoute (next_queue d edges target depth entry queue)
  next_queue-AreRoutes entry queue i is = elim (Bool-cases (leb depth (length entry.route))) [
    | inl long ↦ rw long is
    | inr short ↦ rw short (
        All-append IsRoute queue _ is (
          successors-AreRoutes entry edges i (leb-eq-false depth (length entry.route) short)
            (λ e m. m)))
  ]

  -- What the search returns is nothing, or the graph of a route to the target.
  pub search-IsRoute :
      (fuel : ℕ) (queue : List Entry) (r : Result PathError Subgraph)
      → All IsRoute queue
      → search d edges target depth fuel queue ≡ r
      → (r ≡ err unfinished)
        ⊎ ((r ≡ ok no_graph)
            ⊎ ((entry : Entry) × IsRoute entry
                × (entry.node ≡ target)
                × (r ≡ path_graph d edges target depth entry)))
  unfolding search
  search-IsRoute zero queue r is h = inl (sym h)
  search-IsRoute (suc fuel) [] r is h = inr (inl (sym h))
  search-IsRoute (suc fuel) (entry ∷ queue) r is h = elim (Bool-cases (entry.node == target)) [
    | inl here ↦ inr (inr (entry, is.0, ==→≡ entry.node target here, sym (rw here at h)))
    | inr on ↦
        search-IsRoute fuel (next_queue d edges target depth entry queue) r
          (next_queue-AreRoutes entry queue is.0 is.1) (rw on at h)
  ]
