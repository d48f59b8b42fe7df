-- ===== src/Knowledge/Found.antt =====
-- `path` of the in-memory store: what it finds, and that it finds it.
use enterprise_data_copilot.Prelude.{
  ◌∙◌, not_both, IsIn-contains, contains, contains-here, All-contains, All-IsIn, IsIn, &&-true, ℕ,
  ◌+◌, ◌-◌, ap, ◌≤◌, ◌<◌, ◌≡◌, refl, sym, ap, subst, ◌⊎◌, inl, inr, Text, true, false, ◌&&◌, List,
  [], ◌∷◌, ◌++◌, All, length, length-append, arith, Bool-cases,
}
use enterprise_data_copilot.Prelude.Strings.{is_empty, text_eq, sorted_set}
use enterprise_data_copilot.Prelude.Dict.{Dict, has_key}
use enterprise_data_copilot.QuerySafety.Policy.Restriction.{contains-sorted_set}
use enterprise_data_copilot.Knowledge.Lookup.{AreLookedUp, nodes_at-AreLookedUp, all-IsTable}
use enterprise_data_copilot.Prelude.Result.{Result, ok, err, ◌>>=◌, ok-injective}
use enterprise_data_copilot.Knowledge.Models.{GraphNode, GraphEdge, Subgraph}
use enterprise_data_copilot.Knowledge.Store.{
  Graphs, node_ids, unknown_node, all_nodes, all_edges, no_graph, Entry, nodes_from, PathError,
  neighbor, is_fresh, path_graph, entries, start_entry, path,
}
use enterprise_data_copilot.Knowledge.Paths.{Joins, Walk, stay, move, IsRoute, search-IsRoute}
use enterprise_data_copilot.Knowledge.Search.{
  Leads, arrived, onward, total, search-finishes, search-arrives,
}

Joins-neighbor : (e : GraphEdge) (node next : Text) → Joins e node next → neighbor node e ≡ next
Joins-neighbor e node next j =
    ground (arith, text_eq.beq_iff e.source node, text_eq.beq_iff e.target node)

module _ (tenant_id : ℕ) (source target : Text) (depth : ℕ) (graphs : Graphs) where
  abbrev d : Dict Text GraphNode
  d = nodes_from [] (all_nodes tenant_id graphs)

  abbrev edges : List GraphEdge
  edges = all_edges tenant_id graphs

  -- The entry of a walk.
  abbrev entry_of : List GraphEdge → List Text → Text → Entry
  entry_of route visited node = record { node = node; route = route; visited = visited }

  Walk-Leads :
      {route : List GraphEdge} {visited : List Text} {node : Text}
      → Walk edges source route visited node
      → length route ≤ depth
      → All (λ n. is_empty n ≡ false) visited
      → Leads d edges target depth (entry_of route visited node)
      → Leads d edges target depth (start_entry source)
  Walk-Leads stay short named leads = leads
  Walk-Leads (move {route} {visited} {node} w e next m j fresh) short named leads =
      let entry = entry_of route visited node in
      let there = Joins-neighbor e node next j in
      let more : length route + 1 ≤ depth = omega (arith, length-append route (e ∷ [])) in
      let is_next : is_fresh d edges target depth entry e ≡ true =
        rw (there, named.0, fresh) refl in
      Walk-Leads w (omega arith) named.1 (
        onward e m is_next (omega arith) (
          subst (λ n. Leads d edges target depth (entry_of (route ++ e ∷ []) (n ∷ visited) n))
            (sym there) leads))

  -- An edge with an end that is no node.
  abbrev pub HasDangling : Type 0
  HasDangling =
      (e : GraphEdge) × IsIn e edges × ((has_key e.source d ≡ false) ⊎ (has_key e.target d ≡ false))

  -- The graph of a walk to the target: its edges in their order, and its nodes, which are stored.
  pub record IsPath (g : Subgraph) : Type 0 where
    pub visited : List Text
    pub walk : Walk edges source g.edges visited target
    pub short : length g.edges ≤ depth
    pub its_nodes : (id : Text) → contains (node_ids g.nodes) id ≡ contains visited id
    pub stored : All (λ n. IsIn n (all_nodes tenant_id graphs)) g.nodes
    pub whole : g.truncated ≡ false

  -- Both ends are known, and a walk without empty names leads from one to the other.
  pub record IsReachable : Type 0 where
    pub from : has_key source d ≡ true
    pub to : has_key target d ≡ true
    pub route : List GraphEdge
    pub visited : List Text
    pub walk : Walk edges source route visited target
    pub short : length route ≤ depth
    pub named : All (λ n. is_empty n ≡ false) visited

  abbrev pub IsFound : Result PathError Subgraph → Type 0
  IsFound r = ((g : Subgraph) × (r ≡ ok g) × IsPath g) ⊎ ((r ≡ err unknown_node) × HasDangling)

  entered :
      (e : GraphEdge) (node next : Text)
      → IsIn e edges
      → Joins e node next
      → (has_key next d ≡ true) ⊎ HasDangling
  entered e node next m j = elim (Bool-cases (has_key next d)) [
    | inl known ↦ inl known
    | inr unknown ↦ elim j [
      | inl (s, t) ↦ inr (e, m, inr (subst (λ x. has_key x d ≡ false) (sym t) unknown))
      | inr (t, s) ↦ inr (e, m, inl (subst (λ x. has_key x d ≡ false) (sym s) unknown))
    ]
  ]

  both_known :
      {P : Type 0} (next : Text) (visited : List Text)
      → (has_key next d ≡ true) ⊎ P
      → All (λ n. has_key n d ≡ true) visited ⊎ P
      → All (λ n. has_key n d ≡ true) (next ∷ visited) ⊎ P
  both_known next visited (inl a) (inl b) = inl (a, b)
  both_known next visited (inr p) b = inr p
  both_known next visited (inl a) (inr p) = inr p

  -- A walk from a known node stays among the known ones, unless an edge dangles.
  Walk-AreKnown :
      {route : List GraphEdge} {visited : List Text} {node : Text}
      → has_key source d ≡ true
      → Walk edges source route visited node
      → All (λ n. has_key n d ≡ true) visited ⊎ HasDangling
  Walk-AreKnown from stay = inl (from, tt)
  Walk-AreKnown from (move {route} {visited} {node} w e next m j fresh) =
      both_known next visited (entered e node next m j) (Walk-AreKnown from w)

  none_unknown :
      {P : Type 0} (visited : List Text) (id : Text)
      → All (λ n. has_key n d ≡ true) visited ⊎ P
      → contains visited id ≡ true
      → has_key id d ≡ false
      → P
  none_unknown visited id (inr p) there unknown = p
  none_unknown visited id (inl known) there unknown =
      absurd (not_both (All-contains _ visited id known there) unknown)

  looked_up-IsFound :
      (entry : Entry) (r : Result PathError (List GraphNode))
      → has_key source d ≡ true
      → IsRoute d edges source target depth entry
      → entry.node ≡ target
      → AreLookedUp (all_nodes tenant_id graphs) d (sorted_set entry.visited) r
      → IsFound
          (r >>= λ nodes. ok (record { nodes = nodes; edges = entry.route; truncated = false }))
  looked_up-IsFound entry (ok nodes) from i arrives (ids, stored) = inl (
    _,
    refl,
    record {
      visited = entry.visited;
      walk = subst (Walk edges source entry.route entry.visited) arrives i.walk;
      short = i.short;
      its_nodes = λ id. ap (λ names. contains names id) ids ∙ contains-sorted_set id entry.visited;
      stored = stored;
      whole = refl;
    },
  )
  looked_up-IsFound entry (err e) from i arrives (same, id, there, unknown) = inr (
    ap err same,
    none_unknown entry.visited id (Walk-AreKnown from i.walk)
        (sym (contains-sorted_set id entry.visited) ∙ IsIn-contains id _ there) unknown,
  )

  path_graph-IsFound :
      (entry : Entry) (r : Result PathError Subgraph)
      → has_key source d ≡ true
      → IsRoute d edges source target depth entry
      → entry.node ≡ target
      → r ≡ path_graph d edges target depth entry
      → IsFound r
  path_graph-IsFound entry r from i arrives h = subst IsFound (sym h) (
      looked_up-IsFound entry _ from i arrives (
        nodes_at-AreLookedUp _ d (sorted_set entry.visited)
          (all-IsTable (all_nodes tenant_id graphs))))

  last-IsVisited :
      {route : List GraphEdge} {visited : List Text} {node : Text}
      → Walk edges source route visited node
      → contains visited node ≡ true
  last-IsVisited stay = contains-here source []
  last-IsVisited (move {route} {visited} w e next m j fresh) = contains-here next visited

  no_graph-IsNoPath : IsFound (ok no_graph) → ⊥
  no_graph-IsNoPath (inl (g, same, p)) = not_both (last-IsVisited p.walk) (
      sym (p.its_nodes target)
      ∙ sym (ap (λ (x : Subgraph). contains (node_ids x.nodes) target) (ok-injective same)))
  no_graph-IsNoPath (inr (raised, dangling)) = cc

  start_is_light :
      total d edges target depth (start_entry source ∷ []) < entries (length edges) depth + 1
  start_is_light =
      let none_yet : depth - 0 ≡ depth = omega arith in
      omega (arith, ap (entries (length edges)) none_yet)

  starts : All (IsRoute d edges source target depth) (start_entry source ∷ [])
  starts = (record { walk = stay; short = omega arith }, tt)

  path_result :
      (path tenant_id source target depth graphs ≡ ok no_graph)
      ⊎ IsFound (path tenant_id source target depth graphs)
  unfolding path
  path_result = elim (Bool-cases (has_key source d && has_key target d)) [
    | inl known ↦
        let ends =
          search-finishes d edges target depth (entries (length edges) depth + 1)
            (start_entry source ∷ []) start_is_light in
        elim (search-IsRoute d edges source target depth (entries (length edges) depth + 1)
          (start_entry source ∷ []) _ starts refl) [
            | inl stuck ↦ absurd (ends stuck)
            | inr (inl nothing) ↦ rw known (inl nothing)
            | inr (inr (entry, route, arrives, h)) ↦
                rw known (inr (path_graph-IsFound entry _ (&&-true _ _ known).0 route arrives h))
          ]
    | inr unknown ↦ rw unknown (inl refl)
  ]

  reachable-IsFound : IsReachable → IsFound (path tenant_id source target depth graphs)
  unfolding path
  reachable-IsFound r =
      let leads = Walk-Leads r.walk r.short r.named (arrived refl) in
      let (entry, found, arrives, h) =
        search-arrives d edges target depth source (entries (length edges) depth + 1)
          (start_entry source ∷ []) start_is_light starts (start_entry source, inl refl, leads) in
      rw (r.from, r.to) (path_graph-IsFound entry _ r.from found arrives h)

  -- The search ends. It returns the graph of a walk without repetitions from the source to the
  -- target over at most `depth` edges of the tenant, or the empty graph, and then no such walk
  -- without empty names leads from one to the other or one of them is no node, or it raises the
  -- `KeyError` of a node, and then an edge of the tenant has an end that is no node.
  pub path-IsPath :
      ((path tenant_id source target depth graphs ≡ ok no_graph) × (IsReachable → ⊥))
      ⊎ IsFound (path tenant_id source target depth graphs)
  path-IsPath = elim path_result [
    | inl nothing ↦
        inl (nothing, λ r. no_graph-IsNoPath (subst IsFound nothing (reachable-IsFound r)))
    | inr found ↦ inr found
  ]

  -- If both nodes are known, every edge of the tenant joins two of its nodes, and a walk without
  -- repetitions or empty names leads from the source to the target over at most `depth` edges, then
  -- the graph of one is returned.
  pub path-finds :
      IsReachable
      → All (λ (e : GraphEdge). (has_key e.source d ≡ true) × (has_key e.target d ≡ true)) edges
      → (g : Subgraph) × (path tenant_id source target depth graphs ≡ ok g) × IsPath g
  path-finds r closed = elim (reachable-IsFound r) [
    | inl found ↦ found
    | inr (raised, (e, m, dangling)) ↦
        let (s, t) = All-IsIn _ edges e closed m in
        elim dangling [
          | inl unknown ↦ absurd (not_both s unknown)
          | inr unknown ↦ absurd (not_both t unknown)
        ]
  ]
