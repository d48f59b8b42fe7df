-- ===== src/Knowledge/Store.antt =====
-- `MemoryGraphStore` of agent-service/app/knowledge_graph/repository.py. A set is a list that is only
-- asked for its elements, and a queue is a list from its front.
use enterprise_data_copilot.Prelude.{
  ℕ, zero, suc, ◌+◌, ◌*◌, Text, Bool, false, not, ◌&&◌, ◌||◌, List, [], ◌∷◌, ◌++◌, map, none, some,
  keep, contains, length, take, leb, ltb, ◌==◌, if◌then◌else◌, pair_eq, nat_eq,
}
use enterprise_data_copilot.Prelude.Strings.{is_empty, is_infix, text_eq, sorted_set}
use enterprise_data_copilot.Prelude.Dict.{Dict, lookup, insert, has_key}
use enterprise_data_copilot.Prelude.Unicode.{Unicode}
use enterprise_data_copilot.Prelude.Result.{Result, ok, err, ◌>>=◌}
use enterprise_data_copilot.Knowledge.Models.{GraphNode, GraphEdge, Subgraph}

abbrev pub Graphs : Type 0
Graphs = Dict (ℕ × ℕ) Subgraph

unfoldable pub replace : ℕ → ℕ → Subgraph → Graphs → Graphs
replace tenant_id source_id graph graphs = insert (tenant_id, source_id) graph graphs

-- `_all`
unfoldable pub all_nodes : ℕ → Graphs → List GraphNode
all_nodes tenant_id [] = []
all_nodes tenant_id (((tenant, source), g) ∷ graphs) =
    let rest = all_nodes tenant_id graphs in if tenant == tenant_id then g.nodes ++ rest else rest

unfoldable pub all_edges : ℕ → Graphs → List GraphEdge
all_edges tenant_id [] = []
all_edges tenant_id (((tenant, source), g) ∷ graphs) =
    let rest = all_edges tenant_id graphs in if tenant == tenant_id then g.edges ++ rest else rest

abbrev pub no_graph : Subgraph
no_graph = record { nodes = []; edges = []; truncated = false }

abbrev pub node_ids : List GraphNode → List Text
node_ids nodes = map (λ (n : GraphNode). n.id) nodes

-- The nodes that an edge leads to from one of the selected ones, along it or against it.
abbrev pub adjacent : List GraphEdge → List Text → List Text
adjacent edges selected =
    map (λ (e : GraphEdge). e.target) (keep (λ (e : GraphEdge). contains selected e.source) edges)
    ++ map (λ (e : GraphEdge). e.source)
        (keep (λ (e : GraphEdge). contains selected e.target) edges)

-- `for _ in range(depth)`
unfoldable pub grow : List GraphEdge → ℕ → List Text → List Text
grow edges zero selected = selected
grow edges (suc depth) selected = grow edges depth (selected ++ adjacent edges selected)

abbrev pub joins : List Text → GraphEdge → Bool
joins chosen e = contains chosen e.source && contains chosen e.target

module _ (u : Unicode) where
  -- `_matches`
  unfoldable pub matches : Text → Text → Bool
  matches name query =
      is_infix (u.casefold name) (u.casefold query) || is_infix (u.casefold query) (u.casefold name)

  abbrev pub seeds : List GraphNode → Text → ℕ → List Text
  seeds nodes query limit =
      take (limit + 1) (node_ids (keep (λ n. is_empty query || matches n.name query) nodes))

  unfoldable pub subgraph : ℕ → Text → ℕ → ℕ → Graphs → Subgraph
  unfolding matches grow all_nodes all_edges
  subgraph tenant_id query depth limit graphs =
      let nodes = all_nodes tenant_id graphs in
      let edges = all_edges tenant_id graphs in
      let selected = grow edges depth (seeds nodes query limit) in
      let found = keep (λ (n : GraphNode). contains selected n.id) nodes in
      let shown = take limit found in
      record {
        nodes = shown;
        edges = take 200 (keep (joins (node_ids shown)) edges);
        truncated = ltb limit (length found);
      }

-- An entry of the queue: the node, the edges that led to it and the nodes on the way.
pub record Entry : Type 0 where
  pub node : Text
  pub route : List GraphEdge
  pub visited : List Text

-- `{n.id: n for n in nodes}`
abbrev pub nodes_from : Dict Text GraphNode → List GraphNode → Dict Text GraphNode
nodes_from d [] = d
nodes_from d (n ∷ ns) = nodes_from (insert n.id n d) ns

-- The `KeyError` of `lookup[key]`, and what the search returns without fuel.
pub data PathError : Type 0 where
  unknown_node unfinished : PathError

unfoldable pub nodes_at : Dict Text GraphNode → List Text → Result PathError (List GraphNode)
nodes_at d [] = ok []
nodes_at d (key ∷ keys) = elim (lookup key d) [
  | none ↦ err unknown_node
  | some n ↦ do rest ← nodes_at d keys; ok (n ∷ rest)
]

-- `neighbor`, where it is not `None` or empty.
abbrev pub neighbor : Text → GraphEdge → Text
neighbor node e = if e.source == node then e.target else if e.target == node then e.source else []

module _ (d : Dict Text GraphNode) (edges : List GraphEdge) (target : Text) (depth : ℕ) where
  abbrev pub extended : Entry → GraphEdge → Entry
  extended entry e =
      let next = neighbor entry.node e in
      record { node = next; route = entry.route ++ e ∷ []; visited = next ∷ entry.visited }

  abbrev pub is_fresh : Entry → GraphEdge → Bool
  is_fresh entry e =
      let next = neighbor entry.node e in not (is_empty next) && not (contains entry.visited next)

  -- `for edge in edges`: the entries that are appended to the queue.
  unfoldable pub successors : Entry → List GraphEdge → List Entry
  successors entry [] = []
  successors entry (e ∷ es) =
      let rest = successors entry es in if is_fresh entry e then extended entry e ∷ rest else rest

  abbrev pub path_graph : Entry → Result PathError Subgraph
  path_graph entry = do
    nodes ← nodes_at d (sorted_set entry.visited)
    ok (record { nodes = nodes; edges = entry.route; truncated = false })

  abbrev pub next_queue : Entry → List Entry → List Entry
  next_queue entry queue =
      if leb depth (length entry.route) then queue else queue ++ successors entry edges

  -- `while queue`
  unfoldable pub search : ℕ → List Entry → Result PathError Subgraph
  unfolding successors nodes_at
  search zero queue = err unfinished
  search (suc fuel) [] = ok no_graph
  search (suc fuel) (entry ∷ queue) =
      let rest = search fuel (next_queue entry queue) in
      if entry.node == target then path_graph entry else rest

-- How many entries one entry leads to, itself included, if `left` more edges are allowed.
abbrev pub entries : ℕ → ℕ → ℕ
entries edges zero = 1
entries edges (suc left) = 1 + edges * entries edges left

abbrev pub start_entry : Text → Entry
start_entry source = record { node = source; route = []; visited = source ∷ [] }

unfoldable pub path : ℕ → Text → Text → ℕ → Graphs → Result PathError Subgraph
unfolding search all_nodes all_edges
path tenant_id source target depth graphs =
    let d = nodes_from [] (all_nodes tenant_id graphs) in
    let edges = all_edges tenant_id graphs in
    let found =
      search d edges target depth (entries (length edges) depth + 1) (start_entry source ∷ []) in
    if has_key source d && has_key target d then found else ok no_graph
