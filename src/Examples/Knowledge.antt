-- ===== src/Examples/Knowledge.antt =====
-- Two tables in a graph, and one answer about them.
use enterprise_data_copilot.Prelude.{
  ℕ, ◌≤◌, ◌≡◌, refl, ◌⊎◌, inl, Text, true, false, [], ◌∷◌, ◌++◌, codes, arith,
}
use enterprise_data_copilot.Prelude.Dict.{Dict}
use enterprise_data_copilot.Prelude.Result.{ok}
use enterprise_data_copilot.Knowledge.Models.{
  table, related_to, Extraction, GraphNode, GraphEdge, Subgraph, ExtractRequest, full,
  is_valid_entity, is_valid_relation, has_valid_references, is_valid_extraction,
}
use enterprise_data_copilot.Knowledge.Persist.{Uuids, nodes_of, edges_of, persisted_graph}
use enterprise_data_copilot.Knowledge.Store.{
  Graphs, replace, all_nodes, all_edges, subgraph, no_graph, path,
}
use enterprise_data_copilot.Knowledge.Answer.{
  Item, Helpers, GraphAnswer, Documents, edge_evidence, key_lt, insert_entry, sort_entries,
  distinct, bounded, gather, citations_of, answer_from, answer_question,
}
use enterprise_data_copilot.Knowledge.Paths.{Walk, stay, move}
use enterprise_data_copilot.Knowledge.Found.{IsPath, IsReachable, IsFound, path-IsPath, path-finds}
use enterprise_data_copilot.Knowledge.Isolation.{IsShown, replace-IsIsolated, subgraph-IsShown}
use enterprise_data_copilot.Knowledge.Grounded.{IsGrounded, persisted_graph-IsGrounded}
use enterprise_data_copilot.Knowledge.Accepted.{persisted_graph-accepts}
use enterprise_data_copilot.Knowledge.Citations.{
  IsFounded, evidence_size, answer_question-IsFounded,
}
use enterprise_data_copilot.Examples.Dialect.{ascii, orders, customers}

abbrev uuids : Uuids
uuids = record { str = λ n. []; uuid5 = λ tenant name. name }

abbrev request : ExtractRequest
request = record {
  source_id = 7;
  source_name = codes "schema";
  text = codes "orders refer to customers";
}

abbrev extraction : Extraction
extraction = record {
  entities =
      record { id = codes "o"; name = orders; kind = table; evidence = orders; confidence = 0 }
      ∷ record {
        id = codes "c";
        name = customers;
        kind = table;
        evidence = customers;
        confidence = 0;
      }
      ∷ [];
  relations =
      record {
        source = codes "o";
        target = codes "c";
        kind = related_to;
        evidence = codes "refer to";
        confidence = 0;
      }
      ∷ [];
}

abbrev node : Text → GraphNode
node name = record {
  id = codes ":Table:" ++ name;
  name = name;
  kind = table;
  source_id = 7;
  source_name = codes "schema";
  evidence = name;
  confidence = 0;
  extracted_at = 1;
}

abbrev edge : GraphEdge
edge = record {
  id = codes "::Table:orders:RELATED_TO::Table:customers";
  source = codes ":Table:orders";
  target = codes ":Table:customers";
  kind = related_to;
  source_id = 7;
  source_name = codes "schema";
  evidence = codes "refer to";
  confidence = 0;
  extracted_at = 1;
}

abbrev graph : Subgraph
graph = record { nodes = node orders ∷ node customers ∷ []; edges = edge ∷ []; truncated = false }

extraction_is_persisted : persisted_graph ascii uuids 1 request 1 extraction ≡ ok graph
unfolding persisted_graph is_valid_extraction is_valid_entity is_valid_relation has_valid_references
    full nodes_of edges_of
extraction_is_persisted = refl

extraction_is_valid : is_valid_extraction ascii extraction ≡ true
unfolding is_valid_extraction is_valid_entity is_valid_relation has_valid_references full
extraction_is_valid = refl

persisted_graph-IsGrounded_example : IsGrounded ascii uuids 1 request 1 extraction graph
persisted_graph-IsGrounded_example =
    persisted_graph-IsGrounded ascii uuids 1 request 1 extraction graph extraction_is_persisted

persisted_graph-accepts_example :
    (g : Subgraph) × (persisted_graph ascii uuids 1 request 1 extraction ≡ ok g)
persisted_graph-accepts_example =
    persisted_graph-accepts ascii uuids 1 request 1 extraction extraction_is_valid refl

abbrev graphs : Graphs
graphs = ((1, 7), graph) ∷ []

replace-IsIsolated_example :
    ((query : Text) (depth limit : ℕ)
      → subgraph ascii 1 query depth limit (replace 2 7 graph graphs)
        ≡ subgraph ascii 1 query depth limit graphs)
    × ((from to : Text) (depth : ℕ)
        → path 1 from to depth (replace 2 7 graph graphs) ≡ path 1 from to depth graphs)
replace-IsIsolated_example = replace-IsIsolated ascii 1 2 7 graph graphs (λ h. omega (arith, h))

subgraph-IsShown_example : IsShown ascii 1 orders 2 60 graphs (subgraph ascii 1 orders 2 60 graphs)
subgraph-IsShown_example = subgraph-IsShown ascii 1 orders 2 60 graphs

path-IsPath_example :
    ((path 1 (codes ":Table:orders") (codes ":Table:customers") 3 graphs ≡ ok no_graph)
      × (IsReachable 1 (codes ":Table:orders") (codes ":Table:customers") 3 graphs → ⊥))
    ⊎ IsFound 1
        (codes ":Table:orders")
        (codes ":Table:customers")
        3
        graphs
        (path 1 (codes ":Table:orders") (codes ":Table:customers") 3 graphs)
path-IsPath_example = path-IsPath 1 (codes ":Table:orders") (codes ":Table:customers") 3 graphs

orders_refer_to_customers :
    Walk
      (edge ∷ [])
      (codes ":Table:orders")
      (edge ∷ [])
      (codes ":Table:customers" ∷ codes ":Table:orders" ∷ [])
      (codes ":Table:customers")
orders_refer_to_customers =
    move stay edge (codes ":Table:customers") (inl refl) (inl (refl, refl)) refl

customers_are_reachable : IsReachable 1 (codes ":Table:orders") (codes ":Table:customers") 3 graphs
unfolding all_nodes all_edges
customers_are_reachable = record {
  from = refl;
  to = refl;
  route = edge ∷ [];
  visited = codes ":Table:customers" ∷ codes ":Table:orders" ∷ [];
  walk = orders_refer_to_customers;
  short = omega arith;
  named = (refl, (refl, tt));
}

path-finds_example :
    (g : Subgraph) × (path 1 (codes ":Table:orders") (codes ":Table:customers") 3 graphs ≡ ok g)
    × IsPath 1 (codes ":Table:orders") (codes ":Table:customers") 3 graphs g
unfolding all_nodes all_edges
path-finds_example =
    path-finds 1 (codes ":Table:orders") (codes ":Table:customers") 3 graphs customers_are_reachable
      ((refl, refl), tt)

abbrev helpers : Helpers
helpers = record {
  subgraph = λ tenant query depth limit. ok graph;
  retrieve = λ tenant query. ok (record { hits = []; should_answer = false });
  json_size = λ item. 100;
  generate = λ query evidence. ok (record {
    answer = codes "Orders refer to customers.";
    citation_ids = codes "node::Table:orders" ∷ codes "node::Table:orders" ∷ [];
  });
}

abbrev answered : GraphAnswer
answered = record {
  answer = codes "Orders refer to customers.";
  citations = (codes "node::Table:orders", Item.node_item orders orders (codes "schema") 7) ∷ [];
  graph = graph;
  should_answer = true;
}

question_is_answered : answer_question helpers 1 orders ≡ ok answered
unfolding answer_question gather edge_evidence sort_entries insert_entry key_lt bounded answer_from
    citations_of distinct
question_is_answered = refl

answer_question-IsFounded_example :
    (graph : Subgraph) × (documents : Documents) × (evidence : Dict Text Item) × (helpers.subgraph 1
        orders 2 60
      ≡ ok graph)
    × (helpers.retrieve 1 orders ≡ ok documents)
    × (gather helpers graph documents ≡ ok evidence)
    × (evidence_size helpers evidence ≤ 32000)
    × IsFounded helpers graph evidence answered
answer_question-IsFounded_example =
    answer_question-IsFounded helpers 1 orders answered question_is_answered
