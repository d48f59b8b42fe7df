-- ===== src/Knowledge/Persist.antt =====
-- `KnowledgeGraphService.persist` of agent-service/app/knowledge_graph/service.py. The text of a
-- UUID and `str(uuid5(...))` are parameters.
use enterprise_data_copilot.Prelude.{
  ℕ, Text, Bool, false, not, List, [], ◌∷◌, ◌++◌, map, none, some, all, codes, pair_eq,
}
use enterprise_data_copilot.Prelude.Strings.{is_infix, text_eq}
use enterprise_data_copilot.Prelude.Dict.{Dict, lookup, insert}
use enterprise_data_copilot.Prelude.Unicode.{Unicode}
use enterprise_data_copilot.Prelude.Result.{Result, ok, err, ◌>>=◌, ◌>>◌, raise_if}
use enterprise_data_copilot.Knowledge.Models.{
  EntityDraft, RelationDraft, Extraction, GraphNode, GraphEdge, Subgraph, ExtractRequest,
  entity_kind_text, relation_kind_text, is_valid_extraction,
}

-- The failed validation, the `ValueError` on a quote, and the `KeyError` of an unknown id.
pub data PersistError : Type 0 where
  invalid_extraction not_a_quote unknown_id : PersistError

pub record Uuids : Type 0 where
  pub str : ℕ → Text
  pub uuid5 : ℕ → Text → Text

module _ (u : Unicode) (uuids : Uuids) (tenant_id : ℕ) (request : ExtractRequest) (now : ℕ) where
  abbrev pub node_id : EntityDraft → Text
  node_id e = uuids.uuid5 tenant_id (
      uuids.str request.source_id
      ++ (codes ":" ++ (entity_kind_text e.kind ++ (codes ":" ++ u.casefold e.name))))

  -- `ids`
  abbrev pub node_ids_from : Dict Text Text → List EntityDraft → Dict Text Text
  node_ids_from ids [] = ids
  node_ids_from ids (e ∷ es) = node_ids_from (insert e.id (node_id e) ids) es

  -- `ids[key]`
  abbrev pub id_at : Dict Text Text → Text → Result PersistError Text
  id_at ids key = elim (lookup key ids) [ none ↦ err unknown_id | some id ↦ ok id ]

  abbrev pub node_of : Text → EntityDraft → GraphNode
  node_of id e = record {
    id = id;
    name = e.name;
    kind = e.kind;
    source_id = request.source_id;
    source_name = request.source_name;
    evidence = e.evidence;
    confidence = e.confidence;
    extracted_at = now;
  }

  abbrev pub edge_id : Text → RelationDraft → Text → Text
  edge_id source r target = uuids.uuid5 tenant_id (
      uuids.str request.source_id
      ++ (codes ":"
          ++ (source ++ (codes ":" ++ (relation_kind_text r.kind ++ (codes ":" ++ target))))))

  abbrev pub edge_of : Text → RelationDraft → Text → GraphEdge
  edge_of source r target = record {
    id = edge_id source r target;
    source = source;
    target = target;
    kind = r.kind;
    source_id = request.source_id;
    source_name = request.source_name;
    evidence = r.evidence;
    confidence = r.confidence;
    extracted_at = now;
  }

  unfoldable pub nodes_of : Dict Text Text → List EntityDraft → Result PersistError (List GraphNode)
  nodes_of ids [] = ok []
  nodes_of ids (e ∷ es) = do id ← id_at ids e.id; nodes ← nodes_of ids es; ok (node_of id e ∷ nodes)

  unfoldable pub edges_of :
      Dict Text Text → List RelationDraft → Result PersistError (List GraphEdge)
  edges_of ids [] = ok []
  edges_of ids (r ∷ rs) = do
    source ← id_at ids r.source
    target ← id_at ids r.target
    edges ← edges_of ids rs
    ok (edge_of source r target ∷ edges)

  -- `{e.id: e for e in edges}`
  abbrev pub by_id_from : Dict Text GraphEdge → List GraphEdge → Dict Text GraphEdge
  by_id_from seen [] = seen
  by_id_from seen (e ∷ es) = by_id_from (insert e.id e seen) es

  abbrev pub values_of : Dict Text GraphEdge → List GraphEdge
  values_of d = map (λ entry. entry.1) d

  abbrev pub is_quote : Text → Bool
  is_quote evidence = is_infix evidence request.text

  abbrev pub are_quotes : Extraction → Bool
  are_quotes x = all is_quote (
      map (λ (e : EntityDraft). e.evidence) x.entities
      ++ map (λ (r : RelationDraft). r.evidence) x.relations)

  -- The graph that `persist` stores and returns.
  unfoldable pub persisted_graph : Extraction → Result PersistError Subgraph
  unfolding nodes_of edges_of
  persisted_graph x = do
    raise_if (not (is_valid_extraction u x)) invalid_extraction
    raise_if (not (are_quotes x)) not_a_quote
    let ids = node_ids_from [] x.entities
    nodes ← nodes_of ids x.entities
    edges ← edges_of ids x.relations
    ok (record { nodes = nodes; edges = values_of (by_id_from [] edges); truncated = false })
