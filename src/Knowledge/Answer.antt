-- ===== src/Knowledge/Answer.antt =====
-- `KnowledgeGraphService.answer` of agent-service/app/knowledge_graph/service.py. The JSON encoder, the
-- store, the retrieval and the model are parameters; the instructions of the prompt are left out.
use enterprise_data_copilot.Prelude.{
  ℕ, ◌+◌, Option, Text, Bool, false, not, ◌&&◌, ◌||◌, List, [], ◌∷◌, ◌++◌, none, some, any, codes,
  length, without, is_none_left, ltb, if◌then◌else◌,
}
use enterprise_data_copilot.Prelude.Strings.{text_eq, text_lt, starts_with, show_nat}
use enterprise_data_copilot.Prelude.Dict.{Dict, lookup, insert, has_key}
use enterprise_data_copilot.Prelude.Result.{Result, ok, err, ◌>>=◌, ◌>>◌, raise_if}
use enterprise_data_copilot.Agent.State.{Evidence}
use enterprise_data_copilot.Knowledge.Models.{GraphNode, GraphEdge, Subgraph, relation_kind_text}

-- A value of `evidence`.
pub data Item : Type 0 where
  node_item : Text → Text → Text → ℕ → Item
  edge_item : Text → Text → Text → ℕ → Item
  document_item : Evidence → Item

-- `GraphAnswerDraft` and `GraphAnswer`.
pub record GraphAnswerDraft : Type 0 where
  pub answer : Text
  pub citation_ids : List Text

pub record GraphAnswer : Type 0 where
  pub answer : Text
  pub citations : List (Text × Item)
  pub graph : Subgraph
  pub should_answer : Bool

-- The `KeyError` of `names[...]`, the `ValueError` on an unknown citation, and an exception of a
-- collaborator.
pub data AnswerFailure : Type 0 where
  unknown_endpoint unknown_evidence collaborator : AnswerFailure

-- What the retrieval answers, as far as it is read.
pub record Documents : Type 0 where
  pub hits : List Evidence
  pub should_answer : Bool

-- `json_size` is the length of `json.dumps(value, ensure_ascii=False)`.
pub record Helpers : Type 0 where
  pub subgraph : ℕ → Text → ℕ → ℕ → Result AnswerFailure Subgraph
  pub retrieve : ℕ → Text → Result AnswerFailure Documents
  pub json_size : Item → ℕ
  pub generate : Text → Dict Text Item → Result AnswerFailure GraphAnswerDraft

abbrev pub node_evidence : Dict Text Item → List GraphNode → Dict Text Item
node_evidence evidence [] = evidence
node_evidence evidence (n ∷ ns) =
    node_evidence
      (insert (codes "node:" ++ n.id) (node_item n.evidence n.name n.source_name n.source_id)
        evidence)
      ns

-- `{n.id: n.name for n in graph.nodes}`
abbrev pub names_from : Dict Text Text → List GraphNode → Dict Text Text
names_from names [] = names
names_from names (n ∷ ns) = names_from (insert n.id n.name names) ns

abbrev pub name_at : Dict Text Text → Text → Result AnswerFailure Text
name_at names id = elim (lookup id names) [ none ↦ err unknown_endpoint | some name ↦ ok name ]

abbrev pub relation_text : Text → GraphEdge → Text → Text
relation_text source e target =
    source ++ (codes " " ++ (relation_kind_text e.kind ++ (codes " " ++ target)))

unfoldable pub edge_evidence :
    Dict Text Text → Dict Text Item → List GraphEdge → Result AnswerFailure (Dict Text Item)
edge_evidence names evidence [] = ok evidence
edge_evidence names evidence (e ∷ es) = do
  source ← name_at names e.source
  target ← name_at names e.target
  edge_evidence names
      (insert (codes "edge:" ++ e.id)
        (edge_item e.evidence (relation_text source e target) e.source_name e.source_id) evidence)
      es

-- `for index, hit in enumerate(retrieval.hits)`
abbrev pub document_evidence : ℕ → Dict Text Item → List Evidence → Dict Text Item
document_evidence index evidence [] = evidence
document_evidence index evidence (hit ∷ hits) =
    document_evidence (index + 1)
      (insert (codes "document:" ++ show_nat index) (document_item hit) evidence) hits

abbrev pub is_edge_key : Text → Bool
is_edge_key key = starts_with (codes "edge:") key

abbrev pub is_document_key : Text → Bool
is_document_key key = starts_with (codes "document:") key

-- `False < True`
abbrev pub bool_lt : Bool → Bool → Bool
bool_lt a b = not a && b

abbrev pub same : Bool → Bool → Bool
same a b = not (bool_lt a b) && not (bool_lt b a)

-- The order of the tuples `(not edge, not document, key)`.
unfoldable pub key_lt : Text → Text → Bool
key_lt j k =
    bool_lt (not (is_edge_key j)) (not (is_edge_key k))
    || (same (is_edge_key j) (is_edge_key k)
        && (bool_lt (not (is_document_key j)) (not (is_document_key k))
            || (same (is_document_key j) (is_document_key k) && text_lt j k)))

-- `sorted(evidence, key=...)`, with the values that are looked up.
unfoldable pub insert_entry : Text × Item → Dict Text Item → Dict Text Item
unfolding key_lt
insert_entry entry [] = entry ∷ []
insert_entry entry (other ∷ rest) =
    let after = insert_entry entry rest in
    if key_lt other.0 entry.0 then other ∷ after else entry ∷ other ∷ rest

unfoldable pub sort_entries : Dict Text Item → Dict Text Item
unfolding insert_entry
sort_entries [] = []
sort_entries (entry ∷ rest) = insert_entry entry (sort_entries rest)

-- `dict.fromkeys(ids)`
unfoldable pub distinct : List Text → List Text
distinct [] = []
distinct (k ∷ ks) = k ∷ without k (distinct ks)

module _ (h : Helpers) where
  abbrev pub entry_size : Text × Item → ℕ
  entry_size entry = h.json_size entry.1 + length entry.0 + 10

  -- The loop that bounds the evidence; an entry that does not fit is left out.
  unfoldable pub bounded : ℕ → Dict Text Item → Dict Text Item
  bounded used [] = []
  bounded used (entry ∷ rest) =
      let without_it = bounded used rest in
      let with_it = bounded (used + entry_size entry) rest in
      if ltb 32000 (used + entry_size entry) then without_it else entry ∷ with_it

  unfoldable pub gather : Subgraph → Documents → Result AnswerFailure (Dict Text Item)
  unfolding edge_evidence sort_entries bounded
  gather graph documents = do
    evidence ← edge_evidence (names_from [] graph.nodes) (node_evidence [] graph.nodes) graph.edges
    ok (
        bounded 0 (
          sort_entries (
            if documents.should_answer
            then document_evidence 0 evidence documents.hits
            else evidence)))

  abbrev pub cite : Text → Option Item → List (Text × Item) → List (Text × Item)
  cite key none rest = rest
  cite key (some item) rest = (key, item) ∷ rest

  -- `[{"id": key, **evidence[key]} for key in cited]`
  unfoldable pub citations_of : Dict Text Item → List Text → List (Text × Item)
  citations_of evidence [] = []
  citations_of evidence (key ∷ keys) = cite key (lookup key evidence) (citations_of evidence keys)

  abbrev pub nothing_known : Subgraph → GraphAnswer
  nothing_known graph = record {
    answer = codes "知识库中没有足够证据回答这个问题。";
    citations = [];
    graph = graph;
    should_answer = false;
  }

  abbrev pub cited_answer : Subgraph → Dict Text Item → GraphAnswerDraft → GraphAnswer
  cited_answer graph evidence draft = record {
    answer = draft.answer;
    citations = citations_of evidence (distinct draft.citation_ids);
    graph = graph;
    should_answer = not (is_none_left (distinct draft.citation_ids));
  }

  -- What follows the gathering.
  unfoldable pub answer_from : Text → Subgraph → Dict Text Item → Result AnswerFailure GraphAnswer
  unfolding citations_of distinct
  answer_from query graph [] = ok (nothing_known graph)
  answer_from query graph (entry ∷ rest) = do
    let evidence = entry ∷ rest
    draft ← h.generate query evidence
    raise_if (any (λ key. not (has_key key evidence)) draft.citation_ids) unknown_evidence
    ok (cited_answer graph evidence draft)

  unfoldable pub answer_question : ℕ → Text → Result AnswerFailure GraphAnswer
  unfolding gather answer_from
  answer_question tenant_id query = do
    graph ← h.subgraph tenant_id query 2 60
    documents ← h.retrieve tenant_id query
    evidence ← gather graph documents
    answer_from query graph evidence
