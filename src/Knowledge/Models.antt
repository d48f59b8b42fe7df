-- ===== src/Knowledge/Models.antt =====
-- agent-service/app/knowledge_graph/models.py. A UUID and a time are numbers, and a confidence is a
-- whole number of units of 2 ^ -1074.
use enterprise_data_copilot.Prelude.{
  ℕ, ◌^◌, Text, Bool, ◌&&◌, List, map, codes, all, contains, is_unique, length, leb, pair_eq,
}
use enterprise_data_copilot.Prelude.Strings.{text_eq}
use enterprise_data_copilot.Prelude.Unicode.{Unicode}

pub data EntityKind : Type 0 where
  metric table column business_term document data_source : EntityKind

pub data RelationKind : Type 0 where
  defined_in derived_from uses_column belongs_to related_to joins_with : RelationKind

-- The literals.
abbrev pub entity_kind_text : EntityKind → Text
entity_kind_text metric = codes "Metric"
entity_kind_text table = codes "Table"
entity_kind_text column = codes "Column"
entity_kind_text business_term = codes "BusinessTerm"
entity_kind_text document = codes "Document"
entity_kind_text data_source = codes "DataSource"

abbrev pub relation_kind_text : RelationKind → Text
relation_kind_text defined_in = codes "DEFINED_IN"
relation_kind_text derived_from = codes "DERIVED_FROM"
relation_kind_text uses_column = codes "USES_COLUMN"
relation_kind_text belongs_to = codes "BELONGS_TO"
relation_kind_text related_to = codes "RELATED_TO"
relation_kind_text joins_with = codes "JOINS_WITH"

pub record EntityDraft : Type 0 where
  pub id : Text
  pub name : Text
  pub kind : EntityKind
  pub evidence : Text
  pub confidence : ℕ

pub record RelationDraft : Type 0 where
  pub source : Text
  pub target : Text
  pub kind : RelationKind
  pub evidence : Text
  pub confidence : ℕ

pub record Extraction : Type 0 where
  pub entities : List EntityDraft
  pub relations : List RelationDraft

pub record GraphNode : Type 0 where
  pub id : Text
  pub name : Text
  pub kind : EntityKind
  pub source_id : ℕ
  pub source_name : Text
  pub evidence : Text
  pub confidence : ℕ
  pub extracted_at : ℕ

pub record GraphEdge : Type 0 where
  pub id : Text
  pub source : Text
  pub target : Text
  pub kind : RelationKind
  pub source_id : ℕ
  pub source_name : Text
  pub evidence : Text
  pub confidence : ℕ
  pub extracted_at : ℕ

pub record Subgraph : Type 0 where
  pub nodes : List GraphNode
  pub edges : List GraphEdge
  pub truncated : Bool

pub record ExtractRequest : Type 0 where
  pub source_id : ℕ
  pub source_name : Text
  pub text : Text

-- `Field(min_length=..., max_length=...)`
abbrev pub has_length : ℕ → ℕ → Text → Bool
has_length lo hi text = leb lo (length text) && leb (length text) hi

-- `1.0`
unfoldable pub full : ℕ
full = 2 ^ 1074

unfoldable pub is_valid_entity : EntityDraft → Bool
is_valid_entity e =
    has_length 1 80 e.id
    && has_length 1 160 e.name
    && has_length 1 1000 e.evidence
    && leb e.confidence full

unfoldable pub is_valid_relation : RelationDraft → Bool
is_valid_relation r =
    has_length 1 80 r.source
    && has_length 1 80 r.target
    && has_length 1 1000 r.evidence
    && leb r.confidence full

abbrev pub ids_of : List EntityDraft → List Text
ids_of entities = map (λ (e : EntityDraft). e.id) entities

module _ (u : Unicode) where
  -- `(e.kind, e.name.casefold())`, the kind by its literal.
  abbrev pub name_key : EntityDraft → Text × Text
  name_key e = (entity_kind_text e.kind, u.casefold e.name)

  -- `validate_references`
  unfoldable pub has_valid_references : Extraction → Bool
  has_valid_references x =
      is_unique (ids_of x.entities)
      && is_unique (map name_key x.entities)
      && all
          (λ (r : RelationDraft).
            contains (ids_of x.entities) r.source && contains (ids_of x.entities) r.target)
          x.relations

  -- `Extraction.model_validate`
  unfoldable pub is_valid_extraction : Extraction → Bool
  unfolding is_valid_entity is_valid_relation has_valid_references
  is_valid_extraction x =
      all is_valid_entity x.entities
      && all is_valid_relation x.relations
      && leb (length x.entities) 100
      && leb (length x.relations) 200
      && has_valid_references x
