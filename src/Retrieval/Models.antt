-- ===== src/Retrieval/Models.antt =====
-- The chunks and hits of agent-service/app/retrieval/models.py. `S` is the type of the scores and `W` that
-- of the embeddings; both are floats in the program.
use enterprise_data_copilot.Prelude.{ℕ, Text, Bool, List, Option}
use enterprise_data_copilot.Agent.State.{Citation}

pub data SourceType : Type 0 where
  markdown pdf : SourceType

pub record PendingMetricChunk (W : Type 0) : Type 0 where
  pub section_key : Text
  pub section_title : Text
  pub source_locator : Text
  pub ordinal : ℕ
  pub content : Text
  pub embedding : W

-- The status of a document in memory is always ACTIVE.
pub record StoredMetricDocument : Type 0 where
  pub id : ℕ
  pub tenant_id : ℕ
  pub title : Text
  pub version : ℕ
  pub source_type : SourceType
  pub source_name : Text
  pub content_sha256 : Text
  pub chunk_count : ℕ
  pub created_at : ℕ
  pub updated_at : ℕ

pub record MetricChunk (W : Type 0) : Type 0 where
  pub id : ℕ
  pub tenant_id : ℕ
  pub document_id : ℕ
  pub document_title : Text
  pub document_version : ℕ
  pub section_key : Text
  pub section_title : Text
  pub source_locator : Text
  pub ordinal : ℕ
  pub content : Text
  pub embedding : W

pub record RankedChunk (W S : Type 0) : Type 0 where
  pub chunk : MetricChunk W
  pub score : S

pub record RetrievalHit (S : Type 0) : Type 0 where
  pub content : Text
  pub citation : Citation
  pub lexical_score : Option S
  pub vector_score : Option S
  pub fused_score : S
  pub rerank_score : Option S

-- The parts of a `RetrievalResult` that the cache only passes on.
pub record Found (S : Type 0) : Type 0 where
  pub hits : List (RetrievalHit S)
  pub citations : List Citation
  pub should_answer : Bool
