-- ===== src/Retrieval/Memory.antt =====
-- `InMemoryMetricKnowledgeRepository` of agent-service/app/retrieval/repository.py. The clock's reading,
-- the fresh UUIDs and the scores of a chunk are parameters.
use enterprise_data_copilot.Prelude.{
  ℕ, ◌+◌, Text, Bool, not, ◌&&◌, ◌||◌, List, [], ◌∷◌, ◌++◌, map, Option, none, some, codes, keep,
  length, take, ltb, is_none_left, ◌==◌, if◌then◌else◌, nat_eq, pair_eq,
}
use enterprise_data_copilot.Prelude.Strings.{text_eq, text_lt, show_nat}
use enterprise_data_copilot.Prelude.Dict.{Dict, lookup, insert}
use enterprise_data_copilot.Prelude.Result.{Result, ok, err}
use enterprise_data_copilot.Agent.State.{get_or}
use enterprise_data_copilot.Retrieval.Models.{
  SourceType, PendingMetricChunk, StoredMetricDocument, MetricChunk, RankedChunk,
}
use enterprise_data_copilot.Retrieval.Service.{RetrieveError, value_error, Repository}

pub record DocumentEntry (W : Type 0) : Type 0 where
  pub document : StoredMetricDocument
  pub chunks : List (MetricChunk W)

-- The attributes but for the two counters of calls. A revision that is missing is 0.
pub record Memory (W : Type 0) : Type 0 where
  pub entries : Dict (ℕ × Text) (DocumentEntry W)
  pub revisions : Dict ℕ ℕ

-- The keyword arguments of `replace_document` but for the chunks.
pub record NewDocument : Type 0 where
  pub tenant_id : ℕ
  pub title : Text
  pub source_type : SourceType
  pub source_name : Text
  pub content_sha256 : Text

abbrev pub document_of : NewDocument → ℕ → ℕ → ℕ → ℕ → StoredMetricDocument
document_of new now document_id version chunk_count = record {
  id = document_id;
  tenant_id = new.tenant_id;
  title = new.title;
  version = version;
  source_type = new.source_type;
  source_name = new.source_name;
  content_sha256 = new.content_sha256;
  chunk_count = chunk_count;
  created_at = now;
  updated_at = now;
}

module _ {W : Type 0} where
  abbrev pub next_version : Option (DocumentEntry W) → ℕ
  next_version none = 1
  next_version (some entry) = entry.document.version + 1

  abbrev pub chunk_of : NewDocument → ℕ → ℕ → ℕ → PendingMetricChunk W → MetricChunk W
  chunk_of new document_id version id chunk = record {
    id = id;
    tenant_id = new.tenant_id;
    document_id = document_id;
    document_title = new.title;
    document_version = version;
    section_key = chunk.section_key;
    section_title = chunk.section_title;
    source_locator = chunk.source_locator;
    ordinal = chunk.ordinal;
    content = chunk.content;
    embedding = chunk.embedding;
  }

  -- The stored chunks; `fresh n` is the UUID of the n-th.
  unfoldable pub chunks_of :
      (ℕ → ℕ) → NewDocument → ℕ → ℕ → ℕ → List (PendingMetricChunk W) → List (MetricChunk W)
  chunks_of fresh new document_id version n [] = []
  chunks_of fresh new document_id version n (chunk ∷ chunks) =
      chunk_of new document_id version (fresh n) chunk
      ∷ chunks_of fresh new document_id version (n + 1) chunks

  abbrev pub revision_of : Memory W → ℕ → ℕ
  revision_of memory tenant_id = get_or 0 (lookup tenant_id memory.revisions)

  -- What is stored of a document that has chunks.
  abbrev pub stored_document :
      (ℕ → ℕ)
      → NewDocument
      → ℕ
      → ℕ
      → List (PendingMetricChunk W)
      → Memory W
      → StoredMetricDocument × Memory W
  stored_document fresh new now document_id chunks memory =
      let version = next_version (lookup (new.tenant_id, new.title) memory.entries) in
      let document = document_of new now document_id version (length chunks) in
      let entry : DocumentEntry W = record {
        document = document;
        chunks = chunks_of fresh new document_id version 0 chunks;
      } in
      (
        document,
        record {
          entries = insert (new.tenant_id, new.title) entry memory.entries;
          revisions = insert new.tenant_id (revision_of memory new.tenant_id + 1) memory.revisions;
        },
      )

  unfoldable pub replace_document :
      (ℕ → ℕ)
      → NewDocument
      → ℕ
      → ℕ
      → List (PendingMetricChunk W)
      → Memory W
      → Result RetrieveError (StoredMetricDocument × Memory W)
  unfolding chunks_of
  replace_document fresh new now document_id chunks memory =
      if is_none_left chunks
      then err value_error
      else ok (stored_document fresh new now document_id chunks memory)

  unfoldable pub corpus_revision : Memory W → ℕ → Text
  corpus_revision memory tenant_id = codes "memory:" ++ show_nat (revision_of memory tenant_id)

  -- `_tenant_chunks`
  unfoldable pub tenant_chunks : ℕ → Dict (ℕ × Text) (DocumentEntry W) → List (MetricChunk W)
  tenant_chunks tenant_id [] = []
  tenant_chunks tenant_id (((tenant, title), entry) ∷ entries) =
      let rest = tenant_chunks tenant_id entries in
      if tenant == tenant_id then entry.chunks ++ rest else rest

  module _ {S : Type 0} (less : S → S → Bool) (is_positive : S → Bool) (str : ℕ → Text)
      (score : MetricChunk W → S) where
    -- The order of `(-score, ordinal, str(id))`.
    abbrev pub ranks_before : RankedChunk W S → RankedChunk W S → Bool
    ranks_before a c =
        less c.score a.score
        || (not (less a.score c.score)
            && (ltb a.chunk.ordinal c.chunk.ordinal
                || (a.chunk.ordinal == c.chunk.ordinal
                    && text_lt (str a.chunk.id) (str c.chunk.id))))

    unfoldable pub insert_chunk : RankedChunk W S → List (RankedChunk W S) → List (RankedChunk W S)
    insert_chunk item [] = item ∷ []
    insert_chunk item (other ∷ rest) =
        let after = insert_chunk item rest in
        if ranks_before other item then other ∷ after else item ∷ other ∷ rest

    unfoldable pub sort_chunks : List (RankedChunk W S) → List (RankedChunk W S)
    unfolding insert_chunk
    sort_chunks [] = []
    sort_chunks (item ∷ items) = insert_chunk item (sort_chunks items)

    abbrev pub scored : List (MetricChunk W) → List (RankedChunk W S)
    scored chunks =
        keep (λ (item : RankedChunk W S). is_positive item.score)
          (map (λ chunk. record { chunk = chunk; score = score chunk }) chunks)

    -- `lexical_search` and `vector_search`, each with its own score of a chunk.
    unfoldable pub search_chunks : ℕ → ℕ → Memory W → List (RankedChunk W S)
    unfolding sort_chunks tenant_chunks
    search_chunks tenant_id limit memory =
        take limit (sort_chunks (scored (tenant_chunks tenant_id memory.entries)))

-- The repository over what is in memory, for `MetricRetrievalService`.
abbrev pub memory_repository :
    {W S : Type 0}
    → (S → S → Bool)
    → (S → Bool)
    → (ℕ → Text)
    → (Text → MetricChunk W → S)
    → (W → MetricChunk W → S)
    → Memory W
    → Repository W S
    → Repository W S
memory_repository less is_positive str lexical_score vector_score memory settings =
    record settings {
      corpus_revision = corpus_revision memory;
      lexical_search = λ tenant_id query limit.
          ok (search_chunks less is_positive str (lexical_score query) tenant_id limit memory);
      vector_search = λ tenant_id embedding limit.
          ok (search_chunks less is_positive str (vector_score embedding) tenant_id limit memory);
    }
