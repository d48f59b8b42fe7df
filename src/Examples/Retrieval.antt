-- ===== src/Examples/Retrieval.antt =====
-- One document in memory, retrieved once and then again.
use enterprise_data_copilot.Prelude.{
  ℕ, ◌+◌, ◌≡◌, ◌≢◌, refl, ◌⊎◌, true, List, [], ◌∷◌, none, some, All, codes, ltb, arith,
}
use enterprise_data_copilot.Prelude.Strings.{normalize_space, show_nat}
use enterprise_data_copilot.Prelude.Result.{Result, ok, err}
use enterprise_data_copilot.Retrieval.Cache.{RetrievalMode, lexical, RetrievalResult, get}
use enterprise_data_copilot.Retrieval.Models.{markdown, PendingMetricChunk, Found}
use enterprise_data_copilot.Retrieval.Rank.{Scores, order_of, hits_of, rank, has_evidence}
use enterprise_data_copilot.Retrieval.Service.{RetrieveError, Repository, searched, retrieve}
use enterprise_data_copilot.Retrieval.Answers.{own_key, retrieve-repeats}
use enterprise_data_copilot.Retrieval.Memory.{
  Memory, NewDocument, stored_document, chunks_of, replace_document, corpus_revision, tenant_chunks,
  insert_chunk, sort_chunks, search_chunks, memory_repository,
}
use enterprise_data_copilot.Retrieval.Own.{IsFilled, filled, empty}
use enterprise_data_copilot.Retrieval.Shown.{IsOwn, retrieve-IsOwn}
use enterprise_data_copilot.Retrieval.Cache
use enterprise_data_copilot.Examples.Dialect.{orders}

abbrev scores : Scores ℕ
scores = record {
  zero_score = 0;
  clipped = λ s. s;
  add = λ s t. s + t;
  share = λ weight place. weight;
  less = ltb;
  is_lexical_evidence = λ s. true;
  is_vector_evidence = λ s. true;
  rrf_k = 60;
  str = show_nat;
}

abbrev nothing_stored : Memory ℕ
nothing_stored = record { entries = []; revisions = [] }

abbrev new : NewDocument
new = record {
  tenant_id = 1;
  title = orders;
  source_type = markdown;
  source_name = codes "orders.md";
  content_sha256 = [];
}

abbrev pending : List (PendingMetricChunk ℕ)
pending =
    record {
      section_key = codes "orders.md#orders";
      section_title = orders;
      source_locator = codes "lines=1-2";
      ordinal = 0;
      content = codes "An order is a purchase.";
      embedding = 0;
    }
    ∷ []

abbrev memory : Memory ℕ
memory = (stored_document (λ n. n) new 5 9 pending nothing_stored).1

memory-IsFilled : IsFilled memory
unfolding replace_document chunks_of
memory-IsFilled =
    filled empty (λ n. n) new 5 9 pending
      (stored_document (λ n. n) new 5 9 pending nothing_stored).0 memory refl

abbrev settings : Repository ℕ ℕ
settings = record {
  corpus_revision = λ tenant. [];
  lexical_search = λ tenant query limit. ok [];
  vector_search = λ tenant embedding limit. ok [];
  embed_query = λ query. ok 0;
  reranker = none;
  default_limit = 5;
  ttl_seconds = 300;
}

abbrev repository : Repository ℕ ℕ
repository =
    memory_repository ltb (λ s. true) show_nat (λ query c. 1) (λ embedding c. 1) memory settings

abbrev result_or :
    RetrievalResult (Found ℕ)
    → Result RetrieveError (RetrievalResult (Found ℕ))
    → RetrievalResult (Found ℕ)
result_or x (ok y) = y
result_or x (err e) = x

abbrev no_result : RetrievalResult (Found ℕ)
no_result = record {
  query = [];
  mode = lexical;
  corpus_revision = [];
  hits = record { hits = []; citations = []; should_answer = true };
}

abbrev result : RetrievalResult (Found ℕ)
result = result_or no_result (retrieve scores repository 1 10 orders lexical none []).0

orders_retrieved : (retrieve scores repository 1 10 orders lexical none []).0 ≡ ok result
unfolding retrieve searched Cache.get Cache.put rank order_of hits_of has_evidence search_chunks
    sort_chunks insert_chunk tenant_chunks chunks_of corpus_revision normalize_space
orders_retrieved = refl

lexical_only : lexical ≢ RetrievalMode.hybrid_rerank
lexical_only h = cc

nothing_cached :
    (get {Hits = Found ℕ} 10 (own_key scores 1 repository orders lexical none) []).0 ≡ none
unfolding Cache.get
nothing_cached = refl

retrieve-IsOwn_example :
    ((get 10 (own_key scores 1 repository orders lexical none) []).0 ≡ some result)
    ⊎ All (IsOwn scores memory 1) result.hits.hits
retrieve-IsOwn_example =
    retrieve-IsOwn ltb (λ s. true) show_nat scores 1 (λ query c. 1) (λ embedding c. 1) memory
      settings memory-IsFilled 10 orders lexical none [] result lexical_only orders_retrieved

-- The searches of the second repository find nothing, under the same revision.
abbrev emptied : Repository ℕ ℕ
emptied = record settings { corpus_revision = corpus_revision memory }

retrieve-repeats_example :
    (retrieve scores emptied 1 309 orders lexical none
      (retrieve scores repository 1 10 orders lexical none []).1).0
    ≡ ok result
retrieve-repeats_example =
    retrieve-repeats scores 1 repository orders lexical none emptied 10 309 [] result refl refl
      nothing_cached orders_retrieved (omega arith)
