-- ===== src/Retrieval/Service.antt =====
-- `MetricRetrievalService.retrieve` of agent-service/app/retrieval/service.py. The clock's reading, the
-- repository, the embeddings and the reranker are parameters; the cache is passed on.
use enterprise_data_copilot.Prelude.{
  ℕ, ◌*◌, min, max, Text, Bool, not, ◌&&◌, ◌||◌, List, [], map, Option, none, some, length, take,
  leb, ltb, if◌then◌else◌, nat_eq, pair_eq,
}
use enterprise_data_copilot.Prelude.Strings.{is_empty, normalize_space, text_eq}
use enterprise_data_copilot.Prelude.Dict.{Dict}
use enterprise_data_copilot.Prelude.Result.{Result, ok, err, ◌>>=◌}
use enterprise_data_copilot.Agent.State.{get_or}
use enterprise_data_copilot.Retrieval.Cache.{
  RetrievalMode, hybrid_rerank, mode_eq, RetrievalResult, Entry, Key, key_of, get, put,
}
use enterprise_data_copilot.Retrieval.Models.{RankedChunk, RetrievalHit, Found}
use enterprise_data_copilot.Retrieval.Rank.{Scores, uses_lexical, uses_vector, rank, has_evidence}

-- The `ValueError`s, and an exception of a collaborator.
pub data RetrieveError : Type 0 where
  value_error collaborator : RetrieveError

-- `embed_query` stands for `embed((query,))[0]`.
pub record Repository (W S : Type 0) : Type 0 where
  pub corpus_revision : ℕ → Text
  pub lexical_search : ℕ → Text → ℕ → Result RetrieveError (List (RankedChunk W S))
  pub vector_search : ℕ → W → ℕ → Result RetrieveError (List (RankedChunk W S))
  pub embed_query : Text → Result RetrieveError W
  pub reranker :
      Option (Text → List (RetrievalHit S) → Result RetrieveError (List (RetrievalHit S)))
  pub default_limit : ℕ
  pub ttl_seconds : ℕ

abbrev pub Cached : Type 0 → Type 0
Cached S = Dict Key (Entry (Found S))

module _ {W S : Type 0} (scores : Scores S) (r : Repository W S) (tenant_id : ℕ) where
  abbrev pub candidate_limit : ℕ → ℕ
  candidate_limit limit = min 100 (max (limit * 4) 20)

  abbrev pub lexical_part : RetrievalMode → Text → ℕ → Result RetrieveError (List (RankedChunk W S))
  lexical_part mode query limit =
      if uses_lexical mode then r.lexical_search tenant_id query limit else ok []

  abbrev pub vector_part : RetrievalMode → Text → ℕ → Result RetrieveError (List (RankedChunk W S))
  vector_part mode query limit =
      if uses_vector mode
      then r.embed_query query >>= (λ embedding. r.vector_search tenant_id embedding limit)
      else ok []

  abbrev pub rerank_with :
      Option (Text → List (RetrievalHit S) → Result RetrieveError (List (RetrievalHit S)))
      → Text
      → List (RetrievalHit S)
      → Result RetrieveError (List (RetrievalHit S))
  rerank_with none query hits = err value_error
  rerank_with (some rerank) query hits = rerank query hits

  abbrev pub reranked :
      RetrievalMode → Text → List (RetrievalHit S) → Result RetrieveError (List (RetrievalHit S))
  reranked hybrid_rerank query hits = rerank_with r.reranker query hits
  reranked mode query hits = ok hits

  -- `RetrievalResult(...)` on the hits, cut to the limit.
  abbrev pub result_of :
      Text → RetrievalMode → ℕ → List (RetrievalHit S) → RetrievalResult (Found S)
  result_of query mode limit hits = record {
    query = query;
    mode = mode;
    corpus_revision = r.corpus_revision tenant_id;
    hits = record {
      hits = take limit hits;
      citations = map (λ (hit : RetrievalHit S). hit.citation) (take limit hits);
      should_answer = has_evidence scores (take limit hits) mode;
    };
  }

  unfoldable pub searched :
      Text → RetrievalMode → ℕ → Result RetrieveError (RetrievalResult (Found S))
  unfolding rank has_evidence
  searched query mode limit = do
    lexicals ← lexical_part mode query (candidate_limit limit)
    vectors ← vector_part mode query (candidate_limit limit)
    hits ← reranked mode query (rank scores lexicals vectors mode)
    ok (result_of query mode limit hits)

  -- `self._cache.put` after a search that returned.
  abbrev pub stored :
      ℕ
      → ℕ
      → Cached S
      → Result RetrieveError (RetrievalResult (Found S))
      → Result RetrieveError (RetrievalResult (Found S)) × Cached S
  stored now limit cache (ok result) =
      (ok result, put r.ttl_seconds now tenant_id result limit cache)
  stored now limit cache (err e) = (err e, cache)

  abbrev pub after_cache :
      ℕ
      → Text
      → RetrievalMode
      → ℕ
      → Option (RetrievalResult (Found S)) × Cached S
      → Result RetrieveError (RetrievalResult (Found S)) × Cached S
  after_cache now query mode limit (some result, cache) = (ok result, cache)
  after_cache now query mode limit (none, cache) =
      stored now limit cache (searched query mode limit)

  -- The text and the limit that are accepted.
  abbrev pub is_bad_query : Text → Bool
  is_bad_query query = is_empty query || ltb 4000 (length query)

  abbrev pub is_bad_limit : ℕ → Bool
  is_bad_limit limit = not (leb 1 limit && leb limit 20)

  unfoldable pub retrieve :
      ℕ
      → Text
      → RetrievalMode
      → Option ℕ
      → Cached S
      → Result RetrieveError (RetrievalResult (Found S)) × Cached S
  unfolding get put searched
  retrieve now query mode given cache =
      let normalized = normalize_space query in
      let limit = get_or r.default_limit given in
      let key = key_of tenant_id normalized (r.corpus_revision tenant_id) mode limit in
      let answer = after_cache now normalized mode limit (get now key cache) in
      if is_bad_query normalized || is_bad_limit limit then (err value_error, cache) else answer
