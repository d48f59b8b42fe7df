-- ===== src/Retrieval/Shown.antt =====
-- Retrieval over the repository in memory shows a tenant its own chunks.
use enterprise_data_copilot.Prelude.{
  ℕ, ◌≡◌, ◌≢◌, subst, ◌⊎◌, inl, inr, Text, Bool, List, [], ◌∷◌, Option, some, All, All-take,
  All-map, All-IsIn, Bool-cases,
}
use enterprise_data_copilot.Prelude.Result.{ok, ◌>>=◌, >>=-eq-ok, ok-injective}
use enterprise_data_copilot.Retrieval.Cache.{
  RetrievalMode, hybrid_rerank, lexical, vector, hybrid, RetrievalResult, get,
}
use enterprise_data_copilot.Retrieval.Models.{MetricChunk, RankedChunk, RetrievalHit, Found}
use enterprise_data_copilot.Retrieval.Rank.{Scores, citation_of}
use enterprise_data_copilot.Retrieval.Service.{
  Repository, Cached, lexical_part, vector_part, retrieve,
}
use enterprise_data_copilot.Retrieval.Sources.{IsFrom}
use enterprise_data_copilot.Retrieval.Answers.{own_key, retrieve-IsSearched}
use enterprise_data_copilot.Retrieval.Memory.{
  Memory, tenant_chunks, ranks_before, insert_chunk, sort_chunks, scored, search_chunks,
  memory_repository,
}
use enterprise_data_copilot.Retrieval.Own.{IsFilled, IsStored, filled-AreStored}

-- The hit shows a chunk that the memory holds for the tenant, under the citation of this chunk.
pub record IsOwn {W S : Type 0} (scores : Scores S) (memory : Memory W) (tenant_id : ℕ)
    (hit : RetrievalHit S) : Type 0 where
  pub chunk : MetricChunk W
  pub own : IsStored memory tenant_id chunk
  pub same_content : hit.content ≡ chunk.content
  pub same_citation : hit.citation ≡ citation_of scores chunk

module _ {W S : Type 0} (less : S → S → Bool) (is_positive : S → Bool) (str : ℕ → Text) where
  abbrev pub IsOf : Memory W → ℕ → RankedChunk W S → Type 0
  IsOf memory tenant_id item = IsStored memory tenant_id item.chunk

  module _ (memory : Memory W) (tenant_id : ℕ) (score : MetricChunk W → S) where
    scored-AreOf :
        (chunks : List (MetricChunk W))
        → All (IsStored memory tenant_id) chunks
        → All (IsOf memory tenant_id) (scored less is_positive str score chunks)
    scored-AreOf [] h = tt
    scored-AreOf (c ∷ cs) h = elim (Bool-cases (is_positive (score c))) [
      | inl holds ↦ rw holds (h.0, scored-AreOf cs h.1)
      | inr fails ↦ rw fails (scored-AreOf cs h.1)
    ]

    insert_chunk-AreOf :
        (item : RankedChunk W S) (items : List (RankedChunk W S))
        → IsOf memory tenant_id item
        → All (IsOf memory tenant_id) items
        → All (IsOf memory tenant_id) (insert_chunk less is_positive str score item items)
    unfolding insert_chunk
    insert_chunk-AreOf item [] own h = (own, tt)
    insert_chunk-AreOf item (other ∷ rest) own h =
        elim (Bool-cases (ranks_before less is_positive str score other item)) [
          | inl holds ↦ rw holds (h.0, insert_chunk-AreOf item rest own h.1)
          | inr fails ↦ rw fails (own, h)
        ]

    sort_chunks-AreOf :
        (items : List (RankedChunk W S))
        → All (IsOf memory tenant_id) items
        → All (IsOf memory tenant_id) (sort_chunks less is_positive str score items)
    unfolding sort_chunks
    sort_chunks-AreOf [] h = tt
    sort_chunks-AreOf (item ∷ items) h =
        insert_chunk-AreOf item (sort_chunks less is_positive str score items) h.0
          (sort_chunks-AreOf items h.1)

    search_chunks-AreOf :
        (limit : ℕ)
        → IsFilled memory
        → All
            (IsOf memory tenant_id)
            (search_chunks less is_positive str score tenant_id limit memory)
    unfolding search_chunks
    search_chunks-AreOf limit is_filled = All-take (IsOf memory tenant_id) limit _ (
        sort_chunks-AreOf _ (
          scored-AreOf (tenant_chunks tenant_id memory.entries)
            (filled-AreStored memory tenant_id is_filled)))

  module _ (scores : Scores S) (tenant_id : ℕ) (lexical_score : Text → MetricChunk W → S)
      (vector_score : W → MetricChunk W → S) (memory : Memory W) (settings : Repository W S)
      (is_filled : IsFilled memory) where
    abbrev repository : Repository W S
    repository = memory_repository less is_positive str lexical_score vector_score memory settings

    lexical_part-AreOf :
        (mode : RetrievalMode) (query : Text) (limit : ℕ) (items : List (RankedChunk W S))
        → lexical_part scores repository tenant_id mode query limit ≡ ok items
        → All (IsOf memory tenant_id) items
    lexical_part-AreOf vector query limit items h =
        subst (All (IsOf memory tenant_id)) (ok-injective h) tt
    lexical_part-AreOf lexical query limit items h =
        subst (All (IsOf memory tenant_id)) (ok-injective h)
          (search_chunks-AreOf memory tenant_id (lexical_score query) limit is_filled)
    lexical_part-AreOf hybrid query limit items h =
        subst (All (IsOf memory tenant_id)) (ok-injective h)
          (search_chunks-AreOf memory tenant_id (lexical_score query) limit is_filled)
    lexical_part-AreOf hybrid_rerank query limit items h =
        subst (All (IsOf memory tenant_id)) (ok-injective h)
          (search_chunks-AreOf memory tenant_id (lexical_score query) limit is_filled)

    embedded-AreOf :
        (query : Text) (limit : ℕ) (items : List (RankedChunk W S))
        → (settings.embed_query query >>= (λ e. repository.vector_search tenant_id e limit))
          ≡ ok items
        → All (IsOf memory tenant_id) items
    embedded-AreOf query limit items h =
        let (embedding, _, h₁) = >>=-eq-ok (settings.embed_query query) _ h in
        subst (All (IsOf memory tenant_id)) (ok-injective h₁)
          (search_chunks-AreOf memory tenant_id (vector_score embedding) limit is_filled)

    vector_part-AreOf :
        (mode : RetrievalMode) (query : Text) (limit : ℕ) (items : List (RankedChunk W S))
        → vector_part scores repository tenant_id mode query limit ≡ ok items
        → All (IsOf memory tenant_id) items
    vector_part-AreOf lexical query limit items h =
        subst (All (IsOf memory tenant_id)) (ok-injective h) tt
    vector_part-AreOf vector query limit items h = embedded-AreOf query limit items h
    vector_part-AreOf hybrid query limit items h = embedded-AreOf query limit items h
    vector_part-AreOf hybrid_rerank query limit items h = embedded-AreOf query limit items h

    IsFrom-IsOwn :
        (lexicals vectors : List (RankedChunk W S)) (hit : RetrievalHit S)
        → All (IsOf memory tenant_id) lexicals
        → All (IsOf memory tenant_id) vectors
        → IsFrom scores lexicals vectors hit
        → IsOwn scores memory tenant_id hit
    IsFrom-IsOwn lexicals vectors hit l v i = record {
      chunk = i.item.chunk;
      own = elim i.listed [
        | inl there ↦ All-IsIn (IsOf memory tenant_id) lexicals i.item l there
        | inr there ↦ All-IsIn (IsOf memory tenant_id) vectors i.item v there
      ];
      same_content = i.same_content;
      same_citation = i.same_citation;
    }

    -- Over a repository in memory, a retrieval without a reranker answers from the cache, or every
    -- hit shows a chunk that is stored in a document of the tenant, under the citation of this chunk.
    pub retrieve-IsOwn :
        (now : ℕ) (query : Text) (mode : RetrievalMode) (given : Option ℕ) (cache : Cached S)
        (x : RetrievalResult (Found S))
        → mode ≢ hybrid_rerank
        → (retrieve scores repository tenant_id now query mode given cache).0 ≡ ok x
        → ((get now (own_key scores tenant_id repository query mode given) cache).0 ≡ some x)
          ⊎ All (IsOwn scores memory tenant_id) x.hits.hits
    retrieve-IsOwn now query mode given cache x plain h =
        elim (retrieve-IsSearched scores tenant_id repository query mode given now cache x h) [
          | inl cached ↦ inl cached
          | inr i ↦ inr (
              All-map
                (λ hit from.
                  IsFrom-IsOwn i.lexicals i.vectors hit
                    (lexical_part-AreOf mode _ _ i.lexicals i.lexical_search)
                    (vector_part-AreOf mode _ _ i.vectors i.vector_search) from)
                x.hits.hits (i.sources plain))
        ]
