-- ===== src/Retrieval/Sources.antt =====
-- What a retrieval returns, and that the cache repeats it.
use enterprise_data_copilot.Prelude.{
  ℕ, ◌≤◌, ◌≡◌, ◌≢◌, refl, sym, subst, ◌∙◌, ◌⊎◌, inl, inr, Text, List, [], ◌∷◌, map, Option, none,
  some, All, All-take, IsIn, length, length-take-le, Bool-cases, ◌==◌, nat_eq, pair_eq,
}
use enterprise_data_copilot.Prelude.Strings.{text_eq}
use enterprise_data_copilot.Prelude.Dict.{Dict, lookup, insert, lookup-insert}
use enterprise_data_copilot.Prelude.Result.{ok, >>=-eq-ok, ok-injective}
use enterprise_data_copilot.Retrieval.Cache.{
  RetrievalMode, lexical, vector, hybrid, hybrid_rerank, mode_eq, RetrievalResult,
}
use enterprise_data_copilot.Retrieval.Models.{RankedChunk, RetrievalHit, Found}
use enterprise_data_copilot.Retrieval.Rank.{
  Scores, by_id_from, citation_of, add_hit, hits_of, order_of, rank, has_evidence,
}
use enterprise_data_copilot.Retrieval.Service.{
  Repository, candidate_limit, lexical_part, vector_part, reranked, searched,
}

some-injective : {A : Type 0} (x y : A) → ◌≡◌ {A = Option A} (some x) (some y) → x ≡ y
some-injective x y h = cc

module _ {W S : Type 0} (scores : Scores S) where
  -- The hit shows a chunk of one of the two searches, under its own citation.
  pub record IsFrom (lexicals vectors : List (RankedChunk W S)) (hit : RetrievalHit S)
      : Type 0 where
    pub item : RankedChunk W S
    pub listed : IsIn item lexicals ⊎ IsIn item vectors
    pub same_content : hit.content ≡ item.chunk.content
    pub same_citation : hit.citation ≡ citation_of scores item.chunk

  insert-keeps :
      (P : RankedChunk W S → Type 0) (k : ℕ) (x : RankedChunk W S) (d : Dict ℕ (RankedChunk W S))
      → P x
      → ((j : ℕ) (y : RankedChunk W S) → lookup j d ≡ some y → P y)
      → (j : ℕ) (y : RankedChunk W S) → lookup j (insert k x d) ≡ some y
      → P y
  insert-keeps P k x d p h j y found =
      let seen = sym (lookup-insert k j x d) ∙ found in
      elim (Bool-cases (k == j)) [
        | inl same ↦ subst P (some-injective x y (rw same at seen)) p
        | inr other ↦ h j y (rw other at seen)
      ]

  by_id_from-keeps :
      (P : RankedChunk W S → Type 0) (d : Dict ℕ (RankedChunk W S)) (items : List (RankedChunk W S))
      → ((x : RankedChunk W S) → IsIn x items → P x)
      → ((j : ℕ) (y : RankedChunk W S) → lookup j d ≡ some y → P y)
      → (j : ℕ) (y : RankedChunk W S) → lookup j (by_id_from scores d items) ≡ some y
      → P y
  by_id_from-keeps P d [] all_in h j y found = h j y found
  by_id_from-keeps P d (x ∷ items) all_in h j y found =
      by_id_from-keeps P (insert x.chunk.id x d) items (λ z m. all_in z (inr m))
        (insert-keeps P x.chunk.id x d (all_in x (inl refl)) h) j y found

  by_id_from-IsIn :
      (items : List (RankedChunk W S)) (j : ℕ) (y : RankedChunk W S)
      → lookup j (by_id_from scores [] items) ≡ some y
      → IsIn y items
  by_id_from-IsIn items j y found =
      by_id_from-keeps (λ x. IsIn x items) [] items (λ x m. m) (λ j y h. absurd (cc h)) j y found

  module _ (lexicals vectors : List (RankedChunk W S)) where
    add_hit-IsFrom :
        (a c : Option (RankedChunk W S)) (score : S) (hits : List (RetrievalHit S))
        → ((y : RankedChunk W S) → a ≡ some y → IsIn y lexicals)
        → ((y : RankedChunk W S) → c ≡ some y → IsIn y vectors)
        → All (IsFrom lexicals vectors) hits
        → All (IsFrom lexicals vectors) (add_hit scores a c score hits)
    add_hit-IsFrom (some item) c score hits f h rest = (
      record { item = item; listed = inl (f item refl); same_content = refl; same_citation = refl },
      rest,
    )
    add_hit-IsFrom none (some item) score hits f h rest = (
      record { item = item; listed = inr (h item refl); same_content = refl; same_citation = refl },
      rest,
    )
    add_hit-IsFrom none none score hits f h rest = rest

    hits_of-AreFrom :
        (order : List (ℕ × S))
        → All
            (IsFrom lexicals vectors)
            (hits_of scores (by_id_from scores [] lexicals) (by_id_from scores [] vectors) order)
    unfolding hits_of
    hits_of-AreFrom [] = tt
    hits_of-AreFrom ((id, score) ∷ order) =
        add_hit-IsFrom (lookup id (by_id_from scores [] lexicals))
          (lookup id (by_id_from scores [] vectors)) score _ (by_id_from-IsIn lexicals id)
          (by_id_from-IsIn vectors id) (hits_of-AreFrom order)

    rank-AreFrom :
        (mode : RetrievalMode) → All (IsFrom lexicals vectors) (rank scores lexicals vectors mode)
    unfolding rank
    rank-AreFrom mode = hits_of-AreFrom (order_of scores mode lexicals vectors)

  module _ (r : Repository W S) (tenant_id : ℕ) where
    -- A result that was searched for: few hits with their own citations, and, where no reranker took
    -- part, from the searches for this tenant.
    pub record IsSearched (query : Text) (mode : RetrievalMode) (limit : ℕ)
        (x : RetrievalResult (Found S)) : Type 0 where
      pub lexicals : List (RankedChunk W S)
      pub vectors : List (RankedChunk W S)
      pub lexical_search :
          lexical_part scores r tenant_id mode query (candidate_limit scores r tenant_id limit)
          ≡ ok lexicals
      pub vector_search :
          vector_part scores r tenant_id mode query (candidate_limit scores r tenant_id limit)
          ≡ ok vectors
      pub same_query : x.query ≡ query
      pub same_mode : x.mode ≡ mode
      pub same_revision : x.corpus_revision ≡ r.corpus_revision tenant_id
      pub few : length x.hits.hits ≤ limit
      pub cited : x.hits.citations ≡ map (λ (hit : RetrievalHit S). hit.citation) x.hits.hits
      pub judged : x.hits.should_answer ≡ has_evidence scores x.hits.hits mode
      pub sources : mode ≢ hybrid_rerank → All (IsFrom lexicals vectors) x.hits.hits

    reranked-plain :
        (mode : RetrievalMode) (query : Text) (hits found : List (RetrievalHit S))
        → mode ≢ hybrid_rerank
        → reranked scores r tenant_id mode query hits ≡ ok found
        → hits ≡ found
    reranked-plain lexical query hits found plain h = ok-injective h
    reranked-plain vector query hits found plain h = ok-injective h
    reranked-plain hybrid query hits found plain h = ok-injective h
    reranked-plain hybrid_rerank query hits found plain h = absurd (plain refl)

    pub searched-IsSearched :
        (query : Text) (mode : RetrievalMode) (limit : ℕ) (x : RetrievalResult (Found S))
        → searched scores r tenant_id query mode limit ≡ ok x
        → IsSearched query mode limit x
    unfolding searched
    searched-IsSearched query mode limit x h =
        let most = candidate_limit scores r tenant_id limit in
        let (lexicals, l, h₁) = >>=-eq-ok (lexical_part scores r tenant_id mode query most) _ h in
        let (vectors, v, h₂) = >>=-eq-ok (vector_part scores r tenant_id mode query most) _ h₁ in
        let (hits, ranked, h₃) =
          >>=-eq-ok (reranked scores r tenant_id mode query (rank scores lexicals vectors mode)) _
            h₂ in
        subst (IsSearched query mode limit) (ok-injective h₃) (record {
          lexicals = lexicals;
          vectors = vectors;
          lexical_search = l;
          vector_search = v;
          same_query = refl;
          same_mode = refl;
          same_revision = refl;
          few = length-take-le limit hits;
          cited = refl;
          judged = refl;
          sources = λ plain. All-take (IsFrom lexicals vectors) limit hits (
              subst (All (IsFrom lexicals vectors))
                (reranked-plain mode query (rank scores lexicals vectors mode) hits plain ranked)
                (rank-AreFrom lexicals vectors mode));
        })
