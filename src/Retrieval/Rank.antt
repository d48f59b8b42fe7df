-- ===== src/Retrieval/Rank.antt =====
-- `_rank` and `_has_evidence` of agent-service/app/retrieval/service.py.
use enterprise_data_copilot.Prelude.{
  ℕ, ◌+◌, Text, Bool, true, false, not, ◌&&◌, ◌||◌, List, [], ◌∷◌, map, Option, none, some, any,
  is_none_left, nat_eq, if◌then◌else◌,
}
use enterprise_data_copilot.Prelude.Strings.{text_lt}
use enterprise_data_copilot.Prelude.Dict.{Dict, lookup, insert}
use enterprise_data_copilot.Agent.State.{Citation}
use enterprise_data_copilot.Retrieval.Cache.{RetrievalMode, lexical, vector, hybrid, hybrid_rerank}
use enterprise_data_copilot.Retrieval.Models.{MetricChunk, RankedChunk, RetrievalHit}

-- The arithmetic on scores: `max(0.0, s)`, the sum, `weight / (rrf_k + rank)`, the order, and whether
-- `score or 0` and `score or -1` reach the two limits; and the text of a UUID.
pub record Scores (S : Type 0) : Type 0 where
  pub zero_score : S
  pub clipped : S → S
  pub add : S → S → S
  pub share : ℕ → ℕ → S
  pub less : S → S → Bool
  pub is_lexical_evidence : Option S → Bool
  pub is_vector_evidence : Option S → Bool
  pub rrf_k : ℕ
  pub str : ℕ → Text

abbrev pub uses_lexical : RetrievalMode → Bool
uses_lexical lexical = true
uses_lexical vector = false
uses_lexical hybrid = true
uses_lexical hybrid_rerank = true

abbrev pub uses_vector : RetrievalMode → Bool
uses_vector lexical = false
uses_vector vector = true
uses_vector hybrid = true
uses_vector hybrid_rerank = true

module _ {S : Type 0} (scores : Scores S) where
  abbrev pub score_or_zero : Option S → S
  score_or_zero none = scores.zero_score
  score_or_zero (some s) = s

  -- The order of `(-score, str(id))`.
  abbrev pub comes_before : ℕ × S → ℕ × S → Bool
  comes_before (i, s) (j, t) =
      scores.less t s || (not (scores.less s t) && text_lt (scores.str i) (scores.str j))

  unfoldable pub insert_ranked : ℕ × S → List (ℕ × S) → List (ℕ × S)
  insert_ranked entry [] = entry ∷ []
  insert_ranked entry (other ∷ rest) =
      let after = insert_ranked entry rest in
      if comes_before other entry then other ∷ after else entry ∷ other ∷ rest

  unfoldable pub sort_ranked : List (ℕ × S) → List (ℕ × S)
  unfolding insert_ranked
  sort_ranked [] = []
  sort_ranked (entry ∷ rest) = insert_ranked entry (sort_ranked rest)

  unfoldable pub has_evidence : List (RetrievalHit S) → RetrievalMode → Bool
  has_evidence hits mode =
      not (is_none_left hits)
      && (uses_lexical mode
            && any (λ (hit : RetrievalHit S). scores.is_lexical_evidence hit.lexical_score) hits
          || uses_vector mode
            && any (λ (hit : RetrievalHit S). scores.is_vector_evidence hit.vector_score) hits)

module _ {W S : Type 0} (scores : Scores S) where
  abbrev pub by_id_from :
      Dict ℕ (RankedChunk W S) → List (RankedChunk W S) → Dict ℕ (RankedChunk W S)
  by_id_from d [] = d
  by_id_from d (item ∷ items) = by_id_from (insert item.chunk.id item d) items

  abbrev pub clipped_order : List (RankedChunk W S) → List (ℕ × S)
  clipped_order items =
      map (λ (item : RankedChunk W S). (item.chunk.id, scores.clipped item.score)) items

  -- `for rank, item in enumerate(ranking, start=1)`
  unfoldable pub fuse : ℕ → ℕ → List (RankedChunk W S) → Dict ℕ S → Dict ℕ S
  fuse weight rank [] fused = fused
  fuse weight rank (item ∷ items) fused = fuse weight (rank + 1) items (
      insert item.chunk.id
        (scores.add (score_or_zero scores (lookup item.chunk.id fused))
          (scores.share weight (scores.rrf_k + rank)))
        fused)

  unfoldable pub order_of :
      RetrievalMode → List (RankedChunk W S) → List (RankedChunk W S) → List (ℕ × S)
  unfolding fuse sort_ranked
  order_of lexical lexicals vectors = clipped_order lexicals
  order_of vector lexicals vectors = clipped_order vectors
  order_of hybrid lexicals vectors = sort_ranked scores (fuse 1 1 vectors (fuse 3 1 lexicals []))
  order_of hybrid_rerank lexicals vectors =
      sort_ranked scores (fuse 1 1 vectors (fuse 3 1 lexicals []))

  abbrev pub citation_of : MetricChunk W → Citation
  citation_of chunk = record {
    document_id = chunk.document_id;
    document_title = chunk.document_title;
    document_version = chunk.document_version;
    section_key = chunk.section_key;
    section_title = chunk.section_title;
    source_locator = chunk.source_locator;
  }

  abbrev pub score_of : Option (RankedChunk W S) → Option S
  score_of none = none
  score_of (some item) = some item.score

  abbrev pub hit_of :
      MetricChunk W → Option (RankedChunk W S) → Option (RankedChunk W S) → S → RetrievalHit S
  hit_of chunk lexical_item vector_item fused_score = record {
    content = chunk.content;
    citation = citation_of chunk;
    lexical_score = score_of lexical_item;
    vector_score = score_of vector_item;
    fused_score = fused_score;
    rerank_score = none;
  }

  -- The body of the loop: a hit in front of the others, or none.
  abbrev pub add_hit :
      Option (RankedChunk W S)
      → Option (RankedChunk W S)
      → S
      → List (RetrievalHit S)
      → List (RetrievalHit S)
  add_hit (some item) vector_item score hits =
      hit_of item.chunk (some item) vector_item score ∷ hits
  add_hit none (some item) score hits = hit_of item.chunk none (some item) score ∷ hits
  add_hit none none score hits = hits

  unfoldable pub hits_of :
      Dict ℕ (RankedChunk W S) → Dict ℕ (RankedChunk W S) → List (ℕ × S) → List (RetrievalHit S)
  hits_of lexical_by_id vector_by_id [] = []
  hits_of lexical_by_id vector_by_id ((id, score) ∷ order) =
      add_hit (lookup id lexical_by_id) (lookup id vector_by_id) score
        (hits_of lexical_by_id vector_by_id order)

  unfoldable pub rank :
      List (RankedChunk W S) → List (RankedChunk W S) → RetrievalMode → List (RetrievalHit S)
  unfolding order_of hits_of
  rank lexicals vectors mode =
      hits_of (by_id_from [] lexicals) (by_id_from [] vectors) (order_of mode lexicals vectors)
