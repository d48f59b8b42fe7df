-- ===== src/Retrieval/Answers.antt =====
-- `retrieve` with its cache.
use enterprise_data_copilot.Prelude.{
  ℕ, ◌+◌, ◌<◌, ◌≡◌, refl, ap, ◌∙◌, ◌⊎◌, inl, inr, Text, Bool, true, false, ◌||◌, Option, none, some,
  arith, Bool-cases, ◌==◌, ≡→==, leb, nat_eq, pair_eq,
}
use enterprise_data_copilot.Prelude.Strings.{normalize_space, text_eq}
use enterprise_data_copilot.Prelude.Result.{Result, ok, err, ok-injective}
use enterprise_data_copilot.Agent.State.{get_or}
use enterprise_data_copilot.Retrieval.Cache.{
  RetrievalMode, mode_eq, RetrievalResult, Key, key_of, get, put,
}
use enterprise_data_copilot.Retrieval.Tenants.{get-put}
use enterprise_data_copilot.Retrieval.Models.{Found}
use enterprise_data_copilot.Retrieval.Rank.{Scores}
use enterprise_data_copilot.Retrieval.Service.{
  RetrieveError, Repository, Cached, searched, stored, after_cache, is_bad_query, is_bad_limit,
  retrieve,
}
use enterprise_data_copilot.Retrieval.Sources.{IsSearched, searched-IsSearched}

module _ {W S : Type 0} (scores : Scores S) (tenant_id : ℕ) where
  stored-ok :
      (r : Repository W S) (now limit : ℕ) (cache : Cached S)
      (m : Result RetrieveError (RetrievalResult (Found S))) (x : RetrievalResult (Found S))
      → (stored scores r tenant_id now limit cache m).0 ≡ ok x
      → (m ≡ ok x)
        × ((stored scores r tenant_id now limit cache m).1
            ≡ put r.ttl_seconds now tenant_id x limit cache)
  stored-ok r now limit cache (ok y) x h =
      (h, ap (λ z. put r.ttl_seconds now tenant_id z limit cache) (ok-injective h))
  stored-ok r now limit cache (err e) x h = cc

  -- What follows the cache returns the cached result, or a searched one, which is then stored.
  after_cache-ok :
      (r : Repository W S) (now : ℕ) (query : Text) (mode : RetrievalMode) (limit : ℕ)
      (found : Option (RetrievalResult (Found S)) × Cached S) (x : RetrievalResult (Found S))
      → (after_cache scores r tenant_id now query mode limit found).0 ≡ ok x
      → (found.0 ≡ some x)
        ⊎ ((searched scores r tenant_id query mode limit ≡ ok x)
            × ((after_cache scores r tenant_id now query mode limit found).1
                ≡ put r.ttl_seconds now tenant_id x limit found.1))
  after_cache-ok r now query mode limit (some y, cache) x h = inl (ap some (ok-injective h))
  after_cache-ok r now query mode limit (none, cache) x h =
      inr (stored-ok r now limit cache (searched scores r tenant_id query mode limit) x h)

  after_cache-some :
      (r : Repository W S) (now : ℕ) (query : Text) (mode : RetrievalMode) (limit : ℕ)
      (found : Option (RetrievalResult (Found S)) × Cached S) (x : RetrievalResult (Found S))
      → found.0 ≡ some x
      → (after_cache scores r tenant_id now query mode limit found).0 ≡ ok x
  after_cache-some r now query mode limit (some y, cache) x h = ground arith
  after_cache-some r now query mode limit (none, cache) x h = cc

  module _ (r : Repository W S) (query : Text) (mode : RetrievalMode) (given : Option ℕ) where
    abbrev limit : ℕ
    limit = get_or r.default_limit given

    abbrev pub own_key : Key
    own_key =
        key_of tenant_id (normalize_space query) (r.corpus_revision tenant_id) mode
          (get_or r.default_limit given)

    abbrev is_bad : Bool
    is_bad =
        is_bad_query scores r tenant_id (normalize_space query)
        || is_bad_limit scores r tenant_id limit

    -- A result is the live one of the cache under the key of the tenant, the text, the revision,
    -- the mode and the limit, or it was searched for.
    pub retrieve-IsSearched :
        (now : ℕ) (cache : Cached S) (x : RetrievalResult (Found S))
        → (retrieve scores r tenant_id now query mode given cache).0 ≡ ok x
        → ((get now own_key cache).0 ≡ some x)
          ⊎ IsSearched scores r tenant_id
              (normalize_space query)
              mode
              (get_or r.default_limit given)
              x
    unfolding retrieve
    retrieve-IsSearched now cache x h = elim (Bool-cases is_bad) [
      | inl bad ↦ absurd (cc (rw bad at h))
      | inr good ↦
          elim (after_cache-ok r now (normalize_space query) mode limit (get now own_key cache) x
            (rw good at h)) [
              | inl cached ↦ inl cached
              | inr (found, _) ↦ inr (
                  searched-IsSearched scores r tenant_id (normalize_space query) mode limit x found)
            ]
    ]

    fresh-stored :
        (now : ℕ) (cache : Cached S) (x : RetrievalResult (Found S))
        → (get now own_key cache).0 ≡ none
        → (retrieve scores r tenant_id now query mode given cache).0 ≡ ok x
        → (is_bad ≡ false)
          × IsSearched scores r tenant_id (normalize_space query) mode limit x
          × ((retrieve scores r tenant_id now query mode given cache).1
              ≡ put r.ttl_seconds now tenant_id x limit (get now own_key cache).1)
    unfolding retrieve
    fresh-stored now cache x fresh h = elim (Bool-cases is_bad) [
      | inl bad ↦ absurd (cc (rw bad at h))
      | inr good ↦
          elim (after_cache-ok r now (normalize_space query) mode limit (get now own_key cache) x
            (rw good at h)) [
              | inl cached ↦ cc (fresh, cached)
              | inr (found, kept) ↦ (
                good,
                searched-IsSearched scores r tenant_id (normalize_space query) mode limit x found,
                rw good kept,
              )
            ]
    ]

    own-live :
        (now later : ℕ) (x : RetrievalResult (Found S)) (cache : Cached S)
        → IsSearched scores r tenant_id (normalize_space query) mode limit x
        → later < now + r.ttl_seconds
        → (get later own_key (put r.ttl_seconds now tenant_id x limit cache)).0 ≡ some x
    own-live now later x cache i soon =
        let same : key_of tenant_id x.query x.corpus_revision x.mode limit ≡ own_key =
          rw (i.same_query, i.same_mode, i.same_revision) refl in
        let own : (key_of tenant_id x.query x.corpus_revision x.mode limit == own_key) ≡ true =
          ≡→== _ own_key same in
        let early : leb (now + r.ttl_seconds) later ≡ false = ground arith in
        get-put r.ttl_seconds now later tenant_id limit x own_key cache ∙ rw (own, early) refl

    cached-ok :
        (now : ℕ) (cache : Cached S) (x : RetrievalResult (Found S))
        → is_bad ≡ false
        → (get now own_key cache).0 ≡ some x
        → (retrieve scores r tenant_id now query mode given cache).0 ≡ ok x
    unfolding retrieve
    cached-ok now cache x good live =
        rw good
          (after_cache-some r now (normalize_space query) mode limit (get now own_key cache) x live)

  module _ (r : Repository W S) (query : Text) (mode : RetrievalMode) (given : Option ℕ) where
    -- A result that was not cached is repeated, whatever the repository would find by then, as long
    -- as its revision stays and the time to live has not passed.
    pub retrieve-repeats :
        (r' : Repository W S) (now later : ℕ) (cache : Cached S) (x : RetrievalResult (Found S))
        → r'.corpus_revision tenant_id ≡ r.corpus_revision tenant_id
        → r'.default_limit ≡ r.default_limit
        → (get now (own_key r query mode given) cache).0 ≡ none
        → (retrieve scores r tenant_id now query mode given cache).0 ≡ ok x
        → later < now + r.ttl_seconds
        → (retrieve scores r' tenant_id later query mode given
            (retrieve scores r tenant_id now query mode given cache).1).0
          ≡ ok x
    retrieve-repeats r' now later cache x same_revision same_limit fresh h soon =
        let (good, i, kept) = fresh-stored r query mode given now cache x fresh h in
        cached-ok r' query mode given later
          (retrieve scores r tenant_id now query mode given cache).1 x (rw same_limit good)
          (rw (same_revision, same_limit, kept)
            (own-live r query mode given now later x (get now (own_key r query mode given) cache).1
              i soon))
