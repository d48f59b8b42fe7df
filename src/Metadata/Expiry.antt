-- ===== src/Metadata/Expiry.antt =====
-- How long the cache of a catalog answers.
use enterprise_data_copilot.Prelude.{
  ℕ, ◌+◌, ◌≡◌, refl, ap, ◌∙◌, Text, Bool-cases, inl, inr, Option, none, some, ltb, if◌then◌else◌,
  ==_refl, pair_eq,
}
use enterprise_data_copilot.Prelude.Strings.{text_eq}
use enterprise_data_copilot.Prelude.Dict.{insert, lookup, lookup-insert, lookup-erase}
use enterprise_data_copilot.Prelude.Result.{Result, ok, err}
use enterprise_data_copilot.Metadata.Snapshot.{SchemaSnapshot}
use enterprise_data_copilot.Metadata.Cache.{
  CacheEntry, Entries, fresh_entry, stored_entry, serve, get_or_load, invalidate,
}

module _ (E : Type 0) (ttl_seconds : ℕ) where
  abbrev answer_from : Option SchemaSnapshot → Result E SchemaSnapshot → Result E SchemaSnapshot
  answer_from none loader = loader
  answer_from (some snapshot) loader = ok snapshot

  serve-0 :
      (now : ℕ) (key : Text × Text) (entries : Entries) (loader : Result E SchemaSnapshot)
      (o : Option SchemaSnapshot)
      → (serve {E = E} ttl_seconds now key entries loader o).0 ≡ answer_from o loader
  serve-0 now key entries loader (some s) = refl
  serve-0 now key entries (ok s) none = refl
  serve-0 now key entries (err e) none = refl

  get_or_load-0 :
      (now : ℕ) (source_id schema_name : Text) (loader : Result E SchemaSnapshot)
      (entries : Entries) (found : Option CacheEntry)
      → lookup (source_id, schema_name) entries ≡ found
      → (get_or_load {E = E} ttl_seconds now source_id schema_name loader entries).0
        ≡ answer_from (fresh_entry now found) loader
  unfolding get_or_load
  get_or_load-0 now source_id schema_name loader entries found h =
      serve-0 now (source_id, schema_name) entries loader _
      ∙ ap (λ o. answer_from (fresh_entry now o) loader) h

  serve-1 :
      (now : ℕ) (key : Text × Text) (entries : Entries) (s : SchemaSnapshot)
      (o : Option SchemaSnapshot)
      → o ≡ none
      → (serve {E = E} ttl_seconds now key entries (ok s) o).1
        ≡ insert key (stored_entry ttl_seconds now s) entries
  serve-1 now key entries s (some t) h = cc
  serve-1 now key entries s none h = refl

  get_or_load-1 :
      (now : ℕ) (source_id schema_name : Text) (s : SchemaSnapshot) (entries : Entries)
      → fresh_entry now (lookup (source_id, schema_name) entries) ≡ none
      → (get_or_load {E = E} ttl_seconds now source_id schema_name (ok s) entries).1
        ≡ insert (source_id, schema_name) (stored_entry ttl_seconds now s) entries
  unfolding get_or_load
  get_or_load-1 now source_id schema_name s entries h =
      serve-1 now (source_id, schema_name) entries s _ h

  stored-answer :
      (now later : ℕ) (s : SchemaSnapshot) (loader : Result E SchemaSnapshot)
      → answer_from (fresh_entry later (some (stored_entry ttl_seconds now s))) loader
        ≡ (if ltb later (now + ttl_seconds) then ok s else loader)
  stored-answer now later s loader = elim (Bool-cases (ltb later (now + ttl_seconds))) [
    | inl e ↦ rw e refl
    | inr e ↦ rw e refl
  ]

  -- A catalog that is loaded at one time, since no fresh entry was found, is answered without its
  -- loader until `ttl_seconds` have passed; from then on, and at once after an invalidation, the
  -- loader is asked again.
  pub get_or_load-expiry :
      (now later : ℕ) (source_id schema_name : Text) (s : SchemaSnapshot)
      (loader : Result E SchemaSnapshot) (entries : Entries)
      → fresh_entry now (lookup (source_id, schema_name) entries) ≡ none
      → ((get_or_load {E = E} ttl_seconds later source_id schema_name loader
            (get_or_load {E = E} ttl_seconds now source_id schema_name (ok s) entries).1).0
          ≡ (if ltb later (now + ttl_seconds) then ok s else loader))
        × ((get_or_load {E = E} ttl_seconds later source_id schema_name loader (
              invalidate source_id schema_name
                (get_or_load {E = E} ttl_seconds now source_id schema_name (ok s) entries).1)).0
            ≡ loader)
  unfolding invalidate
  get_or_load-expiry now later source_id schema_name s loader entries h =
      let key : Text × Text = (source_id, schema_name) in
      let after = (get_or_load {E = E} ttl_seconds now source_id schema_name (ok s) entries).1 in
      let inserted =
        ap (lookup key) (get_or_load-1 now source_id schema_name s entries h)
        ∙ lookup-insert key key (stored_entry ttl_seconds now s) entries
        ∙ rw (==_refl key) in
      let erased = lookup-erase key key after ∙ rw (==_refl key) in
      (
        get_or_load-0 later source_id schema_name loader after
              (some (stored_entry ttl_seconds now s)) inserted
            ∙ stored-answer now later s loader,
        get_or_load-0 later source_id schema_name loader (invalidate source_id schema_name after)
            none erased,
      )
