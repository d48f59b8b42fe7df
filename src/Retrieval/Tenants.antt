-- ===== src/Retrieval/Tenants.antt =====
-- What the cache answers to which tenant.
use enterprise_data_copilot.Prelude.{
  ℕ, ◌+◌, ◌≡◌, refl, sym, ap, ◌∙◌, Bool, true, false, not, Option, none, some, keep, leb,
  if◌then◌else◌, ◌==◌, Bool-cases, inl, inr, nat_eq, pair_eq,
}
use enterprise_data_copilot.Prelude.Strings.{text_eq}
use enterprise_data_copilot.Prelude.Dict.{Dict, lookup, insert, lookup-insert, lookup-keep}
use enterprise_data_copilot.Retrieval.Cache.{
  mode_eq, RetrievalResult, Entry, Key, key_of, served, get, put, invalidate_tenant,
}

module _ {Hits : Type 0} where
  -- An entry that has not expired.
  abbrev pub live : ℕ → Option (Entry Hits) → Option (RetrievalResult Hits)
  live now none = none
  live now (some entry) = if leb entry.expires_at now then none else some entry.result

  served-0 :
      (now : ℕ) (key : Key) (entries : Dict Key (Entry Hits)) (found : Option (Entry Hits))
      → (served now key entries found).0 ≡ live now found
  served-0 now key entries none = refl
  served-0 now key entries (some entry) = elim (Bool-cases (leb entry.expires_at now)) [
    | inl e ↦ rw e refl
    | inr e ↦ rw e refl
  ]

  get-0 :
      (now : ℕ) (key : Key) (entries : Dict Key (Entry Hits))
      → (get now key entries).0 ≡ live now (lookup key entries)
  unfolding get
  get-0 now key entries = served-0 now key entries (lookup key entries)

  live-if :
      (later : ℕ) (b : Bool) (x y : Option (Entry Hits))
      → live later (if b then x else y) ≡ (if b then live later x else live later y)
  live-if later true x y = refl
  live-if later false x y = refl

  -- After a `put`, its own key is answered with the result until `ttl_seconds` have passed, and
  -- every other key as before.
  pub get-put :
      (ttl_seconds now later tenant_id limit : ℕ) (result : RetrievalResult Hits) (key : Key)
      (entries : Dict Key (Entry Hits))
      → (get later key (put ttl_seconds now tenant_id result limit entries)).0 ≡ (
          if key_of tenant_id result.query result.corpus_revision result.mode limit == key
          then (if leb (now + ttl_seconds) later then none else some result)
          else (get later key entries).0)
  unfolding put
  get-put ttl_seconds now later tenant_id limit result key entries =
      let own = key_of tenant_id result.query result.corpus_revision result.mode limit in
      let entry : Entry Hits = record { result = result; expires_at = now + ttl_seconds } in
      get-0 later key (insert own entry entries)
      ∙ ap (live later) (lookup-insert own key entry entries)
      ∙ live-if later (own == key) (some entry) (lookup key entries)
      ∙ ap (λ g. if own == key then live later (some entry) else g) (sym (get-0 later key entries))

  swap-live :
      (later : ℕ) (b : Bool) (x : Option (Entry Hits))
      → live later (if not b then x else none) ≡ (if b then none else live later x)
  swap-live later true x = refl
  swap-live later false x = refl

  -- After the invalidation of a tenant, no key of this tenant is answered, and every key of another
  -- tenant as before.
  pub get-invalidate_tenant :
      (later tenant_id : ℕ) (key : Key) (entries : Dict Key (Entry Hits))
      → (get later key (invalidate_tenant tenant_id entries)).0
        ≡ (if key.0 == tenant_id then none else (get later key entries).0)
  unfolding invalidate_tenant
  get-invalidate_tenant later tenant_id key entries =
      let is_other : Key → Bool = λ k. not (k.0 == tenant_id) in
      get-0 later key (keep (λ e. is_other e.0) entries)
      ∙ ap (live later) (lookup-keep is_other key entries)
      ∙ swap-live later (key.0 == tenant_id) (lookup key entries)
      ∙ ap (λ g. if key.0 == tenant_id then none else g) (sym (get-0 later key entries))
