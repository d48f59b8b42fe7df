-- ===== src/Retrieval/Own.antt =====
-- The repository in memory keeps the chunks of each tenant apart.
use enterprise_data_copilot.Prelude.{
  ◌∙◌, IsIn, All-IsIn, ℕ, ◌+◌, ◌≡◌, refl, sym, ap, subst, inl, inr, Text, List, [], ◌∷◌, All,
  All-append, Bool-cases, ◌==◌, ==→≡, nat_eq, pair_eq,
}
use enterprise_data_copilot.Prelude.Strings.{text_eq}
use enterprise_data_copilot.Prelude.Dict.{Dict, insert}
use enterprise_data_copilot.Prelude.Result.{ok, ok-injective}
use enterprise_data_copilot.Retrieval.Models.{PendingMetricChunk, StoredMetricDocument, MetricChunk}
use enterprise_data_copilot.Retrieval.Memory.{
  DocumentEntry, Memory, NewDocument, chunks_of, replace_document, tenant_chunks,
}

module _ {W : Type 0} where
  -- A memory that documents were put into, one after another.
  pub data IsFilled : Memory W → Type 0 where
    empty : IsFilled (record { entries = []; revisions = [] })
    filled :
        {memory : Memory W}
        → IsFilled memory
        → (fresh : ℕ → ℕ) (new : NewDocument) (now document_id : ℕ)
        → (chunks : List (PendingMetricChunk W)) (document : StoredMetricDocument)
        → (after : Memory W)
        → replace_document fresh new now document_id chunks memory ≡ ok (document, after)
        → IsFilled after

  abbrev IsOwned : (ℕ × Text) × DocumentEntry W → Type 0
  IsOwned entry = All (λ (c : MetricChunk W). c.tenant_id ≡ entry.0.0) entry.1.chunks

  insert-IsOwned :
      (key : ℕ × Text) (entry : DocumentEntry W) (d : Dict (ℕ × Text) (DocumentEntry W))
      → IsOwned (key, entry)
      → All IsOwned d
      → All IsOwned (insert key entry d)
  insert-IsOwned key entry [] own h = (own, tt)
  insert-IsOwned key entry ((j, other) ∷ d) own h = elim (Bool-cases (j == key)) [
    | inl same ↦ rw same (subst (λ k. IsOwned (k, entry)) (sym (==→≡ j key same)) own, h.1)
    | inr different ↦ rw different (h.0, insert-IsOwned key entry d own h.1)
  ]

  chunks_of-AreOwned :
      (fresh : ℕ → ℕ) (new : NewDocument) (document_id version n : ℕ)
      (chunks : List (PendingMetricChunk W))
      → All
          (λ (c : MetricChunk W). c.tenant_id ≡ new.tenant_id)
          (chunks_of fresh new document_id version n chunks)
  unfolding chunks_of
  chunks_of-AreOwned fresh new document_id version n [] = tt
  chunks_of-AreOwned fresh new document_id version n (chunk ∷ chunks) =
      (refl, chunks_of-AreOwned fresh new document_id version (n + 1) chunks)

  replace_document-IsOwned :
      (fresh : ℕ → ℕ) (new : NewDocument) (now document_id : ℕ)
      (chunks : List (PendingMetricChunk W)) (document : StoredMetricDocument)
      (memory after : Memory W)
      → replace_document fresh new now document_id chunks memory ≡ ok (document, after)
      → All IsOwned memory.entries
      → All IsOwned after.entries
  unfolding replace_document
  replace_document-IsOwned fresh new now document_id [] document memory after h own = cc
  replace_document-IsOwned fresh new now document_id (c ∷ cs) document memory after h own =
      let same = ap (λ (pair : StoredMetricDocument × Memory W). pair.1) (ok-injective h) in
      subst (λ (m : Memory W). All IsOwned m.entries) same
        (insert-IsOwned (new.tenant_id, new.title) _ memory.entries
          (chunks_of-AreOwned fresh new document_id _ 0 (c ∷ cs)) own)

  pub IsFilled-IsOwned : (memory : Memory W) → IsFilled memory → All IsOwned memory.entries
  IsFilled-IsOwned _ empty = tt
  IsFilled-IsOwned _ (filled before fresh new now document_id chunks document after h) =
      replace_document-IsOwned fresh new now document_id chunks document _ after h
        (IsFilled-IsOwned _ before)

  -- The chunk is stored in a document of the tenant.
  pub record IsStored (memory : Memory W) (tenant_id : ℕ) (chunk : MetricChunk W) : Type 0 where
    pub title : Text
    pub entry : DocumentEntry W
    pub entered : IsIn ((tenant_id, title), entry) memory.entries
    pub listed : IsIn chunk entry.chunks
    pub own : chunk.tenant_id ≡ tenant_id

  chunks-AreStored :
      (memory : Memory W) (tenant_id tenant : ℕ) (title : Text) (entry : DocumentEntry W)
      → tenant ≡ tenant_id
      → IsIn ((tenant, title), entry) memory.entries
      → IsOwned ((tenant, title), entry)
      → (chunks : List (MetricChunk W))
      → ((c : MetricChunk W) → IsIn c chunks → IsIn c entry.chunks)
      → All (IsStored memory tenant_id) chunks
  chunks-AreStored memory tenant_id tenant title entry same m own [] sub = tt
  chunks-AreStored memory tenant_id tenant title entry same m own (c ∷ cs) sub = (
    record {
      title = title;
      entry = entry;
      entered = subst (λ t. IsIn ((t, title), entry) memory.entries) same m;
      listed = sub c (inl refl);
      own = All-IsIn _ entry.chunks c own (sub c (inl refl)) ∙ same;
    },
    chunks-AreStored memory tenant_id tenant title entry same m own cs (λ d k. sub d (inr k)),
  )

  tenant_chunks-AreStored :
      (memory : Memory W) (tenant_id : ℕ) (d : Dict (ℕ × Text) (DocumentEntry W))
      → ((x : (ℕ × Text) × DocumentEntry W) → IsIn x d → IsIn x memory.entries)
      → All IsOwned d
      → All (IsStored memory tenant_id) (tenant_chunks tenant_id d)
  unfolding tenant_chunks
  tenant_chunks-AreStored memory tenant_id [] sub h = tt
  tenant_chunks-AreStored memory tenant_id (((tenant, title), entry) ∷ d) sub h =
      let rest = tenant_chunks-AreStored memory tenant_id d (λ x m. sub x (inr m)) h.1 in
      elim (Bool-cases (tenant == tenant_id)) [
        | inl same ↦ rw same (
            All-append _ entry.chunks (tenant_chunks tenant_id d)
              (chunks-AreStored memory tenant_id tenant title entry (==→≡ tenant tenant_id same)
                (sub _ (inl refl)) h.0 entry.chunks (λ c m. m))
              rest)
        | inr other ↦ rw other rest
      ]

  -- Every chunk that a search of a tenant looks at is stored in a document of the tenant.
  pub filled-AreStored :
      (memory : Memory W) (tenant_id : ℕ)
      → IsFilled memory
      → All (IsStored memory tenant_id) (tenant_chunks tenant_id memory.entries)
  filled-AreStored memory tenant_id is_filled =
      tenant_chunks-AreStored memory tenant_id memory.entries (λ x m. m)
        (IsFilled-IsOwned memory is_filled)
