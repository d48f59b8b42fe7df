-- ===== src/Retrieval/Cache.antt =====
-- agent-service/app/retrieval/cache.py. The clock's reading is an argument of each call.
use enterprise_data_copilot.Prelude.{
  true, ◌↔◌, zero, suc, ℕ, ◌+◌, ◌≡◌, refl, sym, ap, ◌∙◌, Text, Bool, not, Option, none, some, keep,
  leb, if◌then◌else◌, ◌==◌, Eq, nat_beq, nat_beq_iff, nat_eq, pair_eq,
}
use enterprise_data_copilot.Prelude.Strings.{text_eq}
use enterprise_data_copilot.Prelude.Dict.{Dict, lookup, insert, erase}

pub data RetrievalMode : Type 0 where
  lexical vector hybrid hybrid_rerank : RetrievalMode

abbrev mode_number : RetrievalMode → ℕ
mode_number lexical = 0
mode_number vector = 1
mode_number hybrid = 2
mode_number hybrid_rerank = 3

abbrev mode_of : ℕ → RetrievalMode
mode_of zero = lexical
mode_of (suc zero) = vector
mode_of (suc (suc zero)) = hybrid
mode_of (suc (suc (suc n))) = hybrid_rerank

mode_of-mode_number : (m : RetrievalMode) → mode_of (mode_number m) ≡ m
mode_of-mode_number lexical = refl
mode_of-mode_number vector = refl
mode_of-mode_number hybrid = refl
mode_of-mode_number hybrid_rerank = refl

abbrev pub mode_beq : RetrievalMode → RetrievalMode → Bool
mode_beq a b = nat_beq (mode_number a) (mode_number b)

pub mode_beq_iff : (a b : RetrievalMode) → (mode_beq a b ≡ true) ↔ (a ≡ b)
mode_beq_iff a b = (
  λ h.
      sym (mode_of-mode_number a)
      ∙ ap mode_of ((nat_beq_iff (mode_number a) (mode_number b)).0 h)
      ∙ mode_of-mode_number b,
  λ h. (nat_beq_iff (mode_number a) (mode_number b)).1 (ap mode_number h),
)

instance abbrev pub mode_eq : Eq RetrievalMode
mode_eq = record { beq = mode_beq; beq_iff = mode_beq_iff }

-- `RetrievalResult` of models.py; its hits, citations and verdict are only passed on.
pub record RetrievalResult (Hits : Type 0) : Type 0 where
  pub query : Text
  pub mode : RetrievalMode
  pub corpus_revision : Text
  pub hits : Hits

pub record Entry (Hits : Type 0) : Type 0 where
  pub result : RetrievalResult Hits
  pub expires_at : ℕ

-- The tenant, and the rest of the key: the query, the revision, the mode and the limit.
abbrev pub Key : Type 0
Key = ℕ × (((Text × Text) × RetrievalMode) × ℕ)

abbrev pub key_of : ℕ → Text → Text → RetrievalMode → ℕ → Key
key_of tenant_id query revision mode limit = (tenant_id, (((query, revision), mode), limit))

module _ {Hits : Type 0} where
  abbrev pub served :
      ℕ
      → Key
      → Dict Key (Entry Hits)
      → Option (Entry Hits)
      → Option (RetrievalResult Hits) × Dict Key (Entry Hits)
  served now key entries none = (none, entries)
  served now key entries (some entry) =
      if leb entry.expires_at now then (none, erase key entries) else (some entry.result, entries)

  unfoldable pub get :
      ℕ → Key → Dict Key (Entry Hits) → Option (RetrievalResult Hits) × Dict Key (Entry Hits)
  get now key entries = served now key entries (lookup key entries)

  unfoldable pub put :
      ℕ → ℕ → ℕ → RetrievalResult Hits → ℕ → Dict Key (Entry Hits) → Dict Key (Entry Hits)
  put ttl_seconds now tenant_id result limit entries =
      insert (key_of tenant_id result.query result.corpus_revision result.mode limit)
        (record { result = result; expires_at = now + ttl_seconds }) entries

  unfoldable pub invalidate_tenant : ℕ → Dict Key (Entry Hits) → Dict Key (Entry Hits)
  invalidate_tenant tenant_id entries = keep (λ e. not (e.0.0 == tenant_id)) entries
