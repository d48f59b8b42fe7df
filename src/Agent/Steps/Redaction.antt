-- ===== src/Agent/Steps/Redaction.antt =====
-- What a summary can depend on.
use enterprise_data_copilot.Prelude.{
  ◌≡◌, ◌≢◌, ◌⊎◌, inl, inr, refl, ap, arith, Text, Option, none, some, codes, [], ◌∷◌, ◌++◌, length,
  take,
}
use enterprise_data_copilot.Agent.State.{AgentState, get_or, error_of, attempts_of}
use enterprise_data_copilot.Agent.Steps.Record.{state_summary, sql_fingerprint_of}

-- The two texts, where they are given and not empty, have the same hash.
abbrev pub SameHash : (Text → Text) → Option Text → Option Text → Type 0
SameHash sha256_hex none none = Unit
SameHash sha256_hex none (some t) = t ≡ []
SameHash sha256_hex (some s) none = s ≡ []
SameHash sha256_hex (some s) (some t) =
    ((s ≡ []) × (t ≡ [])) ⊎ ((s ≢ []) × (t ≢ []) × (sha256_hex s ≡ sha256_hex t))

-- Two states that an observer of the step records may not tell apart: they have the same sizes,
-- codes and routing values and the same hash of the SQL text, and share nothing else.
pub record LookAlike (sha256_hex : Text → Text) {V : Type 0} (s t : AgentState V) : Type 0 where
  pub intent : s.values.intent ≡ t.values.intent
  pub tables :
      length (get_or [] s.values.candidate_tables) ≡ length (get_or [] t.values.candidate_tables)
  pub context :
      length (get_or [] s.values.metric_context) ≡ length (get_or [] t.values.metric_context)
  pub attempts : attempts_of s ≡ attempts_of t
  pub risk : s.values.sql_risk ≡ t.values.sql_risk
  pub reasons : get_or [] s.values.risk_reasons ≡ get_or [] t.values.risk_reasons
  pub rows : length (get_or [] s.values.rows) ≡ length (get_or [] t.values.rows)
  pub columns : length (get_or [] s.values.columns) ≡ length (get_or [] t.values.columns)
  pub citations : length (get_or [] s.values.citations) ≡ length (get_or [] t.values.citations)
  pub error : error_of s ≡ error_of t
  pub sql : SameHash sha256_hex s.values.sql_text t.values.sql_text

SameHash-eq :
    (sha256_hex : Text → Text) (s t : Option Text)
    → SameHash sha256_hex s t
    → sql_fingerprint_of sha256_hex s ≡ sql_fingerprint_of sha256_hex t
SameHash-eq sha256_hex none none h = refl
SameHash-eq sha256_hex none (some []) h = refl
SameHash-eq sha256_hex none (some (c ∷ t)) h = cc
SameHash-eq sha256_hex (some []) none h = refl
SameHash-eq sha256_hex (some (c ∷ s)) none h = cc
SameHash-eq sha256_hex (some []) (some []) h = refl
SameHash-eq sha256_hex (some []) (some (c ∷ t)) (inl (h, k)) = cc
SameHash-eq sha256_hex (some []) (some (c ∷ t)) (inr (h, k, same)) = absurd (h refl)
SameHash-eq sha256_hex (some (c ∷ s)) (some []) (inl (h, k)) = cc
SameHash-eq sha256_hex (some (c ∷ s)) (some []) (inr (h, k, same)) = absurd (k refl)
SameHash-eq sha256_hex (some (c ∷ s)) (some (d ∷ t)) (inl (h, k)) = cc
SameHash-eq sha256_hex (some (c ∷ s)) (some (d ∷ t)) (inr (h, k, same)) =
    ap (λ hash. some (codes "sha256:" ++ hash)) same

-- A summary reveals nothing of the question, the identity, the SQL text beyond its hash, the rows,
-- the evidence or the answer: states that look alike have the same summary.
pub state_summary-redacts :
    (sha256_hex : Text → Text) {V : Type 0} (s t : AgentState V)
    → LookAlike sha256_hex s t
    → state_summary sha256_hex s ≡ state_summary sha256_hex t
unfolding state_summary
state_summary-redacts sha256_hex s t h =
    ground (
      arith,
      ap (take 5) h.reasons,
      SameHash-eq sha256_hex s.values.sql_text t.values.sql_text h.sql,
    )
