-- ===== src/Knowledge/Citations.antt =====
-- The evidence of an answer, and what it cites.
use enterprise_data_copilot.Prelude.{
  ℕ, ◌+◌, ◌≤◌, ◌≡◌, ◌≢◌, refl, sym, ap, subst, ◌∙◌, Text, Bool, true, false, not, ◌&&◌, List, [],
  ◌∷◌, map, Option, none, some, any, all, All, contains, without, is_unique, is_none_left, ltb,
  arith, Bool-cases, inl, inr, ◌==◌, ltb-eq-false,
}
use enterprise_data_copilot.Prelude.Strings.{text_eq}
use enterprise_data_copilot.Prelude.Dict.{Dict, lookup, has_key}
use enterprise_data_copilot.Prelude.Result.{ok, >>=-eq-ok, raise_if, raise_if-eq-ok, ok-injective}
use enterprise_data_copilot.Knowledge.Models.{Subgraph}
use enterprise_data_copilot.Knowledge.Answer.{
  Item, GraphAnswer, GraphAnswerDraft, unknown_evidence, Documents, Helpers, distinct, entry_size,
  bounded, gather, edge_evidence, names_from, node_evidence, cite, citations_of, cited_answer,
  answer_from, answer_question,
}

abbrev pub keys : Dict Text Item → List Text
keys d = map (λ entry. entry.0) d

contains-without :
    (a b : Text) (xs : List Text) → contains (without a xs) b ≡ (contains xs b && not (a == b))
contains-without a b [] = refl
contains-without a b (x ∷ xs) =
    ground (
      arith,
      text_eq.beq_iff x a,
      text_eq.beq_iff x b,
      text_eq.beq_iff a b,
      contains-without a b xs,
    )

without-is_unique :
    (a : Text) (xs : List Text) → is_unique xs ≡ true → is_unique (without a xs) ≡ true
without-is_unique a [] h = refl
without-is_unique a (x ∷ xs) h = ground (arith, contains-without a x xs, without-is_unique a xs)

distinct-is_unique : (xs : List Text) → is_unique (distinct xs) ≡ true
unfolding distinct
distinct-is_unique [] = refl
distinct-is_unique (x ∷ xs) =
    let rest = distinct-is_unique xs in
    ground (
      arith,
      (text_eq.beq_iff x x).1 refl,
      contains-without x x (distinct xs),
      without-is_unique x (distinct xs) rest,
    )

module _ (p : Text → Bool) where
  without-all : (a : Text) (xs : List Text) → all p xs ≡ true → all p (without a xs) ≡ true
  without-all a [] h = refl
  without-all a (x ∷ xs) h = ground (arith, without-all a xs)

  distinct-all : (xs : List Text) → all p xs ≡ true → all p (distinct xs) ≡ true
  unfolding distinct
  distinct-all [] h = refl
  distinct-all (x ∷ xs) h = ground (arith, without-all x (distinct xs), distinct-all xs)

  none_fails : (xs : List Text) → any (λ x. not (p x)) xs ≡ false → all p xs ≡ true
  none_fails [] h = refl
  none_fails (x ∷ xs) h = ground (arith, none_fails xs)

module _ (h : Helpers) where
  abbrev pub evidence_size : Dict Text Item → ℕ
  evidence_size [] = 0
  evidence_size (entry ∷ rest) = entry_size h entry + evidence_size rest

  bounded-evidence_size :
      (used : ℕ) (d : Dict Text Item)
      → used ≤ 32000
      → used + evidence_size (bounded h used d) ≤ 32000
  unfolding bounded
  bounded-evidence_size used [] le = omega arith
  bounded-evidence_size used (entry ∷ rest) le =
      elim (Bool-cases (ltb 32000 (used + entry_size h entry))) [
        | inl over ↦ rw over (bounded-evidence_size used rest le)
        | inr fits ↦ rw fits (
            omega (
              arith,
              bounded-evidence_size (used + entry_size h entry) rest
                  (ltb-eq-false 32000 (used + entry_size h entry) fits),
            ))
      ]

  cite-keys :
      (k : Text) (found : Option Item) (rest : List (Text × Item))
      → found ≢ none
      → keys (cite h k found rest) ≡ k ∷ keys rest
  cite-keys k none rest known = absurd (known refl)
  cite-keys k (some item) rest known = refl

  citations_of-keys :
      (evidence : Dict Text Item) (ks : List Text)
      → all (λ k. has_key k evidence) ks ≡ true
      → keys (citations_of h evidence ks) ≡ ks
  unfolding citations_of
  citations_of-keys evidence [] a = refl
  citations_of-keys evidence (k ∷ ks) a =
      cite-keys k (lookup k evidence) (citations_of h evidence ks) (λ missing. ground arith)
      ∙ ap (λ rest. k ∷ rest) (citations_of-keys evidence ks (ground arith))

  abbrev pub IsCited : Dict Text Item → Text × Item → Type 0
  IsCited evidence entry = lookup entry.0 evidence ≡ some entry.1

  cite-AreCited :
      (evidence : Dict Text Item) (k : Text) (found : Option Item) (rest : List (Text × Item))
      → lookup k evidence ≡ found
      → All (IsCited evidence) rest
      → All (IsCited evidence) (cite h k found rest)
  cite-AreCited evidence k none rest same cited = cited
  cite-AreCited evidence k (some item) rest same cited = (same, cited)

  citations_of-AreCited :
      (evidence : Dict Text Item) (ks : List Text)
      → All (IsCited evidence) (citations_of h evidence ks)
  unfolding citations_of
  citations_of-AreCited evidence [] = tt
  citations_of-AreCited evidence (k ∷ ks) =
      cite-AreCited evidence k (lookup k evidence) _ refl (citations_of-AreCited evidence ks)

  -- The citations stand in the evidence, each of them once, and the answer counts as one exactly if
  -- there are some.
  pub record IsFounded (graph : Subgraph) (evidence : Dict Text Item) (a : GraphAnswer)
      : Type 0 where
    pub same_graph : a.graph ≡ graph
    pub cited : All (IsCited evidence) a.citations
    pub once : is_unique (keys a.citations) ≡ true
    pub judged : a.should_answer ≡ not (is_none_left a.citations)

  keys-is_none_left : (d : Dict Text Item) → is_none_left (keys d) ≡ is_none_left d
  keys-is_none_left [] = refl
  keys-is_none_left (entry ∷ d) = refl

  cited_answer-IsFounded :
      (graph : Subgraph) (evidence : Dict Text Item) (draft : GraphAnswerDraft)
      → any (λ key. not (has_key key evidence)) draft.citation_ids ≡ false
      → IsFounded graph evidence (cited_answer h graph evidence draft)
  cited_answer-IsFounded graph evidence draft known =
      let all_known =
        distinct-all (λ k. has_key k evidence) draft.citation_ids
          (none_fails (λ k. has_key k evidence) draft.citation_ids known) in
      let same = citations_of-keys evidence (distinct draft.citation_ids) all_known in
      record {
        same_graph = refl;
        cited = citations_of-AreCited evidence (distinct draft.citation_ids);
        once = rw same (distinct-is_unique draft.citation_ids);
        judged = ap not (
            ap is_none_left (sym same)
            ∙ keys-is_none_left (citations_of h evidence (distinct draft.citation_ids)));
      }

  answer_from-IsFounded :
      (query : Text) (graph : Subgraph) (evidence : Dict Text Item) (a : GraphAnswer)
      → answer_from h query graph evidence ≡ ok a
      → IsFounded graph evidence a
  unfolding answer_from
  answer_from-IsFounded query graph [] a returned =
      subst (IsFounded graph []) (ok-injective returned)
        (record { same_graph = refl; cited = tt; once = refl; judged = refl })
  answer_from-IsFounded query graph (entry ∷ rest) a returned =
      let evidence = entry ∷ rest in
      let (draft, drafted, h₁) = >>=-eq-ok (h.generate query evidence) _ returned in
      let (_, known, h₂) =
        >>=-eq-ok
          (raise_if (any (λ key. not (has_key key evidence)) draft.citation_ids) unknown_evidence) _
          h₁ in
      subst (IsFounded graph evidence) (ok-injective h₂)
        (cited_answer-IsFounded graph evidence draft (raise_if-eq-ok _ unknown_evidence known))

  gather-evidence_size :
      (graph : Subgraph) (documents : Documents) (evidence : Dict Text Item)
      → gather h graph documents ≡ ok evidence
      → evidence_size evidence ≤ 32000
  unfolding gather
  gather-evidence_size graph documents evidence returned =
      let (all_evidence, found, h₁) =
        >>=-eq-ok
          (edge_evidence (names_from [] graph.nodes) (node_evidence [] graph.nodes) graph.edges) _
          returned in
      subst (λ d. evidence_size d ≤ 32000) (ok-injective h₁)
        (omega (arith, bounded-evidence_size 0 _ (omega arith)))

  -- An answer that is returned rests on the subgraph of the tenant and on the evidence gathered
  -- from it and from the documents, which has at most 32,000 characters; its citations stand in
  -- this evidence, each once, and it counts as an answer exactly if it has a citation.
  pub answer_question-IsFounded :
      (tenant_id : ℕ) (query : Text) (a : GraphAnswer)
      → answer_question h tenant_id query ≡ ok a
      → (graph : Subgraph) × (documents : Documents) × (evidence : Dict Text Item) × (h.subgraph
            tenant_id query 2 60
          ≡ ok graph)
        × (h.retrieve tenant_id query ≡ ok documents)
        × (gather h graph documents ≡ ok evidence)
        × (evidence_size evidence ≤ 32000)
        × IsFounded graph evidence a
  unfolding answer_question
  answer_question-IsFounded tenant_id query a returned =
      let (graph, g, h₁) = >>=-eq-ok (h.subgraph tenant_id query 2 60) _ returned in
      let (documents, d, h₂) = >>=-eq-ok (h.retrieve tenant_id query) _ h₁ in
      let (evidence, e, h₃) = >>=-eq-ok (gather h graph documents) _ h₂ in
      (
        graph,
        documents,
        evidence,
        g,
        d,
        e,
        gather-evidence_size graph documents evidence e,
        answer_from-IsFounded query graph evidence a h₃,
      )
