-- ===== src/Knowledge/Grounded.antt =====
-- What an extraction that is persisted leaves in the store.
use enterprise_data_copilot.Prelude.{
  ℕ, ◌≡◌, refl, sym, ap, subst, ◌∙◌, Text, Bool, true, false, not, ◌&&◌, List, [], ◌∷◌, ◌++◌, map,
  All, all, all→All, contains, arith, Bool-cases, inl, inr, ◌==◌, ==→≡, &&-true,
}
use enterprise_data_copilot.Prelude.Strings.{text_eq, is_infix}
use enterprise_data_copilot.Prelude.Dict.{Dict, insert}
use enterprise_data_copilot.Prelude.Unicode.{Unicode}
use enterprise_data_copilot.Prelude.Result.{ok, >>=-eq-ok, raise_if, raise_if-eq-ok, ok-injective}
use enterprise_data_copilot.Knowledge.Models.{
  EntityDraft, RelationDraft, Extraction, GraphNode, GraphEdge, Subgraph, ExtractRequest, ids_of,
  has_valid_references, is_valid_extraction,
}
use enterprise_data_copilot.Knowledge.Store.{node_ids}
use enterprise_data_copilot.Knowledge.Persist.{
  invalid_extraction, not_a_quote, Uuids, node_ids_from, id_at, nodes_of, edges_of, by_id_from,
  is_quote, are_quotes, persisted_graph,
}

module _ (P : GraphEdge → Type 0) where
  insert-All :
      (e : GraphEdge) (d : Dict Text GraphEdge)
      → P e
      → All (λ entry. P entry.1) d
      → All (λ entry. P entry.1) (insert e.id e d)
  insert-All e [] p h = (p, tt)
  insert-All e ((k, f) ∷ d) p h = elim (Bool-cases (k == e.id)) [
    | inl same ↦ rw same (p, h.1)
    | inr other ↦ rw other (h.0, insert-All e d p h.1)
  ]

  by_id_from-All :
      (u : Unicode) (uuids : Uuids) (t : ℕ) (request : ExtractRequest) (now : ℕ)
      (seen : Dict Text GraphEdge) (es : List GraphEdge)
      → All (λ entry. P entry.1) seen
      → All P es
      → All (λ entry. P entry.1) (by_id_from u uuids t request now seen es)
  by_id_from-All u uuids t request now seen [] h k = h
  by_id_from-All u uuids t request now seen (e ∷ es) h k =
      by_id_from-All u uuids t request now (insert e.id e seen) es (insert-All e seen k.0 h) k.1

  values-All :
      (d : Dict Text GraphEdge) → All (λ entry. P entry.1) d → All P (map (λ entry. entry.1) d)
  values-All [] h = tt
  values-All ((k, e) ∷ d) h = (h.0, values-All d h.1)

module _ (u : Unicode) (uuids : Uuids) (tenant_id : ℕ) (request : ExtractRequest) (now : ℕ) where
  -- A node and an edge whose evidence is quoted from the source of the request.
  abbrev pub IsQuotedNode : GraphNode → Type 0
  IsQuotedNode n = (is_infix n.evidence request.text ≡ true) × (n.source_id ≡ request.source_id)

  abbrev pub IsQuotedEdge : List GraphNode → GraphEdge → Type 0
  IsQuotedEdge nodes e =
      (is_infix e.evidence request.text ≡ true)
      × (e.source_id ≡ request.source_id)
      × (contains (node_ids nodes) e.source ≡ true)
      × (contains (node_ids nodes) e.target ≡ true)

  nodes_of-AreQuoted :
      (ids : Dict Text Text) (es : List EntityDraft) (nodes : List GraphNode)
      → All (λ (e : EntityDraft). is_infix e.evidence request.text ≡ true) es
      → nodes_of u uuids tenant_id request now ids es ≡ ok nodes
      → All IsQuotedNode nodes
  unfolding nodes_of
  nodes_of-AreQuoted ids [] nodes q h = subst (All IsQuotedNode) (ok-injective h) tt
  nodes_of-AreQuoted ids (e ∷ es) nodes q h =
      let (id, _, h₁) = >>=-eq-ok (id_at u uuids tenant_id request now ids e.id) _ h in
      let (rest, made, h₂) = >>=-eq-ok (nodes_of u uuids tenant_id request now ids es) _ h₁ in
      subst (All IsQuotedNode) (ok-injective h₂)
        ((q.0, refl), nodes_of-AreQuoted ids es rest q.1 made)

  -- The identifier of every entity is that of a node.
  nodes_of-contains :
      (ids : Dict Text Text) (es : List EntityDraft) (nodes : List GraphNode) (key id : Text)
      → nodes_of u uuids tenant_id request now ids es ≡ ok nodes
      → contains (ids_of es) key ≡ true
      → id_at u uuids tenant_id request now ids key ≡ ok id
      → contains (node_ids nodes) id ≡ true
  unfolding nodes_of
  nodes_of-contains ids [] nodes key id h c i = cc
  nodes_of-contains ids (e ∷ es) nodes key id h c i =
      let (first, f, h₁) = >>=-eq-ok (id_at u uuids tenant_id request now ids e.id) _ h in
      let (rest, made, h₂) = >>=-eq-ok (nodes_of u uuids tenant_id request now ids es) _ h₁ in
      subst (λ ns. contains (node_ids ns) id ≡ true) (ok-injective h₂)
        (elim (Bool-cases (e.id == key)) [
          | inl same ↦
              let here : first ≡ id =
                ok-injective
                  (sym f ∙ ap (id_at u uuids tenant_id request now ids) (==→≡ e.id key same) ∙ i) in
              rw ((text_eq.beq_iff first id).1 here) refl
          | inr other ↦
              let later = nodes_of-contains ids es rest key id made (rw other at c) i in
              ground arith
        ])

  edges_of-AreQuoted :
      (ids : Dict Text Text) (es : List EntityDraft) (nodes : List GraphNode)
      (rs : List RelationDraft) (edges : List GraphEdge)
      → nodes_of u uuids tenant_id request now ids es ≡ ok nodes
      → All (λ (r : RelationDraft). is_infix r.evidence request.text ≡ true) rs
      → All
          (λ (r : RelationDraft).
            (contains (ids_of es) r.source && contains (ids_of es) r.target) ≡ true)
          rs
      → edges_of u uuids tenant_id request now ids rs ≡ ok edges
      → All (IsQuotedEdge nodes) edges
  unfolding edges_of
  edges_of-AreQuoted ids es nodes [] edges n q k h =
      subst (All (IsQuotedEdge nodes)) (ok-injective h) tt
  edges_of-AreQuoted ids es nodes (r ∷ rs) edges n q k h =
      let (source, s, h₁) = >>=-eq-ok (id_at u uuids tenant_id request now ids r.source) _ h in
      let (target, t, h₂) = >>=-eq-ok (id_at u uuids tenant_id request now ids r.target) _ h₁ in
      let (rest, made, h₃) = >>=-eq-ok (edges_of u uuids tenant_id request now ids rs) _ h₂ in
      let (from, to) =
        &&-true (contains (ids_of es) r.source) (contains (ids_of es) r.target) k.0 in
      subst (All (IsQuotedEdge nodes)) (ok-injective h₃) (
        (
          q.0,
          refl,
          nodes_of-contains ids es nodes r.source source n from s,
          nodes_of-contains ids es nodes r.target target n to t,
        ),
        edges_of-AreQuoted ids es nodes rs rest n q.1 k.1 made,
      )

  split-All :
      (p : Text → Bool) (xs ys : List Text)
      → all p (xs ++ ys) ≡ true
      → (all p xs ≡ true) × (all p ys ≡ true)
  split-All p [] ys h = (refl, h)
  split-All p (x ∷ xs) ys h =
      let (first, rest) = &&-true (p x) (all p (xs ++ ys)) h in
      let (left, right) = split-All p xs ys rest in (rw first left, right)

  entity_quotes :
      (p : Text → Bool) (es : List EntityDraft)
      → all p (map (λ (e : EntityDraft). e.evidence) es) ≡ true
      → All (λ (e : EntityDraft). p e.evidence ≡ true) es
  entity_quotes p [] h = tt
  entity_quotes p (e ∷ es) h =
      let (first, rest) = &&-true (p e.evidence) _ h in (first, entity_quotes p es rest)

  relation_quotes :
      (p : Text → Bool) (rs : List RelationDraft)
      → all p (map (λ (r : RelationDraft). r.evidence) rs) ≡ true
      → All (λ (r : RelationDraft). p r.evidence ≡ true) rs
  relation_quotes p [] h = tt
  relation_quotes p (r ∷ rs) h =
      let (first, rest) = &&-true (p r.evidence) _ h in (first, relation_quotes p rs rest)

  pub record IsGrounded (x : Extraction) (g : Subgraph) : Type 0 where
    pub valid : is_valid_extraction u x ≡ true
    pub nodes : All IsQuotedNode g.nodes
    pub edges : All (IsQuotedEdge g.nodes) g.edges

  of_negated : (b : Bool) → not b ≡ false → b ≡ true
  of_negated b h = ground arith

  pub valid_references :
      (x : Extraction)
      → is_valid_extraction u x ≡ true
      → All
          (λ (r : RelationDraft).
            (contains (ids_of x.entities) r.source && contains (ids_of x.entities) r.target) ≡ true)
          x.relations
  unfolding is_valid_extraction has_valid_references
  valid_references x h = all→All _ x.relations (ground arith)

  -- What is persisted comes from a valid extraction; every node and every edge quotes the text of
  -- the request and names its source, and every edge joins two of the nodes.
  pub persisted_graph-IsGrounded :
      (x : Extraction) (g : Subgraph)
      → persisted_graph u uuids tenant_id request now x ≡ ok g
      → IsGrounded x g
  unfolding persisted_graph
  persisted_graph-IsGrounded x g h =
      let (_, checked, h₁) =
        >>=-eq-ok (raise_if (not (is_valid_extraction u x)) invalid_extraction) _ h in
      let (_, quoted, h₂) =
        >>=-eq-ok (raise_if (not (are_quotes u uuids tenant_id request now x)) not_a_quote) _ h₁ in
      let ids = node_ids_from u uuids tenant_id request now [] x.entities in
      let (nodes, n, h₃) = >>=-eq-ok (nodes_of u uuids tenant_id request now ids x.entities) _ h₂ in
      let (edges, e, h₄) =
        >>=-eq-ok (edges_of u uuids tenant_id request now ids x.relations) _ h₃ in
      let valid = of_negated _ (raise_if-eq-ok _ invalid_extraction checked) in
      let (of_entities, of_relations) =
        split-All (is_quote u uuids tenant_id request now) _ _
          (of_negated _ (raise_if-eq-ok _ not_a_quote quoted)) in
      subst (IsGrounded x) (ok-injective h₄) (record {
        valid = valid;
        nodes = nodes_of-AreQuoted ids x.entities nodes (entity_quotes _ x.entities of_entities) n;
        edges = values-All (IsQuotedEdge nodes) _ (
            by_id_from-All (IsQuotedEdge nodes) u uuids tenant_id request now [] edges tt (
              edges_of-AreQuoted ids x.entities nodes x.relations edges n
                (relation_quotes _ x.relations of_relations) (valid_references x valid) e));
      })
