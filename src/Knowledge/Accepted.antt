-- ===== src/Knowledge/Accepted.antt =====
-- Every valid extraction whose evidence is quoted is persisted.
use enterprise_data_copilot.Prelude.{
  ℕ, ◌≡◌, refl, Text, true, false, ◌||◌, List, [], ◌∷◌, All, All-map, contains, arith, inl, inr,
  Option-cases, ==_refl, &&-true,
}
use enterprise_data_copilot.Prelude.Strings.{text_eq}
use enterprise_data_copilot.Prelude.Dict.{Dict, insert, lookup, has_key, lookup-insert}
use enterprise_data_copilot.Prelude.Unicode.{Unicode}
use enterprise_data_copilot.Prelude.Result.{ok}
use enterprise_data_copilot.Knowledge.Models.{
  EntityDraft, RelationDraft, Extraction, GraphNode, GraphEdge, Subgraph, ExtractRequest, ids_of,
  is_valid_extraction,
}
use enterprise_data_copilot.Knowledge.Persist.{
  Uuids, node_of, edge_of, values_of, by_id_from, node_id, node_ids_from, id_at, nodes_of, edges_of,
  are_quotes, persisted_graph,
}
use enterprise_data_copilot.Knowledge.Grounded.{valid_references}

module _ (u : Unicode) (uuids : Uuids) (tenant_id : ℕ) (request : ExtractRequest) (now : ℕ) where
  node_ids_from-has_key :
      (ids : Dict Text Text) (es : List EntityDraft) (key : Text)
      → (has_key key ids || contains (ids_of es) key) ≡ true
      → has_key key (node_ids_from u uuids tenant_id request now ids es) ≡ true
  node_ids_from-has_key ids [] key h = ground arith
  node_ids_from-has_key ids (e ∷ es) key h =
      let id = node_id u uuids tenant_id request now e in
      node_ids_from-has_key (insert e.id id ids) es key
        (ground (arith, lookup-insert e.id key id ids))

  id_at-ok :
      (ids : Dict Text Text) (key : Text)
      → has_key key ids ≡ true
      → (id : Text) × (id_at u uuids tenant_id request now ids key ≡ ok id)
  id_at-ok ids key h = elim (Option-cases (lookup key ids)) [
    | inl missing ↦ absurd (ground arith)
    | inr (id, found) ↦ (id, ground arith)
  ]

  nodes_of-ok :
      (ids : Dict Text Text) (es : List EntityDraft)
      → All (λ (e : EntityDraft). has_key e.id ids ≡ true) es
      → (nodes : List GraphNode) × (nodes_of u uuids tenant_id request now ids es ≡ ok nodes)
  unfolding nodes_of
  nodes_of-ok ids [] h = ([], refl)
  nodes_of-ok ids (e ∷ es) h =
      let (id, found) = id_at-ok ids e.id h.0 in
      let (rest, made) = nodes_of-ok ids es h.1 in
      (node_of u uuids tenant_id request now id e ∷ rest, rw (found, made) refl)

  edges_of-ok :
      (ids : Dict Text Text) (rs : List RelationDraft)
      → All
          (λ (r : RelationDraft). (has_key r.source ids ≡ true) × (has_key r.target ids ≡ true))
          rs
      → (edges : List GraphEdge) × (edges_of u uuids tenant_id request now ids rs ≡ ok edges)
  unfolding edges_of
  edges_of-ok ids [] h = ([], refl)
  edges_of-ok ids (r ∷ rs) h =
      let (source, from) = id_at-ok ids r.source h.0.0 in
      let (target, to) = id_at-ok ids r.target h.0.1 in
      let (rest, made) = edges_of-ok ids rs h.1 in
      (edge_of u uuids tenant_id request now source r target ∷ rest, rw (from, to, made) refl)

  own_ids :
      (ids : Dict Text Text) (all_es es : List EntityDraft)
      → ((key : Text) → contains (ids_of es) key ≡ true → contains (ids_of all_es) key ≡ true)
      → ((key : Text) → contains (ids_of all_es) key ≡ true → has_key key ids ≡ true)
      → All (λ (e : EntityDraft). has_key e.id ids ≡ true) es
  own_ids ids all_es [] sub known = tt
  own_ids ids all_es (e ∷ es) sub known = (
    known e.id (sub e.id (rw (==_refl e.id) refl)),
    own_ids ids all_es es (λ key c. sub key (ground arith)) known,
  )

  -- A valid extraction whose evidence is quoted from the text is persisted: no identifier is ever
  -- unknown.
  pub persisted_graph-accepts :
      (x : Extraction)
      → is_valid_extraction u x ≡ true
      → are_quotes u uuids tenant_id request now x ≡ true
      → (g : Subgraph) × (persisted_graph u uuids tenant_id request now x ≡ ok g)
  unfolding persisted_graph
  persisted_graph-accepts x valid quoted =
      let ids = node_ids_from u uuids tenant_id request now [] x.entities in
      let known : (key : Text) → contains (ids_of x.entities) key ≡ true → has_key key ids ≡ true =
        λ key c. node_ids_from-has_key [] x.entities key c in
      let (nodes, n) =
        nodes_of-ok ids x.entities (own_ids ids x.entities x.entities (λ key c. c) known) in
      let joined =
        All-map
          (λ (r : RelationDraft) both.
            let (from, to) =
              &&-true (contains (ids_of x.entities) r.source)
                (contains (ids_of x.entities) r.target) both in
            (known r.source from, known r.target to))
          x.relations (valid_references u uuids tenant_id request now x valid) in
      let (edges, e) = edges_of-ok ids x.relations joined in
      (
        record {
          nodes = nodes;
          edges =
              values_of u uuids tenant_id request now
                (by_id_from u uuids tenant_id request now [] edges);
          truncated = false;
        },
        rw (valid, quoted, n, e) refl,
      )
