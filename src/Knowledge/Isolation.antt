-- ===== src/Knowledge/Isolation.antt =====
-- The subgraph that the in-memory store answers, and the separation of the tenants.
use enterprise_data_copilot.Prelude.{
  zero, suc, ◌+◌, ◌||◌, ap, ◌∙◌, sym, subst, map, IsIn, ℕ, ◌≤◌, ◌≡◌, ◌≢◌, refl, Text, Bool, true,
  false, List, [], ◌∷◌, All, All-take, All-map, keep, take, length, contains, length-take-le, arith,
  Bool-cases, inl, inr, ◌==◌, ==→≡, ltb-eq-false, take-all, &&-true, pair_eq, nat_eq, nat_beq_iff,
}
use enterprise_data_copilot.Prelude.Strings.{text_eq, is_empty, is_infix}
use enterprise_data_copilot.Prelude.Unicode.{Unicode}
use enterprise_data_copilot.Knowledge.Models.{GraphNode, GraphEdge, Subgraph}
use enterprise_data_copilot.Knowledge.Reach.{
  IsWithin, IsWithin-map, ends-IsIn, IsIn-ends, grow-IsWithin, IsWithin-grow,
}
use enterprise_data_copilot.Knowledge.Store.{
  Graphs, replace, all_nodes, all_edges, node_ids, grow, joins, seeds, matches, subgraph, path,
}

-- The graphs of another tenant do not contribute.
all_nodes-replace :
    (t t' source : ℕ) (g : Subgraph) (graphs : Graphs)
    → (t' == t) ≡ false
    → all_nodes t (replace t' source g graphs) ≡ all_nodes t graphs
unfolding all_nodes replace
all_nodes-replace t t' source g [] h = rw h refl
all_nodes-replace t t' source g (((tenant, s), g') ∷ graphs) h = ground (
  arith,
  all_nodes-replace t t' source g graphs h,
  nat_beq_iff tenant t',
  nat_beq_iff tenant t,
  nat_beq_iff t' t,
)

all_edges-replace :
    (t t' source : ℕ) (g : Subgraph) (graphs : Graphs)
    → (t' == t) ≡ false
    → all_edges t (replace t' source g graphs) ≡ all_edges t graphs
unfolding all_edges replace
all_edges-replace t t' source g [] h = rw h refl
all_edges-replace t t' source g (((tenant, s), g') ∷ graphs) h = ground (
  arith,
  all_edges-replace t t' source g graphs h,
  nat_beq_iff tenant t',
  nat_beq_iff tenant t,
  nat_beq_iff t' t,
)

different : (t t' : ℕ) → t' ≢ t → (t' == t) ≡ false
different t t' h = elim (Bool-cases (t' == t)) [
  | inl same ↦ absurd (h (==→≡ t' t same))
  | inr other ↦ other
]

-- What a tenant stores changes no subgraph and no path of another.
pub replace-IsIsolated :
    (u : Unicode) (t t' source : ℕ) (g : Subgraph) (graphs : Graphs)
    → t' ≢ t
    → ((query : Text) (depth limit : ℕ)
        → subgraph u t query depth limit (replace t' source g graphs)
          ≡ subgraph u t query depth limit graphs)
      × ((from to : Text) (depth : ℕ)
          → path t from to depth (replace t' source g graphs) ≡ path t from to depth graphs)
unfolding subgraph path
replace-IsIsolated u t t' source g graphs other =
    let nodes = all_nodes-replace t t' source g graphs (different t t' other) in
    let edges = all_edges-replace t t' source g graphs (different t t' other) in
    (λ query depth limit. rw (nodes, edges) refl, λ from to depth. rw (nodes, edges) refl)

keep-All :
    {A : Type 0} (p : A → Bool) (xs : List A) → All (λ x. IsIn x xs × (p x ≡ true)) (keep p xs)
keep-All p [] = tt
keep-All p (x ∷ xs) =
    let rest = All-map (λ y (m, h). (inr m, h)) (keep p xs) (keep-All p xs) in
    elim (Bool-cases (p x)) [
      | inl kept ↦ rw kept ((inl refl, kept), rest)
      | inr dropped ↦ rw dropped rest
    ]

IsIn-keep :
    {A : Type 0} (p : A → Bool) (xs : List A) (x : A) → IsIn x xs → p x ≡ true → IsIn x (keep p xs)
IsIn-keep p [] x m h = absurd m
IsIn-keep p (y ∷ xs) x (inl same) h = let kept : p y ≡ true = ap p same ∙ h in rw kept (inl same)
IsIn-keep p (y ∷ xs) x (inr later) h =
    let rest = IsIn-keep p xs x later h in
    elim (Bool-cases (p y)) [ inl kept ↦ rw kept (inr rest) | inr dropped ↦ rw dropped rest ]

contains-take :
    (n : ℕ) (xs : List Text) (a : Text) → contains (take n xs) a ≡ true → contains xs a ≡ true
contains-take zero xs a h = cc
contains-take (suc n) [] a h = cc
contains-take (suc n) (x ∷ xs) a h = ground (arith, contains-take n xs a)

length-map : {A B : Type 0} (f : A → B) (xs : List A) → length (map f xs) ≡ length xs
length-map f [] = refl
length-map f (x ∷ xs) = omega (arith, length-map f xs)

module _ (u : Unicode) (tenant_id : ℕ) (query : Text) (depth limit : ℕ) (graphs : Graphs) where
  abbrev nodes : List GraphNode
  nodes = all_nodes tenant_id graphs

  abbrev edges : List GraphEdge
  edges = all_edges tenant_id graphs

  -- The search for the query starts at the node: there is no query, or the name and the query occur
  -- one in the other, without regard to case.
  abbrev pub is_matching : GraphNode → Bool
  is_matching n =
      is_empty query
      || (is_infix (u.casefold n.name) (u.casefold query)
          || is_infix (u.casefold query) (u.casefold n.name))

  abbrev pub IsMatchingId : Text → Type 0
  IsMatchingId id = (n : GraphNode) × IsIn n nodes × (is_matching n ≡ true) × (n.id ≡ id)

  -- No node is shown beyond the reached ones, every edge joins two of these, and nothing that is
  -- reached is missing where neither limit cuts.
  pub record IsShown (g : Subgraph) : Type 0 where
    pub few_nodes : length g.nodes ≤ limit
    pub few_edges : length g.edges ≤ 200
    pub closed :
        All
          (λ (e : GraphEdge).
            (contains (node_ids g.nodes) e.source ≡ true)
            × (contains (node_ids g.nodes) e.target ≡ true))
          g.edges
    pub reached :
        All (λ (n : GraphNode). IsIn n nodes × IsWithin edges IsMatchingId depth n.id) g.nodes
    pub complete :
        g.truncated ≡ false
        → length (keep is_matching nodes) ≤ limit + 1
        → (n : GraphNode) → IsIn n nodes
        → IsWithin edges IsMatchingId depth n.id
        → IsIn n g.nodes

  abbrev sources : List Text
  sources = seeds u nodes query limit

  abbrev is_selected : GraphNode → Bool
  is_selected n = contains (grow edges depth sources) n.id

  source-IsMatching : (id : Text) → contains sources id ≡ true → IsMatchingId id
  unfolding matches
  source-IsMatching id h =
      ends-IsIn is_matching (λ (n : GraphNode). n.id) nodes id
        (contains-take (limit + 1) (node_ids (keep is_matching nodes)) id h)

  matching-IsSource :
      length (keep is_matching nodes) ≤ limit + 1
      → (id : Text) → IsMatchingId id
      → contains sources id ≡ true
  unfolding matches
  matching-IsSource few id (n, m, h, same) =
      let all_kept =
        take-all (limit + 1) (node_ids (keep is_matching nodes))
          (omega (arith, length-map (λ (x : GraphNode). x.id) (keep is_matching nodes), few)) in
      ap (λ ids. contains ids id) all_kept
      ∙ subst (λ x. contains (node_ids (keep is_matching nodes)) x ≡ true) same
          (IsIn-ends is_matching (λ (x : GraphNode). x.id) nodes n m h)

  -- A subgraph has at most `limit` nodes, each a node of the tenant within `depth` steps of one that
  -- matches the query, and at most 200 edges, all of them between its nodes; where it is not
  -- truncated and at most limit + 1 nodes match, it has every node within these steps.
  pub subgraph-IsShown : IsShown (subgraph u tenant_id query depth limit graphs)
  unfolding subgraph
  subgraph-IsShown =
      let found = keep is_selected nodes in
      let shown_ids = node_ids (take limit found) in
      record {
        few_nodes = length-take-le limit found;
        few_edges = length-take-le 200 (keep (joins shown_ids) edges);
        closed =
            All-map
              (λ (e : GraphEdge) kept.
                &&-true (contains shown_ids e.source) (contains shown_ids e.target) kept.1)
              (take 200 (keep (joins shown_ids) edges))
              (All-take _ 200 (keep (joins shown_ids) edges) (keep-All (joins shown_ids) edges));
        reached =
            All-map
              (λ (n : GraphNode) kept. (
                kept.0,
                IsWithin-map edges source-IsMatching
                    (grow-IsWithin edges depth sources n.id kept.1),
              ))
              (take limit found) (All-take _ limit found (keep-All is_selected nodes));
        complete = λ whole few n m w.
            subst (IsIn n) (sym (take-all limit found (ltb-eq-false limit (length found) whole))) (
              IsIn-keep is_selected nodes n m (
                IsWithin-grow edges depth sources n.id
                  (IsWithin-map edges (matching-IsSource few) w)));
      }
