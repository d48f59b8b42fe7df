-- ===== src/Knowledge/Lookup.antt =====
-- The table of the nodes by their id, and what is looked up in it.
use enterprise_data_copilot.Prelude.{
  ◌≡◌, refl, sym, ap, ◌∙◌, subst, ◌⊎◌, inl, inr, Text, Bool, true, false, List, [], ◌∷◌, Option,
  some, All, IsIn, arith, ==→≡, ◌==◌, Option-cases, if◌then◌else◌,
}
use enterprise_data_copilot.Prelude.Strings.{text_eq}
use enterprise_data_copilot.Prelude.Dict.{Dict, lookup, insert, has_key, lookup-insert}
use enterprise_data_copilot.Prelude.Result.{Result, ok, err, ◌>>=◌}
use enterprise_data_copilot.Knowledge.Models.{GraphNode}
use enterprise_data_copilot.Knowledge.Store.{
  node_ids, nodes_from, PathError, unknown_node, nodes_at,
}

-- Every node of the table stands under its id, and is one of the list.
abbrev pub IsTable : List GraphNode → Dict Text GraphNode → Type 0
IsTable nodes d = (key : Text) (n : GraphNode) → lookup key d ≡ some n → (n.id ≡ key) × IsIn n nodes

chosen :
    (b : Bool) (n m : GraphNode) (other : Option GraphNode)
    → (if b then some n else other) ≡ some m
    → ((b ≡ true) × (n ≡ m)) ⊎ (other ≡ some m)
chosen true n m other h = inl (refl, cc)
chosen false n m other h = inr h

insert-IsTable :
    (nodes : List GraphNode) (n : GraphNode) (d : Dict Text GraphNode)
    → IsIn n nodes
    → IsTable nodes d
    → IsTable nodes (insert n.id n d)
insert-IsTable nodes n d there h key m found =
    elim (chosen (n.id == key) n m (lookup key d) (sym (lookup-insert n.id key n d) ∙ found)) [
      | inl (same, it) ↦ (
        sym (ap (λ (x : GraphNode). x.id) it) ∙ ==→≡ n.id key same,
        subst (λ x. IsIn x nodes) it there,
      )
      | inr before ↦ h key m before
    ]

nodes_from-IsTable :
    (nodes ns : List GraphNode) (d : Dict Text GraphNode)
    → ((n : GraphNode) → IsIn n ns → IsIn n nodes)
    → IsTable nodes d
    → IsTable nodes (nodes_from d ns)
nodes_from-IsTable nodes [] d sub h = h
nodes_from-IsTable nodes (n ∷ ns) d sub h =
    nodes_from-IsTable nodes ns (insert n.id n d) (λ m k. sub m (inr k))
      (insert-IsTable nodes n d (sub n (inl refl)) h)

pub all-IsTable : (nodes : List GraphNode) → IsTable nodes (nodes_from [] nodes)
all-IsTable nodes = nodes_from-IsTable nodes nodes [] (λ n k. k) (λ key n h. cc)

-- What the keys are looked up to: their nodes, or the error of a key that is not in the table.
abbrev pub AreLookedUp :
    List GraphNode → Dict Text GraphNode → List Text → Result PathError (List GraphNode) → Type 0
AreLookedUp nodes d keys (ok ns) = (node_ids ns ≡ keys) × All (λ n. IsIn n nodes) ns
AreLookedUp nodes d keys (err e) =
    (e ≡ unknown_node) × (key : Text) × IsIn key keys × (has_key key d ≡ false)

added-AreLookedUp :
    (nodes : List GraphNode) (d : Dict Text GraphNode) (key : Text) (keys : List Text)
    (n : GraphNode) (r : Result PathError (List GraphNode))
    → (n.id ≡ key) × IsIn n nodes
    → AreLookedUp nodes d keys r
    → AreLookedUp nodes d (key ∷ keys) (r >>= λ ns. ok (n ∷ ns))
added-AreLookedUp nodes d key keys n (ok ns) (same, there) (ids, all) = (cc, (there, all))
added-AreLookedUp nodes d key keys n (err e) it (same, k, m, unknown) = (same, k, inr m, unknown)

pub nodes_at-AreLookedUp :
    (nodes : List GraphNode) (d : Dict Text GraphNode) (keys : List Text)
    → IsTable nodes d
    → AreLookedUp nodes d keys (nodes_at d keys)
unfolding nodes_at
nodes_at-AreLookedUp nodes d [] h = (refl, tt)
nodes_at-AreLookedUp nodes d (key ∷ keys) h = elim (Option-cases (lookup key d)) [
  | inl missing ↦
      let raised : err unknown_node ≡ nodes_at d (key ∷ keys) = ground arith in
      let unknown : has_key key d ≡ false = ground arith in
      subst (AreLookedUp nodes d (key ∷ keys)) raised (refl, key, inl refl, unknown)
  | inr (n, found) ↦
      let added : (nodes_at d keys >>= λ ns. ok (n ∷ ns)) ≡ nodes_at d (key ∷ keys) =
        ground arith in
      subst (AreLookedUp nodes d (key ∷ keys)) added (
        added-AreLookedUp nodes d key keys n (nodes_at d keys) (h key n found)
          (nodes_at-AreLookedUp nodes d keys h))
]
