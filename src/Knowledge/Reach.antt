-- ===== src/Knowledge/Reach.antt =====
-- The nodes that the rounds of `subgraph` select, against the steps that lead to them.
use enterprise_data_copilot.Prelude.{
  ℕ, zero, suc, ◌≡◌, refl, sym, ap, ◌∙◌, ◌⊎◌, inl, inr, Text, Bool, true, ◌||◌, List, [], ◌∷◌, ◌++◌,
  map, keep, IsIn, contains, contains-append, arith, ==→≡, ≡→==, ◌==◌, Bool-cases, subst,
}
use enterprise_data_copilot.Prelude.Strings.{text_eq}
use enterprise_data_copilot.Knowledge.Models.{GraphEdge}
use enterprise_data_copilot.Knowledge.Store.{adjacent, grow}
use enterprise_data_copilot.Knowledge.Paths.{Joins}

-- A node that at most so many edges lead to, each along its direction or against it.
pub data IsWithin (edges : List GraphEdge) (IsSource : Text → Type 0) : ℕ → Text → Type 0 where
  source : {n : ℕ} {node : Text} → IsSource node → IsWithin edges IsSource n node
  across :
      {n : ℕ} {node next : Text}
      → IsWithin edges IsSource n node
      → (e : GraphEdge) → IsIn e edges
      → Joins e node next
      → IsWithin edges IsSource (suc n) next

pub IsWithin-map :
    (edges : List GraphEdge) {P Q : Text → Type 0} (f : (node : Text) → P node → Q node) {n : ℕ}
    {node : Text}
    → IsWithin edges P n node
    → IsWithin edges Q n node
IsWithin-map edges f (source {node = node} h) = source (f node h)
IsWithin-map edges f (across w e m j) = across (IsWithin-map edges f w) e m j

both-or : (a b : Bool) → (a || b) ≡ true → (a ≡ true) ⊎ (b ≡ true)
both-or a b h = ground arith

contains-left : (xs ys : List Text) (a : Text) → contains xs a ≡ true → contains (xs ++ ys) a ≡ true
contains-left xs ys a h = ground (arith, contains-append xs ys a)

contains-right :
    (xs ys : List Text) (a : Text) → contains ys a ≡ true → contains (xs ++ ys) a ≡ true
contains-right xs ys a h = ground (arith, contains-append xs ys a)

module _ {A : Type 0} (p : A → Bool) (end : A → Text) where
  pub ends-IsIn :
      (es : List A) (node : Text)
      → contains (map end (keep p es)) node ≡ true
      → (e : A) × IsIn e es × (p e ≡ true) × (end e ≡ node)
  ends-IsIn [] node h = cc
  ends-IsIn (e ∷ es) node h = elim (Bool-cases (p e)) [
    | inl kept ↦ elim (both-or (end e == node) _ (rw kept at h)) [
      | inl here ↦ (e, inl refl, kept, ==→≡ (end e) node here)
      | inr later ↦ let (f, m, k, same) = ends-IsIn es node later in (f, inr m, k, same)
    ]
    | inr dropped ↦ let (f, m, k, same) = ends-IsIn es node (rw dropped at h) in (f, inr m, k, same)
  ]

  pub IsIn-ends :
      (es : List A) (e : A) → IsIn e es → p e ≡ true → contains (map end (keep p es)) (end e) ≡ true
  IsIn-ends [] e m k = absurd m
  IsIn-ends (f ∷ es) e (inl same) k = ground (arith, ap p same, ≡→== (end f) (end e) (ap end same))
  IsIn-ends (f ∷ es) e (inr later) k = ground (arith, IsIn-ends es e later k)

module _ (edges : List GraphEdge) where
  abbrev along : List Text → List Text
  along selected =
      map (λ (e : GraphEdge). e.target) (keep (λ (e : GraphEdge). contains selected e.source) edges)

  abbrev against : List Text → List Text
  against selected =
      map (λ (e : GraphEdge). e.source) (keep (λ (e : GraphEdge). contains selected e.target) edges)

  -- One round selects what an edge leads to.
  adjacent-IsNext :
      (selected : List Text) (next : Text)
      → contains (adjacent edges selected) next ≡ true
      → (node : Text) × (contains selected node ≡ true)
        × (e : GraphEdge) × IsIn e edges
        × Joins e node next
  adjacent-IsNext selected next h = elim (both-or _ _ (sym (contains-append _ _ next) ∙ h)) [
    | inl forward ↦
        let (e, m, from, to) =
          ends-IsIn (λ e. contains selected e.source) (λ e. e.target) edges next forward in
        (e.source, from, e, m, inl (refl, to))
    | inr backward ↦
        let (e, m, from, to) =
          ends-IsIn (λ e. contains selected e.target) (λ e. e.source) edges next backward in
        (e.target, from, e, m, inr (refl, to))
  ]

  next-IsAdjacent :
      (selected : List Text) (node next : Text) (e : GraphEdge)
      → contains selected node ≡ true
      → IsIn e edges
      → Joins e node next
      → contains (adjacent edges selected) next ≡ true
  next-IsAdjacent selected node next e h m (inl (s, t)) =
      let there =
        IsIn-ends (λ e. contains selected e.source) (λ e. e.target) edges e m
          (ap (contains selected) s ∙ h) in
      contains-left (along selected) (against selected) next
        (subst (λ n. contains (along selected) n ≡ true) t there)
  next-IsAdjacent selected node next e h m (inr (t, s)) =
      let there =
        IsIn-ends (λ e. contains selected e.target) (λ e. e.source) edges e m
          (ap (contains selected) t ∙ h) in
      contains-right (along selected) (against selected) next
        (subst (λ n. contains (against selected) n ≡ true) s there)

  later-IsWithin :
      (selected : List Text) {n : ℕ} {node : Text}
      → IsWithin edges (λ m. contains (selected ++ adjacent edges selected) m ≡ true) n node
      → IsWithin edges (λ m. contains selected m ≡ true) (suc n) node
  later-IsWithin selected (source {node = node} h) =
      elim (both-or _ _ (sym (contains-append selected _ node) ∙ h)) [
        | inl before ↦ source before
        | inr new ↦
            let (from, known, e, m, j) = adjacent-IsNext selected node new in
            across (source known) e m j
      ]
  later-IsWithin selected (across w e m j) = across (later-IsWithin selected w) e m j

  sooner-IsWithin :
      (selected : List Text) (n : ℕ) {node : Text}
      → IsWithin edges (λ m. contains selected m ≡ true) (suc n) node
      → IsWithin edges (λ m. contains (selected ++ adjacent edges selected) m ≡ true) n node
  sooner-IsWithin selected n (source h) = source (contains-left selected _ _ h)
  sooner-IsWithin selected zero (across (source h) e m j) =
      source (contains-right selected _ _ (next-IsAdjacent selected _ _ e h m j))
  sooner-IsWithin selected (suc n) (across w e m j) = across (sooner-IsWithin selected n w) e m j

  -- The rounds select exactly the nodes within as many steps of a selected one.
  pub grow-IsWithin :
      (depth : ℕ) (selected : List Text) (node : Text)
      → contains (grow edges depth selected) node ≡ true
      → IsWithin edges (λ n. contains selected n ≡ true) depth node
  unfolding grow
  grow-IsWithin zero selected node h = source h
  grow-IsWithin (suc depth) selected node h =
      later-IsWithin selected (grow-IsWithin depth (selected ++ adjacent edges selected) node h)

  pub IsWithin-grow :
      (depth : ℕ) (selected : List Text) (node : Text)
      → IsWithin edges (λ n. contains selected n ≡ true) depth node
      → contains (grow edges depth selected) node ≡ true
  unfolding grow
  IsWithin-grow zero selected node (source h) = h
  IsWithin-grow (suc depth) selected node h =
      IsWithin-grow depth (selected ++ adjacent edges selected) node
        (sooner-IsWithin selected depth h)
