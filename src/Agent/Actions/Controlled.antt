-- ===== src/Agent/Actions/Controlled.antt =====
-- The controlled columns that a query refers to.
use enterprise_data_copilot.Prelude.{
  refl, ◌++◌, some, true, false, codes, All, IsIn, ◌⊎◌, inl, inr, ◌↔◌, Bool-cases, ≡→==, not_both,
  &&-true, ◌≡◌, sym, ap, ◌∙◌, Text, ◌&&◌, List, [], ◌∷◌, any, contains, arith, ◌==◌, ==→≡,
}
use enterprise_data_copilot.Prelude.Strings.{text_eq, is_empty}
use enterprise_data_copilot.Prelude.Dict.{Dict, lookup, insert, lookup-insert}
use enterprise_data_copilot.Prelude.Unicode.{Unicode}
use enterprise_data_copilot.Prelude.Result.{ok, >>=-eq-ok, ok-injective}
use enterprise_data_copilot.QuerySafety.SqlGlot.{SqlGlot, Column, Table}
use enterprise_data_copilot.Agent.State.{get_or}
use enterprise_data_copilot.Agent.Actions.Backend.{Backend}
use enterprise_data_copilot.Agent.Actions.Guarding.{
  aliases_from, table_of_column, qualified_name, found_from, controlled_references,
}

-- A name is found exactly if it is controlled and one of the columns has it.
found_from-contains :
    (controlled : List Text) (aliases : Dict Text Text) (cs : List Column) (name : Text)
    → contains (found_from controlled aliases cs) name
      ≡ (contains controlled name && any (λ c. qualified_name aliases c == name) cs)
found_from-contains controlled aliases [] name = ground arith
found_from-contains controlled aliases (c ∷ cs) name = ground (
  arith,
  ==→≡ (qualified_name aliases c) name,
  found_from-contains controlled aliases cs name,
  found_from-contains controlled aliases cs (qualified_name aliases c),
)

module _ (alias : Text) where
  lookup-others :
      (ts : List Table) (d : Dict Text Text)
      → All (λ (t : Table). (t.alias_or_name == alias) ≡ false) ts
      → lookup alias (aliases_from d ts) ≡ lookup alias d
  lookup-others [] d h = refl
  lookup-others (t ∷ ts) d (other, h) =
      lookup-others ts (insert t.alias_or_name t.name d) h
      ∙ (lookup-insert t.alias_or_name alias t.name d ∙ rw other refl)

  lookup-last :
      (before after : List Table) (t : Table) (d : Dict Text Text)
      → t.alias_or_name ≡ alias
      → All (λ (s : Table). (s.alias_or_name == alias) ≡ false) after
      → lookup alias (aliases_from d (before ++ t ∷ after)) ≡ some t.name
  lookup-last [] after t d same h =
      lookup-others after (insert t.alias_or_name t.name d) h
      ∙ (lookup-insert t.alias_or_name alias t.name d ∙ rw (≡→== t.alias_or_name alias same) refl)
  lookup-last (s ∷ before) after t d same h =
      lookup-last before after t (insert s.alias_or_name s.name d) same h

  -- The last table of the list that has the alias.
  pub record IsLast (ts : List Table) (t : Table) : Type 0 where
    pub before : List Table
    pub after : List Table
    pub split : ts ≡ before ++ t ∷ after
    pub has_alias : t.alias_or_name ≡ alias
    pub others : All (λ (s : Table). (s.alias_or_name == alias) ≡ false) after

  IsLast-cases :
      (ts : List Table)
      → ((t : Table) × IsLast ts t) ⊎ All (λ (s : Table). (s.alias_or_name == alias) ≡ false) ts
  IsLast-cases [] = inr tt
  IsLast-cases (t ∷ ts) = elim (IsLast-cases ts) [
    | inl (found, l) ↦ inl (
      found,
      record {
        before = t ∷ l.before;
        after = l.after;
        split = ap (λ us. t ∷ us) l.split;
        has_alias = l.has_alias;
        others = l.others;
      },
    )
    | inr others ↦ elim (Bool-cases (t.alias_or_name == alias)) [
      | inl same ↦ inl (
        t,
        record {
          before = [];
          after = ts;
          split = refl;
          has_alias = ==→≡ t.alias_or_name alias same;
          others = others;
        },
      )
      | inr other ↦ inr (other, others)
    ]
  ]

-- The table that a qualifier stands for: the last one with this alias, or the qualifier itself.
abbrev pub StandsFor : List Table → Text → Text → Type 0
StandsFor tables qualifier table =
    ((t : Table) × IsLast qualifier tables t × (table ≡ t.name))
    ⊎ (All (λ (s : Table). (s.alias_or_name == qualifier) ≡ false) tables × (table ≡ qualifier))

-- A column is referred to under this name: its table, a dot and the column.
abbrev pub IsReference : List Table → List Column → Text → Type 0
IsReference tables columns name =
    (c : Column) × IsIn c columns
    × (table : Text) × StandsFor tables c.table table
    × (is_empty table ≡ false)
    × (name ≡ table ++ (codes "." ++ c.name))

module _ (tables : List Table) (c : Column) where
  abbrev resolved : Text
  resolved = table_of_column (aliases_from [] tables) c

  resolved-StandsFor : StandsFor tables c.table resolved
  resolved-StandsFor = elim (IsLast-cases c.table tables) [
    | inl (t, l) ↦
        let found =
          ap (λ ts. lookup c.table (aliases_from [] ts)) l.split
          ∙ lookup-last c.table l.before l.after t [] l.has_alias l.others in
        inl (t, l, ap (get_or c.table) found)
    | inr others ↦ inr (others, ap (get_or c.table) (lookup-others c.table tables [] others))
  ]

  StandsFor-resolved : (table : Text) → StandsFor tables c.table table → resolved ≡ table
  StandsFor-resolved table (inl (t, l, same)) =
      let found =
        ap (λ ts. lookup c.table (aliases_from [] ts)) l.split
        ∙ lookup-last c.table l.before l.after t [] l.has_alias l.others in
      ap (get_or c.table) found ∙ sym same
  StandsFor-resolved table (inr (others, same)) =
      ap (get_or c.table) (lookup-others c.table tables [] others) ∙ sym same

module _ (tables : List Table) where
  named-IsReference :
      (columns : List Column) (name : Text)
      → is_empty name ≡ false
      → any (λ c. qualified_name (aliases_from [] tables) c == name) columns ≡ true
      → IsReference tables columns name
  named-IsReference [] name given h = cc
  named-IsReference (c ∷ cs) name given h =
      elim (Bool-cases (qualified_name (aliases_from [] tables) c == name)) [
        | inl here ↦
            let same = ==→≡ (qualified_name (aliases_from [] tables) c) name here in
            elim (Bool-cases (is_empty (resolved tables c))) [
              | inl blank ↦
                  let nothing : [] ≡ name = rw blank at same in
                  absurd (not_both (ap is_empty (sym nothing)) given)
              | inr full ↦ (
                c,
                inl refl,
                resolved tables c,
                resolved-StandsFor tables c,
                full,
                sym (rw full at same),
              )
            ]
        | inr later ↦
            let (d, m, table, stands, full, same) =
              named-IsReference cs name given (rw later at h) in
            (d, inr m, table, stands, full, same)
      ]

  reference-IsNamed :
      (columns : List Column) (name : Text)
      → IsReference tables columns name
      → any (λ c. qualified_name (aliases_from [] tables) c == name) columns ≡ true
  reference-IsNamed [] name (c, m, table, stands, full, same) = absurd m
  reference-IsNamed (d ∷ cs) name (c, inl here, table, stands, full, same) =
      let it = StandsFor-resolved tables c table stands in
      let there : is_empty (resolved tables c) ≡ false = ap is_empty it ∙ full in
      let named : qualified_name (aliases_from [] tables) c ≡ name =
        ground (arith, ap (λ t. t ++ (codes "." ++ c.name)) it ∙ sym same) in
      let equal =
        ≡→== (qualified_name (aliases_from [] tables) d) name
          (ap (qualified_name (aliases_from [] tables)) here ∙ named) in
      ground arith
  reference-IsNamed (d ∷ cs) name (c, inr later, table, stands, full, same) =
      ground (arith, reference-IsNamed cs name (c, later, table, stands, full, same))

module _ {V : Type 0} (u : Unicode) (g : SqlGlot) (sha256_hex : Text → Text)
    (b : Backend V g.Expression) where
  -- The controlled references of a query that parses are exactly the controlled names under which it
  -- refers to a column: the name of the table, a dot and the name of the column, where the qualifier
  -- of the column stands for the last table of the query with this alias, or for itself if no table
  -- has it.
  pub controlled_references-AreComplete :
      (query : Text) (found : List Text)
      → controlled_references u g sha256_hex b query ≡ ok found
      → (statement : g.Expression) × (b.parse_one query ≡ ok statement)
        × ((name : Text)
            → is_empty name ≡ false
            → (contains found name ≡ true) ↔ (
                (contains b.controlled_columns name ≡ true)
                × IsReference (g.tables statement) (g.columns statement) name))
  unfolding controlled_references
  controlled_references-AreComplete query found h =
      let (statement, parsed, h₁) = >>=-eq-ok (b.parse_one query) _ h in
      let aliases = aliases_from [] (g.tables statement) in
      let same : (name : Text)
          → contains found name ≡ (
              contains b.controlled_columns name
              && any (λ c. qualified_name aliases c == name) (g.columns statement)) =
        λ name.
          sym (ap (λ f. contains f name) (ok-injective h₁))
          ∙ found_from-contains b.controlled_columns aliases (g.columns statement) name in
      (
        statement,
        parsed,
        λ name given. (
          λ there.
              let both = &&-true _ _ (sym (same name) ∙ there) in
              (
                both.0,
                named-IsReference (g.tables statement) (g.columns statement) name given both.1,
              ),
          λ (controlled, reference).
              let named =
                reference-IsNamed (g.tables statement) (g.columns statement) name reference in
              same name ∙ ground (arith, controlled, named),
        ),
      )
