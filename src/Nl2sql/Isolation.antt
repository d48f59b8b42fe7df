-- ===== src/Nl2sql/Isolation.antt =====
-- What the reported tables must be for `normalize_reported_tables` to return their names.
use enterprise_data_copilot.Prelude.{
  ℕ, ◌==◌, ◌≡◌, ◌≢◌, refl, sym, ap, ◌∙◌, subst, ◌⊎◌, inl, inr, ◌↔◌, Text, true, false, not, List,
  [], ◌∷◌, ◌++◌, codes, All, contains, is_unique, Bool-cases, arith, ==→≡, ==_refl,
}
use enterprise_data_copilot.Prelude.Strings.{split_on, push_char, join, text_eq, is_empty}
use enterprise_data_copilot.Prelude.{nat_eq}
use enterprise_data_copilot.Prelude.Result.{ok, raise_if, >>=-eq-ok, raise_if-eq-ok, ok-injective}
use enterprise_data_copilot.Nl2sql.Errors.{schema_selection}
use enterprise_data_copilot.Nl2sql.Tables.{table_of, tables_of, normalize_reported_tables}

abbrev HasNoDot : Text → Type 0
HasNoDot s = contains s b'.' ≡ false

-- The value is the name itself, or the name behind the schema and a dot.
pub record IsNameOf (schema value name : Text) : Type 0 where
  pub some_name : is_empty name ≡ false
  pub simple : contains name b'.' ≡ false
  pub spelled : (value ≡ name) ⊎ (value ≡ schema ++ (codes "." ++ name))

abbrev pub AreNamesOf : Text → List Text → List Text → Type 0
AreNamesOf schema [] [] = Unit
AreNamesOf schema (v ∷ vs) (n ∷ ns) = IsNameOf schema v n × AreNamesOf schema vs ns
AreNamesOf schema vs ns = ⊥

-- One name for each value, and no name twice.
pub record AreTables (schema : Text) (values names : List Text) : Type 0 where
  pub spelled : AreNamesOf schema values names
  pub unique : is_unique names ≡ true

module _ (sep : ℕ) where
  push_char-nonempty : (c : ℕ) (ps : List Text) → push_char c ps ≢ []
  push_char-nonempty c [] h = cc
  push_char-nonempty c (p ∷ ps) h = cc

  split_on-nonempty : (s : Text) → split_on sep s ≢ []
  split_on-nonempty [] = λ h. cc
  split_on-nonempty (c ∷ s) = elim (Bool-cases (c == sep)) [
    | inl e ↦ rw e (λ h. cc)
    | inr e ↦ rw e (push_char-nonempty c (split_on sep s))
  ]

  push_char-join :
      (c : ℕ) (ps : List Text) → ps ≢ [] → join (sep ∷ []) (push_char c ps) ≡ c ∷ join (sep ∷ []) ps
  push_char-join c [] h = absurd (h refl)
  push_char-join c (p ∷ []) h = refl
  push_char-join c (p ∷ q ∷ ps) h = refl

  join-nil : (ps : List Text) → ps ≢ [] → join (sep ∷ []) ([] ∷ ps) ≡ sep ∷ join (sep ∷ []) ps
  join-nil [] h = absurd (h refl)
  join-nil (p ∷ ps) h = refl

  -- The parts, put together again, are the text.
  join-split_on : (s : Text) → join (sep ∷ []) (split_on sep s) ≡ s
  join-split_on [] = refl
  join-split_on (c ∷ s) = elim (Bool-cases (c == sep)) [
    | inl e ↦
        rw (e, join-nil (split_on sep s) (split_on-nonempty s), join-split_on s)
          (ap (λ x. x ∷ s) (sym (==→≡ c sep e)))
    | inr e ↦ rw (e, push_char-join c (split_on sep s) (split_on-nonempty s), join-split_on s)
  ]

  push_char-All :
      (c : ℕ) (ps : List Text)
      → (c == sep) ≡ false
      → All (λ p. contains p sep ≡ false) ps
      → All (λ p. contains p sep ≡ false) (push_char c ps)
  push_char-All c [] e h = (rw e refl, tt)
  push_char-All c (p ∷ ps) e h = (rw e h.0, h.1)

  -- No part has a separator in it.
  split_on-All : (s : Text) → All (λ p. contains p sep ≡ false) (split_on sep s)
  split_on-All [] = (refl, tt)
  split_on-All (c ∷ s) = elim (Bool-cases (c == sep)) [
    | inl e ↦ rw e (refl, split_on-All s)
    | inr e ↦ rw e (push_char-All c (split_on sep s) e (split_on-All s))
  ]

  split_on-simple : (s : Text) → contains s sep ≡ false → split_on sep s ≡ s ∷ []
  split_on-simple [] h = refl
  split_on-simple (c ∷ s) h = ground (arith, split_on-simple s)

  split_on-append :
      (s t : Text) → contains s sep ≡ false → split_on sep (s ++ sep ∷ t) ≡ s ∷ split_on sep t
  split_on-append [] t h = rw (==_refl sep)
  split_on-append (c ∷ s) t h = ground (arith, split_on-append s t)

module _ (schema : Text) where
  table_of-IsNameOf :
      (ps : List Text) (n : Text)
      → All HasNoDot ps
      → table_of schema ps ≡ ok n
      → IsNameOf schema (join (codes ".") ps) n
  unfolding table_of
  table_of-IsNameOf [] n d h = cc
  table_of-IsNameOf (p ∷ []) n d h = ground arith
  table_of-IsNameOf (q ∷ p ∷ []) n d h =
      let pair : (q ≡ schema) × (p ≡ n) × (is_empty p ≡ false) =
        ground (arith, text_eq.beq_iff q schema) in
      record {
        some_name = subst (λ w. is_empty w ≡ false) pair.1 pair.2;
        simple = subst HasNoDot pair.1 d.1.0;
        spelled =
            inr (
              ap (λ w. w ++ (codes "." ++ p)) pair.0 ∙ ap (λ w. schema ++ (codes "." ++ w)) pair.1);
      }
  table_of-IsNameOf (r ∷ q ∷ p ∷ ps) n d h = cc

  IsNameOf-table_of :
      (v n : Text)
      → contains schema b'.' ≡ false
      → IsNameOf schema v n
      → table_of schema (split_on b'.' v) ≡ ok n
  unfolding table_of
  IsNameOf-table_of v n dot h =
      let parts = split_on-simple b'.' n h.simple in
      let alone = ap (table_of schema) parts ∙ rw h.some_name in
      let behind =
        ap (table_of schema) (split_on-append b'.' schema n dot ∙ ap (λ ps. schema ∷ ps) parts)
        ∙ rw (==_refl schema, h.some_name) in
      elim h.spelled [
        | inl e ↦ ap (λ w. table_of schema (split_on b'.' w)) e ∙ alone
        | inr e ↦ ap (λ w. table_of schema (split_on b'.' w)) e ∙ behind
      ]

  IsNameOf-of-table : (v n : Text) → table_of schema (split_on b'.' v) ≡ ok n → IsNameOf schema v n
  IsNameOf-of-table v n h =
      subst (λ w. IsNameOf schema w n) (join-split_on b'.' v)
        (table_of-IsNameOf (split_on b'.' v) n (split_on-All b'.' v) h)

  tables_of-AreNamesOf : (vs ns : List Text) → tables_of schema vs ≡ ok ns → AreNamesOf schema vs ns
  unfolding tables_of
  tables_of-AreNamesOf [] ns h = subst (AreNamesOf schema []) (ok-injective h) tt
  tables_of-AreNamesOf (v ∷ vs) ns h =
      let (n, first, h₁) = >>=-eq-ok (table_of schema (split_on b'.' v)) _ h in
      let (ms, others, h₂) = >>=-eq-ok (tables_of schema vs) _ h₁ in
      subst (AreNamesOf schema (v ∷ vs)) (ok-injective h₂)
        (IsNameOf-of-table v n first, tables_of-AreNamesOf vs ms others)

  AreNamesOf-tables_of :
      (vs ns : List Text)
      → contains schema b'.' ≡ false
      → AreNamesOf schema vs ns
      → tables_of schema vs ≡ ok ns
  unfolding tables_of
  AreNamesOf-tables_of [] [] dot h = refl
  AreNamesOf-tables_of [] (n ∷ ns) dot h = absurd h
  AreNamesOf-tables_of (v ∷ vs) [] dot h = absurd h
  AreNamesOf-tables_of (v ∷ vs) (n ∷ ns) dot h =
      rw (IsNameOf-table_of v n dot h.0, AreNamesOf-tables_of vs ns dot h.1)

  -- Where the schema has no dot, the reported tables normalize to names exactly when each value is
  -- such a name, alone or behind this schema and a dot, and no name comes twice.
  pub normalize_reported_tables-AreTables :
      (values names : List Text)
      → contains schema b'.' ≡ false
      → (normalize_reported_tables schema values ≡ ok names) ↔ AreTables schema values names
  unfolding normalize_reported_tables
  normalize_reported_tables-AreTables values names dot = (
    λ h.
        let (ns, spelled, h₁) = >>=-eq-ok (tables_of schema values) _ h in
        let (_, checked, h₂) = >>=-eq-ok (raise_if (not (is_unique ns)) schema_selection) _ h₁ in
        let unique = raise_if-eq-ok (not (is_unique ns)) schema_selection checked in
        subst (AreTables schema values) (ok-injective h₂)
          (record { spelled = tables_of-AreNamesOf values ns spelled; unique = ground arith }),
    λ h. rw (AreNamesOf-tables_of values names dot h.spelled, h.unique),
  )
