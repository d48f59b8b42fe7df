-- ===== src/Agent/Extremes.antt =====
-- The highest and the lowest of some rows.
use enterprise_data_copilot.Prelude.{
  ◌≡◌, refl, inl, inr, Text, Bool, true, false, List, [], ◌∷◌, All, IsIn, Bool-cases,
}
use enterprise_data_copilot.Prelude.Dict.{Dict}
use enterprise_data_copilot.Prelude.Unicode.{Unicode}
use enterprise_data_copilot.Agent.Answering.{Values, key_of, highest, lowest}
use enterprise_data_copilot.Prelude.Strings.{text_eq}

-- The comparison of the finite decimals: it is never true both ways, and a decimal that is not less
-- than one that is not less than a third is not less than the third.
pub record IsOrder {D : Type 0} (less : D → D → Bool) : Type 0 where
  pub one_way : (a c : D) → less a c ≡ true → less c a ≡ false
  pub not_less : (a c d : D) → less a c ≡ false → less c d ≡ false → less a d ≡ false

module _ {V D : Type 0} (u : Unicode) (values : Values V D) (metric : Text) where
  abbrev key : Dict Text V → D
  key row = key_of u values metric row

  -- One of the rows, and none of them has a greater key.
  pub record IsHighest (row : Dict Text V) (rows : List (Dict Text V)) : Type 0 where
    pub present : IsIn row rows
    pub greatest : All (λ r. values.less (key row) (key r) ≡ false) rows

  pub record IsLowest (row : Dict Text V) (rows : List (Dict Text V)) : Type 0 where
    pub present : IsIn row rows
    pub least : All (λ r. values.less (key r) (key row) ≡ false) rows

  second : {A : Type 0} (a x y : A) (xs : List A) → IsIn a (x ∷ xs) → IsIn a (x ∷ y ∷ xs)
  second a x y xs (inl same) = inl same
  second a x y xs (inr later) = inr (inr later)

  module _ (order : IsOrder values.less) where
    irreflexive : (a : D) → values.less a a ≡ false
    irreflexive a = elim (Bool-cases (values.less a a)) [
      | inl less ↦ order.one_way a a less
      | inr not_less ↦ not_less
    ]

    pub highest-IsHighest :
        (best : Dict Text V) (rows : List (Dict Text V))
        → IsHighest (highest u values metric best rows) (best ∷ rows)
    unfolding highest
    highest-IsHighest best [] = record {
      present = inl refl;
      greatest = (irreflexive (key best), tt);
    }
    highest-IsHighest best (row ∷ rows) = elim (Bool-cases (values.less (key best) (key row))) [
      | inl less ↦
          let h = highest-IsHighest row rows in
          rw less (record {
            present = inr h.present;
            greatest =
                (order.not_less _ (key row) _ h.greatest.0 (order.one_way _ _ less), h.greatest);
          })
      | inr other ↦
          let h = highest-IsHighest best rows in
          rw other (record {
            present = second _ best row rows h.present;
            greatest =
                (h.greatest.0, (order.not_less _ (key best) _ h.greatest.0 other, h.greatest.1));
          })
    ]

    pub lowest-IsLowest :
        (best : Dict Text V) (rows : List (Dict Text V))
        → IsLowest (lowest u values metric best rows) (best ∷ rows)
    unfolding lowest
    lowest-IsLowest best [] = record { present = inl refl; least = (irreflexive (key best), tt) }
    lowest-IsLowest best (row ∷ rows) = elim (Bool-cases (values.less (key row) (key best))) [
      | inl less ↦
          let h = lowest-IsLowest row rows in
          rw less (record {
            present = inr h.present;
            least = (order.not_less _ (key row) _ (order.one_way _ _ less) h.least.0, h.least);
          })
      | inr other ↦
          let h = lowest-IsLowest best rows in
          rw other (record {
            present = second _ best row rows h.present;
            least = (h.least.0, (order.not_less _ (key best) _ other h.least.0, h.least.1));
          })
    ]
