-- ===== src/Agent/Described.antt =====
-- The rows that an answer about more than four rows calls the highest and the lowest.
use enterprise_data_copilot.Prelude.{
  ◌<◌, ◌++◌, sym, ap, ◌∙◌, Option, some, none, All-IsIn, Option-cases, not_both, arith, length, leb,
  codes, not, ◌&&◌, any, all, &&-true, if◌then◌else◌, ◌≡◌, refl, inl, inr, Text, Bool, true, false,
  List, [], ◌∷◌, All, IsIn, Bool-cases,
}
use enterprise_data_copilot.Prelude.Dict.{Dict, lookup}
use enterprise_data_copilot.Prelude.Unicode.{Unicode}
use enterprise_data_copilot.Agent.Answering.{
  Values, key_of, highest, lowest, dimension_markers, number_of, is_present, find_first, metric_of,
  is_dimension, count_text, label, text_of, describe_sql_result, period_change, notice,
}
use enterprise_data_copilot.Prelude.Strings.{text_eq, is_infix}
use enterprise_data_copilot.Agent.Extremes.{IsOrder, highest-IsHighest, lowest-IsLowest}

some-injective : {A : Type 0} {a b : A} → some a ≡ some b → a ≡ b
some-injective h = cc

guarded :
    {A : Type 0} (b : Bool) (o : Option A) (a : A)
    → (if b then none else o) ≡ some a
    → (b ≡ false) × (o ≡ some a)
guarded true o a h = cc
guarded false o a h = (refl, h)

module _ {A : Type 0} (p : A → Bool) where
  none-any : (xs : List A) → All (λ x. p x ≡ false) xs → any p xs ≡ false
  none-any [] h = refl
  none-any (x ∷ xs) h = rw (h.0, none-any xs h.1) refl

  any-none : (xs : List A) → any p xs ≡ false → All (λ x. p x ≡ false) xs
  any-none [] h = tt
  any-none (x ∷ xs) h = (ground arith, any-none xs (ground arith))

module _ {V D : Type 0} (u : Unicode) (values : Values V D) where
  -- The row has this finite number in the column, which is neither a Boolean nor `None`.
  abbrev pub HasNumber : Text → Dict Text V → D → Type 0
  HasNumber column row d =
      (v : V) × (lookup column row ≡ some v)
      × (values.is_bool_or_none v ≡ false)
      × (values.finite_decimal (values.str v) ≡ some d)

  -- A column that an answer can compare: no marker of a dimension, and a number in every row.
  pub record IsComparable (columns : List Text) (rows : List (Dict Text V)) (column : Text)
      : Type 0 where
    pub listed : IsIn column columns
    pub no_dimension : All (λ marker. is_infix marker (u.lower column) ≡ false) dimension_markers
    pub numbers : All (λ row. (d : D) × HasNumber column row d) rows

  -- A row with a number that no row exceeds, and one with a number that exceeds that of no row.
  pub record IsMaximal (metric : Text) (rows : List (Dict Text V)) (best : Dict Text V)
      : Type 0 where
    pub present : IsIn best rows
    pub value : D
    pub has_value : HasNumber metric best value
    pub greatest :
        (row : Dict Text V) (d : D)
        → IsIn row rows
        → HasNumber metric row d
        → values.less value d ≡ false

  pub record IsMinimal (metric : Text) (rows : List (Dict Text V)) (worst : Dict Text V)
      : Type 0 where
    pub present : IsIn worst rows
    pub value : D
    pub has_value : HasNumber metric worst value
    pub least :
        (row : Dict Text V) (d : D)
        → IsIn row rows
        → HasNumber metric row d
        → values.less d value ≡ false

  HasNumber-number_of :
      (column : Text) (row : Dict Text V) (d : D)
      → HasNumber column row d
      → number_of u values (lookup column row) ≡ some d
  unfolding number_of
  HasNumber-number_of column row d (v, found, plain, same) = rw (found, plain, same) refl

  number_of-HasNumber :
      (column : Text) (row : Dict Text V) (d : D)
      → number_of u values (lookup column row) ≡ some d
      → HasNumber column row d
  unfolding number_of
  number_of-HasNumber column row d h = elim (Option-cases (lookup column row)) [
    | inl missing ↦ cc (rw missing at h)
    | inr (v, found) ↦
        let (plain, same) = guarded (values.is_bool_or_none v) _ d (rw found at h) in
        (v, found, plain, same)
  ]

  key-number :
      (metric : Text) (row : Dict Text V) (d : D)
      → HasNumber metric row d
      → key_of u values metric row ≡ d
  key-number metric row d h = ground (arith, HasNumber-number_of metric row d h)

  module _ {A : Type 0} (p : A → Bool) where
    find_first-IsIn : (xs : List A) (x : A) → find_first p xs ≡ some x → IsIn x xs × (p x ≡ true)
    find_first-IsIn [] x h = cc
    find_first-IsIn (y ∷ xs) x h = elim (Bool-cases (p y)) [
      | inl holds ↦
          let same : y ≡ x = some-injective (rw holds at h) in (inl same, sym (ap p same) ∙ holds)
      | inr fails ↦ let (m, k) = find_first-IsIn xs x (rw fails at h) in (inr m, k)
    ]

    IsIn-find_first :
        (xs : List A) (x : A) → IsIn x xs → p x ≡ true → (y : A) × (find_first p xs ≡ some y)
    IsIn-find_first [] x m h = absurd m
    IsIn-find_first (y ∷ xs) x m h = elim (Bool-cases (p y)) [
      | inl holds ↦ (y, rw holds refl)
      | inr fails ↦ elim m [
        | inl same ↦ absurd (not_both h (sym (ap p same) ∙ fails))
        | inr later ↦ let (z, k) = IsIn-find_first xs x later h in (z, rw fails k)
      ]
    ]

  abbrev has_number : Text → Dict Text V → Bool
  has_number column row = is_present u values (number_of u values (lookup column row))

  present : (o : Option D) → is_present u values o ≡ true → (d : D) × (o ≡ some d)
  present none h = cc
  present (some d) h = (d, refl)

  numbers-all :
      (column : Text) (rows : List (Dict Text V))
      → All (λ row. (d : D) × HasNumber column row d) rows
      → all (has_number column) rows ≡ true
  numbers-all column [] h = refl
  numbers-all column (row ∷ rows) (((d, n), h)) =
      rw (HasNumber-number_of column row d n, numbers-all column rows h) refl

  all-numbers :
      (column : Text) (rows : List (Dict Text V))
      → all (has_number column) rows ≡ true
      → All (λ row. (d : D) × HasNumber column row d) rows
  all-numbers column [] h = tt
  all-numbers column (row ∷ rows) h =
      let (here, later) = &&-true (has_number column row) (all (has_number column) rows) h in
      let (d, same) = present (number_of u values (lookup column row)) here in
      ((d, number_of-HasNumber column row d same), all-numbers column rows later)

  metric-IsComparable :
      (columns : List Text) (rows : List (Dict Text V)) (c : Text)
      → IsComparable columns rows c
      → (metric : Text) × (metric_of u values columns rows ≡ some metric)
        × IsComparable columns rows metric
  unfolding metric_of is_dimension
  metric-IsComparable columns rows c i =
      let test : Text → Bool = λ column.
        not (any (λ marker. is_infix marker (u.lower column)) dimension_markers)
        && all (has_number column) rows in
      let passes : test c ≡ true =
        rw
          (
            none-any (λ marker. is_infix marker (u.lower c)) dimension_markers i.no_dimension,
            numbers-all c rows i.numbers,
          )
          refl in
      let (metric, found) = IsIn-find_first test columns c i.listed passes in
      let (m, holds) = find_first-IsIn test columns metric found in
      let (plain, numbers) =
        &&-true (not (any (λ marker. is_infix marker (u.lower metric)) dimension_markers))
          (all (has_number metric) rows) holds in
      (
        metric,
        found,
        record {
          listed = m;
          no_dimension =
              any-none (λ marker. is_infix marker (u.lower metric)) dimension_markers
                (ground arith);
          numbers = all-numbers metric rows numbers;
        },
      )

  module _ (order : IsOrder values.less) (metric : Text) (row : Dict Text V)
      (rows : List (Dict Text V))
      (numbers : All (λ r. (d : D) × HasNumber metric r d) (row ∷ rows)) where
    highest-IsMaximal : IsMaximal metric (row ∷ rows) (highest u values metric row rows)
    highest-IsMaximal =
        let h = highest-IsHighest u values metric order row rows in
        let (value, has) =
          All-IsIn (λ r. (d : D) × HasNumber metric r d) (row ∷ rows) _ numbers h.present in
        record {
          present = h.present;
          value = value;
          has_value = has;
          greatest = λ r d m n.
              let least =
                All-IsIn
                  (λ s.
                    values.less (key_of u values metric (highest u values metric row rows))
                      (key_of u values metric s)
                    ≡ false)
                  (row ∷ rows) r h.greatest m in
              rw
                (
                  key-number metric (highest u values metric row rows) value has,
                  key-number metric r d n,
                )
                at least;
        }

    lowest-IsMinimal : IsMinimal metric (row ∷ rows) (lowest u values metric row rows)
    lowest-IsMinimal =
        let h = lowest-IsLowest u values metric order row rows in
        let (value, has) =
          All-IsIn (λ r. (d : D) × HasNumber metric r d) (row ∷ rows) _ numbers h.present in
        record {
          present = h.present;
          value = value;
          has_value = has;
          least = λ r d m n.
              let least =
                All-IsIn
                  (λ s.
                    values.less (key_of u values metric s)
                      (key_of u values metric (lowest u values metric row rows))
                    ≡ false)
                  (row ∷ rows) r h.least m in
              rw
                (
                  key-number metric r d n,
                  key-number metric (lowest u values metric row rows) value has,
                )
                at least;
        }

  -- Where decimals are ordered and some column can be compared, the answer about more than four rows
  -- names such a column and calls a row the highest whose number in it none exceeds, and a row the
  -- lowest whose number exceeds none, each with its label and its value.
  pub describe-NamesExtremes :
      IsOrder values.less
      → (columns : List Text) (row next : Dict Text V) (rows : List (Dict Text V))
        (truncated : Bool) (c : Text)
      → 4 < length (row ∷ next ∷ rows)
      → IsComparable columns (row ∷ next ∷ rows) c
      → (metric : Text) × IsComparable columns (row ∷ next ∷ rows) metric
        × (best : Dict Text V) × IsMaximal metric (row ∷ next ∷ rows) best
        × (worst : Dict Text V) × IsMinimal metric (row ∷ next ∷ rows) worst
        × (before change note : Text) × (describe_sql_result u values columns
              (row ∷ next ∷ rows)
              truncated
            ≡ ((before
                  ++ (codes "。在已返回数据中，"
                      ++ (metric
                          ++ (codes "最高的是"
                              ++ ((label u values columns best metric
                                    ++ text_of u values (lookup metric best))
                                  ++ (codes "，最低的是"
                                      ++ ((label u values columns worst metric
                                            ++ text_of u values (lookup metric worst))
                                          ++ codes "。")))))))
                ++ change)
              ++ note)
  unfolding describe_sql_result
  describe-NamesExtremes order columns row next rows truncated c many i =
      let (metric, found, comparable) = metric-IsComparable columns (row ∷ next ∷ rows) c i in
      let long : leb (length (row ∷ next ∷ rows)) 4 ≡ false = ground arith in
      (
        metric,
        comparable,
        highest u values metric row (next ∷ rows),
        highest-IsMaximal order metric row (next ∷ rows) comparable.numbers,
        lowest u values metric row (next ∷ rows),
        lowest-IsMinimal order metric row (next ∷ rows) comparable.numbers,
        count_text u values (row ∷ next ∷ rows),
        period_change u values columns row (next ∷ rows) metric,
        notice u values truncated (row ∷ next ∷ rows),
        rw (found, long) refl,
      )
