-- ===== src/Agent/Charts.antt =====
-- What a chart shows.
use enterprise_data_copilot.Prelude.{
  ℕ, zero, suc, ◌≤◌, ◌≡◌, refl, sym, ap, ◌∙◌, subst, ◌⊎◌, inl, inr, Text, Bool, true, false, List,
  [], ◌∷◌, some, All, All-map, All-take, IsIn, any, drop, keep, length, take, length-take-le, arith,
  Bool-cases, ltb, leb, nat_beq, not_both, codes, Option-cases, ◌&&◌,
}
use enterprise_data_copilot.Prelude.Strings.{text_eq, is_empty, strip, is_infix}
use enterprise_data_copilot.Prelude.Dict.{Dict, lookup}
use enterprise_data_copilot.Prelude.Unicode.{Unicode}
use enterprise_data_copilot.Agent.State.{bar, line, pie, ChartSpec}
use enterprise_data_copilot.Agent.Charting.{
  Cell, number, boolean, other, text, markers, table_spec, is_number, has_number, is_numeric,
  chart_type_of, chart_of, numeric_columns, build_chart_spec,
}

module _ {A : Type 0} (p : A → Bool) where
  any-IsIn : (xs : List A) → any p xs ≡ true → (x : A) × IsIn x xs × (p x ≡ true)
  any-IsIn [] h = cc
  any-IsIn (x ∷ xs) h = elim (Bool-cases (p x)) [
    | inl holds ↦ (x, inl refl, holds)
    | inr fails ↦ let (y, m, k) = any-IsIn xs (rw fails at h) in (y, inr m, k)
  ]

  IsIn-any : (xs : List A) (x : A) → IsIn x xs → p x ≡ true → any p xs ≡ true
  IsIn-any [] x m h = absurd m
  IsIn-any (y ∷ xs) x (inl same) h = ground (arith, ap p same)
  IsIn-any (y ∷ xs) x (inr later) h = ground (arith, IsIn-any xs x later h)

  keep-All : (xs : List A) → All (λ x. IsIn x xs × (p x ≡ true)) (keep p xs)
  keep-All [] = tt
  keep-All (x ∷ xs) =
      let rest = All-map (λ y (m, h). (inr m, h)) (keep p xs) (keep-All xs) in
      elim (Bool-cases (p x)) [
        | inl kept ↦ rw kept ((inl refl, kept), rest)
        | inr dropped ↦ rw dropped rest
      ]

  kept_or_full :
      (n : ℕ) (xs : List A) (x : A)
      → IsIn x xs
      → p x ≡ true
      → IsIn x (take n (keep p xs)) ⊎ (length (take n (keep p xs)) ≡ n)
  kept_or_full zero xs x m h = inr refl
  kept_or_full (suc n) [] x m h = absurd m
  kept_or_full (suc n) (y ∷ xs) x (inl same) h =
      let kept : p y ≡ true = ap p same ∙ h in rw kept (inl (inl same))
  kept_or_full (suc n) (y ∷ xs) x (inr later) h = elim (Bool-cases (p y)) [
    | inl kept ↦ rw kept (elim (kept_or_full n xs x later h) [
      | inl there ↦ inl (inr there)
      | inr full ↦ inr (omega (arith, full))
    ])
    | inr dropped ↦ rw dropped (kept_or_full (suc n) xs x later h)
  ]

some-injective : {A : Type 0} {a b : A} → some a ≡ some b → a ≡ b
some-injective h = cc

module _ (u : Unicode) (is_finite_decimal : Text → Bool) where
  -- A number, or a text that is not blank and a finite decimal.
  abbrev pub IsNumber : Cell → Type 0
  IsNumber number = Unit
  IsNumber boolean = ⊥
  IsNumber other = ⊥
  IsNumber (text s) = (is_empty (strip s) ≡ false) × (is_finite_decimal s ≡ true)

  -- One of the first fifty rows has a number in the column.
  abbrev pub IsNumeric : List (Dict Text Cell) → Text → Type 0
  IsNumeric rows column =
      (row : Dict Text Cell) × IsIn row (take 50 rows)
      × (cell : Cell) × (lookup column row ≡ some cell)
      × IsNumber cell

  -- The name of the column speaks of time.
  abbrev pub IsPeriod : Text → Type 0
  IsPeriod x = (marker : Text) × IsIn marker markers × (is_infix marker (u.lower x) ≡ true)

  -- A line over time; else a pie for one series of at most eight rows; else bars.
  abbrev pub IsTyped : Text → List (Dict Text Cell) → ChartSpec → Type 0
  IsTyped x rows spec =
      ((spec.chart_type ≡ line) × IsPeriod x)
      ⊎ ((IsPeriod x → ⊥)
          × (((spec.chart_type ≡ pie) × (length rows ≤ 8) × (length spec.series ≡ 1))
              ⊎ ((spec.chart_type ≡ bar) × ((length rows ≤ 8) × (length spec.series ≡ 1) → ⊥))))

  -- A chart of a result: at most three of the columns behind the first that have a number in the
  -- first fifty rows, all of these unless it has three, over the first column; or the table where
  -- there are none.
  pub record IsChart (columns : List Text) (rows : List (Dict Text Cell)) (spec : ChartSpec)
      : Type 0 where
    pub few : length spec.series ≤ 3
    pub numeric : All (λ c. IsIn c (drop 1 columns) × IsNumeric rows c) spec.series
    pub complete :
        (c : Text)
        → IsIn c (drop 1 columns)
        → IsNumeric rows c
        → IsIn c spec.series ⊎ (length spec.series ≡ 3)
    pub shape :
        (spec ≡ table_spec)
        ⊎ ((x : Text) × (rest : List Text) × (columns ≡ x ∷ rest)
            × (spec.x ≡ some x)
            × (1 ≤ length spec.series)
            × IsTyped x rows spec)

  is_number-IsNumber : (cell : Cell) → is_number u is_finite_decimal cell ≡ true → IsNumber cell
  unfolding is_number
  is_number-IsNumber number h = tt
  is_number-IsNumber boolean h = cc
  is_number-IsNumber other h = cc
  is_number-IsNumber (text s) h = (ground arith, ground arith)

  IsNumber-is_number : (cell : Cell) → IsNumber cell → is_number u is_finite_decimal cell ≡ true
  unfolding is_number
  IsNumber-is_number number h = refl
  IsNumber-is_number boolean h = absurd h
  IsNumber-is_number other h = absurd h
  IsNumber-is_number (text s) (h, k) = rw (h, k) refl

  has_number-IsNumber :
      (column : Text) (row : Dict Text Cell)
      → has_number u is_finite_decimal column row ≡ true
      → (cell : Cell) × (lookup column row ≡ some cell) × IsNumber cell
  has_number-IsNumber column row h = elim (Option-cases (lookup column row)) [
    | inl missing ↦
        let fails : has_number u is_finite_decimal column row ≡ false = ground arith in
        absurd (not_both h fails)
    | inr (cell, found) ↦
        let same : has_number u is_finite_decimal column row ≡ is_number u is_finite_decimal cell =
          ground arith in
        (cell, found, is_number-IsNumber cell (sym same ∙ h))
  ]

  is_numeric-IsNumeric :
      (rows : List (Dict Text Cell)) (column : Text)
      → is_numeric u is_finite_decimal rows column ≡ true
      → IsNumeric rows column
  is_numeric-IsNumeric rows column h =
      let (row, m, k) = any-IsIn (has_number u is_finite_decimal column) (take 50 rows) h in
      let (cell, found, n) = has_number-IsNumber column row k in (row, m, cell, found, n)

  IsNumeric-is_numeric :
      (rows : List (Dict Text Cell)) (column : Text)
      → IsNumeric rows column
      → is_numeric u is_finite_decimal rows column ≡ true
  IsNumeric-is_numeric rows column (row, m, cell, found, n) =
      let holds : has_number u is_finite_decimal column row ≡ true =
        ground (arith, IsNumber-is_number cell n) in
      IsIn-any (has_number u is_finite_decimal column) (take 50 rows) row m holds

  chart_type-IsTyped :
      (x : Text) (rows : List (Dict Text Cell)) (spec : ChartSpec)
      → spec.chart_type ≡ chart_type_of u is_finite_decimal x rows spec.series
      → IsTyped x rows spec
  chart_type-IsTyped x rows spec h =
      elim (Bool-cases (any (λ marker. is_infix marker (u.lower x)) markers)) [
        | inl period ↦
            let (marker, m, k) = any-IsIn (λ marker. is_infix marker (u.lower x)) markers period in
            inl (rw period at h, (marker, m, k))
        | inr timeless ↦
            let never : IsPeriod x → ⊥ = λ (marker, m, k).
              not_both (IsIn-any (λ marker. is_infix marker (u.lower x)) markers marker m k)
                timeless in
            let rest = rw timeless at h in
            elim (Bool-cases (leb (length rows) 8 && nat_beq (length spec.series) 1)) [
              | inl single ↦ inr (never, inl (rw single at rest, ground arith, ground arith))
              | inr several ↦ inr (never, inr (rw several at rest, λ (a, b). ground arith))
            ]
      ]

  module _ (x : Text) (rest : List Text) (rows : List (Dict Text Cell)) where
    abbrev shown : List Text
    shown = numeric_columns u is_finite_decimal rows rest

    shown-AreNumeric : All (λ c. IsIn c rest × IsNumeric rows c) shown
    shown-AreNumeric =
        All-map (λ c (m, h). (m, is_numeric-IsNumeric rows c h)) shown
          (All-take _ 3 (keep (is_numeric u is_finite_decimal rows) rest)
            (keep-All (is_numeric u is_finite_decimal rows) rest))

    shown-AreAll : (c : Text) → IsIn c rest → IsNumeric rows c → IsIn c shown ⊎ (length shown ≡ 3)
    shown-AreAll c m n =
        kept_or_full (is_numeric u is_finite_decimal rows) 3 rest c m
          (IsNumeric-is_numeric rows c n)

    chart_of-IsChart :
        (numeric : List Text) (spec : ChartSpec)
        → shown ≡ numeric
        → chart_of u is_finite_decimal x rows numeric ≡ some spec
        → IsChart (x ∷ rest) rows spec
    chart_of-IsChart [] spec same h = subst (IsChart (x ∷ rest) rows) (some-injective h) (record {
      few = omega arith;
      numeric = tt;
      complete = λ c m n. subst (λ cs. IsIn c cs ⊎ (length cs ≡ 3)) same (shown-AreAll c m n);
      shape = inl refl;
    })
    chart_of-IsChart (c ∷ cs) spec same h = elim (Bool-cases (ltb 160 (length x))) [
      | inl e ↦ cc (rw e at h)
      | inr e ↦
          let chart : ChartSpec = record {
            chart_type = chart_type_of u is_finite_decimal x rows (c ∷ cs);
            title = codes "分析结果";
            x = some x;
            series = c ∷ cs;
          } in
          subst (IsChart (x ∷ rest) rows) (some-injective (rw e at h)) (record {
            few =
                subst (λ (ds : List Text). length ds ≤ 3) same
                  (length-take-le 3 (keep (is_numeric u is_finite_decimal rows) rest));
            numeric = subst (All (λ d. IsIn d rest × IsNumeric rows d)) same shown-AreNumeric;
            complete = λ d m n. subst (λ ds. IsIn d ds ⊎ (length ds ≡ 3)) same (shown-AreAll d m n);
            shape = inr (x, rest, refl, refl, omega arith, chart_type-IsTyped x rows chart refl);
          })
    ]

  table-IsChart :
      (columns : List Text) (rows : List (Dict Text Cell)) (spec : ChartSpec)
      → some table_spec ≡ some spec
      → ((c : Text) → IsIn c (drop 1 columns) → IsNumeric rows c → ⊥)
      → IsChart columns rows spec
  table-IsChart columns rows spec h never =
      subst (IsChart columns rows) (some-injective h) (record {
        few = omega arith;
        numeric = tt;
        complete = λ c m n. absurd (never c m n);
        shape = inl refl;
      })

  -- Every chart that is built is one in this sense.
  pub build_chart_spec-IsChart :
      (columns : List Text) (rows : List (Dict Text Cell)) (spec : ChartSpec)
      → build_chart_spec u is_finite_decimal columns rows ≡ some spec
      → IsChart columns rows spec
  unfolding build_chart_spec
  build_chart_spec-IsChart [] rows spec h = table-IsChart [] rows spec h (λ c m n. m)
  build_chart_spec-IsChart (x ∷ []) rows spec h = table-IsChart (x ∷ []) rows spec h (λ c m n. m)
  build_chart_spec-IsChart (x ∷ y ∷ columns) [] spec h =
      table-IsChart (x ∷ y ∷ columns) [] spec h (λ c m n. n.1)
  build_chart_spec-IsChart (x ∷ y ∷ columns) (row ∷ rows) spec h =
      chart_of-IsChart x (y ∷ columns) (row ∷ rows) _ spec refl h
