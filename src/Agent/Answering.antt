-- ===== src/Agent/Answering.antt =====
-- agent-service/app/agent/answering.py. Python's decimal arithmetic is a parameter.
use enterprise_data_copilot.Prelude.{
  Text, Bool, true, false, not, ◌&&◌, ◌||◌, List, [], ◌∷◌, ◌++◌, map, Option, none, some, any, all,
  keep, length, take, leb, codes, if◌then◌else◌, ◌==◌, is_none_left,
}
use enterprise_data_copilot.Prelude.Strings.{
  is_empty, is_infix, join, normalize_space, show_nat, text_eq, list_lt, texts_eq,
}
use enterprise_data_copilot.Prelude.Dict.{Dict, lookup}
use enterprise_data_copilot.Prelude.Unicode.{Unicode}

-- The values of a row and the decimals: `str(value)`, whether a value is a Boolean or `None`,
-- `Decimal(text)` where it exists and is finite, the comparison, the difference, the test for zero,
-- `format(abs(d).normalize(), "f")`, and `f"{abs(change / first * 100):.2f}"`.
pub record Values (V D : Type 0) : Type 0 where
  pub str : V → Text
  pub is_bool_or_none : V → Bool
  pub finite_decimal : Text → Option D
  pub less : D → D → Bool
  pub zero_decimal : D
  pub subtract : D → D → D
  pub is_zero : D → Bool
  pub absolute : D → Text
  pub percent : D → D → Text

abbrev pub dimension_markers : List Text
dimension_markers =
    codes "_id"
    ∷ codes "id_"
    ∷ codes "year"
    ∷ codes "month"
    ∷ codes "quarter"
    ∷ codes "date"
    ∷ codes "time"
    ∷ codes "rank"
    ∷ codes "年份"
    ∷ codes "月份"
    ∷ codes "季度"
    ∷ codes "日期"
    ∷ []

abbrev pub period_markers : List Text
period_markers =
    codes "year"
    ∷ codes "month"
    ∷ codes "quarter"
    ∷ codes "date"
    ∷ codes "年份"
    ∷ codes "月份"
    ∷ codes "季度"
    ∷ codes "日期"
    ∷ []

abbrev pub find_first : {A : Type 0} → (A → Bool) → List A → Option A
find_first p [] = none
find_first p (x ∷ xs) = let rest = find_first p xs in if p x then some x else rest

abbrev pub last_of : {A : Type 0} → A → List A → A
last_of x [] = x
last_of x (y ∷ ys) = last_of y ys

module _ (u : Unicode) where
  abbrev pub has_marker : List Text → Text → Bool
  has_marker markers column = any (λ marker. is_infix marker (u.lower column)) markers

  -- `_dimension`
  unfoldable pub is_dimension : Text → Bool
  is_dimension column = has_marker dimension_markers column

  module _ {V D : Type 0} (values : Values V D) where
    -- `_number`
    unfoldable pub number_of : Option V → Option D
    number_of none = none
    number_of (some v) =
        if values.is_bool_or_none v then none else values.finite_decimal (values.str v)

    -- `str(row.get(column))`; the text of a missing value is that of `None`.
    abbrev pub str_of : Option V → Text
    str_of none = codes "None"
    str_of (some v) = values.str v

    -- `_text`
    unfoldable pub text_of : Option V → Text
    text_of v = take 80 (normalize_space (str_of v))

    abbrev pub field_text : Dict Text V → Text → Text
    field_text row column = column ++ (codes "=" ++ text_of (lookup column row))

    -- `_label`
    unfoldable pub label : List Text → Dict Text V → Text → Text
    unfolding text_of
    label columns row metric =
        let dimensions = map (field_text row) (keep (λ c. not (c == metric)) columns) in
        if is_none_left dimensions then [] else join (codes "、") (take 2 dimensions) ++ codes "的"

    -- `_first_row`
    unfoldable pub first_row : List Text → Dict Text V → Text
    unfolding text_of
    first_row columns row =
        let fields = join (codes "、") (map (field_text row) (take 3 columns)) in
        if is_empty fields then [] else codes "首行：" ++ (fields ++ codes "。")

    abbrev pub is_present : Option D → Bool
    is_present none = false
    is_present (some d) = true

    -- The first column that is no dimension and has a number in every row.
    unfoldable pub metric_of : List Text → List (Dict Text V) → Option Text
    unfolding is_dimension number_of
    metric_of columns rows =
        find_first
          (λ column.
            not (is_dimension column)
            && all (λ row. is_present (number_of (lookup column row))) rows)
          columns

    -- `_number(row[metric]) or Decimal(0)`: a zero is replaced by zero.
    abbrev pub key_of : Text → Dict Text V → D
    key_of metric row = elim (number_of (lookup metric row)) [
      | none ↦ values.zero_decimal
      | some d ↦ d
    ]

    -- `max(rows, key=...)` and `min(rows, key=...)`: the first of the extreme rows.
    unfoldable pub highest : Text → Dict Text V → List (Dict Text V) → Dict Text V
    highest metric best [] = best
    highest metric best (row ∷ rows) =
        highest metric (if values.less (key_of metric best) (key_of metric row) then row else best)
          rows

    unfoldable pub lowest : Text → Dict Text V → List (Dict Text V) → Dict Text V
    lowest metric best [] = best
    lowest metric best (row ∷ rows) =
        lowest metric (if values.less (key_of metric row) (key_of metric best) then row else best)
          rows

    -- `tuple(str(row.get(column, "")) for column in periods)`
    abbrev pub period_key : List Text → Dict Text V → List Text
    period_key periods row =
        map (λ column. elim (lookup column row) [ none ↦ [] | some v ↦ values.str v ]) periods

    -- `keys == sorted(keys)`
    abbrev pub is_ascending : List (List Text) → Bool
    is_ascending [] = true
    is_ascending (k ∷ []) = true
    is_ascending (k ∷ l ∷ ks) = not (list_lt l k) && is_ascending (l ∷ ks)

    abbrev pub direction : D → Text
    direction change =
        if values.less values.zero_decimal change
        then codes "增长"
        else if values.less change values.zero_decimal
        then codes "下降"
        else codes "持平"

    abbrev pub relative : D → D → Text
    relative change first =
        if values.is_zero first
        then []
        else codes "，约 " ++ (values.percent change first ++ codes "%")

    abbrev pub change_text : Text → Option D → Option D → Text
    change_text metric (some first) (some last) =
        let change = values.subtract last first in
        codes "从首期到末期，"
        ++ (metric
            ++ (direction change
                ++ (codes " "
                    ++ (values.absolute change
                        ++ (relative change first ++ codes "（仅比较返回的首末期）。")))))
    change_text metric first last = []

    -- `_period_change`, on the first row and the others.
    unfoldable pub period_change : List Text → Dict Text V → List (Dict Text V) → Text → Text
    unfolding number_of
    period_change columns first rows metric =
        let periods = keep (has_marker period_markers) columns in
        let last = last_of first rows in
        if is_none_left periods
          || (not (is_ascending (map (period_key periods) (first ∷ rows)))
              || period_key periods first == period_key periods last)
        then []
        else change_text metric (number_of (lookup metric first)) (number_of (lookup metric last))

    abbrev pub metric_text : List Text → Text → Dict Text V → Text
    metric_text columns metric row =
        label columns row metric ++ (metric ++ (codes "为 " ++ text_of (lookup metric row)))

    abbrev pub count_text : List (Dict Text V) → Text
    count_text rows = codes "查询返回 " ++ (show_nat (length rows) ++ codes " 行")

    abbrev pub extreme_text : List Text → Text → Dict Text V → Text
    extreme_text columns metric row = label columns row metric ++ text_of (lookup metric row)

    -- The description of more than four rows.
    abbrev pub extremes : List Text → Text → Dict Text V → List (Dict Text V) → Text
    extremes columns metric row rows =
        count_text (row ∷ rows)
        ++ (codes "。在已返回数据中，"
            ++ (metric
                ++ (codes "最高的是"
                    ++ (extreme_text columns metric (highest metric row rows)
                        ++ (codes "，最低的是"
                            ++ (extreme_text columns metric (lowest metric row rows)
                                ++ codes "。"))))))

    -- The description of a row and the others.
    abbrev pub described : List Text → Dict Text V → List (Dict Text V) → Option Text → Text
    described columns row rows none =
        count_text (row ∷ rows) ++ (codes "。" ++ first_row columns row)
    described columns row [] (some metric) =
        codes "查询返回 1 行：" ++ (metric_text columns metric row ++ codes "。")
    described columns row (next ∷ rows) (some metric) =
        let all_rows = row ∷ next ∷ rows in
        (if leb (length all_rows) 4
          then count_text all_rows
            ++ (codes "："
                ++ (join (codes "；") (map (metric_text columns metric) all_rows) ++ codes "。"))
          else extremes columns metric row (next ∷ rows))
        ++ period_change columns row (next ∷ rows) metric

    abbrev pub notice : Bool → List (Dict Text V) → Text
    notice truncated rows =
        if truncated
        then codes "结果已截断，上述描述仅基于返回的 " ++ (show_nat (length rows) ++ codes " 行，不代表完整结果。")
        else []

    unfoldable pub describe_sql_result : List Text → List (Dict Text V) → Bool → Text
    unfolding label first_row metric_of highest lowest period_change
    describe_sql_result columns [] truncated =
        if truncated
        then codes "查询已执行，但结果在返回第一行前触及大小上限，无法判断是否有符合条件的数据。"
        else codes "查询已完成，但没有符合条件的数据。"
    describe_sql_result columns (row ∷ rows) truncated =
        described columns row rows (metric_of columns (row ∷ rows)) ++ notice truncated (row ∷ rows)
