-- ===== src/Agent/Charting.antt =====
-- agent-service/app/agent/charting.py. Which texts are finite decimals is a parameter.
use enterprise_data_copilot.Prelude.{
  Option, Text, Bool, true, false, not, ◌&&◌, List, [], ◌∷◌, none, some, any, keep, length, take,
  leb, ltb, nat_beq, codes, if◌then◌else◌,
}
use enterprise_data_copilot.Prelude.Strings.{is_empty, strip, is_infix, text_eq}
use enterprise_data_copilot.Prelude.Dict.{Dict, lookup}
use enterprise_data_copilot.Prelude.Unicode.{Unicode}
use enterprise_data_copilot.Agent.State.{ChartType, bar, line, pie, table, ChartSpec}

-- A value of a row, as far as `_is_number` looks at it; a Boolean is no number.
pub data Cell : Type 0 where
  number boolean other : Cell
  text : Text → Cell

abbrev pub markers : List Text
markers =
    codes "date"
    ∷ codes "time"
    ∷ codes "month"
    ∷ codes "year"
    ∷ codes "quarter"
    ∷ codes "日期"
    ∷ codes "月份"
    ∷ codes "季度"
    ∷ []

abbrev pub table_spec : ChartSpec
table_spec = record { chart_type = table; title = codes "查询结果"; x = none; series = [] }

module _ (u : Unicode) (is_finite_decimal : Text → Bool) where
  unfoldable pub is_number : Cell → Bool
  is_number number = true
  is_number boolean = false
  is_number other = false
  is_number (text s) = not (is_empty (strip s)) && is_finite_decimal s

  -- `_is_number(row.get(column))`
  abbrev pub has_number : Text → Dict Text Cell → Bool
  has_number column row = elim (lookup column row) [ none ↦ false | some cell ↦ is_number cell ]

  abbrev pub is_numeric : List (Dict Text Cell) → Text → Bool
  is_numeric rows column = any (has_number column) (take 50 rows)

  abbrev pub chart_type_of : Text → List (Dict Text Cell) → List Text → ChartType
  chart_type_of x rows numeric =
      if any (λ marker. is_infix marker (u.lower x)) markers
      then line
      else if leb (length rows) 8 && nat_beq (length numeric) 1
      then pie
      else bar

  -- `x` has at most 160 characters; `none` is the `ValidationError` of a longer one.
  abbrev pub chart_of : Text → List (Dict Text Cell) → List Text → Option ChartSpec
  chart_of x rows [] = some table_spec
  chart_of x rows (column ∷ columns) =
      if ltb 160 (length x)
      then none
      else some (record {
        chart_type = chart_type_of x rows (column ∷ columns);
        title = codes "分析结果";
        x = some x;
        series = column ∷ columns;
      })

  -- `[column for column in columns[1:] if any(...)][:3]`
  abbrev pub numeric_columns : List (Dict Text Cell) → List Text → List Text
  numeric_columns rows columns = take 3 (keep (is_numeric rows) columns)

  unfoldable pub build_chart_spec : List Text → List (Dict Text Cell) → Option ChartSpec
  unfolding is_number
  build_chart_spec [] rows = some table_spec
  build_chart_spec (x ∷ []) rows = some table_spec
  build_chart_spec (x ∷ y ∷ columns) [] = some table_spec
  build_chart_spec (x ∷ y ∷ columns) (row ∷ rows) =
      chart_of x (row ∷ rows) (numeric_columns (row ∷ rows) (y ∷ columns))
