-- ===== src/Examples/Chart.antt =====
-- One chart.
use enterprise_data_copilot.Prelude.{◌≡◌, refl, Text, true, List, [], ◌∷◌, some, codes}
use enterprise_data_copilot.Prelude.Dict.{Dict}
use enterprise_data_copilot.Agent.State.{pie, ChartSpec}
use enterprise_data_copilot.Agent.Charting.{Cell, number, text, is_number, build_chart_spec}
use enterprise_data_copilot.Agent.Charts.{IsChart, build_chart_spec-IsChart}
use enterprise_data_copilot.Examples.Dialect.{ascii}

abbrev columns : List Text
columns = codes "city" ∷ codes "orders" ∷ []

abbrev rows : List (Dict Text Cell)
rows = ((codes "city", text (codes "London")) ∷ (codes "orders", number) ∷ []) ∷ []

abbrev chart : ChartSpec
chart = record {
  chart_type = pie;
  title = codes "分析结果";
  x = some (codes "city");
  series = codes "orders" ∷ [];
}

chart_built : build_chart_spec ascii (λ s. true) columns rows ≡ some chart
unfolding build_chart_spec is_number
chart_built = refl

build_chart_spec-IsChart_example : IsChart ascii (λ s. true) columns rows chart
build_chart_spec-IsChart_example =
    build_chart_spec-IsChart ascii (λ s. true) columns rows chart chart_built
