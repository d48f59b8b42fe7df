-- ===== src/Examples/Executor.antt =====
-- A cut of three rows of one number each.
use enterprise_data_copilot.Prelude.{ℕ, ◌≡◌, refl, true, [], ◌∷◌, map, codes}
use enterprise_data_copilot.Prelude.Result.{ok}
use enterprise_data_copilot.QuerySafety.Result.{QueryExecutionResult}
use enterprise_data_copilot.QuerySafety.Executor.Codec.{Codec}
use enterprise_data_copilot.QuerySafety.Executor.Run.{zip_strict, take_rows, bounded_result}
use enterprise_data_copilot.QuerySafety.Executor.Bounds.{IsBounded, bounded_result-IsBounded}
use enterprise_data_copilot.Examples.Dialect.{sample_policy}

-- A row is encoded as its values.
abbrev pub sample_codec : Codec ℕ ℕ
sample_codec = record {
  encode_header = λ columns. codes "[]";
  encode_row = map (λ e. e.1);
  decode_row = map (λ b. (codes "n", b));
}

abbrev pub two_of_three : QueryExecutionResult ℕ
two_of_three = record {
  columns = codes "n" ∷ [];
  rows = ((codes "n", 7) ∷ []) ∷ ((codes "n", 8) ∷ []) ∷ [];
  returned_row_count = 2;
  serialized_bytes = 5;
  truncated = true;
}

three_rows_cut :
    bounded_result sample_codec (codes "n" ∷ []) sample_policy ((7 ∷ []) ∷ (8 ∷ []) ∷ (9 ∷ []) ∷ [])
    ≡ ok two_of_three
unfolding bounded_result take_rows zip_strict
three_rows_cut = refl

bounded_result-IsBounded_example :
    IsBounded sample_codec
      (codes "n" ∷ [])
      sample_policy
      ((7 ∷ []) ∷ (8 ∷ []) ∷ (9 ∷ []) ∷ [])
      two_of_three
bounded_result-IsBounded_example =
    bounded_result-IsBounded sample_codec (codes "n" ∷ []) sample_policy
      ((7 ∷ []) ∷ (8 ∷ []) ∷ (9 ∷ []) ∷ []) two_of_three three_rows_cut
