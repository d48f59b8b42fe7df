-- ===== src/Examples/Actions.antt =====
-- What is proved of the real actions, on the sample dialect.
use enterprise_data_copilot.Prelude.{
  Option, none, some, List, codes, ◌++◌, inl, ℕ, ◌≡◌, refl, ◌↔◌, false, Text, true, [], ◌∷◌,
  contains, ltb, arith,
}
use enterprise_data_copilot.Prelude.Dict.{Dict, lookup}
use enterprise_data_copilot.Prelude.Strings.{normalize_space, text_eq, is_empty}
use enterprise_data_copilot.Prelude.Result.{ok, err}
use enterprise_data_copilot.Codes.{write_request_not_allowed}
use enterprise_data_copilot.Nl2sql.Errors.{question_rejected}
use enterprise_data_copilot.Nl2sql.Question.{inspect_question}
use enterprise_data_copilot.QuerySafety.Guard.Tables.{IsGuarded}
use enterprise_data_copilot.Agent.State.{AgentState, apply_update, attempts_of}
use enterprise_data_copilot.Agent.Steps.Record.{classify}
use enterprise_data_copilot.Agent.Graph.Machine.{ended, at, Reach, here, next, advance, run_at}
use enterprise_data_copilot.Agent.Graph.Nodes.{run_node, edge}
use enterprise_data_copilot.Agent.Steps.Timed.{timed_step}
use enterprise_data_copilot.Agent.Graph.Approval.{IsCleared}
use enterprise_data_copilot.Agent.Graph.Attempts.{Counts}
use enterprise_data_copilot.Agent.Extremes.{IsOrder}
use enterprise_data_copilot.Agent.Described.{
  IsComparable, IsMaximal, IsMinimal, describe-NamesExtremes,
}
use enterprise_data_copilot.Agent.Answering.{Values, label, text_of, describe_sql_result}
use enterprise_data_copilot.Agent.Actions.Backend.{Backend}
use enterprise_data_copilot.Agent.Actions.Guarding
use enterprise_data_copilot.Agent.Actions.Guarding.{executed, controlled_references}
use enterprise_data_copilot.Agent.Actions.Counter.{northwind-Counts}
use enterprise_data_copilot.Agent.Actions.Nodes
use enterprise_data_copilot.Agent.Actions.Nodes.{northwind_actions}
use enterprise_data_copilot.Agent.Actions.Inspection.{IsInspected, execution-IsInspected}
use enterprise_data_copilot.Agent.Actions.Rejection.{refusal, IsRefused, rejection-IsFinal}
use enterprise_data_copilot.Agent.Actions.Selection.{IsSelected, select_schema-IsSelected}
use enterprise_data_copilot.Agent.Actions.Controlled.{
  IsReference, controlled_references-AreComplete,
}
use enterprise_data_copilot.Examples.Dialect.{ascii, dialect, same_text, orders}
use enterprise_data_copilot.Examples.Questions.{no_patterns}
use enterprise_data_copilot.Examples.Workflow.{fresh, sample_observers}
use enterprise_data_copilot.Examples.Northwind.{
  numbers, no_cell, backend, real_actions, retrieved, selection, selection_made, checked,
  checked_is_reached,
}

execution-IsInspected_example :
    IsCleared checked
    × ((i : IsInspected ascii dialect same_text backend checked) × IsGuarded ascii dialect i.policy
          i.text i.guarded
        × (Guarding.execute_sql ascii dialect same_text backend checked
            ≡ executed ascii dialect same_text backend
                (backend.execute (attempts_of checked) i.guarded i.policy)))
execution-IsInspected_example =
    execution-IsInspected ascii dialect same_text backend numbers no_cell sample_observers 2 fresh
      checked checked_is_reached

select_schema-IsSelected_example : IsSelected ascii backend retrieved selection
select_schema-IsSelected_example =
    select_schema-IsSelected ascii backend retrieved selection selection_made

northwind-Counts_example : Counts real_actions
northwind-Counts_example = northwind-Counts ascii dialect same_text numbers no_cell backend

-- A guard that takes every question for a write request.
abbrev strict : Backend ℕ Text
strict = record backend { patterns = record no_patterns { write_sql = λ s. true } }

question_is_rejected :
    inspect_question strict.patterns fresh.identity.question
    ≡ err (question_rejected write_request_not_allowed)
unfolding inspect_question normalize_space
question_is_rejected = refl

abbrev refused : AgentState ℕ
refused = apply_update fresh (refusal write_request_not_allowed)

refused_is_reached :
    Reach
      (northwind_actions ascii dialect same_text numbers no_cell strict)
      sample_observers
      2
      (at classify fresh)
      (ended refused)
unfolding run_at run_node timed_step edge Nodes.classify inspect_question normalize_space
refused_is_reached = next here (advance classify fresh [] refl)

rejection-IsFinal_example : IsRefused fresh write_request_not_allowed (ended refused)
rejection-IsFinal_example =
    rejection-IsFinal ascii dialect same_text numbers no_cell strict sample_observers 2 fresh
      write_request_not_allowed question_is_rejected refused_is_reached

orders_are_free : controlled_references ascii dialect same_text backend orders ≡ ok []
unfolding controlled_references
orders_are_free = refl

controlled_references-AreComplete_example :
    (statement : Text) × (backend.parse_one orders ≡ ok statement)
    × ((name : Text)
        → is_empty name ≡ false
        → (contains [] name ≡ true) ↔ (
            (contains backend.controlled_columns name ≡ true)
            × IsReference (dialect.tables statement) (dialect.columns statement) name))
controlled_references-AreComplete_example =
    controlled_references-AreComplete ascii dialect same_text backend orders [] orders_are_free

numbers-IsOrder : IsOrder ltb
numbers-IsOrder = record { one_way = λ a c h. ground arith; not_less = λ a c d h k. ground arith }

-- A value is the only code point of its text.
abbrev first_point : Text → Option ℕ
first_point [] = none
first_point (c ∷ s) = some c

abbrev points : Values ℕ ℕ
points = record numbers { str = λ n. n ∷ []; finite_decimal = first_point }

abbrev row_of : ℕ → Dict Text ℕ
row_of n = (orders, n) ∷ []

abbrev five_rows : List (Dict Text ℕ)
five_rows = row_of 3 ∷ row_of 7 ∷ row_of 1 ∷ row_of 5 ∷ row_of 7 ∷ []

orders-IsComparable : IsComparable ascii points (orders ∷ []) five_rows orders
orders-IsComparable = record {
  listed = inl refl;
  no_dimension = (
    refl,
    (refl, (refl, (refl, (refl, (refl, (refl, (refl, (refl, (refl, (refl, (refl, tt))))))))))),
  );
  numbers = (
    (3, (3, refl, refl, refl)),
    (
      (7, (7, refl, refl, refl)),
      ((1, (1, refl, refl, refl)), ((5, (5, refl, refl, refl)), ((7, (7, refl, refl, refl)), tt))),
    ),
  );
}

describe-NamesExtremes_example :
    (metric : Text) × IsComparable ascii points (orders ∷ []) five_rows metric
    × (best : Dict Text ℕ) × IsMaximal ascii points metric five_rows best
    × (worst : Dict Text ℕ) × IsMinimal ascii points metric five_rows worst
    × (before change note : Text) × (describe_sql_result ascii points (orders ∷ []) five_rows false
        ≡ ((before
              ++ (codes "。在已返回数据中，"
                  ++ (metric
                      ++ (codes "最高的是"
                          ++ ((label ascii points (orders ∷ []) best metric
                                ++ text_of ascii points (lookup metric best))
                              ++ (codes "，最低的是"
                                  ++ ((label ascii points (orders ∷ []) worst metric
                                        ++ text_of ascii points (lookup metric worst))
                                      ++ codes "。")))))))
            ++ change)
          ++ note)
describe-NamesExtremes_example =
    describe-NamesExtremes ascii points numbers-IsOrder (orders ∷ []) (row_of 3) (row_of 7)
      (row_of 1 ∷ row_of 5 ∷ row_of 7 ∷ []) false orders (omega arith) orders-IsComparable
