-- ===== src/QuerySafety/SqlGlot.antt =====
-- The third-party SQL library as the guard sees it: what `parse`, `find`, `find_all`, `qualify`
-- and `sql` answer about a syntax tree that stays abstract.
use enterprise_data_copilot.Prelude.{Text, Bool, Option, List}
use enterprise_data_copilot.Prelude.Dict.{Dict}

-- An `exp.Func` node: whether it is an `exp.Anonymous`, its `name`, and its `sql_name()`.
pub record Function : Type 0 where
  pub anonymous : Bool
  pub name : Text
  pub sql_name : Text

-- An `exp.Table` node. A part that is not written is the empty text.
pub record Table : Type 0 where
  pub name : Text
  pub db : Text
  pub catalog : Text
  pub alias_or_name : Text

-- The `on` argument of a join: a Boolean literal, or any other condition.
pub data OnCondition : Type 0 where
  boolean : Bool → OnCondition
  condition : OnCondition

-- An `exp.Join` node; `kind` is empty where the argument is missing.
pub record Join : Type 0 where
  pub kind : Text
  pub on_condition : Option OnCondition
  pub has_using : Bool

-- An `exp.Column` node: the qualifier as it is written, and the name.
pub record Column : Type 0 where
  pub table : Text
  pub name : Text

-- The node classes that no read-only statement contains.
pub data NodeType : Type 0 where
  ddl dml command copy into lock transaction : NodeType

pub record SqlGlot : Type 1 where
  pub Expression : Type 0
  pub parse : Text → Option (List (Option Expression))
  pub is_query : Expression → Bool
  pub has_node : Expression → NodeType → Bool
  pub functions : Expression → List Function
  pub recursive_with : Expression → Bool
  pub joins : Expression → List Join
  pub cte_names : Expression → List Text
  pub tables : Expression → List Table
  pub columns : Expression → List Column
  pub qualify : Text → Dict Text (List Text) → Expression → Option Expression
  pub sql : Expression → Text
