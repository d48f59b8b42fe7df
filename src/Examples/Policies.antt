-- ===== src/Examples/Policies.antt =====
-- The policies on one catalog.
use enterprise_data_copilot.Prelude.{
  ◌≡◌, refl, Text, List, some, true, false, [], ◌∷◌, none, codes, contains,
}
use enterprise_data_copilot.Prelude.Dict.{has_key, lookup}
use enterprise_data_copilot.Prelude.Strings.{text_eq}
use enterprise_data_copilot.Prelude.Result.{ok}
use enterprise_data_copilot.Metadata.Snapshot.{SchemaSnapshot}
use enterprise_data_copilot.QuerySafety.Policy.Model.{
  QueryPolicy, Limits, is_valid_policy, columns_by_table, snapshot_policy, from_snapshot,
  restrict_columns, restricted, restrict_to_tables,
}
use enterprise_data_copilot.QuerySafety.Policy.Snapshot.{
  table_names, from_snapshot-covers, AreColumnsOf,
}
use enterprise_data_copilot.QuerySafety.Policy.Restriction.{
  IsRestriction, restrict_to_tables-IsRestriction,
}
use enterprise_data_copilot.Examples.Dialect.{ascii, orders, sample_policy}

abbrev pub catalog : SchemaSnapshot
catalog = record {
  format_version = codes "1";
  source_id = codes "northwind";
  schema_name = codes "northwind";
  schema_version = codes "1";
  dataset_version = codes "1";
  tables =
      record {
        name = orders;
        comment = none;
        columns =
            record {
              name = codes "order_id";
              ordinal_position = 1;
              data_type = codes "integer";
              nullable = false;
              comment = none;
            }
            ∷ [];
        primary_key = none;
        foreign_keys = [];
      }
      ∷ [];
}

abbrev limits : Limits
limits = record {
  max_rows = 2;
  max_columns = 3;
  max_result_bytes = 64;
  max_total_cost = 1000;
  max_plan_rows = 50;
}

abbrev orders_only : QueryPolicy
orders_only = record sample_policy {
  allowed_tables = orders ∷ [];
  allowed_columns = (orders, codes "order_id" ∷ []) ∷ [];
}

orders_from_catalog : from_snapshot ascii catalog limits ≡ ok orders_only
unfolding from_snapshot snapshot_policy columns_by_table
orders_from_catalog = refl

orders_from_policy : restrict_to_tables sample_policy (orders ∷ []) ≡ ok orders_only
unfolding restrict_to_tables restricted restrict_columns
orders_from_policy = refl

from_snapshot-covers_example :
    (is_valid_policy ascii orders_only ≡ true)
    × (orders_only.allowed_schema ≡ catalog.schema_name)
    × (orders_only.allowed_tables ≡ table_names catalog.tables)
    × ((t : Text) → has_key t orders_only.allowed_columns ≡ contains orders_only.allowed_tables t)
    × ((t : Text) (columns : List Text)
        → lookup t orders_only.allowed_columns ≡ some columns
        → AreColumnsOf ascii catalog.tables t columns)
from_snapshot-covers_example =
    from_snapshot-covers ascii catalog limits orders_only orders_from_catalog

restrict_to_tables-IsRestriction_example : IsRestriction sample_policy (orders ∷ []) orders_only
restrict_to_tables-IsRestriction_example =
    restrict_to_tables-IsRestriction sample_policy orders_only (orders ∷ []) orders_from_policy
