-- ===== src/Examples/Guard.antt =====
-- The guard on one query.
use enterprise_data_copilot.Prelude.{◌≡◌, refl, inl, inr, arith}
use enterprise_data_copilot.Prelude.Strings.{strip, show_nat}
use enterprise_data_copilot.Prelude.Result.{ok}
use enterprise_data_copilot.QuerySafety.Guard.Checks.{
  only_statement, is_forbidden, check_functions, check_joins, check_table, check_tables,
  check_query_shape, qualify_columns,
}
use enterprise_data_copilot.QuerySafety.Guard.Inspect.{
  GuardedQuery, validated, bounded_query, accept, fingerprint_query, guarded_query, inspect,
}
use enterprise_data_copilot.QuerySafety.Guard.Admitted.{IsAdmitted}
use enterprise_data_copilot.QuerySafety.Guard.Tables.{
  IsGuarded, inspect-IsGuarded, IsAdmitted-inspect,
}
use enterprise_data_copilot.Examples.Dialect.{
  ascii, dialect, same_text, orders, sample_policy, orders_query,
}

pub orders_inspected : inspect ascii dialect same_text orders sample_policy ≡ ok orders_query
unfolding strip only_statement is_forbidden check_functions check_joins check_table check_tables
    check_query_shape qualify_columns show_nat validated bounded_query accept fingerprint_query
    guarded_query inspect
orders_inspected = refl

inspect-IsGuarded_example : IsGuarded ascii dialect sample_policy orders orders_query
inspect-IsGuarded_example =
    inspect-IsGuarded ascii dialect same_text orders sample_policy orders_query orders_inspected

orders-IsAdmitted : IsAdmitted ascii dialect orders sample_policy orders
unfolding strip
orders-IsAdmitted = record {
  not_blank = refl;
  single = refl;
  read_only = refl;
  no_forbidden_node = λ n. refl;
  callable = tt;
  not_recursive = refl;
  restricted = tt;
  readable = (inr (record { no_catalog = refl; own_schema = inl refl; listed = refl }), tt);
}

orders_qualified : qualify_columns ascii dialect orders sample_policy ≡ ok orders
unfolding qualify_columns
orders_qualified = refl

IsAdmitted-inspect_example :
    (r : GuardedQuery) × (inspect ascii dialect same_text orders sample_policy ≡ ok r)
IsAdmitted-inspect_example =
    IsAdmitted-inspect ascii dialect same_text orders sample_policy orders orders orders-IsAdmitted
      orders_qualified refl (omega arith)
