-- ===== src/Examples/Dialect.antt =====
-- A small instance of what the program imports: ASCII letters, a dialect whose only statements are
-- reads of one table, and a hash that is the text itself.
use enterprise_data_copilot.Prelude.{
  ℕ, ◌+◌, ◌-◌, Text, true, false, ◌&&◌, ◌||◌, [], ◌∷◌, ◌++◌, map, some, codes, leb, if◌then◌else◌,
}
use enterprise_data_copilot.Prelude.Unicode.{Unicode}
use enterprise_data_copilot.QuerySafety.SqlGlot.{SqlGlot}
use enterprise_data_copilot.QuerySafety.Policy.Model.{QueryPolicy}
use enterprise_data_copilot.QuerySafety.Guard.Inspect.{GuardedQuery}

abbrev lower_char : ℕ → ℕ
lower_char c = if leb b'A' c && leb c b'Z' then c + 32 else c

abbrev upper_char : ℕ → ℕ
upper_char c = if leb b'a' c && leb c b'z' then c - 32 else c

abbrev pub ascii : Unicode
ascii = record {
  lower = map lower_char;
  upper = map upper_char;
  casefold = map lower_char;
  is_alnum =
      λ c. (leb b'0' c && leb c b'9') || (leb b'a' (lower_char c) && leb (lower_char c) b'z');
}

-- The text of a statement is the name of the table that it reads.
abbrev pub dialect : SqlGlot
dialect = record {
  Expression = Text;
  parse = λ query. some (some query ∷ []);
  is_query = λ e. true;
  has_node = λ e n. false;
  functions = λ e. [];
  recursive_with = λ e. false;
  joins = λ e. [];
  cte_names = λ e. [];
  tables = λ e. record { name = e; db = []; catalog = []; alias_or_name = e } ∷ [];
  columns = λ e. [];
  qualify = λ schema columns e. some e;
  sql = λ e. codes "SELECT * FROM " ++ e;
}

abbrev pub same_text : Text → Text
same_text s = s

abbrev pub orders : Text
orders = codes "orders"

abbrev pub customers : Text
customers = codes "customers"

abbrev pub sample_policy : QueryPolicy
sample_policy = record {
  allowed_schema = codes "northwind";
  allowed_tables = orders ∷ customers ∷ [];
  allowed_columns = (orders, codes "order_id" ∷ []) ∷ (customers, codes "customer_id" ∷ []) ∷ [];
  max_rows = 2;
  max_columns = 3;
  max_result_bytes = 64;
  max_total_cost = 1000;
  max_plan_rows = 50;
}

abbrev pub orders_query : GuardedQuery
orders_query = record {
  normalized_sql = codes "SELECT * FROM orders";
  bounded_sql = codes "SELECT * FROM (SELECT * FROM orders) AS _copilot_bounded LIMIT 3";
  query_fingerprint = codes "sha256:SELECT * FROM orders";
  referenced_tables = codes "northwind.orders" ∷ [];
  row_fetch_limit = 3;
}
