-- ===== src/Sources.antt =====
-- agent-service/app/data_sources: the configuration of a business database, and the connections that
-- the service opens with it. The driver is a parameter.
use enterprise_data_copilot.Prelude.{
  ℕ, ◌≡◌, ◌≤◌, ◌<◌, Text, Bool, not, ◌||◌, ◌++◌, codes, leb, arith,
}
use enterprise_data_copilot.Prelude.Strings.{show_nat}
use enterprise_data_copilot.Prelude.Result.{Result, ok, err, ◌>>=◌, ◌>>◌, raise_if}
use enterprise_data_copilot.QuerySafety.Policy.Model.{is_identifier}

-- `DataSourceConfig`; the password stays the text behind the secret, and a number is not negative.
pub record DataSourceConfig : Type 0 where
  pub source_id : Text
  pub host : Text
  pub port : ℕ
  pub database : Text
  pub username : Text
  pub password : Text
  pub allowed_schema : Text
  pub connect_timeout_seconds : ℕ
  pub statement_timeout_ms : ℕ

-- `BusinessDatabaseSettings`, as far as `from_settings` reads it.
pub record BusinessDatabaseSettings : Type 0 where
  pub host : Text
  pub port : ℕ
  pub name : Text
  pub readonly_user : Text
  pub readonly_password : Text
  pub allowed_schema : Text
  pub connect_timeout_seconds : ℕ
  pub statement_timeout_ms : ℕ

-- The messages of the `ValueError`s of `__post_init__`.
pub data ConfigError : Type 0 where
  bad_schema bad_port bad_timeout : ConfigError

-- `__post_init__`
unfoldable pub checked_config : DataSourceConfig → Result ConfigError DataSourceConfig
checked_config c = do
  raise_if (not (is_identifier c.allowed_schema)) bad_schema
  raise_if (not (leb 1 c.port) || not (leb c.port 65535)) bad_port
  raise_if (leb c.connect_timeout_seconds 0 || leb c.statement_timeout_ms 0) bad_timeout
  ok c

unfoldable pub from_settings : BusinessDatabaseSettings → Result ConfigError DataSourceConfig
from_settings s = checked_config (record {
  source_id = codes "northwind-demo";
  host = s.host;
  port = s.port;
  database = s.name;
  username = s.readonly_user;
  password = s.readonly_password;
  allowed_schema = s.allowed_schema;
  connect_timeout_seconds = s.connect_timeout_seconds;
  statement_timeout_ms = s.statement_timeout_ms;
})

-- What the driver is given.
pub record ConnectionParameters : Type 0 where
  pub host : Text
  pub port : ℕ
  pub dbname : Text
  pub user : Text
  pub password : Text
  pub connect_timeout : ℕ
  pub options : Text

abbrev pub connection_parameters : DataSourceConfig → ConnectionParameters
connection_parameters c = record {
  host = c.host;
  port = c.port;
  dbname = c.database;
  user = c.username;
  password = c.password;
  connect_timeout = c.connect_timeout_seconds;
  options = codes "-c statement_timeout=" ++ show_nat c.statement_timeout_ms;
}

-- The classes of errors.py, and any other exception.
pub data SourceRaised : Type 0 where
  source_unavailable source_permission_denied other_raised : SourceRaised

-- The exceptions of the driver and of the operating system that the service tells apart.
pub data DriverError : Type 0 where
  missing_privilege not_operational foreign_error : DriverError

abbrev pub source_error : DriverError → SourceRaised
source_error missing_privilege = source_permission_denied
source_error not_operational = source_unavailable
source_error foreign_error = other_raised

abbrev pub raised_by_driver : {A : Type 0} → Result DriverError A → Result SourceRaised A
raised_by_driver (ok a) = ok a
raised_by_driver (err e) = err (source_error e)

pub record ConnectionCheck : Type 0 where
  pub source_id : Text
  pub database : Text
  pub username : Text
  pub transaction_read_only : Bool

-- `Row` is what `fetchone` answers to the only statement of the check.
pub record CheckRow : Type 0 where
  pub current_database : Text
  pub current_user : Text
  pub is_read_only : Bool

module _ {Connection : Type 0}
    (factory : ConnectionParameters → Result DriverError Connection) where
  unfoldable pub connect : DataSourceConfig → Result SourceRaised Connection
  connect c = raised_by_driver (factory (connection_parameters c))

  unfoldable pub test_connection :
      (Connection → Result DriverError CheckRow)
      → DataSourceConfig
      → Result SourceRaised ConnectionCheck
  unfolding connect
  test_connection ask c = do
    connection ← connect c
    row ← raised_by_driver (ask connection)
    ok (record {
      source_id = c.source_id;
      database = row.current_database;
      username = row.current_user;
      transaction_read_only = row.is_read_only;
    })

-- The numbers of a configuration that is accepted are within their bounds.
checked_config-IsAccepted :
    (c d : DataSourceConfig)
    → checked_config c ≡ ok d
    → ((1 ≤ c.port) × (c.port ≤ 65535))
      × ((0 < c.connect_timeout_seconds) × (0 < c.statement_timeout_ms))
unfolding checked_config
checked_config-IsAccepted c d h = ((ground arith, ground arith), (ground arith, ground arith))
