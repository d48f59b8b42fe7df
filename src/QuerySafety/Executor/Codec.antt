-- ===== src/QuerySafety/Executor/Codec.antt =====
-- What the executor relies on outside the repository: the encoder and the database.
use enterprise_data_copilot.Prelude.{ℕ, Text, Option, List}
use enterprise_data_copilot.Prelude.Dict.{Dict}

-- `json.dumps(..., separators=(",", ":")).encode()` of the empty result with its columns and of
-- one row (with `default=str`), and `json.loads` of an encoded row. `Raw` is the type of the
-- values that the driver returns, `V` that of decoded ones.
pub record Codec (Raw V : Type 0) : Type 0 where
  pub encode_header : List Text → List ℕ
  pub encode_row : Dict Text Raw → List ℕ
  pub decode_row : List ℕ → Dict Text V

-- A statement that is sent over the connection, with its parameters.
pub data Statement : Type 0 where
  execute : Text → List Text → Statement

-- How a session ends that sends the statements: with the description and the rows of the last one,
-- or with an exception of the driver, of the data source or of the operating system.
pub data Session (Raw : Type 0) : Type 0 where
  answered : Option (List Text) → List (List Raw) → Session Raw
  query_canceled insufficient_privilege other_error unexpected_error : Session Raw
