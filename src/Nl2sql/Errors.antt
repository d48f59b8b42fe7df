-- ===== src/Nl2sql/Errors.antt =====
-- agent-service/app/nl2sql/errors.py.
use enterprise_data_copilot.Codes.{
  Code, nl2sql_question_rejected, nl2sql_schema_selection_failed, nl2sql_repair_exhausted,
}

-- The subclasses of `NL2SQLError`: a rejected question with its reason code, a bad selection of
-- tables, and exhausted repairs with the last error code.
pub data Nl2sqlError : Type 0 where
  question_rejected : Code → Nl2sqlError
  schema_selection : Nl2sqlError
  repair_exhausted : Code → Nl2sqlError

abbrev pub nl2sql_code : Nl2sqlError → Code
nl2sql_code (question_rejected reason) = nl2sql_question_rejected
nl2sql_code schema_selection = nl2sql_schema_selection_failed
nl2sql_code (repair_exhausted last) = nl2sql_repair_exhausted
