-- ===== src/Metadata/Snapshot.antt =====
-- agent-service/app/metadata/models.py.
use enterprise_data_copilot.Prelude.{ℕ, Text, Bool, Option, List}

pub record ColumnMetadata : Type 0 where
  pub name : Text
  pub ordinal_position : ℕ
  pub data_type : Text
  pub nullable : Bool
  pub comment : Option Text

pub record PrimaryKeyMetadata : Type 0 where
  pub name : Text
  pub columns : List Text

pub record ForeignKeyMetadata : Type 0 where
  pub name : Text
  pub columns : List Text
  pub referenced_schema : Text
  pub referenced_table : Text
  pub referenced_columns : List Text

pub record TableMetadata : Type 0 where
  pub name : Text
  pub comment : Option Text
  pub columns : List ColumnMetadata
  pub primary_key : Option PrimaryKeyMetadata
  pub foreign_keys : List ForeignKeyMetadata

pub record SchemaSnapshot : Type 0 where
  pub format_version : Text
  pub source_id : Text
  pub schema_name : Text
  pub schema_version : Text
  pub dataset_version : Text
  pub tables : List TableMetadata
