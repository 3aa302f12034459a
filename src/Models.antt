-- ===== src/Models.antt =====
-- src/dalmatian/models.py: the data that requests, results and job records carry, and the validators.
-- The rows of a result are JSON objects that no code here looks into: their type is a parameter.
pub mod Validation
use dalmatian.Prelude.{ℕ, String, Bool, Option, List}

pub data DataFormat : Type 0 where
  csv parquet json : DataFormat

pub data DeliveryMode : Type 0 where
  inline stream store : DeliveryMode

pub data OutputFormat : Type 0 where
  json csv jsonl parquet : OutputFormat

pub data WriteMode : Type 0 where
  error overwrite append : WriteMode

-- output.write_mode.value
unfoldable pub write_mode_value : WriteMode → String
write_mode_value WriteMode.error = "error"
write_mode_value WriteMode.overwrite = "overwrite"
write_mode_value WriteMode.append = "append"

-- A schema is a field-to-type table or Spark DDL.
pub data Schema : Type 0 where
  fields : List (String × String) → Schema
  ddl : String → Schema

pub record SourceSpec : Type 0 where
  pub path : String
  pub format : DataFormat
  pub location : Option String
  pub options : List (String × String)
  pub version : Option String
  pub schema_definition : Option Schema
  pub infer_schema : Bool

pub record OutputSpec : Type 0 where
  pub mode : DeliveryMode
  pub format : OutputFormat
  pub location : Option String
  pub path : Option String
  pub write_mode : WriteMode
  pub options : List (String × String)

-- `fields_set` is pydantic's record of the fields that the caller wrote.
pub record QueryRequest : Type 0 where
  pub sql : String
  pub sources : List (String × SourceSpec)
  pub output : OutputSpec
  pub max_rows : ℕ
  pub cache_ttl_seconds : Option ℕ
  pub timeout_seconds : Option ℕ
  pub fields_set : List String

pub record InlineResult (Row : Type 0) : Type 0 where
  pub query_id : Option String
  pub columns : List String
  pub rows : List Row
  pub truncated : Bool
  pub cached : Bool

pub record StoredResult : Type 0 where
  pub query_id : String
  pub format : OutputFormat
  pub location : String
  pub path : String
  pub manifest_uri : String
  pub data_uri : String
  pub partitions : ℕ
  pub source_versions : List (String × String)

pub data QueryResult (Row : Type 0) : Type 0 where
  inline_result : InlineResult Row → QueryResult Row
  stored_result : StoredResult → QueryResult Row

pub data JobStatus : Type 0 where
  queued running retrying succeeded failed cancelled : JobStatus

-- Times are milliseconds since the epoch; a time of zero is no time.
pub record JobRecord (Row : Type 0) : Type 0 where
  pub id : String
  pub status : JobStatus
  pub attempts : ℕ
  pub result : Option (QueryResult Row)
  pub error : Option String
  pub created_at : Option ℕ
  pub updated_at : Option ℕ
  pub next_attempt_at : Option ℕ

pub record SourceColumn : Type 0 where
  pub name : String
  pub type : String
  pub nullable : Bool

pub record SourceInspection : Type 0 where
  pub location : String
  pub resolved_uri : String
  pub fingerprint : Option String
  pub cache_safe : Bool
  pub columns : List SourceColumn

pub record ExplainResult : Type 0 where
  pub query_id : String
  pub normalized_sql : String
  pub source_versions : List (String × String)
  pub plan : String

pub data LocationSource : Type 0 where
  config database : LocationSource

pub record StorageLocationInfo : Type 0 where
  pub name : String
  pub uri : String
  pub source : LocationSource
