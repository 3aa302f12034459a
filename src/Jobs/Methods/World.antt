-- ===== src/Jobs/Methods/World.antt =====
-- src/dalmatian/jobs.py: what the methods read and write: the server, and the calls that they make
-- on the metadata store. Those calls are caught when they raise, so only the calls are recorded.
use dalmatian.Prelude.{
  ℕ, String, ◌≡◌, refl, Option, none, some, List, ◌∷◌, ◌==◌, nat_eq, or_else, if◌then◌else◌,
}
use mathlib.Core.Option
use dalmatian.Prelude.Decimal.{to_int}
use dalmatian.Valkey.{Valkey, field_of, is_empty}
use dalmatian.Models.{
  QueryRequest, QueryResult, JobStatus, JobRecord, queued, running, retrying, succeeded, failed,
  cancelled,
}
use dalmatian.Jobs.Config.{Config, job_key}

-- pydantic's texts of requests and results.
pub record Payloads : Type 1 where
  pub Row : Type 0
  pub request_json : QueryRequest → String
  pub read_request : String → QueryRequest
  pub result_json : QueryResult Row → String
  pub read_result : String → QueryResult Row

pub data Error : Type 0 where
  bad_key_length queue_full record_expired malformed_record : Error
  bound_elsewhere : String → Error

pub data Outcome {ℓ} (A : Type ℓ) : Type ℓ where
  ok : A → Outcome A
  raised : Error → Outcome A

pub data MetadataCall (Row : Type 0) : Type 0 where
  record_invocation : String → String → String → MetadataCall Row
  -- invocation, status, result, error, error class, attempts
  update_invocation :
      String
      → String
      → Option (QueryResult Row)
      → Option String
      → Option String
      → Option ℕ
      → MetadataCall Row

unfoldable pub status_value : JobStatus → String
status_value queued = "queued"
status_value running = "running"
status_value retrying = "retrying"
status_value succeeded = "succeeded"
status_value failed = "failed"
status_value cancelled = "cancelled"

-- JobStatus(text); another text raises ValueError.
unfoldable pub read_status : String → Option JobStatus
read_status s =
    if s == "queued"
    then some queued
    else if s == "running"
    then some running
    else if s == "retrying"
    then some retrying
    else if s == "succeeded"
    then some succeeded
    else if s == "failed"
    then some failed
    else if s == "cancelled"
    then some cancelled
    else none

pub read_status-status_value : (s : JobStatus) → read_status (status_value s) ≡ some s
unfolding read_status status_value
read_status-status_value queued = refl
read_status-status_value running = refl
read_status-status_value retrying = refl
read_status-status_value succeeded = refl
read_status-status_value failed = refl
read_status-status_value cancelled = refl

-- _dt(ms): a time of zero, or none, is no time.
unfoldable pub dt : Option String → Option ℕ
dt ms = let value = to_int (or_else ms "0") in if nat_eq value 0 then none else some value

-- data.get(field) or None
unfoldable pub non_empty : Option String → Option String
non_empty none = none
non_empty (some s) = if s == "" then none else some s

module _ ⦃V : Valkey⦄ ⦃P : Payloads⦄ where
  open V use {Db, hgetall}

  pub record World : Type 0 where
    pub db : Db
    pub calls : List (MetadataCall P.Row)

  -- The record that HGETALL returned.
  unfoldable pub job_record : String → List (String × String) → Outcome (JobRecord P.Row)
  unfolding read_status dt non_empty
  job_record job_id fields = elim (read_status (or_else (field_of fields "status") "")) [
    | none ↦ raised malformed_record
    | some status ↦ ok (record {
      id = job_id;
      status = status;
      attempts = to_int (or_else (field_of fields "attempts") "0");
      result = Option.map P.read_result (non_empty (field_of fields "result"));
      error = non_empty (field_of fields "error");
      created_at = dt (field_of fields "created_at_ms");
      updated_at = dt (field_of fields "updated_at_ms");
      next_attempt_at = dt (field_of fields "next_attempt_ms");
    })
  ]

  optional : Outcome (JobRecord P.Row) → Outcome (Option (JobRecord P.Row))
  optional (ok r) = ok (some r)
  optional (raised e) = raised e

  unfoldable pub get : Config → String → Db → Outcome (Option (JobRecord P.Row))
  unfolding optional job_record
  get q job_id d =
      let fields = hgetall d (job_key q job_id) in
      if is_empty fields then ok none else optional (job_record job_id fields)

  -- self._metadata_status(…): the newest call first.
  unfoldable pub metadata_status :
      String → String → Option (QueryResult P.Row) → Option String → Option String → World → World
  metadata_status job_id status result error error_class w = record w {
    calls = update_invocation job_id status result error error_class none ∷ w.calls;
  }
