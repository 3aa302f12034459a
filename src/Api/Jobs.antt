-- ===== src/Api/Jobs.antt =====
-- src/dalmatian/api.py: the routes of jobs, on the job queue of src/dalmatian/jobs.py. The identifiers
-- and times that the queue takes are arguments.
use Prim.Native.String.{◌++◌}
use dalmatian.Prelude.{ℕ, String, Option, none, some, [], ◌∷◌, if◌then◌else◌}
use dalmatian.Valkey.{Valkey}
use dalmatian.Models.{QueryRequest, JobRecord}
use dalmatian.Fingerprint.{Hashing, dataset_affinity_key}
use dalmatian.Errors.{Raised, Result, ok, err, busy_error, value_error, idempotency_conflict}
use dalmatian.Service.Stream.{is_stream}
use dalmatian.Jobs.Config.{Config}
use dalmatian.Jobs.Methods.World.{
  Payloads, Error, bad_key_length, queue_full, record_expired, malformed_record, bound_elsewhere,
  Outcome, raised, World, get,
}
use dalmatian.Jobs.Methods.Submit.{enqueue, request_cancel}
use dalmatian.Api.{Reply, refusal, success, job}

-- What the queue's methods raise; for a record without a status that it knows, Python's own exception.
unfoldable pub exception_of : Raised → Error → Raised
exception_of malformed bad_key_length = record {
  error_class = value_error;
  class_name = "ValueError";
  message = "Idempotency-Key must be between 1 and 255 characters";
}
exception_of malformed queue_full = record {
  error_class = busy_error;
  class_name = "BusyError";
  message = "async queue is full";
}
exception_of malformed record_expired = record {
  error_class = idempotency_conflict;
  class_name = "IdempotencyConflict";
  message =
      "Idempotency-Key is still retained but its job record has expired; submit a new request with a new key";
}
exception_of malformed malformed_record = malformed
exception_of malformed (bound_elsewhere job_id) = record {
  error_class = idempotency_conflict;
  class_name = "IdempotencyConflict";
  message = "Idempotency-Key is already bound to job " ++ (job_id ++ " with a different request");
}

module _ ⦃V : Valkey⦄ ⦃P : Payloads⦄ (malformed : Raised) where
  unfoldable pub accepted : QueryRequest → ⦃H : Hashing⦄ → JobRecord P.Row → Reply P.Row
  accepted request new = record {
    status = 202;
    headers =
        ("Location", "/v1/jobs/" ++ new.id)
        ∷ ("X-Dalmatian-Affinity-Key", dataset_affinity_key request)
        ∷ [];
    body = job new;
  }

  unfoldable pub submission :
      QueryRequest → ⦃H : Hashing⦄ → Outcome (JobRecord P.Row) → Result (Reply P.Row)
  submission request (Outcome.ok new) = ok (accepted request new)
  submission request (raised e) = err (exception_of malformed e)

  unfoldable pub found : Outcome (Option (JobRecord P.Row)) → Result (Reply P.Row)
  found (Outcome.ok none) = ok (refusal 404 "job not found")
  found (Outcome.ok (some r)) = ok (success (job r))
  found (raised e) = err (exception_of malformed e)

module _ ⦃V : Valkey⦄ ⦃P : Payloads⦄ ⦃H : Hashing⦄ (malformed : Raised) (q : Config) where
  queued : QueryRequest → Option String → String → ℕ → World → Result (Reply P.Row) × World
  queued request idempotency_key job_id now w =
      let (answer, w') = enqueue q request idempotency_key job_id now w in
      (submission malformed request answer, w')

  unfoldable pub create_job :
      QueryRequest → Option String → String → ℕ → World → Result (Reply P.Row) × World
  unfolding queued
  create_job request idempotency_key job_id now w =
      if is_stream request.output.mode
      then (ok (refusal 400 "async jobs do not support stream output; use inline or store"), w)
      else queued request idempotency_key job_id now w

  unfoldable pub get_job : String → World → Result (Reply P.Row)
  get_job job_id w = found malformed (get q job_id w.db)

  unfoldable pub cancel_job : String → ℕ → World → Result (Reply P.Row) × World
  cancel_job job_id now w =
      let (answer, w') = request_cancel q job_id now w in (found malformed answer, w')
