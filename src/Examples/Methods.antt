-- ===== src/Examples/Methods.antt =====
-- The methods of the job queue on the database in memory (src/dalmatian/jobs.py), with small codecs.
use Prim.Native.String.{count}
use dalmatian.Prelude.{
  or_else, ℕ, String, true, false, none, some, [], ◌∷◌, ◌≡◌, ◌⊎◌, refl, ◌↔◌, arith, contains, holds,
}
use dalmatian.Prelude.Decimal.{to_int, str}
use dalmatian.Valkey.{Valkey}
use dalmatian.Valkey.Memory.{empty}
use dalmatian.Models.{
  QueryRequest, OutputSpec, DeliveryMode, OutputFormat, WriteMode, QueryResult, inline_result,
  JobStatus,
}
use dalmatian.Models.Validation.{validate_delivery, IsDeliverable, validate_delivery_iff, valid}
use dalmatian.Fingerprint.{Hashing, Json, text, object, member, request_payload_fingerprint, hash}
use dalmatian.Jobs.Config.{job_key, idempotency_name, pending_name, processing_name}
use dalmatian.Jobs.Reads.{owns}
use dalmatian.Jobs.Scripts.Lease.{complete_script, claim_script}
use dalmatian.Jobs.Scripts.Submit.{enqueue_script, queue_depth}
use dalmatian.Jobs.Steps.{Step, run, after, enqueue_step, field}
use dalmatian.Jobs.Methods.World.{
  queue_full, Payloads, World, dt, get, update_invocation, ok, raised, bound_elsewhere,
}
use dalmatian.Jobs.Methods.Submit.{enqueue, new_record}
use dalmatian.Jobs.Methods.Finish.{complete}
use dalmatian.Jobs.Depth.{IsOneMore, IsRefused, enqueue-depth}
use dalmatian.Jobs.Reserving.{IsHeld, reserve-IsHeld}
use dalmatian.Jobs.Methods.Reserve.{
  ReservedJob, reserve, take_next, promote_retries, claim_next, reserved,
}
use dalmatian.Jobs.Delivery.{complete_delivers}
use dalmatian.Jobs.Idempotency.{resubmit}
use dalmatian.Examples.Jobs.{server, settings, running}

abbrev pub output : OutputSpec
output = record {
  mode = DeliveryMode.inline;
  format = OutputFormat.json;
  location = none;
  path = none;
  write_mode = WriteMode.error;
  options = [];
}

abbrev pub request : QueryRequest
request = record {
  sql = "select 1";
  sources = [];
  output = output;
  max_rows = 1000;
  cache_ttl_seconds = none;
  timeout_seconds = none;
  fields_set = "sql" ∷ [];
}

abbrev pub other_request : QueryRequest
other_request = record request { sql = "select 2" }

abbrev pub answer : QueryResult ℕ
answer = inline_result (record {
  query_id = none;
  columns = "n" ∷ [];
  rows = 1 ∷ [];
  truncated = false;
  cached = false;
})

instance abbrev pub payloads : Payloads
payloads = record {
  Row = ℕ;
  request_json = λ r. r.sql;
  read_request = λ s. record request { sql = s };
  result_json = λ r. "one row";
  read_result = λ s. answer;
}

abbrev show : Json → String
show (object (member k (text s) rest)) = s
show _ = "null"

instance abbrev pub hashing : Hashing
hashing = record {
  dumps = show;
  sha256 = λ s. s;
  sha256_int = count;
  model_dump = λ r. ("sql", text r.sql) ∷ [];
}

abbrev pub fresh : World
fresh = record { db = empty; calls = [] }

abbrev pub claimed : World
claimed = record { db = running; calls = [] }

completes : (complete settings "a" "w1" answer 3000 claimed).0 ≡ true
unfolding complete complete_script running
completes = refl

complete_delivers_example :
    (owns settings "a" "w1" 3000 running ≡ true)
    × ((complete settings "a" "w1" answer 3000 claimed).1.calls
        ≡ update_invocation "a" "succeeded" (some answer) none none none ∷ [])
    × (let d = (complete settings "a" "w1" answer 3000 claimed).1.db in
        get settings "a" d
        ≡ ok (
            some (record {
              id = "a";
              status = JobStatus.succeeded;
              attempts = to_int (or_else (field settings d "a" "attempts") "0");
              result = some answer;
              error = none;
              created_at = dt (field settings d "a" "created_at_ms");
              updated_at = dt (field settings d "a" "updated_at_ms");
              next_attempt_at = dt (field settings d "a" "next_attempt_ms");
            })))
complete_delivers_example =
    complete_delivers settings "a" "w1" answer 3000 claimed refl refl completes

pub created :
    (enqueue settings request (some "k") "a" 1000 fresh).0 ≡ ok (new_record settings "a" 1000)
unfolding enqueue enqueue_script enqueue_step queue_depth
created = refl

resubmit_example :
    let u = (enqueue settings request (some "k") "a" 1000 fresh).1 in
    (enqueue settings other_request (some "k") "b" 2000 u ≡ (raised (bound_elsewhere "a"), u))
    × (let v : World = record u { db = Valkey.lapse server (job_key settings "a") u.db } in
        enqueue settings other_request (some "k") "b" 2000 v ≡ (raised (bound_elsewhere "a"), v))
    × (let v : World = record u {
      db = Valkey.lapse server (idempotency_name settings (Hashing.sha256 hashing "k")) u.db;
    } in
        ((enqueue settings other_request (some "k") "b" 2000 v).0
          ≡ ok (new_record settings "b" 2000))
        ⊎ ((enqueue settings other_request (some "k") "b" 2000 v).0 ≡ raised queue_full))
unfolding request_payload_fingerprint hash
resubmit_example =
    resubmit settings request other_request "k" "a" "b" 1000 2000 fresh
      (new_record settings "a" 1000) refl refl created

enqueue-depth_example :
    let r = enqueue settings request (some "k") "a" 1000 fresh in
    ((r.1 ≡ fresh) × IsRefused settings request (some "k") r.0 fresh)
    ⊎ ((r.0 ≡ ok (new_record settings "a" 1000)) × IsOneMore settings fresh.db r.1.db)
enqueue-depth_example = enqueue-depth settings request (some "k") "a" 1000 fresh (omega arith)

-- A job waits in shard 1, and a worker of shard 0 takes it.
waiting : World
unfolding run after enqueue_script
waiting = record {
  db = run settings (Step.enqueue "a" 1 none "hash" "select 1" 1000 ∷ []) empty;
  calls = [];
}

abbrev taken : ReservedJob
taken = record { id = "a"; request = record request { sql = "select 1" }; attempts = 1; shard = 1 }

reserves : (reserve settings "w1" 0 2000 2000 waiting).0 ≡ some taken
unfolding waiting reserve take_next promote_retries claim_next reserved claim_script queue_depth
    pending_name str processing_name contains holds job_key to_int
reserves = refl

reserve-IsHeld_example :
    IsHeld settings "w1" 2000 61999 [] taken (reserve settings "w1" 0 2000 2000 waiting).1
unfolding waiting
reserve-IsHeld_example =
    reserve-IsHeld settings "w1" 0 2000 2000 61999 waiting taken reserves (omega arith)

validate_delivery_iff_example : (validate_delivery output ≡ valid) ↔ IsDeliverable output
validate_delivery_iff_example = validate_delivery_iff output
