-- ===== src/Jobs/Methods/Submit.antt =====
-- src/dalmatian/jobs.py: `enqueue` and `request_cancel`. The new identifier (uuid4) and the times
-- are arguments; the server does not change between a method's calls.
use Prim.Native.String.{count}
use dalmatian.Prelude.{
  ℕ, String, Bool, not, ◌&&◌, Option, none, some, List, ◌∷◌, leb, nat_eq, or_else, holds,
  if◌then◌else◌, ◌%◌,
}
use mathlib.Core.Option
use dalmatian.Prelude.Decimal.{to_int}
use dalmatian.Valkey.{Valkey, field_of, is_empty}
use dalmatian.Models.{QueryRequest, JobStatus, JobRecord}
use dalmatian.Fingerprint.{Hashing, dataset_affinity_key, request_payload_fingerprint}
use dalmatian.Jobs.Config.{Config, job_key, pending_name, retry_name, idempotency_name}
use dalmatian.Jobs.Scripts.Submit.{
  EnqueueReply, conflict, existing, created, full, CancelReply, cancel_script,
}
use dalmatian.Jobs.Steps.{enqueue_step}
use dalmatian.Jobs.Methods.World.{
  Payloads, bad_key_length, queue_full, record_expired, bound_elsewhere, Outcome, ok, raised,
  MetadataCall, record_invocation, World, get, metadata_status,
}

-- idempotency_key is not None and not (1 <= len(idempotency_key) <= 255)
abbrev pub bad_length : Option String → Bool
bad_length none = Bool.false
bad_length (some key) = not (leb 1 (count key) && leb (count key) 255)

module _ ⦃V : Valkey⦄ ⦃P : Payloads⦄ ⦃H : Hashing⦄ (q : Config) where
  open V use {Db, hget, hgetall}

  -- The job that a retained key is bound to, or the complaint that its record has expired.
  unfoldable pub bound_job : String → Db → Outcome (JobRecord P.Row)
  bound_job job_id d = elim (get q job_id d) [
    | raised e ↦ raised e
    | ok none ↦ raised record_expired
    | ok (some r) ↦ ok r
  ]

  -- What a binding that HGETALL found says; nothing if there is none.
  unfoldable pub check_binding :
      List (String × String) → String → Db → Option (Outcome (JobRecord P.Row))
  unfolding bound_job
  check_binding binding fingerprint d =
      if is_empty binding
      then none
      else if not (holds (field_of binding "request_hash") fingerprint)
      then some (raised (bound_elsewhere (or_else (field_of binding "job_id") "")))
      else some (bound_job (or_else (field_of binding "job_id") "") d)

  unfoldable pub prior : Option String → String → Db → Option (Outcome (JobRecord P.Row))
  unfolding check_binding
  prior none fingerprint d = none
  prior (some key) fingerprint d =
      check_binding (hgetall d (idempotency_name q (H.sha256 key))) fingerprint d

  -- self._shard(request)
  unfoldable pub shard_of_request : QueryRequest → ℕ
  shard_of_request request = H.sha256_int (dataset_affinity_key request) % q.affinity_shards

  -- The record of a job that has just been created.
  unfoldable pub new_record : String → ℕ → JobRecord P.Row
  new_record job_id now = record {
    id = job_id;
    status = JobStatus.queued;
    attempts = 0;
    result = none;
    error = none;
    created_at = (if nat_eq now 0 then none else some now);
    updated_at = (if nat_eq now 0 then none else some now);
    next_attempt_at = none;
  }

  -- What the script's reply becomes.
  unfoldable pub submitted :
      String
      → String
      → ℕ
      → List (MetadataCall P.Row)
      → EnqueueReply × Db
      → Outcome (JobRecord P.Row) × World
  unfolding new_record bound_job
  submitted job_id request_json now calls (full, d) =
      (raised queue_full, record { db = d; calls = calls })
  submitted job_id request_json now calls (conflict other, d) =
      (raised (bound_elsewhere other), record { db = d; calls = calls })
  submitted job_id request_json now calls (existing other, d) =
      (bound_job other d, record { db = d; calls = calls })
  submitted job_id request_json now calls (created other, d) = (
    ok (new_record job_id now),
    record { db = d; calls = record_invocation job_id "async" request_json ∷ calls },
  )

  unfoldable pub submit :
      QueryRequest → Option String → String → ℕ → World → Outcome (JobRecord P.Row) × World
  unfolding submitted shard_of_request
  submit request digest job_id now w = submitted job_id (P.request_json request) now w.calls (
      enqueue_step q job_id (shard_of_request request) digest (request_payload_fingerprint request)
        (P.request_json request) now w.db)

  unfoldable pub enqueue :
      QueryRequest → Option String → String → ℕ → World → Outcome (JobRecord P.Row) × World
  unfolding prior submit
  enqueue request idempotency_key job_id now w =
      if bad_length idempotency_key
      then (raised bad_key_length, w)
      else elim (prior idempotency_key (request_payload_fingerprint request) w.db) [
        | some answer ↦ (answer, w)
        | none ↦ submit request (Option.map H.sha256 idempotency_key) job_id now w
      ]

  is_cancelled : Outcome (Option (JobRecord P.Row)) → Bool
  is_cancelled (ok (some r)) = elim r.status [ JobStatus.cancelled ↦ Bool.true | _ ↦ Bool.false ]
  is_cancelled _ = Bool.false

  -- The record after the script, with the metadata told of a cancellation.
  answer_cancel : String → CancelReply × Db → World → Outcome (Option (JobRecord P.Row)) × World
  answer_cancel job_id (CancelReply.missing, d) w = (ok none, record w { db = d })
  answer_cancel job_id (_, d) w =
      let answer = get q job_id d in
      (
        answer,
        (if is_cancelled answer
            then metadata_status job_id "cancelled" none none none (record w { db = d })
            else record w { db = d }),
      )

  unfoldable pub request_cancel : String → ℕ → World → Outcome (Option (JobRecord P.Row)) × World
  unfolding is_cancelled answer_cancel
  request_cancel job_id now w = elim (hget w.db (job_key q job_id) "shard") [
    | none ↦ (ok none, w)
    | some shard ↦
        answer_cancel job_id
          (cancel_script (job_key q job_id) (pending_name q (to_int shard)) (retry_name q) job_id
            now w.db)
          w
  ]
