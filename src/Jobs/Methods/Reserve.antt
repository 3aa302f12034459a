-- ===== src/Jobs/Methods/Reserve.antt =====
-- src/dalmatian/jobs.py: `promote_retries` and `reserve`. A blocking pop is taken at the moment at
-- which it returns; the server does not change between a method's calls.
use dalmatian.Prelude.{
  ℕ, zero, suc, leb, ◌+◌, ◌-◌, ◌%◌, String, Option, none, some, List, [], ◌∷◌, nat_eq, or_else,
  if◌then◌else◌,
}
use dalmatian.Prelude.Decimal.{to_int}
use dalmatian.Valkey.{Valkey}
use dalmatian.Models.{QueryRequest}
use dalmatian.Jobs.Config.{Config, job_key, pending_name, processing_name, retry_name}
use dalmatian.Jobs.Scripts.Submit.{promote_script}
use dalmatian.Jobs.Scripts.Lease.{Claimed, claim_script}
use dalmatian.Jobs.Steps.{lease_until}
use dalmatian.Jobs.Methods.World.{Payloads, MetadataCall, update_invocation, World}

pub record ReservedJob : Type 0 where
  pub id : String
  pub request : QueryRequest
  pub attempts : ℕ
  pub shard : ℕ

module _ ⦃V : Valkey⦄ ⦃P : Payloads⦄ (q : Config) where
  open V use {Db, hget, zrangebyscore, rpoplpush}

  -- for job_id in due, with the number of jobs moved
  promote_each : List String → ℕ → Db → ℕ × Db
  promote_each [] now d = (0, d)
  promote_each (job_id ∷ due) now d =
      let shard = to_int (or_else (hget d (job_key q job_id) "shard") "0") in
      let (moved, d') =
        promote_script (job_key q job_id) (retry_name q) (pending_name q shard) job_id now d in
      let (rest, d'') = promote_each due now d' in (moved + rest, d'')

  unfoldable pub promote_retries : ℕ → Db → ℕ × Db
  unfolding promote_each
  promote_retries now d = promote_each (zrangebyscore d (retry_name q) now 100) now d

  -- The candidates count - 1, …, 0 of the range from its end: those from affinity_shards - count on.
  steal : ℕ → ℕ → Db → Option String × Db
  steal primary zero d = (none, d)
  steal primary (suc count) d =
      let candidate = q.affinity_shards - suc count in
      let next = steal primary count d in
      if nat_eq candidate primary
      then next
      else (let popped = rpoplpush (pending_name q candidate) (processing_name q) d in
          elim popped.0 [ none ↦ steal primary count popped.1 | some job_id ↦ popped ])

  -- The next job of the worker's shard, and else of any other.
  unfoldable pub take_next : ℕ → Db → Option String × Db
  unfolding steal
  take_next primary d =
      let popped = rpoplpush (pending_name q primary) (processing_name q) d in
      elim popped.0 [
        | none ↦
            (if leb q.affinity_shards 1 then popped else steal primary q.affinity_shards popped.1)
        | some job_id ↦ popped
      ]

  -- What a claim becomes: the job for the worker, and the call on the metadata store.
  unfoldable pub reserved :
      String → List (MetadataCall P.Row) → Option Claimed × Db → Option ReservedJob × World
  reserved job_id calls (none, d) = (none, record { db = d; calls = calls })
  reserved job_id calls (some c, d) = (
    some (record {
      id = job_id;
      request = P.read_request c.request;
      attempts = c.attempts;
      shard = to_int c.shard;
    }),
    record {
      db = d;
      calls = update_invocation job_id "running" none none none (some c.attempts) ∷ calls;
    },
  )

  unfoldable pub claim_next :
      String → ℕ → List (MetadataCall P.Row) → Option String × Db → Option ReservedJob × World
  claim_next worker now calls (none, d) = (none, record { db = d; calls = calls })
  claim_next worker now calls (some job_id, d) = reserved job_id calls (
      claim_script (job_key q job_id) (processing_name q) job_id worker (lease_until q now) now
        q.job_ttl_seconds d)

  -- Promotion reads the clock at `before`, the claim at `now`.
  unfoldable pub reserve : String → ℕ → ℕ → ℕ → World → Option ReservedJob × World
  unfolding reserved claim_next
  reserve worker shard before now w =
      claim_next worker now w.calls
        (take_next (shard % q.affinity_shards) (promote_retries before w.db).1)
