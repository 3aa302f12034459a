-- ===== src/Jobs/Steps.antt =====
-- src/dalmatian/jobs.py: what the methods of `ValkeyJobQueue` do on the server, one script or
-- command at a time, with the arguments that the methods pass. Clients, workers and reapers run
-- side by side, so a history is any sequence of steps: the methods' own order is not assumed.
use Prim.Native.String.{◌++◌}
use dalmatian.Prelude.{
  ℕ, ◌+◌, ◌*◌, String, List, [], ◌∷◌, Option, some, none, zero, suc, ◌≡◌, ◌==◌, false, is_some,
  or_else,
}
use dalmatian.Prelude.Decimal.{str, to_int}
use dalmatian.Valkey.{Valkey}
use dalmatian.Jobs.Config.{
  Config, job_key, pending_name, processing_name, retry_name, dead_name, idempotency_name,
}
use dalmatian.Jobs.Scripts.Submit.{EnqueueReply, enqueue_script, cancel_script, promote_script}
use dalmatian.Jobs.Scripts.Lease.{
  claim_script, heartbeat_script, publish_script, complete_script, terminal_script,
}
use dalmatian.Jobs.Scripts.Retry.{retry_script, reap_script}

pub data Step : Type 0 where
  -- job, shard, digest of the idempotency key if there is one, request hash, request, time
  enqueue : String → ℕ → Option String → String → String → ℕ → Step
  -- job, shard, time
  cancel promote : String → ℕ → ℕ → Step
  -- BRPOPLPUSH or RPOPLPUSH from a shard to the processing list
  pop : ℕ → Step
  -- job, worker, time
  claim heartbeat : String → String → ℕ → Step
  -- job, worker, attempt number, publication key, write mode, attempt, manifest, time
  publish : String → String → ℕ → String → String → String → String → ℕ → Step
  -- job, worker, result, time
  complete : String → String → String → ℕ → Step
  -- job, worker, time; job, worker, error, time
  cancel_complete : String → String → ℕ → Step
  fail : String → String → String → ℕ → Step
  -- job, worker, error, time, time of the next attempt
  retry : String → String → String → ℕ → ℕ → Step
  -- job, shard, lease that was read, time, time of the next attempt
  reap : String → ℕ → String → ℕ → ℕ → Step
  -- The record of a job lapses. The times to live are not timed: it may happen at any step, so there are
  -- more histories here than the server has.
  lapse : String → Step

unfoldable pub shards_below : Config → ℕ → List String
shards_below q zero = []
shards_below q (suc n) = pending_name q n ∷ shards_below q n

-- self._pending(index) for index in range(affinity_shards), the last one first
abbrev pub shards : Config → List String
shards q = shards_below q q.affinity_shards

module _ ⦃V : Valkey⦄ (q : Config) where
  open V use {Db, hget, rpoplpush}

  -- The idempotency key of the script when there is one, and else a key that nothing is bound to.
  idem_key : Option String → String → String
  idem_key none job_id = idempotency_name q ("none:" ++ job_id)
  idem_key (some digest) job_id = idempotency_name q digest

  unfoldable pub enqueue_step :
      String → ℕ → Option String → String → String → ℕ → Db → EnqueueReply × Db
  unfolding idem_key shards_below
  enqueue_step job_id shard idempotency request_hash request now =
      enqueue_script (job_key q job_id) (pending_name q shard) (idem_key idempotency job_id)
        (processing_name q) (retry_name q) (shards q) (is_some idempotency) request_hash request
        (str shard) now q.job_ttl_seconds job_id q.idempotency_ttl_seconds q.max_queue_depth

  unfoldable pub lease_until : ℕ → ℕ
  lease_until now = now + q.lease_seconds * 1000

  -- The state after a step.
  unfoldable pub after : Step → Db → Db
  unfolding enqueue_step lease_until
  after (enqueue job_id shard idempotency request_hash request now) d =
      (enqueue_step job_id shard idempotency request_hash request now d).1
  after (cancel job_id shard now) d =
      (cancel_script (job_key q job_id) (pending_name q shard) (retry_name q) job_id now d).1
  after (promote job_id shard now) d =
      (promote_script (job_key q job_id) (retry_name q) (pending_name q shard) job_id now d).1
  after (pop shard) d = (rpoplpush (pending_name q shard) (processing_name q) d).1
  after (claim job_id worker now) d =
      (claim_script (job_key q job_id) (processing_name q) job_id worker (lease_until now) now
        q.job_ttl_seconds d).1
  after (heartbeat job_id worker now) d =
      (heartbeat_script (job_key q job_id) worker (lease_until now) now q.job_ttl_seconds d).1
  after (publish job_id worker attempts publication mode attempt_id manifest_uri now) d =
      (publish_script (job_key q job_id) publication worker attempts mode job_id attempt_id
        manifest_uri now d).1
  after (complete job_id worker result now) d =
      (complete_script (job_key q job_id) (processing_name q) worker result now job_id
        q.job_ttl_seconds d).1
  after (cancel_complete job_id worker now) d =
      (terminal_script (job_key q job_id) (processing_name q) (dead_name q) worker "cancelled" ""
        now job_id q.job_ttl_seconds d).1
  after (fail job_id worker error now) d =
      (terminal_script (job_key q job_id) (processing_name q) (dead_name q) worker "failed" error
        now job_id q.job_ttl_seconds d).1
  after (retry job_id worker error now next) d =
      (retry_script (job_key q job_id) (processing_name q) (retry_name q) (dead_name q) worker
        job_id q.max_attempts error now next q.job_ttl_seconds d).1
  after (reap job_id shard expected_lease now next) d =
      (reap_script (job_key q job_id) (processing_name q) (retry_name q) (dead_name q)
        (pending_name q shard) job_id expected_lease now q.max_attempts next q.job_ttl_seconds d).1
  after (lapse job_id) d = V.lapse (job_key q job_id) d

  unfoldable pub run : List Step → Db → Db
  run [] d = d
  run (s ∷ ss) d = run ss (after s d)

  -- The fields of a job, as HGET reads them.
  abbrev pub field : Db → String → String → Option String
  field d job_id f = hget d (job_key q job_id) f

  -- A publication key that is no job's key: the prefix of the outputs differs from the queue's name.
  abbrev pub IsOutputKey : String → Type 0
  IsOutputKey key = (job_id : String) → (key == job_key q job_id) ≡ false

  -- What the clients see to: a new job's identifier is fresh (uuid4), and publications have keys
  -- of their own.
  abbrev pub IsSound : Step → Db → Type 0
  IsSound (enqueue job_id shard idempotency request_hash request now) d =
      V.exists d (job_key q job_id) ≡ false
  IsSound (publish job_id worker attempts publication mode attempt_id manifest_uri now) d =
      IsOutputKey publication
  IsSound _ d = Unit {0}

  -- self._pending(int(shard or 0)) for the shard in the job's record
  abbrev pub shard_of : Db → String → ℕ
  shard_of d job_id = to_int (or_else (field d job_id "shard") "0")

  -- The callers read the shard from the job's record just before. Of the steps in between only a lapse of
  -- the record could change it, and then there is no live job left.
  abbrev pub ReadsShard : Step → Db → Type 0
  ReadsShard (cancel job_id shard now) d = shard ≡ shard_of d job_id
  ReadsShard (promote job_id shard now) d = shard ≡ shard_of d job_id
  ReadsShard (reap job_id shard expected_lease now next) d = shard ≡ shard_of d job_id
  ReadsShard _ d = Unit {0}
