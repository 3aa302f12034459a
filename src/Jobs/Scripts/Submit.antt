-- ===== src/Jobs/Scripts/Submit.antt =====
-- src/dalmatian/jobs.py: _ENQUEUE_SCRIPT, _CANCEL_SCRIPT and _PROMOTE_SCRIPT.
use dalmatian.Prelude.{
  ℕ, ◌+◌, String, Bool, not, ◌&&◌, Option, none, some, List, [], ◌∷◌, ◌==◌, leb, ltb, if◌then◌else◌,
  or_else, holds,
}
use dalmatian.Prelude.Decimal.{str}
use dalmatian.Valkey.{Valkey}

-- The script's replies: a word, and the job that it is about.
pub data EnqueueReply : Type 0 where
  conflict existing created : String → EnqueueReply
  full : EnqueueReply

-- The code that `request_cancel` turns into a record.
pub data CancelReply : Type 0 where
  missing cancelled requested finished : CancelReply

module _ ⦃V : Valkey⦄ where
  open V use {Db, hget, exists, hset, expire, llen, lpush, lrem, zscore, zcard, zadd, zrem}

  unfoldable pub total_length : List String → Db → ℕ
  total_length [] d = 0
  total_length (key ∷ keys) d = llen d key + total_length keys d

  -- LLEN of the processing list, ZCARD of the retry set and LLEN of every shard
  unfoldable pub queue_depth : String → String → List String → Db → ℕ
  unfolding total_length
  queue_depth processing retry shards d = llen d processing + zcard d retry + total_length shards d

  create_job : String → String → String → String → ℕ → ℕ → String → Db → Db
  create_job job pending request shard now ttl job_id d = lpush pending job_id (
      expire job ttl (
        hset job
          (("status", "queued")
            ∷ ("request", request)
            ∷ ("error", "")
            ∷ ("result", "")
            ∷ ("attempts", "0")
            ∷ ("worker_id", "")
            ∷ ("lease_expires_ms", "0")
            ∷ ("cancel_requested", "0")
            ∷ ("shard", shard)
            ∷ ("created_at_ms", str now)
            ∷ ("updated_at_ms", str now)
            ∷ ("next_attempt_ms", "0")
            ∷ [])
          d))

  bind_key : String → String → String → ℕ → Db → Db
  bind_key idem request_hash job_id ttl d =
      expire idem ttl (hset idem (("request_hash", request_hash) ∷ ("job_id", job_id) ∷ []) d)

  unfoldable pub enqueue_script :
      String
      → String
      → String
      → String
      → String
      → List String
      → Bool
      → String
      → String
      → String
      → ℕ
      → ℕ
      → String
      → ℕ
      → ℕ
      → Db
      → EnqueueReply × Db
  unfolding create_job bind_key
  enqueue_script job pending idem processing retry shards use_idem request_hash request shard now
        ttl job_id idem_ttl max_depth d =
      if use_idem && exists d idem
      then (if not (or_else (hget d idem "request_hash") "" == request_hash)
          then (conflict (or_else (hget d idem "job_id") ""), d)
          else (existing (or_else (hget d idem "job_id") ""), d))
      else if leb max_depth (queue_depth processing retry shards d)
      then (full, d)
      else (let d' = create_job job pending request shard now ttl job_id d in
          (created job_id, if use_idem then bind_key idem request_hash job_id idem_ttl d' else d'))

  unfoldable pub cancel_script : String → String → String → String → ℕ → Db → CancelReply × Db
  cancel_script key pending retry job_id now d =
      let cancel = hset key (("status", "cancelled") ∷ ("updated_at_ms", str now) ∷ []) in
      if not (exists d key)
      then (missing, d)
      else if holds (hget d key "status") "queued"
      then (cancelled, cancel (lrem pending job_id d))
      else if holds (hget d key "status") "retrying"
      then (cancelled, cancel (zrem retry job_id d))
      else if holds (hget d key "status") "running"
      then (requested, hset key (("cancel_requested", "1") ∷ ("updated_at_ms", str now) ∷ []) d)
      else (finished, d)

  -- A due time that has not come: `not score or tonumber(score) > now_ms`.
  abbrev pub not_due : Option ℕ → ℕ → Bool
  not_due none now = Bool.true
  not_due (some score) now = ltb now score

  -- The ZREM behind the test of the score always removes the member that it has just found.
  unfoldable pub promote_script : String → String → String → String → ℕ → Db → ℕ × Db
  promote_script key retry pending job_id now d =
      if not (holds (hget d key "status") "retrying")
      then (0, zrem retry job_id d)
      else if not_due (zscore d retry job_id) now
      then (0, d)
      else (
        1,
        lpush pending job_id (
            hset key
              (("status", "queued") ∷ ("next_attempt_ms", "0") ∷ ("updated_at_ms", str now) ∷ [])
              (zrem retry job_id d)),
      )
