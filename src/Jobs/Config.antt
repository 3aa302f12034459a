-- ===== src/Jobs/Config.antt =====
-- src/dalmatian/jobs.py: the settings of `ValkeyJobQueue` and the keys that it derives from them.
-- Settings in seconds that are Python floats are given in milliseconds.
use Prim.Native.String.{◌++◌}
use dalmatian.Prelude.{ℕ, String}
use dalmatian.Prelude.Decimal.{str}

pub record Config : Type 0 where
  pub queue_name : String
  pub job_ttl_seconds : ℕ
  pub lease_seconds : ℕ
  pub max_attempts : ℕ
  pub affinity_shards : ℕ
  pub max_queue_depth : ℕ
  pub idempotency_ttl_seconds : ℕ
  pub retry_base_ms : ℕ
  pub retry_max_ms : ℕ

-- self._key(job_id)
unfoldable pub job_key : Config → String → String
job_key q job_id = q.queue_name ++ (":job:" ++ job_id)

-- self._pending(shard)
unfoldable pub pending_name : Config → ℕ → String
pending_name q shard = q.queue_name ++ (":shard:" ++ str shard)

unfoldable pub processing_name : Config → String
processing_name q = q.queue_name ++ ":processing"

unfoldable pub retry_name : Config → String
retry_name q = q.queue_name ++ ":retry"

unfoldable pub dead_name : Config → String
dead_name q = q.queue_name ++ ":dead"

-- self._idempotency_key(key), given the SHA-256 digest of the key
unfoldable pub idempotency_name : Config → String → String
idempotency_name q digest = q.queue_name ++ (":idempotency:" ++ digest)
