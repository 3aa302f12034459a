-- ===== src/Jobs/Reads.antt =====
-- src/dalmatian/jobs.py: the methods of `ValkeyJobQueue` that only read: `owns`,
-- `cancel_requested` and `depth`.
use dalmatian.Prelude.{ℕ, String, Bool, ◌&&◌, holds, ltb}
use dalmatian.Valkey.{Valkey}
use dalmatian.Jobs.Config.{Config, job_key, processing_name, retry_name}
use dalmatian.Jobs.Scripts.Submit.{queue_depth}
use dalmatian.Jobs.Scripts.Lease.{number}
use dalmatian.Jobs.Steps.{shards, field}

module _ ⦃V : Valkey⦄ (q : Config) where
  open V use {Db}

  -- A running job of this worker, with a lease that has not run out.
  unfoldable pub owns : String → String → ℕ → Db → Bool
  owns job_id worker now d =
      holds (field q d job_id "status") "running"
      && (holds (field q d job_id "worker_id") worker
          && ltb now (number d (job_key q job_id) "lease_expires_ms"))

  unfoldable pub cancel_requested : String → String → Db → Bool
  cancel_requested job_id worker d =
      holds (field q d job_id "status") "running"
      && (holds (field q d job_id "worker_id") worker
          && holds (field q d job_id "cancel_requested") "1")

  unfoldable pub depth : Db → ℕ
  depth d = queue_depth (processing_name q) (retry_name q) (shards q) d
