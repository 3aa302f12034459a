-- ===== src/Jobs/Fencing.antt =====
-- A worker that does not hold the lease changes nothing (src/dalmatian/jobs.py).
use dalmatian.Prelude.{ℕ, String, ◌≡◌, false, arith}
use dalmatian.Valkey.{Valkey}
use dalmatian.Jobs.Config.{Config}
use dalmatian.Jobs.Scripts.Lease.{
  heartbeat_script, publish_script, complete_script, terminal_script,
}
use dalmatian.Jobs.Scripts.Retry.{retry_script}
use dalmatian.Jobs.Steps.{Step, after}
use dalmatian.Jobs.Reads.{owns}

-- The steps that a worker takes for a job that it holds, with the job, the worker and the time.
pub data WorkerStep (job_id worker : String) (now : ℕ) : Type 0 where
  heartbeat : WorkerStep job_id worker now
  publish : ℕ → String → String → String → String → WorkerStep job_id worker now
  complete : String → WorkerStep job_id worker now
  cancel_complete : WorkerStep job_id worker now
  fail : String → WorkerStep job_id worker now
  retry : String → ℕ → WorkerStep job_id worker now

unfoldable pub as_step : (j w : String) (now : ℕ) → WorkerStep j w now → Step
as_step j w now heartbeat = Step.heartbeat j w now
as_step j w now (publish n k m a u) = Step.publish j w n k m a u now
as_step j w now (complete r) = Step.complete j w r now
as_step j w now cancel_complete = Step.cancel_complete j w now
as_step j w now (fail e) = Step.fail j w e now
as_step j w now (retry e next) = Step.retry j w e now next

module _ ⦃V : Valkey⦄ (q : Config) (d : V.Db) (j w : String) (now : ℕ) where
  -- Without a running job, its ownership and a live lease, no step of a worker has an effect.
  pub after-as_step_unowned :
      (s : WorkerStep j w now) → owns q j w now d ≡ false → after q (as_step j w now s) d ≡ d
  unfolding owns after as_step heartbeat_script publish_script complete_script terminal_script
      retry_script
  after-as_step_unowned heartbeat h = ground arith
  after-as_step_unowned (publish n k m a u) h = ground arith
  after-as_step_unowned (complete r) h = ground arith
  after-as_step_unowned cancel_complete h = ground arith
  after-as_step_unowned (fail e) h = ground arith
  after-as_step_unowned (retry e next) h = ground arith
