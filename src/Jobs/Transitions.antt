-- ===== src/Jobs/Transitions.antt =====
-- The diagram of a job's states (src/dalmatian/jobs.py, JobStatus in src/dalmatian/models.py).
use dalmatian.Prelude.{String, ◌≡◌, Option, none, some, arith, eq_of_holds, eq_iff}
use dalmatian.Valkey.{Valkey}
use dalmatian.Valkey.Laws.{hash_laws, hget_absent}
use dalmatian.Jobs.Config.{Config}
use dalmatian.Jobs.Keys.{job_key-==, idempotency_name-job_key}
use dalmatian.Jobs.Scripts.Submit.{enqueue_script, cancel_script, promote_script}
use dalmatian.Jobs.Scripts.Lease.{
  claim_script, heartbeat_script, publish_script, complete_script, terminal_script,
}
use dalmatian.Jobs.Scripts.Retry.{retry_script, reap_script}
use dalmatian.Jobs.Steps.{Step, IsSound, after, field}

-- README.md's diagram, with the cancellation of a queued and of a retrying job, which it leaves out, and
-- the end of the record.
pub data Move (a b : Option String) : Type 0 where
  stay : b ≡ a → Move a b
  submit : a ≡ none → b ≡ some "queued" → Move a b
  start : a ≡ some "queued" → b ≡ some "running" → Move a b
  succeed : a ≡ some "running" → b ≡ some "succeeded" → Move a b
  fail : a ≡ some "running" → b ≡ some "failed" → Move a b
  retry : a ≡ some "running" → b ≡ some "retrying" → Move a b
  requeue : a ≡ some "retrying" → b ≡ some "queued" → Move a b
  cancel_queued : a ≡ some "queued" → b ≡ some "cancelled" → Move a b
  cancel_retrying : a ≡ some "retrying" → b ≡ some "cancelled" → Move a b
  cancel_running : a ≡ some "running" → b ≡ some "cancelled" → Move a b
  lapse : b ≡ none → Move a b

ruleset moves = (
  stay, submit, start, succeed, fail, retry, requeue, cancel_queued, cancel_retrying,
  cancel_running, lapse,
)

ruleset status_rules =
    (moves, hash_laws, job_key-==, idempotency_name-job_key, eq_of_holds, eq_iff, hget_absent)

module _ ⦃V : Valkey⦄ (q : Config) where
  open V use {Db, hget}

  pub after-Move :
      (s : Step) (d : Db) (i : String)
      → IsSound q s d
      → Move (field q d i "status") (field q (after q s d) i "status")
  unfolding after enqueue_script cancel_script promote_script claim_script heartbeat_script
      publish_script complete_script terminal_script retry_script reap_script
  after-Move (Step.enqueue j n o h r now) d i ok = grind (arith, status_rules)
  after-Move (Step.cancel j n now) d i ok = grind (arith, status_rules)
  after-Move (Step.promote j n now) d i ok = grind (arith, status_rules)
  after-Move (Step.pop n) d i ok = grind (arith, status_rules)
  after-Move (Step.claim j w now) d i ok = grind (arith, status_rules)
  after-Move (Step.heartbeat j w now) d i ok = grind (arith, status_rules)
  after-Move (Step.publish j w n k m a u now) d i ok = grind (arith, status_rules)
  after-Move (Step.complete j w r now) d i ok = grind (arith, status_rules)
  after-Move (Step.cancel_complete j w now) d i ok = grind (arith, status_rules)
  after-Move (Step.fail j w e now) d i ok = grind (arith, status_rules)
  after-Move (Step.retry j w e now next) d i ok = grind (arith, status_rules)
  after-Move (Step.reap j n l now next) d i ok = grind (arith, status_rules)
  after-Move (Step.lapse j) d i ok = grind (arith, status_rules)
