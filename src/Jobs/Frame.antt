-- ===== src/Jobs/Frame.antt =====
-- A step about one job leaves the records of all other jobs alone (src/dalmatian/jobs.py).
use dalmatian.Prelude.{ℕ, String, ◌≡◌, false, Option, none, some, arith, holds}
use dalmatian.Valkey.{Valkey}
use dalmatian.Valkey.Laws.{hash_laws}
use dalmatian.Jobs.Config.{Config}
use dalmatian.Jobs.Keys.{job_key-==, idempotency_name-job_key}
use dalmatian.Jobs.Scripts.Submit.{enqueue_script, cancel_script, promote_script}
use dalmatian.Jobs.Scripts.Lease.{
  claim_script, heartbeat_script, publish_script, complete_script, terminal_script,
}
use dalmatian.Jobs.Scripts.Retry.{retry_script, reap_script}
use dalmatian.Jobs.Steps.{Step, IsSound, IsOutputKey, after, field}

-- The job that a step is about; moving an entry between lists is about no record.
unfoldable pub subject : Step → Option String
subject (Step.enqueue j n o h r now) = some j
subject (Step.cancel j n now) = some j
subject (Step.promote j n now) = some j
subject (Step.pop n) = none
subject (Step.claim j w now) = some j
subject (Step.heartbeat j w now) = some j
subject (Step.publish j w n k m a u now) = some j
subject (Step.complete j w r now) = some j
subject (Step.cancel_complete j w now) = some j
subject (Step.fail j w e now) = some j
subject (Step.retry j w e now next) = some j
subject (Step.reap j n l now next) = some j
subject (Step.lapse j) = some j

ruleset frame_rules = (hash_laws, job_key-==, idempotency_name-job_key)

module _ ⦃V : Valkey⦄ (q : Config) where
  open V use {Db}

  -- A publication writes no job's record, its own job's included.
  pub field-publish :
      (j w : String) (n : ℕ) (k m a u : String) (now : ℕ) (d : Db) (i f : String)
      → IsOutputKey q k
      → field q (after q (Step.publish j w n k m a u now) d) i f ≡ field q d i f
  unfolding after publish_script
  field-publish j w n k m a u now d i f ok = grind (arith, hash_laws, ok i)

  -- No field of a job changes in a step that is about another job.
  pub field-after_other :
      (s : Step) (d : Db) (i f : String)
      → IsSound q s d
      → holds (subject s) i ≡ false
      → field q (after q s d) i f ≡ field q d i f
  unfolding subject holds after enqueue_script cancel_script promote_script claim_script
      heartbeat_script publish_script complete_script terminal_script retry_script reap_script
  field-after_other (Step.enqueue j n o h r now) d i f ok other = grind (arith, frame_rules)
  field-after_other (Step.cancel j n now) d i f ok other = grind (arith, frame_rules)
  field-after_other (Step.promote j n now) d i f ok other = grind (arith, frame_rules)
  field-after_other (Step.pop n) d i f ok other = grind (arith, frame_rules)
  field-after_other (Step.claim j w now) d i f ok other = grind (arith, frame_rules)
  field-after_other (Step.heartbeat j w now) d i f ok other = grind (arith, frame_rules)
  field-after_other (Step.publish j w n k m a u now) d i f ok other = grind (arith, frame_rules)
  field-after_other (Step.complete j w r now) d i f ok other = grind (arith, frame_rules)
  field-after_other (Step.cancel_complete j w now) d i f ok other = grind (arith, frame_rules)
  field-after_other (Step.fail j w e now) d i f ok other = grind (arith, frame_rules)
  field-after_other (Step.retry j w e now next) d i f ok other = grind (arith, frame_rules)
  field-after_other (Step.reap j n l now next) d i f ok other = grind (arith, frame_rules)
  field-after_other (Step.lapse j) d i f ok other = grind (arith, frame_rules)
