-- ===== src/Jobs/Attempts.antt =====
-- How often a job is started (src/dalmatian/jobs.py).
use dalmatian.Prelude.{
  ℕ, String, ◌≡◌, ◌≤◌, ◌<◌, true, some, arith, holds, eq_of_holds, eq_refl, Bool-cases, inl, inr,
}
use dalmatian.Prelude.Decimal.{to_int-str, to_int_zero}
use dalmatian.Valkey.{Valkey}
use dalmatian.Valkey.Laws.{hash_laws}
use dalmatian.Jobs.Config.{Config, job_key}
use dalmatian.Jobs.Scripts.Submit.{enqueue_script, cancel_script, promote_script}
use dalmatian.Jobs.Scripts.Lease.{
  number, claim_script, heartbeat_script, publish_script, complete_script, terminal_script,
}
use dalmatian.Jobs.Scripts.Retry.{retry_script, reap_script}
use dalmatian.Jobs.Frame.{subject, field-after_other, field-publish}
use dalmatian.Jobs.Steps.{Step, IsSound, after, field}

module _ ⦃V : Valkey⦄ (q : Config) where
  open V use {Db}

  abbrev pub attempts : Db → String → ℕ
  attempts d i = number d (job_key q i) "attempts"

  -- A job that waits has an attempt left; one that runs or has ended has not had too many.
  pub record IsLimited (d : Db) (i : String) : Type 0 where
    pub capped : attempts d i ≤ q.max_attempts
    pub queued : holds (field q d i "status") "queued" ≡ true → attempts d i < q.max_attempts
    pub retrying : holds (field q d i "status") "retrying" ≡ true → attempts d i < q.max_attempts

ruleset attempt_rules = (hash_laws, eq_refl, to_int-str, to_int_zero)

module _ ⦃V : Valkey⦄ (q : Config) (limit : 0 < q.max_attempts) where
  open V use {Db}

  kept :
      (s : Step) (d : Db) (i : String)
      → field q (after q s d) i "attempts" ≡ field q d i "attempts"
      → field q (after q s d) i "status" ≡ field q d i "status"
      → IsLimited q d i
      → IsLimited q (after q s d) i
  kept s d i same_attempts same_status v = ground arith

  -- A step about the job itself.
  own-IsLimited :
      (s : Step) (d : Db) (i : String)
      → IsSound q s d
      → subject s ≡ some i
      → IsLimited q d i
      → IsLimited q (after q s d) i
  unfolding subject after holds enqueue_script cancel_script promote_script claim_script
      heartbeat_script publish_script complete_script terminal_script retry_script reap_script
  own-IsLimited (Step.enqueue j n o h r now) d i ok own v = grind (arith, attempt_rules)
  own-IsLimited (Step.cancel j n now) d i ok own v = grind (arith, attempt_rules)
  own-IsLimited (Step.promote j n now) d i ok own v = grind (arith, attempt_rules)
  own-IsLimited (Step.pop n) d i ok own v = grind (arith, attempt_rules)
  own-IsLimited (Step.claim j w now) d i ok own v = grind (arith, attempt_rules)
  own-IsLimited (Step.heartbeat j w now) d i ok own v = grind (arith, attempt_rules)
  own-IsLimited (Step.publish j w n k m a u now) d i ok own v =
      let same = λ (f : String). field-publish q j w n k m a u now d i f ok in
      kept (Step.publish j w n k m a u now) d i (same "attempts") (same "status") v
  own-IsLimited (Step.complete j w r now) d i ok own v = grind (arith, attempt_rules)
  own-IsLimited (Step.cancel_complete j w now) d i ok own v = grind (arith, attempt_rules)
  own-IsLimited (Step.fail j w e now) d i ok own v = grind (arith, attempt_rules)
  own-IsLimited (Step.retry j w e now next) d i ok own v = grind (arith, attempt_rules)
  own-IsLimited (Step.reap j n l now next) d i ok own v = grind (arith, attempt_rules)
  own-IsLimited (Step.lapse j) d i ok own v = grind (arith, attempt_rules)

  -- Every step keeps every job within its attempts.
  pub after-IsLimited :
      (s : Step) (d : Db) (i : String)
      → IsSound q s d
      → IsLimited q d i
      → IsLimited q (after q s d) i
  after-IsLimited s d i ok v = elim (Bool-cases (holds (subject s) i)) [
    | inl own ↦ own-IsLimited s d i ok (eq_of_holds (subject s) i own) v
    | inr other ↦
        let same = λ (f : String). field-after_other q s d i f ok other in
        kept s d i (same "attempts") (same "status") v
  ]
