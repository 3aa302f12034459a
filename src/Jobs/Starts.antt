-- ===== src/Jobs/Starts.antt =====
-- How often a worker starts a job (src/dalmatian/jobs.py: `_CLAIM_SCRIPT` and the limit of attempts).
use dalmatian.Prelude.{
  ℕ, ◌+◌, ◌≤◌, ◌<◌, String, ◌≡◌, false, Bool, not, ◌&&◌, some, List, [], ◌∷◌, arith, holds,
  eq_of_holds, eq_refl, Bool-cases, inl, inr, if◌then◌else◌, eq_iff,
}
use dalmatian.Prelude.Decimal.{to_int-str, to_int_zero}
use dalmatian.Valkey.{Valkey}
use dalmatian.Valkey.Laws.{hash_laws, hget_absent}
use dalmatian.Jobs.Config.{Config}
use dalmatian.Jobs.Keys.{job_key-==, idempotency_name-job_key}
use dalmatian.Jobs.Scripts.Submit.{enqueue_script, cancel_script, promote_script}
use dalmatian.Jobs.Scripts.Lease.{
  claim_script, heartbeat_script, publish_script, complete_script, terminal_script,
}
use dalmatian.Jobs.Scripts.Retry.{retry_script, reap_script}
use dalmatian.Jobs.Frame.{subject, field-after_other, field-publish}
use dalmatian.Jobs.Steps.{Step, IsSound, after, run, field}
use dalmatian.Jobs.Histories.{IsHistory, IsUnused, run-IsLimited, unused-IsLimited}
use dalmatian.Jobs.Finished.{lapses, Retains}
use dalmatian.Jobs.Attempts.{attempts}

ruleset start_rules = (
  hash_laws, eq_refl, eq_iff, to_int-str, to_int_zero, hget_absent, job_key-==,
  idempotency_name-job_key,
)

module _ ⦃V : Valkey⦄ (q : Config) where
  open V use {Db}

  abbrev is_running : Db → String → Bool
  is_running d i = holds (field q d i "status") "running"

  -- How often the status of a job becomes "running" in a history.
  unfoldable pub starts : List Step → Db → String → ℕ
  starts [] d i = 0
  starts (s ∷ ss) d i =
      (if not (is_running d i) && is_running (after q s d) i then 1 else 0)
      + starts ss (after q s d) i

  Counts : Step → Db → String → Type 0
  Counts s d i =
      attempts q d i + (if not (is_running d i) && is_running (after q s d) i then 1 else 0)
      ≤ attempts q (after q s d) i

  unmoved :
      (s : Step) (d : Db) (i : String)
      → field q (after q s d) i "attempts" ≡ field q d i "attempts"
      → field q (after q s d) i "status" ≡ field q d i "status"
      → Counts s d i
  unfolding Counts
  unmoved s d i same_attempts same_status = ground arith

  -- A step about the job itself.
  own-Counts :
      (s : Step) (d : Db) (i : String)
      → IsSound q s d
      → lapses s i ≡ false
      → subject s ≡ some i
      → Counts s d i
  unfolding Counts subject lapses after holds enqueue_script cancel_script promote_script
      claim_script heartbeat_script publish_script complete_script terminal_script retry_script
      reap_script
  own-Counts (Step.enqueue j n o h r now) d i ok stays own = grind (arith, start_rules)
  own-Counts (Step.cancel j n now) d i ok stays own = grind (arith, start_rules)
  own-Counts (Step.promote j n now) d i ok stays own = grind (arith, start_rules)
  own-Counts (Step.pop n) d i ok stays own = absurd (cc)
  own-Counts (Step.claim j w now) d i ok stays own = grind (arith, start_rules)
  own-Counts (Step.heartbeat j w now) d i ok stays own = grind (arith, start_rules)
  own-Counts (Step.publish j w n k m a u now) d i ok stays own =
      let same = λ (f : String). field-publish q j w n k m a u now d i f ok in
      unmoved (Step.publish j w n k m a u now) d i (same "attempts") (same "status")
  own-Counts (Step.complete j w r now) d i ok stays own = grind (arith, start_rules)
  own-Counts (Step.cancel_complete j w now) d i ok stays own = grind (arith, start_rules)
  own-Counts (Step.fail j w e now) d i ok stays own = grind (arith, start_rules)
  own-Counts (Step.retry j w e now next) d i ok stays own = grind (arith, start_rules)
  own-Counts (Step.reap j n l now next) d i ok stays own = grind (arith, start_rules)
  own-Counts (Step.lapse j) d i ok stays own = grind (arith, eq_iff)

  after-Counts :
      (s : Step) (d : Db) (i : String) → IsSound q s d → lapses s i ≡ false → Counts s d i
  after-Counts s d i ok stays = elim (Bool-cases (holds (subject s) i)) [
    | inl own ↦ own-Counts s d i ok stays (eq_of_holds (subject s) i own)
    | inr other ↦
        let same = λ (f : String). field-after_other q s d i f ok other in
        unmoved s d i (same "attempts") (same "status")
  ]

  run-Counts :
      (ss : List Step) (d : Db) (i : String)
      → IsHistory q ss d
      → Retains ss i
      → attempts q d i + starts ss d i ≤ attempts q (run q ss d) i
  unfolding starts run Counts
  run-Counts [] d i h stays = omega arith
  run-Counts (s ∷ ss) d i h stays =
      omega (arith, after-Counts s d i h.0 stays.0, run-Counts ss (after q s d) i h.2 stays.1)

  -- In every history that begins without the job and in which its record does not lapse, the job's
  -- status becomes "running" at most as often as its record counts attempts, and so at most
  -- `max_attempts` times.
  pub starts_bounded :
      (ss : List Step) (d : Db) (i : String)
      → 0 < q.max_attempts
      → IsUnused q d i
      → IsHistory q ss d
      → Retains ss i
      → (starts ss d i ≤ attempts q (run q ss d) i) × (starts ss d i ≤ q.max_attempts)
  starts_bounded ss d i limit unused h stays =
      let counted = run-Counts ss d i h stays in
      let capped = (run-IsLimited q ss d i limit h (unused-IsLimited q d i limit unused)).capped in
      (omega arith, omega arith)
