-- ===== src/Jobs/Finished.antt =====
-- A job that has ended stays as it ended (src/dalmatian/jobs.py).
use dalmatian.Prelude.{
  String, ◌≡◌, refl, false, Bool, Option, some, ◌⊎◌, inl, inr, List, [], ◌∷◌, arith, ◌==◌, eq_iff,
  holds, eq_of_holds, Bool-cases, ◌∙◌, sym, subst,
}
use dalmatian.Valkey.{Valkey}
use dalmatian.Valkey.Laws.{hash_laws, hget_absent}
use dalmatian.Jobs.Config.{Config, job_key}
use dalmatian.Jobs.Scripts.Submit.{enqueue_script, cancel_script, promote_script}
use dalmatian.Jobs.Scripts.Lease.{
  claim_script, heartbeat_script, publish_script, complete_script, terminal_script,
}
use dalmatian.Jobs.Scripts.Retry.{retry_script, reap_script}
use dalmatian.Jobs.Frame.{subject, field-after_other, field-publish}
use dalmatian.Jobs.Steps.{Step, IsSound, after, run, field}
use dalmatian.Jobs.Histories.{IsHistory}

-- The step is not the one in which the record of this job lapses.
unfoldable pub lapses : Step → String → Bool
lapses (Step.lapse j) i = j == i
lapses _ i = false

abbrev pub Retains : List Step → String → Type 0
Retains [] i = Unit {0}
Retains (s ∷ ss) i = (lapses s i ≡ false) × Retains ss i

abbrev pub Ended : Option String → Type 0
Ended status = (status ≡ some "succeeded") ⊎ (status ≡ some "failed") ⊎ (status ≡ some "cancelled")

module _ ⦃V : Valkey⦄ (q : Config) where
  open V use {Db}

  abbrev pub IsFinished : Db → String → Type 0
  IsFinished d i = Ended (field q d i "status")

  own_frozen :
      (s : Step) (d : Db) (i f : String)
      → IsSound q s d
      → lapses s i ≡ false
      → subject s ≡ some i
      → IsFinished d i
      → field q (after q s d) i f ≡ field q d i f
  unfolding subject lapses holds after enqueue_script cancel_script promote_script claim_script
      heartbeat_script publish_script complete_script terminal_script retry_script reap_script
  own_frozen (Step.enqueue b n o h r now) d i f ok stays about done =
      absurd (grind (arith, hget_absent d (job_key q i)))
  own_frozen (Step.cancel b n now) d i f ok stays about done = grind (arith, hash_laws)
  own_frozen (Step.promote b n now) d i f ok stays about done = grind (arith, hash_laws)
  own_frozen (Step.pop n) d i f ok stays about done = absurd (cc)
  own_frozen (Step.claim b w now) d i f ok stays about done = grind (arith, hash_laws)
  own_frozen (Step.heartbeat b w now) d i f ok stays about done = grind (arith, hash_laws)
  own_frozen (Step.publish b w n k m a u now) d i f ok stays about done =
      field-publish q b w n k m a u now d i f ok
  own_frozen (Step.complete b w r now) d i f ok stays about done = grind (arith, hash_laws)
  own_frozen (Step.cancel_complete b w now) d i f ok stays about done = grind (arith, hash_laws)
  own_frozen (Step.fail b w e now) d i f ok stays about done = grind (arith, hash_laws)
  own_frozen (Step.retry b w e now next) d i f ok stays about done = grind (arith, hash_laws)
  own_frozen (Step.reap b n l now next) d i f ok stays about done = grind (arith, hash_laws)
  own_frozen (Step.lapse b) d i f ok stays about done = grind (arith, eq_iff)

  pub frozen :
      (s : Step) (d : Db) (i f : String)
      → IsSound q s d
      → lapses s i ≡ false
      → IsFinished d i
      → field q (after q s d) i f ≡ field q d i f
  frozen s d i f ok stays done = elim (Bool-cases (holds (subject s) i)) [
    | inl own ↦ own_frozen s d i f ok stays (eq_of_holds (subject s) i own) done
    | inr other ↦ field-after_other q s d i f ok other
  ]

  -- In every history that does not let the record lapse, a job that has succeeded, failed or been
  -- cancelled keeps its status, its result and every other field.
  pub run_frozen :
      (ss : List Step) (d : Db) (i f : String)
      → IsHistory q ss d
      → Retains ss i
      → IsFinished d i
      → field q (run q ss d) i f ≡ field q d i f
  unfolding run
  run_frozen [] d i f h stays done = refl
  run_frozen (s ∷ ss) d i f h stays done =
      run_frozen ss (after q s d) i f h.2 stays.1
        (subst Ended (sym (frozen s d i "status" h.0 stays.0 done)) done)
      ∙ frozen s d i f h.0 stays.0 done
