-- ===== src/Examples/Jobs.antt =====
-- The job queue on the database in memory (src/dalmatian/jobs.py).
use dalmatian.Prelude.{
  ◌≤◌, ◌≡◌, refl, false, some, none, inl, List, [], ◌∷◌, arith, contains, holds,
}
use dalmatian.Prelude.Decimal.{str, to_int}
use dalmatian.Valkey.{Valkey}
use dalmatian.Valkey.Memory.{Store, empty, memory}
use dalmatian.Jobs.Config.{Config, job_key, processing_name, pending_name}
use dalmatian.Jobs.Scripts.Submit.{enqueue_script, queue_depth}
use dalmatian.Jobs.Scripts.Lease.{claim_script, complete_script}
use dalmatian.Jobs.Steps.{Step, after, run, field, shards_below}
use dalmatian.Jobs.Transitions.{Move, after-Move}
use dalmatian.Jobs.Reads.{owns}
use dalmatian.Jobs.Fencing.{WorkerStep, as_step, after-as_step_unowned}
use dalmatian.Jobs.Attempts.{attempts}
use dalmatian.Jobs.Placement.{IsPlaced}
use dalmatian.Jobs.Histories.{never_lost}
use dalmatian.Jobs.Starts.{starts, starts_bounded}
use dalmatian.Jobs.Finished.{lapses, run_frozen}

instance abbrev pub server : Valkey
server = memory

abbrev pub settings : Config
settings = record {
  queue_name = "q";
  job_ttl_seconds = 86400;
  lease_seconds = 60;
  max_attempts = 3;
  affinity_shards = 2;
  max_queue_depth = 10;
  idempotency_ttl_seconds = 86400;
  retry_base_ms = 2000;
  retry_max_ms = 60000;
}

-- Two clients, two workers: the job "a" of shard 1 is claimed by "w1".
abbrev started : List Step
started = Step.enqueue "a" 1 none "hash" "{}" 1000 ∷ Step.pop 1 ∷ Step.claim "a" "w1" 2000 ∷ []

-- What the tests compute with.
unfoldable pub running : Store
unfolding run after enqueue_script claim_script shards_below job_key str contains processing_name
    queue_depth pending_name holds to_int
running = run settings started empty

done : Store
unfolding running complete_script
done = after settings (Step.complete "a" "w1" "42" 3000) running

running_status : field settings running "a" "status" ≡ some "running"
unfolding running
running_status = refl

done_status : field settings done "a" "status" ≡ some "succeeded"
unfolding done
done_status = refl

after-Move_example :
    Move
      (field settings running "a" "status")
      (field settings (after settings (Step.complete "a" "w1" "42" 3000) running) "a" "status")
after-Move_example = after-Move settings (Step.complete "a" "w1" "42" 3000) running "a" tt

unowned : owns settings "a" "w2" 3000 running ≡ false
unfolding running owns
unowned = refl

after-as_step_unowned_example :
    after settings (as_step "a" "w2" 3000 (WorkerStep.complete "7")) running ≡ running
after-as_step_unowned_example =
    after-as_step_unowned settings running "a" "w2" 3000 (WorkerStep.complete "7") unowned

never_lost_example : IsPlaced settings (run settings started empty) "a"
never_lost_example = never_lost settings started empty "a" refl (refl, tt, (tt, tt, (tt, tt, tt)))

starts_bounded_example :
    (starts settings started empty "a" ≤ attempts settings (run settings started empty) "a")
    × (starts settings started empty "a" ≤ 3)
unfolding lapses
starts_bounded_example =
    starts_bounded settings started empty "a" (omega arith) refl (refl, tt, (tt, tt, (tt, tt, tt)))
      (refl, (refl, (refl, tt)))

-- It is started once.
starts_once : starts settings started empty "a" ≡ 1
unfolding starts holds after enqueue_script queue_depth job_key claim_script contains
    processing_name pending_name str
starts_once = refl

-- What late callers try after the end.
abbrev late : List Step
late = Step.claim "a" "w2" 4000 ∷ Step.complete "a" "w1" "43" 4000 ∷ []

run_frozen_example :
    field settings (run settings late done) "a" "result" ≡ field settings done "a" "result"
unfolding lapses
run_frozen_example =
    run_frozen settings late done "a" "result" (tt, tt, (tt, tt, tt)) (refl, (refl, tt))
      (inl done_status)
