-- ===== src/Worker/Loop/Queue.antt =====
-- The calls of `run` on the job queue (src/dalmatian/worker.py), with the methods of the queue and
-- `work_once`, and the server's answers: no call raises here.
use dalmatian.Prelude.{ℕ, suc, String, Bool}
use dalmatian.Valkey.{Valkey}
use dalmatian.Errors.{Result, ok}
use dalmatian.Effects.{Action}
use dalmatian.Models.{QueryResult}
use dalmatian.Jobs.Config.{Config}
use dalmatian.Jobs.Reads.{depth}
use dalmatian.Jobs.Methods.World.{Payloads, World}
use dalmatian.Jobs.Methods.Reserve.{ReservedJob}
use dalmatian.Jobs.Methods.Finish.{reap_stale}
use dalmatian.Worker.{Schedule, work_once}
use dalmatian.Worker.Loop.{LoopCalls}

-- The times of a turn's calls, the delays of its retries, and what the others do in between.
pub record TurnTimes (W : Type 0) : Type 0 where
  pub reap_delay : String → ℕ
  pub reap_now : ℕ
  pub promote_now : ℕ
  pub reserve_before : ℕ
  pub reserve_now : ℕ
  pub others : W → W
  pub schedule : Schedule W

module _ ⦃V : Valkey⦄ ⦃P : Payloads⦄ (q : Config) (is_in : String → String → Bool)
    (execute : ReservedJob → World → Result (QueryResult P.Row) × World) (worker_id : String)
    (shard : ℕ) (times : ℕ → TurnTimes World) where
  -- The state counts the turns, and the database has what all of them did to it.
  reap_at : Action (ℕ × World) ℕ
  reap_at (k, w) =
      let t = times k in
      let (reaped, w') = reap_stale q t.reap_delay t.reap_now t.promote_now w in
      (ok reaped, (k, w'))

  work_at : Action (ℕ × World) Bool
  work_at (k, w) =
      let t = times k in
      let (worked, w') =
        work_once q is_in execute worker_id shard t.reserve_before t.reserve_now t.schedule
          (t.others w) in
      (ok worked, (suc k, w'))

  unfoldable pub queue_calls :
      Action (ℕ × World) (Unit {0})
      → Action (ℕ × World) (Unit {0})
      → (ℕ → Bool)
      → (ℕ → ℕ)
      → ℕ
      → LoopCalls (ℕ × World)
  unfolding reap_at work_at
  queue_calls close_service close_queue stopped monotonic interval = record {
    reap_stale = reap_at;
    depth = λ (k, w). (ok (depth q w.db), (k, w));
    work_once = work_at;
    close_service = close_service;
    close_queue = close_queue;
    stopped = stopped;
    monotonic = monotonic;
    interval = interval;
  }
