-- ===== src/Worker.antt =====
-- src/dalmatian/worker.py: what a worker does with a job that it has reserved. The service is an
-- argument: its answer to `execute` is a value. So is what other processes do to the queue between
-- two calls, and the time of each call.
pub mod Settling
pub mod Stopped
pub mod Shard
pub mod Heartbeat
pub mod Loop
use Prim.Native.String.{◌++◌}
use dalmatian.Prelude.{
  ℕ, ◌+◌, String, Bool, true, false, ◌||◌, Option, none, some, List, [], ◌∷◌, if◌then◌else◌,
}
use dalmatian.Valkey.{Valkey}
use dalmatian.Errors.{
  Raised, Result, ok, err, isinstance, isinstance_any, query_cancelled, query_timeout,
  query_rejected, commit_fenced, value_error, file_exists_error, retryable_query_error, os_error,
  connection_error,
}
use dalmatian.Models.{QueryResult}
use dalmatian.Jobs.Config.{Config}
use dalmatian.Jobs.Reads.{owns, cancel_requested}
use dalmatian.Jobs.Methods.World.{Payloads, World}
use dalmatian.Jobs.Methods.Reserve.{ReservedJob, reserve}
use dalmatian.Jobs.Methods.Finish.{complete, cancel_complete, fail}

any_needle : (String → String → Bool) → List String → String → Bool
any_needle is_in [] text = false
any_needle is_in (needle ∷ needles) text = is_in needle text || any_needle is_in needles text

-- needle in text.lower() is an argument.
unfoldable pub is_retryable : (String → String → Bool) → Raised → Bool
unfolding any_needle
is_retryable is_in e =
    if isinstance_any e.error_class
      (query_rejected ∷ query_timeout ∷ value_error ∷ file_exists_error ∷ [])
    then false
    else if isinstance_any e.error_class (retryable_query_error ∷ os_error ∷ connection_error ∷ [])
    then true
    else any_needle is_in
        ("py4jnetworkerror" ∷ "executorlostfailure" ∷ "fetchfailed" ∷ "connection refused"
          ∷ "temporarily unavailable" ∷ "connection reset" ∷ [])
        (e.class_name ++ (": " ++ e.message))

-- The time of each call and what the others do before it. The first call is number 0.
pub record Schedule (W : Type 0) : Type 0 where
  pub now : ℕ → ℕ
  pub others : ℕ → W → W
  pub delay : ℕ

module _ ⦃V : Valkey⦄ ⦃P : Payloads⦄ (q : Config) (is_in : String → String → Bool) where
  module _ (job_id worker_id : String) (s : Schedule World) where
    asked_to_cancel : World → Bool
    asked_to_cancel w = cancel_requested q job_id worker_id w.db

    is_owner : ℕ → World → Bool
    is_owner n w = owns q job_id worker_id (s.now n) w.db

    give_up : ℕ → World → World
    give_up n w = (cancel_complete q job_id worker_id (s.now n) (s.others n w)).1

    fail_if_owned : ℕ → String → Bool → String → World → World
    unfolding is_owner
    fail_if_owned n message retryable class_name w =
        let w' = s.others n w in
        if is_owner n w'
        then (fail q job_id worker_id message retryable (some class_name) s.delay (s.now (n + 1))
            (s.now (n + 1)) (s.others (n + 1) w')).1
        else w'

    -- `complete` was refused: perhaps because of a cancellation.
    give_up_if_asked : ℕ → World → World
    unfolding asked_to_cancel give_up
    give_up_if_asked n w =
        let w' = s.others n w in if asked_to_cancel w' then give_up (n + 1) w' else w'

    complete_or_give_up : ℕ → QueryResult P.Row → World → World
    unfolding give_up_if_asked
    complete_or_give_up n result w =
        let reply = complete q job_id worker_id result (s.now n) (s.others n w) in
        if reply.0 then reply.1 else give_up_if_asked (n + 1) reply.1

    -- except QueryCancelled
    after_cancelled : World → World
    unfolding asked_to_cancel give_up fail_if_owned
    after_cancelled w =
        let w' = s.others 0 w in
        if asked_to_cancel w'
        then give_up 1 w'
        else fail_if_owned 1 "query was cancelled" false "QueryCancelled" w'

    -- The branches of work_once after service.execute: the first `except` that fits, and `else`.
    unfoldable pub settle : Result (QueryResult P.Row) → World → World
    unfolding asked_to_cancel give_up fail_if_owned give_up_if_asked complete_or_give_up
        after_cancelled
    settle (err e) w =
        if isinstance e.error_class query_cancelled
        then after_cancelled w
        else if isinstance e.error_class commit_fenced
        then give_up_if_asked 0 w
        else fail_if_owned 0 e.message (is_retryable is_in e) e.class_name w
    settle (ok result) w =
        let w' = s.others 0 w in
        if asked_to_cancel w' then give_up 1 w' else complete_or_give_up 1 result w'

  -- `execute` stands for service.execute, with what the heartbeats and the others do meanwhile.
  work_on :
      (ReservedJob → World → Result (QueryResult P.Row) × World)
      → String
      → Schedule World
      → Option ReservedJob × World
      → Bool × World
  work_on execute worker_id s (none, w) = (false, w)
  work_on execute worker_id s (some job, w) =
      let (answer, w') = execute job w in (true, settle job.id worker_id s answer w')

  unfoldable pub work_once :
      (ReservedJob → World → Result (QueryResult P.Row) × World)
      → String
      → ℕ
      → ℕ
      → ℕ
      → Schedule World
      → World
      → Bool × World
  unfolding work_on
  work_once execute worker_id shard before now s w =
      work_on execute worker_id s (reserve q worker_id shard before now w)
