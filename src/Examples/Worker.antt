-- ===== src/Examples/Worker.antt =====
-- The worker at a concrete input (src/dalmatian/worker.py).
use Prim.Native.Char.{code}
use Prim.Native.String.{String, ◌++◌}
use text.Mathlib.TextLemmas.{nil-append, cons-append}
use dalmatian.Prelude.{
  Bool, ◌&&◌, ◌||◌, nat_eq, suc, ℕ, ◌+◌, ◌*◌, ◌-◌, ltb, [], if◌then◌else◌, none, ◌<◌, arith, ◌≡◌,
  refl, true, false,
}
use dalmatian.Jobs.Reads.{owns, cancel_requested}
use dalmatian.Worker.Heartbeat.{
  LeaseCalls, IsReasoned, EndsWell, heartbeats, renewals, cancellations, heartbeats-cancellations,
}
use dalmatian.Errors.{ok, Result, Raised, query_timeout, isinstance}
use dalmatian.Worker.{settle}
use dalmatian.Worker.Stopped.{IsStopped, settle-IsStopped}
use dalmatian.Worker.Settling.{undisturbed, still_running, is_fenced, settle_ends}
use dalmatian.Worker.Loop.{LoopCalls, run}
use dalmatian.Worker.Loop.Ended.{HasEnded, run-HasEnded}
use dalmatian.Worker.Loop.Queue.{TurnTimes, queue_calls}
use dalmatian.Jobs.Methods.World.{World}
use dalmatian.Worker.Shard.{worker_shard, host, FindsInside, worker_shard-ordinals}
use dalmatian.Examples.Jobs.{server, settings, running}
use dalmatian.Examples.Methods.{payloads, answer, claimed}

held : owns settings "a" "w1" 3000 running ≡ true
unfolding owns running
held = refl

settle_ends_example :
    still_running settings "a" "w1" (
      settle settings
        (λ a b. false)
        "a"
        "w1"
        (undisturbed (λ n. 3000) 1000)
        (Result.ok answer)
        claimed)
    ≡ false
unfolding is_fenced
settle_ends_example =
    settle_ends settings "a" "w1" (λ a b. false) (λ n. 3000) 1000 (Result.ok answer) claimed refl
      (λ n. held)

-- Python's `in` on the texts that are looked for.
abbrev has_prefix : String → String → Bool
has_prefix String.[] s = true
has_prefix (String.◌∷◌ c p) String.[] = false
has_prefix (String.◌∷◌ c p) (String.◌∷◌ d s) = nat_eq (code c) (code d) && has_prefix p s

abbrev is_within : String → String → Bool
is_within needle String.[] = has_prefix needle String.[]
is_within needle (String.◌∷◌ c s) = has_prefix needle (String.◌∷◌ c s) || is_within needle s

prefix_within : (p s : String) → has_prefix p s ≡ true → is_within p s ≡ true
prefix_within p String.[] h = h
prefix_within p (String.◌∷◌ c s) h = rw h refl

has_prefix-append : (p s : String) → has_prefix p (p ++ s) ≡ true
has_prefix-append String.[] s = refl
has_prefix-append (String.◌∷◌ c p) s = rw cons-append (ground (arith, has_prefix-append p s))

is_within-FindsInside : FindsInside is_within
unfolding FindsInside
is_within-FindsInside needle String.[] b =
    rw nil-append (prefix_within needle (needle ++ b) (has_prefix-append needle b))
is_within-FindsInside needle (String.◌∷◌ c a) b =
    rw cons-append (ground (arith, is_within-FindsInside needle a b))

worker_shard-ordinals_example :
    ((k : ℕ) → k < 8 → worker_shard is_within (host "dalmatian" (suc k)) none 8 ≡ k)
    × (worker_shard is_within (host "dalmatian" 0) none 8
        ≡ worker_shard is_within (host "dalmatian" 1) none 8)
    × ((n : ℕ) → 1 < 8 → n < 8 → worker_shard is_within (host "dalmatian" n) none 8 + 1 < 8)
worker_shard-ordinals_example = worker_shard-ordinals is_within "dalmatian" 8 is_within-FindsInside

-- A query that ran out of time, which nobody cancelled.
abbrev late : Raised
late = record {
  error_class = query_timeout;
  class_name = "QueryTimeout";
  message = "query exceeded 5 seconds";
}

settle-IsStopped_example :
    IsStopped settings "a" "w1" (cancel_requested settings "a" "w1" running) claimed (
      settle settings
        (λ a b. false)
        "a"
        "w1"
        (undisturbed (λ n. 3000) 1000)
        (Result.err late)
        claimed)
unfolding isinstance
settle-IsStopped_example =
    settle-IsStopped settings "a" "w1" (λ a b. false) (λ n. 3000) 1000 late claimed refl (λ n. held)

-- A lease that is renewed until the state reaches zero.
abbrev lease : LeaseCalls ℕ
lease = record {
  heartbeat = λ s. (ok (ltb 0 s), s - 1);
  cancel_requested = λ s. (ok false, s);
  cancel = λ s. (ok tt, s);
}

heartbeats-cancellations_example :
    let (stopped, s') = heartbeats lease 5 (record { env = 2; log = [] }) in
    IsReasoned s'.log
    × EndsWell stopped s'.log
    × (cancellations s'.log ≡ (if stopped then 1 else 0))
    × (stopped ≡ false → renewals s'.log ≡ 5)
heartbeats-cancellations_example = heartbeats-cancellations lease 5 2

-- Each turn takes twenty seconds; nothing waits to be reserved, and the stop event is set in the third.
abbrev turn_times : ℕ → TurnTimes World
turn_times k = record {
  reap_delay = λ job_id. 1000;
  reap_now = 3000 + 20000 * k;
  promote_now = 3001 + 20000 * k;
  reserve_before = 3002 + 20000 * k;
  reserve_now = 3003 + 20000 * k;
  others = λ w. w;
  schedule = undisturbed (λ n. 3004 + 20000 * k) 1000;
}

abbrev worker_loop : LoopCalls (ℕ × World)
worker_loop =
    queue_calls settings (λ a b. false) (λ job w. (ok answer, w)) "w1" 0 turn_times
      (λ s. (ok tt, s)) (λ s. (ok tt, s)) (λ k. ltb 1 k) (λ k. 20000 * k) 15000

run-HasEnded_example : HasEnded worker_loop (run worker_loop 3 (0, claimed))
unfolding queue_calls
run-HasEnded_example = run-HasEnded worker_loop 2 (0, claimed) (omega arith) refl
