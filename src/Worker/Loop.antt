-- ===== src/Worker/Loop.antt =====
-- `run` of src/dalmatian/worker.py: the turns of a worker until its stop event is set, and the end. The
-- queue's and the service's methods are operations of a state that may raise; `stopped` and `monotonic`
-- give what `stop.is_set()` and `time.monotonic()` (in milliseconds) answer in each turn.
pub mod Ended
pub mod Queue
use dalmatian.Prelude.{
  ℕ, zero, suc, ◌+◌, ◌≤◌, ◌<◌, ◌≡◌, ◌⊎◌, inl, inr, if_rule, refl, subst, sym, ap, Bool, true, false,
  Option, none, some, List, [], ◌∷◌, leb, if◌then◌else◌, arith,
}
use dalmatian.Errors.{Raised, Result, ok, err}
use dalmatian.Effects.{Action, ◌>>=◌, ◌>>◌, finally, lift}

pub record LoopCalls (E : Type 0) : Type 0 where
  -- queue.reap_stale, queue.depth, work_once, service.close and queue.close
  pub reap_stale : Action E ℕ
  pub depth : Action E ℕ
  pub work_once : Action E Bool
  pub close_service : Action E (Unit {0})
  pub close_queue : Action E (Unit {0})
  pub stopped : ℕ → Bool
  pub monotonic : ℕ → ℕ
  -- settings.worker_reap_interval_seconds
  pub interval : ℕ

-- A reap and a job with the time of their turn.
pub data LoopEvent : Type 0 where
  reaped : ℕ → Result ℕ → LoopEvent
  worked : ℕ → Result Bool → LoopEvent
  closed_service closed_queue : Result (Unit {0}) → LoopEvent

-- The newest event first.
pub record LoopRun (E : Type 0) : Type 0 where
  pub env : E
  pub next_reap : ℕ
  pub log : List LoopEvent

module _ {E : Type 0} (calls : LoopCalls E) where
  seen : {A : Type 0} → (Result A → LoopEvent) → Action E A → Action (LoopRun E) A
  seen event m s = let (r, e) = m s.env in (r, record s { env = e; log = event r ∷ s.log })

  -- The `try` of the turn: an exception is logged, and the next reap is an interval away all the same.
  reap : ℕ → LoopRun E → LoopRun E
  unfolding seen
  reap now s =
      let (_, s') =
        seen (LoopEvent.reaped now) (calls.reap_stale >>= λ n. calls.depth >> lift (ok n)) s in
      record s' { next_reap = now + calls.interval }

  reap_if_due : ℕ → LoopRun E → LoopRun E
  unfolding reap
  reap_if_due now s = let reaped = reap now s in if leb s.next_reap now then reaped else s

  turn : ℕ → Action (LoopRun E) Bool
  unfolding seen reap_if_due
  turn now s = seen (LoopEvent.worked now) calls.work_once (reap_if_due now s)

  -- The loop from turn `k` on, for as many turns as there is fuel: what it ends in.
  loop : ℕ → ℕ → LoopRun E → Option (Result (Unit {0}) × LoopRun E)
  unfolding turn
  loop zero k s = none
  loop (suc n) k s =
      let (r, s') = turn (calls.monotonic k) s in
      let rest = loop n (suc k) s' in
      if calls.stopped k then some (ok tt, s) else elim r [ ok b ↦ rest | err e ↦ some (err e, s') ]

  -- The `finally` of run: the service, then the queue.
  close_all : Action (LoopRun E) (Unit {0})
  unfolding seen
  close_all = seen closed_service calls.close_service >> seen closed_queue calls.close_queue

  closed : Option (Result (Unit {0}) × LoopRun E) → Option (Result (Unit {0}) × LoopRun E)
  unfolding close_all
  closed none = none
  closed (some (r, s)) = some (finally (lift r) close_all s)

  unfoldable pub run : ℕ → E → Option (Result (Unit {0}) × LoopRun E)
  unfolding loop closed
  run fuel env = closed (loop fuel 0 (record { env = env; next_reap = 0; log = [] }))
