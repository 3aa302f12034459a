-- ===== src/Worker/Loop/Ended.antt =====
-- How a worker's loop ends, and what it has done by then (`run` of src/dalmatian/worker.py).
use dalmatian.Prelude.{
  ℕ, zero, suc, ◌+◌, ◌≤◌, ◌<◌, ◌≡◌, if_rule, refl, subst, sym, Bool, true, false, Option, none,
  some, List, [], ◌∷◌, arith,
}
use dalmatian.Errors.{Result, ok, err}
use dalmatian.Worker.Loop.{
  LoopCalls, LoopEvent, LoopRun, closed_service, closed_queue, seen, reap, reap_if_due, turn, loop,
  close_all, closed, run,
}

-- The time of the newest reap.
unfoldable pub latest : List LoopEvent → Option ℕ
latest [] = none
latest (LoopEvent.reaped t r ∷ log) = some t
latest (_ ∷ log) = latest log

unfoldable pub IsDue : ℕ → ℕ → Option ℕ → Type 0
IsDue interval t none = Unit
IsDue interval t (some p) = p + interval ≤ t

unfoldable pub IsFresh : ℕ → ℕ → Option ℕ → Type 0
IsFresh interval t none = ⊥
IsFresh interval t (some p) = t < p + interval

-- The exception of the newest job.
unfoldable pub raised_by : List LoopEvent → Result (Unit {0})
raised_by (LoopEvent.worked t (err e) ∷ log) = err e
raised_by (LoopEvent.reaped t r ∷ log) = raised_by log
raised_by _ = ok tt

-- Turns only: a reap comes an interval after the one before it or later, no job is taken when the newest
-- reap is an interval old, and nothing is done after a job that raised.
unfoldable pub IsPaced : ℕ → List LoopEvent → Type 0
IsPaced interval [] = Unit
IsPaced interval (LoopEvent.reaped t r ∷ log) =
    IsDue interval t (latest log) × (raised_by log ≡ ok tt) × IsPaced interval log
IsPaced interval (LoopEvent.worked t r ∷ log) =
    IsFresh interval t (latest log) × (raised_by log ≡ ok tt) × IsPaced interval log
IsPaced interval (_ ∷ log) = ⊥

-- The jobs taken, which number the turns.
unfoldable pub works : List LoopEvent → ℕ
works [] = 0
works (LoopEvent.worked t r ∷ log) = works log + 1
works (_ ∷ log) = works log

-- Turns only: what is done in a turn has the time of that turn, in which the stop event was not set.
unfoldable pub IsTurned : {E : Type 0} → LoopCalls E → List LoopEvent → Type 0
IsTurned calls [] = Unit
IsTurned calls (LoopEvent.reaped t r ∷ log) =
    (t ≡ calls.monotonic (works log)) × (calls.stopped (works log) ≡ false) × IsTurned calls log
IsTurned calls (LoopEvent.worked t r ∷ log) =
    (t ≡ calls.monotonic (works log)) × (calls.stopped (works log) ≡ false) × IsTurned calls log
IsTurned calls (_ ∷ log) = ⊥

-- The next reap is an interval after the newest.
IsNext : ℕ → ℕ → Option ℕ → Type 0
IsNext interval next none = next ≡ 0
IsNext interval next (some p) = next ≡ p + interval

module _ (interval now next : ℕ) where
  next-IsDue :
      (newest : Option ℕ) → IsNext interval next newest → next ≤ now → IsDue interval now newest
  unfolding IsNext IsDue
  next-IsDue none h le = tt
  next-IsDue (some p) h le = omega arith

  next-IsFresh :
      (newest : Option ℕ) → IsNext interval next newest → now < next → IsFresh interval now newest
  unfolding IsNext IsFresh
  next-IsFresh none h lt = omega arith
  next-IsFresh (some p) h lt = omega arith

-- The end of run: the service is closed after the turns, and then the queue unless that raised. What a
-- close raises takes the place of what the newest job raised.
unfoldable pub closing_log : Result (Unit {0}) → Result (Unit {0}) → List LoopEvent → List LoopEvent
closing_log (ok u) queue turns = closed_queue queue ∷ closed_service (ok u) ∷ turns
closing_log (err e) queue turns = closed_service (err e) ∷ turns

unfoldable pub closing_result :
    Result (Unit {0}) → Result (Unit {0}) → Result (Unit {0}) → Result (Unit {0})
closing_result (err e) queue r = err e
closing_result (ok u) (err e) r = err e
closing_result (ok u) (ok v) r = r

-- The turns, whose jobs end when one raises or else with the stop event set, and the closing.
unfoldable pub HasEnded :
    {E : Type 0} → LoopCalls E → Option (Result (Unit {0}) × LoopRun E) → Type 0
HasEnded calls none = ⊥
HasEnded calls (some (r, s)) =
    (turns : List LoopEvent) × (service : Result (Unit {0})) × (queue : Result (Unit {0})) × IsPaced
      calls.interval turns
    × IsTurned calls turns
    × (raised_by turns ≡ ok tt → calls.stopped (works turns) ≡ true)
    × (s.log ≡ closing_log service queue turns)
    × (r ≡ closing_result service queue (raised_by turns))

module _ {E : Type 0} (calls : LoopCalls E) (positive : 1 ≤ calls.interval) where
  -- The state before turn `k`, and within it.
  record IsKept (k : ℕ) (s : LoopRun E) : Type 0 where
    pub paced : IsPaced calls.interval s.log
    pub next : IsNext calls.interval s.next_reap (latest s.log)
    pub turned : IsTurned calls s.log
    pub counted : works s.log ≡ k

  reap_if_due-IsKept :
      (k : ℕ) (s : LoopRun E)
      → calls.stopped k ≡ false
      → IsKept k s
      → raised_by s.log ≡ ok tt
      → let s' = reap_if_due calls (calls.monotonic k) s in
        IsKept k s'
        × IsFresh calls.interval (calls.monotonic k) (latest s'.log)
        × (raised_by s'.log ≡ ok tt)
  unfolding reap_if_due reap seen IsPaced IsNext latest IsDue IsFresh raised_by IsTurned works
  reap_if_due-IsKept k s goes h calm = ground (
    arith,
    next-IsDue calls.interval (calls.monotonic k) s.next_reap (latest s.log),
    next-IsFresh calls.interval (calls.monotonic k) s.next_reap (latest s.log),
  )

  -- One turn; it ends the loop exactly if the job raised.
  turn-IsKept :
      (k : ℕ) (s : LoopRun E)
      → calls.stopped k ≡ false
      → IsKept k s
      → raised_by s.log ≡ ok tt
      → let (r, s') = turn calls (calls.monotonic k) s in
        IsKept (suc k) s' × (raised_by s'.log ≡ elim r [ ok b ↦ ok tt | err e ↦ err e ])
  unfolding turn seen IsPaced IsNext latest raised_by IsTurned works
  turn-IsKept k s goes h calm =
      let (kept, fresh, calm') = reap_if_due-IsKept k s goes h calm in ground arith

  -- The loop ended, after the turns of its log.
  Ended : Option (Result (Unit {0}) × LoopRun E) → Type 0
  Ended none = ⊥
  Ended (some (r, s)) =
      IsPaced calls.interval s.log
      × IsTurned calls s.log
      × (raised_by s.log ≡ ok tt → calls.stopped (works s.log) ≡ true)
      × (r ≡ raised_by s.log)

  turn-Ended :
      (k : ℕ) (r : Result Bool) (s : LoopRun E) (rest : Option (Result (Unit {0}) × LoopRun E))
      → IsKept k s
      → raised_by s.log ≡ elim r [ ok b ↦ ok tt | err e ↦ err e ]
      → (raised_by s.log ≡ ok tt → Ended rest)
      → Ended (elim r [ ok b ↦ rest | err e ↦ some (err e, s) ])
  unfolding Ended
  turn-Ended k (ok b) s rest h calm go = go calm
  turn-Ended k (err e) s rest h calm go = (h.paced, h.turned, (λ c. absurd (cc)), sym calm)

  stopped-Ended :
      (k : ℕ) (s : LoopRun E)
      → calls.stopped k ≡ true
      → IsKept k s
      → raised_by s.log ≡ ok tt
      → Ended (some (ok tt, s))
  unfolding Ended
  stopped-Ended k s stop h calm =
      (h.paced, h.turned, (λ c. subst (λ i. calls.stopped i ≡ true) (sym h.counted) stop), sym calm)

  loop-Ended :
      (n k : ℕ) (s : LoopRun E)
      → calls.stopped (k + n) ≡ true
      → IsKept k s
      → raised_by s.log ≡ ok tt
      → Ended (loop calls (suc n) k s)
  unfolding loop Ended
  loop-Ended zero k s stop h calm =
      if_rule Ended (calls.stopped k) (λ b. stopped-Ended k s b h calm) (λ b. ground arith)
  loop-Ended (suc n) k s stop h calm =
      let (r, s') = turn calls (calls.monotonic k) s in
      if_rule Ended (calls.stopped k) (λ b. stopped-Ended k s b h calm)
        (λ b.
          let (kept, calm') = turn-IsKept k s b h calm in
          turn-Ended (suc k) r s' (loop calls (suc n) (suc k) s') kept calm'
            (loop-Ended n (suc k) s' (subst (λ i. calls.stopped i ≡ true) (omega arith) stop) kept))

  closed-HasEnded :
      (x : Option (Result (Unit {0}) × LoopRun E)) → Ended x → HasEnded calls (closed calls x)
  unfolding Ended closed close_all seen HasEnded closing_log closing_result
  closed-HasEnded none h = h
  closed-HasEnded (some (r, s)) h =
      let (paced, turned, until, same) = h in
      let (service, e) = calls.close_service s.env in
      let (queue, e') = calls.close_queue e in
      (s.log, service, queue, paced, turned, until, ground arith, ground arith)

-- Where the stop event is set by turn n, run ends by then, whatever the calls raise: it takes one job
-- after another, each at the time of its turn, in which the event is not set, until a job raises or the
-- event is set; before the first job it reaps, and then in the first turn that is an interval after the
-- last reap, never sooner, a reap that raises included; after the turns it closes the service once and
-- the queue once, the queue only if closing the service did not raise.
pub run-HasEnded :
    {E : Type 0} (calls : LoopCalls E) (n : ℕ) (env : E)
    → 1 ≤ calls.interval
    → calls.stopped n ≡ true
    → HasEnded calls (run calls (suc n) env)
unfolding run IsPaced IsNext latest raised_by IsTurned works
run-HasEnded calls n env positive stop = closed-HasEnded calls positive (loop calls (suc n) 0 _) (
    loop-Ended calls positive n 0 _ (subst (λ i. calls.stopped i ≡ true) (omega arith) stop)
      (record { paced = tt; next = refl; turned = tt; counted = refl }) refl)
