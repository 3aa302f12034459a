-- ===== src/Worker/Heartbeat.antt =====
-- `LeaseHeartbeat._run` of src/dalmatian/worker.py: one round for each interval before `stop`. The
-- queue's and the service's methods are operations of a state that may raise, and are logged.
use dalmatian.Prelude.{
  ℕ, zero, suc, ◌+◌, ◌≡◌, Bool, true, false, List, [], ◌∷◌, if◌then◌else◌, arith, refl, Bool-cases,
  inl, inr, subst,
}
use dalmatian.Errors.{Result, ok, err}
use dalmatian.Effects.{Action, ◌>>=◌, pure}

pub record LeaseCalls (E : Type 0) : Type 0 where
  -- queue.heartbeat, queue.cancel_requested and service.cancel, for the thread's job
  pub heartbeat : Action E Bool
  pub cancel_requested : Action E Bool
  pub cancel : Action E (Unit {0})

pub data LeaseEvent : Type 0 where
  renewed asked : Result Bool → LeaseEvent
  cancelled : Result (Unit {0}) → LeaseEvent

-- The newest event first.
pub record LeaseRun (E : Type 0) : Type 0 where
  pub env : E
  pub log : List LeaseEvent

logged : {E A : Type 0} → (Result A → LeaseEvent) → Action E A → Action (LeaseRun E) A
logged event m s = let (r, e) = m s.env in (r, record { env = e; log = event r ∷ s.log })

module _ {E : Type 0} (calls : LeaseCalls E) where
  -- service.cancel, and then return
  cancel_job : Action (LeaseRun E) Bool
  unfolding logged
  cancel_job = logged cancelled calls.cancel >>= λ u. pure true

  ask_cancel : Action (LeaseRun E) Bool
  unfolding logged cancel_job
  ask_cancel =
      logged asked calls.cancel_requested >>= λ wanted. if wanted then cancel_job else pure false

  -- The body of the `try`: whether the thread returns.
  beat : Action (LeaseRun E) Bool
  unfolding logged cancel_job ask_cancel
  beat = logged renewed calls.heartbeat >>= λ held. if held then ask_cancel else cancel_job

  -- An exception is logged, and the thread goes on.
  returns : Result Bool → Bool
  returns (ok stop) = stop
  returns (err e) = false

  unfoldable pub heartbeats : ℕ → LeaseRun E → Bool × LeaseRun E
  unfolding beat returns
  heartbeats zero s = (false, s)
  heartbeats (suc n) s =
      let (r, s') = beat s in let rest = heartbeats n s' in if returns r then (true, s') else rest

unfoldable pub renewals : List LeaseEvent → ℕ
renewals [] = 0
renewals (LeaseEvent.renewed r ∷ log) = 1 + renewals log
renewals (_ ∷ log) = renewals log

-- The calls of service.cancel that did not raise.
unfoldable pub cancellations : List LeaseEvent → ℕ
cancellations [] = 0
cancellations (LeaseEvent.cancelled (ok u) ∷ log) = 1 + cancellations log
cancellations (_ ∷ log) = cancellations log

-- What a cancellation comes right after: a lease that was lost, or a request to cancel.
unfoldable pub Wants : List LeaseEvent → Type 0
Wants (LeaseEvent.renewed (ok false) ∷ log) = Unit
Wants (LeaseEvent.asked (ok true) ∷ log) = Unit
Wants _ = ⊥

-- What the question whether to cancel comes right after: a lease that was renewed.
unfoldable pub Holds : List LeaseEvent → Type 0
Holds (LeaseEvent.renewed (ok true) ∷ log) = Unit
Holds _ = ⊥

-- What the thread goes on after: a call that raised, or the answer that nobody cancels.
unfoldable pub GoesOn : List LeaseEvent → Type 0
GoesOn [] = Unit
GoesOn (LeaseEvent.renewed (err e) ∷ log) = Unit
GoesOn (LeaseEvent.asked (ok false) ∷ log) = Unit
GoesOn (LeaseEvent.asked (err e) ∷ log) = Unit
GoesOn (LeaseEvent.cancelled (err e) ∷ log) = Unit
GoesOn _ = ⊥

-- Every event of a log has its reason in the one before it.
unfoldable pub IsReasoned : List LeaseEvent → Type 0
IsReasoned [] = Unit
IsReasoned (LeaseEvent.renewed r ∷ log) = GoesOn log × IsReasoned log
IsReasoned (LeaseEvent.asked r ∷ log) = Holds log × IsReasoned log
IsReasoned (LeaseEvent.cancelled r ∷ log) = Wants log × IsReasoned log

-- The thread returned with a cancellation, or may go on.
unfoldable pub EndsWell : Bool → List LeaseEvent → Type 0
EndsWell true (LeaseEvent.cancelled (ok u) ∷ log) = Unit
EndsWell true _ = ⊥
EndsWell false log = GoesOn log

module _ {E : Type 0} (calls : LeaseCalls E) where
  -- One round: one renewal, and a cancellation exactly if the thread returns.
  beat_counts :
      (s : LeaseRun E)
      → let r = beat calls s in
        (renewals r.1.log ≡ renewals s.log + 1)
        × (cancellations r.1.log ≡ cancellations s.log + (if returns calls r.0 then 1 else 0))
  unfolding beat ask_cancel cancel_job logged renewals cancellations returns
  beat_counts s = ground arith

  beat_reasons :
      (s : LeaseRun E)
      → IsReasoned s.log
      → GoesOn s.log
      → let r = beat calls s in IsReasoned r.1.log × EndsWell (returns calls r.0) r.1.log
  unfolding beat ask_cancel cancel_job logged returns IsReasoned GoesOn Holds Wants EndsWell
  beat_reasons s h go = ground arith

  rounds :
      (n : ℕ) (s : LeaseRun E)
      → IsReasoned s.log
      → GoesOn s.log
      → let (stopped, s') = heartbeats calls n s in
        IsReasoned s'.log
        × EndsWell stopped s'.log
        × (cancellations s'.log ≡ cancellations s.log + (if stopped then 1 else 0))
        × (stopped ≡ false → renewals s'.log ≡ renewals s.log + n)
  unfolding heartbeats EndsWell
  rounds zero s h go = (h, go, ground arith, ground arith)
  rounds (suc n) s h go =
      let (reasons, ends) = beat_reasons s h go in
      let (renewed_once, cancels) = beat_counts s in
      elim (Bool-cases (returns calls (beat calls s).0)) [
        | inl e ↦ rw e (
          reasons,
          subst (λ b. EndsWell b (beat calls s).1.log) e ends,
          rw (cancels, e) refl,
          λ c. absurd (cc),
        )
        | inr e ↦
            (let (r, w, c, k) =
                rounds n (beat calls s).1 reasons
                  (subst (λ b. EndsWell b (beat calls s).1.log) e ends) in
              rw e (r, w, ground arith, ground arith))
      ]

  -- In every environment, whatever the calls raise: the thread renews the lease once in every interval
  -- until it returns; it asks whether to cancel right after every renewal that held, and only then; it
  -- cancels the query right after a renewal that found the lease lost or an answer that asks for it, and
  -- only then; it returns exactly when a cancellation did not raise, which comes at most once, and goes
  -- on after a call that raised or an answer that nobody cancels.
  pub heartbeats-cancellations :
      (n : ℕ) (env : E)
      → let (stopped, s') = heartbeats calls n (record { env = env; log = [] }) in
        IsReasoned s'.log
        × EndsWell stopped s'.log
        × (cancellations s'.log ≡ (if stopped then 1 else 0))
        × (stopped ≡ false → renewals s'.log ≡ n)
  unfolding IsReasoned GoesOn renewals cancellations
  heartbeats-cancellations n env =
      let (reasons, ends, cancels, renews) = rounds n (record { env = env; log = [] }) tt tt in
      (reasons, ends, ground arith, ground arith)
