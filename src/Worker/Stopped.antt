-- ===== src/Worker/Stopped.antt =====
-- What is recorded of a job whose query was stopped (src/dalmatian/worker.py: `except QueryCancelled`).
use dalmatian.Prelude.{
  ℕ, String, ◌≡◌, Bool, true, false, none, some, ◌∷◌, arith, eq_refl, Bool-cases, inl, inr,
}
use dalmatian.Valkey.{Valkey}
use dalmatian.Valkey.Laws.{hash_laws}
use dalmatian.Jobs.Config.{Config}
use dalmatian.Jobs.Scripts.Lease.{terminal_script}
use dalmatian.Jobs.Reads.{owns, cancel_requested}
use dalmatian.Jobs.Steps.{field}
use dalmatian.Jobs.Methods.World.{Payloads, World, metadata_status, update_invocation}
use dalmatian.Jobs.Methods.Finish.{cancel_complete, fail}
use dalmatian.Errors.{Raised, err, isinstance, query_cancelled}
use dalmatian.Worker.{settle}
use dalmatian.Worker.Settling.{undisturbed}

module _ ⦃V : Valkey⦄ ⦃P : Payloads⦄ (q : Config) (j worker : String) where
  -- The end that is recorded of a stopped query, on the server and in the metadata store: cancelled if
  -- the job's cancellation was requested, and else failed, in the worker's own words.
  unfoldable pub IsStopped : Bool → World → World → Type 0
  IsStopped true w u =
      (field q u.db j "status" ≡ some "cancelled")
      × (field q u.db j "error" ≡ some "")
      × (u.calls ≡ update_invocation j "cancelled" none none none none ∷ w.calls)
  IsStopped false w u =
      (field q u.db j "status" ≡ some "failed")
      × (field q u.db j "error" ≡ some "query was cancelled")
      × (u.calls
          ≡ update_invocation j "failed" none (some "query was cancelled") (some "QueryCancelled")
              none
            ∷ w.calls)

  module _ (now : ℕ) (w : World) (held : owns q j worker now w.db ≡ true) where
    cancel_complete-IsStopped : IsStopped true w (cancel_complete q j worker now w).1
    unfolding IsStopped cancel_complete terminal_script metadata_status owns
    cancel_complete-IsStopped = grind (arith, hash_laws, eq_refl)

    fail-IsStopped :
        (delay : ℕ)
        → IsStopped false w
            (fail q j worker "query was cancelled" false (some "QueryCancelled") delay now now w).1
    unfolding IsStopped fail terminal_script metadata_status owns
    fail-IsStopped delay = grind (arith, hash_laws, eq_refl)

  -- When nobody else acts between the worker's calls and the worker holds the lease at the time of every
  -- call: a job whose query raised QueryCancelled, or its subclass QueryTimeout, is recorded as cancelled
  -- if its cancellation was requested; if not, it fails with the text "query was cancelled" and the class
  -- QueryCancelled, on the server and in the metadata store, whatever the exception was.
  pub settle-IsStopped :
      (is_in : String → String → Bool) (now : ℕ → ℕ) (delay : ℕ) (e : Raised) (w : World)
      → isinstance e.error_class query_cancelled ≡ true
      → ((n : ℕ) → owns q j worker (now n) w.db ≡ true)
      → IsStopped
          (cancel_requested q j worker w.db)
          w
          (settle q is_in j worker (undisturbed now delay) (err e) w)
  unfolding settle undisturbed
  settle-IsStopped is_in now delay e w c held =
      elim (Bool-cases (cancel_requested q j worker w.db)) [
        | inl b ↦ rw (c, b) (cancel_complete-IsStopped (now 1) w (held 1))
        | inr b ↦ rw (c, b, held 1) (fail-IsStopped (now 2) w (held 2) delay)
      ]
