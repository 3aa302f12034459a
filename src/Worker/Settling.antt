-- ===== src/Worker/Settling.antt =====
-- A worker that still holds its job brings it to an end (src/dalmatian/worker.py).
use dalmatian.Prelude.{ℕ, String, ◌≡◌, Bool, true, false, Option, some, arith, eq_refl, holds}
use dalmatian.Valkey.{Valkey}
use dalmatian.Valkey.Laws.{hash_laws}
use dalmatian.Models.{QueryResult}
use dalmatian.Jobs.Config.{Config}
use dalmatian.Jobs.Scripts.Lease.{complete_script, terminal_script}
use dalmatian.Jobs.Scripts.Retry.{retry_script}
use dalmatian.Jobs.Reads.{owns, cancel_requested}
use dalmatian.Jobs.Steps.{field}
use dalmatian.Jobs.Methods.World.{Payloads, World, metadata_status}
use dalmatian.Jobs.Methods.Finish.{complete, cancel_complete, fail}
use dalmatian.Errors.{Result, ok, err, isinstance, commit_fenced}
use dalmatian.Worker.{Schedule, settle, is_retryable}

-- Nobody else acts between the calls.
unfoldable pub undisturbed : {W : Type 0} → (ℕ → ℕ) → ℕ → Schedule W
undisturbed now delay = record { now = now; others = λ n w. w; delay = delay }

-- The service refused the commit.
unfoldable pub is_fenced : {Row : Type 0} → Result (QueryResult Row) → Bool
is_fenced (ok result) = false
is_fenced (err e) = isinstance e.error_class commit_fenced

module _ ⦃V : Valkey⦄ ⦃P : Payloads⦄ (q : Config) (j worker : String) where
  -- The job is running, perhaps elsewhere.
  unfoldable pub still_running : World → Bool
  still_running w = holds (field q w.db j "status") "running"

  module _ (now : ℕ) (w : World) (held : owns q j worker now w.db ≡ true) where
    cancel_complete_ends : still_running (cancel_complete q j worker now w).1 ≡ false
    unfolding still_running cancel_complete terminal_script metadata_status owns holds
    cancel_complete_ends = grind (arith, hash_laws, eq_refl)

    complete_ends :
        (result : QueryResult P.Row)
        → cancel_requested q j worker w.db ≡ false
        → ((complete q j worker result now w).0 ≡ true)
          × (still_running (complete q j worker result now w).1 ≡ false)
    unfolding still_running complete complete_script metadata_status owns cancel_requested holds
    complete_ends result h = grind (arith, hash_laws, eq_refl)

    fail_ends :
        (message : String) (retryable : Bool) (name : Option String) (delay : ℕ)
        → still_running (fail q j worker message retryable name delay now now w).1 ≡ false
    unfolding still_running fail retry_script terminal_script metadata_status owns holds
    fail_ends message true name delay = grind (arith, hash_laws, eq_refl)
    fail_ends message false name delay = grind (arith, hash_laws, eq_refl)

  -- When nobody else acts between the worker's calls, the worker holds the lease at the time of every
  -- call, and the service did not refuse the commit, then the job is not running any more after
  -- `work_once`, whatever the service answered: a result, a cancellation or an exception.
  pub settle_ends :
      (is_in : String → String → Bool) (now : ℕ → ℕ) (delay : ℕ) (o : Result (QueryResult P.Row))
      (w : World)
      → is_fenced o ≡ false
      → ((n : ℕ) → owns q j worker (now n) w.db ≡ true)
      → still_running (settle q is_in j worker (undisturbed now delay) o w) ≡ false
  unfolding settle undisturbed is_fenced
  settle_ends is_in now delay (err e) w f held = ground (
    arith,
    held 0,
    held 1,
    cancel_complete_ends (now 1) w (held 1),
    fail_ends (now 2) w (held 2) "query was cancelled" false (some "QueryCancelled") delay,
    fail_ends (now 1) w (held 1) e.message (is_retryable is_in e) (some e.class_name) delay,
  )
  settle_ends is_in now delay (ok result) w f held =
      ground
        (arith, cancel_complete_ends (now 1) w (held 1), complete_ends (now 1) w (held 1) result)
