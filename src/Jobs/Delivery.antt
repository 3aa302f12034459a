-- ===== src/Jobs/Delivery.antt =====
-- What a worker completes is what a client reads (src/dalmatian/jobs.py: `complete` and `get`).
use dalmatian.Prelude.{
  ℕ, String, ◌≡◌, true, false, none, some, ◌∷◌, arith, ap, ◌==◌, eq_refl, or_else,
}
use mathlib.Core.Option
use dalmatian.Prelude.Decimal.{to_int}
use dalmatian.Valkey.{Valkey}
use dalmatian.Valkey.Laws.{hash_laws}
use dalmatian.Models.{QueryResult, JobStatus}
use dalmatian.Jobs.Config.{Config, job_key}
use dalmatian.Jobs.Scripts.Lease.{complete_script}
use dalmatian.Jobs.Reads.{owns}
use dalmatian.Jobs.Steps.{field}
use dalmatian.Jobs.Methods.World.{
  Payloads, ok, update_invocation, World, dt, read_status, non_empty, get, metadata_status,
}
use dalmatian.Jobs.Methods.Finish.{complete}

module _ ⦃V : Valkey⦄ ⦃P : Payloads⦄ (q : Config) where
  open V use {Db, hgetall}

  -- The record that `get` reads, field by field from the hash.
  pub get-hget :
      (j : String) (d : Db) (status : JobStatus)
      → V.exists d (job_key q j) ≡ true
      → read_status (or_else (field q d j "status") "") ≡ some status
      → get q j d
        ≡ ok (
            some (record {
              id = j;
              status = status;
              attempts = to_int (or_else (field q d j "attempts") "0");
              result = Option.map P.read_result (non_empty (field q d j "result"));
              error = non_empty (field q d j "error");
              created_at = dt (field q d j "created_at_ms");
              updated_at = dt (field q d j "updated_at_ms");
              next_attempt_at = dt (field q d j "next_attempt_ms");
            }))
  unfolding get
  get-hget j d status there s =
      let at = λ (f : String). V.hgetall_field d (job_key q j) f in
      ground (
        arith,
        V.hgetall_empty d (job_key q j),
        at "status",
        at "attempts",
        at "result",
        at "error",
        at "created_at_ms",
        at "updated_at_ms",
        at "next_attempt_ms",
      )

  module _ (j worker : String) (result : QueryResult P.Row) (now : ℕ) (w : World) where
    after_complete : Db
    after_complete = (complete q j worker result now w).1.db

    completed_fields :
        (complete q j worker result now w).0 ≡ true
        → (V.exists after_complete (job_key q j) ≡ true)
          × (field q after_complete j "status" ≡ some "succeeded")
          × (field q after_complete j "result" ≡ some (P.result_json result))
          × (field q after_complete j "error" ≡ some "")
    unfolding after_complete complete complete_script metadata_status
    completed_fields h = grind (arith, hash_laws, eq_refl)

    completed_owned :
        (complete q j worker result now w).0 ≡ true
        → (owns q j worker now w.db ≡ true)
          × ((complete q j worker result now w).1.calls
              ≡ update_invocation j "succeeded" (some result) none none none ∷ w.calls)
    unfolding complete complete_script metadata_status owns
    completed_owned h = ground arith

    -- When pydantic reads the text of the result back, and the text is not empty: if `complete`
    -- answers true, the worker held the lease, the metadata store was told of the
    -- success with its result, and a client that asks for the job reads status succeeded, that very
    -- result and no error, beside the fields that were there.
    pub complete_delivers :
        P.read_result (P.result_json result) ≡ result
        → (P.result_json result == "") ≡ false
        → (complete q j worker result now w).0 ≡ true
        → (owns q j worker now w.db ≡ true)
          × ((complete q j worker result now w).1.calls
              ≡ update_invocation j "succeeded" (some result) none none none ∷ w.calls)
          × (let d = (complete q j worker result now w).1.db in
              get q j d
              ≡ ok (
                  some (record {
                    id = j;
                    status = JobStatus.succeeded;
                    attempts = to_int (or_else (field q d j "attempts") "0");
                    result = some result;
                    error = none;
                    created_at = dt (field q d j "created_at_ms");
                    updated_at = dt (field q d j "updated_at_ms");
                    next_attempt_at = dt (field q d j "next_attempt_ms");
                  })))
    unfolding after_complete non_empty read_status
    complete_delivers again text_there h =
        let (there, status, text, error) = completed_fields h in
        let (held, told) = completed_owned h in
        (
          held,
          told,
          ground (
            arith,
            get-hget j after_complete JobStatus.succeeded there
                (ap (λ o. read_status (or_else o "")) status),
            again,
            text_there,
          ),
        )
