-- ===== src/Jobs/Methods/Finish.antt =====
-- src/dalmatian/jobs.py: `complete`, `publish_output`, `cancel_complete`, `fail` and `reap_stale`. The
-- milliseconds that `_retry_delay_ms` answers with, a product of floats with a random factor, are an
-- argument: what it raises beyond 1024 attempts is not modelled.
use dalmatian.Prelude.{
  ℕ, ◌+◌, String, Bool, ◌&&◌, Option, none, some, List, [], ◌∷◌, or_else, ltb, holds, if◌then◌else◌,
}
use dalmatian.Prelude.Decimal.{to_int}
use dalmatian.Valkey.{Valkey}
use dalmatian.Models.{QueryResult, JobRecord}
use dalmatian.Jobs.Config.{Config, job_key, pending_name, processing_name, retry_name, dead_name}
use dalmatian.Jobs.Scripts.Lease.{Published, complete_script, publish_script, terminal_script}
use dalmatian.Jobs.Scripts.Retry.{retry_script, reap_script}
use dalmatian.Jobs.Methods.World.{
  Payloads, Outcome, ok, raised, World, get, status_value, metadata_status,
}
use dalmatian.Jobs.Methods.Reserve.{promote_retries}

module _ ⦃V : Valkey⦄ ⦃P : Payloads⦄ (q : Config) where
  open V use {Db, hget, lrange}

  -- The metadata call of a method whose script succeeded.
  told : Bool × Db → (World → World) → World → Bool × World
  told (done, d) tell w = (done, (if done then tell (record w { db = d }) else record w { db = d }))

  unfoldable pub complete : String → String → QueryResult P.Row → ℕ → World → Bool × World
  unfolding told
  complete job_id worker result now w =
      told
        (complete_script (job_key q job_id) (processing_name q) worker (P.result_json result) now
          job_id q.job_ttl_seconds w.db)
        (metadata_status job_id "succeeded" (some result) none none) w

  unfoldable pub publish_output :
      String → String → ℕ → String → String → String → String → ℕ → World → Published × World
  publish_output job_id worker attempts publication_key attempt_id manifest_uri write_mode now w =
      let (reply, d) =
        publish_script (job_key q job_id) publication_key worker attempts write_mode job_id
          attempt_id manifest_uri now w.db in
      (reply, record w { db = d })

  unfoldable pub cancel_complete : String → String → ℕ → World → Bool × World
  unfolding told
  cancel_complete job_id worker now w =
      told
        (terminal_script (job_key q job_id) (processing_name q) (dead_name q) worker "cancelled" ""
          now job_id q.job_ttl_seconds w.db)
        (metadata_status job_id "cancelled" none none none) w

  -- record.status.value if record else "retrying"; a malformed record raises.
  status_now : Outcome (Option (JobRecord P.Row)) → Option String
  status_now (ok (some r)) = some (status_value r.status)
  status_now (ok none) = some "retrying"
  status_now (raised e) = none

  tell_status : String → Option String → Option String → Option String → World → World
  tell_status job_id none error error_class w = w
  tell_status job_id (some status) error error_class w =
      metadata_status job_id status none error error_class w

  -- `now` is the time of the script, and `before` the time that the delay is added to.
  fail_retryable : String → String → String → Option String → ℕ → ℕ → ℕ → World → Bool × World
  unfolding status_now tell_status
  fail_retryable job_id worker error error_class delay before now w =
      let reply =
        retry_script (job_key q job_id) (processing_name q) (retry_name q) (dead_name q) worker
          job_id q.max_attempts error now (before + delay) q.job_ttl_seconds w.db in
      told reply (tell_status job_id (status_now (get q job_id reply.1)) (some error) error_class) w

  fail_for_good : String → String → String → Option String → ℕ → World → Bool × World
  fail_for_good job_id worker error error_class now w =
      told
        (terminal_script (job_key q job_id) (processing_name q) (dead_name q) worker "failed" error
          now job_id q.job_ttl_seconds w.db)
        (metadata_status job_id "failed" none (some error) error_class) w

  unfoldable pub fail :
      String → String → String → Bool → Option String → ℕ → ℕ → ℕ → World → Bool × World
  unfolding told fail_retryable fail_for_good
  fail job_id worker error retryable error_class delay before now w =
      if retryable
      then fail_retryable job_id worker error error_class delay before now w
      else fail_for_good job_id worker error error_class now w

  tell_reaped : String → Outcome (Option (JobRecord P.Row)) → World → World
  tell_reaped job_id (ok (some r)) w =
      metadata_status job_id (status_value r.status) none r.error none w
  tell_reaped job_id _ w = w

  -- One entry of the processing list, as it was read at the start. (A record with no readable status
  -- would raise here; the scripts write none.)
  reap_entry : String → ℕ → ℕ → World → Bool × World
  unfolding told tell_reaped
  reap_entry job_id delay now w =
      let read = λ (f : String). hget w.db (job_key q job_id) f in
      let lease = read "lease_expires_ms" in
      let next = now + delay in
      let reply =
        reap_script (job_key q job_id) (processing_name q) (retry_name q) (dead_name q)
          (pending_name q (to_int (or_else (read "shard") "0"))) job_id (or_else lease "0") now
          q.max_attempts next q.job_ttl_seconds w.db in
      if holds (read "status") "running" && ltb now (to_int (or_else lease "0"))
      then (Bool.false, w)
      else told reply (tell_reaped job_id (get q job_id reply.1)) w

  reap_each : List String → (String → ℕ) → ℕ → World → ℕ × World
  unfolding reap_entry
  reap_each [] delay now w = (0, w)
  reap_each (job_id ∷ rest) delay now w =
      let (changed, w') = reap_entry job_id (delay job_id) now w in
      let (reaped, w'') = reap_each rest delay now w' in ((if changed then 1 else 0) + reaped, w'')

  -- `delay` gives the delay of each entry, and `later` for the time of the promotion.
  unfoldable pub reap_stale : (String → ℕ) → ℕ → ℕ → World → ℕ × World
  unfolding reap_each
  reap_stale delay now later w =
      let (reaped, w') = reap_each (lrange w.db (processing_name q)) delay now w in
      (reaped, record w' { db = (promote_retries q later w'.db).1 })
