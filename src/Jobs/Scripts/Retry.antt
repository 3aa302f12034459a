-- ===== src/Jobs/Scripts/Retry.antt =====
-- src/dalmatian/jobs.py: _RETRY_SCRIPT and _REAP_SCRIPT: an attempt that failed or was lost.
use dalmatian.Prelude.{
  ℕ, String, Bool, not, ◌||◌, [], ◌∷◌, ◌==◌, leb, ltb, if◌then◌else◌, or_else, holds,
}
use dalmatian.Prelude.Decimal.{str}
use dalmatian.Valkey.{Valkey}
use dalmatian.Jobs.Scripts.Lease.{number}

module _ ⦃V : Valkey⦄ where
  open V use {Db, hget, exists, hset, expire, lpush, lrem, zadd}

  -- HSET key 'status' 'failed' … and LPUSH dead
  mark_failed : String → String → String → String → ℕ → Db → Db
  mark_failed key dead job_id error now d = lpush dead job_id (
      hset key
        (("status", "failed")
          ∷ ("error", error)
          ∷ ("worker_id", "")
          ∷ ("lease_expires_ms", "0")
          ∷ ("updated_at_ms", str now)
          ∷ [])
        d)

  -- HSET key 'status' 'retrying' … and ZADD retry
  mark_retrying : String → String → String → String → ℕ → ℕ → Db → Db
  mark_retrying key retry job_id error now next d = zadd retry next job_id (
      hset key
        (("status", "retrying")
          ∷ ("error", error)
          ∷ ("worker_id", "")
          ∷ ("lease_expires_ms", "0")
          ∷ ("updated_at_ms", str now)
          ∷ ("next_attempt_ms", str next)
          ∷ [])
        d)

  unfoldable pub retry_script :
      String → String → String → String → String → String → ℕ → String → ℕ → ℕ → ℕ → Db → Bool × Db
  unfolding mark_failed mark_retrying
  retry_script key processing retry dead worker job_id max_attempts error now next ttl d =
      if not (holds (hget d key "status") "running")
      then (Bool.false, d)
      else if not (holds (hget d key "worker_id") worker)
      then (Bool.false, d)
      else if leb (number d key "lease_expires_ms") now
      then (Bool.false, d)
      else (let d' = lrem processing job_id d in
          (
            Bool.true,
            expire key ttl (
                if leb max_attempts (number d key "attempts")
                then mark_failed key dead job_id error now d'
                else mark_retrying key retry job_id error now next d'),
          ))

  abbrev lost : String
  lost = "worker lease expired"

  -- The branch of a running job whose lease has run out.
  reap_running : String → String → String → String → String → ℕ → ℕ → ℕ → Db → Db
  unfolding mark_failed mark_retrying
  reap_running key processing retry dead job_id now max_attempts next d =
      let d' = lrem processing job_id d in
      if or_else (hget d key "cancel_requested") "0" == "1"
      then hset key
          (("status", "cancelled")
            ∷ ("error", "")
            ∷ ("worker_id", "")
            ∷ ("lease_expires_ms", "0")
            ∷ ("updated_at_ms", str now)
            ∷ ("next_attempt_ms", "0")
            ∷ [])
          d'
      else if leb max_attempts (number d key "attempts")
      then mark_failed key dead job_id lost now d'
      else mark_retrying key retry job_id lost now next d'

  unfoldable pub reap_script :
      String → String → String → String → String → String → String → ℕ → ℕ → ℕ → ℕ → Db → Bool × Db
  unfolding reap_running
  reap_script key processing retry dead pending job_id expected_lease now max_attempts next ttl d =
      if not (exists d key)
      then (Bool.true, lrem processing job_id d)
      else if holds (hget d key "status") "queued"
      then (Bool.true, lpush pending job_id (lrem processing job_id d))
      else if not (holds (hget d key "status") "running")
      then (Bool.true, lrem processing job_id d)
      else if not (or_else (hget d key "lease_expires_ms") "0" == expected_lease)
          || ltb now (number d key "lease_expires_ms")
      then (Bool.false, d)
      else (
        Bool.true,
        expire key ttl (reap_running key processing retry dead job_id now max_attempts next d),
      )
