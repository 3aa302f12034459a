-- ===== src/Jobs/Scripts/Lease.antt =====
-- src/dalmatian/jobs.py: _CLAIM_SCRIPT, _HEARTBEAT_SCRIPT, _PUBLISH_SCRIPT, _COMPLETE_SCRIPT and
-- _TERMINAL_SCRIPT: what a worker does with the job that it holds.
use dalmatian.Prelude.{
  ℕ, String, Bool, not, ◌&&◌, Option, none, some, [], ◌∷◌, ◌==◌, leb, nat_eq, if◌then◌else◌,
  or_else, holds,
}
use dalmatian.Prelude.Decimal.{str, to_int}
use dalmatian.Valkey.{Valkey}

-- What a claim hands to the worker: request, attempts, shard and time of creation.
pub record Claimed : Type 0 where
  pub request : String
  pub attempts : ℕ
  pub shard : String
  pub created_at_ms : String

-- The three replies of the publication: -1, 0 and 1.
pub data Published : Type 0 where
  fenced taken published : Published

module _ ⦃V : Valkey⦄ where
  open V use {Db, hget, exists, hset, hincrby, expire, lpos, lpush, lrem}

  -- tonumber(redis.call('HGET', key, field) or '0')
  abbrev pub number : Db → String → String → ℕ
  number d key field = to_int (or_else (hget d key field) "0")

  take_lease : String → String → ℕ → ℕ → ℕ → Db → Db
  take_lease key worker lease now ttl d = expire key ttl (
      hset key
        (("status", "running")
          ∷ ("worker_id", worker)
          ∷ ("lease_expires_ms", str lease)
          ∷ ("updated_at_ms", str now)
          ∷ ("cancel_requested", "0")
          ∷ ("next_attempt_ms", "0")
          ∷ [])
        d)

  unfoldable pub claim_script :
      String → String → String → String → ℕ → ℕ → ℕ → Db → Option Claimed × Db
  unfolding take_lease
  claim_script key processing job_id worker lease now ttl d =
      if not (lpos d processing job_id)
      then (none, d)
      else if not (holds (hget d key "status") "queued")
      then (none, d)
      else elim (hget d key "request") [
        | none ↦ (none, lrem processing job_id d)
        | some request ↦
            (let d' = hincrby key "attempts" 1 d in
              let d'' = take_lease key worker lease now ttl d' in
              (
                some (record {
                  request = request;
                  attempts = number d' key "attempts";
                  shard = or_else (hget d'' key "shard") "0";
                  created_at_ms = or_else (hget d'' key "created_at_ms") (str now);
                }),
                d'',
              ))
      ]

  unfoldable pub heartbeat_script : String → String → ℕ → ℕ → ℕ → Db → Bool × Db
  heartbeat_script key worker lease now ttl d =
      if not (holds (hget d key "status") "running")
      then (Bool.false, d)
      else if not (holds (hget d key "worker_id") worker)
      then (Bool.false, d)
      else if leb (number d key "lease_expires_ms") now
      then (Bool.false, d)
      else (
        Bool.true,
        expire key ttl
            (hset key (("lease_expires_ms", str lease) ∷ ("updated_at_ms", str now) ∷ []) d),
      )

  publish_append : String → String → String → String → ℕ → Db → Db
  publish_append publication query_id attempt_id manifest_uri now = hset publication (
      ("exists", "1")
      ∷ ("last_append_query_id", query_id)
      ∷ ("last_append_attempt_id", attempt_id)
      ∷ ("last_append_manifest_uri", manifest_uri)
      ∷ ("updated_at_ms", str now)
      ∷ [])

  publish_current : String → String → String → String → ℕ → Db → Db
  publish_current publication query_id attempt_id manifest_uri now = hset publication (
      ("exists", "1")
      ∷ ("query_id", query_id)
      ∷ ("attempt_id", attempt_id)
      ∷ ("manifest_uri", manifest_uri)
      ∷ ("updated_at_ms", str now)
      ∷ [])

  unfoldable pub publish_script :
      String → String → String → ℕ → String → String → String → String → ℕ → Db → Published × Db
  unfolding publish_append publish_current
  publish_script job publication worker attempts mode query_id attempt_id manifest_uri now d =
      if not (holds (hget d job "status") "running")
      then (fenced, d)
      else if not (holds (hget d job "worker_id") worker)
      then (fenced, d)
      else if not (nat_eq (number d job "attempts") attempts)
      then (fenced, d)
      else if holds (hget d job "cancel_requested") "1"
      then (fenced, d)
      else if leb (number d job "lease_expires_ms") now
      then (fenced, d)
      else if mode == "append"
      then (published, publish_append publication query_id attempt_id manifest_uri now d)
      else if (mode == "error")
          && (exists d publication && not (or_else (hget d publication "query_id") "" == query_id))
      then (taken, d)
      else (published, publish_current publication query_id attempt_id manifest_uri now d)

  unfoldable pub complete_script :
      String → String → String → String → ℕ → String → ℕ → Db → Bool × Db
  complete_script key processing worker result now job_id ttl d =
      if not (holds (hget d key "status") "running")
      then (Bool.false, d)
      else if not (holds (hget d key "worker_id") worker)
      then (Bool.false, d)
      else if holds (hget d key "cancel_requested") "1"
      then (Bool.false, d)
      else if leb (number d key "lease_expires_ms") now
      then (Bool.false, d)
      else (
        Bool.true,
        expire key ttl (
            lrem processing job_id (
              hset key
                (("status", "succeeded")
                  ∷ ("result", result)
                  ∷ ("error", "")
                  ∷ ("worker_id", "")
                  ∷ ("lease_expires_ms", "0")
                  ∷ ("updated_at_ms", str now)
                  ∷ [])
                d)),
      )

  unfoldable pub terminal_script :
      String → String → String → String → String → String → ℕ → String → ℕ → Db → Bool × Db
  terminal_script key processing dead worker status error now job_id ttl d =
      if not (holds (hget d key "status") "running")
      then (Bool.false, d)
      else if not (holds (hget d key "worker_id") worker)
      then (Bool.false, d)
      else if leb (number d key "lease_expires_ms") now
      then (Bool.false, d)
      else (let d' = lrem processing job_id (
            hset key
              (("status", status)
                ∷ ("error", error)
                ∷ ("worker_id", "")
                ∷ ("lease_expires_ms", "0")
                ∷ ("updated_at_ms", str now)
                ∷ [])
              d) in
          (Bool.true, expire key ttl (if status == "failed" then lpush dead job_id d' else d')))
