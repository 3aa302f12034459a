-- ===== src/Jobs/Idempotency.antt =====
-- A second submission under one Idempotency-Key (src/dalmatian/jobs.py: `enqueue`).
use dalmatian.Prelude.{
  ℕ, String, ◌≡◌, refl, ap, true, false, some, arith, ◌==◌, eq_refl, or_else, holds, if◌then◌else◌,
  ◌⊎◌,
}
use dalmatian.Prelude.Decimal.{str, to_int-str, to_int_zero}
use dalmatian.Valkey.{Valkey}
use dalmatian.Valkey.Laws.{hash_laws, hgetall_empty, hgetall_field}
use dalmatian.Models.{QueryRequest, JobStatus, JobRecord}
use dalmatian.Fingerprint.{Hashing, request_payload_fingerprint}
use dalmatian.Jobs.Config.{Config, job_key, idempotency_name}
use dalmatian.Jobs.Keys.{idempotency_name-job_key, job_key-idempotency_name}
use dalmatian.Jobs.Scripts.Submit.{EnqueueReply, created, full, enqueue_script}
use dalmatian.Jobs.Steps.{enqueue_step, field}
use dalmatian.Jobs.Delivery.{get-hget}
use dalmatian.Jobs.Methods.World.{
  Payloads, bound_elsewhere, record_expired, queue_full, Outcome, ok, raised, World, dt,
  read_status, non_empty, get,
}
use dalmatian.Jobs.Methods.Submit.{
  bad_length, bound_job, check_binding, new_record, prior, shard_of_request, submit, submitted,
  enqueue,
}

holds-some : (a b : String) → holds (some a) b ≡ (a == b)
unfolding holds
holds-some a b = refl

module _ ⦃V : Valkey⦄ ⦃P : Payloads⦄ ⦃H : Hashing⦄ (q : Config) where
  open V use {Db, hget, hgetall, exists}

  -- The step of the server under a key that is bound to nothing.
  module _ (id : String) (n : ℕ) (digest hash json : String) (now : ℕ) (d : Db) where
    outcome : EnqueueReply × Db
    outcome = enqueue_step q id n (some digest) hash json now d

    replies :
        exists d (idempotency_name q digest) ≡ false → (outcome.0 ≡ created id) ⊎ (outcome.0 ≡ full)
    unfolding outcome enqueue_step enqueue_script
    replies h = ground arith

    job_fields :
        exists d (idempotency_name q digest) ≡ false
        → outcome.0 ≡ created id
        → (exists outcome.1 (job_key q id) ≡ true)
          × (field q outcome.1 id "status" ≡ some "queued")
          × (field q outcome.1 id "attempts" ≡ some "0")
          × (field q outcome.1 id "result" ≡ some "")
          × (field q outcome.1 id "error" ≡ some "")
          × (field q outcome.1 id "created_at_ms" ≡ some (str now))
          × (field q outcome.1 id "updated_at_ms" ≡ some (str now))
          × (field q outcome.1 id "next_attempt_ms" ≡ some "0")
    unfolding outcome enqueue_step enqueue_script
    job_fields h c = grind (arith, hash_laws, eq_refl, idempotency_name-job_key)

    key_fields :
        exists d (idempotency_name q digest) ≡ false
        → outcome.0 ≡ created id
        → (exists outcome.1 (idempotency_name q digest) ≡ true)
          × (hget outcome.1 (idempotency_name q digest) "request_hash" ≡ some hash)
          × (hget outcome.1 (idempotency_name q digest) "job_id" ≡ some id)
    unfolding outcome enqueue_step enqueue_script
    key_fields h c = grind (arith, hash_laws, eq_refl)

    -- The new job reads as it was announced.
    reads_new :
        exists d (idempotency_name q digest) ≡ false
        → outcome.0 ≡ created id
        → get q id outcome.1 ≡ ok (some (new_record q id now))
    unfolding new_record dt non_empty read_status
    reads_new h c =
        let (there, status, attempts, result, error, made, changed, next) = job_fields h c in
        ground (
          arith,
          get-hget q id outcome.1 JobStatus.queued there
              (ap (λ o. read_status (or_else o "")) status),
          to_int_zero,
          to_int-str now,
        )

    -- The binding reads back, and the job behind it.
    prior_new :
        (fingerprint : String)
        → exists d (idempotency_name q digest) ≡ false
        → outcome.0 ≡ created id
        → check_binding q (hgetall outcome.1 (idempotency_name q digest)) fingerprint outcome.1
          ≡ some (
              if hash == fingerprint then ok (new_record q id now) else raised (bound_elsewhere id))
    unfolding check_binding bound_job
    prior_new fingerprint h c =
        let (there, hash_at, id_at) = key_fields h c in
        ground (
          arith,
          reads_new h c,
          hgetall_empty outcome.1 (idempotency_name q digest),
          hgetall_field outcome.1 (idempotency_name q digest) "request_hash",
          hgetall_field outcome.1 (idempotency_name q digest) "job_id",
          holds-some hash fingerprint,
        )

    -- Once the record has lapsed, the binding says so to whoever may see the job.
    prior_lapsed :
        (fingerprint : String)
        → exists d (idempotency_name q digest) ≡ false
        → outcome.0 ≡ created id
        → let e = V.lapse (job_key q id) outcome.1 in
          check_binding q (hgetall e (idempotency_name q digest)) fingerprint e
          ≡ some
              (if hash == fingerprint then raised record_expired else raised (bound_elsewhere id))
    unfolding check_binding bound_job get
    prior_lapsed fingerprint h c =
        let (there, hash_at, id_at) = key_fields h c in
        let e = V.lapse (job_key q id) outcome.1 in
        grind (
          arith,
          eq_refl,
          job_key-idempotency_name,
          V.exists-lapse (job_key q id) outcome.1 (job_key q id),
          V.exists-lapse (job_key q id) outcome.1 (idempotency_name q digest),
          V.hget-lapse (job_key q id) outcome.1 (idempotency_name q digest) "request_hash",
          V.hget-lapse (job_key q id) outcome.1 (idempotency_name q digest) "job_id",
          hgetall_empty e (idempotency_name q digest),
          hgetall_empty e (job_key q id),
          hgetall_field e (idempotency_name q digest) "request_hash",
          hgetall_field e (idempotency_name q digest) "job_id",
          holds-some hash fingerprint,
        )

  -- The first submission under an unbound key answers with the job it created, or the queue is full.
  module _ (r again : QueryRequest) (key id other : String) (now later : ℕ) (w : World) where
    name : String
    name = idempotency_name q (H.sha256 key)

    first : Outcome (JobRecord P.Row) × World
    first = enqueue q r (some key) id now w

    bound : EnqueueReply × Db
    bound =
        outcome id (shard_of_request q r) (H.sha256 key) (request_payload_fingerprint r)
          (P.request_json r) now w.db

    sent :
        bad_length (some key) ≡ false
        → exists w.db name ≡ false
        → first ≡ submitted q id (P.request_json r) now w.calls bound
    unfolding name first bound outcome enqueue prior submit check_binding
    sent l h = ground (arith, hgetall_empty w.db (idempotency_name q (H.sha256 key)), l)

    first_created :
        (new : JobRecord P.Row)
        → bad_length (some key) ≡ false
        → exists w.db name ≡ false
        → first.0 ≡ ok new
        → (bound.0 ≡ created id) × (first.1.db ≡ bound.1) × (new_record q id now ≡ new)
    unfolding submitted name bound new_record
    first_created new l h c = ground (
      arith,
      sent l h,
      replies id (shard_of_request q r) (H.sha256 key) (request_payload_fingerprint r)
          (P.request_json r) now w.db h,
    )

    -- A submission that finds its key bound to nothing makes a job, unless the queue is full.
    anew :
        (u : World)
        → bad_length (some key) ≡ false
        → exists u.db (idempotency_name q (H.sha256 key)) ≡ false
        → ((enqueue q again (some key) other later u).0 ≡ ok (new_record q other later))
          ⊎ ((enqueue q again (some key) other later u).0 ≡ raised queue_full)
    unfolding outcome enqueue prior submit submitted check_binding
    anew u l h = ground (
      arith,
      hgetall_empty u.db (idempotency_name q (H.sha256 key)),
      l,
      replies other (shard_of_request q again) (H.sha256 key) (request_payload_fingerprint again)
          (P.request_json again) later u.db h,
    )

    -- A submission that finds its key bound answers with what the binding says.
    answered :
        (u : World) (answer : Outcome (JobRecord P.Row))
        → bad_length (some key) ≡ false
        → prior q (some key) (request_payload_fingerprint again) u.db ≡ some answer
        → enqueue q again (some key) other later u ≡ (answer, u)
    unfolding enqueue
    answered u answer l h = ground (arith, l, h)

    lapsed_key :
        (d : Db)
        → exists (V.lapse (idempotency_name q (H.sha256 key)) d) (idempotency_name q (H.sha256 key))
          ≡ false
    lapsed_key d = grind (arith, hash_laws, eq_refl)

    -- Between the two submissions the record may lapse, or the binding.
    abbrev without_record : World → World
    without_record u = record u { db = V.lapse (job_key q id) u.db }

    abbrev without_binding : World → World
    without_binding u = record u { db = V.lapse (idempotency_name q (H.sha256 key)) u.db }

    pub resubmit :
        (new : JobRecord P.Row)
        → bad_length (some key) ≡ false
        → exists w.db (idempotency_name q (H.sha256 key)) ≡ false
        → (enqueue q r (some key) id now w).0 ≡ ok new
        → let u = (enqueue q r (some key) id now w).1 in
          let same = request_payload_fingerprint r == request_payload_fingerprint again in
          (enqueue q again (some key) other later u
            ≡ ((if same then ok new else raised (bound_elsewhere id)), u))
          × (enqueue q again (some key) other later (without_record u) ≡ (
            (if same then raised record_expired else raised (bound_elsewhere id)),
            without_record u,
          ))
          × (((enqueue q again (some key) other later (without_binding u)).0
                ≡ ok (new_record q other later))
              ⊎ ((enqueue q again (some key) other later (without_binding u)).0
                  ≡ raised queue_full))
    unfolding name first bound prior
    resubmit new l h c =
        let (made, at, same) = first_created new l h c in
        let found =
          prior_new id (shard_of_request q r) (H.sha256 key) (request_payload_fingerprint r)
            (P.request_json r) now w.db (request_payload_fingerprint again) h made in
        let gone =
          prior_lapsed id (shard_of_request q r) (H.sha256 key) (request_payload_fingerprint r)
            (P.request_json r) now w.db (request_payload_fingerprint again) h made in
        (
          answered first.1 _ l (rw (at, found, same)),
          answered (without_record first.1) _ l (rw (at, gone)),
          anew (without_binding first.1) l (lapsed_key first.1.db),
        )
