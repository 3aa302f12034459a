-- ===== src/Api/Statuses.antt =====
-- The statuses that the routes answer with (src/dalmatian/api.py).
use dalmatian.Prelude.{
  ℕ, ◌≡◌, refl, String, Bool, true, false, Option, none, some, List, [], ◌∷◌, ◌==◌, if◌then◌else◌,
}
use dalmatian.Valkey.{Valkey}
use dalmatian.Models.{QueryRequest, JobRecord}
use dalmatian.Fingerprint.{Hashing, request_payload_fingerprint}
use dalmatian.Errors.{
  ErrorClass, dalmatian_error, query_rejected, busy_error, query_cancelled, query_timeout,
  commit_fenced, idempotency_conflict, metadata_schema_error, retryable_query_error, value_error,
  file_exists_error, os_error, connection_error, other_error, isinstance, class_number, ancestors,
  Raised, Result,
}
use dalmatian.Service.Stream.{is_stream}
use dalmatian.Jobs.Config.{Config, job_key, idempotency_name}
use dalmatian.Jobs.Methods.World.{
  Payloads, Outcome, World, bad_key_length, record_expired, bound_elsewhere, raised,
}
use dalmatian.Jobs.Methods.Submit.{bad_length, enqueue}
use dalmatian.Jobs.Idempotency.{resubmit}
use dalmatian.Api.Jobs.{create_job, exception_of, submission, accepted}
use dalmatian.Api.{
  Framework, IsDocumented, registered, first_registered, handlers, answer_by, reply_to_error, reply,
}

-- The status of an exception, by the classes that it is an instance of.
unfoldable pub status_of : ErrorClass → ℕ
status_of c =
    if isinstance c query_timeout
    then 408
    else if isinstance c query_cancelled
    then 409
    else if isinstance c busy_error
    then 429
    else if isinstance c query_rejected
    then 400
    else if isinstance c idempotency_conflict
    then 409
    else 500

-- headers["Location"]
unfoldable pub location : List (String × String) → Option String
location [] = none
location ((name, value) ∷ rest) =
    let later = location rest in if name == "Location" then some value else later

module _ {Row : Type 0} (f : Framework Row) where
  nearest_status :
      IsDocumented f
      → (c : ErrorClass) (e : Raised)
      → (answer_by f (first_registered handlers (ancestors c)) e).status ≡ status_of c
  unfolding answer_by first_registered registered handlers ancestors class_number status_of
      isinstance
  nearest_status doc dalmatian_error e = doc.server_error e
  nearest_status doc query_rejected e = refl
  nearest_status doc busy_error e = refl
  nearest_status doc query_cancelled e = refl
  nearest_status doc query_timeout e = refl
  nearest_status doc commit_fenced e = doc.server_error e
  nearest_status doc idempotency_conflict e = refl
  nearest_status doc metadata_schema_error e = doc.server_error e
  nearest_status doc retryable_query_error e = doc.server_error e
  nearest_status doc value_error e = doc.server_error e
  nearest_status doc file_exists_error e = doc.server_error e
  nearest_status doc os_error e = doc.server_error e
  nearest_status doc connection_error e = doc.server_error e
  nearest_status doc other_error e = doc.server_error e

  -- Where FastAPI chooses the handler of the nearest class: a query that ran out of time is answered
  -- with 408, though it counts as cancelled too, another cancelled one and a conflict of keys with 409,
  -- a busy service with 429, a rejected request with 400, and every other exception with 500.
  pub reply_to_error_status :
      IsDocumented f → (e : Raised) → (reply_to_error f e).status ≡ status_of e.error_class
  unfolding reply_to_error
  reply_to_error_status doc e = rw (doc.nearest, nearest_status doc e.error_class e)

module _ ⦃V : Valkey⦄ ⦃P : Payloads⦄ ⦃H : Hashing⦄ (malformed : Raised) (f : Framework P.Row)
    (q : Config) where
  -- A submission whose Idempotency-Key is empty or has more than 255 characters is answered with the
  -- status of a failure of the server, 500, and not of a bad request; nothing is stored.
  pub create_job_bad_key :
      (request : QueryRequest) (key : Option String) (job_id : String) (now : ℕ) (w : World)
      → IsDocumented f
      → is_stream request.output.mode ≡ false
      → bad_length key ≡ true
      → let r = create_job malformed q request key job_id now w in
        ((reply f r.0).status ≡ 500) × (r.1 ≡ w)
  unfolding create_job enqueue reply submission status_of isinstance exception_of
  create_job_bad_key request key job_id now w doc mode bad = (
    rw (mode, bad, reply_to_error_status f doc (exception_of malformed bad_key_length)),
    rw (mode, bad),
  )

  accepted_again :
      IsDocumented f
      → (b : Bool) (r again : QueryRequest) (new : JobRecord P.Row) (id : String)
      → let second = reply f (
          submission malformed again (if b then Outcome.ok new else raised (bound_elsewhere id))) in
        (second.status ≡ (if b then 202 else 409))
        × (b ≡ true
            → location second.headers
              ≡ location (reply f (Result.ok (accepted malformed r new))).headers)
  unfolding submission reply accepted location status_of isinstance exception_of
  accepted_again doc true r again new id = (refl, λ e. refl)
  accepted_again doc false r again new id =
      (reply_to_error_status f doc (exception_of malformed (bound_elsewhere id)), λ e. absurd (cc))

  refused_again :
      IsDocumented f
      → (b : Bool) (again : QueryRequest) (id : String)
      → (reply f (
          submission malformed again
            (if b then raised record_expired else raised (bound_elsewhere id)))).status
        ≡ 409
  unfolding submission reply status_of isinstance exception_of
  refused_again doc true again id =
      reply_to_error_status f doc (exception_of malformed record_expired)
  refused_again doc false again id =
      reply_to_error_status f doc (exception_of malformed (bound_elsewhere id))

  pub create_job_again :
      (r again : QueryRequest) (key id other : String) (now later : ℕ) (w : World)
      (new : JobRecord P.Row)
      → IsDocumented f
      → is_stream r.output.mode ≡ false
      → is_stream again.output.mode ≡ false
      → bad_length (some key) ≡ false
      → Valkey.exists V w.db (idempotency_name q (H.sha256 key)) ≡ false
      → (enqueue q r (some key) id now w).0 ≡ Outcome.ok new
      → let first = create_job malformed q r (some key) id now w in
        let second = create_job malformed q again (some key) other later first.1 in
        (second.1 ≡ first.1)
        × ((reply f second.0).status ≡ (
            if request_payload_fingerprint r == request_payload_fingerprint again
            then 202
            else 409))
        × (request_payload_fingerprint r == request_payload_fingerprint again ≡ true
            → location (reply f second.0).headers ≡ location (reply f first.0).headers)
        × (let u : World = record first.1 { db = V.lapse (job_key q id) first.1.db } in
            let third = create_job malformed q again (some key) other later u in
            (third.1 ≡ u) × ((reply f third.0).status ≡ 409))
  unfolding create_job submission
  create_job_again r again key id other now later w new doc m m' l h c =
      let (unchanged, lapsed, anew) = resubmit q r again key id other now later w new l h c in
      let (status, address) =
        accepted_again doc (request_payload_fingerprint r == request_payload_fingerprint again) r
          again new id in
      rw (m, m', c, unchanged, lapsed)
        (
          refl,
          status,
          address,
          (
            refl,
            refused_again doc (request_payload_fingerprint r == request_payload_fingerprint again)
                again id,
          ),
        )
