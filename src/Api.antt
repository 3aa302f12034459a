-- ===== src/Api.antt =====
-- src/dalmatian/api.py: the answers of the HTTP routes and the handlers of exceptions. How FastAPI
-- finds the handler of an exception, and what it answers without one, is an argument.
pub mod Queries
pub mod Jobs
pub mod Statuses
use dalmatian.Prelude.{
  ℕ, ◌≡◌, String, Bool, Option, none, some, List, [], ◌∷◌, nat_eq, if◌then◌else◌,
}
use dalmatian.Models.{QueryResult, JobRecord, ExplainResult, SourceInspection, StorageLocationInfo}
use dalmatian.Errors.{
  ErrorClass, busy_error, query_rejected, query_timeout, query_cancelled, idempotency_conflict,
  ancestors, class_number, Raised, Result, ok, err,
}
use dalmatian.Effects.{Action}

pub data Body (Row : Type 0) : Type 0 where
  -- {"detail": …}
  detail : String → Body Row
  fields : List (String × String) → Body Row
  result : QueryResult Row → Body Row
  -- the media type and the chunks of a StreamingResponse
  chunks : String → List (Result String) → Body Row
  job : JobRecord Row → Body Row
  explained : ExplainResult → Body Row
  inspected : SourceInspection → Body Row
  locations : List StorageLocationInfo → Body Row

pub record Reply (Row : Type 0) : Type 0 where
  pub status : ℕ
  pub headers : List (String × String)
  pub body : Body Row

module _ {Row : Type 0} where
  abbrev pub refusal : ℕ → String → Reply Row
  refusal status message = record { status = status; headers = []; body = detail message }

  abbrev pub success : Body Row → Reply Row
  success body = record { status = 200; headers = []; body = body }

  busy_handler : Raised → Reply Row
  busy_handler e = record {
    status = 429;
    headers = ("Retry-After", "1") ∷ [];
    body = detail e.message;
  }

  rejected_handler : Raised → Reply Row
  rejected_handler e = refusal 400 e.message

  timeout_handler : Raised → Reply Row
  timeout_handler e = refusal 408 e.message

  cancelled_handler : Raised → Reply Row
  cancelled_handler e = refusal 409 e.message

  idempotency_handler : Raised → Reply Row
  idempotency_handler e = refusal 409 e.message

-- What is registered with @app.exception_handler.
abbrev pub Handlers : Type 0 → Type 0
Handlers Row = List (ErrorClass × (Raised → Reply Row))

unfoldable pub handlers : {Row : Type 0} → Handlers Row
unfolding busy_handler rejected_handler timeout_handler cancelled_handler idempotency_handler
handlers =
    (busy_error, busy_handler)
    ∷ (query_rejected, rejected_handler)
    ∷ (query_timeout, timeout_handler)
    ∷ (query_cancelled, cancelled_handler)
    ∷ (idempotency_conflict, idempotency_handler)
    ∷ []

-- FastAPI: the handler that it chooses for a class, and its answer where it has none.
pub record Framework (Row : Type 0) : Type 0 where
  pub find : Handlers Row → ErrorClass → Option (Raised → Reply Row)
  pub unhandled : Raised → Reply Row

unfoldable pub registered : {Row : Type 0} → Handlers Row → ErrorClass → Option (Raised → Reply Row)
registered [] c = none
registered ((d, handler) ∷ rest) c =
    let later = registered rest c in
    if nat_eq (class_number d) (class_number c) then some handler else later

-- The first of the classes that has a handler.
unfoldable pub first_registered :
    {Row : Type 0} → Handlers Row → List ErrorClass → Option (Raised → Reply Row)
first_registered hs [] = none
first_registered hs (c ∷ cs) = elim (registered hs c) [
  | some h ↦ some h
  | none ↦ first_registered hs cs
]

-- Starlette's documented choice: the handler of the nearest class in the resolution order, and
-- status 500 where there is none.
pub record IsDocumented {Row : Type 0} (f : Framework Row) : Type 0 where
  pub nearest :
      (hs : Handlers Row) (c : ErrorClass) → f.find hs c ≡ first_registered hs (ancestors c)
  pub server_error : (e : Raised) → (f.unhandled e).status ≡ 500

module _ {Row : Type 0} (f : Framework Row) where
  unfoldable pub answer_by : Option (Raised → Reply Row) → Raised → Reply Row
  answer_by (some handler) e = handler e
  answer_by none e = f.unhandled e

  unfoldable pub reply_to_error : Raised → Reply Row
  unfolding answer_by
  reply_to_error e = answer_by (f.find handlers e.error_class) e

  -- A route's own answer, or the answer to what it raised.
  unfoldable pub reply : Result (Reply Row) → Reply Row
  reply (ok r) = r
  reply (err e) = reply_to_error e

live : {Row : Type 0} → Reply Row
live = success (fields (("status", "ok") ∷ []))

-- `values` is what the storage registry's `locations` answers or raises.
storage_locations : {Row : Type 0} → Result (List StorageLocationInfo) → Result (Reply Row)
storage_locations (ok values) = ok (success (locations values))
storage_locations (err e) = err e

-- The gauge is set if the queue can be asked for its depth; whatever that raises, the page is answered.
-- `generate_latest` is prometheus_client's.
metrics : {S : Type 0} → Action S ℕ → (ℕ → S → S) → (S → String) → S → String × S
metrics depth set_gauge generate_latest s =
    let (r, s') = depth s in
    elim r [
      | ok n ↦ (generate_latest (set_gauge n s'), set_gauge n s')
      | err e ↦ (generate_latest s', s')
    ]
