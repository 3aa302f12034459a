-- ===== src/Service/Stream.antt =====
-- src/dalmatian/service.py: `stream` with the iterator that it returns, and the methods beside
-- `execute`. Metrics are left out.
use dalmatian.Prelude.{
  ℕ, zero, suc, String, Bool, true, false, ◌==◌, Option, none, some, List, [], ◌∷◌, if◌then◌else◌,
}
use dalmatian.Models.{QueryRequest, SourceSpec, SourceInspection, ExplainResult, DeliveryMode}
use dalmatian.Fingerprint.{Hashing, dataset_affinity_key}
use dalmatian.Errors.{Raised, Result, ok, err}
use dalmatian.Effects.{Action, ◌>>=◌, ◌>>◌, pure, raise, lift, catch}
use dalmatian.Execution.{ExecutionContext, default_context}
use dalmatian.Datasets.Prepared.{source_versions}
use dalmatian.Service.Config.{ServiceConfig, validate, context_of, timeout_of, busy, rejected}
use dalmatian.Service.Environment.{
  Environment, Run, call, call_silently, took_slot, prepared, executed, cancelled,
}
use dalmatian.Service.Execute.{record_call, update_call, with_slot, give_slot}

unfoldable pub is_stream : DeliveryMode → Bool
is_stream DeliveryMode.stream = true
is_stream _ = false

-- How the reading of a stream ends.
pub data Ending : Type 0 where
  finished disconnected : Ending
  failed : Raised → Ending

-- The reader asks for a chunk so many times, and then goes away.
unfoldable pub deliver : ℕ → List (Result String) → List String × Ending
deliver zero rows = ([], disconnected)
deliver (suc n) [] = ([], finished)
deliver (suc n) (err e ∷ rows) = ([], failed e)
deliver (suc n) (ok chunk ∷ rows) = let rest = deliver n rows in (chunk ∷ rest.0, rest.1)

module _ ⦃H : Hashing⦄ {E Row : Type 0} (env : Environment E Row) (c : ServiceConfig) where
  -- if is_sync
  unfoldable pub if_sync :
      ExecutionContext E → Action (Run E Row) (Unit {0}) → Action (Run E Row) (Unit {0})
  if_sync context m = if context.kind == "sync" then m else pure tt

  unfoldable pub slot_refused :
      ExecutionContext E → Action (Run E Row) (String × List (Result String))
  unfolding if_sync
  slot_refused context =
      if_sync context (
        update_call env c context.query_id "failed" none (some "query concurrency limit reached")
          none)
      >> raise (busy "query concurrency limit reached")

  unfoldable pub stream_failed :
      ExecutionContext E → Raised → Action (Run E Row) (String × List (Result String))
  unfolding if_sync
  stream_failed context e =
      give_slot env c
      >> if_sync context
          (update_call env c context.query_id "failed" none (some e.message) (some e.class_name))
      >> raise e

  -- Under the slot: the media type and the rows.
  unfoldable pub open_stream :
      QueryRequest
      → String
      → ExecutionContext E
      → Action (Run E Row) (String × List (Result String))
  unfolding stream_failed
  open_stream request normalized_sql context =
      catch
        (call prepared (env.prepare request normalized_sql) >>= λ query.
          call (executed context.query_id) (env.engine_stream query context))
        (stream_failed context)

  unfoldable pub admit_stream :
      QueryRequest
      → String
      → ExecutionContext E
      → Action (Run E Row) (String × List (Result String))
  admit_stream request normalized_sql context s =
      let (free, e) = env.slot_acquire s.env in
      if free
      then open_stream request normalized_sql context (record { env = e; log = took_slot ∷ s.log })
      else slot_refused context (record s { env = e })

  unfoldable pub stream_in :
      QueryRequest
      → String
      → ExecutionContext E
      → Action (Run E Row) (String × List (Result String))
  unfolding if_sync
  stream_in request normalized_sql context =
      if_sync context (record_call env c context.query_id request)
      >> admit_stream request normalized_sql context

  abbrev pub Opened : Type 0
  Opened = (String × List (Result String)) × ExecutionContext E

  unfoldable pub open_in : QueryRequest → String → ExecutionContext E → Action (Run E Row) Opened
  open_in request normalized_sql context s =
      let (r, s') = stream_in request normalized_sql context s in
      elim r [ ok opened ↦ (ok (opened, context), s') | err e ↦ (err e, s') ]

  unfoldable pub checked_stream :
      QueryRequest
      → Option (ExecutionContext E)
      → String
      → String
      → String
      → Action (Run E Row) Opened
  checked_stream request context query_id attempt_id normalized_sql =
      if is_stream request.output.mode
      then lift (context_of c request context query_id attempt_id)
        >>= open_in request normalized_sql
      else raise (rejected "request output mode is not stream")

  -- self.stream(request, context), with the context that it made.
  unfoldable pub stream :
      (String → List String → Result String)
      → QueryRequest
      → Option (ExecutionContext E)
      → String
      → String
      → Action (Run E Row) Opened
  stream validate_and_normalize request context query_id attempt_id =
      lift (validate validate_and_normalize c request)
      >>= checked_stream request context query_id attempt_id

  unfoldable pub tell_ending : ExecutionContext E → Ending → Action (Run E Row) (Unit {0})
  unfolding if_sync
  tell_ending context finished =
      if_sync context (update_call env c context.query_id "succeeded" none none none)
  tell_ending context (failed e) =
      if_sync context
        (update_call env c context.query_id "failed" none (some e.message) (some e.class_name))
  tell_ending context disconnected = if_sync context (
      update_call env c context.query_id "cancelled" none
        (some "stream consumer disconnected before completion") none)

  cancel_query : String → Action (Run E Row) (Unit {0})
  cancel_query query_id = call (cancelled query_id) (env.engine_cancel query_id)

  -- guarded(): nothing of it runs before the reader's first request, not even the `finally`. An
  -- engine.cancel that raises takes the return of the slot with it.
  unfoldable pub read_stream :
      ExecutionContext E → List (Result String) → ℕ → Action (Run E Row) (List String)
  unfolding cancel_query
  read_stream context rows zero = pure []
  read_stream context rows (suc n) =
      let (chunks, ending) = deliver (suc n) rows in
      tell_ending context ending >> cancel_query context.query_id >> give_slot env c >> pure chunks

  unfoldable pub affinity_key :
      (String → List String → Result String) → QueryRequest → Result String
  affinity_key validate_and_normalize request = elim (validate validate_and_normalize c request) [
    | err e ↦ err e
    | ok sql ↦ ok (dataset_affinity_key request)
  ]

  unfoldable pub explain :
      (String → List String → Result String)
      → QueryRequest
      → String
      → String
      → Action (Run E Row) ExplainResult
  explain validate_and_normalize request query_id attempt_id = do
    normalized ← lift (validate validate_and_normalize c request)
    timeout ← lift (timeout_of c request)
    let context : ExecutionContext E = default_context query_id attempt_id timeout
    with_slot env c do
      query ← call prepared (env.prepare request normalized)
      plan ← call_silently (env.engine_explain query context)
      pure (record {
        query_id = query_id;
        normalized_sql = normalized;
        source_versions = source_versions query;
        plan = plan;
      })

  unfoldable pub inspect : SourceSpec → Action (Run E Row) SourceInspection
  inspect source = with_slot env c (call_silently (env.engine_inspect source))
