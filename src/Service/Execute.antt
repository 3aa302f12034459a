-- ===== src/Service/Execute.antt =====
-- src/dalmatian/service.py: `execute` and `_execute_admitted`. Metrics are left out.
use dalmatian.Prelude.{
  ℕ, ◌+◌, String, Bool, true, false, ◌&&◌, ltb, max, ◌==◌, Option, none, some, List, ◌∷◌,
  if◌then◌else◌,
}
use dalmatian.Models.{QueryRequest, QueryResult, inline_result, stored_result, InlineResult}
use dalmatian.Models.Validation.{is_inline}
use dalmatian.Fingerprint.{Hashing, query_fingerprint}
use dalmatian.Errors.{Result, ok, err}
use dalmatian.Effects.{Action, ◌>>=◌, ◌>>◌, pure, raise, lift, catch, finally, attempt}
use dalmatian.Execution.{ExecutionContext}
use dalmatian.Datasets.Prepared.{PreparedQuery, source_versions, is_cache_safe}
use dalmatian.Service.Config.{ServiceConfig, ttl_of, validate, context_of, busy}
use dalmatian.Service.Environment.{
  Environment, Run, call, call_silently, note, took_slot, gave_slot, prepared, executed, looked,
  waited, stored, locked, unlocked, recorded, updated,
}

-- result.model_copy(update={"cached": …, "query_id": …})
abbrev pub marked : {Row : Type 0} → Bool → String → InlineResult Row → InlineResult Row
marked cached query_id v = record v { cached = cached; query_id = some query_id }

module _ ⦃H : Hashing⦄ {E Row : Type 0} (env : Environment E Row) (c : ServiceConfig) where
  -- self.engine.execute, and the result into the cache if it has a key.
  unfoldable pub store_result : Option String → InlineResult Row → ℕ → Action (Run E Row) (Unit {0})
  store_result none v ttl = pure tt
  store_result (some key) v ttl = call (stored key v ttl) (env.cache_set key v ttl)

  unfoldable pub finish_result :
      Option String
      → ℕ
      → ExecutionContext E
      → QueryResult Row
      → Action (Run E Row) (QueryResult Row)
  unfolding store_result
  finish_result key ttl context (inline_result v) =
      store_result key (marked false context.query_id v) ttl
      >> pure (inline_result (marked false context.query_id v))
  finish_result key ttl context (stored_result r) = pure (stored_result r)

  unfoldable pub run_query :
      Option String → ℕ → PreparedQuery → ExecutionContext E → Action (Run E Row) (QueryResult Row)
  run_query key ttl query context =
      call (executed context.query_id) (env.engine_execute query context)
      >>= finish_result key ttl context

  -- A lock that was given is noted.
  unfoldable pub note_lock : String → Option String → Action (Run E Row) (Option String)
  note_lock key none = pure none
  note_lock key (some token) = note (locked key token) >> pure (some token)

  unfoldable pub take_lock : String → ExecutionContext E → Action (Run E Row) (Option String)
  unfolding note_lock
  take_lock key context =
      call_silently
        (env.cache_acquire key (max c.singleflight_lock_seconds (context.timeout_seconds + 30)))
      >>= note_lock key

  unfoldable pub run_locked :
      String
      → String
      → ℕ
      → PreparedQuery
      → ExecutionContext E
      → Action (Run E Row) (QueryResult Row)
  run_locked key token ttl query context =
      finally (run_query (some key) ttl query context)
        (call (unlocked key token) (env.cache_release key token))

  unfoldable pub second_lock :
      String
      → ℕ
      → PreparedQuery
      → ExecutionContext E
      → Option String
      → Action (Run E Row) (QueryResult Row)
  second_lock key ttl query context none = raise (busy "equivalent query is already running")
  second_lock key ttl query context (some token) = run_locked key token ttl query context

  unfoldable pub after_wait :
      String
      → ℕ
      → PreparedQuery
      → ExecutionContext E
      → Option (InlineResult Row)
      → Action (Run E Row) (QueryResult Row)
  after_wait key ttl query context (some v) = pure (inline_result (marked true context.query_id v))
  after_wait key ttl query context none =
      take_lock key context >>= second_lock key ttl query context

  unfoldable pub first_lock :
      String
      → ℕ
      → PreparedQuery
      → ExecutionContext E
      → Option String
      → Action (Run E Row) (QueryResult Row)
  first_lock key ttl query context (some token) = run_locked key token ttl query context
  first_lock key ttl query context none =
      call (waited key) (env.cache_wait key) >>= after_wait key ttl query context

  unfoldable pub after_look :
      String
      → ℕ
      → PreparedQuery
      → ExecutionContext E
      → Option (InlineResult Row)
      → Action (Run E Row) (QueryResult Row)
  after_look key ttl query context (some v) = pure (inline_result (marked true context.query_id v))
  after_look key ttl query context none = take_lock key context >>= first_lock key ttl query context

  -- The key under which a result may be kept.
  unfoldable pub cache_key : QueryRequest → String → ℕ → PreparedQuery → Option String
  cache_key request normalized_sql ttl query =
      if (is_inline request.output.mode && ltb 0 ttl) && is_cache_safe query
      then some (query_fingerprint request normalized_sql (source_versions query))
      else none

  unfoldable pub with_key :
      Option String → ℕ → ExecutionContext E → PreparedQuery → Action (Run E Row) (QueryResult Row)
  with_key none ttl context query = run_query none ttl query context
  with_key (some key) ttl context query =
      call (looked key) (env.cache_get key) >>= after_look key ttl query context

  unfoldable pub execute_admitted :
      QueryRequest → String → ExecutionContext E → Action (Run E Row) (QueryResult Row)
  unfolding cache_key with_key
  execute_admitted request normalized_sql context = do
    ttl ← lift (ttl_of c request)
    query ← call prepared (env.prepare request normalized_sql)
    with_key (cache_key request normalized_sql ttl query) ttl context query

  unfoldable pub give_slot : Action (Run E Row) (Unit {0})
  give_slot s = (ok tt, record { env = env.slot_release s.env; log = gave_slot ∷ s.log })

  -- with self._slot()
  unfoldable pub with_slot : {A : Type 0} → Action (Run E Row) A → Action (Run E Row) A
  with_slot m s =
      let (free, e) = env.slot_acquire s.env in
      if free
      then finally m give_slot (record { env = e; log = took_slot ∷ s.log })
      else (err (busy "query concurrency limit reached"), record s { env = e })

  -- self._record and self._update: an exception of the store is logged and forgotten.
  unfoldable pub record_call : String → QueryRequest → Action (Run E Row) (Unit {0})
  record_call query_id request =
      attempt (call (recorded query_id "sync") (env.record_invocation query_id "sync" request))

  unfoldable pub update_call :
      String
      → String
      → Option (QueryResult Row)
      → Option String
      → Option String
      → Action (Run E Row) (Unit {0})
  update_call query_id status result error error_class = attempt (
      call (updated query_id status result error error_class)
        (env.update_invocation query_id status result error error_class))

  -- A synchronous query is recorded, and its end too.
  unfoldable pub told :
      String
      → QueryRequest
      → Action (Run E Row) (QueryResult Row)
      → Action (Run E Row) (QueryResult Row)
  unfolding record_call update_call
  told query_id request m = do
    record_call query_id request
    result ←
        catch m
          (λ e. update_call query_id "failed" none (some e.message) (some e.class_name) >> raise e)
    update_call query_id "succeeded" (some result) none none
    pure result

  unfoldable pub execute_in :
      QueryRequest → String → ExecutionContext E → Action (Run E Row) (QueryResult Row)
  execute_in request normalized_sql context =
      let admitted = with_slot (execute_admitted request normalized_sql context) in
      if context.kind == "sync" then told context.query_id request admitted else admitted

  -- sqlglot's validation, and the identifiers of a new context, are arguments.
  unfoldable pub execute :
      (String → List String → Result String)
      → QueryRequest
      → Option (ExecutionContext E)
      → String
      → String
      → Action (Run E Row) (QueryResult Row)
  unfolding execute_in
  execute validate_and_normalize request context query_id attempt_id = do
    normalized_sql ← lift (validate validate_and_normalize c request)
    context' ← lift (context_of c request context query_id attempt_id)
    execute_in request normalized_sql context'
