-- ===== src/Service/Ends.antt =====
-- How `execute` ends: what explains its result, and what the metadata store is told
-- (src/dalmatian/service.py).
use dalmatian.Prelude.{
  ◌≡◌, refl, String, ◌==◌, Option, none, some, List, [], ◌∷◌, ◌++◌, arith, if◌then◌else◌,
  Bool-cases, inl, inr,
}
use dalmatian.Models.{QueryRequest, QueryResult}
use dalmatian.Fingerprint.{Hashing}
use dalmatian.Errors.{Result, ok, err}
use dalmatian.Effects.{Action, ◌>>=◌, ◌>>◌, catch, pure, raise, lift}
use dalmatian.Execution.{ExecutionContext}
use dalmatian.Service.Config.{ServiceConfig, validate, context_of}
use dalmatian.Service.Environment.{Environment, Event, Run}
use dalmatian.Service.Execute.{
  with_slot, execute_admitted, record_call, update_call, told, execute_in, execute,
}
use dalmatian.Service.Reuse.{executions, stores}
use dalmatian.Service.Explanations.{
  Explained, Explained-quiet, unexplained, admitted-Explained, with_slot-Explained,
}
use mathlib.Core.List.{append-nil}
use dalmatian.Service.Balance.{tellings, oldest, Inner, with_slot-Inner, admitted-Inner}

module _ ⦃H : Hashing⦄ {E Row : Type 0} (env : Environment E Row) (c : ServiceConfig) where
  told-Explained :
      (query_id : String) (request : QueryRequest) (m : Action (Run E Row) (QueryResult Row))
      (s : Run E Row)
      → ((u : Run E Row) → Explained env c request u.log (m u).0 (m u).1.log)
      → let r = told env c query_id request m s in Explained env c request s.log r.0 r.1.log
  unfolding told record_call update_call executions stores
  told-Explained query_id request m s keep = by_result (m u).0 (m u).1 (keep u)
    where
      u : Run E Row
      u = record {
        env = (env.record_invocation query_id "sync" request s.env).1;
        log = Event.recorded query_id "sync" ∷ s.log;
      }

      by_result :
          (o : Result (QueryResult Row)) (v : Run E Row)
          → Explained env c request u.log o v.log
          → let r : Result (QueryResult Row) × Run E Row =
              (catch
                    (λ w. (o, v))
                    (λ e.
                      update_call env c query_id "failed" none (some e.message) (some e.class_name)
                      >> raise e)
                  >>= λ x. update_call env c query_id "succeeded" (some x) none none >> pure x)
                u in
            Explained env c request s.log r.0 r.1.log
      by_result (ok x) v h =
          Explained-quiet env c request (ok x) u.log s.log v.log
            (Event.updated query_id "succeeded" (some x) none none ∷ v.log) refl refl refl refl h
      by_result (err e) v h =
          unexplained env c request e s.log
            (Event.updated query_id "failed" none (some e.message) (some e.class_name) ∷ v.log)

  execute_in-Explained :
      (request : QueryRequest) (sql : String) (context : ExecutionContext E) (s : Run E Row)
      → let r = execute_in env c request sql context s in Explained env c request s.log r.0 r.1.log
  unfolding execute_in
  execute_in-Explained request sql context s =
      let m = with_slot env c (execute_admitted env c request sql context) in
      let inner = λ (u : Run E Row).
        with_slot-Explained env c request (execute_admitted env c request sql context) u
          (admitted-Explained env c request sql context) in
      elim (Bool-cases (context.kind == "sync")) [
        | inl e ↦ rw e (told-Explained context.query_id request m s inner)
        | inr e ↦ rw e (inner s)
      ]

  pub execute-Explained :
      (validate_sql : String → List String → Result String) (request : QueryRequest)
      (context : Option (ExecutionContext E)) (query_id attempt_id : String) (s : Run E Row)
      → let r = execute env c validate_sql request context query_id attempt_id s in
        Explained env c request s.log r.0 r.1.log
  unfolding execute
  execute-Explained validate_sql request context query_id attempt_id s =
      by_sql (validate validate_sql c request)
    where
      by_context :
          (sql : String) (o : Result (ExecutionContext E))
          → let r = (lift o >>= execute_in env c request sql) s in
            Explained env c request s.log r.0 r.1.log
      by_context sql (ok context') = execute_in-Explained request sql context' s
      by_context sql (err e) = unexplained env c request e s.log s.log

      by_sql :
          (o : Result String)
          → let r =
              (lift o >>= λ sql.
              lift (context_of c request context query_id attempt_id)
              >>= execute_in env c request sql)
                s in
            Explained env c request s.log r.0 r.1.log
      by_sql (ok sql) = by_context sql (context_of c request context query_id attempt_id)
      by_sql (err e) = unexplained env c request e s.log s.log

module _ {Row : Type 0} where
  -- What is told of a synchronous query that ended so: its begin, and its end.
  unfoldable pub begin_and_end : String → Result (QueryResult Row) → List (Event Row)
  begin_and_end query_id (ok x) =
      Event.updated query_id "succeeded" (some x) none none ∷ Event.recorded query_id "sync" ∷ []
  begin_and_end query_id (err e) =
      Event.updated query_id "failed" none (some e.message) (some e.class_name)
      ∷ Event.recorded query_id "sync"
      ∷ []

  -- A request that is refused at once is not told, nor a query that a job runs.
  unfoldable pub expected_tellings :
      {E : Type 0}
      → Result String
      → Result (ExecutionContext E)
      → Result (QueryResult Row)
      → List (Event Row)
  expected_tellings (ok sql) (ok context) r =
      if context.kind == "sync" then begin_and_end context.query_id r else []
  expected_tellings (ok sql) (err e) r = []
  expected_tellings (err e) context r = []

module _ {Row : Type 0} where
  -- The newest and the oldest of what was told stand around everything else of the log.
  unfoldable pub Surrounds : List (Event Row) → List (Event Row) → Type 0
  Surrounds [] log = Unit
  Surrounds (e ∷ told) [] = ⊥
  Surrounds (e ∷ told) (newest ∷ log) = (newest ≡ e) × (oldest (newest ∷ log) ≡ oldest (e ∷ told))

module _ ⦃H : Hashing⦄ {E Row : Type 0} (env : Environment E Row) (c : ServiceConfig) where
  told-tellings :
      (query_id : String) (request : QueryRequest) (m : Action (Run E Row) (QueryResult Row))
      (s : Run E Row)
      → ((u : Run E Row) → Inner env c "" "" u.log (m u).1.log)
      → let r = told env c query_id request m s in
        (tellings r.1.log ≡ begin_and_end query_id r.0 ++ tellings s.log)
        × (s.log ≡ [] → Surrounds (begin_and_end query_id r.0) r.1.log)
  unfolding told record_call update_call tellings begin_and_end oldest Surrounds
  told-tellings query_id request m s keep = ground (
    arith,
    keep (record {
      env = (env.record_invocation query_id "sync" request s.env).1;
      log = Event.recorded query_id "sync" ∷ s.log;
    }),
  )

  execute_in-tellings :
      (request : QueryRequest) (sql : String) (context : ExecutionContext E) (s : Run E Row)
      → s.log ≡ []
      → let r = execute_in env c request sql context s in
        let told = expected_tellings (ok sql) (ok context) r.0 in
        (tellings r.1.log ≡ told) × Surrounds told r.1.log
  unfolding execute_in expected_tellings tellings Surrounds
  execute_in-tellings request sql context s h =
      let m = with_slot env c (execute_admitted env c request sql context) in
      let inner = λ (u : Run E Row).
        with_slot-Inner env c "" "" (execute_admitted env c request sql context) u
          (admitted-Inner env c "" "" request sql context) in
      elim (Bool-cases (context.kind == "sync")) [
        | inl e ↦ rw e (
            ground (
              arith,
              told-tellings context.query_id request m s inner,
              append-nil
                  (begin_and_end context.query_id (told env c context.query_id request m s).0),
            ))
        | inr e ↦ rw e (ground (arith, inner s))
      ]

  -- In every environment: a synchronous query that passed the checks is recorded once, before anything
  -- else is done for it, and updated once, after everything else, with its result if it succeeded and
  -- with the message and the class of its exception if not; a query of a job and a request that the
  -- checks refuse are not told at all.
  pub execute-tellings :
      (validate_sql : String → List String → Result String) (request : QueryRequest)
      (context : Option (ExecutionContext E)) (query_id attempt_id : String) (s : Run E Row)
      → s.log ≡ []
      → let r = execute env c validate_sql request context query_id attempt_id s in
        let told =
          expected_tellings
            (validate validate_sql c request)
            (context_of c request context query_id attempt_id)
            r.0 in
        (tellings r.1.log ≡ told) × Surrounds told r.1.log
  unfolding execute expected_tellings tellings Surrounds
  execute-tellings validate_sql request context query_id attempt_id s h =
      grind (arith, execute_in-tellings)
