-- ===== src/Service/Balance.antt =====
-- What `execute` takes, it gives back: slots and locks (src/dalmatian/service.py).
use dalmatian.Prelude.{
  ℕ, ◌+◌, ◌≡◌, String, ◌&&◌, ◌==◌, Option, none, some, is_some, true, List, [], ◌∷◌, arith,
  if◌then◌else◌, Bool-cases, inl, inr,
}
use dalmatian.Models.{QueryRequest, QueryResult, InlineResult}
use dalmatian.Fingerprint.{Hashing}
use dalmatian.Errors.{Result, ok}
use dalmatian.Effects.{Action, ◌>>=◌}
use dalmatian.Execution.{ExecutionContext}
use dalmatian.Datasets.Prepared.{PreparedQuery}
use dalmatian.Service.Config.{ServiceConfig}
use dalmatian.Service.Environment.{Environment, Event, Run}
use dalmatian.Service.Lock.{lock_log, take_lock_rule}
use dalmatian.Service.Execute.{
  store_result, finish_result, run_query, take_lock, run_locked, second_lock, after_wait,
  first_lock, after_look, with_key, execute_admitted, give_slot, with_slot, record_call,
  update_call, told, execute_in, execute,
}

module _ {Row : Type 0} where
  unfoldable pub slots_taken : List (Event Row) → ℕ
  slots_taken [] = 0
  slots_taken (Event.took_slot ∷ log) = 1 + slots_taken log
  slots_taken (_ ∷ log) = slots_taken log

  unfoldable pub slots_given : List (Event Row) → ℕ
  slots_given [] = 0
  slots_given (Event.gave_slot ∷ log) = 1 + slots_given log
  slots_given (_ ∷ log) = slots_given log

  -- The locks of a key and a token that were taken, and that were given back.
  unfoldable pub locks_taken : String → String → List (Event Row) → ℕ
  locks_taken key token [] = 0
  locks_taken key token (Event.locked k t ∷ log) =
      (if (k == key) && (t == token) then 1 else 0) + locks_taken key token log
  locks_taken key token (_ ∷ log) = locks_taken key token log

  unfoldable pub locks_given : String → String → List (Event Row) → ℕ
  locks_given key token [] = 0
  locks_given key token (Event.unlocked k t ∷ log) =
      (if (k == key) && (t == token) then 1 else 0) + locks_given key token log
  locks_given key token (_ ∷ log) = locks_given key token log

  -- What the metadata store was told, the newest first.
  unfoldable pub tellings : List (Event Row) → List (Event Row)
  tellings [] = []
  tellings (Event.recorded q kind ∷ log) = Event.recorded q kind ∷ tellings log
  tellings (Event.updated q status result e name ∷ log) =
      Event.updated q status result e name ∷ tellings log
  tellings (_ ∷ log) = tellings log

  unfoldable pub oldest : List (Event Row) → Option (Event Row)
  oldest [] = none
  oldest (e ∷ log) = elim (oldest log) [ none ↦ some e | some first ↦ some first ]

module _ ⦃H : Hashing⦄ {E Row : Type 0} (env : Environment E Row) (c : ServiceConfig)
    (k t : String) where
  -- Between two logs as many slots and locks are taken as given back.
  record Balanced (before after : List (Event Row)) : Type 0 where
    pub slots : slots_taken after + slots_given before ≡ slots_given after + slots_taken before
    pub locks :
        locks_taken k t after + locks_given k t before
        ≡ locks_given k t after + locks_taken k t before

  -- And the metadata store is told nothing, above what came before.
  pub record Inner (before after : List (Event Row)) : Type 0 where
    pub slots : slots_taken after + slots_given before ≡ slots_given after + slots_taken before
    pub locks :
        locks_taken k t after + locks_given k t before
        ≡ locks_given k t after + locks_taken k t before
    pub told_nothing : tellings after ≡ tellings before
    pub kept : is_some (oldest before) ≡ true → oldest after ≡ oldest before

  run_query-Inner :
      (key : Option String) (ttl : ℕ) (query : PreparedQuery) (context : ExecutionContext E)
      (s : Run E Row)
      → Inner s.log (run_query env c key ttl query context s).1.log
  unfolding run_query finish_result store_result slots_taken slots_given locks_taken locks_given
      tellings oldest
  run_query-Inner none ttl query context s = ground arith
  run_query-Inner (some key) ttl query context s = ground arith

  module _ (key : String) (ttl : ℕ) (query : PreparedQuery) (context : ExecutionContext E) where
    -- A query that began with its lock just taken ends with it given back.
    run_locked-Inner :
        (token : String) (before : List (Event Row)) (s : Run E Row)
        → s.log ≡ Event.locked key token ∷ before
        → Inner before (run_locked env c key token ttl query context s).1.log
    unfolding run_locked slots_taken slots_given locks_taken locks_given tellings oldest
    run_locked-Inner token before s h =
        ground (arith, run_query-Inner (some key) ttl query context s)

    take_lock-Inner :
        (f : Option String → Action (Run E Row) (QueryResult Row)) (s : Run E Row)
        → ((o : Option String) (u : Run E Row)
            → u.log ≡ lock_log key (ok o) s.log
            → Inner s.log (f o u).1.log)
        → Inner s.log ((take_lock env c key context >>= f) s).1.log
    take_lock-Inner f s keep =
        take_lock_rule env c key context (λ x. Inner s.log x.1.log) f s keep (λ e u h. ground arith)

    second_lock-Inner :
        (before : List (Event Row)) (o : Option String) (u : Run E Row)
        → u.log ≡ lock_log key (ok o) before
        → Inner before (second_lock env c key ttl query context o u).1.log
    unfolding second_lock lock_log oldest
    second_lock-Inner before none u h = ground arith
    second_lock-Inner before (some token) u h = run_locked-Inner token before u h

    after_wait-Inner :
        (o : Option (InlineResult Row)) (s : Run E Row)
        → Inner s.log (after_wait env c key ttl query context o s).1.log
    unfolding after_wait
    after_wait-Inner (some v) s = ground arith
    after_wait-Inner none s =
        take_lock-Inner (second_lock env c key ttl query context) s (second_lock-Inner s.log)

    first_lock-Inner :
        (before : List (Event Row)) (o : Option String) (u : Run E Row)
        → u.log ≡ lock_log key (ok o) before
        → Inner before (first_lock env c key ttl query context o u).1.log
    unfolding first_lock lock_log slots_taken slots_given locks_taken locks_given tellings oldest
    first_lock-Inner before (some token) u h = run_locked-Inner token before u h
    first_lock-Inner before none u h = grind (arith, after_wait-Inner)

    after_look-Inner :
        (o : Option (InlineResult Row)) (s : Run E Row)
        → Inner s.log (after_look env c key ttl query context o s).1.log
    unfolding after_look
    after_look-Inner (some v) s = ground arith
    after_look-Inner none s =
        take_lock-Inner (first_lock env c key ttl query context) s (first_lock-Inner s.log)

  with_key-Inner :
      (key : Option String) (ttl : ℕ) (context : ExecutionContext E) (query : PreparedQuery)
      (s : Run E Row)
      → Inner s.log (with_key env c key ttl context query s).1.log
  unfolding with_key slots_taken slots_given locks_taken locks_given tellings oldest
  with_key-Inner none ttl context query s = run_query-Inner none ttl query context s
  with_key-Inner (some key) ttl context query s = grind (arith, after_look-Inner)

  pub admitted-Inner :
      (request : QueryRequest) (sql : String) (context : ExecutionContext E) (s : Run E Row)
      → Inner s.log (execute_admitted env c request sql context s).1.log
  unfolding execute_admitted slots_taken slots_given locks_taken locks_given tellings oldest
  admitted-Inner request sql context s = grind (arith, with_key-Inner)

  -- A call is kept balanced by a slot that it runs in.
  pub with_slot-Inner :
      (m : Action (Run E Row) (QueryResult Row)) (s : Run E Row)
      → ((u : Run E Row) → Inner u.log (m u).1.log)
      → Inner s.log (with_slot env c m s).1.log
  unfolding with_slot give_slot slots_taken slots_given locks_taken locks_given tellings oldest
  with_slot-Inner m s keep =
      ground
        (arith, keep (record { env = (env.slot_acquire s.env).1; log = Event.took_slot ∷ s.log }))

  told-Balanced :
      (query_id : String) (request : QueryRequest) (m : Action (Run E Row) (QueryResult Row))
      (s : Run E Row)
      → ((u : Run E Row) → Inner u.log (m u).1.log)
      → Balanced s.log (told env c query_id request m s).1.log
  unfolding told record_call update_call slots_taken slots_given locks_taken locks_given
  told-Balanced query_id request m s keep = ground (
    arith,
    keep (record {
      env = (env.record_invocation query_id "sync" request s.env).1;
      log = Event.recorded query_id "sync" ∷ s.log;
    }),
  )

  execute_in-Balanced :
      (request : QueryRequest) (sql : String) (context : ExecutionContext E) (s : Run E Row)
      → Balanced s.log (execute_in env c request sql context s).1.log
  unfolding execute_in
  execute_in-Balanced request sql context s =
      let m = with_slot env c (execute_admitted env c request sql context) in
      let inner = λ (u : Run E Row).
        with_slot-Inner (execute_admitted env c request sql context) u
          (admitted-Inner request sql context) in
      elim (Bool-cases (context.kind == "sync")) [
        | inl e ↦ rw e (told-Balanced context.query_id request m s inner)
        | inr e ↦ rw e (ground (arith, inner s))
      ]

  ends-Balanced :
      (validate_sql : String → List String → Result String) (request : QueryRequest)
      (context : Option (ExecutionContext E)) (query_id attempt_id : String) (s : Run E Row)
      → Balanced s.log (execute env c validate_sql request context query_id attempt_id s).1.log
  unfolding execute
  ends-Balanced validate_sql request context query_id attempt_id s =
      grind (arith, execute_in-Balanced)

  -- In every environment, however `execute` ends, the slots taken are as many as the slots given
  -- back, and for every key and token the locks taken are as many as the locks given back.
  pub execute-Balanced :
      (validate_sql : String → List String → Result String) (request : QueryRequest)
      (context : Option (ExecutionContext E)) (query_id attempt_id : String) (s : Run E Row)
      → s.log ≡ []
      → let log = (execute env c validate_sql request context query_id attempt_id s).1.log in
        (slots_taken log ≡ slots_given log) × (locks_taken k t log ≡ locks_given k t log)
  unfolding slots_taken slots_given locks_taken locks_given
  execute-Balanced validate_sql request context query_id attempt_id s h =
      ground (arith, ends-Balanced validate_sql request context query_id attempt_id s)
