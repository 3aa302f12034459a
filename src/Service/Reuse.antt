-- ===== src/Service/Reuse.antt =====
-- What `execute` computes, what it takes from the cache and what it keeps (src/dalmatian/service.py).
use dalmatian.Prelude.{
  ℕ, ◌+◌, ◌≡◌, String, Bool, false, Option, none, some, List, [], ◌∷◌, arith, if◌then◌else◌,
}
use dalmatian.Models.{QueryResult, inline_result, stored_result, InlineResult}
use dalmatian.Fingerprint.{Hashing}
use dalmatian.Errors.{Result, ok, err}
use dalmatian.Effects.{Action, ◌>>=◌}
use dalmatian.Execution.{ExecutionContext}
use dalmatian.Datasets.Prepared.{PreparedQuery}
use dalmatian.Service.Config.{ServiceConfig}
use dalmatian.Service.Environment.{Environment, Event, Run}
use dalmatian.Service.Lock.{lock_log, take_lock_rule}
use dalmatian.Service.Execute.{
  store_result, finish_result, run_query, take_lock, run_locked, second_lock, after_wait,
  first_lock, after_look, with_key,
}

module _ {Row : Type 0} where
  -- How often the engine ran.
  unfoldable pub executions : List (Event Row) → ℕ
  executions [] = 0
  executions (Event.executed q ∷ log) = 1 + executions log
  executions (_ ∷ log) = executions log

  -- What was written into the cache, with key and time to live.
  unfoldable pub stores : List (Event Row) → List (String × InlineResult Row × ℕ)
  stores [] = []
  stores (Event.stored key v ttl ∷ log) = (key, v, ttl) ∷ stores log
  stores (_ ∷ log) = stores log

  unfoldable pub from_cache : QueryResult Row → Bool
  from_cache (inline_result v) = v.cached
  from_cache (stored_result r) = false

  -- What a result adds to the cache's writes: itself, if it is inline, new and has a key.
  unfoldable pub kept :
      Option String
      → ℕ
      → QueryResult Row
      → List (String × InlineResult Row × ℕ)
      → List (String × InlineResult Row × ℕ)
  kept none ttl x old = old
  kept (some key) ttl (stored_result r) old = old
  kept (some key) ttl (inline_result v) old = if v.cached then old else (key, v, ttl) ∷ old

  -- A result with its log: the engine ran once for it, unless it is from the cache, and the cache was
  -- given what it keeps.
  unfoldable pub Serves :
      Option String → ℕ → List (Event Row) → Result (QueryResult Row) → List (Event Row) → Type 0
  Serves key ttl before (err e) after = Unit
  Serves key ttl before (ok x) after =
      (executions after ≡ executions before + (if from_cache x then 0 else 1))
      × (stores after ≡ kept key ttl x (stores before))

module _ ⦃H : Hashing⦄ {E Row : Type 0} (env : Environment E Row) (c : ServiceConfig) where
  run_query-Serves :
      (key : Option String) (ttl : ℕ) (query : PreparedQuery) (context : ExecutionContext E)
      (s : Run E Row)
      → let r = run_query env c key ttl query context s in Serves key ttl s.log r.0 r.1.log
  unfolding run_query finish_result store_result Serves executions stores kept from_cache
  run_query-Serves none ttl query context s = ground arith
  run_query-Serves (some key) ttl query context s = ground arith

  module _ (key : String) (ttl : ℕ) (query : PreparedQuery) (context : ExecutionContext E) where
    run_locked-Serves :
        (token : String) (before : List (Event Row)) (s : Run E Row)
        → s.log ≡ Event.locked key token ∷ before
        → let r = run_locked env c key token ttl query context s in
          Serves (some key) ttl before r.0 r.1.log
    unfolding run_locked Serves executions stores
    run_locked-Serves token before s h =
        ground (arith, run_query-Serves (some key) ttl query context s)

    take_lock-Serves :
        (f : Option String → Action (Run E Row) (QueryResult Row)) (s : Run E Row)
        → ((o : Option String) (u : Run E Row)
            → u.log ≡ lock_log key (ok o) s.log
            → Serves (some key) ttl s.log (f o u).0 (f o u).1.log)
        → let r = (take_lock env c key context >>= f) s in Serves (some key) ttl s.log r.0 r.1.log
    unfolding Serves
    take_lock-Serves f s keep =
        take_lock_rule env c key context (λ x. Serves (some key) ttl s.log x.0 x.1.log) f s keep
          (λ e u h. tt)

    second_lock-Serves :
        (before : List (Event Row)) (o : Option String) (u : Run E Row)
        → u.log ≡ lock_log key (ok o) before
        → let r = second_lock env c key ttl query context o u in
          Serves (some key) ttl before r.0 r.1.log
    unfolding second_lock lock_log Serves
    second_lock-Serves before none u h = tt
    second_lock-Serves before (some token) u h = run_locked-Serves token before u h

    after_wait-Serves :
        (o : Option (InlineResult Row)) (s : Run E Row)
        → let r = after_wait env c key ttl query context o s in
          Serves (some key) ttl s.log r.0 r.1.log
    unfolding after_wait Serves kept from_cache
    after_wait-Serves (some v) s = ground arith
    after_wait-Serves none s =
        take_lock-Serves (second_lock env c key ttl query context) s (second_lock-Serves s.log)

    first_lock-Serves :
        (before : List (Event Row)) (o : Option String) (u : Run E Row)
        → u.log ≡ lock_log key (ok o) before
        → let r = first_lock env c key ttl query context o u in
          Serves (some key) ttl before r.0 r.1.log
    unfolding first_lock lock_log Serves executions stores
    first_lock-Serves before (some token) u h = run_locked-Serves token before u h
    first_lock-Serves before none u h = grind (arith, after_wait-Serves)

    after_look-Serves :
        (o : Option (InlineResult Row)) (s : Run E Row)
        → let r = after_look env c key ttl query context o s in
          Serves (some key) ttl s.log r.0 r.1.log
    unfolding after_look Serves kept from_cache
    after_look-Serves (some v) s = ground arith
    after_look-Serves none s =
        take_lock-Serves (first_lock env c key ttl query context) s (first_lock-Serves s.log)

  pub with_key-Serves :
      (key : Option String) (ttl : ℕ) (context : ExecutionContext E) (query : PreparedQuery)
      (s : Run E Row)
      → let r = with_key env c key ttl context query s in Serves key ttl s.log r.0 r.1.log
  unfolding with_key Serves executions stores
  with_key-Serves none ttl context query s = run_query-Serves none ttl query context s
  with_key-Serves (some key) ttl context query s = grind (arith, after_look-Serves)
