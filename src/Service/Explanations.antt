-- ===== src/Service/Explanations.antt =====
-- What explains how `execute` ends (src/dalmatian/service.py): a key that the request allows, and a
-- result that the cache or one run served.
use dalmatian.Prelude.{
  ℕ, ◌≡◌, refl, String, Bool, true, false, ◌&&◌, Option, none, some, List, ◌∷◌, arith,
  if◌then◌else◌, leb,
}
use dalmatian.Models.{QueryRequest, QueryResult}
use dalmatian.Models.Validation.{is_inline}
use dalmatian.Fingerprint.{Hashing}
use dalmatian.Errors.{Raised, Result, ok, err}
use dalmatian.Effects.{Action, ◌>>=◌, finally}
use dalmatian.Execution.{ExecutionContext}
use dalmatian.Datasets.Prepared.{PreparedQuery}
use dalmatian.Service.Config.{ServiceConfig, ttl_of, busy}
use dalmatian.Service.Environment.{Environment, Event, Run, call}
use dalmatian.Service.Execute.{cache_key, with_key, execute_admitted, give_slot, with_slot}
use dalmatian.Service.Reuse.{executions, stores, Serves, with_key-Serves}

module _ ⦃H : Hashing⦄ {E Row : Type 0} (env : Environment E Row) (c : ServiceConfig) where
  -- A key is used for inline output alone, with a time to live that is not zero nor too long.
  unfoldable pub is_allowed : QueryRequest → Option String → ℕ → Bool
  is_allowed request none ttl = true
  is_allowed request (some key) ttl =
      (leb 1 ttl && leb ttl c.max_cache_ttl_seconds) && is_inline request.output.mode

  -- Some key and time to live that the request allows explain the result and the log.
  unfoldable pub Explained :
      QueryRequest → List (Event Row) → Result (QueryResult Row) → List (Event Row) → Type 0
  Explained request before r after =
      (key : Option String) × (ttl : ℕ) × (is_allowed request key ttl ≡ true)
      × Serves key ttl before r after

  -- Events that are neither a run nor a write change nothing.
  Serves-quiet :
      (key : Option String) (ttl : ℕ) (r : Result (QueryResult Row)) (b b' a a' : List (Event Row))
      → executions b ≡ executions b'
      → stores b ≡ stores b'
      → executions a ≡ executions a'
      → stores a ≡ stores a'
      → Serves key ttl b r a
      → Serves key ttl b' r a'
  unfolding Serves
  Serves-quiet key ttl (err e) b b' a a' p q p' q' h = tt
  Serves-quiet key ttl (ok x) b b' a a' p q p' q' h = ground arith

  pub Explained-quiet :
      (request : QueryRequest) (r : Result (QueryResult Row)) (b b' a a' : List (Event Row))
      → executions b ≡ executions b'
      → stores b ≡ stores b'
      → executions a ≡ executions a'
      → stores a ≡ stores a'
      → Explained request b r a
      → Explained request b' r a'
  unfolding Explained
  Explained-quiet request r b b' a a' p q p' q' (key, ttl, allowed, h) =
      (key, ttl, allowed, Serves-quiet key ttl r b b' a a' p q p' q' h)

  pub unexplained :
      (request : QueryRequest) (e : Raised) (b a : List (Event Row)) → Explained request b (err e) a
  unfolding Explained Serves is_allowed
  unexplained request e b a = (none, 0, refl, tt)

  module _ (request : QueryRequest) (sql : String) (context : ExecutionContext E) where
    cache_key-is_allowed :
        (ttl : ℕ) (query : PreparedQuery)
        → ttl_of c request ≡ ok ttl
        → is_allowed request (cache_key env c request sql ttl query) ttl ≡ true
    unfolding is_allowed cache_key ttl_of
    cache_key-is_allowed ttl query h = ground arith

    prepared-Explained :
        (ttl : ℕ) (s : Run E Row)
        → ttl_of c request ≡ ok ttl
        → let r =
            (call Event.prepared (env.prepare request sql) >>= λ query.
            with_key env c (cache_key env c request sql ttl query) ttl context query)
              s in
          Explained request s.log r.0 r.1.log
    unfolding Explained Serves executions stores is_allowed
    prepared-Explained ttl s h =
        by_reply (env.prepare request sql s.env).0 (env.prepare request sql s.env).1
      where
        by_reply :
            (o : Result PreparedQuery) (e : E)
            → let u : Run E Row = record { env = e; log = Event.prepared ∷ s.log } in
              let r = elim o as (λ x. Result (QueryResult Row) × Run E Row) [
                | ok query ↦
                    with_key env c (cache_key env c request sql ttl query) ttl context query u
                | err x ↦ (err x, u)
              ] in
              Explained request s.log r.0 r.1.log
        by_reply (ok query) e =
            let key = cache_key env c request sql ttl query in
            let u : Run E Row = record { env = e; log = Event.prepared ∷ s.log } in
            let r = with_key env c key ttl context query u in
            (
              key,
              ttl,
              cache_key-is_allowed ttl query h,
              Serves-quiet key ttl r.0 u.log s.log r.1.log r.1.log refl refl refl refl
                  (with_key-Serves env c key ttl context query u),
            )
        by_reply (err x) e = (none, 0, refl, tt)

    pub admitted-Explained :
        (s : Run E Row)
        → let r = execute_admitted env c request sql context s in
          Explained request s.log r.0 r.1.log
    unfolding execute_admitted
    admitted-Explained s = by_ttl (ttl_of c request) refl
      where
        by_ttl :
            (t : Result ℕ)
            → ttl_of c request ≡ t
            → let r = elim t as (λ x. Result (QueryResult Row) × Run E Row) [
              | ok ttl ↦
                  (call Event.prepared (env.prepare request sql) >>= λ query.
                  with_key env c (cache_key env c request sql ttl query) ttl context query)
                    s
              | err x ↦ (err x, s)
            ] in
              Explained request s.log r.0 r.1.log
        by_ttl (ok ttl) h = prepared-Explained ttl s h
        by_ttl (err x) h = unexplained request x s.log s.log

  pub with_slot-Explained :
      (request : QueryRequest) (m : Action (Run E Row) (QueryResult Row)) (s : Run E Row)
      → ((u : Run E Row) → Explained request u.log (m u).0 (m u).1.log)
      → let r = with_slot env c m s in Explained request s.log r.0 r.1.log
  unfolding with_slot give_slot executions stores
  with_slot-Explained request m s keep =
      by_slot (env.slot_acquire s.env).0 (env.slot_acquire s.env).1
    where
      by_slot :
          (free : Bool) (e : E)
          → let r : Result (QueryResult Row) × Run E Row =
              if free
              then finally m (give_slot env c) (record { env = e; log = Event.took_slot ∷ s.log })
              else (err (busy "query concurrency limit reached"), record s { env = e }) in
            Explained request s.log r.0 r.1.log
      by_slot true e =
          let u : Run E Row = record { env = e; log = Event.took_slot ∷ s.log } in
          Explained-quiet request (m u).0 u.log s.log (m u).1.log (Event.gave_slot ∷ (m u).1.log)
            refl refl refl refl (keep u)
      by_slot false e = unexplained request (busy "query concurrency limit reached") s.log s.log
