-- ===== src/Service/Environment.antt =====
-- src/dalmatian/service.py: what the service calls, as operations of an environment `E` (the engine,
-- the result cache, the metadata store and the slots, with everything that others do meanwhile), and
-- the log of the calls.
use dalmatian.Prelude.{ℕ, String, Bool, Option, List, ◌∷◌}
use dalmatian.Models.{QueryRequest, QueryResult, InlineResult, SourceSpec, SourceInspection}
use dalmatian.Errors.{Result, ok}
use dalmatian.Effects.{Action}
use dalmatian.Execution.{ExecutionContext}
use dalmatian.Datasets.Prepared.{PreparedQuery}

pub record Environment (E Row : Type 0) : Type 0 where
  -- QueryEngine
  pub prepare : QueryRequest → String → Action E PreparedQuery
  pub engine_execute : PreparedQuery → ExecutionContext E → Action E (QueryResult Row)
  pub engine_stream : PreparedQuery → ExecutionContext E → Action E (String × List (Result String))
  -- ResultCache
  pub cache_get : String → Action E (Option (InlineResult Row))
  pub cache_set : String → InlineResult Row → ℕ → Action E (Unit {0})
  pub cache_acquire : String → ℕ → Action E (Option String)
  pub cache_wait : String → Action E (Option (InlineResult Row))
  pub cache_release : String → String → Action E (Unit {0})
  -- MetadataStore
  pub record_invocation : String → String → QueryRequest → Action E (Unit {0})
  pub update_invocation :
      String
      → String
      → Option (QueryResult Row)
      → Option String
      → Option String
      → Action E (Unit {0})
  -- BoundedSemaphore: whether a slot was free before the wait was over; the return of a slot
  pub slot_acquire : E → Bool × E
  pub slot_release : E → E
  pub engine_explain : PreparedQuery → ExecutionContext E → Action E String
  pub engine_inspect : SourceSpec → Action E SourceInspection
  pub engine_cancel : String → Action E (Unit {0})

pub data Event (Row : Type 0) : Type 0 where
  took_slot gave_slot prepared : Event Row
  executed looked waited cancelled : String → Event Row
  stored : String → InlineResult Row → ℕ → Event Row
  locked unlocked : String → String → Event Row
  recorded : String → String → Event Row
  updated : String → String → Option (QueryResult Row) → Option String → Option String → Event Row

-- The newest event first.
pub record Run (E Row : Type 0) : Type 0 where
  pub env : E
  pub log : List (Event Row)

module _ {E Row : Type 0} where
  -- A call, with its event.
  abbrev pub call : {A : Type 0} → Event Row → Action E A → Action (Run E Row) A
  call event m s = let (r, env) = m s.env in (r, record { env = env; log = event ∷ s.log })

  -- A call whose event depends on how it ends.
  abbrev pub call_silently : {A : Type 0} → Action E A → Action (Run E Row) A
  call_silently m s = let (r, env) = m s.env in (r, record { env = env; log = s.log })

  abbrev pub note : Event Row → Action (Run E Row) (Unit {0})
  note event s = (ok tt, record s { log = event ∷ s.log })
