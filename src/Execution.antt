-- ===== src/Execution.antt =====
-- src/dalmatian/execution.py: the context that a query runs in. `E` is the state that its callbacks
-- read and change; new identifiers (uuid4) are arguments of whoever makes a context.
use dalmatian.Prelude.{ℕ, String, Bool, true, Option, none}
use dalmatian.Errors.{ok}
use dalmatian.Effects.{Action}
use dalmatian.Jobs.Scripts.Lease.{Published}

-- "sync" and "async" are the kinds that the code passes.
pub record ExecutionContext (E : Type 0) : Type 0 where
  pub query_id : String
  pub attempt_id : String
  pub attempt_number : ℕ
  pub timeout_seconds : ℕ
  pub can_commit : Action E Bool
  -- publication key, manifest and write mode
  pub publish_output : Option (String → String → String → Action E Published)
  pub kind : String

-- ExecutionContext(timeout_seconds=…) with new identifiers
unfoldable pub default_context : {E : Type 0} → String → String → ℕ → ExecutionContext E
default_context query_id attempt_id timeout_seconds = record {
  query_id = query_id;
  attempt_id = attempt_id;
  attempt_number = 0;
  timeout_seconds = timeout_seconds;
  can_commit = λ s. (ok true, s);
  publish_output = none;
  kind = "sync";
}
