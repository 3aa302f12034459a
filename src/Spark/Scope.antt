-- ===== src/Spark/Scope.antt =====
-- `_query_scope` of src/dalmatian/spark.py: what an exception of a query becomes. Whether the timer
-- had fired, "cancel" in str(exc).lower(), whether it is Spark's AnalysisException, and the first line
-- of its text, are arguments.
use Prim.Native.String.{◌++◌}
use dalmatian.Prelude.{ℕ, String, Bool, if◌then◌else◌}
use dalmatian.Prelude.Decimal.{str}
use dalmatian.Errors.{Raised, query_timeout, query_cancelled, query_rejected}
use dalmatian.Effects.{Action, raise, catch}
use dalmatian.Execution.{ExecutionContext}

pub record Diagnosis : Type 0 where
  pub mentions_cancel : Raised → Bool
  pub is_analysis : Raised → Bool
  -- str(exc).splitlines()[0][:500]
  pub detail : Raised → String

unfoldable pub scope_error : Diagnosis → Bool → ℕ → Raised → Raised
scope_error d timed_out timeout_seconds e =
    if timed_out
    then record {
      error_class = query_timeout;
      class_name = "QueryTimeout";
      message = "query exceeded " ++ (str timeout_seconds ++ " seconds");
    }
    else if d.mentions_cancel e
    then record {
      error_class = query_cancelled;
      class_name = "QueryCancelled";
      message = "query was cancelled";
    }
    else if d.is_analysis e
    then record {
      error_class = query_rejected;
      class_name = "QueryRejected";
      message = "query analysis failed: " ++ d.detail e;
    }
    else e

-- with self._query_scope(context): `timed_out` reads the flag when the exception arrives.
unfoldable pub query_scope :
    {S A E : Type 0} → Diagnosis → (S → Bool) → ExecutionContext E → Action S A → Action S A
query_scope d timed_out context m =
    catch m (λ e s. raise (scope_error d (timed_out s) context.timeout_seconds e) s)
