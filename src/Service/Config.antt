-- ===== src/Service/Config.antt =====
-- src/dalmatian/service.py: the service's settings and the checks of a request against them.
-- `validate_and_normalize` stands on sqlglot: it is an argument.
use Prim.Native.String.{◌++◌}
use dalmatian.Prelude.{
  ℕ, String, ◌&&◌, ltb, nat_eq, Option, none, some, List, [], ◌∷◌, or_else, if◌then◌else◌,
}
use dalmatian.Prelude.Decimal.{str}
use dalmatian.Models.{QueryRequest, SourceSpec}
use dalmatian.Models.Validation.{is_inline}
use dalmatian.Errors.{Raised, Result, ok, err, query_rejected, busy_error}
use dalmatian.Execution.{ExecutionContext, default_context}

pub record ServiceConfig : Type 0 where
  pub default_cache_ttl_seconds : ℕ
  pub max_cache_ttl_seconds : ℕ
  pub result_row_limit : ℕ
  pub max_concurrent_queries : ℕ
  pub default_query_timeout_seconds : ℕ
  pub max_query_timeout_seconds : ℕ
  pub singleflight_lock_seconds : ℕ

abbrev pub rejected : String → Raised
rejected message = record {
  error_class = query_rejected;
  class_name = "QueryRejected";
  message = message;
}

abbrev pub busy : String → Raised
busy message = record { error_class = busy_error; class_name = "BusyError"; message = message }

-- self._ttl(request)
unfoldable pub ttl_of : ServiceConfig → QueryRequest → Result ℕ
ttl_of c r =
    let ttl = or_else r.cache_ttl_seconds c.default_cache_ttl_seconds in
    if ltb c.max_cache_ttl_seconds ttl
    then err (rejected ("cache_ttl_seconds cannot exceed " ++ str c.max_cache_ttl_seconds))
    else ok ttl

-- `or`: a timeout of zero counts as none.
requested_timeout : Option ℕ → ℕ → ℕ
requested_timeout none default = default
requested_timeout (some n) default = if nat_eq n 0 then default else n

-- self._timeout(request)
unfoldable pub timeout_of : ServiceConfig → QueryRequest → Result ℕ
unfolding requested_timeout
timeout_of c r =
    let timeout = requested_timeout r.timeout_seconds c.default_query_timeout_seconds in
    if ltb c.max_query_timeout_seconds timeout
    then err (rejected ("timeout_seconds cannot exceed " ++ str c.max_query_timeout_seconds))
    else ok timeout

abbrev names : List (String × SourceSpec) → List String
names [] = []
names ((name, source) ∷ rest) = name ∷ names rest

-- self._validate(request)
unfoldable pub validate :
    (String → List String → Result String) → ServiceConfig → QueryRequest → Result String
validate validate_and_normalize c r =
    if is_inline r.output.mode && ltb c.result_row_limit r.max_rows
    then err (rejected ("max_rows cannot exceed " ++ str c.result_row_limit))
    else validate_and_normalize r.sql (names r.sources)

-- self._context(request, context), with the identifiers for a new one.
with_timeout : {E : Type 0} → Option (ExecutionContext E) → String → String → ℕ → ExecutionContext E
with_timeout none query_id attempt_id timeout = default_context query_id attempt_id timeout
with_timeout (some context) query_id attempt_id timeout = record context {
  timeout_seconds = timeout;
}

unfoldable pub context_of :
    {E : Type 0}
    → ServiceConfig
    → QueryRequest
    → Option (ExecutionContext E)
    → String
    → String
    → Result (ExecutionContext E)
unfolding with_timeout
context_of c r context query_id attempt_id = elim (timeout_of c r) [
  | err e ↦ err e
  | ok timeout ↦ ok (with_timeout context query_id attempt_id timeout)
]
