-- ===== src/Spark/Running.antt =====
-- src/dalmatian/spark.py: `execute`, `stream` and `inspect` around the views of a query. The work on the
-- frame and csv.writer are arguments; rows come one by one and may end in an exception.
use Prim.Native.String.{◌++◌}
use dalmatian.Prelude.{String, Bool, none, some, List, [], ◌∷◌, or_else, if◌then◌else◌}
use dalmatian.Models.{
  DeliveryMode, OutputFormat, OutputSpec, InlineResult, StoredResult, QueryResult, inline_result,
  stored_result, SourceSpec, SourceColumn, SourceInspection,
}
use dalmatian.Errors.{Raised, Result, ok, err, value_error}
use dalmatian.Effects.{Action, ◌>>=◌, pure, raise}
use dalmatian.Execution.{ExecutionContext}
use dalmatian.Datasets.Prepared.{ResolvedSource}
use dalmatian.Spark.Scope.{Diagnosis, query_scope}

abbrev refused : String → Raised
refused message = record { error_class = value_error; class_name = "ValueError"; message = message }

module _ {S E Row : Type 0} (d : Diagnosis) (timed_out : S → Bool) where
  -- self._inline and self._store are arguments; another mode is refused outside the scope.
  unfoldable pub engine_execute :
      DeliveryMode
      → ExecutionContext E
      → Action S (InlineResult Row)
      → Action S StoredResult
      → Action S (QueryResult Row)
  engine_execute DeliveryMode.inline context inlined stored =
      query_scope d timed_out context (inlined >>= λ r. pure (inline_result r))
  engine_execute DeliveryMode.store context inlined stored =
      query_scope d timed_out context (stored >>= λ r. pure (stored_result r))
  engine_execute DeliveryMode.stream context inlined stored =
      raise (refused "stream output must use the streaming execution path")

-- Rows in JSON, each with a line's end; an exception ends them, as the scope words it.
unfoldable pub jsonl : (Raised → Raised) → List (Result String) → List (Result String)
jsonl worded [] = []
jsonl worded (ok row ∷ rows) = ok (row ++ "\n") ∷ jsonl worded rows
jsonl worded (err e ∷ rows) = err (worded e) ∷ []

module _ (writerow : List String → String) where
  rows_of : (Raised → Raised) → List (Result (List String)) → List (Result String)
  rows_of worded [] = []
  rows_of worded (ok row ∷ rows) = ok (writerow row) ∷ rows_of worded rows
  rows_of worded (err e ∷ rows) = err (worded e) ∷ []

  -- The names of the columns first.
  unfoldable pub csv_rows :
      (Raised → Raised) → List String → List (Result (List String)) → List (Result String)
  unfolding rows_of
  csv_rows worded columns rows = ok (writerow columns) ∷ rows_of worded rows

  by_format :
      OutputFormat
      → List (Result String)
      → List (Result String)
      → Result (String × List (Result String))
  by_format OutputFormat.jsonl lines table = ok ("application/x-ndjson", lines)
  by_format OutputFormat.csv lines table = ok ("text/csv", table)
  by_format _ lines table = err (refused "stream output format must be csv or jsonl")

  -- The frame's rows in JSON, its columns and its rows are arguments.
  unfoldable pub engine_stream :
      OutputSpec
      → (Raised → Raised)
      → List (Result String)
      → List String
      → List (Result (List String))
      → Result (String × List (Result String))
  unfolding by_format
  engine_stream output worded json columns rows = elim output.mode [
    | DeliveryMode.stream ↦
        by_format output.format (jsonl worded json) (csv_rows worded columns rows)
    | _ ↦ err (refused "request output mode is not stream")
  ]

-- The schema of the frame is an argument.
unfoldable pub inspection : SourceSpec → ResolvedSource → List SourceColumn → SourceInspection
inspection source r columns = record {
  location = or_else source.location "local";
  resolved_uri = r.uri;
  fingerprint = if r.cache_safe then some r.fingerprint else none;
  cache_safe = r.cache_safe;
  columns = columns;
}
