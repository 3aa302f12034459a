-- ===== src/Api/Queries.antt =====
-- src/dalmatian/api.py: the routes that ask the query service. `checks` stands for what the service and
-- the queue answer when they are asked whether they are ready.
use Prim.Native.String.{◌++◌}
use dalmatian.Prelude.{String, Bool, true, false, none, List, [], ◌∷◌, or_else, if◌then◌else◌}
use dalmatian.Models.{
  OutputFormat, QueryRequest, QueryResult, inline_result, stored_result, SourceSpec,
}
use dalmatian.Fingerprint.{Hashing, dataset_affinity_key}
use dalmatian.Errors.{Result, ok, err}
use dalmatian.Effects.{Action, ◌>>=◌, pure}
use dalmatian.Execution.{ExecutionContext}
use dalmatian.Service.Config.{ServiceConfig}
use dalmatian.Service.Environment.{Environment, Run}
use dalmatian.Service.Execute.{execute}
use dalmatian.Service.Stream.{is_stream, stream, affinity_key, explain, inspect}
use dalmatian.Api.{Reply, refusal, success, fields, result, chunks, explained, inspected}

-- service.ready() and queue.ping()
both : {S : Type 0} → Action S Bool → Action S Bool → Action S Bool
both ready ping = ready >>= λ first. if first then ping else pure false

unfoldable pub ready : {S Row : Type 0} → Action S Bool → Action S Bool → Action S (Reply Row)
unfolding both
ready service_ready ping s =
    let (r, s') = both service_ready ping s in
    elim r [
      | err e ↦ (ok (refusal 503 e.message), s')
      | ok true ↦ (ok (success (fields (("status", "ok") ∷ []))), s')
      | ok false ↦ (ok (refusal 503 "not ready"), s')
    ]

extension : OutputFormat → String
extension OutputFormat.csv = "csv"
extension _ = "jsonl"

query_id_of : {Row : Type 0} → QueryResult Row → String
query_id_of (inline_result r) = or_else r.query_id ""
query_id_of (stored_result r) = r.query_id

cache_header : {Row : Type 0} → QueryResult Row → List (String × String)
cache_header (inline_result r) =
    ("X-Dalmatian-Result-Cache", if r.cached then "hit" else "miss") ∷ []
cache_header (stored_result r) = []

unfoldable pub result_reply : {Row : Type 0} → String → QueryResult Row → Reply Row
unfolding query_id_of cache_header
result_reply affinity r = record {
  status = 200;
  headers =
      ("X-Dalmatian-Query-Id", query_id_of r)
      ∷ ("X-Dalmatian-Affinity-Key", affinity)
      ∷ cache_header r;
  body = result r;
}

unfoldable pub stream_reply :
    {E Row : Type 0}
    → QueryRequest
    → String
    → (String × List (Result String)) × ExecutionContext E
    → Reply Row
unfolding extension
stream_reply request affinity ((media_type, rows), context) = record {
  status = 200;
  headers =
      (
        "Content-Disposition",
        "inline; filename=\"dalmatian-result." ++ (extension request.output.format ++ "\""),
      )
      ∷ ("X-Dalmatian-Query-Id", context.query_id)
      ∷ ("X-Dalmatian-Result-Cache", "bypass")
      ∷ ("X-Dalmatian-Affinity-Key", affinity)
      ∷ [];
  body = chunks media_type rows;
}

module _ ⦃H : Hashing⦄ {E Row : Type 0} (env : Environment E Row) (c : ServiceConfig)
    (validate_sql : String → List String → Result String) (query_id attempt_id : String) where
  query_route : Bool → QueryRequest → Action (Run E Row) (Reply Row)
  query_route true request = do
    opened ← stream env c validate_sql request none query_id attempt_id
    pure (stream_reply request (dataset_affinity_key request) opened)
  query_route false request = do
    answer ← execute env c validate_sql request none query_id attempt_id
    pure (result_reply (dataset_affinity_key request) answer)

  unfoldable pub query : QueryRequest → Action (Run E Row) (Reply Row)
  unfolding query_route
  query request = query_route (is_stream request.output.mode) request

  unfoldable pub query_affinity : QueryRequest → Result (Reply Row)
  query_affinity request = elim (affinity_key env c validate_sql request) [
    | err e ↦ err e
    | ok key ↦ ok (success (fields (("key", key) ∷ [])))
  ]

  explain_route : QueryRequest → Action (Run E Row) (Reply Row)
  explain_route request = do
    plan ← explain env c validate_sql request query_id attempt_id
    pure (success (explained plan))

  inspect_source : SourceSpec → Action (Run E Row) (Reply Row)
  inspect_source source = do found ← inspect env c source; pure (success (inspected found))
