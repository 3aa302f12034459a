-- ===== src/Examples/Service.antt =====
-- The query service at concrete inputs (src/dalmatian/service.py): an engine that answers one row, a
-- cache that holds nothing, and slots that are counted down.
use dalmatian.Prelude.{ℕ, ◌+◌, ◌-◌, String, ◌≡◌, refl, true, none, some, List, [], ◌∷◌}
use dalmatian.Models.{QueryRequest, DeliveryMode}
use dalmatian.Errors.{Result, ok, err, value_error}
use dalmatian.Effects.{◌>>=◌}
use dalmatian.Datasets.Prepared.{PreparedQuery}
use dalmatian.Service.Config.{ServiceConfig, validate, context_of}
use dalmatian.Service.Environment.{Environment, Run}
use dalmatian.Service.Execute.{execute}
use dalmatian.Service.Stream.{stream}
use dalmatian.Service.Balance.{
  tellings, slots_taken, slots_given, locks_taken, locks_given, execute-Balanced,
}
use dalmatian.Service.Explanations.{Explained}
use dalmatian.Service.Ends.{expected_tellings, Surrounds, execute-Explained, execute-tellings}
use dalmatian.Service.Streaming.{read_opened, leftover, stream-slots}
use dalmatian.Examples.Methods.{answer, hashing, request, output}

abbrev prepared_query : PreparedQuery
prepared_query = record { request = request; sources = []; normalized_sql = "SELECT 1" }

abbrev environment : Environment ℕ ℕ
environment = record {
  prepare = λ r sql s. (ok prepared_query, s);
  engine_execute = λ query context s. (ok answer, s);
  engine_stream = λ query context s. (ok ("text/csv", ok "n" ∷ ok "1" ∷ []), s);
  cache_get = λ key s. (ok none, s);
  cache_set = λ key value ttl s. (ok tt, s);
  cache_acquire = λ key ttl s. (ok (some "token"), s);
  cache_wait = λ key s. (ok none, s);
  cache_release = λ key token s. (ok tt, s);
  record_invocation = λ id kind r s. (ok tt, s);
  update_invocation = λ id status result error class s. (ok tt, s);
  slot_acquire = λ s. (true, s - 1);
  slot_release = λ s. s + 1;
  engine_explain = λ query context s. (ok "plan", s);
  engine_inspect = λ source s.
      (err (record { error_class = value_error; class_name = "ValueError"; message = "" }), s);
  engine_cancel = λ query_id s. (ok tt, s);
}

abbrev config : ServiceConfig
config = record {
  default_cache_ttl_seconds = 60;
  max_cache_ttl_seconds = 3600;
  result_row_limit = 10000;
  max_concurrent_queries = 4;
  default_query_timeout_seconds = 30;
  max_query_timeout_seconds = 300;
  singleflight_lock_seconds = 60;
}

abbrev checked : String → List String → Result String
checked sql names = ok sql

abbrev start : Run ℕ ℕ
start = record { env = 4; log = [] }

abbrev streamed_request : QueryRequest
streamed_request = record request { output = record output { mode = DeliveryMode.stream } }

execute-Balanced_example :
    let log = (execute environment config checked request none "q" "a" start).1.log in
    (slots_taken log ≡ slots_given log)
    × (locks_taken "k" "token" log ≡ locks_given "k" "token" log)
execute-Balanced_example =
    execute-Balanced environment config "k" "token" checked request none "q" "a" start refl

execute-Explained_example :
    let r = execute environment config checked request none "q" "a" start in
    Explained environment config request start.log r.0 r.1.log
execute-Explained_example = execute-Explained environment config checked request none "q" "a" start

execute-tellings_example :
    let r = execute environment config checked request none "q" "a" start in
    let told =
      expected_tellings {E = ℕ}
        (validate checked config request)
        (context_of config request none "q" "a")
        r.0 in
    (tellings r.1.log ≡ told) × Surrounds told r.1.log
execute-tellings_example =
    execute-tellings environment config checked request none "q" "a" start refl

stream-slots_example :
    let opened = stream environment config checked streamed_request none "q" "a" in
    let log = ((opened >>= read_opened environment config 0) start).1.log in
    slots_taken log
    ≡ slots_given log
      + leftover environment config 0
          (opened start).0
          ((opened >>= read_opened environment config 0) start).0
stream-slots_example =
    stream-slots environment config checked streamed_request none "q" "a" 0 start refl
