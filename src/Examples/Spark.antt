-- ===== src/Examples/Spark.antt =====
-- The Spark engine's own code, paths and sources at concrete inputs (src/dalmatian/spark.py,
-- src/dalmatian/paths.py and src/dalmatian/datasets.py).
use Prim.Native.String.{count}
use dalmatian.Prelude.{
  ℕ, String, ◌≡◌, refl, true, false, none, some, List, [], ◌∷◌, take, length, leb, ltb, map,
  if◌then◌else◌,
}
use dalmatian.Models.{SourceSpec, OutputFormat, DeliveryMode, DataFormat}
use dalmatian.Errors.{ok, err}
use dalmatian.Execution.{ExecutionContext, default_context}
use dalmatian.Datasets.Prepared.{PreparedQuery}
use dalmatian.Datasets.Sources.{SourceFiles, IsSafe, resolve_source, resolve_source-IsSafe}
use dalmatian.Jobs.Scripts.Lease.{published}
use dalmatian.Paths.{FileSystem, IsContained, resolve_paths, resolve_paths-IsContained}
use dalmatian.Spark.Inline.{inline, total_size, too_long, inline_lem}
use dalmatian.Spark.Store.{StoreCalls, StoreRun, store}
use dalmatian.Spark.Reading.{Sessions, ViewRun, frame, prepare}
use dalmatian.Spark.Views.{Made, IsPrepared, frame-Made, prepare-IsPrepared}
use dalmatian.Spark.Stages.{Staged}
use dalmatian.Spark.Order.{store-Staged}
use Prim.Native.String.{◌++◌}
use text.Mathlib.Text.{starts_with, ◌==◌}
use Prim.Native.Nat.{◌+◌}
use dalmatian.Examples.Methods.{hashing, request, output}

abbrev two_rows : List String
two_rows = "1" ∷ "22" ∷ []

inline_lem_example : inline count count "q" ("n" ∷ []) 1 100 two_rows ≡ (
    if leb (total_size count count (take 1 two_rows)) 100
    then ok (record {
      query_id = some "q";
      columns = "n" ∷ [];
      rows = map count (take 1 two_rows);
      truncated = ltb 1 (length two_rows);
      cached = false;
    })
    else err too_long)
inline_lem_example = inline_lem count count "q" ("n" ∷ []) 1 100 two_rows

abbrev calls : StoreCalls ℕ ℕ
calls = record {
  resolve = λ location path s.
      (ok (record { location = location; path = path; uri = "file:///out/r" }), s);
  frame = λ query s. (ok 3, s);
  partitions = λ frame. frame;
  write_data = λ format frame options uri s. (ok tt, s + 1);
  write_manifest = λ uri text s. (ok tt, s + 1);
  manifest_payload = λ result attempt number. "{}";
  publication_key = λ d. d.path;
  publish_sync = λ d query attempt manifest mode s. (ok published, s);
}

abbrev stored_query : PreparedQuery
stored_query = record {
  request = record request {
    output = record output {
      mode = DeliveryMode.store;
      format = OutputFormat.parquet;
      location = some "out";
      path = some "r";
    };
  };
  sources = [];
  normalized_sql = "SELECT 1";
}

abbrev context : ExecutionContext ℕ
context = default_context "q" "a" 30

abbrev start : StoreRun ℕ
start = record { env = 0; log = [] }

store-Staged_example : let r = store calls stored_query context start in Staged r.1.log r.0
store-Staged_example = store-Staged calls stored_query context start refl

-- One file below the root, and one that a link leads out to.
abbrev files : FileSystem
files = record {
  root = "/data";
  resolve = λ path. if path == "/data/link.csv" then "/etc/passwd" else path;
  is_relative_to = λ path root. starts_with path root;
  exists = λ path. true;
  is_file = λ path. true;
  is_absolute = λ path. false;
  join = λ root path. root ++ ("/" ++ path);
  glob = λ pattern. "/data/a.csv" ∷ "/data/link.csv" ∷ [];
  sorted_set = λ paths. paths;
}

resolve_paths-IsContained_example : IsContained files (resolve_paths files "*.csv")
resolve_paths-IsContained_example = resolve_paths-IsContained files (λ ps h. h) "*.csv"

abbrev source_files : SourceFiles
source_files = record {
  root_uri = "file:///data";
  resolve_location = λ location path.
      ok (record { location = location; path = path; uri = "s3a://bucket/" ++ path });
  scheme = λ uri. if starts_with uri "file:" then "file" else "s3a";
  local_path = λ uri. uri;
  relative = λ path. some path;
  resolve_paths = λ path. ok (path ∷ []);
  sorted_glob = λ path. [];
  files_of = λ path. path ∷ [];
  size = λ path. 10;
  modified = λ path. 1;
  as_uri = λ path. path;
}

-- A source in a bucket, without a version.
abbrev bucket_source : SourceSpec
bucket_source = record {
  path = "a.csv";
  format = DataFormat.csv;
  location = some "lake";
  options = [];
  version = none;
  schema_definition = none;
  infer_schema = true;
}

resolve_source-IsSafe_example :
    IsSafe source_files bucket_source (resolve_source source_files bucket_source)
resolve_source-IsSafe_example = resolve_source-IsSafe source_files bucket_source

-- A reader that always answers, and two sources of which one is safe to cache.
abbrev sessions : Sessions ℕ ℕ
sessions = record {
  escape = λ c. "x";
  read = λ format target options schema s. (ok 1, s + 1);
  where_path = λ pattern frame s. (ok frame, s);
  new_session = λ s. (ok tt, s);
  get_or_load = λ key load s. load s;
  keep_view = λ fingerprint frame s. (ok "view", s);
  name_view = λ name view s. (ok tt, s);
  name_frame = λ name frame s. (ok tt, s);
  sql = λ text s. (ok 7, s);
}

abbrev two_sources : PreparedQuery
two_sources = record {
  request = record request { sources = ("a", bucket_source) ∷ ("b", bucket_source) ∷ [] };
  sources =
      (
        "a",
        record { uri = "s3a://bucket/a"; fingerprint = "f"; cache_safe = true; read_uris = none },
      )
      ∷ (
        "b",
        record { uri = "s3a://bucket/b"; fingerprint = "g"; cache_safe = false; read_uris = none },
      )
      ∷ [];
  normalized_sql = "SELECT 1";
}

abbrev no_views : ViewRun ℕ
no_views = record { env = 0; log = [] }

frame-Made_example :
    let r = frame sessions two_sources no_views in
    Made sessions two_sources.sources two_sources.request.sources no_views.log r.0 r.1.log
frame-Made_example = frame-Made sessions two_sources no_views

prepare-IsPrepared_example :
    IsPrepared source_files
      (("a", bucket_source) ∷ [])
      (prepare source_files (record request { sources = ("a", bucket_source) ∷ [] }) "SELECT 1")
prepare-IsPrepared_example =
    prepare-IsPrepared source_files (record request { sources = ("a", bucket_source) ∷ [] })
      "SELECT 1"
