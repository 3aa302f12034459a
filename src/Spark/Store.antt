-- ===== src/Spark/Store.antt =====
-- `_store` and `_write_manifest` of src/dalmatian/spark.py: how a stored output comes to be published.
-- Spark, the file system, the storage registry and json are arguments; the log holds the calls.
use Prim.Native.String.{◌++◌}
use dalmatian.Prelude.{ℕ, String, Bool, true, false, Option, none, some, List, ◌∷◌, if◌then◌else◌}
use dalmatian.Models.{StoredResult, OutputFormat, write_mode_value}
use dalmatian.Errors.{Raised, Result, commit_fenced, file_exists_error, value_error, other_error}
use dalmatian.Effects.{Action, ◌>>=◌, pure, raise}
use dalmatian.Execution.{ExecutionContext}
use dalmatian.Datasets.Prepared.{PreparedQuery, source_versions}
use dalmatian.Storage.Locations.{ResolvedDestination}
use dalmatian.Jobs.Scripts.Lease.{Published, fenced, taken, published}

pub record StoreCalls (E Frame : Type 0) : Type 0 where
  -- self.storage.resolve(location, path)
  pub resolve : String → String → Action E ResolvedDestination
  -- self._frame(prepared), and its number of partitions
  pub frame : PreparedQuery → Action E Frame
  pub partitions : Frame → ℕ
  -- writer.parquet, .csv and .json, in mode errorifexists
  pub write_data : OutputFormat → Frame → List (String × String) → String → Action E (Unit {0})
  -- mkdirs of the parent, and create with overwrite=False
  pub write_manifest : String → String → Action E (Unit {0})
  -- the manifest's text: result, attempt and number of the attempt; the clock is within
  pub manifest_payload : StoredResult → String → ℕ → String
  pub publication_key : ResolvedDestination → String
  -- int(self.storage.publish_sync(…)): destination, query, attempt, manifest and write mode
  pub publish_sync : ResolvedDestination → String → String → String → String → Action E Published

pub data StoreEvent : Type 0 where
  wrote_data wrote_manifest : String → StoreEvent
  -- can_commit, with its answer
  asked : Result Bool → StoreEvent
  -- publication key and manifest, with the registry's answer
  offered : String → String → Result Published → StoreEvent

-- The newest event first.
pub record StoreRun (E : Type 0) : Type 0 where
  pub env : E
  pub log : List StoreEvent

-- A call, and the event that its result gives.
abbrev pub perform : {E A : Type 0} → (Result A → StoreEvent) → Action E A → Action (StoreRun E) A
perform event m s = let (r, e) = m s.env in (r, record { env = e; log = event r ∷ s.log })

abbrev pub quietly : {E A : Type 0} → Action E A → Action (StoreRun E) A
quietly m s = let (r, e) = m s.env in (r, record { env = e; log = s.log })

abbrev pub fenced_at : String → Raised
fenced_at message = record {
  error_class = commit_fenced;
  class_name = "CommitFenced";
  message = message;
}

abbrev pub invalid : String → Raised
invalid message = record { error_class = value_error; class_name = "ValueError"; message = message }

unfoldable pub data_uri : String → String → String → String
data_uri uri query_id attempt_id = uri ++ ("/_dalmatian_data/" ++ (query_id ++ ("/" ++ attempt_id)))

unfoldable pub manifest_uri : String → String → String → String
manifest_uri uri query_id attempt_id =
    uri ++ ("/_dalmatian_manifests/" ++ (query_id ++ ("/" ++ (attempt_id ++ ".json"))))

unfoldable pub is_json : OutputFormat → Bool
is_json OutputFormat.json = true
is_json _ = false

module _ {E Frame : Type 0} (calls : StoreCalls E Frame) where
  -- The result that the manifest holds.
  unfoldable pub stored_as :
      PreparedQuery → ExecutionContext E → ResolvedDestination → Frame → StoredResult
  stored_as query context logical frame = record {
    query_id = context.query_id;
    format = query.request.output.format;
    location = logical.location;
    path = logical.path;
    manifest_uri = manifest_uri logical.uri context.query_id context.attempt_id;
    data_uri = data_uri logical.uri context.query_id context.attempt_id;
    partitions = calls.partitions frame;
    source_versions = source_versions query;
  }

  unfoldable pub publish_by :
      Option (String → String → String → Action E Published)
      → ResolvedDestination
      → ExecutionContext E
      → String
      → String
      → Action E Published
  publish_by (some publish_output) logical context manifest mode =
      publish_output (calls.publication_key logical) manifest mode
  publish_by none logical context manifest mode =
      calls.publish_sync logical context.query_id context.attempt_id manifest mode

  unfoldable pub conclude :
      ResolvedDestination → StoredResult → Published → Action (StoreRun E) StoredResult
  conclude logical result published = pure result
  conclude logical result taken = raise (record {
    error_class = file_exists_error;
    class_name = "FileExistsError";
    message = "stored output already exists: " ++ logical.path;
  })
  conclude logical result fenced = raise (fenced_at "job lease changed during output publication")

  module _ (query : PreparedQuery) (context : ExecutionContext E)
      (logical : ResolvedDestination) where
    unfoldable pub offer : StoredResult → Action (StoreRun E) StoredResult
    offer result =
        perform (offered (calls.publication_key logical) result.manifest_uri) (
          publish_by context.publish_output logical context result.manifest_uri
            (write_mode_value query.request.output.write_mode))
        >>= conclude logical result

    -- The manifest, and then the publication.
    unfoldable pub publish_result : StoredResult → Action (StoreRun E) StoredResult
    publish_result result =
        perform (λ r. wrote_manifest result.manifest_uri)
          (calls.write_manifest result.manifest_uri
            (calls.manifest_payload result context.attempt_id context.attempt_number))
        >>= λ done. offer result

    unfoldable pub commit : StoredResult → Bool → Action (StoreRun E) StoredResult
    commit result true = publish_result result
    commit result false = raise (fenced_at "job lease changed before output publication")

    unfoldable pub ask_lease : StoredResult → Action (StoreRun E) StoredResult
    ask_lease result = perform asked context.can_commit >>= commit result

    unfoldable pub write_frame : Frame → Action (StoreRun E) StoredResult
    write_frame frame =
        let result = stored_as query context logical frame in
        perform (λ r. wrote_data result.data_uri)
          (calls.write_data query.request.output.format frame query.request.output.options
            result.data_uri)
        >>= λ done. ask_lease result

  unfoldable pub store_at :
      PreparedQuery
      → ExecutionContext E
      → Option String
      → Option String
      → Action (StoreRun E) StoredResult
  store_at query context (some location) (some path) =
      if is_json query.request.output.format
      then raise (invalid "stored json uses jsonl format; json is reserved for inline output")
      else (quietly (calls.resolve location path) >>= λ logical.
          quietly (calls.frame query) >>= write_frame query context logical)
  store_at query context location path =
      raise (record { error_class = other_error; class_name = "AssertionError"; message = "" })

  -- self._store(prepared, context)
  unfoldable pub store : PreparedQuery → ExecutionContext E → Action (StoreRun E) StoredResult
  store query context =
      store_at query context query.request.output.location query.request.output.path
