-- ===== src/Metadata.antt =====
-- src/dalmatian/metadata.py: the rows that the store keeps of queries and jobs, and the storage
-- locations. The database is its rows; a primary key that is taken is refused as SQL does. What json
-- reads in a request and prints is an argument, and so is the time between two instants.
pub mod Rows
pub mod History
pub mod Admin
use dalmatian.Prelude.{
  ℕ, String, Bool, true, false, not, ◌||◌, Option, none, some, List, [], ◌∷◌, length, ◌==◌,
  if◌then◌else◌, or_else, is_some,
}
use dalmatian.Models.{
  OutputFormat, InlineResult, StoredResult, QueryResult, inline_result, stored_result,
}
use dalmatian.Errors.{Raised, Result, ok, err}

-- A row of dalmatian_invocations, at times of type `T`.
pub record Invocation (T : Type 0) : Type 0 where
  pub id : String
  pub kind : String
  pub status : String
  pub attempts : ℕ
  pub request_json : String
  pub output_mode : Option String
  pub output_format : Option String
  pub output_location : Option String
  pub output_path : Option String
  pub cached : Option Bool
  pub rows_returned : Option ℕ
  pub bytes_returned : Option ℕ
  pub truncated : Option Bool
  pub manifest_uri : Option String
  pub data_uri : Option String
  pub source_versions_json : Option String
  pub error_class : Option String
  pub error_message : Option String
  pub created_at : T
  pub started_at : Option T
  pub finished_at : Option T
  pub duration_ms : Option ℕ
  pub updated_at : T

pub record Location (T : Type 0) : Type 0 where
  pub name : String
  pub uri : String
  pub created_at : T
  pub updated_at : T

pub record Tables (T : Type 0) : Type 0 where
  pub invocations : List (Invocation T)
  pub locations : List (Location T)

-- The fields that the output of a request in JSON has.
pub record Output : Type 0 where
  pub mode : Option String
  pub format : Option String
  pub location : Option String
  pub path : Option String

pub record Codec (T Row : Type 0) : Type 0 where
  -- json.loads(request_json).get("output") or {}
  pub output_of : String → Output
  -- len(result.model_dump_json().encode()); json.dumps(…, sort_keys=True)
  pub encoded_length : InlineResult Row → ℕ
  pub dump_sorted : List (String × String) → String
  -- max(0, int((now - started).total_seconds() * 1000))
  pub elapsed_ms : T → T → ℕ
  -- the database's refusal of a second row under a key
  pub duplicate : String → Raised

abbrev format_value : OutputFormat → String
format_value OutputFormat.json = "json"
format_value OutputFormat.csv = "csv"
format_value OutputFormat.jsonl = "jsonl"
format_value OutputFormat.parquet = "parquet"

-- status in {"succeeded", "failed", "cancelled"}
unfoldable pub is_final : String → Bool
is_final status = status == "succeeded" || (status == "failed" || status == "cancelled")

module _ {T : Type 0} where
  unfoldable pub has_row : String → List (Invocation T) → Bool
  has_row id [] = false
  has_row id (r ∷ rs) = let rest = has_row id rs in r.id == id || rest

  -- update(table).where(table.c.id == id)
  unfoldable pub update_where :
      String → (Invocation T → Invocation T) → List (Invocation T) → List (Invocation T)
  update_where id f [] = []
  update_where id f (r ∷ rs) =
      let rest = update_where id f rs in if r.id == id then f r ∷ rest else r ∷ rest

  unfoldable pub find_row : String → List (Invocation T) → Option (Invocation T)
  find_row id [] = none
  find_row id (r ∷ rs) = let rest = find_row id rs in if r.id == id then some r else rest

  module _ {Row : Type 0} (codec : Codec T Row) where
    new_row : String → String → String → T → Invocation T
    new_row id kind request_json now =
        let output = codec.output_of request_json in
        record {
          id = id;
          kind = kind;
          status = if kind == "async" then "queued" else "running";
          attempts = 0;
          request_json = request_json;
          output_mode = some (or_else output.mode "inline");
          output_format = some (or_else output.format "json");
          output_location = output.location;
          output_path = output.path;
          cached = none;
          rows_returned = none;
          bytes_returned = none;
          truncated = none;
          manifest_uri = none;
          data_uri = none;
          source_versions_json = none;
          error_class = none;
          error_message = none;
          created_at = now;
          started_at = if kind == "sync" then some now else none;
          finished_at = none;
          duration_ms = none;
          updated_at = now;
        }

    unfoldable pub record_invocation : String → String → String → T → Tables T → Result (Tables T)
    unfolding new_row
    record_invocation id kind request_json now t =
        if has_row id t.invocations
        then err (codec.duplicate id)
        else ok (record t { invocations = new_row id kind request_json now ∷ t.invocations })

    -- self._result_values(result), as a change of a row
    unfoldable pub result_values : QueryResult Row → Invocation T → Invocation T
    result_values (inline_result r) row = record row {
      cached = some r.cached;
      rows_returned = some (length r.rows);
      bytes_returned = some (codec.encoded_length r);
      truncated = some r.truncated;
      output_mode = some "inline";
      output_format = some "json";
    }
    result_values (stored_result r) row = record row {
      output_mode = some "store";
      output_format = some (format_value r.format);
      output_location = some r.location;
      output_path = some r.path;
      manifest_uri = some r.manifest_uri;
      data_uri = some r.data_uri;
      source_versions_json = some (codec.dump_sorted r.source_versions);
    }

    unfoldable pub with_result : Option (QueryResult Row) → Invocation T → Invocation T
    with_result none row = row
    with_result (some r) row = result_values r row

    -- A value that is given takes the place of the one before.
    unfoldable pub replaced : {A : Type 0} → Option A → Option A → Option A
    replaced none before = before
    replaced (some a) before = some a

    unfoldable pub duration : Bool → Option T → T → Option ℕ → Option ℕ
    duration true (some started) now before = some (codec.elapsed_ms now started)
    duration _ _ now before = before

    -- The values of an update; the time of the start is read before it changes.
    unfoldable pub updated_row :
        String
        → Option (QueryResult Row)
        → Option String
        → Option String
        → Option ℕ
        → T
        → Invocation T
        → Invocation T
    unfolding with_result replaced duration
    updated_row status result error error_class attempts now before =
        record (with_result result before) {
          status = status;
          updated_at = now;
          error_message = replaced error before.error_message;
          error_class = replaced error_class before.error_class;
          attempts = or_else attempts before.attempts;
          started_at = if status == "running" then some now else before.started_at;
          finished_at = if is_final status then some now else before.finished_at;
          duration_ms = duration (is_final status) before.started_at now before.duration_ms;
        }

    unfoldable pub update_invocation :
        String
        → String
        → Option (QueryResult Row)
        → Option String
        → Option String
        → Option ℕ
        → T
        → Tables T
        → Tables T
    update_invocation id status result error error_class attempts now t = record t {
      invocations =
          update_where id (updated_row status result error error_class attempts now) t.invocations;
    }

  unfoldable pub storage_location : String → List (Location T) → Option String
  storage_location name [] = none
  storage_location name (l ∷ ls) =
      let rest = storage_location name ls in if l.name == name then some l.uri else rest

  set_uri : String → String → T → List (Location T) → List (Location T)
  set_uri name uri now [] = []
  set_uri name uri now (l ∷ ls) =
      let rest = set_uri name uri now ls in
      if l.name == name then record l { uri = uri; updated_at = now } ∷ rest else l ∷ rest

  unfoldable pub put_storage_location : String → String → T → List (Location T) → List (Location T)
  unfolding set_uri
  put_storage_location name uri now ls =
      if is_some (storage_location name ls)
      then set_uri name uri now ls
      else record { name = name; uri = uri; created_at = now; updated_at = now } ∷ ls

  unfoldable pub delete_storage_location : String → List (Location T) → List (Location T)
  delete_storage_location name [] = []
  delete_storage_location name (l ∷ ls) =
      let rest = delete_storage_location name ls in if l.name == name then rest else l ∷ rest

  -- The locations as the dictionary that `storage_locations` returns.
  unfoldable pub storage_locations : List (Location T) → List (String × String)
  storage_locations [] = []
  storage_locations (l ∷ ls) = (l.name, l.uri) ∷ storage_locations ls
