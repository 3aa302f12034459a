-- ===== src/Examples/Api.antt =====
-- The routes and the metadata at concrete inputs (src/dalmatian/api.py and src/dalmatian/metadata.py).
use mathlib.Core.Option
use dalmatian.Valkey.{Valkey}
use dalmatian.Jobs.Config.{job_key}
use dalmatian.Jobs.Methods.World.{World}
use dalmatian.Prelude.{ℕ, ◌-◌, ◌≡◌, refl, true, none, some, List, [], ◌∷◌, ◌==◌, if◌then◌else◌}
use dalmatian.Fingerprint.{request_payload_fingerprint}
use dalmatian.Errors.{Raised, query_timeout, value_error, ancestors}
use dalmatian.Service.Stream.{is_stream}
use dalmatian.Jobs.Methods.Submit.{new_record}
use dalmatian.Api.{Framework, IsDocumented, first_registered, refusal, reply, reply_to_error}
use dalmatian.Api.Jobs.{create_job}
use dalmatian.Api.Statuses.{status_of, reply_to_error_status, create_job_again, location}
use dalmatian.Metadata.{
  Codec, Tables, Location, Invocation, find_row, updated_row, with_result, replaced,
}
use dalmatian.Metadata.History.{Update, update, updates, update_all, Left, update_all-Left}
use dalmatian.Examples.Jobs.{server, settings}
use dalmatian.Examples.Methods.{payloads, hashing, request, other_request, fresh, created}

abbrev framework : Framework ℕ
framework = record {
  find = λ hs c. first_registered hs (ancestors c);
  unhandled = λ e. refusal 500 "Internal Server Error";
}

framework-IsDocumented : IsDocumented framework
framework-IsDocumented = record { nearest = λ hs c. refl; server_error = λ e. refl }

abbrev malformed : Raised
malformed = record {
  error_class = value_error;
  class_name = "ValueError";
  message = "'' is not a valid JobStatus";
}

abbrev late : Raised
late = record {
  error_class = query_timeout;
  class_name = "QueryTimeout";
  message = "query exceeded 5 seconds";
}

reply_to_error_status_example : (reply_to_error framework late).status ≡ status_of query_timeout
reply_to_error_status_example = reply_to_error_status framework framework-IsDocumented late

create_job_again_example :
    let first = create_job malformed settings request (some "k") "a" 1000 fresh in
    let second = create_job malformed settings other_request (some "k") "b" 2000 first.1 in
    (second.1 ≡ first.1)
    × ((reply framework second.0).status ≡ (
        if request_payload_fingerprint request == request_payload_fingerprint other_request
        then 202
        else 409))
    × (request_payload_fingerprint request == request_payload_fingerprint other_request ≡ true
        → location (reply framework second.0).headers ≡ location (reply framework first.0).headers)
    × (let u : World = record first.1 {
      db = Valkey.lapse server (job_key settings "a") first.1.db;
    } in
        let third = create_job malformed settings other_request (some "k") "b" 2000 u in
        (third.1 ≡ u) × ((reply framework third.0).status ≡ 409))
unfolding is_stream
create_job_again_example =
    create_job_again malformed framework settings request other_request "k" "a" "b" 1000 2000 fresh
      (new_record settings "a" 1000) framework-IsDocumented refl refl refl refl created

abbrev lake : List (Location ℕ)
lake = record { name = "lake"; uri = "s3a://old"; created_at = 1; updated_at = 1 } ∷ []

abbrev codec : Codec ℕ ℕ
codec = record {
  output_of = λ text. record { mode = none; format = none; location = none; path = none };
  encoded_length = λ r. 2;
  dump_sorted = λ versions. "{}";
  elapsed_ms = λ now started. now - started;
  duplicate = λ id. malformed;
}

abbrev row : Invocation ℕ
row = record {
  id = "a";
  kind = "async";
  status = "queued";
  attempts = 0;
  request_json = "{}";
  output_mode = some "inline";
  output_format = some "json";
  output_location = none;
  output_path = none;
  cached = none;
  rows_returned = none;
  bytes_returned = none;
  truncated = none;
  manifest_uri = none;
  data_uri = none;
  source_versions_json = none;
  error_class = none;
  error_message = none;
  created_at = 1;
  started_at = none;
  finished_at = none;
  duration_ms = none;
  updated_at = 1;
}

abbrev tables : Tables ℕ
tables = record { invocations = row ∷ []; locations = [] }

-- A job whose first attempt failed and whose second one succeeded, the newest update first.
abbrev attempts : List (Update ℕ ℕ)
attempts =
    record {
      status = "succeeded";
      result = none;
      error = none;
      error_class = none;
      attempts = none;
      now = 9;
    }
    ∷ record {
      status = "running";
      result = none;
      error = none;
      error_class = none;
      attempts = some 2;
      now = 7;
    }
    ∷ record {
      status = "retrying";
      result = none;
      error = some "lost";
      error_class = some "OSError";
      attempts = none;
      now = 5;
    }
    ∷ record {
      status = "running";
      result = none;
      error = none;
      error_class = none;
      attempts = some 1;
      now = 3;
    }
    ∷ []

update_all-Left_example :
    (find_row "a" (update_all codec "a" attempts tables).invocations ≡ (
      if "a" == "a"
      then Option.map (updates codec attempts) (find_row "a" tables.invocations)
      else find_row "a" tables.invocations))
    × ((r : Invocation ℕ) → Left codec attempts r (updates codec attempts r))
update_all-Left_example = update_all-Left codec "a" "a" attempts tables

-- The row says that the job succeeded, and still holds the error of the first attempt.
stale_error :
    (updates codec attempts row).status ≡ "succeeded"
    × ((updates codec attempts row).error_message ≡ some "lost")
unfolding updates update updated_row with_result replaced
stale_error = (refl, refl)
