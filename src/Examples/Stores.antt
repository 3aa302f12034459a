-- ===== src/Examples/Stores.antt =====
-- The publications, the results and the cache of data sets at concrete inputs (src/dalmatian/storage.py,
-- src/dalmatian/datasets.py and src/dalmatian/cache.py).
use dalmatian.Prelude.{
  false, contains, holds, ◌==◌, if◌then◌else◌, ℕ, ◌≤◌, ◌≡◌, refl, String, true, none, some, List,
  [], ◌∷◌, arith, length, ◌+◌,
}
use dalmatian.Valkey.Memory.{empty}
use dalmatian.Storage.Locations.{root_of, root, found, validated_root, normalize_root, rstrip}
use dalmatian.Storage.Listing.{locations}
use dalmatian.Storage.Listing.Agreement.{KeepsEntries, listed, listed_root, root-locations}
use dalmatian.Metadata.{Location, storage_locations}
use dalmatian.Metadata.Admin.{
  Ended, storage_add, run_admin, build_metadata_store, assert_schema_current, put_location,
}
use dalmatian.Metadata.Admin.Adding.{roots_over, run_admin-root}
use dalmatian.Storage.Publication.{Publication, Values, replies_memory, replies_valkey, lookup}
use dalmatian.Storage.Refinement.{Same, Named, replies_alike}
use dalmatian.Datasets.Cache.{DatasetCache, find, get, put, Step, run, stored, close}
use dalmatian.Datasets.Bounds.{Distinct, put_bounded}
use dalmatian.Datasets.Releases.{tally, accounted, released_once}
use dalmatian.Models.{InlineResult}
use dalmatian.Results.{MemoryCache, Call, after_calls, get_result}
use dalmatian.Results.Locks.{count_wins, count_unlocks, latest, acquire_excludes, get_result-latest}
use dalmatian.Examples.Jobs.{server}

abbrev publication : String → String → Publication
publication query_id write_mode = record {
  publication_key = "p";
  query_id = query_id;
  attempt_id = "1";
  manifest_uri = "file:///m";
  write_mode = write_mode;
  now = 1000;
}

abbrev publications : List Publication
publications = publication "x" "overwrite" ∷ publication "y" "error" ∷ publication "y" "append" ∷ []

abbrev nothing : Values
nothing = λ k. none

nothing-Same : Same nothing empty
unfolding Same lookup
nothing-Same k = record { present = refl; query_id = refl; attempt_id = refl; manifest_uri = refl }

publications-Named : Named publications
unfolding Named
publications-Named = (refl, (refl, (refl, tt)))

replies_alike_example :
    ((replies_valkey publications empty).0 ≡ (replies_memory publications nothing).0)
    × Same (replies_memory publications nothing).1 (replies_valkey publications empty).1
replies_alike_example = replies_alike publications nothing empty publications-Named nothing-Same

-- Two entries of two.
abbrev full : DatasetCache ℕ
full = record {
  max_entries = 2;
  ttl_seconds = 60;
  entries =
      ("a", record { value = 1; expires_at = 70 })
      ∷ ("b", record { value = 2; expires_at = 80 })
      ∷ [];
  hits = 0;
  misses = 2;
  released = [];
}

full-Distinct : Distinct full.entries
unfolding Distinct find
full-Distinct = (refl, (refl, tt))

put_bounded_example :
    (length (put "c" 3 100 full).entries ≤ 2) × ((get "c" 150 (put "c" 3 100 full)).0 ≡ some 3)
put_bounded_example = put_bounded "c" 3 100 150 full (omega arith) full-Distinct (omega arith)

abbrev steps : List (Step ℕ)
steps = Step.store "c" 3 30 ∷ Step.look "b" 90 ∷ Step.store "c" 4 95 ∷ []

released_once_example :
    (tally (λ n. true) (close (run steps full)).released
      ≡ accounted (λ n. true) full + tally (λ n. true) (stored steps))
    × ((close (run steps full)).entries ≡ [])
released_once_example = released_once (λ n. true) steps full

abbrev result : InlineResult ℕ
result = record {
  query_id = none;
  columns = "n" ∷ [];
  rows = 1 ∷ [];
  truncated = false;
  cached = false;
}

abbrev no_results : MemoryCache ℕ
no_results = record { values = λ k. none; locks = [] }

-- A second caller asks for the lock before the first one stores and releases.
abbrev calls : List (Call ℕ)
calls =
    Call.lock "k" 10
    ∷ Call.lock "k" 10
    ∷ Call.store "k" result 60
    ∷ Call.unlock "k" "k"
    ∷ Call.look "k"
    ∷ []

acquire_excludes_example : count_wins "k" calls no_results + 0 ≤ 1 + count_unlocks "k" calls
unfolding contains
acquire_excludes_example = acquire_excludes "k" calls no_results

get_result-latest_example :
    get_result "k" (after_calls calls no_results) ≡ latest "k" calls (get_result "k" no_results)
get_result-latest_example = get_result-latest "k" calls no_results

-- A location of the settings and one that the database has.
abbrev rows : List (Location ℕ)
rows = record { name = "lake"; uri = "s3://bucket/"; created_at = 0; updated_at = 0 } ∷ []

abbrev settings_locations : List (String × String)
settings_locations = ("local", "file:///exports") ∷ []

abbrev scheme : String → String
scheme uri = if uri == "" then "" else "s3a"

unsorted-KeepsEntries : KeepsEntries (λ l. l)
unfolding KeepsEntries
unsorted-KeepsEntries name l = refl

root-locations_example :
    root scheme "lake" (roots_over settings_locations [] rows)
    ≡ listed_root scheme "lake"
        (listed "lake" (locations (λ l. l) settings_locations (some (storage_locations rows))))
root-locations_example =
    root-locations scheme (λ l. l) settings_locations [] rows "lake" unsorted-KeepsEntries

abbrev added : Ended ℕ
added =
    run_admin scheme (λ l. l) 5 (storage_add "out" "s3://out") (some "sqlite://") (some "2") none
      "2" rows

run_admin-root_example :
    ((x : String) × (validated_root scheme "out" "s3://out" ≡ found x)
      × (root scheme "out" (roots_over settings_locations [] added.1) ≡ found x))
    × ((other : String)
        → ("out" == other) ≡ false
        → root scheme other (roots_over settings_locations [] added.1)
          ≡ root scheme other (roots_over settings_locations [] rows))
unfolding run_admin build_metadata_store assert_schema_current put_location validated_root
    normalize_root rstrip root_of contains holds
run_admin-root_example =
    run_admin-root scheme (λ l. l) 5 "out" "s3://out" (some "sqlite://") (some "2") none "2" rows
      settings_locations [] [] refl refl refl
