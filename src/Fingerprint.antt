-- ===== src/Fingerprint.antt =====
-- src/dalmatian/fingerprint.py: the hashes of requests and sources. `json.dumps` with sorted keys,
-- SHA-256 and pydantic's `model_dump` are arguments.
pub mod Order
use Prim.Native.Nat.{Ordering}
use Prim.Native.String.{compare}
use dalmatian.Prelude.{
  ℕ, String, Bool, Option, none, some, List, [], ◌∷◌, ◌++◌, map, if◌then◌else◌, contains,
}
use dalmatian.Models.{DataFormat, Schema, fields, ddl, SourceSpec, QueryRequest}

mutual
  pub data Json : Type 0 where
    null : Json
    flag : Bool → Json
    int : ℕ → Json
    text : String → Json
    object : Members → Json
    array : Items → Json

  pub data Items : Type 0 where
    nil : Items
    item : Json → Items → Items

  pub data Members : Type 0 where
    end : Members
    member : String → Json → Members → Members

pub record Hashing : Type 0 where
  pub dumps : Json → String
  pub sha256 : String → String
  -- the first eight bytes of the digest as a number
  pub sha256_int : String → ℕ
  pub model_dump : QueryRequest → List (String × Json)

abbrev pub as_object : List (String × Json) → Members
as_object [] = end
as_object ((k, v) ∷ rest) = member k v (as_object rest)

abbrev pub table : List (String × String) → Members
table [] = end
table ((k, v) ∷ rest) = member k (text v) (table rest)

abbrev pub or_null : Option String → Json
or_null none = null
or_null (some s) = text s

unfoldable pub format_value : DataFormat → String
format_value DataFormat.csv = "csv"
format_value DataFormat.parquet = "parquet"
format_value DataFormat.json = "json"

unfoldable pub schema_json : Option Schema → Json
schema_json none = null
schema_json (some (fields fs)) = object (table fs)
schema_json (some (ddl s)) = text s

-- The dictionary that describes a source, in `_declared_source_version` and in
-- `dataset_affinity_key` alike.
pub source_payload : SourceSpec → Json
unfolding format_value schema_json
source_payload s = object (
    member "location" (or_null s.location) (
      member "path" (text s.path) (
        member "format" (text (format_value s.format)) (
          member "options" (object (table s.options)) (
            member "schema" (schema_json s.schema_definition) (
              member "infer_schema" (flag s.infer_schema)
                (member "version" (or_null s.version) end)))))))

-- sorted(request.sources.items()): the names are distinct, so they alone decide.
insert_source : String × SourceSpec → List (String × SourceSpec) → List (String × SourceSpec)
insert_source x [] = x ∷ []
insert_source x (y ∷ ys) =
    let later = y ∷ insert_source x ys in
    elim (compare x.0 y.0) [ Ordering.gt ↦ later | _ ↦ x ∷ y ∷ ys ]

pub sort_sources : List (String × SourceSpec) → List (String × SourceSpec)
unfolding insert_source
sort_sources [] = []
sort_sources (x ∷ xs) = insert_source x (sort_sources xs)

abbrev described : String × SourceSpec → String × Json
described (name, source) = (name, source_payload source)

-- model_dump(exclude={…})
abbrev excluding : List String → List (String × Json) → List (String × Json)
excluding names [] = []
excluding names ((k, v) ∷ rest) =
    let kept = excluding names rest in if contains names k then kept else (k, v) ∷ kept

module _ ⦃H : Hashing⦄ where
  -- _hash(payload)
  unfoldable pub hash : Json → String
  hash payload = H.sha256 (H.dumps payload)

  unfoldable pub declared_source_version : SourceSpec → String
  declared_source_version source = hash (source_payload source)

  -- None if any source has no version.
  unfoldable pub declared_source_versions :
      List (String × SourceSpec) → Option (List (String × String))
  declared_source_versions [] = some []
  declared_source_versions ((name, source) ∷ rest) = elim (declared_source_versions rest) [
    | none ↦ none
    | some versions ↦ elim source.version [
      | none ↦ none
      | some version ↦ some ((name, declared_source_version source) ∷ versions)
    ]
  ]

  unfoldable pub dataset_affinity_key : QueryRequest → String
  dataset_affinity_key request =
      hash (object (as_object (map described (sort_sources request.sources))))

  unfoldable pub request_payload_fingerprint : QueryRequest → String
  request_payload_fingerprint request = hash (object (as_object (H.model_dump request)))

  -- The normalized SQL is an argument: `validate_and_normalize` stands on sqlglot.
  unfoldable pub query_fingerprint : QueryRequest → String → List (String × String) → String
  query_fingerprint request normalized_sql source_versions = hash (
      object (
        as_object (
          excluding ("cache_ttl_seconds" ∷ "sql" ∷ []) (H.model_dump request)
          ++ ("sql", text normalized_sql)
            ∷ ("source_versions", object (table source_versions))
            ∷ [])))
