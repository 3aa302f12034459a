-- ===== src/Spark/Reading.antt =====
-- src/dalmatian/spark.py: `prepare`, how a source is read, and how the views of a query come to be.
-- Spark's reader, its sessions and the cache of data sets are operations of a state that may raise.
use Prim.Native.Char.{Char}
use dalmatian.Prelude.{
  String, Bool, true, false, Option, none, some, List, [], ◌∷◌, ◌==◌, if◌then◌else◌,
}
use dalmatian.Models.{SourceSpec, QueryRequest, DataFormat}
use dalmatian.Fingerprint.{Hashing}
use dalmatian.Errors.{Result, ok, err, other_error}
use dalmatian.Effects.{Action, ◌>>=◌, ◌>>◌, pure, raise}
use dalmatian.Datasets.Prepared.{ResolvedSource, PreparedQuery}
use dalmatian.Datasets.Sources.{SourceFiles, resolve_source}
use dalmatian.Spark.Targets.{schema_text, read_target, glob_regex}

module _ ⦃H : Hashing⦄ (fs : SourceFiles) where
  unfoldable pub with_source :
      String
      → Result ResolvedSource
      → Result (List (String × ResolvedSource))
      → Result (List (String × ResolvedSource))
  with_source name (err e) rest = err e
  with_source name (ok r) (err e) = err e
  with_source name (ok r) (ok rest) = ok ((name, r) ∷ rest)

  unfoldable pub resolve_all : List (String × SourceSpec) → Result (List (String × ResolvedSource))
  unfolding with_source
  resolve_all [] = ok []
  resolve_all ((name, source) ∷ rest) =
      with_source name (resolve_source fs source) (resolve_all rest)

  unfoldable pub prepared_with :
      QueryRequest → String → Result (List (String × ResolvedSource)) → Result PreparedQuery
  prepared_with request normalized_sql (err e) = err e
  prepared_with request normalized_sql (ok sources) =
      ok (record { request = request; sources = sources; normalized_sql = normalized_sql })

  unfoldable pub prepare : QueryRequest → String → Result PreparedQuery
  unfolding prepared_with
  prepare request normalized_sql =
      prepared_with request normalized_sql (resolve_all request.sources)

-- options[key] = value
unfoldable pub put_option : String → String → List (String × String) → List (String × String)
put_option key value [] = (key, value) ∷ []
put_option key value ((k, v) ∷ rest) =
    let later = put_option key value rest in
    if k == key then (key, value) ∷ rest else (k, v) ∷ later

-- {**base, **more}
unfoldable pub merged : List (String × String) → List (String × String) → List (String × String)
merged base [] = base
merged base ((k, v) ∷ more) = merged (put_option k v base) more

-- A text or a list of texts.
pub data Target : Type 0 where
  one : String → Target
  many : List String → Target

unfoldable pub target_of : ResolvedSource → Option (List String) → Target × List (String × String)
target_of r none = let (target, options) = read_target r.uri in (one target, options)
target_of r (some uris) = (many uris, [])

-- if schema: an empty text is no schema.
given : Option String → Option String
given none = none
given (some text) = if text == "" then none else some text

lower : Bool → String
lower true = "true"
lower false = "false"

infer_option : Option String → Bool → List (String × String) → List (String × String)
infer_option none infer options = put_option "inferSchema" (lower infer) options
infer_option (some text) infer options = options

unfoldable pub read_options :
    SourceSpec → ResolvedSource → List (String × String) → List (String × String)
read_options source r recursive =
    merged (merged (("dalmatianSourceFingerprint", r.fingerprint) ∷ []) source.options) recursive

unfoldable pub csv_options :
    SourceSpec → ResolvedSource → List (String × String) → List (String × String)
unfolding infer_option lower
csv_options source r recursive = infer_option (schema_text source) source.infer_schema (
    merged
      (merged (("header", "true") ∷ ("dalmatianSourceFingerprint", r.fingerprint) ∷ [])
        source.options)
      recursive)

options_for :
    DataFormat → SourceSpec → ResolvedSource → List (String × String) → List (String × String)
options_for DataFormat.csv source r recursive = csv_options source r recursive
options_for _ source r recursive = read_options source r recursive

pub record Sessions (E Frame : Type 0) : Type 0 where
  -- re.escape
  pub escape : Char → String
  -- spark.read with options and schema, and .csv, .parquet or .json
  pub read : DataFormat → Target → List (String × String) → Option String → Action E Frame
  -- frame.where(input_file_name().rlike(pattern))
  pub where_path : String → Frame → Action E Frame
  pub new_session : Action E (Unit {0})
  -- self.datasets.get_or_load(fingerprint, load, release): see Datasets/Cache.antt
  pub get_or_load : String → Action E String → Action E String
  -- persist and createOrReplaceGlobalTempView, under the name for a fingerprint
  pub keep_view : String → Frame → Action E String
  -- createOrReplaceTempView, of a global view or of a frame
  pub name_view : String → String → Action E (Unit {0})
  pub name_frame : String → Frame → Action E (Unit {0})
  pub sql : String → Action E Frame

pub data ViewEvent : Type 0 where
  -- the source's name, with the fingerprint under which the cache is asked
  from_cache : String → String → ViewEvent
  read_fresh : String → ViewEvent

-- The newest event first.
pub record ViewRun (E : Type 0) : Type 0 where
  pub env : E
  pub log : List ViewEvent

unfoldable pub source_of : String → List (String × ResolvedSource) → Option ResolvedSource
source_of name [] = none
source_of name ((k, r) ∷ rest) =
    let later = source_of name rest in if k == name then some r else later

module _ {E Frame : Type 0} (spark : Sessions E Frame) where
  filtered : Option String → Frame → Action E Frame
  filtered none frame = pure frame
  filtered (some pattern) frame = spark.where_path pattern frame

  unfoldable pub read_source : SourceSpec → ResolvedSource → Action E Frame
  unfolding filtered options_for given
  read_source source r =
      let (target, recursive) = target_of r r.read_uris in
      spark.read source.format target (options_for source.format source r recursive)
        (given (schema_text source))
      >>= filtered (glob_regex spark.escape r.uri)

  load : SourceSpec → ResolvedSource → Action E String
  load source r = read_source source r >>= spark.keep_view r.fingerprint

  unfoldable pub noted : {A : Type 0} → ViewEvent → Action E A → Action (ViewRun E) A
  noted event m s = let (r, e) = m s.env in (r, record { env = e; log = event ∷ s.log })

  unfoldable pub quiet : {A : Type 0} → Action E A → Action (ViewRun E) A
  quiet m s = let (r, e) = m s.env in (r, record { env = e; log = s.log })

  -- The name is the event's only.
  unfoldable pub load_cached_view : String → SourceSpec → ResolvedSource → Action (ViewRun E) String
  unfolding load noted
  load_cached_view name source r =
      noted (from_cache name r.fingerprint) (spark.get_or_load r.fingerprint (load source r))

  unfoldable pub read_view : String → SourceSpec → ResolvedSource → Action (ViewRun E) Frame
  unfolding noted
  read_view name source r = noted (read_fresh name) (read_source source r)

  -- The view of one source in the query's session.
  unfoldable pub make_view : String → SourceSpec → ResolvedSource → Action (ViewRun E) (Unit {0})
  unfolding quiet
  make_view name source r =
      if r.cache_safe
      then (load_cached_view name source r >>= λ view. quiet (spark.name_view name view))
      else (read_view name source r >>= λ frame. quiet (spark.name_frame name frame))

  unfoldable pub view_found :
      String → SourceSpec → Option ResolvedSource → Action (ViewRun E) (Unit {0})
  view_found name source none =
      raise (record { error_class = other_error; class_name = "KeyError"; message = name })
  view_found name source (some r) = make_view name source r

  unfoldable pub make_views :
      List (String × SourceSpec) → List (String × ResolvedSource) → Action (ViewRun E) (Unit {0})
  unfolding view_found
  make_views [] resolved = pure tt
  make_views ((name, source) ∷ rest) resolved =
      view_found name source (source_of name resolved) >>= λ u. make_views rest resolved

  unfoldable pub frame : PreparedQuery → Action (ViewRun E) Frame
  unfolding quiet
  frame prepared = do
    quiet spark.new_session
    made ← make_views prepared.request.sources prepared.sources
    quiet (spark.sql prepared.normalized_sql)
