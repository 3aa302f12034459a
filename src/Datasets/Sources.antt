-- ===== src/Datasets/Sources.antt =====
-- `resolve_source` of src/dalmatian/datasets.py: where a source lies, what identifies its content, and
-- whether results over it may be kept. The file system, URLs and json are arguments.
use Prim.Native.Char.{code}
use Prim.Native.String.{◌++◌}
use dalmatian.Prelude.{
  ℕ, nat_eq, String, ◌≡◌, refl, Bool, true, false, ◌||◌, Option, none, some, List, [], ◌∷◌, ◌==◌,
  if◌then◌else◌, is_some, if_rule, arith,
}
use dalmatian.Models.{SourceSpec}
use dalmatian.Models.Validation.{escapes}
use dalmatian.Errors.{Raised, Result, ok, err, value_error, ◌>>=◌}
use dalmatian.Fingerprint.{
  Hashing, text, flag, int, object, array, member, end, Items, item, nil, hash, format_value,
  schema_json, table,
}
use dalmatian.Paths.{has_wildcard}
use dalmatian.Datasets.Prepared.{ResolvedSource}
use dalmatian.Storage.Locations.{ResolvedDestination, lstrip, rstrip}

-- What the function asks of the data root, of URLs and of the files.
pub record SourceFiles : Type 0 where
  -- data_root.resolve().as_uri()
  pub root_uri : String
  -- self.storage.resolve_source(location, path)
  pub resolve_location : String → String → Result ResolvedDestination
  -- urlsplit(uri).scheme; unquote(urlsplit(uri).path)
  pub scheme : String → String
  pub local_path : String → String
  -- the path relative to the data root, if it lies there
  pub relative : String → Option String
  -- resolve_paths(relative, data_root); sorted(glob(path, recursive=True))
  pub resolve_paths : String → Result (List String)
  pub sorted_glob : String → List String
  -- a file itself, or the files below a folder, sorted; size and time of change; as_uri
  pub files_of : String → List String
  pub size : String → ℕ
  pub modified : String → ℕ
  pub as_uri : String → String

abbrev pub value_failure : String → Raised
value_failure message = record {
  error_class = value_error;
  class_name = "ValueError";
  message = message;
}

-- any(ch in path for ch in "*?[")
has_glob : String → Bool
has_glob String.[] = false
has_glob (String.◌∷◌ c s) =
    (nat_eq (code c) b'*' || (nat_eq (code c) b'?' || nat_eq (code c) b'[')) || has_glob s

module _ ⦃H : Hashing⦄ (fs : SourceFiles) where
  destination_of : SourceSpec → Option String → Result ResolvedDestination
  destination_of s (some location) = fs.resolve_location location s.path
  destination_of s none =
      if escapes s.path
      then err (value_failure "source path must be relative and cannot contain '..'")
      else ok (record {
        location = "local";
        path = rstrip (lstrip s.path);
        uri = fs.root_uri ++ ("/" ++ rstrip (lstrip s.path));
      })

  unfoldable pub destination : SourceSpec → Result ResolvedDestination
  unfolding destination_of
  destination s = destination_of s s.location

  -- The hash of a source whose version is declared.
  unfoldable pub declared : SourceSpec → String → String → ResolvedSource
  declared s uri version = record {
    uri = uri;
    fingerprint = hash (
        object (
          member "uri" (text uri) (
            member "format" (text (format_value s.format)) (
              member "options" (object (table s.options)) (
                member "schema" (schema_json s.schema_definition) (
                  member "infer_schema" (flag s.infer_schema)
                    (member "version" (text version) end)))))));
    cache_safe = true;
    read_uris = none;
  }

  -- A remote source without a version.
  unfoldable pub remote : String → ResolvedSource
  remote uri = record {
    uri = uri;
    fingerprint = hash (object (member "uri" (text uri) (member "uncached" (flag true) end)));
    cache_safe = false;
    read_uris = none;
  }

  join_files : List String → List String → List String
  join_files [] more = more
  join_files (f ∷ fs') more = f ∷ join_files fs' more

  all_files : List String → List String
  unfolding join_files
  all_files [] = []
  all_files (p ∷ ps) = join_files (fs.files_of p) (all_files ps)

  -- (str(candidate), st_size, st_mtime_ns)
  described : List String → Items
  described [] = nil
  described (f ∷ rest) =
      item (array (item (text f) (item (int (fs.size f)) (item (int (fs.modified f)) nil))))
        (described rest)

  uris : List String → List String
  uris [] = []
  uris (f ∷ rest) = fs.as_uri f ∷ uris rest

  unfoldable pub local : SourceSpec → String → List String → Result ResolvedSource
  unfolding described uris
  local s uri [] = err (value_failure ("source matched no files: " ++ s.path))
  local s uri (f ∷ files) = ok (record {
    uri = uri;
    fingerprint = hash (
        object (
          member "format" (text (format_value s.format)) (
            member "options" (object (table s.options)) (
              member "schema" (schema_json s.schema_definition) (
                member "infer_schema" (flag s.infer_schema)
                  (member "files" (array (described (f ∷ files))) end))))));
    cache_safe = true;
    read_uris = if has_wildcard s.path then some (uris (f ∷ files)) else none;
  })

  outside_matches : String → List String
  unfolding has_glob
  outside_matches path = if has_glob path then fs.sorted_glob path else path ∷ []

  matches_of : String → Option String → Result (List String)
  unfolding outside_matches
  matches_of path none = ok (outside_matches path)
  matches_of path (some relative) = fs.resolve_paths relative

  unversioned : SourceSpec → String → Result ResolvedSource
  unfolding all_files matches_of
  unversioned s uri =
      if fs.scheme uri == "file"
      then (matches_of (fs.local_path uri) (fs.relative (fs.local_path uri)) >>= λ matches.
          local s uri (all_files matches))
      else ok (remote uri)

  by_version : SourceSpec → Option String → String → Result ResolvedSource
  by_version s (some version) uri = ok (declared s uri version)
  by_version s none uri = unversioned s uri

  unfoldable pub resolve_source : SourceSpec → Result ResolvedSource
  unfolding by_version unversioned
  resolve_source s = destination s >>= λ d. by_version s s.version d.uri

  -- The results over a source that is found may be kept exactly if its version is declared or it
  -- consists of local files.
  unfoldable pub may_keep : SourceSpec → ResolvedSource → Bool
  may_keep s r = is_some s.version || fs.scheme r.uri == "file"

  unfoldable pub IsSafe : SourceSpec → Result ResolvedSource → Type 0
  IsSafe s (ok r) = r.cache_safe ≡ may_keep s r
  IsSafe s (err e) = Unit

  local-IsSafe :
      (s : SourceSpec) (uri : String) (files : List String)
      → (fs.scheme uri == "file") ≡ true
      → IsSafe s (local s uri files)
  unfolding local IsSafe may_keep
  local-IsSafe s uri [] h = tt
  local-IsSafe s uri (f ∷ files) h = ground arith

  local_files-IsSafe :
      (s : SourceSpec) (uri : String) (matches : Result (List String))
      → (fs.scheme uri == "file") ≡ true
      → IsSafe s (matches >>= λ found. local s uri (all_files found))
  unfolding IsSafe
  local_files-IsSafe s uri (ok found) h = local-IsSafe s uri (all_files found) h
  local_files-IsSafe s uri (err e) h = tt

  remote-IsSafe :
      (s : SourceSpec) (uri : String)
      → is_some s.version ≡ false
      → (fs.scheme uri == "file") ≡ false
      → IsSafe s (ok (remote uri))
  unfolding IsSafe may_keep remote
  remote-IsSafe s uri h h' = ground arith

  unversioned-IsSafe :
      (s : SourceSpec) (uri : String) → is_some s.version ≡ false → IsSafe s (unversioned s uri)
  unfolding unversioned
  unversioned-IsSafe s uri h =
      if_rule (IsSafe s) (fs.scheme uri == "file")
        {x = matches_of (fs.local_path uri) (fs.relative (fs.local_path uri)) >>= λ matches.
          local s uri (all_files matches)}
        {y = ok (remote uri)}
        (λ e.
          local_files-IsSafe s uri
            (matches_of (fs.local_path uri) (fs.relative (fs.local_path uri))) e)
        (λ e. remote-IsSafe s uri h e)

  by_version-IsSafe :
      (s : SourceSpec) (version : Option String) (uri : String)
      → s.version ≡ version
      → IsSafe s (by_version s version uri)
  unfolding by_version IsSafe may_keep declared
  by_version-IsSafe s (some version) uri h = ground arith
  by_version-IsSafe s none uri h = unversioned-IsSafe s uri (rw h)

  found-IsSafe :
      (s : SourceSpec) (d : Result ResolvedDestination)
      → IsSafe s (d >>= λ d. by_version s s.version d.uri)
  unfolding IsSafe
  found-IsSafe s (ok d) = by_version-IsSafe s s.version d.uri refl
  found-IsSafe s (err e) = tt

  -- A source that resolves may feed a cached result exactly if its version is declared or its address
  -- is a file's: whatever the file system answers, a remote source without a version never does.
  pub resolve_source-IsSafe : (s : SourceSpec) → IsSafe s (resolve_source s)
  unfolding resolve_source
  resolve_source-IsSafe s = found-IsSafe s (destination s)
