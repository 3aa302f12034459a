-- ===== src/Storage/Locations.antt =====
-- `StorageRegistry` of src/dalmatian/storage.py: where outputs and sources lie. The scheme that
-- urlsplit finds and the locations in the database are arguments.
use Prim.Native.Char.{code}
use Prim.Native.String.{◌++◌}
use text.Mathlib.Text.{starts_with}
use dalmatian.Prelude.{
  String, ◌≡◌, false, ◌||◌, ◌&&◌, Option, none, some, List, [], ◌∷◌, ◌==◌, contains, nat_eq,
  if◌then◌else◌, arith,
}
use dalmatian.Models.Validation.{split}

pub record ResolvedDestination : Type 0 where
  pub location : String
  pub path : String
  pub uri : String

pub data Resolved {ℓ} (A : Type ℓ) : Type ℓ where
  found : A → Resolved A
  unsupported_scheme : String → Resolved A
  escaping_path empty_path : Resolved A
  unknown_location : String → Resolved A
  no_local_root : Resolved A

-- path.lstrip("/") and root.rstrip("/")
unfoldable pub lstrip : String → String
lstrip String.[] = ""
lstrip (String.◌∷◌ c s) =
    let rest = lstrip s in if nat_eq (code c) b'/' then rest else String.◌∷◌ c s

unfoldable pub rstrip : String → String
rstrip String.[] = ""
rstrip (String.◌∷◌ c s) =
    let rest = rstrip s in if (rest == "") && nat_eq (code c) b'/' then "" else String.◌∷◌ c rest

-- root.removeprefix("s3://") of a text that starts with it
unfoldable pub without_s3 : String → String
without_s3 (String.◌∷◌ a (String.◌∷◌ b (String.◌∷◌ c (String.◌∷◌ d (String.◌∷◌ e s))))) = s
without_s3 s = s

unfoldable pub normalize_root : String → String
unfolding without_s3
normalize_root root = if starts_with root "s3://" then "s3a://" ++ without_s3 root else root

unfoldable pub clean_path : String → Resolved String
unfolding lstrip rstrip
clean_path path =
    if starts_with path "/" || contains (split path) ".."
    then escaping_path
    else (let clean = rstrip (lstrip path) in if clean == "" then empty_path else found clean)

-- A dictionary of roots; the database's locations, if there is one.
pub record Roots : Type 0 where
  pub configured : List (String × String)
  pub sources : List (String × String)
  pub database : Option (String → Option String)

unfoldable pub root_of : String → List (String × String) → Option String
root_of name [] = none
root_of name ((k, v) ∷ rest) = let later = root_of name rest in if k == name then some v else later

unfoldable pub joined : String → String → Resolved String → Resolved ResolvedDestination
joined name root (found clean) =
    found (record { location = name; path = clean; uri = root ++ "/" ++ clean })
joined name root escaping_path = escaping_path
joined name root empty_path = empty_path
joined name root (unsupported_scheme m) = unsupported_scheme m
joined name root (unknown_location m) = unknown_location m
joined name root no_local_root = no_local_root

module _ (scheme : String → String) where
  unfoldable pub validated_root : String → String → Resolved String
  unfolding normalize_root rstrip
  validated_root name configured_root =
      let root = rstrip (normalize_root configured_root) in
      if contains ("file" ∷ "s3a" ∷ "gs" ∷ "abfss" ∷ []) (scheme root)
      then found root
      else unsupported_scheme name

  -- if value: an empty text is no location.
  unfoldable pub database_root : String → Option String → Resolved String
  database_root location none = unknown_location location
  database_root location (some value) =
      if value == "" then unknown_location location else validated_root location value

  unfoldable pub stored_root : String → Option (String → Option String) → Resolved String
  stored_root location none = unknown_location location
  stored_root location (some storage_location) = database_root location (storage_location location)

  unfoldable pub root : String → Roots → Resolved String
  unfolding database_root stored_root
  root location r = elim (root_of location r.configured) [
    | some uri ↦ found uri
    | none ↦ stored_root location r.database
  ]

  under : String → String → Resolved String → Resolved ResolvedDestination
  under name path (found uri) = joined name uri (clean_path path)
  under name path (unsupported_scheme m) = unsupported_scheme m
  under name path escaping_path = escaping_path
  under name path empty_path = empty_path
  under name path (unknown_location m) = unknown_location m
  under name path no_local_root = no_local_root

  unfoldable pub resolve : String → String → Roots → Resolved ResolvedDestination
  unfolding under
  resolve location path r = under location path (root location r)

  -- An empty name is the local root, as no name is; but only no name is refused without it.
  or_local : Option String → String
  or_local none = "local"
  or_local (some location) = if location == "" then "local" else location

  source_root : Option String → String → Option String → Roots → Resolved String
  source_root location name (some uri) r = found uri
  source_root none name none r = no_local_root
  source_root (some location) name none r = root name r

  unfoldable pub resolve_source : Option String → String → Roots → Resolved ResolvedDestination
  unfolding under or_local source_root
  resolve_source location path r =
      let name = or_local location in
      under name path (source_root location name (root_of name r.sources) r)

  -- A named location that has no root of its own for sources is where outputs of that name lie.
  pub resolve_source-resolve :
      (location path : String) (r : Roots)
      → (location == "") ≡ false
      → root_of location r.sources ≡ none
      → resolve_source (some location) path r ≡ resolve location path r
  unfolding resolve_source resolve
  resolve_source-resolve location path r named h = ground (arith, named, h)
