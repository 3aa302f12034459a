-- ===== src/Storage/Listing.antt =====
-- `StorageRegistry` of src/dalmatian/storage.py: how it is made, the list of its locations and the
-- publication of an output. Python's `sorted` is an argument, and so are the scheme that urlsplit finds,
-- SHA-256 and the publication registry.
use Prim.Native.String.{◌++◌}
use dalmatian.Prelude.{String, Bool, Option, none, some, List, [], ◌∷◌, is_some, if◌then◌else◌}
use mathlib.Core.List
use dalmatian.Models.{StorageLocationInfo, LocationSource}
use dalmatian.Storage.Publication.{Publication}
use dalmatian.Storage.Locations.{
  Resolved, found, unsupported_scheme, escaping_path, empty_path, unknown_location, no_local_root,
  Roots, root_of, normalize_root, validated_root, ResolvedDestination,
}
pub mod Agreement

bind : {A B : Type 0} → Resolved A → (A → Resolved B) → Resolved B
bind (found a) f = f a
bind (unsupported_scheme m) f = unsupported_scheme m
bind escaping_path f = escaping_path
bind empty_path f = empty_path
bind (unknown_location m) f = unknown_location m
bind no_local_root f = no_local_root

module _ (scheme : String → String) where
  -- {name: self._validated_root(name, uri) for name, uri in locations.items()}
  unfoldable pub validated_roots : List (String × String) → Resolved (List (String × String))
  unfolding bind
  validated_roots [] = found []
  validated_roots ((name, uri) ∷ rest) =
      let later = validated_roots rest in
      bind (validated_root scheme name uri)
        (λ root. bind later (λ roots. found ((name, root) ∷ roots)))

  -- self._sources.setdefault("local", data_root.resolve().as_uri())
  with_local : Option String → List (String × String) → List (String × String)
  with_local none sources = sources
  with_local (some uri) sources =
      if is_some (root_of "local" sources) then sources else List.◌++◌ sources (("local", uri) ∷ [])

  -- StorageRegistry.__init__: `local_uri` is data_root.resolve().as_uri().
  unfoldable pub registry :
      List (String × String)
      → List (String × String)
      → Option String
      → Option (String → Option String)
      → Resolved Roots
  unfolding bind with_local
  registry locations source_locations local_uri storage_location =
      bind (validated_roots locations) (λ configured.
        bind (validated_roots source_locations) (λ sources. found (record {
          configured = configured;
          sources = with_local local_uri sources;
          database = storage_location;
        })))

-- StorageRegistry.locations: what is configured, and what only the database has.
unfoldable pub from_config : List (String × String) → List StorageLocationInfo
from_config [] = []
from_config ((name, uri) ∷ rest) =
    record { name = name; uri = uri; source = LocationSource.config } ∷ from_config rest

unfoldable pub from_database :
    List (String × String) → List (String × String) → List StorageLocationInfo
from_database configured [] = []
from_database configured ((name, uri) ∷ rest) =
    let later = from_database configured rest in
    if is_some (root_of name configured)
    then later
    else record { name = name; uri = normalize_root uri; source = LocationSource.database } ∷ later

-- `stored` is what self.metadata.storage_locations() returns, if there is a store.
unfoldable pub locations :
    (List (String × String) → List (String × String))
    → List (String × String)
    → Option (List (String × String))
    → List StorageLocationInfo
locations sorted configured none = from_config (sorted configured)
locations sorted configured (some stored) =
    List.◌++◌ (from_config (sorted configured)) (from_database configured (sorted stored))

-- A null character stands between the location and the path. `publication_prefix` is what __init__ keeps: the
-- setting without the colons at its end.
unfoldable pub publication_key : (String → String) → String → ResolvedDestination → String
publication_key sha256 publication_prefix d =
    publication_prefix ++ (":" ++ sha256 (d.location ++ ("\0" ++ d.path)))

unfoldable pub publish_sync :
    {S : Type 0}
    → (Publication → S → Bool × S)
    → (ResolvedDestination → String)
    → ResolvedDestination
    → Publication
    → S
    → Bool × S
publish_sync publish key d p s = publish (record p { publication_key = key d }) s
