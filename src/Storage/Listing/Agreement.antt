-- ===== src/Storage/Listing/Agreement.antt =====
-- The list of storage locations and the roots that outputs are resolved to (src/dalmatian/storage.py),
-- over the locations in the database (src/dalmatian/metadata.py).
use Prim.Native.String.{◌++◌}
use dalmatian.Prelude.{
  String, ◌≡◌, refl, sym, ap, ◌∙◌, false, inl, inr, Option-cases, if_rule, Option, none, some, List,
  [], ◌∷◌, ◌==◌, contains, eq_iff, if◌then◌else◌, arith,
}
use mathlib.Core.List
use text.Mathlib.Text.{starts_with}
use text.Mathlib.TextLemmas.{cons-append}
use dalmatian.Prelude.Decimal.{filled-eq}
use dalmatian.Models.{StorageLocationInfo, LocationSource}
use dalmatian.Metadata.{Location, storage_location, storage_locations}
use dalmatian.Storage.Locations.{
  Resolved, found, unsupported_scheme, unknown_location, root_of, rstrip, normalize_root,
  validated_root, root, database_root, stored_root, without_s3,
}
use dalmatian.Storage.Listing.{from_config, from_database, locations}

-- The first entry of a name.
unfoldable pub listed : String → List StorageLocationInfo → Option StorageLocationInfo
listed name [] = none
listed name (l ∷ ls) = let later = listed name ls in if l.name == name then some l else later

-- The root of an entry: that of a configured location stands in the list; a location of the database has
-- its address without the slashes at its end, if its scheme is supported, and none if it is empty.
unfoldable pub entry_root : (String → String) → String → String → LocationSource → Resolved String
entry_root scheme name uri LocationSource.config = found uri
entry_root scheme name uri LocationSource.database =
    if uri == ""
    then unknown_location name
    else if contains ("file" ∷ "s3a" ∷ "gs" ∷ "abfss" ∷ []) (scheme (rstrip uri))
    then found (rstrip uri)
    else unsupported_scheme name

unfoldable pub listed_root :
    (String → String) → String → Option StorageLocationInfo → Resolved String
listed_root scheme name none = unknown_location name
listed_root scheme name (some l) = entry_root scheme name l.uri l.source

-- Sorting a dictionary keeps what is under each name.
unfoldable pub KeepsEntries : (List (String × String) → List (String × String)) → Type 0
KeepsEntries sorted =
    (name : String) (l : List (String × String)) → root_of name (sorted l) ≡ root_of name l

in_config : String → Option String → Option StorageLocationInfo
in_config name none = none
in_config name (some uri) = some (record { name = name; uri = uri; source = LocationSource.config })

in_database : String → Option String → Option StorageLocationInfo
in_database name none = none
in_database name (some uri) =
    some (record { name = name; uri = normalize_root uri; source = LocationSource.database })

listed-from_config :
    (name : String) (l : List (String × String))
    → listed name (from_config l) ≡ in_config name (root_of name l)
unfolding listed from_config root_of in_config
listed-from_config name [] = refl
listed-from_config name ((k, v) ∷ rest) =
    ground (arith, listed-from_config name rest, eq_iff k name)

listed-from_database :
    (configured : List (String × String)) (name : String) (l : List (String × String))
    → root_of name configured ≡ none
    → listed name (from_database configured l) ≡ in_database name (root_of name l)
unfolding listed from_database root_of in_database
listed-from_database configured name [] h = refl
listed-from_database configured name ((k, v) ∷ rest) h =
    ground (arith, listed-from_database configured name rest, eq_iff k name)

listed-append :
    (name : String) (l m : List StorageLocationInfo)
    → listed name (List.◌++◌ l m) ≡ elim (listed name l) [ some x ↦ some x | none ↦ listed name m ]
unfolding listed
listed-append name [] m = refl
listed-append name (l ∷ ls) m = ground (arith, listed-append name ls m)

root_of-storage_locations :
    {T : Type 0} (name : String) (rows : List (Location T))
    → root_of name (storage_locations rows) ≡ storage_location name rows
unfolding root_of storage_locations storage_location
root_of-storage_locations name [] = refl
root_of-storage_locations name (l ∷ ls) = ground (arith, root_of-storage_locations name ls)

filled_s3a : (s : String) → ("s3a://" ++ s == "") ≡ false
filled_s3a s = ap (λ x. x == "") (cons-append "s" "3a://" s) ∙ filled-eq "s" ("3a://" ++ s)

module _ (scheme : String → String) where
  normalize_root_empty : (uri : String) → (normalize_root uri == "") ≡ (uri == "")
  unfolding normalize_root
  normalize_root_empty String.[] = refl
  normalize_root_empty (String.◌∷◌ c s) =
      if_rule (λ x. (x == "") ≡ (String.◌∷◌ c s == "")) (starts_with (String.◌∷◌ c s) "s3://")
        (λ h. filled_s3a (without_s3 (String.◌∷◌ c s)) ∙ sym (filled-eq c s)) (λ h. refl)

  database_root_listed :
      (name : String) (o : Option String)
      → database_root scheme name o ≡ listed_root scheme name (in_database name o)
  unfolding database_root listed_root in_database validated_root entry_root
  database_root_listed name none = refl
  database_root_listed name (some uri) = rw (normalize_root_empty uri) refl

  module _ {T : Type 0} (sorted : List (String × String) → List (String × String))
      (keeps : KeepsEntries sorted) (configured sources : List (String × String))
      (rows : List (Location T)) (name : String) where
    listed-locations :
        listed name (locations sorted configured (some (storage_locations rows)))
        ≡ elim (root_of name configured) [
          | some uri ↦ in_config name (some uri)
          | none ↦ in_database name (storage_location name rows)
        ]
    unfolding locations KeepsEntries in_config listed
    listed-locations =
        let stored = sorted (storage_locations rows) in
        let split =
          listed-append name (from_config (sorted configured)) (from_database configured stored) in
        let first =
          listed-from_config name (sorted configured)
          ∙ ap (in_config name) (keeps name configured) in
        elim (Option-cases (root_of name configured)) [
          | inl e ↦ rw split (
              rw first (
                rw e (
                  listed-from_database configured name stored e
                  ∙ ap (in_database name)
                      (keeps name (storage_locations rows) ∙ root_of-storage_locations name rows))))
          | inr (uri, e) ↦ rw split (rw first (rw e refl))
        ]

    root_database :
        root_of name configured ≡ none
        → root scheme name (record {
          configured = configured;
          sources = sources;
          database = some (λ n. storage_location n rows);
        })
          ≡ database_root scheme name (storage_location name rows)
    unfolding root stored_root
    root_database e = rw (root, e) refl

    root_config :
        (uri : String)
        → root_of name configured ≡ some uri
        → root scheme name (record {
          configured = configured;
          sources = sources;
          database = some (λ n. storage_location n rows);
        })
          ≡ found uri
    unfolding root
    root_config uri e = rw (root, e) refl

    roots_alike :
        root scheme name (record {
          configured = configured;
          sources = sources;
          database = some (λ n. storage_location n rows);
        })
        ≡ listed_root scheme name
            (listed name (locations sorted configured (some (storage_locations rows))))
    unfolding listed_root entry_root in_config
    roots_alike = elim (Option-cases (root_of name configured)) [
      | inl e ↦
          root_database e
          ∙ rw listed-locations (rw e (database_root_listed name (storage_location name rows)))
      | inr (uri, e) ↦ root_config uri e ∙ rw listed-locations (rw e refl)
    ]

pub root-locations :
    {T : Type 0} (scheme : String → String)
    (sorted : List (String × String) → List (String × String))
    (configured sources : List (String × String)) (rows : List (Location T)) (name : String)
    → KeepsEntries sorted
    → root scheme name (record {
      configured = configured;
      sources = sources;
      database = some (λ n. storage_location n rows);
    })
      ≡ listed_root scheme name
          (listed name (locations sorted configured (some (storage_locations rows))))
root-locations scheme sorted configured sources rows name keeps =
    roots_alike scheme sorted keeps configured sources rows name
