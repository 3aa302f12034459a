-- ===== src/Metadata/Admin.antt =====
-- src/dalmatian/admin.py, and how src/dalmatian/metadata.py opens a store: the check of the schema's
-- revision and the store that keeps nothing. What Alembic and the database answer is an
-- argument; the store's `close` after a command, which changes no row, is left out.
pub mod Adding
use Prim.Native.String.{◌++◌}
use dalmatian.Prelude.{
  String, ◌≡◌, Bool-cases, inl, inr, if_rule, refl, sym, ap, ◌∙◌, Bool, true, false, not, Option,
  none, some, List, [], ◌∷◌, ◌==◌, holds, or_else, arith, if◌then◌else◌, contains, eq_refl,
}
use dalmatian.Prelude.Decimal.{filled-eq}
use dalmatian.Errors.{Raised, Result, ok, err, metadata_schema_error, value_error, other_error}
use dalmatian.Metadata.{
  Location, storage_location, storage_locations, put_storage_location, delete_storage_location,
}
use dalmatian.Metadata.Rows.{put-storage_location}
use dalmatian.Storage.Locations.{
  Resolved, found, unsupported_scheme, escaping_path, empty_path, unknown_location, no_local_root,
  normalize_root, rstrip, validated_root, root, Roots, root_of, database_root, stored_root,
}

-- inspect(engine).has_table("alembic_version"), and the version that the table has
unfoldable pub current_metadata_revision : Bool → Option String → Option String
current_metadata_revision false version = none
current_metadata_revision true version = version

-- `head` is the newest revision of the migrations.
unfoldable pub assert_schema_current : Option String → String → Result (Unit {0})
assert_schema_current current head =
    if holds current head
    then ok tt
    else err (record {
      error_class = metadata_schema_error;
      class_name = "MetadataSchemaError";
      message = "metadata database is not migrated; run 'dalmatian-admin metadata-upgrade'";
    })

pub data MetadataStore : Type 0 where
  null_store sql_store : MetadataStore

opened : Result (Unit {0}) → Result MetadataStore
opened (ok u) = ok sql_store
opened (err e) = err e

-- if url: an empty address is none.
unfoldable pub build_metadata_store : Option String → Option String → String → Result MetadataStore
unfolding opened
build_metadata_store none current head = ok null_store
build_metadata_store (some url) current head =
    let checked = opened (assert_schema_current current head) in
    if url == "" then ok null_store else checked

module _ {T : Type 0} where
  -- The locations of a store; NullMetadataStore has none and keeps none.
  unfoldable pub locations_of : MetadataStore → List (Location T) → List (Location T)
  locations_of null_store rows = []
  locations_of sql_store rows = rows

  unfoldable pub put_location :
      MetadataStore → String → String → T → List (Location T) → List (Location T)
  put_location null_store name uri now rows = rows
  put_location sql_store name uri now rows = put_storage_location name uri now rows

  unfoldable pub delete_location : MetadataStore → String → List (Location T) → List (Location T)
  delete_location null_store name rows = rows
  delete_location sql_store name rows = delete_storage_location name rows

pub data Command : Type 0 where
  storage_add : String → String → Command
  storage_list : Command
  storage_delete : String → Command
  metadata_upgrade metadata_current : Command

-- What a command prints or raises, and the locations after it.
abbrev pub Ended : Type 0 → Type 0
Ended T = Result (List String) × List (Location T)

value_error_of : String → Raised
value_error_of message = record {
  error_class = value_error;
  class_name = "ValueError";
  message = message;
}

lines : List (String × String) → List String
lines [] = []
lines ((name, uri) ∷ rest) = (name ++ ("\t" ++ uri)) ∷ lines rest

module _ {T : Type 0} (scheme : String → String)
    (sorted : List (String × String) → List (String × String)) (now : T) where
  -- StorageRegistry({args.name: args.uri}) raises if the scheme is not supported.
  add_checked : MetadataStore → String → String → Resolved String → List (Location T) → Ended T
  unfolding value_error_of
  add_checked store name uri (found r) rows = (ok [], put_location store name uri now rows)
  add_checked store name uri _ rows =
      (err (value_error_of ("unsupported storage scheme for " ++ name)), rows)

  on_store : Command → MetadataStore → List (Location T) → Ended T
  unfolding add_checked lines
  on_store (storage_add name uri) store rows =
      add_checked store name uri (validated_root scheme name uri) rows
  on_store (storage_delete name) store rows = (ok [], delete_location store name rows)
  on_store _ store rows = (ok (lines (sorted (storage_locations (locations_of store rows)))), rows)

  with_store : Command → Result MetadataStore → List (Location T) → Ended T
  unfolding on_store
  with_store command (err e) rows = (err e, rows)
  with_store command (ok store) rows = on_store command store rows

  -- Without an address the parser ends the program.
  no_address : List (Location T) → Ended T
  no_address rows = (
    err (record {
      error_class = other_error;
      class_name = "SystemExit";
      message = "DALMATIAN_METADATA_URL is required for metadata commands";
    }),
    rows,
  )

  on_database :
      Command → Option String → Option String → Result MetadataStore → List (Location T) → Ended T
  unfolding with_store
  on_database metadata_upgrade current upgraded store rows =
      (ok (or_else upgraded "unknown" ∷ []), rows)
  on_database metadata_current current upgraded store rows =
      (ok (or_else current "unmigrated" ∷ []), rows)
  on_database command current upgraded store rows = with_store command store rows

  -- `current` and `upgraded` are the database's revision before and after upgrade_metadata.
  unfoldable pub run_admin :
      Command → Option String → Option String → Option String → String → List (Location T) → Ended T
  unfolding no_address on_database
  run_admin command none current upgraded head rows = no_address rows
  run_admin command (some url) current upgraded head rows =
      let done =
        on_database command current upgraded (build_metadata_store (some url) current head) rows in
      if url == "" then no_address rows else done
