-- ===== src/Metadata/Admin/Adding.antt =====
-- What `storage-add` does to the roots of the locations (src/dalmatian/admin.py, src/dalmatian/metadata.py and
-- src/dalmatian/storage.py).
use dalmatian.Prelude.{
  String, ◌≡◌, if_rule, refl, sym, ap, ◌∙◌, Bool, true, false, Option, none, some, List, ◌==◌,
  arith, contains, eq_refl,
}
use dalmatian.Prelude.Decimal.{filled-eq}
use dalmatian.Errors.{Result, ok, err}
use dalmatian.Metadata.{Location, storage_location, put_storage_location}
use dalmatian.Metadata.Rows.{put-storage_location}
use dalmatian.Storage.Locations.{
  Resolved, found, unsupported_scheme, escaping_path, empty_path, unknown_location, no_local_root,
  normalize_root, rstrip, validated_root, root, Roots, root_of, database_root, stored_root,
}
use dalmatian.Metadata.Admin.{
  assert_schema_current, MetadataStore, null_store, sql_store, opened, build_metadata_store,
  put_location, storage_add, Ended, add_checked, on_store, with_store, no_address, on_database,
  run_admin,
}

unfoldable pub is_null : Result MetadataStore → Bool
is_null (ok null_store) = true
is_null _ = false

built_not_null :
    (url : String) (current : Option String) (head : String)
    → (url == "") ≡ false
    → is_null (build_metadata_store (some url) current head) ≡ false
unfolding build_metadata_store opened assert_schema_current is_null
built_not_null url current head filled = ground (arith, filled)

module _ {T : Type 0} (scheme : String → String)
    (sorted : List (String × String) → List (String × String)) (now : T) where
  -- What a location that was added is.
  add_checked_facts :
      (store : MetadataStore) (name uri : String) (v : Resolved String) (rows : List (Location T))
      (out : List String)
      → (add_checked scheme sorted now store name uri v rows).0 ≡ ok out
      → ((x : String) × (v ≡ found x))
        × ((add_checked scheme sorted now store name uri v rows).1
            ≡ put_location store name uri now rows)
  unfolding add_checked
  add_checked_facts store name uri (found x) rows out h = ((x, refl), refl)
  add_checked_facts store name uri (unsupported_scheme m) rows out h = cc
  add_checked_facts store name uri escaping_path rows out h = cc
  add_checked_facts store name uri empty_path rows out h = cc
  add_checked_facts store name uri (unknown_location m) rows out h = cc
  add_checked_facts store name uri no_local_root rows out h = cc

  with_store_facts :
      (name uri : String) (store : Result MetadataStore) (rows : List (Location T))
      (out : List String)
      → is_null store ≡ false
      → let e = with_store scheme sorted now (storage_add name uri) store rows in
        e.0 ≡ ok out
        → ((x : String) × (validated_root scheme name uri ≡ found x))
          × (e.1 ≡ put_storage_location name uri now rows)
  unfolding with_store on_store put_location is_null
  with_store_facts name uri (err e) rows out kept h = cc
  with_store_facts name uri (ok null_store) rows out kept h = cc
  with_store_facts name uri (ok sql_store) rows out kept h =
      add_checked_facts sql_store name uri (validated_root scheme name uri) rows out h

  run_admin_facts :
      (name uri : String) (address current upgraded : Option String) (head : String)
      (rows : List (Location T)) (out : List String)
      → let e =
          run_admin scheme sorted now (storage_add name uri) address current upgraded head rows in
        e.0 ≡ ok out
        → ((x : String) × (validated_root scheme name uri ≡ found x))
          × (e.1 ≡ put_storage_location name uri now rows)
  unfolding run_admin no_address on_database
  run_admin_facts name uri none current upgraded head rows out = λ h. cc
  run_admin_facts name uri (some url) current upgraded head rows out =
      if_rule
        (λ (e : Ended T).
          e.0 ≡ ok out
          → ((x : String) × (validated_root scheme name uri ≡ found x))
            × (e.1 ≡ put_storage_location name uri now rows))
        (url == "") (λ e h. cc)
        (λ e.
          with_store_facts name uri (build_metadata_store (some url) current head) rows out
            (built_not_null url current head e))

  -- The root of a location that the database has and the settings do not.
  root_in_database :
      (name : String) (r : Roots) (lookup : String → Option String)
      → root_of name r.configured ≡ none
      → r.database ≡ some lookup
      → root scheme name r ≡ database_root scheme name (lookup name)
  unfolding stored_root root database_root
  root_in_database name r lookup e d = rw (root, e) (rw d refl)

  empty_unsupported :
      (name : String) → scheme "" ≡ "" → validated_root scheme name "" ≡ unsupported_scheme name
  unfolding validated_root normalize_root rstrip contains
  empty_unsupported name h = rw h refl

  supported_filled :
      (name uri x : String)
      → scheme "" ≡ ""
      → validated_root scheme name uri ≡ found x
      → (uri == "") ≡ false
  supported_filled name String.[] x none_of_empty h =
      let clash = sym (empty_unsupported name none_of_empty) ∙ h in cc
  supported_filled name (String.◌∷◌ c s) x none_of_empty h = filled-eq c s

  database_root-found :
      (name uri x : String)
      → scheme "" ≡ ""
      → validated_root scheme name uri ≡ found x
      → database_root scheme name (some uri) ≡ found x
  unfolding database_root
  database_root-found name uri x none_of_empty h =
      rw (supported_filled name uri x none_of_empty h) h

-- The registry of a process with these settings, over the locations in the database.
abbrev pub roots_over :
    {T : Type 0} → List (String × String) → List (String × String) → List (Location T) → Roots
roots_over configured sources rows = record {
  configured = configured;
  sources = sources;
  database = some (λ n. storage_location n rows);
}

module _ {T : Type 0} (scheme : String → String) (configured sources : List (String × String)) where
  root_kept :
      (name : String) (before after : List (Location T))
      → storage_location name before ≡ storage_location name after
      → root scheme name (roots_over configured sources before)
        ≡ root scheme name (roots_over configured sources after)
  unfolding root stored_root
  root_kept name before after h =
      ap
        (λ o. elim (root_of name configured) [
          | some uri ↦ found uri
          | none ↦ database_root scheme name o
        ])
        h

-- Where an empty address has no scheme: a location that storage-add accepts, and that the settings do not
-- have, is one that outputs can be stored in: the registry has a root for it, the one that the check found.
-- No other name's root changes.
pub run_admin-root :
    {T : Type 0} (scheme : String → String)
    (sorted : List (String × String) → List (String × String)) (now : T) (name uri : String)
    (address current upgraded : Option String) (head : String) (rows : List (Location T))
    (configured sources : List (String × String)) (out : List String)
    → scheme "" ≡ ""
    → root_of name configured ≡ none
    → let e =
        run_admin scheme sorted now (storage_add name uri) address current upgraded head rows in
      e.0 ≡ ok out
      → ((x : String) × (validated_root scheme name uri ≡ found x)
          × (root scheme name (roots_over configured sources e.1) ≡ found x))
        × ((other : String)
            → (name == other) ≡ false
            → root scheme other (roots_over configured sources e.1)
              ≡ root scheme other (roots_over configured sources rows))
run_admin-root scheme sorted now name uri address current upgraded head rows configured sources out
      none_of_empty free h =
    let ((x, v), same) =
      run_admin_facts scheme sorted now name uri address current upgraded head rows out h in
    let after =
      (run_admin scheme sorted now (storage_add name uri) address current upgraded head rows).1 in
    let put =
      λ (n : String). ap (storage_location n) same ∙ put-storage_location name uri n now rows in
    (
      (
        x,
        v,
        root_in_database scheme sorted now name (roots_over configured sources after)
              (λ n. storage_location n after) free refl
            ∙ ap (database_root scheme name) (put name ∙ rw (eq_refl name) refl)
            ∙ database_root-found scheme sorted now name uri x none_of_empty v,
      ),
      (λ other e. root_kept scheme configured sources other after rows (put other ∙ rw e refl)),
    )
