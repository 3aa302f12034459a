-- ===== src/Settings/Dependencies.antt =====
-- src/dalmatian/dependencies.py: the components that a process makes when they are first asked for
-- (`lru_cache`), and `shutdown_dependencies`. What is counted are the connections that their constructors
-- open and their `close` ends. A constructor and a `close` may raise, as `Refusals` says.
pub mod Opening
pub mod Stopping
pub mod Closing
use dalmatian.Prelude.{ℕ, ◌+◌, Bool, true, false, Option, none, some, List, [], ◌∷◌, if◌then◌else◌}
use dalmatian.Errors.{Raised, Result, ok, err}
use dalmatian.Effects.{Action, ◌>>=◌, ◌>>◌, pure}

-- How many were opened, or closed: the metadata store's engine, the publication registry's client,
-- the Spark engine, the result cache's client and the queue's client.
pub record Connections : Type 0 where
  pub metadata : ℕ
  pub publications : ℕ
  pub engine : ℕ
  pub cache : ℕ
  pub queue : ℕ

-- What the caches of the functions hold.
pub record Container : Type 0 where
  pub metadata_store : Bool
  pub publication_registry : Bool
  pub storage_registry : Bool
  pub query_service : Bool
  pub job_queue : Bool
  pub opened : Connections
  pub closed : Connections

pub data Part : Type 0 where
  metadata publications storage engine cache queue : Part

pub record Refusals : Type 0 where
  pub of_open : Part → Container → Option Raised
  pub of_close : Part → Container → Option Raised

-- A constructor or a `close`: it raises, or does what it does.
unfoldable pub perform : Option Raised → (Container → Container) → Action Container (Unit {0})
perform none f s = (ok tt, f s)
perform (some e) f s = (err e, s)

with_metadata : Container → Container
with_metadata s = record s {
  metadata_store = true;
  opened = record s.opened { metadata = s.opened.metadata + 1 };
}

with_publications : Container → Container
with_publications s = record s {
  publication_registry = true;
  opened = record s.opened { publications = s.opened.publications + 1 };
}

with_engine : Container → Container
with_engine s = record s { opened = record s.opened { engine = s.opened.engine + 1 } }

with_cache : Container → Container
with_cache s = record s { opened = record s.opened { cache = s.opened.cache + 1 } }

with_queue : Container → Container
with_queue s = record s {
  job_queue = true;
  opened = record s.opened { queue = s.opened.queue + 1 };
}

pub data Asked : Type 0 where
  for_storage for_service for_queue : Asked

module _ (r : Refusals) where
  unless : (Container → Bool) → Action Container (Unit {0}) → Action Container (Unit {0})
  unless held make s = let made = make s in if held s then (ok tt, s) else made

  make_metadata : Action Container (Unit {0})
  unfolding perform with_metadata
  make_metadata s = perform (r.of_open Part.metadata s) with_metadata s

  get_metadata_store : Action Container (Unit {0})
  unfolding unless make_metadata
  get_metadata_store = unless (λ s. s.metadata_store) make_metadata

  make_publications : Action Container (Unit {0})
  unfolding perform with_publications
  make_publications s = perform (r.of_open Part.publications s) with_publications s

  get_output_publication_registry : Action Container (Unit {0})
  unfolding unless make_publications
  get_output_publication_registry = unless (λ s. s.publication_registry) make_publications

  -- The constructor checks the locations and opens nothing.
  make_storage : Action Container (Unit {0})
  unfolding perform
  make_storage s = perform (r.of_open Part.storage s) (λ c. record c { storage_registry = true }) s

  unfoldable pub get_storage_registry : Action Container (Unit {0})
  unfolding unless get_metadata_store get_output_publication_registry make_storage
  get_storage_registry =
      unless (λ s. s.storage_registry)
        (get_metadata_store >> get_output_publication_registry >> make_storage)

  make_engine : Action Container (Unit {0})
  unfolding perform with_engine
  make_engine s = perform (r.of_open Part.engine s) with_engine s

  make_cache : Action Container (Unit {0})
  unfolding perform with_cache
  make_cache s = perform (r.of_open Part.cache s) with_cache s

  keep_service : Action Container (Unit {0})
  keep_service s = (ok tt, record s { query_service = true })

  unfoldable pub get_query_service : Action Container (Unit {0})
  unfolding unless get_metadata_store make_engine make_cache keep_service
  get_query_service =
      unless (λ s. s.query_service)
        (get_storage_registry >> make_engine >> make_cache >> get_metadata_store >> keep_service)

  make_queue : Action Container (Unit {0})
  unfolding perform with_queue
  make_queue s = perform (r.of_open Part.queue s) with_queue s

  unfoldable pub get_job_queue : Action Container (Unit {0})
  unfolding unless get_metadata_store make_queue
  get_job_queue = unless (λ s. s.job_queue) (get_metadata_store >> make_queue)

  close_part : Part → (Connections → Connections) → Action Container (Unit {0})
  unfolding perform
  close_part part count s =
      perform (r.of_close part s) (λ c. record c { closed = count c.closed }) s

  when : (Container → Bool) → Action Container (Unit {0}) → Action Container (Unit {0})
  when held close s = let done = close s in if held s then done else (ok tt, s)

  -- QueryService.close: the engine, then the result cache.
  close_engine : Action Container (Unit {0})
  unfolding close_part
  close_engine = close_part Part.engine (λ n. record n { engine = n.engine + 1 })

  close_cache : Action Container (Unit {0})
  unfolding close_part
  close_cache = close_part Part.cache (λ n. record n { cache = n.cache + 1 })

  clear_service : Action Container (Unit {0})
  clear_service s = (ok tt, record s { query_service = false })

  close_queue : Action Container (Unit {0})
  unfolding close_part
  close_queue = close_part Part.queue (λ n. record n { queue = n.queue + 1 })

  clear_queue : Action Container (Unit {0})
  clear_queue s = (ok tt, record s { job_queue = false })

  -- StorageRegistry.close closes the publication registry.
  close_storage : Action Container (Unit {0})
  unfolding close_part
  close_storage = close_part Part.publications (λ n. record n { publications = n.publications + 1 })

  clear_storage : Action Container (Unit {0})
  clear_storage s = (ok tt, record s { storage_registry = false })

  clear_publications : Action Container (Unit {0})
  clear_publications s = (ok tt, record s { publication_registry = false })

  close_metadata : Action Container (Unit {0})
  unfolding close_part
  close_metadata = close_part Part.metadata (λ n. record n { metadata = n.metadata + 1 })

  clear_metadata : Action Container (Unit {0})
  clear_metadata s = (ok tt, record s { metadata_store = false })

  unfoldable pub shutdown_dependencies : Action Container (Unit {0})
  unfolding when close_engine close_cache clear_service close_queue clear_queue close_storage
      clear_storage clear_publications close_metadata clear_metadata
  shutdown_dependencies =
      when (λ s. s.query_service) (close_engine >> close_cache >> clear_service)
      >> when (λ s. s.job_queue) (close_queue >> clear_queue)
      >> when (λ s. s.storage_registry) (close_storage >> clear_storage)
      >> clear_publications
      >> when (λ s. s.metadata_store) (close_metadata >> clear_metadata)

  -- The process asks for one of the three, whatever the answer.
  ask : Asked → Container → Container
  ask for_storage s = (get_storage_registry s).1
  ask for_service s = (get_query_service s).1
  ask for_queue s = (get_job_queue s).1

  unfoldable pub ask_all : List Asked → Container → Container
  unfolding ask
  ask_all [] s = s
  ask_all (a ∷ more) s = ask_all more (ask a s)

abbrev none_yet : Connections
none_yet = record { metadata = 0; publications = 0; engine = 0; cache = 0; queue = 0 }

abbrev pub nothing_made : Container
nothing_made = record {
  metadata_store = false;
  publication_registry = false;
  storage_registry = false;
  query_service = false;
  job_queue = false;
  opened = none_yet;
  closed = none_yet;
}
