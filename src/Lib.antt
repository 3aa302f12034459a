-- ===== src/Lib.antt =====
-- Dalmatian: an HTTP service that runs read-only Spark SQL over files, with a cache of results, an
-- asynchronous job queue on Valkey and published outputs (src/dalmatian).
--
-- A request reaches the query service through a route, or the job queue and from there a worker; the
-- service asks the result cache, then the engine, which resolves and caches the sources and publishes
-- stored output under the job's lease; both tell the metadata store.
--
-- Parts and files:
-- - Errors.antt: src/dalmatian/errors.py, the exceptions with the classes that they inherit from.
--   Effects.antt: calls that change a state and may raise, with try and finally.
-- - Valkey.antt: the server. It is no code of the repository, so it is a record of commands with
--   their documented effects, an instance argument of everything that uses it. Valkey/Laws.antt
--   restates the effects for the tactics, Valkey/Memory.antt meets them in memory.
-- - Jobs.antt, the job queue of src/dalmatian/jobs.py. Jobs/Config.antt has the settings and the
--   keys, Jobs/Scripts the Lua scripts line by line, each from a database to a reply and a
--   database. Jobs/Steps.antt makes one step of each script with the arguments that the methods of
--   ValkeyJobQueue pass, and a history of any list of steps: every interleaving of clients, workers
--   and reapers is one. The times to live (EXPIRE) are not timed: a record may lapse at any step.
--   Jobs/Methods has the methods themselves, with the records they answer and the calls on the metadata
--   store; the delay of a retry (_retry_delay_ms), a float with a random factor, is an argument of them.
-- - Models.antt: src/dalmatian/models.py, the data, and Models/Validation.antt its validators.
-- - Fingerprint.antt: src/dalmatian/fingerprint.py, the hashes of requests and sources, and
--   Fingerprint/Order.antt the order of the sources.
-- - Execution.antt: src/dalmatian/execution.py, the context of a query.
-- - Storage.antt: src/dalmatian/storage.py. Storage/Publication.antt has the two registries of
--   published outputs, Storage/Refinement.antt compares them,
--   Storage/Locations.antt resolves the names of locations, and Storage/Listing.antt has the registry's
--   construction and its list of locations.
-- - Paths.antt: src/dalmatian/paths.py, which files a pattern stands for.
-- - Datasets.antt: src/dalmatian/datasets.py. Datasets/Prepared.antt has the data, Datasets/Sources.antt
--   resolve_source, Datasets/Cache.antt the DatasetCache: the entries in the order of their last use and
--   the values that were released; each operation under the lock is one step.
-- - Results.antt: src/dalmatian/cache.py, MemoryCache and NullCache, and ValkeyResultCache in
--   Results/Server.antt, over the server's commands on texts.
-- - Sql.antt: src/dalmatian/sql.py, which statements may run. Sql/Tokens.antt reads a text as words, spaces and
--   marks for the regular expressions, Sql/Blanks.antt strips and joins, Sql/Fallback.antt has the checks of an
--   installation without sqlglot.
-- - Service.antt: src/dalmatian/service.py over an environment of the engine, the cache, the metadata
--   store and the slots (Service/Environment.antt), whose calls may raise and are logged.
--   Service/Config.antt has the checks of a request, Service/Execute.antt the execution with its single
--   flight, Service/Stream.antt the streams, whose reader asks for some number of chunks and goes away.
-- - Spark.antt: what src/dalmatian/spark.py does itself: Spark/Targets.antt the target of a read,
--   Spark/Inline.antt the rows of an inline result, Spark/Scope.antt the exceptions of a query,
--   Spark/Reading.antt how sources are read and views made, Spark/Running.antt what is done with a frame,
--   Spark/Store.antt the writing and publication of stored output, with a log of its calls.
-- - Metadata.antt: src/dalmatian/metadata.py, the rows in the database. Metadata/Admin.antt has the check
--   of the schema and src/dalmatian/admin.py, the commands of the administration.
-- - Api.antt: src/dalmatian/api.py, the routes and the answers to exceptions.
-- - Worker.antt: work_once and is_retryable of src/dalmatian/worker.py over the queue's methods, and
--   _worker_shard in Worker/Shard.antt. The service's answer and what others do between two calls are
--   arguments. Worker/Heartbeat.antt has the thread that renews the lease, Worker/Loop.antt the loop of run,
--   whose calls Worker/Loop/Queue.antt takes from the queue.
-- - Settings.antt: src/dalmatian/config.py, the settings with their bounds, and Settings/Dependencies.antt the
--   components that src/dalmatian/dependencies.py makes and shuts down, with their connections.
-- - Examples.antt: tests and the theorems at concrete inputs.
--
-- Times are milliseconds and are arguments of the steps; nothing is assumed of their order. Texts of
-- numbers are decimal numerals (Prelude/Decimal.antt). SHA-256 digests are arguments.
-- Loops are structural recursion; the worker's loop runs on fuel, of which one more than the number of
-- the turn that sees the stop event is enough.
-- Not modelled: Spark itself, sqlglot's parser (what it says of a text is an argument), the metrics and the
-- logging, the construction of the Spark session and of the application, the parsing of the command line and
-- the migrations of the metadata database, which only call other programs.
pub mod Prelude
pub mod Valkey
pub mod Models
pub mod Fingerprint
pub mod Errors
pub mod Effects
pub mod Jobs
pub mod Execution
pub mod Storage
pub mod Paths
pub mod Datasets
pub mod Results
pub mod Sql
pub mod Spark
pub mod Service
pub mod Metadata
pub mod Api
pub mod Worker
pub mod Settings
pub mod Examples
