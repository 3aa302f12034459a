-- ===== src/Examples/Settings.antt =====
-- The start and the end of a process at concrete inputs (src/dalmatian/config.py and
-- src/dalmatian/dependencies.py).
use dalmatian.Prelude.{◌≡◌, refl, true, none, [], ◌∷◌}
use dalmatian.Settings.{Settings, is_accepted}
use dalmatian.Settings.Dependencies.{
  Refusals, for_service, for_queue, ask_all, shutdown_dependencies, nothing_made,
}
use dalmatian.Settings.Dependencies.Closing.{IsShut, shutdown_dependencies-IsShut}

-- The defaults.
abbrev defaults : Settings
defaults = record {
  spark_app_max_cores = 2;
  spark_executor_cores = 2;
  spark_executor_instances = none;
  source_locations = [];
  storage_locations = ("local", "file:///exports") ∷ [];
  output_publication_prefix = "dalmatian:outputs";
  metadata_url = none;
  default_cache_ttl_seconds = 300;
  max_cache_ttl_seconds = 3600;
  result_row_limit = 10000;
  result_cache_max_bytes = 4194304;
  result_cache_singleflight_wait_ms = 15000;
  result_cache_lock_seconds = 120;
  dataset_cache_entries = 32;
  dataset_cache_ttl_seconds = 1800;
  max_concurrent_queries = 4;
  admission_wait_ms = 250;
  default_query_timeout_seconds = 300;
  max_query_timeout_seconds = 3600;
  max_inline_bytes = 8388608;
  queue_name = "dalmatian:jobs";
  job_ttl_seconds = 86400;
  idempotency_ttl_seconds = 86400;
  job_lease_seconds = 60;
  worker_reserve_timeout_seconds = 2;
  worker_reap_interval_seconds = 15;
  worker_max_attempts = 3;
  worker_retry_base_ms = 2000;
  worker_retry_max_ms = 60000;
  worker_affinity_shards = 8;
  worker_affinity_shard = none;
  max_queue_depth = 10000;
  worker_metrics_port = 9090;
}

defaults_accepted : is_accepted defaults ≡ true
unfolding is_accepted
defaults_accepted = refl

abbrev calm : Refusals
calm = record { of_open = λ part s. none; of_close = λ part s. none }

shutdown_dependencies-IsShut_example :
    IsShut
      (shutdown_dependencies calm
        (ask_all calm (for_queue ∷ for_service ∷ for_queue ∷ []) nothing_made)).1
shutdown_dependencies-IsShut_example =
    shutdown_dependencies-IsShut calm (for_queue ∷ for_service ∷ for_queue ∷ []) (λ part s. refl)
      (λ part s. refl)
