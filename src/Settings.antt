-- ===== src/Settings.antt =====
-- src/dalmatian/config.py: the settings and the bounds that pydantic checks when it reads them, and what
-- src/dalmatian/dependencies.py makes of them. Times in seconds that are Python floats are given in
-- milliseconds. The addresses, the directories and Spark's own settings, which are only passed on, are left
-- out.
pub mod Dependencies
use dalmatian.Prelude.{
  ℕ, String, Bool, true, ◌&&◌, Option, none, some, List, leb, nat_eq, if◌then◌else◌,
}
use dalmatian.Jobs.Config.{Config}
use dalmatian.Service.Config.{ServiceConfig}

pub record Settings : Type 0 where
  pub spark_app_max_cores : ℕ
  pub spark_executor_cores : ℕ
  pub spark_executor_instances : Option ℕ
  pub source_locations : List (String × String)
  pub storage_locations : List (String × String)
  pub output_publication_prefix : String
  pub metadata_url : Option String
  pub default_cache_ttl_seconds : ℕ
  pub max_cache_ttl_seconds : ℕ
  pub result_row_limit : ℕ
  pub result_cache_max_bytes : ℕ
  pub result_cache_singleflight_wait_ms : ℕ
  pub result_cache_lock_seconds : ℕ
  pub dataset_cache_entries : ℕ
  pub dataset_cache_ttl_seconds : ℕ
  pub max_concurrent_queries : ℕ
  pub admission_wait_ms : ℕ
  pub default_query_timeout_seconds : ℕ
  pub max_query_timeout_seconds : ℕ
  pub max_inline_bytes : ℕ
  pub queue_name : String
  pub job_ttl_seconds : ℕ
  pub idempotency_ttl_seconds : ℕ
  pub job_lease_seconds : ℕ
  pub worker_reserve_timeout_seconds : ℕ
  pub worker_reap_interval_seconds : ℕ
  pub worker_max_attempts : ℕ
  pub worker_retry_base_ms : ℕ
  pub worker_retry_max_ms : ℕ
  pub worker_affinity_shards : ℕ
  pub worker_affinity_shard : Option ℕ
  pub max_queue_depth : ℕ
  pub worker_metrics_port : ℕ

at_least : ℕ → Option ℕ → Bool
at_least n none = true
at_least n (some m) = leb n m

-- Field(ge=…, le=…) of every setting; pydantic refuses settings that are out of bounds.
unfoldable pub is_accepted : Settings → Bool
unfolding at_least
is_accepted s =
    leb 1 s.spark_app_max_cores
    && leb 1 s.spark_executor_cores
    && at_least 1 s.spark_executor_instances
    && leb 1 s.result_row_limit
    && leb 1024 s.result_cache_max_bytes
    && leb 100 s.result_cache_singleflight_wait_ms
    && leb 1 s.result_cache_lock_seconds
    && leb 1 s.dataset_cache_entries
    && leb 1 s.dataset_cache_ttl_seconds
    && leb 1 s.max_concurrent_queries
    && leb 1 s.default_query_timeout_seconds
    && leb 1 s.max_query_timeout_seconds
    && leb 1024 s.max_inline_bytes
    && leb 60 s.job_ttl_seconds
    && leb 60 s.idempotency_ttl_seconds
    && leb 10 s.job_lease_seconds
    && leb 1 s.worker_reserve_timeout_seconds
    && leb s.worker_reserve_timeout_seconds 30
    && leb 1 s.worker_reap_interval_seconds
    && leb 1 s.worker_max_attempts
    && leb 100 s.worker_retry_base_ms
    && leb 100 s.worker_retry_max_ms
    && leb 1 s.worker_affinity_shards
    && leb s.worker_affinity_shards 256
    && leb 1 s.max_queue_depth
    && leb 1 s.worker_metrics_port
    && leb s.worker_metrics_port 65535

-- The settings of get_query_service and of get_job_queue.
unfoldable pub service_config : Settings → ServiceConfig
service_config s = record {
  default_cache_ttl_seconds = s.default_cache_ttl_seconds;
  max_cache_ttl_seconds = s.max_cache_ttl_seconds;
  result_row_limit = s.result_row_limit;
  max_concurrent_queries = s.max_concurrent_queries;
  default_query_timeout_seconds = s.default_query_timeout_seconds;
  max_query_timeout_seconds = s.max_query_timeout_seconds;
  singleflight_lock_seconds = s.result_cache_lock_seconds;
}

unfoldable pub queue_config : Settings → Config
queue_config s = record {
  queue_name = s.queue_name;
  job_ttl_seconds = s.job_ttl_seconds;
  lease_seconds = s.job_lease_seconds;
  max_attempts = s.worker_max_attempts;
  affinity_shards = s.worker_affinity_shards;
  max_queue_depth = s.max_queue_depth;
  idempotency_ttl_seconds =
      if nat_eq s.idempotency_ttl_seconds 0 then s.job_ttl_seconds else s.idempotency_ttl_seconds;
  retry_base_ms = s.worker_retry_base_ms;
  retry_max_ms = s.worker_retry_max_ms;
}
