-- ===== src/Jobs/Depth.antt =====
-- How long the queue gets (src/dalmatian/jobs.py: `depth` and `enqueue`).
use dalmatian.Prelude.{
  is_some, true, some, none, ◌≤◌, ℕ, zero, suc, ◌+◌, ◌<◌, ◌≡◌, String, Option, arith, ◌⊎◌, ltb,
  nat_eq, if◌then◌else◌,
}
use dalmatian.Valkey.{Valkey}
use dalmatian.Valkey.Laws.{list_laws, zset_laws}
use dalmatian.Models.{QueryRequest, JobRecord}
use dalmatian.Fingerprint.{Hashing, request_payload_fingerprint}
use dalmatian.Jobs.Config.{Config, idempotency_name, pending_name, processing_name, retry_name}
use dalmatian.Jobs.Keys.{pending_name-==, pending_name-processing_name}
use dalmatian.Jobs.Scripts.Submit.{enqueue_script, queue_depth, total_length, created}
use dalmatian.Jobs.Steps.{shards_below, enqueue_step}
use dalmatian.Jobs.Reads.{depth}
use dalmatian.Jobs.Methods.World.{Payloads, World, Outcome, ok, raised, queue_full}
use dalmatian.Jobs.Methods.Submit.{
  bad_length, prior, check_binding, enqueue, submit, submitted, shard_of_request, new_record,
}

module _ ⦃V : Valkey⦄ (q : Config) where
  open V use {Db, llen}

  -- A job more in one shard is a job more in all of them.
  total-step :
      (n k : ℕ) (d d' : Db)
      → ((i : ℕ)
          → llen d' (pending_name q i)
            ≡ (if nat_eq k i then llen d (pending_name q i) + 1 else llen d (pending_name q i)))
      → total_length (shards_below q n) d'
        ≡ total_length (shards_below q n) d + (if ltb k n then 1 else 0)
  unfolding total_length shards_below
  total-step zero k d d' h = ground arith
  total-step (suc n) k d d' h = ground (arith, h n, total-step n k d d' h)

  -- The job is created: there was room, and the queue holds one job more.
  unfoldable pub IsOneMore : Db → Db → Type 0
  IsOneMore d d' = (depth q d < q.max_queue_depth) × (depth q d' ≡ depth q d + 1)

  module _ (id : String) (shard : ℕ) (digest : Option String) (hash json : String) (now : ℕ)
      (d : Db) where
    stored : Db
    stored = (enqueue_step q id shard digest hash json now d).1

    in_shard :
        (enqueue_step q id shard digest hash json now d).0 ≡ created id
        → (i : ℕ)
        → llen stored (pending_name q i)
          ≡ (if nat_eq shard i then llen d (pending_name q i) + 1 else llen d (pending_name q i))
    unfolding stored enqueue_step enqueue_script
    in_shard made i = grind (arith, list_laws, pending_name-==)

    elsewhere :
        (enqueue_step q id shard digest hash json now d).0 ≡ created id
        → (llen stored (processing_name q) ≡ llen d (processing_name q))
          × (V.zcard stored (retry_name q) ≡ V.zcard d (retry_name q))
          × (depth q d < q.max_queue_depth)
    unfolding stored enqueue_step enqueue_script depth
    elsewhere made = grind (arith, list_laws, zset_laws, pending_name-processing_name)

    one_more :
        shard < q.affinity_shards
        → (enqueue_step q id shard digest hash json now d).0 ≡ created id
        → IsOneMore d stored
    unfolding IsOneMore depth queue_depth
    one_more below made =
        ground (arith, elsewhere made, total-step q.affinity_shards shard d stored (in_shard made))

module _ ⦃V : Valkey⦄ ⦃P : Payloads⦄ ⦃H : Hashing⦄ (q : Config) where
  below :
      (request : QueryRequest)
      → 0 < q.affinity_shards
      → shard_of_request q request < q.affinity_shards
  unfolding shard_of_request
  below request some_shard = omega arith

  -- Why nothing changes: a key of a bad length, a binding of the key, or no room.
  unfoldable pub IsRefused :
      QueryRequest → Option String → Outcome (JobRecord P.Row) → World → Type 0
  IsRefused request key answer w =
      (bad_length key ≡ true)
      ⊎ (is_some (prior q key (request_payload_fingerprint request) w.db) ≡ true)
      ⊎ ((q.max_queue_depth ≤ depth q w.db) × (answer ≡ raised queue_full))

  pub enqueue-depth :
      (request : QueryRequest) (key : Option String) (id : String) (now : ℕ) (w : World)
      → 0 < q.affinity_shards
      → let r = enqueue q request key id now w in
        ((r.1 ≡ w) × IsRefused request key r.0 w)
        ⊎ ((r.0 ≡ ok (new_record q id now)) × IsOneMore q w.db r.1.db)
  unfolding enqueue submit submitted stored enqueue_step enqueue_script IsRefused depth prior
      check_binding
  enqueue-depth request none id now w some_shard =
      let n = shard_of_request q request in
      let hash = request_payload_fingerprint request in
      ground (
        arith,
        one_more q id n none hash (P.request_json request) now w.db (below request some_shard),
      )
  enqueue-depth request (some key) id now w some_shard =
      let n = shard_of_request q request in
      let hash = request_payload_fingerprint request in
      ground (
        arith,
        one_more q id n (some (H.sha256 key)) hash (P.request_json request) now w.db
            (below request some_shard),
        V.hgetall_empty w.db (idempotency_name q (H.sha256 key)),
      )
