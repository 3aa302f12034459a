-- ===== src/Jobs/Histories.antt =====
-- Histories of the queue: any interleaving of the steps of clients, workers and reapers
-- (src/dalmatian/jobs.py).
use dalmatian.Prelude.{◌<◌, String, ◌≡◌, false, List, [], ◌∷◌, arith, holds}
use dalmatian.Prelude.Decimal.{to_int_zero}
use dalmatian.Valkey.{Valkey}
use dalmatian.Valkey.Laws.{hget_absent}
use dalmatian.Jobs.Config.{Config, job_key}
use dalmatian.Jobs.Attempts.{IsLimited, after-IsLimited}
use dalmatian.Jobs.Placement.{IsPlaced, after-IsPlaced}
use dalmatian.Jobs.Steps.{Step, IsSound, ReadsShard, after, run}

module _ ⦃V : Valkey⦄ (q : Config) where
  open V use {Db}

  -- Each step of the history is taken the way the clients take it.
  abbrev pub IsHistory : List Step → Db → Type 0
  IsHistory [] d = Unit {0}
  IsHistory (s ∷ ss) d = IsSound q s d × ReadsShard q s d × IsHistory ss (after q s d)

  -- A database in which no job of that identifier was ever recorded.
  abbrev pub IsUnused : Db → String → Type 0
  IsUnused d i = V.exists d (job_key q i) ≡ false

  -- From any placed state, a history of any length and order leaves the job placed.
  pub run-IsPlaced :
      (ss : List Step) (d : Db) (i : String)
      → IsHistory ss d
      → IsPlaced q d i
      → IsPlaced q (run q ss d) i
  unfolding run
  run-IsPlaced [] d i h v = v
  run-IsPlaced (s ∷ ss) d i h v =
      run-IsPlaced ss (after q s d) i h.2 (after-IsPlaced q s d i h.0 h.1 v)

  unused-IsPlaced : (d : Db) (i : String) → IsUnused d i → IsPlaced q d i
  unfolding holds
  unused-IsPlaced d i h = ground (arith, hget_absent d (job_key q i) "status" h)

  -- No live job is lost: in every history from a database without the job, a queued job stands in
  -- its shard or in the processing list, a running one in the processing list and a retrying one
  -- in the retry set.
  pub never_lost :
      (ss : List Step) (d : Db) (i : String)
      → IsUnused d i
      → IsHistory ss d
      → IsPlaced q (run q ss d) i
  never_lost ss d i unused h = run-IsPlaced ss d i h (unused-IsPlaced d i unused)

  pub run-IsLimited :
      (ss : List Step) (d : Db) (i : String)
      → 0 < q.max_attempts
      → IsHistory ss d
      → IsLimited q d i
      → IsLimited q (run q ss d) i
  unfolding run
  run-IsLimited [] d i limit h v = v
  run-IsLimited (s ∷ ss) d i limit h v =
      run-IsLimited ss (after q s d) i limit h.2 (after-IsLimited q limit s d i h.0 v)

  pub unused-IsLimited : (d : Db) (i : String) → 0 < q.max_attempts → IsUnused d i → IsLimited q d i
  unfolding holds
  unused-IsLimited d i limit h = ground (
    arith,
    hget_absent d (job_key q i) "status" h,
    hget_absent d (job_key q i) "attempts" h,
    to_int_zero,
  )
