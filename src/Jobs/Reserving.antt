-- ===== src/Jobs/Reserving.antt =====
-- What a worker holds that has reserved a job (src/dalmatian/jobs.py: `reserve`).
use dalmatian.Prelude.{
  ℕ, ◌+◌, ◌*◌, ◌<◌, ◌≡◌, refl, String, true, false, Option, some, none, List, ◌∷◌, arith, eq_refl,
  holds, ◌%◌,
}
use dalmatian.Prelude.Decimal.{str, to_int-str}
use dalmatian.Valkey.{Valkey}
use dalmatian.Valkey.Laws.{hash_laws, list_laws}
use dalmatian.Jobs.Config.{Config, job_key, processing_name}
use dalmatian.Jobs.Scripts.Lease.{Claimed, claim_script, number}
use dalmatian.Jobs.Reads.{owns, cancel_requested}
use dalmatian.Jobs.Steps.{field, lease_until}
use dalmatian.Jobs.Methods.World.{Payloads, World, MetadataCall, update_invocation}
use dalmatian.Jobs.Methods.Reserve.{
  ReservedJob, take_next, promote_retries, claim_next, reserved, reserve,
}

module _ ⦃V : Valkey⦄ ⦃P : Payloads⦄ (q : Config) (worker : String) (now t : ℕ)
    (calls : List (MetadataCall P.Row)) where
  open V use {Db}

  -- The worker holds the job of this state, which the metadata store was told of.
  unfoldable pub IsHeld : ReservedJob → World → Type 0
  IsHeld job u =
      (owns q job.id worker t u.db ≡ true)
      × (cancel_requested q job.id worker u.db ≡ false)
      × (number u.db (job_key q job.id) "attempts" ≡ job.attempts)
      × (V.lpos u.db (processing_name q) job.id ≡ true)
      × (u.calls ≡ update_invocation job.id "running" none none none (some job.attempts) ∷ calls)

  module _ (j : String) (d : Db) where
    claim : Option Claimed × Db
    claim =
        claim_script (job_key q j) (processing_name q) j worker (lease_until q now) now
          q.job_ttl_seconds d

    claimed_fields :
        (c : Claimed)
        → claim.0 ≡ some c
        → (field q claim.1 j "status" ≡ some "running")
          × (field q claim.1 j "worker_id" ≡ some worker)
          × (field q claim.1 j "lease_expires_ms" ≡ some (str (lease_until q now)))
          × (field q claim.1 j "cancel_requested" ≡ some "0")
    unfolding claim claim_script
    claimed_fields c h = grind (arith, hash_laws, eq_refl)

    claimed_attempts :
        (c : Claimed) → claim.0 ≡ some c → number claim.1 (job_key q j) "attempts" ≡ c.attempts
    unfolding claim claim_script
    claimed_attempts c h = grind (arith, hash_laws, eq_refl)

    claimed_place : (c : Claimed) → claim.0 ≡ some c → V.lpos claim.1 (processing_name q) j ≡ true
    unfolding claim claim_script
    claimed_place c h = grind (arith, list_laws)

    claimed_owned :
        (c : Claimed) → t < lease_until q now → claim.0 ≡ some c → owns q j worker t claim.1 ≡ true
    unfolding owns holds
    claimed_owned c early h =
        ground (arith, claimed_fields c h, eq_refl worker, to_int-str (lease_until q now))

    claimed_free : (c : Claimed) → claim.0 ≡ some c → cancel_requested q j worker claim.1 ≡ false
    unfolding cancel_requested holds
    claimed_free c h = ground (arith, claimed_fields c h)

  reserved-IsHeld :
      (j : String) (d : Db) (job : ReservedJob) (o : Option Claimed)
      → (claim j d).0 ≡ o
      → t < lease_until q now
      → (reserved q j calls (o, (claim j d).1)).0 ≡ some job
      → IsHeld job (reserved q j calls (o, (claim j d).1)).1
  unfolding reserved IsHeld
  reserved-IsHeld j d job none made early h = absurd (cc)
  reserved-IsHeld j d job (some c) made early h = ground (
    arith,
    claimed_attempts j d c made,
    claimed_place j d c made,
    claimed_owned j d c early made,
    claimed_free j d c made,
  )

  from_next :
      (next : Option String × Db) (job : ReservedJob)
      → t < lease_until q now
      → (claim_next q worker now calls next).0 ≡ some job
      → IsHeld job (claim_next q worker now calls next).1
  unfolding claim_next claim
  from_next (none, d) job early h = absurd (cc)
  from_next (some j, d) job early h = reserved-IsHeld j d job (claim j d).0 refl early h

module _ ⦃V : Valkey⦄ ⦃P : Payloads⦄ (q : Config) where
  pub reserve-IsHeld :
      (worker : String) (shard before now t : ℕ) (w : World) (job : ReservedJob)
      → (reserve q worker shard before now w).0 ≡ some job
      → t < now + q.lease_seconds * 1000
      → IsHeld q worker now t w.calls job (reserve q worker shard before now w).1
  unfolding reserve lease_until
  reserve-IsHeld worker shard before now t w job h early =
      from_next q worker now t w.calls
        (take_next q (shard % q.affinity_shards) (promote_retries q before w.db).1) job early h
