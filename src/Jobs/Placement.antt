-- ===== src/Jobs/Placement.antt =====
-- No live job is lost: a queued job stands in its shard's list or in the processing list, a running
-- one in the processing list, a retrying one in the retry set (src/dalmatian/jobs.py).
use dalmatian.Prelude.{
  ℕ, ◌+◌, ◌<◌, ◌≤◌, String, ◌≡◌, false, true, some, arith, ◌==◌, eq_refl, holds, holds_two, is_some,
  nat_eq, if◌then◌else◌, count, count-remove_first, count-cons, contains-count, Bool-cases, inl,
  inr, subst, sym, ◌∙◌, ap, refl, eq_iff, Option, none,
}
use dalmatian.Prelude.Decimal.{to_int-str}
use dalmatian.Valkey.{Valkey, last?, drop_last, push}
use dalmatian.Valkey.Laws.{hash_laws, list_laws, zset_laws, hget_absent}
use dalmatian.Valkey.Ends.{count-push-drop_last}
use dalmatian.Jobs.Config.{Config, pending_name, processing_name, retry_name}
use dalmatian.Jobs.Keys.{key_laws}
use dalmatian.Jobs.Scripts.Submit.{enqueue_script, cancel_script, promote_script}
use dalmatian.Jobs.Scripts.Lease.{
  claim_script, heartbeat_script, publish_script, complete_script, terminal_script,
}
use dalmatian.Jobs.Scripts.Retry.{retry_script, reap_script}
use dalmatian.Jobs.Frame.{subject, field-after_other, field-publish}
use dalmatian.Jobs.Lists.{count-after_other, zscore-after_other}
use dalmatian.Jobs.Steps.{Step, IsSound, ReadsShard, after, field, shard_of}

ruleset place_rules = (
  hash_laws, list_laws, zset_laws, key_laws, eq_refl, to_int-str, count-remove_first, count-cons,
  contains-count,
)

module _ ⦃V : Valkey⦄ (q : Config) where
  open V use {Db, lrange, zscore}

  abbrev pub in_shard : Db → String → ℕ
  in_shard d i = count i (lrange d (pending_name q (shard_of q d i)))

  abbrev pub in_processing : Db → String → ℕ
  in_processing d i = count i (lrange d (processing_name q))

  pub record IsPlaced (d : Db) (i : String) : Type 0 where
    pub readable : is_some (field q d i "status") ≡ true → is_some (field q d i "request") ≡ true
    pub queued : holds (field q d i "status") "queued" ≡ true → 0 < in_shard d i + in_processing d i
    pub running : holds (field q d i "status") "running" ≡ true → 0 < in_processing d i
    pub retrying :
        holds (field q d i "status") "retrying" ≡ true → is_some (zscore d (retry_name q) i) ≡ true

  -- Whatever keeps a job's record, and does not take
  -- away from its entries, or from its place and its place in the retry set, keeps it placed.
  kept :
      (e d : Db) (i : String)
      → ((f : String) → field q e i f ≡ field q d i f)
      → zscore e (retry_name q) i ≡ zscore d (retry_name q) i
      → in_shard d i + in_processing d i
        ≤ count i (lrange e (pending_name q (shard_of q d i))) + in_processing e i
      → in_processing d i ≤ in_processing e i
      → IsPlaced d i
      → IsPlaced e i
  kept e d i fields score both processing v =
      ground (arith, fields "status", fields "request", fields "shard")

  -- What a pop does to the two lists, in terms of the entries of one job.
  pop_processing :
      (n : ℕ) (d : Db) (i : String)
      → in_processing (after q (Step.pop n) d) i
        ≡ count i (push (last? (lrange d (pending_name q n))) (lrange d (processing_name q)))
  unfolding after
  pop_processing n d i = grind (arith, list_laws, key_laws, eq_refl)

  pop_pending :
      (n m : ℕ) (d : Db) (i : String)
      → count i (lrange (after q (Step.pop n) d) (pending_name q m)) ≡ (
          if nat_eq n m
          then count i (drop_last (lrange d (pending_name q n)))
          else count i (lrange d (pending_name q m)))
  unfolding after
  pop_pending n m d i = grind (arith, list_laws, key_laws)

  pop_fields :
      (n : ℕ) (d : Db) (i f : String) → field q (after q (Step.pop n) d) i f ≡ field q d i f
  unfolding after
  pop_fields n d i f = grind (arith, hash_laws)

  pop_scores :
      (n : ℕ) (d : Db) (key i : String) → zscore (after q (Step.pop n) d) key i ≡ zscore d key i
  unfolding after
  pop_scores n d key i = grind (arith, zset_laws)

  -- A pop takes one entry from the shard to the processing list.
  pop_both :
      (n m : ℕ) (d : Db) (i : String)
      → count i (lrange d (pending_name q m)) + in_processing d i
        ≤ count i (lrange (after q (Step.pop n) d) (pending_name q m))
          + in_processing (after q (Step.pop n) d) i
  unfolding count
  pop_both n m d i = ground (
    arith,
    pop_processing n d i,
    pop_pending n m d i,
    count-push-drop_last i (lrange d (pending_name q m)) (lrange d (processing_name q)),
  )

  pop_grows :
      (n : ℕ) (d : Db) (i : String) → in_processing d i ≤ in_processing (after q (Step.pop n) d) i
  unfolding count
  pop_grows n d i = ground (arith, pop_processing n d i)

  pop-IsPlaced : (n : ℕ) (d : Db) (i : String) → IsPlaced d i → IsPlaced (after q (Step.pop n) d) i
  pop-IsPlaced n d i =
      kept (after q (Step.pop n) d) d i (pop_fields n d i) (pop_scores n d (retry_name q) i)
        (pop_both n (shard_of q d i) d i) (pop_grows n d i)

  publish_lists :
      (j w : String) (n : ℕ) (k m a u : String) (now : ℕ) (d : Db) (key : String)
      → lrange (after q (Step.publish j w n k m a u now) d) key ≡ lrange d key
  unfolding after publish_script
  publish_lists j w n k m a u now d key = grind (arith, list_laws)

  publish_scores :
      (j w : String) (n : ℕ) (k m a u : String) (now : ℕ) (d : Db) (key i : String)
      → zscore (after q (Step.publish j w n k m a u now) d) key i ≡ zscore d key i
  unfolding after publish_script
  publish_scores j w n k m a u now d key i = grind (arith, zset_laws)

  -- A job that is queued after a reap was sent back to its shard by it.
  reap_requeues :
      (j : String) (n : ℕ) (l : String) (now next : ℕ) (d : Db) (i : String)
      → j ≡ i
      → holds (field q (after q (Step.reap j n l now next) d) i "status") "queued" ≡ true
      → after q (Step.reap j n l now next) d
        ≡ V.lpush (pending_name q n) j (V.lrem (processing_name q) j d)
  unfolding holds after reap_script
  reap_requeues j n l now next d i same h = grind (arith, hash_laws, eq_refl, hget_absent)

  -- One that is running after a reap was left alone by it.
  reap_leaves :
      (j : String) (n : ℕ) (l : String) (now next : ℕ) (d : Db) (i : String)
      → j ≡ i
      → holds (field q (after q (Step.reap j n l now next) d) i "status") "running" ≡ true
      → after q (Step.reap j n l now next) d ≡ d
  unfolding holds after reap_script
  reap_leaves j n l now next d i same h =
      grind (
        arith,
        hash_laws,
        eq_refl,
        hget_absent,
        holds_two (field q d j "status") "queued" "running",
      )

  requeued :
      (n : ℕ) (d : Db) (j i : String)
      → j ≡ i
      → n ≡ shard_of q d j
      → let e = V.lpush (pending_name q n) j (V.lrem (processing_name q) j d) in
        0 < in_shard e i + in_processing e i
  requeued n d j i same reads = grind (arith, hash_laws, list_laws, eq_refl, count-cons)

  own-IsPlaced :
      (s : Step) (d : Db) (i : String)
      → IsSound q s d
      → ReadsShard q s d
      → subject s ≡ some i
      → IsPlaced d i
      → IsPlaced (after q s d) i
  unfolding subject holds after enqueue_script cancel_script promote_script claim_script
      heartbeat_script publish_script complete_script terminal_script retry_script reap_script
  own-IsPlaced (Step.enqueue b n o h r now) d i ok reads about v = grind (arith, place_rules)
  own-IsPlaced (Step.cancel b n now) d i ok reads about v = grind (arith, place_rules)
  own-IsPlaced (Step.promote b n now) d i ok reads about v = grind (arith, place_rules)
  own-IsPlaced (Step.pop n) d i ok reads about v = grind (arith, place_rules)
  own-IsPlaced (Step.claim b w now) d i ok reads about v = grind (arith, place_rules)
  own-IsPlaced (Step.heartbeat b w now) d i ok reads about v =
      grind (arith, hash_laws, list_laws, eq_refl)
  own-IsPlaced (Step.publish b w n k m a u now) d i ok reads about v =
      let e = after q (Step.publish b w n k m a u now) d in
      let lists = publish_lists b w n k m a u now d in
      kept e d i (λ f. field-publish q b w n k m a u now d i f ok)
        (publish_scores b w n k m a u now d (retry_name q) i)
        (ground (arith, lists (pending_name q (shard_of q d i)), lists (processing_name q)))
        (ground (arith, lists (processing_name q))) v
  own-IsPlaced (Step.complete b w r now) d i ok reads about v = grind (arith, hash_laws, eq_refl)
  own-IsPlaced (Step.cancel_complete b w now) d i ok reads about v =
      grind (arith, hash_laws, eq_refl)
  own-IsPlaced (Step.fail b w e now) d i ok reads about v = grind (arith, hash_laws, eq_refl)
  own-IsPlaced (Step.retry b w e now next) d i ok reads about v = grind (arith, place_rules)
  own-IsPlaced (Step.reap b n l now next) d i ok reads about v = record {
    readable = grind (arith, hash_laws, eq_refl);
    queued = λ h.
        subst (λ e. 0 < in_shard e i + in_processing e i)
          (sym (reap_requeues b n l now next d i (ground arith) h))
          (requeued n d b i (ground arith) reads);
    running = λ h.
        let same = reap_leaves b n l now next d i (ground arith) h in
        subst (λ e. 0 < in_processing e i) (sym same)
          (v.running (subst (λ e. holds (field q e i "status") "running" ≡ true) same h));
    retrying = grind (arith, hash_laws, zset_laws, eq_refl);
  }
  own-IsPlaced (Step.lapse b) d i ok reads about v = grind (arith, place_rules)

  other-IsPlaced :
      (s : Step) (d : Db) (j i : String)
      → IsSound q s d
      → subject s ≡ some j
      → (j == i) ≡ false
      → IsPlaced d i
      → IsPlaced (after q s d) i
  unfolding holds
  other-IsPlaced s d j i ok about other =
      let counts = count-after_other q s d j i in
      kept (after q s d) d i (λ f. field-after_other q s d i f ok (rw about other))
        (zscore-after_other q s d j i (retry_name q) about other)
        (ground (
          arith,
          counts (pending_name q (shard_of q d i)) about other,
          counts (processing_name q) about other,
        ))
        (ground (arith, counts (processing_name q) about other))

  by_subject :
      (s : Step) (d : Db) (i : String)
      → IsSound q s d
      → ReadsShard q s d
      → (o : Option String) → subject s ≡ o
      → IsPlaced d i
      → IsPlaced (after q s d) i
  unfolding subject
  by_subject s d i ok reads (some j) about v = elim (Bool-cases (j == i)) [
    | inl own ↦ own-IsPlaced s d i ok reads (about ∙ ap some ((eq_iff j i).0 own)) v
    | inr other ↦ other-IsPlaced s d j i ok about other v
  ]
  by_subject (Step.pop n) d i ok reads none about v = pop-IsPlaced n d i v
  by_subject _ d i ok reads none about v = absurd (cc)

  -- Every step, taken by any client, worker or reaper, keeps every live job placed.
  pub after-IsPlaced :
      (s : Step) (d : Db) (i : String)
      → IsSound q s d
      → ReadsShard q s d
      → IsPlaced d i
      → IsPlaced (after q s d) i
  after-IsPlaced s d i ok reads = by_subject s d i ok reads (subject s) refl
