-- ===== src/Jobs/Lists.antt =====
-- A step about one job moves no other job in the lists and in the retry set.
use dalmatian.Prelude.{
  String, ◌≡◌, false, some, arith, ◌==◌, holds, count, count-remove_first, count-cons,
}
use dalmatian.Valkey.{Valkey}
use dalmatian.Valkey.Laws.{list_laws, zset_laws}
use dalmatian.Jobs.Config.{Config}
use dalmatian.Jobs.Scripts.Submit.{enqueue_script, cancel_script, promote_script}
use dalmatian.Jobs.Scripts.Lease.{
  claim_script, heartbeat_script, publish_script, complete_script, terminal_script,
}
use dalmatian.Jobs.Scripts.Retry.{retry_script, reap_script}
use dalmatian.Jobs.Steps.{Step, after}
use dalmatian.Jobs.Frame.{subject}

ruleset count_rules = (list_laws, count-remove_first, count-cons)

module _ ⦃V : Valkey⦄ (q : Config) where
  open V use {Db, lrange, zscore}

  -- In every list, whatever its key, another job stands as often as before.
  pub count-after_other :
      (s : Step) (d : Db) (j i key : String)
      → subject s ≡ some j
      → (j == i) ≡ false
      → count i (lrange (after q s d) key) ≡ count i (lrange d key)
  unfolding subject holds after enqueue_script cancel_script promote_script claim_script
      heartbeat_script publish_script complete_script terminal_script retry_script reap_script
  count-after_other (Step.enqueue b n o h r now) d j i key about other = grind (arith, count_rules)
  count-after_other (Step.cancel b n now) d j i key about other = grind (arith, count_rules)
  count-after_other (Step.promote b n now) d j i key about other = grind (arith, count_rules)
  count-after_other (Step.pop n) d j i key about other = grind (arith, count_rules)
  count-after_other (Step.claim b w now) d j i key about other = grind (arith, count_rules)
  count-after_other (Step.heartbeat b w now) d j i key about other = grind (arith, count_rules)
  count-after_other (Step.publish b w n k m a u now) d j i key about other =
      grind (arith, count_rules)
  count-after_other (Step.complete b w r now) d j i key about other = grind (arith, count_rules)
  count-after_other (Step.cancel_complete b w now) d j i key about other =
      grind (arith, count_rules)
  count-after_other (Step.fail b w e now) d j i key about other = grind (arith, count_rules)
  count-after_other (Step.retry b w e now next) d j i key about other = grind (arith, count_rules)
  count-after_other (Step.reap b n l now next) d j i key about other = grind (arith, count_rules)
  count-after_other (Step.lapse b) d j i key about other = grind (arith, count_rules)

  pub zscore-after_other :
      (s : Step) (d : Db) (j i key : String)
      → subject s ≡ some j
      → (j == i) ≡ false
      → zscore (after q s d) key i ≡ zscore d key i
  unfolding subject holds after enqueue_script cancel_script promote_script claim_script
      heartbeat_script publish_script complete_script terminal_script retry_script reap_script
  zscore-after_other (Step.enqueue b n o h r now) d j i key about other = grind (arith, zset_laws)
  zscore-after_other (Step.cancel b n now) d j i key about other = grind (arith, zset_laws)
  zscore-after_other (Step.promote b n now) d j i key about other = grind (arith, zset_laws)
  zscore-after_other (Step.pop n) d j i key about other = grind (arith, zset_laws)
  zscore-after_other (Step.claim b w now) d j i key about other = grind (arith, zset_laws)
  zscore-after_other (Step.heartbeat b w now) d j i key about other = grind (arith, zset_laws)
  zscore-after_other (Step.publish b w n k m a u now) d j i key about other =
      grind (arith, zset_laws)
  zscore-after_other (Step.complete b w r now) d j i key about other = grind (arith, zset_laws)
  zscore-after_other (Step.cancel_complete b w now) d j i key about other = grind (arith, zset_laws)
  zscore-after_other (Step.fail b w e now) d j i key about other = grind (arith, zset_laws)
  zscore-after_other (Step.retry b w e now next) d j i key about other = grind (arith, zset_laws)
  zscore-after_other (Step.reap b n l now next) d j i key about other = grind (arith, zset_laws)
  zscore-after_other (Step.lapse b) d j i key about other = grind (arith, zset_laws)
