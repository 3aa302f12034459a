-- ===== src/Valkey/Laws.antt =====
-- The effects of the commands as lemmas for the tactics, with Valkey as an instance argument.
use dalmatian.Prelude.{
  ℕ, ◌+◌, ◌-◌, ◌<◌, String, ◌≡◌, true, false, not, ◌&&◌, none, some, List, ◌∷◌, ◌==◌, if◌then◌else◌,
  or_else, is_some, length, contains, remove_first,
}
use dalmatian.Prelude.Decimal.{str, to_int}
use dalmatian.Valkey.{Valkey, written, field_of, is_empty, last?, drop_last, push}

module _ ⦃V : Valkey⦄ where
  open V use {
    Db, hget, hgetall, exists, hset, hincrby, expire, lapse, lrange, llen, lpos, lpush, lrem,
    rpoplpush, zscore, zcard, zadd, zrem,
  }

  pub hget-hset :
      (k : String) (fvs : List (String × String)) (d : Db) (j f : String)
      → hget (hset k fvs d) j f ≡ (if k == j then written fvs f (hget d j f) else hget d j f)
  hget-hset = V.hget-hset

  pub hget-hincrby :
      (k g : String) (n : ℕ) (d : Db) (j f : String)
      → hget (hincrby k g n d) j f ≡ (
          if (k == j) && (g == f)
          then some (str (to_int (or_else (hget d j f) "0") + n))
          else hget d j f)
  hget-hincrby = V.hget-hincrby

  pub hget-lapse :
      (k : String) (d : Db) (j f : String)
      → hget (lapse k d) j f ≡ (if k == j then none else hget d j f)
  hget-lapse = V.hget-lapse

  pub exists-hset :
      (k : String) (fv : String × String) (fvs : List (String × String)) (d : Db) (j : String)
      → exists (hset k (fv ∷ fvs) d) j ≡ (if k == j then true else exists d j)
  exists-hset = V.exists-hset

  pub exists-hincrby :
      (k g : String) (n : ℕ) (d : Db) (j : String)
      → exists (hincrby k g n d) j ≡ (if k == j then true else exists d j)
  exists-hincrby = V.exists-hincrby

  pub exists-lapse :
      (k : String) (d : Db) (j : String)
      → exists (lapse k d) j ≡ (if k == j then false else exists d j)
  exists-lapse = V.exists-lapse

  pub hget_absent : (d : Db) (k f : String) → exists d k ≡ false → hget d k f ≡ none
  hget_absent = V.hget_absent

  pub hgetall_field : (d : Db) (k f : String) → field_of (hgetall d k) f ≡ hget d k f
  hgetall_field = V.hgetall_field

  pub hgetall_empty : (d : Db) (k : String) → is_empty (hgetall d k) ≡ not (exists d k)
  hgetall_empty = V.hgetall_empty

  pub llen_lem : (d : Db) (k : String) → llen d k ≡ length (lrange d k)
  llen_lem = V.llen_lem

  pub lpos_lem : (d : Db) (k x : String) → lpos d k x ≡ contains (lrange d k) x
  lpos_lem = V.lpos_lem

  pub lrange-lpush :
      (k x : String) (d : Db) (j : String)
      → lrange (lpush k x d) j ≡ (if k == j then x ∷ lrange d j else lrange d j)
  lrange-lpush = V.lrange-lpush

  pub lrange-lrem :
      (k x : String) (d : Db) (j : String)
      → lrange (lrem k x d) j ≡ (if k == j then remove_first x (lrange d j) else lrange d j)
  lrange-lrem = V.lrange-lrem

  pub rpoplpush_lem : (k l : String) (d : Db) → (rpoplpush k l d).0 ≡ last? (lrange d k)
  rpoplpush_lem = V.rpoplpush_lem

  pub lrange-rpoplpush :
      (k l : String) (d : Db) (j : String)
      → lrange (rpoplpush k l d).1 j ≡ (
          let left = if k == j then drop_last (lrange d j) else lrange d j in
          if l == j then push (last? (lrange d k)) left else left)
  lrange-rpoplpush = V.lrange-rpoplpush

  pub zscore-zadd :
      (k : String) (s : ℕ) (m : String) (d : Db) (j i : String)
      → zscore (zadd k s m d) j i ≡ (if (k == j) && (m == i) then some s else zscore d j i)
  zscore-zadd = V.zscore-zadd

  pub zscore-zrem :
      (k m : String) (d : Db) (j i : String)
      → zscore (zrem k m d) j i ≡ (if (k == j) && (m == i) then none else zscore d j i)
  zscore-zrem = V.zscore-zrem

  pub zcard-zadd :
      (k : String) (s : ℕ) (m : String) (d : Db) (j : String)
      → zcard (zadd k s m d) j
        ≡ (if (k == j) && not (is_some (zscore d j m)) then zcard d j + 1 else zcard d j)
  zcard-zadd = V.zcard-zadd

  pub zcard-zrem :
      (k m : String) (d : Db) (j : String)
      → zcard (zrem k m d) j
        ≡ (if (k == j) && is_some (zscore d j m) then zcard d j - 1 else zcard d j)
  zcard-zrem = V.zcard-zrem

  pub zcard_pos : (d : Db) (k m : String) → is_some (zscore d k m) ≡ true → 0 < zcard d k
  zcard_pos = V.zcard_pos

  pub hget-expire :
      (k : String) (s : ℕ) (d : Db) (j f : String) → hget (expire k s d) j f ≡ hget d j f
  hget-expire = V.hget-expire

  pub hget-lpush : (k x : String) (d : Db) (j f : String) → hget (lpush k x d) j f ≡ hget d j f
  hget-lpush = V.hget-lpush

  pub hget-lrem : (k x : String) (d : Db) (j f : String) → hget (lrem k x d) j f ≡ hget d j f
  hget-lrem = V.hget-lrem

  pub hget-rpoplpush :
      (k l : String) (d : Db) (j f : String) → hget (rpoplpush k l d).1 j f ≡ hget d j f
  hget-rpoplpush = V.hget-rpoplpush

  pub hget-zadd :
      (k : String) (s : ℕ) (m : String) (d : Db) (j f : String)
      → hget (zadd k s m d) j f ≡ hget d j f
  hget-zadd = V.hget-zadd

  pub hget-zrem : (k m : String) (d : Db) (j f : String) → hget (zrem k m d) j f ≡ hget d j f
  hget-zrem = V.hget-zrem

  pub exists-expire :
      (k : String) (s : ℕ) (d : Db) (j : String) → exists (expire k s d) j ≡ exists d j
  exists-expire = V.exists-expire

  pub exists-lpush : (k x : String) (d : Db) (j : String) → exists (lpush k x d) j ≡ exists d j
  exists-lpush = V.exists-lpush

  pub exists-lrem : (k x : String) (d : Db) (j : String) → exists (lrem k x d) j ≡ exists d j
  exists-lrem = V.exists-lrem

  pub exists-rpoplpush :
      (k l : String) (d : Db) (j : String) → exists (rpoplpush k l d).1 j ≡ exists d j
  exists-rpoplpush = V.exists-rpoplpush

  pub exists-zadd :
      (k : String) (s : ℕ) (m : String) (d : Db) (j : String) → exists (zadd k s m d) j ≡ exists d j
  exists-zadd = V.exists-zadd

  pub exists-zrem : (k m : String) (d : Db) (j : String) → exists (zrem k m d) j ≡ exists d j
  exists-zrem = V.exists-zrem

  pub lrange-hset :
      (k : String) (fvs : List (String × String)) (d : Db) (j : String)
      → lrange (hset k fvs d) j ≡ lrange d j
  lrange-hset = V.lrange-hset

  pub lrange-hincrby :
      (k g : String) (n : ℕ) (d : Db) (j : String) → lrange (hincrby k g n d) j ≡ lrange d j
  lrange-hincrby = V.lrange-hincrby

  pub lrange-expire :
      (k : String) (s : ℕ) (d : Db) (j : String) → lrange (expire k s d) j ≡ lrange d j
  lrange-expire = V.lrange-expire

  pub lrange-lapse : (k : String) (d : Db) (j : String) → lrange (lapse k d) j ≡ lrange d j
  lrange-lapse = V.lrange-lapse

  pub lrange-zadd :
      (k : String) (s : ℕ) (m : String) (d : Db) (j : String) → lrange (zadd k s m d) j ≡ lrange d j
  lrange-zadd = V.lrange-zadd

  pub lrange-zrem : (k m : String) (d : Db) (j : String) → lrange (zrem k m d) j ≡ lrange d j
  lrange-zrem = V.lrange-zrem

  pub zscore-hset :
      (k : String) (fvs : List (String × String)) (d : Db) (j i : String)
      → zscore (hset k fvs d) j i ≡ zscore d j i
  zscore-hset = V.zscore-hset

  pub zscore-hincrby :
      (k g : String) (n : ℕ) (d : Db) (j i : String) → zscore (hincrby k g n d) j i ≡ zscore d j i
  zscore-hincrby = V.zscore-hincrby

  pub zscore-expire :
      (k : String) (s : ℕ) (d : Db) (j i : String) → zscore (expire k s d) j i ≡ zscore d j i
  zscore-expire = V.zscore-expire

  pub zscore-lapse : (k : String) (d : Db) (j i : String) → zscore (lapse k d) j i ≡ zscore d j i
  zscore-lapse = V.zscore-lapse

  pub zscore-lpush :
      (k x : String) (d : Db) (j i : String) → zscore (lpush k x d) j i ≡ zscore d j i
  zscore-lpush = V.zscore-lpush

  pub zscore-lrem : (k x : String) (d : Db) (j i : String) → zscore (lrem k x d) j i ≡ zscore d j i
  zscore-lrem = V.zscore-lrem

  pub zscore-rpoplpush :
      (k l : String) (d : Db) (j i : String) → zscore (rpoplpush k l d).1 j i ≡ zscore d j i
  zscore-rpoplpush = V.zscore-rpoplpush

  pub zcard-hset :
      (k : String) (fvs : List (String × String)) (d : Db) (j : String)
      → zcard (hset k fvs d) j ≡ zcard d j
  zcard-hset = V.zcard-hset

  pub zcard-hincrby :
      (k g : String) (n : ℕ) (d : Db) (j : String) → zcard (hincrby k g n d) j ≡ zcard d j
  zcard-hincrby = V.zcard-hincrby

  pub zcard-expire : (k : String) (s : ℕ) (d : Db) (j : String) → zcard (expire k s d) j ≡ zcard d j
  zcard-expire = V.zcard-expire

  pub zcard-lapse : (k : String) (d : Db) (j : String) → zcard (lapse k d) j ≡ zcard d j
  zcard-lapse = V.zcard-lapse

  pub zcard-lpush : (k x : String) (d : Db) (j : String) → zcard (lpush k x d) j ≡ zcard d j
  zcard-lpush = V.zcard-lpush

  pub zcard-lrem : (k x : String) (d : Db) (j : String) → zcard (lrem k x d) j ≡ zcard d j
  zcard-lrem = V.zcard-lrem

  pub zcard-rpoplpush :
      (k l : String) (d : Db) (j : String) → zcard (rpoplpush k l d).1 j ≡ zcard d j
  zcard-rpoplpush = V.zcard-rpoplpush

pub ruleset hash_laws = (
  hget-hset, hget-hincrby, hget-lapse, exists-hset, exists-hincrby, exists-lapse, hget-expire,
  hget-lpush, hget-lrem, hget-rpoplpush, hget-zadd, hget-zrem, exists-expire, exists-lpush,
  exists-lrem, exists-rpoplpush, exists-zadd, exists-zrem,
)

pub ruleset list_laws = (
  llen_lem, lpos_lem, lrange-lpush, lrange-lrem, rpoplpush_lem, lrange-rpoplpush, lrange-hset,
  lrange-hincrby, lrange-expire, lrange-lapse, lrange-zadd, lrange-zrem,
)

pub ruleset zset_laws = (
  zscore-zadd, zscore-zrem, zcard-zadd, zcard-zrem, zscore-hset, zscore-hincrby, zscore-expire,
  zscore-lapse, zscore-lpush, zscore-lrem, zscore-rpoplpush, zcard-hset, zcard-hincrby,
  zcard-expire, zcard-lapse, zcard-lpush, zcard-lrem, zcard-rpoplpush,
)
