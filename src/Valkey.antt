-- ===== src/Valkey.antt =====
-- Valkey, the server that keeps the jobs, the queues and the publications: the commands that the
-- scripts and the clients use, over an abstract database, with the documented effect of each on
-- what can be read back. The server is no code of the repository: it is a parameter everywhere.
pub mod Laws
pub mod Ends
pub mod Memory
use dalmatian.Prelude.{
  ℕ, zero, suc, ◌+◌, ◌-◌, ◌<◌, String, ◌≡◌, Bool, true, false, not, ◌&&◌, ◌||◌, Option, none, some,
  List, [], ◌∷◌, ◌==◌, if◌then◌else◌, or_else, is_some, length, contains, remove_first,
}
use dalmatian.Prelude.Decimal.{str, to_int}

-- The value of a field after HSET with these fields: the last one given wins.
abbrev pub written : List (String × String) → String → Option String → Option String
written [] f old = old
written ((g, v) ∷ rest) f old = written rest f (if g == f then some v else old)

-- data.get(f) on the dictionary that HGETALL returns
abbrev pub field_of : List (String × String) → String → Option String
field_of [] f = none
field_of ((g, v) ∷ rest) f = if g == f then some v else field_of rest f

abbrev pub is_empty : List (String × String) → Bool
is_empty [] = true
is_empty (x ∷ xs) = false

-- The right end of a list, and the rest.
abbrev pub last? : List String → Option String
last? [] = none
last? (x ∷ xs) = some (or_else (last? xs) x)

abbrev pub drop_last : List String → List String
drop_last [] = []
drop_last (x ∷ xs) = if is_some (last? xs) then x ∷ drop_last xs else []

abbrev pub push : Option String → List String → List String
push none xs = xs
push (some x) xs = x ∷ xs

pub record Valkey : Type 1 where
  pub Db : Type 0
  -- EXISTS is used on keys of hashes alone.
  pub hget : Db → String → String → Option String
  pub hgetall : Db → String → List (String × String)
  pub exists : Db → String → Bool
  pub hset : String → List (String × String) → Db → Db
  pub hincrby : String → String → ℕ → Db → Db
  -- EXPIRE, and what the server does later: the key lapses.
  pub expire : String → ℕ → Db → Db
  pub lapse : String → Db → Db
  -- LRANGE k 0 -1, LLEN, LPOS (whether there is one), LPUSH, LREM k 1 x, RPOPLPUSH k l
  pub lrange : Db → String → List String
  pub llen : Db → String → ℕ
  pub lpos : Db → String → String → Bool
  pub lpush : String → String → Db → Db
  pub lrem : String → String → Db → Db
  pub rpoplpush : String → String → Db → Option String × Db
  -- ZRANGEBYSCORE k 0 s with LIMIT 0 n
  pub zscore : Db → String → String → Option ℕ
  pub zcard : Db → String → ℕ
  pub zrangebyscore : Db → String → ℕ → ℕ → List String
  pub zadd : String → ℕ → String → Db → Db
  pub zrem : String → String → Db → Db
  -- What each command changes.
  pub hget-hset :
      (k : String) (fvs : List (String × String)) (d : Db) (j f : String)
      → hget (hset k fvs d) j f ≡ (if k == j then written fvs f (hget d j f) else hget d j f)
  pub hget-hincrby :
      (k g : String) (n : ℕ) (d : Db) (j f : String)
      → hget (hincrby k g n d) j f ≡ (
          if (k == j) && (g == f)
          then some (str (to_int (or_else (hget d j f) "0") + n))
          else hget d j f)
  pub hget-lapse :
      (k : String) (d : Db) (j f : String)
      → hget (lapse k d) j f ≡ (if k == j then none else hget d j f)
  pub exists-hset :
      (k : String) (fv : String × String) (fvs : List (String × String)) (d : Db) (j : String)
      → exists (hset k (fv ∷ fvs) d) j ≡ (if k == j then true else exists d j)
  pub exists-hincrby :
      (k g : String) (n : ℕ) (d : Db) (j : String)
      → exists (hincrby k g n d) j ≡ (if k == j then true else exists d j)
  pub exists-lapse :
      (k : String) (d : Db) (j : String)
      → exists (lapse k d) j ≡ (if k == j then false else exists d j)
  pub hget_absent : (d : Db) (k f : String) → exists d k ≡ false → hget d k f ≡ none
  pub hgetall_field : (d : Db) (k f : String) → field_of (hgetall d k) f ≡ hget d k f
  pub hgetall_empty : (d : Db) (k : String) → is_empty (hgetall d k) ≡ not (exists d k)
  pub llen_lem : (d : Db) (k : String) → llen d k ≡ length (lrange d k)
  pub lpos_lem : (d : Db) (k x : String) → lpos d k x ≡ contains (lrange d k) x
  pub lrange-lpush :
      (k x : String) (d : Db) (j : String)
      → lrange (lpush k x d) j ≡ (if k == j then x ∷ lrange d j else lrange d j)
  pub lrange-lrem :
      (k x : String) (d : Db) (j : String)
      → lrange (lrem k x d) j ≡ (if k == j then remove_first x (lrange d j) else lrange d j)
  pub rpoplpush_lem : (k l : String) (d : Db) → (rpoplpush k l d).0 ≡ last? (lrange d k)
  pub lrange-rpoplpush :
      (k l : String) (d : Db) (j : String)
      → lrange (rpoplpush k l d).1 j ≡ (
          let left = if k == j then drop_last (lrange d j) else lrange d j in
          if l == j then push (last? (lrange d k)) left else left)
  pub zscore-zadd :
      (k : String) (s : ℕ) (m : String) (d : Db) (j i : String)
      → zscore (zadd k s m d) j i ≡ (if (k == j) && (m == i) then some s else zscore d j i)
  pub zscore-zrem :
      (k m : String) (d : Db) (j i : String)
      → zscore (zrem k m d) j i ≡ (if (k == j) && (m == i) then none else zscore d j i)
  pub zcard-zadd :
      (k : String) (s : ℕ) (m : String) (d : Db) (j : String)
      → zcard (zadd k s m d) j
        ≡ (if (k == j) && not (is_some (zscore d j m)) then zcard d j + 1 else zcard d j)
  pub zcard-zrem :
      (k m : String) (d : Db) (j : String)
      → zcard (zrem k m d) j
        ≡ (if (k == j) && is_some (zscore d j m) then zcard d j - 1 else zcard d j)
  pub zcard_pos : (d : Db) (k m : String) → is_some (zscore d k m) ≡ true → 0 < zcard d k
  -- What each command leaves alone: hashes, lists and sorted sets do not meet.
  pub hget-expire :
      (k : String) (s : ℕ) (d : Db) (j f : String) → hget (expire k s d) j f ≡ hget d j f
  pub hget-lpush : (k x : String) (d : Db) (j f : String) → hget (lpush k x d) j f ≡ hget d j f
  pub hget-lrem : (k x : String) (d : Db) (j f : String) → hget (lrem k x d) j f ≡ hget d j f
  pub hget-rpoplpush :
      (k l : String) (d : Db) (j f : String) → hget (rpoplpush k l d).1 j f ≡ hget d j f
  pub hget-zadd :
      (k : String) (s : ℕ) (m : String) (d : Db) (j f : String)
      → hget (zadd k s m d) j f ≡ hget d j f
  pub hget-zrem : (k m : String) (d : Db) (j f : String) → hget (zrem k m d) j f ≡ hget d j f
  pub exists-expire :
      (k : String) (s : ℕ) (d : Db) (j : String) → exists (expire k s d) j ≡ exists d j
  pub exists-lpush : (k x : String) (d : Db) (j : String) → exists (lpush k x d) j ≡ exists d j
  pub exists-lrem : (k x : String) (d : Db) (j : String) → exists (lrem k x d) j ≡ exists d j
  pub exists-rpoplpush :
      (k l : String) (d : Db) (j : String) → exists (rpoplpush k l d).1 j ≡ exists d j
  pub exists-zadd :
      (k : String) (s : ℕ) (m : String) (d : Db) (j : String) → exists (zadd k s m d) j ≡ exists d j
  pub exists-zrem : (k m : String) (d : Db) (j : String) → exists (zrem k m d) j ≡ exists d j
  pub lrange-hset :
      (k : String) (fvs : List (String × String)) (d : Db) (j : String)
      → lrange (hset k fvs d) j ≡ lrange d j
  pub lrange-hincrby :
      (k g : String) (n : ℕ) (d : Db) (j : String) → lrange (hincrby k g n d) j ≡ lrange d j
  pub lrange-expire :
      (k : String) (s : ℕ) (d : Db) (j : String) → lrange (expire k s d) j ≡ lrange d j
  pub lrange-lapse : (k : String) (d : Db) (j : String) → lrange (lapse k d) j ≡ lrange d j
  pub lrange-zadd :
      (k : String) (s : ℕ) (m : String) (d : Db) (j : String) → lrange (zadd k s m d) j ≡ lrange d j
  pub lrange-zrem : (k m : String) (d : Db) (j : String) → lrange (zrem k m d) j ≡ lrange d j
  pub zscore-hset :
      (k : String) (fvs : List (String × String)) (d : Db) (j i : String)
      → zscore (hset k fvs d) j i ≡ zscore d j i
  pub zscore-hincrby :
      (k g : String) (n : ℕ) (d : Db) (j i : String) → zscore (hincrby k g n d) j i ≡ zscore d j i
  pub zscore-expire :
      (k : String) (s : ℕ) (d : Db) (j i : String) → zscore (expire k s d) j i ≡ zscore d j i
  pub zscore-lapse : (k : String) (d : Db) (j i : String) → zscore (lapse k d) j i ≡ zscore d j i
  pub zscore-lpush :
      (k x : String) (d : Db) (j i : String) → zscore (lpush k x d) j i ≡ zscore d j i
  pub zscore-lrem : (k x : String) (d : Db) (j i : String) → zscore (lrem k x d) j i ≡ zscore d j i
  pub zscore-rpoplpush :
      (k l : String) (d : Db) (j i : String) → zscore (rpoplpush k l d).1 j i ≡ zscore d j i
  pub zcard-hset :
      (k : String) (fvs : List (String × String)) (d : Db) (j : String)
      → zcard (hset k fvs d) j ≡ zcard d j
  pub zcard-hincrby :
      (k g : String) (n : ℕ) (d : Db) (j : String) → zcard (hincrby k g n d) j ≡ zcard d j
  pub zcard-expire : (k : String) (s : ℕ) (d : Db) (j : String) → zcard (expire k s d) j ≡ zcard d j
  pub zcard-lapse : (k : String) (d : Db) (j : String) → zcard (lapse k d) j ≡ zcard d j
  pub zcard-lpush : (k x : String) (d : Db) (j : String) → zcard (lpush k x d) j ≡ zcard d j
  pub zcard-lrem : (k x : String) (d : Db) (j : String) → zcard (lrem k x d) j ≡ zcard d j
  pub zcard-rpoplpush :
      (k l : String) (d : Db) (j : String) → zcard (rpoplpush k l d).1 j ≡ zcard d j
