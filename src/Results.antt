-- ===== src/Results.antt =====
-- src/dalmatian/cache.py: the result cache in memory, and the one that keeps nothing; the one on the
-- server is in Server. Each method that holds the mutex is one step; a lock's token is its key.
pub mod Locks
pub mod Server
pub mod Holding
use dalmatian.Prelude.{
  ℕ, String, Bool, true, false, Option, none, some, List, [], ◌∷◌, ◌==◌, contains, if◌then◌else◌,
}
use dalmatian.Models.{InlineResult}

pub record MemoryCache (Row : Type 0) : Type 0 where
  pub values : String → Option (InlineResult Row)
  pub locks : List String

-- self._locks.discard(key)
unfoldable pub discard : String → List String → List String
discard key [] = []
discard key (k ∷ ks) = let rest = discard key ks in if k == key then rest else k ∷ rest

module _ {Row : Type 0} where
  unfoldable pub get_result : String → MemoryCache Row → Option (InlineResult Row)
  get_result key c = c.values key

  unfoldable pub set_result :
      String → InlineResult Row → ℕ → MemoryCache Row → Bool × MemoryCache Row
  set_result key value ttl_seconds c =
      (true, record c { values = λ k. if key == k then some value else c.values k })

  unfoldable pub acquire : String → ℕ → MemoryCache Row → Option String × MemoryCache Row
  acquire key ttl_seconds c =
      if contains c.locks key then (none, c) else (some key, record c { locks = key ∷ c.locks })

  -- The token is not looked at.
  unfoldable pub release : String → String → MemoryCache Row → MemoryCache Row
  release key token c = record c { locks = discard key c.locks }

  -- The states that the polls before the deadline see.
  unfoldable pub wait_for : String → List (MemoryCache Row) → Option (InlineResult Row)
  unfolding get_result
  wait_for key [] = none
  wait_for key (c ∷ cs) =
      let later = wait_for key cs in
      elim (get_result key c) [ none ↦ later | some value ↦ some value ]

  -- NullCache
  abbrev pub null_get : String → Option (InlineResult Row)
  null_get key = none

  abbrev pub null_set : String → InlineResult Row → ℕ → Bool
  null_set key value ttl_seconds = false

-- The token of NullCache is a new one each time: it is an argument.
abbrev pub null_acquire : String → String → ℕ → Option String
null_acquire token key ttl_seconds = some token

-- What the callers do.
pub data Call (Row : Type 0) : Type 0 where
  look : String → Call Row
  store : String → InlineResult Row → ℕ → Call Row
  lock : String → ℕ → Call Row
  unlock : String → String → Call Row

module _ {Row : Type 0} where
  unfoldable pub after_call : Call Row → MemoryCache Row → MemoryCache Row
  after_call (Call.look key) c = c
  after_call (Call.store key value ttl_seconds) c = (set_result key value ttl_seconds c).1
  after_call (Call.lock key ttl_seconds) c = (acquire key ttl_seconds c).1
  after_call (Call.unlock key token) c = release key token c

  unfoldable pub after_calls : List (Call Row) → MemoryCache Row → MemoryCache Row
  after_calls [] c = c
  after_calls (call ∷ calls) c = after_calls calls (after_call call c)
