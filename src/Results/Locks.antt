-- ===== src/Results/Locks.antt =====
-- One caller at a time computes a result, and a result that is stored stays (src/dalmatian/cache.py).
use dalmatian.Prelude.{
  ℕ, ◌+◌, ◌≤◌, ◌≡◌, refl, String, Bool, false, Option, some, List, [], ◌∷◌, ◌==◌, contains, is_some,
  if◌then◌else◌, arith, eq_iff,
}
use dalmatian.Models.{InlineResult}
use dalmatian.Results.{
  MemoryCache, discard, get_result, set_result, acquire, release, Call, after_call, after_calls,
}

contains-discard :
    (key j : String) (ks : List String)
    → contains (discard key ks) j ≡ (if key == j then false else contains ks j)
unfolding contains discard
contains-discard key j [] = ground arith
contains-discard key j (k ∷ ks) =
    ground (arith, contains-discard key j ks, eq_iff k key, eq_iff k j, eq_iff key j)

module _ {Row : Type 0} (key : String) where
  -- Whether a call is answered with the lock of the key.
  unfoldable pub wins : Call Row → MemoryCache Row → Bool
  wins (Call.lock k ttl_seconds) c = if k == key then is_some (acquire k ttl_seconds c).0 else false
  wins (Call.look k) c = false
  wins (Call.store k value ttl_seconds) c = false
  wins (Call.unlock k token) c = false

  unfoldable pub unlocks : Call Row → Bool
  unlocks (Call.unlock k token) = k == key
  unlocks (Call.look k) = false
  unlocks (Call.store k value ttl_seconds) = false
  unlocks (Call.lock k ttl_seconds) = false

  unfoldable pub count_wins : List (Call Row) → MemoryCache Row → ℕ
  count_wins [] c = 0
  count_wins (call ∷ calls) c =
      (if wins call c then 1 else 0) + count_wins calls (after_call call c)

  unfoldable pub count_unlocks : List (Call Row) → ℕ
  count_unlocks [] = 0
  count_unlocks (call ∷ calls) = (if unlocks call then 1 else 0) + count_unlocks calls

  is_held : MemoryCache Row → ℕ
  is_held c = if contains c.locks key then 1 else 0

  call_held :
      (call : Call Row) (c : MemoryCache Row)
      → (if wins call c then 1 else 0) + is_held c
        ≤ is_held (after_call call c) + (if unlocks call then 1 else 0)
  unfolding is_held wins unlocks after_call acquire release set_result contains
  call_held (Call.look k) c = omega arith
  call_held (Call.store k value ttl_seconds) c = omega arith
  call_held (Call.lock k ttl_seconds) c = ground (arith, eq_iff k key)
  call_held (Call.unlock k token) c = ground (arith, contains-discard k key c.locks)

  -- In every sequence of calls, the callers who were given the lock of a key, with the one who held
  -- it at first, are at most one more than the releases of it.
  pub acquire_excludes :
      (calls : List (Call Row)) (c : MemoryCache Row)
      → count_wins calls c + (if contains c.locks key then 1 else 0) ≤ 1 + count_unlocks calls
  unfolding count_wins count_unlocks is_held
  acquire_excludes [] c = ground arith
  acquire_excludes (call ∷ calls) c =
      omega (arith, call_held call c, acquire_excludes calls (after_call call c))

  -- The value that was stored last.
  unfoldable pub latest : List (Call Row) → Option (InlineResult Row) → Option (InlineResult Row)
  latest [] old = old
  latest (Call.store k value ttl_seconds ∷ calls) old =
      latest calls (if k == key then some value else old)
  latest (Call.look k ∷ calls) old = latest calls old
  latest (Call.lock k ttl_seconds ∷ calls) old = latest calls old
  latest (Call.unlock k token ∷ calls) old = latest calls old

  -- After every sequence of calls a look answers with the value that was stored last under its key,
  -- or with what was there if none was.
  pub get_result-latest :
      (calls : List (Call Row)) (c : MemoryCache Row)
      → get_result key (after_calls calls c) ≡ latest calls (get_result key c)
  unfolding get_result after_calls after_call set_result acquire release latest
  get_result-latest [] c = refl
  get_result-latest (Call.store k value ttl_seconds ∷ calls) c =
      get_result-latest calls (set_result k value ttl_seconds c).1
  get_result-latest (Call.look k ∷ calls) c = get_result-latest calls c
  get_result-latest (Call.lock k ttl_seconds ∷ calls) c =
      ground (arith, get_result-latest calls (acquire k ttl_seconds c).1)
  get_result-latest (Call.unlock k token ∷ calls) c = get_result-latest calls (release k token c)
