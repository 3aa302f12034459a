-- ===== src/Examples/Locks.antt =====
-- The locks of the result cache on the server at a concrete input (src/dalmatian/cache.py).
use dalmatian.Prelude.{
  ℕ, ◌+◌, ◌*◌, String, ◌≡◌, refl, Option, none, some, List, [], ◌∷◌, ◌==◌, ltb, if◌then◌else◌,
  arith,
}
use dalmatian.Results.Server.{TextCommands, ServerCache, acquire_lock, release_lock}
use dalmatian.Results.Holding.{
  ServerCall, lock, unlock, after_server_calls, IsOther, AreOthers, acquire_lock-holds,
}

-- What can be read under each key at each time.
instance abbrev texts : TextCommands
texts = record {
  Texts = String → ℕ → Option String;
  get_text = λ t d k. d k t;
  setex = λ key seconds value now d k t.
      if key == k then (if ltb t (now + seconds * 1000) then some value else none) else d k t;
  del = λ key d k t. if key == k then none else d k t;
  get_text-setex = λ t key value seconds now d k. refl;
  get_text-del = λ t key d k. refl;
}

abbrev cache : ServerCache ℕ
cache = record {
  prefix = "dalmatian:cache";
  max_bytes = 100;
  encode = λ r. "{}";
  size = λ raw. 2;
  decode = λ raw. none;
}

abbrev nothing : String → ℕ → Option String
nothing = λ k t. none

-- Another caller asks for the lock, and one whose own lock ran out before releases it.
abbrev meanwhile : List (ServerCall ℕ)
meanwhile = lock "k" 60 "b" 2000 ∷ unlock "k" "old" 3000 ∷ []

meanwhile-AreOthers : AreOthers cache "k" "a" (1000 + 60 * 1000) meanwhile
unfolding AreOthers IsOther
meanwhile-AreOthers = (omega arith, ((omega arith, refl), tt))

acquire_lock-holds_example :
    let d' = after_server_calls cache meanwhile (acquire_lock cache "k" 60 "a" 1000 nothing).1 in
    ((acquire_lock cache "k" 60 "c" 4000 d').0 ≡ none)
    × ((acquire_lock cache "k" 60 "c" 4000 (release_lock cache "k" "a" 4000 d')).0 ≡ some "c")
unfolding acquire_lock
acquire_lock-holds_example =
    acquire_lock-holds cache "k" "a" "c" 60 1000 60 4000 meanwhile nothing refl meanwhile-AreOthers
      (omega arith)
