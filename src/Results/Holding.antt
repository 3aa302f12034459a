-- ===== src/Results/Holding.antt =====
-- Who holds a lock of the result cache on the server (src/dalmatian/cache.py).
use dalmatian.Prelude.{
  ℕ, ◌+◌, ◌*◌, ◌<◌, String, ◌≡◌, true, false, none, some, List, [], ◌∷◌, ◌==◌, holds, arith, eq_iff,
  eq_refl,
}
use dalmatian.Models.{InlineResult}
use dalmatian.Results.Server.{
  TextCommands, ServerCache, value_key, lock_key, get_value, read_value, set_value, acquire_lock,
  release_lock,
}

pub data ServerCall (Row : Type 0) : Type 0 where
  look : String → ℕ → ServerCall Row
  keep : String → InlineResult Row → ℕ → ℕ → ServerCall Row
  lock : String → ℕ → String → ℕ → ServerCall Row
  unlock : String → String → ℕ → ServerCall Row

module _ ⦃T : TextCommands⦄ {Row : Type 0} (c : ServerCache Row) where
  open T use {Texts, get_text, setex, del}

  unfoldable pub after_server_call : ServerCall Row → Texts → Texts
  after_server_call (look key now) d = (get_value c key now d).1
  after_server_call (keep key value ttl now) d = (set_value c key value ttl now d).1
  after_server_call (lock key ttl token now) d = (acquire_lock c key ttl token now d).1
  after_server_call (unlock key token now) d = release_lock c key token now d

  unfoldable pub after_server_calls : List (ServerCall Row) → Texts → Texts
  after_server_calls [] d = d
  after_server_calls (call ∷ calls) d = after_server_calls calls (after_server_call call d)

  module _ (key token : String) (end : ℕ) where
    -- A call before the end of the lock that is not the holder's release. Keys of results do not begin
    -- with "lock:", so no result lies under the key of the lock.
    unfoldable pub IsOther : ServerCall Row → Type 0
    IsOther (look k now) = (value_key c k == lock_key c key) ≡ false
    IsOther (keep k value ttl now) = (value_key c k == lock_key c key) ≡ false
    IsOther (lock k ttl t now) = now < end
    IsOther (unlock k t now) = (now < end) × ((token == t) ≡ false)

    unfoldable pub AreOthers : List (ServerCall Row) → Type 0
    AreOthers [] = Unit
    AreOthers (call ∷ calls) = IsOther call × AreOthers calls

    -- The lock is the token's at every time before the end.
    unfoldable pub IsHeld : Texts → Type 0
    IsHeld d = (t : ℕ) → t < end → get_text t d (lock_key c key) ≡ some token

    -- The lock of a key whose lock is stored under the same name is the token's too.
    same_lock :
        (k : String) (d : Texts) (now : ℕ)
        → IsHeld d
        → now < end
        → (lock_key c k == lock_key c key) ≡ true
        → get_text now d (lock_key c k) ≡ some token
    unfolding IsHeld
    same_lock k d now held early e =
        rw ((eq_iff (lock_key c k) (lock_key c key)).0 e, held now early)

    call-IsHeld :
        (call : ServerCall Row) (d : Texts)
        → IsOther call
        → IsHeld d
        → IsHeld (after_server_call call d)
    unfolding IsOther IsHeld after_server_call get_value read_value set_value acquire_lock
        release_lock holds
    call-IsHeld (look k now) d other held t early =
        ground (arith, other, held t early, T.get_text-del t (value_key c k) d (lock_key c key))
    call-IsHeld (keep k value ttl now) d other held t early = ground (
      arith,
      other,
      held t early,
      T.get_text-setex t (value_key c k) (c.encode value) ttl now d (lock_key c key),
    )
    call-IsHeld (lock k ttl t' now) d other held t early = ground (
      arith,
      held t early,
      same_lock k d now held other,
      T.get_text-setex t (lock_key c k) t' ttl now d (lock_key c key),
    )
    call-IsHeld (unlock k t' now) d (soon, other) held t early = ground (
      arith,
      other,
      held t early,
      same_lock k d now held soon,
      T.get_text-del t (lock_key c k) d (lock_key c key),
    )

    calls-IsHeld :
        (calls : List (ServerCall Row)) (d : Texts)
        → AreOthers calls
        → IsHeld d
        → IsHeld (after_server_calls calls d)
    unfolding AreOthers after_server_calls
    calls-IsHeld [] d others held = held
    calls-IsHeld (call ∷ calls) d (other, others) held =
        calls-IsHeld calls (after_server_call call d) others (call-IsHeld call d other held)

  acquire-IsHeld :
      (key token : String) (ttl now : ℕ) (d : Texts)
      → (acquire_lock c key ttl token now d).0 ≡ some token
      → IsHeld key token (now + ttl * 1000) (acquire_lock c key ttl token now d).1
  unfolding IsHeld acquire_lock
  acquire-IsHeld key token ttl now d got t early = ground (
    arith,
    eq_refl (lock_key c key),
    T.get_text-setex t (lock_key c key) token ttl now d (lock_key c key),
  )

  held_excludes :
      (key token other : String) (longer t : ℕ) (d : Texts)
      → get_text t d (lock_key c key) ≡ some token
      → ((acquire_lock c key longer other t d).0 ≡ none)
        × ((acquire_lock c key longer other t (release_lock c key token t d)).0 ≡ some other)
  unfolding acquire_lock release_lock holds
  held_excludes key token other longer t d h = ground (
    arith,
    h,
    eq_refl token,
    eq_refl (lock_key c key),
    T.get_text-del t (lock_key c key) d (lock_key c key),
  )

  -- From the moment a caller is given a lock until its time is over, whatever others do meanwhile with
  -- the cache (releases with other tokens included), nobody else is given the lock; the holder's release
  -- frees it.
  pub acquire_lock-holds :
      (key token other : String) (ttl now longer t : ℕ) (calls : List (ServerCall Row)) (d : Texts)
      → (acquire_lock c key ttl token now d).0 ≡ some token
      → AreOthers key token (now + ttl * 1000) calls
      → t < now + ttl * 1000
      → let d' = after_server_calls calls (acquire_lock c key ttl token now d).1 in
        ((acquire_lock c key longer other t d').0 ≡ none)
        × ((acquire_lock c key longer other t (release_lock c key token t d')).0 ≡ some other)
  unfolding IsHeld
  acquire_lock-holds key token other ttl now longer t calls d got others early =
      let held = acquire-IsHeld key token ttl now d got in
      held_excludes key token other longer t _
        (calls-IsHeld key token (now + ttl * 1000) calls _ others held t early)
