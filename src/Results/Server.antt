-- ===== src/Results/Server.antt =====
-- `ValkeyResultCache` of src/dalmatian/cache.py. The server's commands on texts are a record with their
-- documented effect at a time; compression, JSON and the token (uuid4) are arguments.
use Prim.Native.String.{◌++◌}
use dalmatian.Prelude.{
  ℕ, ◌+◌, ◌*◌, String, ◌≡◌, Bool, true, false, Option, none, some, List, [], ◌∷◌, ◌==◌, ltb, nat_eq,
  holds, is_some, if◌then◌else◌,
}
use dalmatian.Models.{InlineResult}

-- Times and the ends of keys are in milliseconds.
pub record TextCommands : Type 1 where
  pub Texts : Type 0
  pub get_text : ℕ → Texts → String → Option String
  -- SETEX key seconds value
  pub setex : String → ℕ → String → ℕ → Texts → Texts
  pub del : String → Texts → Texts
  pub get_text-setex :
      (t : ℕ) (key value : String) (seconds now : ℕ) (d : Texts) (k : String)
      → get_text t (setex key seconds value now d) k ≡ (
          if key == k
          then (if ltb t (now + seconds * 1000) then some value else none)
          else get_text t d k)
  pub get_text-del :
      (t : ℕ) (key : String) (d : Texts) (k : String)
      → get_text t (del key d) k ≡ (if key == k then none else get_text t d k)

-- How results are written and read; `max_bytes` bounds what is stored.
pub record ServerCache (Row : Type 0) : Type 0 where
  pub prefix : String
  pub max_bytes : ℕ
  -- zlib.compress(value.model_dump_json().encode()); its length; the inverse, if the bytes are sound
  pub encode : InlineResult Row → String
  pub size : String → ℕ
  pub decode : String → Option (InlineResult Row)

module _ ⦃T : TextCommands⦄ {Row : Type 0} (c : ServerCache Row) where
  open T use {Texts, get_text, setex, del}

  -- self._key(key) and self._lock_key(key)
  unfoldable pub value_key : String → String
  value_key key = c.prefix ++ (":" ++ key)

  unfoldable pub lock_key : String → String
  lock_key key = c.prefix ++ (":lock:" ++ key)

  -- A value that cannot be read is deleted.
  unfoldable pub read_value : String → Option String → Texts → Option (InlineResult Row) × Texts
  read_value key none d = (none, d)
  read_value key (some raw) d = elim (c.decode raw) [
    | some value ↦ (some value, d)
    | none ↦ (none, del (value_key key) d)
  ]

  unfoldable pub get_value : String → ℕ → Texts → Option (InlineResult Row) × Texts
  unfolding read_value
  get_value key now d = read_value key (get_text now d (value_key key)) d

  unfoldable pub set_value : String → InlineResult Row → ℕ → ℕ → Texts → Bool × Texts
  set_value key value ttl_seconds now d =
      if nat_eq ttl_seconds 0
      then (false, d)
      else if ltb c.max_bytes (c.size (c.encode value))
      then (false, d)
      else (true, setex (value_key key) ttl_seconds (c.encode value) now d)

  -- SET key token NX EX seconds
  unfoldable pub acquire_lock : String → ℕ → String → ℕ → Texts → Option String × Texts
  acquire_lock key ttl_seconds token now d =
      if is_some (get_text now d (lock_key key))
      then (none, d)
      else (some token, setex (lock_key key) ttl_seconds token now d)

  -- _RELEASE_SCRIPT
  unfoldable pub release_lock : String → String → ℕ → Texts → Texts
  release_lock key token now d =
      if holds (get_text now d (lock_key key)) token then del (lock_key key) d else d

  -- The times and states that the polls before the deadline see.
  unfoldable pub wait_value : String → List (ℕ × Texts) → Option (InlineResult Row)
  wait_value key [] = none
  wait_value key ((now, d) ∷ polls) =
      let later = wait_value key polls in
      elim (get_value key now d).0 [ none ↦ later | some value ↦ some value ]
