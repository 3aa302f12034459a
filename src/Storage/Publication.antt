-- ===== src/Storage/Publication.antt =====
-- src/dalmatian/storage.py: the two registries of published outputs, in memory and on the server.
use dalmatian.Prelude.{
  ℕ, String, Bool, true, false, not, ◌&&◌, Option, none, some, List, [], ◌∷◌, ◌==◌, holds, or_else,
  if◌then◌else◌,
}
use dalmatian.Prelude.Decimal.{str}
use dalmatian.Valkey.{Valkey, field_of}
use dalmatian.Valkey.Memory.{update, put_all}

-- The arguments of one publication, and the time at which it is made.
pub record Publication : Type 0 where
  pub publication_key : String
  pub query_id : String
  pub attempt_id : String
  pub manifest_uri : String
  pub write_mode : String
  pub now : ℕ

-- MemoryOutputPublicationRegistry.values
abbrev pub Values : Type 0
Values = String → Option (List (String × String))

unfoldable pub last_append : Publication → List (String × String)
last_append p =
    ("last_append_query_id", p.query_id)
    ∷ ("last_append_attempt_id", p.attempt_id)
    ∷ ("last_append_manifest_uri", p.manifest_uri)
    ∷ []

unfoldable pub published_fields : Publication → List (String × String)
published_fields p =
    ("exists", "1")
    ∷ ("query_id", p.query_id)
    ∷ ("attempt_id", p.attempt_id)
    ∷ ("manifest_uri", p.manifest_uri)
    ∷ []

-- self.values.setdefault(publication_key, {"exists": "1"})
default : Option (List (String × String)) → List (String × String)
default none = ("exists", "1") ∷ []
default (some current) = current

-- current is not None and current.get("query_id") != query_id
unfoldable pub taken : Option (List (String × String)) → String → Bool
taken none query_id = false
taken (some current) query_id = not (holds (field_of current "query_id") query_id)

-- current.update(…)
unfoldable pub appended : Publication → Option (List (String × String)) → List (String × String)
unfolding last_append default
appended p o = put_all (last_append p) (default o)

unfoldable pub publish_memory : Publication → Values → Bool × Values
unfolding published_fields
publish_memory p values =
    if p.write_mode == "append"
    then (true, update p.publication_key (some (appended p (values p.publication_key))) values)
    else if (p.write_mode == "error") && taken (values p.publication_key) p.query_id
    then (false, values)
    else (true, update p.publication_key (some (published_fields p)) values)

unfoldable pub current_memory : String → Values → Option (List (String × String))
current_memory publication_key values = values publication_key

-- A field of an entry.
unfoldable pub lookup : Option (List (String × String)) → String → Option String
lookup none f = none
lookup (some h) f = field_of h f

module _ ⦃V : Valkey⦄ where
  open V use {Db, hget, exists, hset}

  unfoldable pub publish_valkey : Publication → Db → Bool × Db
  publish_valkey p d =
      if p.write_mode == "append"
      then (
        true,
        hset p.publication_key
            (("exists", "1")
              ∷ ("last_append_query_id", p.query_id)
              ∷ ("last_append_attempt_id", p.attempt_id)
              ∷ ("last_append_manifest_uri", p.manifest_uri)
              ∷ ("updated_at_ms", str p.now)
              ∷ [])
            d,
      )
      else if (p.write_mode == "error")
          && (exists d p.publication_key
              && not (or_else (hget d p.publication_key "query_id") "" == p.query_id))
      then (false, d)
      else (
        true,
        hset p.publication_key
            (("exists", "1")
              ∷ ("query_id", p.query_id)
              ∷ ("attempt_id", p.attempt_id)
              ∷ ("manifest_uri", p.manifest_uri)
              ∷ ("updated_at_ms", str p.now)
              ∷ [])
            d,
      )

  -- The replies to a sequence of publications, the first one first.
  unfoldable pub replies_valkey : List Publication → Db → List Bool × Db
  replies_valkey [] d = ([], d)
  replies_valkey (p ∷ ps) d =
      let (reply, d') = publish_valkey p d in
      let (rest, d'') = replies_valkey ps d' in (reply ∷ rest, d'')

unfoldable pub replies_memory : List Publication → Values → List Bool × Values
replies_memory [] values = ([], values)
replies_memory (p ∷ ps) values =
    let (reply, values') = publish_memory p values in
    let (rest, values'') = replies_memory ps values' in (reply ∷ rest, values'')
