-- ===== src/Storage/Refinement.antt =====
-- The registry in memory and the registry on the server answer alike (src/dalmatian/storage.py).
use mathlib.Core.Path.{ap₂}
use dalmatian.Prelude.{
  String, ◌≡◌, refl, false, not, ◌&&◌, Option, none, some, List, [], ◌∷◌, ◌==◌, eq_iff, arith,
  holds, is_some, or_else,
}
use dalmatian.Valkey.{Valkey, field_of}
use dalmatian.Valkey.Laws.{hash_laws, hget-hset}
use dalmatian.Valkey.Memory.{field_of-put_all}
use dalmatian.Storage.Publication.{
  Publication, Values, publish_memory, publish_valkey, lookup, taken, appended, last_append,
  replies_memory, replies_valkey,
}

-- An append keeps the fields of the publication that is current.
field_of-appended :
    (p : Publication) (o : Option (List (String × String)))
    → (field_of (appended p o) "query_id" ≡ lookup o "query_id")
      × (field_of (appended p o) "attempt_id" ≡ lookup o "attempt_id")
      × (field_of (appended p o) "manifest_uri" ≡ lookup o "manifest_uri")
unfolding appended last_append lookup
field_of-appended p none = (refl, refl, refl)
field_of-appended p (some h) = (
  field_of-put_all (last_append p) h "query_id",
  field_of-put_all (last_append p) h "attempt_id",
  field_of-put_all (last_append p) h "manifest_uri",
)

-- The queries of all publications have a name.
unfoldable pub Named : List Publication → Type 0
Named [] = Unit
Named (p ∷ ps) = ((p.query_id == "") ≡ false) × Named ps

module _ ⦃V : Valkey⦄ where
  open V use {Db, hget, exists}

  -- An entry reads alike in the fields of the publication that is current.
  pub record Agrees (o : Option (List (String × String))) (d : Db) (k : String) : Type 0 where
    pub present : exists d k ≡ is_some o
    pub query_id : hget d k "query_id" ≡ lookup o "query_id"
    pub attempt_id : hget d k "attempt_id" ≡ lookup o "attempt_id"
    pub manifest_uri : hget d k "manifest_uri" ≡ lookup o "manifest_uri"

  unfoldable pub Same : Values → Db → Type 0
  Same values d = (k : String) → Agrees (values k) d k

  -- Both refuse a publication for the same reason.
  same_guard :
      (query_id : String) (o : Option (List (String × String))) (d : Db) (k : String)
      → (query_id == "") ≡ false
      → Agrees o d k
      → (exists d k && not (or_else (hget d k "query_id") "" == query_id)) ≡ taken o query_id
  unfolding taken lookup holds
  same_guard query_id o d k h a = ground (arith, h, a.present, a.query_id, eq_iff "" query_id)

  module _ (p : Publication) (values : Values) (d : Db) (h : (p.query_id == "") ≡ false)
      (a : Agrees (values p.publication_key) d p.publication_key) where
    same_reply : (publish_valkey p d).0 ≡ (publish_memory p values).0
    unfolding publish_valkey publish_memory
    same_reply =
        ground (arith, same_guard p.query_id (values p.publication_key) d p.publication_key h a)

    same_entry :
        (k : String)
        → Agrees (values k) d k
        → Agrees ((publish_memory p values).1 k) (publish_valkey p d).1 k
    unfolding publish_valkey publish_memory lookup
    same_entry k b =
        let (query, attempt, manifest) = field_of-appended p (values p.publication_key) in
        let guard = same_guard p.query_id (values p.publication_key) d p.publication_key h a in
        let same = eq_iff p.publication_key k in
        record {
          present = grind (arith, hash_laws, guard, same, a.present, b.present);
          query_id = grind (arith, hget-hset, guard, same, a.query_id, b.query_id, query);
          attempt_id = grind (arith, hget-hset, guard, same, a.attempt_id, b.attempt_id, attempt);
          manifest_uri =
              grind (arith, hget-hset, guard, same, a.manifest_uri, b.manifest_uri, manifest);
        }

  -- Two registries that agree answer every sequence of publications of named queries alike, and
  -- agree after it, on every key, in whether there is an entry and in the query, the attempt and the
  -- manifest of the publication that is current.
  pub replies_alike :
      (ps : List Publication) (values : Values) (d : Db)
      → Named ps
      → Same values d
      → ((replies_valkey ps d).0 ≡ (replies_memory ps values).0)
        × Same (replies_memory ps values).1 (replies_valkey ps d).1
  unfolding replies_valkey replies_memory Same Named
  replies_alike [] values d h s = (refl, s)
  replies_alike (p ∷ ps) values d (h, hs) s =
      let again : Same (publish_memory p values).1 (publish_valkey p d).1 =
        λ k. same_entry p values d h (s p.publication_key) k (s k) in
      let (rest, same) =
        replies_alike ps (publish_memory p values).1 (publish_valkey p d).1 hs again in
      (ap₂ (λ b bs. b ∷ bs) (same_reply p values d h (s p.publication_key)) rest, same)
