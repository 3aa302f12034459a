-- ===== src/Datasets/Bounds.antt =====
-- The cache stays within its capacity and keeps what it was just given (src/dalmatian/datasets.py).
use dalmatian.Prelude.{
  ℕ, ◌+◌, ◌≤◌, ◌<◌, ◌≡◌, refl, String, none, some, List, [], ◌∷◌, ◌++◌, length, arith, eq_iff,
  eq_refl,
}
use dalmatian.Datasets.Cache.{Entry, DatasetCache, find, delete, get, evict, put, replace_old}

module _ {ℓ} {A : Type ℓ} where
  -- A dictionary has each key once.
  unfoldable pub Distinct : List (String × Entry A) → Type ℓ
  Distinct [] = Unit
  Distinct ((k, e) ∷ rest) = (find k rest ≡ none) × Distinct rest

  find-append :
      (key : String) (e : Entry A) (es : List (String × Entry A))
      → find key es ≡ none
      → find key (es ++ (key, e) ∷ []) ≡ some e
  unfolding find
  find-append key e [] h = ground (arith, eq_refl key)
  find-append key e ((k, e') ∷ es) h = ground (arith, find-append key e es, h)

  find-delete_other :
      (key j : String) (es : List (String × Entry A))
      → find j es ≡ none
      → find j (delete key es) ≡ none
  unfolding find delete
  find-delete_other key j [] h = h
  find-delete_other key j ((k, e) ∷ es) h = ground (arith, find-delete_other key j es, h)

  find-delete :
      (key : String) (es : List (String × Entry A)) → Distinct es → find key (delete key es) ≡ none
  unfolding find delete Distinct
  find-delete key [] h = refl
  find-delete key ((k, e) ∷ es) (new, h) = ground (arith, find-delete key es h, new, eq_iff k key)

  -- Eviction stops within the capacity, and before the newest entry.
  length-evict :
      (n : ℕ) (es : List (String × Entry A)) (released : List A)
      → length (evict n es released).0 ≤ n
  unfolding evict
  length-evict n [] released = omega arith
  length-evict n ((k, e) ∷ es) released = ground (arith, length-evict n es (e.value ∷ released))

  find-evict :
      (n : ℕ) (key : String) (e : Entry A) (es : List (String × Entry A)) (released : List A)
      → 1 ≤ n
      → find key es ≡ none
      → find key (evict n (es ++ (key, e) ∷ []) released).0 ≡ some e
  unfolding evict find
  find-evict n key e [] released h new = ground (arith, eq_refl key, h)
  find-evict n key e ((k, e') ∷ es) released h new =
      ground (
        arith,
        find-evict n key e es (e'.value ∷ released) h,
        find-append key e ((k, e') ∷ es),
        new,
      )

  -- A cache of distinct keys that has just been given a value, and has room for one, holds at most as
  -- many entries as it may, and a look at the key within the time to live answers with that value.
  pub put_bounded :
      (key : String) (value : A) (now later : ℕ) (c : DatasetCache A)
      → 1 ≤ c.max_entries
      → Distinct c.entries
      → later < now + c.ttl_seconds
      → (length (put key value now c).entries ≤ c.max_entries)
        × ((get key later (put key value now c)).0 ≡ some value)
  unfolding put get
  put_bounded key value now later c room distinct soon =
      let made : Entry A = record { value = value; expires_at = now + c.ttl_seconds } in
      let released = replace_old (find key c.entries) c.released in
      (
        length-evict c.max_entries _ released,
        ground (
          arith,
          soon,
          find-evict c.max_entries key made (delete key c.entries) released room
              (find-delete key c.entries distinct),
        ),
      )
