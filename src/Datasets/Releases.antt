-- ===== src/Datasets/Releases.antt =====
-- No loaded data set is lost or released twice (src/dalmatian/datasets.py).
use dalmatian.Prelude.{ℕ, ◌+◌, ◌≡◌, refl, String, Bool, List, [], ◌∷◌, ◌++◌, if◌then◌else◌, arith}
use dalmatian.Datasets.Cache.{
  Entry, DatasetCache, find, delete, get, evict, put, replace_old, values, close, release_all, Step,
  after, run, stored,
}

module _ {ℓ} {A : Type ℓ} (P : A → Bool) where
  -- How many values pass a test.
  unfoldable pub tally : List A → ℕ
  tally [] = 0
  tally (x ∷ xs) = (if P x then 1 else 0) + tally xs

  -- The values that pass it, in the cache or released.
  unfoldable pub accounted : DatasetCache A → ℕ
  unfolding tally
  accounted c = tally (values c.entries) + tally c.released

  tally-append_entry :
      (key : String) (e : Entry A) (es : List (String × Entry A))
      → tally (values (es ++ (key, e) ∷ [])) ≡ tally (values es) + (if P e.value then 1 else 0)
  unfolding tally values
  tally-append_entry key e [] = omega arith
  tally-append_entry key e ((k, e') ∷ es) = omega (arith, tally-append_entry key e es)

  tally-delete :
      (key : String) (es : List (String × Entry A)) (released : List A)
      → tally (values (delete key es)) + tally (replace_old (find key es) released)
        ≡ tally (values es) + tally released
  unfolding tally values delete find replace_old
  tally-delete key [] released = refl
  tally-delete key ((k, e) ∷ es) released = ground (arith, tally-delete key es released)

  tally-evict :
      (n : ℕ) (es : List (String × Entry A)) (released : List A)
      → tally (values (evict n es released).0) + tally (evict n es released).1
        ≡ tally (values es) + tally released
  unfolding tally values evict
  tally-evict n [] released = refl
  tally-evict n ((k, e) ∷ es) released = ground (arith, tally-evict n es (e.value ∷ released))

  tally-release_all :
      (vs released : List A) → tally (release_all vs released) ≡ tally vs + tally released
  unfolding tally release_all
  tally-release_all [] released = omega arith
  tally-release_all (v ∷ vs) released = omega (arith, tally-release_all vs (v ∷ released))

  get-accounted :
      (key : String) (now : ℕ) (c : DatasetCache A) → accounted (get key now c).1 ≡ accounted c
  unfolding accounted get replace_old tally
  get-accounted key now c = grind (arith, tally-delete key c.entries c.released, tally-append_entry)

  put-accounted :
      (key : String) (value : A) (now : ℕ) (c : DatasetCache A)
      → accounted (put key value now c) ≡ accounted c + (if P value then 1 else 0)
  unfolding accounted put tally
  put-accounted key value now c =
      let made : Entry A = record { value = value; expires_at = now + c.ttl_seconds } in
      let released = replace_old (find key c.entries) c.released in
      omega (
        arith,
        tally-delete key c.entries c.released,
        tally-append_entry key made (delete key c.entries),
        tally-evict c.max_entries (delete key c.entries ++ (key, made) ∷ []) released,
      )

  close-accounted : (c : DatasetCache A) → accounted (close c) ≡ accounted c
  unfolding accounted close values tally
  close-accounted c = omega (arith, tally-release_all (values c.entries) c.released)

  after-accounted :
      (s : Step A) (c : DatasetCache A)
      → accounted (after s c) ≡ accounted c + tally (stored (s ∷ []))
  unfolding after stored tally
  after-accounted (Step.look key now) c = omega (arith, get-accounted key now c)
  after-accounted (Step.store key value now) c = omega (arith, put-accounted key value now c)
  after-accounted Step.finish c = omega (arith, close-accounted c)

  run-accounted :
      (ss : List (Step A)) (c : DatasetCache A)
      → accounted (run ss c) ≡ accounted c + tally (stored ss)
  unfolding run stored tally
  run-accounted [] c = omega arith
  run-accounted (Step.look key now ∷ ss) c =
      omega (
        arith,
        run-accounted ss (after (Step.look key now) c),
        after-accounted (Step.look key now) c,
      )
  run-accounted (Step.store key value now ∷ ss) c = omega (
    arith,
    run-accounted ss (after (Step.store key value now) c),
    after-accounted (Step.store key value now) c,
  )
  run-accounted (Step.finish ∷ ss) c =
      omega (arith, run-accounted ss (after Step.finish c), after-accounted Step.finish c)

  -- In every sequence of looks and stores, whatever their keys and times, that `close` ends, each test
  -- passes as many released values as values that were in the cache, had been released or were
  -- stored: every data set is released exactly once, and none is left.
  pub released_once :
      (ss : List (Step A)) (c : DatasetCache A)
      → (tally (close (run ss c)).released ≡ accounted c + tally (stored ss))
        × ((close (run ss c)).entries ≡ [])
  unfolding close accounted
  released_once ss c = (omega (arith, close-accounted (run ss c), run-accounted ss c), refl)
