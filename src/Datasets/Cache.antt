-- ===== src/Datasets/Cache.antt =====
-- `DatasetCache` of src/dalmatian/datasets.py: the entries in the order of their last use, the
-- oldest first, with the values that were released. Times are arguments; each operation holds the
-- lock, so it is one step.
use dalmatian.Prelude.{
  ℕ, ◌+◌, String, Bool, true, false, Option, none, some, List, [], ◌∷◌, ◌++◌, ◌==◌, leb, ltb,
  if◌then◌else◌, length,
}

pub record Entry {ℓ} (A : Type ℓ) : Type ℓ where
  pub value : A
  pub expires_at : ℕ

-- `released` records the calls of the callbacks, the newest one first.
pub record DatasetCache {ℓ} (A : Type ℓ) : Type ℓ where
  pub max_entries : ℕ
  pub ttl_seconds : ℕ
  pub entries : List (String × Entry A)
  pub hits : ℕ
  pub misses : ℕ
  pub released : List A

-- self._entries.get(key)
unfoldable pub find {ℓ} : {A : Type ℓ} → String → List (String × Entry A) → Option (Entry A)
find key [] = none
find key ((k, e) ∷ rest) = let later = find key rest in if k == key then some e else later

-- self._entries.pop(key)
unfoldable pub delete {ℓ} :
    {A : Type ℓ} → String → List (String × Entry A) → List (String × Entry A)
delete key [] = []
delete key ((k, e) ∷ rest) = let kept = delete key rest in if k == key then rest else (k, e) ∷ kept

unfoldable pub get {ℓ} : {A : Type ℓ} → String → ℕ → DatasetCache A → Option A × DatasetCache A
get key now c = elim (find key c.entries) [
  | none ↦ (none, c)
  | some e ↦
      (if leb e.expires_at now
        then (none, record c { entries = delete key c.entries; released = e.value ∷ c.released })
        else (
          some e.value,
          record c { entries = delete key c.entries ++ (key, e) ∷ []; hits = 1 + c.hits },
        ))
]

-- The old value of the key is released.
unfoldable pub replace_old {ℓ} : {A : Type ℓ} → Option (Entry A) → List A → List A
replace_old none released = released
replace_old (some e) released = e.value ∷ released

-- while len(self._entries) > self.max_entries: one entry leaves in each round, so as many rounds as
-- there are entries are enough.
unfoldable pub evict {ℓ} :
    {A : Type ℓ} → ℕ → List (String × Entry A) → List A → List (String × Entry A) × List A
evict max_entries [] released = ([], released)
evict max_entries ((k, e) ∷ rest) released =
    let evicted = evict max_entries rest (e.value ∷ released) in
    if ltb max_entries (length ((k, e) ∷ rest)) then evicted else ((k, e) ∷ rest, released)

unfoldable pub put {ℓ} : {A : Type ℓ} → String → A → ℕ → DatasetCache A → DatasetCache A
put key value now c =
    let (entries, released) =
      evict c.max_entries
        (delete key c.entries
          ++ (key, record { value = value; expires_at = now + c.ttl_seconds }) ∷ [])
        (replace_old (find key c.entries) c.released) in
    record c { entries = entries; released = released }

-- `loaded` is what the loader returns, or none if it raises; the reply says whether the value was
-- there. The key's own lock is taken between the two looks: another caller may have loaded the value,
-- so the cache that the second look finds is a function of the one that the first look left.
unfoldable pub get_or_load {ℓ} :
    {A : Type ℓ}
    → String
    → Option A
    → ℕ
    → ℕ
    → ℕ
    → (DatasetCache A → DatasetCache A)
    → DatasetCache A
    → Option (A × Bool) × DatasetCache A
get_or_load key loaded first again stored others c =
    let (cached, c') = get key first c in
    elim cached [
      | some value ↦ (some (value, true), c')
      | none ↦
          (let (second, c'') = get key again (others c') in
            elim second [
              | some value ↦ (some (value, true), c'')
              | none ↦ elim loaded [
                | none ↦ (none, c'')
                | some value ↦
                    (let full = put key value stored c'' in
                      (some (value, false), record full { misses = 1 + full.misses }))
              ]
            ])
    ]

-- The values of all entries, oldest first.
unfoldable pub values {ℓ} : {A : Type ℓ} → List (String × Entry A) → List A
values [] = []
values ((k, e) ∷ rest) = e.value ∷ values rest

unfoldable pub release_all {ℓ} : {A : Type ℓ} → List A → List A → List A
release_all [] released = released
release_all (v ∷ vs) released = release_all vs (v ∷ released)

unfoldable pub close {ℓ} : {A : Type ℓ} → DatasetCache A → DatasetCache A
unfolding values release_all
close c = record c { entries = []; released = release_all (values c.entries) c.released }

-- What callers do under the lock: a look, a store, or the end.
pub data Step {ℓ} (A : Type ℓ) : Type ℓ where
  look : String → ℕ → Step A
  store : String → A → ℕ → Step A
  finish : Step A

unfoldable pub after {ℓ} : {A : Type ℓ} → Step A → DatasetCache A → DatasetCache A
after (Step.look key now) c = (get key now c).1
after (Step.store key value now) c = put key value now c
after Step.finish c = close c

unfoldable pub run {ℓ} : {A : Type ℓ} → List (Step A) → DatasetCache A → DatasetCache A
run [] c = c
run (s ∷ ss) c = run ss (after s c)

-- The values that the steps store.
unfoldable pub stored {ℓ} : {A : Type ℓ} → List (Step A) → List A
stored [] = []
stored (Step.look key now ∷ ss) = stored ss
stored (Step.store key value now ∷ ss) = value ∷ stored ss
stored (Step.finish ∷ ss) = stored ss
