-- ===== src/Valkey/Memory.antt =====
-- A database in memory that meets the documented effects of Valkey's commands: it shows that the
-- assumptions on the server can be met, and runs the scripts in tests.
use dalmatian.Prelude.{
  ℕ, ◌+◌, ◌-◌, ◌<◌, String, ◌≡◌, refl, Bool, true, false, not, Option, none, some, List, [], ◌∷◌,
  arith, ◌==◌, eq_iff, eq_refl, leb, if◌then◌else◌, or_else, is_some, length, contains,
  remove_first, take,
}
use dalmatian.Prelude.Decimal.{str, to_int}
use dalmatian.Valkey.{Valkey, written, field_of, is_empty, last?, drop_last, push}

pub record Store : Type 0 where
  pub hashes : String → List (String × String)
  pub lists : String → List String
  pub sets : String → List (String × ℕ)

abbrev pub empty : Store
empty = record { hashes = λ k. []; lists = λ k. []; sets = λ k. [] }

abbrev pub update {ℓ} : {A : Type ℓ} → String → A → (String → A) → String → A
update k v f j = if k == j then v else f j

abbrev pub put : String → String → List (String × String) → List (String × String)
put f v [] = (f, v) ∷ []
put f v ((g, w) ∷ rest) = if g == f then (f, v) ∷ rest else (g, w) ∷ put f v rest

abbrev pub put_all : List (String × String) → List (String × String) → List (String × String)
put_all [] h = h
put_all ((f, v) ∷ fvs) h = put_all fvs (put f v h)

pub field_of-put :
    (g v : String) (h : List (String × String)) (f : String)
    → field_of (put g v h) f ≡ (if g == f then some v else field_of h f)
field_of-put g v [] f = refl
field_of-put g v ((i, w) ∷ h) f =
    ground (arith, field_of-put g v h f, eq_iff i g, eq_iff g f, eq_iff i f)

pub field_of-put_all :
    (fvs h : List (String × String)) (f : String)
    → field_of (put_all fvs h) f ≡ written fvs f (field_of h f)
field_of-put_all [] h f = refl
field_of-put_all ((g, v) ∷ fvs) h f =
    ground (arith, field_of-put_all fvs (put g v h) f, field_of-put g v h f)

pub is_empty-put : (g v : String) (h : List (String × String)) → is_empty (put g v h) ≡ false
is_empty-put g v [] = refl
is_empty-put g v ((i, w) ∷ h) = ground arith

pub is_empty-put_all :
    (fvs h : List (String × String)) → is_empty h ≡ false → is_empty (put_all fvs h) ≡ false
is_empty-put_all [] h e = e
is_empty-put_all ((g, v) ∷ fvs) h e = is_empty-put_all fvs (put g v h) (is_empty-put g v h)

abbrev pub score : List (String × ℕ) → String → Option ℕ
score [] m = none
score ((i, s) ∷ rest) m = if i == m then some s else score rest m

abbrev pub without : String → List (String × ℕ) → List (String × ℕ)
without m [] = []
without m ((i, s) ∷ rest) = let left = without m rest in if i == m then left else (i, s) ∷ left

abbrev pub card : List (String × ℕ) → ℕ
card [] = 0
card ((i, s) ∷ rest) = (if is_some (score rest i) then 0 else 1) + card rest

abbrev pub due : ℕ → List (String × ℕ) → List String
due t [] = []
due t ((i, s) ∷ rest) = let later = due t rest in if leb s t then i ∷ later else later

pub score-without :
    (m i : String) (r : List (String × ℕ))
    → score (without m r) i ≡ (if m == i then none else score r i)
score-without m i [] = ground arith
score-without m i ((j, s) ∷ r) =
    ground (arith, score-without m i r, eq_iff j m, eq_iff j i, eq_iff m i)

pub card_pos : (m : String) (r : List (String × ℕ)) → is_some (score r m) ≡ true → 0 < card r
card_pos m [] h = cc
card_pos m ((j, s) ∷ r) h = ground (arith, card_pos m r, card_pos j r)

pub card-without :
    (m : String) (r : List (String × ℕ))
    → card (without m r) ≡ (if is_some (score r m) then card r - 1 else card r)
card-without m [] = refl
card-without m ((j, s) ∷ r) = ground (
  arith,
  card-without m r,
  score-without m j r,
  card_pos m r,
  card_pos j r,
  eq_iff j m,
  eq_iff m j,
)

-- Reads of an absent hash.
pub field_absent :
    (h : List (String × String)) (f : String) → is_empty h ≡ true → field_of h f ≡ none
field_absent [] f e = refl
field_absent (x ∷ h) f e = cc

pub not_involutive : (b : Bool) → b ≡ not (not b)
not_involutive true = refl
not_involutive false = refl

abbrev pub memory : Valkey
memory = record {
  Db = Store;
  hget = λ d k f. field_of (d.hashes k) f;
  hgetall = λ d k. d.hashes k;
  exists = λ d k. not (is_empty (d.hashes k));
  hset = λ k fvs d. record d { hashes = update k (put_all fvs (d.hashes k)) d.hashes };
  hincrby = λ k f n d. record d {
    hashes =
        update k (put f (str (to_int (or_else (field_of (d.hashes k) f) "0") + n)) (d.hashes k))
          d.hashes;
  };
  expire = λ k s d. d;
  lapse = λ k d. record d { hashes = update k [] d.hashes };
  lrange = λ d k. d.lists k;
  llen = λ d k. length (d.lists k);
  lpos = λ d k x. contains (d.lists k) x;
  lpush = λ k x d. record d { lists = update k (x ∷ d.lists k) d.lists };
  lrem = λ k x d. record d { lists = update k (remove_first x (d.lists k)) d.lists };
  rpoplpush = λ k l d. (
    last? (d.lists k),
    record d {
      lists = λ j.
          let left = if k == j then drop_last (d.lists j) else d.lists j in
          if l == j then push (last? (d.lists k)) left else left;
    },
  );
  zscore = λ d k m. score (d.sets k) m;
  zcard = λ d k. card (d.sets k);
  zrangebyscore = λ d k t n. take n (due t (d.sets k));
  zadd = λ k s m d. record d { sets = update k ((m, s) ∷ without m (d.sets k)) d.sets };
  zrem = λ k m d. record d { sets = update k (without m (d.sets k)) d.sets };
  hget-hset = λ k fvs d j f. ground (arith, eq_iff k j, field_of-put_all fvs (d.hashes k) f);
  hget-hincrby = λ k g n d j f. ground (
    arith,
    eq_iff k j,
    eq_iff g f,
    field_of-put g (str (to_int (or_else (field_of (d.hashes k) g) "0") + n)) (d.hashes k) f,
  );
  hget-lapse = λ k d j f. ground arith;
  exists-hset = λ k fv fvs d j. ground (
    arith,
    is_empty-put_all fvs (put fv.0 fv.1 (d.hashes k)) (is_empty-put fv.0 fv.1 (d.hashes k)),
  );
  exists-hincrby = λ k g n d j. ground (
    arith,
    is_empty-put g (str (to_int (or_else (field_of (d.hashes k) g) "0") + n)) (d.hashes k),
  );
  exists-lapse = λ k d j. ground arith;
  hget_absent = λ d k f h. field_absent (d.hashes k) f (ground arith);
  hgetall_field = λ d k f. refl;
  hgetall_empty = λ d k. not_involutive (is_empty (d.hashes k));
  llen_lem = λ d k. refl;
  lpos_lem = λ d k x. refl;
  lrange-lpush = λ k x d j. ground (arith, eq_iff k j);
  lrange-lrem = λ k x d j. ground (arith, eq_iff k j);
  rpoplpush_lem = λ k l d. refl;
  lrange-rpoplpush = λ k l d j. refl;
  zscore-zadd = λ k s m d j i. ground (arith, eq_iff k j, score-without m i (d.sets k));
  zscore-zrem = λ k m d j i. ground (arith, eq_iff k j, score-without m i (d.sets k));
  zcard-zadd = λ k s m d j. ground (
    arith,
    eq_iff k j,
    card-without m (d.sets k),
    score-without m m (d.sets k),
    eq_refl m,
    card_pos m (d.sets k),
  );
  zcard-zrem = λ k m d j. ground (arith, eq_iff k j, card-without m (d.sets k));
  zcard_pos = λ d k m h. card_pos m (d.sets k) h;
  hget-expire = λ a b c d e. refl;
  hget-lpush = λ a b c d e. refl;
  hget-lrem = λ a b c d e. refl;
  hget-rpoplpush = λ a b c d e. refl;
  hget-zadd = λ a b c d e f. refl;
  hget-zrem = λ a b c d e. refl;
  exists-expire = λ a b c d. refl;
  exists-lpush = λ a b c d. refl;
  exists-lrem = λ a b c d. refl;
  exists-rpoplpush = λ a b c d. refl;
  exists-zadd = λ a b c d e. refl;
  exists-zrem = λ a b c d. refl;
  lrange-hset = λ a b c d. refl;
  lrange-hincrby = λ a b c d e. refl;
  lrange-expire = λ a b c d. refl;
  lrange-lapse = λ a b c. refl;
  lrange-zadd = λ a b c d e. refl;
  lrange-zrem = λ a b c d. refl;
  zscore-hset = λ a b c d e. refl;
  zscore-hincrby = λ a b c d e f. refl;
  zscore-expire = λ a b c d e. refl;
  zscore-lapse = λ a b c d. refl;
  zscore-lpush = λ a b c d e. refl;
  zscore-lrem = λ a b c d e. refl;
  zscore-rpoplpush = λ a b c d e. refl;
  zcard-hset = λ a b c d. refl;
  zcard-hincrby = λ a b c d e. refl;
  zcard-expire = λ a b c d. refl;
  zcard-lapse = λ a b c. refl;
  zcard-lpush = λ a b c d. refl;
  zcard-lrem = λ a b c d. refl;
  zcard-rpoplpush = λ a b c d. refl;
}
