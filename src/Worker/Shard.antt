-- ===== src/Worker/Shard.antt =====
-- `_worker_shard` of src/dalmatian/worker.py. Host names are ASCII, so a digit is one of 0 to 9.
use Prim.Native.Char.{Char}
use Prim.Native.String.{◌++◌}
use text.Mathlib.TextLemmas.{nil-append, cons-append}
use native.Mathlib.Nat.{mod-eq_of_lt}
use dalmatian.Prelude.{
  not, false, ◌≡◌, refl, ◌∙◌, ap, sym, suc, ◌+◌, ℕ, ◌-◌, ◌%◌, ◌<◌, ◌≤◌, String, Bool, true, ◌&&◌,
  ◌||◌, Option, none, some, if◌then◌else◌, arith,
}
use dalmatian.Prelude.Decimal.{
  str, to_int, to_int-str, all_digits, all_digits-str, is_digit, is_filled, is_filled-str,
}

-- re.search(r"(\d+)$", hostname), as a number
unfoldable pub trailing_number : String → Option ℕ
unfolding all_digits
trailing_number String.[] = none
trailing_number (String.◌∷◌ c s) =
    let later = trailing_number s in
    if all_digits (String.◌∷◌ c s) then some (to_int (String.◌∷◌ c s)) else later

-- A number that follows -worker- or _worker_ starts at one. Python's `in` is an argument.
ordinal : (String → String → Bool) → String → ℕ → ℕ
ordinal is_in hostname value =
    if is_in "-worker-" hostname || is_in "_worker_" hostname then value - 1 else value

unfoldable pub worker_shard : (String → String → Bool) → String → Option ℕ → ℕ → ℕ
unfolding ordinal
worker_shard is_in hostname (some configured) shards = configured % shards
worker_shard is_in hostname none shards = elim (trailing_number hostname) [
  | some value ↦ ordinal is_in hostname value % shards
  | none ↦ 0
]

-- A worker's shard is one of the queue's, whatever its name and its setting.
pub worker_shard_bounded :
    (is_in : String → String → Bool) (hostname : String) (configured : Option ℕ) (shards : ℕ)
    → 1 ≤ shards
    → worker_shard is_in hostname configured shards < shards
unfolding worker_shard
worker_shard_bounded is_in hostname (some configured) shards h = ground arith
worker_shard_bounded is_in hostname none shards h = ground arith

module _ (t : String) where
  after_letter :
      (c : Char) → is_digit c ≡ false → trailing_number (String.◌∷◌ c t) ≡ trailing_number t
  unfolding trailing_number all_digits
  after_letter c h = ground arith

  all_digits_behind : (base : String) → all_digits t ≡ false → all_digits (base ++ t) ≡ false
  unfolding all_digits
  all_digits_behind String.[] h = rw nil-append h
  all_digits_behind (String.◌∷◌ c base) h =
      rw cons-append (ground (arith, all_digits_behind base h))

  trailing_number_behind :
      (base : String) → all_digits t ≡ false → trailing_number (base ++ t) ≡ trailing_number t
  unfolding trailing_number all_digits
  trailing_number_behind String.[] h = rw nil-append refl
  trailing_number_behind (String.◌∷◌ c base) h =
      rw cons-append (ground (arith, trailing_number_behind base h, all_digits_behind base h))

no_digits : String → Bool
no_digits String.[] = true
no_digits (String.◌∷◌ c s) = not (is_digit c) && no_digits s

trailing_number_after :
    (p t : String) → no_digits p ≡ true → trailing_number (p ++ t) ≡ trailing_number t
unfolding no_digits
trailing_number_after String.[] t h = rw nil-append refl
trailing_number_after (String.◌∷◌ c p) t h =
    rw cons-append
      (after_letter (p ++ t) c (ground arith) ∙ trailing_number_after p t (ground arith))

trailing_number_whole :
    (s : String) → all_digits s ≡ true → is_filled s ≡ true → trailing_number s ≡ some (to_int s)
unfolding trailing_number is_filled
trailing_number_whole String.[] h k = cc
trailing_number_whole (String.◌∷◌ c s) h k = ground arith

trailing_number-str : (n : ℕ) → trailing_number (str n) ≡ some n
trailing_number-str n =
    trailing_number_whole (str n) (all_digits-str n) (is_filled-str n) ∙ ap some (to_int-str n)

-- The name of a worker with a number.
abbrev pub host : String → ℕ → String
host base n = base ++ ("-worker-" ++ str n)

trailing_number-host : (base : String) (n : ℕ) → trailing_number (host base n) ≡ some n
unfolding all_digits no_digits
trailing_number-host base n =
    trailing_number_behind ("-worker-" ++ str n) base
      (ap all_digits (cons-append "-" "worker-" (str n)))
    ∙ trailing_number_after "-worker-" (str n) refl
    ∙ trailing_number-str n

-- Python's `in`: a text stands in one that has it in the middle.
unfoldable pub FindsInside : (String → String → Bool) → Type 0
FindsInside is_in = (needle a b : String) → is_in needle (a ++ (needle ++ b)) ≡ true

worker_shard-host :
    (is_in : String → String → Bool) (base : String) (n shards : ℕ)
    → FindsInside is_in
    → worker_shard is_in (host base n) none shards ≡ (n - 1) % shards
unfolding worker_shard FindsInside
worker_shard-host is_in base n shards finds =
    rw (worker_shard, trailing_number-host base n) (rw (finds "-worker-" base (str n)) refl)

-- Where workers are named base-worker-n and have no shard of their own set: the workers from 1 to the
-- number of shards have one shard each; but of those from 0, as a StatefulSet of that name numbers them, the
-- first two share shard 0, and among as many workers as there are shards none has the last shard, if there
-- is more than one.
pub worker_shard-ordinals :
    (is_in : String → String → Bool) (base : String) (shards : ℕ)
    → FindsInside is_in
    → ((k : ℕ) → k < shards → worker_shard is_in (host base (suc k)) none shards ≡ k)
      × (worker_shard is_in (host base 0) none shards
          ≡ worker_shard is_in (host base 1) none shards)
      × ((n : ℕ)
          → 1 < shards
          → n < shards
          → worker_shard is_in (host base n) none shards + 1 < shards)
worker_shard-ordinals is_in base shards finds = (
  (λ k h.
      worker_shard-host is_in base (suc k) shards finds ∙ mod-eq_of_lt (omega arith) ∙ omega arith),
  worker_shard-host is_in base 0 shards finds ∙ sym (worker_shard-host is_in base 1 shards finds),
  (λ n h k.
      rw
        (
          worker_shard-host is_in base n shards finds,
          mod-eq_of_lt {n = n - 1} {m = shards} (omega arith),
        )
        (omega arith)),
)
