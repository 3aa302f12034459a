-- ===== src/Jobs/Keys.antt =====
-- The keys of src/dalmatian/jobs.py do not collide: `_key`, `_idempotency_key`, `_pending` and the
-- names of the other lists.
use Prim.Native.Nat.{zero, suc}
use Prim.Native.Char.{code}
use Prim.Native.String.{◌++◌}
use text.Mathlib.TextLemmas.{append_cancel_left, cons-append}
use dalmatian.Prelude.{
  ℕ, String, ◌≡◌, refl, ap, sym, ◌∙◌, false, false≢true, Option, none, some, arith, ◌==◌, eq_iff,
  Bool-cases, inl, inr, nat_eq,
}
use dalmatian.Prelude.Decimal.{str, str_inj}
use dalmatian.Jobs.Config.{
  Config, job_key, pending_name, processing_name, dead_name, idempotency_name,
}

-- A test of two texts that are equal exactly when two others are.
==_transfer : (s t u v : String) → (s ≡ t → u ≡ v) → (u ≡ v → s ≡ t) → (s == t) ≡ (u == v)
==_transfer s t u v to from = elim (Bool-cases (u == v)) [
  | inl e ↦ (eq_iff s t).1 (from ((eq_iff u v).0 e)) ∙ sym e
  | inr n ↦ elim (Bool-cases (s == t)) [
    | inl e ↦ absurd (false≢true (sym n ∙ (eq_iff u v).1 (to ((eq_iff s t).0 e))))
    | inr m ↦ m ∙ sym n
  ]
]

-- Texts behind one prefix are equal as the texts are.
append-==_left : (p s t : String) → (p ++ s == p ++ t) ≡ (s == t)
append-==_left p s t =
    ==_transfer (p ++ s) (p ++ t) s t (append_cancel_left p s t) (ap (λ r. p ++ r))

code_at : ℕ → String → Option ℕ
code_at n String.[] = none
code_at zero (String.◌∷◌ c s) = some (code c)
code_at (suc n) (String.◌∷◌ c s) = code_at n s

code_at-append : (n : ℕ) (s t : String) {c : ℕ} → code_at n s ≡ some c → code_at n (s ++ t) ≡ some c
unfolding code_at
code_at-append n String.[] t h = cc
code_at-append zero (String.◌∷◌ x s) t h = rw cons-append h
code_at-append (suc n) (String.◌∷◌ x s) t h = rw cons-append (code_at-append n s t h)

-- Texts that differ in one place are different, behind any common prefix.
differ_at :
    (n : ℕ) (p s t : String) (a b : ℕ)
    → code_at n s ≡ some a
    → code_at n t ≡ some b
    → nat_eq a b ≡ false
    → (p ++ s == p ++ t) ≡ false
differ_at n p s t a b hs ht h = append-==_left p s t ∙ elim (Bool-cases (s == t)) [
  | inl e ↦ ground (arith, ap (code_at n) ((eq_iff s t).0 e))
  | inr m ↦ m
]

module _ (q : Config) where
  pub job_key-== : (a b : String) → (job_key q a == job_key q b) ≡ (a == b)
  unfolding job_key
  job_key-== a b =
      append-==_left q.queue_name (":job:" ++ a) (":job:" ++ b) ∙ append-==_left ":job:" a b

  pub idempotency_name-job_key : (a b : String) → (idempotency_name q a == job_key q b) ≡ false
  unfolding job_key idempotency_name code_at
  idempotency_name-job_key a b =
      differ_at 1 q.queue_name (":idempotency:" ++ a) (":job:" ++ b) b'i' b'j'
        (code_at-append 1 ":idempotency:" a refl) (code_at-append 1 ":job:" b refl) refl

  pub job_key-idempotency_name : (a b : String) → (job_key q a == idempotency_name q b) ≡ false
  unfolding job_key idempotency_name code_at
  job_key-idempotency_name a b =
      differ_at 1 q.queue_name (":job:" ++ a) (":idempotency:" ++ b) b'j' b'i'
        (code_at-append 1 ":job:" a refl) (code_at-append 1 ":idempotency:" b refl) refl

  pub pending_name-== : (m n : ℕ) → (pending_name q m == pending_name q n) ≡ nat_eq m n
  unfolding pending_name
  pending_name-== m n =
      append-==_left q.queue_name (":shard:" ++ str m) (":shard:" ++ str n)
      ∙ append-==_left ":shard:" (str m) (str n)
      ∙ ground (arith, eq_iff (str m) (str n), str_inj m n, λ (e : m ≡ n). ap str e)

  pub processing_name-pending_name : (n : ℕ) → (processing_name q == pending_name q n) ≡ false
  unfolding processing_name pending_name code_at
  processing_name-pending_name n =
      differ_at 1 q.queue_name ":processing" (":shard:" ++ str n) b'p' b's' refl
        (code_at-append 1 ":shard:" (str n) refl) refl

  pub pending_name-processing_name : (n : ℕ) → (pending_name q n == processing_name q) ≡ false
  unfolding processing_name pending_name code_at
  pending_name-processing_name n =
      differ_at 1 q.queue_name (":shard:" ++ str n) ":processing" b's' b'p'
        (code_at-append 1 ":shard:" (str n) refl) refl refl

  pub dead_name-pending_name : (n : ℕ) → (dead_name q == pending_name q n) ≡ false
  unfolding dead_name pending_name code_at
  dead_name-pending_name n =
      differ_at 1 q.queue_name ":dead" (":shard:" ++ str n) b'd' b's' refl
        (code_at-append 1 ":shard:" (str n) refl) refl

  pub dead_name-processing_name : (dead_name q == processing_name q) ≡ false
  unfolding dead_name processing_name code_at
  dead_name-processing_name =
      differ_at 1 q.queue_name ":dead" ":processing" b'd' b'p' refl refl refl

pub ruleset key_laws = (
  job_key-==, idempotency_name-job_key, pending_name-==, processing_name-pending_name,
  pending_name-processing_name, dead_name-pending_name, dead_name-processing_name,
)
