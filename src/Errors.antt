-- ===== src/Errors.antt =====
-- src/dalmatian/errors.py: the exceptions, with the built-in classes that the code tests for.
use dalmatian.Prelude.{ℕ, String, Bool, false, ◌||◌, List, [], ◌∷◌, nat_eq}

pub data ErrorClass : Type 0 where
  dalmatian_error query_rejected busy_error query_cancelled query_timeout commit_fenced : ErrorClass
  idempotency_conflict metadata_schema_error retryable_query_error : ErrorClass
  value_error file_exists_error os_error connection_error other_error : ErrorClass

-- A number for each class, to compare them by.
unfoldable pub class_number : ErrorClass → ℕ
class_number dalmatian_error = 0
class_number query_rejected = 1
class_number busy_error = 2
class_number query_cancelled = 3
class_number query_timeout = 4
class_number commit_fenced = 5
class_number idempotency_conflict = 6
class_number metadata_schema_error = 7
class_number retryable_query_error = 8
class_number value_error = 9
class_number file_exists_error = 10
class_number os_error = 11
class_number connection_error = 12
class_number other_error = 13

-- A class and the classes that it inherits from, the nearest first (Python's resolution order).
unfoldable pub ancestors : ErrorClass → List ErrorClass
ancestors dalmatian_error = dalmatian_error ∷ []
ancestors query_rejected = query_rejected ∷ dalmatian_error ∷ value_error ∷ []
ancestors busy_error = busy_error ∷ dalmatian_error ∷ []
ancestors query_cancelled = query_cancelled ∷ dalmatian_error ∷ []
ancestors query_timeout = query_timeout ∷ query_cancelled ∷ dalmatian_error ∷ []
ancestors commit_fenced = commit_fenced ∷ dalmatian_error ∷ []
ancestors idempotency_conflict = idempotency_conflict ∷ dalmatian_error ∷ []
ancestors metadata_schema_error = metadata_schema_error ∷ dalmatian_error ∷ []
ancestors retryable_query_error = retryable_query_error ∷ dalmatian_error ∷ []
ancestors value_error = value_error ∷ []
ancestors file_exists_error = file_exists_error ∷ os_error ∷ []
ancestors os_error = os_error ∷ []
ancestors connection_error = connection_error ∷ os_error ∷ []
ancestors other_error = other_error ∷ []

pub one_of : ErrorClass → List ErrorClass → Bool
one_of c [] = false
one_of c (d ∷ ds) = nat_eq (class_number c) (class_number d) || one_of c ds

-- isinstance(exc, c)
unfoldable pub isinstance : ErrorClass → ErrorClass → Bool
unfolding one_of class_number ancestors
isinstance e c = one_of c (ancestors e)

-- isinstance(exc, (c, …))
unfoldable pub isinstance_any : ErrorClass → List ErrorClass → Bool
isinstance_any e [] = false
isinstance_any e (c ∷ cs) = isinstance e c || isinstance_any e cs

-- An exception: its class, type(exc).__name__ and str(exc).
pub record Raised : Type 0 where
  pub error_class : ErrorClass
  pub class_name : String
  pub message : String

-- Python's calls end in a value or an exception.
pub data Result {ℓ} (A : Type ℓ) : Type ℓ where
  ok : A → Result A
  err : Raised → Result A

infixl 5 ◌>>=◌
abbrev pub ◌>>=◌ {ℓ κ} : {A : Type ℓ} {B : Type κ} → Result A → (A → Result B) → Result B
ok a >>= f = f a
err e >>= f = err e
