-- ===== src/Prelude/Decimal.antt =====
-- Numbers as text: Python's `str` and `int`, and Lua's `tonumber`, on the decimal numerals that
-- the program stores. (`to_int` of any other text is no meaningful number; none is stored.)
use Prim.Native.Nat.{ℕ, zero, suc, ◌+◌, ◌-◌, ◌*◌, ◌/◌, ◌%◌, ◌<◌}
use Prim.Native.Char.{Char, code}
use Prim.Native.String.{String, ◌++◌}
use mathlib.Core.Path.{◌≡◌, refl, ap, ◌∙◌, sym}
use native.Mathlib.Omega.{arith}
use text.Mathlib.TextLemmas.{nil-append, cons-append}
use mathlib.Core.Bool.{Bool, true, false, ◌&&◌, false≢true}
use text.Mathlib.Text.{◌==◌}
use text.Mathlib.TextEquality.{eq_iff}
use dalmatian.Prelude.Tests.{ltb, leb, if◌then◌else◌, Bool-cases}
use mathlib.Core.Logic.{inl, inr}

digit : ℕ → String
digit zero = "0"
digit (suc zero) = "1"
digit (suc (suc zero)) = "2"
digit (suc (suc (suc zero))) = "3"
digit (suc (suc (suc (suc zero)))) = "4"
digit (suc (suc (suc (suc (suc zero))))) = "5"
digit (suc (suc (suc (suc (suc (suc zero)))))) = "6"
digit (suc (suc (suc (suc (suc (suc (suc zero))))))) = "7"
digit (suc (suc (suc (suc (suc (suc (suc (suc zero)))))))) = "8"
digit _ = "9"

digits : ℕ → ℕ → String
digits zero n = ""
digits (suc fuel) n =
    let rest = digits fuel (n / 10) in if ltb n 10 then digit n else rest ++ digit (n % 10)

-- str(n)
unfoldable pub str : ℕ → String
unfolding digit digits
str n = digits (suc n) n

value : ℕ → String → ℕ
value acc String.[] = acc
value acc (String.◌∷◌ c s) = value (acc * 10 + (code c - 48)) s

-- int(s), tonumber(s)
unfoldable pub to_int : String → ℕ
unfolding value
to_int s = value 0 s

value-digit : (acc d : ℕ) → d < 10 → value acc (digit d) ≡ acc * 10 + d
unfolding value digit
value-digit acc zero h = omega arith
value-digit acc (suc zero) h = omega arith
value-digit acc (suc (suc zero)) h = omega arith
value-digit acc (suc (suc (suc zero))) h = omega arith
value-digit acc (suc (suc (suc (suc zero)))) h = omega arith
value-digit acc (suc (suc (suc (suc (suc zero))))) h = omega arith
value-digit acc (suc (suc (suc (suc (suc (suc zero)))))) h = omega arith
value-digit acc (suc (suc (suc (suc (suc (suc (suc zero))))))) h = omega arith
value-digit acc (suc (suc (suc (suc (suc (suc (suc (suc zero)))))))) h = omega arith
value-digit acc (suc (suc (suc (suc (suc (suc (suc (suc (suc zero))))))))) h = omega arith
value-digit acc (suc (suc (suc (suc (suc (suc (suc (suc (suc (suc d)))))))))) h =
    absurd (omega arith)

value-append : (acc : ℕ) (s t : String) → value acc (s ++ t) ≡ value (value acc s) t
unfolding value
value-append acc String.[] t = rw nil-append
value-append acc (String.◌∷◌ c s) t = rw cons-append (value-append (acc * 10 + (code c - 48)) s t)

value-digits : (fuel n : ℕ) → n < fuel → value 0 (digits fuel n) ≡ n
unfolding digits
value-digits zero n h = elim h [ ]
value-digits (suc fuel) n h = elim (Bool-cases (ltb n 10)) [
  | inl small ↦ rw small (value-digit 0 n (ground arith) ∙ omega arith)
  | inr large ↦ rw large (
      value-append 0 (digits fuel (n / 10)) (digit (n % 10))
      ∙ value-digit (value 0 (digits fuel (n / 10))) (n % 10) (omega arith)
      ∙ omega (arith, value-digits fuel (n / 10) (ground arith)))
]

-- Reading back a printed number gives the number.
pub to_int-str : (n : ℕ) → to_int (str n) ≡ n
unfolding to_int str
to_int-str n = value-digits (suc n) n (omega arith)

pub str_inj : (m n : ℕ) → str m ≡ str n → m ≡ n
str_inj m n e = sym (to_int-str m) ∙ ap to_int e ∙ to_int-str n

pub to_int_zero : to_int "0" ≡ 0
unfolding to_int value
to_int_zero = refl

str_1024 : str 1024 ≡ "1024"
unfolding str
str_1024 = refl

-- A digit, and a text of digits.
unfoldable pub is_digit : Char → Bool
is_digit c = leb b'0' (code c) && leb (code c) b'9'

unfoldable pub all_digits : String → Bool
unfolding is_digit
all_digits String.[] = true
all_digits (String.◌∷◌ c s) = is_digit c && all_digits s

all_digits-append :
    (s t : String) → all_digits s ≡ true → all_digits t ≡ true → all_digits (s ++ t) ≡ true
unfolding all_digits
all_digits-append String.[] t h k = rw nil-append k
all_digits-append (String.◌∷◌ c s) t h k = rw cons-append (ground (arith, all_digits-append s t))

all_digits-digit : (d : ℕ) → all_digits (digit d) ≡ true
unfolding all_digits digit
all_digits-digit zero = refl
all_digits-digit (suc zero) = refl
all_digits-digit (suc (suc zero)) = refl
all_digits-digit (suc (suc (suc zero))) = refl
all_digits-digit (suc (suc (suc (suc zero)))) = refl
all_digits-digit (suc (suc (suc (suc (suc zero))))) = refl
all_digits-digit (suc (suc (suc (suc (suc (suc zero)))))) = refl
all_digits-digit (suc (suc (suc (suc (suc (suc (suc zero))))))) = refl
all_digits-digit (suc (suc (suc (suc (suc (suc (suc (suc zero)))))))) = refl
all_digits-digit (suc (suc (suc (suc (suc (suc (suc (suc (suc d))))))))) = refl

all_digits-digits : (fuel n : ℕ) → all_digits (digits fuel n) ≡ true
unfolding digits all_digits
all_digits-digits zero n = refl
all_digits-digits (suc fuel) n = elim (Bool-cases (ltb n 10)) [
  | inl small ↦ rw small (all_digits-digit n)
  | inr large ↦ rw large (
      all_digits-append (digits fuel (n / 10)) (digit (n % 10)) (all_digits-digits fuel (n / 10))
        (all_digits-digit (n % 10)))
]

pub all_digits-str : (n : ℕ) → all_digits (str n) ≡ true
unfolding str
all_digits-str n = all_digits-digits (suc n) n

-- A text with a character.
unfoldable pub is_filled : String → Bool
is_filled String.[] = false
is_filled (String.◌∷◌ c s) = true

is_filled-append : (s t : String) → is_filled t ≡ true → is_filled (s ++ t) ≡ true
unfolding is_filled
is_filled-append String.[] t h = rw nil-append h
is_filled-append (String.◌∷◌ c s) t h = rw cons-append refl

is_filled-digit : (d : ℕ) → is_filled (digit d) ≡ true
unfolding is_filled digit
is_filled-digit zero = refl
is_filled-digit (suc zero) = refl
is_filled-digit (suc (suc zero)) = refl
is_filled-digit (suc (suc (suc zero))) = refl
is_filled-digit (suc (suc (suc (suc zero)))) = refl
is_filled-digit (suc (suc (suc (suc (suc zero))))) = refl
is_filled-digit (suc (suc (suc (suc (suc (suc zero)))))) = refl
is_filled-digit (suc (suc (suc (suc (suc (suc (suc zero))))))) = refl
is_filled-digit (suc (suc (suc (suc (suc (suc (suc (suc zero)))))))) = refl
is_filled-digit (suc (suc (suc (suc (suc (suc (suc (suc (suc d))))))))) = refl

pub is_filled-str : (n : ℕ) → is_filled (str n) ≡ true
unfolding str digits
is_filled-str n = elim (Bool-cases (ltb n 10)) [
  | inl small ↦ rw small (is_filled-digit n)
  | inr large ↦
      rw large (is_filled-append (digits n (n / 10)) (digit (n % 10)) (is_filled-digit (n % 10)))
]

pub filled-eq : (c : Char) (s : String) → (String.◌∷◌ c s == "") ≡ false
unfolding is_filled
filled-eq c s = elim (Bool-cases (String.◌∷◌ c s == "")) [
  | inl h ↦ elim (false≢true (sym (ap is_filled ((eq_iff (String.◌∷◌ c s) "").0 h)))) [ ]
  | inr h ↦ h
]
