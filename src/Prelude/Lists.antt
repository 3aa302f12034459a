-- ===== src/Prelude/Lists.antt =====
-- Lists of texts, as Valkey's list commands see them, and lengths in native numbers.
use Prim.Native.Nat.{ℕ, zero, suc, ◌+◌, ◌-◌, ◌<◌}
use Prim.Native.String.{String}
use mathlib.Core.Path.{◌≡◌, refl}
use mathlib.Core.Bool.{Bool, true, false, ◌||◌}
use mathlib.Core.List.{List, [], ◌∷◌, ◌++◌}
use native.Mathlib.Omega.{arith}
use text.Mathlib.Text.{◌==◌}
use text.Mathlib.TextEquality.{eq_iff}
use dalmatian.Prelude.Tests.{if◌then◌else◌}

module _ {ℓ} {A : Type ℓ} where
  abbrev pub length : List A → ℕ
  length [] = 0
  length (x ∷ xs) = suc (length xs)

  abbrev pub take : ℕ → List A → List A
  take zero xs = []
  take (suc n) [] = []
  take (suc n) (x ∷ xs) = x ∷ take n xs

  pub length-append : (xs ys : List A) → length (xs ++ ys) ≡ length xs + length ys
  length-append [] ys = omega arith
  length-append (x ∷ xs) ys = omega (arith, length-append xs ys)

-- How often a text stands in a list.
unfoldable pub count : String → List String → ℕ
count x [] = 0
count x (y ∷ ys) = (if y == x then 1 else 0) + count x ys

unfoldable pub contains : List String → String → Bool
contains [] x = false
contains (y ∷ ys) x = y == x || contains ys x

-- The list without the first `x` that stands in it.
unfoldable pub remove_first : String → List String → List String
remove_first x [] = []
remove_first x (y ∷ ys) = let rest = y ∷ remove_first x ys in if y == x then ys else rest

-- Removing one entry takes one away from its own count, and none from another's.
pub count-remove_first :
    (i j : String) (xs : List String)
    → count i (remove_first j xs) ≡ (if j == i then count i xs - 1 else count i xs)
unfolding count remove_first
count-remove_first i j [] = ground arith
count-remove_first i j (x ∷ xs) =
    ground (arith, count-remove_first i j xs, eq_iff x j, eq_iff x i, eq_iff j i)

pub contains-count : (xs : List String) (i : String) → contains xs i ≡ true → 0 < count i xs
unfolding contains count
contains-count [] i h = cc
contains-count (x ∷ xs) i h = ground (arith, contains-count xs i)

pub count-cons :
    (i x : String) (xs : List String) → count i (x ∷ xs) ≡ (if x == i then 1 else 0) + count i xs
unfolding count
count-cons i x xs = refl
