-- ===== src/Sql/Collapsed.antt =====
-- What joining the white space of a text keeps: its tokens, its marks and the checks (src/dalmatian/sql.py).
use Prim.Native.Char.{Char}
use Prim.Native.String.{String}
use dalmatian.Prelude.{
  ◌≡◌, inl, inr, Bool-cases, refl, sym, ap, ◌∙◌, Bool, true, false, List, [], ◌∷◌, arith,
}
use dalmatian.Errors.{ok}
use dalmatian.Sql.Tokens.{
  TextRules, Token, word, space, mark, add_space, tokens, is_reading, is_char,
}
use dalmatian.Sql.Blanks.{is_nil, starts_by, holds_char, collapse}
use dalmatian.Sql.Fallback.{is_semicolon, check_names}
use dalmatian.Sql.Again.{collapse_joined, collapse_ended, collapse_kept}

add_space_again : (ts : List Token) → add_space (add_space ts) ≡ add_space ts
unfolding add_space
add_space_again [] = refl
add_space_again (space ∷ ts) = refl
add_space_again (word w ∷ ts) = refl
add_space_again (mark c ∷ ts) = refl

pub check_names_result :
    (allowed raws : List String) (s text : String) → check_names allowed raws s ≡ ok text → s ≡ text
unfolding check_names
check_names_result allowed [] s text h = ground arith
check_names_result allowed (raw ∷ more) s text h =
    ground (arith, check_names_result allowed more s text)

pub check_names_other :
    (allowed raws : List String) (s text other : String)
    → check_names allowed raws s ≡ ok text
    → check_names allowed raws other ≡ ok other
unfolding check_names
check_names_other allowed [] s text other h = refl
check_names_other allowed (raw ∷ more) s text other h =
    ground (arith, check_names_other allowed more s text other)

module _ (p q : Char → Bool) (blank : q " " ≡ false) where
  holds_later :
      (c : Char) (s : String) → holds_char q (String.◌∷◌ c s) ≡ false → holds_char q s ≡ false
  unfolding holds_char
  holds_later c s h = ground arith

  holds_with :
      (c : Char) (s t : String)
      → holds_char q (String.◌∷◌ c s) ≡ false
      → holds_char q t ≡ false
      → holds_char q (String.◌∷◌ c t) ≡ false
  unfolding holds_char
  holds_with c s t h k = ground arith

  holds_blank : (s : String) → holds_char q s ≡ false → holds_char q (String.◌∷◌ " " s) ≡ false
  unfolding holds_char
  holds_blank s h = ground (arith, blank)

  pub holds-collapse : (s : String) → holds_char q s ≡ false → holds_char q (collapse p s) ≡ false
  unfolding collapse
  holds-collapse String.[] h = h
  holds-collapse (String.◌∷◌ c s) h =
      let again = holds-collapse s (holds_later c s h) in
      elim (Bool-cases (p c)) [
        | inl e ↦ elim (Bool-cases (starts_by p s)) [
          | inl k ↦ ap (holds_char q) (collapse_joined p c s e k) ∙ again
          | inr k ↦ ap (holds_char q) (collapse_ended p c s e k) ∙ holds_blank (collapse p s) again
        ]
        | inr e ↦ ap (holds_char q) (collapse_kept p c s e) ∙ holds_with c s (collapse p s) h again
      ]

pub blank_other : is_semicolon " " ≡ false
unfolding is_char
blank_other = refl

module _ (rules : TextRules) where
  tokens_spaced :
      (c : Char) (s : String)
      → rules.is_space c ≡ true
      → tokens rules (String.◌∷◌ c s) ≡ add_space (tokens rules s)
  unfolding tokens
  tokens_spaced c s h = ground arith

  add_space-tokens :
      (s : String) → starts_by rules.is_space s ≡ true → add_space (tokens rules s) ≡ tokens rules s
  unfolding starts_by
  add_space-tokens String.[] h = cc
  add_space-tokens (String.◌∷◌ c s) h = rw (tokens_spaced c s h) (add_space_again (tokens rules s))

  tokens_after :
      (c : Char) (s t : String)
      → tokens rules s ≡ tokens rules t
      → tokens rules (String.◌∷◌ c s) ≡ tokens rules (String.◌∷◌ c t)
  unfolding tokens
  tokens_after c s t h = rw h refl

  pub tokens-collapse : (s : String) → tokens rules (collapse rules.is_space s) ≡ tokens rules s
  unfolding collapse
  tokens-collapse String.[] = refl
  tokens-collapse (String.◌∷◌ c s) =
      let again = tokens-collapse s in
      elim (Bool-cases (rules.is_space c)) [
        | inl h ↦ elim (Bool-cases (starts_by rules.is_space s)) [
          | inl k ↦
              ap (tokens rules) (collapse_joined rules.is_space c s h k)
              ∙ again
              ∙ sym (add_space-tokens s k)
              ∙ sym (tokens_spaced c s h)
          | inr k ↦
              ap (tokens rules) (collapse_ended rules.is_space c s h k)
              ∙ tokens_spaced " " (collapse rules.is_space s) rules.blank_is_space
              ∙ ap add_space again
              ∙ sym (tokens_spaced c s h)
        ]
        | inr h ↦
            ap (tokens rules) (collapse_kept rules.is_space c s h)
            ∙ tokens_after c (collapse rules.is_space s) s again
      ]

  pub reading_not_nil : (s : String) → is_reading rules (tokens rules s) ≡ true → is_nil s ≡ false
  unfolding tokens is_reading is_nil
  reading_not_nil String.[] h = cc
  reading_not_nil (String.◌∷◌ c s) h = refl
