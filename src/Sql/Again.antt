-- ===== src/Sql/Again.antt =====
-- The characters of a text that is stripped and has its white space joined (src/dalmatian/sql.py).
use Prim.Native.Char.{Char}
use Prim.Native.String.{String}
use dalmatian.Prelude.{◌≡◌, inl, inr, Bool-cases, refl, sym, ap, ◌∙◌, Bool, true, false, arith}
use dalmatian.Sql.Blanks.{is_nil, lstrip_by, rstrip_by, strip_by, starts_by, holds_char, collapse}

module _ (p : Char → Bool) where
  lstrip_again : (s : String) → lstrip_by p (lstrip_by p s) ≡ lstrip_by p s
  unfolding lstrip_by
  lstrip_again String.[] = refl
  lstrip_again (String.◌∷◌ c s) = ground (arith, lstrip_again s)

  rstrip_again : (s : String) → rstrip_by p (rstrip_by p s) ≡ rstrip_by p s
  unfolding rstrip_by is_nil
  rstrip_again String.[] = refl
  rstrip_again (String.◌∷◌ c s) = ground (arith, rstrip_again s)

  -- A text that does not begin with such a character.
  pub lstrip_rstrip :
      (s : String) → starts_by p s ≡ false → lstrip_by p (rstrip_by p s) ≡ rstrip_by p s
  unfolding starts_by lstrip_by rstrip_by is_nil
  lstrip_rstrip String.[] h = refl
  lstrip_rstrip (String.◌∷◌ c s) h = ground arith

  pub starts-lstrip : (s : String) → starts_by p (lstrip_by p s) ≡ false
  unfolding starts_by lstrip_by
  starts-lstrip String.[] = refl
  starts-lstrip (String.◌∷◌ c s) = ground (arith, starts-lstrip s)

  strip_again : (s : String) → strip_by p (strip_by p s) ≡ strip_by p s
  unfolding strip_by
  strip_again s =
      ap (rstrip_by p) (lstrip_rstrip (lstrip_by p s) (starts-lstrip s))
      ∙ rstrip_again (lstrip_by p s)

  pub rstrip_strip : (s : String) → rstrip_by p (strip_by p s) ≡ strip_by p s
  unfolding strip_by
  rstrip_strip s = rstrip_again (lstrip_by p s)

  -- A text without such a character.
  pub rstrip_without : (s : String) → holds_char p s ≡ false → rstrip_by p s ≡ s
  unfolding holds_char rstrip_by is_nil
  rstrip_without String.[] h = refl
  rstrip_without (String.◌∷◌ c s) h = ground (arith, rstrip_without s)

module _ (p : Char → Bool) (c : Char) (s : String) where
  pub collapse_joined :
      p c ≡ true → starts_by p s ≡ true → collapse p (String.◌∷◌ c s) ≡ collapse p s
  unfolding collapse
  collapse_joined h k = ground arith

  pub collapse_ended :
      p c ≡ true
      → starts_by p s ≡ false
      → collapse p (String.◌∷◌ c s) ≡ String.◌∷◌ " " (collapse p s)
  unfolding collapse
  collapse_ended h k = ground arith

  pub collapse_kept : p c ≡ false → collapse p (String.◌∷◌ c s) ≡ String.◌∷◌ c (collapse p s)
  unfolding collapse
  collapse_kept h = ground arith

  rstrip_cut : p c ≡ true → is_nil (rstrip_by p s) ≡ true → rstrip_by p (String.◌∷◌ c s) ≡ String.[]
  unfolding rstrip_by
  rstrip_cut h k = ground arith

  rstrip_inner :
      is_nil (rstrip_by p s) ≡ false → rstrip_by p (String.◌∷◌ c s) ≡ String.◌∷◌ c (rstrip_by p s)
  unfolding rstrip_by
  rstrip_inner h = ground arith

  rstrip_kept : p c ≡ false → rstrip_by p (String.◌∷◌ c s) ≡ String.◌∷◌ c (rstrip_by p s)
  unfolding rstrip_by
  rstrip_kept h = ground arith

module _ (p : Char → Bool) (blank : p " " ≡ true) where
  pub lstrip-collapse : (s : String) → lstrip_by p (collapse p s) ≡ collapse p (lstrip_by p s)
  unfolding lstrip_by collapse starts_by
  lstrip-collapse String.[] = refl
  lstrip-collapse (String.◌∷◌ c s) = ground (arith, blank, lstrip-collapse s)

  starts-collapse : (s : String) → starts_by p (collapse p s) ≡ starts_by p s
  unfolding starts_by collapse
  starts-collapse String.[] = refl
  starts-collapse (String.◌∷◌ c s) = elim (Bool-cases (p c)) [
    | inl h ↦ elim (Bool-cases (starts_by p s)) [
      | inl k ↦ ap (starts_by p) (collapse_joined p c s h k) ∙ starts-collapse s ∙ k ∙ sym h
      | inr k ↦ ap (starts_by p) (collapse_ended p c s h k) ∙ blank ∙ sym h
    ]
    | inr h ↦ ap (starts_by p) (collapse_kept p c s h)
  ]

  pub collapse_again : (s : String) → collapse p (collapse p s) ≡ collapse p s
  unfolding collapse
  collapse_again String.[] = refl
  collapse_again (String.◌∷◌ c s) = elim (Bool-cases (p c)) [
    | inl h ↦ elim (Bool-cases (starts_by p s)) [
      | inl k ↦ rw (collapse_joined p c s h k) (collapse_again s)
      | inr k ↦ rw (collapse_ended p c s h k) (
          collapse_ended p " " (collapse p s) blank (starts-collapse s ∙ k)
          ∙ ap (String.◌∷◌ " ") (collapse_again s))
    ]
    | inr h ↦
        rw (collapse_kept p c s h)
          (collapse_kept p c (collapse p s) h ∙ ap (String.◌∷◌ c) (collapse_again s))
  ]

  starts_nil : (s : String) → starts_by p s ≡ true → is_nil s ≡ false
  unfolding starts_by is_nil
  starts_nil String.[] h = cc
  starts_nil (String.◌∷◌ c s) h = refl

  pub nil-collapse : (s : String) → is_nil (collapse p s) ≡ is_nil s
  unfolding is_nil collapse
  nil-collapse String.[] = refl
  nil-collapse (String.◌∷◌ c s) = elim (Bool-cases (p c)) [
    | inl h ↦ elim (Bool-cases (starts_by p s)) [
      | inl k ↦ ap is_nil (collapse_joined p c s h k) ∙ nil-collapse s ∙ starts_nil s k
      | inr k ↦ ap is_nil (collapse_ended p c s h k)
    ]
    | inr h ↦ ap is_nil (collapse_kept p c s h)
  ]

  nil_equal : (s : String) → is_nil s ≡ true → s ≡ String.[]
  unfolding is_nil
  nil_equal String.[] h = refl
  nil_equal (String.◌∷◌ c s) h = cc

  starts-rstrip :
      (s : String) → is_nil (rstrip_by p s) ≡ false → starts_by p (rstrip_by p s) ≡ starts_by p s
  unfolding rstrip_by starts_by is_nil
  starts-rstrip String.[] h = cc
  starts-rstrip (String.◌∷◌ c s) h = ground arith

  pub rstrip-collapse : (s : String) → rstrip_by p (collapse p s) ≡ collapse p (rstrip_by p s)
  unfolding collapse rstrip_by
  rstrip-collapse String.[] = refl
  rstrip-collapse (String.◌∷◌ c s) = elim (Bool-cases (p c)) [
    | inl h ↦ elim (Bool-cases (is_nil (rstrip_by p s))) [
      | inl e ↦ elim (Bool-cases (starts_by p s)) [
        | inl k ↦ rw (collapse_joined p c s h k) (
            rw (rstrip_cut p c s h e)
              (rstrip-collapse s ∙ ap (collapse p) (nil_equal (rstrip_by p s) e)))
        | inr k ↦ rw (collapse_ended p c s h k) (
            rw (rstrip_cut p c s h e) (
              rstrip_cut p " " (collapse p s) blank
                (ap is_nil (rstrip-collapse s) ∙ nil-collapse (rstrip_by p s) ∙ e)))
      ]
      | inr e ↦ elim (Bool-cases (starts_by p s)) [
        | inl k ↦ rw (collapse_joined p c s h k) (
            rw (rstrip_inner p c s e) (
              rstrip-collapse s
              ∙ sym (collapse_joined p c (rstrip_by p s) h (starts-rstrip s e ∙ k))))
        | inr k ↦ rw (collapse_ended p c s h k) (
            rw (rstrip_inner p c s e) (
              rstrip_inner p " " (collapse p s)
                (ap is_nil (rstrip-collapse s) ∙ nil-collapse (rstrip_by p s) ∙ e)
              ∙ ap (String.◌∷◌ " ") (rstrip-collapse s)
              ∙ sym (collapse_ended p c (rstrip_by p s) h (starts-rstrip s e ∙ k))))
      ]
    ]
    | inr h ↦ rw (collapse_kept p c s h) (
        rw (rstrip_kept p c s h) (
          rstrip_kept p c (collapse p s) h
          ∙ ap (String.◌∷◌ c) (rstrip-collapse s)
          ∙ sym (collapse_kept p c (rstrip_by p s) h)))
  ]

  pub strip-collapse :
      (s : String) → strip_by p (collapse p (strip_by p s)) ≡ collapse p (strip_by p s)
  unfolding strip_by
  strip-collapse s =
      ap (rstrip_by p) (
        lstrip-collapse (strip_by p s)
        ∙ ap (collapse p) (lstrip_rstrip p (lstrip_by p s) (starts-lstrip p s)))
      ∙ rstrip-collapse (strip_by p s)
      ∙ ap (collapse p) (rstrip_strip p s)
