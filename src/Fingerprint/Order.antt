-- ===== src/Fingerprint/Order.antt =====
-- The order of the sources does not reach the affinity key (src/dalmatian/fingerprint.py).
use Prim.Native.Nat.{Ordering, compare as compare_ℕ}
use Prim.Native.Char.{Char, code}
use Prim.Native.String.{compare}
use Prim.Native.String.compare
use text.Mathlib.TextEquality.{codes_equal}
use text.Mathlib.TextPositions.{compare_self}
use dalmatian.Prelude.{
  String, ◌≡◌, refl, sym, ap, ◌∙◌, subst, inl, inr, Bool, true, false, ◌||◌, ◌&&◌, List, [], ◌∷◌,
  ltb, nat_eq, Bool-cases, false≢true, if◌then◌else◌, arith, ◌==◌, eq_iff, map,
}
use mathlib.Core.Logic.{∥∥₁_elim, ∥∥₁_map, ∥∥₁_map₂}
use mathlib.Core.HLevel.{hedberg}
use mathlib.Core.List.{Mem, mem-cons_of_mem, mem-cons_self, Perm, Permᴰ}
use mathlib.Core.List.Permᴰ
use dalmatian.Models.{SourceSpec, QueryRequest}
use dalmatian.Fingerprint.{
  Hashing, hash, object, as_object, described, insert_source, sort_sources, dataset_affinity_key,
}

-- The order of texts, as a test.
less : String → String → Bool
less s String.[] = false
less String.[] (String.◌∷◌ d t) = true
less (String.◌∷◌ c s) (String.◌∷◌ d t) =
    let later = less s t in ltb (code c) (code d) || (nat_eq (code c) (code d) && later)

is_greater : Ordering → Bool
is_greater Ordering.gt = true
is_greater _ = false

compare-less : (s t : String) → is_greater (compare s t) ≡ less t s
unfolding less is_greater
compare-less String.[] String.[] = refl
compare-less String.[] (String.◌∷◌ d t) = rw (compare.nil-cons d t) refl
compare-less (String.◌∷◌ c s) String.[] = rw (compare.cons-nil c s) refl
compare-less (String.◌∷◌ c s) (String.◌∷◌ d t) =
    rw (compare.cons-cons c d s t) (ground (arith, compare-less s t))

less_asym : (s t : String) → less s t ≡ true → less t s ≡ false
unfolding less
less_asym String.[] String.[] h = refl
less_asym String.[] (String.◌∷◌ d t) h = refl
less_asym (String.◌∷◌ c s) String.[] h = cc
less_asym (String.◌∷◌ c s) (String.◌∷◌ d t) h = ground (arith, less_asym s t)

less_trans : (s t u : String) → less s t ≡ true → less t u ≡ true → less s u ≡ true
unfolding less
less_trans String.[] String.[] String.[] h k = cc
less_trans String.[] (String.◌∷◌ d t) String.[] h k = cc
less_trans String.[] t (String.◌∷◌ e u) h k = refl
less_trans (String.◌∷◌ c s) String.[] u h k = cc
less_trans (String.◌∷◌ c s) (String.◌∷◌ d t) String.[] h k = cc
less_trans (String.◌∷◌ c s) (String.◌∷◌ d t) (String.◌∷◌ e u) h k = ground (arith, less_trans s t u)

code_inj : (c d : Char) → code c ≡ code d → c ≡ d
code_inj c d h =
    codes_equal c d (subst (λ n. compare_ℕ (code c) n ≡ Ordering.eq) h (compare_self (code c)))

less_equal : (s t : String) → less s t ≡ false → less t s ≡ false → s ≡ t
unfolding less
less_equal String.[] String.[] h k = refl
less_equal String.[] (String.◌∷◌ d t) h k = cc
less_equal (String.◌∷◌ c s) String.[] h k = cc
less_equal (String.◌∷◌ c s) (String.◌∷◌ d t) h k =
    let heads = code_inj c d (ground arith) in
    let tails = less_equal s t (ground arith) (ground arith) in λ i. String.◌∷◌ (heads i) (tails i)

abbrev Sources : Type 0
Sources = List (String × SourceSpec)

by_greater :
    (o : Ordering) (a b : Sources)
    → elim o [ Ordering.gt ↦ b | _ ↦ a ] ≡ (if is_greater o then b else a)
unfolding is_greater
by_greater Ordering.lt a b = refl
by_greater Ordering.eq a b = refl
by_greater Ordering.gt a b = refl

-- Where a source goes, by the test.
module _ (x y : String × SourceSpec) (l : Sources) where
  insert_less :
      insert_source x (y ∷ l) ≡ (if less y.0 x.0 then y ∷ insert_source x l else x ∷ y ∷ l)
  unfolding insert_source
  insert_less =
      by_greater (compare x.0 y.0) (x ∷ y ∷ l) (y ∷ insert_source x l)
      ∙ ap (λ t. if t then y ∷ insert_source x l else x ∷ y ∷ l) (compare-less x.0 y.0)

  insert_after : less y.0 x.0 ≡ true → insert_source x (y ∷ l) ≡ y ∷ insert_source x l
  insert_after h = insert_less ∙ rw h refl

  insert_before : less y.0 x.0 ≡ false → insert_source x (y ∷ l) ≡ x ∷ y ∷ l
  insert_before h = insert_less ∙ rw h refl

insert_one : (x : String × SourceSpec) → insert_source x [] ≡ x ∷ []
unfolding insert_source
insert_one x = refl

not_below : (s t u : String) → less s t ≡ true → less u t ≡ false → less u s ≡ false
not_below s t u h k = elim (Bool-cases (less u s)) [
  | inl e ↦ elim (false≢true (sym k ∙ less_trans u s t e h)) [ ]
  | inr e ↦ e
]

insert_swap :
    (x y : String × SourceSpec) (l : Sources)
    → less x.0 y.0 ≡ true
    → insert_source x (insert_source y l) ≡ insert_source y (insert_source x l)
insert_swap x y [] h =
    ap (insert_source x) (insert_one y)
    ∙ insert_before x y [] (less_asym x.0 y.0 h)
    ∙ sym (
        ap (insert_source y) (insert_one x)
        ∙ insert_after y x [] h
        ∙ ap (List.◌∷◌ x) (insert_one y))
insert_swap x y (z ∷ l) h = elim (Bool-cases (less z.0 y.0)) [
  | inr above ↦
      ap (insert_source x) (insert_before y z l above)
      ∙ insert_before x y (z ∷ l) (less_asym x.0 y.0 h)
      ∙ sym (
          ap (insert_source y) (insert_before x z l (not_below x.0 y.0 z.0 h above))
          ∙ insert_after y x (z ∷ l) h
          ∙ ap (List.◌∷◌ x) (insert_before y z l above))
  | inl below ↦ elim (Bool-cases (less z.0 x.0)) [
    | inl first ↦
        ap (insert_source x) (insert_after y z l below)
        ∙ insert_after x z (insert_source y l) first
        ∙ ap (List.◌∷◌ z) (insert_swap x y l h)
        ∙ sym (
            ap (insert_source y) (insert_after x z l first)
            ∙ insert_after y z (insert_source x l) below)
    | inr between ↦
        ap (insert_source x) (insert_after y z l below)
        ∙ insert_before x z (insert_source y l) between
        ∙ sym (
            ap (insert_source y) (insert_before x z l between)
            ∙ insert_after y x (z ∷ l) h
            ∙ ap (List.◌∷◌ x) (insert_after y z l below))
  ]
]

-- Two entries of one name are one entry, as in a dictionary.
unfoldable pub IsDictionary : Sources → Type 0
IsDictionary l = (x y : String × SourceSpec) → Mem x l → Mem y l → x.0 ≡ y.0 → ∥ x ≡ y ∥₁

insert_comm :
    (x y : String × SourceSpec) (l : Sources)
    → (x.0 ≡ y.0 → ∥ x ≡ y ∥₁)
    → ∥ insert_source x (insert_source y l) ≡ insert_source y (insert_source x l) ∥₁
insert_comm x y l same = elim (Bool-cases (less x.0 y.0)) [
  | inl h ↦ ∣ insert_swap x y l h ∣₁
  | inr h ↦ elim (Bool-cases (less y.0 x.0)) [
    | inl k ↦ ∣ sym (insert_swap y x l k) ∣₁
    | inr k ↦ ∥∥₁_map (same (less_equal x.0 y.0 h k)) (λ e.
        ap (λ z. insert_source z (insert_source y l)) e
        ∙ sym (ap (λ z. insert_source y (insert_source z l)) e))
  ]
]

Mem_tail : (a : String × SourceSpec) (l : Sources) → IsDictionary (a ∷ l) → IsDictionary l
unfolding IsDictionary
Mem_tail a l d x y in_x in_y = d x y (mem-cons_of_mem a in_x) (mem-cons_of_mem a in_y)

Perm-IsDictionary : (l m : Sources) → Permᴰ l m → IsDictionary l → IsDictionary m
unfolding IsDictionary
Perm-IsDictionary l m p d x y in_x in_y =
    d x y (Permᴰ.mem (Permᴰ.symm p) in_x) (Permᴰ.mem (Permᴰ.symm p) in_y)

sort_alike : (l m : Sources) → Permᴰ l m → IsDictionary l → ∥ sort_sources l ≡ sort_sources m ∥₁
unfolding sort_sources IsDictionary
sort_alike [] [] Permᴰ.nil d = ∣ refl ∣₁
sort_alike (a ∷ l) (b ∷ m) (Permᴰ.cons e p) d =
    ∥∥₁_map (sort_alike l m p (Mem_tail a l d))
      (λ h. ap (λ x. insert_source x (sort_sources l)) e ∙ ap (insert_source b) h)
sort_alike (a ∷ b ∷ l) (c ∷ e ∷ l') (Permᴰ.swap same_a same_b) d =
    ∥∥₁_map
      (insert_comm a b (sort_sources l) (d a b mem-cons_self (mem-cons_of_mem a mem-cons_self)))
      (λ h.
        h
        ∙ ap (λ z. insert_source b (insert_source z (sort_sources l))) same_a
        ∙ ap (λ z. insert_source z (insert_source e (sort_sources l))) same_b)
sort_alike l m (Permᴰ.trans {l₂ = k} p q) d =
    ∥∥₁_map₂ (sort_alike l k p d) (sort_alike k m q (Perm-IsDictionary l k p d)) (λ h h'. h ∙ h')

String_set : (s t : String) → IsProp (s ≡ t)
String_set = hedberg (λ s t. elim (Bool-cases (s == t)) [
  | inl h ↦ Dec.yes ((eq_iff s t).0 h)
  | inr h ↦ Dec.no (λ e. false≢true (sym h ∙ (eq_iff s t).1 e))
])

-- Two requests whose dictionaries of sources have the same entries, in whatever order, have the same
-- affinity key.
pub dataset_affinity_key-Perm :
    ⦃H : Hashing⦄ (r s : QueryRequest)
    → IsDictionary r.sources
    → Perm r.sources s.sources
    → dataset_affinity_key r ≡ dataset_affinity_key s
unfolding dataset_affinity_key
dataset_affinity_key-Perm r s d p = ∥∥₁_elim p (String_set _ _) (λ q.
    ∥∥₁_elim (sort_alike r.sources s.sources q d) (String_set _ _)
      (ap (λ l. hash (object (as_object (map described l))))))
