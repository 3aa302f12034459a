-- ===== src/Examples/Fingerprint.antt =====
-- The affinity key at a concrete input (src/dalmatian/fingerprint.py).
use dalmatian.Prelude.{
  String, ◌≡◌, sym, ap, ◌∙◌, inl, inr, false, false≢true, none, List, [], ◌∷◌, eq_iff,
}
use mathlib.Core.Logic.{∥∥₁_elim, ∥∥₁_prop}
use mathlib.Core.HLevel.{⊥_prop}
use mathlib.Core.List.{Mem, not-mem-nil, eq-or-mem_of_mem-cons}
use mathlib.Core.List.Perm
use dalmatian.Models.{SourceSpec, QueryRequest, DataFormat}
use dalmatian.Fingerprint.{dataset_affinity_key}
use dalmatian.Fingerprint.Order.{IsDictionary, dataset_affinity_key-Perm}
use dalmatian.Examples.Methods.{hashing, request}

abbrev csv_at : String → SourceSpec
csv_at path = record {
  path = path;
  format = DataFormat.csv;
  location = none;
  options = [];
  version = none;
  schema_definition = none;
  infer_schema = false;
}

abbrev orders : String × SourceSpec
orders = ("orders", csv_at "orders.csv")

abbrev people : String × SourceSpec
people = ("people", csv_at "people.csv")

abbrev one_way : QueryRequest
one_way = record request { sources = orders ∷ people ∷ [] }

abbrev other_way : QueryRequest
other_way = record request { sources = people ∷ orders ∷ [] }

nil-IsDictionary : IsDictionary []
unfolding IsDictionary
nil-IsDictionary x y in_x in_y e = elim (not-mem-nil in_x) [ ]

cons-IsDictionary :
    (a : String × SourceSpec) (l : List (String × SourceSpec))
    → IsDictionary l
    → ((y : String × SourceSpec) → Mem y l → a.0 ≡ y.0 → ⊥)
    → IsDictionary (a ∷ l)
unfolding IsDictionary
cons-IsDictionary a l d other x y in_x in_y e =
    ∥∥₁_elim (eq-or-mem_of_mem-cons in_x) ∥∥₁_prop (λ x_at.
      ∥∥₁_elim (eq-or-mem_of_mem-cons in_y) ∥∥₁_prop (λ y_at. elim x_at [
        | inl x_a ↦ elim y_at [
          | inl y_a ↦ ∣ x_a ∙ sym y_a ∣₁
          | inr y_l ↦ elim (other y y_l (sym (ap (λ z. z.0) x_a) ∙ e)) [ ]
        ]
        | inr x_l ↦ elim y_at [
          | inl y_a ↦ elim (other x x_l (sym (e ∙ ap (λ z. z.0) y_a))) [ ]
          | inr y_l ↦ d x y x_l y_l e
        ]
      ]))

orders_alone : (y : String × SourceSpec) → Mem y (people ∷ []) → orders.0 ≡ y.0 → ⊥
orders_alone y in_y e = ∥∥₁_elim (eq-or-mem_of_mem-cons in_y) ⊥_prop (λ at. elim at [
  | inl y_p ↦ false≢true ((eq_iff "orders" "people").1 (e ∙ ap (λ z. z.0) y_p))
  | inr y_n ↦ not-mem-nil y_n
])

one_way-IsDictionary : IsDictionary one_way.sources
one_way-IsDictionary =
    cons-IsDictionary orders (people ∷ [])
      (cons-IsDictionary people [] nil-IsDictionary (λ y in_y e. not-mem-nil in_y)) orders_alone

dataset_affinity_key-Perm_example : dataset_affinity_key one_way ≡ dataset_affinity_key other_way
dataset_affinity_key-Perm_example =
    dataset_affinity_key-Perm one_way other_way one_way-IsDictionary (Perm.swap people orders [])
