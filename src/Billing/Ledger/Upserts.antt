-- ===== src/Billing/Ledger/Upserts.antt =====
-- src/db/billing.rs: what an upsert makes of a row, and sums of rows.
use text.Mathlib.TextEquality.{eq_iff}
use clewdr_hub.Common.{
  ◌≡◌, refl, ◌↔◌, Bool, true, false, Option, none, some, List, [], ◌∷◌, ◌++◌, if◌then◌else◌,
  if_same, arith, inl, inr, sym, ◌∙◌, not_both, Bool-cases, ==_iff, ℤ,
}
use clewdr_hub.Billing.Ledger.{
  Totals, find_row, add_totals, upsert, delete_row, period_key_eq, user_eq,
}

-- A test that decides equality.
abbrev pub Decides : {K : Type 0} → (K → K → Bool) → Type 0
Decides {K} eq = (a b : K) → (eq a b ≡ true) ↔ (a ≡ b)

pub user_eq-Decides : Decides user_eq
unfolding user_eq
user_eq-Decides = ==_iff

pub period_key_eq-Decides : Decides period_key_eq
unfolding period_key_eq
period_key_eq-Decides a b =
    ground (arith, eq_iff a.period_type b.period_type, eq_iff a.period_start b.period_start)

other_key :
    {K : Type 0} (eq : K → K → Bool) (i j k : K)
    → Decides eq
    → eq i j ≡ false
    → eq i k ≡ true
    → eq j k ≡ false
other_key eq i j k d e f = elim (Bool-cases (eq j k)) [
  | inl g ↦ absurd (not_both (eq i j) ((d i j).1 ((d i k).0 f ∙ sym ((d j k).0 g))) e)
  | inr g ↦ g
]

module _ (plus : ℤ → ℤ → ℤ) where
  -- A row with one more request; a missing row is inserted.
  abbrev pub add_to : Option Totals → Totals → Option Totals
  add_to none t = some t
  add_to (some u) t = some (add_totals plus u t)

  -- Several requests, in order.
  unfoldable pub add_all : Option Totals → List Totals → Option Totals
  add_all o [] = o
  add_all o (t ∷ ts) = add_all (add_to o t) ts

  pub add_all-append :
      (o : Option Totals) (ts us : List Totals) → add_all o (ts ++ us) ≡ add_all (add_all o ts) us
  unfolding add_all
  add_all-append o [] us = refl
  add_all-append o (t ∷ ts) us = add_all-append (add_to o t) ts us

  pub find_row-upsert :
      {K : Type 0} (eq : K → K → Bool) (k j : K) (t : Totals) (rows : List (K × Totals))
      → Decides eq
      → find_row eq k (upsert plus eq j t rows)
        ≡ (if eq j k then add_to (find_row eq k rows) t else find_row eq k rows)
  unfolding find_row upsert
  find_row-upsert eq k j t [] d = elim (Bool-cases (eq j k)) [ inl e ↦ rw e | inr e ↦ rw e ]
  find_row-upsert eq k j t ((i, u) ∷ rows) d = elim (Bool-cases (eq i j)) [
    | inl e ↦
        rw (e, (d i j).0 e) (elim (Bool-cases (eq j k)) [ inl g ↦ rw g refl | inr g ↦ rw g refl ])
    | inr e ↦ elim (Bool-cases (eq i k)) [
      | inl f ↦ rw (e, f, find_row, other_key eq i j k d e f)
      | inr f ↦ rw (e, f, find_row, find_row-upsert eq k j t rows d)
    ]
  ]

pub find_row-delete_row :
    {K : Type 0} (eq : K → K → Bool) (k j : K) (rows : List (K × Totals))
    → Decides eq
    → find_row eq k (delete_row eq j rows) ≡ (if eq j k then none else find_row eq k rows)
unfolding find_row delete_row
find_row-delete_row eq k j [] d = sym (if_same (eq j k) none)
find_row-delete_row eq k j ((i, u) ∷ rows) d = elim (Bool-cases (eq i j)) [
  | inl e ↦
      rw (e, find_row-delete_row eq k j rows d, (d i j).0 e)
        (elim (Bool-cases (eq j k)) [ inl g ↦ rw g refl | inr g ↦ rw g refl ])
  | inr e ↦ elim (Bool-cases (eq i k)) [
    | inl f ↦ rw (e, f, find_row, other_key eq i j k d e f)
    | inr f ↦ rw (e, f, find_row, find_row-delete_row eq k j rows d)
  ]
]
