-- ===== src/Json/Laws.antt =====
-- The entries of an object and the elements of an array, after a write.
use text.Mathlib.Text.{◌==◌ as str_eq}
use text.Mathlib.TextEquality.{eq_iff}
use clewdr_hub.Common.{
  suc, ◌≡◌, refl, sym, ap, ◌∙◌, String, true, false, some, if◌then◌else◌, Bool-cases, inl, inr,
}
use clewdr_hub.Json.{
  Json, Items, nil, cons, Fields, end, field, get_field, insert_field, count_items, get_item,
  set_item, push_item,
}

pub str_eq_refl : (k : String) → str_eq k k ≡ true
str_eq_refl k = (eq_iff k k).1 refl

pub get_field-insert_field :
    (k : String) (v : Json) (fs : Fields) → get_field k (insert_field k v fs) ≡ some v
unfolding get_field insert_field
get_field-insert_field k v end = rw (str_eq_refl k) refl
get_field-insert_field k v (field j w fs) = elim (Bool-cases (str_eq j k)) [
  | inl e ↦ rw (e, e) refl
  | inr e ↦ rw (e, e, get_field-insert_field k v fs) refl
]

pub get_field-insert_other :
    (k j : String) (v : Json) (fs : Fields)
    → str_eq k j ≡ false
    → get_field j (insert_field k v fs) ≡ get_field j fs
unfolding get_field insert_field
get_field-insert_other k j v end h = rw h refl
get_field-insert_other k j v (field i w fs) h = elim (Bool-cases (str_eq i k)) [
  | inl e ↦ let differ : str_eq i j ≡ false = rw ((eq_iff i k).0 e) h in rw (e, differ) refl
  | inr e ↦ rw (e, get_field-insert_other k j v fs h) refl
]

pub insert_field-again :
    (k : String) (v w : Json) (fs : Fields)
    → insert_field k w (insert_field k v fs) ≡ insert_field k w fs
unfolding insert_field
insert_field-again k v w end = rw (str_eq_refl k) refl
insert_field-again k v w (field j u fs) = elim (Bool-cases (str_eq j k)) [
  | inl e ↦ rw (e, e) refl
  | inr e ↦ rw (e, e, insert_field-again k v w fs) refl
]

pub insert_field-present :
    (k : String) (v : Json) (fs : Fields) → get_field k fs ≡ some v → insert_field k v fs ≡ fs
unfolding get_field insert_field
insert_field-present k v end h = cc
insert_field-present k v (field j u fs) h = elim (Bool-cases (str_eq j k)) [
  | inl e ↦
      let picked : (if str_eq j k then some u else get_field k fs) ≡ some u = rw e refl in
      let found : some u ≡ some v = sym picked ∙ h in let same : u ≡ v = cc in rw (e, same) refl
  | inr e ↦
      let found : get_field k fs ≡ some v = sym (rw e refl) ∙ h in
      rw (e, insert_field-present k v fs found) refl
]

pub get_item-push_item :
    (v : Json) (xs : Items) → get_item (count_items xs) (push_item v xs) ≡ some v
unfolding get_item count_items push_item
get_item-push_item v nil = refl
get_item-push_item v (cons x xs) = get_item-push_item v xs

pub set_item-push_item :
    (v w : Json) (xs : Items) → set_item (count_items xs) w (push_item v xs) ≡ push_item w xs
unfolding set_item count_items push_item
set_item-push_item v w nil = refl
set_item-push_item v w (cons x xs) = ap (cons x) (set_item-push_item v w xs)

pub count_items-push_item :
    (v : Json) (xs : Items) → count_items (push_item v xs) ≡ suc (count_items xs)
unfolding count_items push_item
count_items-push_item v nil = refl
count_items-push_item v (cons x xs) = ap suc (count_items-push_item v xs)
