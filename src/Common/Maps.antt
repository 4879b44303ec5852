-- ===== src/Common/Maps.antt =====
-- `HashMap<i64, V>` and `HashSet<i64>` as lists. A map's order stands for the iteration order, which
-- the source leaves open.
use Prim.Native.Nat.{ℕ, ◌≤◌}
use mathlib.Core.Path.{◌≡◌}
use mathlib.Core.Logic.{◌↔◌}
use mathlib.Core.Bool.{Bool, not, ◌&&◌, ◌||◌}
use mathlib.Core.Option.{Option, none, some}
use mathlib.Core.List.{List, [], ◌∷◌}
use native.Mathlib.Omega.{arith}
use clewdr_hub.Common.Tests.{◌==◌, if◌then◌else◌, is_some}
use clewdr_hub.Common.Lists.{contains, count}

module _ {ℓ} {V : Type ℓ} where
  unfoldable pub get : ℕ → List (ℕ × V) → Option V
  get k [] = none
  get k ((j, v) ∷ m) = if j == k then some v else get k m

  unfoldable pub remove : ℕ → List (ℕ × V) → List (ℕ × V)
  remove k [] = []
  remove k ((j, v) ∷ m) = let rest = remove k m in if j == k then rest else (j, v) ∷ rest

  unfoldable pub insert : ℕ → V → List (ℕ × V) → List (ℕ × V)
  insert k v m = (k, v) ∷ remove k m

  -- A write through `get_mut`.
  unfoldable pub modify : ℕ → (V → V) → List (ℕ × V) → List (ℕ × V)
  modify k f [] = []
  modify k f ((j, v) ∷ m) = (j, if j == k then f v else v) ∷ modify k f m

  abbrev pub has_key : ℕ → ℕ × V → Bool
  has_key k (j, v) = j == k

  abbrev pub contains_key : ℕ → List (ℕ × V) → Bool
  contains_key k m = is_some (get k m)

  pub get-remove :
      (k j : ℕ) (m : List (ℕ × V)) → get j (remove k m) ≡ (if k == j then none else get j m)
  unfolding get remove
  get-remove k j [] = ground arith
  get-remove k j ((i, v) ∷ m) = ground (arith, get-remove k j m)

  pub get-insert :
      (k j : ℕ) (v : V) (m : List (ℕ × V))
      → get j (insert k v m) ≡ (if k == j then some v else get j m)
  unfolding get insert
  get-insert k j v m = ground (arith, get-remove k j m)

  pub get-modify :
      (k j : ℕ) (f : V → V) (m : List (ℕ × V))
      → get j (modify k f m)
        ≡ (if k == j then elim (get j m) [ none ↦ none | some v ↦ some (f v) ] else get j m)
  unfolding get modify
  get-modify k j f [] = ground arith
  get-modify k j f ((i, v) ∷ m) = ground (arith, get-modify k j f m)

  pub count-remove :
      (k j : ℕ) (m : List (ℕ × V))
      → count (has_key j) (remove k m) ≡ (if k == j then 0 else count (has_key j) m)
  unfolding count remove
  count-remove k j [] = ground arith
  count-remove k j ((i, v) ∷ m) = ground (arith, count-remove k j m)

  pub count-insert :
      (k j : ℕ) (v : V) (m : List (ℕ × V))
      → count (has_key j) (insert k v m) ≡ (if k == j then 1 else count (has_key j) m)
  unfolding count insert
  count-insert k j v m = ground (arith, count-remove k j m)

  pub count_pos_of_get :
      (k : ℕ) (m : List (ℕ × V)) (v : V) → get k m ≡ some v → 1 ≤ count (has_key k) m
  unfolding count get
  count_pos_of_get k [] v h = cc
  count_pos_of_get k ((i, w) ∷ m) v h = ground (arith, count_pos_of_get k m v)

  pub count-get : (k : ℕ) (m : List (ℕ × V)) → (get k m ≡ none) ↔ (count (has_key k) m ≡ 0)
  unfolding count get
  count-get k [] = ground arith
  count-get k ((i, v) ∷ m) = ground (arith, count-get k m)

-- Sets.
unfoldable pub remove_id : ℕ → List ℕ → List ℕ
remove_id k [] = []
remove_id k (x ∷ xs) = let rest = remove_id k xs in if x == k then rest else x ∷ rest

unfoldable pub insert_id : ℕ → List ℕ → List ℕ
insert_id k xs = if contains k xs then xs else k ∷ xs

pub contains-remove_id :
    (k j : ℕ) (xs : List ℕ) → contains j (remove_id k xs) ≡ (not (k == j) && contains j xs)
unfolding contains remove_id
contains-remove_id k j [] = ground arith
contains-remove_id k j (x ∷ xs) = ground (arith, contains-remove_id k j xs)

pub contains-insert_id :
    (k j : ℕ) (xs : List ℕ) → contains j (insert_id k xs) ≡ (k == j || contains j xs)
unfolding contains insert_id
contains-insert_id k j xs = ground arith
