-- ===== src/Common/Lists.antt =====
-- Lists measured by native numbers, and the iterator methods that the program uses.
use Prim.Native.Nat.{ℕ, zero, suc, ◌+◌}
use mathlib.Core.Path.{◌≡◌, refl}
use mathlib.Core.Logic.{◌⊎◌, inl, inr}
use mathlib.Core.Bool.{Bool, true, false, ◌||◌}
use mathlib.Core.List.{List, [], ◌∷◌, ◌++◌}
use mathlib.Core.Option.{Option, none, some}
use native.Mathlib.Omega.{arith}
use clewdr_hub.Common.Tests.{◌==◌, if◌then◌else◌, Bool-cases, Option-cases}

abbrev pub next_position : Option ℕ → Option ℕ
next_position none = none
next_position (some i) = some (suc i)

module _ {ℓ} {A : Type ℓ} where
  abbrev pub length : List A → ℕ
  length [] = 0
  length (x ∷ xs) = suc (length xs)

  abbrev pub get_elem? : List A → ℕ → Option A
  get_elem? [] i = none
  get_elem? (x ∷ xs) zero = some x
  get_elem? (x ∷ xs) (suc i) = get_elem? xs i

  pub length-append : (xs ys : List A) → length (xs ++ ys) ≡ length xs + length ys
  length-append [] ys = omega arith
  length-append (x ∷ xs) ys = omega (arith, length-append xs ys)

  -- `Iterator::any`.
  unfoldable pub any : (A → Bool) → List A → Bool
  any p [] = false
  any p (x ∷ xs) = p x || any p xs

  -- `Iterator::find`.
  unfoldable pub find : (A → Bool) → List A → Option A
  find p [] = none
  find p (x ∷ xs) = if p x then some x else find p xs

  -- `Vec::retain` and `Iterator::filter`.
  unfoldable pub retain : (A → Bool) → List A → List A
  retain p [] = []
  retain p (x ∷ xs) = let rest = retain p xs in if p x then x ∷ rest else rest

  -- `Iterator::position`.
  unfoldable pub position : (A → Bool) → List A → Option ℕ
  position p [] = none
  position p (x ∷ xs) = let rest = next_position (position p xs) in if p x then some 0 else rest

  abbrev pub keep_head : A → Option (A × List A) → Option (A × List A)
  keep_head x none = none
  keep_head x (some (y, rest)) = some (y, x ∷ rest)

  -- `VecDeque::remove`: the element at an index and the others, in order.
  unfoldable pub remove_at : List A → ℕ → Option (A × List A)
  remove_at [] i = none
  remove_at (x ∷ xs) zero = some (x, xs)
  remove_at (x ∷ xs) (suc i) = keep_head x (remove_at xs i)

-- Membership in a list of numbers, as `[i64]::contains` and `HashSet::contains` test it.
unfoldable pub contains : ℕ → List ℕ → Bool
contains a [] = false
contains a (x ∷ xs) = x == a || contains a xs

-- How often a list holds an element that passes a test.
unfoldable pub count {ℓ} : {A : Type ℓ} → (A → Bool) → List A → ℕ
count p [] = 0
count p (x ∷ xs) = (if p x then 1 else 0) + count p xs

pub or_true : (b : Bool) → (b || true) ≡ true
or_true true = refl
or_true false = refl

module _ {ℓ} {A : Type ℓ} where
  pub count-append : (p : A → Bool) (xs ys : List A) → count p (xs ++ ys) ≡ count p xs + count p ys
  unfolding count
  count-append p [] ys = omega arith
  count-append p (x ∷ xs) ys = omega (arith, count-append p xs ys)

  -- What `position` finds can be removed, passes the test, and is the only element that goes.
  pub record Picked (p : A → Bool) (xs : List A) (i : ℕ) : Type ℓ where
    pub chosen : A
    pub others : List A
    pub removed : remove_at xs i ≡ some (chosen, others)
    pub passes : p chosen ≡ true

  Picked-suc :
      (p : A → Bool) (x : A) (xs : List A) {i : ℕ} → Picked p xs i → Picked p (x ∷ xs) (suc i)
  unfolding remove_at
  Picked-suc p x xs k = record {
    chosen = k.chosen;
    others = x ∷ k.others;
    removed = rw k.removed;
    passes = k.passes;
  }

  pub position-cases :
      (p : A → Bool) (xs : List A)
      → ((position p xs ≡ none) × (any p xs ≡ false))
        ⊎ ((i : ℕ) × (position p xs ≡ some i) × (any p xs ≡ true) × Picked p xs i)
  unfolding position any remove_at
  position-cases p [] = inl (refl, refl)
  position-cases p (x ∷ xs) = elim (Bool-cases (p x)) [
    | inl e ↦ inr (0, rw e, rw e, record { chosen = x; others = xs; removed = refl; passes = e })
    | inr e ↦ elim (position-cases p xs) [
      | inl (none_left, no_more) ↦ inl (rw (e, none_left), rw (e, no_more))
      | inr (i, found, more, k) ↦ inr (suc i, rw (e, found), rw (e, more), Picked-suc p x xs k)
    ]
  ]

  pub count-remove_at :
      (p : A → Bool) (xs : List A) (i : ℕ) {x : A} {rest : List A}
      → remove_at xs i ≡ some (x, rest)
      → count p xs ≡ (if p x then 1 else 0) + count p rest
  unfolding count remove_at
  count-remove_at p [] i h = cc
  count-remove_at p (x ∷ xs) zero h = ground arith
  count-remove_at p (x ∷ xs) (suc i) h = elim (Option-cases (remove_at xs i)) [
    | inl e ↦ ground arith
    | inr ((y, ys), e) ↦ ground (arith, count-remove_at p xs i e)
  ]

  unfoldable pub Picked-mono :
      {p q : A → Bool} {xs : List A} {i : ℕ}
      → ((x : A) → p x ≡ true → q x ≡ true)
      → Picked p xs i
      → Picked q xs i
  Picked-mono f k = record {
    chosen = k.chosen;
    others = k.others;
    removed = k.removed;
    passes = f k.chosen k.passes;
  }

  pub any-ext : (p q : A → Bool) (xs : List A) → ((x : A) → p x ≡ q x) → any p xs ≡ any q xs
  unfolding any
  any-ext p q [] h = refl
  any-ext p q (x ∷ xs) h = rw (h x, any-ext p q xs h)

  pub any_never : (p : A → Bool) (xs : List A) → ((x : A) → p x ≡ false) → any p xs ≡ false
  unfolding any
  any_never p [] h = refl
  any_never p (x ∷ xs) h = rw (h x, any_never p xs h)

  pub get_elem?-remove_at :
      (xs : List A) (i : ℕ) {x : A} {rest : List A}
      → remove_at xs i ≡ some (x, rest)
      → get_elem? xs i ≡ some x
  unfolding remove_at
  get_elem?-remove_at [] i h = cc
  get_elem?-remove_at (x ∷ xs) zero h = ground arith
  get_elem?-remove_at (x ∷ xs) (suc i) h = elim (Option-cases (remove_at xs i)) [
    | inl e ↦ ground arith
    | inr ((y, ys), e) ↦ ground (arith, get_elem?-remove_at xs i e)
  ]

  -- Moving an element to the end.
  pub count-rotate :
      (p : A → Bool) (xs : List A) (i : ℕ) {x : A} {rest : List A}
      → remove_at xs i ≡ some (x, rest)
      → count p (rest ++ x ∷ []) ≡ count p xs
  unfolding count
  count-rotate p xs i {x} {rest} h =
      omega (arith, count-append p rest (x ∷ []), count-remove_at p xs i h)

  -- An element at some index.
  pub record At (xs : List A) (x : A) : Type ℓ where
    pub index : ℕ
    pub found : get_elem? xs index ≡ some x

  pub any_of_At : (p : A → Bool) {x : A} (xs : List A) → At xs x → p x ≡ true → any p xs ≡ true
  unfolding any
  any_of_At p {x} xs a h = go xs a.index a.found
    where
      go : (ys : List A) (i : ℕ) → get_elem? ys i ≡ some x → any p ys ≡ true
      go [] i e = cc
      go (y ∷ ys) zero e = let same : y ≡ x = ground arith in rw (same, h)
      go (y ∷ ys) (suc i) e = rw (go ys i e) (or_true (p y))

  -- What `any` finds is there.
  pub At-of_any : (p : A → Bool) (xs : List A) → any p xs ≡ true → (x : A) × At xs x × (p x ≡ true)
  unfolding any
  At-of_any p [] h = cc
  At-of_any p (x ∷ xs) h = elim (Bool-cases (p x)) [
    | inl e ↦ (x, record { index = 0; found = refl }, e)
    | inr e ↦
        let (y, at, q) = At-of_any p xs (rw (e, any) at h) in
        (y, record { index = suc at.index; found = at.found }, q)
  ]

  pub count_of_any : (p : A → Bool) (xs : List A) → any p xs ≡ false → count p xs ≡ 0
  unfolding any count
  count_of_any p [] h = refl
  count_of_any p (x ∷ xs) h = ground (arith, count_of_any p xs)

pub List-cases {ℓ} :
    {A : Type ℓ} → (xs : List A) → (xs ≡ []) ⊎ ((x : A) × (ys : List A) × (xs ≡ x ∷ ys))
List-cases [] = inl refl
List-cases (x ∷ xs) = inr (x, xs, refl)
