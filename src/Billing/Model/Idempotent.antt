-- ===== src/Billing/Model/Idempotent.antt =====
-- src/billing.rs: the pricing keys are models themselves.
use mathlib.Core.Option.{some_inj}
use clewdr_hub.Common.{
  ℕ, ◌≡◌, refl, ap, ◌∙◌, subst, some, List, [], ◌∷◌, if◌then◌else◌, arith, inl, inr, Bool-cases,
  Option-cases,
}
use clewdr_hub.Config.Reason.{text_eq}
use clewdr_hub.Billing.Model.{
  known_aliases, to_ascii_lowercase, exact_alias, dated_alias, is_dated, or_dated, normalize_model,
}

-- Every key of the aliases is an alias for itself.
abbrev AreModels : List (List ℕ × List ℕ) → Type 0
AreModels [] = Unit {0}
AreModels ((alias, key) ∷ rest) = (normalize_model key ≡ some key) × AreModels rest

known_aliases-AreModels : AreModels known_aliases
unfolding normalize_model to_ascii_lowercase exact_alias text_eq
known_aliases-AreModels = (
  refl,
  (
    refl,
    (
      refl,
      (
        refl,
        (
          refl,
          (
            refl,
            (
              refl,
              (refl, (refl, (refl, (refl, (refl, (refl, (refl, (refl, (refl, (refl, tt)))))))))),
            ),
          ),
        ),
      ),
    ),
  ),
)

exact_alias-model :
    (aliases : List (List ℕ × List ℕ)) (m key : List ℕ)
    → AreModels aliases
    → exact_alias aliases m ≡ some key
    → normalize_model key ≡ some key
unfolding exact_alias
exact_alias-model [] m key a e = cc
exact_alias-model ((alias, k) ∷ rest) m key a e = elim (Bool-cases (text_eq m alias)) [
  | inl h ↦
      let own : k ≡ key =
        some_inj.0 (subst (λ b. (if b then some k else exact_alias rest m) ≡ some key) h e) in
      subst (λ v. normalize_model v ≡ some v) own a.0
  | inr h ↦
      exact_alias-model rest m key a.1
        (subst (λ b. (if b then some k else exact_alias rest m) ≡ some key) h e)
]

dated_alias-model :
    (aliases : List (List ℕ × List ℕ)) (m key : List ℕ)
    → AreModels aliases
    → dated_alias aliases m ≡ some key
    → normalize_model key ≡ some key
unfolding dated_alias
dated_alias-model [] m key a e = cc
dated_alias-model ((alias, k) ∷ rest) m key a e = elim (Bool-cases (is_dated alias m)) [
  | inl h ↦
      let own : k ≡ key =
        some_inj.0 (subst (λ b. (if b then some k else dated_alias rest m) ≡ some key) h e) in
      subst (λ v. normalize_model v ≡ some v) own a.0
  | inr h ↦
      dated_alias-model rest m key a.1
        (subst (λ b. (if b then some k else dated_alias rest m) ≡ some key) h e)
]

to_ascii_lowercase-idempotent :
    (m : List ℕ) → to_ascii_lowercase (to_ascii_lowercase m) ≡ to_ascii_lowercase m
unfolding to_ascii_lowercase
to_ascii_lowercase-idempotent [] = refl
to_ascii_lowercase-idempotent (c ∷ m) =
    rw (to_ascii_lowercase-idempotent m) (ap (λ d. d ∷ to_ascii_lowercase m) (ground arith))

-- The key that a model is normalized to is a model that is normalized to itself, and the case of a model's letters makes
-- no difference.
pub normalize_model-idempotent :
    (raw key : List ℕ)
    → normalize_model raw ≡ some key
    → (normalize_model key ≡ some key) × (normalize_model (to_ascii_lowercase raw) ≡ some key)
unfolding normalize_model
normalize_model-idempotent raw key e =
    let m = to_ascii_lowercase raw in
    (
      elim (Option-cases (exact_alias known_aliases m)) [
        | inl h ↦
            dated_alias-model known_aliases m key known_aliases-AreModels
              (subst (λ o. or_dated o m ≡ some key) h e)
        | inr (k, h) ↦
            exact_alias-model known_aliases m key known_aliases-AreModels
              (h ∙ subst (λ o. or_dated o m ≡ some key) h e)
      ],
      ap (λ n. or_dated (exact_alias known_aliases n) n) (to_ascii_lowercase-idempotent raw) ∙ e,
    )
