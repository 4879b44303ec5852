-- ===== src/Billing/Model.antt =====
-- src/billing.rs: the pricing key of a model, and the key of its rollups. A model's name is read letter by letter.
pub mod Idempotent
use text.Mathlib.Text.{◌==◌ as str_eq}
use clewdr_hub.Common.{
  ℕ, ◌+◌, String, Bool, true, false, ◌&&◌, Option, none, some, List, [], ◌∷◌, if◌then◌else◌,
  is_some_and, and_then, length, leb, ◌==◌,
}
use clewdr_hub.Config.Decimal.{is_digit}
use clewdr_hub.Config.Reason.{codes, text_eq, strip_prefix}

-- `KNOWN_ALIASES`.
abbrev pub known_aliases : List (List ℕ × List ℕ)
known_aliases =
    (codes "claude-fable-5", codes "claude-fable-5")
    ∷ (codes "claude-opus-5", codes "claude-opus-5")
    ∷ (codes "claude-opus-4-8", codes "claude-opus-4-8")
    ∷ (codes "claude-opus-4-7", codes "claude-opus-4-7")
    ∷ (codes "claude-opus-4-6", codes "claude-opus-4-6")
    ∷ (codes "claude-opus-4-5", codes "claude-opus-4-5")
    ∷ (codes "claude-opus-4-1", codes "claude-opus-4-1")
    ∷ (codes "claude-opus-4-0", codes "claude-opus-4-0")
    ∷ (codes "claude-sonnet-5", codes "claude-sonnet-5")
    ∷ (codes "claude-sonnet-4-6", codes "claude-sonnet-4-6")
    ∷ (codes "claude-sonnet-4-5", codes "claude-sonnet-4-5")
    ∷ (codes "claude-sonnet-4-0", codes "claude-sonnet-4-0")
    ∷ (codes "claude-haiku-4-5", codes "claude-haiku-4-5")
    ∷ (codes "claude-haiku-3-5", codes "claude-haiku-3-5")
    ∷ (codes "claude-3-5-sonnet", codes "claude-sonnet-4-0")
    ∷ (codes "claude-3-5-haiku", codes "claude-haiku-3-5")
    ∷ (codes "claude-3-haiku", codes "claude-haiku-3-5")
    ∷ []

abbrev lower : ℕ → ℕ
lower c = if leb 65 c && leb c 90 then c + 32 else c

-- `str::to_ascii_lowercase`.
unfoldable pub to_ascii_lowercase : List ℕ → List ℕ
to_ascii_lowercase [] = []
to_ascii_lowercase (c ∷ cs) = lower c ∷ to_ascii_lowercase cs

unfoldable pub all_digits : List ℕ → Bool
all_digits [] = true
all_digits (c ∷ cs) = is_digit c && all_digits cs

abbrev pub is_date : List ℕ → Bool
is_date d = length d == 8 && all_digits d

-- The first loop.
unfoldable pub exact_alias : List (List ℕ × List ℕ) → List ℕ → Option (List ℕ)
exact_alias [] m = none
exact_alias ((alias, key) ∷ rest) m = if text_eq m alias then some key else exact_alias rest m

-- Whether `m` is the alias, a dash and a date.
abbrev pub is_dated : List ℕ → List ℕ → Bool
is_dated alias m =
    is_some_and (and_then (strip_prefix alias m) (λ rest. strip_prefix (codes "-") rest)) is_date

-- The second loop.
unfoldable pub dated_alias : List (List ℕ × List ℕ) → List ℕ → Option (List ℕ)
dated_alias [] m = none
dated_alias ((alias, key) ∷ rest) m = if is_dated alias m then some key else dated_alias rest m

abbrev pub or_dated : Option (List ℕ) → List ℕ → Option (List ℕ)
or_dated (some key) m = some key
or_dated none m = dated_alias known_aliases m

-- `normalize_model`.
unfoldable pub normalize_model : List ℕ → Option (List ℕ)
normalize_model raw = let m = to_ascii_lowercase raw in or_dated (exact_alias known_aliases m) m

abbrev is_nonempty : List ℕ → Bool
is_nonempty [] = false
is_nonempty (c ∷ cs) = true

abbrev raw_or_unknown : List ℕ → List ℕ
raw_or_unknown raw = if is_nonempty raw then raw else codes "unknown"

abbrev key_or : Option (List ℕ) → List ℕ → List ℕ
key_or none other = other
key_or (some key) other = if is_nonempty key then key else other

-- `compute_model_key`; `trim` is the one of the standard library.
unfoldable pub compute_model_key : (List ℕ → List ℕ) → List ℕ → Option (List ℕ) → List ℕ
compute_model_key trim model_raw model_normalized =
    key_or model_normalized (raw_or_unknown (trim model_raw))
