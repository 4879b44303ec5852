-- ===== src/Request/Sampling/Models.antt =====
-- src/middleware/claude/request.rs: what the models accept, by their names, as the comments of the source say it and apart
-- from its families.
use clewdr_hub.Common.{ℕ, ◌≡◌, refl, Bool, true, false, some, List, ◌∷◌, ◌++◌}
use clewdr_hub.Config.Reason.{codes, text_eq, strip_prefix}
use clewdr_hub.Billing.Model.{to_ascii_lowercase, is_date}
use clewdr_hub.Request.Sampling.{
  OutputEffort, high, xhigh, max, ReasoningFamily, fable5, opus5, sonnet5, v4_5, v4_6, v4_7, v4_8,
  matches_model_with_optional_date_suffix, find_family, detect,
}

-- The models with rules of their own.
pub data Named : Type 0 where
  fable_5 opus_5 sonnet_5 opus_4_8 opus_4_7 opus_4_6 opus_4_5 : Named

abbrev pub name_of : Named → List ℕ
name_of fable_5 = codes "claude-fable-5"
name_of opus_5 = codes "claude-opus-5"
name_of sonnet_5 = codes "claude-sonnet-5"
name_of opus_4_8 = codes "claude-opus-4-8"
name_of opus_4_7 = codes "claude-opus-4-7"
name_of opus_4_6 = codes "claude-opus-4-6"
name_of opus_4_5 = codes "claude-opus-4-5"

-- Budgets are gone since 4.7.
abbrev pub takes_budgets : Named → Bool
takes_budgets opus_4_5 = true
takes_budgets opus_4_6 = true
takes_budgets _ = false

-- Sampling parameters are refused since 4.7.
abbrev pub takes_sampling : Named → Bool
takes_sampling opus_4_5 = true
takes_sampling opus_4_6 = true
takes_sampling _ = false

abbrev pub must_think : Named → Bool
must_think fable_5 = true
must_think _ = false

-- Opus 5 goes without thinking only through `high`.
abbrev pub may_be_off : Named → OutputEffort → Bool
may_be_off opus_5 xhigh = false
may_be_off opus_5 max = false
may_be_off _ _ = true

-- `xhigh` came with 4.7, and `max` with 4.6.
abbrev pub has_effort : Named → OutputEffort → Bool
has_effort opus_4_5 xhigh = false
has_effort opus_4_5 max = false
has_effort opus_4_6 xhigh = false
has_effort _ _ = true

abbrev pub highest_effort : Named → OutputEffort
highest_effort opus_4_5 = high
highest_effort _ = max

-- A text that names a model: its name in any case, with or without the eight digits of a date.
pub data Names (n : Named) (model : List ℕ) : Type 0 where
  plain : to_ascii_lowercase model ≡ name_of n → Names n model
  dated :
      (date : List ℕ)
      → to_ascii_lowercase model ≡ name_of n ++ b'-' ∷ date
      → is_date date ≡ true
      → Names n model

abbrev pub family_of : Named → ReasoningFamily
family_of fable_5 = fable5
family_of opus_5 = opus5
family_of sonnet_5 = sonnet5
family_of opus_4_8 = v4_8
family_of opus_4_7 = v4_7
family_of opus_4_6 = v4_6
family_of opus_4_5 = v4_5

pub detect-Names : (n : Named) (model : List ℕ) → Names n model → detect model ≡ some (family_of n)
unfolding detect find_family matches_model_with_optional_date_suffix text_eq strip_prefix
detect-Names fable_5 model (plain e) = rw e refl
detect-Names opus_5 model (plain e) = rw e refl
detect-Names sonnet_5 model (plain e) = rw e refl
detect-Names opus_4_8 model (plain e) = rw e refl
detect-Names opus_4_7 model (plain e) = rw e refl
detect-Names opus_4_6 model (plain e) = rw e refl
detect-Names opus_4_5 model (plain e) = rw e refl
detect-Names fable_5 model (dated date e d) = rw (e, d) refl
detect-Names opus_5 model (dated date e d) = rw (e, d) refl
detect-Names sonnet_5 model (dated date e d) = rw (e, d) refl
detect-Names opus_4_8 model (dated date e d) = rw (e, d) refl
detect-Names opus_4_7 model (dated date e d) = rw (e, d) refl
detect-Names opus_4_6 model (dated date e d) = rw (e, d) refl
detect-Names opus_4_5 model (dated date e d) = rw (e, d) refl
