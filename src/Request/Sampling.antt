-- ===== src/Request/Sampling.antt =====
-- src/middleware/claude/request.rs: `normalize_sampling_params`, with the types of src/types/claude.rs that it reads. A
-- model's name is read letter by letter, and an `f32` is its 32-bit pattern.
pub mod Models
pub mod Accepted
use clewdr_hub.Common.{
  ℕ, String, Bool, true, false, not, ◌&&◌, ◌||◌, Option, none, some, List, [], ◌∷◌, ◌++◌,
  if◌then◌else◌, is_some_and, and_then, or_else, unwrap_or, ◌==◌,
}
use clewdr_hub.Config.Reason.{codes, text_eq, strip_prefix}
use clewdr_hub.Billing.Model.{to_ascii_lowercase, is_date}

-- `OutputEffort`.
pub data OutputEffort : Type 0 where
  low medium high xhigh max : OutputEffort

-- `OutputConfig`; a format is the text of its schema.
pub record OutputConfig : Type 0 where
  pub effort : Option OutputEffort
  pub format : Option String

-- `ThinkingDisplay`.
pub data ThinkingDisplay : Type 0 where
  summarized omitted : ThinkingDisplay

-- `Thinking`.
pub data Thinking : Type 0 where
  enabled : ℕ → Option ThinkingDisplay → Thinking
  disabled : Thinking
  adaptive : Option ThinkingDisplay → Thinking

-- `CreateMessageParams`, the fields that are read.
pub record CreateMessageParams : Type 0 where
  pub model : List ℕ
  pub thinking : Option Thinking
  pub output_config : Option OutputConfig
  pub temperature : Option ℕ
  pub top_p : Option ℕ
  pub top_k : Option ℕ

-- The bits of the `f32` 1.0.
abbrev pub one_f32 : ℕ
one_f32 = 0x3f800000

-- `ReasoningFamily`.
pub data ReasoningFamily : Type 0 where
  fable5 opus5 sonnet5 v4_5 v4_6 v4_7 v4_8 : ReasoningFamily

-- `matches_model_with_optional_date_suffix`.
unfoldable pub matches_model_with_optional_date_suffix : List ℕ → List ℕ → Bool
matches_model_with_optional_date_suffix model prefix =
    let m = to_ascii_lowercase model in
    text_eq m prefix || is_some_and (strip_prefix (prefix ++ codes "-") m) is_date

abbrev pub family_table : List (List ℕ × ReasoningFamily)
family_table =
    (codes "claude-fable-5", fable5)
    ∷ (codes "claude-opus-5", opus5)
    ∷ (codes "claude-sonnet-5", sonnet5)
    ∷ (codes "claude-opus-4-8", v4_8)
    ∷ (codes "claude-opus-4-7", v4_7)
    ∷ (codes "claude-opus-4-6", v4_6)
    ∷ (codes "claude-opus-4-5", v4_5)
    ∷ []

unfoldable pub find_family : List (List ℕ × ReasoningFamily) → List ℕ → Option ReasoningFamily
find_family [] model = none
find_family ((prefix, family) ∷ table) model =
    if matches_model_with_optional_date_suffix model prefix
    then some family
    else find_family table model

-- `ReasoningFamily::detect`.
unfoldable pub detect : List ℕ → Option ReasoningFamily
detect model = find_family family_table model

-- `requires_adaptive_thinking_rewrite`, and `rejects_sampling_parameters` with the same families.
unfoldable pub requires_adaptive_thinking_rewrite : ReasoningFamily → Bool
requires_adaptive_thinking_rewrite v4_5 = false
requires_adaptive_thinking_rewrite v4_6 = false
requires_adaptive_thinking_rewrite _ = true

unfoldable pub rejects_sampling_parameters : ReasoningFamily → Bool
rejects_sampling_parameters v4_5 = false
rejects_sampling_parameters v4_6 = false
rejects_sampling_parameters _ = true

-- `requires_thinking`.
unfoldable pub requires_thinking : ReasoningFamily → Bool
requires_thinking fable5 = true
requires_thinking _ = false

-- `disabled_thinking_requires_rewrite`.
unfoldable pub disabled_thinking_requires_rewrite : ReasoningFamily → Option OutputEffort → Bool
disabled_thinking_requires_rewrite opus5 (some xhigh) = true
disabled_thinking_requires_rewrite opus5 (some max) = true
disabled_thinking_requires_rewrite _ _ = false

-- `clamp_forced_effort`.
unfoldable pub clamp_forced_effort : ReasoningFamily → OutputEffort → OutputEffort
clamp_forced_effort v4_5 xhigh = high
clamp_forced_effort v4_5 max = high
clamp_forced_effort v4_6 xhigh = max
clamp_forced_effort _ effort = effort

abbrev pub summarized_thinking : Thinking
summarized_thinking = adaptive (some summarized)

-- The rewrite of a thinking budget, and whether there was one.
unfoldable pub rewrite_legacy : Option Thinking → Option Thinking × Bool
rewrite_legacy (some (enabled budget display)) =
    (some (adaptive (some (unwrap_or display summarized))), true)
rewrite_legacy thinking = (thinking, false)

abbrev pub is_off : Option Thinking → Bool
is_off none = true
is_off (some disabled) = true
is_off (some (enabled b d)) = false
is_off (some (adaptive d)) = false

abbrev pub is_disabled : Option Thinking → Bool
is_disabled (some disabled) = true
is_disabled none = false
is_disabled (some (enabled b d)) = false
is_disabled (some (adaptive d)) = false

abbrev pub is_active : Option Thinking → Bool
is_active t = not (is_off t)

-- `default_output_config`.
abbrev pub default_output_config : OutputConfig
default_output_config = record { effort = none; format = none }

-- `get_or_insert_with(default_output_config).effort.get_or_insert(High)`, and the assignment of an effort.
abbrev pub with_some_effort : Option OutputConfig → Option OutputConfig
with_some_effort config =
    let c = unwrap_or config default_output_config in
    some (record { effort = or_else c.effort (some high); format = c.format })

abbrev pub with_effort : OutputEffort → Option OutputConfig → Option OutputConfig
with_effort effort config =
    let c = unwrap_or config default_output_config in
    some (record { effort = some effort; format = c.format })

-- The steps of `normalize_sampling_params`, by the family of the model: the thinking and whether an effort is due, ...
unfoldable pub rewritten : Option ReasoningFamily → Option Thinking → Option Thinking × Bool
rewritten family thinking =
    let (first, legacy) =
      if is_some_and family requires_adaptive_thinking_rewrite
      then rewrite_legacy thinking
      else (thinking, false) in
    let forced = is_some_and family requires_thinking && is_off first in
    (if forced then some summarized_thinking else first, legacy || forced)

-- ... the configuration, ...
unfoldable pub configured :
    Option ReasoningFamily → Option OutputEffort → Bool → Option OutputConfig → Option OutputConfig
configured family force_output_effort due config =
    let first = if due then with_some_effort config else config in
    elim (and_then force_output_effort
      (λ e. and_then family (λ f. some (clamp_forced_effort f e)))) [
        | none ↦ first
        | some e ↦ with_effort e first
      ]

-- ... the thinking that the effort allows, ...
unfoldable pub allowed_thinking :
    Option ReasoningFamily → Option OutputConfig → Option Thinking → Option Thinking
allowed_thinking family config thinking =
    if is_some_and family
        (λ f. disabled_thinking_requires_rewrite f (and_then config (λ c. c.effort)))
      && is_disabled thinking
    then some summarized_thinking
    else thinking

-- ... and the temperature.
unfoldable pub allowed_temperature : Option ReasoningFamily → Option Thinking → Option ℕ → Option ℕ
allowed_temperature family thinking temperature =
    if (is_active thinking || is_some_and family rejects_sampling_parameters)
      && not (is_some_and temperature (λ t. t == one_f32))
    then none
    else temperature

unfoldable pub normalize_by :
    Option ReasoningFamily → Option OutputEffort → CreateMessageParams → CreateMessageParams
normalize_by family force_output_effort body =
    let first = rewritten family body.thinking in
    let config = configured family force_output_effort first.1 body.output_config in
    let thinking = allowed_thinking family config first.0 in
    record {
      model = body.model;
      thinking = thinking;
      output_config = config;
      temperature = allowed_temperature family thinking body.temperature;
      top_p = none;
      top_k = none;
    }

-- `normalize_sampling_params`, with `force_output_effort` of the profile.
unfoldable pub normalize_sampling_params :
    CreateMessageParams → Option OutputEffort → CreateMessageParams
normalize_sampling_params body force_output_effort =
    normalize_by (detect body.model) force_output_effort body
