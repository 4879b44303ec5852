-- ===== src/Request/Sampling/Accepted.antt =====
-- src/middleware/claude/request.rs: what the models accept of a shaped request.
use clewdr_hub.Common.{
  ℕ, ◌≡◌, ◌≢◌, refl, sym, ap, ◌∙◌, subst, if◌then◌else◌, not, Bool, true, false, ◌&&◌, ◌||◌, Option,
  none, some, is_some_and, and_then, ◌==◌, ◌⊎◌, inl, inr, arith, Bool-cases, ==_iff,
}
use clewdr_hub.Request.Sampling.Models.{
  Named, fable_5, opus_5, sonnet_5, opus_4_8, opus_4_7, opus_4_6, opus_4_5, takes_budgets,
  takes_sampling, must_think, may_be_off, has_effort, highest_effort, Names, family_of,
  detect-Names,
}
use clewdr_hub.Request.Sampling.{
  OutputEffort, low, medium, high, xhigh, max, clamp_forced_effort, OutputConfig, ThinkingDisplay,
  Thinking, enabled, CreateMessageParams, one_f32, ReasoningFamily, detect,
  requires_adaptive_thinking_rewrite, rejects_sampling_parameters, requires_thinking,
  disabled_thinking_requires_rewrite, summarized_thinking, rewrite_legacy, is_disabled, is_active,
  rewritten, configured, allowed_thinking, allowed_temperature, normalize_by,
  normalize_sampling_params,
}

rewritten-rewritten :
    (family : Option ReasoningFamily) (t : Option Thinking)
    → rewritten family (rewritten family t).0 ≡ ((rewritten family t).0, false)
unfolding rewritten rewrite_legacy requires_adaptive_thinking_rewrite requires_thinking
rewritten-rewritten none t = refl
rewritten-rewritten (some f) t = ground arith

rewritten-summarized :
    (family : Option ReasoningFamily)
    → rewritten family (some summarized_thinking) ≡ (some summarized_thinking, false)
unfolding rewritten rewrite_legacy requires_thinking
rewritten-summarized family = ground arith

rewritten-allowed_thinking :
    (family : Option ReasoningFamily) (c : Option OutputConfig) (t : Option Thinking)
    → rewritten family t ≡ (t, false)
    → rewritten family (allowed_thinking family c t) ≡ (allowed_thinking family c t, false)
unfolding allowed_thinking rewritten
rewritten-allowed_thinking family c t h =
    elim (Bool-cases (
      is_some_and family (λ f. disabled_thinking_requires_rewrite f (and_then c (λ k. k.effort)))
      && is_disabled t)) [
        | inl e ↦ rw (allowed_thinking, e) (rewritten-summarized family)
        | inr e ↦ rw (allowed_thinking, e) h
      ]

allowed_thinking-allowed_thinking :
    (family : Option ReasoningFamily) (c : Option OutputConfig) (t : Option Thinking)
    → allowed_thinking family c (allowed_thinking family c t) ≡ allowed_thinking family c t
unfolding allowed_thinking
allowed_thinking-allowed_thinking family c t = ground arith

configured-configured :
    (family : Option ReasoningFamily) (force : Option OutputEffort) (due : Bool)
    (c : Option OutputConfig)
    → configured family force false (configured family force due c) ≡ configured family force due c
unfolding configured
configured-configured family force due c = ground arith

allowed_temperature-allowed_temperature :
    (family : Option ReasoningFamily) (t : Option Thinking) (x : Option ℕ)
    → allowed_temperature family t (allowed_temperature family t x) ≡ allowed_temperature family t x
unfolding allowed_temperature
allowed_temperature-allowed_temperature family t x = ground arith

normalize_by-normalize_by :
    (family : Option ReasoningFamily) (force : Option OutputEffort) (b : CreateMessageParams)
    → normalize_by family force (normalize_by family force b) ≡ normalize_by family force b
unfolding normalize_by
normalize_by-normalize_by family force b =
    let first = rewritten family b.thinking in
    let config = configured family force first.1 b.output_config in
    let thinking = allowed_thinking family config first.0 in
    rw (
      rewritten-allowed_thinking family config first.0 (rewritten-rewritten family b.thinking),
      configured-configured family force first.1 b.output_config,
      allowed_thinking-allowed_thinking family config first.0,
      allowed_temperature-allowed_temperature family thinking b.temperature,
    )

module _ (family : Option ReasoningFamily) (c : Option OutputConfig) (t : Option Thinking) where
  shaped : Option Thinking
  shaped = allowed_thinking family c (rewritten family t).0

  shaped-no_budget :
      is_some_and family requires_adaptive_thinking_rewrite ≡ true
      → (budget : ℕ) (d : Option ThinkingDisplay) → shaped ≢ some (enabled budget d)
  unfolding shaped allowed_thinking rewritten rewrite_legacy
  shaped-no_budget r budget d e = ground arith

  shaped-active : is_some_and family requires_thinking ≡ true → is_active shaped ≡ true
  unfolding shaped allowed_thinking rewritten
  shaped-active r = ground arith

  shaped-no_clash :
      is_some_and family (λ f. disabled_thinking_requires_rewrite f (and_then c (λ k. k.effort)))
        ≡ true
      → is_disabled shaped ≡ false
  unfolding shaped allowed_thinking
  shaped-no_clash r = ground arith

allowed_temperature-cases :
    (family : Option ReasoningFamily) (t : Option Thinking) (x : Option ℕ)
    → (is_active t || is_some_and family rejects_sampling_parameters) ≡ true
    → (allowed_temperature family t x ≡ none) ⊎ (allowed_temperature family t x ≡ some one_f32)
unfolding allowed_temperature
allowed_temperature-cases family t none h = inl (rw h refl)
allowed_temperature-cases family t (some x) h = elim (Bool-cases (x == one_f32)) [
  | inl e ↦ inr (rw (h, e) (ap some ((==_iff x one_f32).0 e)))
  | inr e ↦ inl (rw (h, e) refl)
]

-- A request that a model accepts, with the effort level that the operator forces, if one is set.
pub record IsAccepted (n : Named) (force : Option OutputEffort) (b : CreateMessageParams)
    : Type 0 where
  pub no_top_p : b.top_p ≡ none
  pub no_top_k : b.top_k ≡ none
  -- No thinking budget, where budgets are gone.
  pub no_budget :
      takes_budgets n ≡ false
      → (budget : ℕ) (d : Option ThinkingDisplay) → b.thinking ≢ some (enabled budget d)
  -- Thinking, where it is required.
  pub thinks : must_think n ≡ true → is_active b.thinking ≡ true
  -- No disabled thinking at an effort that does not go with it.
  pub no_clash :
      (e : OutputEffort)
      → and_then b.output_config (λ c. c.effort) ≡ some e
      → may_be_off n e ≡ false
      → is_disabled b.thinking ≡ false
  -- No temperature but 1.0 beside thinking, or where sampling parameters are refused.
  pub temperature :
      (is_active b.thinking || not (takes_sampling n)) ≡ true
      → (b.temperature ≡ none) ⊎ (b.temperature ≡ some one_f32)
  -- A forced effort is the one that is set if the model has it, and else the highest that it has.
  pub forced :
      (e : OutputEffort)
      → force ≡ some e
      → and_then b.output_config (λ c. c.effort)
        ≡ some (if has_effort n e then e else highest_effort n)

no_budget_family :
    (n : Named) → takes_budgets n ≡ false → requires_adaptive_thinking_rewrite (family_of n) ≡ true
unfolding requires_adaptive_thinking_rewrite
no_budget_family fable_5 h = refl
no_budget_family opus_5 h = refl
no_budget_family sonnet_5 h = refl
no_budget_family opus_4_8 h = refl
no_budget_family opus_4_7 h = refl
no_budget_family opus_4_6 h = cc
no_budget_family opus_4_5 h = cc

thinking_family : (n : Named) → must_think n ≡ true → requires_thinking (family_of n) ≡ true
unfolding requires_thinking
thinking_family fable_5 h = refl
thinking_family opus_5 h = cc
thinking_family sonnet_5 h = cc
thinking_family opus_4_8 h = cc
thinking_family opus_4_7 h = cc
thinking_family opus_4_6 h = cc
thinking_family opus_4_5 h = cc

clash_family :
    (n : Named) (e : OutputEffort)
    → may_be_off n e ≡ false
    → disabled_thinking_requires_rewrite (family_of n) (some e) ≡ true
unfolding disabled_thinking_requires_rewrite
clash_family opus_5 xhigh h = refl
clash_family opus_5 max h = refl
clash_family opus_5 low h = cc
clash_family opus_5 medium h = cc
clash_family opus_5 high h = cc
clash_family fable_5 e h = cc
clash_family sonnet_5 e h = cc
clash_family opus_4_8 e h = cc
clash_family opus_4_7 e h = cc
clash_family opus_4_6 e h = cc
clash_family opus_4_5 e h = cc

sampling_family : (n : Named) → not (takes_sampling n) ≡ rejects_sampling_parameters (family_of n)
unfolding rejects_sampling_parameters
sampling_family fable_5 = refl
sampling_family opus_5 = refl
sampling_family sonnet_5 = refl
sampling_family opus_4_8 = refl
sampling_family opus_4_7 = refl
sampling_family opus_4_6 = refl
sampling_family opus_4_5 = refl

clamp_family :
    (n : Named) (e : OutputEffort)
    → clamp_forced_effort (family_of n) e ≡ (if has_effort n e then e else highest_effort n)
unfolding clamp_forced_effort
clamp_family fable_5 e = refl
clamp_family opus_5 e = refl
clamp_family sonnet_5 e = refl
clamp_family opus_4_8 e = refl
clamp_family opus_4_7 e = refl
clamp_family opus_4_6 low = refl
clamp_family opus_4_6 medium = refl
clamp_family opus_4_6 high = refl
clamp_family opus_4_6 xhigh = refl
clamp_family opus_4_6 max = refl
clamp_family opus_4_5 low = refl
clamp_family opus_4_5 medium = refl
clamp_family opus_4_5 high = refl
clamp_family opus_4_5 xhigh = refl
clamp_family opus_4_5 max = refl

configured-forced :
    (f : ReasoningFamily) (force : Option OutputEffort) (e : OutputEffort) (due : Bool)
    (c : Option OutputConfig)
    → force ≡ some e
    → and_then (configured (some f) force due c) (λ k. k.effort) ≡ some (clamp_forced_effort f e)
unfolding configured
configured-forced f force e due c q = rw (q, configured) refl

normalize_by-IsAccepted :
    (n : Named) (b : CreateMessageParams) (force : Option OutputEffort)
    → IsAccepted n force (normalize_by (some (family_of n)) force b)
unfolding normalize_by shaped
normalize_by-IsAccepted n b force =
    let family = some (family_of n) in
    let due = (rewritten family b.thinking).1 in
    let c = configured family force due b.output_config in
    record {
      no_top_p = refl;
      no_top_k = refl;
      no_budget = λ h. shaped-no_budget family c b.thinking (no_budget_family n h);
      thinks = λ h. shaped-active family c b.thinking (thinking_family n h);
      no_clash = λ e q h. shaped-no_clash family c b.thinking (rw q (clash_family n e h));
      temperature = λ h.
          allowed_temperature-cases family (shaped family c b.thinking) b.temperature
            (ap (λ r. is_active (shaped family c b.thinking) || r) (sym (sampling_family n)) ∙ h);
      forced = λ e q.
          configured-forced (family_of n) force e due b.output_config q
          ∙ ap some (clamp_family n e);
    }

-- A shaped request for one of the models with rules of their own, named in any case and with or without a date, is one that
-- the model accepts: no `top_p` and no `top_k`; no thinking budget where budgets are gone; thinking where it is required;
-- no disabled thinking beside an effort that forbids it; no temperature but 1.0 beside thinking or where sampling
-- parameters are refused; and an effort that the operator forces is set, or the highest that the model has in place of
-- one that it has not. Shaping it again changes nothing. Of an effort that the client asks for
-- nothing is said.
pub normalize_sampling_params-IsAccepted :
    (n : Named) (b : CreateMessageParams) (force : Option OutputEffort)
    → Names n b.model
    → IsAccepted n force (normalize_sampling_params b force)
      × (normalize_sampling_params (normalize_sampling_params b force) force
          ≡ normalize_sampling_params b force)
unfolding normalize_sampling_params normalize_by
normalize_sampling_params-IsAccepted n b force named = (
  subst (λ family. IsAccepted n force (normalize_by family force b))
      (sym (detect-Names n b.model named)) (normalize_by-IsAccepted n b force),
  normalize_by-normalize_by (detect b.model) force b,
)
