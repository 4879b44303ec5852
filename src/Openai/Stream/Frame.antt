-- ===== src/Openai/Stream/Frame.antt =====
-- src/middleware/openai/stream.rs: how a stream begins and ends, whatever the upstream sends.
use mathlib.Core.List.{append-nil}
use clewdr_hub.Common.{
  ℕ, ◌≡◌, refl, sym, ap, subst, String, Bool, true, false, ◌&&◌, none, some, List, [], ◌∷◌, ◌++◌,
  if◌then◌else◌, is_some, inl, inr, ◌⊎◌, Bool-cases, Option-cases, get, ℤ,
}
use clewdr_hub.Openai.{
  ContentBlock, text_block, tool_use_block, thinking_block, fallback_block, other_block,
  ContentBlockDelta, text_delta, input_json_delta, thinking_delta, signature_delta, StreamEvent,
  message_start, content_block_start, content_block_delta, content_block_stop, message_delta,
  message_stop, ping, error, StreamChoice,
}
use clewdr_hub.Openai.Stream.{
  BlockKind, text_kind, tool_kind, thinking_kind, other_kind, StreamPayload, chunk, failed,
  StreamState, new_stream_state, chunk_with_choice, chunk_usage_only, finish_chunks, start_block,
  delta_chunks, send_role, process_event, process, finalize, Item, event, skipped, broken, drive,
}

-- A choice that says why the message is over.
abbrev pub closes : List StreamChoice → Bool
closes [] = false
closes (c ∷ cs) = is_some c.finish_reason

-- A payload that ends the message: a finish reason, or an error.
abbrev pub ends_message : StreamPayload → Bool
ends_message (failed e) = true
ends_message (chunk c) = closes c.choices

abbrev pub carries_usage : StreamPayload → Bool
carries_usage (failed e) = false
carries_usage (chunk c) = is_some c.usage

-- What may follow the end of a message: the usage, at most once.
pub data IsTail : List StreamPayload → Type 0 where
  nothing : IsTail []
  usage : {p : StreamPayload} → carries_usage p ≡ true → ends_message p ≡ false → IsTail (p ∷ [])

-- Payloads that neither end the message nor carry its usage, then one that ends it, then the tail.
pub data IsFramed : List StreamPayload → Type 0 where
  last :
      {p : StreamPayload} {ps : List StreamPayload}
      → ends_message p ≡ true
      → IsTail ps
      → IsFramed (p ∷ ps)
  before :
      {p : StreamPayload} {ps : List StreamPayload}
      → ends_message p ≡ false
      → carries_usage p ≡ false
      → IsFramed ps
      → IsFramed (p ∷ ps)

abbrev ArePlain : List StreamPayload → Type 0
ArePlain [] = Unit {0}
ArePlain (p ∷ ps) = (ends_message p ≡ false) × (carries_usage p ≡ false) × ArePlain ps

IsFramed-append :
    (ps : List StreamPayload) {qs : List StreamPayload}
    → ArePlain ps
    → IsFramed qs
    → IsFramed (ps ++ qs)
IsFramed-append [] a f = f
IsFramed-append (p ∷ ps) (e, u, a) f = before e u (IsFramed-append ps a f)

finish_chunks-IsFramed : (s : StreamState) (u : Bool) → IsFramed (finish_chunks s u)
unfolding finish_chunks chunk_with_choice chunk_usage_only
finish_chunks-IsFramed s u = elim (Bool-cases (u && s.seen_usage)) [
  | inl e ↦ rw e (last refl (usage refl refl))
  | inr e ↦ rw e (last refl nothing)
]

-- One event goes on with plain payloads, or it ends the message.
abbrev Steps : StreamState × List StreamPayload → Type 0
Steps (t, ps) = ((t.finished ≡ false) × ArePlain ps) ⊎ ((t.finished ≡ true) × IsFramed ps)

delta_chunks-ArePlain :
    (s : StreamState) (i : ℕ) (r : Bool) (k : BlockKind) (d : ContentBlockDelta)
    → ArePlain (delta_chunks s i r k d)
unfolding delta_chunks chunk_with_choice
delta_chunks-ArePlain s i r text_kind (text_delta t) = (refl, refl, tt)
delta_chunks-ArePlain s i r text_kind (input_json_delta t) = tt
delta_chunks-ArePlain s i r text_kind (thinking_delta t) = tt
delta_chunks-ArePlain s i r text_kind (signature_delta t) = tt
delta_chunks-ArePlain s i r tool_kind (text_delta t) = tt
delta_chunks-ArePlain s i r tool_kind (input_json_delta t) =
    elim (Option-cases (get i s.tool_sub_idx)) [
      | inl e ↦ rw (e, ArePlain) tt
      | inr (n, e) ↦ rw (e, ArePlain) (refl, refl, tt)
    ]
delta_chunks-ArePlain s i r tool_kind (thinking_delta t) = tt
delta_chunks-ArePlain s i r tool_kind (signature_delta t) = tt
delta_chunks-ArePlain s i r thinking_kind (text_delta t) = tt
delta_chunks-ArePlain s i r thinking_kind (input_json_delta t) = tt
delta_chunks-ArePlain s i true thinking_kind (thinking_delta t) = (refl, refl, tt)
delta_chunks-ArePlain s i false thinking_kind (thinking_delta t) = tt
delta_chunks-ArePlain s i r thinking_kind (signature_delta t) = tt
delta_chunks-ArePlain s i r other_kind d = tt

start_block-Steps :
    (s : StreamState) (i : ℕ) (b : ContentBlock) → s.finished ≡ false → Steps (start_block s i b)
unfolding start_block chunk_with_choice
start_block-Steps s i (text_block t) h = inl (h, tt)
start_block-Steps s i (tool_use_block id name input) h = inl (h, (refl, refl, tt))
start_block-Steps s i (thinking_block g t) h = inl (h, tt)
start_block-Steps s i (fallback_block m) h = inl (h, tt)
start_block-Steps s i (other_block b) h = inl (h, tt)

send_role-Steps : (s : StreamState) → s.finished ≡ false → Steps (send_role s)
unfolding chunk_with_choice
send_role-Steps s h = elim (Bool-cases s.role_chunk_sent) [
  | inl e ↦ rw e (inl (h, tt))
  | inr e ↦ rw e (inl (h, (refl, refl, tt)))
]

process_event-Steps :
    (s : StreamState) (r u : Bool) (ev : StreamEvent)
    → s.finished ≡ false
    → Steps (process_event s r u ev)
unfolding process_event
process_event-Steps s r u (message_start m none) h = send_role-Steps _ h
process_event-Steps s r u (message_start m (some w)) h = send_role-Steps _ h
process_event-Steps s r u (content_block_start i b) h = start_block-Steps s i b h
process_event-Steps s r u (content_block_delta i d) h = inl (h, delta_chunks-ArePlain s i r _ d)
process_event-Steps s r u (content_block_stop i) h = inl (h, tt)
process_event-Steps s r u (message_delta none none) h = inl (h, tt)
process_event-Steps s r u (message_delta none (some w)) h = inl (h, tt)
process_event-Steps s r u (message_delta (some stop) none) h = inl (h, tt)
process_event-Steps s r u (message_delta (some stop) (some w)) h = inl (h, tt)
process_event-Steps s r u message_stop h = inr (refl, finish_chunks-IsFramed s u)
process_event-Steps s r u ping h = inl (h, tt)
process_event-Steps s r u (error k m) h = inr (refl, last refl nothing)

pub finalize-open :
    (s : StreamState) (u : Bool) → s.finished ≡ false → finalize s u ≡ finish_chunks s u
unfolding finalize
finalize-open s u h = ap (λ b. if b then [] else finish_chunks s u) h

pub process-open :
    (s : StreamState) (r u : Bool) (ev : StreamEvent)
    → s.finished ≡ false
    → process s r u ev ≡ process_event s r u ev
unfolding process
process-open s r u ev h = ap (λ b. if b then (s, []) else process_event s r u ev) h

module _ (upstream_failed : String → String) (r u : Bool) where
  -- What the loop sends from an event on.
  abbrev pub continue : List Item → StreamState × List StreamPayload → List StreamPayload
  continue items (t, ps) =
      ps ++ (if t.finished then finalize t u else drive upstream_failed t r u items)

  continue-IsFramed :
      (items : List Item) (next : StreamState × List StreamPayload)
      → ((t : StreamState) → t.finished ≡ false → IsFramed (drive upstream_failed t r u items))
      → Steps next
      → IsFramed (continue items next)
  unfolding finalize
  continue-IsFramed items (t, ps) rest (inl (h, a)) = IsFramed-append ps a (
      subst (λ b. IsFramed (if b then finalize t u else drive upstream_failed t r u items)) (sym h)
        (rest t h))
  continue-IsFramed items (t, ps) rest (inr (h, f)) =
      subst
        (λ b. IsFramed (
          ps
          ++ (if b
              then (if b then [] else finish_chunks t u)
              else drive upstream_failed t r u items)))
        (sym h) (subst IsFramed (sym (append-nil ps)) f)

  drive-IsFramed_from :
      (items : List Item) (s : StreamState)
      → s.finished ≡ false
      → IsFramed (drive upstream_failed s r u items)
  unfolding drive
  drive-IsFramed_from [] s h =
      subst IsFramed (sym (finalize-open s u h)) (finish_chunks-IsFramed s u)
  drive-IsFramed_from (skipped ∷ items) s h = drive-IsFramed_from items s h
  drive-IsFramed_from (broken e ∷ items) s h = last refl nothing
  drive-IsFramed_from (event ev ∷ items) s h =
      subst (λ next. IsFramed (continue items next)) (sym (process-open s r u ev h))
        (continue-IsFramed items _ (drive-IsFramed_from items) (process_event-Steps s r u ev h))

  -- Whatever the upstream sends, in any order and cut off or broken anywhere, a stream consists of payloads that neither
  -- end the message nor carry usage, then exactly one that ends it, by a finish reason or an error, and then of one
  -- usage chunk or nothing.
  pub drive-IsFramed :
      (id : String) (created : ℤ) (model : String) (items : List Item)
      → IsFramed (drive upstream_failed (new_stream_state id created model) r u items)
  unfolding new_stream_state
  drive-IsFramed id created model items = drive-IsFramed_from items _ refl
