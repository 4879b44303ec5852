-- ===== src/Openai/Stream/Tools.antt =====
-- src/middleware/openai/stream.rs: the indices of the tool calls.
use mathlib.Core.List.{append-nil}
use clewdr_hub.Common.{
  ℕ, ◌+◌, ◌<◌, ◌≡◌, refl, sym, subst, String, Bool, true, false, ◌&&◌, Option, none, some, List, [],
  ◌∷◌, ◌++◌, arith, if◌then◌else◌, is_some, inl, inr, Bool-cases, Option-cases, get, insert, remove,
  ◌==◌, ℤ,
}
use clewdr_hub.Openai.{
  ContentBlock, text_block, tool_use_block, thinking_block, fallback_block, other_block,
  ContentBlockDelta, text_delta, input_json_delta, thinking_delta, signature_delta, StreamEvent,
  message_start, content_block_start, content_block_delta, content_block_stop, message_delta,
  message_stop, ping, error, StreamChoice, DeltaToolCall,
}
use clewdr_hub.Openai.Stream.{
  BlockKind, text_kind, tool_kind, thinking_kind, other_kind, StreamPayload, chunk, failed,
  StreamState, new_stream_state, chunk_with_choice, chunk_usage_only, finish_chunks, start_block,
  delta_chunks, send_role, process_event, process, finalize, Item, event, skipped, broken, drive,
  with_model, with_initial,
}
use clewdr_hub.Openai.Stream.Frame.{continue}

abbrev first_call : Option (List DeltaToolCall) → Option DeltaToolCall
first_call none = none
first_call (some []) = none
first_call (some (t ∷ ts)) = some t

abbrev call_of_choices : List StreamChoice → Option DeltaToolCall
call_of_choices [] = none
call_of_choices (c ∷ cs) = first_call c.delta.tool_calls

-- What a payload says of a tool call.
abbrev pub call_of : StreamPayload → Option DeltaToolCall
call_of (failed e) = none
call_of (chunk c) = call_of_choices c.choices

-- After `n` tool calls: the calls that are opened, with their ids, have the next indices in turn, and what follows of a
-- call has the index of one that is open.
pub data IsIndexed : ℕ → List StreamPayload → Type 0 where
  nothing : {n : ℕ} → IsIndexed n []
  other :
      {n : ℕ} {p : StreamPayload} {ps : List StreamPayload}
      → call_of p ≡ none
      → IsIndexed n ps
      → IsIndexed n (p ∷ ps)
  opens :
      {n : ℕ} {p : StreamPayload} {ps : List StreamPayload} (t : DeltaToolCall)
      → call_of p ≡ some t
      → is_some t.id ≡ true
      → t.index ≡ n
      → IsIndexed (n + 1) ps
      → IsIndexed n (p ∷ ps)
  follows :
      {n : ℕ} {p : StreamPayload} {ps : List StreamPayload} (t : DeltaToolCall)
      → call_of p ≡ some t
      → is_some t.id ≡ false
      → t.index < n
      → IsIndexed n ps
      → IsIndexed n (p ∷ ps)

abbrev AreBelow : ℕ → List (ℕ × ℕ) → Type 0
AreBelow n [] = Unit {0}
AreBelow n ((k, v) ∷ m) = (v < n) × AreBelow n m

AreBelow-suc : (n : ℕ) (m : List (ℕ × ℕ)) → AreBelow n m → AreBelow (n + 1) m
AreBelow-suc n [] h = tt
AreBelow-suc n ((k, v) ∷ m) h = (omega (arith, h.0), AreBelow-suc n m h.1)

AreBelow-remove : (n i : ℕ) (m : List (ℕ × ℕ)) → AreBelow n m → AreBelow n (remove i m)
unfolding remove
AreBelow-remove n i [] h = tt
AreBelow-remove n i ((k, v) ∷ m) h = elim (Bool-cases (k == i)) [
  | inl e ↦ rw e (AreBelow-remove n i m h.1)
  | inr e ↦ rw e (h.0, AreBelow-remove n i m h.1)
]

AreBelow-insert : (n i : ℕ) (m : List (ℕ × ℕ)) → AreBelow n m → AreBelow (n + 1) (insert i n m)
unfolding insert
AreBelow-insert n i m h = (omega arith, AreBelow-remove (n + 1) i m (AreBelow-suc n m h))

below_of_get : (n i v : ℕ) (m : List (ℕ × ℕ)) → AreBelow n m → get i m ≡ some v → v < n
unfolding get
below_of_get n i v [] h e = cc
below_of_get n i v ((k, w) ∷ m) h e = ground (arith, below_of_get n i v m h.1)

-- A step that keeps the indices below the number of calls, and sends what a stream may begin with that goes on from there.
record IsIndexStep (n : ℕ) (next : StreamState × List StreamPayload) : Type 0 where
  below : AreBelow next.0.next_tool_idx next.0.tool_sub_idx
  prepend :
      (qs : List StreamPayload) → IsIndexed next.0.next_tool_idx qs → IsIndexed n (next.1 ++ qs)

abbrev IsBelow : StreamState → Type 0
IsBelow s = AreBelow s.next_tool_idx s.tool_sub_idx

delta_chunks-prepend :
    (s : StreamState) (i : ℕ) (r : Bool) (k : BlockKind) (d : ContentBlockDelta)
    → IsBelow s
    → (qs : List StreamPayload) → IsIndexed s.next_tool_idx qs
    → IsIndexed s.next_tool_idx (delta_chunks s i r k d ++ qs)
unfolding delta_chunks chunk_with_choice
delta_chunks-prepend s i r text_kind (text_delta t) b qs q = other refl q
delta_chunks-prepend s i r text_kind (input_json_delta t) b qs q = q
delta_chunks-prepend s i r text_kind (thinking_delta t) b qs q = q
delta_chunks-prepend s i r text_kind (signature_delta t) b qs q = q
delta_chunks-prepend s i r tool_kind (text_delta t) b qs q = q
delta_chunks-prepend s i r tool_kind (input_json_delta t) b qs q =
    elim (Option-cases (get i s.tool_sub_idx)) [
      | inl e ↦ rw (e, ◌++◌) q
      | inr (n, e) ↦ rw (e, ◌++◌) (follows _ refl refl (below_of_get _ i n s.tool_sub_idx b e) q)
    ]
delta_chunks-prepend s i r tool_kind (thinking_delta t) b qs q = q
delta_chunks-prepend s i r tool_kind (signature_delta t) b qs q = q
delta_chunks-prepend s i r thinking_kind (text_delta t) b qs q = q
delta_chunks-prepend s i r thinking_kind (input_json_delta t) b qs q = q
delta_chunks-prepend s i true thinking_kind (thinking_delta t) b qs q = other refl q
delta_chunks-prepend s i false thinking_kind (thinking_delta t) b qs q = q
delta_chunks-prepend s i r thinking_kind (signature_delta t) b qs q = q
delta_chunks-prepend s i r other_kind d b qs q = q

start_block-IsIndexStep :
    (s : StreamState) (i : ℕ) (c : ContentBlock)
    → IsBelow s
    → IsIndexStep s.next_tool_idx (start_block s i c)
unfolding start_block chunk_with_choice
start_block-IsIndexStep s i (text_block t) b = record { below = b; prepend = λ qs q. q }
start_block-IsIndexStep s i (tool_use_block id name input) b = record {
  below = AreBelow-insert s.next_tool_idx i s.tool_sub_idx b;
  prepend = λ qs q. opens _ refl refl refl q;
}
start_block-IsIndexStep s i (thinking_block g t) b = record { below = b; prepend = λ qs q. q }
start_block-IsIndexStep s i (fallback_block m) b = record { below = b; prepend = λ qs q. q }
start_block-IsIndexStep s i (other_block c) b = record { below = b; prepend = λ qs q. q }

send_role-IsIndexStep : (s : StreamState) → IsBelow s → IsIndexStep s.next_tool_idx (send_role s)
unfolding chunk_with_choice
send_role-IsIndexStep s b = elim (Bool-cases s.role_chunk_sent) [
  | inl e ↦ rw e (record { below = b; prepend = λ qs q. q })
  | inr e ↦ rw e (record { below = b; prepend = λ qs q. other refl q })
]

finish_chunks-prepend :
    (s : StreamState) (u : Bool) (n : ℕ) (qs : List StreamPayload)
    → IsIndexed n qs
    → IsIndexed n (finish_chunks s u ++ qs)
unfolding finish_chunks chunk_with_choice chunk_usage_only
finish_chunks-prepend s u n qs q = elim (Bool-cases (u && s.seen_usage)) [
  | inl e ↦ rw e (other refl (other refl q))
  | inr e ↦ rw e (other refl q)
]

process_event-IsIndexStep :
    (s : StreamState) (r u : Bool) (ev : StreamEvent)
    → IsBelow s
    → IsIndexStep s.next_tool_idx (process_event s r u ev)
unfolding process_event
process_event-IsIndexStep s r u (message_start m none) b = send_role-IsIndexStep (with_model m s) b
process_event-IsIndexStep s r u (message_start m (some w)) b =
    send_role-IsIndexStep (with_initial (some w) (with_model m s)) b
process_event-IsIndexStep s r u (content_block_start i c) b = start_block-IsIndexStep s i c b
process_event-IsIndexStep s r u (content_block_delta i d) b = record {
  below = b;
  prepend = delta_chunks-prepend s i r _ d b;
}
process_event-IsIndexStep s r u (content_block_stop i) b = record { below = b; prepend = λ qs q. q }
process_event-IsIndexStep s r u (message_delta none none) b = record {
  below = b;
  prepend = λ qs q. q;
}
process_event-IsIndexStep s r u (message_delta none (some w)) b = record {
  below = b;
  prepend = λ qs q. q;
}
process_event-IsIndexStep s r u (message_delta (some stop) none) b = record {
  below = b;
  prepend = λ qs q. q;
}
process_event-IsIndexStep s r u (message_delta (some stop) (some w)) b = record {
  below = b;
  prepend = λ qs q. q;
}
process_event-IsIndexStep s r u message_stop b = record {
  below = b;
  prepend = finish_chunks-prepend s u s.next_tool_idx;
}
process_event-IsIndexStep s r u ping b = record { below = b; prepend = λ qs q. q }
process_event-IsIndexStep s r u (error k m) b = record { below = b; prepend = λ qs q. other refl q }

finalize-IsIndexed : (s : StreamState) (u : Bool) (n : ℕ) → IsIndexed n (finalize s u)
unfolding finalize
finalize-IsIndexed s u n = elim (Bool-cases s.finished) [
  | inl e ↦ subst (λ b. IsIndexed n (if b then [] else finish_chunks s u)) (sym e) nothing
  | inr e ↦
      subst (λ b. IsIndexed n (if b then [] else finish_chunks s u)) (sym e)
        (subst (IsIndexed n) (append-nil (finish_chunks s u))
          (finish_chunks-prepend s u n [] nothing))
]

module _ (upstream_failed : String → String) (r u : Bool) where
  after_step :
      (items : List Item) (next : StreamState × List StreamPayload)
      → ((t : StreamState)
          → IsBelow t
          → IsIndexed t.next_tool_idx (drive upstream_failed t r u items))
      → (n : ℕ) → IsIndexStep n next
      → IsIndexed n (continue upstream_failed r u items next)
  after_step items (t, ps) rest n k = k.prepend _ (elim (Bool-cases t.finished) [
    | inl e ↦
        subst
          (λ b.
            IsIndexed t.next_tool_idx
              (if b then finalize t u else drive upstream_failed t r u items))
          (sym e) (finalize-IsIndexed t u t.next_tool_idx)
    | inr e ↦
        subst
          (λ b.
            IsIndexed t.next_tool_idx
              (if b then finalize t u else drive upstream_failed t r u items))
          (sym e) (rest t k.below)
  ])

  process-IsIndexStep :
      (s : StreamState) (ev : StreamEvent)
      → IsBelow s
      → IsIndexStep s.next_tool_idx (process s r u ev)
  unfolding process
  process-IsIndexStep s ev b = elim (Bool-cases s.finished) [
    | inl e ↦
        subst (λ c. IsIndexStep s.next_tool_idx (if c then (s, []) else process_event s r u ev))
          (sym e) (record { below = b; prepend = λ qs q. q })
    | inr e ↦
        subst (λ c. IsIndexStep s.next_tool_idx (if c then (s, []) else process_event s r u ev))
          (sym e) (process_event-IsIndexStep s r u ev b)
  ]

  drive-IsIndexed_from :
      (items : List Item) (s : StreamState)
      → IsBelow s
      → IsIndexed s.next_tool_idx (drive upstream_failed s r u items)
  unfolding drive
  drive-IsIndexed_from [] s b = finalize-IsIndexed s u s.next_tool_idx
  drive-IsIndexed_from (skipped ∷ items) s b = drive-IsIndexed_from items s b
  drive-IsIndexed_from (broken e ∷ items) s b = other refl nothing
  drive-IsIndexed_from (event ev ∷ items) s b =
      after_step items (process s r u ev) (drive-IsIndexed_from items) s.next_tool_idx
        (process-IsIndexStep s ev b)

  -- Whatever the upstream sends, the tool calls of a stream are numbered 0, 1, 2, … in the order in which they are opened,
  -- and each further piece of a call's arguments has the index of a call that was opened before it.
  pub drive-IsIndexed :
      (id : String) (created : ℤ) (model : String) (items : List Item)
      → IsIndexed 0 (drive upstream_failed (new_stream_state id created model) r u items)
  unfolding new_stream_state
  drive-IsIndexed id created model items = drive-IsIndexed_from items _ tt
