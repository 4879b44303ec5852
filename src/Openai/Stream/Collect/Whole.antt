-- ===== src/Openai/Stream/Collect/Whole.antt =====
-- src/middleware/openai: what a streamed message and a whole one give the client.
use mathlib.Core.List.{append-nil}
use clewdr_hub.Common.{
  ◌≡◌, refl, ap, ◌∙◌, String, Bool, true, false, ◌&&◌, Option, none, some, List, [], ◌∷◌, map,
  if◌then◌else◌, ltb, unwrap_or, inl, inr, Bool-cases, ℤ,
}
use clewdr_hub.Openai.{
  StopReason, Usage, StreamUsage, StreamEvent, message_start, message_delta, message_stop,
  ChatCompletion, ToolCall,
}
use clewdr_hub.Openai.Response.{
  nothing_collected, collect_blocks, has_any, unless_empty, map_stop_reason, build_chat_completion,
}
use clewdr_hub.Openai.Stream.{
  StreamState, new_stream_state, with_model, with_initial, with_stop, with_final, chunk_with_choice,
  chunk_usage_only, process_event, event, drive, finalize, finish_chunks, map_terminal_finish,
}
use clewdr_hub.Pool.State.{values}
use clewdr_hub.Openai.Stream.Frame.{process-open, continue}
use clewdr_hub.Openai.Stream.Collect.{
  Streamed, blocks_of, blocks_events, Assembled, nothing_assembled, reprinted, add_calls, assemble,
}
use clewdr_hub.Openai.Stream.Collect.Steps.{after, after_event}
use clewdr_hub.Openai.Stream.Collect.Blocks.{IsCarried, blocks-Carries}

-- The client has put together what the whole message is translated to, but for the print of the arguments.
pub record IsSame (to_string : String → Option String) (a : Assembled) (whole : ChatCompletion)
    : Type 0 where
  pub content : unless_empty a.content ≡ whole.message.content
  pub tool_calls :
      (if has_any (values a.calls) then some (map (reprinted to_string) (values a.calls)) else none)
      ≡ whole.message.tool_calls
  pub reasoning : unless_empty a.reasoning ≡ whole.message.reasoning_content
  pub finish_reason : a.finish_reason ≡ some whole.finish_reason

some_printed :
    (f : ToolCall → ToolCall) (cs : List ToolCall)
    → (if has_any cs then some (map f cs) else none)
      ≡ (if has_any (map f cs) then some (map f cs) else none)
some_printed f [] = refl
some_printed f (c ∷ cs) = refl

assemble-finish_chunks :
    (s : StreamState) (u : Bool) (a : Assembled)
    → assemble (finish_chunks s u) a ≡ record a { finish_reason = some (map_terminal_finish s) }
unfolding finish_chunks chunk_with_choice chunk_usage_only assemble add_calls
assemble-finish_chunks s u a = elim (Bool-cases (u && s.seen_usage)) [
  | inl e ↦ rw (e, assemble) refl
  | inr e ↦ rw (e, assemble) refl
]

map_terminal_finish-stop :
    (s : StreamState) (stop : Option StopReason) (w : Option StreamUsage)
    → s.pending_finish_reason ≡ none
    → map_terminal_finish (with_final w (with_stop stop s))
      ≡ map_stop_reason stop (ltb 0 s.next_tool_idx)
unfolding map_terminal_finish
map_terminal_finish-stop s none none h =
    ap (λ p. unwrap_or p (map_stop_reason none (ltb 0 s.next_tool_idx))) h
map_terminal_finish-stop s none (some w) h =
    ap (λ p. unwrap_or p (map_stop_reason none (ltb 0 s.next_tool_idx))) h
map_terminal_finish-stop s (some stop) none h = refl
map_terminal_finish-stop s (some stop) (some w) h = refl

with_stop-finished :
    (s : StreamState) (stop : Option StopReason) (w : Option StreamUsage)
    → (with_final w (with_stop stop s)).finished ≡ s.finished
with_stop-finished s none none = refl
with_stop-finished s none (some w) = refl
with_stop-finished s (some stop) none = refl
with_stop-finished s (some stop) (some w) = refl

module _ (upstream_failed : String → String) (to_string : String → Option String) (r u : Bool) where
  abbrev seen_after : StreamState → List StreamEvent → Assembled → Assembled
  seen_after = after upstream_failed r u

  after_message_stop :
      (s : StreamState) (a : Assembled)
      → s.finished ≡ false
      → seen_after s (message_stop ∷ []) a
        ≡ record a { finish_reason = some (map_terminal_finish s) }
  unfolding after drive process_event finalize
  after_message_stop s a h =
      ap (λ next. assemble (continue upstream_failed r u [] next) a)
        (process-open s r u message_stop h)
      ∙ ap (λ ps. assemble ps a) (append-nil (finish_chunks s u))
      ∙ assemble-finish_chunks s u a

  after_end :
      (s : StreamState) (stop : Option StopReason) (w : Option StreamUsage) (a : Assembled)
      → s.finished ≡ false
      → s.pending_finish_reason ≡ none
      → seen_after s (message_delta stop w ∷ message_stop ∷ []) a
        ≡ record a { finish_reason = some (map_stop_reason stop (ltb 0 s.next_tool_idx)) }
  unfolding process_event assemble
  after_end s stop w a h p =
      let t = with_final w (with_stop stop s) in
      let still = with_stop-finished s stop w ∙ h in
      after_event upstream_failed r u s (message_delta stop w) (message_stop ∷ []) a h still
      ∙ after_message_stop t a still
      ∙ ap (λ f. record a { finish_reason = some f }) (map_terminal_finish-stop s stop w p)

  module _ (id : String) (created : ℤ) (request_model model : String) where
    -- The state once the message has started.
    abbrev begun : Option Usage → StreamState
    begun w =
        record (with_initial w (with_model model (new_stream_state id created request_model))) {
          role_chunk_sent = true;
        }

    after_start :
        (w : Option Usage) (events : List StreamEvent)
        → seen_after
            (new_stream_state id created request_model)
            (message_start model w ∷ events)
            nothing_assembled
          ≡ seen_after (begun w) events nothing_assembled
    unfolding process_event new_stream_state chunk_with_choice assemble add_calls
    after_start none events =
        after_event upstream_failed r u (new_stream_state id created request_model)
          (message_start model none) events nothing_assembled refl refl
    after_start (some w) events =
        after_event upstream_failed r u (new_stream_state id created request_model)
          (message_start model (some w)) events nothing_assembled refl refl

    begun-IsCarried :
        (w : Option Usage) → IsCarried to_string (begun w) nothing_assembled nothing_collected
    unfolding new_stream_state values
    begun-IsCarried none = record {
      open_still = refl;
      pending = refl;
      content = refl;
      calls = refl;
      reasoning = refl;
      below = tt;
      counted = refl;
    }
    begun-IsCarried (some w) = record {
      open_still = refl;
      pending = refl;
      content = refl;
      calls = refl;
      reasoning = refl;
      below = tt;
      counted = refl;
    }

    -- A message that the upstream streams, its blocks in pieces, one after the other, and that is translated event by
    -- event gives the client the same text, reasoning and finish reason as the translation of the whole message, its
    -- blocks put together from their pieces, and tool calls in the same order with the same ids and names. The arguments
    -- of a call of the whole message are what serde_json prints of the input that the streamed arguments make, `{}` if
    -- they are empty. All this whatever the pieces, the models and the usages.
    pub drive-IsSame :
        (message : List Streamed) (stop : Option StopReason) (first : Option Usage)
        (final : Option StreamUsage) (total : Option Usage)
        → IsSame to_string
            (assemble
              (drive upstream_failed (new_stream_state id created request_model) r u (
                map event (
                  message_start model first
                  ∷ blocks_events 0 message (message_delta stop final ∷ message_stop ∷ []))))
              nothing_assembled)
            (build_chat_completion to_string id created
              (record {
                content = blocks_of message;
                model = model;
                stop_reason = stop;
                usage = total;
              })
              r)
    unfolding after build_chat_completion
    drive-IsSame message stop first final total =
        let ending = message_delta stop final ∷ message_stop ∷ [] in
        let k =
          blocks-Carries upstream_failed to_string r u message (begun first) 0 ending
            nothing_assembled nothing_collected (begun-IsCarried first) in
        let c = collect_blocks to_string r (blocks_of message) nothing_collected in
        let all =
          after_start first (blocks_events 0 message ending)
          ∙ k.same
          ∙ after_end k.state stop final k.seen k.carried.open_still k.carried.pending in
        rw all (record {
          content = ap unless_empty k.carried.content;
          tool_calls =
              some_printed (reprinted to_string) (values k.seen.calls)
              ∙ ap (λ cs. if has_any cs then some cs else none) k.carried.calls;
          reasoning = ap unless_empty k.carried.reasoning;
          finish_reason = ap (λ b. some (map_stop_reason stop b)) k.carried.counted;
        })
