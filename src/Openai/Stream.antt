-- ===== src/Openai/Stream.antt =====
-- src/middleware/openai/stream.rs: `StreamState`, which turns the events of a message into the chunks of a completion,
-- and the loop that drives it. The id and the time of a completion are arguments.
pub mod Frame
pub mod Tools
pub mod Collect
use text.Mathlib.Text.{◌==◌ as str_eq}
use clewdr_hub.Common.{
  ℕ, suc, ◌+◌, String, Bool, true, false, not, ◌&&◌, Option, none, some, List, [], ◌∷◌, ◌++◌, map,
  ltb, if◌then◌else◌, unwrap_or, get, insert, ℤ,
}
use clewdr_hub.Openai.{
  StopReason, Usage, StreamUsage, UsageOut, ContentBlock, text_block, tool_use_block,
  thinking_block, fallback_block, other_block, ContentBlockDelta, text_delta, input_json_delta,
  thinking_delta, signature_delta, StreamEvent, message_start, content_block_start,
  content_block_delta, content_block_stop, message_delta, message_stop, ping, error, Delta,
  no_delta, ChatCompletionChunk, OpenaiErrorBody,
}
use clewdr_hub.Openai.Response.{map_stop_reason, anthropic_type_to_oai, usage_out}

-- `BlockKind`.
pub data BlockKind : Type 0 where
  text_kind tool_kind thinking_kind other_kind : BlockKind

-- `AccumulatedUsage`.
pub record AccumulatedUsage : Type 0 where
  pub input_tokens : ℕ
  pub output_tokens : ℕ
  pub cache_creation : ℕ
  pub cache_read : ℕ

-- `AccumulatedUsage::merge_initial`.
unfoldable pub merge_initial : AccumulatedUsage → Usage → AccumulatedUsage
merge_initial a u = record {
  input_tokens = if ltb 0 u.input_tokens then u.input_tokens else a.input_tokens;
  output_tokens = if ltb 0 u.output_tokens then u.output_tokens else a.output_tokens;
  cache_creation = unwrap_or u.cache_creation_input_tokens a.cache_creation;
  cache_read = unwrap_or u.cache_read_input_tokens a.cache_read;
}

-- `AccumulatedUsage::merge_delta`.
unfoldable pub merge_delta : AccumulatedUsage → StreamUsage → AccumulatedUsage
merge_delta a u = record {
  input_tokens = if ltb 0 u.input_tokens then u.input_tokens else a.input_tokens;
  output_tokens = u.output_tokens;
  cache_creation = unwrap_or u.cache_creation_input_tokens a.cache_creation;
  cache_read = unwrap_or u.cache_read_input_tokens a.cache_read;
}

-- `AccumulatedUsage::to_out`.
unfoldable pub to_out : AccumulatedUsage → UsageOut
to_out a = usage_out a.input_tokens a.output_tokens a.cache_creation a.cache_read

-- `StreamPayload`.
pub data StreamPayload : Type 0 where
  chunk : ChatCompletionChunk → StreamPayload
  failed : OpenaiErrorBody → StreamPayload

-- `StreamState`.
pub record StreamState : Type 0 where
  pub completion_id : String
  pub created : ℤ
  pub model : String
  pub block_kind : List (ℕ × BlockKind)
  pub tool_sub_idx : List (ℕ × ℕ)
  pub next_tool_idx : ℕ
  pub usage : AccumulatedUsage
  pub pending_finish_reason : Option String
  pub role_chunk_sent : Bool
  pub finished : Bool
  pub seen_usage : Bool

-- `StreamState::new`.
unfoldable pub new_stream_state : String → ℤ → String → StreamState
new_stream_state completion_id created request_model = record {
  completion_id = completion_id;
  created = created;
  model = request_model;
  block_kind = [];
  tool_sub_idx = [];
  next_tool_idx = 0;
  usage = record { input_tokens = 0; output_tokens = 0; cache_creation = 0; cache_read = 0 };
  pending_finish_reason = none;
  role_chunk_sent = false;
  finished = false;
  seen_usage = false;
}

-- `chunk_with_choice`.
unfoldable pub chunk_with_choice : StreamState → Delta → Option String → StreamPayload
chunk_with_choice s delta finish_reason = chunk (record {
  id = s.completion_id;
  created = s.created;
  model = s.model;
  choices = record { index = 0; delta = delta; finish_reason = finish_reason } ∷ [];
  usage = none;
})

-- `chunk_usage_only`.
unfoldable pub chunk_usage_only : StreamState → StreamPayload
chunk_usage_only s = chunk (record {
  id = s.completion_id;
  created = s.created;
  model = s.model;
  choices = [];
  usage = some (to_out s.usage);
})

-- `map_terminal_finish`.
unfoldable pub map_terminal_finish : StreamState → String
map_terminal_finish s =
    unwrap_or s.pending_finish_reason (map_stop_reason none (ltb 0 s.next_tool_idx))

-- What ends a message, in `process` and in `finalize`.
unfoldable pub finish_chunks : StreamState → Bool → List StreamPayload
finish_chunks s include_usage =
    chunk_with_choice s no_delta (some (map_terminal_finish s))
    ∷ (if include_usage && s.seen_usage then chunk_usage_only s ∷ [] else [])

abbrev pub with_initial : Option Usage → StreamState → StreamState
with_initial none s = s
with_initial (some u) s = record s { usage = merge_initial s.usage u; seen_usage = true }

abbrev pub with_final : Option StreamUsage → StreamState → StreamState
with_final none s = s
with_final (some u) s = record s { usage = merge_delta s.usage u; seen_usage = true }

abbrev pub with_stop : Option StopReason → StreamState → StreamState
with_stop none s = s
with_stop (some stop) s = record s {
  pending_finish_reason = some (map_stop_reason (some stop) (ltb 0 s.next_tool_idx));
}

abbrev pub with_model : String → StreamState → StreamState
with_model m s = record s { model = if str_eq m "" then s.model else m }

-- The role chunk, once.
abbrev pub send_role : StreamState → StreamState × List StreamPayload
send_role s = if s.role_chunk_sent then (s, []) else (
  record s { role_chunk_sent = true },
  chunk_with_choice s (record no_delta { role = some "assistant" }) none ∷ [],
)

abbrev pub with_kind : ℕ → BlockKind → StreamState → StreamState
with_kind index kind s = record s { block_kind = insert index kind s.block_kind }

abbrev pub tool_delta : ℕ → Option String → Option String → Option String → String → Delta
tool_delta sub_idx id kind name arguments = record no_delta {
  tool_calls = some (
      record {
        index = sub_idx;
        id = id;
        kind = kind;
        function = record { name = name; arguments = some arguments };
      }
      ∷ []);
}

-- The arm of `ContentBlockStart`.
unfoldable pub start_block : StreamState → ℕ → ContentBlock → StreamState × List StreamPayload
start_block s index (text_block t) = (with_kind index text_kind s, [])
start_block s index (tool_use_block id name input) =
    let t = record (with_kind index tool_kind s) {
      next_tool_idx = s.next_tool_idx + 1;
      tool_sub_idx = insert index s.next_tool_idx s.tool_sub_idx;
    } in
    (
      t,
      chunk_with_choice t (tool_delta s.next_tool_idx (some id) (some "function") (some name) "")
            none
          ∷ [],
    )
start_block s index (thinking_block signature t) = (with_kind index thinking_kind s, [])
start_block s index (fallback_block target) =
    (with_kind index other_kind (record s { model = unwrap_or target s.model }), [])
start_block s index (other_block b) = (with_kind index other_kind s, [])

-- The arm of `ContentBlockDelta`, by the kind of its block.
unfoldable pub delta_chunks :
    StreamState → ℕ → Bool → BlockKind → ContentBlockDelta → List StreamPayload
delta_chunks s index reasoning text_kind (text_delta t) =
    chunk_with_choice s (record no_delta { content = some t }) none ∷ []
delta_chunks s index reasoning tool_kind (input_json_delta json) = elim (get index s.tool_sub_idx) [
  | none ↦ []
  | some sub_idx ↦ chunk_with_choice s (tool_delta sub_idx none none none json) none ∷ []
]
delta_chunks s index reasoning thinking_kind (thinking_delta t) =
    if reasoning
    then chunk_with_choice s (record no_delta { reasoning_content = some t }) none ∷ []
    else []
delta_chunks s index reasoning _ _ = []

-- `process` on a state that is not finished.
unfoldable pub process_event :
    StreamState → Bool → Bool → StreamEvent → StreamState × List StreamPayload
process_event s reasoning include_usage (message_start m u) =
    send_role (with_initial u (with_model m s))
process_event s reasoning include_usage (content_block_start index block) =
    start_block s index block
process_event s reasoning include_usage (content_block_delta index delta) =
    (s, delta_chunks s index reasoning (unwrap_or (get index s.block_kind) other_kind) delta)
process_event s reasoning include_usage (content_block_stop index) = (s, [])
process_event s reasoning include_usage (message_delta stop u) =
    (with_final u (with_stop stop s), [])
process_event s reasoning include_usage message_stop =
    (record s { finished = true }, finish_chunks s include_usage)
process_event s reasoning include_usage ping = (s, [])
process_event s reasoning include_usage (error kind message) = (
  record s { finished = true },
  failed (record { message = message; kind = anthropic_type_to_oai kind }) ∷ [],
)

-- `process`.
unfoldable pub process : StreamState → Bool → Bool → StreamEvent → StreamState × List StreamPayload
process s reasoning include_usage event =
    if s.finished then (s, []) else process_event s reasoning include_usage event

-- `finalize`.
unfoldable pub finalize : StreamState → Bool → List StreamPayload
finalize s include_usage = if s.finished then [] else finish_chunks s include_usage

-- What the source of events yields: an event; the end mark or text that is no event, which the loop skips; or an error.
pub data Item : Type 0 where
  event : StreamEvent → Item
  skipped : Item
  broken : String → Item

-- What the client is sent: a payload, or the end mark.
pub data Sent : Type 0 where
  data_of : StreamPayload → Sent
  done : Sent

-- The loop of `to_openai_stream` with what follows it. `upstream_failed` makes the message of an error.
unfoldable pub drive :
    (String → String) → StreamState → Bool → Bool → List Item → List StreamPayload
drive upstream_failed s reasoning include_usage [] = finalize s include_usage
drive upstream_failed s reasoning include_usage (skipped ∷ items) =
    drive upstream_failed s reasoning include_usage items
drive upstream_failed s reasoning include_usage (broken e ∷ items) =
    failed (record { message = upstream_failed e; kind = "upstream_error" }) ∷ []
drive upstream_failed s reasoning include_usage (event ev ∷ items) =
    let next = process s reasoning include_usage ev in
    let rest = drive upstream_failed next.0 reasoning include_usage items in
    next.1 ++ (if next.0.finished then finalize next.0 include_usage else rest)

-- `to_openai_stream`, on a response that is not an error.
unfoldable pub to_openai_stream :
    (String → String) → StreamState → Bool → Bool → List Item → List Sent
to_openai_stream upstream_failed s reasoning include_usage items =
    map data_of (drive upstream_failed s reasoning include_usage items) ++ done ∷ []
