-- ===== src/Bridge.antt =====
-- src/claude_code_state/chat.rs: `NonStreamMessageAccumulator`, which makes one message of the events of a stream, and the
-- loop that feeds it. The parser of serde_json is a parameter; an error is its kind, in place of its text.
pub mod Rebuild
use Prim.Native.String.{◌++◌ as push_str}
use text.Mathlib.Text.{◌==◌ as str_eq}
use clewdr_hub.Common.{
  ℕ, String, Bool, true, false, Option, none, some, List, [], ◌∷◌, if◌then◌else◌, and_then,
  unwrap_or, ltb, ◌==◌, get, insert, remove,
}
use clewdr_hub.Json.{
  Json, string, array, object, Items, nil, Fields, end, field, get_field, insert_field, as_object,
  as_array, as_str, as_u64, get_key, count_items, get_item, set_item, push_item,
}

-- The errors of the accumulator and of the loop.
pub data BridgeError : Type 0 where
  invalid_sse_json omitted_message omitted_block_index omitted_content_block : BridgeError
  omitted_delta_index omitted_delta omitted_content delta_before_start usage_not_object :
      BridgeError
  skipped_index : ℕ → ℕ → BridgeError
  missing_block citations_not_array invalid_tool_input missing_tool_block : ℕ → BridgeError
  not_a_string : ℕ → String → BridgeError
  upstream_error : Option String → BridgeError
  ended_before_start ended_before_stop : BridgeError

pub data Result {ℓ} (A : Type ℓ) : Type ℓ where
  ok : A → Result A
  err : BridgeError → Result A

infixl 5 ◌>>=◌
abbrev pub ◌>>=◌ {ℓ κ} : {A : Type ℓ} {B : Type κ} → Result A → (A → Result B) → Result B
ok a >>= f = f a
err e >>= f = err e

-- `ok_or_else`.
abbrev pub ok_or {ℓ} : {A : Type ℓ} → Option A → BridgeError → Result A
ok_or none e = err e
ok_or (some a) e = ok a

-- `NonStreamMessageAccumulator`.
pub record Accumulator : Type 0 where
  pub message : Option Json
  pub partial_json : List (ℕ × String)

abbrev pub empty_accumulator : Accumulator
empty_accumulator = record { message = none; partial_json = [] }

-- A write through `content_mut`.
unfoldable pub with_content : Accumulator → (Items → Result Items) → Result Accumulator
with_content a change = do
  fields ← ok_or (and_then a.message as_object) omitted_content
  items ← ok_or (and_then (get_field "content" fields) as_array) omitted_content
  changed ← change items
  ok (record a { message = some (object (insert_field "content" (array changed) fields)) })

-- A write to the block at an index, which must be an object.
unfoldable pub with_block :
    Accumulator → ℕ → BridgeError → (Fields → Result Fields) → Result Accumulator
with_block a index missing change = with_content a (λ items.
    ok_or (and_then (get_item index items) as_object) missing >>= λ block.
    change block >>= λ changed. ok (set_item index (object changed) items))

-- `set_content_block`.
unfoldable pub set_content_block : Accumulator → ℕ → Json → Result Accumulator
set_content_block a index block = with_content a (λ items.
    if ltb (count_items items) index
    then err (skipped_index index (count_items items))
    else if index == count_items items
    then ok (push_item block items)
    else ok (set_item index block items))

-- `append_block_string`.
unfoldable pub append_block_string : Accumulator → ℕ → String → Fields → String → Result Accumulator
append_block_string a index target_key delta delta_key =
    elim (and_then (get_field delta_key delta) as_str) [
      | none ↦ ok a
      | some fragment ↦ with_block a index (missing_block index) (λ block.
          ok_or (as_str (unwrap_or (get_field target_key block) (string "")))
            (not_a_string index target_key)
          >>= λ target. ok (insert_field target_key (string (push_str target fragment)) block))
    ]

-- The arm of `citations_delta`.
unfoldable pub append_citation : Accumulator → ℕ → Json → Result Accumulator
append_citation a index citation = with_block a index (missing_block index) (λ block.
    ok_or (as_array (unwrap_or (get_field "citations" block) (array nil)))
      (citations_not_array index)
    >>= λ citations. ok (insert_field "citations" (array (push_item citation citations)) block))

module _ (parse : String → Option Json) where
  -- `finish_partial_json`.
  unfoldable pub finish_partial_json : Accumulator → ℕ → Result Accumulator
  finish_partial_json a index = elim (get index a.partial_json) [
    | none ↦ ok a
    | some raw ↦ ok_or (parse raw) (invalid_tool_input index) >>= λ input.
        with_block (record a { partial_json = remove index a.partial_json }) index
          (missing_tool_block index) (λ block. ok (insert_field "input" input block))
  ]

  unfoldable pub finish_all : List (ℕ × String) → Accumulator → Result Accumulator
  finish_all [] a = ok a
  finish_all ((index, raw) ∷ rest) a = finish_partial_json a index >>= finish_all rest

  -- The arm of `content_block_delta`, by the type of the delta.
  unfoldable pub apply_delta : Accumulator → ℕ → Fields → String → Result Accumulator
  apply_delta a index delta delta_type =
      if str_eq delta_type "text_delta"
      then append_block_string a index "text" delta "text"
      else if str_eq delta_type "thinking_delta"
      then append_block_string a index "thinking" delta "thinking"
      else if str_eq delta_type "signature_delta"
      then append_block_string a index "signature" delta "signature"
      else if str_eq delta_type "input_json_delta"
      then elim (and_then (get_field "partial_json" delta) as_str) [
        | none ↦ ok a
        | some fragment ↦ ok (record a {
          partial_json =
              insert index (push_str (unwrap_or (get index a.partial_json) "") fragment)
                a.partial_json;
        })
      ]
      else if str_eq delta_type "citations_delta"
      then elim (get_field "citation" delta) [
        | none ↦ ok a
        | some citation ↦ append_citation a index citation
      ]
      else ok a

  abbrev pub insert_if_some : String → Option Json → Fields → Fields
  insert_if_some k none fs = fs
  insert_if_some k (some v) fs = insert_field k v fs

  -- Every entry of an object, into another.
  unfoldable pub merge_fields : Fields → Fields → Fields
  merge_fields end target = target
  merge_fields (field k v fs) target = merge_fields fs (insert_field k v target)

  abbrev pub with_stops : Option Fields → Fields → Fields
  with_stops none message = message
  with_stops (some delta) message =
      insert_if_some "stop_sequence" (get_field "stop_sequence" delta)
        (insert_if_some "stop_reason" (get_field "stop_reason" delta) message)

  unfoldable pub with_usage : Option Fields → Fields → Result Fields
  with_usage none message = ok message
  with_usage (some usage) message =
      ok_or (as_object (unwrap_or (get_field "usage" message) (object end))) usage_not_object
      >>= λ target. ok (insert_field "usage" (object (merge_fields usage target)) message)

  -- The arm of `message_delta`.
  unfoldable pub apply_message_delta : Accumulator → Json → Result Accumulator
  apply_message_delta a event = do
    message ← ok_or (and_then a.message as_object) delta_before_start
    let stopped = with_stops (and_then (get_key "delta" event) as_object) message
    changed ← with_usage (and_then (get_key "usage" event) as_object) stopped
    ok (record a { message = some (object changed) })

  abbrev pub go_on : Accumulator → Result (Accumulator × Bool)
  go_on a = ok (a, false)

  -- The arms of `content_block_start` and `content_block_delta`.
  unfoldable pub apply_block_start : Accumulator → Json → Result Accumulator
  apply_block_start a event = do
    index ← ok_or (and_then (get_key "index" event) as_u64) omitted_block_index
    block ← ok_or (get_key "content_block" event) omitted_content_block
    set_content_block a index block

  unfoldable pub apply_block_delta : Accumulator → Json → Result Accumulator
  apply_block_delta a event = do
    index ← ok_or (and_then (get_key "index" event) as_u64) omitted_delta_index
    delta ← ok_or (and_then (get_key "delta" event) as_object) omitted_delta
    apply_delta a index delta (unwrap_or (and_then (get_field "type" delta) as_str) "")

  -- `apply` on a parsed event; whether the message is complete.
  unfoldable pub apply_event : Accumulator → Json → String → Result (Accumulator × Bool)
  apply_event a event event_type =
      if str_eq event_type "message_start"
      then (ok_or (get_key "message" event) omitted_message >>= λ m.
          go_on (record a { message = some m }))
      else if str_eq event_type "content_block_start"
      then apply_block_start a event >>= go_on
      else if str_eq event_type "content_block_delta"
      then apply_block_delta a event >>= go_on
      else if str_eq event_type "content_block_stop"
      then elim (and_then (get_key "index" event) as_u64) [
        | none ↦ go_on a
        | some index ↦ finish_partial_json a index >>= go_on
      ]
      else if str_eq event_type "message_delta"
      then apply_message_delta a event >>= go_on
      else if str_eq event_type "message_stop"
      then (finish_all a.partial_json a >>= λ b. ok (b, true))
      else if str_eq event_type "error"
      then err (
          upstream_error
            (and_then (get_key "message" (unwrap_or (get_key "error" event) event)) as_str))
      else go_on a

  -- `apply`.
  unfoldable pub apply : Accumulator → String → Result (Accumulator × Bool)
  apply a text = ok_or (parse text) invalid_sse_json >>= λ event.
      apply_event a event (unwrap_or (and_then (get_key "type" event) as_str) "")

  -- `finish`, before the message is printed.
  unfoldable pub finish : Accumulator → Result Json
  finish a = ok_or a.message ended_before_start

  abbrev pub step_on : Result Json → Accumulator × Bool → Result Json
  step_on rest (a, done) = if done then finish a else rest

  -- The loop of `forward_stream_as_non_stream`, as far as the message goes.
  unfoldable pub accumulate : Accumulator → List String → Result Json
  accumulate a [] = err ended_before_stop
  accumulate a (text ∷ texts) =
      apply a text >>= λ next. let rest = accumulate next.0 texts in step_on rest next
