-- ===== src/Bridge/Rebuild/Whole.antt =====
-- src/claude_code_state/chat.rs: a streamed message, put together again by the accumulator.
use Prim.Native.String.{◌++◌ as push_str}
use text.Mathlib.TextLemmas.{nil-append, append-nil, append_assoc}
use clewdr_hub.Common.{suc, ◌+◌, ◌≡◌, refl, ap, ◌∙◌, String, Option, some, List, [], ◌∷◌, arith}
use clewdr_hub.Json.{
  Json, string, array, object, Items, nil, cons, Fields, end, field, get_field, insert_field,
  count_items, push_item,
}
use clewdr_hub.Json.Laws.{get_field-insert_other, insert_field-present, count_items-push_item}
use clewdr_hub.Bridge.{
  ok, empty_accumulator, merge_fields, with_usage, apply_message_delta, apply_event, finish_all,
  finish, accumulate,
}
use clewdr_hub.Bridge.Rebuild.{
  join, StreamedBlock, text_block, thinking_block, tool_block, event_of, block_delta, block_stop,
  piece_events, block_events, blocks_events, IsMade, AreMade, AreParsed, message_events,
}
use clewdr_hub.Bridge.Rebuild.Steps.{
  holding, last_block, follow, accumulate-follow, follow_start, follow_stop, follow_text,
  follow_thought, follow_signature, follow_first_input, follow_input, follow_input_stop,
}

unfoldable append_items : Items → Items → Items
append_items nil ys = ys
append_items (cons x xs) ys = cons x (append_items xs ys)

append_items-push_item :
    (v : Json) (xs ys : Items) → append_items (push_item v xs) ys ≡ append_items xs (cons v ys)
unfolding append_items push_item
append_items-push_item v nil ys = refl
append_items-push_item v (cons x xs) ys = ap (cons x) (append_items-push_item v xs ys)

append_items-nil : (xs : Items) → append_items xs nil ≡ xs
unfolding append_items
append_items-nil nil = refl
append_items-nil (cons x xs) = ap (cons x) (append_items-nil xs)

module _ (parse : String → Option Json) (message : Fields) where
  module _ (items : Items) (es : List Json) where
    follow_texts :
        (fs : Fields) (s : String) (ps : List String)
        → follow parse
            (last_block message items [] (field "text" (string s) fs))
            (piece_events (block_delta (count_items items) "text_delta" "text") ps es)
          ≡ follow parse
              (last_block message items [] (field "text" (string (push_str s (join ps))) fs))
              es
    unfolding piece_events join
    follow_texts fs s [] = rw (append-nil s) refl
    follow_texts fs s (p ∷ ps) =
        follow_text parse message items fs _ s p
        ∙ follow_texts fs (push_str s p) ps
        ∙ rw (append_assoc s p (join ps)) refl

    follow_thoughts :
        (fs : Fields) (s : String) (ps : List String)
        → follow parse
            (last_block message items [] (field "thinking" (string s) fs))
            (piece_events (block_delta (count_items items) "thinking_delta" "thinking") ps es)
          ≡ follow parse
              (last_block message items [] (field "thinking" (string (push_str s (join ps))) fs))
              es
    unfolding piece_events join
    follow_thoughts fs s [] = rw (append-nil s) refl
    follow_thoughts fs s (p ∷ ps) =
        follow_thought parse message items fs _ s p
        ∙ follow_thoughts fs (push_str s p) ps
        ∙ rw (append_assoc s p (join ps)) refl

    follow_inputs :
        (fs : Fields) (s : String) (ps : List String)
        → follow parse
            (last_block message items ((count_items items, s) ∷ []) fs)
            (piece_events (block_delta (count_items items) "input_json_delta" "partial_json") ps es)
          ≡ follow parse
              (last_block message items ((count_items items, push_str s (join ps)) ∷ []) fs)
              es
    unfolding piece_events join
    follow_inputs fs s [] = rw (append-nil s) refl
    follow_inputs fs s (p ∷ ps) =
        follow_input parse message items fs _ s p
        ∙ follow_inputs fs (push_str s p) ps
        ∙ rw (append_assoc s p (join ps)) refl

  follow_block :
      (items : Items) (es : List Json) (b : StreamedBlock) (v : Json)
      → IsMade parse b v
      → follow parse (holding message [] items) (block_events (count_items items) b es)
        ≡ follow parse (holding message [] (push_item v items)) es
  unfolding block_events piece_events join insert_field
  follow_block items es (text_block fs ps) v h =
      follow_start parse message items _ _
      ∙ follow_texts items _ fs "" ps
      ∙ follow_stop parse message items _ es
      ∙ rw (nil-append (join ps), h) refl
  follow_block items es (thinking_block fs ps signature) v h =
      follow_start parse message items _ _
      ∙ follow_thoughts items _ (field "signature" (string "") fs) "" ps
      ∙ follow_signature parse message items fs (block_stop (count_items items) ∷ es)
          (push_str "" (join ps)) "" signature
      ∙ follow_stop parse message items _ es
      ∙ rw (nil-append (join ps), nil-append signature, h) refl
  follow_block items es (tool_block fs []) v (input, made, h) =
      follow_start parse message items _ _
      ∙ follow_stop parse message items (field "input" (object end) fs) es
      ∙ rw (h, made) refl
  follow_block items es (tool_block fs (p ∷ ps)) v (input, made, h) =
      follow_start parse message items _ _
      ∙ follow_first_input parse message items _ _ p
      ∙ follow_inputs items _ _ p ps
      ∙ follow_input_stop parse message items _ es (join (p ∷ ps)) input made
      ∙ rw h refl

  follow_blocks :
      (items : Items) (es : List Json) (bs : List StreamedBlock) (vs : Items)
      → AreMade parse bs vs
      → follow parse (holding message [] items) (blocks_events (count_items items) bs es)
        ≡ follow parse (holding message [] (append_items items vs)) es
  unfolding blocks_events
  follow_blocks items es [] nil h = rw (append_items-nil items) refl
  follow_blocks items es [] (cons v vs) h = absurd h
  follow_blocks items es (b ∷ bs) nil h = absurd h
  follow_blocks items es (b ∷ bs) (cons v vs) h =
      follow_block items _ b v h.0
      ∙ at_next (count_items-push_item v items)
      ∙ follow_blocks (push_item v items) es bs vs h.1
      ∙ ap (λ xs. follow parse (holding message [] xs) es) (append_items-push_item v items vs)
    where
      at_next :
          count_items (push_item v items) ≡ suc (count_items items)
          → follow parse
              (holding message [] (push_item v items))
              (blocks_events (count_items items + 1) bs es)
            ≡ follow parse
                (holding message [] (push_item v items))
                (blocks_events (count_items (push_item v items)) bs es)
      at_next e =
          ap (λ n. follow parse (holding message [] (push_item v items)) (blocks_events n bs es))
            (omega (arith, e))

  follow_message :
      get_field "content" message ≡ some (array nil)
      → (es : List Json)
      → follow parse empty_accumulator
          (event_of "message_start" (field "message" (object message) end) ∷ es)
        ≡ follow parse (holding message [] nil) es
  unfolding follow apply_event get_field
  follow_message h es = rw (insert_field-present "content" (array nil) message h) refl

  module _ (mu usage : Fields) (stop_reason : Json) where
    -- What the end of the stream leaves of a message.
    abbrev pub ended : Fields → Fields
    ended fs =
        insert_field "usage" (object (merge_fields parse usage mu))
          (insert_field "stop_reason" stop_reason fs)

    apply_message_delta-holding :
        (items : Items)
        → get_field "usage" message ≡ some (object mu)
        → apply_message_delta parse (holding message [] items) (
            event_of "message_delta" (
              field "delta"
                (object (field "stop_reason" stop_reason end))
                (field "usage" (object usage) end)))
          ≡ ok (record {
            message = some (object (ended (insert_field "content" (array items) message)));
            partial_json = [];
          })
    unfolding apply_message_delta with_usage get_field
    apply_message_delta-holding items h =
        let found : get_field "usage" (
              insert_field "stop_reason" stop_reason (insert_field "content" (array items) message))
            ≡ some (object mu) =
          get_field-insert_other "stop_reason" "usage" stop_reason _ refl
          ∙ get_field-insert_other "content" "usage" (array items) message refl
          ∙ h in
        rw found refl

    follow_end :
        (items : Items)
        → get_field "usage" message ≡ some (object mu)
        → follow parse (holding message [] items) (
            event_of "message_delta" (
              field "delta"
                (object (field "stop_reason" stop_reason end))
                (field "usage" (object usage) end))
            ∷ event_of "message_stop" end
            ∷ [])
          ≡ ok (object (ended (insert_field "content" (array items) message)))
    unfolding follow apply_event finish_all finish get_field
    follow_end items h = rw (apply_message_delta-holding items h) refl

  -- The accumulator makes of a message that is streamed in pieces the message that is whole: its blocks in their order,
  -- each text, thought, signature and tool input put together of its pieces, the stop reason, and the usage of the start
  -- with that of the end in it. The message starts with no blocks and with its usage, and the pieces of an input
  -- parse together.
  pub accumulate-rebuilds :
      (mu usage : Fields) (stop_reason : Json) (blocks : List StreamedBlock) (items : Items)
      (texts : List String)
      → get_field "content" message ≡ some (array nil)
      → get_field "usage" message ≡ some (object mu)
      → AreMade parse blocks items
      → AreParsed parse texts (message_events message blocks stop_reason usage)
      → accumulate parse empty_accumulator texts
        ≡ ok (
            object (
              insert_field "usage" (object (merge_fields parse usage mu)) (
                insert_field "stop_reason" stop_reason
                  (insert_field "content" (array items) message))))
  unfolding append_items count_items
  accumulate-rebuilds mu usage stop_reason blocks items texts empty counted made parsed =
      accumulate-follow parse empty_accumulator texts
        (message_events message blocks stop_reason usage) parsed
      ∙ follow_message empty _
      ∙ follow_blocks nil _ blocks items made
      ∙ follow_end mu usage stop_reason items counted
