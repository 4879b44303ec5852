-- ===== src/Bridge/Rebuild/Steps.antt =====
-- src/claude_code_state/chat.rs: the accumulator on one event at a time.
use Prim.Native.String.{◌++◌ as push_str}
use text.Mathlib.TextLemmas.{nil-append}
use clewdr_hub.Common.{
  ℕ, ◌≡◌, refl, ap, ◌∙◌, String, Bool, false, Option, some, List, [], ◌∷◌, and_then, unwrap_or, ltb,
  arith, ==-refl, get, insert, remove,
}
use clewdr_hub.Json.{
  Json, string, array, object, Items, Fields, field, get_field, insert_field, count_items,
  push_item, get_key, as_str,
}
use clewdr_hub.Json.Laws.{
  get_field-insert_field, insert_field-again, get_item-push_item, set_item-push_item,
}
use clewdr_hub.Bridge.{
  Result, ok, err, ended_before_stop, ◌>>=◌, Accumulator, with_content, with_block,
  set_content_block, append_block_string, finish_partial_json, apply_delta, apply_block_start,
  apply_block_delta, apply_event, apply, step_on, accumulate,
}
use clewdr_hub.Bridge.Rebuild.{AreParsed, block_delta, block_start, block_stop}

-- The accumulator in the middle of a message.
abbrev pub holding : Fields → List (ℕ × String) → Items → Accumulator
holding message partial items = record {
  message = some (object (insert_field "content" (array items) message));
  partial_json = partial;
}

-- The accumulator at the last block.
abbrev pub last_block : Fields → Items → List (ℕ × String) → Fields → Accumulator
last_block message items partial block = holding message partial (push_item (object block) items)

remove_only : (i : ℕ) (s : String) → remove i ((i, s) ∷ []) ≡ []
unfolding remove
remove_only i s = rw (==-refl i) refl

module _ (message : Fields) where
  with_content-holding :
      (partial : List (ℕ × String)) (items : Items) (change : Items → Result Items)
      → with_content (holding message partial items) change
        ≡ (change items >>= λ changed. ok (holding message partial changed))
  unfolding with_content
  with_content-holding partial items change =
      rw (get_field-insert_field "content" (array items) message) (λ i. change items >>= λ changed.
      ok (record {
        message =
            some (object (insert_field-again "content" (array items) (array changed) message i));
        partial_json = partial;
      }))

  -- A write to the last block.
  with_block-last :
      (partial : List (ℕ × String)) (items : Items) (block : Fields) (missing : _)
      (change : Fields → Result Fields) (changed : Fields)
      → change block ≡ ok changed
      → with_block
          (holding message partial (push_item (object block) items))
          (count_items items)
          missing
          change
        ≡ ok (holding message partial (push_item (object changed) items))
  unfolding with_block
  with_block-last partial items block missing change changed h =
      rw (with_content-holding partial (push_item (object block) items)) (
        rw
          (
            get_item-push_item (object block) items,
            h,
            set_item-push_item (object block) (object changed) items,
          )
          refl)

  set_content_block-next :
      (partial : List (ℕ × String)) (items : Items) (block : Json)
      → set_content_block (holding message partial items) (count_items items) block
        ≡ ok (holding message partial (push_item block items))
  unfolding set_content_block
  set_content_block-next partial items block =
      let within : ltb (count_items items) (count_items items) ≡ false = ground arith in
      with_content-holding partial items _ ∙ rw (within, ==-refl (count_items items)) refl

  append_block_string-last :
      (items : Items) (block : Fields) (key : String) (delta : Fields) (delta_key s piece : String)
      → and_then (get_field delta_key delta) as_str ≡ some piece
      → get_field key block ≡ some (string s)
      → append_block_string
          (holding message [] (push_item (object block) items))
          (count_items items)
          key
          delta
          delta_key
        ≡ ok (
            holding message []
              (push_item (object (insert_field key (string (push_str s piece)) block)) items))
  unfolding append_block_string
  append_block_string-last items block key delta delta_key s piece h g =
      rw (append_block_string, h) (with_block-last [] items block _ _ _ (rw g refl))

module _ (parse : String → Option Json) where
  -- The loop on parsed events.
  unfoldable pub follow : Accumulator → List Json → Result Json
  follow a [] = err ended_before_stop
  follow a (event ∷ events) =
      apply_event parse a event (unwrap_or (and_then (get_key "type" event) as_str) "") >>= λ next.
      let rest = follow next.0 events in step_on parse rest next

  next-follow :
      (r : Result (Accumulator × Bool)) (ts : List String) (es : List Json)
      → ((a : Accumulator) → accumulate parse a ts ≡ follow a es)
      → (r >>= λ next. step_on parse (accumulate parse next.0 ts) next)
        ≡ (r >>= λ next. step_on parse (follow next.0 es) next)
  next-follow (err e) ts es h = refl
  next-follow (ok (a, done)) ts es h = ap (λ rest. step_on parse rest (a, done)) (h a)

  pub accumulate-follow :
      (a : Accumulator) (texts : List String) (events : List Json)
      → AreParsed parse texts events
      → accumulate parse a texts ≡ follow a events
  unfolding accumulate follow apply
  accumulate-follow a [] [] h = refl
  accumulate-follow a [] (e ∷ es) h = absurd h
  accumulate-follow a (t ∷ ts) [] h = absurd h
  accumulate-follow a (t ∷ ts) (e ∷ es) h = rw h.0 (
      next-follow (apply_event parse a e (unwrap_or (and_then (get_key "type" e) as_str) "")) ts es
        (λ b. accumulate-follow b ts es h.1))

  -- An event after which the message goes on.
  follow_on :
      (a b : Accumulator) (e : Json) (es : List Json)
      → apply_event parse a e (unwrap_or (and_then (get_key "type" e) as_str) "") ≡ ok (b, false)
      → follow a (e ∷ es) ≡ follow b es
  unfolding follow
  follow_on a b e es h = rw h refl

  module _ (message : Fields) (items : Items) (fs : Fields) (es : List Json) where
    pub follow_start :
        follow (holding message [] items) (block_start (count_items items) fs ∷ es)
        ≡ follow (last_block message items [] fs) es
    unfolding apply_event apply_block_start get_field
    follow_start =
        follow_on _ _ _ es (rw (set_content_block-next message [] items (object fs)) refl)

    pub follow_stop :
        follow (last_block message items [] fs) (block_stop (count_items items) ∷ es)
        ≡ follow (last_block message items [] fs) es
    unfolding apply_event finish_partial_json get get_field
    follow_stop = follow_on _ _ _ es refl

    pub follow_text :
        (s piece : String)
        → follow
            (last_block message items [] (field "text" (string s) fs))
            (block_delta (count_items items) "text_delta" "text" piece ∷ es)
          ≡ follow (last_block message items [] (field "text" (string (push_str s piece)) fs)) es
    unfolding apply_event apply_block_delta apply_delta get_field insert_field
    follow_text s piece = follow_on _ _ _ es (
        rw
          (append_block_string-last message items (field "text" (string s) fs) "text" _ "text" s
            piece refl refl)
          refl)

    pub follow_thought :
        (s piece : String)
        → follow
            (last_block message items [] (field "thinking" (string s) fs))
            (block_delta (count_items items) "thinking_delta" "thinking" piece ∷ es)
          ≡ follow
              (last_block message items [] (field "thinking" (string (push_str s piece)) fs))
              es
    unfolding apply_event apply_block_delta apply_delta get_field insert_field
    follow_thought s piece = follow_on _ _ _ es (
        rw
          (append_block_string-last message items (field "thinking" (string s) fs) "thinking" _
            "thinking" s piece refl refl)
          refl)

    pub follow_signature :
        (t s piece : String)
        → follow
            (last_block message items []
              (field "thinking" (string t) (field "signature" (string s) fs)))
            (block_delta (count_items items) "signature_delta" "signature" piece ∷ es)
          ≡ follow
              (last_block message items []
                (field "thinking" (string t) (field "signature" (string (push_str s piece)) fs)))
              es
    unfolding apply_event apply_block_delta apply_delta get_field insert_field
    follow_signature t s piece = follow_on _ _ _ es (
        rw
          (append_block_string-last message items
            (field "thinking" (string t) (field "signature" (string s) fs)) "signature" _
            "signature" s piece refl refl)
          refl)

    pub follow_first_input :
        (piece : String)
        → follow
            (last_block message items [] fs)
            (block_delta (count_items items) "input_json_delta" "partial_json" piece ∷ es)
          ≡ follow (last_block message items ((count_items items, piece) ∷ []) fs) es
    unfolding apply_event apply_block_delta apply_delta get_field get insert remove
    follow_first_input piece = follow_on _ _ _ es (rw (nil-append piece) refl)

    pub follow_input :
        (s piece : String)
        → follow
            (last_block message items ((count_items items, s) ∷ []) fs)
            (block_delta (count_items items) "input_json_delta" "partial_json" piece ∷ es)
          ≡ follow (last_block message items ((count_items items, push_str s piece) ∷ []) fs) es
    unfolding apply_event apply_block_delta apply_delta get_field get insert remove
    follow_input s piece = follow_on _ _ _ es (rw (==-refl (count_items items)) refl)

    finish_partial_json-last :
        (s : String) (input : Json)
        → parse s ≡ some input
        → finish_partial_json parse
            (last_block message items ((count_items items, s) ∷ []) fs)
            (count_items items)
          ≡ ok (last_block message items [] (insert_field "input" input fs))
    unfolding finish_partial_json get
    finish_partial_json-last s input h =
        rw (finish_partial_json, ==-refl (count_items items), h, remove_only (count_items items) s)
          (with_block-last message [] items fs _ (λ block. ok (insert_field "input" input block)) _
            refl)

    pub follow_input_stop :
        (s : String) (input : Json)
        → parse s ≡ some input
        → follow
            (last_block message items ((count_items items, s) ∷ []) fs)
            (block_stop (count_items items) ∷ es)
          ≡ follow (last_block message items [] (insert_field "input" input fs)) es
    unfolding apply_event get_field
    follow_input_stop s input h = follow_on _ _ _ es (rw (finish_partial_json-last s input h) refl)
