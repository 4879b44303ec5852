-- ===== src/Openai/Stream/Collect/Steps.antt =====
-- src/middleware/openai/stream.rs: what a client has after the events of a block.
use Prim.Native.String.{◌++◌ as push_str}
use text.Mathlib.TextLemmas.{append-nil as str_append-nil, append_assoc as str_append_assoc}
use clewdr_hub.Common.{
  ℕ, ◌≡◌, refl, sym, ap, ◌∙◌, String, Bool, true, false, some, List, [], ◌∷◌, ◌++◌, map,
  if◌then◌else◌, unwrap_or, inl, inr, Bool-cases, get, modify, ◌==◌,
}
use clewdr_hub.Openai.{
  ContentBlockDelta, text_delta, input_json_delta, thinking_delta, StreamEvent, content_block_delta,
}
use clewdr_hub.Openai.Stream.{
  BlockKind, text_kind, tool_kind, thinking_kind, other_kind, StreamPayload, StreamState,
  chunk_with_choice, delta_chunks, process_event, event, drive, finalize,
}
use clewdr_hub.Openai.Stream.Frame.{process-open, continue}
use clewdr_hub.Openai.Stream.Collect.{
  join, piece_events, Assembled, add_arguments, add_calls, absorb, assemble,
}

assemble-append :
    (ps qs : List StreamPayload) (a : Assembled)
    → assemble (ps ++ qs) a ≡ assemble qs (assemble ps a)
unfolding assemble
assemble-append [] qs a = refl
assemble-append (p ∷ ps) qs a = assemble-append ps qs (absorb p a)

assemble-thinking :
    (r : Bool) (s : StreamState) (i : ℕ) (p : String) (b : Assembled)
    → assemble (delta_chunks s i r thinking_kind (thinking_delta p)) b
      ≡ record b { reasoning = if r then push_str b.reasoning p else b.reasoning }
unfolding delta_chunks chunk_with_choice assemble add_calls
assemble-thinking true s i p b = refl
assemble-thinking false s i p b = refl

assemble-tool :
    (r : Bool) (s : StreamState) (i n : ℕ) (p : String) (b : Assembled)
    → get i s.tool_sub_idx ≡ some n
    → assemble (delta_chunks s i r tool_kind (input_json_delta p)) b
      ≡ record b { calls = modify n (add_arguments p) b.calls }
unfolding delta_chunks chunk_with_choice assemble add_calls
assemble-tool r s i n p b e = rw (e, assemble) refl

module _ {V : Type 0} (f g : V → V) (n : ℕ) where
  modify-modify : (m : List (ℕ × V)) → modify n g (modify n f m) ≡ modify n (λ v. g (f v)) m
  unfolding modify
  modify-modify [] = refl
  modify-modify ((k, v) ∷ m) = elim (Bool-cases (k == n)) [
    | inl e ↦ rw (e, modify-modify m) refl
    | inr e ↦ rw (e, modify-modify m) refl
  ]

  modify-same : ((v : V) → f v ≡ v) → (m : List (ℕ × V)) → modify n f m ≡ m
  unfolding modify
  modify-same same [] = refl
  modify-same same ((k, v) ∷ m) = elim (Bool-cases (k == n)) [
    | inl e ↦ rw (e, same v, modify-same same m) refl
    | inr e ↦ rw (e, modify-same same m) refl
  ]

  modify-ext : ((v : V) → f v ≡ g v) → (m : List (ℕ × V)) → modify n f m ≡ modify n g m
  unfolding modify
  modify-ext same [] = refl
  modify-ext same ((k, v) ∷ m) = elim (Bool-cases (k == n)) [
    | inl e ↦ rw (e, same v, modify-ext same m) refl
    | inr e ↦ rw (e, modify-ext same m) refl
  ]

module _ (upstream_failed : String → String) (r u : Bool) where
  -- What the client has once the events have been sent.
  unfoldable pub after : StreamState → List StreamEvent → Assembled → Assembled
  after s events a = assemble (drive upstream_failed s r u (map event events)) a

  -- An event that does not end the message.
  pub after_event :
      (s : StreamState) (ev : StreamEvent) (events : List StreamEvent) (a : Assembled)
      → s.finished ≡ false
      → (process_event s r u ev).0.finished ≡ false
      → after s (ev ∷ events) a
        ≡ after (process_event s r u ev).0 events (assemble (process_event s r u ev).1 a)
  unfolding after drive
  after_event s ev events a h k =
      ap (λ next. assemble (continue upstream_failed r u (map event events) next) a)
        (process-open s r u ev h)
      ∙ ap
          (λ b.
            assemble
              ((process_event s r u ev).1
                ++ (if b
                    then finalize (process_event s r u ev).0 u
                    else drive upstream_failed (process_event s r u ev).0 r u (map event events)))
              a)
          k
      ∙ assemble-append (process_event s r u ev).1 _ a

  -- A piece of a block of the kind `k`.
  after_delta :
      (s : StreamState) (i : ℕ) (k : BlockKind) (d : ContentBlockDelta) (events : List StreamEvent)
      (a : Assembled)
      → s.finished ≡ false
      → get i s.block_kind ≡ some k
      → after s (content_block_delta i d ∷ events) a
        ≡ after s events (assemble (delta_chunks s i r k d) a)
  unfolding process_event
  after_delta s i k d events a h e =
      after_event s (content_block_delta i d) events a h h
      ∙ ap (λ kind. after s events (assemble (delta_chunks s i r (unwrap_or kind other_kind) d) a))
          e

  module _ (s : StreamState) (event_of : String → StreamEvent)
      (grow : String → Assembled → Assembled)
      (one : (p : String) (events : List StreamEvent) (a : Assembled)
        → after s (event_of p ∷ events) a ≡ after s events (grow p a))
      (grow-empty : (a : Assembled) → grow "" a ≡ a)
      (grow-grow : (p q : String) (a : Assembled) → grow q (grow p a) ≡ grow (push_str p q) a) where
    -- All pieces of a block, if each adds to what the client has.
    after_pieces :
        (pieces : List String) (rest : List StreamEvent) (a : Assembled)
        → after s (piece_events event_of pieces rest) a ≡ after s rest (grow (join pieces) a)
    unfolding piece_events join
    after_pieces [] rest a = ap (after s rest) (sym (grow-empty a))
    after_pieces (p ∷ pieces) rest a =
        one p (piece_events event_of pieces rest) a
        ∙ after_pieces pieces rest (grow p a)
        ∙ ap (after s rest) (grow-grow p (join pieces) a)

  -- The pieces of a text.
  pub after_text :
      (s : StreamState) (i : ℕ) (pieces : List String) (rest : List StreamEvent) (a : Assembled)
      → s.finished ≡ false
      → get i s.block_kind ≡ some text_kind
      → after s (piece_events (λ p. content_block_delta i (text_delta p)) pieces rest) a
        ≡ after s rest (record a { content = push_str a.content (join pieces) })
  unfolding delta_chunks chunk_with_choice assemble add_calls
  after_text s i pieces rest a h k =
      after_pieces s (λ p. content_block_delta i (text_delta p))
        (λ p b. record b { content = push_str b.content p })
        (λ p events b. after_delta s i text_kind (text_delta p) events b h k)
        (λ b. ap (λ t. record b { content = t }) (str_append-nil b.content))
        (λ p q b. ap (λ t. record b { content = t }) (str_append_assoc b.content p q)) pieces rest a

  -- The pieces of a thinking block, which are left out unless the client has asked for them.
  pub after_thinking :
      (s : StreamState) (i : ℕ) (pieces : List String) (rest : List StreamEvent) (a : Assembled)
      → s.finished ≡ false
      → get i s.block_kind ≡ some thinking_kind
      → after s (piece_events (λ p. content_block_delta i (thinking_delta p)) pieces rest) a
        ≡ after s rest
            (record a { reasoning = if r then push_str a.reasoning (join pieces) else a.reasoning })
  unfolding delta_chunks chunk_with_choice assemble add_calls
  after_thinking s i pieces rest a h k =
      after_pieces s (λ p. content_block_delta i (thinking_delta p))
        (λ p b. record b { reasoning = if r then push_str b.reasoning p else b.reasoning })
        (λ p events b.
          after_delta s i thinking_kind (thinking_delta p) events b h k
          ∙ ap (after s events) (assemble-thinking r s i p b))
        (λ b.
          ap (λ t. record b { reasoning = t })
            (elim (Bool-cases r) [ inl e ↦ rw e (str_append-nil b.reasoning) | inr e ↦ rw e refl ]))
        (λ p q b.
          ap (λ t. record b { reasoning = t })
            (elim (Bool-cases r) [
              | inl e ↦ rw e (str_append_assoc b.reasoning p q)
              | inr e ↦ rw e refl
            ]))
        pieces rest a

  -- The pieces of a tool call's input.
  pub after_tool :
      (s : StreamState) (i n : ℕ) (pieces : List String) (rest : List StreamEvent) (a : Assembled)
      → s.finished ≡ false
      → get i s.block_kind ≡ some tool_kind
      → get i s.tool_sub_idx ≡ some n
      → after s (piece_events (λ p. content_block_delta i (input_json_delta p)) pieces rest) a
        ≡ after s rest (record a { calls = modify n (add_arguments (join pieces)) a.calls })
  after_tool s i n pieces rest a h k e =
      after_pieces s (λ p. content_block_delta i (input_json_delta p))
        (λ p b. record b { calls = modify n (add_arguments p) b.calls })
        (λ p events b.
          after_delta s i tool_kind (input_json_delta p) events b h k
          ∙ ap (after s events) (assemble-tool r s i n p b e))
        (λ b.
          ap (λ calls. record b { calls = calls })
            (modify-same (add_arguments "") (add_arguments "") n
              (λ c. ap (λ t. record c { arguments = t }) (str_append-nil c.arguments)) b.calls))
        (λ p q b.
          ap (λ calls. record b { calls = calls })
            (modify-modify (add_arguments p) (add_arguments q) n b.calls
              ∙ modify-ext (λ c. add_arguments q (add_arguments p c)) (add_arguments (push_str p q))
                  n (λ c. ap (λ t. record c { arguments = t }) (str_append_assoc c.arguments p q))
                  b.calls))
        pieces rest a
