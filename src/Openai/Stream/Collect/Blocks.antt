-- ===== src/Openai/Stream/Collect/Blocks.antt =====
-- src/middleware/openai: the blocks of a message, streamed and whole.
use Prim.Native.String.{◌++◌ as push_str}
use text.Mathlib.TextLemmas.{nil-append}
use clewdr_hub.Common.{
  ℕ, ◌+◌, ◌<◌, ◌≡◌, refl, sym, ap, ◌∙◌, subst, String, Bool, true, false, Option, none, some, List,
  [], ◌∷◌, ◌++◌, arith, if◌then◌else◌, ltb, unwrap_or, map, get, insert, modify, get-insert,
  ==-refl, ◌==◌,
}
use clewdr_hub.Openai.{
  OtherBlock, text_block, tool_use_block, thinking_block, fallback_block, other_block,
  signature_delta, StreamEvent, content_block_start, content_block_delta, content_block_stop,
  ToolCall,
}
use clewdr_hub.Openai.Response.{Collected, collect_block, collect_blocks, has_any}
use clewdr_hub.Openai.Stream.{
  text_kind, tool_kind, thinking_kind, other_kind, StreamState, with_kind, chunk_with_choice,
  start_block, delta_chunks, process_event,
}
use clewdr_hub.Pool.State.{values}
use clewdr_hub.Openai.Stream.Collect.{
  Streamed, text_pieces, tool_pieces, thinking_pieces, fallback_to, whole_block, block_of,
  blocks_of, block_events, blocks_events, join, Assembled, reprinted, add_arguments, add_calls,
  assemble,
}
use clewdr_hub.Openai.Stream.Collect.Steps.{
  after, after_event, after_text, after_thinking, after_tool,
}

abbrev pub AreKeysBelow : ℕ → List (ℕ × ToolCall) → Type 0
AreKeysBelow n [] = Unit {0}
AreKeysBelow n ((k, c) ∷ m) = (k < n) × AreKeysBelow n m

AreKeysBelow-snoc :
    (n : ℕ) (m : List (ℕ × ToolCall)) (c : ToolCall)
    → AreKeysBelow n m
    → AreKeysBelow (n + 1) (m ++ (n, c) ∷ [])
AreKeysBelow-snoc n [] c h = (omega arith, tt)
AreKeysBelow-snoc n ((k, d) ∷ m) c h = (omega (arith, h.0), AreKeysBelow-snoc n m c h.1)

-- The last call is the one that goes on.
modify_last :
    (n : ℕ) (f : ToolCall → ToolCall) (m : List (ℕ × ToolCall)) (c : ToolCall)
    → AreKeysBelow n m
    → modify n f (m ++ (n, c) ∷ []) ≡ m ++ (n, f c) ∷ []
unfolding modify
modify_last n f [] c h = rw (==-refl n) refl
modify_last n f ((k, d) ∷ m) c h =
    let differ : (k == n) ≡ false = ground (arith, h.0) in rw (differ, modify_last n f m c h.1) refl

values-snoc :
    (n : ℕ) (m : List (ℕ × ToolCall)) (c : ToolCall)
    → values (m ++ (n, c) ∷ []) ≡ values m ++ c ∷ []
unfolding values
values-snoc n [] c = refl
values-snoc n ((k, d) ∷ m) c = ap (λ cs. d ∷ cs) (values-snoc n m c)

map-snoc :
    (f : ToolCall → ToolCall) (cs : List ToolCall) (c : ToolCall)
    → map f (cs ++ c ∷ []) ≡ map f cs ++ f c ∷ []
map-snoc f [] c = refl
map-snoc f (d ∷ cs) c = ap (λ ds. f d ∷ ds) (map-snoc f cs c)

has_any-snoc : (cs : List ToolCall) (c : ToolCall) → has_any (cs ++ c ∷ []) ≡ true
has_any-snoc [] c = refl
has_any-snoc (d ∷ cs) c = refl

get-insert_self {ℓ} :
    {V : Type ℓ} → (k : ℕ) (v : V) (m : List (ℕ × V)) → get k (insert k v m) ≡ some v
get-insert_self k v m = get-insert k k v m ∙ rw (==-refl k) refl

positive : (n : ℕ) → ltb 0 (n + 1) ≡ true
positive n = ground arith

-- The client has what the loop over the whole blocks has collected, the arguments of its calls once they are printed.
pub record IsCarried (to_string : String → Option String) (s : StreamState) (a : Assembled)
    (c : Collected) : Type 0 where
  pub open_still : s.finished ≡ false
  pub pending : s.pending_finish_reason ≡ none
  pub content : a.content ≡ c.content_str
  pub calls : map (reprinted to_string) (values a.calls) ≡ c.tool_calls
  pub reasoning : a.reasoning ≡ c.reasoning_str
  pub below : AreKeysBelow s.next_tool_idx a.calls
  pub counted : ltb 0 s.next_tool_idx ≡ has_any c.tool_calls

collect_block-thinking :
    (to_string : String → Option String) (r : Bool) (signature t : String) (c : Collected)
    → collect_block to_string r (thinking_block signature t) c
      ≡ record c { reasoning_str = if r then push_str c.reasoning_str t else c.reasoning_str }
unfolding collect_block
collect_block-thinking to_string true signature t c = refl
collect_block-thinking to_string false signature t c = refl

IsCarried-of_same :
    (to_string : String → Option String) (s t : StreamState) (a : Assembled) (c : Collected)
    → t.finished ≡ s.finished
    → t.pending_finish_reason ≡ s.pending_finish_reason
    → t.next_tool_idx ≡ s.next_tool_idx
    → IsCarried to_string s a c
    → IsCarried to_string t a c
IsCarried-of_same to_string s t a c f p n k = record {
  open_still = f ∙ k.open_still;
  pending = p ∙ k.pending;
  content = k.content;
  calls = k.calls;
  reasoning = k.reasoning;
  below = rw n k.below;
  counted = rw n k.counted;
}

module _ (upstream_failed : String → String) (to_string : String → Option String) (r u : Bool) where
  abbrev pub seen_after : StreamState → List StreamEvent → Assembled → Assembled
  seen_after = after upstream_failed r u

  -- The events before the rest have been sent.
  pub record Carries (s : StreamState) (events : List StreamEvent) (a : Assembled)
      (rest : List StreamEvent) (c : Collected) : Type 0 where
    pub state : StreamState
    pub seen : Assembled
    pub same : seen_after s events a ≡ seen_after state rest seen
    pub carried : IsCarried to_string state seen c

  text-Carries :
      (s : StreamState) (i : ℕ) (ps : List String) (rest : List StreamEvent) (a : Assembled)
      (c : Collected)
      → IsCarried to_string s a c
      → Carries s
          (block_events i (text_pieces ps) rest)
          a
          rest
          (collect_block to_string r (block_of (text_pieces ps)) c)
  unfolding block_events block_of collect_block process_event start_block assemble
  text-Carries s i ps rest a c k =
      let t = with_kind i text_kind s in
      let b : Assembled = record a { content = push_str a.content (join ps) } in
      let kind = get-insert_self i text_kind s.block_kind in
      record {
        state = t;
        seen = b;
        same =
            after_event upstream_failed r u s (content_block_start i (text_block "")) _ a
              k.open_still k.open_still
            ∙ after_text upstream_failed r u t i ps _ a k.open_still kind
            ∙ after_event upstream_failed r u t (content_block_stop i) rest b k.open_still
                k.open_still;
        carried = record {
          open_still = k.open_still;
          pending = k.pending;
          content = ap (λ v. push_str v (join ps)) k.content;
          calls = k.calls;
          reasoning = k.reasoning;
          below = k.below;
          counted = k.counted;
        };
      }

  thinking-Carries :
      (s : StreamState) (i : ℕ) (g : String) (ps : List String) (rest : List StreamEvent)
      (a : Assembled) (c : Collected)
      → IsCarried to_string s a c
      → Carries s
          (block_events i (thinking_pieces g ps) rest)
          a
          rest
          (collect_block to_string r (block_of (thinking_pieces g ps)) c)
  unfolding block_events block_of process_event start_block assemble delta_chunks
  thinking-Carries s i g ps rest a c k =
      let t = with_kind i thinking_kind s in
      let b : Assembled = record a {
        reasoning = if r then push_str a.reasoning (join ps) else a.reasoning;
      } in
      let kind = get-insert_self i thinking_kind s.block_kind in
      record {
        state = t;
        seen = b;
        same =
            after_event upstream_failed r u s (content_block_start i (thinking_block "" "")) _ a
              k.open_still k.open_still
            ∙ after_thinking upstream_failed r u t i ps _ a k.open_still kind
            ∙ after_event upstream_failed r u t (content_block_delta i (signature_delta g)) _ b
                k.open_still k.open_still
            ∙ ap
                (λ kd.
                  seen_after t (content_block_stop i ∷ rest)
                    (assemble (delta_chunks t i r (unwrap_or kd other_kind) (signature_delta g)) b))
                kind
            ∙ after_event upstream_failed r u t (content_block_stop i) rest b k.open_still
                k.open_still;
        carried =
            subst (IsCarried to_string t b) (sym (collect_block-thinking to_string r g (join ps) c))
              (record {
                open_still = k.open_still;
                pending = k.pending;
                content = k.content;
                calls = k.calls;
                reasoning = ap (λ v. if r then push_str v (join ps) else v) k.reasoning;
                below = k.below;
                counted = k.counted;
              });
      }

  tool-Carries :
      (s : StreamState) (i : ℕ) (id name : String) (ps : List String) (rest : List StreamEvent)
      (a : Assembled) (c : Collected)
      → IsCarried to_string s a c
      → Carries s
          (block_events i (tool_pieces id name ps) rest)
          a
          rest
          (collect_block to_string r (block_of (tool_pieces id name ps)) c)
  unfolding block_events block_of collect_block process_event start_block assemble chunk_with_choice
      add_calls
  tool-Carries s i id name ps rest a c k =
      let n = s.next_tool_idx in
      let t : StreamState = record (with_kind i tool_kind s) {
        next_tool_idx = n + 1;
        tool_sub_idx = insert i n s.tool_sub_idx;
      } in
      let opened : ToolCall = record { id = id; kind = "function"; name = name; arguments = "" } in
      let call : ToolCall = record {
        id = id;
        kind = "function";
        name = name;
        arguments = join ps;
      } in
      let started : Assembled = record a { calls = a.calls ++ (n, opened) ∷ [] } in
      let b : Assembled = record a { calls = a.calls ++ (n, call) ∷ [] } in
      record {
        state = t;
        seen = b;
        same =
            after_event upstream_failed r u s (content_block_start i (tool_use_block id name "{}"))
              _ a k.open_still k.open_still
            ∙ after_tool upstream_failed r u t i n ps _ started k.open_still
                (get-insert_self i tool_kind s.block_kind) (get-insert_self i n s.tool_sub_idx)
            ∙ ap (λ calls. seen_after t (content_block_stop i ∷ rest) (record a { calls = calls }))
                (modify_last n (add_arguments (join ps)) a.calls opened k.below
                  ∙ ap (λ v. a.calls ++ (n, record opened { arguments = v }) ∷ [])
                      (nil-append (join ps)))
            ∙ after_event upstream_failed r u t (content_block_stop i) rest b k.open_still
                k.open_still;
        carried = record {
          open_still = k.open_still;
          pending = k.pending;
          content = k.content;
          calls =
              ap (map (reprinted to_string)) (values-snoc n a.calls call)
              ∙ map-snoc (reprinted to_string) (values a.calls) call
              ∙ ap (λ cs. cs ++ reprinted to_string call ∷ []) k.calls;
          reasoning = k.reasoning;
          below = AreKeysBelow-snoc n a.calls call k.below;
          counted = positive n ∙ sym (has_any-snoc c.tool_calls (reprinted to_string call));
        };
      }

  fallback-Carries :
      (s : StreamState) (i : ℕ) (m : Option String) (rest : List StreamEvent) (a : Assembled)
      (c : Collected)
      → IsCarried to_string s a c
      → Carries s
          (block_events i (fallback_to m) rest)
          a
          rest
          (collect_block to_string r (block_of (fallback_to m)) c)
  unfolding block_events block_of collect_block process_event start_block assemble
  fallback-Carries s i m rest a c k =
      let t = with_kind i other_kind (record s { model = unwrap_or m s.model }) in
      record {
        state = t;
        seen = a;
        same =
            after_event upstream_failed r u s (content_block_start i (fallback_block m)) _ a
              k.open_still k.open_still
            ∙ after_event upstream_failed r u t (content_block_stop i) rest a k.open_still
                k.open_still;
        carried = IsCarried-of_same to_string s t a c refl refl refl k;
      }

  whole-Carries :
      (s : StreamState) (i : ℕ) (o : OtherBlock) (rest : List StreamEvent) (a : Assembled)
      (c : Collected)
      → IsCarried to_string s a c
      → Carries s
          (block_events i (whole_block o) rest)
          a
          rest
          (collect_block to_string r (block_of (whole_block o)) c)
  unfolding block_events block_of collect_block process_event start_block assemble
  whole-Carries s i o rest a c k =
      let t = with_kind i other_kind s in
      record {
        state = t;
        seen = a;
        same =
            after_event upstream_failed r u s (content_block_start i (other_block o)) _ a
              k.open_still k.open_still
            ∙ after_event upstream_failed r u t (content_block_stop i) rest a k.open_still
                k.open_still;
        carried = IsCarried-of_same to_string s t a c refl refl refl k;
      }

  block-Carries :
      (b : Streamed) (s : StreamState) (i : ℕ) (rest : List StreamEvent) (a : Assembled)
      (c : Collected)
      → IsCarried to_string s a c
      → Carries s (block_events i b rest) a rest (collect_block to_string r (block_of b) c)
  block-Carries (text_pieces ps) s i rest a c k = text-Carries s i ps rest a c k
  block-Carries (tool_pieces id name ps) s i rest a c k = tool-Carries s i id name ps rest a c k
  block-Carries (thinking_pieces g ps) s i rest a c k = thinking-Carries s i g ps rest a c k
  block-Carries (fallback_to m) s i rest a c k = fallback-Carries s i m rest a c k
  block-Carries (whole_block o) s i rest a c k = whole-Carries s i o rest a c k

  -- All blocks of a message.
  pub blocks-Carries :
      (bs : List Streamed) (s : StreamState) (i : ℕ) (rest : List StreamEvent) (a : Assembled)
      (c : Collected)
      → IsCarried to_string s a c
      → Carries s (blocks_events i bs rest) a rest (collect_blocks to_string r (blocks_of bs) c)
  unfolding blocks_events blocks_of collect_blocks
  blocks-Carries [] s i rest a c k = record { state = s; seen = a; same = refl; carried = k }
  blocks-Carries (b ∷ bs) s i rest a c k =
      let first = block-Carries b s i (blocks_events (i + 1) bs rest) a c k in
      let others =
        blocks-Carries bs first.state (i + 1) rest first.seen
          (collect_block to_string r (block_of b) c) first.carried in
      record {
        state = others.state;
        seen = others.seen;
        same = first.same ∙ others.same;
        carried = others.carried;
      }
