-- ===== src/Pool/Dispatch/Choice.antt =====
-- src/services/account_pool/dispatch.rs: which requests are served, by whom, and what that changes.
use native.Mathlib.Nat.{mod-eq_of_lt}
use clewdr_hub.Common.{
  ℕ, ◌+◌, ◌<◌, ◌≡◌, refl, ap, ◌⊎◌, inl, inr, Bool, true, false, ◌&&◌, Option, none, some, List, [],
  ◌∷◌, ◌++◌, arith, if◌then◌else◌, Bool-cases, if_same, Option-cases, and_left, and_right, ltb→lt,
  ◌==◌, ==_iff, contains, any, count, count-rotate, At, get_elem?-remove_at, Picked, get, modify,
  get-modify,
}
use clewdr_hub.Config.Slot.{AccountSlot}
use clewdr_hub.Pool.State.{Moka, PoolState}
use clewdr_hub.Pool.Dispatch.{
  Outcome, served, refused, u32_mod, add_one, bound_ok, slot_ok, is_usable, is_drain_first,
  usable_drain, begin_request, dispatch_empty_error, commit_dispatch, dispatch_from,
}
use clewdr_hub.Pool.Dispatch.Pick.{dispatch_from-cases}

-- The key of the request may use the account: it is bound to no account, or to this one too.
abbrev pub IsBound : List ℕ → ℕ → Type 0
IsBound bound id = (bound ≡ []) ⊎ (contains id bound ≡ true)

-- The account has a free slot, or no limit is known.
abbrev pub HasRoom : List (ℕ × (ℕ × ℕ)) → ℕ → Type 0
HasRoom inflight id =
    (get id inflight ≡ none)
    ⊎ ((cur : ℕ) × (max : ℕ) × (get id inflight ≡ some (cur, max)) × (cur < max))

-- An account that may serve.
pub record MayServe (bound : List ℕ) (inflight : List (ℕ × (ℕ × ℕ))) (c : AccountSlot)
    : Type 0 where
  pub id : ℕ
  pub known : c.account_id ≡ some id
  pub bound_to : IsBound bound id
  pub room : HasRoom inflight id

IsBound-of_bound_ok : (bound : List ℕ) (id : ℕ) → bound_ok bound id ≡ true → IsBound bound id
unfolding bound_ok
IsBound-of_bound_ok [] id h = inl refl
IsBound-of_bound_ok (x ∷ xs) id h = inr h

bound_ok_of_IsBound : (bound : List ℕ) (id : ℕ) → IsBound bound id → bound_ok bound id ≡ true
unfolding bound_ok
bound_ok_of_IsBound [] id h = refl
bound_ok_of_IsBound (x ∷ xs) id (inl e) = cc
bound_ok_of_IsBound (x ∷ xs) id (inr e) = e

HasRoom-of_slot_ok :
    (inflight : List (ℕ × (ℕ × ℕ))) (id : ℕ) → slot_ok inflight id ≡ true → HasRoom inflight id
unfolding slot_ok
HasRoom-of_slot_ok inflight id h = elim (Option-cases (get id inflight)) [
  | inl e ↦ inl e
  | inr ((cur, max), e) ↦ inr (cur, max, e, ltb→lt cur max (rw e at h))
]

slot_ok_of_HasRoom :
    (inflight : List (ℕ × (ℕ × ℕ))) (id : ℕ) → HasRoom inflight id → slot_ok inflight id ≡ true
unfolding slot_ok
slot_ok_of_HasRoom inflight id (inl e) = rw e
slot_ok_of_HasRoom inflight id (inr (cur, max, e, h)) = rw e (ground arith)

-- The test of the code decides it.
pub MayServe-of_is_usable :
    (bound : List ℕ) (inflight : List (ℕ × (ℕ × ℕ))) (c : AccountSlot)
    → is_usable bound inflight c ≡ true
    → MayServe bound inflight c
unfolding is_usable
MayServe-of_is_usable bound inflight c h = elim (Option-cases c.account_id) [
  | inl e ↦ cc (rw (e, is_usable) at h)
  | inr (id, e) ↦
      let both : (bound_ok bound id && slot_ok inflight id) ≡ true = rw (e, is_usable) at h in
      record {
        id = id;
        known = e;
        bound_to = IsBound-of_bound_ok bound id (and_left _ _ both);
        room = HasRoom-of_slot_ok inflight id (and_right _ _ both);
      }
]

pub is_usable_of_MayServe :
    (bound : List ℕ) (inflight : List (ℕ × (ℕ × ℕ))) (c : AccountSlot)
    → MayServe bound inflight c
    → is_usable bound inflight c ≡ true
unfolding is_usable
is_usable_of_MayServe bound inflight c m =
    rw (m.known, bound_ok_of_IsBound bound m.id m.bound_to, slot_ok_of_HasRoom inflight m.id m.room)

-- The counters after the account `id` has taken one more request: its own is one higher, and no other changes.
abbrev pub Counted : ℕ → List (ℕ × (ℕ × ℕ)) → List (ℕ × (ℕ × ℕ)) → Type 0
Counted id before after =
    ((j cur max : ℕ)
      → get j before ≡ some (cur, max)
      → max < u32_mod
      → get j after ≡ some (if id == j then cur + 1 else cur, max))
    × ((j : ℕ) → get j before ≡ none → get j after ≡ none)

-- A request that was served by `c`: what the pool then looks like.
pub record Served {C : Type 0} (bound : List ℕ) (s t : PoolState C) (c : AccountSlot) : Type 0 where
  pub member : At s.valid c
  pub may : MayServe bound s.inflight c
  pub drain :
      any (usable_drain bound s.inflight s.drain_first_ids) s.valid ≡ true
      → is_drain_first s.drain_first_ids c ≡ true
  pub earlier : List AccountSlot
  pub last : t.valid ≡ earlier ++ c ∷ []
  pub rotated : (p : AccountSlot → Bool) → count p t.valid ≡ count p s.valid
  pub counted : Counted may.id s.inflight t.inflight
  pub exhausted : t.exhausted ≡ s.exhausted
  pub invalid : t.invalid ≡ s.invalid
  pub dirty : t.dirty ≡ s.dirty

-- What a dispatch answers.
pub data Answers {C : Type 0} (bound : List ℕ) (s : PoolState C) (r : PoolState C × Outcome)
    : Type 0 where
  serves : (c : AccountSlot) → r.1 ≡ served c → Served bound s r.0 c → Answers bound s r
  refuses :
      any (is_usable bound s.inflight) s.valid ≡ false
      → r.1 ≡ refused (dispatch_empty_error s bound)
      → r.0 ≡ record s { moka = r.0.moka }
      → Answers bound s r

pub lt_of_HasRoom :
    (inflight : List (ℕ × (ℕ × ℕ))) (id cur max : ℕ)
    → HasRoom inflight id
    → get id inflight ≡ some (cur, max)
    → cur < max
lt_of_HasRoom inflight id cur max (inl gone) e = cc
lt_of_HasRoom inflight id cur max (inr (cur', max', e', h)) e = ground arith

begin_request-Counted :
    (bound : List ℕ) (inflight : List (ℕ × (ℕ × ℕ))) (c : AccountSlot)
    (m : MayServe bound inflight c)
    → Counted m.id inflight (begin_request c.account_id inflight)
unfolding begin_request
begin_request-Counted bound inflight c m = rw m.known (present, absent)
  where
    fits :
        (j cur max : ℕ)
        → get j inflight ≡ some (cur, max)
        → max < u32_mod
        → (m.id == j) ≡ true
        → cur + 1 < u32_mod
    fits j cur max e h same =
        let at : get m.id inflight ≡ some (cur, max) = rw ((==_iff m.id j).0 same) e in
        omega (arith, lt_of_HasRoom inflight m.id cur max m.room at)

    present :
        (j cur max : ℕ)
        → get j inflight ≡ some (cur, max)
        → max < u32_mod
        → get j (modify m.id add_one inflight) ≡ some (if m.id == j then cur + 1 else cur, max)
    present j cur max e h =
        rw (get-modify m.id j add_one inflight, e)
          (elim (Bool-cases (m.id == j)) [
            | inl same ↦ rw same (ap (λ n. some (n, max)) (mod-eq_of_lt (fits j cur max e h same)))
            | inr other ↦ rw other
          ])

    absent : (j : ℕ) → get j inflight ≡ none → get j (modify m.id add_one inflight) ≡ none
    absent j e = rw (get-modify m.id j add_one inflight, e) (if_same (m.id == j) none)

module _ {C : Type 0} (moka : Moka C) (bound : List ℕ) (s : PoolState C) where
  commit_dispatch-Answers :
      (key : Option ℕ) (c : C) (i : ℕ) (rewrite : Bool)
      (k : Picked (is_usable bound s.inflight) s.valid i)
      → (any (usable_drain bound s.inflight s.drain_first_ids) s.valid ≡ true
          → is_drain_first s.drain_first_ids k.chosen ≡ true)
      → Answers bound s (commit_dispatch moka (record s { moka = c }) i key rewrite)
  unfolding commit_dispatch
  commit_dispatch-Answers key c i rewrite k drain =
      rw (k.removed, commit_dispatch)
        (serves k.chosen refl (record {
          member = record { index = i; found = get_elem?-remove_at s.valid i k.removed };
          may = may;
          drain = drain;
          earlier = k.others;
          last = refl;
          rotated = λ p. count-rotate p s.valid i k.removed;
          counted = begin_request-Counted bound s.inflight k.chosen may;
          exhausted = refl;
          invalid = refl;
          dirty = refl;
        }))
    where
      may : MayServe bound s.inflight k.chosen
      may = MayServe-of_is_usable bound s.inflight k.chosen k.passes

  pub dispatch_from-Answers : (key : Option ℕ) → Answers bound s (dispatch_from moka s key bound)
  dispatch_from-Answers key =
      dispatch_from-cases moka (Answers bound s) key bound s (commit_dispatch-Answers key)
        (λ c h. refuses h refl refl)
