-- ===== src/Pool/Dispatch.antt =====
-- src/services/account_pool/dispatch.rs: which account serves a request. The hash of a prompt together with
-- the key's bound accounts is the standard library's `DefaultHasher`, a parameter here.
pub mod Pick
pub mod Choice
pub mod Service
pub mod Affinity
use Prim.Native.Nat.{◌+◌, ◌%◌, ◌^◌}
use clewdr_hub.Common.{
  ℕ, suc, Bool, true, false, not, ◌&&◌, ◌||◌, Option, none, some, List, [], ◌∷◌, ◌++◌,
  if◌then◌else◌, is_some_and, is_none_or, or_else, and_then, ltb, ◌==◌, contains, any, position,
  remove_at, get_elem?, get, modify, ℤ,
}
use clewdr_hub.Config.Slot.{AccountSlot, has_id}
use clewdr_hub.Pool.State.{
  Moka, PoolState, PoolError, upstream_cooling_down, no_valid_upstream_accounts, values,
}
use clewdr_hub.Pool.Reset.{reset}

-- What the caller is answered, or a panic (`valid.remove(pos).unwrap()`).
pub data Outcome : Type 0 where
  served : AccountSlot → Outcome
  refused : PoolError → Outcome
  panicked : Outcome

abbrev pub u32_mod : ℕ
u32_mod = 2 ^ 32

abbrev pub is_empty : List ℕ → Bool
is_empty [] = true
is_empty (x ∷ xs) = false

-- The closures `bound_ok`, `slot_ok` and `is_usable`.
unfoldable pub bound_ok : List ℕ → ℕ → Bool
bound_ok bound id = is_empty bound || contains id bound

abbrev pub has_room : ℕ × ℕ → Bool
has_room (cur, max) = ltb cur max

unfoldable pub slot_ok : List (ℕ × (ℕ × ℕ)) → ℕ → Bool
slot_ok inflight id = is_none_or (get id inflight) has_room

unfoldable pub is_usable : List ℕ → List (ℕ × (ℕ × ℕ)) → AccountSlot → Bool
is_usable bound inflight c =
    is_some_and c.account_id (λ id. bound_ok bound id && slot_ok inflight id)

unfoldable pub is_drain_first : List ℕ → AccountSlot → Bool
is_drain_first drain c = is_some_and c.account_id (λ id. contains id drain)

abbrev pub usable_drain : List ℕ → List (ℕ × (ℕ × ℕ)) → List ℕ → AccountSlot → Bool
usable_drain bound inflight drain c = is_usable bound inflight c && is_drain_first drain c

-- `*cur += 1` on a `u32`.
abbrev pub add_one : ℕ × ℕ → ℕ × ℕ
add_one (cur, max) = ((cur + 1) % u32_mod, max)

unfoldable pub begin_request : Option ℕ → List (ℕ × (ℕ × ℕ)) → List (ℕ × (ℕ × ℕ))
begin_request none inflight = inflight
begin_request (some id) inflight = modify id add_one inflight

-- `c.account_id` is in the key's bound set, or the set is empty.
unfoldable pub is_relevant : List ℕ → AccountSlot → Bool
is_relevant bound c = is_empty bound || is_some_and c.account_id (λ id. contains id bound)

-- The affinity key.
unfoldable pub cache_key : (ℕ → List ℕ → ℕ) → Option ℕ → List ℕ → Option ℕ
cache_key hasher none bound = none
cache_key hasher (some h) bound = some (if is_empty bound then h else hasher h bound)

module _ {C : Type 0} where
  -- `dispatch_empty_error`.
  unfoldable pub dispatch_empty_error : PoolState C → List ℕ → PoolError
  dispatch_empty_error s bound =
      if any (is_relevant bound) s.valid || any (is_relevant bound) (values s.exhausted)
      then upstream_cooling_down
      else no_valid_upstream_accounts

  module _ (moka : Moka C) where
    abbrev forget : Option ℕ → C → C
    forget none c = c
    forget (some k) c = moka.invalidate k c

    abbrev bind_account : Bool → Option ℕ → Option ℕ → C → C
    bind_account true (some k) (some id) c = moka.bind k id c
    bind_account _ _ _ c = c

    -- `commit_dispatch`.
    unfoldable pub commit_dispatch : PoolState C → ℕ → Option ℕ → Bool → PoolState C × Outcome
    commit_dispatch s pos key rewrite_cache = elim (remove_at s.valid pos) [
      | none ↦ (s, panicked)
      | some (cookie, rest) ↦ (
        record s {
          valid = rest ++ cookie ∷ [];
          inflight = begin_request cookie.account_id s.inflight;
          moka = bind_account rewrite_cache key cookie.account_id s.moka;
        },
        served cookie,
      )
    ]

    -- The positions that the searches in `valid` find.
    abbrev drain_position : PoolState C → List ℕ → Option ℕ
    drain_position s bound = position (usable_drain bound s.inflight s.drain_first_ids) s.valid

    abbrev usable_position : PoolState C → List ℕ → Option ℕ
    usable_position s bound = position (is_usable bound s.inflight) s.valid

    -- Phases B and C: a usable account that is to be drained first, else the first usable one.
    unfoldable pub phase_bc : PoolState C → Option ℕ → List ℕ → PoolState C × Outcome
    phase_bc s key bound =
        elim (if is_empty s.drain_first_ids then none else drain_position s bound) [
          | some pos ↦ commit_dispatch s pos key true
          | none ↦ elim (usable_position s bound) [
            | some pos ↦ commit_dispatch s pos key true
            | none ↦ (s, refused (dispatch_empty_error s bound))
          ]
        ]

    abbrev is_other : PoolState C → List ℕ → ℕ → AccountSlot → Bool
    is_other s bound cached_id c = not (has_id cached_id c) && is_usable bound s.inflight c

    abbrev other_drain : PoolState C → List ℕ → ℕ → AccountSlot → Bool
    other_drain s bound cached_id c =
        is_other s bound cached_id c && is_drain_first s.drain_first_ids c

    -- The cached account is saturated: borrow another, and leave the cache alone.
    unfoldable pub overflow_borrow : PoolState C → Option ℕ → List ℕ → ℕ → PoolState C × Outcome
    overflow_borrow s key bound cached_id =
        elim (or_else (position (other_drain s bound cached_id) s.valid)
          (position (is_other s bound cached_id) s.valid)) [
            | some pos ↦ commit_dispatch s pos key false
            | none ↦ (s, refused (dispatch_empty_error s bound))
          ]

    -- `is_usable(&state.valid[pos])`; the position is one that was found.
    abbrev usable_at : PoolState C → List ℕ → ℕ → Bool
    usable_at s bound pos = is_some_and (get_elem? s.valid pos) (is_usable bound s.inflight)

    -- Phase A, with the cached account at `pos`.
    unfoldable pub affinity : PoolState C → Option ℕ → List ℕ → ℕ → ℕ → PoolState C × Outcome
    affinity s key bound cached_id pos =
        elim (if contains cached_id s.drain_first_ids then none else drain_position s bound) [
          | some drain_pos ↦ commit_dispatch s drain_pos key true
          | none ↦
              if usable_at s bound pos
              then commit_dispatch s pos key false
              else if not (bound_ok bound cached_id)
              then phase_bc (record s { moka = forget key s.moka }) key bound
              else overflow_borrow s key bound cached_id
        ]

    abbrev cached_account : PoolState C → Option ℕ → Option ℕ
    cached_account s key = and_then key (λ k. moka.lookup k s.moka)

    -- `dispatch` after its call of `reset`.
    unfoldable pub dispatch_from : PoolState C → Option ℕ → List ℕ → PoolState C × Outcome
    dispatch_from s key bound = elim (cached_account s key) [
      | none ↦ phase_bc s key bound
      | some cached_id ↦ elim (position (has_id cached_id) s.valid) [
        | none ↦ phase_bc (record s { moka = forget key s.moka }) key bound
        | some pos ↦ affinity s key bound cached_id pos
      ]
    ]

    -- `dispatch`.
    unfoldable pub dispatch :
        (ℕ → List ℕ → ℕ) → ℤ → PoolState C → Option ℕ → List ℕ → PoolState C × Outcome
    dispatch hasher now s hash bound =
        dispatch_from (reset now s) (cache_key hasher hash bound) bound
