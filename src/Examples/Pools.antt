-- ===== src/Examples/Pools.antt =====
-- The theorems on the pool, at a pool with one account in each bucket.
use clewdr_hub.Common.{
  ℕ, ◌≡◌, ◌≢◌, ◌↔◌, refl, inl, inr, ◌⊎◌, true, false, none, some, List, [], ◌∷◌, arith, contains,
  any, find, position, remove_at, get, At, pos,
}
use clewdr_hub.Config.Reason.{banned}
use clewdr_hub.Config.Runtime.{RuntimeStateParams, to_runtime_params}
use clewdr_hub.Config.Slot.{AccountSlot, reset_slot}
use clewdr_hub.Pool.State.{PoolState, no_valid_upstream_accounts, upstream_cooling_down}
use clewdr_hub.Pool.Reset.{reset, requeue, recovered, is_recovered}
use clewdr_hub.Pool.Dispatch.{
  served, refused, is_drain_first, dispatch, dispatch_from, cache_key, affinity, is_usable,
  bound_ok, slot_ok, commit_dispatch,
}
use clewdr_hub.Pool.Dispatch.Choice.{MayServe, Served}
use clewdr_hub.Pool.Dispatch.Service.{
  dispatch-Served, dispatch-refused_iff, SomeInBound, dispatch-drain_first, WithinLimits,
  dispatch-WithinLimits,
}
use clewdr_hub.Pool.Dispatch.Affinity.{ServesOwn, dispatch-ServesOwn}
use clewdr_hub.Pool.Fingerprint.{
  pool_slot, pool_credential_fingerprint, from_slot, credential_prefix, of_api_key,
}
use clewdr_hub.Pool.Collect.{full, collect_by_id, converge_invalidate, sticky_entry, is_sticky}
use clewdr_hub.Pool.Conservation.{Conserves}
use clewdr_hub.Pool.Conservation.Messages.{handle-Conserves}
use clewdr_hub.Pool.Conservation.Sticky.{collect_by_id-KeepsSticky}
use clewdr_hub.Pool.Flush.{DbWrite, do_flush}
use clewdr_hub.Pool.Flush.Laws.{mentions, do_flush-converge_invalidate}
use clewdr_hub.Pool.Actor.{silent, unheard, invalidate, flush_dirty, Reply, return_slot, handle}
use clewdr_hub.Pool.Conservation.Runs.{Reaches, here, turn, Reaches-Conserves}
use clewdr_hub.Examples.Inputs.{table, key_slot, parked, pool, pool-IsWellFormed, failing, world}

abbrev Table : Type 0
Table = PoolState (List (ℕ × ℕ))

abbrev update : RuntimeStateParams
update = to_runtime_params (parked 2 200)

exhausted_fingerprint : pool_credential_fingerprint pool 2 ≡ some (some (of_api_key "sk-ant-1"))
unfolding pool_credential_fingerprint pool_slot from_slot credential_prefix get find
exhausted_fingerprint = refl

exhausted_is_cuttable : pool_credential_fingerprint pool 2 ≢ none
exhausted_is_cuttable e = cc exhausted_fingerprint

first_valid : At (reset (pos 50) pool).valid (key_slot 1)
unfolding reset requeue recovered is_recovered reset_slot
first_valid = record { index = 0; found = refl }

first_may : MayServe [] (reset (pos 50) pool).inflight (key_slot 1)
unfolding reset requeue recovered is_recovered reset_slot get
first_may = record {
  id = 1;
  known = refl;
  bound_to = inl refl;
  room = inr (0, 2, refl, omega arith);
}

pool_within : WithinLimits pool.inflight
unfolding get
pool_within id cur max e = ground arith

key_is_hash : cache_key world.hasher (some 7) [] ≡ some 7
unfolding cache_key
key_is_hash = refl

hash_is_cached : table.lookup 7 (reset (pos 50) pool).moka ≡ some 1
unfolding get reset requeue recovered is_recovered reset_slot
hash_is_cached = refl

first_drains : contains 1 (reset (pos 50) pool).drain_first_ids ≡ true
unfolding contains reset requeue recovered is_recovered reset_slot
first_drains = refl

first_is_drain_first : is_drain_first (reset (pos 50) pool).drain_first_ids (key_slot 1) ≡ true
unfolding contains reset requeue recovered is_recovered reset_slot is_drain_first
first_is_drain_first = refl

handle-Conserves_example :
    (t : Table) × (r : Reply) × (ws : List DbWrite) × (handle table world pool
        (return_slot 2 update none none full)
      ≡ some (t, r, ws))
    × ((r ≢ unheard) ⊎ (world.is_awaited ≡ false))
    × Conserves pool t
handle-Conserves_example =
    handle-Conserves table world pool (return_slot 2 update none none full) pool-IsWellFormed
      exhausted_is_cuttable

dispatch-Served_example :
    (d : AccountSlot) × ((dispatch table world.hasher (pos 50) pool (some 7) []).1 ≡ served d)
    × Served [] (reset (pos 50) pool) (dispatch table world.hasher (pos 50) pool (some 7) []).0 d
dispatch-Served_example =
    dispatch-Served table world.hasher (pos 50) pool (some 7) [] (key_slot 1) first_valid first_may

dispatch-refused_iff_example :
    ((dispatch table world.hasher (pos 50) pool (some 7) (9 ∷ [])).1
      ≡ refused no_valid_upstream_accounts)
    ↔ (((c : AccountSlot)
          → At (reset (pos 50) pool).valid c
          → ¬ MayServe (9 ∷ []) (reset (pos 50) pool).inflight c)
        × ((no_valid_upstream_accounts ≡ upstream_cooling_down)
            ↔ SomeInBound (reset (pos 50) pool) (9 ∷ [])))
dispatch-refused_iff_example =
    dispatch-refused_iff table world.hasher (pos 50) pool (some 7) (9 ∷ [])
      no_valid_upstream_accounts

dispatch-WithinLimits_example :
    WithinLimits (dispatch table world.hasher (pos 50) pool (some 7) []).0.inflight
dispatch-WithinLimits_example =
    dispatch-WithinLimits table world.hasher (pos 50) pool (some 7) [] pool_within

dispatch-ServesOwn_example :
    ServesOwn table []
      (reset (pos 50) pool)
      1
      (dispatch table world.hasher (pos 50) pool (some 7) [])
dispatch-ServesOwn_example =
    dispatch-ServesOwn table world.hasher (pos 50) pool (some 7) [] 7 1 (key_slot 1) key_is_hash
      hash_is_cached first_valid refl first_may (inl first_drains)

first_served : (dispatch table world.hasher (pos 50) pool (some 7) []).1 ≡ served (key_slot 1)
unfolding get reset requeue recovered is_recovered reset_slot dispatch dispatch_from contains
    cache_key position affinity is_usable bound_ok slot_ok commit_dispatch remove_at
first_served = refl

dispatch-drain_first_example :
    is_drain_first (reset (pos 50) pool).drain_first_ids (key_slot 1) ≡ true
dispatch-drain_first_example =
    dispatch-drain_first table world.hasher (pos 50) pool (some 7) [] (key_slot 1) (key_slot 1)
      first_valid first_may first_is_drain_first first_served

third_sticky : sticky_entry (get 3 pool.invalid) ≡ true
unfolding get is_sticky
third_sticky = refl

collect_by_id-KeepsSticky_example :
    (t : Table) × (collect_by_id pool 2 update none none full ≡ some (t, contains 2 pool.probing))
    × (get 3 t.invalid ≡ get 3 pool.invalid)
collect_by_id-KeepsSticky_example =
    collect_by_id-KeepsSticky pool 3 2 update none none full third_sticky exhausted_is_cuttable

do_flush-converge_invalidate_example :
    any (mentions 1) (do_flush failing (converge_invalidate table pool 1 banned)).1 ≡ false
do_flush-converge_invalidate_example = do_flush-converge_invalidate table failing pool 1 banned

abbrev without_first : Table
without_first = converge_invalidate table pool 1 banned

turn_invalidate : handle table world pool (invalidate 1 banned) ≡ some (without_first, silent, [])
unfolding handle
turn_invalidate = refl

turn_flush :
    handle table world without_first flush_dirty
    ≡ some ((do_flush failing without_first).0, silent, (do_flush failing without_first).1)
unfolding handle
turn_flush = refl

two_turns : Reaches table pool (do_flush failing without_first).0
two_turns =
    turn world flush_dirty silent (do_flush failing without_first).1
      (turn world (invalidate 1 banned) silent [] here tt turn_invalidate) tt turn_flush

Reaches-Conserves_example : Conserves pool (do_flush failing without_first).0
Reaches-Conserves_example =
    Reaches-Conserves table pool (do_flush failing without_first).0 two_turns pool-IsWellFormed
