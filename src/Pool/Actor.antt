-- ===== src/Pool/Actor.antt =====
-- src/services/account_pool/actor.rs: the actor's messages, handled one at a time. `ReloadFromDb`, which rebuilds
-- the pool from the database, is not among them.
use Prim.Native.Nat.{◌-◌}
use clewdr_hub.Common.{
  ℕ, String, Bool, true, false, Option, some, List, [], ◌∷◌, ◌++◌, if◌then◌else◌, is_some, and_then,
  contains, remove_id, insert_id, get, insert, remove, modify, retain, find, ℤ,
}
use clewdr_hub.Config.Reason.{Reason, InvalidAccountSlot}
use clewdr_hub.Config.Slot.{AccountSlot, TokenInfo, has_id}
use clewdr_hub.Config.Runtime.{RuntimeStateParams}
use clewdr_hub.Pool.State.{Moka, PoolState, values, emit_accounts_refresh}
use clewdr_hub.Pool.Reset.{reset, refresh_usage_windows}
use clewdr_hub.Pool.Dispatch.{Outcome, dispatch}
use clewdr_hub.Pool.Fingerprint.{CredentialFingerprint, pool_oauth_refresh_token_matches}
use clewdr_hub.Pool.Collect.{
  RuntimeMergeMode, collect_by_id, update_slot_credential, converge_invalidate,
}
use clewdr_hub.Pool.Flush.{DbAnswers, DbWrite, do_flush}
use clewdr_hub.Pool.Probes.{spawn_probe_accounts, spawn_probes_for_unprobed, ids_of}

-- `AccountPoolMessage`.
pub data Message : Type 0 where
  return_slot :
      ℕ
      → RuntimeStateParams
      → Option Reason
      → Option CredentialFingerprint
      → RuntimeMergeMode
      → Message
  check_reset : Message
  request : Option ℕ → List ℕ → Message
  get_status : Message
  probe_accounts : List ℕ → Message
  begin_probe : ℕ → Message
  flush_dirty : Message
  set_handle : Message
  release_slot : ℕ → Message
  get_probing_ids : Message
  clear_probing : ℕ → Message
  set_probe_error : ℕ → String → Message
  clear_probe_error : ℕ → Message
  get_probe_errors : Message
  update_credential : ℕ → Option TokenInfo → Message
  update_credential_if_current : ℕ → String → Option TokenInfo → Message
  get_token : ℕ → Message
  invalidate : ℕ → Reason → Message
  invalidate_if_current : ℕ → String → Reason → Message
  snapshot_pool_state : Message

-- `AccountPoolStatus`, of src/services/account_pool/state.rs.
pub record AccountPoolStatus : Type 0 where
  pub valid : List AccountSlot
  pub exhausted : List AccountSlot
  pub invalid : List InvalidAccountSlot

-- `PoolSnapshotView`, of src/services/account_health.rs.
pub record PoolSnapshotView : Type 0 where
  pub valid_ids : List ℕ
  pub exhausted : List (ℕ × Option ℤ)
  pub invalid : List (ℕ × Reason)
  pub inflight : List (ℕ × (ℕ × ℕ))
  pub probing : List ℕ
  pub reactivated : List ℕ
  pub probe_errors : List (ℕ × String)

-- What is sent to the reply port. `unheard` is a reply whose caller is gone: `send` fails, `handle` returns the error,
-- and the actor stops with the pool as it is then.
pub data Reply : Type 0 where
  silent unheard : Reply
  dispatched : Outcome → Reply
  status : AccountPoolStatus → Reply
  ids : List ℕ → Reply
  flag : Bool → Reply
  errors : List (ℕ × String) → Reply
  token : Option TokenInfo → Reply
  snapshot : PoolSnapshotView → Reply

-- What a turn takes from outside: the hasher, the clock, the database's answers, and whether the caller still waits for
-- a reply.
pub record World : Type 0 where
  pub hasher : ℕ → List ℕ → ℕ
  pub now : ℤ
  pub db : DbAnswers
  pub is_awaited : Bool

unfoldable pub map_entries {ℓ κ} : {V : Type ℓ} {W : Type κ} → (V → W) → List (ℕ × V) → List (ℕ × W)
map_entries f [] = []
map_entries f ((k, v) ∷ m) = (k, f v) ∷ map_entries f m

-- `*cur = cur.saturating_sub(1)`.
abbrev pub release_one : ℕ × ℕ → ℕ × ℕ
release_one (cur, max) = (cur - 1, max)

-- A turn of the actor: the pool, the reply, and the database writes.
abbrev pub Turn : Type 0 → Type 0
Turn C = PoolState C × Reply × List DbWrite

module _ {C : Type 0} where
  -- `report`, of src/services/account_pool/reporting.rs.
  unfoldable pub report : PoolState C → AccountPoolStatus
  report s = record { valid = s.valid; exhausted = values s.exhausted; invalid = values s.invalid }

  -- `snapshot_view`, of the same file.
  unfoldable pub snapshot_view : PoolState C → PoolSnapshotView
  snapshot_view s = record {
    valid_ids = ids_of s.valid;
    exhausted = map_entries (λ c. c.reset_time) s.exhausted;
    invalid = map_entries (λ u. u.reason) s.invalid;
    inflight = s.inflight;
    probing = s.probing;
    reactivated = s.reactivated;
    probe_errors = s.probe_errors;
  }

  -- The token that `GetToken` finds.
  unfoldable pub pool_token : PoolState C → ℕ → Option TokenInfo
  pool_token s id = and_then (find (has_id id) (s.valid ++ values s.exhausted)) (λ slot. slot.token)

  abbrev quietly : PoolState C → Turn C
  quietly s = (s, silent, [])

  -- `reply_port.send(..)?`.
  abbrev answer : World → PoolState C → Reply → Turn C
  answer w s r = (s, if w.is_awaited then r else unheard, [])

  -- A completed probe flushes at once.
  abbrev pub returned : DbAnswers → PoolState C × Bool → Turn C
  returned db (s, false) = quietly s
  returned db (s, true) = (emit_accounts_refresh (do_flush db s).0, silent, (do_flush db s).1)

  abbrev begun : World → PoolState C → ℕ → Turn C
  begun w s id =
      if contains id s.probing
      then answer w s (flag false)
      else answer w
          (emit_accounts_refresh (record s {
            probing = insert_id id s.probing;
            probe_errors = remove id s.probe_errors;
          }))
          (flag true)

  -- `handle`; `none` is a panic.
  unfoldable pub handle : Moka C → World → PoolState C → Message → Option (Turn C)
  handle moka w s (return_slot id update reason expected mode) =
      and_then (collect_by_id s id update reason expected mode) (λ r. some (returned w.db r))
  handle moka w s check_reset = some (quietly (reset w.now (refresh_usage_windows w.now s).0))
  handle moka w s (request hash bound) =
      let (t, outcome) = dispatch moka w.hasher w.now s hash bound in
      some (answer w t (dispatched outcome))
  handle moka w s get_status =
      let t = (refresh_usage_windows w.now s).0 in some (answer w t (status (report t)))
  handle moka w s (probe_accounts wanted) =
      let t = spawn_probe_accounts s wanted in
      some (answer w t (ids (retain (λ id. contains id t.probing) wanted)))
  handle moka w s (begin_probe id) = some (begun w s id)
  handle moka w s flush_dirty = some ((do_flush w.db s).0, silent, (do_flush w.db s).1)
  handle moka w s set_handle =
      some (quietly (spawn_probes_for_unprobed (record s { handle = true })))
  handle moka w s (release_slot id) =
      some (quietly (record s { inflight = modify id release_one s.inflight }))
  handle moka w s get_probing_ids = some (answer w s (ids s.probing))
  handle moka w s (clear_probing id) = some (
      quietly (
        if contains id s.probing
        then emit_accounts_refresh (record s { probing = remove_id id s.probing })
        else s))
  handle moka w s (set_probe_error id msg) =
      some
        (quietly (emit_accounts_refresh (record s { probe_errors = insert id msg s.probe_errors })))
  handle moka w s (clear_probe_error id) = some (
      quietly (
        if is_some (get id s.probe_errors)
        then emit_accounts_refresh (record s { probe_errors = remove id s.probe_errors })
        else s))
  handle moka w s get_probe_errors = some (answer w s (errors s.probe_errors))
  handle moka w s (update_credential id t) = some (quietly (update_slot_credential s id t))
  handle moka w s (update_credential_if_current id expected t) =
      let matched = pool_oauth_refresh_token_matches s id expected in
      some (answer w (if matched then update_slot_credential s id t else s) (flag matched))
  handle moka w s (get_token id) = some (answer w s (token (pool_token s id)))
  handle moka w s (invalidate id reason) = some (quietly (converge_invalidate moka s id reason))
  handle moka w s (invalidate_if_current id expected reason) =
      let matched = pool_oauth_refresh_token_matches s id expected in
      some (answer w (if matched then converge_invalidate moka s id reason else s) (flag matched))
  handle moka w s snapshot_pool_state = some (answer w s (snapshot (snapshot_view s)))
