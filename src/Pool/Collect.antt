-- ===== src/Pool/Collect.antt =====
-- src/services/account_pool/fingerprint.rs: what comes back from a request, and what the writers of the
-- database tell the pool.
use clewdr_hub.Common.{
  ℕ, Bool, true, false, not, ◌&&◌, Option, none, some, List, [], ◌∷◌, ◌++◌, map, if◌then◌else◌,
  is_some, or_else, and_then, contains, contains_key, remove_id, insert_id, find, retain, position,
  remove_at, get, insert, remove, modify, ℤ,
}
use clewdr_hub.Config.Reason.{
  Reason, free, disabled, banned, null, restricted, too_many_request, AuthMethod,
  InvalidAccountSlot,
}
use clewdr_hub.Config.Slot.{AccountSlot, TokenInfo, reset_window_usage, has_id}
use clewdr_hub.Config.Runtime.{
  RuntimeStateParams, apply_runtime_state, apply_oauth_snapshot_runtime,
}
use clewdr_hub.Pool.State.{Moka, PoolState, mark_dirty, emit_accounts_refresh}
use clewdr_hub.Pool.Fingerprint.{CredentialFingerprint, fingerprint_eq, pool_credential_fingerprint}

-- `RuntimeMergeMode`.
pub data RuntimeMergeMode : Type 0 where
  full oauth_snapshot : RuntimeMergeMode

unfoldable pub merge_runtime : RuntimeMergeMode → RuntimeStateParams → AccountSlot → AccountSlot
merge_runtime full p slot = apply_runtime_state p slot
merge_runtime oauth_snapshot p slot = apply_oauth_snapshot_runtime p slot

-- The reasons that a returning request never clears.
unfoldable pub is_sticky : Reason → Bool
is_sticky free = true
is_sticky disabled = true
is_sticky banned = true
is_sticky null = true
is_sticky (restricted ts) = false
is_sticky (too_many_request ts) = false

abbrev pub sticky_entry : Option InvalidAccountSlot → Bool
sticky_entry none = false
sticky_entry (some entry) = is_sticky entry.reason

-- `None | Some(TooManyRequest(_) | Restricted(_))`.
unfoldable pub stays_in_pool : Option Reason → Bool
stays_in_pool none = true
stays_in_pool (some r) = not (is_sticky r)

abbrev pub with_token : Option TokenInfo → AccountSlot → AccountSlot
with_token token slot = record slot { token = token }

abbrev pub kind_of : Option AccountSlot → Option AuthMethod
kind_of none = none
kind_of (some slot) = some slot.auth_method

abbrev pub record_invalid :
    Option AuthMethod → ℕ → Reason → List (ℕ × InvalidAccountSlot) → List (ℕ × InvalidAccountSlot)
record_invalid none id reason invalid = invalid
record_invalid (some kind) id reason invalid =
    insert id (record { account_id = id; auth_method = kind; reason = reason }) invalid

abbrev matches : CredentialFingerprint → Option CredentialFingerprint → Bool
matches expected none = false
matches expected (some f) = fingerprint_eq f expected

module _ {C : Type 0} where
  -- The slot that is taken out of `valid`, and the others.
  unfoldable pub take_valid : PoolState C → ℕ → Option (AccountSlot × List AccountSlot)
  take_valid s id = and_then (position (has_id id) s.valid) (remove_at s.valid)

  -- The account's slot, out of every bucket; `valid` wins over `exhausted`. `none` if it is in neither.
  unfoldable pub take_slot : PoolState C → ℕ → Option (AccountSlot × PoolState C)
  take_slot s id = elim (take_valid s id) [
    | some (slot, others) ↦ some (
      slot,
      record s { valid = others; exhausted = remove id s.exhausted; invalid = remove id s.invalid },
    )
    | none ↦ elim (get id s.exhausted) [
      | some slot ↦
          some (slot, record s { exhausted = remove id s.exhausted; invalid = remove id s.invalid })
      | none ↦ none
    ]
  ]

  abbrev pub park : PoolState C → ℕ → ℤ → AccountSlot → PoolState C
  park s id until slot = record s {
    exhausted =
        insert id (record (reset_window_usage slot) { reset_time = some until }) s.exhausted;
  }

  abbrev pub invalidate_slot : PoolState C → ℕ → Reason → AccountSlot → PoolState C
  invalidate_slot s id reason slot = record s {
    invalid =
        insert id (record { account_id = id; auth_method = slot.auth_method; reason = reason })
          s.invalid;
  }

  -- The match on `reason` that puts the slot into its bucket.
  unfoldable pub place : PoolState C → ℕ → Option Reason → AccountSlot → PoolState C
  place s id none slot =
      if is_some slot.reset_time
      then record s { exhausted = insert id slot s.exhausted }
      else record s { valid = s.valid ++ slot ∷ [] }
  place s id (some (too_many_request until)) slot = park s id until slot
  place s id (some (restricted until)) slot = park s id until slot
  place s id (some reason) slot = invalidate_slot s id reason slot

  -- `collect_by_id` once the guards have let the update through.
  unfoldable pub rebucket :
      PoolState C → ℕ → RuntimeStateParams → Option Reason → RuntimeMergeMode → PoolState C
  rebucket s id update reason mode = elim (take_slot s id) [
    | none ↦ s
    | some (slot, t) ↦
        let placed = place t id reason (merge_runtime mode update slot) in
        record placed {
          reactivated =
              if contains_key id s.invalid && stays_in_pool reason
              then insert_id id s.reactivated
              else s.reactivated;
          dirty = mark_dirty (some id) s.dirty;
        }
  ]

  -- The fingerprint guard: whether the update may go on; `none` is a panic.
  unfoldable pub same_credential : PoolState C → ℕ → Option CredentialFingerprint → Option Bool
  same_credential s id none = some true
  same_credential s id (some expected) =
      and_then (pool_credential_fingerprint s id) (λ actual. some (matches expected actual))

  abbrev pub without_probe : PoolState C → ℕ → PoolState C
  without_probe s id = record s { probing = remove_id id s.probing }

  -- `collect_by_id`, which also says whether the account was being probed; `none` is a panic.
  unfoldable pub collect_by_id :
      PoolState C
      → ℕ
      → RuntimeStateParams
      → Option Reason
      → Option CredentialFingerprint
      → RuntimeMergeMode
      → Option (PoolState C × Bool)
  collect_by_id s id update reason expected mode =
      if sticky_entry (get id s.invalid)
      then some (without_probe s id, contains id s.probing)
      else and_then (same_credential (without_probe s id) id expected) (λ same. some (
        if same then rebucket (without_probe s id) id update reason mode else without_probe s id,
        contains id s.probing,
      ))

  -- `update_slot_credential`.
  unfoldable pub update_slot_credential : PoolState C → ℕ → Option TokenInfo → PoolState C
  update_slot_credential s id token = record s {
    valid = map (λ slot. if has_id id slot then with_token token slot else slot) s.valid;
    exhausted = modify id (with_token token) s.exhausted;
  }

  -- How the account authenticates, if it is in `valid` or `exhausted`.
  unfoldable pub removed_kind : PoolState C → ℕ → Option AuthMethod
  removed_kind s id = or_else (kind_of (find (has_id id) s.valid)) (kind_of (get id s.exhausted))

  -- `converge_invalidate`.
  unfoldable pub converge_invalidate : Moka C → PoolState C → ℕ → Reason → PoolState C
  converge_invalidate moka s id reason = emit_accounts_refresh (record s {
    valid = retain (λ c. not (has_id id c)) s.valid;
    exhausted = remove id s.exhausted;
    invalid = record_invalid (removed_kind s id) id reason s.invalid;
    drain_first_ids = remove_id id s.drain_first_ids;
    reactivated = remove_id id s.reactivated;
    dirty = remove_id id s.dirty;
    moka = moka.invalidate_entries_of id s.moka;
  })
