-- ===== src/Pool/State.antt =====
-- src/services/account_pool/state.rs: the state of the pool's actor, its affinity cache, and the marks for
-- the next flush. The cache is the crate moka, a parameter here.
use clewdr_hub.Common.{
  ℕ, suc, ◌≡◌, ◌≢◌, ◌⊎◌, String, Bool, Option, none, some, List, [], ◌∷◌, ◌++◌, insert_id,
}
use clewdr_hub.Config.Reason.{InvalidAccountSlot}
use clewdr_hub.Config.Slot.{AccountSlot}
use clewdr_hub.Config.Runtime.{RuntimeStateParams}

-- `moka::sync::Cache<u64, i64>`, from a prompt's hash to an account. It may drop an entry at any time, so
-- that its laws say what a lookup cannot return.
pub record Moka (C : Type 0) : Type 0 where
  pub lookup : ℕ → C → Option ℕ
  pub bind : ℕ → ℕ → C → C
  pub invalidate : ℕ → C → C
  pub invalidate_all : C → C
  pub invalidate_entries_of : ℕ → C → C
  pub lookup-bind :
      (k v : ℕ) (c : C) → (lookup k (bind k v c) ≡ some v) ⊎ (lookup k (bind k v c) ≡ none)
  pub lookup-invalidate : (k : ℕ) (c : C) → lookup k (invalidate k c) ≡ none
  pub lookup-invalidate_all : (k : ℕ) (c : C) → lookup k (invalidate_all c) ≡ none
  pub lookup-invalidate_entries_of :
      (k v : ℕ) (c : C) → lookup k (invalidate_entries_of v c) ≢ some v

-- `AccountPoolState`. `handle` says whether there is one; `refreshes` counts the `accounts_refresh` events
-- sent, and `probes` lists the probe tasks spawned, with the runtime fields handed to them.
pub record PoolState (C : Type 0) : Type 0 where
  pub valid : List AccountSlot
  pub exhausted : List (ℕ × AccountSlot)
  pub invalid : List (ℕ × InvalidAccountSlot)
  pub moka : C
  pub dirty : List ℕ
  pub handle : Bool
  pub inflight : List (ℕ × (ℕ × ℕ))
  pub probing : List ℕ
  pub reactivated : List ℕ
  pub probe_errors : List (ℕ × String)
  pub drain_first_ids : List ℕ
  pub refreshes : ℕ
  pub probes : List (ℕ × Option RuntimeStateParams)

-- The errors that the pool answers a request with.
pub data PoolError : Type 0 where
  upstream_cooling_down no_valid_upstream_accounts : PoolError

-- `AccountPoolActor::mark_dirty`, on the set of marks.
unfoldable pub mark_dirty : Option ℕ → List ℕ → List ℕ
mark_dirty none dirty = dirty
mark_dirty (some id) dirty = insert_id id dirty

unfoldable pub mark_slots : List AccountSlot → List ℕ → List ℕ
mark_slots [] dirty = dirty
mark_slots (c ∷ cs) dirty = mark_slots cs (mark_dirty c.account_id dirty)

unfoldable pub values {ℓ} : {V : Type ℓ} → List (ℕ × V) → List V
values [] = []
values ((k, v) ∷ m) = v ∷ values m

unfoldable pub mark_invalid : List InvalidAccountSlot → List ℕ → List ℕ
mark_invalid [] dirty = dirty
mark_invalid (u ∷ us) dirty = mark_invalid us (insert_id u.account_id dirty)

module _ {C : Type 0} where
  -- `AccountPoolActor::mark_all_dirty`.
  unfoldable pub mark_all_dirty : PoolState C → PoolState C
  mark_all_dirty s = record s {
    dirty = mark_invalid (values s.invalid) (mark_slots (s.valid ++ values s.exhausted) s.dirty);
  }

  -- `AccountPoolActor::emit_accounts_refresh`.
  unfoldable pub emit_accounts_refresh : PoolState C → PoolState C
  emit_accounts_refresh s = record s { refreshes = suc s.refreshes }
