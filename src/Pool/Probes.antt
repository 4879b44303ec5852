-- ===== src/Pool/Probes.antt =====
-- src/services/account_pool/probes.rs: which accounts are probed, and what the pool remembers of it. The probe
-- itself runs in a task of its own and reports back by messages.
use clewdr_hub.Common.{
  ℕ, Bool, ◌&&◌, ◌||◌, not, Option, none, some, List, [], ◌∷◌, ◌++◌, if◌then◌else◌, is_none,
  contains, insert_id, remove, retain,
}
use clewdr_hub.Config.Reason.{cookie, auth_method_eq}
use clewdr_hub.Config.Slot.{AccountSlot}
use clewdr_hub.Config.Runtime.{RuntimeStateParams, to_runtime_params}
use clewdr_hub.Pool.State.{PoolState, emit_accounts_refresh}
use clewdr_hub.Pool.Fingerprint.{pool_slot}

abbrev runtime_params : Option AccountSlot → Option RuntimeStateParams
runtime_params none = none
runtime_params (some slot) = some (to_runtime_params slot)

abbrev pub ids_of : List AccountSlot → List ℕ
ids_of [] = []
ids_of (c ∷ cs) = elim c.account_id [ none ↦ ids_of cs | some id ↦ id ∷ ids_of cs ]

abbrev is_unprobed : AccountSlot → Bool
is_unprobed c = auth_method_eq c.auth_method cookie && (is_none c.email || is_none c.account_type)

module _ {C : Type 0} where
  -- `spawn_probe_guarded`: the task is spawned with the runtime fields that the pool has in memory.
  unfoldable pub spawn_probe_guarded : PoolState C → ℕ → PoolState C
  spawn_probe_guarded s id =
      if contains id s.probing || not s.handle
      then s
      else emit_accounts_refresh (record s {
        probing = insert_id id s.probing;
        probe_errors = remove id s.probe_errors;
        probes = s.probes ++ (id, runtime_params (pool_slot s id)) ∷ [];
      })

  -- `spawn_probe_accounts`.
  unfoldable pub spawn_probe_accounts : PoolState C → List ℕ → PoolState C
  spawn_probe_accounts s [] = s
  spawn_probe_accounts s (id ∷ ids) = spawn_probe_accounts (spawn_probe_guarded s id) ids

  -- `bootstrap_probe_account_ids`.
  unfoldable pub bootstrap_probe_account_ids : PoolState C → List ℕ
  bootstrap_probe_account_ids s = ids_of (retain is_unprobed s.valid)

  -- `spawn_probes_for_unprobed`.
  unfoldable pub spawn_probes_for_unprobed : PoolState C → PoolState C
  spawn_probes_for_unprobed s = spawn_probe_accounts s (bootstrap_probe_account_ids s)
