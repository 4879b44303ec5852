-- ===== src/Pool/Flush.antt =====
-- src/services/account_pool/persistence.rs: `do_flush`. The database is outside: whether its writes succeed is
-- an argument, and the writes that are attempted are listed.
pub mod Laws
use clewdr_hub.Common.{
  ℕ, Bool, Option, none, some, List, [], ◌∷◌, ◌++◌, if◌then◌else◌, contains, insert_id,
}
use clewdr_hub.Config.Reason.{InvalidAccountSlot, to_db_string}
use clewdr_hub.Config.Slot.{AccountSlot}
use clewdr_hub.Config.Runtime.{RuntimeStateParams, to_runtime_params}
use clewdr_hub.Pool.State.{PoolState, values, mark_all_dirty}

-- What the database answers during a flush.
pub record DbAnswers : Type 0 where
  pub upsert_ok : Bool
  pub disabled_ok : ℕ → Bool

-- `batch_upsert_runtime_states`, `set_accounts_active`, `set_account_disabled`.
pub data DbWrite : Type 0 where
  upsert_runtime : List (ℕ × RuntimeStateParams) → DbWrite
  set_active : List ℕ → DbWrite
  set_disabled : ℕ → List ℕ → DbWrite

abbrev pub if_marked {ℓ} : {A : Type ℓ} → List ℕ → ℕ → A → List A → List A
if_marked dirty id a rest = if contains id dirty then a ∷ rest else rest

abbrev runtime_of :
    List ℕ → AccountSlot → Option ℕ → List (ℕ × RuntimeStateParams) → List (ℕ × RuntimeStateParams)
runtime_of dirty c none rest = rest
runtime_of dirty c (some id) rest = if_marked dirty id (id, to_runtime_params c) rest

-- The runtime fields of the marked slots.
unfoldable pub dirty_params : List ℕ → List AccountSlot → List (ℕ × RuntimeStateParams)
dirty_params dirty [] = []
dirty_params dirty (c ∷ cs) = runtime_of dirty c c.account_id (dirty_params dirty cs)

-- The marked entries of `invalid`, with their reasons as stored.
unfoldable pub dirty_disabled : List ℕ → List InvalidAccountSlot → List (ℕ × List ℕ)
dirty_disabled dirty [] = []
dirty_disabled dirty (u ∷ us) =
    if_marked dirty u.account_id (u.account_id, to_db_string u.reason) (dirty_disabled dirty us)

unfoldable pub keys {ℓ} : {V : Type ℓ} → List (ℕ × V) → List ℕ
keys [] = []
keys ((k, v) ∷ m) = k ∷ keys m

unfoldable pub insert_ids : List ℕ → List ℕ → List ℕ
insert_ids [] dirty = dirty
insert_ids (id ∷ ids) dirty = insert_ids ids (insert_id id dirty)

-- The writes of `set_account_disabled`, and the marks that come back for those that fail.
unfoldable pub disabled_writes : List (ℕ × List ℕ) → List DbWrite
disabled_writes [] = []
disabled_writes ((id, reason) ∷ rest) = set_disabled id reason ∷ disabled_writes rest

unfoldable pub mark_failed : (ℕ → Bool) → List (ℕ × List ℕ) → List ℕ → List ℕ
mark_failed ok [] dirty = dirty
mark_failed ok ((id, reason) ∷ rest) dirty =
    mark_failed ok rest (if ok id then dirty else insert_id id dirty)

abbrev pub active_write : List ℕ → List DbWrite
active_write [] = []
active_write (id ∷ ids) = set_active (id ∷ ids) ∷ []

module _ {C : Type 0} where
  abbrev pub pooled : PoolState C → List AccountSlot
  pooled s = s.valid ++ values s.exhausted

  unfoldable pub flush_marks : DbAnswers → PoolState C → List ℕ
  flush_marks db s =
      mark_failed db.disabled_ok (dirty_disabled s.dirty (values s.invalid))
        (if db.upsert_ok then [] else insert_ids (keys (dirty_params s.dirty (pooled s))) [])

  unfoldable pub flush_writes : PoolState C → List DbWrite
  flush_writes s =
      upsert_runtime (dirty_params s.dirty (pooled s))
      ∷ (active_write s.reactivated ++ disabled_writes (dirty_disabled s.dirty (values s.invalid)))

  abbrev pub flush_marked : DbAnswers → PoolState C → List ℕ → PoolState C × List DbWrite
  flush_marked db s [] = (s, [])
  flush_marked db s (id ∷ ids) =
      (record s { dirty = flush_marks db s; reactivated = [] }, flush_writes s)

  -- `do_flush`: the pool, and the writes.
  unfoldable pub do_flush : DbAnswers → PoolState C → PoolState C × List DbWrite
  do_flush db s = flush_marked db s s.dirty

  -- `post_stop` of src/services/account_pool/actor.rs: the writes of a shutdown, with everything marked.
  unfoldable pub shutdown_writes : PoolState C → List DbWrite
  shutdown_writes s =
      upsert_runtime (dirty_params (mark_all_dirty s).dirty (pooled s))
      ∷ disabled_writes (dirty_disabled (mark_all_dirty s).dirty (values s.invalid))
