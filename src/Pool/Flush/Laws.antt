-- ===== src/Pool/Flush/Laws.antt =====
-- src/services/account_pool/persistence.rs: which accounts a flush writes.
use clewdr_hub.Common.{
  ℕ, ◌≡◌, refl, ◌∙◌, Bool, true, false, ◌||◌, List, [], ◌∷◌, ◌++◌, arith, Bool-cases, Option-cases,
  ◌⊎◌, inl, inr, ◌==◌, ==-refl, any, contains, has_key, contains-remove_id,
}
use clewdr_hub.Config.Reason.{Reason, InvalidAccountSlot}
use clewdr_hub.Config.Slot.{AccountSlot, has_id}
use clewdr_hub.Pool.State.{Moka, PoolState, values, emit_accounts_refresh}
use clewdr_hub.Pool.Collect.{converge_invalidate}
use clewdr_hub.Pool.Flush.{
  DbAnswers, DbWrite, upsert_runtime, set_active, set_disabled, dirty_params, dirty_disabled,
  disabled_writes, flush_marked, flush_writes, do_flush, active_write, pooled,
}

-- Whether a write touches the row of the account.
abbrev pub mentions : ℕ → DbWrite → Bool
mentions id (upsert_runtime rows) = any (has_key id) rows
mentions id (set_active ids) = contains id ids
mentions id (set_disabled j reason) = j == id

dirty_params-unmarked :
    (id : ℕ) (dirty : List ℕ) (cs : List AccountSlot)
    → contains id dirty ≡ false
    → any (has_key id) (dirty_params dirty cs) ≡ false
unfolding dirty_params any
dirty_params-unmarked id dirty [] h = refl
dirty_params-unmarked id dirty (c ∷ cs) h = elim (Option-cases c.account_id) [
  | inl e ↦ rw (e, dirty_params) (dirty_params-unmarked id dirty cs h)
  | inr (j, e) ↦ rw (e, dirty_params) (ground (arith, dirty_params-unmarked id dirty cs h))
]

disabled_writes-unmarked :
    (id : ℕ) (dirty : List ℕ) (us : List InvalidAccountSlot)
    → contains id dirty ≡ false
    → any (mentions id) (disabled_writes (dirty_disabled dirty us)) ≡ false
unfolding dirty_disabled disabled_writes any
disabled_writes-unmarked id dirty [] h = refl
disabled_writes-unmarked id dirty (u ∷ us) h = elim (Bool-cases (contains u.account_id dirty)) [
  | inl e ↦ rw e (ground (arith, disabled_writes-unmarked id dirty us h))
  | inr e ↦ rw e (disabled_writes-unmarked id dirty us h)
]

any-append-writes :
    (p : DbWrite → Bool) (xs ys : List DbWrite) → any p (xs ++ ys) ≡ (any p xs || any p ys)
unfolding any
any-append-writes p [] ys = refl
any-append-writes p (x ∷ xs) ys = ground (arith, any-append-writes p xs ys)

active_write-unmarked :
    (id : ℕ) (ids : List ℕ) → contains id ids ≡ false → any (mentions id) (active_write ids) ≡ false
unfolding any contains
active_write-unmarked id [] h = refl
active_write-unmarked id (j ∷ js) h = rw h

module _ {C : Type 0} where
  -- An account with no mark, neither for its runtime fields nor for its status, is in no write of a flush.
  pub do_flush-unmarked :
      (db : DbAnswers) (s : PoolState C) (id : ℕ)
      → contains id s.dirty ≡ false
      → contains id s.reactivated ≡ false
      → any (mentions id) (do_flush db s).1 ≡ false
  unfolding do_flush flush_writes any
  do_flush-unmarked db s id h r = go s.dirty
    where
      go : (ids : List ℕ) → any (mentions id) (flush_marked db s ids).1 ≡ false
      go [] = refl
      go (j ∷ js) = rw (
        dirty_params-unmarked id s.dirty (pooled s) h,
        any-append-writes (mentions id) (active_write s.reactivated)
            (disabled_writes (dirty_disabled s.dirty (values s.invalid))),
        active_write-unmarked id s.reactivated r,
        disabled_writes-unmarked id s.dirty (values s.invalid) h,
      )

  -- An account whose status was just written to the database is written by no flush until something marks it
  -- again.
  pub do_flush-converge_invalidate :
      (moka : Moka C) (db : DbAnswers) (s : PoolState C) (id : ℕ) (reason : Reason)
      → any (mentions id) (do_flush db (converge_invalidate moka s id reason)).1 ≡ false
  unfolding converge_invalidate emit_accounts_refresh
  do_flush-converge_invalidate moka db s id reason =
      do_flush-unmarked db _ id (contains-remove_id id id s.dirty ∙ rw (==-refl id))
        (contains-remove_id id id s.reactivated ∙ rw (==-refl id))

-- The write of the account's row is refused: of its runtime fields, or of its status.
abbrev pub IsRefused : {C : Type 0} → DbAnswers → PoolState C → ℕ → Type 0
IsRefused db s id =
    ((db.upsert_ok ≡ false) × (any (has_id id) (pooled s) ≡ true))
    ⊎ ((db.disabled_ok id ≡ false) × (any (λ u. u.account_id == id) (values s.invalid) ≡ true))
