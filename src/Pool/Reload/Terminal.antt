-- ===== src/Pool/Reload/Terminal.antt =====
-- src/services/account_pool/persistence.rs: the rows that say `disabled` or `auth_error`.
use mathlib.Core.List.{Memᴰ}
use mathlib.Core.List.Memᴰ.{head, tail}
use clewdr_hub.Common.{
  ℕ, ◌≡◌, refl, ap, ◌∙◌, Bool, true, not, ◌&&◌, ◌||◌, some, List, [], ◌∷◌, arith, inl, inr,
  Bool-cases, if◌then◌else◌, Option-cases, count, ◌==◌, ==-refl, get, get-insert, count_pos_of_get,
  contains, ℤ, has_key,
}
use clewdr_hub.Config.Slot.{AccountSlot, has_id}
use clewdr_hub.Config.Row.{AccountWithRuntime, AreDistinct}
use clewdr_hub.Pool.State.{Moka, PoolState, emit_accounts_refresh}
use clewdr_hub.Pool.Flush.{DbAnswers, do_flush}
use clewdr_hub.Pool.Probes.{spawn_probe_guarded, spawn_probe_accounts, spawn_probes_for_unprobed}
use clewdr_hub.Pool.Loader.{Parsers, is_terminal, has_any_credential, row_slot, stamp_row}
use clewdr_hub.Pool.Reload.{
  Reload, bucket_slot, mark_loaded, row_entry, reload_row, reload_rows, emptied, rebuild, do_reload,
}
use clewdr_hub.Pool.Reload.Invariant.{do_reload-IsRebuilt}

module _ {C : Type 0} where
  spawn_probe_guarded-invalid :
      (s : PoolState C) (id : ℕ) → (spawn_probe_guarded s id).invalid ≡ s.invalid
  unfolding spawn_probe_guarded emit_accounts_refresh
  spawn_probe_guarded-invalid s id = elim (Bool-cases (contains id s.probing || not s.handle)) [
    | inl e ↦ rw (e, spawn_probe_guarded) refl
    | inr e ↦ rw (e, spawn_probe_guarded) refl
  ]

  spawn_probe_accounts-invalid :
      (ids : List ℕ) (s : PoolState C) → (spawn_probe_accounts s ids).invalid ≡ s.invalid
  unfolding spawn_probe_accounts
  spawn_probe_accounts-invalid [] s = refl
  spawn_probe_accounts-invalid (id ∷ ids) s =
      spawn_probe_accounts-invalid ids (spawn_probe_guarded s id) ∙ spawn_probe_guarded-invalid s id

  bucket_slot-invalid :
      (s : PoolState C) (id : ℕ) (marked : Bool) (cs : AccountSlot)
      → (bucket_slot (mark_loaded id marked s) id cs).invalid ≡ s.invalid
  bucket_slot-invalid s id marked cs = ground arith

  module _ (p : Parsers) (clock : ℤ) where
    reload_row-invalid :
        (row : AccountWithRuntime) (l : Reload C) (id : ℕ)
        → get id (reload_row p clock row l).pool.invalid ≡ (
            if row.id == id && is_terminal row.status && has_any_credential row
            then some (row_entry row)
            else get id l.pool.invalid)
    unfolding reload_row stamp_row
    reload_row-invalid row l id = elim (Bool-cases (is_terminal row.status)) [
      | inl e ↦ elim (Bool-cases (has_any_credential row)) [
        | inl h ↦ rw (e, h) (get-insert row.id id (row_entry row) l.pool.invalid ∙ ground arith)
        | inr h ↦ rw (e, h) (ground arith)
      ]
      | inr e ↦ elim (Option-cases (row_slot p row)) [
        | inl h ↦ rw (e, h) (ground arith)
        | inr (cs, h) ↦
            rw (e, h) (ap (get id) (bucket_slot-invalid l.pool row.id _ _) ∙ ground arith)
      ]
    ]

    reload_rows-others :
        (rows : List AccountWithRuntime) (l : Reload C) (id : ℕ)
        → count (λ b. b.id == id) rows ≡ 0
        → get id (reload_rows p clock rows l).pool.invalid ≡ get id l.pool.invalid
    unfolding reload_rows count
    reload_rows-others [] l id no_row = refl
    reload_rows-others (row ∷ rows) l id no_row =
        ground (
          arith,
          reload_rows-others rows (reload_row p clock row l) id,
          reload_row-invalid row l id,
        )

    reload_rows-terminal_head :
        (b : AccountWithRuntime) (rows : List AccountWithRuntime) (l : Reload C)
        → count (λ r. r.id == b.id) rows ≡ 0
        → is_terminal b.status ≡ true
        → has_any_credential b ≡ true
        → get b.id (reload_rows p clock rows (reload_row p clock b l)).pool.invalid
          ≡ some (row_entry b)
    reload_rows-terminal_head b rows l alone terminal filled =
        reload_rows-others rows (reload_row p clock b l) b.id alone
        ∙ reload_row-invalid b l b.id
        ∙ rw (==-refl b.id, terminal, filled) refl

    reload_rows-terminal :
        (row : AccountWithRuntime) (rows : List AccountWithRuntime) (l : Reload C)
        → Memᴰ row rows
        → AreDistinct rows
        → is_terminal row.status ≡ true
        → has_any_credential row ≡ true
        → get row.id (reload_rows p clock rows l).pool.invalid ≡ some (row_entry row)
    unfolding reload_rows
    reload_rows-terminal row [] l m d terminal filled = elim m [ ]
    reload_rows-terminal row (b ∷ rows) l (head e) d terminal filled =
        rw e (reload_rows-terminal_head b rows l d.0 (rw (← e) terminal) (rw (← e) filled))
    reload_rows-terminal row (b ∷ rows) l (tail m) d terminal filled =
        reload_rows-terminal row rows (reload_row p clock b l) m d.1 terminal filled

    rebuild-invalid :
        (moka : Moka C) (rows : List AccountWithRuntime) (s : PoolState C)
        → (rebuild moka p clock rows s).invalid
          ≡ (reload_rows p clock rows (emptied s)).pool.invalid
    unfolding rebuild emit_accounts_refresh spawn_probes_for_unprobed
    rebuild-invalid moka rows s = spawn_probe_accounts-invalid _ _

    -- After a reload from rows with distinct ids, a row that says `disabled` or `auth_error` and has some credential
    -- stands in `invalid` with the reason of the row, and its account is neither in `valid` nor in `exhausted`.
    pub do_reload-terminal :
        (moka : Moka C) (db : DbAnswers) (rows : List AccountWithRuntime) (row : AccountWithRuntime)
        (s : PoolState C)
        → AreDistinct rows
        → Memᴰ row rows
        → is_terminal row.status ≡ true
        → has_any_credential row ≡ true
        → let t = (do_reload moka p db clock (some rows) s).0 in
          (get row.id t.invalid ≡ some (row_entry row))
          × (count (has_id row.id) t.valid ≡ 0)
          × (count (has_key row.id) t.exhausted ≡ 0)
    unfolding do_reload
    do_reload-terminal moka db rows row s d m terminal filled =
        let found = rebuild-invalid moka rows (do_flush db s).0 in
        let entry = ap (get row.id) found ∙ reload_rows-terminal row rows _ m d terminal filled in
        let one = (do_reload-IsRebuilt p clock moka db rows s d).wellformed.distinct row.id in
        let stands = count_pos_of_get row.id _ _ entry in
        (entry, omega (arith, one, stands), omega (arith, one, stands))
