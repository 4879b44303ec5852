-- ===== src/Pool/Reload/Limits.antt =====
-- src/services/account_pool/persistence.rs: the limits on running requests after a reload.
use mathlib.Core.List.{Memᴰ}
use mathlib.Core.List.Memᴰ.{head, tail}
use clewdr_hub.Common.{
  ℕ, ◌<◌, ◌^◌, ◌≡◌, refl, ap, ◌∙◌, true, not, ◌&&◌, ◌||◌, Option-cases, insert, some, List, [], ◌∷◌,
  arith, inl, inr, Bool-cases, if◌then◌else◌, count, ◌==◌, ==-refl, get, get-insert, contains, ℤ,
  pos,
}
use clewdr_hub.Config.Row.{AccountWithRuntime, AreDistinct}
use clewdr_hub.Pool.State.{Moka, PoolState, emit_accounts_refresh}
use clewdr_hub.Pool.Flush.{DbAnswers, flush_marked, do_flush}
use clewdr_hub.Pool.Probes.{spawn_probe_guarded, spawn_probe_accounts, spawn_probes_for_unprobed}
use clewdr_hub.Pool.Loader.{Parsers, has_any_credential, is_terminal, row_slot}
use clewdr_hub.Pool.Reload.{
  Reload, as_u32, count_of, reload_inflight, reload_row, reload_rows, emptied, rebuild, do_reload,
}

as_u32_small : (n : ℕ) → n < 2 ^ 32 → as_u32 (pos n) ≡ n
unfolding as_u32
as_u32_small n h = omega (arith, h)

abbrev Inflight : Type 0
Inflight = List (ℕ × (ℕ × ℕ))

-- What the loop over the rows does with one.
abbrev with_limit : Inflight → AccountWithRuntime → Inflight → Inflight
with_limit before row after =
    if has_any_credential row
    then insert row.id (count_of (get row.id before), as_u32 row.max_slots) after
    else after

get-with_limit :
    (before after : Inflight) (row : AccountWithRuntime) (id : ℕ)
    → get id (with_limit before row after) ≡ (
        if row.id == id && has_any_credential row
        then some (count_of (get row.id before), as_u32 row.max_slots)
        else get id after)
get-with_limit before after row id = elim (Bool-cases (has_any_credential row)) [
  | inl h ↦ rw h (
      get-insert row.id id (count_of (get row.id before), as_u32 row.max_slots) after
      ∙ ground arith)
  | inr h ↦ rw h (ground arith)
]

reload_inflight-others :
    (before : Inflight) (rows : List AccountWithRuntime) (after : Inflight) (id : ℕ)
    → count (λ b. b.id == id) rows ≡ 0
    → get id (reload_inflight before rows after) ≡ get id after
unfolding reload_inflight count
reload_inflight-others before [] after id no_row = refl
reload_inflight-others before (row ∷ rows) after id no_row = ground (
  arith,
  reload_inflight-others before rows (with_limit before row after) id,
  get-with_limit before after row id,
)

reload_inflight-head :
    (before : Inflight) (b : AccountWithRuntime) (rows : List AccountWithRuntime) (after : Inflight)
    → count (λ r. r.id == b.id) rows ≡ 0
    → has_any_credential b ≡ true
    → get b.id (reload_inflight before rows (with_limit before b after))
      ≡ some (count_of (get b.id before), as_u32 b.max_slots)
reload_inflight-head before b rows after alone filled =
    reload_inflight-others before rows (with_limit before b after) b.id alone
    ∙ get-with_limit before after b b.id
    ∙ rw (==-refl b.id, filled) refl

reload_inflight-row :
    (before : Inflight) (row : AccountWithRuntime) (rows : List AccountWithRuntime)
    (after : Inflight)
    → Memᴰ row rows
    → AreDistinct rows
    → has_any_credential row ≡ true
    → get row.id (reload_inflight before rows after)
      ≡ some (count_of (get row.id before), as_u32 row.max_slots)
unfolding reload_inflight
reload_inflight-row before row [] after m d filled = elim m [ ]
reload_inflight-row before row (b ∷ rows) after (head e) d filled =
    rw e (reload_inflight-head before b rows after d.0 (rw (← e) filled))
reload_inflight-row before row (b ∷ rows) after (tail m) d filled =
    reload_inflight-row before row rows (with_limit before b after) m d.1 filled

module _ {C : Type 0} where
  spawn_probe_guarded-inflight :
      (s : PoolState C) (id : ℕ) → (spawn_probe_guarded s id).inflight ≡ s.inflight
  unfolding spawn_probe_guarded emit_accounts_refresh
  spawn_probe_guarded-inflight s id = elim (Bool-cases (contains id s.probing || not s.handle)) [
    | inl e ↦ rw (e, spawn_probe_guarded) refl
    | inr e ↦ rw (e, spawn_probe_guarded) refl
  ]

  spawn_probe_accounts-inflight :
      (ids : List ℕ) (s : PoolState C) → (spawn_probe_accounts s ids).inflight ≡ s.inflight
  unfolding spawn_probe_accounts
  spawn_probe_accounts-inflight [] s = refl
  spawn_probe_accounts-inflight (id ∷ ids) s =
      spawn_probe_accounts-inflight ids (spawn_probe_guarded s id)
      ∙ spawn_probe_guarded-inflight s id

  flush_marked-inflight :
      (db : DbAnswers) (s : PoolState C) (ids : List ℕ)
      → (flush_marked db s ids).0.inflight ≡ s.inflight
  flush_marked-inflight db s [] = refl
  flush_marked-inflight db s (id ∷ ids) = refl

  module _ (p : Parsers) (clock : ℤ) where
    reload_row-inflight :
        (row : AccountWithRuntime) (l : Reload C)
        → (reload_row p clock row l).pool.inflight ≡ l.pool.inflight
    unfolding reload_row
    reload_row-inflight row l = elim (Bool-cases (is_terminal row.status)) [
      | inl e ↦ rw e (ground arith)
      | inr e ↦ elim (Option-cases (row_slot p row)) [
        | inl h ↦ rw (e, h) refl
        | inr (cs, h) ↦ rw (e, h) (ground arith)
      ]
    ]

    reload_rows-inflight :
        (rows : List AccountWithRuntime) (l : Reload C)
        → (reload_rows p clock rows l).pool.inflight ≡ l.pool.inflight
    unfolding reload_rows
    reload_rows-inflight [] l = refl
    reload_rows-inflight (row ∷ rows) l =
        reload_rows-inflight rows (reload_row p clock row l) ∙ reload_row-inflight row l

    do_reload-inflight :
        (moka : Moka C) (db : DbAnswers) (rows : List AccountWithRuntime) (s : PoolState C)
        → (do_reload moka p db clock (some rows) s).0.inflight ≡ reload_inflight s.inflight rows []
    unfolding do_reload rebuild emit_accounts_refresh spawn_probes_for_unprobed do_flush
    do_reload-inflight moka db rows s =
        spawn_probe_accounts-inflight _ _
        ∙ ap (λ before. reload_inflight before rows [])
            (reload_rows-inflight rows (emptied (do_flush db s).0)
              ∙ flush_marked-inflight db s s.dirty)

    -- A reload from rows with distinct ids keeps how many requests run on an account whose row has some credential, and
    -- takes its limit from the row; this limit is the row's number if it lies below 2 ^ 32.
    pub do_reload-limits :
        (moka : Moka C) (db : DbAnswers) (rows : List AccountWithRuntime) (row : AccountWithRuntime)
        (s : PoolState C) (slots : ℕ)
        → AreDistinct rows
        → Memᴰ row rows
        → has_any_credential row ≡ true
        → row.max_slots ≡ pos slots
        → slots < 2 ^ 32
        → get row.id (do_reload moka p db clock (some rows) s).0.inflight
          ≡ some (count_of (get row.id s.inflight), slots)
    do_reload-limits moka db rows row s slots d m filled own small =
        ap (get row.id) (do_reload-inflight moka db rows s)
        ∙ reload_inflight-row s.inflight row rows [] m d filled
        ∙ rw (own, as_u32_small slots small) refl
