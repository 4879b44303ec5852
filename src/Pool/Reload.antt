-- ===== src/Pool/Reload.antt =====
-- src/services/account_pool/persistence.rs: `do_reload`, which rebuilds the pool from the database.
pub mod Invariant
pub mod Terminal
pub mod Lifetime
pub mod Limits
use Prim.Native.Nat.{◌-◌}
use text.Mathlib.Text.{◌==◌ as str_eq}
use clewdr_hub.Common.{
  ℕ, ◌+◌, ◌%◌, ◌^◌, String, Bool, true, false, not, ◌&&◌, ◌||◌, Option, none, some, List, [], ◌∷◌,
  ◌++◌, map, if◌then◌else◌, is_some, is_none, and_then, or_else, unwrap_or, filter_option, any,
  contains, get, insert, remove, remove_id, insert_id, retain, ◌==◌, ℤ, pos_part, neg_part,
}
use clewdr_hub.Config.Reason.{
  Reason, null, AuthMethod, cookie, oauth, api_key, from_auth_source, auth_method_eq,
  InvalidAccountSlot, from_db_string,
}
use clewdr_hub.Config.Slot.{
  AccountSlot, MimicryMode, none_mode, third_party, oauth_slot, api_key_slot,
}
use clewdr_hub.Config.Runtime.{RuntimeStateParams, apply_runtime_state, apply_in_memory_runtime}
use clewdr_hub.Config.Row.{AccountWithRuntime, active_reset_time}
use clewdr_hub.Config.Cookie.{CookiePatterns, new_cookie_slot}
use clewdr_hub.Pool.State.{Moka, PoolState, mark_dirty, emit_accounts_refresh}
use clewdr_hub.Pool.Flush.{DbAnswers, DbWrite, do_flush}
use clewdr_hub.Pool.Probes.{spawn_probes_for_unprobed}
use clewdr_hub.Pool.Loader.{
  Parsers, Loaded, is_terminal, has_any_credential, row_slot, stamp_row, merge_slot,
}

-- `row.max_slots as u32`.
unfoldable pub as_u32 : ℤ → ℕ
as_u32 n = (pos_part n + (2 ^ 32 - neg_part n % 2 ^ 32)) % 2 ^ 32

unfoldable pub row_ids : List AccountWithRuntime → List ℕ
row_ids [] = []
row_ids (row ∷ rows) = row.id ∷ row_ids rows

unfoldable pub drain_ids : List AccountWithRuntime → List ℕ
drain_ids [] = []
drain_ids (row ∷ rows) =
    let rest = drain_ids rows in if row.drain_first then insert_id row.id rest else rest

abbrev pub count_of : Option (ℕ × ℕ) → ℕ
count_of none = 0
count_of (some (cur, max)) = cur

-- The limits of the rows, with the counts of before.
unfoldable pub reload_inflight :
    List (ℕ × (ℕ × ℕ)) → List AccountWithRuntime → List (ℕ × (ℕ × ℕ)) → List (ℕ × (ℕ × ℕ))
reload_inflight before [] after = after
reload_inflight before (row ∷ rows) after = reload_inflight before rows (
    if has_any_credential row
    then insert row.id (count_of (get row.id before), as_u32 row.max_slots) after
    else after)

unfoldable pub remove_ids : List ℕ → List ℕ → List ℕ
remove_ids [] xs = xs
remove_ids (id ∷ ids) xs = remove_ids ids (remove_id id xs)

-- The slots in memory by account, those of `exhausted` over those of `valid`.
unfoldable pub memory_of_valid : List AccountSlot → List (ℕ × AccountSlot) → List (ℕ × AccountSlot)
memory_of_valid [] mem = mem
memory_of_valid (c ∷ cs) mem =
    memory_of_valid cs (elim c.account_id [ none ↦ mem | some id ↦ insert id c mem ])

unfoldable pub memory_of_exhausted :
    List (ℕ × AccountSlot) → List (ℕ × AccountSlot) → List (ℕ × AccountSlot)
memory_of_exhausted [] mem = mem
memory_of_exhausted ((id, c) ∷ m) mem = memory_of_exhausted m (insert id c mem)

-- What the pool remembers of a row that says `disabled` or `auth_error`.
unfoldable pub row_entry : AccountWithRuntime → InvalidAccountSlot
row_entry row = record {
  account_id = row.id;
  auth_method = from_auth_source row.auth_source;
  reason = elim row.invalid_reason [ none ↦ null | some text ↦ from_db_string text ];
}

-- The variables of the loop over the rows.
pub record Reload (C : Type 0) : Type 0 where
  pub pool : PoolState C
  pub memory : List (ℕ × AccountSlot)
  pub replaced_ids : List ℕ

module _ {C : Type 0} where
  abbrev pub bucket_slot : PoolState C → ℕ → AccountSlot → PoolState C
  bucket_slot s id cs =
      if is_some cs.reset_time
      then record s { exhausted = insert id cs s.exhausted }
      else record s { valid = s.valid ++ cs ∷ [] }

  abbrev pub mark_loaded : ℕ → Bool → PoolState C → PoolState C
  mark_loaded id marked s = if marked then record s { dirty = mark_dirty (some id) s.dirty } else s

  abbrev pub reload_invalid : AccountWithRuntime → PoolState C → PoolState C
  reload_invalid row s = record s { invalid = insert row.id (row_entry row) s.invalid }

  abbrev pub reload_slot : ℤ → AccountWithRuntime → AccountSlot → Reload C → Reload C
  reload_slot clock row cs l =
      let loaded = merge_slot clock row cs (get row.id l.memory) in
      record {
        pool = bucket_slot (mark_loaded row.id loaded.marked l.pool) row.id loaded.slot;
        memory = remove row.id l.memory;
        replaced_ids = if loaded.replaced then l.replaced_ids ++ row.id ∷ [] else l.replaced_ids;
      }

  -- The body of the loop.
  unfoldable pub reload_row : Parsers → ℤ → AccountWithRuntime → Reload C → Reload C
  reload_row p clock row l =
      if is_terminal row.status
      then (if has_any_credential row then record l { pool = reload_invalid row l.pool } else l)
      else elim (row_slot p row) [ none ↦ l | some cs ↦ reload_slot clock row (stamp_row row cs) l ]

  unfoldable pub reload_rows : Parsers → ℤ → List AccountWithRuntime → Reload C → Reload C
  reload_rows p clock [] l = l
  reload_rows p clock (row ∷ rows) l = reload_rows p clock rows (reload_row p clock row l)

  abbrev pub emptied : PoolState C → Reload C
  emptied s = record {
    pool = record s { valid = []; exhausted = []; invalid = [] };
    memory = memory_of_exhausted s.exhausted (memory_of_valid s.valid []);
    replaced_ids = [];
  }

  -- What follows the loop.
  abbrev pub reindex : Moka C → List AccountWithRuntime → Reload C → PoolState C
  reindex moka rows l =
      let s = l.pool in
      record s {
        moka = moka.invalidate_all s.moka;
        inflight = reload_inflight s.inflight rows [];
        drain_first_ids = drain_ids rows;
        probing = remove_ids l.replaced_ids (retain (λ id. contains id (row_ids rows)) s.probing);
      }

  -- `do_reload` once the rows are there.
  unfoldable pub rebuild :
      Moka C → Parsers → ℤ → List AccountWithRuntime → PoolState C → PoolState C
  rebuild moka p clock rows s =
      emit_accounts_refresh
        (spawn_probes_for_unprobed (reindex moka rows (reload_rows p clock rows (emptied s))))

  abbrev pub rebuild_if_loaded :
      Moka C → Parsers → ℤ → Option (List AccountWithRuntime) → PoolState C → PoolState C
  rebuild_if_loaded moka p clock none s = s
  rebuild_if_loaded moka p clock (some rows) s = rebuild moka p clock rows s

  -- `do_reload`: the pool, and the writes of the flush before it. `none` is a failure to load the rows.
  unfoldable pub do_reload :
      Moka C
      → Parsers
      → DbAnswers
      → ℤ
      → Option (List AccountWithRuntime)
      → PoolState C
      → PoolState C × List DbWrite
  do_reload moka p db clock rows s =
      (rebuild_if_loaded moka p clock rows (do_flush db s).0, (do_flush db s).1)

  -- The state that `pre_start` of actor.rs loads the accounts into.
  abbrev pub no_pool : C → PoolState C
  no_pool moka = record {
    valid = [];
    exhausted = [];
    invalid = [];
    moka = moka;
    dirty = [];
    handle = false;
    inflight = [];
    probing = [];
    reactivated = [];
    probe_errors = [];
    drain_first_ids = [];
    refreshes = 0;
    probes = [];
  }

  -- `pre_start`.
  unfoldable pub pre_start :
      Moka C → Parsers → DbAnswers → ℤ → Option (List AccountWithRuntime) → C → PoolState C
  pre_start moka p db clock rows cache = (do_reload moka p db clock rows (no_pool cache)).0
