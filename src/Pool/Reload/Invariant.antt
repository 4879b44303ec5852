-- ===== src/Pool/Reload/Invariant.antt =====
-- src/services/account_pool/persistence.rs: the pool after a reload, by the rows.
use clewdr_hub.Common.{
  ℕ, ◌+◌, ◌≤◌, ◌≡◌, refl, ◌∙◌, Bool, true, false, ◌&&◌, Option, none, some, List, [], ◌∷◌, arith,
  inl, inr, Bool-cases, if◌then◌else◌, is_some, Option-cases, count, ◌==◌, ==_iff, get, ℤ,
}
use clewdr_hub.Config.Slot.{AccountSlot}
use clewdr_hub.Config.Runtime.{apply_runtime_state, apply_in_memory_runtime}
use clewdr_hub.Config.Row.{AccountWithRuntime, AreDistinct, AreDistinct-at_most_one}
use clewdr_hub.Pool.State.{Moka, PoolState, emit_accounts_refresh}
use clewdr_hub.Pool.Flush.{DbAnswers, do_flush}
use clewdr_hub.Pool.Probes.{spawn_probes_for_unprobed}
use clewdr_hub.Pool.Collect.{place}
use clewdr_hub.Pool.Conservation.{places, AreKeyed, IsWellFormed, Conserves}
use clewdr_hub.Pool.Conservation.Collect.{invalid-places, place-places, place-AreKeyed}
use clewdr_hub.Pool.Conservation.Messages.{
  Conserves-of_buckets, Conserves-trans, spawn_probe_accounts-Conserves,
}
use clewdr_hub.Pool.Loader.{
  Parsers, is_terminal, has_any_credential, row_slot, stamp_row, merge_slot,
}
use clewdr_hub.Pool.Reload.{
  Reload, bucket_slot, mark_loaded, reload_slot, reload_row, reload_rows, emptied, reindex, rebuild,
  do_reload,
}

merge_slot-account_id :
    (clock : ℤ) (row : AccountWithRuntime) (cs : AccountSlot) (mem : Option AccountSlot)
    → (merge_slot clock row cs mem).slot.account_id ≡ cs.account_id
unfolding merge_slot apply_runtime_state apply_in_memory_runtime
merge_slot-account_id clock row cs (some mem) = ground arith
merge_slot-account_id clock row cs none = ground arith

-- A row that gives its account a place.
abbrev pub loads : Parsers → AccountWithRuntime → Bool
loads p row = if is_terminal row.status then has_any_credential row else is_some (row_slot p row)

counts_below :
    (p : Parsers) (rows : List AccountWithRuntime) (j : ℕ)
    → count (λ row. row.id == j && loads p row) rows ≤ count (λ b. b.id == j) rows
unfolding count
counts_below p [] j = omega arith
counts_below p (row ∷ rows) j = ground (arith, counts_below p rows j)

-- A pool in which the accounts stand as the rows say.
pub record IsRebuilt {C : Type 0} (p : Parsers) (rows : List AccountWithRuntime) (t : PoolState C)
    : Type 0 where
  pub wellformed : IsWellFormed t
  pub as_rows : (id : ℕ) → places id t ≡ count (λ row. row.id == id && loads p row) rows

module _ {C : Type 0} where
  bucket_slot-places :
      (s : PoolState C) (id : ℕ) (marked : Bool) (cs : AccountSlot) (j : ℕ)
      → places id s ≡ 0
      → cs.account_id ≡ some id
      → places j (bucket_slot (mark_loaded id marked s) id cs) ≡ (if id == j then 1 else places j s)
  unfolding place
  bucket_slot-places s id true cs j zero own = place-places _ id zero none cs own j
  bucket_slot-places s id false cs j zero own = place-places s id zero none cs own j

  bucket_slot-AreKeyed :
      (s : PoolState C) (id : ℕ) (marked : Bool) (cs : AccountSlot)
      → cs.account_id ≡ some id
      → AreKeyed s.exhausted
      → AreKeyed (bucket_slot (mark_loaded id marked s) id cs).exhausted
  unfolding place
  bucket_slot-AreKeyed s id true cs own k = place-AreKeyed (mark_loaded id true s) id none cs own k
  bucket_slot-AreKeyed s id false cs own k = place-AreKeyed s id none cs own k

  module _ (p : Parsers) (clock : ℤ) where
    reload_slot-places :
        (row : AccountWithRuntime) (cs : AccountSlot) (l : Reload C) (j : ℕ)
        → places row.id l.pool ≡ 0
        → cs.account_id ≡ some row.id
        → places j (reload_slot clock row cs l).pool ≡ (if row.id == j then 1 else places j l.pool)
    reload_slot-places row cs l j zero own =
        bucket_slot-places l.pool row.id _ _ j zero
          (merge_slot-account_id clock row cs (get row.id l.memory) ∙ own)

    reload_row-places :
        (row : AccountWithRuntime) (l : Reload C) (j : ℕ)
        → places row.id l.pool ≡ 0
        → places j (reload_row p clock row l).pool
          ≡ (if row.id == j && loads p row then 1 else places j l.pool)
    unfolding reload_row stamp_row
    reload_row-places row l j zero = elim (Bool-cases (is_terminal row.status)) [
      | inl e ↦ elim (Bool-cases (has_any_credential row)) [
        | inl h ↦ rw (e, h) (invalid-places l.pool row.id zero _ j ∙ ground arith)
        | inr h ↦ rw (e, h) (ground arith)
      ]
      | inr e ↦ elim (Option-cases (row_slot p row)) [
        | inl h ↦ rw (e, h) (ground arith)
        | inr (cs, h) ↦
            rw (e, h) (reload_slot-places row (stamp_row row cs) l j zero refl ∙ ground arith)
      ]
    ]

    reload_row-AreKeyed :
        (row : AccountWithRuntime) (l : Reload C)
        → AreKeyed l.pool.exhausted
        → AreKeyed (reload_row p clock row l).pool.exhausted
    unfolding reload_row stamp_row
    reload_row-AreKeyed row l k = elim (Bool-cases (is_terminal row.status)) [
      | inl e ↦ elim (Bool-cases (has_any_credential row)) [
        | inl h ↦ rw (e, h) k
        | inr h ↦ rw (e, h) k
      ]
      | inr e ↦ elim (Option-cases (row_slot p row)) [
        | inl h ↦ rw (e, h) k
        | inr (cs, h) ↦
            rw (e, h)
              (bucket_slot-AreKeyed l.pool row.id _ _
                (merge_slot-account_id clock row (stamp_row row cs) (get row.id l.memory)) k)
      ]
    ]

    reload_rows-AreKeyed :
        (rows : List AccountWithRuntime) (l : Reload C)
        → AreKeyed l.pool.exhausted
        → AreKeyed (reload_rows p clock rows l).pool.exhausted
    unfolding reload_rows
    reload_rows-AreKeyed [] l k = k
    reload_rows-AreKeyed (row ∷ rows) l k =
        reload_rows-AreKeyed rows (reload_row p clock row l) (reload_row-AreKeyed row l k)

    -- The accounts of the rows that come have no place yet, and one row each.
    abbrev IsOpen : List AccountWithRuntime → Reload C → Type 0
    IsOpen rows l = (j : ℕ) → places j l.pool + count (λ b. b.id == j) rows ≤ 1

    reload_rows-places :
        (rows : List AccountWithRuntime) (l : Reload C)
        → IsOpen rows l
        → (j : ℕ)
        → places j (reload_rows p clock rows l).pool
          ≡ places j l.pool + count (λ row. row.id == j && loads p row) rows
    unfolding reload_rows count
    reload_rows-places [] l room j = omega arith
    reload_rows-places (row ∷ rows) l room j = ground (
      arith,
      step j,
      room j,
      ==_iff row.id j,
      reload_rows-places rows (reload_row p clock row l) next j,
    )
      where
        free : places row.id l.pool ≡ 0
        free = ground (arith, room row.id, ==_iff row.id row.id)

        step :
            (j : ℕ)
            → places j (reload_row p clock row l).pool
              ≡ (if row.id == j && loads p row then 1 else places j l.pool)
        step j = reload_row-places row l j free

        next : IsOpen rows (reload_row p clock row l)
        next j = ground (arith, step j, room j)

    emptied-IsOpen :
        (rows : List AccountWithRuntime) (s : PoolState C)
        → AreDistinct rows
        → IsOpen rows (emptied s)
    unfolding count
    emptied-IsOpen rows s d j = omega (arith, AreDistinct-at_most_one j rows d)

    reload_rows-IsRebuilt :
        (rows : List AccountWithRuntime) (s : PoolState C)
        → AreDistinct rows
        → IsRebuilt p rows (reload_rows p clock rows (emptied s)).pool
    unfolding count
    reload_rows-IsRebuilt rows s d = record {
      wellformed = record {
        distinct =
            λ j. omega (arith, same j, counts_below p rows j, AreDistinct-at_most_one j rows d);
        keyed = reload_rows-AreKeyed rows (emptied s) tt;
      };
      as_rows = same;
    }
      where
        same :
            (j : ℕ)
            → places j (reload_rows p clock rows (emptied s)).pool
              ≡ count (λ row. row.id == j && loads p row) rows
        same j = omega (arith, reload_rows-places rows (emptied s) (emptied-IsOpen rows s d) j)

    -- A step that moves no account keeps the pool as the rows say.
    IsRebuilt-Conserves :
        (rows : List AccountWithRuntime) (s t : PoolState C)
        → IsRebuilt p rows s
        → Conserves s t
        → IsRebuilt p rows t
    IsRebuilt-Conserves rows s t k c = record {
      wellformed = c.wellformed;
      as_rows = λ id. c.places_same id ∙ k.as_rows id;
    }

    pub after_loop-Conserves :
        (moka : Moka C) (rows : List AccountWithRuntime) (l : Reload C)
        → IsWellFormed l.pool
        → Conserves l.pool (emit_accounts_refresh (spawn_probes_for_unprobed (reindex moka rows l)))
    unfolding emit_accounts_refresh spawn_probes_for_unprobed
    after_loop-Conserves moka rows l w =
        let indexed = Conserves-of_buckets l.pool (reindex moka rows l) refl refl refl w in
        let probed = spawn_probe_accounts-Conserves _ (reindex moka rows l) indexed.wellformed in
        Conserves-trans indexed
          (Conserves-trans probed (Conserves-of_buckets _ _ refl refl refl probed.wellformed))

    rebuild-IsRebuilt :
        (moka : Moka C) (rows : List AccountWithRuntime) (s : PoolState C)
        → AreDistinct rows
        → IsRebuilt p rows (rebuild moka p clock rows s)
    unfolding rebuild
    rebuild-IsRebuilt moka rows s d =
        let k = reload_rows-IsRebuilt rows s d in
        IsRebuilt-Conserves rows _ _ k
          (after_loop-Conserves moka rows (reload_rows p clock rows (emptied s)) k.wellformed)

    -- Whatever the pool was and whatever the flush answers: after a reload from rows with distinct ids the pool is
    -- well-formed, an account is in one bucket if its row loads (a terminal row with some credential, or another row
    -- that makes a slot), and an account without such a row is in none.
    pub do_reload-IsRebuilt :
        (moka : Moka C) (db : DbAnswers) (rows : List AccountWithRuntime) (s : PoolState C)
        → AreDistinct rows
        → IsRebuilt p rows (do_reload moka p db clock (some rows) s).0
    unfolding do_reload
    do_reload-IsRebuilt moka db rows s d = rebuild-IsRebuilt moka rows (do_flush db s).0 d
