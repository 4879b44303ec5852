-- ===== src/Pool/Conservation/Messages.antt =====
-- src/services/account_pool/actor.rs: no message loses an account, makes one up or puts one into two buckets.
use clewdr_hub.Common.{
  ℕ, ◌≡◌, ◌≢◌, refl, ap, ◌∙◌, Bool, true, false, not, ◌||◌, ◌⊎◌, Option, none, some, List, [], ◌∷◌,
  if◌then◌else◌, is_some, Bool-cases, inl, inr, insert_id, contains, get, remove, ℤ,
}
use clewdr_hub.Config.Slot.{has_id}
use clewdr_hub.Pool.State.{Moka, PoolState, emit_accounts_refresh}
use clewdr_hub.Pool.Reset.{reset}
use clewdr_hub.Pool.Dispatch.{dispatch}
use clewdr_hub.Pool.Dispatch.Choice.{Answers, serves, refuses}
use clewdr_hub.Pool.Dispatch.Service.{dispatch-Answers}
use clewdr_hub.Pool.Fingerprint.{pool_credential_fingerprint, pool_oauth_refresh_token_matches}
use clewdr_hub.Pool.Flush.{DbAnswers, DbWrite, flush_marked, do_flush}
use clewdr_hub.Pool.Probes.{
  spawn_probe_guarded, spawn_probe_accounts, spawn_probes_for_unprobed, bootstrap_probe_account_ids,
}
use clewdr_hub.Pool.Actor.{
  Message, return_slot, check_reset, request, get_status, probe_accounts, begin_probe, flush_dirty,
  set_handle, release_slot, get_probing_ids, clear_probing, set_probe_error, clear_probe_error,
  get_probe_errors, update_credential, update_credential_if_current, get_token, invalidate,
  invalidate_if_current, snapshot_pool_state, World, Reply, silent, unheard, flag, returned, handle,
}
use clewdr_hub.Pool.Conservation.Collect.{collect_by_id-Conserves}
use clewdr_hub.Pool.Conservation.Writers.{
  refresh_usage_windows-Conserves, update_slot_credential-Conserves, converge_invalidate-Conserves,
}
use clewdr_hub.Pool.Conservation.{IsWellFormed, Conserves, Conserves-of_places, reset-Conserves}

heard :
    (awaited : Bool) (r : Reply)
    → r ≢ unheard
    → ((if awaited then r else unheard) ≢ unheard) ⊎ (awaited ≡ false)
heard true r n = inl n
heard false r n = inr refl

quiet : (awaited : Bool) → (silent ≢ unheard) ⊎ (awaited ≡ false)
quiet awaited = inl (λ e. cc)

module _ {C : Type 0} where
  -- A step after a step.
  pub Conserves-trans : {s t u : PoolState C} → Conserves s t → Conserves t u → Conserves s u
  Conserves-trans h k = record {
    wellformed = k.wellformed;
    places_same = λ id. k.places_same id ∙ h.places_same id;
  }

  -- A step that changes no bucket.
  pub Conserves-of_buckets :
      (s t : PoolState C)
      → t.valid ≡ s.valid
      → t.exhausted ≡ s.exhausted
      → t.invalid ≡ s.invalid
      → IsWellFormed s
      → Conserves s t
  Conserves-of_buckets s t v e i w = Conserves-of_places s t w (rw e w.keyed) (λ id. rw (v, e, i))

  pub dispatch-Conserves :
      (moka : Moka C) (hasher : ℕ → List ℕ → ℕ) (now : ℤ) (s : PoolState C) (hash : Option ℕ)
      (bound : List ℕ)
      → IsWellFormed s
      → Conserves s (dispatch moka hasher now s hash bound).0
  dispatch-Conserves moka hasher now s hash bound w =
      Conserves-trans (reset-Conserves now s w) (go (dispatch-Answers moka hasher now s hash bound))
    where
      well : IsWellFormed (reset now s)
      well = (reset-Conserves now s w).wellformed

      go :
          Answers bound (reset now s) (dispatch moka hasher now s hash bound)
          → Conserves (reset now s) (dispatch moka hasher now s hash bound).0
      go (serves c e k) =
          Conserves-of_places (reset now s) _ well (rw k.exhausted well.keyed)
            (λ id. rw (k.rotated (has_id id), k.exhausted, k.invalid))
      go (refuses h e k) =
          Conserves-of_buckets (reset now s) _ (ap (λ (t : PoolState C). t.valid) k)
            (ap (λ (t : PoolState C). t.exhausted) k) (ap (λ (t : PoolState C). t.invalid) k) well

  -- A step that leaves the pool as it is.
  Conserves-refl : (s : PoolState C) → IsWellFormed s → Conserves s s
  Conserves-refl s w = Conserves-of_buckets s s refl refl refl w

  -- A step that is taken under a condition only.
  Conserves-if :
      (b : Bool) (s t : PoolState C)
      → IsWellFormed s
      → Conserves s t
      → Conserves s (if b then t else s)
  Conserves-if true s t w h = h
  Conserves-if false s t w h = Conserves-refl s w

  flush_marked-Conserves :
      (db : DbAnswers) (s : PoolState C) (ids : List ℕ)
      → IsWellFormed s
      → Conserves s (flush_marked db s ids).0
  flush_marked-Conserves db s [] w = Conserves-refl s w
  flush_marked-Conserves db s (id ∷ ids) w = Conserves-of_buckets s _ refl refl refl w

  pub do_flush-Conserves :
      (db : DbAnswers) (s : PoolState C) → IsWellFormed s → Conserves s (do_flush db s).0
  unfolding do_flush
  do_flush-Conserves db s w = flush_marked-Conserves db s s.dirty w

  spawn_probe_guarded-Conserves :
      (s : PoolState C) (id : ℕ) → IsWellFormed s → Conserves s (spawn_probe_guarded s id)
  unfolding spawn_probe_guarded emit_accounts_refresh
  spawn_probe_guarded-Conserves s id w = elim (Bool-cases (contains id s.probing || not s.handle)) [
    | inl e ↦ rw (e, spawn_probe_guarded) (Conserves-refl s w)
    | inr e ↦ rw (e, spawn_probe_guarded) (Conserves-of_buckets s _ refl refl refl w)
  ]

  pub spawn_probe_accounts-Conserves :
      (ids : List ℕ) (s : PoolState C) → IsWellFormed s → Conserves s (spawn_probe_accounts s ids)
  unfolding spawn_probe_accounts
  spawn_probe_accounts-Conserves [] s w = Conserves-refl s w
  spawn_probe_accounts-Conserves (id ∷ ids) s w =
      let h = spawn_probe_guarded-Conserves s id w in
      Conserves-trans h (spawn_probe_accounts-Conserves ids (spawn_probe_guarded s id) h.wellformed)

  -- The credential of the account that comes back can be cut at byte 20.
  abbrev pub IsCuttable : PoolState C → Message → Type 0
  IsCuttable s (return_slot id p r f m) = pool_credential_fingerprint s id ≢ none
  IsCuttable s _ = Unit {0}

  returned-Conserves :
      (db : DbAnswers) (s t : PoolState C) (probed : Bool)
      → Conserves s t
      → Conserves s (returned db (t, probed)).0
  unfolding emit_accounts_refresh
  returned-Conserves db s t false h = h
  returned-Conserves db s t true h =
      let f = do_flush-Conserves db t h.wellformed in
      Conserves-trans h (Conserves-trans f (Conserves-of_buckets _ _ refl refl refl f.wellformed))

  returned-silent :
      (w : World) (t : PoolState C) (probed : Bool)
      → ((returned w.db (t, probed)).1 ≢ unheard) ⊎ (w.is_awaited ≡ false)
  returned-silent w t false = quiet w.is_awaited
  returned-silent w t true = quiet w.is_awaited

  -- For every message but a reload, and unless it brings back an account whose credential cannot be cut at byte 20, the
  -- handler does not panic; it fails, which stops the actor, only if its reply is to a caller that is gone; and either
  -- way it leaves a well-formed pool in which every account is in as many buckets as before.
  pub handle-Conserves :
      (moka : Moka C) (w : World) (s : PoolState C) (m : Message)
      → IsWellFormed s
      → IsCuttable s m
      → (t : PoolState C) × (r : Reply) × (ws : List DbWrite) × (handle moka w s m
          ≡ some (t, r, ws))
        × ((r ≢ unheard) ⊎ (w.is_awaited ≡ false))
        × Conserves s t
  unfolding handle emit_accounts_refresh spawn_probes_for_unprobed
  handle-Conserves moka w s (return_slot id p r f mode) k cut =
      let (t, e, h) = collect_by_id-Conserves s id p r f mode k cut in
      let turn = returned w.db (t, contains id s.probing) in
      (
        turn.0,
        turn.1,
        turn.2,
        rw (e, handle),
        returned-silent w t (contains id s.probing),
        returned-Conserves w.db s t (contains id s.probing) h,
      )
  handle-Conserves moka w s check_reset k cut =
      let h = refresh_usage_windows-Conserves w.now s k in
      (_, _, _, refl, quiet w.is_awaited, Conserves-trans h (reset-Conserves w.now _ h.wellformed))
  handle-Conserves moka w s (request hash bound) k cut = (
    _,
    _,
    _,
    refl,
    heard w.is_awaited _ (λ e. cc),
    dispatch-Conserves moka w.hasher w.now s hash bound k,
  )
  handle-Conserves moka w s get_status k cut =
      (_, _, _, refl, heard w.is_awaited _ (λ e. cc), refresh_usage_windows-Conserves w.now s k)
  handle-Conserves moka w s (probe_accounts wanted) k cut =
      (_, _, _, refl, heard w.is_awaited _ (λ e. cc), spawn_probe_accounts-Conserves wanted s k)
  handle-Conserves moka w s (begin_probe id) k cut = elim (Bool-cases (contains id s.probing)) [
    | inl q ↦ (s, _, [], rw q, heard w.is_awaited (flag false) (λ e. cc), Conserves-refl s k)
    | inr q ↦
        let t : PoolState C = emit_accounts_refresh (record s {
          probing = insert_id id s.probing;
          probe_errors = remove id s.probe_errors;
        }) in
        (
          t,
          _,
          [],
          rw q,
          heard w.is_awaited (flag true) (λ e. cc),
          Conserves-of_buckets s t refl refl refl k,
        )
  ]
  handle-Conserves moka w s flush_dirty k cut =
      (_, _, _, refl, quiet w.is_awaited, do_flush-Conserves w.db s k)
  handle-Conserves moka w s set_handle k cut =
      let t : PoolState C = record s { handle = true } in
      (
        _,
        _,
        _,
        refl,
        quiet w.is_awaited,
        Conserves-trans (Conserves-of_buckets s t refl refl refl k) (
            spawn_probe_accounts-Conserves (bootstrap_probe_account_ids t) t
              (Conserves-of_buckets s t refl refl refl k).wellformed),
      )
  handle-Conserves moka w s (release_slot id) k cut =
      (_, _, _, refl, quiet w.is_awaited, Conserves-of_buckets s _ refl refl refl k)
  handle-Conserves moka w s get_probing_ids k cut =
      (_, _, _, refl, heard w.is_awaited _ (λ e. cc), Conserves-refl s k)
  handle-Conserves moka w s (clear_probing id) k cut = (
    _,
    _,
    _,
    refl,
    quiet w.is_awaited,
    Conserves-if (contains id s.probing) s _ k (Conserves-of_buckets s _ refl refl refl k),
  )
  handle-Conserves moka w s (set_probe_error id msg) k cut =
      (_, _, _, refl, quiet w.is_awaited, Conserves-of_buckets s _ refl refl refl k)
  handle-Conserves moka w s (clear_probe_error id) k cut = (
    _,
    _,
    _,
    refl,
    quiet w.is_awaited,
    Conserves-if (is_some (get id s.probe_errors)) s _ k
        (Conserves-of_buckets s _ refl refl refl k),
  )
  handle-Conserves moka w s get_probe_errors k cut =
      (_, _, _, refl, heard w.is_awaited _ (λ e. cc), Conserves-refl s k)
  handle-Conserves moka w s (update_credential id t) k cut =
      (_, _, _, refl, quiet w.is_awaited, update_slot_credential-Conserves s id t k)
  handle-Conserves moka w s (update_credential_if_current id expected t) k cut = (
    _,
    _,
    _,
    refl,
    heard w.is_awaited _ (λ e. cc),
    Conserves-if (pool_oauth_refresh_token_matches s id expected) s _ k
        (update_slot_credential-Conserves s id t k),
  )
  handle-Conserves moka w s (get_token id) k cut =
      (_, _, _, refl, heard w.is_awaited _ (λ e. cc), Conserves-refl s k)
  handle-Conserves moka w s (invalidate id reason) k cut =
      (_, _, _, refl, quiet w.is_awaited, converge_invalidate-Conserves moka s id reason k)
  handle-Conserves moka w s (invalidate_if_current id expected reason) k cut = (
    _,
    _,
    _,
    refl,
    heard w.is_awaited _ (λ e. cc),
    Conserves-if (pool_oauth_refresh_token_matches s id expected) s _ k
        (converge_invalidate-Conserves moka s id reason k),
  )
  handle-Conserves moka w s snapshot_pool_state k cut =
      (_, _, _, refl, heard w.is_awaited _ (λ e. cc), Conserves-refl s k)
