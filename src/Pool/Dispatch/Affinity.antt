-- ===== src/Pool/Dispatch/Affinity.antt =====
-- src/services/account_pool/dispatch.rs, phase A: a prompt stays with its account.
use clewdr_hub.Common.{
  ℕ, ◌≡◌, refl, ap, ◌∙◌, sym, ◌⊎◌, ◌↔◌, is_some_and, inl, inr, true, false, Option, none, some,
  List, Bool-cases, and_left, and_right, not_both, if◌then◌else◌, contains, Picked, At, any_of_At,
  At-of_any, position-cases, get_elem?-remove_at, ==_iff, ◌==◌, ℤ,
}
use clewdr_hub.Config.Slot.{AccountSlot, has_id}
use clewdr_hub.Pool.State.{Moka, PoolState}
use clewdr_hub.Pool.Reset.{reset}
use clewdr_hub.Pool.Dispatch.{
  Outcome, served, is_usable, is_drain_first, usable_drain, commit_dispatch, drain_position,
  affinity, cached_account, cache_key, dispatch_from, dispatch,
}
use clewdr_hub.Pool.Dispatch.Choice.{MayServe, is_usable_of_MayServe, MayServe-of_is_usable}

has_id_iff : (id : ℕ) (c : AccountSlot) → (has_id id c ≡ true) ↔ (c.account_id ≡ some id)
has_id_iff id c = go c.account_id
  where
    go : (o : Option ℕ) → (is_some_and o (λ a. a == id) ≡ true) ↔ (o ≡ some id)
    go none = (λ e. cc, λ e. cc)
    go (some a) = (λ e. ap some ((==_iff a id).0 e), λ e. (==_iff a id).1 (cc))

module _ {C : Type 0} (moka : Moka C) (bound : List ℕ) (s : PoolState C) where
  -- Nothing is to be preferred to the account `id`.
  abbrev pub IsPreferred : ℕ → Type 0
  IsPreferred id =
      (contains id s.drain_first_ids ≡ true)
      ⊎ ((d : AccountSlot)
          → At s.valid d
          → MayServe bound s.inflight d
          → is_drain_first s.drain_first_ids d ≡ false)

  not_preempted :
      (id : ℕ)
      → IsPreferred id
      → (if contains id s.drain_first_ids then none else drain_position moka s bound) ≡ none
  not_preempted id (inl first) = rw first
  not_preempted id (inr others) = elim (Bool-cases (contains id s.drain_first_ids)) [
    | inl e ↦ rw e
    | inr e ↦
        rw e (elim (position-cases (usable_drain bound s.inflight s.drain_first_ids) s.valid) [
          | inl (gone, _) ↦ gone
          | inr (i, _, found, _) ↦ absurd (preempts (At-of_any _ s.valid found))
        ])
  ]
    where
      preempts :
          (d : AccountSlot) × At s.valid d
            × (usable_drain bound s.inflight s.drain_first_ids d ≡ true)
          → ⊥
      preempts (d, at, h) =
          not_both _ (and_right _ _ h)
            (others d at (MayServe-of_is_usable bound s.inflight d (and_left _ _ h)))

  -- The prompt's own account serves, and the cache stays.
  abbrev pub ServesOwn : ℕ → PoolState C × Outcome → Type 0
  ServesOwn id r =
      (d : AccountSlot) × (r.1 ≡ served d) × (d.account_id ≡ some id) × (r.0.moka ≡ s.moka)

  commit-ServesOwn :
      (key : Option ℕ) (id pos : ℕ)
      → Picked (has_id id) s.valid pos
      → ServesOwn id (commit_dispatch moka s pos key false)
  unfolding commit_dispatch
  commit-ServesOwn key id pos k =
      rw (k.removed, commit_dispatch) (k.chosen, refl, (has_id_iff id k.chosen).0 k.passes, refl)

  affinity-ServesOwn :
      (key : Option ℕ) (id pos : ℕ) (c : AccountSlot)
      → Picked (has_id id) s.valid pos
      → c.account_id ≡ some id
      → MayServe bound s.inflight c
      → IsPreferred id
      → ServesOwn id (affinity moka s key bound id pos)
  unfolding affinity
  affinity-ServesOwn key id pos c k own may pref =
      rw (not_preempted id pref, affinity, get_elem?-remove_at s.valid pos k.removed, usable)
        (commit-ServesOwn key id pos k)
    where
      mine : k.chosen.account_id ≡ some id
      mine = (has_id_iff id k.chosen).0 k.passes

      usable : is_usable bound s.inflight k.chosen ≡ true
      usable = is_usable_of_MayServe bound s.inflight k.chosen (record {
        id = may.id;
        known = mine ∙ sym own ∙ may.known;
        bound_to = may.bound_to;
        room = may.room;
      })

-- A prompt whose cached account is in rotation and may serve is served by it, unless only other accounts
-- are to be drained first and one of those may serve; and the cache keeps its entry.
pub dispatch-ServesOwn :
    {C : Type 0} (moka : Moka C) (hasher : ℕ → List ℕ → ℕ) (now : ℤ) (s : PoolState C)
    (hash : Option ℕ) (bound : List ℕ) (k id : ℕ) (c : AccountSlot)
    → cache_key hasher hash bound ≡ some k
    → moka.lookup k (reset now s).moka ≡ some id
    → At (reset now s).valid c
    → c.account_id ≡ some id
    → MayServe bound (reset now s).inflight c
    → IsPreferred moka bound (reset now s) id
    → ServesOwn moka bound (reset now s) id (dispatch moka hasher now s hash bound)
unfolding dispatch dispatch_from
dispatch-ServesOwn moka hasher now s hash bound k id c key cached at own may pref =
    rw (cached_here, dispatch_from)
      (elim (position-cases (has_id id) (reset now s).valid) [
        | inl (_, gone) ↦
            absurd (not_both _ (any_of_At _ (reset now s).valid at ((has_id_iff id c).1 own)) gone)
        | inr (pos, found, _, picked) ↦ rw found (
            affinity-ServesOwn moka bound (reset now s) (cache_key hasher hash bound) id pos c
              picked own may pref)
      ])
  where
    cached_here : cached_account moka (reset now s) (cache_key hasher hash bound) ≡ some id
    cached_here = rw key cached
