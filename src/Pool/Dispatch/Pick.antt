-- ===== src/Pool/Dispatch/Pick.antt =====
-- src/services/account_pool/dispatch.rs: the ways in which a dispatch can end, as one rule for proofs.
use clewdr_hub.Common.{
  ℕ, ◌≡◌, refl, ap, ◌∙◌, ◌⊎◌, Bool, true, false, ◌&&◌, Option, none, some, List, [], ◌∷◌, arith,
  if◌then◌else◌, Bool-cases, Option-cases, and_left, and_right, clash, inl, inr, contains, any,
  position, Picked, Picked-mono, position-cases, any-ext, any_never, get_elem?-remove_at,
}
use clewdr_hub.Config.Slot.{AccountSlot, has_id}
use clewdr_hub.Pool.State.{Moka, PoolState}
use clewdr_hub.Pool.Dispatch.{
  Outcome, refused, bound_ok, slot_ok, is_usable, is_drain_first, usable_drain,
  dispatch_empty_error, commit_dispatch, is_other, other_drain, drain_position, phase_bc,
  overflow_borrow, affinity, is_empty, cached_account, dispatch_from,
}

-- A search that fails finds that there is none.
any_of_position :
    (p : AccountSlot → Bool) (xs : List AccountSlot) → position p xs ≡ none → any p xs ≡ false
any_of_position p xs e = elim (position-cases p xs) [ inl (_, f) ↦ f | inr (i, found, _, _) ↦ cc ]

is_drain_first-nil : (c : AccountSlot) → is_drain_first [] c ≡ false
unfolding is_drain_first contains
is_drain_first-nil c = ground arith

-- Skipping the search when no account is marked misses none.
no_drain :
    (bound : List ℕ) (inflight : List (ℕ × (ℕ × ℕ))) (drain : List ℕ) (xs : List AccountSlot)
    → (if is_empty drain then none else position (usable_drain bound inflight drain) xs) ≡ none
    → any (usable_drain bound inflight drain) xs ≡ false
no_drain bound inflight [] xs e =
    any_never (usable_drain bound inflight []) xs (λ c. ground (arith, is_drain_first-nil c))
no_drain bound inflight (d ∷ ds) xs e = any_of_position (usable_drain bound inflight (d ∷ ds)) xs e

-- An account is usable or not by its id alone.
is_usable_of_has_id :
    (bound : List ℕ) (inflight : List (ℕ × (ℕ × ℕ))) (id : ℕ) (c : AccountSlot)
    → has_id id c ≡ true
    → is_usable bound inflight c ≡ (bound_ok bound id && slot_ok inflight id)
unfolding is_usable
is_usable_of_has_id bound inflight id c h = ground arith

is_drain_first_of_has_id :
    (drain : List ℕ) (id : ℕ) (c : AccountSlot)
    → has_id id c ≡ true
    → is_drain_first drain c ≡ contains id drain
unfolding is_drain_first
is_drain_first_of_has_id drain id c h = ground arith

module _ {C : Type 0} (moka : Moka C) (P : PoolState C × Outcome → Type 0) (key : Option ℕ)
    (bound : List ℕ) where
  -- An account that may serve, and that is to be drained first if any such may serve.
  abbrev Serves : PoolState C → Type 0
  Serves s =
      (c : C) (i : ℕ) (rewrite : Bool) (k : Picked (is_usable bound s.inflight) s.valid i)
      → (any (usable_drain bound s.inflight s.drain_first_ids) s.valid ≡ true
          → is_drain_first s.drain_first_ids k.chosen ≡ true)
      → P (commit_dispatch moka (record s { moka = c }) i key rewrite)

  -- No account may serve.
  abbrev Refuses : PoolState C → Type 0
  Refuses s =
      (c : C)
      → any (is_usable bound s.inflight) s.valid ≡ false
      → P (record s { moka = c }, refused (dispatch_empty_error s bound))

  serve_drain :
      (s : PoolState C) (c : C) (i : ℕ) (rewrite : Bool)
      → Serves s
      → Picked (usable_drain bound s.inflight s.drain_first_ids) s.valid i
      → P (commit_dispatch moka (record s { moka = c }) i key rewrite)
  unfolding Picked-mono
  serve_drain s c i rewrite ok k =
      ok c i rewrite (Picked-mono (λ x e. and_left _ _ e) k) (λ _. and_right _ _ k.passes)

  -- The search for an account to drain first, under either guard, and what its failure means.
  drain_search :
      (s : PoolState C) (skip : Bool)
      → ((if skip then none else drain_position moka s bound) ≡ none)
        ⊎ ((i : ℕ) × ((if skip then none else drain_position moka s bound) ≡ some i)
            × Picked (usable_drain bound s.inflight s.drain_first_ids) s.valid i)
  drain_search s true = inl refl
  drain_search s false =
      elim (position-cases (usable_drain bound s.inflight s.drain_first_ids) s.valid) [
        | inl (e, _) ↦ inl e
        | inr (i, e, _, k) ↦ inr (i, e, k)
      ]

  phase_bc-cases :
      (s : PoolState C) (c : C)
      → Serves s
      → Refuses s
      → P (phase_bc moka (record s { moka = c }) key bound)
  unfolding phase_bc dispatch_empty_error
  phase_bc-cases s c ok none_left = elim (drain_search s (is_empty s.drain_first_ids)) [
    | inr (i, e, k) ↦ rw (e, phase_bc) (serve_drain s c i true ok k)
    | inl e ↦ elim (position-cases (is_usable bound s.inflight) s.valid) [
      | inl (gone, no_more) ↦ rw (e, phase_bc, gone) (none_left c no_more)
      | inr (i, found, _, k) ↦
          rw (e, phase_bc, found)
            (ok c i true k
              (λ d. clash _ _ _ d refl (no_drain bound s.inflight s.drain_first_ids s.valid e)))
    ]
  ]

  -- The cached account cannot serve, so that looking among the others misses none.
  other_eq_usable :
      (s : PoolState C) (id : ℕ)
      → (bound_ok bound id && slot_ok s.inflight id) ≡ false
      → (x : AccountSlot) → is_usable bound s.inflight x ≡ is_other moka s bound id x
  other_eq_usable s id busy x = elim (Bool-cases (has_id id x)) [
    | inl same ↦ rw (is_usable_of_has_id bound s.inflight id x same, busy, same)
    | inr other ↦ rw other
  ]

  other_drain_eq :
      (s : PoolState C) (id : ℕ)
      → (bound_ok bound id && slot_ok s.inflight id) ≡ false
      → (x : AccountSlot)
      → usable_drain bound s.inflight s.drain_first_ids x ≡ other_drain moka s bound id x
  other_drain_eq s id busy x =
      ap (λ b. b && is_drain_first s.drain_first_ids x) (other_eq_usable s id busy x)

  overflow_borrow-cases :
      (s : PoolState C) (id : ℕ)
      → (bound_ok bound id && slot_ok s.inflight id) ≡ false
      → Serves s
      → Refuses s
      → P (overflow_borrow moka s key bound id)
  unfolding overflow_borrow Picked-mono
  overflow_borrow-cases s id busy ok none_left =
      elim (position-cases (other_drain moka s bound id) s.valid) [
        | inr (i, found, _, k) ↦
            rw (found, overflow_borrow)
              (ok s.moka i false (Picked-mono (λ x e. and_right _ _ (and_left _ _ e)) k)
                (λ _. and_right _ _ k.passes))
        | inl (none_drain, no_drain_left) ↦
            elim (position-cases (is_other moka s bound id) s.valid) [
              | inr (i, found, _, k) ↦
                  rw (none_drain, overflow_borrow, found)
                    (ok s.moka i false (Picked-mono (λ x e. and_right _ _ e) k) (λ d.
                      clash _ _ _ d (any-ext _ _ s.valid (other_drain_eq s id busy)) no_drain_left))
              | inl (gone, no_more) ↦
                  rw (none_drain, overflow_borrow, gone)
                    (none_left s.moka (any-ext _ _ s.valid (other_eq_usable s id busy) ∙ no_more))
            ]
      ]

  -- With the cached account at the position `pos`.
  affinity-cases :
      (s : PoolState C) (id pos : ℕ)
      → Picked (has_id id) s.valid pos
      → Serves s
      → Refuses s
      → P (affinity moka s key bound id pos)
  unfolding affinity
  affinity-cases s id pos cached ok none_left =
      elim (drain_search s (contains id s.drain_first_ids)) [
        | inr (i, e, k) ↦ rw (e, affinity) (serve_drain s s.moka i true ok k)
        | inl e ↦ elim (Bool-cases (bound_ok bound id)) [
          | inr out ↦
              rw (e, affinity, get_elem?-remove_at s.valid pos cached.removed, same, out)
                (phase_bc-cases s _ ok none_left)
          | inl within ↦ elim (Bool-cases (slot_ok s.inflight id)) [
            | inl room ↦
                rw (e, affinity, get_elem?-remove_at s.valid pos cached.removed, same, within, room)
                  (ok s.moka pos false (picked room within) (drain e))
            | inr full ↦
                rw (e, affinity, get_elem?-remove_at s.valid pos cached.removed, same, within, full)
                  (overflow_borrow-cases s id (rw (within, full)) ok none_left)
          ]
        ]
      ]
    where
      same : is_usable bound s.inflight cached.chosen ≡ (bound_ok bound id && slot_ok s.inflight id)
      same = is_usable_of_has_id bound s.inflight id cached.chosen cached.passes

      picked :
          slot_ok s.inflight id ≡ true
          → bound_ok bound id ≡ true
          → Picked (is_usable bound s.inflight) s.valid pos
      picked room within = record {
        chosen = cached.chosen;
        others = cached.others;
        removed = cached.removed;
        passes = rw (same, within, room);
      }

      drain :
          (if contains id s.drain_first_ids then none else drain_position moka s bound) ≡ none
          → any (usable_drain bound s.inflight s.drain_first_ids) s.valid ≡ true
          → is_drain_first s.drain_first_ids cached.chosen ≡ true
      drain e d = elim (Bool-cases (contains id s.drain_first_ids)) [
        | inl first ↦
            is_drain_first_of_has_id s.drain_first_ids id cached.chosen cached.passes ∙ first
        | inr later ↦ clash _ _ _ d refl (any_of_position _ s.valid (rw later at e))
      ]

  -- However the search goes, it ends with a usable account, to be drained first if there is such a one, or
  -- with a refusal when there is none.
  pub dispatch_from-cases :
      (s : PoolState C) → Serves s → Refuses s → P (dispatch_from moka s key bound)
  unfolding dispatch_from
  dispatch_from-cases s ok none_left = elim (Option-cases (cached_account moka s key)) [
    | inl e ↦ rw (e, dispatch_from) (phase_bc-cases s s.moka ok none_left)
    | inr (id, e) ↦ elim (position-cases (has_id id) s.valid) [
      | inl (gone, _) ↦ rw (e, dispatch_from, gone) (phase_bc-cases s _ ok none_left)
      | inr (pos, found, _, k) ↦
          rw (e, dispatch_from, found) (affinity-cases s id pos k ok none_left)
    ]
  ]
