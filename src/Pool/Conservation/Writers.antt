-- ===== src/Pool/Conservation/Writers.antt =====
-- src/services/account_pool/fingerprint.rs and dispatch.rs: what rewrites slots in place, and what the writers of the
-- database tell the pool.
use clewdr_hub.Common.{
  ℕ, ◌+◌, ◌≤◌, ◌≡◌, refl, ◌∙◌, Bool, true, false, not, Option, none, some, List, [], ◌∷◌, map,
  arith, if◌then◌else◌, Option-cases, ◌⊎◌, inl, inr, ◌==◌, ==_iff, count, has_key, find, retain,
  get, remove, modify, count-remove, count-insert, count_pos_of_get, count-get, ℤ,
}
use clewdr_hub.Config.Reason.{Reason, AuthMethod}
use clewdr_hub.Config.Slot.{AccountSlot, TokenInfo, has_id}
use clewdr_hub.Pool.State.{Moka, PoolState, emit_accounts_refresh}
use clewdr_hub.Pool.Reset.{refresh_usage_windows, apply_resets, map_values}
use clewdr_hub.Pool.Collect.{with_token, update_slot_credential, converge_invalidate, removed_kind}
use clewdr_hub.Pool.Conservation.{AreKeyed, IsWellFormed, Conserves, Conserves-of_places}

-- Rewriting slots in place, their ids kept.
module _ (f : AccountSlot → AccountSlot)
    (same : (c : AccountSlot) → (f c).account_id ≡ c.account_id) where
  count-map_slots :
      (id : ℕ) (xs : List AccountSlot) → count (has_id id) (map f xs) ≡ count (has_id id) xs
  unfolding count
  count-map_slots id [] = refl
  count-map_slots id (c ∷ cs) = rw (same c, count-map_slots id cs)

  count-map_values :
      (id : ℕ) (m : List (ℕ × AccountSlot))
      → count (has_key id) (map_values f m) ≡ count (has_key id) m
  unfolding count map_values
  count-map_values id [] = refl
  count-map_values id ((k, c) ∷ m) = rw (count-map_values id m)

  map_values-AreKeyed : (m : List (ℕ × AccountSlot)) → AreKeyed m → AreKeyed (map_values f m)
  unfolding map_values
  map_values-AreKeyed [] h = tt
  map_values-AreKeyed ((k, c) ∷ m) h = (same c ∙ h.0, map_values-AreKeyed m h.1)

module _ {C : Type 0} where
  pub refresh_usage_windows-Conserves :
      (now : ℤ) (s : PoolState C) → IsWellFormed s → Conserves s (refresh_usage_windows now s).0
  unfolding refresh_usage_windows apply_resets
  refresh_usage_windows-Conserves now s w =
      Conserves-of_places s _ w
        (map_values-AreKeyed (apply_resets now) (λ c. refl) s.exhausted w.keyed)
        (λ id. rw (
          count-map_slots (apply_resets now) (λ c. refl) id s.valid,
          count-map_values (apply_resets now) (λ c. refl) id s.exhausted,
        ))

-- Rewriting the slots of one account.
count-map_own :
    (t : Option TokenInfo) (id j : ℕ) (xs : List AccountSlot)
    → count (has_id j) (map (λ slot. if has_id id slot then with_token t slot else slot) xs)
      ≡ count (has_id j) xs
unfolding count
count-map_own t id j [] = refl
count-map_own t id j (c ∷ cs) = ground (arith, count-map_own t id j cs)

count-modify :
    (f : AccountSlot → AccountSlot) (id j : ℕ) (m : List (ℕ × AccountSlot))
    → count (has_key j) (modify id f m) ≡ count (has_key j) m
unfolding count modify
count-modify f id j [] = refl
count-modify f id j ((k, c) ∷ m) = ground (arith, count-modify f id j m)

kept_id :
    (t : Option TokenInfo) (c : AccountSlot) (b : Bool)
    → (if b then with_token t c else c).account_id ≡ c.account_id
kept_id t c true = refl
kept_id t c false = refl

modify-AreKeyed :
    (t : Option TokenInfo) (id : ℕ) (m : List (ℕ × AccountSlot))
    → AreKeyed m
    → AreKeyed (modify id (with_token t) m)
unfolding modify
modify-AreKeyed t id [] h = tt
modify-AreKeyed t id ((k, c) ∷ m) h = (kept_id t c (k == id) ∙ h.0, modify-AreKeyed t id m h.1)

-- Taking an account out of a list of slots.
count-retain_others :
    (id j : ℕ) (xs : List AccountSlot)
    → count (has_id j) (retain (λ c. not (has_id id c)) xs)
      ≡ (if id == j then 0 else count (has_id j) xs)
unfolding count retain
count-retain_others id j [] = ground arith
count-retain_others id j (c ∷ cs) = ground (arith, count-retain_others id j cs)

count_of_find :
    (id : ℕ) (xs : List AccountSlot) (c : AccountSlot)
    → find (has_id id) xs ≡ some c
    → 1 ≤ count (has_id id) xs
unfolding count find
count_of_find id [] c e = cc
count_of_find id (d ∷ ds) c e = ground (arith, count_of_find id ds c)

none_of_find :
    (id : ℕ) (xs : List AccountSlot) → find (has_id id) xs ≡ none → count (has_id id) xs ≡ 0
unfolding count find
none_of_find id [] e = refl
none_of_find id (d ∷ ds) e = ground (arith, none_of_find id ds)

remove-AreKeyed : (id : ℕ) (m : List (ℕ × AccountSlot)) → AreKeyed m → AreKeyed (remove id m)
unfolding remove
remove-AreKeyed id [] h = tt
remove-AreKeyed id ((k, c) ∷ m) h = ground (arith, remove-AreKeyed id m h.1)

module _ {C : Type 0} where
  -- The account has a kind as long as it has a slot.
  removed_kind-cases :
      (s : PoolState C) (id : ℕ)
      → ((removed_kind s id ≡ none)
          × (count (has_id id) s.valid ≡ 0)
          × (count (has_key id) s.exhausted ≡ 0))
        ⊎ ((kind : AuthMethod) × (removed_kind s id ≡ some kind)
            × (1 ≤ count (has_id id) s.valid + count (has_key id) s.exhausted))
  unfolding removed_kind
  removed_kind-cases s id = elim (Option-cases (find (has_id id) s.valid)) [
    | inr (c, e) ↦ inr (c.auth_method, rw e, omega (arith, count_of_find id s.valid c e))
    | inl e ↦ elim (Option-cases (get id s.exhausted)) [
      | inr (c, g) ↦
          inr (c.auth_method, rw (e, g), omega (arith, count_pos_of_get id s.exhausted c g))
      | inl g ↦ inl (rw (e, g), none_of_find id s.valid e, (count-get id s.exhausted).0 g)
    ]
  ]

  pub converge_invalidate-Conserves :
      (moka : Moka C) (s : PoolState C) (id : ℕ) (reason : Reason)
      → IsWellFormed s
      → Conserves s (converge_invalidate moka s id reason)
  unfolding converge_invalidate emit_accounts_refresh
  converge_invalidate-Conserves moka s id reason w =
      Conserves-of_places s _ w (remove-AreKeyed id s.exhausted w.keyed) (λ j.
        elim (removed_kind-cases s id) [
          | inl (e, v, x) ↦
              rw (e, count-retain_others id j s.valid)
                (ground (arith, v, x, count-remove id j s.exhausted, ==_iff id j))
          | inr (kind, e, pos) ↦
              rw (e, count-retain_others id j s.valid)
                (ground (
                  arith,
                  pos,
                  w.distinct id,
                  count-remove id j s.exhausted,
                  count-insert id j
                      (record { account_id = id; auth_method = kind; reason = reason }) s.invalid,
                  ==_iff id j,
                ))
        ])

  pub update_slot_credential-Conserves :
      (s : PoolState C) (id : ℕ) (t : Option TokenInfo)
      → IsWellFormed s
      → Conserves s (update_slot_credential s id t)
  unfolding update_slot_credential
  update_slot_credential-Conserves s id t w =
      Conserves-of_places s _ w (modify-AreKeyed t id s.exhausted w.keyed)
        (λ j. rw (count-map_own t id j s.valid, count-modify (with_token t) id j s.exhausted))
