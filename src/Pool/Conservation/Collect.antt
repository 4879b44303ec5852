-- ===== src/Pool/Conservation/Collect.antt =====
-- src/services/account_pool/fingerprint.rs: a returning request moves its account from bucket to bucket.
use clewdr_hub.Common.{
  ℕ, ◌+◌, ◌≡◌, ◌≢◌, refl, ◌∙◌, true, false, Option, none, some, List, [], ◌∷◌, ◌++◌, arith,
  if◌then◌else◌, is_some, Bool-cases, contains, Option-cases, ◌⊎◌, inl, inr, ◌==◌, ==_iff, ==-refl,
  count, count_of_any, count_pos_of_get, count-append, count-remove_at, position-cases, remove_at,
  get, insert, remove, count-remove, count-insert,
}
use clewdr_hub.Config.Reason.{
  InvalidAccountSlot, Reason, free, disabled, banned, null, restricted, too_many_request,
}
use clewdr_hub.Config.Slot.{AccountSlot, has_id, reset_window_usage}
use clewdr_hub.Config.Runtime.{
  RuntimeStateParams, apply_runtime_state, apply_oauth_snapshot_runtime,
}
use clewdr_hub.Pool.State.{PoolState}
use clewdr_hub.Pool.Fingerprint.{CredentialFingerprint, pool_slot, pool_credential_fingerprint}
use clewdr_hub.Pool.Collect.{
  RuntimeMergeMode, full, oauth_snapshot, merge_runtime, take_valid, take_slot, place, rebucket,
  same_credential, sticky_entry, without_probe, collect_by_id,
}
use clewdr_hub.Pool.Conservation.{places, AreKeyed, IsWellFormed, Conserves, Conserves-of_places}

AreKeyed-remove : (id : ℕ) (m : List (ℕ × AccountSlot)) → AreKeyed m → AreKeyed (remove id m)
unfolding remove
AreKeyed-remove id [] h = tt
AreKeyed-remove id ((k, c) ∷ m) h = ground (arith, AreKeyed-remove id m h.1)

AreKeyed-insert :
    (id : ℕ) (c : AccountSlot) (m : List (ℕ × AccountSlot))
    → c.account_id ≡ some id
    → AreKeyed m
    → AreKeyed (insert id c m)
unfolding insert
AreKeyed-insert id c m e h = (e, AreKeyed-remove id m h)

account_id_of_get :
    (id : ℕ) (m : List (ℕ × AccountSlot)) (c : AccountSlot)
    → AreKeyed m
    → get id m ≡ some c
    → c.account_id ≡ some id
unfolding get
account_id_of_get id [] c h e = cc
account_id_of_get id ((k, d) ∷ m) c h e = ground (arith, account_id_of_get id m c h.1)

account_id_of_has_id : (id : ℕ) (c : AccountSlot) → has_id id c ≡ true → c.account_id ≡ some id
account_id_of_has_id id c h = ground arith

merge_runtime-account_id :
    (mode : RuntimeMergeMode) (p : RuntimeStateParams) (c : AccountSlot)
    → (merge_runtime mode p c).account_id ≡ c.account_id
unfolding merge_runtime apply_runtime_state apply_oauth_snapshot_runtime
merge_runtime-account_id full p c = refl
merge_runtime-account_id oauth_snapshot p c = refl

reset_window_usage-account_id : (c : AccountSlot) → (reset_window_usage c).account_id ≡ c.account_id
unfolding reset_window_usage
reset_window_usage-account_id c = refl

has_id_self : (id : ℕ) (c : AccountSlot) → c.account_id ≡ some id → (j : ℕ) → has_id j c ≡ (id == j)
has_id_self id c e j = rw e

module _ {C : Type 0} where
  -- The slot has been taken out: the account has no place left, and the others have theirs.
  record Taken (s : PoolState C) (id : ℕ) (slot : AccountSlot) (t : PoolState C) : Type 0 where
    own : slot.account_id ≡ some id
    keyed : AreKeyed t.exhausted
    was : places id s ≡ 1
    left : (j : ℕ) → places j t ≡ (if id == j then 0 else places j s)

  valid-Taken :
      (s : PoolState C) (id i : ℕ) (slot : AccountSlot) (others : List AccountSlot)
      → IsWellFormed s
      → remove_at s.valid i ≡ some (slot, others)
      → slot.account_id ≡ some id
      → Taken s id slot (record s {
        valid = others;
        exhausted = remove id s.exhausted;
        invalid = remove id s.invalid;
      })
  valid-Taken s id i slot others w removed own = record {
    own = own;
    keyed = AreKeyed-remove id s.exhausted w.keyed;
    was = ground (arith, counts id, w.distinct id, ==-refl id);
    left = λ j.
        ground (
          arith,
          counts j,
          count-remove id j s.exhausted,
          count-remove id j s.invalid,
          w.distinct j,
        );
  }
    where
      counts :
          (j : ℕ) → count (has_id j) s.valid ≡ (if id == j then 1 else 0) + count (has_id j) others
      counts j = count-remove_at (has_id j) s.valid i removed ∙ rw own

  exhausted-Taken :
      (s : PoolState C) (id : ℕ) (slot : AccountSlot)
      → IsWellFormed s
      → count (has_id id) s.valid ≡ 0
      → get id s.exhausted ≡ some slot
      → Taken s id slot
          (record s { exhausted = remove id s.exhausted; invalid = remove id s.invalid })
  exhausted-Taken s id slot w none_valid e = record {
    own = account_id_of_get id s.exhausted slot w.keyed e;
    keyed = AreKeyed-remove id s.exhausted w.keyed;
    was = omega (arith, w.distinct id, count_pos_of_get id s.exhausted slot e);
    left = λ j.
        ground (arith, count-remove id j s.exhausted, count-remove id j s.invalid, ==_iff id j);
  }

  take_slot-Taken :
      (s : PoolState C) (id : ℕ)
      → IsWellFormed s
      → (take_slot s id ≡ none)
        ⊎ ((slot : AccountSlot) × (t : PoolState C) × (take_slot s id ≡ some (slot, t))
            × Taken s id slot t)
  unfolding take_slot take_valid
  take_slot-Taken s id w = elim (position-cases (has_id id) s.valid) [
    | inr (i, found, _, k) ↦ inr (
      k.chosen,
      record s {
        valid = k.others;
        exhausted = remove id s.exhausted;
        invalid = remove id s.invalid;
      },
      rw (found, take_slot, k.removed),
      valid-Taken s id i k.chosen k.others w k.removed (account_id_of_has_id id k.chosen k.passes),
    )
    | inl (gone, nobody) ↦ elim (Option-cases (get id s.exhausted)) [
      | inl e ↦ inl (rw (gone, take_slot, e))
      | inr (c, e) ↦ inr (
        c,
        record s { exhausted = remove id s.exhausted; invalid = remove id s.invalid },
        rw (gone, take_slot, e),
        exhausted-Taken s id c w (count_of_any (has_id id) s.valid nobody) e,
      )
    ]
  ]

  module _ (t : PoolState C) (id : ℕ) (zero : places id t ≡ 0) where
    pub exhausted-places :
        (c : AccountSlot) (j : ℕ)
        → places j (record t { exhausted = insert id c t.exhausted })
          ≡ (if id == j then 1 else places j t)
    exhausted-places c j = ground (arith, count-insert id j c t.exhausted, ==_iff id j)

    pub invalid-places :
        (entry : InvalidAccountSlot) (j : ℕ)
        → places j (record t { invalid = insert id entry t.invalid })
          ≡ (if id == j then 1 else places j t)
    invalid-places entry j = ground (arith, count-insert id j entry t.invalid, ==_iff id j)

    valid-places :
        (c : AccountSlot) (j : ℕ)
        → c.account_id ≡ some id
        → places j (record t { valid = t.valid ++ c ∷ [] }) ≡ (if id == j then 1 else places j t)
    valid-places c j own =
        rw (count-append (has_id j) t.valid (c ∷ []))
          (unfold count in rw own (ground (arith, ==_iff id j)))

    -- Putting the slot into a bucket gives its account one place.
    pub place-places :
        (reason : Option Reason) (slot : AccountSlot)
        → slot.account_id ≡ some id
        → (j : ℕ) → places j (place t id reason slot) ≡ (if id == j then 1 else places j t)
    unfolding place
    place-places none slot own j = elim (Bool-cases (is_some slot.reset_time)) [
      | inl e ↦ rw e (exhausted-places slot j)
      | inr e ↦ rw e (valid-places slot j own)
    ]
    place-places (some (too_many_request until)) slot own j = exhausted-places _ j
    place-places (some (restricted until)) slot own j = exhausted-places _ j
    place-places (some free) slot own j = invalid-places _ j
    place-places (some disabled) slot own j = invalid-places _ j
    place-places (some banned) slot own j = invalid-places _ j
    place-places (some null) slot own j = invalid-places _ j

  pub place-AreKeyed :
      (t : PoolState C) (id : ℕ) (reason : Option Reason) (slot : AccountSlot)
      → slot.account_id ≡ some id
      → AreKeyed t.exhausted
      → AreKeyed (place t id reason slot).exhausted
  unfolding place reset_window_usage
  place-AreKeyed t id none slot own h = elim (Bool-cases (is_some slot.reset_time)) [
    | inl e ↦ rw e (AreKeyed-insert id slot t.exhausted own h)
    | inr e ↦ rw e h
  ]
  place-AreKeyed t id (some (too_many_request until)) slot own h =
      AreKeyed-insert id _ t.exhausted own h
  place-AreKeyed t id (some (restricted until)) slot own h = AreKeyed-insert id _ t.exhausted own h
  place-AreKeyed t id (some free) slot own h = h
  place-AreKeyed t id (some disabled) slot own h = h
  place-AreKeyed t id (some banned) slot own h = h
  place-AreKeyed t id (some null) slot own h = h

  rebucket-Conserves :
      (s : PoolState C) (id : ℕ) (update : RuntimeStateParams) (reason : Option Reason)
      (mode : RuntimeMergeMode)
      → IsWellFormed s
      → Conserves s (rebucket s id update reason mode)
  unfolding rebucket
  rebucket-Conserves s id update reason mode w = elim (take_slot-Taken s id w) [
    | inl e ↦ rw (e, rebucket) (Conserves-of_places s s w w.keyed (λ j. refl))
    | inr (slot, t, e, k) ↦
        rw (e, rebucket)
          (Conserves-of_places s _ w
            (place-AreKeyed t id reason (merge_runtime mode update slot)
              (merge_runtime-account_id mode update slot ∙ k.own) k.keyed)
            (λ j.
              place-places t id (k.left id ∙ rw (==-refl id)) reason
                (merge_runtime mode update slot) (merge_runtime-account_id mode update slot ∙ k.own)
                j
              ∙ regained slot t k j))
  ]
    where
      regained :
          (slot : AccountSlot) (t : PoolState C)
          → Taken s id slot t
          → (j : ℕ) → (if id == j then 1 else places j t) ≡ places j s
      regained slot t k j = ground (arith, k.left j, k.was, ==_iff id j)

  without_probe-Conserves :
      (s : PoolState C) (id : ℕ) → IsWellFormed s → Conserves s (without_probe s id)
  without_probe-Conserves s id w = Conserves-of_places s _ w w.keyed (λ j. refl)

  pub same_credential-ne-none :
      (s : PoolState C) (id : ℕ) (expected : Option CredentialFingerprint)
      → pool_credential_fingerprint s id ≢ none
      → same_credential s id expected ≢ none
  unfolding same_credential
  same_credential-ne-none s id none cut e = cc
  same_credential-ne-none s id (some f) cut e =
      elim (Option-cases (pool_credential_fingerprint s id)) [
        | inl gone ↦ cut gone
        | inr (actual, found) ↦ cc (rw (found, same_credential) at e)
      ]

  -- A returning request is handled to its end, unless cutting its account's credential panics, and leaves the pool
  -- well-formed, with every account in as many places as before.
  pub collect_by_id-Conserves :
      (s : PoolState C) (id : ℕ) (update : RuntimeStateParams) (reason : Option Reason)
      (expected : Option CredentialFingerprint) (mode : RuntimeMergeMode)
      → IsWellFormed s
      → pool_credential_fingerprint s id ≢ none
      → (t : PoolState C) × (collect_by_id s id update reason expected mode
          ≡ some (t, contains id s.probing))
        × Conserves s t
  unfolding collect_by_id pool_credential_fingerprint pool_slot
  collect_by_id-Conserves s id update reason expected mode w cut =
      elim (Bool-cases (sticky_entry (get id s.invalid))) [
        | inl e ↦ (without_probe s id, rw (e, collect_by_id), without_probe-Conserves s id w)
        | inr e ↦ elim (Option-cases (same_credential (without_probe s id) id expected)) [
          | inl p ↦ absurd (same_credential-ne-none (without_probe s id) id expected cut p)
          | inr (true, p) ↦
              (rebucket (without_probe s id) id update reason mode, rw (e, collect_by_id, p), moved)
          | inr (false, p) ↦
              (without_probe s id, rw (e, collect_by_id, p), without_probe-Conserves s id w)
        ]
      ]
    where
      moved : Conserves s (rebucket (without_probe s id) id update reason mode)
      moved =
          let c =
            rebucket-Conserves (without_probe s id) id update reason mode
              (without_probe-Conserves s id w).wellformed in
          record { wellformed = c.wellformed; places_same = c.places_same }
