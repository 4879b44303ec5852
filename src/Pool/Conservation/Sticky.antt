-- ===== src/Pool/Conservation/Sticky.antt =====
-- src/services/account_pool/fingerprint.rs and actor.rs: an account that was found banned, free, disabled or null
-- stays so until the database is read again.
use clewdr_hub.Common.{
  ℕ, ◌≡◌, ◌≢◌, refl, ◌∙◌, true, false, Option, none, some, arith, Bool-cases, Option-cases, inl,
  inr, ◌==◌, ==_iff, get, get-remove, get-insert, contains, not_both,
}
use clewdr_hub.Config.Reason.{Reason, free, disabled, banned, null, restricted, too_many_request}
use clewdr_hub.Config.Slot.{AccountSlot}
use clewdr_hub.Config.Runtime.{RuntimeStateParams}
use clewdr_hub.Pool.State.{PoolState}
use clewdr_hub.Pool.Fingerprint.{CredentialFingerprint, pool_slot, pool_credential_fingerprint}
use clewdr_hub.Pool.Collect.{
  RuntimeMergeMode, merge_runtime, take_valid, take_slot, place, rebucket, same_credential,
  sticky_entry, without_probe, collect_by_id,
}
use clewdr_hub.Pool.Conservation.Collect.{same_credential-ne-none}

module _ {C : Type 0} (id other : ℕ) (differs : (other == id) ≡ false) where
  -- Putting a slot into its bucket says nothing of another account.
  place-invalid :
      (t : PoolState C) (reason : Option Reason) (slot : AccountSlot)
      → get id (place t other reason slot).invalid ≡ get id t.invalid
  unfolding place
  place-invalid t none slot = ground arith
  place-invalid t (some (too_many_request until)) slot = refl
  place-invalid t (some (restricted until)) slot = refl
  place-invalid t (some free) slot = get-insert other id _ t.invalid ∙ rw differs
  place-invalid t (some disabled) slot = get-insert other id _ t.invalid ∙ rw differs
  place-invalid t (some banned) slot = get-insert other id _ t.invalid ∙ rw differs
  place-invalid t (some null) slot = get-insert other id _ t.invalid ∙ rw differs

  rebucket-invalid :
      (s : PoolState C) (update : RuntimeStateParams) (reason : Option Reason)
      (mode : RuntimeMergeMode)
      → get id (rebucket s other update reason mode).invalid ≡ get id s.invalid
  unfolding rebucket take_slot
  rebucket-invalid s update reason mode = elim (Option-cases (take_valid s other)) [
    | inr ((slot, others), e) ↦
        rw (e, rebucket, take_slot)
          (place-invalid _ reason (merge_runtime mode update slot)
            ∙ get-remove other id s.invalid
            ∙ rw differs)
    | inl e ↦ elim (Option-cases (get other s.exhausted)) [
      | inr (slot, g) ↦
          rw (e, g, rebucket, take_slot)
            (place-invalid _ reason (merge_runtime mode update slot)
              ∙ get-remove other id s.invalid
              ∙ rw differs)
      | inl g ↦ rw (e, g, rebucket, take_slot) refl
    ]
  ]

module _ {C : Type 0} where
  -- A returning request clears no sticky reason: whatever account it brings back, it is handled to its end,
  -- unless cutting that account's credential panics, and an account whose entry in `invalid` is free, disabled,
  -- banned or null has the same entry afterwards.
  pub collect_by_id-KeepsSticky :
      (s : PoolState C) (id other : ℕ) (update : RuntimeStateParams) (reason : Option Reason)
      (expected : Option CredentialFingerprint) (mode : RuntimeMergeMode)
      → sticky_entry (get id s.invalid) ≡ true
      → pool_credential_fingerprint s other ≢ none
      → (t : PoolState C) × (collect_by_id s other update reason expected mode
          ≡ some (t, contains other s.probing))
        × (get id t.invalid ≡ get id s.invalid)
  unfolding collect_by_id pool_credential_fingerprint pool_slot
  collect_by_id-KeepsSticky s id other update reason expected mode sticky cut =
      elim (Bool-cases (sticky_entry (get other s.invalid))) [
        | inl e ↦ (without_probe s other, rw (e, collect_by_id), refl)
        | inr e ↦ elim (Option-cases (same_credential (without_probe s other) other expected)) [
          | inl p ↦ absurd (same_credential-ne-none (without_probe s other) other expected cut p)
          | inr (true, p) ↦ (
            rebucket (without_probe s other) other update reason mode,
            rw (e, collect_by_id, p),
            rebucket-invalid id other (differ e) (without_probe s other) update reason mode,
          )
          | inr (false, p) ↦ (without_probe s other, rw (e, collect_by_id, p), refl)
        ]
      ]
    where
      differ : sticky_entry (get other s.invalid) ≡ false → (other == id) ≡ false
      differ e = elim (Bool-cases (other == id)) [
        | inl q ↦
            let same : sticky_entry (get other s.invalid) ≡ true =
              rw ((==_iff other id).0 q) sticky in
            absurd (not_both _ same e)
        | inr q ↦ q
      ]
