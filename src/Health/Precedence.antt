-- ===== src/Health/Precedence.antt =====
-- src/services/account_health.rs: which of the pool and the database has the last word on an account.
use clewdr_hub.Common.{◌≡◌, refl, true, false, Option, none, some, ◌⊎◌, inl, inr, Bool-cases, ℤ}
use text.Mathlib.Text.{◌==◌ as str_eq}
use clewdr_hub.Config.Reason.{Reason}
use clewdr_hub.Config.Row.{AccountWithRuntime}
use clewdr_hub.Health.{
  InvalidKind, auth_error, disabled_account, invalid, PoolBucket, in_valid, in_exhausted,
  in_invalid, PoolAccountView, is_in_invalid, parse_db_invalid_reason, infer_invalid_kind,
  compose_terminal_from_db, compose_from_pool_or_db, health_state, compose_health,
}

is_in_invalid-cases :
    (b : Option PoolBucket)
    → (is_in_invalid b ≡ false) ⊎ ((reason : Reason) × (b ≡ some (in_invalid reason)))
is_in_invalid-cases none = inl refl
is_in_invalid-cases (some in_valid) = inl refl
is_in_invalid-cases (some (in_exhausted t)) = inl refl
is_in_invalid-cases (some (in_invalid reason)) = inr (reason, refl)

-- The account is out, and its last failure is shown.
abbrev pub IsOut : ℤ → AccountWithRuntime → PoolAccountView → ℤ → Type 0
IsOut clock account view now =
    (kind : InvalidKind) × (reason : Option Reason) × ((compose_health clock account view now).state
      ≡ invalid kind reason)
    × ((compose_health clock account view now).last_failure ≡ account.last_failure)

terminal_of_status :
    (account : AccountWithRuntime)
    → (str_eq account.status "auth_error" ≡ true) ⊎ (str_eq account.status "disabled" ≡ true)
    → (kind : InvalidKind) × (reason : Option Reason) × (compose_terminal_from_db account
        ≡ some (invalid kind reason))
unfolding compose_terminal_from_db
terminal_of_status account (inl e) = (auth_error, parse_db_invalid_reason account, rw e refl)
terminal_of_status account (inr e) = elim (Bool-cases (str_eq account.status "auth_error")) [
  | inl q ↦ (auth_error, parse_db_invalid_reason account, rw q refl)
  | inr q ↦ (disabled_account, parse_db_invalid_reason account, rw (q, e) refl)
]

module _ (clock : ℤ) (account : AccountWithRuntime) (view : PoolAccountView) (now : ℤ) where
  -- An account that the pool has as invalid is shown as invalid for the pool's reason, with its last failure,
  -- whatever the database says.
  pub compose_health-in_invalid :
      (reason : Reason)
      → view.bucket ≡ some (in_invalid reason)
      → ((compose_health clock account view now).state
          ≡ invalid (infer_invalid_kind account reason) (some reason))
        × ((compose_health clock account view now).last_failure ≡ account.last_failure)
  unfolding compose_health health_state compose_from_pool_or_db
  compose_health-in_invalid reason e = (rw e refl, rw e refl)

  -- An account whose row says `auth_error` or `disabled` is shown as invalid, with its last failure, in
  -- whatever bucket the pool has it, unless the pool is about to reactivate it.
  pub compose_health-IsOut :
      (str_eq account.status "auth_error" ≡ true) ⊎ (str_eq account.status "disabled" ≡ true)
      → view.reactivated ≡ false
      → IsOut clock account view now
  unfolding compose_health health_state
  compose_health-IsOut status stays = elim (is_in_invalid-cases view.bucket) [
    | inr (reason, e) ↦ (
      infer_invalid_kind account reason,
      some reason,
      (compose_health-in_invalid reason e).0,
      (compose_health-in_invalid reason e).1,
    )
    | inl e ↦
        let (kind, reason, t) = terminal_of_status account status in
        (kind, reason, rw (e, stays, t) refl, rw (e, stays, t) refl)
  ]
