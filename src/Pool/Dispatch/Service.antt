-- ===== src/Pool/Dispatch/Service.antt =====
-- src/services/account_pool/dispatch.rs: what a caller can rely on.
use clewdr_hub.Common.{
  ℕ, ◌<◌, ◌≤◌, ◌≡◌, refl, ap, ◌∙◌, sym, ◌⊎◌, inl, inr, ◌↔◌, Bool, true, false, ◌||◌, Option, some,
  List, [], ◌∷◌, arith, Bool-cases, Option-cases, not_both, or_true, ◌==◌, ==_iff, any, At,
  any_of_At, At-of_any, get, if◌then◌else◌, contains, ℤ,
}
use clewdr_hub.Config.Slot.{AccountSlot}
use clewdr_hub.Pool.State.{
  Moka, PoolState, PoolError, upstream_cooling_down, no_valid_upstream_accounts, values,
}
use clewdr_hub.Pool.Reset.{reset}
use clewdr_hub.Pool.Reset.Laws.{reset-inflight}
use clewdr_hub.Pool.Dispatch.{
  served, refused, u32_mod, is_usable, is_drain_first, usable_drain, is_relevant,
  dispatch_empty_error, cache_key, dispatch,
}
use clewdr_hub.Pool.Dispatch.Choice.{
  MayServe, HasRoom, Counted, lt_of_HasRoom, is_usable_of_MayServe, Served, Answers, serves,
  refuses, dispatch_from-Answers,
}

-- The key of the request may use the account of the slot.
abbrev pub InBound : List ℕ → AccountSlot → Type 0
InBound bound c = (bound ≡ []) ⊎ ((id : ℕ) × (c.account_id ≡ some id) × (contains id bound ≡ true))

-- Some account of the key's is in rotation or cooling down.
abbrev pub SomeInBound : {C : Type 0} → PoolState C → List ℕ → Type 0
SomeInBound s bound =
    (c : AccountSlot) × (At s.valid c ⊎ At (values s.exhausted) c) × InBound bound c

InBound-of_is_relevant :
    (bound : List ℕ) (c : AccountSlot) → is_relevant bound c ≡ true → InBound bound c
unfolding is_relevant
InBound-of_is_relevant [] c h = inl refl
InBound-of_is_relevant (b ∷ bs) c h = elim (Option-cases c.account_id) [
  | inl e ↦ cc (rw (e, is_relevant) at h)
  | inr (id, e) ↦ inr (id, e, rw (e, is_relevant) at h)
]

is_relevant_of_InBound :
    (bound : List ℕ) (c : AccountSlot) → InBound bound c → is_relevant bound c ≡ true
unfolding is_relevant
is_relevant_of_InBound [] c h = refl
is_relevant_of_InBound (b ∷ bs) c (inl e) = cc
is_relevant_of_InBound (b ∷ bs) c (inr (id, e, h)) = rw (e, h)

module _ {C : Type 0} (s : PoolState C) (bound : List ℕ) where
  SomeInBound-of_any :
      (any (is_relevant bound) s.valid || any (is_relevant bound) (values s.exhausted)) ≡ true
      → SomeInBound s bound
  SomeInBound-of_any h = elim (Bool-cases (any (is_relevant bound) s.valid)) [
    | inl e ↦
        let (c, at, r) = At-of_any _ s.valid e in (c, inl at, InBound-of_is_relevant bound c r)
    | inr e ↦
        let (c, at, r) = At-of_any _ (values s.exhausted) (rw e at h) in
        (c, inr at, InBound-of_is_relevant bound c r)
  ]

  any_of_SomeInBound :
      SomeInBound s bound
      → (any (is_relevant bound) s.valid || any (is_relevant bound) (values s.exhausted)) ≡ true
  any_of_SomeInBound (c, inl at, b) = rw (any_of_At _ s.valid at (is_relevant_of_InBound bound c b))
  any_of_SomeInBound (c, inr at, b) =
      rw (any_of_At _ (values s.exhausted) at (is_relevant_of_InBound bound c b)) (or_true _)

  -- The error of a request that nobody serves.
  pub dispatch_empty_error_iff :
      (dispatch_empty_error s bound ≡ upstream_cooling_down) ↔ SomeInBound s bound
  unfolding dispatch_empty_error
  dispatch_empty_error_iff = (λ e. SomeInBound-of_any (cooling _ e), λ h. rw (any_of_SomeInBound h))
    where
      cooling :
          (b : Bool)
          → (if b then upstream_cooling_down else no_valid_upstream_accounts)
            ≡ upstream_cooling_down
          → b ≡ true
      cooling true e = refl
      cooling false e = cc

error_ext :
    {Q : Type 0} (e f : PoolError)
    → ((e ≡ upstream_cooling_down) ↔ Q)
    → ((f ≡ upstream_cooling_down) ↔ Q)
    → e ≡ f
error_ext upstream_cooling_down f h k = sym (k.1 (h.0 refl))
error_ext no_valid_upstream_accounts upstream_cooling_down h k = h.1 (k.0 refl)
error_ext no_valid_upstream_accounts no_valid_upstream_accounts h k = refl

nobody :
    {C : Type 0} (s : PoolState C) (bound : List ℕ)
    → any (is_usable bound s.inflight) s.valid ≡ false
    → (c : AccountSlot) → At s.valid c
    → ¬ MayServe bound s.inflight c
nobody s bound h c at may =
    not_both _ (any_of_At _ s.valid at (is_usable_of_MayServe bound s.inflight c may)) h

module _ {C : Type 0} (moka : Moka C) (hasher : ℕ → List ℕ → ℕ) (now : ℤ) (s : PoolState C)
    (hash : Option ℕ) (bound : List ℕ) where
  pub dispatch-Answers : Answers bound (reset now s) (dispatch moka hasher now s hash bound)
  unfolding dispatch
  dispatch-Answers = dispatch_from-Answers moka bound (reset now s) (cache_key hasher hash bound)

  -- Whenever some account in rotation may serve the request (a bound account with a free slot), the request
  -- is served: the chosen account may serve too, is one that is to be drained first if any such one may
  -- serve, takes one more request, and goes to the end of the rotation, which has the same accounts.
  pub dispatch-Served :
      (c : AccountSlot)
      → At (reset now s).valid c
      → MayServe bound (reset now s).inflight c
      → (d : AccountSlot) × ((dispatch moka hasher now s hash bound).1 ≡ served d)
        × Served bound (reset now s) (dispatch moka hasher now s hash bound).0 d
  dispatch-Served c at may = go dispatch-Answers
    where
      go :
          Answers bound (reset now s) (dispatch moka hasher now s hash bound)
          → (d : AccountSlot) × ((dispatch moka hasher now s hash bound).1 ≡ served d)
            × Served bound (reset now s) (dispatch moka hasher now s hash bound).0 d
      go (serves d e k) = (d, e, k)
      go (refuses h e k) = absurd (nobody (reset now s) bound h c at may)

  -- A request is refused exactly when no account in rotation may serve it and the answer is the right one of the
  -- two: "cooling down" exactly when some account of the key's is in rotation or cooling down.
  pub dispatch-refused_iff :
      (e : PoolError)
      → ((dispatch moka hasher now s hash bound).1 ≡ refused e) ↔ (
          ((c : AccountSlot) → At (reset now s).valid c → ¬ MayServe bound (reset now s).inflight c)
          × ((e ≡ upstream_cooling_down) ↔ SomeInBound (reset now s) bound))
  dispatch-refused_iff e = (refused_why dispatch-Answers, refused_when dispatch-Answers)
    where
      refused_why :
          Answers bound (reset now s) (dispatch moka hasher now s hash bound)
          → (dispatch moka hasher now s hash bound).1 ≡ refused e
          → ((c : AccountSlot)
              → At (reset now s).valid c
              → ¬ MayServe bound (reset now s).inflight c)
            × ((e ≡ upstream_cooling_down) ↔ SomeInBound (reset now s) bound)
      refused_why (serves d f k) eq = cc
      refused_why (refuses h f k) eq =
          let same : dispatch_empty_error (reset now s) bound ≡ e = cc in
          (nobody (reset now s) bound h, rw (← same) (dispatch_empty_error_iff (reset now s) bound))

      refused_when :
          Answers bound (reset now s) (dispatch moka hasher now s hash bound)
          → ((c : AccountSlot)
              → At (reset now s).valid c
              → ¬ MayServe bound (reset now s).inflight c)
            × ((e ≡ upstream_cooling_down) ↔ SomeInBound (reset now s) bound)
          → (dispatch moka hasher now s hash bound).1 ≡ refused e
      refused_when (serves d f k) (none_left, why) = absurd (none_left d k.member k.may)
      refused_when (refuses h f k) (none_left, why) =
          f ∙ ap refused (error_ext _ e (dispatch_empty_error_iff (reset now s) bound) why)

  -- If any account that is to be drained first may serve, then so is the one that serves.
  pub dispatch-drain_first :
      (c d : AccountSlot)
      → At (reset now s).valid c
      → MayServe bound (reset now s).inflight c
      → is_drain_first (reset now s).drain_first_ids c ≡ true
      → (dispatch moka hasher now s hash bound).1 ≡ served d
      → is_drain_first (reset now s).drain_first_ids d ≡ true
  dispatch-drain_first c d at may first eq = go dispatch-Answers
    where
      some_drain :
          any
            (usable_drain bound (reset now s).inflight (reset now s).drain_first_ids)
            (reset now s).valid
          ≡ true
      some_drain =
          any_of_At _ (reset now s).valid at
            (rw (is_usable_of_MayServe bound (reset now s).inflight c may, first))

      go :
          Answers bound (reset now s) (dispatch moka hasher now s hash bound)
          → is_drain_first (reset now s).drain_first_ids d ≡ true
      go (serves c' f k) = let same : c' ≡ d = cc in rw (← same) (k.drain some_drain)
      go (refuses h f k) = cc

-- The counters of the requests in flight never pass their limits, and these are `u32` values.
abbrev pub WithinLimits : List (ℕ × (ℕ × ℕ)) → Type 0
WithinLimits inflight =
    (id cur max : ℕ) → get id inflight ≡ some (cur, max) → (cur ≤ max) × (max < u32_mod)

Counted-WithinLimits :
    (id : ℕ) (bound : List ℕ) (before after : List (ℕ × (ℕ × ℕ)))
    → HasRoom before id
    → Counted id before after
    → WithinLimits before
    → WithinLimits after
Counted-WithinLimits id bound before after room (present, absent) h j cur max e =
    elim (Option-cases (get j before)) [
      | inl gone ↦ cc (absent j gone)
      | inr ((cur', max'), was) ↦
          let (le, lim) = h j cur' max' was in
          let at : (id == j) ≡ true → cur' < max' =
            λ same. lt_of_HasRoom before id cur' max' room (rw ((==_iff id j).0 same) was) in
          ground (arith, present j cur' max' was lim)
    ]

-- Over a whole dispatch, served or refused, no counter passes its limit or wraps around.
pub dispatch-WithinLimits :
    {C : Type 0} (moka : Moka C) (hasher : ℕ → List ℕ → ℕ) (now : ℤ) (s : PoolState C)
    (hash : Option ℕ) (bound : List ℕ)
    → WithinLimits s.inflight
    → WithinLimits (dispatch moka hasher now s hash bound).0.inflight
dispatch-WithinLimits moka hasher now s hash bound h =
    go (dispatch-Answers moka hasher now s hash bound)
  where
    before : WithinLimits (reset now s).inflight
    before = rw (reset-inflight now s) h

    go :
        Answers bound (reset now s) (dispatch moka hasher now s hash bound)
        → WithinLimits (dispatch moka hasher now s hash bound).0.inflight
    go (serves c e k) = Counted-WithinLimits k.may.id bound _ _ k.may.room k.counted before
    go (refuses e f k) = rw k before
