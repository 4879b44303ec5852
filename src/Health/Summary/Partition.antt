-- ===== src/Health/Summary/Partition.antt =====
-- src/services/account_health.rs: the counts of the summary agree with each other.
use clewdr_hub.Common.{
  ℕ, ◌+◌, ◌≡◌, refl, ◌∙◌, Bool, true, false, Option, none, some, List, [], ◌∷◌, arith, Bool-cases,
  inl, inr, ◌==◌, ==_iff, ==-refl, ◌⊎◌, length, count, get, insert, remove, get-insert, ℤ,
}
use clewdr_hub.Pool.State.{values}
use clewdr_hub.Pool.Actor.{PoolSnapshotView}
use clewdr_hub.Config.Row.{AccountWithRuntime, AreDistinct}
use clewdr_hub.Health.{
  auth_error, disabled_account, AccountHealthState, active, unconfigured, cooling_down, invalid,
  AccountHealth, compose_health, account_view,
}
use clewdr_hub.Health.Summary.{
  no_detail, no_invalid, no_sources, no_accounts, PoolCounts, HealthDetail, InvalidBreakdown,
  AuthSourceCounts, count_state, count_reason, count_source, count_probing, summarize_from,
  count_pool, pool_counts_from, per_account_from, summarize, compose_health_snapshot,
}

abbrev is_active : AccountHealthState → ℕ
is_active active = 1
is_active _ = 0

abbrev is_cooling : AccountHealthState → ℕ
is_cooling (cooling_down t) = 1
is_cooling _ = 0

abbrev is_invalid : AccountHealthState → ℕ
is_invalid (invalid kind reason) = 1
is_invalid _ = 0

abbrev is_unconfigured : AccountHealthState → ℕ
is_unconfigured unconfigured = 1
is_unconfigured _ = 0

unfoldable total_of : (AccountHealthState → ℕ) → List AccountHealth → ℕ
total_of w [] = 0
total_of w (h ∷ hs) = w h.state + total_of w hs

-- A detail after as many more accounts of each kind.
abbrev Adds : HealthDetail → HealthDetail → ℕ → ℕ → ℕ → ℕ → Type 0
Adds d e a c i u =
    (e.dispatchable_now + e.saturated ≡ d.dispatchable_now + d.saturated + a)
    × (e.cooling_down_count ≡ d.cooling_down_count + c)
    × (e.invalid_auth + e.invalid_disabled ≡ d.invalid_auth + d.invalid_disabled + i)
    × (e.unconfigured_count ≡ d.unconfigured_count + u)

count_state-Adds :
    (inflight : Option (ℕ × ℕ)) (s : AccountHealthState) (p : Bool) (d : HealthDetail)
    → Adds d
        (count_state inflight s (count_probing p d))
        (is_active s)
        (is_cooling s)
        (is_invalid s)
        (is_unconfigured s)
unfolding count_state
count_state-Adds inflight active true d = ground arith
count_state-Adds inflight active false d = ground arith
count_state-Adds inflight (cooling_down t) true d = ground arith
count_state-Adds inflight (cooling_down t) false d = ground arith
count_state-Adds inflight (invalid auth_error r) true d = ground arith
count_state-Adds inflight (invalid auth_error r) false d = ground arith
count_state-Adds inflight (invalid disabled_account r) true d = ground arith
count_state-Adds inflight (invalid disabled_account r) false d = ground arith
count_state-Adds inflight unconfigured true d = ground arith
count_state-Adds inflight unconfigured false d = ground arith

Adds-trans :
    (d e f : HealthDetail) (a c i u b j k v : ℕ)
    → Adds d e a c i u
    → Adds e f b j k v
    → Adds d f (a + b) (c + j) (i + k) (u + v)
Adds-trans d e f a c i u b j k v h r = omega arith

abbrev AddsPool : PoolCounts → PoolCounts → ℕ → ℕ → ℕ → Type 0
AddsPool m n a c i =
    (n.valid ≡ m.valid + a)
    × (n.exhausted ≡ m.exhausted + c)
    × (n.invalid_count ≡ m.invalid_count + i)

count_pool-AddsPool :
    (s : AccountHealthState) (n : PoolCounts)
    → AddsPool n (count_pool s n) (is_active s) (is_cooling s) (is_invalid s)
unfolding count_pool
count_pool-AddsPool active n = omega arith
count_pool-AddsPool (cooling_down t) n = omega arith
count_pool-AddsPool (invalid k r) n = omega arith
count_pool-AddsPool unconfigured n = omega arith

pool_counts_from-AddsPool :
    (hs : List AccountHealth) (n : PoolCounts)
    → AddsPool n
        (pool_counts_from hs n)
        (total_of is_active hs)
        (total_of is_cooling hs)
        (total_of is_invalid hs)
unfolding pool_counts_from total_of
pool_counts_from-AddsPool [] n = omega arith
pool_counts_from-AddsPool (h ∷ hs) n =
    let rest = pool_counts_from-AddsPool hs (count_pool h.state n) in
    let step = count_pool-AddsPool h.state n in omega (arith, rest, step)

remove_absent : (k : ℕ) (m : List (ℕ × AccountHealth)) → get k m ≡ none → remove k m ≡ m
unfolding get remove
remove_absent k [] h = refl
remove_absent k ((j, v) ∷ m) h = elim (Bool-cases (j == k)) [
  | inl e ↦ cc (rw e at h)
  | inr e ↦ rw (e, remove_absent k m (rw e at h)) refl
]

module _ (clock : ℤ) (view : PoolSnapshotView) (now : ℤ) where
  abbrev health_of : AccountWithRuntime → AccountHealth
  health_of a = compose_health clock a (account_view view a.id) now

  unfoldable healths : List AccountWithRuntime → List AccountHealth
  healths [] = []
  healths (a ∷ accounts) = health_of a ∷ healths accounts

  -- What the map holds for an id that no later row has.
  per_account_from-others :
      (accounts : List AccountWithRuntime) (m : List (ℕ × AccountHealth)) (k : ℕ)
      → count (λ b. b.id == k) accounts ≡ 0
      → get k (per_account_from clock view now accounts m) ≡ get k m
  unfolding per_account_from count
  per_account_from-others [] m k h = refl
  per_account_from-others (a ∷ accounts) m k h = elim (Bool-cases (a.id == k)) [
    | inl e ↦ absurd (omega (arith, (rw e at h)))
    | inr e ↦
        per_account_from-others accounts (insert a.id (health_of a) m) k
          (omega (arith, (rw e at h)))
        ∙ get-insert a.id k (health_of a) m
        ∙ rw e
  ]

  -- No row of the list is in the map yet.
  abbrev AreNew : List (ℕ × AccountHealth) → List AccountWithRuntime → Type 0
  AreNew m accounts = (k : ℕ) → (get k m ≡ none) ⊎ (count (λ b. b.id == k) accounts ≡ 0)

  AreNew-absent :
      (a : AccountWithRuntime) (accounts : List AccountWithRuntime) (m : List (ℕ × AccountHealth))
      → AreNew m (a ∷ accounts)
      → get a.id m ≡ none
  unfolding count
  AreNew-absent a accounts m n = elim (n a.id) [
    | inl e ↦ e
    | inr e ↦ absurd (omega (arith, (rw (==-refl a.id) at e)))
  ]

  AreNew-insert :
      (a : AccountWithRuntime) (accounts : List AccountWithRuntime) (m : List (ℕ × AccountHealth))
      → AreDistinct (a ∷ accounts)
      → AreNew m (a ∷ accounts)
      → AreNew (insert a.id (health_of a) m) accounts
  unfolding count
  AreNew-insert a accounts m d n k = elim (n k) [
    | inr e ↦ inr (omega arith)
    | inl e ↦ elim (Bool-cases (a.id == k)) [
      | inl q ↦ inr (rw (← (==_iff a.id k).0 q) d.0)
      | inr q ↦ inl (get-insert a.id k (health_of a) m ∙ rw (q, e))
    ]
  ]

  total_of-insert :
      (w : AccountHealthState → ℕ) (a : AccountWithRuntime) (m : List (ℕ × AccountHealth))
      → get a.id m ≡ none
      → total_of w (values (insert a.id (health_of a) m))
        ≡ w (health_of a).state + total_of w (values m)
  unfolding insert total_of values
  total_of-insert w a m h = rw (remove_absent a.id m h) refl

  total_of-values :
      (w : AccountHealthState → ℕ) (accounts : List AccountWithRuntime)
      (m : List (ℕ × AccountHealth))
      → AreDistinct accounts
      → AreNew m accounts
      → total_of w (values (per_account_from clock view now accounts m))
        ≡ total_of w (values m) + total_of w (healths accounts)
  unfolding per_account_from total_of healths
  total_of-values w [] m d n = omega arith
  total_of-values w (a ∷ accounts) m d n =
      let rest =
        total_of-values w accounts (insert a.id (health_of a) m) d.1
          (AreNew-insert a accounts m d n) in
      let here = total_of-insert w a m (AreNew-absent a accounts m n) in omega (arith, rest, here)

  -- Every row has its health in the map.
  abbrev AreKnown : List (ℕ × AccountHealth) → List AccountWithRuntime → Type 0
  AreKnown per [] = Unit {0}
  AreKnown per (a ∷ accounts) = (get a.id per ≡ some (health_of a)) × AreKnown per accounts

  per_account_from-AreKnown :
      (accounts : List AccountWithRuntime) (m : List (ℕ × AccountHealth))
      → AreDistinct accounts
      → AreKnown (per_account_from clock view now accounts m) accounts
  unfolding per_account_from
  per_account_from-AreKnown [] m d = tt
  per_account_from-AreKnown (a ∷ accounts) m d = (
    per_account_from-others accounts (insert a.id (health_of a) m) a.id d.0
        ∙ get-insert a.id a.id (health_of a) m
        ∙ rw (==-refl a.id),
    per_account_from-AreKnown accounts (insert a.id (health_of a) m) d.1,
  )

  summarize_from-Adds :
      (per : List (ℕ × AccountHealth)) (inflight : List (ℕ × (ℕ × ℕ)))
      (accounts : List AccountWithRuntime) (d : HealthDetail) (b : InvalidBreakdown)
      (s : AuthSourceCounts)
      → AreKnown per accounts
      → Adds d
          (summarize_from per inflight accounts (d, b, s)).0
          (total_of is_active (healths accounts))
          (total_of is_cooling (healths accounts))
          (total_of is_invalid (healths accounts))
          (total_of is_unconfigured (healths accounts))
  unfolding summarize_from total_of healths
  summarize_from-Adds per inflight [] d b s h = omega arith
  summarize_from-Adds per inflight (a ∷ accounts) d b s h =
      let at_a = health_of a in
      let e = count_state (get a.id inflight) at_a.state (count_probing at_a.probing d) in
      rw (h.0, summarize_from)
        (Adds-trans d e
          (summarize_from per inflight accounts
            (e, count_reason at_a.state b, count_source a.auth_source s)).0
          _ _ _ _ _ _ _ _ (count_state-Adds (get a.id inflight) at_a.state at_a.probing d)
          (summarize_from-Adds per inflight accounts e (count_reason at_a.state b)
            (count_source a.auth_source s) h.1))

  one_state :
      (s : AccountHealthState) → is_active s + is_cooling s + is_invalid s + is_unconfigured s ≡ 1
  one_state active = refl
  one_state (cooling_down t) = refl
  one_state (invalid k r) = refl
  one_state unconfigured = refl

  length-total_of :
      (accounts : List AccountWithRuntime)
      → length accounts
        ≡ total_of is_active (healths accounts)
          + total_of is_cooling (healths accounts)
          + total_of is_invalid (healths accounts)
          + total_of is_unconfigured (healths accounts)
  unfolding total_of healths
  length-total_of [] = omega arith
  length-total_of (a ∷ accounts) =
      let one = one_state (health_of a).state in
      let rest = length-total_of accounts in omega (arith, one, rest)

-- If no two rows have the same id, the summary is consistent: the accounts in rotation are those that can be
-- dispatched to and those that are saturated, those that cool down and those that are out are the same in both
-- counts, and these and the unconfigured ones are all the rows.
pub compose_health_snapshot-AreDistinct :
    (clock : ℤ) (view : PoolSnapshotView) (accounts : List AccountWithRuntime) (now : ℤ)
    → AreDistinct accounts
    → ((compose_health_snapshot clock view accounts now).0.pool.valid
        ≡ (compose_health_snapshot clock view accounts now).0.detail.dispatchable_now
          + (compose_health_snapshot clock view accounts now).0.detail.saturated)
      × ((compose_health_snapshot clock view accounts now).0.pool.exhausted
          ≡ (compose_health_snapshot clock view accounts now).0.detail.cooling_down_count)
      × ((compose_health_snapshot clock view accounts now).0.pool.invalid_count
          ≡ (compose_health_snapshot clock view accounts now).0.detail.invalid_auth
            + (compose_health_snapshot clock view accounts now).0.detail.invalid_disabled)
      × ((compose_health_snapshot clock view accounts now).0.total
          ≡ (compose_health_snapshot clock view accounts now).0.pool.valid
            + (compose_health_snapshot clock view accounts now).0.pool.exhausted
            + (compose_health_snapshot clock view accounts now).0.pool.invalid_count
            + (compose_health_snapshot clock view accounts now).0.detail.unconfigured_count)
unfolding compose_health_snapshot summarize values total_of get
compose_health_snapshot-AreDistinct clock view accounts now d =
    let per = per_account_from clock view now accounts [] in
    let counts = pool_counts_from-AddsPool (values per) no_accounts in
    let details =
      summarize_from-Adds clock view now per view.inflight accounts no_detail no_invalid no_sources
        (per_account_from-AreKnown clock view now accounts [] d) in
    let a = total_of-values clock view now is_active accounts [] d (λ k. inl refl) in
    let c = total_of-values clock view now is_cooling accounts [] d (λ k. inl refl) in
    let i = total_of-values clock view now is_invalid accounts [] d (λ k. inl refl) in
    let all = length-total_of clock view now accounts in
    omega (arith, counts, details, a, c, i, all)
