-- ===== src/Pool/Conservation.antt =====
-- src/services/account_pool: the three buckets. Every account is in one of them at most, and no message but a
-- reload loses one, makes one up or puts one into two.
pub mod Collect
pub mod Messages
pub mod Sticky
pub mod Runs
pub mod Writers
use clewdr_hub.Common.{
  ℕ, ◌+◌, ◌≤◌, ◌≡◌, refl, ap, ◌∙◌, Bool, true, false, Option, none, some, List, [], ◌∷◌, ◌++◌,
  arith, if◌then◌else◌, is_none, is_some, Bool-cases, inl, inr, count, count-append, has_key, ◌==◌,
  ℤ,
}
use clewdr_hub.Config.Slot.{AccountSlot, has_id, reset_slot}
use clewdr_hub.Pool.State.{Moka, PoolState}
use clewdr_hub.Pool.Reset.{is_recovered, recovered, still_exhausted, requeue, reset}

-- How many places the account `id` has in the pool.
abbrev pub places : {C : Type 0} → ℕ → PoolState C → ℕ
places id s =
    count (has_id id) s.valid + count (has_key id) s.exhausted + count (has_key id) s.invalid

-- The slots of `exhausted` stand under their own ids.
abbrev pub AreKeyed : List (ℕ × AccountSlot) → Type 0
AreKeyed [] = Unit {0}
AreKeyed ((k, c) ∷ m) = (c.account_id ≡ some k) × AreKeyed m

pub record IsWellFormed {C : Type 0} (s : PoolState C) : Type 0 where
  pub distinct : (id : ℕ) → places id s ≤ 1
  pub keyed : AreKeyed s.exhausted

-- The step keeps the pool well-formed, and every account where it was: in the pool or out of it.
pub record Conserves {C : Type 0} (s t : PoolState C) : Type 0 where
  pub wellformed : IsWellFormed t
  pub places_same : (id : ℕ) → places id t ≡ places id s

reset_slot-account_id : (now : ℤ) (c : AccountSlot) → (reset_slot now c).account_id ≡ c.account_id
unfolding reset_slot
reset_slot-account_id now c = ground arith

-- What leaves `exhausted` is what is recovered.
count-recovered :
    (id : ℕ) (now : ℤ) (m : List (ℕ × AccountSlot))
    → AreKeyed m
    → count (has_id id) (recovered now m) + count (has_key id) (still_exhausted now m)
      ≡ count (has_key id) m
unfolding count recovered still_exhausted
count-recovered id now [] h = refl
count-recovered id now ((k, c) ∷ m) h = elim (Bool-cases (is_recovered now c)) [
  | inl e ↦
      let own : (reset_slot now c).account_id ≡ some k = reset_slot-account_id now c ∙ h.0 in
      rw (e, own) (omega (arith, count-recovered id now m h.1))
  | inr e ↦ rw e (omega (arith, count-recovered id now m h.1))
]

still_exhausted-AreKeyed :
    (now : ℤ) (m : List (ℕ × AccountSlot)) → AreKeyed m → AreKeyed (still_exhausted now m)
unfolding still_exhausted
still_exhausted-AreKeyed now [] h = tt
still_exhausted-AreKeyed now ((k, c) ∷ m) h = ground (arith, still_exhausted-AreKeyed now m h.1)

module _ {C : Type 0} where
  requeue-places :
      (id : ℕ) (cs : List AccountSlot) (kept : List (ℕ × AccountSlot)) (s : PoolState C)
      → count (has_id id) cs + count (has_key id) kept ≡ count (has_key id) s.exhausted
      → places id (requeue cs kept s) ≡ places id s
  unfolding requeue
  requeue-places id [] kept s h = refl
  requeue-places id (c ∷ cs) kept s h = omega (arith, count-append (has_id id) s.valid (c ∷ cs))

  requeue-AreKeyed :
      (cs : List AccountSlot) (kept : List (ℕ × AccountSlot)) (s : PoolState C)
      → AreKeyed s.exhausted
      → AreKeyed kept
      → AreKeyed (requeue cs kept s).exhausted
  unfolding requeue
  requeue-AreKeyed [] kept s h k = h
  requeue-AreKeyed (c ∷ cs) kept s h k = k

  Conserves-of_places :
      (s t : PoolState C)
      → IsWellFormed s
      → AreKeyed t.exhausted
      → ((id : ℕ) → places id t ≡ places id s)
      → Conserves s t
  Conserves-of_places s t w k same = record {
    wellformed = record { distinct = λ id. rw (same id) (w.distinct id); keyed = k };
    places_same = same;
  }

  pub reset-Conserves : (now : ℤ) (s : PoolState C) → IsWellFormed s → Conserves s (reset now s)
  unfolding reset
  reset-Conserves now s w =
      Conserves-of_places s _ w
        (requeue-AreKeyed _ _ s w.keyed (still_exhausted-AreKeyed now s.exhausted w.keyed))
        (λ id. requeue-places id _ _ s (count-recovered id now s.exhausted w.keyed))
