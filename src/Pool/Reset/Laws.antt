-- ===== src/Pool/Reset/Laws.antt =====
-- src/services/account_pool/state.rs: what `reset` moves, and what it leaves alone.
use clewdr_hub.Common.{ℕ, ◌≡◌, refl, List, [], ◌∷◌, ℤ}
use clewdr_hub.Config.Slot.{AccountSlot}
use clewdr_hub.Pool.State.{PoolState}
use clewdr_hub.Pool.Reset.{recovered, requeue, reset}

requeue-inflight :
    {C : Type 0} (cs : List AccountSlot) (kept : List (ℕ × AccountSlot)) (s : PoolState C)
    → (requeue cs kept s).inflight ≡ s.inflight
unfolding requeue
requeue-inflight [] kept s = refl
requeue-inflight (c ∷ cs) kept s = refl

pub reset-inflight : {C : Type 0} (now : ℤ) (s : PoolState C) → (reset now s).inflight ≡ s.inflight
unfolding reset
reset-inflight now s = requeue-inflight (recovered now s.exhausted) _ s
