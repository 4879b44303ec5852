-- ===== src/Examples/Refreshes.antt =====
-- Two tasks that refresh the token of one account, and the theorem applied to them.
use clewdr_hub.Common.{◌≡◌, refl, List, [], ◌∷◌, count, get, insert, remove, modify}
use clewdr_hub.RefreshGuard.{happen}
use clewdr_hub.RefreshGuard.Refresh.{
  RefreshEvent, calls, locks, drops, reads, presents, stores, updates, replaced, pools, turn, turns,
  no_refreshes,
}
use clewdr_hub.RefreshGuard.Refresh.Safe.{is_token}

abbrev two_tasks : List RefreshEvent
two_tasks =
    replaced 7
    ∷ pools 7
    ∷ calls 1 7
    ∷ calls 2 7
    ∷ locks 1
    ∷ locks 2
    ∷ reads 1
    ∷ reads 2
    ∷ presents 1
    ∷ presents 2
    ∷ stores 1
    ∷ updates 1
    ∷ drops 1
    ∷ locks 2
    ∷ reads 2
    ∷ presents 2
    ∷ stores 2
    ∷ updates 2
    ∷ []

-- The second task waits, and presents the token that the first one has put into the pool.
presented_in_turn : (turns two_tasks no_refreshes).presented ≡ (7, 1) ∷ (7, 0) ∷ []
unfolding turns turn happen get insert remove modify
presented_in_turn = refl

-- A task that is dropped between the two writes leaves a token in the pool that is used up.
abbrev dropped_task : List RefreshEvent
dropped_task =
    replaced 7
    ∷ pools 7
    ∷ calls 1 7
    ∷ locks 1
    ∷ reads 1
    ∷ presents 1
    ∷ stores 1
    ∷ drops 1
    ∷ calls 2 7
    ∷ locks 2
    ∷ reads 2
    ∷ presents 2
    ∷ []

presented_twice : count (is_token 7 0) (turns dropped_task no_refreshes).presented ≡ 2
unfolding turns turn happen get insert remove modify count
presented_twice = refl
