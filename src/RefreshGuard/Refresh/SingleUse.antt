-- ===== src/RefreshGuard/Refresh/SingleUse.antt =====
-- src/claude_code_state/chat.rs, `persist_oauth_refresh`: a refresh token is presented once.
use clewdr_hub.Common.{List, [], ◌∷◌, get}
use clewdr_hub.RefreshGuard.Refresh.{Refreshes, RefreshEvent, drops, falls_back, turn}
use clewdr_hub.RefreshGuard.Refresh.Safe.{IsSafe, IsDropSafe}
use clewdr_hub.RefreshGuard.Refresh.Pooled.{IsPooled}

-- What a step needs: no task is dropped or fails between the presentation of a token and its last write, and none falls
-- back on the token that it has from before.
abbrev pub IsFinished : RefreshEvent → Refreshes → Type 0
IsFinished (drops t) s = IsDropSafe (get t s.current)
IsFinished (falls_back t k) s = ⊥
IsFinished _ s = Unit {0}

abbrev pub AreFinished : List RefreshEvent → Refreshes → Type 0
AreFinished [] s = Unit {0}
AreFinished (e ∷ es) s = IsFinished e s × AreFinished es (turn e s)

-- The two invariants.
AreTokensSafe : Refreshes → Type 0
AreTokensSafe s = IsSafe s × IsPooled s
