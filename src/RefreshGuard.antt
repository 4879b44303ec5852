-- ===== src/RefreshGuard.antt =====
-- src/services/oauth_refresh_guard.rs: the locks of the accounts, and the tasks that take them in any order. The mutexes of
-- tokio are numbers, with the task that owns one.
pub mod Serial
pub mod Refresh
use clewdr_hub.Common.{
  ℕ, ◌+◌, ◌≡◌, Bool, true, false, Option, none, some, List, [], ◌∷◌, is_some, get, insert, remove,
}

-- `OAuthRefreshGuard`, with the number of mutexes made and the owners of those that are locked.
pub record OauthRefreshGuard : Type 0 where
  pub registry : List (ℕ × ℕ)
  pub made : ℕ
  pub owners : List (ℕ × ℕ)

-- A task that has called `lock` for an account: it waits for a mutex, or it has the guard of one.
pub data Phase : Type 0 where
  waiting holding : ℕ → ℕ → Phase

pub record Tasks : Type 0 where
  pub guard : OauthRefreshGuard
  pub phases : List (ℕ × Phase)

-- `OAuthRefreshGuard::new`.
abbrev pub new_tasks : Tasks
new_tasks = record { guard = record { registry = []; made = 0; owners = [] }; phases = [] }

-- The first half of `lock`: the mutex of an account, which is made if there is none.
abbrev pub entry : ℕ → Option ℕ → OauthRefreshGuard → ℕ × OauthRefreshGuard
entry account_id (some mutex) g = (mutex, g)
entry account_id none g =
    (g.made, record g { registry = insert account_id g.made g.registry; made = g.made + 1 })

-- `forget`.
unfoldable pub forget : ℕ → OauthRefreshGuard → OauthRefreshGuard
forget account_id g = record g { registry = remove account_id g.registry }

-- A task calls `lock`, gets the mutex, drops the guard or the call, or an account is forgotten.
pub data Event : Type 0 where
  called : ℕ → ℕ → Event
  locked dropped : ℕ → Event
  forgotten : ℕ → Event

abbrev pub lock_owned : ℕ → ℕ → ℕ → Bool → Tasks → Tasks
lock_owned task account_id mutex true s = s
lock_owned task account_id mutex false s = record {
  guard = record (s.guard) { owners = insert mutex task s.guard.owners };
  phases = insert task (holding account_id mutex) s.phases;
}

abbrev pub lock_phase : ℕ → Option Phase → Tasks → Tasks
lock_phase task none s = s
lock_phase task (some (holding account_id mutex)) s = s
lock_phase task (some (waiting account_id mutex)) s =
    lock_owned task account_id mutex (is_some (get mutex s.guard.owners)) s

abbrev pub drop_phase : ℕ → Option Phase → Tasks → Tasks
drop_phase task none s = s
drop_phase task (some (waiting account_id mutex)) s = record s { phases = remove task s.phases }
drop_phase task (some (holding account_id mutex)) s = record {
  guard = record (s.guard) { owners = remove mutex s.guard.owners };
  phases = remove task s.phases;
}

abbrev pub call_phase : ℕ → ℕ → Option Phase → Tasks → Tasks
call_phase task account_id (some phase) s = s
call_phase task account_id none s =
    let mutex = entry account_id (get account_id s.guard.registry) s.guard in
    record { guard = mutex.1; phases = insert task (waiting account_id mutex.0) s.phases }

-- What an event makes of the tasks; one that cannot happen changes nothing.
unfoldable pub happen : Event → Tasks → Tasks
happen (called task account_id) s = call_phase task account_id (get task s.phases) s
happen (locked task) s = lock_phase task (get task s.phases) s
happen (dropped task) s = drop_phase task (get task s.phases) s
happen (forgotten account_id) s = record s { guard = forget account_id s.guard }

unfoldable pub run : List Event → Tasks → Tasks
run [] s = s
run (e ∷ es) s = run es (happen e s)
