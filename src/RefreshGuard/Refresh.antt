-- ===== src/RefreshGuard/Refresh.antt =====
-- src/claude_code_state/chat.rs, `persist_oauth_refresh`: the refreshes of tokens under the locks. A refresh token is the
-- account it was issued for and its number; the upstream issues a new one for each that it is presented. The database
-- stores the token of an account, and the pool may have one in memory. A task that fails, also because the upstream refuses
-- the exchange, or that is cancelled drops its guard.
pub mod Safe
pub mod Steps
pub mod Pooled
pub mod Writes
pub mod SingleUse
use clewdr_hub.Common.{
  ℕ, ◌+◌, Bool, true, false, Option, none, some, List, [], ◌∷◌, if◌then◌else◌, is_some_and, ◌==◌,
  get, insert, remove, modify,
}
use clewdr_hub.RefreshGuard.{
  Phase, waiting, holding, Tasks, new_tasks, Event, called, locked, dropped, happen,
}

-- How far a task is under its guard: it has read a token, it has presented it and got a new one, or it has also written
-- that one to the database.
pub data Progress : Type 0 where
  read_token : ℕ → ℕ → Progress
  exchanged written : ℕ → ℕ → ℕ → Progress

-- The tasks, the token that is stored for an account and the one that the pool has of it, how many were issued, how far the tasks are, and the tokens that
-- were presented.
pub record Refreshes : Type 0 where
  pub tasks : Tasks
  pub stored : List (ℕ × ℕ)
  pub pooled : List (ℕ × ℕ)
  pub issued : ℕ
  pub current : List (ℕ × Progress)
  pub presented : List (ℕ × ℕ)

-- A task calls for a guard, takes or drops it, reads the token, or falls back on one that it has from before, presents it,
-- writes the new one to the database and then to the pool; or the token is replaced from outside, in the database and in
-- the pool, or the pool loads the one of the database, or has none any more.
pub data RefreshEvent : Type 0 where
  calls : ℕ → ℕ → RefreshEvent
  locks drops reads presents stores updates : ℕ → RefreshEvent
  falls_back : ℕ → ℕ → RefreshEvent
  replaced pools unpools : ℕ → RefreshEvent

-- The token of the pool, or else the one of the database.
abbrev pub find_token : Option ℕ → Option ℕ → Option ℕ
find_token (some token) stored = some token
find_token none stored = stored

abbrev pub read_stored : ℕ → ℕ → Option ℕ → Refreshes → Refreshes
read_stored task account_id none s = s
read_stored task account_id (some token) s = record s {
  current = insert task (read_token account_id token) s.current;
}

abbrev pub read_phase : ℕ → Option Phase → Option Progress → Refreshes → Refreshes
read_phase task phase (some progress) s = s
read_phase task none none s = s
read_phase task (some (waiting account_id mutex)) none s = s
read_phase task (some (holding account_id mutex)) none s =
    read_stored task account_id (find_token (get account_id s.pooled) (get account_id s.stored)) s

-- The token that the task has from before it has the guard.
abbrev pub fall_back : ℕ → ℕ → Option Phase → Option Progress → Refreshes → Refreshes
fall_back task token phase (some progress) s = s
fall_back task token none none s = s
fall_back task token (some (waiting account_id mutex)) none s = s
fall_back task token (some (holding account_id mutex)) none s =
    read_stored task account_id (some token) s

abbrev pub present : ℕ → Option Progress → Refreshes → Refreshes
present task none s = s
present task (some (exchanged account_id token fresh)) s = s
present task (some (written account_id token fresh)) s = s
present task (some (read_token account_id token)) s = record s {
  issued = s.issued + 1;
  current = insert task (exchanged account_id token s.issued) s.current;
  presented = (account_id, token) ∷ s.presented;
}

abbrev pub is_current : ℕ → ℕ → List (ℕ × ℕ) → Bool
is_current account_id token tokens = is_some_and (get account_id tokens) (λ k. k == token)

-- `upsert_account_oauth`: the new token is written if the one that was presented is still stored; if it is not, the task
-- is at its end.
abbrev pub store_if : ℕ → ℕ → ℕ → ℕ → Bool → Refreshes → Refreshes
store_if task account_id token fresh true s = record s {
  stored = insert account_id fresh s.stored;
  current = insert task (written account_id token fresh) s.current;
}
store_if task account_id token fresh false s = record s { current = remove task s.current }

abbrev pub store : ℕ → Option Progress → Refreshes → Refreshes
store task none s = s
store task (some (read_token account_id token)) s = s
store task (some (written account_id token fresh)) s = s
store task (some (exchanged account_id token fresh)) s =
    store_if task account_id token fresh (is_current account_id token s.stored) s

-- `update_credential_if_current`.
abbrev pub update_if_current : ℕ → ℕ → ℕ → List (ℕ × ℕ) → List (ℕ × ℕ)
update_if_current account_id token fresh pooled =
    if is_current account_id token pooled then insert account_id fresh pooled else pooled

abbrev pub update : ℕ → Option Progress → Refreshes → Refreshes
update task none s = s
update task (some (read_token account_id token)) s = s
update task (some (exchanged account_id token fresh)) s = s
update task (some (written account_id token fresh)) s = record s {
  pooled = update_if_current account_id token fresh s.pooled;
  current = remove task s.current;
}

-- The pool has what is found.
abbrev pub pool_token : ℕ → Option ℕ → List (ℕ × ℕ) → List (ℕ × ℕ)
pool_token account_id (some token) pooled = insert account_id token pooled
pool_token account_id none pooled = remove account_id pooled

unfoldable pub turn : RefreshEvent → Refreshes → Refreshes
turn (calls task account_id) s = record s { tasks = happen (called task account_id) s.tasks }
turn (locks task) s = record s { tasks = happen (locked task) s.tasks }
turn (drops task) s = record s {
  tasks = happen (dropped task) s.tasks;
  current = remove task s.current;
}
turn (reads task) s = read_phase task (get task s.tasks.phases) (get task s.current) s
turn (presents task) s = present task (get task s.current) s
turn (stores task) s = store task (get task s.current) s
turn (updates task) s = update task (get task s.current) s
turn (falls_back task token) s =
    fall_back task token (get task s.tasks.phases) (get task s.current) s
turn (pools account_id) s = record s {
  pooled = pool_token account_id (get account_id s.stored) s.pooled;
}
turn (unpools account_id) s = record s { pooled = remove account_id s.pooled }
turn (replaced account_id) s = record s {
  stored = insert account_id s.issued s.stored;
  pooled = modify account_id (λ k. s.issued) s.pooled;
  issued = s.issued + 1;
}

unfoldable pub turns : List RefreshEvent → Refreshes → Refreshes
turns [] s = s
turns (e ∷ es) s = turns es (turn e s)

abbrev pub no_refreshes : Refreshes
no_refreshes = record {
  tasks = new_tasks;
  stored = [];
  pooled = [];
  issued = 0;
  current = [];
  presented = [];
}
