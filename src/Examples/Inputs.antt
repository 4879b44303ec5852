-- ===== src/Examples/Inputs.antt =====
-- The inputs of the examples: an affinity cache and a semaphore, accounts, and a pool with one account in each bucket.
use clewdr_hub.Common.{
  ℕ, zero, suc, ◌≡◌, ◌≢◌, refl, inl, true, false, Option, none, some, List, [], ◌∷◌, arith,
  if◌then◌else◌, ◌==◌, ==-refl, count, get, insert, remove, get-remove, get-insert, pos,
}
use clewdr_hub.Config.Reason.{InvalidAccountSlot, banned, api_key}
use clewdr_hub.Config.Slot.{AccountSlot, default_slot}
use clewdr_hub.Pool.State.{Moka, PoolState}
use clewdr_hub.Pool.Conservation.{IsWellFormed}
use clewdr_hub.Pool.Flush.{DbAnswers}
use clewdr_hub.Pool.Actor.{World}
use clewdr_hub.Limiter.{Semaphore, UserLimiterMap}

unfoldable pub drop_value : ℕ → List (ℕ × ℕ) → List (ℕ × ℕ)
drop_value v [] = []
drop_value v ((k, w) ∷ m) = let rest = drop_value v m in if w == v then rest else (k, w) ∷ rest

pub get-drop_value : (k v : ℕ) (m : List (ℕ × ℕ)) → get k (drop_value v m) ≢ some v
unfolding get drop_value
get-drop_value k v [] e = cc
get-drop_value k v ((j, w) ∷ m) e = ground (arith, get-drop_value k v m)

pub get-empty : (k : ℕ) → get {V = ℕ} k [] ≡ none
unfolding get
get-empty k = refl

-- A cache that never drops an entry.
abbrev pub table : Moka (List (ℕ × ℕ))
table = record {
  lookup = get;
  bind = insert;
  invalidate = remove;
  invalidate_all = λ c. [];
  invalidate_entries_of = drop_value;
  lookup-bind = λ k v c. inl (rw (get-insert k k v c, ==-refl k));
  lookup-invalidate = λ k c. rw (get-remove k k c, ==-refl k);
  lookup-invalidate_all = λ k c. get-empty k;
  lookup-invalidate_entries_of = λ k v c. get-drop_value k v c;
}

abbrev pub take_one : ℕ → Option ℕ
take_one zero = none
take_one (suc n) = some n

-- A semaphore is the number of its permits.
abbrev pub permits : Semaphore ℕ
permits = record {
  new = λ n. n;
  available = λ n. n;
  try_acquire = take_one;
  release = suc;
  available-new = λ n. refl;
  try_acquire-empty = λ s e. rw e;
  try_acquire-some = λ s n e. (n, rw e, refl);
  available-release = λ s. refl;
}

abbrev pub key_slot : ℕ → AccountSlot
key_slot id = record default_slot {
  auth_method = api_key;
  account_id = some id;
  api_key_secret = some "sk-ant-1";
}

abbrev pub parked : ℕ → ℕ → AccountSlot
parked id until = record (key_slot id) { reset_time = some (pos until) }

abbrev pub banned_entry : ℕ → InvalidAccountSlot
banned_entry id = record { account_id = id; auth_method = api_key; reason = banned }

-- Account 1 is valid, account 2 exhausted until 100, account 3 banned.
abbrev pub pool : PoolState (List (ℕ × ℕ))
pool = record {
  valid = key_slot 1 ∷ [];
  exhausted = (2, parked 2 100) ∷ [];
  invalid = (3, banned_entry 3) ∷ [];
  moka = (7, 1) ∷ [];
  dirty = 1 ∷ 3 ∷ [];
  handle = true;
  inflight = (1, (0, 2)) ∷ [];
  probing = [];
  reactivated = [];
  probe_errors = [];
  drain_first_ids = 1 ∷ [];
  refreshes = 0;
  probes = [];
}

pub pool-IsWellFormed : IsWellFormed pool
unfolding count
pool-IsWellFormed = record { distinct = λ id. ground arith; keyed = (refl, tt) }

abbrev pub failing : DbAnswers
failing = record { upsert_ok = false; disabled_ok = λ id. false }

abbrev pub world : World
world = record { hasher = λ hash ids. hash; now = pos 50; db = failing; is_awaited = true }

abbrev pub no_users : UserLimiterMap ℕ
no_users = record { inner = []; limiters = []; fresh = 0 }
