-- ===== src/RefreshGuard/Serial.antt =====
-- src/services/oauth_refresh_guard.rs: the refreshes of an account follow each other.
use clewdr_hub.Common.{
  ℕ, ◌≡◌, refl, Bool, true, false, Option, none, some, List, [], ◌∷◌, is_some, get, insert,
  get-insert, get-remove, arith,
}
use clewdr_hub.RefreshGuard.{
  Phase, waiting, holding, Tasks, new_tasks, entry, Event, called, locked, dropped, forgotten,
  lock_owned, lock_phase, drop_phase, call_phase, happen, run,
}

-- The accounts and mutexes of the tasks are those of the registry, and a task that holds a mutex owns it.
pub record IsSerial (s : Tasks) : Type 0 where
  pub waits : (t a m : ℕ) → get t s.phases ≡ some (waiting a m) → get a s.guard.registry ≡ some m
  pub holds : (t a m : ℕ) → get t s.phases ≡ some (holding a m) → get a s.guard.registry ≡ some m
  pub owns : (t a m : ℕ) → get t s.phases ≡ some (holding a m) → get m s.guard.owners ≡ some t

-- No account is forgotten.
abbrev pub AreKept : List Event → Type 0
AreKept [] = Unit {0}
AreKept (forgotten a ∷ es) = ⊥
AreKept (called t a ∷ es) = AreKept es
AreKept (locked t ∷ es) = AreKept es
AreKept (dropped t ∷ es) = AreKept es

called-IsSerial :
    (t a : ℕ) (found : Option ℕ) (s : Tasks)
    → get a s.guard.registry ≡ found
    → IsSerial s
    → IsSerial (record {
      guard = (entry a found s.guard).1;
      phases = insert t (waiting a (entry a found s.guard).0) s.phases;
    })
called-IsSerial t a (some m) s h w = record {
  waits = λ u b n e. ground (arith, get-insert t u (waiting a m) s.phases, e, w.waits u b n, h);
  holds = λ u b n e. w.holds u b n (ground (arith, get-insert t u (waiting a m) s.phases, e));
  owns = λ u b n e. w.owns u b n (ground (arith, get-insert t u (waiting a m) s.phases, e));
}
called-IsSerial t a none s h w = record {
  waits = λ u b n e. ground (
    arith,
    get-insert t u (waiting a s.guard.made) s.phases,
    get-insert a b s.guard.made s.guard.registry,
    e,
    w.waits u b n,
    h,
  );
  holds = λ u b n e. ground (
    arith,
    get-insert t u (waiting a s.guard.made) s.phases,
    get-insert a b s.guard.made s.guard.registry,
    e,
    w.holds u b n,
    h,
  );
  owns =
      λ u b n e. w.owns u b n (ground (arith, get-insert t u (waiting a s.guard.made) s.phases, e));
}

pub call_phase-IsSerial :
    (t a : ℕ) (ph : Option Phase) (s : Tasks) → IsSerial s → IsSerial (call_phase t a ph s)
call_phase-IsSerial t a (some ph) s w = w
call_phase-IsSerial t a none s w = called-IsSerial t a (get a s.guard.registry) s refl w

locked-IsSerial :
    (t a m : ℕ) (b : Bool) (s : Tasks)
    → is_some (get m s.guard.owners) ≡ b
    → get t s.phases ≡ some (waiting a m)
    → IsSerial s
    → IsSerial (lock_owned t a m b s)
locked-IsSerial t a m true s free h w = w
locked-IsSerial t a m false s free h w = record {
  waits = λ u b n e. w.waits u b n (ground (arith, get-insert t u (holding a m) s.phases, e));
  holds = λ u b n e.
      ground (arith, get-insert t u (holding a m) s.phases, e, w.waits t a m h, w.holds u b n);
  owns = λ u b n e. ground (
    arith,
    get-insert t u (holding a m) s.phases,
    get-insert m n t s.guard.owners,
    e,
    w.owns u b n,
    free,
  );
}

pub dropped-IsSerial :
    (t : ℕ) (ph : Option Phase) (s : Tasks)
    → get t s.phases ≡ ph
    → IsSerial s
    → IsSerial (drop_phase t ph s)
dropped-IsSerial t none s h w = w
dropped-IsSerial t (some (waiting a m)) s h w = record {
  waits = λ u b n e. w.waits u b n (ground (arith, get-remove t u s.phases, e));
  holds = λ u b n e. w.holds u b n (ground (arith, get-remove t u s.phases, e));
  owns = λ u b n e. w.owns u b n (ground (arith, get-remove t u s.phases, e));
}
dropped-IsSerial t (some (holding a m)) s h w = record {
  waits = λ u b n e. w.waits u b n (ground (arith, get-remove t u s.phases, e));
  holds = λ u b n e. w.holds u b n (ground (arith, get-remove t u s.phases, e));
  owns = λ u b n e. ground (
    arith,
    get-remove t u s.phases,
    get-remove m n s.guard.owners,
    e,
    w.owns u b n,
    w.owns t a m h,
  );
}

pub lock_phase-IsSerial :
    (t : ℕ) (ph : Option Phase) (s : Tasks)
    → get t s.phases ≡ ph
    → IsSerial s
    → IsSerial (lock_phase t ph s)
lock_phase-IsSerial t none s h w = w
lock_phase-IsSerial t (some (holding a m)) s h w = w
lock_phase-IsSerial t (some (waiting a m)) s h w = locked-IsSerial t a m _ s refl h w

run-IsSerial : (es : List Event) (s : Tasks) → AreKept es → IsSerial s → IsSerial (run es s)
unfolding run happen
run-IsSerial [] s k w = w
run-IsSerial (called t a ∷ es) s k w =
    run-IsSerial es _ k (call_phase-IsSerial t a (get t s.phases) s w)
run-IsSerial (locked t ∷ es) s k w =
    run-IsSerial es _ k (lock_phase-IsSerial t (get t s.phases) s refl w)
run-IsSerial (dropped t ∷ es) s k w =
    run-IsSerial es _ k (dropped-IsSerial t (get t s.phases) s refl w)
run-IsSerial (forgotten a ∷ es) s k w = absurd k

pub new_tasks-IsSerial : IsSerial new_tasks
unfolding get
new_tasks-IsSerial = record { waits = λ u b n e. cc; holds = λ u b n e. cc; owns = λ u b n e. cc }

-- Whatever tasks call `lock`, get their mutexes, drop their guards and give up, in any order: while no account is
-- forgotten, no two tasks hold the lock of one account.
pub run-serial :
    (es : List Event) (account_id t u m n : ℕ)
    → AreKept es
    → get t (run es new_tasks).phases ≡ some (holding account_id m)
    → get u (run es new_tasks).phases ≡ some (holding account_id n)
    → t ≡ u
run-serial es account_id t u m n k h g =
    let w = run-IsSerial es new_tasks k new_tasks-IsSerial in
    ground (
      arith,
      w.holds t account_id m h,
      w.holds u account_id n g,
      w.owns t account_id m h,
      w.owns u account_id n g,
    )
