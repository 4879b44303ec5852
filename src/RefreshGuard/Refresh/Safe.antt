-- ===== src/RefreshGuard/Refresh/Safe.antt =====
-- src/claude_code_state/chat.rs, `persist_oauth_refresh`: what holds of the tokens between any two steps.
use clewdr_hub.Common.{
  ℕ, ◌<◌, ◌≤◌, ◌≡◌, refl, sym, ◌∙◌, Bool, false, ◌&&◌, Bool-cases, ◌⊎◌, inl, inr, Option, none,
  some, List, ◌∷◌, is_some, ◌==◌, ==_iff, subst, get, insert, remove, get-insert, get-remove, count,
  arith,
}
use clewdr_hub.RefreshGuard.{
  Phase, waiting, holding, Tasks, happen, call_phase, lock_phase, drop_phase, entry,
}
use clewdr_hub.RefreshGuard.Serial.{
  IsSerial, call_phase-IsSerial, lock_phase-IsSerial, dropped-IsSerial,
}
use clewdr_hub.RefreshGuard.Refresh.{
  Refreshes, calls, locks, drops, replaced, Progress, read_token, exchanged, written, turn,
}

abbrev pub is_token : ℕ → ℕ → ℕ × ℕ → Bool
is_token a k (b, j) = (b == a) && (j == k)

abbrev pub account_of : Progress → ℕ
account_of (read_token a k) = a
account_of (exchanged a k n) = a
account_of (written a k n) = a

-- A stored token is unused, or a task that has presented it is to store the next one.
abbrev IsStoredWell : Refreshes → ℕ → ℕ → Type 0
IsStoredWell s a k =
    (count (is_token a k) s.presented ≡ 0)
    ⊎ ((t : ℕ) × (n : ℕ) × (get t s.current ≡ some (exchanged a k n)))

pub record IsSafe (s : Refreshes) : Type 0 where
  pub serial : IsSerial s.tasks
  pub under_guard :
      (t : ℕ) (p : Progress)
      → get t s.current ≡ some p
      → (m : ℕ) × (get t s.tasks.phases ≡ some (holding (account_of p) m))
  pub read_unused :
      (t a k : ℕ) → get t s.current ≡ some (read_token a k) → count (is_token a k) s.presented ≡ 0
  pub fresh_unused :
      (t a k n : ℕ)
      → get t s.current ≡ some (exchanged a k n)
      → count (is_token a n) s.presented ≡ 0
  pub stored_well : (a k : ℕ) → get a s.stored ≡ some k → IsStoredWell s a k
  pub read_issued : (t a k : ℕ) → get t s.current ≡ some (read_token a k) → k < s.issued
  pub fresh_issued : (t a k n : ℕ) → get t s.current ≡ some (exchanged a k n) → n < s.issued
  pub stored_issued : (a k : ℕ) → get a s.stored ≡ some k → k < s.issued
  pub unissued : (a k : ℕ) → s.issued ≤ k → count (is_token a k) s.presented ≡ 0
  pub once : (a k : ℕ) → count (is_token a k) s.presented ≤ 1

-- What a task has under its guard is not changed by another's call or lock.
keeps_call :
    (t u a b m : ℕ) (ph : Option Phase) (s : Tasks)
    → get t s.phases ≡ ph
    → get u s.phases ≡ some (holding b m)
    → get u (call_phase t a ph s).phases ≡ some (holding b m)
keeps_call t u a b m (some ph) s h g = g
keeps_call t u a b m none s h g =
    ground (
      arith,
      get-insert t u (waiting a (entry a (get a s.guard.registry) s.guard).0) s.phases,
      g,
      h,
    )

keeps_lock :
    (t u b m : ℕ) (ph : Option Phase) (s : Tasks)
    → get t s.phases ≡ ph
    → get u s.phases ≡ some (holding b m)
    → get u (lock_phase t ph s).phases ≡ some (holding b m)
keeps_lock t u b m none s h g = g
keeps_lock t u b m (some (holding a n)) s h g = g
keeps_lock t u b m (some (waiting a n)) s h g = elim (Bool-cases (is_some (get n s.guard.owners))) [
  | inl e ↦ rw e g
  | inr e ↦ rw e (ground (arith, get-insert t u (holding a n) s.phases, g, h))
]

keeps_drop :
    (t u b m : ℕ) (ph : Option Phase) (s : Tasks)
    → get t s.phases ≡ ph
    → (t == u) ≡ false
    → get u s.phases ≡ some (holding b m)
    → get u (drop_phase t ph s).phases ≡ some (holding b m)
keeps_drop t u b m none s h d g = g
keeps_drop t u b m (some (waiting a n)) s h d g = ground (arith, get-remove t u s.phases, g, d)
keeps_drop t u b m (some (holding a n)) s h d g = ground (arith, get-remove t u s.phases, g, d)

pub calls-IsSafe : (t a : ℕ) (s : Refreshes) → IsSafe s → IsSafe (turn (calls t a) s)
unfolding turn happen
calls-IsSafe t a s w = record {
  serial = call_phase-IsSerial t a (get t s.tasks.phases) s.tasks w.serial;
  under_guard = λ u p e.
      let h = w.under_guard u p e in
      (h.0, keeps_call t u a (account_of p) h.0 (get t s.tasks.phases) s.tasks refl h.1);
  read_unused = w.read_unused;
  fresh_unused = w.fresh_unused;
  stored_well = w.stored_well;
  read_issued = w.read_issued;
  fresh_issued = w.fresh_issued;
  stored_issued = w.stored_issued;
  unissued = w.unissued;
  once = w.once;
}

pub locks-IsSafe : (t : ℕ) (s : Refreshes) → IsSafe s → IsSafe (turn (locks t) s)
unfolding turn happen
locks-IsSafe t s w = record {
  serial = lock_phase-IsSerial t (get t s.tasks.phases) s.tasks refl w.serial;
  under_guard = λ u p e.
      let h = w.under_guard u p e in
      (h.0, keeps_lock t u (account_of p) h.0 (get t s.tasks.phases) s.tasks refl h.1);
  read_unused = w.read_unused;
  fresh_unused = w.fresh_unused;
  stored_well = w.stored_well;
  read_issued = w.read_issued;
  fresh_issued = w.fresh_issued;
  stored_issued = w.stored_issued;
  unissued = w.unissued;
  once = w.once;
}

-- What is read once a task's reading is gone was read before, by another task.
pub still_read :
    (t u : ℕ) (c : List (ℕ × Progress)) (v : Progress)
    → get u (remove t c) ≡ some v
    → ((t == u) ≡ false) × (get u c ≡ some v)
still_read t u c v h = elim (Bool-cases (t == u)) [
  | inl e ↦
      let gone : none ≡ some v = sym (get-remove t u c ∙ rw e refl) ∙ h in
      let impossible : ⊥ = cc in absurd impossible
  | inr e ↦ (e, sym (get-remove t u c ∙ rw e refl) ∙ h)
]

-- What a task has read is what the last reading of it was.
pub read_or_before :
    (t u : ℕ) (c : List (ℕ × Progress)) (v w : Progress)
    → get u (insert t v c) ≡ some w
    → ((t ≡ u) × (v ≡ w)) ⊎ (((t == u) ≡ false) × (get u c ≡ some w))
read_or_before t u c v w h = elim (Bool-cases (t == u)) [
  | inl e ↦
      let now : some v ≡ some w = sym (get-insert t u v c ∙ rw e refl) ∙ h in
      inl ((==_iff t u).0 e, cc)
  | inr e ↦ inr (e, sym (get-insert t u v c ∙ rw e refl) ∙ h)
]

-- A task that is not between the presentation of a token and its last write may go.
abbrev pub IsDropSafe : Option Progress → Type 0
IsDropSafe none = Unit {0}
IsDropSafe (some (read_token a k)) = Unit {0}
IsDropSafe (some (exchanged a k n)) = ⊥
IsDropSafe (some (written a k n)) = ⊥

pub differs :
    (t u a k n : ℕ) (c : List (ℕ × Progress))
    → IsDropSafe (get t c)
    → get u c ≡ some (exchanged a k n)
    → (t == u) ≡ false
differs t u a k n c d e = elim (Bool-cases (t == u)) [
  | inr q ↦ q
  | inl q ↦
      let at_t : get t c ≡ some (exchanged a k n) = rw ((==_iff t u).0 q) e in
      let impossible : ⊥ = subst IsDropSafe at_t d in absurd impossible
]

pub removed_other :
    (t u : ℕ) (c : List (ℕ × Progress)) (v : Progress)
    → (t == u) ≡ false
    → get u c ≡ some v
    → get u (remove t c) ≡ some v
removed_other t u c v d e = get-remove t u c ∙ rw d e

pub inserted_other :
    (t u : ℕ) (c : List (ℕ × Progress)) (w v : Progress)
    → (t == u) ≡ false
    → get u c ≡ some v
    → get u (insert t w c) ≡ some v
inserted_other t u c w v d e = get-insert t u w c ∙ rw d e

pub drops-IsSafe :
    (t : ℕ) (s : Refreshes) → IsDropSafe (get t s.current) → IsSafe s → IsSafe (turn (drops t) s)
unfolding turn happen
drops-IsSafe t s d w = record {
  serial = dropped-IsSerial t (get t s.tasks.phases) s.tasks refl w.serial;
  under_guard = λ u p e.
      let r = still_read t u s.current p e in
      let h = w.under_guard u p r.1 in
      (h.0, keeps_drop t u (account_of p) h.0 (get t s.tasks.phases) s.tasks refl r.0 h.1);
  read_unused = λ u b k e. w.read_unused u b k (still_read t u s.current (read_token b k) e).1;
  fresh_unused =
      λ u b k n e. w.fresh_unused u b k n (still_read t u s.current (exchanged b k n) e).1;
  stored_well = λ b k e. elim (w.stored_well b k e) [
    | inl free ↦ inl free
    | inr (u, n, q) ↦ inr (u, n, removed_other t u s.current _ (differs t u b k n s.current d q) q)
  ];
  read_issued = λ u b k e. w.read_issued u b k (still_read t u s.current (read_token b k) e).1;
  fresh_issued =
      λ u b k n e. w.fresh_issued u b k n (still_read t u s.current (exchanged b k n) e).1;
  stored_issued = w.stored_issued;
  unissued = w.unissued;
  once = w.once;
}

inserted_stored :
    (a fresh b j : ℕ) (stored : List (ℕ × ℕ))
    → get b (insert a fresh stored) ≡ some j
    → ((a ≡ b) × (j ≡ fresh)) ⊎ (get b stored ≡ some j)
inserted_stored a fresh b j stored e = ground (arith, get-insert a b fresh stored, e)

pub replaced-IsSafe : (a : ℕ) (s : Refreshes) → IsSafe s → IsSafe (turn (replaced a) s)
unfolding turn
replaced-IsSafe a s w = record {
  serial = w.serial;
  under_guard = w.under_guard;
  read_unused = w.read_unused;
  fresh_unused = w.fresh_unused;
  stored_well = λ b k e. elim (inserted_stored a s.issued b k s.stored e) [
    | inl (same, fresh) ↦ inl (w.unissued b k (omega (arith, fresh)))
    | inr before ↦ w.stored_well b k before
  ];
  read_issued = λ u b k e. omega (arith, w.read_issued u b k e);
  fresh_issued = λ u b k n e. omega (arith, w.fresh_issued u b k n e);
  stored_issued = λ b k e. elim (inserted_stored a s.issued b k s.stored e) [
    | inl (same, fresh) ↦ omega (arith, fresh)
    | inr before ↦ omega (arith, w.stored_issued b k before)
  ];
  unissued = λ b k e. w.unissued b k (omega (arith, e));
  once = w.once;
}

-- Only one task is under the guard of an account.
pub same_task :
    (s : Refreshes) (t u a m : ℕ) (q : Progress)
    → IsSafe s
    → get t s.tasks.phases ≡ some (holding a m)
    → get u s.current ≡ some q
    → a ≡ account_of q
    → t ≡ u
same_task s t u a m q w h g e =
    let o = w.under_guard u q g in
    ground (
      arith,
      e,
      w.serial.holds t a m h,
      w.serial.holds u (account_of q) o.0 o.1,
      w.serial.owns t a m h,
      w.serial.owns u (account_of q) o.0 o.1,
    )

-- Another token than the one presented is as unused as before.
pub present_other :
    (a k b j : ℕ) (used : List (ℕ × ℕ))
    → (a == b) && (k == j) ≡ false
    → count (is_token b j) ((a, k) ∷ used) ≡ count (is_token b j) used
unfolding count
present_other a k b j used h = rw h (omega arith)

pub not_presented :
    (a k b j : ℕ) (used : List (ℕ × ℕ))
    → (k == j) ≡ false
    → count (is_token b j) used ≡ 0
    → count (is_token b j) ((a, k) ∷ used) ≡ 0
not_presented a k b j used h e =
    present_other a k b j used
      (elim (Bool-cases (a == b)) [ inl q ↦ rw (q, h) refl | inr q ↦ rw q refl ])
    ∙ e

pub present_once :
    (a k b j : ℕ) (used : List (ℕ × ℕ))
    → count (is_token a k) used ≡ 0
    → count (is_token b j) used ≤ 1
    → count (is_token b j) ((a, k) ∷ used) ≤ 1
unfolding count
present_once a k b j used free most = elim (Bool-cases ((a == b) && (k == j))) [
  | inr q ↦ rw q (omega (arith, most))
  | inl q ↦
      let token : (a ≡ b) × (k ≡ j) = ground (arith, q) in
      let free' : count (is_token b j) used ≡ 0 = rw (sym token.0, sym token.1) free in
      rw q (omega (arith, free'))
]
