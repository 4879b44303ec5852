-- ===== src/RefreshGuard/Refresh/Pooled.antt =====
-- src/claude_code_state/chat.rs, `persist_oauth_refresh`: the tokens in the pool against the ones in the database.
use clewdr_hub.Common.{
  ℕ, ◌+◌, ◌<◌, ◌≤◌, ◌≡◌, ◌≢◌, refl, sym, ◌∙◌, subst, false, Bool-cases, ◌⊎◌, inl, inr, Option, none,
  some, List, ◌∷◌, ◌==◌, ==_iff, get, insert, remove, arith,
}
use clewdr_hub.RefreshGuard.{Phase, waiting, holding}
use clewdr_hub.RefreshGuard.Refresh.{
  Refreshes, Progress, read_token, exchanged, written, find_token, read_stored, read_phase, present,
}
use clewdr_hub.RefreshGuard.Refresh.Safe.{
  IsSafe, still_read, read_or_before, removed_other, inserted_other, same_task,
}
use clewdr_hub.RefreshGuard.Refresh.Steps.{read_stored-IsSafe}

-- A token in the pool is the stored one, or a task has presented it, written the next one and not yet updated the pool.
abbrev pub IsLinked : Refreshes → ℕ → ℕ → Type 0
IsLinked s a k =
    (get a s.stored ≡ some k) ⊎ ((t : ℕ) × (n : ℕ) × (get t s.current ≡ some (written a k n)))

-- The token that is issued for another one is a later one.
abbrev pub IsOrdered : Progress → Type 0
IsOrdered (read_token a k) = Unit {0}
IsOrdered (exchanged a k n) = k < n
IsOrdered (written a k n) = k < n

abbrev pub IsUnwritten : Option Progress → Type 0
IsUnwritten (some (written a k n)) = ⊥
IsUnwritten _ = Unit {0}

pub record IsPooled (s : Refreshes) : Type 0 where
  pub linked : (a k : ℕ) → get a s.pooled ≡ some k → IsLinked s a k
  pub ordered : (t : ℕ) (p : Progress) → get t s.current ≡ some p → IsOrdered p
  pub written_issued : (t a k n : ℕ) → get t s.current ≡ some (written a k n) → n < s.issued
  pub not_stored : (t a k n : ℕ) → get t s.current ≡ some (written a k n) → get a s.stored ≢ some k
  pub followed :
      (t a k n : ℕ)
      → get t s.current ≡ some (written a k n)
      → get a s.pooled ≡ some k
      → get a s.stored ≡ some n

-- A task that has not written is not one that has.
pub not_written :
    (t u a k n : ℕ) (c : List (ℕ × Progress))
    → IsUnwritten (get t c)
    → get u c ≡ some (written a k n)
    → (t == u) ≡ false
not_written t u a k n c d e = elim (Bool-cases (t == u)) [
  | inr q ↦ q
  | inl q ↦
      let at_t : get t c ≡ some (written a k n) = rw ((==_iff t u).0 q) e in
      let impossible : ⊥ = subst IsUnwritten at_t d in absurd impossible
]

-- A task that has not written goes.
pub removed-IsPooled :
    (t : ℕ) (s : Refreshes)
    → IsUnwritten (get t s.current)
    → IsPooled s
    → IsPooled (record s { current = remove t s.current })
removed-IsPooled t s d w = record {
  linked = λ a k e. elim (w.linked a k e) [
    | inl q ↦ inl q
    | inr (u, n, q) ↦
        inr (u, n, removed_other t u s.current _ (not_written t u a k n s.current d q) q)
  ];
  ordered = λ u p e. w.ordered u p (still_read t u s.current p e).1;
  written_issued =
      λ u a k n e. w.written_issued u a k n (still_read t u s.current (written a k n) e).1;
  not_stored = λ u a k n e. w.not_stored u a k n (still_read t u s.current (written a k n) e).1;
  followed = λ u a k n e. w.followed u a k n (still_read t u s.current (written a k n) e).1;
}

-- A task that has not written gets on, and does not write.
pub inserted-IsPooled :
    (t : ℕ) (v : Progress) (s : Refreshes)
    → IsUnwritten (get t s.current)
    → IsUnwritten (some v)
    → IsOrdered v
    → IsPooled s
    → IsPooled (record s { current = insert t v s.current })
inserted-IsPooled t v s d x o w = record {
  linked = λ a k e. elim (w.linked a k e) [
    | inl q ↦ inl q
    | inr (u, n, q) ↦
        inr (u, n, inserted_other t u s.current _ _ (not_written t u a k n s.current d q) q)
  ];
  ordered = λ u p e. elim (read_or_before t u s.current v p e) [
    | inl (same, q) ↦ subst IsOrdered q o
    | inr (q, before) ↦ w.ordered u p before
  ];
  written_issued = λ u a k n e. w.written_issued u a k n (before_it u a k n e);
  not_stored = λ u a k n e. w.not_stored u a k n (before_it u a k n e);
  followed = λ u a k n e. w.followed u a k n (before_it u a k n e);
}
  where
    before_it :
        (u a k n : ℕ)
        → get u (insert t v s.current) ≡ some (written a k n)
        → get u s.current ≡ some (written a k n)
    before_it u a k n e = elim (read_or_before t u s.current v (written a k n) e) [
      | inl (same, q) ↦
          let impossible : ⊥ = subst (λ p. IsUnwritten (some p)) q x in absurd impossible
      | inr (q, before) ↦ before
    ]

issued-IsPooled :
    (i : ℕ) (used : List (ℕ × ℕ)) (s : Refreshes)
    → s.issued ≤ i
    → IsPooled s
    → IsPooled (record s { issued = i; presented = used })
issued-IsPooled i used s h w = record {
  linked = w.linked;
  ordered = w.ordered;
  written_issued = λ t a k n e. omega (arith, h, w.written_issued t a k n e);
  not_stored = w.not_stored;
  followed = w.followed;
}

pub present-IsPooled :
    (t : ℕ) (progress : Option Progress) (s : Refreshes)
    → get t s.current ≡ progress
    → IsSafe s
    → IsPooled s
    → IsPooled (present t progress s)
present-IsPooled t none s h k w = w
present-IsPooled t (some (exchanged a i n)) s h k w = w
present-IsPooled t (some (written a i n)) s h k w = w
present-IsPooled t (some (read_token a i)) s h k w =
    inserted-IsPooled t (exchanged a i s.issued)
      (record s { issued = s.issued + 1; presented = (a, i) ∷ s.presented }) (rw h tt) tt
      (k.read_issued t a i h)
      (issued-IsPooled (s.issued + 1) ((a, i) ∷ s.presented) s (omega arith) w)

-- Under the guard of an account, and before anything is read, what is found is the stored token.
found_is_stored :
    (t a m k : ℕ) (s : Refreshes)
    → get t s.tasks.phases ≡ some (holding a m)
    → get t s.current ≡ none
    → IsSafe s
    → IsPooled s
    → (found : Option ℕ) → get a s.pooled ≡ found
    → find_token found (get a s.stored) ≡ some k
    → get a s.stored ≡ some k
found_is_stored t a m k s h i w p none g e = e
found_is_stored t a m k s h i w p (some j) g e = elim (p.linked a k (g ∙ e)) [
  | inl q ↦ q
  | inr (u, n, q) ↦
      let one : t ≡ u = same_task s t u a m (written a k n) w h q refl in
      let clash : none ≡ some (written a k n) = sym i ∙ rw one q in
      let impossible : ⊥ = cc in absurd impossible
]

read_found :
    (t a m : ℕ) (s : Refreshes)
    → get t s.tasks.phases ≡ some (holding a m)
    → get t s.current ≡ none
    → IsSafe s
    → IsPooled s
    → (found : Option ℕ) → find_token (get a s.pooled) (get a s.stored) ≡ found
    → IsSafe (read_stored t a found s) × IsPooled (read_stored t a found s)
read_found t a m s h i w p none e = (w, p)
read_found t a m s h i w p (some k) e = (
  read_stored-IsSafe t a m (some k) s h (found_is_stored t a m k s h i w p (get a s.pooled) refl e)
      i w,
  inserted-IsPooled t (read_token a k) s (rw i tt) tt tt p,
)

pub read_phase-IsSafe :
    (t : ℕ) (ph : Option Phase) (progress : Option Progress) (s : Refreshes)
    → get t s.tasks.phases ≡ ph
    → get t s.current ≡ progress
    → IsSafe s
    → IsPooled s
    → IsSafe (read_phase t ph progress s) × IsPooled (read_phase t ph progress s)
read_phase-IsSafe t ph (some v) s h i w p = (w, p)
read_phase-IsSafe t none none s h i w p = (w, p)
read_phase-IsSafe t (some (waiting a m)) none s h i w p = (w, p)
read_phase-IsSafe t (some (holding a m)) none s h i w p =
    read_found t a m s h i w p (find_token (get a s.pooled) (get a s.stored)) refl
