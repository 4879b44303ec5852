-- ===== src/RefreshGuard/Refresh/Steps.antt =====
-- src/claude_code_state/chat.rs, `persist_oauth_refresh`: the reading, the exchange and the write of a token.
use clewdr_hub.Common.{
  ℕ, ◌≡◌, refl, sym, ap, ◌∙◌, Bool, true, false, ◌&&◌, Bool-cases, ◌⊎◌, inl, inr, Option, none,
  some, List, ◌==◌, ==_iff, ==-refl, get, insert, get-insert, arith,
}
use clewdr_hub.RefreshGuard.{holding}
use clewdr_hub.RefreshGuard.Refresh.{
  Refreshes, Progress, read_token, exchanged, written, read_stored, is_current, store, store_if,
  update, present,
}
use clewdr_hub.RefreshGuard.Refresh.Safe.{
  account_of, IsSafe, still_read, read_or_before, differs, removed_other, inserted_other, same_task,
  present_other, not_presented, present_once,
}

pub read_stored-IsSafe :
    (t a m : ℕ) (found : Option ℕ) (s : Refreshes)
    → get t s.tasks.phases ≡ some (holding a m)
    → get a s.stored ≡ found
    → get t s.current ≡ none
    → IsSafe s
    → IsSafe (read_stored t a found s)
read_stored-IsSafe t a m none s h e i w = w
read_stored-IsSafe t a m (some k) s h e i w = record {
  serial = w.serial;
  under_guard = λ u p q. elim (read_or_before t u s.current (read_token a k) p q) [
    | inl (same, v) ↦ (m, rw (sym same, sym (ap account_of v)) h)
    | inr (d, before) ↦ w.under_guard u p before
  ];
  read_unused = λ u b j q. elim (read_or_before t u s.current (read_token a k) (read_token b j) q) [
    | inl (same, v) ↦
        let token : (a ≡ b) × (k ≡ j) = (cc, cc) in
        rw (sym token.0, sym token.1)
          (elim (w.stored_well a k e) [
            | inl free ↦ free
            | inr (o, n, x) ↦
                let one : t ≡ o = same_task s t o a m (exchanged a k n) w h x refl in
                let clash : none ≡ some (exchanged a k n) = sym i ∙ rw one x in
                let impossible : ⊥ = cc in absurd impossible
          ])
    | inr (d, before) ↦ w.read_unused u b j before
  ];
  fresh_unused = λ u b j n q.
      elim (read_or_before t u s.current (read_token a k) (exchanged b j n) q) [
        | inl (same, v) ↦ let impossible : ⊥ = cc in absurd impossible
        | inr (d, before) ↦ w.fresh_unused u b j n before
      ];
  stored_well = λ b j q. elim (w.stored_well b j q) [
    | inl free ↦ inl free
    | inr (u, n, x) ↦
        inr (u, n, inserted_other t u s.current _ _ (differs t u b j n s.current (rw i tt) x) x)
  ];
  read_issued = λ u b j q. elim (read_or_before t u s.current (read_token a k) (read_token b j) q) [
    | inl (same, v) ↦
        let token : (a ≡ b) × (k ≡ j) = (cc, cc) in rw (sym token.1) (w.stored_issued a k e)
    | inr (d, before) ↦ w.read_issued u b j before
  ];
  fresh_issued = λ u b j n q.
      elim (read_or_before t u s.current (read_token a k) (exchanged b j n) q) [
        | inl (same, v) ↦ let impossible : ⊥ = cc in absurd impossible
        | inr (d, before) ↦ w.fresh_issued u b j n before
      ];
  stored_issued = w.stored_issued;
  unissued = w.unissued;
  once = w.once;
}

-- A token of another account, or of another task, is another token.
other_token :
    (s : Refreshes) (t u a k : ℕ) (p : Progress) (b j : ℕ)
    → IsSafe s
    → get t s.current ≡ some (read_token a k)
    → get u s.current ≡ some p
    → account_of p ≡ b
    → (t == u) ≡ false
    → (a == b) && (k == j) ≡ false
other_token s t u a k p b j w h g e d = elim (Bool-cases (a == b)) [
  | inr q ↦ rw q refl
  | inl q ↦
      let o = w.under_guard t (read_token a k) h in
      let same : t ≡ u = same_task s t u a o.0 p w o.1 g ((==_iff a b).0 q ∙ sym e) in
      let impossible : ⊥ = ground (arith, same, d) in absurd impossible
]

pub present-IsSafe :
    (t : ℕ) (progress : Option Progress) (s : Refreshes)
    → get t s.current ≡ progress
    → IsSafe s
    → IsSafe (present t progress s)
present-IsSafe t none s h w = w
present-IsSafe t (some (exchanged a k n)) s h w = w
present-IsSafe t (some (written a k n)) s h w = w
present-IsSafe t (some (read_token a k)) s h w = record {
  serial = w.serial;
  under_guard = λ u p q. elim (read_or_before t u s.current (exchanged a k s.issued) p q) [
    | inl (same, v) ↦
        let o = w.under_guard t (read_token a k) h in
        (o.0, rw (sym same, sym (ap account_of v)) o.1)
    | inr (d, before) ↦ w.under_guard u p before
  ];
  read_unused = λ u b j q.
      elim (read_or_before t u s.current (exchanged a k s.issued) (read_token b j) q) [
        | inl (same, v) ↦ let impossible : ⊥ = cc in absurd impossible
        | inr (d, before) ↦
            present_other a k b j s.presented
              (other_token s t u a k (read_token b j) b j w h before refl d)
            ∙ w.read_unused u b j before
      ];
  fresh_unused = λ u b j n q.
      elim (read_or_before t u s.current (exchanged a k s.issued) (exchanged b j n) q) [
        | inl (same, v) ↦
            let fresh : s.issued ≡ n = cc in
            not_presented a k b n s.presented
              (let below = w.read_issued t a k h in ground (arith, below, fresh))
              (w.unissued b n (omega (arith, fresh)))
        | inr (d, before) ↦
            present_other a k b n s.presented
              (other_token s t u a k (exchanged b j n) b n w h before refl d)
            ∙ w.fresh_unused u b j n before
      ];
  stored_well = λ b j q. elim (Bool-cases ((a == b) && (k == j))) [
    | inl x ↦
        let token : (a ≡ b) × (k ≡ j) = ground (arith, x) in
        inr (
          t,
          s.issued,
          rw (sym token.0, sym token.1)
              (get-insert t t (exchanged a k s.issued) s.current ∙ rw (==-refl t) refl),
        )
    | inr x ↦ elim (w.stored_well b j q) [
      | inl free ↦ inl (present_other a k b j s.presented x ∙ free)
      | inr (u, n, g) ↦
          inr (u, n, inserted_other t u s.current _ _ (differs t u b j n s.current (rw h tt) g) g)
    ]
  ];
  read_issued = λ u b j q.
      elim (read_or_before t u s.current (exchanged a k s.issued) (read_token b j) q) [
        | inl (same, v) ↦ let impossible : ⊥ = cc in absurd impossible
        | inr (d, before) ↦ omega (arith, w.read_issued u b j before)
      ];
  fresh_issued = λ u b j n q.
      elim (read_or_before t u s.current (exchanged a k s.issued) (exchanged b j n) q) [
        | inl (same, v) ↦ let fresh : s.issued ≡ n = cc in omega (arith, fresh)
        | inr (d, before) ↦ omega (arith, w.fresh_issued u b j n before)
      ];
  stored_issued = λ b j q. omega (arith, w.stored_issued b j q);
  unissued = λ b j q.
      not_presented a k b j s.presented
        (let below = w.read_issued t a k h in ground (arith, below, q))
        (w.unissued b j (omega (arith, q)));
  once = λ b j. present_once a k b j s.presented (w.read_unused t a k h) (w.once b j);
}

-- What is stored is another token than the one that a failed test has looked for.
pub not_current :
    (a k b j : ℕ) (tokens : List (ℕ × ℕ))
    → is_current a k tokens ≡ false
    → get b tokens ≡ some j
    → (a == b) && (k == j) ≡ false
not_current a k b j tokens q e = elim (Bool-cases (a == b)) [
  | inr p ↦ rw p refl
  | inl p ↦
      let found : get a tokens ≡ some j = rw ((==_iff a b).0 p) e in
      let other : (j == k) ≡ false = sym (rw found refl) ∙ q in ground (arith, other)
]

pub inserted_after :
    (a fresh b j : ℕ) (tokens : List (ℕ × ℕ))
    → get b (insert a fresh tokens) ≡ some j
    → ((a ≡ b) × (j ≡ fresh)) ⊎ ((get b tokens ≡ some j) × ((a == b) ≡ false))
inserted_after a fresh b j tokens e = elim (Bool-cases (a == b)) [
  | inl p ↦
      let now : some fresh ≡ some j = sym (get-insert a b fresh tokens ∙ rw p refl) ∙ e in
      inl ((==_iff a b).0 p, cc)
  | inr p ↦ inr (sym (get-insert a b fresh tokens ∙ rw p refl) ∙ e, p)
]

-- A task that exchanges one token is not the one that exchanges another.
another :
    (t u a k n b j m : ℕ) (c : List (ℕ × Progress))
    → get t c ≡ some (exchanged a k n)
    → get u c ≡ some (exchanged b j m)
    → (a == b) && (k == j) ≡ false
    → (t == u) ≡ false
another t u a k n b j m c h g x = elim (Bool-cases (t == u)) [
  | inr d ↦ d
  | inl d ↦
      let at_t : get t c ≡ some (exchanged b j m) = rw ((==_iff t u).0 d) g in
      let clash : some (exchanged a k n) ≡ some (exchanged b j m) = sym h ∙ at_t in
      let token : (a ≡ b) × (k ≡ j) = (cc, cc) in
      let impossible : ⊥ = ground (arith, token, x) in absurd impossible
]

store_if-IsSafe :
    (t a k n : ℕ) (b : Bool) (s : Refreshes)
    → get t s.current ≡ some (exchanged a k n)
    → is_current a k s.stored ≡ b
    → IsSafe s
    → IsSafe (store_if t a k n b s)
store_if-IsSafe t a k n false s h q w = record {
  serial = w.serial;
  under_guard = λ u p e. w.under_guard u p (still_read t u s.current p e).1;
  read_unused = λ u b j e. w.read_unused u b j (still_read t u s.current (read_token b j) e).1;
  fresh_unused =
      λ u b j m e. w.fresh_unused u b j m (still_read t u s.current (exchanged b j m) e).1;
  stored_well = λ b j e. elim (w.stored_well b j e) [
    | inl free ↦ inl free
    | inr (u, m, g) ↦ inr (
      u,
      m,
      removed_other t u s.current _
          (another t u a k n b j m s.current h g (not_current a k b j s.stored q e)) g,
    )
  ];
  read_issued = λ u b j e. w.read_issued u b j (still_read t u s.current (read_token b j) e).1;
  fresh_issued =
      λ u b j m e. w.fresh_issued u b j m (still_read t u s.current (exchanged b j m) e).1;
  stored_issued = w.stored_issued;
  unissued = w.unissued;
  once = w.once;
}
store_if-IsSafe t a k n true s h q w = record {
  serial = w.serial;
  under_guard = λ u p e. elim (read_or_before t u s.current (written a k n) p e) [
    | inl (same, v) ↦
        let o = w.under_guard t (exchanged a k n) h in
        (o.0, rw (sym same, sym (ap account_of v)) o.1)
    | inr (d, before) ↦ w.under_guard u p before
  ];
  read_unused = λ u b j e. elim (read_or_before t u s.current (written a k n) (read_token b j) e) [
    | inl (same, v) ↦ let impossible : ⊥ = cc in absurd impossible
    | inr (d, before) ↦ w.read_unused u b j before
  ];
  fresh_unused = λ u b j m e.
      elim (read_or_before t u s.current (written a k n) (exchanged b j m) e) [
        | inl (same, v) ↦ let impossible : ⊥ = cc in absurd impossible
        | inr (d, before) ↦ w.fresh_unused u b j m before
      ];
  stored_well = λ b j e. elim (inserted_after a n b j s.stored e) [
    | inl (same, fresh) ↦ inl (rw (sym same, fresh) (w.fresh_unused t a k n h))
    | inr (kept, x) ↦ elim (w.stored_well b j kept) [
      | inl free ↦ inl free
      | inr (u, m, g) ↦ inr (
        u,
        m,
        inserted_other t u s.current _ _ (another t u a k n b j m s.current h g (rw x refl)) g,
      )
    ]
  ];
  read_issued = λ u b j e. elim (read_or_before t u s.current (written a k n) (read_token b j) e) [
    | inl (same, v) ↦ let impossible : ⊥ = cc in absurd impossible
    | inr (d, before) ↦ w.read_issued u b j before
  ];
  fresh_issued = λ u b j m e.
      elim (read_or_before t u s.current (written a k n) (exchanged b j m) e) [
        | inl (same, v) ↦ let impossible : ⊥ = cc in absurd impossible
        | inr (d, before) ↦ w.fresh_issued u b j m before
      ];
  stored_issued = λ b j e. elim (inserted_after a n b j s.stored e) [
    | inl (same, fresh) ↦ rw fresh (w.fresh_issued t a k n h)
    | inr (kept, x) ↦ w.stored_issued b j kept
  ];
  unissued = w.unissued;
  once = w.once;
}

pub store-IsSafe :
    (t : ℕ) (progress : Option Progress) (s : Refreshes)
    → get t s.current ≡ progress
    → IsSafe s
    → IsSafe (store t progress s)
store-IsSafe t none s h w = w
store-IsSafe t (some (read_token a k)) s h w = w
store-IsSafe t (some (written a k n)) s h w = w
store-IsSafe t (some (exchanged a k n)) s h w =
    store_if-IsSafe t a k n (is_current a k s.stored) s h refl w

pub update-IsSafe :
    (t : ℕ) (progress : Option Progress) (s : Refreshes)
    → get t s.current ≡ progress
    → IsSafe s
    → IsSafe (update t progress s)
update-IsSafe t none s h w = w
update-IsSafe t (some (read_token a k)) s h w = w
update-IsSafe t (some (exchanged a k n)) s h w = w
update-IsSafe t (some (written a k n)) s h w = record {
  serial = w.serial;
  under_guard = λ u p e. w.under_guard u p (still_read t u s.current p e).1;
  read_unused = λ u b j e. w.read_unused u b j (still_read t u s.current (read_token b j) e).1;
  fresh_unused =
      λ u b j m e. w.fresh_unused u b j m (still_read t u s.current (exchanged b j m) e).1;
  stored_well = λ b j e. elim (w.stored_well b j e) [
    | inl free ↦ inl free
    | inr (u, m, g) ↦ inr (u, m, removed_other t u s.current _ (not_writer u g) g)
  ];
  read_issued = λ u b j e. w.read_issued u b j (still_read t u s.current (read_token b j) e).1;
  fresh_issued =
      λ u b j m e. w.fresh_issued u b j m (still_read t u s.current (exchanged b j m) e).1;
  stored_issued = w.stored_issued;
  unissued = w.unissued;
  once = w.once;
}
  where
    not_writer : {b j m : ℕ} (u : ℕ) → get u s.current ≡ some (exchanged b j m) → (t == u) ≡ false
    not_writer u g = elim (Bool-cases (t == u)) [
      | inr d ↦ d
      | inl d ↦
          let clash = sym h ∙ ap (λ v. get v s.current) ((==_iff t u).0 d) ∙ g in
          let impossible : ⊥ = cc in absurd impossible
    ]
