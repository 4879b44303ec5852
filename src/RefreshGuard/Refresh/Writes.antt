-- ===== src/RefreshGuard/Refresh/Writes.antt =====
-- src/claude_code_state/chat.rs, `persist_oauth_refresh`: the writes of tokens to the database and to the pool.
use clewdr_hub.Common.{
  ℕ, ◌<◌, ◌≡◌, ◌≢◌, refl, sym, ap, ◌∙◌, subst, Bool, true, false, ◌&&◌, Bool-cases, ◌⊎◌, inl, inr,
  Option, none, some, List, is_some_and, ◌==◌, ==_iff, ==-refl, get, insert, remove, modify,
  get-insert, get-remove, get-modify, arith,
}
use clewdr_hub.RefreshGuard.Refresh.{
  Refreshes, Progress, read_token, exchanged, written, is_current, store, store_if,
  update_if_current, update, pool_token, turn, replaced, pools, unpools,
}
use clewdr_hub.RefreshGuard.Refresh.Safe.{
  account_of, IsSafe, still_read, read_or_before, removed_other, inserted_other, same_task,
}
use clewdr_hub.RefreshGuard.Refresh.Steps.{inserted_after, not_current}
use clewdr_hub.RefreshGuard.Refresh.Pooled.{IsPooled, IsOrdered, not_written, removed-IsPooled}

-- Two tasks are under the guards of two accounts.
apart :
    (s : Refreshes) (t u : ℕ) (p q : Progress)
    → IsSafe s
    → get t s.current ≡ some p
    → get u s.current ≡ some q
    → (t == u) ≡ false
    → (account_of p == account_of q) ≡ false
apart s t u p q w h g d = elim (Bool-cases (account_of p == account_of q)) [
  | inr e ↦ e
  | inl e ↦
      let o = w.under_guard t p h in
      let one : t ≡ u =
        same_task s t u (account_of p) o.0 q w o.1 g ((==_iff (account_of p) (account_of q)).0 e) in
      let impossible : ⊥ = ground (arith, one, d) in absurd impossible
]

inserted_self : {A : Type 0} (a : ℕ) (v : A) (m : List (ℕ × A)) → get a (insert a v m) ≡ some v
inserted_self a v m = get-insert a a v m ∙ rw (==-refl a) refl

current_token :
    (a k : ℕ) (tokens : List (ℕ × ℕ)) → is_current a k tokens ≡ true → get a tokens ≡ some k
current_token a k tokens h = go (get a tokens) h
  where
    go : (o : Option ℕ) → is_some_and o (λ i. i == k) ≡ true → o ≡ some k
    go none e = let impossible : ⊥ = cc in absurd impossible
    go (some i) e = ap some ((==_iff i k).0 e)

store_if-IsPooled :
    (t a k n : ℕ) (b : Bool) (s : Refreshes)
    → get t s.current ≡ some (exchanged a k n)
    → is_current a k s.stored ≡ b
    → IsSafe s
    → IsPooled s
    → IsPooled (store_if t a k n b s)
store_if-IsPooled t a k n false s h q w p = removed-IsPooled t s (rw h tt) p
store_if-IsPooled t a k n true s h q w p = record {
  linked = λ b j e. elim (p.linked b j e) [
    | inr (u, m, g) ↦
        inr (u, m, inserted_other t u s.current _ _ (not_written t u b j m s.current (rw h tt) g) g)
    | inl g ↦ elim (Bool-cases (a == b)) [
      | inr d ↦ inl (get-insert a b n s.stored ∙ rw d g)
      | inl d ↦
          let same : a ≡ b = (==_iff a b).0 d in
          let clash : some k ≡ some j =
            sym (current_token a k s.stored q) ∙ ap (λ c. get c s.stored) same ∙ g in
          let token : k ≡ j = cc in
          inr (t, n, rw (sym same, sym token) (inserted_self t (written a k n) s.current))
    ]
  ];
  ordered = λ u v e. elim (read_or_before t u s.current (written a k n) v e) [
    | inl (same, g) ↦ subst IsOrdered g (p.ordered t (exchanged a k n) h)
    | inr (d, before) ↦ p.ordered u v before
  ];
  written_issued = λ u b j m e.
      elim (read_or_before t u s.current (written a k n) (written b j m) e) [
        | inl (same, g) ↦
            let fresh : n ≡ m = cc in let below = w.fresh_issued t a k n h in rw (sym fresh) below
        | inr (d, before) ↦ p.written_issued u b j m before
      ];
  not_stored = λ u b j m e x.
      elim (read_or_before t u s.current (written a k n) (written b j m) e) [
        | inl (same, g) ↦
            let token : (a ≡ b) × (k ≡ j) = (cc, cc) in
            let later : k < n = p.ordered t (exchanged a k n) h in
            elim (inserted_after a n b j s.stored x) [
              | inl (_, fresh) ↦ omega (arith, token.1, fresh, later)
              | inr (_, d) ↦ ground (arith, token.0, d)
            ]
        | inr (d, before) ↦ elim (inserted_after a n b j s.stored x) [
          | inl (same, _) ↦ ground (arith, same, apart s t u _ _ w h before d)
          | inr (kept, _) ↦ p.not_stored u b j m before kept
        ]
      ];
  followed = λ u b j m e x. elim (read_or_before t u s.current (written a k n) (written b j m) e) [
    | inl (same, g) ↦
        let token : (a ≡ b) × (n ≡ m) = (cc, cc) in
        rw (sym token.0, sym token.1) (inserted_self a n s.stored)
    | inr (d, before) ↦
        get-insert a b n s.stored
        ∙ rw (apart s t u (exchanged a k n) (written b j m) w h before d)
            (p.followed u b j m before x)
  ];
}

pub store-IsPooled :
    (t : ℕ) (progress : Option Progress) (s : Refreshes)
    → get t s.current ≡ progress
    → IsSafe s
    → IsPooled s
    → IsPooled (store t progress s)
store-IsPooled t none s h w p = p
store-IsPooled t (some (read_token a k)) s h w p = p
store-IsPooled t (some (written a k n)) s h w p = p
store-IsPooled t (some (exchanged a k n)) s h w p =
    store_if-IsPooled t a k n (is_current a k s.stored) s h refl w p

-- What the pool has after an update is the new token in place of the old one, or another one.
updated :
    (a k n b j : ℕ) (pooled : List (ℕ × ℕ))
    → get b (update_if_current a k n pooled) ≡ some j
    → ((a ≡ b) × (j ≡ n) × (get a pooled ≡ some k))
      ⊎ ((get b pooled ≡ some j) × ((a == b) && (k == j) ≡ false))
updated a k n b j pooled e = elim (Bool-cases (is_current a k pooled)) [
  | inl q ↦
      let e' : get b (insert a n pooled) ≡ some j = sym (rw q refl) ∙ e in
      elim (inserted_after a n b j pooled e') [
        | inl (same, fresh) ↦ inl (same, fresh, current_token a k pooled q)
        | inr (kept, d) ↦ inr (kept, rw d refl)
      ]
  | inr q ↦
      let e' : get b pooled ≡ some j = sym (rw q refl) ∙ e in
      inr (e', not_current a k b j pooled q e')
]

-- A task that has written one token is not the one that has written another.
other_writer :
    (t u a k n b j m : ℕ) (c : List (ℕ × Progress))
    → get t c ≡ some (written a k n)
    → get u c ≡ some (written b j m)
    → (a == b) && (k == j) ≡ false
    → (t == u) ≡ false
other_writer t u a k n b j m c h g x = elim (Bool-cases (t == u)) [
  | inr d ↦ d
  | inl d ↦
      let at_t : get t c ≡ some (written b j m) = rw ((==_iff t u).0 d) g in
      let clash : some (written a k n) ≡ some (written b j m) = sym h ∙ at_t in
      let token : (a ≡ b) × (k ≡ j) = (cc, cc) in
      let impossible : ⊥ = ground (arith, token, x) in absurd impossible
]

pub update-IsPooled :
    (t : ℕ) (progress : Option Progress) (s : Refreshes)
    → get t s.current ≡ progress
    → IsSafe s
    → IsPooled s
    → IsPooled (update t progress s)
update-IsPooled t none s h w p = p
update-IsPooled t (some (read_token a k)) s h w p = p
update-IsPooled t (some (exchanged a k n)) s h w p = p
update-IsPooled t (some (written a k n)) s h w p = record {
  linked = λ b j e. elim (updated a k n b j s.pooled e) [
    | inl (same, fresh, was) ↦ inl (rw (sym same, fresh) (p.followed t a k n h was))
    | inr (kept, x) ↦ elim (p.linked b j kept) [
      | inl g ↦ inl g
      | inr (u, m, g) ↦
          inr (u, m, removed_other t u s.current _ (other_writer t u a k n b j m s.current h g x) g)
    ]
  ];
  ordered = λ u v e. p.ordered u v (still_read t u s.current v e).1;
  written_issued =
      λ u b j m e. p.written_issued u b j m (still_read t u s.current (written b j m) e).1;
  not_stored = λ u b j m e. p.not_stored u b j m (still_read t u s.current (written b j m) e).1;
  followed = λ u b j m e x.
      let r = still_read t u s.current (written b j m) e in
      elim (updated a k n b j s.pooled x) [
        | inl (same, _, _) ↦
            let impossible : ⊥ = ground (arith, same, apart s t u _ _ w h r.1 r.0) in
            absurd impossible
        | inr (kept, _) ↦ p.followed u b j m r.1 kept
      ];
}

modified :
    (a v b j : ℕ) (pooled : List (ℕ × ℕ))
    → get b (modify a (λ k. v) pooled) ≡ some j
    → ((a ≡ b) × (j ≡ v)) ⊎ ((get b pooled ≡ some j) × ((a == b) ≡ false))
modified a v b j pooled e = elim (Bool-cases (a == b)) [
  | inr d ↦ inr (sym (get-modify a b (λ k. v) pooled ∙ rw d refl) ∙ e, d)
  | inl d ↦
      inl
        ((==_iff a b).0 d, go (get b pooled) (sym (get-modify a b (λ k. v) pooled ∙ rw d refl) ∙ e))
]
  where
    go :
        (o : Option ℕ)
        → elim o as (λ _. Option ℕ) [ none ↦ none | some k ↦ some v ] ≡ some j
        → j ≡ v
    go none f = let impossible : ⊥ = cc in absurd impossible
    go (some k) f = cc

-- No token is written that is issued only now.
not_now :
    (t a k n : ℕ) (s : Refreshes)
    → IsPooled s
    → get t s.current ≡ some (written a k n)
    → k ≢ s.issued
not_now t a k n s p e q =
    omega (arith, p.ordered t (written a k n) e, p.written_issued t a k n e, q)

pub replaced-IsPooled : (a : ℕ) (s : Refreshes) → IsPooled s → IsPooled (turn (replaced a) s)
unfolding turn
replaced-IsPooled a s p = record {
  linked = λ b j e. elim (modified a s.issued b j s.pooled e) [
    | inl (same, fresh) ↦ inl (rw (sym same, fresh) (inserted_self a s.issued s.stored))
    | inr (kept, d) ↦ elim (p.linked b j kept) [
      | inl g ↦ inl (get-insert a b s.issued s.stored ∙ rw d g)
      | inr g ↦ inr g
    ]
  ];
  ordered = p.ordered;
  written_issued = λ t b j m e. omega (arith, p.written_issued t b j m e);
  not_stored = λ t b j m e x. elim (inserted_after a s.issued b j s.stored x) [
    | inl (same, fresh) ↦ not_now t b j m s p e fresh
    | inr (kept, d) ↦ p.not_stored t b j m e kept
  ];
  followed = λ t b j m e x. elim (modified a s.issued b j s.pooled x) [
    | inl (same, fresh) ↦ absurd (not_now t b j m s p e fresh)
    | inr (kept, d) ↦ get-insert a b s.issued s.stored ∙ rw d (p.followed t b j m e kept)
  ];
}

-- The pool has no token of an account any more.
unpooled-IsPooled :
    (a : ℕ) (s : Refreshes) → IsPooled s → IsPooled (record s { pooled = remove a s.pooled })
unpooled-IsPooled a s p = record {
  linked = λ b j e. p.linked b j (kept b j e);
  ordered = p.ordered;
  written_issued = p.written_issued;
  not_stored = p.not_stored;
  followed = λ t b j m e x. p.followed t b j m e (kept b j x);
}
  where
    kept : (b j : ℕ) → get b (remove a s.pooled) ≡ some j → get b s.pooled ≡ some j
    kept b j e = ground (arith, get-remove a b s.pooled, e)

pub unpools-IsPooled : (a : ℕ) (s : Refreshes) → IsPooled s → IsPooled (turn (unpools a) s)
unfolding turn
unpools-IsPooled a s p = unpooled-IsPooled a s p

loaded-IsPooled :
    (a : ℕ) (o : Option ℕ) (s : Refreshes)
    → get a s.stored ≡ o
    → IsPooled s
    → IsPooled (record s { pooled = pool_token a o s.pooled })
loaded-IsPooled a none s h p = unpooled-IsPooled a s p
loaded-IsPooled a (some k) s h p = record {
  linked = λ b j e. elim (inserted_after a k b j s.pooled e) [
    | inl (same, fresh) ↦ inl (rw (sym same, fresh) h)
    | inr (kept, d) ↦ p.linked b j kept
  ];
  ordered = p.ordered;
  written_issued = p.written_issued;
  not_stored = p.not_stored;
  followed = λ t b j m e x. elim (inserted_after a k b j s.pooled x) [
    | inl (same, fresh) ↦
        let stored : get b s.stored ≡ some j = rw (sym same, fresh) h in
        absurd (p.not_stored t b j m e stored)
    | inr (kept, d) ↦ p.followed t b j m e kept
  ];
}

pub pools-IsPooled : (a : ℕ) (s : Refreshes) → IsPooled s → IsPooled (turn (pools a) s)
unfolding turn
pools-IsPooled a s p = loaded-IsPooled a (get a s.stored) s refl p
