-- ===== src/Limiter/Budget.antt =====
-- src/services/user_limiter.rs: what a request takes from its user's budget, and what it gives back.
use clewdr_hub.Common.{
  ℕ, zero, suc, ◌≤◌, ◌≡◌, refl, ap, ◌∙◌, Option, none, some, List, [], ◌∷◌, ◌++◌, arith, Bool-cases,
  false, and_left, and_right, ◌⊎◌, inl, inr, ==_iff, ==-refl, leb, length, get, insert, get-insert,
  ℤ,
}
use clewdr_hub.Limiter.{
  Semaphore, UserLimiter, UserLimiterMap, user_concurrency_exceeded, rpm_exceeded, Granted, refused,
  granted, expire, at_least_one, check_rpm_limit, acquire_on, same_limits, fresh_limiter, created,
  reuse_limiter, reuse, acquire_with, get_or_create, put, acquire,
}

-- What the limiter `after` is, for the limiter before and the answer.
pub data Charged {S : Type 0} (sem : Semaphore S) (limit now : ℕ) (l after : UserLimiter S) (h : ℕ)
    (result : Granted) : Type 0 where
  taken :
      result ≡ granted h
      → suc (sem.available after.concurrency) ≡ sem.available l.concurrency
      → after.rpm ≡ expire now l.rpm ++ now ∷ []
      → length after.rpm ≤ limit
      → Charged sem limit now l after h result
  busy :
      result ≡ refused user_concurrency_exceeded
      → sem.available l.concurrency ≡ 0
      → after ≡ l
      → Charged sem limit now l after h result
  full :
      result ≡ refused rpm_exceeded
      → sem.available after.concurrency ≡ sem.available l.concurrency
      → after.rpm ≡ expire now l.rpm
      → limit ≤ length after.rpm
      → Charged sem limit now l after h result

ℕ-cases : (n : ℕ) → (n ≡ 0) ⊎ ((k : ℕ) × (n ≡ suc k))
ℕ-cases zero = inl refl
ℕ-cases (suc k) = inr (k, refl)

length-append_one : (xs : List ℕ) (x : ℕ) → length (xs ++ x ∷ []) ≡ suc (length xs)
length-append_one [] x = refl
length-append_one (y ∷ ys) x = ap suc (length-append_one ys x)

-- The map has no limiter for the user, or one with other limits.
pub data Differs {S : Type 0} (m : UserLimiterMap S) (user mc rl : ℕ) : Type 0 where
  unknown : get user m.inner ≡ none → Differs m user mc rl
  lost : (h : ℕ) → get user m.inner ≡ some h → get h m.limiters ≡ none → Differs m user mc rl
  changed :
      (h : ℕ) (l : UserLimiter S)
      → get user m.inner ≡ some h
      → get h m.limiters ≡ some l
      → same_limits l mc rl ≡ false
      → Differs m user mc rl

module _ {S : Type 0} (sem : Semaphore S) where
  acquire_on-Charged :
      (l : UserLimiter S) (h limit now : ℕ)
      → Charged sem limit now l (acquire_on sem l h limit now).0 h (acquire_on sem l h limit now).1
  unfolding acquire_on check_rpm_limit
  acquire_on-Charged l h limit now = elim (ℕ-cases (sem.available l.concurrency)) [
    | inl e ↦ rw (sem.try_acquire-empty l.concurrency e, acquire_on) (busy refl e refl)
    | inr (n, e) ↦
        let (t, took, left) = sem.try_acquire-some l.concurrency n e in
        elim (Bool-cases (leb limit (length (expire now l.rpm)))) [
          | inl q ↦
              rw (took, acquire_on, q)
                (full refl (sem.available-release t ∙ rw (left, e)) refl (ground (arith, q)))
          | inr q ↦
              rw (took, acquire_on, q)
                (taken refl (rw (left, e)) refl
                  (rw (length-append_one (expire now l.rpm) now) (ground (arith, q))))
        ]
  ]

  -- Where the limiter `l` of the user, at the handle `h` of the map `t`, is from: it is the one that the map `m` has for
  -- the user, with the limits asked for, and the map is as it was; or it is a new one with all its permits and an empty
  -- window, which the user has from now on, at a handle of its own.
  pub data Origin (m : UserLimiterMap S) (user mc rl : ℕ) (t : UserLimiterMap S) (h : ℕ)
      (l : UserLimiter S) : Type 0 where
    kept :
        get user m.inner ≡ some h
        → get h m.limiters ≡ some l
        → l.max_concurrent ≡ mc
        → l.rpm_limit ≡ rl
        → t ≡ m
        → Origin m user mc rl t h l
    renewed :
        Differs m user mc rl
        → l ≡ fresh_limiter sem mc rl
        → h ≡ m.fresh
        → t.inner ≡ insert user h m.inner
        → t.limiters ≡ insert h l m.limiters
        → Origin m user mc rl t h l

  -- The limiter that a user gets: it is there, with the limits asked for.
  record Fits (m : UserLimiterMap S) (user max_concurrent rpm_limit : ℕ) (t : UserLimiterMap S)
      (h : ℕ) : Type 0 where
    limiter : UserLimiter S
    found : get h t.limiters ≡ some limiter
    origin : Origin m user max_concurrent rpm_limit t h limiter

  created-Fits :
      (m : UserLimiterMap S) (user mc rl : ℕ)
      → Differs m user mc rl
      → Fits m user mc rl (created sem m user mc rl).0 (created sem m user mc rl).1
  created-Fits m user mc rl d = record {
    limiter = fresh_limiter sem mc rl;
    found = get-insert m.fresh m.fresh (fresh_limiter sem mc rl) m.limiters ∙ rw (==-refl m.fresh);
    origin = renewed d refl refl refl refl;
  }

  reuse_limiter-Fits :
      (m : UserLimiterMap S) (user mc rl h : ℕ) (o : Option (UserLimiter S))
      → get user m.inner ≡ some h
      → get h m.limiters ≡ o
      → Fits m user mc rl
          (reuse_limiter sem m user mc rl h o).0
          (reuse_limiter sem m user mc rl h o).1
  reuse_limiter-Fits m user mc rl h none u e = created-Fits m user mc rl (lost h u e)
  reuse_limiter-Fits m user mc rl h (some l) u e = elim (Bool-cases (same_limits l mc rl)) [
    | inl q ↦ rw q (record {
      limiter = l;
      found = e;
      origin =
          kept u e ((==_iff l.max_concurrent mc).0 (and_left _ _ q))
            ((==_iff l.rpm_limit rl).0 (and_right _ _ q)) refl;
    })
    | inr q ↦ rw q (created-Fits m user mc rl (changed h l u e q))
  ]

  reuse-Fits :
      (m : UserLimiterMap S) (user mc rl : ℕ) (o : Option ℕ)
      → get user m.inner ≡ o
      → Fits m user mc rl (reuse sem m user mc rl o).0 (reuse sem m user mc rl o).1
  reuse-Fits m user mc rl none u = created-Fits m user mc rl (unknown u)
  reuse-Fits m user mc rl (some h) u = reuse_limiter-Fits m user mc rl h (get h m.limiters) u refl

  -- `acquire` always ends, on the limiter that the map has for the user if its limits are the ones asked for, and else on
  -- a new one for this user. A request that is let through takes one permit of that limiter and one place in its window,
  -- which never has more than the limit; one that is refused for concurrency, when no permit is left, changes nothing;
  -- one that is refused for its rate, when the window is full, gives its permit back. The map differs from the one with
  -- that limiter only in what became of it.
  pub acquire-Charged :
      (m : UserLimiterMap S) (user : ℕ) (max_concurrent rpm_limit : ℤ) (now : ℕ)
      → (t : UserLimiterMap S) × (h : ℕ) × (l : UserLimiter S) × (after : UserLimiter S)
        × (result : Granted) × (acquire sem m user max_concurrent rpm_limit now
            ≡ some (put t h after, result))
        × (get h t.limiters ≡ some l)
        × Origin m user (at_least_one max_concurrent) (at_least_one rpm_limit) t h l
        × Charged sem (at_least_one rpm_limit) now l after h result
  unfolding acquire get_or_create
  acquire-Charged m user max_concurrent rpm_limit now =
      let mc = at_least_one max_concurrent in
      let rl = at_least_one rpm_limit in
      let h = (reuse sem m user mc rl (get user m.inner)).1 in
      let t = (reuse sem m user mc rl (get user m.inner)).0 in
      let f = reuse-Fits m user mc rl (get user m.inner) refl in
      (
        t,
        h,
        f.limiter,
        (acquire_on sem f.limiter h rl now).0,
        (acquire_on sem f.limiter h rl now).1,
        ap (acquire_with sem t h rl now) f.found,
        f.found,
        f.origin,
        acquire_on-Charged f.limiter h rl now,
      )
