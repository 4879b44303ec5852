-- ===== src/Limiter.antt =====
-- src/services/user_limiter.rs: how many requests a user may have open, and how many a minute. The semaphore is
-- the crate tokio's, a parameter here; an instant is its count of nanoseconds.
pub mod Window
pub mod Budget
use Prim.Native.Nat.{◌-◌, ◌/◌}
use clewdr_hub.Common.{
  ℕ, suc, ◌≤◌, ◌≡◌, max, Bool, true, false, ◌&&◌, Option, none, some, List, [], ◌∷◌, ◌++◌,
  if◌then◌else◌, ◌==◌, leb, length, get, insert, remove, modify, ℤ, pos_part,
}

-- `tokio::sync::Semaphore`: what the limiter uses of it.
pub record Semaphore (S : Type 0) : Type 0 where
  pub new : ℕ → S
  pub available : S → ℕ
  pub try_acquire : S → Option S
  pub release : S → S
  pub available-new : (n : ℕ) → available (new n) ≡ n
  pub try_acquire-empty : (s : S) → available s ≡ 0 → try_acquire s ≡ none
  pub try_acquire-some :
      (s : S) (n : ℕ) → available s ≡ suc n → (t : S) × (try_acquire s ≡ some t) × (available t ≡ n)
  pub available-release : (s : S) → available (release s) ≡ suc (available s)

-- `UserLimiter`; the two limits are `u32`.
pub record UserLimiter (S : Type 0) : Type 0 where
  pub concurrency : S
  pub rpm : List ℕ
  pub max_concurrent : ℕ
  pub rpm_limit : ℕ

-- `UserLimiterMap`, with the limiters behind their `Arc`s: a permit keeps the limiter that it is from, also when
-- the map has another one by then.
pub record UserLimiterMap (S : Type 0) : Type 0 where
  pub inner : List (ℕ × ℕ)
  pub limiters : List (ℕ × UserLimiter S)
  pub fresh : ℕ

pub data LimitError : Type 0 where
  user_concurrency_exceeded rpm_exceeded : LimitError

-- What a request gets: an error, or the handle of the limiter that its permit is from.
pub data Granted : Type 0 where
  refused : LimitError → Granted
  granted : ℕ → Granted

-- `duration_since(t).as_secs() >= 60`; the duration is zero where `t` is later.
unfoldable pub is_expired : ℕ → ℕ → Bool
is_expired now t = leb 60 ((now - t) / 1000000000)

-- The `while` that pops the front.
unfoldable pub expire : ℕ → List ℕ → List ℕ
expire now [] = []
expire now (t ∷ ts) = let rest = expire now ts in if is_expired now t then rest else t ∷ ts

-- `.max(1) as u32`.
unfoldable pub at_least_one : ℤ → ℕ
at_least_one n = max 1 (pos_part n)

module _ {S : Type 0} where
  -- `check_rpm_limit`: the limiter, and whether the request may go on.
  unfoldable pub check_rpm_limit : UserLimiter S → ℕ → ℕ → UserLimiter S × Bool
  check_rpm_limit l rpm_limit now =
      let kept = expire now l.rpm in
      if leb rpm_limit (length kept)
      then (record l { rpm = kept }, false)
      else (record l { rpm = kept ++ now ∷ [] }, true)

  -- The body of `acquire` on its limiter. A permit that is taken before the check is dropped when the check fails.
  unfoldable pub acquire_on : Semaphore S → UserLimiter S → ℕ → ℕ → ℕ → UserLimiter S × Granted
  acquire_on sem l handle rpm_limit now = elim (sem.try_acquire l.concurrency) [
    | none ↦ (l, refused user_concurrency_exceeded)
    | some taken ↦
        let (checked, ok) = check_rpm_limit (record l { concurrency = taken }) rpm_limit now in
        if ok
        then (checked, granted handle)
        else (record checked { concurrency = sem.release taken }, refused rpm_exceeded)
  ]

  abbrev pub same_limits : UserLimiter S → ℕ → ℕ → Bool
  same_limits l max_concurrent rpm_limit =
      l.max_concurrent == max_concurrent && l.rpm_limit == rpm_limit

  abbrev pub fresh_limiter : Semaphore S → ℕ → ℕ → UserLimiter S
  fresh_limiter sem max_concurrent rpm_limit = record {
    concurrency = sem.new max_concurrent;
    rpm = [];
    max_concurrent = max_concurrent;
    rpm_limit = rpm_limit;
  }

  abbrev pub created : Semaphore S → UserLimiterMap S → ℕ → ℕ → ℕ → UserLimiterMap S × ℕ
  created sem m user max_concurrent rpm_limit = (
    record {
      inner = insert user m.fresh m.inner;
      limiters = insert m.fresh (fresh_limiter sem max_concurrent rpm_limit) m.limiters;
      fresh = suc m.fresh;
    },
    m.fresh,
  )

  abbrev pub reuse_limiter :
      Semaphore S → UserLimiterMap S → ℕ → ℕ → ℕ → ℕ → Option (UserLimiter S) → UserLimiterMap S × ℕ
  reuse_limiter sem m user max_concurrent rpm_limit h none =
      created sem m user max_concurrent rpm_limit
  reuse_limiter sem m user max_concurrent rpm_limit h (some l) =
      if same_limits l max_concurrent rpm_limit
      then (m, h)
      else created sem m user max_concurrent rpm_limit

  abbrev pub reuse : Semaphore S → UserLimiterMap S → ℕ → ℕ → ℕ → Option ℕ → UserLimiterMap S × ℕ
  reuse sem m user max_concurrent rpm_limit none = created sem m user max_concurrent rpm_limit
  reuse sem m user max_concurrent rpm_limit (some h) =
      reuse_limiter sem m user max_concurrent rpm_limit h (get h m.limiters)

  -- `get_or_create`: the map, and the handle of the user's limiter.
  unfoldable pub get_or_create : Semaphore S → UserLimiterMap S → ℕ → ℕ → ℕ → UserLimiterMap S × ℕ
  get_or_create sem m user max_concurrent rpm_limit =
      reuse sem m user max_concurrent rpm_limit (get user m.inner)

  abbrev pub put : UserLimiterMap S → ℕ → UserLimiter S → UserLimiterMap S
  put m h l = record m { limiters = insert h l m.limiters }

  abbrev pub acquire_with :
      Semaphore S
      → UserLimiterMap S
      → ℕ
      → ℕ
      → ℕ
      → Option (UserLimiter S)
      → Option (UserLimiterMap S × Granted)
  acquire_with sem t h rpm_limit now none = none
  acquire_with sem t h rpm_limit now (some l) =
      let (after, result) = acquire_on sem l h rpm_limit now in some (put t h after, result)

  -- `acquire`. The handle that `get_or_create` returns always has a limiter.
  unfoldable pub acquire :
      Semaphore S → UserLimiterMap S → ℕ → ℤ → ℤ → ℕ → Option (UserLimiterMap S × Granted)
  acquire sem m user max_concurrent rpm_limit now =
      let (t, h) =
        get_or_create sem m user (at_least_one max_concurrent) (at_least_one rpm_limit) in
      acquire_with sem t h (at_least_one rpm_limit) now (get h t.limiters)

  -- `check_rpm`, which takes no permit.
  unfoldable pub check_rpm :
      Semaphore S → UserLimiterMap S → ℕ → ℤ → ℤ → ℕ → Option (UserLimiterMap S × Bool)
  check_rpm sem m user max_concurrent rpm_limit now =
      let (t, h) =
        get_or_create sem m user (at_least_one max_concurrent) (at_least_one rpm_limit) in
      elim (get h t.limiters) [
        | none ↦ none
        | some l ↦
            let (after, ok) = check_rpm_limit l (at_least_one rpm_limit) now in
            some (put t h after, ok)
      ]

  -- A permit is dropped.
  unfoldable pub drop_permit : Semaphore S → UserLimiterMap S → ℕ → UserLimiterMap S
  drop_permit sem m h = record m {
    limiters = modify h (λ l. record l { concurrency = sem.release l.concurrency }) m.limiters;
  }

  -- `UserLimiterMap::remove`.
  unfoldable pub remove_user : UserLimiterMap S → ℕ → UserLimiterMap S
  remove_user m user = record m { inner = remove user m.inner }
