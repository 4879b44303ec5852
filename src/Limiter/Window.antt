-- ===== src/Limiter/Window.antt =====
-- src/services/user_limiter.rs: the queue of instants is a sliding window of a minute.
use clewdr_hub.Common.{
  ℕ, ◌≤◌, ◌≡◌, refl, sym, ap, ◌∙◌, Bool, true, false, not, List, [], ◌∷◌, ◌++◌, arith,
  if◌then◌else◌, Bool-cases, inl, inr, leb, length, count,
}
use clewdr_hub.Limiter.{UserLimiter, is_expired, expire, check_rpm_limit}

-- The instants stand in the order of time, from `s` on and up to `t`.
abbrev pub Spans : ℕ → List ℕ → ℕ → Type 0
Spans s [] t = s ≤ t
Spans s (u ∷ us) t = (s ≤ u) × Spans u us t

-- How many of the instants are less than a minute ago.
unfoldable pub recent : ℕ → List ℕ → ℕ
recent now ts = count (λ t. not (is_expired now t)) ts

-- The requests at the instants that follow, by the limiter: which of them go on.
unfoldable pub decisions : {S : Type 0} → ℕ → UserLimiter S → List ℕ → List Bool
decisions limit l [] = []
decisions limit l (now ∷ nows) =
    let (after, ok) = check_rpm_limit l limit now in ok ∷ decisions limit after nows

-- The same by the rule: fewer than `limit` of all the requests that went on are less than a minute ago.
unfoldable pub reference : ℕ → List ℕ → List ℕ → List Bool
reference limit history [] = []
reference limit history (now ∷ nows) =
    let ok = not (leb limit (recent now history)) in
    ok ∷ reference limit (if ok then history ++ now ∷ [] else history) nows

is_expired_mono : (now t u : ℕ) → t ≤ u → is_expired now t ≡ false → is_expired now u ≡ false
unfolding is_expired
is_expired_mono now t u h e = ground arith

is_expired-later :
    (now later t : ℕ) → now ≤ later → is_expired now t ≡ true → is_expired later t ≡ true
unfolding is_expired
is_expired-later now later t h e = ground arith

all_recent :
    (now s t : ℕ) (us : List ℕ)
    → Spans s us t
    → is_expired now s ≡ false
    → recent now us ≡ length us
unfolding recent count
all_recent now s t [] h e = refl
all_recent now s t (u ∷ us) h e =
    let fresh = is_expired_mono now s u h.0 e in
    let rest = all_recent now u t us h.1 fresh in rw fresh (omega (arith, rest))

length-expire : (now s t : ℕ) (ts : List ℕ) → Spans s ts t → length (expire now ts) ≡ recent now ts
unfolding expire recent count
length-expire now s t [] h = refl
length-expire now s t (u ∷ us) h = elim (Bool-cases (is_expired now u)) [
  | inl e ↦ let rest = length-expire now u t us h.1 in rw e (omega (arith, rest))
  | inr e ↦ let rest = all_recent now u t us h.1 e in rw e (omega (arith, rest))
]

expire-append :
    (now : ℕ) (ts us : List ℕ) → expire now (expire now ts ++ us) ≡ expire now (ts ++ us)
unfolding expire
expire-append now [] us = refl
expire-append now (t ∷ ts) us = elim (Bool-cases (is_expired now t)) [
  | inl e ↦ rw e (expire-append now ts us)
  | inr e ↦ rw (e, e) refl
]

expire-expire :
    (now later : ℕ) (ts : List ℕ) → now ≤ later → expire later (expire now ts) ≡ expire later ts
unfolding expire
expire-expire now later [] h = refl
expire-expire now later (t ∷ ts) h = elim (Bool-cases (is_expired now t)) [
  | inl e ↦ rw (e, is_expired-later now later t h e) (expire-expire now later ts h)
  | inr e ↦ rw e refl
]

Spans-later : (s t n : ℕ) (ts : List ℕ) → Spans s ts t → t ≤ n → Spans s ts n
Spans-later s t n [] h k = omega arith
Spans-later s t n (u ∷ us) h k = (h.0, Spans-later u t n us h.1 k)

Spans-append : (s t n : ℕ) (ts : List ℕ) → Spans s ts t → t ≤ n → Spans s (ts ++ n ∷ []) n
Spans-append s t n [] h k = (omega arith, omega arith)
Spans-append s t n (u ∷ us) h k = (h.0, Spans-append u t n us h.1 k)

-- The queue is as good as the history, from `t` on.
abbrev Tracks : ℕ → List ℕ → List ℕ → Type 0
Tracks t queue history = (n : ℕ) → t ≤ n → expire n queue ≡ expire n history

Tracks-append :
    (t now : ℕ) (queue history : List ℕ)
    → t ≤ now
    → Tracks t queue history
    → Tracks now (expire now queue ++ now ∷ []) (history ++ now ∷ [])
Tracks-append t now queue history h k n le =
    sym (expire-append n (expire now queue) (now ∷ []))
    ∙ ap (λ ts. expire n (ts ++ now ∷ [])) (expire-expire now n queue le ∙ k n (omega arith))
    ∙ expire-append n history (now ∷ [])

module _ {S : Type 0} (limit : ℕ) where
  decisions-Tracks :
      (nows : List ℕ) (l : UserLimiter S) (history : List ℕ) (t last : ℕ)
      → Spans 0 history t
      → Tracks t l.rpm history
      → Spans t nows last
      → decisions limit l nows ≡ reference limit history nows
  unfolding decisions reference check_rpm_limit
  decisions-Tracks [] l history t last h k o = refl
  decisions-Tracks (now ∷ nows) l history t last h k o =
      let same : length (expire now l.rpm) ≡ recent now history =
        ap length (k now o.0) ∙ length-expire now 0 t history h in
      elim (Bool-cases (leb limit (recent now history))) [
        | inl e ↦
            rw (same, e)
              (ap (λ bs. false ∷ bs)
                (decisions-Tracks nows (record l { rpm = expire now l.rpm }) history now last
                  (Spans-later 0 t now history h o.0)
                  (λ n le. expire-expire now n l.rpm le ∙ k n (omega (arith, o.0))) o.1))
        | inr e ↦
            rw (same, e)
              (ap (λ bs. true ∷ bs)
                (decisions-Tracks nows (record l { rpm = expire now l.rpm ++ now ∷ [] })
                  (history ++ now ∷ []) now last (Spans-append 0 t now history h o.0)
                  (Tracks-append t now l.rpm history o.0 k) o.1))
      ]

  -- A fresh limiter is an exact sliding window: of requests in the order of time, it lets through those before
  -- which fewer than `limit` of the ones let through are less than a minute ago.
  pub decisions-reference :
      (l : UserLimiter S) (last : ℕ) (nows : List ℕ)
      → l.rpm ≡ []
      → Spans 0 nows last
      → decisions limit l nows ≡ reference limit [] nows
  decisions-reference l last nows e o =
      decisions-Tracks nows l [] 0 last (omega arith) (λ n h. rw e) o
