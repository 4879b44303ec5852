-- ===== src/ClientIp/Spoofing.antt =====
-- src/middleware/auth.rs: what a client can make of its address.
use mathlib.Core.List.{reverse, reverse-append, reverse-cons, append-nil, append_assoc}
use clewdr_hub.Common.{
  ℕ, zero, suc, ◌-◌, ◌≤◌, ◌≡◌, refl, sym, ap, ◌∙◌, Bool, true, false, Option, some, List, [], ◌∷◌,
  ◌++◌, leb, ◌==◌, length, length-append, is_some_and, arith, inl, inr, Bool-cases,
}
use clewdr_hub.ClientIp.{
  xff, ForwardedHeaders, is_empty, take, drop, push_front, split_commas, truncate_chain,
  scanned_hops, ip_is_trusted, truncate_token, is_outside, scan_hops, forwarded_chain_raw,
  resolve_client_ip_from,
}

push_two :
    (c d : ℕ) (xs pieces : List (List ℕ))
    → push_front c (push_front d xs ++ pieces) ≡ push_front c (push_front d xs) ++ pieces
push_two c d [] pieces = refl
push_two c d (x ∷ xs) pieces = refl

push_front-append :
    (c : ℕ) (s : List ℕ) (pieces : List (List ℕ))
    → push_front c (split_commas s ++ pieces) ≡ push_front c (split_commas s) ++ pieces
unfolding split_commas
push_front-append c [] pieces = refl
push_front-append c (d ∷ s) pieces = elim (Bool-cases (d == b',')) [
  | inl e ↦ rw e refl
  | inr e ↦ rw e (push_two c d (split_commas s) pieces)
]

split_commas-append :
    (s t : List ℕ) → split_commas (s ++ b',' ∷ t) ≡ split_commas s ++ split_commas t
unfolding split_commas
split_commas-append [] t = refl
split_commas-append (c ∷ s) t = elim (Bool-cases (c == b',')) [
  | inl e ↦ rw (e, split_commas-append s t) refl
  | inr e ↦ rw (e, split_commas-append s t) (push_front-append c s (split_commas t))
]

module _ {A : Type 0} where
  drop-append : (n : ℕ) (xs ys : List A) → n ≤ length xs → drop n (xs ++ ys) ≡ drop n xs ++ ys
  unfolding drop
  drop-append zero xs ys h = refl
  drop-append (suc n) [] ys h = absurd (omega (arith, h))
  drop-append (suc n) (x ∷ xs) ys h = drop-append n xs ys (omega (arith, h))

  take-append : (n : ℕ) (xs ys : List A) → n ≤ length xs → take n (xs ++ ys) ≡ take n xs
  unfolding take
  take-append zero xs ys h = refl
  take-append (suc n) [] ys h = absurd (omega (arith, h))
  take-append (suc n) (x ∷ xs) ys h = ap (λ zs. x ∷ zs) (take-append n xs ys (omega (arith, h)))

leb→le : (a b : ℕ) → leb a b ≡ true → a ≤ b
leb→le a b h = ground arith

take_whole : {A : Type 0} (xs : List A) → take (length xs) xs ≡ xs
unfolding take
take_whole [] = refl
take_whole (x ∷ xs) = ap (λ zs. x ∷ zs) (take_whole xs)

append_nothing : {A : Type 0} (xs ys : List A) → length ys ≡ 0 → xs ++ ys ≡ xs
append_nothing xs [] h = append-nil xs
append_nothing xs (y ∷ ys) h = absurd (omega (arith, h))

-- A list of at least `n` elements that something is appended to and that has at most `n` elements.
take_all : (n : ℕ) (own s : List ℕ) → n ≤ length own → length (own ++ s) ≤ n → own ++ s ≡ take n own
unfolding take
take_all n own s h k =
    let same : length own ≡ n = omega (arith, h, k, length-append own s) in
    append_nothing own s (omega (arith, h, k, length-append own s))
    ∙ sym (take_whole own)
    ∙ ap (λ m. take m own) same

scanned_hops-append :
    (s t : List ℕ)
    → length (split_commas t) ≤ 16
    → (earlier : List (List ℕ)) × (scanned_hops (s ++ b',' ∷ t)
        ≡ reverse (split_commas t) ++ earlier)
unfolding scanned_hops
scanned_hops-append s t h =
    let hops = split_commas s in
    let n = length (hops ++ split_commas t) - 16 in
    (
      reverse (drop n hops),
      rw (
        split_commas-append s t,
        drop-append n hops (split_commas t) (omega (arith, h, length-append hops (split_commas t))),
        reverse-append,
      ),
    )

-- The header that a client's own text `own` becomes when proxies append `appended` behind a comma.
abbrev pub behind : List ℕ → List ℕ → Option (List ℕ) → ForwardedHeaders
behind own appended x_real_ip = record {
  x_forwarded_for = some (own ++ b',' ∷ appended);
  x_real_ip = x_real_ip;
}

module _ {Ip Net : Type 0} (contains : Net → Ip → Bool) (parse : List ℕ → Option Ip)
    (trim : List ℕ → List ℕ) (to_str : List ℕ → Option (List ℕ)) (trusted : List Net) where
  token_of : List ℕ → List ℕ
  token_of = truncate_token contains parse trim to_str trusted

  -- A hop that the scan goes past: empty, no address, or an address of a trusted network.
  abbrev pub IsSkipped : List ℕ → Type 0
  IsSkipped hop =
      is_outside contains parse trim to_str trusted
        (truncate_token contains parse trim to_str trusted hop)
      ≡ false

  -- A hop that the scan stops at: an address outside the trusted networks.
  abbrev pub IsClient : List ℕ → Type 0
  IsClient hop =
      is_outside contains parse trim to_str trusted
        (truncate_token contains parse trim to_str trusted hop)
      ≡ true

  abbrev pub AreSkipped : List (List ℕ) → Type 0
  AreSkipped [] = Unit {0}
  AreSkipped (hop ∷ hops) = IsSkipped hop × AreSkipped hops

  scan : List (List ℕ) → Option (List ℕ)
  scan hops = scan_hops contains parse trim to_str trusted hops

  scan-skipped :
      (hops : List (List ℕ)) (others : List (List ℕ))
      → AreSkipped hops
      → scan (reverse hops ++ others) ≡ scan others
  unfolding scan scan_hops
  scan-skipped [] others a = refl
  scan-skipped (hop ∷ hops) others a =
      ap scan (
        ap (λ hs. hs ++ others) (reverse-cons hop hops)
        ∙ append_assoc (reverse hops) (hop ∷ []) others)
      ∙ scan-skipped hops (hop ∷ others) a.1
      ∙ rw (scan, scan_hops, a.0) refl

  scan-client :
      (hop : List ℕ) (hops earlier : List (List ℕ))
      → IsClient hop
      → AreSkipped hops
      → scan (reverse (hop ∷ hops) ++ earlier)
        ≡ some (truncate_token contains parse trim to_str trusted hop)
  unfolding scan scan_hops
  scan-client hop hops earlier c a =
      ap scan (
        ap (λ hs. hs ++ earlier) (reverse-cons hop hops)
        ∙ append_assoc (reverse hops) (hop ∷ []) earlier)
      ∙ scan-skipped hops (hop ∷ earlier) a
      ∙ rw (scan, scan_hops, c) refl

  chain-short :
      (s : List ℕ)
      → to_str s ≡ some s
      → is_empty (trim s) ≡ false
      → length s ≤ 1024
      → forwarded_chain_raw contains parse trim to_str trusted (some s) ≡ some s
  unfolding forwarded_chain_raw truncate_chain
  chain-short s v b h = rw (v, b) (ap some (ground arith))

  -- Behind a trusted peer: if the hops that the proxies have appended are one outside address and then at most 15 that are
  -- skipped, and the whole header is visible ASCII, which `to_str` gives back as it is, has at most 1024 bytes and is not
  -- blank, then the client is the outside address, whatever else the client itself has written before it, and whatever
  -- is in `X-Real-IP`.
  pub resolve_client_ip_from-behind :
      (own appended hop peer_ip : List ℕ) (hops : List (List ℕ)) (x_real_ip : Option (List ℕ))
      → is_some_and (parse peer_ip) (ip_is_trusted contains parse trim to_str trusted) ≡ true
      → split_commas appended ≡ hop ∷ hops
      → IsClient hop
      → AreSkipped hops
      → length (hop ∷ hops) ≤ 16
      → to_str (own ++ b',' ∷ appended) ≡ some (own ++ b',' ∷ appended)
      → length (own ++ b',' ∷ appended) ≤ 1024
      → is_empty (trim (own ++ b',' ∷ appended)) ≡ false
      → let r =
          resolve_client_ip_from contains parse trim to_str trusted
            (behind own appended x_real_ip)
            peer_ip in
        (r.client_ip ≡ truncate_token contains parse trim to_str trusted hop) × (r.source ≡ xff)
  unfolding resolve_client_ip_from scan
  resolve_client_ip_from-behind own appended hop peer_ip hops x_real_ip t s c a few v small filled =
      let last = scanned_hops-append own appended (rw s few) in
      let found : scan_hops contains parse trim to_str trusted
            (scanned_hops (own ++ b',' ∷ appended))
          ≡ some (truncate_token contains parse trim to_str trusted hop) =
        ap scan (last.1 ∙ ap (λ hs. reverse hs ++ last.0) s) ∙ scan-client hop hops last.0 c a in
      rw (t, chain-short (own ++ b',' ∷ appended) v filled small, found) (refl, refl)

  truncate_chain-cut :
      (own s : List ℕ) → 1024 ≤ length own → truncate_chain (own ++ s) ≡ take 1024 own
  unfolding truncate_chain take
  truncate_chain-cut own s h = elim (Bool-cases (leb (length (own ++ s)) 1024)) [
    | inl e ↦ rw (e) (take_all 1024 own s h (leb→le (length (own ++ s)) 1024 e))
    | inr e ↦ rw e (take-append 1024 own s h)
  ]

  forwarded_chain_raw-cut :
      (own s : List ℕ)
      → 1024 ≤ length own
      → to_str (own ++ s) ≡ some (own ++ s)
      → is_empty (trim (own ++ s)) ≡ false
      → forwarded_chain_raw contains parse trim to_str trusted (some (own ++ s))
        ≡ some (take 1024 own)
  unfolding forwarded_chain_raw
  forwarded_chain_raw-cut own s h v b = rw (v, b) (ap some (truncate_chain-cut own s h))

  -- If a client's own text already has 1024 bytes, what the proxies append behind it has no effect: the whole result,
  -- the client's address included, is the same for any two such headers that are visible ASCII, which `to_str` gives back as
  -- they are, and not blank.
  pub resolve_client_ip_from-cut :
      (own appended other peer_ip : List ℕ) (x_real_ip : Option (List ℕ))
      → 1024 ≤ length own
      → to_str (own ++ b',' ∷ appended) ≡ some (own ++ b',' ∷ appended)
      → to_str (own ++ b',' ∷ other) ≡ some (own ++ b',' ∷ other)
      → is_empty (trim (own ++ b',' ∷ appended)) ≡ false
      → is_empty (trim (own ++ b',' ∷ other)) ≡ false
      → resolve_client_ip_from contains parse trim to_str trusted
          (behind own appended x_real_ip)
          peer_ip
        ≡ resolve_client_ip_from contains parse trim to_str trusted
            (behind own other x_real_ip)
            peer_ip
  unfolding resolve_client_ip_from
  resolve_client_ip_from-cut own appended other peer_ip x_real_ip h v w b c = rw (
    forwarded_chain_raw-cut own (b',' ∷ appended) h v b,
    forwarded_chain_raw-cut own (b',' ∷ other) h w c,
  )
