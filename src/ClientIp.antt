-- ===== src/ClientIp.antt =====
-- src/middleware/auth.rs: `resolve_client_ip_from`, which finds the address of a client behind proxies. A header is the
-- list of its bytes. `HeaderValue::to_str` of the crate http, which gives the text of a header of visible ASCII and fails
-- on another one, the crate ipnet, the parser of addresses and `str::trim` are parameters.
pub mod Spoofing
use clewdr_hub.Common.{
  ℕ, zero, suc, ◌-◌, Bool, true, false, not, Option, none, some, List, [], ◌∷◌, if◌then◌else◌, leb,
  ◌==◌, length, any, and_then, filter_option, is_some_and,
}
use mathlib.Core.List.{reverse}

-- `MAX_XFF_RAW_BYTES`, `MAX_XFF_HOPS` and `MAX_IP_TOKEN_BYTES`.
abbrev pub max_xff_raw_bytes : ℕ
max_xff_raw_bytes = 1024

abbrev pub max_xff_hops : ℕ
max_xff_hops = 16

abbrev pub max_ip_token_bytes : ℕ
max_ip_token_bytes = 64

-- `ClientIpSource`.
pub data ClientIpSource : Type 0 where
  peer xff xri : ClientIpSource

-- `ResolvedClientIp`.
pub record ResolvedClientIp : Type 0 where
  pub client_ip : List ℕ
  pub source : ClientIpSource
  pub peer_ip : List ℕ
  pub forwarded_chain : Option (List ℕ)

-- The two headers that are read.
pub record ForwardedHeaders : Type 0 where
  pub x_forwarded_for : Option (List ℕ)
  pub x_real_ip : Option (List ℕ)

abbrev pub is_empty {ℓ} : {A : Type ℓ} → List A → Bool
is_empty [] = true
is_empty (x ∷ xs) = false

module _ {ℓ} {A : Type ℓ} where
  unfoldable pub take : ℕ → List A → List A
  take zero xs = []
  take (suc n) [] = []
  take (suc n) (x ∷ xs) = x ∷ take n xs

  unfoldable pub drop : ℕ → List A → List A
  drop zero xs = xs
  drop (suc n) [] = []
  drop (suc n) (x ∷ xs) = drop n xs

-- A byte in front of the first piece.
abbrev pub push_front : ℕ → List (List ℕ) → List (List ℕ)
push_front c [] = (c ∷ []) ∷ []
push_front c (piece ∷ pieces) = (c ∷ piece) ∷ pieces

-- `str::split(',')`.
unfoldable pub split_commas : List ℕ → List (List ℕ)
split_commas [] = [] ∷ []
split_commas (c ∷ cs) =
    let rest = split_commas cs in if c == b',' then [] ∷ rest else push_front c rest

-- `truncate_chain`.
unfoldable pub truncate_chain : List ℕ → List ℕ
truncate_chain s = if leb (length s) max_xff_raw_bytes then s else take max_xff_raw_bytes s

-- The slice of the hops that is scanned, from the right.
unfoldable pub scanned_hops : List ℕ → List (List ℕ)
scanned_hops raw =
    let all_hops = split_commas raw in reverse (drop (length all_hops - max_xff_hops) all_hops)

module _ {Ip Net : Type 0} (contains : Net → Ip → Bool) (parse : List ℕ → Option Ip)
    (trim : List ℕ → List ℕ) (to_str : List ℕ → Option (List ℕ)) (trusted : List Net) where
  -- `ip_is_trusted`.
  unfoldable pub ip_is_trusted : Ip → Bool
  ip_is_trusted ip = any (λ net. contains net ip) trusted

  -- `truncate_token`.
  unfoldable pub truncate_token : List ℕ → List ℕ
  truncate_token s =
      if leb (length (trim s)) max_ip_token_bytes then trim s else take max_ip_token_bytes (trim s)

  -- A hop that the scan stops at: an address outside the trusted networks.
  abbrev pub is_outside : List ℕ → Bool
  is_outside token =
      if is_empty token then false else is_some_and (parse token) (λ ip. not (ip_is_trusted ip))

  -- The loop over the hops.
  unfoldable pub scan_hops : List (List ℕ) → Option (List ℕ)
  scan_hops [] = none
  scan_hops (hop ∷ hops) =
      let rest = scan_hops hops in
      let token = truncate_token hop in if is_outside token then some token else rest

  abbrev pub by_real_ip : List ℕ → Option (List ℕ) → Option (List ℕ) → ResolvedClientIp
  by_real_ip peer_ip chain (some token) = record {
    client_ip = token;
    source = xri;
    peer_ip = peer_ip;
    forwarded_chain = chain;
  }
  by_real_ip peer_ip chain none = record {
    client_ip = peer_ip;
    source = peer;
    peer_ip = peer_ip;
    forwarded_chain = chain;
  }

  abbrev pub by_hop :
      List ℕ → Option (List ℕ) → Option (List ℕ) → Option (List ℕ) → ResolvedClientIp
  by_hop peer_ip chain x_real_ip (some token) = record {
    client_ip = token;
    source = xff;
    peer_ip = peer_ip;
    forwarded_chain = chain;
  }
  by_hop peer_ip chain x_real_ip none = by_real_ip peer_ip chain (
      filter_option (λ s. not (is_empty s))
        (and_then (and_then x_real_ip to_str) (λ s. some (truncate_token s))))

  -- The raw chain, unless `to_str` refuses it or it is blank.
  unfoldable pub forwarded_chain_raw : Option (List ℕ) → Option (List ℕ)
  forwarded_chain_raw header =
      and_then (filter_option (λ s. not (is_empty (trim s))) (and_then header to_str))
        (λ s. some (truncate_chain s))

  -- `resolve_client_ip_from`.
  unfoldable pub resolve_client_ip_from : ForwardedHeaders → List ℕ → ResolvedClientIp
  resolve_client_ip_from headers peer_ip =
      let chain = forwarded_chain_raw headers.x_forwarded_for in
      if is_some_and (parse peer_ip) ip_is_trusted
      then by_hop peer_ip chain headers.x_real_ip
          (and_then chain (λ raw. scan_hops (scanned_hops raw)))
      else record { client_ip = peer_ip; source = peer; peer_ip = peer_ip; forwarded_chain = chain }
