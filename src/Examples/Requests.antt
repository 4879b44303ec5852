-- ===== src/Examples/Requests.antt =====
-- The theorems on requests: the address of a client behind a proxy, and the shape of a request.
use clewdr_hub.Common.{
  ℕ, zero, suc, ◌≤◌, ◌≡◌, refl, Bool, true, false, Option, none, some, List, [], ◌∷◌, ◌++◌,
  if◌then◌else◌, length, any, arith, ◌==◌, ◌||◌, ◌&&◌, leb, not,
}
use clewdr_hub.Config.Decimal.{is_digit}
use clewdr_hub.Config.Reason.{codes, text_eq}
use clewdr_hub.ClientIp.{
  xff, ResolvedClientIp, is_empty, take, split_commas, ip_is_trusted, truncate_token,
  resolve_client_ip_from,
}
use clewdr_hub.ClientIp.Spoofing.{behind, resolve_client_ip_from-behind, resolve_client_ip_from-cut}
use clewdr_hub.Request.Sampling.{max, enabled, CreateMessageParams, normalize_sampling_params}
use clewdr_hub.Billing.Model.{to_ascii_lowercase, is_date, all_digits}
use clewdr_hub.Request.Sampling.Models.{opus_5, name_of, dated}
use clewdr_hub.Request.Sampling.Accepted.{IsAccepted, normalize_sampling_params-IsAccepted}

-- Addresses are texts, and networks are lists of them.
abbrev holds : List ℕ → List ℕ → Bool
holds net ip = text_eq net ip

abbrev whole : List ℕ → Option (List ℕ)
whole s = if is_empty s then none else some s

abbrev untrimmed : List ℕ → List ℕ
untrimmed s = s

-- `to_str`: a tab or visible ASCII.
abbrev is_visible : ℕ → Bool
is_visible c = c == 9 || leb 32 c && leb c 126

abbrev visible : List ℕ → Option (List ℕ)
visible s = if any (λ c. not (is_visible c)) s then none else some s

abbrev networks : List (List ℕ)
networks = codes "10.0.0.1" ∷ []

abbrev resolve : List ℕ → List ℕ → ResolvedClientIp
resolve own appended =
    resolve_client_ip_from holds whole untrimmed visible networks (behind own appended none)
      (codes "10.0.0.1")

own_chain : split_commas (codes "8.8.8.8,10.0.0.1") ≡ codes "8.8.8.8" ∷ codes "10.0.0.1" ∷ []
unfolding split_commas
own_chain = refl

resolve_client_ip_from-behind_example :
    ((resolve (codes "1.2.3.4") (codes "8.8.8.8,10.0.0.1")).client_ip
      ≡ truncate_token holds whole untrimmed visible networks (codes "8.8.8.8"))
    × ((resolve (codes "1.2.3.4") (codes "8.8.8.8,10.0.0.1")).source ≡ xff)
unfolding ip_is_trusted any truncate_token take text_eq
resolve_client_ip_from-behind_example =
    resolve_client_ip_from-behind holds whole untrimmed visible networks (codes "1.2.3.4")
      (codes "8.8.8.8,10.0.0.1") (codes "8.8.8.8") (codes "10.0.0.1") (codes "10.0.0.1" ∷ []) none
      refl own_chain refl (refl, tt) (omega arith) refl (omega arith) refl

commas : ℕ → List ℕ
commas zero = []
commas (suc n) = b',' ∷ commas n

long_enough : 1024 ≤ length (commas 1024)
unfolding commas
long_enough = omega arith

filled_commas : (n : ℕ) (s : List ℕ) → is_empty (commas (suc n) ++ b',' ∷ s) ≡ false
unfolding commas
filled_commas n s = refl

no_other :
    (n : ℕ) (s : List ℕ)
    → any (λ c. not (is_visible c)) s ≡ false
    → any (λ c. not (is_visible c)) (commas n ++ b',' ∷ s) ≡ false
unfolding commas any
no_other zero s h = h
no_other (suc n) s h = no_other n s h

visible-commas :
    (n : ℕ) (s : List ℕ)
    → any (λ c. not (is_visible c)) s ≡ false
    → visible (commas n ++ b',' ∷ s) ≡ some (commas n ++ b',' ∷ s)
unfolding commas any
visible-commas n s h = rw (no_other n s h) refl

resolve_client_ip_from-cut_example :
    resolve (commas 1024) (codes "8.8.8.8") ≡ resolve (commas 1024) (codes "9.9.9.9")
unfolding any
resolve_client_ip_from-cut_example =
    resolve_client_ip_from-cut holds whole untrimmed visible networks (commas 1024)
      (codes "8.8.8.8") (codes "9.9.9.9") (codes "10.0.0.1") none long_enough
      (visible-commas 1024 (codes "8.8.8.8") refl) (visible-commas 1024 (codes "9.9.9.9") refl)
      (filled_commas 1023 (codes "8.8.8.8")) (filled_commas 1023 (codes "9.9.9.9"))

abbrev asked : CreateMessageParams
asked = record {
  model = codes "Claude-Opus-5-20260101";
  thinking = some (enabled 4000 none);
  output_config = none;
  temperature = some 0x3f000000;
  top_p = some 0x3f000000;
  top_k = some 40;
}

asked_names : to_ascii_lowercase asked.model ≡ name_of opus_5 ++ b'-' ∷ codes "20260101"
unfolding to_ascii_lowercase
asked_names = refl

asked_date : is_date (codes "20260101") ≡ true
unfolding all_digits is_digit
asked_date = refl

normalize_sampling_params-IsAccepted_example :
    IsAccepted opus_5 (some max) (normalize_sampling_params asked (some max))
    × (normalize_sampling_params (normalize_sampling_params asked (some max)) (some max)
        ≡ normalize_sampling_params asked (some max))
normalize_sampling_params-IsAccepted_example =
    normalize_sampling_params-IsAccepted opus_5 asked (some max)
      (dated (codes "20260101") asked_names asked_date)
