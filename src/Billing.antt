-- ===== src/Billing.antt =====
-- src/billing.rs: the usage of a request, what it costs, and the kinds of requests. An `i64` is an integer that wraps
-- as in the release build; the debug build panics where it wraps.
pub mod Cost
pub mod Model
pub mod Log
pub mod Ledger
pub mod Quota
use Prim.Native.Nat.{◌-◌, ◌*◌, ◌/◌}
use clewdr_hub.Common.{
  ℕ, suc, ◌+◌, ◌%◌, ◌^◌, String, Option, if◌then◌else◌, ltb, ℤ, pos, negsuc, pos_part, neg_part,
  sub_ℕ, ◌+ℤ◌,
}

-- The value of 64 bits that an integer has in two's complement.
unfoldable pub wrap_i64 : ℤ → ℤ
wrap_i64 i =
    let r = (pos_part i + (2 ^ 64 - neg_part i % 2 ^ 64)) % 2 ^ 64 in
    if ltb r (2 ^ 63) then pos r else negsuc (2 ^ 64 - r - 1)

unfoldable pub mul_i64 : ℤ → ℤ → ℤ
mul_i64 a b = wrap_i64 (
    sub_ℕ (pos_part a * pos_part b + neg_part a * neg_part b)
      (pos_part a * neg_part b + neg_part a * pos_part b))

unfoldable pub add_i64 : ℤ → ℤ → ℤ
add_i64 a b = wrap_i64 (a +ℤ b)

-- Division by a positive number, which rounds towards zero.
unfoldable pub quot_i64 : ℤ → ℕ → ℤ
quot_i64 (pos n) d = pos (n / d)
quot_i64 (negsuc n) d = sub_ℕ 0 (suc n / d)

-- `BillingUsage`.
pub record BillingUsage : Type 0 where
  pub input_tokens : ℕ
  pub output_tokens : ℕ
  pub cache_creation_tokens : ℕ
  pub cache_read_tokens : ℕ
  pub ttft_ms : Option ℤ

-- `as i64`.
abbrev pub as_i64 : ℕ → ℤ
as_i64 n = wrap_i64 (pos n)

-- `CACHE_CREATION_NUM`, `CACHE_READ_NUM` and their common denominator.
abbrev pub cache_creation_num : ℕ
cache_creation_num = 125

abbrev pub cache_read_num : ℕ
cache_read_num = 10

abbrev pub cache_den : ℕ
cache_den = 100

-- `BillingUsage::cost_nanousd`.
unfoldable pub cost_nanousd : BillingUsage → ℤ → ℤ → ℤ
cost_nanousd u input_price output_price =
    let base_input = mul_i64 (as_i64 u.input_tokens) input_price in
    let cache_create =
      quot_i64
        (mul_i64 (mul_i64 (as_i64 u.cache_creation_tokens) input_price) (pos cache_creation_num))
        cache_den in
    let cache_read =
      quot_i64 (mul_i64 (mul_i64 (as_i64 u.cache_read_tokens) input_price) (pos cache_read_num))
        cache_den in
    let output = mul_i64 (as_i64 u.output_tokens) output_price in
    add_i64 (add_i64 (add_i64 base_input cache_create) cache_read) output

-- `RequestType`.
pub data RequestType : Type 0 where
  messages probe_cookie probe_oauth probe_proxy test : RequestType

-- `RequestType::as_str`.
unfoldable pub request_type_str : RequestType → String
request_type_str messages = "messages"
request_type_str probe_cookie = "probe_cookie"
request_type_str probe_oauth = "probe_oauth"
request_type_str probe_proxy = "probe_proxy"
request_type_str test = "test"
