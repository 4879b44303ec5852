-- ===== src/Billing/Cost.antt =====
-- src/billing.rs: the cost of a request, as a number.
use Prim.Native.Nat.{◌*◌, ◌/◌}
use clewdr_hub.Common.{ℕ, ◌+◌, ◌≤◌, ◌<◌, ◌^◌, ◌≡◌, refl, ap, ◌∙◌, arith, pos, sub_ℕ, ◌+ℤ◌}
use clewdr_hub.Billing.{BillingUsage, wrap_i64, mul_i64, add_i64, quot_i64, cost_nanousd}

wrap_i64_small : (n : ℕ) → n < 2 ^ 63 → wrap_i64 (pos n) ≡ pos n
unfolding wrap_i64
wrap_i64_small n h = ground (arith, h)

sub_ℕ_none : (a b c : ℕ) → a ≡ c → b ≡ 0 → sub_ℕ a b ≡ pos c
sub_ℕ_none a b c h k = ground (arith, h, k)

mul_i64_small : (a b : ℕ) → a * b < 2 ^ 63 → mul_i64 (pos a) (pos b) ≡ pos (a * b)
unfolding mul_i64
mul_i64_small a b h =
    ap wrap_i64 (sub_ℕ_none (a * b + 0 * 0) (a * 0 + 0 * b) (a * b) (omega arith) (omega arith))
    ∙ wrap_i64_small (a * b) h

add_i64_small : (a b : ℕ) → a + b < 2 ^ 63 → add_i64 (pos a) (pos b) ≡ pos (a + b)
unfolding add_i64 ◌+ℤ◌
add_i64_small a b h =
    ap wrap_i64 (sub_ℕ_none (a + b) (0 + 0) (a + b) (omega arith) refl) ∙ wrap_i64_small (a + b) h

-- A usage whose counts and whose cost in hundredths lie in range at the prices `p` and `q`.
pub record IsSmall (u : BillingUsage) (p q : ℕ) : Type 0 where
  pub input : u.input_tokens < 2 ^ 63
  pub output : u.output_tokens < 2 ^ 63
  pub creation : u.cache_creation_tokens < 2 ^ 63
  pub read : u.cache_read_tokens < 2 ^ 63
  pub total :
      u.input_tokens * p
        + u.cache_creation_tokens * p * 125
        + u.cache_read_tokens * p * 10
        + u.output_tokens * q
      < 2 ^ 63

-- Hundred times the exact cost.
abbrev pub hundredths : BillingUsage → ℕ → ℕ → ℕ
hundredths u p q =
    u.input_tokens * p * 100
    + u.cache_creation_tokens * p * 125
    + u.cache_read_tokens * p * 10
    + u.output_tokens * q * 100

abbrev cost_of : BillingUsage → ℕ → ℕ → ℕ
cost_of u p q =
    u.input_tokens * p
    + u.cache_creation_tokens * p * 125 / 100
    + u.cache_read_tokens * p * 10 / 100
    + u.output_tokens * q

cost_nanousd-cost_of :
    (u : BillingUsage) (p q : ℕ)
    → IsSmall u p q
    → cost_nanousd u (pos p) (pos q) ≡ pos (cost_of u p q)
unfolding cost_nanousd quot_i64
cost_nanousd-cost_of u p q s =
    let x = u.input_tokens * p in
    let y = u.cache_creation_tokens * p in
    let z = u.cache_read_tokens * p in
    let w = u.output_tokens * q in
    let whole : x + y * 125 + z * 10 + w < 2 ^ 63 = s.total in
    rw
      (
        wrap_i64_small u.input_tokens s.input,
        wrap_i64_small u.cache_creation_tokens s.creation,
        wrap_i64_small u.cache_read_tokens s.read,
        wrap_i64_small u.output_tokens s.output,
        mul_i64_small u.input_tokens p (omega (arith, whole)),
        mul_i64_small u.cache_creation_tokens p (omega (arith, whole)),
        mul_i64_small u.cache_read_tokens p (omega (arith, whole)),
        mul_i64_small u.output_tokens q (omega (arith, whole)),
        mul_i64_small y 125 (omega (arith, whole)),
        mul_i64_small z 10 (omega (arith, whole)),
        add_i64_small x (y * 125 / 100) (omega (arith, whole)),
        add_i64_small (x + y * 125 / 100) (z * 10 / 100) (omega (arith, whole)),
        add_i64_small (x + y * 125 / 100 + z * 10 / 100) w (omega (arith, whole)),
      )
      refl

-- If the counts and the sum of the products are in the range of an `i64`, the cost is a number that is at most the exact
-- one (input 1, cache writes 1.25 and cache reads 0.1 times the input price, output its own price) and less than two
-- billionths of a dollar below it.
pub cost_nanousd-IsSmall :
    (u : BillingUsage) (p q : ℕ)
    → IsSmall u p q
    → (c : ℕ) × (cost_nanousd u (pos p) (pos q) ≡ pos c)
      × (c * 100 ≤ hundredths u p q)
      × (hundredths u p q < c * 100 + 200)
cost_nanousd-IsSmall u p q s =
    (cost_of u p q, cost_nanousd-cost_of u p q s, omega arith, omega arith)
