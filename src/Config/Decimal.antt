-- ===== src/Config/Decimal.antt =====
-- Rust's `Display` and `FromStr` of `i64`, which src/config/reason.rs writes and reads timestamps with.
-- Text is a list of bytes.
use Prim.Native.Nat.{ℕ, zero, suc, ◌+◌, ◌-◌, ◌*◌, ◌/◌, ◌%◌, ◌^◌, ◌≤◌, ◌<◌}
use native.Mathlib.Nat.{pow-suc}
use clewdr_hub.Common.{
  ◌≡◌, refl, ap, ◌∙◌, inl, inr, ltb→lt, Bool, true, ◌&&◌, Option, none, some, List, [], ◌∷◌, arith,
  ltb, leb, ◌==◌, if◌then◌else◌, Bool-cases, and_then, ℤ, pos, negsuc, pos_part, neg_part,
}

-- The digits of a number in front of a text. Twenty rounds are enough below 10 ^ 20.
unfoldable pub print_digits : ℕ → ℕ → List ℕ → List ℕ
print_digits zero n rest = rest
print_digits (suc fuel) n rest =
    let more = print_digits fuel (n / 10) ((b'0' + n % 10) ∷ rest) in
    if ltb n 10 then (b'0' + n) ∷ rest else more

unfoldable pub print_ℕ : ℕ → List ℕ
print_ℕ n = print_digits 20 n []

unfoldable pub print_i64 : ℤ → List ℕ
print_i64 (pos n) = print_ℕ n
print_i64 (negsuc n) = b'-' ∷ print_ℕ (suc n)

unfoldable pub is_digit : ℕ → Bool
is_digit c = leb b'0' c && leb c b'9'

unfoldable pub parse_digits : ℕ → List ℕ → Option ℕ
parse_digits acc [] = some acc
parse_digits acc (c ∷ cs) =
    let more = parse_digits (acc * 10 + (c - b'0')) cs in if is_digit c then more else none

-- A number wants at least one digit.
unfoldable pub parse_ℕ : List ℕ → Option ℕ
parse_ℕ [] = none
parse_ℕ (c ∷ cs) = parse_digits 0 (c ∷ cs)

-- Out of range is an error, as any other.
unfoldable pub in_i64 : ℕ → Option ℤ
in_i64 n = if ltb n (2 ^ 63) then some (pos n) else none

unfoldable pub minus_i64 : ℕ → Option ℤ
minus_i64 zero = some (pos 0)
minus_i64 (suc n) = if ltb n (2 ^ 63) then some (negsuc n) else none

-- An optional sign, then digits.
unfoldable pub parse_i64 : List ℕ → Option ℤ
parse_i64 [] = none
parse_i64 (c ∷ cs) =
    if c == b'-'
    then and_then (parse_ℕ cs) minus_i64
    else if c == b'+'
    then and_then (parse_ℕ cs) in_i64
    else and_then (parse_ℕ (c ∷ cs)) in_i64

-- The values of the type.
abbrev pub IsI64 : ℤ → Type 0
IsI64 i = (pos_part i < 2 ^ 63) × (neg_part i ≤ 2 ^ 63)

is_digit-digit : (d : ℕ) → d < 10 → is_digit (b'0' + d) ≡ true
unfolding is_digit
is_digit-digit d h = ground arith

parse_digits-digit :
    (acc d : ℕ) (rest : List ℕ)
    → d < 10
    → parse_digits acc ((b'0' + d) ∷ rest) ≡ parse_digits (acc * 10 + d) rest
unfolding parse_digits
parse_digits-digit acc d rest h =
    let e : b'0' + d - b'0' ≡ d = omega arith in rw (is_digit-digit d h, e)

-- Printing in front of a text and reading on gives the number, then the text.
parse-print_digits :
    (fuel n : ℕ) (rest : List ℕ)
    → n < 10 ^ fuel
    → parse_digits 0 (print_digits fuel n rest) ≡ parse_digits n rest
unfolding print_digits
parse-print_digits zero n rest h = ap (λ m. parse_digits m rest) (omega arith)
parse-print_digits (suc fuel) n rest h = elim (Bool-cases (ltb n 10)) [
  | inl small ↦
      rw (small, parse_digits-digit 0 n rest (ltb→lt n 10 small))
        (ap (λ m. parse_digits m rest) (omega arith))
  | inr large ↦ rw large (
      parse-print_digits fuel (n / 10) ((b'0' + n % 10) ∷ rest) (omega (arith, pow-suc 10 fuel))
      ∙ parse_digits-digit (n / 10) (n % 10) rest (omega arith)
      ∙ ap (λ m. parse_digits m rest) (omega arith))
]

-- A text that begins with a digit.
record BeginsWithDigit (s : List ℕ) : Type 0 where
  first : ℕ
  others : List ℕ
  split : s ≡ first ∷ others
  digit : is_digit first ≡ true

print_digits-BeginsWithDigit :
    (fuel n c : ℕ) (rest : List ℕ)
    → is_digit c ≡ true
    → BeginsWithDigit (print_digits fuel n (c ∷ rest))
unfolding print_digits
print_digits-BeginsWithDigit zero n c rest h = record {
  first = c;
  others = rest;
  split = refl;
  digit = h;
}
print_digits-BeginsWithDigit (suc fuel) n c rest h = elim (Bool-cases (ltb n 10)) [
  | inl small ↦ rw small (record {
    first = b'0' + n;
    others = c ∷ rest;
    split = refl;
    digit = is_digit-digit n (ltb→lt n 10 small);
  })
  | inr large ↦ rw large (
      print_digits-BeginsWithDigit fuel (n / 10) (b'0' + n % 10) (c ∷ rest)
        (is_digit-digit (n % 10) (omega arith)))
]

print_digits-suc-BeginsWithDigit : (fuel n : ℕ) → BeginsWithDigit (print_digits (suc fuel) n [])
unfolding print_digits
print_digits-suc-BeginsWithDigit fuel n = elim (Bool-cases (ltb n 10)) [
  | inl small ↦ rw small (record {
    first = b'0' + n;
    others = [];
    split = refl;
    digit = is_digit-digit n (ltb→lt n 10 small);
  })
  | inr large ↦ rw large (
      print_digits-BeginsWithDigit fuel (n / 10) (b'0' + n % 10) []
        (is_digit-digit (n % 10) (omega arith)))
]

print_ℕ-BeginsWithDigit : (n : ℕ) → BeginsWithDigit (print_ℕ n)
unfolding print_ℕ
print_ℕ-BeginsWithDigit n = print_digits-suc-BeginsWithDigit 19 n

parse_ℕ_of_BeginsWithDigit : (s : List ℕ) → BeginsWithDigit s → parse_ℕ s ≡ parse_digits 0 s
unfolding parse_ℕ
parse_ℕ_of_BeginsWithDigit s b = rw b.split

parse-print_ℕ : (n : ℕ) → n < 10 ^ 20 → parse_ℕ (print_ℕ n) ≡ some n
parse-print_ℕ n h =
    parse_ℕ_of_BeginsWithDigit (print_ℕ n) (print_ℕ-BeginsWithDigit n)
    ∙ unfold print_ℕ in parse-print_digits 20 n [] h ∙ unfold parse_digits in refl

-- A text that begins with a digit has no sign.
parse_i64_of_BeginsWithDigit :
    (s : List ℕ) → BeginsWithDigit s → parse_i64 s ≡ and_then (parse_ℕ s) in_i64
unfolding parse_i64 is_digit
parse_i64_of_BeginsWithDigit s b = rw b.split (ground (arith, b.digit))

-- Reading what was printed gives the number back.
pub parse_i64-print_i64 : (i : ℤ) → IsI64 i → parse_i64 (print_i64 i) ≡ some i
unfolding print_i64
parse_i64-print_i64 (pos n) h =
    parse_i64_of_BeginsWithDigit (print_ℕ n) (print_ℕ-BeginsWithDigit n)
    ∙ rw (parse-print_ℕ n (omega arith)) (unfold in_i64 in ground arith)
parse_i64-print_i64 (negsuc n) h =
    unfold parse_i64 in rw (parse-print_ℕ (suc n) (omega arith)) (unfold minus_i64 in ground arith)
