-- ===== src/Numbers.antt =====
-- The numbers of JavaScript that the amounts are: doubles, which are not modelled bit by bit. What
-- the program relies on is an interface: conversions of text, the order, and that all this is exact
-- on whole numbers of at most fifteen digits, which a double represents.
use mpc_main.Prelude.{
  ℕ, ◌+◌, ◌-◌, ◌*◌, ◌^◌, ◌≤◌, ◌<◌, String, ◌≡◌, Bool, true, false, not, [], ◌∷◌, arith, ltb, ◌==◌,
  length, all, Text, is_empty,
}
use native.Mathlib.Nat.{pow-suc, pow-zero, pow-le-pow_right}
use mpc_main.Validation.{is_digit}

-- The number that a row of digits is.
abbrev pub value_from : ℕ → Text → ℕ
value_from n [] = n
value_from n (c ∷ rest) = value_from (10 * n + (c - b'0')) rest

abbrev pub value : Text → ℕ
value = value_from 0

-- A whole number as it is typed: one to fifteen digits.
pub record IsPlain (t : Text) : Type 0 where
  pub digits : all is_digit t ≡ true
  pub full : is_empty t ≡ false
  pub short : length t ≤ 15

pub record Numbers : Type 1 where
  pub Num : Type 0
  pub of_nat : ℕ → Num
  -- `parseFloat(text)`, `Number(text)`, `a < b`, and `a % 1 === 0`.
  pub parse_float : Text → Num
  pub number_of : Text → Num
  pub lt : Num → Num → Bool
  pub is_whole : Num → Bool
  -- `a * b`, the number that is none, and a number in a condition.
  pub mul : Num → Num → Num
  pub nan : Num
  pub is_truthy : Num → Bool
  -- `toLocaleString()` of a whole number.
  pub to_locale : ℕ → String
  pub lt-of_nat : (a b : ℕ) → a < 10 ^ 15 → b < 10 ^ 15 → lt (of_nat a) (of_nat b) ≡ ltb a b
  pub parse_float-plain : (t : Text) → IsPlain t → parse_float t ≡ of_nat (value t)
  pub number_of-plain : (t : Text) → IsPlain t → number_of t ≡ of_nat (value t)
  pub is_whole-of_nat : (a : ℕ) → is_whole (of_nat a) ≡ true
  pub mul-of_nat : (a b : ℕ) → a * b < 10 ^ 15 → mul (of_nat a) (of_nat b) ≡ of_nat (a * b)
  pub is_truthy-of_nat : (a : ℕ) → is_truthy (of_nat a) ≡ not (a == 0)

value_from-lt :
    (t : Text) (n k : ℕ) → all is_digit t ≡ true → n < k → value_from n t < k * 10 ^ length t
value_from-lt [] n k d h = rw pow-zero (omega arith)
value_from-lt (c ∷ t) n k d h =
    let digit : c ≤ b'9' = ground arith in
    let ih = value_from-lt t (10 * n + (c - b'0')) (10 * k) (ground arith) (omega arith) in
    rw pow-suc (omega (arith, ih))

-- A plain text is a number that is exact.
pub value-lt : (t : Text) → IsPlain t → value t < 10 ^ 15
value-lt t h =
    let below = value_from-lt t 0 1 h.digits (omega arith) in
    let wide : 10 ^ length t ≤ 10 ^ 15 = pow-le-pow_right (omega arith) h.short in
    omega (arith, below, wide)
