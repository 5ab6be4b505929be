-- ===== src/Benchmark/Decimal.antt =====
-- Numbers printed in decimals, and read again by `parse::<usize>`.
use actix_send.Prelude.{
  ℕ, zero, suc, ◌+◌, ◌-◌, ◌*◌, ◌/◌, ◌%◌, ◌≤◌, ◌<◌, ◌≡◌, ◌∙◌, ap, Bool, true, false, [], ◌∷◌, some,
  ltb, if◌then◌else◌, Bool-cases, inl, inr, arith,
}
use actix_send.Shared.{usize_mod}
use actix_send.Text.{Text}
use actix_send.Benchmark.{is_digit, parse_digits, parse_some, parse_usize}

-- The digits of `n` in front of `text`, with at most `fuel` of them.
abbrev pub digits : ℕ → ℕ → Text → Text
digits zero n text = text
digits (suc fuel) n text =
    let rest = digits fuel (n / 10) ((48 + n % 10) ∷ text) in
    if ltb n 10 then (48 + n) ∷ text else rest

-- `n` has at most `n + 1` digits.
abbrev pub decimal : ℕ → Text
decimal n = digits (suc n) n []

parse_digits-digits :
    (fuel n : ℕ) (text : Text)
    → n < fuel
    → n < usize_mod
    → parse_digits 0 (digits fuel n text) ≡ parse_digits n text
unfolding parse_digits is_digit
parse_digits-digits zero n text h small = absurd (omega arith)
parse_digits-digits (suc fuel) n text h small = elim (Bool-cases (ltb n 10)) [
  | inl q ↦ ground (arith, q)
  | inr q ↦
      let big : 10 ≤ n = ground (arith, q) in
      let next : n / 10 * 10 + (48 + n % 10 - 48) ≡ n = omega arith in
      let parsed =
        parse_digits-digits fuel (n / 10) ((48 + n % 10) ∷ text) (omega arith) (omega arith) in
      ground (arith, q, parsed, next, small, ap (λ k. parse_digits k text) next)
]

-- The text begins with a digit.
starts : Text → Bool
starts [] = false
starts (c ∷ text) = is_digit c

starts-digits : (fuel n : ℕ) (text : Text) → starts text ≡ true → starts (digits fuel n text) ≡ true
unfolding starts is_digit
starts-digits zero n text e = e
starts-digits (suc fuel) n text e = elim (Bool-cases (ltb n 10)) [
  | inl q ↦ ground (arith, q)
  | inr q ↦ rw q (starts-digits fuel (n / 10) ((48 + n % 10) ∷ text) (ground arith))
]

starts-decimal : (n : ℕ) → starts (decimal n) ≡ true
unfolding starts is_digit
starts-decimal n = elim (Bool-cases (ltb n 10)) [
  | inl q ↦ ground (arith, q)
  | inr q ↦ rw q (starts-digits n (n / 10) ((48 + n % 10) ∷ []) (ground arith))
]

parse_usize-parse_digits :
    (text : Text) → starts text ≡ true → parse_usize text ≡ parse_digits 0 text
unfolding starts is_digit parse_usize parse_some
parse_usize-parse_digits [] e = ground (arith, e)
parse_usize-parse_digits (c ∷ text) e = ground (arith, e)

-- A `usize` printed in decimals is what it is parsed as.
pub parse_usize-decimal : (n : ℕ) → n < usize_mod → parse_usize (decimal n) ≡ some n
unfolding parse_digits
parse_usize-decimal n small =
    parse_usize-parse_digits (decimal n) (starts-decimal n)
    ∙ parse_digits-digits (suc n) n [] (omega arith) small
