-- ===== src/Common/Amount/RoundTrip.antt =====
-- The decimal text of amounts of crates/common/src/amount.rs, read back.
use native.Mathlib.Nat.{pow-le-pow_right, one-le-pow, mod-lt, div-add-mod, div-le_self, mul_comm}
use krusty_kms.Prelude.{
  ℕ, zero, suc, ◌+◌, ◌-◌, ◌*◌, ◌/◌, ◌%◌, ◌^◌, ◌≤◌, ◌<◌, ◌≡◌, refl, sym, ap, ◌∙◌, [], ◌∷◌, ◌++◌,
  some, true, false, leb, ◌==◌, Bool-cases, arith, inl, inr, length, All, All-append, ==→eq, subst,
}
use krusty_kms.Common.Error.{Result, ok, ok_or, invalid_amount, ◌>>=◌}
use krusty_kms.Common.Decimal.{
  Text, u128_max, parse_u128, to_string, pad_left, pad_right, trim_zeros, utf8_length,
}
use krusty_kms.Common.Decimal.Digits.{
  IsDigit, value, parse_u128-value, value-to_digits, to_digits-IsDigit, to_digits_nonempty,
  length-to_digits,
}
use krusty_kms.Common.Decimal.Padding.{
  value-pad_left, pad_left-IsDigit, pad_right-IsDigit, length-pad_left, pad_right-trim_zeros,
  length-trim_zeros, trim_zeros-IsDigit, length-pad_right, value_zeros_right, IsPlain, trim_plain,
  digits-IsPlain, split_dot-digits, split_dot-append, utf8_length-length,
}
use krusty_kms.Common.Amount.{
  Amount, checked_add_u128, checked_mul_u128, checked_factor, integer_value, raw_value, from_human,
  fraction_digits, human, to_human,
}

fits : (n : ℕ) → n ≤ u128_max → leb n u128_max ≡ true
fits n h = ground arith

factor_fits : (decimals : ℕ) → decimals ≤ 38 → 10 ^ decimals ≤ u128_max
factor_fits decimals h =
    let le : 10 ^ decimals ≤ 10 ^ 38 = pow-le-pow_right (omega arith) h in omega arith

checked_factor-some :
    (decimals : ℕ) → decimals ≤ 38 → checked_factor decimals ≡ some (10 ^ decimals)
unfolding checked_factor
checked_factor-some decimals h = rw (fits (10 ^ decimals) (factor_fits decimals h)) refl

checked_mul_u128-some : (a b : ℕ) → a * b ≤ u128_max → checked_mul_u128 a b ≡ some (a * b)
unfolding checked_mul_u128
checked_mul_u128-some a b h = rw (fits (a * b) h) refl

checked_add_u128-some : (a b : ℕ) → a + b ≤ u128_max → checked_add_u128 a b ≡ some (a + b)
unfolding checked_add_u128
checked_add_u128-some a b h = rw (fits (a + b) h) refl

le→leb : (a b : ℕ) → a ≤ b → leb a b ≡ true
le→leb a b h = ground arith

-- A printed number is read back, and has no more digits than fit.
parse_u128-to_string : (n : ℕ) → n ≤ u128_max → parse_u128 (to_string n) ≡ some n
parse_u128-to_string n h =
    let e = value-to_digits 39 n (omega (arith, h)) in
    parse_u128-value (to_string n) (to_digits-IsDigit 39 n) (to_digits_nonempty 38 n)
      (omega (arith, e, h))
    ∙ ap some e

integer_value_nonempty :
    (cs : Text) → 0 < length cs → integer_value cs ≡ ok_or (parse_u128 cs) invalid_amount
integer_value_nonempty [] h = absurd (omega arith)
integer_value_nonempty (c ∷ cs) h = refl

integer_value-to_string : (n : ℕ) → n ≤ u128_max → integer_value (to_string n) ≡ ok n
integer_value-to_string n h =
    integer_value_nonempty (to_string n) (to_digits_nonempty 38 n)
    ∙ ap (λ found. ok_or found invalid_amount) (parse_u128-to_string n h)

-- Digits that stand for the fraction once they are padded.
record Writes (decimals fraction : ℕ) (frac_part : Text) : Type 0 where
  digits : All IsDigit frac_part
  short : length frac_part ≤ decimals
  padded : value 0 (pad_right decimals frac_part) ≡ fraction

one_zero-Writes : (decimals : ℕ) → 0 < decimals → Writes decimals 0 (b'0' ∷ [])
one_zero-Writes decimals positive = record {
  digits = ((omega arith, omega arith), tt);
  short = omega (arith, positive);
  padded = value_zeros_right (decimals - 1);
}

fraction_digits-Writes :
    (decimals fraction : ℕ)
    → 0 < decimals
    → fraction ≤ u128_max
    → fraction < 10 ^ decimals
    → Writes decimals fraction (fraction_digits decimals fraction)
fraction_digits-Writes decimals fraction positive le small =
    let written = to_string fraction in
    let filled = pad_left decimals written in
    let digits = to_digits-IsDigit 39 fraction in
    let width : length filled ≡ decimals =
      length-pad_left decimals written (length-to_digits 39 fraction decimals positive small) in
    record {
      digits = trim_zeros-IsDigit filled (pad_left-IsDigit decimals written digits);
      short = omega (arith, width, length-trim_zeros filled);
      padded =
          ap (λ w. value 0 (pad_right w (trim_zeros filled))) (sym width)
          ∙ ap (value 0) (pad_right-trim_zeros filled)
          ∙ value-pad_left decimals written
          ∙ value-to_digits 39 fraction (omega (arith, le));
    }

parse_u128-Writes :
    (decimals fraction : ℕ) (frac_part : Text)
    → 0 < decimals
    → fraction ≤ u128_max
    → Writes decimals fraction frac_part
    → parse_u128 (pad_right decimals frac_part) ≡ some fraction
parse_u128-Writes decimals fraction frac_part positive le writes =
    let filled = pad_right decimals frac_part in
    let e = writes.padded in
    parse_u128-value filled (pad_right-IsDigit decimals frac_part writes.digits)
      (omega (arith, positive, length-pad_right decimals frac_part)) (omega (arith, e, le))
    ∙ ap some e

raw_value-Writes :
    (decimals integer fraction : ℕ) (text frac_part : Text)
    → 0 < decimals
    → integer ≤ u128_max
    → integer * 10 ^ decimals + fraction ≤ u128_max
    → Writes decimals fraction frac_part
    → raw_value decimals (10 ^ decimals) text (some (to_string integer, frac_part))
      ≡ ok (integer * 10 ^ decimals + fraction)
unfolding raw_value ◌>>=◌
raw_value-Writes decimals integer fraction text frac_part positive small_int le writes =
    let factor = 10 ^ decimals in
    let whole : integer * factor ≤ u128_max = omega (arith, le) in
    let size = utf8_length-length frac_part writes.digits in
    let short : leb (utf8_length frac_part) decimals ≡ true =
      le→leb _ _ (omega (arith, size, writes.short)) in
    rw
      (
        short,
        integer_value-to_string integer small_int,
        parse_u128-Writes decimals fraction frac_part positive (omega (arith, le)) writes,
        checked_mul_u128-some integer factor whole,
        checked_add_u128-some (integer * factor) fraction le,
      )
      refl

IsPlain-dot :
    (cs rest : Text) → All IsDigit cs → All IsDigit rest → All IsPlain (cs ++ (b'.' ∷ rest))
IsPlain-dot cs rest h h' =
    All-append IsPlain cs (b'.' ∷ rest) (digits-IsPlain cs h)
      ((omega arith, omega arith), digits-IsPlain rest h')

from_human-Writes :
    (decimals integer fraction : ℕ) (frac_part : Text)
    → 0 < decimals
    → decimals ≤ 38
    → integer ≤ u128_max
    → integer * 10 ^ decimals + fraction ≤ u128_max
    → Writes decimals fraction frac_part
    → from_human (to_string integer ++ (b'.' ∷ frac_part)) decimals
      ≡ ok (record { raw = integer * 10 ^ decimals + fraction; decimals = decimals })
unfolding from_human ◌>>=◌
from_human-Writes decimals integer fraction frac_part positive small small_int le writes =
    let front = to_string integer in
    let digits = to_digits-IsDigit 39 integer in
    rw
      (
        checked_factor-some decimals small,
        trim_plain (front ++ (b'.' ∷ frac_part)) (IsPlain-dot front frac_part digits writes.digits),
        split_dot-append front frac_part digits,
        raw_value-Writes decimals integer fraction (front ++ (b'.' ∷ frac_part)) frac_part positive
            small_int le writes,
      )
      refl

from_human-whole :
    (raw : ℕ)
    → raw ≤ u128_max
    → from_human (to_string raw) 0 ≡ ok (record { raw = raw; decimals = 0 })
unfolding from_human raw_value ◌>>=◌
from_human-whole raw le =
    let digits = to_digits-IsDigit 39 raw in
    let one : raw * 1 ≡ raw = omega arith in
    rw
      (
        checked_factor-some 0 (omega arith),
        trim_plain (to_string raw) (digits-IsPlain (to_string raw) digits),
        split_dot-digits (to_string raw) digits,
        parse_u128-to_string raw le,
        checked_mul_u128-some raw 1 (omega (arith, le)),
        one,
      )
      refl

not_zero : (n : ℕ) → (suc n == 0) ≡ false
not_zero n = ground arith

from_human-human :
    (raw decimals : ℕ)
    → 0 < decimals
    → decimals ≤ 38
    → raw ≤ u128_max
    → from_human (human (record { raw = raw; decimals = decimals }) (some (10 ^ decimals))) decimals
      ≡ ok (record { raw = raw; decimals = decimals })
from_human-human raw decimals positive small le =
    let factor = 10 ^ decimals in
    let integer = raw / factor in
    let fraction = raw % factor in
    let fraction_lt : fraction < factor = mod-lt raw (one-le-pow decimals 10 (omega arith)) in
    let joined : integer * factor + fraction ≡ raw =
      ap (λ n. n + fraction) (mul_comm integer factor) ∙ div-add-mod raw factor in
    let fits_joined : integer * factor + fraction ≤ u128_max = omega (arith, joined, le) in
    let fits_integer : integer ≤ u128_max = omega (arith, le, div-le_self raw factor) in
    let result : ℕ → Result Amount = λ n. ok (record { raw = n; decimals = decimals }) in
    elim (Bool-cases (fraction == 0)) [
      | inl none_left ↦
          let e = ==→eq fraction 0 none_left in
          let writes =
            subst (λ f. Writes decimals f (b'0' ∷ [])) (sym e)
              (one_zero-Writes decimals positive) in
          rw none_left (
            from_human-Writes decimals integer fraction (b'0' ∷ []) positive small fits_integer
              fits_joined writes
            ∙ ap result joined)
      | inr some_left ↦ rw some_left (
          from_human-Writes decimals integer fraction (fraction_digits decimals fraction) positive
            small fits_integer fits_joined
            (fraction_digits-Writes decimals fraction positive (omega (arith, fits_joined))
              fraction_lt)
          ∙ ap result joined)
    ]

read_back :
    (raw decimals : ℕ)
    → raw ≤ u128_max
    → decimals ≤ 38
    → from_human (to_human (record { raw = raw; decimals = decimals })) decimals
      ≡ ok (record { raw = raw; decimals = decimals })
unfolding to_human
read_back raw zero le small = from_human-whole raw le
read_back raw (suc n) le small =
    rw (not_zero n, checked_factor-some (suc n) small)
      (from_human-human raw (suc n) (omega arith) small le)

-- An amount of a `u128` with at most 38 decimals is what its text reads as with these decimals.
pub from_human-to_human :
    (a : Amount) → a.raw ≤ u128_max → a.decimals ≤ 38 → from_human (to_human a) a.decimals ≡ ok a
from_human-to_human a le small = read_back a.raw a.decimals le small
