-- ===== src/Common/Decimal/Digits.antt =====
-- Numbers of crates/common/src/amount.rs that are printed and read back.
use native.Mathlib.Nat.{pow-suc}
use krusty_kms.Prelude.{
  ℕ, zero, suc, ◌+◌, ◌-◌, ◌*◌, ◌/◌, ◌%◌, ◌^◌, ◌≤◌, ◌<◌, ◌≡◌, refl, [], ◌∷◌, ◌++◌, some, true, false,
  ltb, leb, ◌==◌, ◌&&◌, Bool-cases, arith, inl, inr, length, length-append, All, All-append,
}
use krusty_kms.Common.Decimal.{Text, u128_max, is_digit, scan, parse_u128, to_digits}

abbrev pub IsDigit : ℕ → Type 0
IsDigit c = (b'0' ≤ c) × (c ≤ b'9')

-- The number that digits stand for, after those with the value `acc`.
abbrev pub value : ℕ → Text → ℕ
value acc [] = acc
value acc (c ∷ cs) = value (acc * 10 + (c - b'0')) cs

value-append : (acc : ℕ) (xs ys : Text) → value acc (xs ++ ys) ≡ value (value acc xs) ys
value-append acc [] ys = refl
value-append acc (x ∷ xs) ys = value-append (acc * 10 + (x - b'0')) xs ys

value_grows : (acc : ℕ) (cs : Text) → acc ≤ value acc cs
value_grows acc [] = omega arith
value_grows acc (c ∷ cs) = omega (arith, value_grows (acc * 10 + (c - b'0')) cs)

digit_fits : (c next : ℕ) → IsDigit c → next ≤ u128_max → (is_digit c && leb next u128_max) ≡ true
digit_fits c next (low, high) h = ground arith

scan-value :
    (acc : ℕ) (cs : Text)
    → All IsDigit cs
    → value acc cs ≤ u128_max
    → scan acc cs ≡ some (value acc cs)
unfolding scan
scan-value acc [] digits h = refl
scan-value acc (c ∷ cs) (digit, digits) h =
    let next = acc * 10 + (c - b'0') in
    rw (digit_fits c next digit (omega (arith, h, value_grows next cs)))
      (scan-value next cs digits h)

no_sign : (c : ℕ) → IsDigit c → (c == b'+') ≡ false
no_sign c (low, high) = ground arith

pub parse_u128-value :
    (cs : Text)
    → All IsDigit cs
    → 0 < length cs
    → value 0 cs ≤ u128_max
    → parse_u128 cs ≡ some (value 0 cs)
parse_u128-value [] digits some_digit h = absurd (omega arith)
parse_u128-value (c ∷ cs) (digit, digits) some_digit h =
    rw (no_sign c digit) (scan-value 0 (c ∷ cs) (digit, digits) h)

below_ten : (n : ℕ) → ltb n 10 ≡ true → n < 10
below_ten n h = ground arith

ten_or_more : (n : ℕ) → ltb n 10 ≡ false → 10 ≤ n
ten_or_more n h = ground arith

tenth : (n k : ℕ) → n < 10 ^ suc k → n / 10 < 10 ^ k
tenth n k h = omega (arith, h, pow-suc 10 k)

pub value-to_digits : (fuel n : ℕ) → n < 10 ^ fuel → value 0 (to_digits fuel n) ≡ n
unfolding to_digits
value-to_digits zero n h = omega arith
value-to_digits (suc fuel) n h = elim (Bool-cases (ltb n 10)) [
  | inl small ↦ rw small (omega arith)
  | inr large ↦
      rw
        (
          large,
          value-append 0 (to_digits fuel (n / 10)) ((b'0' + n % 10) ∷ []),
          value-to_digits fuel (n / 10) (tenth n fuel h),
        )
        (omega arith)
]

pub to_digits-IsDigit : (fuel n : ℕ) → All IsDigit (to_digits fuel n)
unfolding to_digits
to_digits-IsDigit zero n = tt
to_digits-IsDigit (suc fuel) n = elim (Bool-cases (ltb n 10)) [
  | inl small ↦ rw small ((omega arith, omega (arith, below_ten n small)), tt)
  | inr large ↦ rw large (
      All-append IsDigit (to_digits fuel (n / 10)) ((b'0' + n % 10) ∷ [])
        (to_digits-IsDigit fuel (n / 10)) ((omega arith, omega arith), tt))
]

pub to_digits_nonempty : (fuel n : ℕ) → 0 < length (to_digits (suc fuel) n)
unfolding to_digits
to_digits_nonempty fuel n = elim (Bool-cases (ltb n 10)) [
  | inl small ↦ rw small (omega arith)
  | inr large ↦
      rw large (omega (arith, length-append (to_digits fuel (n / 10)) ((b'0' + n % 10) ∷ [])))
]

-- A number below a power of ten has no more digits than that.
pub length-to_digits :
    (fuel n width : ℕ) → 0 < width → n < 10 ^ width → length (to_digits fuel n) ≤ width
unfolding to_digits
length-to_digits zero n width positive h = omega arith
length-to_digits (suc fuel) n zero positive h = absurd (omega arith)
length-to_digits (suc fuel) n (suc zero) positive h = elim (Bool-cases (ltb n 10)) [
  | inl small ↦ rw small (omega arith)
  | inr large ↦ absurd (omega (arith, h, ten_or_more n large))
]
length-to_digits (suc fuel) n (suc (suc width)) positive h = elim (Bool-cases (ltb n 10)) [
  | inl small ↦ rw small (omega arith)
  | inr large ↦
      let shorter =
        length-to_digits fuel (n / 10) (suc width) (omega arith) (tenth n (suc width) h) in
      rw large
        (omega (arith, shorter, length-append (to_digits fuel (n / 10)) ((b'0' + n % 10) ∷ [])))
]
