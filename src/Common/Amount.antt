-- ===== src/Common/Amount.antt =====
-- crates/common/src/amount.rs: token amounts, their arithmetic and their decimal text. `raw` is a
-- `u128`, `decimals` a `u8`.
pub mod Exact
pub mod RoundTrip
use krusty_kms.Prelude.{
  ℕ, ◌+◌, ◌-◌, ◌*◌, ◌/◌, ◌%◌, ◌^◌, [], ◌∷◌, ◌++◌, Bool, true, false, Option, none, some, ltb, leb,
  ◌==◌, if◌then◌else◌,
}
use krusty_kms.Common.Error.{Result, ok, err, ok_or, guard, invalid_amount, ◌>>=◌, ◌>>◌}
use krusty_kms.Common.Decimal.{
  Text, u128_max, parse_u128, to_string, pad_left, pad_right, trim_zeros, trim, split_dot,
  utf8_length,
}

pub record Amount : Type 0 where
  pub raw : ℕ
  pub decimals : ℕ

-- `u128::checked_add`, `u128::checked_sub`
unfoldable pub checked_add_u128 : ℕ → ℕ → Option ℕ
checked_add_u128 a b = if leb (a + b) u128_max then some (a + b) else none

unfoldable pub checked_sub_u128 : ℕ → ℕ → Option ℕ
checked_sub_u128 a b = if leb b a then some (a - b) else none

unfoldable pub checked_add : Amount → Amount → Result Amount
checked_add a b = do
  guard (a.decimals == b.decimals) invalid_amount
  raw ← ok_or (checked_add_u128 a.raw b.raw) invalid_amount
  ok (record { raw = raw; decimals = a.decimals })

unfoldable pub checked_sub : Amount → Amount → Result Amount
checked_sub a b = do
  guard (a.decimals == b.decimals) invalid_amount
  raw ← ok_or (checked_sub_u128 a.raw b.raw) invalid_amount
  ok (record { raw = raw; decimals = a.decimals })

abbrev pub is_zero : Amount → Bool
is_zero a = a.raw == 0

-- `u128::checked_mul`, and `10u128.checked_pow`
unfoldable pub checked_mul_u128 : ℕ → ℕ → Option ℕ
checked_mul_u128 a b = if leb (a * b) u128_max then some (a * b) else none

unfoldable pub checked_factor : ℕ → Option ℕ
checked_factor decimals = if leb (10 ^ decimals) u128_max then some (10 ^ decimals) else none

abbrev pub integer_value : Text → Result ℕ
integer_value [] = ok 0
integer_value (c ∷ cs) = ok_or (parse_u128 (c ∷ cs)) invalid_amount

-- The raw value of a text without a dot, or of its two parts.
unfoldable pub raw_value : ℕ → ℕ → Text → Option (Text × Text) → Result ℕ
raw_value decimals factor text none = do
  int_val ← ok_or (parse_u128 text) invalid_amount
  ok_or (checked_mul_u128 int_val factor) invalid_amount
raw_value decimals factor text (some (integer_part, frac_part)) = do
  guard (leb (utf8_length frac_part) decimals) invalid_amount
  int_val ← integer_value integer_part
  frac_val ← ok_or (parse_u128 (pad_right decimals frac_part)) invalid_amount
  whole ← ok_or (checked_mul_u128 int_val factor) invalid_amount
  ok_or (checked_add_u128 whole frac_val) invalid_amount

unfoldable pub from_human : Text → ℕ → Result Amount
from_human s decimals = do
  factor ← ok_or (checked_factor decimals) invalid_amount
  raw ← raw_value decimals factor (trim s) (split_dot (trim s))
  ok (record { raw = raw; decimals = decimals })

-- The digits after `0.` where ten to the `decimals` is no `u128`.
abbrev pub only_fraction : Text → Text
only_fraction [] = b'0' ∷ (b'.' ∷ (b'0' ∷ []))
only_fraction (c ∷ cs) = b'0' ∷ (b'.' ∷ (c ∷ cs))

abbrev pub fraction_digits : ℕ → ℕ → Text
fraction_digits decimals fraction = trim_zeros (pad_left decimals (to_string fraction))

abbrev pub human : Amount → Option ℕ → Text
human a none = only_fraction (fraction_digits a.decimals a.raw)
human a (some factor) =
    let integer = to_string (a.raw / factor) in
    let fraction = a.raw % factor in
    if fraction == 0
    then integer ++ (b'.' ∷ (b'0' ∷ []))
    else integer ++ (b'.' ∷ fraction_digits a.decimals fraction)

unfoldable pub to_human : Amount → Text
to_human a = if a.decimals == 0 then to_string a.raw else human a (checked_factor a.decimals)
