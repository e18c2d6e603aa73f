-- ===== src/Common/Decimal.antt =====
-- What crates/common/src/amount.rs uses of text: a text is the list of its characters' scalar values.
pub mod Digits
pub mod Padding
use krusty_kms.Prelude.{
  ℕ, zero, suc, ◌+◌, ◌-◌, ◌*◌, ◌/◌, ◌%◌, ◌^◌, List, [], ◌∷◌, ◌++◌, Option, none, some, Bool, true,
  false, ◌&&◌, ◌||◌, ltb, leb, ◌==◌, if◌then◌else◌, length,
}

abbrev pub Text : Type 0
Text = List ℕ

abbrev pub u128_max : ℕ
u128_max = 2 ^ 128 - 1

abbrev pub is_digit : ℕ → Bool
is_digit c = leb b'0' c && leb c b'9'

-- The digits that are left, after those with the value `acc`.
unfoldable pub scan : ℕ → Text → Option ℕ
scan acc [] = some acc
scan acc (c ∷ cs) =
    let next = acc * 10 + (c - b'0') in
    let rest = scan next cs in if is_digit c && leb next u128_max then rest else none

abbrev pub scan_some : Text → Option ℕ
scan_some [] = none
scan_some (c ∷ cs) = scan 0 (c ∷ cs)

-- `str::parse::<u128>`, which takes a plus sign
abbrev pub parse_u128 : Text → Option ℕ
parse_u128 [] = none
parse_u128 (c ∷ cs) = if c == b'+' then scan_some cs else scan_some (c ∷ cs)

-- At most as many digits as the fuel.
unfoldable pub to_digits : ℕ → ℕ → Text
to_digits zero n = []
to_digits (suc fuel) n =
    let rest = to_digits fuel (n / 10) in
    if ltb n 10 then (b'0' + n) ∷ [] else rest ++ ((b'0' + n % 10) ∷ [])

-- `to_string` of a `u128`, which has at most 39 digits
abbrev pub to_string : ℕ → Text
to_string n = to_digits 39 n

abbrev pub zeros : ℕ → Text
zeros zero = []
zeros (suc n) = b'0' ∷ zeros n

-- `{:0>width$}`, `{:0<width$}`
abbrev pub pad_left : ℕ → Text → Text
pad_left width cs = zeros (width - length cs) ++ cs

abbrev pub pad_right : ℕ → Text → Text
pad_right width cs = cs ++ zeros (width - length cs)

abbrev pub keep : (ℕ → Bool) → ℕ → Text → Text
keep test c [] = if test c then [] else c ∷ []
keep test c (x ∷ xs) = c ∷ (x ∷ xs)

-- `trim_end_matches`
abbrev pub trim_end : (ℕ → Bool) → Text → Text
trim_end test [] = []
trim_end test (c ∷ cs) = keep test c (trim_end test cs)

abbrev pub trim_zeros : Text → Text
trim_zeros cs = trim_end (λ c. c == b'0') cs

-- `char::is_whitespace`
abbrev pub is_whitespace : ℕ → Bool
is_whitespace c =
    (leb 9 c && leb c 13)
    || c == 0x20
    || c == 0x85
    || c == 0xa0
    || c == 0x1680
    || (leb 0x2000 c && leb c 0x200a)
    || c == 0x2028
    || c == 0x2029
    || c == 0x202f
    || c == 0x205f
    || c == 0x3000

abbrev pub trim_start : Text → Text
trim_start [] = []
trim_start (c ∷ cs) = let rest = trim_start cs in if is_whitespace c then rest else c ∷ cs

-- `str::trim`
abbrev pub trim : Text → Text
trim cs = trim_end is_whitespace (trim_start cs)

-- The text before and after the first dot.
abbrev pub before : ℕ → Option (Text × Text) → Option (Text × Text)
before c none = none
before c (some (front, rest)) = some (c ∷ front, rest)

unfoldable pub split_dot : Text → Option (Text × Text)
split_dot [] = none
split_dot (c ∷ cs) =
    let found = before c (split_dot cs) in if c == b'.' then some ([], cs) else found

-- `str::len`, the number of bytes in UTF-8
abbrev pub utf8_length : Text → ℕ
utf8_length [] = 0
utf8_length (c ∷ cs) =
    utf8_length cs
    + (if ltb c 0x80 then 1 else if ltb c 0x800 then 2 else if ltb c 0x10000 then 3 else 4)
