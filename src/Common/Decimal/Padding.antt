-- ===== src/Common/Decimal/Padding.antt =====
-- Zeros that crates/common/src/amount.rs adds to a fraction and takes away, and what trimming leaves.
use krusty_kms.Prelude.{
  ℕ, zero, suc, ◌+◌, ◌-◌, ◌≤◌, ◌≡◌, refl, sym, ap, ap₂, ◌∙◌, [], ◌∷◌, ◌++◌, some, none, ltb,
  All-append, true, false, ◌==◌, Bool, Bool-cases, arith, inl, inr, length, length-append, All,
  ==→eq,
}
use krusty_kms.Common.Decimal.{
  Text, zeros, pad_left, pad_right, keep, trim_end, trim_zeros, is_whitespace, trim_start, trim,
  split_dot, utf8_length,
}
use krusty_kms.Common.Decimal.Digits.{IsDigit, value}

value_zeros : (k : ℕ) (cs : Text) → value 0 (zeros k ++ cs) ≡ value 0 cs
value_zeros zero cs = refl
value_zeros (suc k) cs = value_zeros k cs

pub value_zeros_right : (k : ℕ) → value 0 (zeros k) ≡ 0
value_zeros_right zero = refl
value_zeros_right (suc k) = value_zeros_right k

zeros-IsDigit : (k : ℕ) → All IsDigit (zeros k)
zeros-IsDigit zero = tt
zeros-IsDigit (suc k) = ((omega arith, omega arith), zeros-IsDigit k)

length-zeros : (k : ℕ) → length (zeros k) ≡ k
length-zeros zero = refl
length-zeros (suc k) = ap suc (length-zeros k)

pub value-pad_left : (width : ℕ) (cs : Text) → value 0 (pad_left width cs) ≡ value 0 cs
value-pad_left width cs = value_zeros (width - length cs) cs

pub pad_left-IsDigit : (width : ℕ) (cs : Text) → All IsDigit cs → All IsDigit (pad_left width cs)
pad_left-IsDigit width cs h =
    All-append IsDigit (zeros (width - length cs)) cs (zeros-IsDigit (width - length cs)) h

pub pad_right-IsDigit : (width : ℕ) (cs : Text) → All IsDigit cs → All IsDigit (pad_right width cs)
pad_right-IsDigit width cs h =
    All-append IsDigit cs (zeros (width - length cs)) h (zeros-IsDigit (width - length cs))

pub length-pad_left :
    (width : ℕ) (cs : Text) → length cs ≤ width → length (pad_left width cs) ≡ width
length-pad_left width cs h =
    omega (arith, h, length-append (zeros (width - length cs)) cs, length-zeros (width - length cs))

pub length-pad_right : (width : ℕ) (cs : Text) → width ≤ length (pad_right width cs)
length-pad_right width cs =
    omega (arith, length-append cs (zeros (width - length cs)), length-zeros (width - length cs))

-- The text is the trimmed one with that many zeros.
abbrev Restores : Text → Text → Type 0
Restores trimmed cs = (k : ℕ) × (trimmed ++ zeros k ≡ cs) × (length trimmed + k ≡ length cs)

keep-Restores :
    (c : ℕ) (trimmed cs : Text)
    → Restores trimmed cs
    → Restores (keep (λ d. d == b'0') c trimmed) (c ∷ cs)
keep-Restores c [] cs (k, restores, size) = elim (Bool-cases (c == b'0')) [
  | inl zero_c ↦
      let e = ==→eq c b'0' zero_c in
      rw zero_c (suc k, ap₂ ◌∷◌ (sym e) restores, omega (arith, size))
  | inr other ↦ rw other (k, ap (λ t. c ∷ t) restores, omega (arith, size))
]
keep-Restores c (x ∷ xs) cs (k, restores, size) = (k, ap (λ t. c ∷ t) restores, omega (arith, size))

trim_zeros-Restores : (cs : Text) → Restores (trim_zeros cs) cs
trim_zeros-Restores [] = (0, refl, omega arith)
trim_zeros-Restores (c ∷ cs) = keep-Restores c (trim_zeros cs) cs (trim_zeros-Restores cs)

pub pad_right-trim_zeros : (cs : Text) → pad_right (length cs) (trim_zeros cs) ≡ cs
pad_right-trim_zeros cs =
    let (k, restores, size) = trim_zeros-Restores cs in
    let e : length cs - length (trim_zeros cs) ≡ k = omega (arith, size) in
    ap (λ n. trim_zeros cs ++ zeros n) e ∙ restores

pub length-trim_zeros : (cs : Text) → length (trim_zeros cs) ≤ length cs
length-trim_zeros cs = let (k, restores, size) = trim_zeros-Restores cs in omega (arith, size)

keep-IsDigit :
    (test : ℕ → Bool) (c : ℕ) (cs : Text)
    → IsDigit c
    → All IsDigit cs
    → All IsDigit (keep test c cs)
keep-IsDigit test c [] digit digits = elim (Bool-cases (test c)) [
  | inl dropped ↦ rw dropped tt
  | inr kept ↦ rw kept (digit, tt)
]
keep-IsDigit test c (x ∷ xs) digit digits = (digit, digits)

pub trim_zeros-IsDigit : (cs : Text) → All IsDigit cs → All IsDigit (trim_zeros cs)
trim_zeros-IsDigit [] h = tt
trim_zeros-IsDigit (c ∷ cs) (digit, digits) =
    keep-IsDigit (λ d. d == b'0') c (trim_zeros cs) digit (trim_zeros-IsDigit cs digits)

-- A dot or a digit, or the slash between them.
abbrev pub IsPlain : ℕ → Type 0
IsPlain c = (b'.' ≤ c) × (c ≤ b'9')

not_whitespace : (c : ℕ) → IsPlain c → is_whitespace c ≡ false
not_whitespace c (low, high) = ground arith

keep_plain : (c : ℕ) (cs : Text) → IsPlain c → keep is_whitespace c cs ≡ c ∷ cs
keep_plain c [] plain = rw (not_whitespace c plain) refl
keep_plain c (x ∷ xs) plain = refl

trim_end_plain : (cs : Text) → All IsPlain cs → trim_end is_whitespace cs ≡ cs
trim_end_plain [] h = refl
trim_end_plain (c ∷ cs) (plain, h) = rw (trim_end_plain cs h) (keep_plain c cs plain)

trim_start_plain : (cs : Text) → All IsPlain cs → trim_start cs ≡ cs
trim_start_plain [] h = refl
trim_start_plain (c ∷ cs) (plain, h) = rw (not_whitespace c plain) refl

pub trim_plain : (cs : Text) → All IsPlain cs → trim cs ≡ cs
trim_plain cs h = rw (trim_start_plain cs h) (trim_end_plain cs h)

pub digits-IsPlain : (cs : Text) → All IsDigit cs → All IsPlain cs
digits-IsPlain [] h = tt
digits-IsPlain (c ∷ cs) ((low, high), h) = ((omega arith, high), digits-IsPlain cs h)

no_dot : (c : ℕ) → IsDigit c → (c == b'.') ≡ false
no_dot c (low, high) = ground arith

pub split_dot-digits : (cs : Text) → All IsDigit cs → split_dot cs ≡ none
unfolding split_dot
split_dot-digits [] h = refl
split_dot-digits (c ∷ cs) (digit, h) = rw (no_dot c digit, split_dot-digits cs h) refl

pub split_dot-append :
    (cs rest : Text) → All IsDigit cs → split_dot (cs ++ (b'.' ∷ rest)) ≡ some (cs, rest)
unfolding split_dot
split_dot-append [] rest h = refl
split_dot-append (c ∷ cs) rest (digit, h) = rw (no_dot c digit, split_dot-append cs rest h) refl

one_byte : (c : ℕ) → IsDigit c → ltb c 0x80 ≡ true
one_byte c (low, high) = ground arith

pub utf8_length-length : (cs : Text) → All IsDigit cs → utf8_length cs ≡ length cs
utf8_length-length [] h = refl
utf8_length-length (c ∷ cs) (digit, h) =
    rw (one_byte c digit, utf8_length-length cs h) (omega arith)
