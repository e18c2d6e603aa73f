-- ===== src/Bitcoin/Psbt/Der.antt =====
-- crates/kms/src/bitcoin/psbt/fields.rs: strict DER (BIP-66) with a sighash type behind it.
use krusty_kms.Prelude.{
  ℕ, ◌+◌, ◌%◌, Bytes, [], ◌∷◌, Bool, true, false, ◌&&◌, Option, none, some, leb, ◌==◌,
  if◌then◌else◌, length,
}
use krusty_kms.Bitcoin.Reader.{split_at_checked}

-- `slice::split_last`, the last element behind the rest.
abbrev pub split_last : Bytes → Option (Bytes × ℕ)
split_last [] = none
split_last (b ∷ []) = some ([], b)
split_last (b ∷ c ∷ bytes) = elim (split_last (c ∷ bytes)) [
  | none ↦ none
  | some (front, last) ↦ some (b ∷ front, last)
]

-- `first & 0x80 != 0` on a byte.
abbrev top_bit : ℕ → Bool
top_bit b = leb 0x80 b

unfoldable pub is_minimal_positive : Bytes → Bool
is_minimal_positive [] = false
is_minimal_positive (first ∷ []) = if top_bit first then false else true
is_minimal_positive (first ∷ second ∷ rest) =
    if top_bit first then false else if first == 0x00 then top_bit second else true

-- Splits `02 <len> <len bytes>` off the front.
unfoldable pub der_integer : Bytes → Option (Bytes × Bytes)
unfolding split_at_checked
der_integer (tag ∷ len ∷ rest) = if tag == 0x02 then split_at_checked len rest else none
der_integer _ = none

-- The two integers that fill the body.
der_body : Bytes → Bool
unfolding der_integer is_minimal_positive
der_body body = elim (der_integer body) [
  | none ↦ false
  | some (r, rest) ↦ elim (der_integer rest) [
    | none ↦ false
    | some (s, rest') ↦ length rest' == 0 && (is_minimal_positive r && is_minimal_positive s)
  ]
]

unfoldable pub is_strict_der : Bytes → Bool
unfolding der_body
is_strict_der (tag ∷ len ∷ body) =
    tag == 0x30
    && ((leb 8 (length body + 2) && leb (length body + 2) 72)
        && (len == length body && der_body body))
is_strict_der _ = false

-- `sighash_type & !0x80` on a byte.
unfoldable pub is_signature : Bytes → Bool
unfolding is_strict_der
is_signature sig = elim (split_last sig) [
  | none ↦ false
  | some (der, sighash_type) ↦
      (leb 0x01 (sighash_type % 0x80) && leb (sighash_type % 0x80) 0x03) && is_strict_der der
]
