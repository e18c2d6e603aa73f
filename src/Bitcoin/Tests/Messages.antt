-- ===== src/Bitcoin/Tests/Messages.antt =====
-- Addresses and the transactions behind message signatures, at concrete values.
use krusty_kms.Prelude.{◌≡◌, refl, Bytes, [], ◌∷◌, length, arith}
use krusty_kms.Common.Error.{ok}
use krusty_kms.Bitcoin.Bech32.{
  encode_segwit_v0, to_base32, regroup, drain, characters, checksum, checksum_values, polymod,
  polymod_from, apply_generators, high_bits, low_bits,
}
use krusty_kms.Bitcoin.Bech32.Total.{encode_segwit_v0-total}
use krusty_kms.Bitcoin.Bip322.{message_hash, mainnet_hrp}
use krusty_kms.Bitcoin.Bip322.Binding.{IsHash, to_spend-injective}
use krusty_kms.Bitcoin.Tests.Data.{test_external, paid, are_bytes-AllBytes}

-- The key hash of the P2WPKH address in BIP-173.
abbrev bip173_program : Bytes
bip173_program =
    0x75 ∷ 0x1e ∷ 0x76 ∷ 0xe8 ∷ 0x19 ∷ 0x91 ∷ 0x96 ∷ 0xd4 ∷ 0x54 ∷ 0x94 ∷ 0x1c ∷ 0x45 ∷ 0xd1 ∷ 0xb3
    ∷ 0xa3 ∷ 0x23 ∷ 0xf1 ∷ 0x43 ∷ 0x3b ∷ 0xd6 ∷ []

-- `bc1qw508d6qejxtdg4y5r3zarvary0c5xw7kv8f3t4`
bip173_address :
    encode_segwit_v0 mainnet_hrp bip173_program
    ≡ ok (
        b'b' ∷ b'c' ∷ b'1' ∷ b'q' ∷ b'w' ∷ b'5' ∷ b'0' ∷ b'8' ∷ b'd' ∷ b'6' ∷ b'q' ∷ b'e' ∷ b'j'
        ∷ b'x' ∷ b't' ∷ b'd' ∷ b'g' ∷ b'4' ∷ b'y' ∷ b'5' ∷ b'r' ∷ b'3' ∷ b'z' ∷ b'a' ∷ b'r' ∷ b'v'
        ∷ b'a' ∷ b'r' ∷ b'y' ∷ b'0' ∷ b'c' ∷ b'5' ∷ b'x' ∷ b'w' ∷ b'7' ∷ b'k' ∷ b'v' ∷ b'8' ∷ b'f'
        ∷ b'3' ∷ b't' ∷ b'4' ∷ [])
unfolding encode_segwit_v0 to_base32 regroup drain characters checksum checksum_values polymod
    polymod_from apply_generators high_bits low_bits krusty_kms.Common.Error.◌>>=◌
bip173_address = refl

encode_segwit_v0-total_example :
    (address : Bytes) × (encode_segwit_v0 mainnet_hrp bip173_program ≡ ok address)
    × (length address ≡ 42)
encode_segwit_v0-total_example = encode_segwit_v0-total mainnet_hrp bip173_program

abbrev hello : Bytes
hello = b'h' ∷ b'i' ∷ []

hello-IsHash : IsHash (message_hash test_external hello)
unfolding message_hash
hello-IsHash = record {
  bytes = are_bytes-AllBytes (message_hash test_external hello) refl;
  size = refl;
}

to_spend-injective_example :
    (paid.script_pubkey ≡ paid.script_pubkey)
    × (message_hash test_external hello ≡ message_hash test_external hello)
to_spend-injective_example =
    to_spend-injective test_external paid.script_pubkey hello paid.script_pubkey hello (omega arith)
      (are_bytes-AllBytes paid.script_pubkey refl, (omega arith, omega arith))
      (are_bytes-AllBytes paid.script_pubkey refl, (omega arith, omega arith)) hello-IsHash
      hello-IsHash refl
