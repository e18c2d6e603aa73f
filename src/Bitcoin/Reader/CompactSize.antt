-- ===== src/Bitcoin/Reader/CompactSize.antt =====
-- CompactSize numbers (crates/kms/src/bitcoin/tx.rs), read and written.
use krusty_kms.Prelude.{ℕ, ◌<◌, ◌^◌, ◌≡◌, ◌∙◌, Bytes, ◌++◌, AllBytes, ap}
use krusty_kms.Common.Error.{ok}
use krusty_kms.Bitcoin.Reader.{compact_u64, write_compact_size}
use krusty_kms.Bitcoin.Reader.Reads.{compact_u64-Consumes}
use krusty_kms.Bitcoin.Reader.Writes.{compact_u64-Accepts}

-- A number that `compact_u64` reads is a `u64`, and the bytes read are exactly those that
-- `write_compact_size` writes for it, so no longer encoding is accepted.
pub compact_u64-eq-ok :
    (bytes : Bytes) (v : ℕ) (rest : Bytes)
    → AllBytes bytes
    → compact_u64 bytes ≡ ok (v, rest)
    → (bytes ≡ write_compact_size v ++ rest) × (v < 2 ^ 64)
compact_u64-eq-ok bytes v rest all h =
    let (c, e, _, (c_is, bound)) = compact_u64-Consumes.at bytes v rest all h in
    (e ∙ ap (λ t. t ++ rest) c_is, bound)

-- `compact_u64` reads every `u64` back from what `write_compact_size` writes, whatever follows it.
pub compact_u64-write_compact_size :
    (v : ℕ) (rest : Bytes) → v < 2 ^ 64 → compact_u64 (write_compact_size v ++ rest) ≡ ok (v, rest)
compact_u64-write_compact_size v rest h = (compact_u64-Accepts v h).on rest
