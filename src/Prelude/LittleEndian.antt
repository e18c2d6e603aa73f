-- ===== src/Prelude/LittleEndian.antt =====
-- Bytes as numbers below 256, and little-endian integers.
use Prim.Native.Nat.{ℕ, zero, suc, ◌+◌, ◌*◌, ◌/◌, ◌%◌, ◌^◌, ◌<◌}
use mathlib.Core.Path.{◌≡◌, refl, sym, ap, ap₂, ◌∙◌}
use mathlib.Core.List.{List, [], ◌∷◌}
use native.Mathlib.Nat.{pow-suc}
use native.Mathlib.Omega.{arith}
use krusty_kms.Prelude.Lists.{length, All}

abbrev pub Bytes : Type 0
Bytes = List ℕ

abbrev pub IsByte : ℕ → Type 0
IsByte b = b < 256

abbrev pub AllBytes : Bytes → Type 0
AllBytes = All IsByte

-- `uN::from_le_bytes`: the first byte is the lowest.
abbrev pub from_le_bytes : Bytes → ℕ
from_le_bytes [] = 0
from_le_bytes (b ∷ bs) = b + 256 * from_le_bytes bs

-- `uN::to_le_bytes` for an integer of `n` bytes.
abbrev pub to_le_bytes : ℕ → ℕ → Bytes
to_le_bytes zero v = []
to_le_bytes (suc n) v = (v % 256) ∷ to_le_bytes n (v / 256)

pub length-to_le_bytes : (n v : ℕ) → length (to_le_bytes n v) ≡ n
length-to_le_bytes zero v = refl
length-to_le_bytes (suc n) v = omega (arith, length-to_le_bytes n (v / 256))

pub to_le_bytes-AllBytes : (n v : ℕ) → AllBytes (to_le_bytes n v)
to_le_bytes-AllBytes zero v = tt
to_le_bytes-AllBytes (suc n) v = (omega arith, to_le_bytes-AllBytes n (v / 256))

div_fits : (n v : ℕ) → v < 256 ^ suc n → v / 256 < 256 ^ n
div_fits n v h = omega (arith, pow-suc 256 n)

-- Reading back the bytes of a value that fits.
pub from_le_bytes-to_le_bytes : (n v : ℕ) → v < 256 ^ n → from_le_bytes (to_le_bytes n v) ≡ v
from_le_bytes-to_le_bytes zero v h = omega arith
from_le_bytes-to_le_bytes (suc n) v h =
    omega (arith, pow-suc 256 n, from_le_bytes-to_le_bytes n (v / 256) (div_fits n v h))

-- Bytes are the little-endian form of the number that they stand for.
pub to_le_bytes-from_le_bytes :
    (bs : Bytes) → AllBytes bs → to_le_bytes (length bs) (from_le_bytes bs) ≡ bs
to_le_bytes-from_le_bytes [] h = refl
to_le_bytes-from_le_bytes (b ∷ bs) (hb, hbs) =
    ap₂ ◌∷◌ (omega arith) (ap (to_le_bytes (length bs)) tail ∙ to_le_bytes-from_le_bytes bs hbs)
  where
    tail : (b + 256 * from_le_bytes bs) / 256 ≡ from_le_bytes bs
    tail = omega arith

pub from_le_bytes-lt : (bs : Bytes) → AllBytes bs → from_le_bytes bs < 256 ^ length bs
from_le_bytes-lt [] h = omega arith
from_le_bytes-lt (b ∷ bs) (hb, hbs) =
    omega (arith, pow-suc 256 (length bs), from_le_bytes-lt bs hbs)

-- Words that are written alike are equal.
pub to_le_bytes-injective :
    (n v w : ℕ) → v < 256 ^ n → w < 256 ^ n → to_le_bytes n v ≡ to_le_bytes n w → v ≡ w
to_le_bytes-injective n v w hv hw e =
    sym (from_le_bytes-to_le_bytes n v hv) ∙ ap from_le_bytes e ∙ from_le_bytes-to_le_bytes n w hw
