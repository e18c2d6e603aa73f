-- ===== src/Crypto/Scalar.antt =====
-- crates/crypto/src/scalar.rs: arithmetic modulo the order of the curve. Each operation returns `Ok`.
use krusty_kms.Prelude.{ℕ, ◌+◌, ◌-◌, ◌*◌, ◌%◌, ◌<◌, arith}

-- A felt is a number below the prime of the field, of which `felt_add` is the sum.
abbrev pub felt_prime : ℕ
felt_prime = 0x800000000000011000000000000000000000000000000000000000000000001

abbrev pub IsFelt : ℕ → Type 0
IsFelt a = a < felt_prime

unfoldable pub felt_add : ℕ → ℕ → ℕ
felt_add a b = (a + b) % felt_prime

-- `CurveOrder`
abbrev pub curve_order : ℕ
curve_order = 0x0800000000000010ffffffffffffffffb781126dcae7b2321e66a241adc64d2f

unfoldable pub reduce_scalar : ℕ → ℕ
reduce_scalar a = a % curve_order

unfoldable pub scalar_add : ℕ → ℕ → ℕ
scalar_add a b = (a % curve_order + b % curve_order) % curve_order

unfoldable pub scalar_sub : ℕ → ℕ → ℕ
scalar_sub a b = (a % curve_order + curve_order - b % curve_order) % curve_order

unfoldable pub scalar_mul : ℕ → ℕ → ℕ
scalar_mul a b = (a % curve_order * (b % curve_order)) % curve_order

pub reduce_scalar-IsFelt : (a : ℕ) → IsFelt (reduce_scalar a)
unfolding reduce_scalar
reduce_scalar-IsFelt a = omega arith

pub scalar_add-IsFelt : (a b : ℕ) → IsFelt (scalar_add a b)
unfolding scalar_add
scalar_add-IsFelt a b = omega arith

pub scalar_sub-IsFelt : (a b : ℕ) → IsFelt (scalar_sub a b)
unfolding scalar_sub
scalar_sub-IsFelt a b = omega arith
