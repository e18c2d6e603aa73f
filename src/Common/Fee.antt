-- ===== src/Common/Fee.antt =====
-- crates/common/src/fee.rs: ceilings on the resource bounds that a wallet signs.
pub mod Ceiling
use krusty_kms.Prelude.{
  ℕ, ◌+◌, ◌*◌, ◌^◌, List, [], ◌∷◌, Bool, true, false, Option, none, some, ltb, ◌==◌, if◌then◌else◌,
}

-- `max_amount` is a `u64`, `max_price_per_unit` a `u128`.
pub record MaxBound : Type 0 where
  pub max_amount : ℕ
  pub max_price_per_unit : ℕ

pub record ProposedResourceBounds : Type 0 where
  pub l1_gas : MaxBound
  pub l2_gas : MaxBound
  pub l1_data_gas : MaxBound

pub record ResourceBoundsCeiling : Type 0 where
  pub l1_gas : MaxBound
  pub l2_gas : MaxBound
  pub l1_data_gas : MaxBound
  pub max_tip : ℕ

-- `DIMENSIONS`, and the names in `MaxBound::fields`.
pub data Dimension : Type 0 where
  l1_gas_dimension l2_gas_dimension l1_data_gas_dimension : Dimension

pub data BoundField : Type 0 where
  amount_field price_field : BoundField

pub data FeeCeilingError : Type 0 where
  zero_ceiling : Dimension → BoundField → FeeCeilingError
  estimate_out_of_range : FeeCeilingError
  exceeded : Dimension → BoundField → ℕ → ℕ → FeeCeilingError

pub data FeeResult (A : Type 0) : Type 0 where
  fee_ok : A → FeeResult A
  fee_err : FeeCeilingError → FeeResult A

infixl 5 ◌>>=◌ ◌>>◌
unfoldable pub ◌>>=◌ : {A B : Type 0} → FeeResult A → (A → FeeResult B) → FeeResult B
fee_ok a >>= f = f a
fee_err e >>= f = fee_err e

abbrev pub ◌>>◌ : {A B : Type 0} → FeeResult A → FeeResult B → FeeResult B
m >> k = m >>= λ _. k

-- `DEFAULT_TIP`
abbrev pub default_tip : ℕ
default_tip = 0

-- `MaxBound::fields`
abbrev pub bound_fields : MaxBound → List (BoundField × ℕ)
bound_fields b = (amount_field, b.max_amount) ∷ (price_field, b.max_price_per_unit) ∷ []

-- `DIMENSIONS.into_iter().zip(self.bounds())`
abbrev pub ceiling_bounds : ResourceBoundsCeiling → List (Dimension × MaxBound)
ceiling_bounds c =
    (l1_gas_dimension, c.l1_gas)
    ∷ (l2_gas_dimension, c.l2_gas)
    ∷ (l1_data_gas_dimension, c.l1_data_gas)
    ∷ []

-- `find(|(_, value)| *value == 0)`
unfoldable pub find_zero : List (BoundField × ℕ) → Option BoundField
find_zero [] = none
find_zero ((field, value) ∷ fields) = if value == 0 then some field else find_zero fields

unfoldable pub validate_each : List (Dimension × MaxBound) → FeeResult (Unit {0})
validate_each [] = fee_ok tt
validate_each ((dimension, bound) ∷ bounds) = elim (find_zero (bound_fields bound)) [
  | some field ↦ fee_err (zero_ceiling dimension field)
  | none ↦ validate_each bounds
]

unfoldable pub validate : ResourceBoundsCeiling → FeeResult (Unit {0})
validate ceiling = validate_each (ceiling_bounds ceiling)

-- `ResourceBoundsCeiling::new`
unfoldable pub new_ceiling : MaxBound → MaxBound → MaxBound → FeeResult ResourceBoundsCeiling
new_ceiling l1_gas l2_gas l1_data_gas =
    let ceiling : ResourceBoundsCeiling = record {
      l1_gas = l1_gas;
      l2_gas = l2_gas;
      l1_data_gas = l1_data_gas;
      max_tip = default_tip;
    } in
    validate ceiling >> fee_ok ceiling

unfoldable pub with_max_tip : ResourceBoundsCeiling → ℕ → ResourceBoundsCeiling
with_max_tip ceiling max_tip = record ceiling { max_tip = max_tip }

-- One field of one dimension: proposed over ceiling is reported.
unfoldable pub admit_field : Dimension → BoundField → ℕ → ℕ → FeeResult (Unit {0})
admit_field dimension field ceiling proposed =
    if ltb ceiling proposed then fee_err (exceeded dimension field proposed ceiling) else fee_ok tt

unfoldable pub admit_bound : Dimension → MaxBound → MaxBound → FeeResult (Unit {0})
admit_bound dimension ceiling proposed = do
  admit_field dimension amount_field ceiling.max_amount proposed.max_amount
  admit_field dimension price_field ceiling.max_price_per_unit proposed.max_price_per_unit

unfoldable pub admit : ResourceBoundsCeiling → ProposedResourceBounds → FeeResult (Unit {0})
admit ceiling proposed = do
  validate ceiling
  admit_bound l1_gas_dimension ceiling.l1_gas proposed.l1_gas
  admit_bound l2_gas_dimension ceiling.l2_gas proposed.l2_gas
  admit_bound l1_data_gas_dimension ceiling.l1_data_gas proposed.l1_data_gas

-- `(x as f64 * ESTIMATE_MULTIPLIER) as u64` and `… as u128` are the target's float arithmetic.
module _ (scale_u64 scale_u128 : ℕ → ℕ) where
  unfoldable pub bound_from_estimate : ℕ × ℕ → FeeResult MaxBound
  bound_from_estimate (consumed, price_per_unit) =
      if ltb price_per_unit (2 ^ 64)
      then fee_ok (record {
        max_amount = scale_u64 consumed;
        max_price_per_unit = scale_u128 price_per_unit;
      })
      else fee_err estimate_out_of_range

  unfoldable pub from_estimate : ℕ × ℕ → ℕ × ℕ → ℕ × ℕ → FeeResult ProposedResourceBounds
  from_estimate l1_gas l2_gas l1_data_gas = do
    l1 ← bound_from_estimate l1_gas
    l2 ← bound_from_estimate l2_gas
    l1_data ← bound_from_estimate l1_data_gas
    fee_ok (record { l1_gas = l1; l2_gas = l2; l1_data_gas = l1_data })

  unfoldable pub admit_estimate :
      ResourceBoundsCeiling → ℕ × ℕ → ℕ × ℕ → ℕ × ℕ → FeeResult ProposedResourceBounds
  admit_estimate ceiling l1_gas l2_gas l1_data_gas = do
    proposed ← from_estimate l1_gas l2_gas l1_data_gas
    admit ceiling proposed
    fee_ok proposed
