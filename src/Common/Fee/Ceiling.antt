-- ===== src/Common/Fee/Ceiling.antt =====
-- The bounds that `admit` and `admit_estimate` (crates/common/src/fee.rs) let through.
use krusty_kms.Prelude.{◌↔◌, ℕ, ◌+◌, ◌*◌, ◌≤◌, ◌<◌, ◌≡◌, refl, arith, List, ◌∷◌}
use krusty_kms.Common.Fee.{
  MaxBound, ProposedResourceBounds, ResourceBoundsCeiling, Dimension, FeeResult, fee_ok, fee_err,
  ◌>>=◌, l1_gas_dimension, l2_gas_dimension, l1_data_gas_dimension, find_zero, validate_each,
  validate, admit_field, admit_bound, admit, from_estimate, admit_estimate,
}

pub record Positive (b : MaxBound) : Type 0 where
  pub amount : 0 < b.max_amount
  pub price : 0 < b.max_price_per_unit

pub record Within (ceiling proposed : MaxBound) : Type 0 where
  pub amount : proposed.max_amount ≤ ceiling.max_amount
  pub price : proposed.max_price_per_unit ≤ ceiling.max_price_per_unit

-- The contract of a ceiling: it is not degenerate, and no bound is above it.
pub record Admitted (c : ResourceBoundsCeiling) (p : ProposedResourceBounds) : Type 0 where
  pub l1_positive : Positive c.l1_gas
  pub l2_positive : Positive c.l2_gas
  pub l1_data_positive : Positive c.l1_data_gas
  pub l1_within : Within c.l1_gas p.l1_gas
  pub l2_within : Within c.l2_gas p.l2_gas
  pub l1_data_within : Within c.l1_data_gas p.l1_data_gas

>>=-eq-fee_ok :
    {A B : Type 0} (m : FeeResult A) (f : A → FeeResult B) {b : B}
    → (m >>= f) ≡ fee_ok b
    → (a : A) × (m ≡ fee_ok a) × (f a ≡ fee_ok b)
unfolding ◌>>=◌
>>=-eq-fee_ok (fee_ok a) f h = (a, refl, h)
>>=-eq-fee_ok (fee_err e) f h = cc

validate_each-Positive :
    (d : Dimension) (b : MaxBound) (bounds : List (Dimension × MaxBound)) {u : Unit {0}}
    → validate_each ((d, b) ∷ bounds) ≡ fee_ok u
    → Positive b × (validate_each bounds ≡ fee_ok u)
unfolding validate_each find_zero
validate_each-Positive d b bounds h =
    (record { amount = ground arith; price = ground arith }, ground arith)

admit_bound-Within :
    (d : Dimension) (c p : MaxBound) {u : Unit {0}} → admit_bound d c p ≡ fee_ok u → Within c p
unfolding admit_bound admit_field ◌>>=◌
admit_bound-Within d c p h = record { amount = ground arith; price = ground arith }

Within-admit_bound : (d : Dimension) (c p : MaxBound) → Within c p → admit_bound d c p ≡ fee_ok tt
unfolding admit_bound admit_field ◌>>=◌
Within-admit_bound d c p h = ground (arith, h.amount, h.price)

Positive-validate_each :
    (d : Dimension) (b : MaxBound) (bounds : List (Dimension × MaxBound))
    → Positive b
    → validate_each ((d, b) ∷ bounds) ≡ validate_each bounds
unfolding validate_each find_zero
Positive-validate_each d b bounds h = ground (arith, h.amount, h.price)

mul-le : {a b c d : ℕ} → a ≤ b → c ≤ d → a * c ≤ b * d
mul-le h k = grind arith

admitted :
    (c : ResourceBoundsCeiling) (p : ProposedResourceBounds) → admit c p ≡ fee_ok tt → Admitted c p
unfolding admit validate
admitted c p h =
    let (_, valid, h1) = >>=-eq-fee_ok _ _ h in
    let (_, within_l1, h2) = >>=-eq-fee_ok _ _ h1 in
    let (_, within_l2, within_l1_data) = >>=-eq-fee_ok _ _ h2 in
    let (l1, valid1) = validate_each-Positive l1_gas_dimension c.l1_gas _ valid in
    let (l2, valid2) = validate_each-Positive l2_gas_dimension c.l2_gas _ valid1 in
    let (l1_data, _) = validate_each-Positive l1_data_gas_dimension c.l1_data_gas _ valid2 in
    record {
      l1_positive = l1;
      l2_positive = l2;
      l1_data_positive = l1_data;
      l1_within = admit_bound-Within l1_gas_dimension c.l1_gas p.l1_gas within_l1;
      l2_within = admit_bound-Within l2_gas_dimension c.l2_gas p.l2_gas within_l2;
      l1_data_within =
          admit_bound-Within l1_data_gas_dimension c.l1_data_gas p.l1_data_gas within_l1_data;
    }

admits :
    (c : ResourceBoundsCeiling) (p : ProposedResourceBounds) → Admitted c p → admit c p ≡ fee_ok tt
unfolding admit validate validate_each ◌>>=◌
admits c p h =
    rw
      (
        Positive-validate_each _ _ _ h.l1_positive,
        Positive-validate_each _ _ _ h.l2_positive,
        Positive-validate_each _ _ _ h.l1_data_positive,
        Within-admit_bound _ _ _ h.l1_within,
        Within-admit_bound _ _ _ h.l2_within,
        Within-admit_bound _ _ _ h.l1_data_within,
      )
      refl

-- `admit` succeeds exactly when every field of the ceiling is above zero and every field of the
-- proposed bounds is at or below the ceiling's.
pub admit-Admitted :
    (c : ResourceBoundsCeiling) (p : ProposedResourceBounds)
    → (admit c p ≡ fee_ok tt) ↔ Admitted c p
admit-Admitted c p = (admitted c p, admits c p)

-- The fee of bounds used in full, with the tip on each unit of L2 gas.
abbrev pub bound_fee : MaxBound → ℕ
bound_fee b = b.max_amount * b.max_price_per_unit

abbrev pub worst_fee : MaxBound → MaxBound → MaxBound → ℕ → ℕ
worst_fee l1 l2 l1_data tip = bound_fee l1 + bound_fee l2 + bound_fee l1_data + l2.max_amount * tip

bound_fee-le : (c p : MaxBound) → Within c p → bound_fee p ≤ bound_fee c
bound_fee-le c p h = mul-le h.amount h.price

-- When `admit_estimate` returns bounds, they are the scaled estimates, the ceiling admits them, and
-- with the ceiling's tip they can cost at most
-- `Σ max_amount × max_price_per_unit + l2_gas.max_amount × max_tip` of the ceiling.
pub admit_estimate-bound :
    (scale_u64 scale_u128 : ℕ → ℕ) (c : ResourceBoundsCeiling) (l1 l2 l1_data : ℕ × ℕ)
    (p : ProposedResourceBounds)
    → admit_estimate scale_u64 scale_u128 c l1 l2 l1_data ≡ fee_ok p
    → (from_estimate scale_u64 scale_u128 l1 l2 l1_data ≡ fee_ok p)
      × Admitted c p
      × (worst_fee p.l1_gas p.l2_gas p.l1_data_gas c.max_tip
          ≤ worst_fee c.l1_gas c.l2_gas c.l1_data_gas c.max_tip)
unfolding admit_estimate
admit_estimate-bound scale_u64 scale_u128 c l1 l2 l1_data p h =
    let (made, g1, h1) = >>=-eq-fee_ok _ _ h in
    let (_, g2, h2) = >>=-eq-fee_ok _ _ h1 in
    let same : made ≡ p = cc h2 in
    let a : Admitted c p = admitted c p (rw (← same) g2) in
    let tip : p.l2_gas.max_amount * c.max_tip ≤ c.l2_gas.max_amount * c.max_tip =
      mul-le a.l2_within.amount (omega arith) in
    (
      rw (← same) g1,
      a,
      omega (
        arith,
        bound_fee-le c.l1_gas p.l1_gas a.l1_within,
        bound_fee-le c.l2_gas p.l2_gas a.l2_within,
        bound_fee-le c.l1_data_gas p.l1_data_gas a.l1_data_within,
        tip,
      ),
    )
