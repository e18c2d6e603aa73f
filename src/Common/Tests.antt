-- ===== src/Common/Tests.antt =====
-- A fee ceiling and amounts at concrete numbers.
use krusty_kms.Prelude.{ℕ, ◌*◌, ◌/◌, ◌≡◌, ◌↔◌, refl, [], ◌∷◌, arith}
use krusty_kms.Common.Fee.{
  MaxBound, ProposedResourceBounds, ResourceBoundsCeiling, fee_ok, admit, admit_estimate,
  from_estimate, bound_from_estimate, validate, validate_each, find_zero, admit_bound, admit_field,
  ◌>>=◌,
}
use krusty_kms.Common.Error.{ok, err, invalid_amount}
use krusty_kms.Common.Decimal.{scan, split_dot, to_digits}
use krusty_kms.Common.Amount.{
  Amount, checked_add, checked_add_u128, checked_mul_u128, checked_factor, raw_value, from_human,
  to_human,
}
use krusty_kms.Common.Amount.RoundTrip.{from_human-to_human}
use krusty_kms.Common.Fee.Ceiling.{Admitted, admit-Admitted}

abbrev bound : ℕ → ℕ → MaxBound
bound amount price = record { max_amount = amount; max_price_per_unit = price }

abbrev ceiling : ResourceBoundsCeiling
ceiling = record {
  l1_gas = bound 100 50;
  l2_gas = bound 200 60;
  l1_data_gas = bound 300 70;
  max_tip = 5;
}

-- A multiplication by 1.5, rounded down.
abbrev half_more : ℕ → ℕ
half_more n = n * 3 / 2

abbrev proposed : ProposedResourceBounds
proposed = record { l1_gas = bound 15 30; l2_gas = bound 150 60; l1_data_gas = bound 0 3 }

estimate_admitted :
    admit_estimate half_more half_more ceiling (10, 20) (100, 40) (0, 2) ≡ fee_ok proposed
unfolding admit_estimate from_estimate bound_from_estimate admit validate validate_each find_zero
    admit_bound admit_field ◌>>=◌
estimate_admitted = refl

admit-Admitted_example : (admit ceiling proposed ≡ fee_ok tt) ↔ Admitted ceiling proposed
admit-Admitted_example = admit-Admitted ceiling proposed

abbrev amount : ℕ → Amount
amount raw = record { raw = raw; decimals = 18 }

amounts_added : checked_add (amount 15) (amount 27) ≡ ok (amount 42)
unfolding checked_add checked_add_u128 krusty_kms.Common.Error.◌>>=◌
amounts_added = refl

abbrev micros : Amount
micros = record { raw = 1_500_000; decimals = 6 }

printed : to_human micros ≡ b'1' ∷ (b'.' ∷ (b'5' ∷ []))
unfolding to_human checked_factor to_digits
printed = refl

reading : Unit {0}
unfolding from_human raw_value checked_factor checked_mul_u128 checked_add_u128 split_dot scan
    krusty_kms.Common.Error.◌>>=◌
reading = tt

spaced : from_human (0x20 ∷ (b'.' ∷ (b'0' ∷ (b'5' ∷ [])))) 2 ≡ ok (record { raw = 5; decimals = 2 })
unfolding reading
spaced = refl

sign_in_fraction :
    from_human (b'1' ∷ (b'.' ∷ (b'+' ∷ (b'5' ∷ [])))) 2 ≡ ok (record { raw = 105; decimals = 2 })
unfolding reading
sign_in_fraction = refl

too_precise : from_human (b'1' ∷ (b'.' ∷ (b'0' ∷ (b'5' ∷ [])))) 1 ≡ err invalid_amount
unfolding reading
too_precise = refl

from_human-to_human_example : from_human (to_human micros) 6 ≡ ok micros
from_human-to_human_example = from_human-to_human micros (omega arith) (omega arith)
