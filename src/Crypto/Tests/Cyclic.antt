-- ===== src/Crypto/Tests/Cyclic.antt =====
-- Residues modulo the order of the curve, in place of its points. A residue and its negative have
-- the same `x`, and the hashes add.
use native.Mathlib.Bridge.{le_prop}
use native.Mathlib.Decide.{dec_lt}
use native.Mathlib.Nat.{mul-mod_right}
use mathlib.Core.HLevel.{Σ_prop_path}
use krusty_kms.Prelude.{
  ℕ, zero, suc, ◌+◌, ◌-◌, ◌*◌, ◌/◌, ◌%◌, ◌<◌, ◌≤◌, ◌≡◌, refl, sym, ap, ◌∙◌, List, [], ◌∷◌, Option,
  none, some, true, ◌&&◌, ◌==◌, leb, if◌then◌else◌, arith, ◌≢◌, ==→eq,
}
use krusty_kms.Crypto.Scalar.{felt_prime, curve_order}
use krusty_kms.Crypto.Curve.{Curve, IsGroup, multiple}

abbrev pub Residue : Type 0
Residue = (value : ℕ) × (value < curve_order)

pub reduced : (n : ℕ) → n % curve_order < curve_order
reduced n = omega arith

unfoldable pub residue : ℕ → Residue
residue n = (n % curve_order, reduced n)

residue_eq : (a b : Residue) → a.0 ≡ b.0 → a ≡ b
residue_eq a b h = Σ_prop_path (λ n. le_prop) h

abbrev half : ℕ
half = (curve_order - 1) / 2

-- The coordinates of a residue that is not zero.
abbrev x_of : ℕ → ℕ
x_of v = if leb v half then v else curve_order - v

abbrev y_of : ℕ → ℕ
y_of v = if leb v half then v else felt_prime + v - curve_order

unfoldable pub to_coordinates : Residue → Option (ℕ × ℕ)
to_coordinates a = if a.0 == 0 then none else some (x_of a.0, y_of a.0)

unfoldable pub from_coordinates : ℕ → ℕ → Option Residue
from_coordinates x y =
    if y == 0
    then none
    else if leb y half
    then (if x == y then some (residue y) else none)
    else let v = y + curve_order - felt_prime in
      if x == felt_prime - y && leb felt_prime (y + half) then some (residue v) else none

unfoldable pub add_residue : Residue → Residue → Residue
add_residue a b = residue (a.0 + b.0)

unfoldable pub neg_y : ℕ → ℕ
neg_y y = felt_prime - y

unfoldable pub hash_sum : List ℕ → ℕ
hash_sum [] = 1
hash_sum (x ∷ xs) = x + hash_sum xs

unfoldable pub hash_pair : ℕ → ℕ → ℕ
hash_pair a b = (a + b + 1) % felt_prime

abbrev pub cyclic : Curve
cyclic = record {
  Point = Residue;
  identity = residue 0;
  add = add_residue;
  sub = λ a b. residue (a.0 + curve_order - b.0);
  same = λ a b. a.0 == b.0;
  to_affine = to_coordinates;
  from_affine = from_coordinates;
  neg_felt = neg_y;
  generator = residue 1;
  poseidon = hash_sum;
  pedersen = hash_pair;
}

multiple_value : (k : ℕ) (a : Residue) → (multiple cyclic k a).0 ≡ (k * a.0) % curve_order
unfolding multiple add_residue residue
multiple_value zero a = omega arith
multiple_value (suc k) a =
    let e : suc k * a.0 ≡ a.0 + k * a.0 = grind arith in rw (multiple_value k a, e) (omega arith)

add_assoc : (a b d : Residue) → add_residue (add_residue a b) d ≡ add_residue a (add_residue b d)
unfolding add_residue residue
add_assoc a b d = residue_eq _ _ (omega arith)

add_comm : (a b : Residue) → add_residue a b ≡ add_residue b a
unfolding add_residue residue
add_comm a b = residue_eq _ _ (omega arith)

add-identity : (a : Residue) → add_residue a (residue 0) ≡ a
unfolding add_residue residue
add-identity a = residue_eq _ _ (omega (arith, a.1))

sub-add : (a b : Residue) → residue ((add_residue a b).0 + curve_order - b.0) ≡ a
unfolding add_residue residue
sub-add a b = residue_eq _ _ (omega (arith, a.1, b.1))

add-sub : (a b : Residue) → add_residue (residue (a.0 + curve_order - b.0)) b ≡ a
unfolding add_residue residue
add-sub a b = residue_eq _ _ (omega (arith, a.1, b.1))

same-true : (a b : Residue) → (a.0 == b.0) ≡ true → a ≡ b
same-true a b h = residue_eq a b (==→eq a.0 b.0 h)

multiple-order : (a : Residue) → multiple cyclic curve_order a ≡ residue 0
unfolding residue
multiple-order a = residue_eq _ _ (multiple_value curve_order a ∙ mul-mod_right curve_order a.0)

generator-injective :
    (n m : ℕ)
    → n < curve_order
    → m < curve_order
    → multiple cyclic n (residue 1) ≡ multiple cyclic m (residue 1)
    → n ≡ m
unfolding residue
generator-injective n m hn hm e =
    let values : (n * 1) % curve_order ≡ (m * 1) % curve_order =
      sym (multiple_value n (residue 1))
      ∙ ap (λ (a : Residue). a.0) e
      ∙ multiple_value m (residue 1) in
    omega (arith, values)

finite : (a : Residue) → to_coordinates a ≡ none → a ≡ residue 0
unfolding to_coordinates residue
finite a h = residue_eq _ _ (ground arith)

from-low : (v : ℕ) → 0 < v → v ≤ half → from_coordinates v v ≡ some (residue v)
unfolding from_coordinates
from-low v h1 h2 = ground arith

from-high :
    (v : ℕ)
    → half < v
    → v < curve_order
    → from_coordinates (curve_order - v) (felt_prime + v - curve_order) ≡ some (residue v)
unfolding from_coordinates
from-high v h1 h2 = ground arith

residue_self : (a : Residue) → residue a.0 ≡ a
unfolding residue
residue_self a = residue_eq _ _ (omega (arith, a.1))

-- The coordinates of a residue, in the lower or in the upper half.
data Shape (a : Residue) (x y : ℕ) : Type 0 where
  low : 0 < a.0 → a.0 ≤ half → x ≡ a.0 → y ≡ a.0 → Shape a x y
  high : half < a.0 → x ≡ curve_order - a.0 → y ≡ felt_prime + a.0 - curve_order → Shape a x y

shape : (a : Residue) (x y : ℕ) → to_coordinates a ≡ some (x, y) → Shape a x y
unfolding to_coordinates
shape a x y h = elim (dec_lt half a.0) [
  | yes large ↦ high large (ground arith) (ground arith)
  | no small ↦ low (ground arith) (omega arith) (ground arith) (ground arith)
]

read_back : (a : Residue) (x y : ℕ) → to_coordinates a ≡ some (x, y) → from_coordinates x y ≡ some a
read_back a x y h = elim (shape a x y h) [
  | low positive small ex ey ↦ rw (ex, ey) (from-low a.0 positive small ∙ ap some (residue_self a))
  | high large ex ey ↦ rw (ex, ey) (from-high a.0 large a.1 ∙ ap some (residue_self a))
]

cancels : (a : Residue) → add_residue a (residue (curve_order - a.0)) ≡ residue 0
unfolding add_residue residue
cancels a = residue_eq _ _ (omega (arith, a.1))

negation :
    (a : Residue) (x y : ℕ)
    → to_coordinates a ≡ some (x, y)
    → (b : Residue) × (from_coordinates x (neg_y y) ≡ some b) × (add_residue a b ≡ residue 0)
unfolding neg_y
negation a x y h =
    let v = curve_order - a.0 in
    (
      residue v,
      elim (shape a x y h) [
        | low positive small ex ey ↦
            let x_v : x ≡ curve_order - v = omega (arith, a.1) in
            let y_v : felt_prime - y ≡ felt_prime + v - curve_order = omega (arith, a.1) in
            rw (x_v, y_v) (from-high v (omega (arith, a.1)) (omega (arith, a.1)))
        | high large ex ey ↦
            let y_v : felt_prime - y ≡ v = omega (arith, a.1) in
            rw (ex, y_v) (from-low v (omega (arith, a.1)) (omega (arith, a.1)))
      ],
      cancels a,
    )

same_self : (a : Residue) → (a.0 == a.0) ≡ true
same_self a = ground arith

hash_pair_bound : (a b : ℕ) → hash_pair a b < felt_prime
unfolding hash_pair
hash_pair_bound a b = omega arith

hidden : to_coordinates (residue 0) ≡ none
unfolding to_coordinates residue
hidden = refl

pub cyclic-IsGroup : IsGroup cyclic
cyclic-IsGroup = record {
  add_assoc = add_assoc;
  add_comm = add_comm;
  add-identity = add-identity;
  sub-add = sub-add;
  multiple-order = multiple-order;
  add-sub = add-sub;
  same-true = same-true;
  same_self = same_self;
  finite = finite;
  infinite = hidden;
  generator-injective = generator-injective;
  from_affine-to_affine = read_back;
  negation = negation;
  pedersen-IsFelt = hash_pair_bound;
}

-- A small multiple of the generator is not the identity.
pub ne_identity : (k : ℕ) → 0 < k → k < curve_order → multiple cyclic k (residue 1) ≢ residue 0
unfolding residue
ne_identity k positive small e =
    let value : (k * 1) % curve_order ≡ 0 % curve_order =
      sym (multiple_value k (residue 1)) ∙ ap (λ (a : Residue). a.0) e in
    absurd (omega (arith, value))
