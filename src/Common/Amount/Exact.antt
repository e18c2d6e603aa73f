-- ===== src/Common/Amount/Exact.antt =====
-- `checked_add` and `checked_sub` (crates/common/src/amount.rs) on numbers.
use krusty_kms.Prelude.{ℕ, ◌+◌, ◌≤◌, ◌≡◌, refl, sym, ap₂, subst, ◌↔◌, some, arith, ==→eq, eq→==}
use krusty_kms.Common.Error.{ok, >>=-eq-ok, guard-eq-ok, ok_or-eq-ok, ok-injective, ◌>>=◌}
use krusty_kms.Common.Amount.{
  Amount, u128_max, checked_add_u128, checked_sub_u128, checked_add, checked_sub,
}

-- The sum of amounts of one precision, when it fits.
pub record IsSum (a b c : Amount) : Type 0 where
  pub same_decimals : a.decimals ≡ b.decimals
  pub kept_decimals : c.decimals ≡ a.decimals
  pub total : c.raw ≡ a.raw + b.raw
  pub fits : c.raw ≤ u128_max

abbrev amount_of : ℕ → ℕ → Amount
amount_of raw decimals = record { raw = raw; decimals = decimals }

sum-u128 :
    (a b : ℕ) {sum : ℕ} → checked_add_u128 a b ≡ some sum → (a + b ≡ sum) × (a + b ≤ u128_max)
unfolding checked_add_u128
sum-u128 a b h = (ground arith, ground arith)

u128-sum : (a b : ℕ) → a + b ≤ u128_max → checked_add_u128 a b ≡ some (a + b)
unfolding checked_add_u128
u128-sum a b h = ground arith

u128-difference : (a b : ℕ) → checked_sub_u128 (a + b) b ≡ some a
unfolding checked_sub_u128
u128-difference a b = ground arith

checked_add-eq-ok : (a b c : Amount) → checked_add a b ≡ ok c → IsSum a b c
unfolding checked_add
checked_add-eq-ok a b c h =
    let (_, g1, h1) = >>=-eq-ok _ _ h in
    let (raw, g2, h2) = >>=-eq-ok _ _ h1 in
    let (total, fits) = sum-u128 a.raw b.raw (ok_or-eq-ok _ _ g2) in
    let same : a.decimals ≡ b.decimals = ==→eq _ _ (guard-eq-ok _ _ g1) in
    let sum : IsSum a b (record { raw = raw; decimals = a.decimals }) = record {
      same_decimals = same;
      kept_decimals = refl;
      total = sym total;
      fits = rw (← total) fits;
    } in
    subst (IsSum a b) (ok-injective _ _ h2) sum

checked_add-ok : (a b c : Amount) → IsSum a b c → checked_add a b ≡ ok c
unfolding checked_add ◌>>=◌
checked_add-ok a b c h =
    let fits : a.raw + b.raw ≤ u128_max = omega (arith, h.total, h.fits) in
    rw (eq→== a.decimals b.decimals h.same_decimals, u128-sum a.raw b.raw fits)
      (ap₂ (λ r d. ok (amount_of r d)) (sym h.total) (sym h.kept_decimals))

-- `checked_add` returns `c` exactly when the precisions are the same and kept, the raw value of `c` is
-- the exact sum, and that sum is a `u128`.
pub checked_add-IsSum : (a b c : Amount) → (checked_add a b ≡ ok c) ↔ IsSum a b c
checked_add-IsSum a b c = (checked_add-eq-ok a b c, checked_add-ok a b c)

-- What `checked_add` has added, `checked_sub` takes away again.
pub checked_sub-checked_add : (a b c : Amount) → checked_add a b ≡ ok c → checked_sub c b ≡ ok a
unfolding checked_sub ◌>>=◌
checked_sub-checked_add a b c h =
    let s = checked_add-eq-ok a b c h in
    rw
      (
        s.kept_decimals,
        eq→== a.decimals b.decimals s.same_decimals,
        s.total,
        u128-difference a.raw b.raw,
      )
      refl
