-- ===== src/Bitcoin/Parse.antt =====
-- Functions that read from a `Reader` (crates/kms/src/bitcoin/tx.rs): the state is the bytes not yet
-- read. A reader is never used again after an error, so an error carries no state.
pub mod Rules
use krusty_kms.Prelude.{ℕ, zero, suc, Bytes, List, [], ◌∷◌, Bool, true, false, Option, none, some}
use krusty_kms.Common.Error.{KmsError, Result, ok, err}

abbrev pub Parse : Type 0 → Type 0
Parse A = Bytes → Result (A × Bytes)

module _ {A : Type 0} where
  abbrev pub pure : A → Parse A
  pure a bytes = ok (a, bytes)

  abbrev pub fail : KmsError → Parse A
  fail e bytes = err e

  -- A result that reads nothing.
  abbrev pub lift : Result A → Parse A
  lift (ok a) bytes = ok (a, bytes)
  lift (err e) bytes = err e

-- `?` after a call: the rest runs on the bytes that the call left.
abbrev pub continue : {A B : Type 0} → Result (A × Bytes) → (A → Parse B) → Result (B × Bytes)
continue (ok (a, rest)) f = f a rest
continue (err e) f = err e

infixl 5 ◌>>=◌ ◌>>◌
unfoldable pub ◌>>=◌ : {A B : Type 0} → Parse A → (A → Parse B) → Parse B
◌>>=◌ m f bytes = continue (m bytes) f

abbrev pub ◌>>◌ : {A B : Type 0} → Parse A → Parse B → Parse B
m >> k = m >>= λ _. k

-- `for _ in 0..count { list.push(p(reader)?) }`
unfoldable pub parse_many : {A : Type 0} → Parse A → ℕ → Parse (List A)
unfolding ◌>>=◌
parse_many p zero = pure []
parse_many p (suc count) = do x ← p; xs ← parse_many p count; pure (x ∷ xs)
