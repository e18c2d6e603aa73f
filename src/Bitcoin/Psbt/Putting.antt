-- ===== src/Bitcoin/Psbt/Putting.antt =====
-- What `put_partial_signature` of crates/kms/src/bitcoin/psbt.rs makes of a map.
use krusty_kms.Prelude.{
  ◌≡◌, ◌≢◌, refl, sym, ap, ◌∙◌, Bytes, [], ◌∷◌, ◌++◌, true, false, ◌⊎◌, inl, inr, All, Bool-cases,
  arith,
}
use krusty_kms.Bitcoin.Psbt.Checks.{bytes_eq}
use krusty_kms.Bitcoin.Psbt.Pairs.{Pair, PairMap, put_pair, put_partial_signature}
use krusty_kms.Bitcoin.Psbt.RoundTrip.{bytes_eq→eq}

abbrev pub Absent : Bytes → PairMap → Type 0
Absent key map = All (λ p. p.key ≢ key) map

-- Where no pair has the key, a pair with the value is added at the end. Otherwise the value of the
-- first such pair is replaced. All other pairs stay as and where they are.
abbrev pub PutUnder : Bytes → Bytes → PairMap → PairMap → Type 0
PutUnder key value map after =
    (Absent key map × (after ≡ map ++ (record { key = key; value = value } ∷ [])))
    ⊎ ((front : PairMap) × (old : Bytes) × (back : PairMap) × Absent key front
        × (map ≡ front ++ (record { key = key; value = old } ∷ back))
        × (after ≡ front ++ (record { key = key; value = value } ∷ back)))

PutUnder-cons :
    (p : Pair) (key value : Bytes) (map after : PairMap)
    → p.key ≢ key
    → PutUnder key value map after
    → PutUnder key value (p ∷ map) (p ∷ after)
PutUnder-cons p key value map after other (inl (absent, same)) =
    inl ((other, absent), ap (λ m. p ∷ m) same)
PutUnder-cons p key value map after other (inr (front, old, back, absent, before, same)) =
    inr (p ∷ front, old, back, (other, absent), ap (λ m. p ∷ m) before, ap (λ m. p ∷ m) same)

bytes_eq_self : (a : Bytes) → bytes_eq a a ≡ true
unfolding bytes_eq
bytes_eq_self [] = refl
bytes_eq_self (x ∷ a) = ground (arith, bytes_eq_self a)

true-not-false : true ≢ false
true-not-false h = cc

put_pair-PutUnder :
    (map : PairMap) (key value : Bytes) → PutUnder key value map (put_pair map key value)
unfolding put_pair
put_pair-PutUnder [] key value = inl (tt, refl)
put_pair-PutUnder (p ∷ map) key value = elim (Bool-cases (bytes_eq p.key key)) [
  | inl same ↦
      let e = bytes_eq→eq p.key key same in
      inr (
        [],
        p.value,
        map,
        tt,
        ap (λ k. record { key = k; value = p.value } ∷ map) e,
        rw same (ap (λ k. record { key = k; value = value } ∷ map) e),
      )
  | inr other ↦
      let differ : p.key ≢ key =
        λ e. true-not-false (sym (bytes_eq_self p.key) ∙ ap (bytes_eq p.key) e ∙ other) in
      rw other (
        PutUnder-cons p key value map (put_pair map key value) differ
          (put_pair-PutUnder map key value))
]

-- A signature is put under the key of the public key's partial signature, the byte 0x02 before it.
pub put_partial_signature-PutUnder :
    (map : PairMap) (public_key signature : Bytes)
    → PutUnder (0x02 ∷ public_key) signature map (put_partial_signature map public_key signature)
unfolding put_partial_signature
put_partial_signature-PutUnder map public_key signature =
    put_pair-PutUnder map (0x02 ∷ public_key) signature
