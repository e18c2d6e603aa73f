-- ===== src/Bitcoin/Psbt/Signing.antt =====
-- The loop of `sign_with` (crates/kms/src/bitcoin/psbt.rs) and what it does to each part of a PSBT.
use krusty_kms.Prelude.{
  ℕ, zero, suc, ◌<◌, ◌≡◌, ◌≢◌, refl, sym, ap, ◌∙◌, subst, Bytes, List, [], ◌∷◌, inl, inr, Bool,
  true, false, not, some, ltb, ◌==◌, length, get_elem?, set, arith, All, Bool-cases, ==→eq,
}
use krusty_kms.Common.Error.{ok, >>=-eq-ok, guard-eq-ok, ok_or-eq-ok}
use krusty_kms.Bitcoin.External.{External}
use krusty_kms.Bitcoin.Keys.{P2wpkhSigner}
use krusty_kms.Bitcoin.Keys.LowR.{IsSignature, sign_sighash_all-IsSignature}
use krusty_kms.Bitcoin.Tx.{is_empty, SighashMidstate, sighash_midstate, p2wpkh_sighash_all}
use krusty_kms.Bitcoin.Psbt.Pairs.{PairMap, put_partial_signature}
use krusty_kms.Bitcoin.Psbt.Putting.{PutUnder, put_partial_signature-PutUnder}
use krusty_kms.Bitcoin.Psbt.Read.{Psbt}
use krusty_kms.Bitcoin.Psbt.Sign.{
  seen_index, position_of, check_each, checked_indices, signable_amount, sign_input, sign_each,
  sign_psbt,
}

-- Lookups after a write.
pub get_elem?-set_self :
    {A : Type 0} (xs : List A) (i : ℕ) (v : A) {w : A}
    → get_elem? xs i ≡ some w
    → get_elem? (set xs i v) i ≡ some v
get_elem?-set_self [] i v h = cc
get_elem?-set_self (x ∷ xs) zero v h = refl
get_elem?-set_self (x ∷ xs) (suc i) v h = get_elem?-set_self xs i v h

pub get_elem?-set_ne :
    {A : Type 0} (xs : List A) (i j : ℕ) (v : A) → i ≢ j → get_elem? (set xs i v) j ≡ get_elem? xs j
get_elem?-set_ne [] i j v h = refl
get_elem?-set_ne (x ∷ xs) zero zero v h = absurd (h refl)
get_elem?-set_ne (x ∷ xs) zero (suc j) v h = refl
get_elem?-set_ne (x ∷ xs) (suc i) zero v h = refl
get_elem?-set_ne (x ∷ xs) (suc i) (suc j) v h = get_elem?-set_ne xs i j v (λ e. h (ap suc e))

pub length-set : {A : Type 0} (xs : List A) (i : ℕ) (v : A) → length (set xs i v) ≡ length xs
length-set [] i v = refl
length-set (x ∷ xs) zero v = refl
length-set (x ∷ xs) (suc i) v = ap suc (length-set xs i v)

lt_of_test : {a b : ℕ} → ltb a b ≡ true → a < b
lt_of_test h = ground arith

not-true : {b : Bool} → not b ≡ true → b ≡ false
not-true h = ground arith

-- The indices are those asked for, in their order, each below the count and none twice.
abbrev pub Fresh : List ℕ → List ℕ → ℕ → Type 0
Fresh [] seen count = Unit
Fresh (i ∷ is) seen count = (i < count) × (seen_index seen i ≡ false) × Fresh is (i ∷ seen) count

module _ (usize_max : ℕ) where
  abbrev pub positions : List ℕ → List ℕ
  positions [] = []
  positions (i ∷ is) = position_of usize_max i ∷ positions is

  check_each_lem :
      (indices seen : List ℕ) (count : ℕ) {checked : List ℕ}
      → check_each usize_max indices seen count ≡ ok checked
      → (checked ≡ positions indices) × Fresh (positions indices) seen count
  unfolding check_each
  check_each_lem [] seen count h = (cc, tt)
  check_each_lem (i ∷ is) seen count h =
      let (_, g1, h1) = >>=-eq-ok _ _ h in
      let (_, g2, h2) = >>=-eq-ok _ _ h1 in
      let (rest, g3, h3) = >>=-eq-ok _ _ h2 in
      let (e, fresh) = check_each_lem is (position_of usize_max i ∷ seen) count g3 in
      (
        cc h3 ∙ ap (λ t. position_of usize_max i ∷ t) e,
        (lt_of_test (guard-eq-ok _ _ g1), not-true (guard-eq-ok _ _ g2), fresh),
      )

  -- `checked_indices` returns the listed positions unchanged, at least one, all distinct and in range.
  pub checked_indices_lem :
      (indices : List ℕ) (count : ℕ) {checked : List ℕ}
      → checked_indices usize_max indices count ≡ ok checked
      → (checked ≡ positions indices) × Fresh checked [] count × (is_empty indices ≡ false)
  unfolding checked_indices
  checked_indices_lem indices count h =
      let (_, g1, h1) = >>=-eq-ok _ _ h in
      let (_, g2, h2) = >>=-eq-ok _ _ h1 in
      let (e, fresh) = check_each_lem indices [] count h2 in
      (e, rw e fresh, not-true (guard-eq-ok _ _ g1))

true-not-false : true ≢ false
true-not-false h = cc

seen_index_self : (i : ℕ) (is : List ℕ) → seen_index (i ∷ is) i ≡ true
unfolding seen_index
seen_index_self i is = ground arith

-- Distinctness read forwards: no index returns later.
abbrev Separate : List ℕ → Type 0
Separate [] = Unit
Separate (i ∷ is) = (seen_index is i ≡ false) × Separate is

Fresh-later :
    (is seen : List ℕ) (count i : ℕ)
    → Fresh is seen count
    → seen_index seen i ≡ true
    → seen_index is i ≡ false
unfolding seen_index
Fresh-later [] seen count i fresh s = refl
Fresh-later (k ∷ is) seen count i (_, new, fresh) s =
    let later = Fresh-later is (k ∷ seen) count i fresh (ground arith) in
    elim (Bool-cases (k == i)) [
      | inl same ↦
          absurd (true-not-false (sym s ∙ sym (ap (seen_index seen) (==→eq k i same)) ∙ new))
      | inr other ↦ ground arith
    ]

Fresh-Separate : (is seen : List ℕ) (count : ℕ) → Fresh is seen count → Separate is
Fresh-Separate [] seen count fresh = tt
Fresh-Separate (i ∷ is) seen count (_, _, fresh) = (
  Fresh-later is (i ∷ seen) count i fresh (seen_index_self i seen),
  Fresh-Separate is (i ∷ seen) count fresh,
)

module _ (x : External) (signer : P2wpkhSigner x) (midstate : SighashMidstate) where
  -- One listed input: the amount `before` proves for it, signed by this key into its own map.
  pub record InputSigned (before after : Psbt) (i : ℕ) : Type 0 where
    pub amount : ℕ
    pub sighash : Bytes
    pub signature : Bytes
    pub map : PairMap
    pub proven : signable_amount x before i signer ≡ ok amount
    pub digest :
        p2wpkh_sighash_all x.sha256 before.unsigned_tx midstate i signer.pubkey_hash amount
        ≡ ok sighash
    pub made : IsSignature x signer sighash signature
    pub found : get_elem? before.inputs i ≡ some map
    pub written_map : PairMap
    pub written : get_elem? after.inputs i ≡ some written_map
    pub put : PutUnder (0x02 ∷ signer.public_key) signature map written_map

  -- The listed inputs are signed; everything else is as it was.
  pub record Signed (before after : Psbt) (indices : List ℕ) : Type 0 where
    pub global : after.global ≡ before.global
    pub unsigned_tx : after.unsigned_tx ≡ before.unsigned_tx
    pub outputs : after.outputs ≡ before.outputs
    pub count : length after.inputs ≡ length before.inputs
    pub listed : All (InputSigned before after) indices
    pub others :
        (j : ℕ)
        → seen_index indices j ≡ false
        → get_elem? after.inputs j ≡ get_elem? before.inputs j

  with_input : Psbt → ℕ → PairMap → Psbt
  with_input p i map = record p { inputs = set p.inputs i map }

  written-Signed :
      (p : Psbt) (i : ℕ) (map : PairMap) (signature : Bytes)
      → ((q : Psbt)
          → get_elem? q.inputs i ≡ some (put_partial_signature map signer.public_key signature)
          → InputSigned p q i)
      → get_elem? p.inputs i ≡ some map
      → Signed p (with_input p i (put_partial_signature map signer.public_key signature)) (i ∷ [])
  unfolding with_input seen_index
  written-Signed p i map signature input found = record {
    global = refl;
    unsigned_tx = refl;
    outputs = refl;
    count = length-set p.inputs i _;
    listed = (input _ (get_elem?-set_self p.inputs i _ found), tt);
    others = λ j ne. get_elem?-set_ne p.inputs i j _ (λ e. ground arith);
  }

  sign_input-Signed :
      (p q : Psbt) (i : ℕ) → sign_input x midstate p i signer ≡ ok q → Signed p q (i ∷ [])
  unfolding sign_input with_input
  sign_input-Signed p q i h =
      let (amount, g1, h1) = >>=-eq-ok _ _ h in
      let (sighash, g2, h2) = >>=-eq-ok _ _ h1 in
      let (signature, g3, h3) = >>=-eq-ok _ _ h2 in
      let (map, g4, h4) = >>=-eq-ok _ _ h3 in
      let found = ok_or-eq-ok _ _ g4 in
      subst (λ q. Signed p q (i ∷ [])) (cc h4)
        (written-Signed p i map signature
          (λ q written. record {
            amount = amount;
            sighash = sighash;
            signature = signature;
            map = map;
            proven = g1;
            digest = g2;
            made = sign_sighash_all-IsSignature x signer sighash g3;
            found = found;
            written_map = put_partial_signature map signer.public_key signature;
            written = written;
            put = put_partial_signature-PutUnder map signer.public_key signature;
          })
          found)

  extend-InputSigned :
      {p q r : Psbt} (i : ℕ)
      → Signed p q (i ∷ [])
      → get_elem? r.inputs i ≡ get_elem? q.inputs i
      → InputSigned p r i
  extend-InputSigned i s same =
      let (input, _) = s.listed in
      record {
        amount = input.amount;
        sighash = input.sighash;
        signature = input.signature;
        map = input.map;
        proven = input.proven;
        digest = input.digest;
        made = input.made;
        found = input.found;
        written_map = input.written_map;
        written = same ∙ input.written;
        put = input.put;
      }

  -- `signable_amount` reads the input map and the unsigned transaction only.
  signable_amount-agree :
      (p q : Psbt) (i : ℕ)
      → q.unsigned_tx ≡ p.unsigned_tx
      → get_elem? q.inputs i ≡ get_elem? p.inputs i
      → signable_amount x q i signer ≡ signable_amount x p i signer
  unfolding signable_amount
  signable_amount-agree p q i tx same = rw tx (rw same refl)

  earlier-InputSigned :
      (p q r : Psbt) (k : ℕ)
      → q.unsigned_tx ≡ p.unsigned_tx
      → get_elem? q.inputs k ≡ get_elem? p.inputs k
      → InputSigned q r k
      → InputSigned p r k
  earlier-InputSigned p q r k tx same input = record {
    amount = input.amount;
    sighash = input.sighash;
    signature = input.signature;
    map = input.map;
    proven = sym (signable_amount-agree p q k tx same) ∙ input.proven;
    digest = rw (sym tx) input.digest;
    made = input.made;
    written_map = input.written_map;
    written = input.written;
    found = sym same ∙ input.found;
    put = input.put;
  }

  earlier-All :
      (p q r : Psbt) (i : ℕ) (is : List ℕ)
      → Signed p q (i ∷ [])
      → seen_index is i ≡ false
      → All (InputSigned q r) is
      → All (InputSigned p r) is
  unfolding seen_index
  earlier-All p q r i [] s new all = tt
  earlier-All p q r i (k ∷ is) s new (input, all) = (
    earlier-InputSigned p q r k s.unsigned_tx (s.others k (ground arith)) input,
    earlier-All p q r i is s (ground arith) all,
  )

  sign_each-Signed :
      (is : List ℕ) (p q : Psbt)
      → sign_each x midstate p is signer ≡ ok q
      → Separate is
      → Signed p q is
  unfolding sign_each seen_index
  sign_each-Signed [] p q h sep =
      subst (λ q. Signed p q []) (cc h)
        (record {
          global = refl;
          unsigned_tx = refl;
          outputs = refl;
          count = refl;
          listed = tt;
          others = λ j ne. refl;
        })
  sign_each-Signed (i ∷ is) p q h (new, sep) =
      let (p', g1, h1) = >>=-eq-ok _ _ h in
      let one = sign_input-Signed p p' i g1 in
      let more = sign_each-Signed is p' q h1 sep in
      record {
        global = more.global ∙ one.global;
        unsigned_tx = more.unsigned_tx ∙ one.unsigned_tx;
        outputs = more.outputs ∙ one.outputs;
        count = more.count ∙ one.count;
        listed = (
          extend-InputSigned i one (more.others i new),
          earlier-All p p' q i is one new more.listed,
        );
        others = λ j ne. more.others j (ground arith) ∙ one.others j (ground arith);
      }

pub sign_psbt-Signed :
    (x : External) (signer : P2wpkhSigner x) (p q : Psbt) (indices : List ℕ)
    → sign_psbt x p indices signer ≡ ok q
    → Fresh (positions x.usize_max indices) [] (length p.inputs)
      × Signed x signer
          (sighash_midstate x.sha256 p.unsigned_tx)
          p
          q
          (positions x.usize_max indices)
unfolding sign_psbt
sign_psbt-Signed x signer p q indices h =
    let (checked, g1, h1) = >>=-eq-ok _ _ h in
    let (e, fresh, _) = checked_indices_lem x.usize_max indices (length p.inputs) g1 in
    let sep = Fresh-Separate checked [] _ fresh in
    (rw (sym e) fresh, rw (sym e) (sign_each-Signed x signer _ checked p q h1 sep))
