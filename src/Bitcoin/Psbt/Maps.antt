-- ===== src/Bitcoin/Psbt/Maps.antt =====
-- The maps that `read_map` (crates/kms/src/bitcoin/psbt.rs) reads, and its fuel.
use krusty_kms.Prelude.{
  ℕ, zero, suc, ◌+◌, ◌<◌, ◌≡◌, refl, sym, ap, ◌∙◌, Bytes, [], ◌∷◌, ◌++◌, append-nil, append_assoc,
  Bool, true, false, not, Bool-cases, inl, inr, length, length-append, arith, AllBytes,
}
use krusty_kms.Common.Error.{ok, guard, guard-eq-ok}
use krusty_kms.Bitcoin.Parse.{◌>>=◌}
use krusty_kms.Bitcoin.Parse.Rules.{
  Consumes, Consumes-pure, Consumes-fail, Consumes-lift, Consumes-bind, Consumes-if, Prints,
  Accepts, Accepts-pure, Accepts-cast, Accepts-lift, Accepts-bind, Accepts-then, Accepts-last,
  bind-agree, bind-cong,
}
use krusty_kms.Bitcoin.External.{External}
use krusty_kms.Bitcoin.Reader.{
  malformed, compact_u64, take, split_at_checked, write_compact_size, write_var_bytes,
}
use krusty_kms.Bitcoin.Reader.Reads.{IsVarBytes, var_bytes-Consumes}
use krusty_kms.Bitcoin.Reader.Writes.{var_bytes-Accepts, length-write_var_bytes}
use krusty_kms.Bitcoin.Tx.{is_empty}
use krusty_kms.Bitcoin.Psbt.Fields.{Scope}
use krusty_kms.Bitcoin.Psbt.Checks.{check_pair}
use krusty_kms.Bitcoin.Psbt.Pairs.{Pair, PairMap, write_pair, write_map}
use krusty_kms.Bitcoin.Psbt.Read.{Keys, seen_key, split_key, read_pair, read_map_loop, read_map}

not-true : (b : Bool) → not b ≡ true → b ≡ false
not-true true h = cc
not-true false h = refl

write_map_nil : write_map [] ≡ write_var_bytes []
unfolding write_map write_var_bytes write_compact_size
write_map_nil = refl

write_map_cons :
    (p : Pair) (map : PairMap)
    → write_map (p ∷ map) ≡ write_var_bytes p.key ++ (write_var_bytes p.value ++ write_map map)
unfolding write_map write_pair
write_map_cons p map = simp append_assoc

-- Each pair takes a byte at least.
length-write_map : (map : PairMap) → length map < length (write_map map)
length-write_map [] = rw write_map_nil (omega (arith, length-write_var_bytes []))
length-write_map (p ∷ map) =
    rw (write_map_cons p map, length-append, length-append)
      (omega (arith, length-write_var_bytes p.key, length-write_map map))

empty_key : (key : Bytes) → is_empty key ≡ true → key ≡ []
empty_key [] h = refl
empty_key (b ∷ key) h = cc

key_not_empty : (key : Bytes) {t : ℕ × Bytes} → split_key key ≡ ok t → is_empty key ≡ false
unfolding split_key compact_u64 take split_at_checked ◌>>=◌
key_not_empty [] h = cc h
key_not_empty (b ∷ key) h = refl

consumed_length : (bytes c rest : Bytes) → bytes ≡ c ++ rest → length bytes ≡ length c + length rest
consumed_length bytes c rest e = ap length e ∙ length-append c rest

module _ (x : External) where
  -- A pair that may follow the keys seen so far: a new key of a minimal type, and a value that
  -- the field table accepts.
  pub record PairFits (scope : Scope) (keys : Keys) (p : Pair) (key_type : ℕ) (key_data : Bytes)
      : Type 0 where
    pub key_bytes : IsVarBytes x.usize_max p.key
    pub value_bytes : IsVarBytes x.usize_max p.value
    pub key_read : split_key p.key ≡ ok (key_type, key_data)
    pub key_new : seen_key keys key_type key_data ≡ false
    pub accepted : check_pair x scope key_type key_data p.value ≡ ok tt

  -- Every pair of the map fits behind the ones before it.
  abbrev pub MapFits : Scope → Keys → PairMap → Type 0
  MapFits scope keys [] = Unit
  MapFits scope keys (p ∷ map) =
      (key_type : ℕ) × (key_data : Bytes) × PairFits scope keys p key_type key_data
      × MapFits scope ((key_type, key_data) ∷ keys) map

  read_pair-Consumes :
      (scope : Scope) (keys : Keys) (key : Bytes)
      → IsVarBytes x.usize_max key
      → Consumes (read_pair x scope keys key) (λ r c.
        (c ≡ write_var_bytes r.0.value) × (r.0.key ≡ key) × PairFits scope keys r.0 r.1 r.2)
  unfolding read_pair
  read_pair-Consumes scope keys key hk =
      Consumes-bind _ _ (Consumes-lift (split_key key)) λ t d bd pd.
        Consumes-bind _ _ (Consumes-lift (guard (not (seen_key keys t.0 t.1)) malformed))
          λ _ e be pe. Consumes-bind _ _ (var_bytes-Consumes x.usize_max) λ value f bf pf.
            Consumes-bind _ _ (Consumes-lift (check_pair x scope t.0 t.1 value)) λ u g bg pg.
              Consumes-pure _ (
                rw (pd.0, pe.0, pf.0, pg.0) (simp append-nil),
                refl,
                record {
                  key_bytes = hk;
                  value_bytes = pf.1;
                  key_read = pd.1;
                  key_new = not-true _ (guard-eq-ok _ _ pe.1);
                  accepted = pg.1;
                },
              )

  read_map_loop-Consumes :
      (fuel : ℕ) (scope : Scope) (keys : Keys)
      → Consumes (read_map_loop x fuel scope keys) (Prints write_map (MapFits scope keys))
  unfolding read_map_loop
  read_map_loop-Consumes zero scope keys = Consumes-fail malformed
  read_map_loop-Consumes (suc fuel) scope keys =
      Consumes-bind _ _ (var_bytes-Consumes x.usize_max) λ key d bd pd.
        Consumes-if (is_empty key)
          (λ e.
            Consumes-pure []
              (append-nil d ∙ pd.0 ∙ ap write_var_bytes (empty_key key e) ∙ sym write_map_nil, tt))
          λ _. Consumes-bind _ _ (read_pair-Consumes scope keys key pd.1) λ r e be pe.
            Consumes-bind _ _ (read_map_loop-Consumes fuel scope ((r.1, r.2) ∷ keys)) λ map f bf pf.
              Consumes-pure _ (
                rw (pd.0, pe.0, pf.0, write_map_cons, pe.1) (simp append-nil),
                (r.1, r.2, pe.2, pf.1),
              )

  pub read_map-Consumes :
      (scope : Scope) → Consumes (read_map x scope) (Prints write_map (MapFits scope []))
  unfolding read_map
  read_map-Consumes scope = record {
    at = λ bytes. (read_map_loop-Consumes (suc (length bytes)) scope []).at bytes;
  }

  read_pair-Accepts :
      (scope : Scope) (keys : Keys) (p : Pair) {key_type : ℕ} {key_data : Bytes}
      → PairFits scope keys p key_type key_data
      → Accepts (read_pair x scope keys p.key) (write_var_bytes p.value) (p, key_type, key_data)
  unfolding read_pair
  read_pair-Accepts scope keys p h = Accepts-cast (append-nil (write_var_bytes p.value)) (
      Accepts-bind _ {c = []} (Accepts-lift h.key_read) (
        Accepts-bind _ {c = []} (Accepts-lift (rw h.key_new refl)) (
          Accepts-bind _ (var_bytes-Accepts x.usize_max p.value h.value_bytes)
            (Accepts-bind _ {c = []} (Accepts-lift h.accepted) (Accepts-pure _)))))

  key_present :
      {scope : Scope} {keys : Keys} {p : Pair} {t : ℕ} {d : Bytes}
      → PairFits scope keys p t d
      → is_empty p.key ≡ false
  key_present {p} h = key_not_empty p.key h.key_read

  read_map_loop-Accepts :
      (fuel : ℕ) (scope : Scope) (keys : Keys) (map : PairMap)
      → MapFits scope keys map
      → length map < fuel
      → Accepts (read_map_loop x fuel scope keys) (write_map map) map
  unfolding read_map_loop
  read_map_loop-Accepts zero scope keys map h enough = absurd (omega arith)
  read_map_loop-Accepts (suc fuel) scope keys [] h enough =
      rw write_map_nil (Accepts-then _ (var_bytes-Accepts x.usize_max [] (tt, omega arith)) refl)
  read_map_loop-Accepts (suc fuel) scope keys (p ∷ map) h enough =
      let rest = read_map_loop-Accepts fuel scope ((h.0, h.1) ∷ keys) map h.3 (omega arith) in
      rw write_map_cons (
        Accepts-bind _ (var_bytes-Accepts x.usize_max p.key h.2.key_bytes) (
          rw (key_present h.2)
            (Accepts-bind _ (read_pair-Accepts scope keys p h.2) (Accepts-last (λ m. p ∷ m) rest))))

  -- Every map whose pairs fit is read from its bytes.
  pub read_map-Accepts :
      (scope : Scope) (map : PairMap)
      → MapFits scope [] map
      → Accepts (read_map x scope) (write_map map) map
  unfolding read_map
  read_map-Accepts scope map h = record {
    on = λ rest.
        (read_map_loop-Accepts _ scope [] map h
            (rw length-append (omega (arith, length-write_map map)))).on
          rest;
  }

  -- On a string of bytes, the loop of `read_map` returns the same, errors included, for every two
  -- amounts of fuel above the number of bytes left.
  pub read_map_loop_fuel :
      (fuel fuel' : ℕ) (scope : Scope) (keys : Keys) (bytes : Bytes)
      → AllBytes bytes
      → length bytes < fuel
      → length bytes < fuel'
      → read_map_loop x fuel scope keys bytes ≡ read_map_loop x fuel' scope keys bytes
  unfolding read_map_loop
  read_map_loop_fuel zero fuel' scope keys bytes all h h' = absurd (omega arith)
  read_map_loop_fuel (suc fuel) zero scope keys bytes all h h' = absurd (omega arith)
  read_map_loop_fuel (suc fuel) (suc fuel') scope keys bytes all h h' =
      bind-agree _ _ _ bytes (var_bytes-Consumes x.usize_max) all λ key d rest ed bd pd.
        let shorter = consumed_length bytes d rest ed in
        let nonempty = length-write_var_bytes key in
        let room : length rest < length bytes = omega (arith, ap length pd.0) in
        elim (Bool-cases (is_empty key)) [
          | inl e ↦ rw e
          | inr e ↦ rw e (
              bind-agree _ _ _ rest (read_pair-Consumes scope keys key pd.1) bd λ r c left ec bc pc.
                bind-cong _ _ _ (
                  read_map_loop_fuel fuel fuel' scope ((r.1, r.2) ∷ keys) left bc
                    (omega (arith, consumed_length rest c left ec))
                    (omega (arith, consumed_length rest c left ec))))
        ]
