-- ===== src/Bitcoin/Tx/Network.antt =====
-- The network form of a transaction, and input that `Transaction::parse_network`
-- (crates/kms/src/bitcoin/tx.rs) has accepted.
use krusty_kms.Prelude.{
  ℕ, zero, suc, ◌≡◌, refl, sym, ap, ap₂, ◌∙◌, Bytes, List, [], ◌∷◌, ◌++◌, append-nil, append_assoc,
  AllBytes, subst, All, length, to_le_bytes, arith, Bool, true, false, ◌||◌, not, ltb,
  if◌then◌else◌,
}
use krusty_kms.Common.Error.{ok, guard, guard-eq-ok}
use krusty_kms.Bitcoin.Parse.Rules.{
  Consumes, Consumes-pure, Consumes-lift, Consumes-mono, Consumes-bind, Consumes-parse_many,
  write_all,
}
use krusty_kms.Bitcoin.Reader.{malformed, starts_with, write_compact_size, write_var_bytes}
use krusty_kms.Bitcoin.Reader.Reads.{
  u32_le-Consumes, compact_size-Consumes, var_bytes-Consumes, IsSize, IsVarBytes, IsWord,
}
use krusty_kms.Bitcoin.Tx.{
  Transaction, write_inputs, write_outputs, read_marker, is_empty, skip_stacks, skip_witness,
  network_rest, network_body, parse_network,
}
use krusty_kms.Bitcoin.Tx.WellFormed.{TransactionFits}
use krusty_kms.Bitcoin.Tx.Parsing.{
  read_exact-eq-ok, parse_inputs-Consumes, parse_outputs-Consumes, counted,
}

-- A witness: for each input a stack of byte strings.
abbrev pub Stack : Type 0
Stack = List Bytes

unfoldable pub write_stack : Stack → Bytes
write_stack items = write_compact_size (length items) ++ write_all write_var_bytes items

abbrev pub any_items : List Stack → Bool
any_items [] = false
any_items (s ∷ ss) = ltb 0 (length s) || any_items ss

-- The marker and flag of BIP-144.
abbrev pub marker : Bool → Bytes
marker true = 0x00 ∷ 0x01 ∷ []
marker false = []

read_marker-eq-ok :
    (bytes : Bytes) {b : Bool} {rest : Bytes}
    → read_marker bytes ≡ ok (b, rest)
    → bytes ≡ marker b ++ rest
unfolding read_marker starts_with
read_marker-eq-ok [] h = ground arith
read_marker-eq-ok (x ∷ []) h = ground arith
read_marker-eq-ok (x ∷ y ∷ bytes) h = ground arith

marker-AllBytes : (b : Bool) → AllBytes (marker b)
marker-AllBytes true = omega arith
marker-AllBytes false = tt

read_marker-Consumes : Consumes read_marker (λ b c. c ≡ marker b)
read_marker-Consumes = record {
  at = λ bytes b rest all h. (marker b, read_marker-eq-ok bytes h, marker-AllBytes b, refl);
}

pub or_assoc : (a b c : Bool) → ((a || b) || c) ≡ (a || (b || c))
or_assoc true b c = refl
or_assoc false b c = refl

neither_empty :
    (a b : Bool) {e : Unit {0}} → guard (not (a || b)) malformed ≡ ok e → (a ≡ false) × (b ≡ false)
neither_empty true b h = cc
neither_empty false true h = cc
neither_empty false false h = (refl, refl)

module _ (usize_max : ℕ) where
  abbrev pub StackFits : Stack → Type 0
  StackFits s = All (IsVarBytes usize_max) s × IsSize usize_max (length s)

  -- The witness bytes of a transaction with `inputs` inputs; none without the marker.
  pub record WitnessFits (segwit : Bool) (inputs : ℕ) (witness : Bytes) : Type 0 where
    pub stacks : List Stack
    pub stacks_fit : All StackFits stacks
    pub written : witness ≡ write_all write_stack stacks
    pub per_input : length stacks ≡ (if segwit then inputs else 0)
    pub some_item : any_items stacks ≡ segwit

  -- `bytes` is the network form of `tx`, with witness data if `segwit`.
  pub record NetworkForm (tx : Transaction) (bytes : Bytes) : Type 0 where
    pub segwit : Bool
    pub witness : Bytes
    pub witness_fits : WitnessFits segwit (length tx.inputs) witness
    pub fits : TransactionFits usize_max tx
    pub has_inputs : is_empty tx.inputs ≡ false
    pub has_outputs : is_empty tx.outputs ≡ false
    pub layout :
        bytes
        ≡ to_le_bytes 4 tx.version
          ++ (marker segwit
              ++ (write_inputs tx.inputs
                  ++ (write_outputs tx.outputs ++ (witness ++ to_le_bytes 4 tx.lock_time))))

  skip_stacks-Consumes :
      (n : ℕ) (has : Bool)
      → Consumes (skip_stacks usize_max n has) (λ has' c.
        (ss : List Stack) × All StackFits ss
        × (c ≡ write_all write_stack ss)
        × (length ss ≡ n)
        × (has' ≡ (has || any_items ss)))
  unfolding skip_stacks write_stack
  skip_stacks-Consumes zero has = Consumes-pure has ([], tt, refl, refl, ground arith)
  skip_stacks-Consumes (suc n) has =
      Consumes-bind _ _ (compact_size-Consumes usize_max) λ k d bd pd.
        Consumes-bind _ _
          (Consumes-parse_many _ write_var_bytes (IsVarBytes usize_max) k
            (var_bytes-Consumes usize_max))
          λ s e be pe. Consumes-mono (skip_stacks-Consumes n (has || ltb 0 k)) λ has' c bc pc.
            let head = counted usize_max _ write_var_bytes s pd.0 pe.0 pe.2 pe.1 pd.1 in
            (
              s ∷ pc.0,
              (head.1, pc.1),
              sym (append_assoc d e c) ∙ ap₂ ◌++◌ head.0 pc.2,
              ap suc pc.3,
              pc.4
                  ∙ or_assoc has (ltb 0 k) (any_items pc.0)
                  ∙ ap (λ m. has || (ltb 0 m || any_items pc.0)) (sym pe.2),
            )

  skip_witness-Consumes :
      (segwit : Bool) (n : ℕ)
      → Consumes (skip_witness usize_max segwit n) (λ _ c. WitnessFits segwit n c)
  unfolding skip_witness
  skip_witness-Consumes false n =
      Consumes-pure tt (record {
        stacks = [];
        stacks_fit = tt;
        written = refl;
        per_input = refl;
        some_item = refl;
      })
  skip_witness-Consumes true n = Consumes-bind _ _ (skip_stacks-Consumes n false) λ has d bd pd.
      Consumes-mono (Consumes-lift (guard has malformed)) λ _ c bc pc. record {
        stacks = pd.0;
        stacks_fit = pd.1;
        written = ap (λ t. d ++ t) pc.0 ∙ append-nil d ∙ pd.2;
        per_input = pd.3;
        some_item = sym pd.4 ∙ guard-eq-ok has _ pc.1;
      }

  network_rest-Consumes :
      (version : ℕ) (segwit : Bool) (front : Bytes)
      → IsWord 4 version
      → front ≡ to_le_bytes 4 version ++ marker segwit
      → Consumes (network_rest usize_max version segwit) (λ tx c. NetworkForm tx (front ++ c))
  unfolding network_rest
  network_rest-Consumes version segwit front word ef =
      Consumes-bind _ _ (parse_inputs-Consumes usize_max) λ is d bd pd.
        Consumes-bind _ _ (parse_outputs-Consumes usize_max) λ os e be pe.
          Consumes-bind _ _ (Consumes-lift (guard (not (is_empty is || is_empty os)) malformed))
            λ _ z bz pz. Consumes-bind _ _ (skip_witness-Consumes segwit (length is)) λ _ w bw pw.
              Consumes-bind _ _ u32_le-Consumes λ t f bf pf. Consumes-pure _ (record {
                segwit = segwit;
                witness = w;
                witness_fits = pw;
                fits = record {
                  version_word = word;
                  inputs_fit = pd.1.0;
                  inputs_size = pd.1.1;
                  outputs_fit = pe.1.0;
                  outputs_size = pe.1.1;
                  lock_time_word = pf.1;
                };
                has_inputs = (neither_empty (is_empty is) (is_empty os) pz.1).0;
                has_outputs = (neither_empty (is_empty is) (is_empty os) pz.1).1;
                layout = rw (ef, pd.0, pe.0, pz.0, pf.0) (simp append-nil);
              })

  network_body-Consumes : Consumes (network_body usize_max) NetworkForm
  unfolding network_body
  network_body-Consumes = Consumes-bind _ _ u32_le-Consumes λ v d bd pd.
      Consumes-bind _ _ read_marker-Consumes λ segwit e be pe.
        Consumes-mono (network_rest-Consumes v segwit (d ++ e) pd.1 (ap₂ ◌++◌ pd.0 pe))
          λ tx c bc h. subst (NetworkForm tx) (append_assoc d e c) h

  -- Every string of bytes that `parse_network` accepts is a network form of the transaction that it
  -- returns: the layout of `NetworkForm`, with inputs and outputs, minimal sizes, one witness stack for
  -- each input if and only if the marker is there, and then at least one witness item.
  pub parse_network-NetworkForm :
      (bytes : Bytes) (tx : Transaction)
      → AllBytes bytes
      → parse_network usize_max bytes ≡ ok tx
      → NetworkForm tx bytes
  unfolding parse_network
  parse_network-NetworkForm bytes tx all h =
      read_exact-eq-ok (network_body usize_max) bytes tx network_body-Consumes all h
