-- ===== src/Bitcoin/Psbt/Amounts.antt =====
-- `signable_amount` and `sign_with` (crates/kms/src/bitcoin/psbt.rs): where a signed amount comes from.
use krusty_kms.Prelude.{
  ℕ, zero, suc, ◌≡◌, ap, ◌∙◌, Bytes, List, [], ◌∷◌, Bool, true, false, ◌&&◌, ◌≤◌, Option, none,
  some, leb, if◌then◌else◌, get_elem?, length, arith, All, AllBytes, ==→eq,
}
use krusty_kms.Common.Error.{ok, >>=-eq-ok, guard-eq-ok, ok-injective, ok_or-eq-ok}
use krusty_kms.Bitcoin.External.{External}
use krusty_kms.Bitcoin.Keys.{P2wpkhSigner, script_pubkey}
use krusty_kms.Bitcoin.Tx.{
  OutPoint, TxIn, TxOut, Transaction, parse_network, txid, sighash_midstate,
}
use krusty_kms.Bitcoin.Psbt.Pairs.{PairMap, find, in_non_witness_utxo}
use krusty_kms.Bitcoin.Psbt.Spent.{check_spent, require_spent_transaction, check_inputs}
use krusty_kms.Bitcoin.Psbt.Read.{Psbt, serialize}
use krusty_kms.Bitcoin.Psbt.Sign.{
  txout_eq, spent_output, signable_amount, decode_bounded, sign_with, max_psbt_bytes,
}
use krusty_kms.Bitcoin.Psbt.RoundTrip.{bytes_eq→eq, serialize-parse, PsbtFits}
use krusty_kms.Bitcoin.Psbt.Signing.{Fresh, positions, Signed, sign_psbt-Signed, InputSigned}

test_and : {a b : Bool} → (a && b) ≡ true → (a ≡ true) × (b ≡ true)
test_and h = (ground arith, ground arith)

le_of_test : {a b : ℕ} → leb a b ≡ true → a ≤ b
le_of_test h = ground arith

if_some :
    {A : Type 0} (b : Bool) (o : Option A) {v : A} → (if b then o else none) ≡ some v → o ≡ some v
if_some true o h = h
if_some false o h = cc

txout_eq_lem :
    (a b : TxOut) → txout_eq a b ≡ true → (a.value ≡ b.value) × (a.script_pubkey ≡ b.script_pubkey)
unfolding txout_eq
txout_eq_lem a b h =
    let (v, s) = test_and h in
    (==→eq a.value b.value v, bytes_eq→eq a.script_pubkey b.script_pubkey s)

module _ (x : External) (signer : P2wpkhSigner x) where
  -- `tx_bytes`, carried by the input map at `index`, is the transaction that the input names, and
  -- the output it names there pays `amount` to the key's own script.
  pub record AmountProven (psbt : Psbt) (index : ℕ) (amount : ℕ) : Type 0 where
    pub map : PairMap
    pub input : TxIn
    pub tx_bytes : Bytes
    pub previous_tx : Transaction
    pub spent : TxOut
    pub map_found : get_elem? psbt.inputs index ≡ some map
    pub input_found : get_elem? psbt.unsigned_tx.inputs index ≡ some input
    pub carried : find map in_non_witness_utxo ≡ some tx_bytes
    pub parsed : parse_network x.usize_max tx_bytes ≡ ok previous_tx
    pub named : txid x.sha256 previous_tx ≡ input.previous_output.txid
    pub spent_found : get_elem? previous_tx.outputs input.previous_output.vout ≡ some spent
    pub pays : spent.value ≡ amount
    pub owned : spent.script_pubkey ≡ script_pubkey x signer

  check_spent-txid :
      (outpoint : OutPoint) (carried : Option Bytes) {bytes : Bytes} {tx : Transaction}
      {u : Unit {0}}
      → check_spent x outpoint carried ≡ ok u
      → carried ≡ some bytes
      → parse_network x.usize_max bytes ≡ ok tx
      → txid x.sha256 tx ≡ outpoint.txid
  unfolding check_spent
  check_spent-txid outpoint none h e p = cc
  check_spent-txid outpoint (some carried) {bytes} {tx} h e p =
      let (read, g1, h1) = >>=-eq-ok _ _ h in
      let (_, g2, h2) = >>=-eq-ok _ _ h1 in
      let same : txid x.sha256 read ≡ outpoint.txid =
        bytes_eq→eq (txid x.sha256 read) outpoint.txid (guard-eq-ok _ _ g2) in
      let agree : tx ≡ read = cc in ap (txid x.sha256) agree ∙ same

  check_inputs-at :
      (inputs : List TxIn) (maps : List PairMap) (index : ℕ) {u : Unit {0}} {input : TxIn}
      {map : PairMap}
      → check_inputs x inputs maps ≡ ok u
      → get_elem? inputs index ≡ some input
      → get_elem? maps index ≡ some map
      → check_spent x input.previous_output (find map in_non_witness_utxo) ≡ ok tt
  unfolding check_inputs require_spent_transaction
  check_inputs-at [] maps index h i m = cc
  check_inputs-at (t ∷ inputs) [] index h i m = cc
  check_inputs-at (t ∷ inputs) (n ∷ maps) zero {u} {input} {map} h i m =
      let (_, g1, _) = >>=-eq-ok _ _ h in
      let t_is : t ≡ input = cc in let n_is : n ≡ map = cc in rw (← t_is, ← n_is) g1
  check_inputs-at (t ∷ inputs) (n ∷ maps) (suc index) h i m =
      let (_, _, h1) = >>=-eq-ok _ _ h in
      let (_, _, h2) = >>=-eq-ok _ _ h1 in check_inputs-at inputs maps index h2 i m

  -- In a PSBT of the wire form `PsbtFits`, an amount that `signable_amount` returns for an input is the
  -- one that the previous transaction carried for it, with the txid that the input names, pays the
  -- key's script at the output that the input names.
  pub signable_amount-AmountProven :
      (psbt : Psbt) (index : ℕ) {amount : ℕ}
      → PsbtFits x psbt
      → signable_amount x psbt index signer ≡ ok amount
      → AmountProven psbt index amount
  unfolding signable_amount spent_output
  signable_amount-AmountProven psbt index {amount} fits h =
      let (map, g1, h1) = >>=-eq-ok _ _ h in
      let (_, _, h2) = >>=-eq-ok _ _ h1 in
      let (_, _, h3) = >>=-eq-ok _ _ h2 in
      let (_, _, h4) = >>=-eq-ok _ _ h3 in
      let (utxo_bytes, _, h5) = >>=-eq-ok _ _ h4 in
      let (utxo, _, h6) = >>=-eq-ok _ _ h5 in
      let (_, mine, h7) = >>=-eq-ok _ _ h6 in
      let (tx_bytes, g8, h8) = >>=-eq-ok _ _ h7 in
      let (tx, g9, h9) = >>=-eq-ok _ _ h8 in
      let (input, g10, h10) = >>=-eq-ok _ _ h9 in
      let (spent, g11, h11) = >>=-eq-ok _ _ h10 in
      let (_, same, h12) = >>=-eq-ok _ _ h11 in
      let pays : (spent.value ≡ utxo.value) × (spent.script_pubkey ≡ utxo.script_pubkey) =
        txout_eq_lem spent utxo (guard-eq-ok _ _ same) in
      let owned : utxo.script_pubkey ≡ script_pubkey x signer =
        bytes_eq→eq utxo.script_pubkey (script_pubkey x signer) (guard-eq-ok _ _ mine) in
      let value : utxo.value ≡ amount = ok-injective _ _ h12 in
      let carried : find map in_non_witness_utxo ≡ some tx_bytes = ok_or-eq-ok _ _ g8 in
      let map_found : get_elem? psbt.inputs index ≡ some map = ok_or-eq-ok _ _ g1 in
      let input_found : get_elem? psbt.unsigned_tx.inputs index ≡ some input =
        ok_or-eq-ok _ _ g10 in
      record {
        map = map;
        input = input;
        tx_bytes = tx_bytes;
        previous_tx = tx;
        spent = spent;
        map_found = map_found;
        input_found = input_found;
        carried = carried;
        parsed = g9;
        named =
            check_spent-txid input.previous_output _
              (check_inputs-at psbt.unsigned_tx.inputs psbt.inputs index fits.inputs_checked
                input_found map_found)
              carried g9;
        spent_found = if_some _ _ (ok_or-eq-ok _ _ g11);
        pays = pays.0 ∙ value;
        owned = pays.1 ∙ owned;
      }

  -- The amount that is signed for the input is proven.
  abbrev pub Proven : Psbt → Psbt → ℕ → Type 0
  Proven given signed i =
      (input : InputSigned x signer (sighash_midstate x.sha256 given.unsigned_tx) given signed i)
      × AmountProven given i input.amount

  -- What a successful `sign_with` stands for: `psbt_base64` decodes to the bytes of `given`, whose
  -- transaction is what its global map carries, the result encodes `signed`, and `signed` is `given`
  -- with the listed inputs signed, each for a proven amount.
  pub record SignedBase64 (psbt_base64 : Bytes) (indices : List ℕ) (result : Bytes) : Type 0 where
    pub bytes : Bytes
    pub given : Psbt
    pub signed : Psbt
    pub decoded : x.base64_decode psbt_base64 ≡ some bytes
    pub bounded : length bytes ≤ max_psbt_bytes
    pub read : serialize given ≡ bytes
    pub written : result ≡ x.base64_encode (serialize signed)
    pub distinct : Fresh (positions x.usize_max indices) [] (length given.inputs)
    pub listed_only :
        Signed x signer
          (sighash_midstate x.sha256 given.unsigned_tx)
          given
          signed
          (positions x.usize_max indices)
    pub fits : PsbtFits x given
    pub amounts : All (Proven given signed) (positions x.usize_max indices)

  decode_bounded_lem :
      (psbt_base64 : Bytes) {bytes : Bytes}
      → decode_bounded x psbt_base64 ≡ ok bytes
      → (x.base64_decode psbt_base64 ≡ some bytes) × (length bytes ≤ max_psbt_bytes)
  unfolding decode_bounded
  decode_bounded_lem psbt_base64 {bytes} h =
      let (_, _, h1) = >>=-eq-ok _ _ h in
      let (read, g2, h2) = >>=-eq-ok _ _ h1 in
      let (_, g3, h3) = >>=-eq-ok _ _ h2 in
      let same : read ≡ bytes = cc h3 in
      let bound : leb (length read) max_psbt_bytes ≡ true = guard-eq-ok _ _ g3 in
      (ok_or-eq-ok _ _ g2 ∙ ap some same, rw (← same) (le_of_test bound))

  amounts-All :
      (given signed : Psbt) (is : List ℕ)
      → PsbtFits x given
      → All (InputSigned x signer (sighash_midstate x.sha256 given.unsigned_tx) given signed) is
      → All (Proven given signed) is
  amounts-All given signed [] fits all = tt
  amounts-All given signed (i ∷ is) fits (input, all) = (
    (input, signable_amount-AmountProven given i fits input.proven),
    amounts-All given signed is fits all,
  )

  -- When base64 decodes to bytes and `sign_with` returns a text, that text encodes the decoded
  -- PSBT, whose transaction is what its global map carries, with the key's signature put under the
  -- key of its partial signature in each listed input's map, and all else unchanged. The listed
  -- positions are distinct and in range. The signature of each is over the digest of the amount
  -- that the previous transaction which the PSBT carries for that input, with the txid that it
  -- names, pays the key's script.
  pub sign_with-SignedBase64 :
      (psbt_base64 : Bytes) (indices : List ℕ) (result : Bytes)
      → ((text bytes : Bytes) → x.base64_decode text ≡ some bytes → AllBytes bytes)
      → sign_with x signer psbt_base64 indices ≡ ok result
      → SignedBase64 psbt_base64 indices result
  unfolding sign_with
  sign_with-SignedBase64 psbt_base64 indices result base64_bytes h =
      let (bytes, g1, h1) = >>=-eq-ok _ _ h in
      let (given, g2, h2) = >>=-eq-ok _ _ h1 in
      let (signed, g3, h3) = >>=-eq-ok _ _ h2 in
      let (decoded, bounded) = decode_bounded_lem psbt_base64 g1 in
      let (read, fits) = serialize-parse x bytes given (base64_bytes _ _ decoded) g2 in
      let (distinct, listed_only) = sign_psbt-Signed x signer given signed indices g3 in
      record {
        bytes = bytes;
        given = given;
        signed = signed;
        decoded = decoded;
        bounded = bounded;
        read = read;
        written = cc h3;
        distinct = distinct;
        listed_only = listed_only;
        fits = fits;
        amounts = amounts-All given signed _ fits listed_only.listed;
      }
