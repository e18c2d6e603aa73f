-- ===== src/Bitcoin/Psbt/Fields.antt =====
-- crates/kms/src/bitcoin/psbt/fields.rs: the BIP-174 field table and the checks of one pair. The
-- field names, which only error messages show, are dropped.
use krusty_kms.Prelude.{
  ℕ, List, [], ◌∷◌, Bool, true, false, ◌&&◌, Option, none, some, leb, ◌==◌, if◌then◌else◌,
}

pub data Scope : Type 0 where
  global input output : Scope

pub data HashKind : Type 0 where
  ripemd160_of sha256_of hash160_of hash256_of : HashKind

pub data KeyData : Type 0 where
  no_key_data : KeyData
  hash : ℕ → KeyData
  public_key extended_public_key proprietary : KeyData

pub data Value : Type 0 where
  any unsigned_transaction transaction output signature u32 version : Value
  key_origin xpub_key_origin witness_stack : Value
  preimage : HashKind → Value

-- The reasons for which a listed input may not carry a field.
pub data Reason : Type 0 where
  redeem_script witness_script finalized : Reason

pub data OnListedInput : Type 0 where
  allowed : OnListedInput
  refused : Reason → OnListedInput

pub record Field : Type 0 where
  pub scope : Scope
  pub key_type : ℕ
  pub key : KeyData
  pub value : Value
  pub on_listed_input : OnListedInput

abbrev f : Scope → ℕ → KeyData → Value → Field
f scope key_type key value = record {
  scope = scope;
  key_type = key_type;
  key = key;
  value = value;
  on_listed_input = allowed;
}

abbrev refused_field : Field → Reason → Field
refused_field field reason = record field { on_listed_input = refused reason }

-- `FIELDS`
abbrev pub fields : List Field
fields =
    f Scope.global 0x00 no_key_data unsigned_transaction
    ∷ f Scope.global 0x01 extended_public_key xpub_key_origin
    ∷ f Scope.global 0xfb no_key_data version
    ∷ f Scope.global 0xfc proprietary any
    ∷ f Scope.input 0x00 no_key_data transaction
    ∷ f Scope.input 0x01 no_key_data Value.output
    ∷ f Scope.input 0x02 public_key signature
    ∷ f Scope.input 0x03 no_key_data u32
    ∷ refused_field (f Scope.input 0x04 no_key_data any) redeem_script
    ∷ refused_field (f Scope.input 0x05 no_key_data any) witness_script
    ∷ f Scope.input 0x06 public_key key_origin
    ∷ refused_field (f Scope.input 0x07 no_key_data any) finalized
    ∷ refused_field (f Scope.input 0x08 no_key_data witness_stack) finalized
    ∷ f Scope.input 0x0a (hash 20) (preimage ripemd160_of)
    ∷ f Scope.input 0x0b (hash 32) (preimage sha256_of)
    ∷ f Scope.input 0x0c (hash 20) (preimage hash160_of)
    ∷ f Scope.input 0x0d (hash 32) (preimage hash256_of)
    ∷ f Scope.input 0xfc proprietary any
    ∷ f Scope.output 0x00 no_key_data any
    ∷ f Scope.output 0x01 no_key_data any
    ∷ f Scope.output 0x02 public_key key_origin
    ∷ f Scope.output 0xfc proprietary any
    ∷ []

-- `(lo..=hi).contains(&n)`
abbrev in_range : ℕ → ℕ → ℕ → Bool
in_range lo hi n = leb lo n && leb n hi

unfoldable pub is_version_2_only : Scope → ℕ → Bool
is_version_2_only Scope.global key_type = in_range 0x02 0x06 key_type
is_version_2_only Scope.input key_type = in_range 0x0e 0x12 key_type
is_version_2_only Scope.output key_type = in_range 0x03 0x04 key_type

abbrev scope_eq : Scope → Scope → Bool
scope_eq Scope.global Scope.global = true
scope_eq Scope.input Scope.input = true
scope_eq Scope.output Scope.output = true
scope_eq _ _ = false

unfoldable pub find_field : List Field → Scope → ℕ → Option Field
find_field [] scope key_type = none
find_field (x ∷ xs) scope key_type =
    if scope_eq x.scope scope && (x.key_type == key_type)
    then some x
    else find_field xs scope key_type

unfoldable pub lookup : Scope → ℕ → Option Field
unfolding find_field
lookup scope key_type = find_field fields scope key_type

refusal : OnListedInput → Option Reason
refusal (refused reason) = some reason
refusal allowed = none

unfoldable pub refused_on_listed_input : ℕ → Option Reason
unfolding refusal lookup
refused_on_listed_input key_type = elim (lookup Scope.input key_type) [
  | none ↦ none
  | some field ↦ refusal field.on_listed_input
]
