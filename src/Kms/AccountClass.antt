-- ===== src/Kms/AccountClass.antt =====
-- The Argent and Braavos presets of crates/kms/src/account_class/argent.rs and
-- crates/kms/src/account_class/braavos.rs, without the labels of their tables. `none` of a fallible
-- constructor is its one error, `InvalidClassHash`. A felt is a number.
use krusty_kms.Prelude.{
  ℕ, List, [], ◌∷◌, Option, none, some, Bool, true, false, ◌||◌, ◌==◌, if◌then◌else◌,
}

-- `slice::contains`
unfoldable pub member : ℕ → List ℕ → Bool
member x [] = false
member x (y ∷ ys) = x == y || member x ys

pub data ArgentConstructorLayout : Type 0 where
  owner_guardian_felts signer_with_optional_guardian : ArgentConstructorLayout

unfoldable pub constructor_calldata : ArgentConstructorLayout → ℕ → List ℕ
constructor_calldata owner_guardian_felts key = key ∷ 0 ∷ []
constructor_calldata signer_with_optional_guardian key = 0 ∷ key ∷ 1 ∷ []

pub record ArgentAccount : Type 0 where
  pub class_hash : ℕ
  pub layout : ArgentConstructorLayout

abbrev pub argent_class_hash : ℕ
argent_class_hash = 0x036078334509b514626504edc9fb252328d1a240e4e948bef8d0c08dff45927f

abbrev pub argent_class_hash_v050 : ℕ
argent_class_hash_v050 = 0x073414441639dcd11d1846f287650a00c60c416b9d3ba45d31c651672125b2c2

abbrev pub argent_class_hash_v031 : ℕ
argent_class_hash_v031 = 0x029927c8af6bccf3f6fda035981e765a7bdbf18a2dc0d630494f8758aa908e2b

abbrev pub argent_class_hash_v030 : ℕ
argent_class_hash_v030 = 0x01a736d6ed154502257f02b1ccdf4d9d1089f80811cd6acad48e6b6a9d1f2003

abbrev pub argent_known_classes : List (ℕ × ArgentConstructorLayout)
argent_known_classes =
    (argent_class_hash_v050, signer_with_optional_guardian)
    ∷ (argent_class_hash, signer_with_optional_guardian)
    ∷ (argent_class_hash_v031, owner_guardian_felts)
    ∷ (argent_class_hash_v030, owner_guardian_felts)
    ∷ []

abbrev class_hashes : List (ℕ × ArgentConstructorLayout) → List ℕ
class_hashes [] = []
class_hashes ((class_hash, _) ∷ classes) = class_hash ∷ class_hashes classes

unfoldable pub argent_known_class_hashes : List ℕ
argent_known_class_hashes = class_hashes argent_known_classes

unfoldable pub find_layout : ℕ → List (ℕ × ArgentConstructorLayout) → Option ArgentConstructorLayout
find_layout class_hash [] = none
find_layout class_hash ((known, layout) ∷ classes) =
    if class_hash == known then some layout else find_layout class_hash classes

unfoldable pub layout_for_class_hash : ℕ → Option ArgentConstructorLayout
layout_for_class_hash class_hash = find_layout class_hash argent_known_classes

abbrev pub new_argent : ArgentAccount
new_argent = record { class_hash = argent_class_hash; layout = signer_with_optional_guardian }

abbrev with_layout : ℕ → Option ArgentConstructorLayout → Option ArgentAccount
with_layout class_hash none = none
with_layout class_hash (some layout) = some (record { class_hash = class_hash; layout = layout })

-- `ArgentAccount::try_with_class_hash`
unfoldable pub try_argent : ℕ → Option ArgentAccount
try_argent class_hash = with_layout class_hash (layout_for_class_hash class_hash)

pub data ClassRole : Type 0 where
  deployment implementation proxy_target : ClassRole

abbrev same_role : ClassRole → ClassRole → Bool
same_role deployment deployment = true
same_role implementation implementation = true
same_role proxy_target proxy_target = true
same_role _ _ = false

pub record KnownAccountClass : Type 0 where
  pub class_hash : ℕ
  pub roles : List ClassRole

abbrev known : ℕ → List ClassRole → KnownAccountClass
known class_hash roles = record { class_hash = class_hash; roles = roles }

abbrev pub braavos_class_hash : ℕ
braavos_class_hash = 0x03d16c7a9a60b0593bd202f660a28c5d76e0403601d9ccc7e4fa253b6a70c201

abbrev pub base_class_hash_v100 : ℕ
base_class_hash_v100 = 0x013bfe114fb1cf405bfc3a7f8dbe2d91db146c17521d40dcf57e16d6b59fa8e6

abbrev pub legacy_class_hash : ℕ
legacy_class_hash = 0x00816dd0297efc55dc1e7559020a3a825e81ef734b558f03c83325d4da7e6253

abbrev pub account_class_hash_v110 : ℕ
account_class_hash_v110 = 0x02c8c7e6fbcfb3e8e15a46648e8914c6aa1fc506fc1e7fb3d1e19630716174bc

abbrev pub account_class_hash_v120 : ℕ
account_class_hash_v120 = 0x03957f9f5a1cbfe918cedc2015c85200ca51a5f7506ecb6de98a5207b759bf8a

-- `BraavosAccount::known_classes`
abbrev braavos_known_classes : List KnownAccountClass
braavos_known_classes =
    known braavos_class_hash (deployment ∷ [])
    ∷ known base_class_hash_v100 (deployment ∷ [])
    ∷ known account_class_hash_v120 (implementation ∷ [])
    ∷ known account_class_hash_v110 (implementation ∷ [])
    ∷ known legacy_class_hash (implementation ∷ [])
    ∷ []

abbrev plays : ClassRole → List ClassRole → Bool
plays role [] = false
plays role (r ∷ roles) = same_role role r || plays role roles

abbrev with_role : ClassRole → List KnownAccountClass → List ℕ
with_role role [] = []
with_role role (class ∷ classes) =
    let rest = with_role role classes in
    if plays role class.roles then class.class_hash ∷ rest else rest

unfoldable pub class_hashes_with_role : ClassRole → List ℕ
class_hashes_with_role role = with_role role braavos_known_classes

abbrev pub deployment_class_hashes : List ℕ
deployment_class_hashes = class_hashes_with_role deployment

unfoldable pub is_implementation_class_hash : ℕ → Bool
is_implementation_class_hash class_hash = member class_hash (class_hashes_with_role implementation)

-- `BraavosAccount::try_with_class_hash`: the class hash of the account. Both errors are `none`.
unfoldable pub try_braavos : ℕ → Option ℕ
try_braavos class_hash = if member class_hash deployment_class_hashes then some class_hash else none
