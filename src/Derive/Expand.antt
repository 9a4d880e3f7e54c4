-- ===== src/Derive/Expand.antt =====
-- What the macro makes of an item: code, or an error at compile time. Where the names in the code hide
-- each other, the code does not compile, or takes one value for another; what it then does is left out,
-- and only that it happens is told. A field that carries `#[serde]` or
-- `#[bincode]` is refused in a struct or variant with named fields.
pub mod RoundTrip
use ractor_wormhole.Prelude.{
  ◌≡◌, refl, Bool, true, false, ◌||◌, Option, none, some, List, [], ◌∷◌, if◌then◌else◌, ◌&&◌,
}
use ractor_wormhole.Platform.{Platform}
use ractor_wormhole.Transmaterialization.Codec.{Transmaterializable}
use ractor_wormhole.Derive.Item.{
  Attribute, serde, bincode, other, Field, Fields, unit, tuple, named, Variant, fields_of, Values,
  EnumValue,
}
use ractor_wormhole.Derive.Names.{struct_resolves, variants_resolve}
use ractor_wormhole.Derive.Structs.{named_struct_codec, tuple_struct_codec, unit_struct_codec}
use ractor_wormhole.Derive.Enums.{enum_codec}

pub data Refusal : Type 0 where
  both_attributes serde_unsupported bincode_unsupported : Refusal

pub data Expansion (A : Type 0) : Type 0 where
  expands : A → Expansion A
  bails : Refusal → Expansion A
  shadowed : Expansion A

abbrev is_serde : Attribute → Bool
is_serde serde = true
is_serde _ = false

abbrev is_bincode : Attribute → Bool
is_bincode bincode = true
is_bincode _ = false

unfoldable pub any : (Attribute → Bool) → List Attribute → Bool
any test [] = false
any test (a ∷ as') = test a || any test as'

-- The checks of `for_field`, before it writes code.
unfoldable pub check_field : List Attribute → Option Refusal
unfolding any
check_field attributes =
    if any is_serde attributes && any is_bincode attributes
    then some both_attributes
    else if any is_serde attributes
    then some serde_unsupported
    else if any is_bincode attributes
    then some bincode_unsupported
    else none

-- `resolves`: each name in the code stands for what it is meant to.
abbrev pub checked : {A : Type 0} → Option Refusal → (resolves : Bool) → A → Expansion A
checked (some e) resolves code = bails e
checked none true code = expands code
checked none false code = shadowed

module _ {S : Type 0} where
  -- `.map(for_field).collect::<Result<Vec<_>, _>>()`: the first refusal.
  unfoldable pub check_named : List (Field S) → Option Refusal
  unfolding check_field
  check_named [] = none
  check_named (f ∷ fs) = elim (check_field f.attributes) [ some e ↦ some e | none ↦ check_named fs ]

  unfoldable pub check_fields : Fields S → Option Refusal
  unfolding check_named
  check_fields unit = none
  check_fields (tuple fs) = none
  check_fields (named fs) = check_named fs

  unfoldable pub check_variants : List (Variant S) → Option Refusal
  unfolding check_fields
  check_variants [] = none
  check_variants (v ∷ vs) = elim (check_fields v.fields) [
    | some e ↦ some e
    | none ↦ check_variants vs
  ]

  unfoldable pub derive_struct :
      Platform → (fields : Fields S) → Expansion (Transmaterializable S (Values (fields_of fields)))
  unfolding check_fields struct_resolves unit_struct_codec tuple_struct_codec named_struct_codec
  derive_struct p unit = expands unit_struct_codec
  derive_struct p (tuple fs) =
      checked (check_fields (tuple fs)) (struct_resolves (tuple fs)) (tuple_struct_codec p fs)
  derive_struct p (named fs) =
      checked (check_fields (named fs)) (struct_resolves (named fs)) (named_struct_codec p fs)

  unfoldable pub derive_enum :
      Platform → (vs : List (Variant S)) → Expansion (Transmaterializable S (EnumValue vs))
  unfolding check_variants variants_resolve enum_codec
  derive_enum p vs = checked (check_variants vs) (variants_resolve vs) (enum_codec p vs)
