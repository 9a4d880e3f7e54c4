-- ===== src/Derive/Item.antt =====
-- What the macro is applied to: the fields of a struct or of a variant, each with the codec of its
-- type. A field in parentheses has an empty name; a raw name stands without its `r#`.
use ractor_wormhole.Prelude.{List, [], ◌∷◌, ◌⊎◌}
use ractor_wormhole.Outcome.{Bytes}
use ractor_wormhole.Transmaterialization.Codec.{Transmaterializable}

pub data Attribute : Type 0 where
  serde bincode other : Attribute

pub record Field (S : Type 0) : Type 1 where
  pub name : Bytes
  pub Value : Type 0
  pub codec : Transmaterializable S Value
  pub attributes : List Attribute

-- `venial::Fields`
pub data Fields (S : Type 0) : Type 1 where
  unit : Fields S
  tuple : List (Field S) → Fields S
  named : List (Field S) → Fields S

pub record Variant (S : Type 0) : Type 1 where
  pub name : Bytes
  pub fields : Fields S

module _ {S : Type 0} where
  abbrev pub fields_of : Fields S → List (Field S)
  fields_of unit = []
  fields_of (tuple fs) = fs
  fields_of (named fs) = fs

  -- The values of the fields, in the order of their declaration.
  abbrev pub Values : List (Field S) → Type 0
  Values [] = Unit {0}
  Values (f ∷ fs) = f.Value × Values fs

  -- A value of an enum: the variant, by its place, with the values of its fields.
  abbrev pub EnumValue : List (Variant S) → Type 0
  EnumValue [] = ⊥
  EnumValue (v ∷ vs) = Values (fields_of v.fields) ⊎ EnumValue vs
