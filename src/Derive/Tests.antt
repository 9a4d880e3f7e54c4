-- ===== src/Derive/Tests.antt =====
-- The macro's code for two small items, on a platform of 64 bits.
use ractor_wormhole.Prelude.{ℕ, ◌≡◌, refl, ap, false, inl, inr, List, [], ◌∷◌, ◌++◌, arith}
use ractor_wormhole.Outcome.{err, unknown_variant, Bytes}
use ractor_wormhole.Platform.{Platform, IsSupported}
use ractor_wormhole.Transmaterialization.LeBytes.{to_le_bytes}
use ractor_wormhole.Transmaterialization.Prefixed.{prefixed, length_header, read_prefixed}
use ractor_wormhole.Transmaterialization.Codec.{Crosses, frames}
use ractor_wormhole.Transmaterialization.Scalars.{unsigned, unsigned-Crosses}
use ractor_wormhole.Transmaterialization.Utf8.{is_utf8}
use ractor_wormhole.Derive.Item.{Field, unit, tuple, named, Variant, other}
use ractor_wormhole.Derive.Names.{
  struct_resolves, variants_resolve, deserialize_resolves, serialize_resolves,
}
use ractor_wormhole.Derive.ReadField.{wordless, read_field, read_field-read_prefixed}
use ractor_wormhole.Derive.Structs.{named_struct_codec}
use ractor_wormhole.Derive.Enums.{enum_codec}
use ractor_wormhole.Derive.Enums.RoundTrip.{unknown_variant_refused}
use ractor_wormhole.Derive.Expand.{
  shadowed, derive_struct, derive_enum, check_fields, check_named, check_variants, check_field, any,
}
use ractor_wormhole.Derive.Expand.RoundTrip.{derive_struct-Crosses, derive_enum-Crosses}

abbrev first : Bytes → ℕ
first [] = 0
first (b ∷ bs) = b

abbrev platform_64 : Platform
platform_64 = record { usize_bits = 64; overflow_checks = false }

supported : IsSupported platform_64
supported = record { above = omega arith; below = omega arith }

abbrev Nothing : Type 0
Nothing = Unit {0}

seven : Crosses (unsigned 1) 7 7 (7 ∷ []) tt tt tt tt
unfolding to_le_bytes
seven = unsigned-Crosses tt tt 1 7 (omega arith)

-- A field of type `u8` with a comment on it.
abbrev byte_field : Bytes → Field Nothing
byte_field name = record { name = name; Value = ℕ; codec = unsigned 1; attributes = other ∷ [] }

abbrev byte_fields : List (Field Nothing)
byte_fields = byte_field (97 ∷ []) ∷ byte_field (98 ∷ []) ∷ []

derive_struct-Crosses_example :
    Crosses
      (named_struct_codec platform_64 byte_fields)
      (7, (7, tt))
      (7, (7, tt))
      (frames ((7 ∷ []) ∷ (7 ∷ []) ∷ []))
      tt
      tt
      tt
      tt
unfolding derive_struct check_fields check_named check_field any struct_resolves
    deserialize_resolves prefixed length_header to_le_bytes
derive_struct-Crosses_example =
    derive_struct-Crosses platform_64 supported (named byte_fields)
      (named_struct_codec platform_64 byte_fields) (7, (7, tt)) (7, (7, tt))
      ((7 ∷ []) ∷ (7 ∷ []) ∷ []) tt tt tt tt refl (omega arith)
      (tt, tt, seven, (tt, tt, seven, (refl, refl)))

-- `struct S { len_a: u8, a: u8 }`: the length of `a` takes the name of the value of `len_a`.
len_a_shadowed :
    derive_struct platform_64
      (named (byte_field (108 ∷ 101 ∷ 110 ∷ 95 ∷ 97 ∷ []) ∷ byte_field (97 ∷ []) ∷ []))
    ≡ shadowed
unfolding derive_struct check_fields check_named check_field any struct_resolves
    deserialize_resolves
len_a_shadowed = refl

-- `enum E { V { buffer: u8 } }`: the arm's own buffer takes the name.
buffer_shadowed :
    derive_enum platform_64 (
      record {
        name = 86 ∷ [];
        fields = named (byte_field (98 ∷ 117 ∷ 102 ∷ 102 ∷ 101 ∷ 114 ∷ []) ∷ []);
      }
      ∷ [])
    ≡ shadowed
unfolding derive_enum check_variants check_fields check_named check_field any variants_resolve
    serialize_resolves deserialize_resolves
buffer_shadowed = refl

-- `enum E { A, B(u8) }`
abbrev nothing_or_byte : List (Variant Nothing)
nothing_or_byte =
    record { name = 65 ∷ []; fields = unit }
    ∷ record { name = 66 ∷ []; fields = tuple (byte_field [] ∷ []) }
    ∷ []

derive_enum-Crosses_example :
    Crosses
      (enum_codec platform_64 nothing_or_byte)
      (inr (inl (7, tt)))
      (inr (inl (7, tt)))
      (prefixed (66 ∷ []) ++ prefixed (frames ((7 ∷ []) ∷ [])))
      tt
      tt
      tt
      tt
unfolding derive_enum check_variants check_fields check_named variants_resolve is_utf8 prefixed
    length_header to_le_bytes
derive_enum-Crosses_example =
    derive_enum-Crosses platform_64 supported nothing_or_byte
      (enum_codec platform_64 nothing_or_byte) (inr (inl (7, tt))) (inr (inl (7, tt))) (66 ∷ [])
      ((7 ∷ []) ∷ []) tt tt tt tt refl refl (omega arith)
      ((λ e. omega (arith, ap first e)), (refl, (tt, tt, seven, (refl, refl))))

unknown_variant_67 :
    (enum_codec platform_64 nothing_or_byte).rematerialize (prefixed (67 ∷ []) ++ prefixed []) tt
    ≡ (err (unknown_variant (67 ∷ [])), tt)
unfolding is_utf8 prefixed length_header to_le_bytes
unknown_variant_67 =
    unknown_variant_refused platform_64 supported (67 ∷ []) [] refl (omega arith)
      (record { name = 65 ∷ []; fields = unit })
      (record { name = 66 ∷ []; fields = tuple (byte_field [] ∷ []) } ∷ []) tt
      ((λ e. omega (arith, ap first e)), ((λ e. omega (arith, ap first e)), tt))

read_field-read_prefixed_example :
    wordless (read_field platform_64 (3 ∷ 0 ∷ 0 ∷ []) 0)
    ≡ wordless (read_prefixed platform_64 (3 ∷ 0 ∷ 0 ∷ []) 0)
read_field-read_prefixed_example = read_field-read_prefixed platform_64 (3 ∷ 0 ∷ 0 ∷ []) 0
