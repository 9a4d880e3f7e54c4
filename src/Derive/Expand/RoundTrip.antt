-- ===== src/Derive/Expand/RoundTrip.antt =====
-- Whatever the macro makes code of, the code sends and receives.
use ractor_wormhole.Prelude.{
  ◌<◌, ◌≡◌, ap, subst, Bool, true, false, Option, none, some, List, [], ◌∷◌, ◌++◌, length,
}
use ractor_wormhole.Outcome.{ok, Bytes}
use ractor_wormhole.Platform.{Platform, IsSupported, usize_limit}
use ractor_wormhole.Transmaterialization.Prefixed.{prefixed}
use ractor_wormhole.Transmaterialization.Codec.{Transmaterializable, Crosses, frames}
use ractor_wormhole.Transmaterialization.Utf8.{is_utf8}
use ractor_wormhole.Derive.Item.{Fields, unit, tuple, named, Variant, fields_of, Values, EnumValue}
use ractor_wormhole.Derive.Fields.{CrossFields}
use ractor_wormhole.Derive.Names.{struct_resolves, variants_resolve}
use ractor_wormhole.Derive.Structs.{
  named_struct_codec, tuple_struct_codec, unit_struct_codec, named_struct_codec-Crosses,
  tuple_struct_codec-Crosses,
}
use ractor_wormhole.Derive.Enums.{enum_codec}
use ractor_wormhole.Derive.Enums.Arms.{CrossVariant}
use ractor_wormhole.Derive.Enums.RoundTrip.{enum_codec-Crosses}
use ractor_wormhole.Derive.Expand.{
  Refusal, Expansion, expands, bails, shadowed, checked, check_fields, check_variants,
  derive_struct, derive_enum,
}

-- The code that an expansion has, with another in case it has none.
code_or : {A : Type 0} → A → Expansion A → A
code_or a (expands b) = b
code_or a (bails e) = a
code_or a shadowed = a

checked-expands :
    {A : Type 0} (o : Option Refusal) (resolves : Bool) (a : A) {b : A}
    → checked o resolves a ≡ expands b
    → a ≡ b
unfolding code_or
checked-expands none true a e = ap (code_or a) e
checked-expands none false a e = cc
checked-expands (some x) resolves a e = cc

module _ {S : Type 0} (p : Platform) (sup : IsSupported p) where
  -- On a supported platform, if the macro writes code for a struct, of whichever kind, in which
  -- the name of each field stands for its own value, the struct's fields cross one after the other
  -- and the message fits `usize`, then the struct crosses as each field behind its length.
  pub derive_struct-Crosses :
      (fields : Fields S) (c : Transmaterializable S (Values (fields_of fields)))
      (xs ys : Values (fields_of fields)) (parts : List Bytes) (s s' r r' : S)
      → derive_struct p fields ≡ expands c
      → length (frames parts) < usize_limit p
      → CrossFields (fields_of fields) xs ys parts s s' r r'
      → Crosses c xs ys (frames parts) s s' r r'
  unfolding derive_struct unit_struct_codec
  derive_struct-Crosses unit c xs ys [] s s' r r' e fits k =
      subst (λ (d : Transmaterializable S (Unit {0})). Crosses d xs ys [] s s' r r')
        (checked-expands none true unit_struct_codec e)
        (record {
          sent = ap (λ (t : S). (ok [], t)) k.0;
          received = ap (λ (t : S). (ok ys, t)) k.1;
        })
  derive_struct-Crosses unit c xs ys (b ∷ bs) s s' r r' e fits k = absurd k
  derive_struct-Crosses (tuple fs) c xs ys parts s s' r r' e fits k =
      subst (λ (d : Transmaterializable S (Values fs)). Crosses d xs ys (frames parts) s s' r r')
        (checked-expands (check_fields (tuple fs)) (struct_resolves (tuple fs))
          (tuple_struct_codec p fs) e)
        (tuple_struct_codec-Crosses p fs xs ys parts s s' r r' sup fits k)
  derive_struct-Crosses (named fs) c xs ys parts s s' r r' e fits k =
      subst (λ (d : Transmaterializable S (Values fs)). Crosses d xs ys (frames parts) s s' r r')
        (checked-expands (check_fields (named fs)) (struct_resolves (named fs))
          (named_struct_codec p fs) e)
        (named_struct_codec-Crosses p fs xs ys parts s s' r r' sup fits k)

  -- On a supported platform, if the macro writes code for an enum, in which the name of each field
  -- stands for its own value, the variant's name is UTF-8 and no earlier variant's, its fields
  -- cross one after the other and the message fits `usize`, then the value crosses as the
  -- variant's name and its fields' frames, each behind its length.
  pub derive_enum-Crosses :
      (vs : List (Variant S)) (c : Transmaterializable S (EnumValue vs)) (x y : EnumValue vs)
      (name : Bytes) (parts : List Bytes) (s s' r r' : S)
      → derive_enum p vs ≡ expands c
      → is_utf8 name ≡ true
      → length (prefixed name ++ prefixed (frames parts)) < usize_limit p
      → CrossVariant vs x y name parts s s' r r'
      → Crosses c x y (prefixed name ++ prefixed (frames parts)) s s' r r'
  unfolding derive_enum
  derive_enum-Crosses vs c x y name parts s s' r r' e valid fits k =
      subst
        (λ (d : Transmaterializable S (EnumValue vs)).
          Crosses d x y (prefixed name ++ prefixed (frames parts)) s s' r r')
        (checked-expands (check_variants vs) (variants_resolve vs) (enum_codec p vs) e)
        (enum_codec-Crosses p sup vs x y name parts s s' r r' valid fits k)
