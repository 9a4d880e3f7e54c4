-- ===== src/Derive/Structs.antt =====
-- The code for a struct: `derive_struct`.
use ractor_wormhole.Prelude.{ℕ, ◌<◌, ◌≡◌, refl, ◌∙◌, List, [], ◌==◌, length, arith}
use ractor_wormhole.Outcome.{Outcome, ok, Bytes, ensure, not_consumed, unit_not_empty}
use ractor_wormhole.Outcome.Action.{Action, pure, lift, ◌>>=◌, ◌>>◌, bind-eq, bind-lift}
use ractor_wormhole.Platform.{Platform, IsSupported, usize_limit}
use ractor_wormhole.Transmaterialization.Prefixed.{At, At-end}
use ractor_wormhole.Transmaterialization.Codec.{Transmaterializable, Crosses, frames}
use ractor_wormhole.Derive.Item.{Field, Values}
use ractor_wormhole.Derive.Fields.{
  write_fields, read_fields, CrossFields, write_fields-CrossFields, read_fields-CrossFields,
}

-- `if data.len() != offset { return Err(…) }`
abbrev pub consumed : Bytes → ℕ → Outcome (Unit {0})
consumed buffer offset = ensure (length buffer == offset) (not_consumed (length buffer) offset)

pub consumed-At : {buffer : Bytes} {end : ℕ} → At buffer end [] → consumed buffer end ≡ ok tt
consumed-At at = ground (arith, At-end at)

module _ {S : Type 0} where
  -- `#(#deserialize)*`, up to `Ok(Self { #(#field_names),* })`, and the check between.
  unfoldable pub read_all : Platform → (fs : List (Field S)) → Bytes → Action S (Values fs)
  read_all p fs buffer = do
    (xs, offset) ← read_fields p fs buffer 0
    lift (consumed buffer offset)
    pure xs

  -- A struct with named fields, the name of each standing for its own value.
  unfoldable pub named_struct_codec :
      Platform → (fs : List (Field S)) → Transmaterializable S (Values fs)
  unfolding read_all
  named_struct_codec p fs = record {
    immaterialize = λ xs. write_fields fs xs [];
    rematerialize = λ buffer. read_all p fs buffer;
  }

  -- A struct with fields in parentheses: a copy of that code, whose names are made of the places.
  unfoldable pub tuple_struct_codec :
      Platform → (fs : List (Field S)) → Transmaterializable S (Values fs)
  tuple_struct_codec p fs = record {
    immaterialize = λ xs. write_fields fs xs [];
    rematerialize = λ buffer. do
      (xs, offset) ← read_fields p fs buffer 0
      lift (consumed buffer offset)
      pure xs;
  }

  unfoldable pub unit_struct_codec : Transmaterializable S (Unit {0})
  unit_struct_codec = record {
    immaterialize = λ x. pure [];
    rematerialize = λ buffer. lift (ensure (length buffer == 0) (unit_not_empty (length buffer)));
  }

  pub read_all-CrossFields :
      (p : Platform) (fs : List (Field S)) (xs ys : Values fs) (parts : List Bytes) (s s' r r' : S)
      → IsSupported p
      → length (frames parts) < usize_limit p
      → CrossFields fs xs ys parts s s' r r'
      → read_all p fs (frames parts) r ≡ (ok ys, r')
  unfolding read_all
  read_all-CrossFields p fs xs ys parts s s' r r' sup fits k =
      let (end, at, read) =
        read_fields-CrossFields p fs xs ys parts s s' r r' (frames parts) 0 sup fits k
          ([], refl, refl) in
      bind-eq (read_fields p fs (frames parts) 0) _ read
      ∙ bind-lift (consumed (frames parts) end) _ r' (consumed-At at)

  module _ (p : Platform) (fs : List (Field S)) (xs ys : Values fs) (parts : List Bytes)
      (s s' r r' : S) (sup : IsSupported p) (fits : length (frames parts) < usize_limit p)
      (k : CrossFields fs xs ys parts s s' r r') where
    pub named_struct_codec-Crosses :
        Crosses (named_struct_codec p fs) xs ys (frames parts) s s' r r'
    unfolding named_struct_codec
    named_struct_codec-Crosses = record {
      sent = write_fields-CrossFields fs xs ys parts s s' r r' [] k;
      received = read_all-CrossFields p fs xs ys parts s s' r r' sup fits k;
    }

    pub tuple_struct_codec-Crosses :
        Crosses (tuple_struct_codec p fs) xs ys (frames parts) s s' r r'
    unfolding tuple_struct_codec read_all
    tuple_struct_codec-Crosses = record {
      sent = write_fields-CrossFields fs xs ys parts s s' r r' [] k;
      received = read_all-CrossFields p fs xs ys parts s s' r r' sup fits k;
    }
