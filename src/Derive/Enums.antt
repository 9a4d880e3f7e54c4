-- ===== src/Derive/Enums.antt =====
-- The code for an enum: `derive_enum`. A variant travels as its name and its payload, each behind its
-- length.
pub mod Arms
pub mod RoundTrip
use ractor_wormhole.Prelude.{
  ℕ, ◌+◌, ◌<◌, ◌≡◌, ◌≢◌, refl, sym, ap, ◌∙◌, ◌⊎◌, inl, inr, true, false, List, [], ◌∷◌, ◌++◌, ◌==◌,
  append-nil, append_assoc, length, length-append, if◌then◌else◌, arith,
}
use ractor_wormhole.Prelude.Map.{◌=?◌, bytes_eq, beq_refl, beq_ne}
use ractor_wormhole.Outcome.{
  Outcome, ok, err, Bytes, ensure, not_consumed, unit_not_empty, unknown_variant, uninhabited,
}
use ractor_wormhole.Outcome.Action.{Action, pure, lift, ◌>>=◌, ◌>>◌, bind-eq, bind-lift}
use ractor_wormhole.Platform.{Platform, IsSupported, usize_limit}
use ractor_wormhole.Transmaterialization.Prefixed.{
  prefixed, read_prefixed-At, length-prefixed, At, At-next,
}
use ractor_wormhole.Transmaterialization.Codec.{Transmaterializable, Crosses, frames}
use ractor_wormhole.Transmaterialization.Utf8.{is_utf8, from_utf8}
use ractor_wormhole.Derive.Item.{
  Field, Fields, unit, tuple, named, Variant, fields_of, Values, EnumValue,
}
use ractor_wormhole.Derive.ReadField.{read_field, read_field-ok}
use ractor_wormhole.Derive.Fields.{
  write_fields, read_fields, CrossFields, write_fields-CrossFields, read_fields-CrossFields,
}
use ractor_wormhole.Derive.Structs.{consumed, consumed-At}

module _ {S : Type 0} where
  -- The arm of one variant: its name, and the bytes of its fields.
  unfoldable pub serialize_arm :
      (v : Variant S) → Values (fields_of v.fields) → Action S (Bytes × Bytes)
  serialize_arm v xs = do payload ← write_fields (fields_of v.fields) xs []; pure (v.name, payload)

  unfoldable pub read_payload :
      Platform → (fields : Fields S) → Bytes → Action S (Values (fields_of fields))
  read_payload p unit payload =
      lift (ensure (length payload == 0) (unit_not_empty (length payload)))
  read_payload p (tuple fs) payload = do
    (xs, offset) ← read_fields p fs payload 0
    lift (consumed payload offset)
    pure xs
  read_payload p (named fs) payload = do
    (xs, offset) ← read_fields p fs payload 0
    lift (consumed payload offset)
    pure xs

  -- `match self { … }`
  unfoldable pub serialize_arms : (vs : List (Variant S)) → EnumValue vs → Action S (Bytes × Bytes)
  unfolding serialize_arm
  serialize_arms [] x = absurd x
  serialize_arms (v ∷ vs) (inl xs) = serialize_arm v xs
  serialize_arms (v ∷ vs) (inr x) = serialize_arms vs x

  -- `match variant_name.as_str() { … }`
  unfoldable pub deserialize_arms :
      Platform → (vs : List (Variant S)) → Bytes → Bytes → Action S (EnumValue vs)
  unfolding read_payload
  deserialize_arms p [] name payload = lift (err (unknown_variant name))
  deserialize_arms p (v ∷ vs) name payload =
      if v.name =? name
      then (do xs ← read_payload p v.fields payload; pure (inl xs))
      else (do x ← deserialize_arms p vs name payload; pure (inr x))

  -- An enum without variants has no value to send, and nothing is received as one.
  unfoldable pub enum_codec :
      Platform → (vs : List (Variant S)) → Transmaterializable S (EnumValue vs)
  unfolding serialize_arms deserialize_arms
  enum_codec p [] = record {
    immaterialize = λ x. absurd x;
    rematerialize = λ buffer. lift (err uninhabited);
  }
  enum_codec p (v ∷ vs) = record {
    immaterialize = λ x. do
      (name, payload) ← serialize_arms (v ∷ vs) x
      pure (prefixed name ++ prefixed payload);
    rematerialize = λ buffer. do
      (bytes, offset) ← lift (read_field p buffer 0)
      name ← lift (from_utf8 bytes)
      (payload, offset) ← lift (read_field p buffer offset)
      x ← deserialize_arms p (v ∷ vs) name payload
      lift (consumed buffer offset)
      pure x;
  }
