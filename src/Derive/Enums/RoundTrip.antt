-- ===== src/Derive/Enums/RoundTrip.antt =====
-- A variant is sent under its name and found by it.
use ractor_wormhole.Prelude.{
  ◌+◌, ◌<◌, ◌≡◌, ◌≢◌, refl, sym, subst, ◌∙◌, true, List, [], ◌∷◌, ◌++◌, append-nil, length,
  length-append, arith, All,
}
use ractor_wormhole.Prelude.Map.{bytes_eq}
use ractor_wormhole.Outcome.{Outcome, ok, err, panic, stuck, Bytes, unknown_variant}
use ractor_wormhole.Outcome.Action.{pure, lift, ◌>>◌, bind-eq, bind-lift, continue}
use ractor_wormhole.Platform.{Platform, IsSupported, usize_limit}
use ractor_wormhole.Transmaterialization.Prefixed.{
  prefixed, read_prefixed-At, length-prefixed, At, At-next,
}
use ractor_wormhole.Transmaterialization.Codec.{Crosses, frames}
use ractor_wormhole.Transmaterialization.Utf8.{is_utf8, from_utf8}
use ractor_wormhole.Derive.Item.{Variant, EnumValue}
use ractor_wormhole.Derive.ReadField.{read_field, read_field-ok}
use ractor_wormhole.Derive.Structs.{consumed, consumed-At}
use ractor_wormhole.Derive.Enums.{serialize_arms, deserialize_arms, enum_codec}
use ractor_wormhole.Derive.Enums.Arms.{
  CrossVariant, serialize_arms-CrossVariant, deserialize_arms-CrossVariant, deserialize_arms-none,
}

module _ {S : Type 0} (p : Platform) (sup : IsSupported p) (name payload : Bytes)
    (valid : is_utf8 name ≡ true)
    (fits : length (prefixed name ++ prefixed payload) < usize_limit p) where
  -- The name and the payload are read off the buffer, and the arms are given both.
  rematerialize-prefixed :
      (v : Variant S) (vs : List (Variant S)) (r r' : S) (o : Outcome (EnumValue (v ∷ vs)))
      → deserialize_arms p (v ∷ vs) name payload r ≡ (o, r')
      → (enum_codec p (v ∷ vs)).rematerialize (prefixed name ++ prefixed payload) r ≡ (o, r')
  unfolding enum_codec
  rematerialize-prefixed v vs r r' o e =
      bind-lift (read_field p buffer 0) _ r
        (read_field-ok p buffer 0 (read_prefixed-At p name (prefixed payload) sup fits start))
      ∙ bind-lift (from_utf8 name) _ r accepted
      ∙ bind-lift (read_field p buffer (8 + length name)) _ r
          (read_field-ok p buffer (8 + length name) (read_prefixed-At p payload [] sup fits middle))
      ∙ bind-eq (deserialize_arms p (v ∷ vs) name payload) _ e
      ∙ finish o
    where
      buffer : Bytes
      buffer = prefixed name ++ prefixed payload

      start : At buffer 0 (prefixed name ++ prefixed payload)
      start = ([], refl, refl)

      accepted : from_utf8 name ≡ ok name
      accepted = unfold from_utf8 in rw valid

      middle : At buffer (8 + length name) (prefixed payload ++ [])
      middle =
          subst (λ (rest : Bytes). At buffer (8 + length name) rest)
            (sym (append-nil (prefixed payload))) (At-next name (prefixed payload) start)

      done : consumed buffer (8 + length name + 8 + length payload) ≡ ok tt
      done = consumed-At (At-next payload [] middle)

      finish :
          (o : Outcome (EnumValue (v ∷ vs)))
          → continue
              (λ x. lift (consumed buffer (8 + length name + 8 + length payload)) >> pure x)
              o
              r'
            ≡ (o, r')
      finish (ok x) = bind-lift (consumed buffer (8 + length name + 8 + length payload)) _ r' done
      finish (err e) = refl
      finish panic = refl
      finish stuck = refl

  -- A name that is UTF-8 and no variant's, with any payload, is refused with the error that names
  -- it, if the message fits `usize`.
  pub unknown_variant_refused :
      (v : Variant S) (vs : List (Variant S)) (r : S)
      → All (λ (w : Variant S). w.name ≢ name) (v ∷ vs)
      → (enum_codec p (v ∷ vs)).rematerialize (prefixed name ++ prefixed payload) r
        ≡ (err (unknown_variant name), r)
  unknown_variant_refused v vs r new =
      rematerialize-prefixed v vs r r (err (unknown_variant name))
        (deserialize_arms-none p (v ∷ vs) name payload r new)

module _ {S : Type 0} (p : Platform) (sup : IsSupported p) where
  -- If a value of the enum crosses as its variant does, it crosses as the name and the frames of the
  -- fields, each behind its length.
  pub enum_codec-Crosses :
      (vs : List (Variant S)) (x y : EnumValue vs) (name : Bytes) (parts : List Bytes)
      (s s' r r' : S)
      → is_utf8 name ≡ true
      → length (prefixed name ++ prefixed (frames parts)) < usize_limit p
      → CrossVariant vs x y name parts s s' r r'
      → Crosses (enum_codec p vs) x y (prefixed name ++ prefixed (frames parts)) s s' r r'
  unfolding enum_codec
  enum_codec-Crosses [] x y name parts s s' r r' valid fits k = absurd k
  enum_codec-Crosses (v ∷ vs) x y name parts s s' r r' valid fits k = record {
    sent =
        bind-eq (serialize_arms (v ∷ vs) x) _
          (serialize_arms-CrossVariant s s' r r' (v ∷ vs) x y name parts k);
    received = rematerialize-prefixed p sup name (frames parts) valid fits v vs r r' (ok y) (
        deserialize_arms-CrossVariant s s' r r' p sup (v ∷ vs) x y name parts
          (omega (
            arith,
            length-append (prefixed name) (prefixed (frames parts)),
            length-prefixed (frames parts),
          ))
          k);
  }
