-- ===== src/Derive/Enums/Arms.antt =====
-- The arms of an enum: what one writes, the one with its name reads.
use ractor_wormhole.Prelude.{ℕ, ◌<◌, ◌≡◌, ◌≢◌, refl, ap, ◌∙◌, inl, inr, List, [], ◌∷◌, length, All}
use ractor_wormhole.Prelude.Map.{bytes_eq, beq_refl, beq_ne}
use ractor_wormhole.Outcome.{Outcome, ok, err, Bytes, unknown_variant}
use ractor_wormhole.Outcome.Action.{pure, lift, ◌>>=◌, ◌>>◌, bind-eq, bind-lift}
use ractor_wormhole.Platform.{Platform, IsSupported, usize_limit}
use ractor_wormhole.Transmaterialization.Codec.{frames}
use ractor_wormhole.Derive.Item.{
  Field, Fields, unit, tuple, named, Variant, fields_of, Values, EnumValue,
}
use ractor_wormhole.Derive.Fields.{
  write_fields, read_fields, CrossFields, write_fields-CrossFields, read_fields-CrossFields,
}
use ractor_wormhole.Derive.Structs.{consumed, consumed-At}
use ractor_wormhole.Derive.Enums.{serialize_arms, read_payload, deserialize_arms}

-- The value's variant has this name, which no variant before it has, and its fields cross as these
-- parts.
abbrev pub CrossVariant :
    {S : Type 0} (vs : List (Variant S))
    → EnumValue vs
    → EnumValue vs
    → Bytes
    → List Bytes
    → S
    → S
    → S
    → S
    → Type 0
CrossVariant [] x y name parts s s' r r' = ⊥
CrossVariant (v ∷ vs) (inl xs) (inl ys) name parts s s' r r' =
    (v.name ≡ name) × CrossFields (fields_of v.fields) xs ys parts s s' r r'
CrossVariant (v ∷ vs) (inl xs) (inr y) name parts s s' r r' = ⊥
CrossVariant (v ∷ vs) (inr x) (inl ys) name parts s s' r r' = ⊥
CrossVariant (v ∷ vs) (inr x) (inr y) name parts s s' r r' =
    (v.name ≢ name) × CrossVariant vs x y name parts s s' r r'

module _ {S : Type 0} (s s' r r' : S) where
  pub serialize_arms-CrossVariant :
      (vs : List (Variant S)) (x y : EnumValue vs) (name : Bytes) (parts : List Bytes)
      → CrossVariant vs x y name parts s s' r r'
      → serialize_arms vs x s ≡ (ok (name, frames parts), s')
  unfolding serialize_arms
  serialize_arms-CrossVariant [] x y name parts k = absurd k
  serialize_arms-CrossVariant (v ∷ vs) (inl xs) (inl ys) name parts (e, k) =
      bind-eq (write_fields (fields_of v.fields) xs []) _
        (write_fields-CrossFields (fields_of v.fields) xs ys parts s s' r r' [] k)
      ∙ ap (λ (n : Bytes). (Outcome.ok (n, frames parts), s')) e
  serialize_arms-CrossVariant (v ∷ vs) (inl xs) (inr y) name parts k = absurd k
  serialize_arms-CrossVariant (v ∷ vs) (inr x) (inl ys) name parts k = absurd k
  serialize_arms-CrossVariant (v ∷ vs) (inr x) (inr y) name parts (n, k) =
      serialize_arms-CrossVariant vs x y name parts k

  module _ (p : Platform) (sup : IsSupported p) where
    payload_read :
        (fs : List (Field S)) (xs ys : Values fs) (parts : List Bytes)
        → length (frames parts) < usize_limit p
        → CrossFields fs xs ys parts s s' r r'
        → (read_fields p fs (frames parts) 0 >>= λ (x : Values fs × ℕ).
              lift (consumed (frames parts) x.1) >> pure x.0)
            r
          ≡ (ok ys, r')
    payload_read fs xs ys parts fits k =
        let (end, at, read) =
          read_fields-CrossFields p fs xs ys parts s s' r r' (frames parts) 0 sup fits k
            ([], refl, refl) in
        bind-eq (read_fields p fs (frames parts) 0) _ read
        ∙ bind-lift (consumed (frames parts) end) _ r' (consumed-At at)

    read_payload-CrossFields :
        (fields : Fields S) (xs ys : Values (fields_of fields)) (parts : List Bytes)
        → length (frames parts) < usize_limit p
        → CrossFields (fields_of fields) xs ys parts s s' r r'
        → read_payload p fields (frames parts) r ≡ (ok ys, r')
    unfolding read_payload
    read_payload-CrossFields unit xs ys [] fits k = ap (λ (t : S). (Outcome.ok ys, t)) k.1
    read_payload-CrossFields unit xs ys (b ∷ bs) fits k = absurd k
    read_payload-CrossFields (tuple fs) xs ys parts fits k = payload_read fs xs ys parts fits k
    read_payload-CrossFields (named fs) xs ys parts fits k = payload_read fs xs ys parts fits k

    pub deserialize_arms-CrossVariant :
        (vs : List (Variant S)) (x y : EnumValue vs) (name : Bytes) (parts : List Bytes)
        → length (frames parts) < usize_limit p
        → CrossVariant vs x y name parts s s' r r'
        → deserialize_arms p vs name (frames parts) r ≡ (ok y, r')
    unfolding deserialize_arms
    deserialize_arms-CrossVariant [] x y name parts fits k = absurd k
    deserialize_arms-CrossVariant (v ∷ vs) (inl xs) (inl ys) name parts fits (e, k) = rw e (
        rw (beq_refl name) (
          bind-eq (read_payload p v.fields (frames parts)) _
            (read_payload-CrossFields v.fields xs ys parts fits k)))
    deserialize_arms-CrossVariant (v ∷ vs) (inl xs) (inr y) name parts fits k = absurd k
    deserialize_arms-CrossVariant (v ∷ vs) (inr x) (inl ys) name parts fits k = absurd k
    deserialize_arms-CrossVariant (v ∷ vs) (inr x) (inr y) name parts fits (n, k) =
        rw (beq_ne v.name name n) (
          bind-eq (deserialize_arms p vs name (frames parts)) _
            (deserialize_arms-CrossVariant vs x y name parts fits k))

pub deserialize_arms-none :
    {S : Type 0} (p : Platform) (vs : List (Variant S)) (name payload : Bytes) (r : S)
    → All (λ (w : Variant S). w.name ≢ name) vs
    → deserialize_arms p vs name payload r ≡ (err (unknown_variant name), r)
unfolding deserialize_arms
deserialize_arms-none p [] name payload r h = refl
deserialize_arms-none p (v ∷ vs) name payload r h =
    rw (beq_ne v.name name h.0) (
      bind-eq (deserialize_arms p vs name payload) _
        (deserialize_arms-none p vs name payload r h.1))
