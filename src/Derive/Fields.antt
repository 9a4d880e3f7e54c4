-- ===== src/Derive/Fields.antt =====
-- The code for the fields of a struct or of a variant: one after the other, each behind its length.
use ractor_wormhole.Prelude.{
  ℕ, ◌+◌, ◌<◌, ◌≡◌, sym, ap, ap₂, ◌∙◌, List, [], ◌∷◌, ◌++◌, append_assoc, append-nil, length,
}
use ractor_wormhole.Outcome.{Outcome, ok, Bytes}
use ractor_wormhole.Outcome.Action.{Action, pure, lift, ◌>>=◌, bind-eq, bind-lift}
use ractor_wormhole.Platform.{Platform, IsSupported, usize_limit}
use ractor_wormhole.Transmaterialization.Prefixed.{prefixed, read_prefixed-At, At, At-next}
use ractor_wormhole.Transmaterialization.Codec.{
  Crosses, frames, append_element, bind-append_element,
}
use ractor_wormhole.Derive.Item.{Field, Values}
use ractor_wormhole.Derive.ReadField.{read_field, read_field-ok}

module _ {S : Type 0} where
  unfoldable pub write_fields : (fs : List (Field S)) → Values fs → Bytes → Action S Bytes
  write_fields [] xs buffer = pure buffer
  write_fields (f ∷ fs) xs buffer = do
    buffer ← append_element f.codec xs.0 buffer
    write_fields fs xs.1 buffer

  unfoldable pub read_fields :
      Platform → (fs : List (Field S)) → Bytes → ℕ → Action S (Values fs × ℕ)
  read_fields p [] buffer offset = pure (tt, offset)
  read_fields p (f ∷ fs) buffer offset = do
    (bytes, offset) ← lift (read_field p buffer offset)
    x ← f.codec.rematerialize bytes
    (xs, offset) ← read_fields p fs buffer offset
    pure ((x, xs), offset)

  -- The fields cross one after the other, as these parts.
  abbrev pub CrossFields :
      (fs : List (Field S)) → Values fs → Values fs → List Bytes → S → S → S → S → Type 0
  CrossFields [] xs ys [] s s' r r' = (s ≡ s') × (r ≡ r')
  CrossFields [] xs ys (b ∷ bs) s s' r r' = ⊥
  CrossFields (f ∷ fs) xs ys [] s s' r r' = ⊥
  CrossFields (f ∷ fs) xs ys (b ∷ bs) s s' r r' =
      (t : S) × (u : S) × Crosses f.codec xs.0 ys.0 b s t r u
      × CrossFields fs xs.1 ys.1 bs t s' u r'

  pub write_fields-CrossFields :
      (fs : List (Field S)) (xs ys : Values fs) (parts : List Bytes) (s s' r r' : S)
      (buffer : Bytes)
      → CrossFields fs xs ys parts s s' r r'
      → write_fields fs xs buffer s ≡ (ok (buffer ++ frames parts), s')
  unfolding write_fields
  write_fields-CrossFields [] xs ys [] s s' r r' buffer k =
      ap₂ (λ (b : Bytes) (t : S). (Outcome.ok b, t)) (sym (append-nil buffer)) k.0
  write_fields-CrossFields [] xs ys (b ∷ bs) s s' r r' buffer k = absurd k
  write_fields-CrossFields (f ∷ fs) xs ys [] s s' r r' buffer k = absurd k
  write_fields-CrossFields (f ∷ fs) xs ys (b ∷ bs) s s' r r' buffer (t, u, k, ks) =
      bind-append_element f.codec buffer _ k
      ∙ write_fields-CrossFields fs xs.1 ys.1 bs t s' u r' (buffer ++ prefixed b) ks
      ∙ ap (λ (c : Bytes). (Outcome.ok c, s')) (append_assoc buffer (prefixed b) (frames bs))

  -- They are read up to where the buffer goes on with something else.
  pub read_fields-CrossFields :
      (p : Platform) (fs : List (Field S)) (xs ys : Values fs) (parts : List Bytes) (s s' r r' : S)
      (buffer : Bytes) (offset : ℕ)
      → IsSupported p
      → length buffer < usize_limit p
      → CrossFields fs xs ys parts s s' r r'
      → At buffer offset (frames parts)
      → (end : ℕ) × At buffer end [] × (read_fields p fs buffer offset r ≡ (ok (ys, end), r'))
  unfolding read_fields
  read_fields-CrossFields p [] xs ys [] s s' r r' buffer offset sup fits k at =
      (offset, at, ap (λ (t : S). (Outcome.ok (ys, offset), t)) k.1)
  read_fields-CrossFields p [] xs ys (b ∷ bs) s s' r r' buffer offset sup fits k at = absurd k
  read_fields-CrossFields p (f ∷ fs) xs ys [] s s' r r' buffer offset sup fits k at = absurd k
  read_fields-CrossFields p (f ∷ fs) xs ys (b ∷ bs) s s' r r' buffer offset sup fits (t, u, k, ks)
        at =
      let (end, at_end, rest) =
        read_fields-CrossFields p fs xs.1 ys.1 bs t s' u r' buffer (offset + 8 + length b) sup fits
          ks (At-next b (frames bs) at) in
      (
        end,
        at_end,
        bind-lift (read_field p buffer offset) _ r
              (read_field-ok p buffer offset (read_prefixed-At p b (frames bs) sup fits at))
            ∙ bind-eq (f.codec.rematerialize b) _ k.received
            ∙ bind-eq (read_fields p fs buffer (offset + 8 + length b)) _ rest,
      )
