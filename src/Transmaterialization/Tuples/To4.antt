-- ===== src/Transmaterialization/Tuples/To4.antt =====
-- ractor_wormhole/src/transmaterialization/default_impl_tupl.rs: tuples of 1 to 4 elements.
-- Each element stands behind its length.
use ractor_wormhole.Prelude.{◌<◌, refl, ap, ◌∙◌, [], ◌∷◌, append_assoc, append-nil, length}
use ractor_wormhole.Outcome.{ok, Bytes}
use ractor_wormhole.Outcome.Action.{pure, lift, ◌>>=◌, ◌>>◌}
use ractor_wormhole.Platform.{Platform, IsSupported, usize_limit}
use ractor_wormhole.Transmaterialization.Util.{require_buffer_size}
use ractor_wormhole.Transmaterialization.Prefixed.{At, At-next, At-end}
use ractor_wormhole.Transmaterialization.Codec.{
  Transmaterializable, Crosses, frames, append_element, read_element, bind-append_element,
  bind-read_element, bind-require_buffer_size,
}

module _ (p : Platform) {S A0 : Type 0} (c0 : Transmaterializable S A0) where
  pub tuple_1 : Transmaterializable S (A0)
  tuple_1 = record {
    immaterialize = λ x. do
      buffer ← append_element c0 x []
      pure buffer;
    rematerialize = λ buffer. do
      (elem0, offset) ← read_element c0 p buffer 0
      lift (require_buffer_size buffer offset)
      pure elem0;
  }

  -- If the element crosses and its frame fits `usize`, the tuple of one crosses.
  pub tuple_1-Crosses :
      {b0 : Bytes} {x0 y0 : A0} {s0 s1 : S} {r0 r1 : S}
      → Crosses c0 x0 y0 b0 s0 s1 r0 r1
      → IsSupported p
      → length (frames (b0 ∷ [])) < usize_limit p
      → Crosses tuple_1 x0 y0 (frames (b0 ∷ [])) s0 s1 r0 r1
  unfolding tuple_1
  tuple_1-Crosses {b0 = b0} {s1 = s1} {r1 = r1} k0 supported fits =
      let start : At _ 0 (frames (b0 ∷ [])) = ([], refl, refl) in
      let at0 = At-next b0 (frames []) start in
      record {
        sent = bind-append_element c0 _ _ k0 ∙ ap (λ (b : Bytes). (ok b, s1)) (simp append-nil);
        received =
            bind-read_element c0 p (frames []) _ supported fits start k0
            ∙ bind-require_buffer_size _ _ _ _ (At-end at0);
      }

module _ (p : Platform) {S A0 A1 : Type 0} (c0 : Transmaterializable S A0)
    (c1 : Transmaterializable S A1) where
  pub tuple_2 : Transmaterializable S (A0 × A1)
  tuple_2 = record {
    immaterialize = λ x. do
      buffer ← append_element c0 x.0 []
      buffer ← append_element c1 x.1 buffer
      pure buffer;
    rematerialize = λ buffer. do
      (elem0, offset) ← read_element c0 p buffer 0
      (elem1, offset) ← read_element c1 p buffer offset
      lift (require_buffer_size buffer offset)
      pure (elem0, elem1);
  }

  -- If the two elements cross in turn and the frames fit `usize`, the tuple of two crosses.
  pub tuple_2-Crosses :
      {b0 b1 : Bytes} {x0 y0 : A0} {x1 y1 : A1} {s0 s1 s2 : S} {r0 r1 r2 : S}
      → Crosses c0 x0 y0 b0 s0 s1 r0 r1
      → Crosses c1 x1 y1 b1 s1 s2 r1 r2
      → IsSupported p
      → length (frames (b0 ∷ b1 ∷ [])) < usize_limit p
      → Crosses tuple_2 (x0, x1) (y0, y1) (frames (b0 ∷ b1 ∷ [])) s0 s2 r0 r2
  unfolding tuple_2
  tuple_2-Crosses {b0 = b0} {b1 = b1} {s2 = s2} {r2 = r2} k0 k1 supported fits =
      let start : At _ 0 (frames (b0 ∷ b1 ∷ [])) = ([], refl, refl) in
      let at0 = At-next b0 (frames (b1 ∷ [])) start in
      let at1 = At-next b1 (frames []) at0 in
      record {
        sent =
            bind-append_element c0 _ _ k0
            ∙ bind-append_element c1 _ _ k1
            ∙ ap (λ (b : Bytes). (ok b, s2)) (simp (append_assoc, append-nil));
        received =
            bind-read_element c0 p (frames (b1 ∷ [])) _ supported fits start k0
            ∙ bind-read_element c1 p (frames []) _ supported fits at0 k1
            ∙ bind-require_buffer_size _ _ _ _ (At-end at1);
      }

module _ (p : Platform) {S A0 A1 A2 : Type 0} (c0 : Transmaterializable S A0)
    (c1 : Transmaterializable S A1) (c2 : Transmaterializable S A2) where
  pub tuple_3 : Transmaterializable S (A0 × A1 × A2)
  tuple_3 = record {
    immaterialize = λ x. do
      buffer ← append_element c0 x.0 []
      buffer ← append_element c1 x.1 buffer
      buffer ← append_element c2 x.2 buffer
      pure buffer;
    rematerialize = λ buffer. do
      (elem0, offset) ← read_element c0 p buffer 0
      (elem1, offset) ← read_element c1 p buffer offset
      (elem2, offset) ← read_element c2 p buffer offset
      lift (require_buffer_size buffer offset)
      pure (elem0, elem1, elem2);
  }

  -- If the three elements cross in turn and the frames fit `usize`, the tuple of three crosses.
  pub tuple_3-Crosses :
      {b0 b1 b2 : Bytes} {x0 y0 : A0} {x1 y1 : A1} {x2 y2 : A2} {s0 s1 s2 s3 : S} {r0 r1 r2 r3 : S}
      → Crosses c0 x0 y0 b0 s0 s1 r0 r1
      → Crosses c1 x1 y1 b1 s1 s2 r1 r2
      → Crosses c2 x2 y2 b2 s2 s3 r2 r3
      → IsSupported p
      → length (frames (b0 ∷ b1 ∷ b2 ∷ [])) < usize_limit p
      → Crosses tuple_3 (x0, x1, x2) (y0, y1, y2) (frames (b0 ∷ b1 ∷ b2 ∷ [])) s0 s3 r0 r3
  unfolding tuple_3
  tuple_3-Crosses {b0 = b0} {b1 = b1} {b2 = b2} {s3 = s3} {r3 = r3} k0 k1 k2 supported fits =
      let start : At _ 0 (frames (b0 ∷ b1 ∷ b2 ∷ [])) = ([], refl, refl) in
      let at0 = At-next b0 (frames (b1 ∷ b2 ∷ [])) start in
      let at1 = At-next b1 (frames (b2 ∷ [])) at0 in
      let at2 = At-next b2 (frames []) at1 in
      record {
        sent =
            bind-append_element c0 _ _ k0
            ∙ bind-append_element c1 _ _ k1
            ∙ bind-append_element c2 _ _ k2
            ∙ ap (λ (b : Bytes). (ok b, s3)) (simp (append_assoc, append-nil));
        received =
            bind-read_element c0 p (frames (b1 ∷ b2 ∷ [])) _ supported fits start k0
            ∙ bind-read_element c1 p (frames (b2 ∷ [])) _ supported fits at0 k1
            ∙ bind-read_element c2 p (frames []) _ supported fits at1 k2
            ∙ bind-require_buffer_size _ _ _ _ (At-end at2);
      }

module _ (p : Platform) {S A0 A1 A2 A3 : Type 0} (c0 : Transmaterializable S A0)
    (c1 : Transmaterializable S A1) (c2 : Transmaterializable S A2)
    (c3 : Transmaterializable S A3) where
  pub tuple_4 : Transmaterializable S (A0 × A1 × A2 × A3)
  tuple_4 = record {
    immaterialize = λ x. do
      buffer ← append_element c0 x.0 []
      buffer ← append_element c1 x.1 buffer
      buffer ← append_element c2 x.2 buffer
      buffer ← append_element c3 x.3 buffer
      pure buffer;
    rematerialize = λ buffer. do
      (elem0, offset) ← read_element c0 p buffer 0
      (elem1, offset) ← read_element c1 p buffer offset
      (elem2, offset) ← read_element c2 p buffer offset
      (elem3, offset) ← read_element c3 p buffer offset
      lift (require_buffer_size buffer offset)
      pure (elem0, elem1, elem2, elem3);
  }

  -- If the four elements cross in turn and the frames fit `usize`, the tuple of four crosses.
  pub tuple_4-Crosses :
      {b0 b1 b2 b3 : Bytes} {x0 y0 : A0} {x1 y1 : A1} {x2 y2 : A2} {x3 y3 : A3} {s0 s1 s2 s3 s4 : S}
      {r0 r1 r2 r3 r4 : S}
      → Crosses c0 x0 y0 b0 s0 s1 r0 r1
      → Crosses c1 x1 y1 b1 s1 s2 r1 r2
      → Crosses c2 x2 y2 b2 s2 s3 r2 r3
      → Crosses c3 x3 y3 b3 s3 s4 r3 r4
      → IsSupported p
      → length (frames (b0 ∷ b1 ∷ b2 ∷ b3 ∷ [])) < usize_limit p
      → Crosses tuple_4
          (x0, x1, x2, x3)
          (y0, y1, y2, y3)
          (frames (b0 ∷ b1 ∷ b2 ∷ b3 ∷ []))
          s0
          s4
          r0
          r4
  unfolding tuple_4
  tuple_4-Crosses {b0 = b0} {b1 = b1} {b2 = b2} {b3 = b3} {s4 = s4} {r4 = r4} k0 k1 k2 k3 supported
        fits =
      let start : At _ 0 (frames (b0 ∷ b1 ∷ b2 ∷ b3 ∷ [])) = ([], refl, refl) in
      let at0 = At-next b0 (frames (b1 ∷ b2 ∷ b3 ∷ [])) start in
      let at1 = At-next b1 (frames (b2 ∷ b3 ∷ [])) at0 in
      let at2 = At-next b2 (frames (b3 ∷ [])) at1 in
      let at3 = At-next b3 (frames []) at2 in
      record {
        sent =
            bind-append_element c0 _ _ k0
            ∙ bind-append_element c1 _ _ k1
            ∙ bind-append_element c2 _ _ k2
            ∙ bind-append_element c3 _ _ k3
            ∙ ap (λ (b : Bytes). (ok b, s4)) (simp (append_assoc, append-nil));
        received =
            bind-read_element c0 p (frames (b1 ∷ b2 ∷ b3 ∷ [])) _ supported fits start k0
            ∙ bind-read_element c1 p (frames (b2 ∷ b3 ∷ [])) _ supported fits at0 k1
            ∙ bind-read_element c2 p (frames (b3 ∷ [])) _ supported fits at1 k2
            ∙ bind-read_element c3 p (frames []) _ supported fits at2 k3
            ∙ bind-require_buffer_size _ _ _ _ (At-end at3);
      }
