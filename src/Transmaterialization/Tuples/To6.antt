-- ===== src/Transmaterialization/Tuples/To6.antt =====
-- ractor_wormhole/src/transmaterialization/default_impl_tupl.rs: tuples of 5 and 6 elements.
-- Each element stands behind its length.
use ractor_wormhole.Prelude.{◌<◌, refl, ap, ◌∙◌, [], ◌∷◌, append_assoc, append-nil, length}
use ractor_wormhole.Outcome.{ok, Bytes}
use ractor_wormhole.Outcome.Action.{pure, lift, ◌>>=◌, ◌>>◌}
use ractor_wormhole.Platform.{Platform, IsSupported, usize_limit}
use ractor_wormhole.Transmaterialization.Util.{require_buffer_size}
use ractor_wormhole.Transmaterialization.Prefixed.{At, At-next, At-end}
use ractor_wormhole.Transmaterialization.Codec.{
  Transmaterializable, Crosses, frames, append_element, read_element, bind-append_element,
  bind-read_element, bind-require_buffer_size,
}

module _ (p : Platform) {S A0 A1 A2 A3 A4 : Type 0} (c0 : Transmaterializable S A0)
    (c1 : Transmaterializable S A1) (c2 : Transmaterializable S A2) (c3 : Transmaterializable S A3)
    (c4 : Transmaterializable S A4) where
  pub tuple_5 : Transmaterializable S (A0 × A1 × A2 × A3 × A4)
  tuple_5 = record {
    immaterialize = λ x. do
      buffer ← append_element c0 x.0 []
      buffer ← append_element c1 x.1 buffer
      buffer ← append_element c2 x.2 buffer
      buffer ← append_element c3 x.3 buffer
      buffer ← append_element c4 x.4 buffer
      pure buffer;
    rematerialize = λ buffer. do
      (elem0, offset) ← read_element c0 p buffer 0
      (elem1, offset) ← read_element c1 p buffer offset
      (elem2, offset) ← read_element c2 p buffer offset
      (elem3, offset) ← read_element c3 p buffer offset
      (elem4, offset) ← read_element c4 p buffer offset
      lift (require_buffer_size buffer offset)
      pure (elem0, elem1, elem2, elem3, elem4);
  }

  -- If the five elements cross in turn and the frames fit `usize`, the tuple of five crosses.
  pub tuple_5-Crosses :
      {b0 b1 b2 b3 b4 : Bytes} {x0 y0 : A0} {x1 y1 : A1} {x2 y2 : A2} {x3 y3 : A3} {x4 y4 : A4}
      {s0 s1 s2 s3 s4 s5 : S} {r0 r1 r2 r3 r4 r5 : S}
      → Crosses c0 x0 y0 b0 s0 s1 r0 r1
      → Crosses c1 x1 y1 b1 s1 s2 r1 r2
      → Crosses c2 x2 y2 b2 s2 s3 r2 r3
      → Crosses c3 x3 y3 b3 s3 s4 r3 r4
      → Crosses c4 x4 y4 b4 s4 s5 r4 r5
      → IsSupported p
      → length (frames (b0 ∷ b1 ∷ b2 ∷ b3 ∷ b4 ∷ [])) < usize_limit p
      → Crosses tuple_5
          (x0, x1, x2, x3, x4)
          (y0, y1, y2, y3, y4)
          (frames (b0 ∷ b1 ∷ b2 ∷ b3 ∷ b4 ∷ []))
          s0
          s5
          r0
          r5
  unfolding tuple_5
  tuple_5-Crosses {b0 = b0} {b1 = b1} {b2 = b2} {b3 = b3} {b4 = b4} {s5 = s5} {r5 = r5} k0 k1 k2 k3
        k4 supported fits =
      let start : At _ 0 (frames (b0 ∷ b1 ∷ b2 ∷ b3 ∷ b4 ∷ [])) = ([], refl, refl) in
      let at0 = At-next b0 (frames (b1 ∷ b2 ∷ b3 ∷ b4 ∷ [])) start in
      let at1 = At-next b1 (frames (b2 ∷ b3 ∷ b4 ∷ [])) at0 in
      let at2 = At-next b2 (frames (b3 ∷ b4 ∷ [])) at1 in
      let at3 = At-next b3 (frames (b4 ∷ [])) at2 in
      let at4 = At-next b4 (frames []) at3 in
      record {
        sent =
            bind-append_element c0 _ _ k0
            ∙ bind-append_element c1 _ _ k1
            ∙ bind-append_element c2 _ _ k2
            ∙ bind-append_element c3 _ _ k3
            ∙ bind-append_element c4 _ _ k4
            ∙ ap (λ (b : Bytes). (ok b, s5)) (simp (append_assoc, append-nil));
        received =
            bind-read_element c0 p (frames (b1 ∷ b2 ∷ b3 ∷ b4 ∷ [])) _ supported fits start k0
            ∙ bind-read_element c1 p (frames (b2 ∷ b3 ∷ b4 ∷ [])) _ supported fits at0 k1
            ∙ bind-read_element c2 p (frames (b3 ∷ b4 ∷ [])) _ supported fits at1 k2
            ∙ bind-read_element c3 p (frames (b4 ∷ [])) _ supported fits at2 k3
            ∙ bind-read_element c4 p (frames []) _ supported fits at3 k4
            ∙ bind-require_buffer_size _ _ _ _ (At-end at4);
      }

module _ (p : Platform) {S A0 A1 A2 A3 A4 A5 : Type 0} (c0 : Transmaterializable S A0)
    (c1 : Transmaterializable S A1) (c2 : Transmaterializable S A2) (c3 : Transmaterializable S A3)
    (c4 : Transmaterializable S A4) (c5 : Transmaterializable S A5) where
  pub tuple_6 : Transmaterializable S (A0 × A1 × A2 × A3 × A4 × A5)
  tuple_6 = record {
    immaterialize = λ x. do
      buffer ← append_element c0 x.0 []
      buffer ← append_element c1 x.1 buffer
      buffer ← append_element c2 x.2 buffer
      buffer ← append_element c3 x.3 buffer
      buffer ← append_element c4 x.4 buffer
      buffer ← append_element c5 x.5 buffer
      pure buffer;
    rematerialize = λ buffer. do
      (elem0, offset) ← read_element c0 p buffer 0
      (elem1, offset) ← read_element c1 p buffer offset
      (elem2, offset) ← read_element c2 p buffer offset
      (elem3, offset) ← read_element c3 p buffer offset
      (elem4, offset) ← read_element c4 p buffer offset
      (elem5, offset) ← read_element c5 p buffer offset
      lift (require_buffer_size buffer offset)
      pure (elem0, elem1, elem2, elem3, elem4, elem5);
  }

  -- If the six elements cross in turn and the frames fit `usize`, the tuple of six crosses.
  pub tuple_6-Crosses :
      {b0 b1 b2 b3 b4 b5 : Bytes} {x0 y0 : A0} {x1 y1 : A1} {x2 y2 : A2} {x3 y3 : A3} {x4 y4 : A4}
      {x5 y5 : A5} {s0 s1 s2 s3 s4 s5 s6 : S} {r0 r1 r2 r3 r4 r5 r6 : S}
      → Crosses c0 x0 y0 b0 s0 s1 r0 r1
      → Crosses c1 x1 y1 b1 s1 s2 r1 r2
      → Crosses c2 x2 y2 b2 s2 s3 r2 r3
      → Crosses c3 x3 y3 b3 s3 s4 r3 r4
      → Crosses c4 x4 y4 b4 s4 s5 r4 r5
      → Crosses c5 x5 y5 b5 s5 s6 r5 r6
      → IsSupported p
      → length (frames (b0 ∷ b1 ∷ b2 ∷ b3 ∷ b4 ∷ b5 ∷ [])) < usize_limit p
      → Crosses tuple_6
          (x0, x1, x2, x3, x4, x5)
          (y0, y1, y2, y3, y4, y5)
          (frames (b0 ∷ b1 ∷ b2 ∷ b3 ∷ b4 ∷ b5 ∷ []))
          s0
          s6
          r0
          r6
  unfolding tuple_6
  tuple_6-Crosses {b0 = b0} {b1 = b1} {b2 = b2} {b3 = b3} {b4 = b4} {b5 = b5} {s6 = s6} {r6 = r6} k0
        k1 k2 k3 k4 k5 supported fits =
      let start : At _ 0 (frames (b0 ∷ b1 ∷ b2 ∷ b3 ∷ b4 ∷ b5 ∷ [])) = ([], refl, refl) in
      let at0 = At-next b0 (frames (b1 ∷ b2 ∷ b3 ∷ b4 ∷ b5 ∷ [])) start in
      let at1 = At-next b1 (frames (b2 ∷ b3 ∷ b4 ∷ b5 ∷ [])) at0 in
      let at2 = At-next b2 (frames (b3 ∷ b4 ∷ b5 ∷ [])) at1 in
      let at3 = At-next b3 (frames (b4 ∷ b5 ∷ [])) at2 in
      let at4 = At-next b4 (frames (b5 ∷ [])) at3 in
      let at5 = At-next b5 (frames []) at4 in
      record {
        sent =
            bind-append_element c0 _ _ k0
            ∙ bind-append_element c1 _ _ k1
            ∙ bind-append_element c2 _ _ k2
            ∙ bind-append_element c3 _ _ k3
            ∙ bind-append_element c4 _ _ k4
            ∙ bind-append_element c5 _ _ k5
            ∙ ap (λ (b : Bytes). (ok b, s6)) (simp (append_assoc, append-nil));
        received =
            bind-read_element c0 p (frames (b1 ∷ b2 ∷ b3 ∷ b4 ∷ b5 ∷ [])) _ supported fits start k0
            ∙ bind-read_element c1 p (frames (b2 ∷ b3 ∷ b4 ∷ b5 ∷ [])) _ supported fits at0 k1
            ∙ bind-read_element c2 p (frames (b3 ∷ b4 ∷ b5 ∷ [])) _ supported fits at1 k2
            ∙ bind-read_element c3 p (frames (b4 ∷ b5 ∷ [])) _ supported fits at2 k3
            ∙ bind-read_element c4 p (frames (b5 ∷ [])) _ supported fits at3 k4
            ∙ bind-read_element c5 p (frames []) _ supported fits at4 k5
            ∙ bind-require_buffer_size _ _ _ _ (At-end at5);
      }
