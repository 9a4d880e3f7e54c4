-- ===== src/Transmaterialization/Tuples/To8.antt =====
-- ractor_wormhole/src/transmaterialization/default_impl_tupl.rs: tuples of 7 and 8 elements.
-- Each element stands behind its length.
use ractor_wormhole.Prelude.{◌<◌, refl, ap, ◌∙◌, [], ◌∷◌, append_assoc, append-nil, length}
use ractor_wormhole.Outcome.{ok, Bytes}
use ractor_wormhole.Outcome.Action.{pure, lift, ◌>>=◌, ◌>>◌}
use ractor_wormhole.Platform.{Platform, IsSupported, usize_limit}
use ractor_wormhole.Transmaterialization.Util.{require_buffer_size}
use ractor_wormhole.Transmaterialization.Prefixed.{At, At-next, At-end}
use ractor_wormhole.Transmaterialization.Codec.{
  Transmaterializable, Crosses, frames, append_element, read_element, bind-append_element,
  bind-read_element, bind-require_buffer_size,
}

module _ (p : Platform) {S A0 A1 A2 A3 A4 A5 A6 : Type 0} (c0 : Transmaterializable S A0)
    (c1 : Transmaterializable S A1) (c2 : Transmaterializable S A2) (c3 : Transmaterializable S A3)
    (c4 : Transmaterializable S A4) (c5 : Transmaterializable S A5)
    (c6 : Transmaterializable S A6) where
  pub tuple_7 : Transmaterializable S (A0 × A1 × A2 × A3 × A4 × A5 × A6)
  tuple_7 = record {
    immaterialize = λ x. do
      buffer ← append_element c0 x.0 []
      buffer ← append_element c1 x.1 buffer
      buffer ← append_element c2 x.2 buffer
      buffer ← append_element c3 x.3 buffer
      buffer ← append_element c4 x.4 buffer
      buffer ← append_element c5 x.5 buffer
      buffer ← append_element c6 x.6 buffer
      pure buffer;
    rematerialize = λ buffer. do
      (elem0, offset) ← read_element c0 p buffer 0
      (elem1, offset) ← read_element c1 p buffer offset
      (elem2, offset) ← read_element c2 p buffer offset
      (elem3, offset) ← read_element c3 p buffer offset
      (elem4, offset) ← read_element c4 p buffer offset
      (elem5, offset) ← read_element c5 p buffer offset
      (elem6, offset) ← read_element c6 p buffer offset
      lift (require_buffer_size buffer offset)
      pure (elem0, elem1, elem2, elem3, elem4, elem5, elem6);
  }

  -- If the seven elements cross in turn and the frames fit `usize`, the tuple of seven crosses.
  pub tuple_7-Crosses :
      {b0 b1 b2 b3 b4 b5 b6 : Bytes} {x0 y0 : A0} {x1 y1 : A1} {x2 y2 : A2} {x3 y3 : A3}
      {x4 y4 : A4} {x5 y5 : A5} {x6 y6 : A6} {s0 s1 s2 s3 s4 s5 s6 s7 : S}
      {r0 r1 r2 r3 r4 r5 r6 r7 : S}
      → Crosses c0 x0 y0 b0 s0 s1 r0 r1
      → Crosses c1 x1 y1 b1 s1 s2 r1 r2
      → Crosses c2 x2 y2 b2 s2 s3 r2 r3
      → Crosses c3 x3 y3 b3 s3 s4 r3 r4
      → Crosses c4 x4 y4 b4 s4 s5 r4 r5
      → Crosses c5 x5 y5 b5 s5 s6 r5 r6
      → Crosses c6 x6 y6 b6 s6 s7 r6 r7
      → IsSupported p
      → length (frames (b0 ∷ b1 ∷ b2 ∷ b3 ∷ b4 ∷ b5 ∷ b6 ∷ [])) < usize_limit p
      → Crosses tuple_7
          (x0, x1, x2, x3, x4, x5, x6)
          (y0, y1, y2, y3, y4, y5, y6)
          (frames (b0 ∷ b1 ∷ b2 ∷ b3 ∷ b4 ∷ b5 ∷ b6 ∷ []))
          s0
          s7
          r0
          r7
  unfolding tuple_7
  tuple_7-Crosses {b0 = b0} {b1 = b1} {b2 = b2} {b3 = b3} {b4 = b4} {b5 = b5} {b6 = b6} {s7 = s7}
        {r7 = r7} k0 k1 k2 k3 k4 k5 k6 supported fits =
      let start : At _ 0 (frames (b0 ∷ b1 ∷ b2 ∷ b3 ∷ b4 ∷ b5 ∷ b6 ∷ [])) = ([], refl, refl) in
      let at0 = At-next b0 (frames (b1 ∷ b2 ∷ b3 ∷ b4 ∷ b5 ∷ b6 ∷ [])) start in
      let at1 = At-next b1 (frames (b2 ∷ b3 ∷ b4 ∷ b5 ∷ b6 ∷ [])) at0 in
      let at2 = At-next b2 (frames (b3 ∷ b4 ∷ b5 ∷ b6 ∷ [])) at1 in
      let at3 = At-next b3 (frames (b4 ∷ b5 ∷ b6 ∷ [])) at2 in
      let at4 = At-next b4 (frames (b5 ∷ b6 ∷ [])) at3 in
      let at5 = At-next b5 (frames (b6 ∷ [])) at4 in
      let at6 = At-next b6 (frames []) at5 in
      record {
        sent =
            bind-append_element c0 _ _ k0
            ∙ bind-append_element c1 _ _ k1
            ∙ bind-append_element c2 _ _ k2
            ∙ bind-append_element c3 _ _ k3
            ∙ bind-append_element c4 _ _ k4
            ∙ bind-append_element c5 _ _ k5
            ∙ bind-append_element c6 _ _ k6
            ∙ ap (λ (b : Bytes). (ok b, s7)) (simp (append_assoc, append-nil));
        received =
            bind-read_element c0 p (frames (b1 ∷ b2 ∷ b3 ∷ b4 ∷ b5 ∷ b6 ∷ [])) _ supported fits
              start k0
            ∙ bind-read_element c1 p (frames (b2 ∷ b3 ∷ b4 ∷ b5 ∷ b6 ∷ [])) _ supported fits at0 k1
            ∙ bind-read_element c2 p (frames (b3 ∷ b4 ∷ b5 ∷ b6 ∷ [])) _ supported fits at1 k2
            ∙ bind-read_element c3 p (frames (b4 ∷ b5 ∷ b6 ∷ [])) _ supported fits at2 k3
            ∙ bind-read_element c4 p (frames (b5 ∷ b6 ∷ [])) _ supported fits at3 k4
            ∙ bind-read_element c5 p (frames (b6 ∷ [])) _ supported fits at4 k5
            ∙ bind-read_element c6 p (frames []) _ supported fits at5 k6
            ∙ bind-require_buffer_size _ _ _ _ (At-end at6);
      }

module _ (p : Platform) {S A0 A1 A2 A3 A4 A5 A6 A7 : Type 0} (c0 : Transmaterializable S A0)
    (c1 : Transmaterializable S A1) (c2 : Transmaterializable S A2) (c3 : Transmaterializable S A3)
    (c4 : Transmaterializable S A4) (c5 : Transmaterializable S A5) (c6 : Transmaterializable S A6)
    (c7 : Transmaterializable S A7) where
  pub tuple_8 : Transmaterializable S (A0 × A1 × A2 × A3 × A4 × A5 × A6 × A7)
  tuple_8 = record {
    immaterialize = λ x. do
      buffer ← append_element c0 x.0 []
      buffer ← append_element c1 x.1 buffer
      buffer ← append_element c2 x.2 buffer
      buffer ← append_element c3 x.3 buffer
      buffer ← append_element c4 x.4 buffer
      buffer ← append_element c5 x.5 buffer
      buffer ← append_element c6 x.6 buffer
      buffer ← append_element c7 x.7 buffer
      pure buffer;
    rematerialize = λ buffer. do
      (elem0, offset) ← read_element c0 p buffer 0
      (elem1, offset) ← read_element c1 p buffer offset
      (elem2, offset) ← read_element c2 p buffer offset
      (elem3, offset) ← read_element c3 p buffer offset
      (elem4, offset) ← read_element c4 p buffer offset
      (elem5, offset) ← read_element c5 p buffer offset
      (elem6, offset) ← read_element c6 p buffer offset
      (elem7, offset) ← read_element c7 p buffer offset
      lift (require_buffer_size buffer offset)
      pure (elem0, elem1, elem2, elem3, elem4, elem5, elem6, elem7);
  }

  -- If the eight elements cross in turn and the frames fit `usize`, the tuple of eight crosses.
  pub tuple_8-Crosses :
      {b0 b1 b2 b3 b4 b5 b6 b7 : Bytes} {x0 y0 : A0} {x1 y1 : A1} {x2 y2 : A2} {x3 y3 : A3}
      {x4 y4 : A4} {x5 y5 : A5} {x6 y6 : A6} {x7 y7 : A7} {s0 s1 s2 s3 s4 s5 s6 s7 s8 : S}
      {r0 r1 r2 r3 r4 r5 r6 r7 r8 : S}
      → Crosses c0 x0 y0 b0 s0 s1 r0 r1
      → Crosses c1 x1 y1 b1 s1 s2 r1 r2
      → Crosses c2 x2 y2 b2 s2 s3 r2 r3
      → Crosses c3 x3 y3 b3 s3 s4 r3 r4
      → Crosses c4 x4 y4 b4 s4 s5 r4 r5
      → Crosses c5 x5 y5 b5 s5 s6 r5 r6
      → Crosses c6 x6 y6 b6 s6 s7 r6 r7
      → Crosses c7 x7 y7 b7 s7 s8 r7 r8
      → IsSupported p
      → length (frames (b0 ∷ b1 ∷ b2 ∷ b3 ∷ b4 ∷ b5 ∷ b6 ∷ b7 ∷ [])) < usize_limit p
      → Crosses tuple_8
          (x0, x1, x2, x3, x4, x5, x6, x7)
          (y0, y1, y2, y3, y4, y5, y6, y7)
          (frames (b0 ∷ b1 ∷ b2 ∷ b3 ∷ b4 ∷ b5 ∷ b6 ∷ b7 ∷ []))
          s0
          s8
          r0
          r8
  unfolding tuple_8
  tuple_8-Crosses {b0 = b0} {b1 = b1} {b2 = b2} {b3 = b3} {b4 = b4} {b5 = b5} {b6 = b6} {b7 = b7}
        {s8 = s8} {r8 = r8} k0 k1 k2 k3 k4 k5 k6 k7 supported fits =
      let start : At _ 0 (frames (b0 ∷ b1 ∷ b2 ∷ b3 ∷ b4 ∷ b5 ∷ b6 ∷ b7 ∷ [])) = ([], refl, refl) in
      let at0 = At-next b0 (frames (b1 ∷ b2 ∷ b3 ∷ b4 ∷ b5 ∷ b6 ∷ b7 ∷ [])) start in
      let at1 = At-next b1 (frames (b2 ∷ b3 ∷ b4 ∷ b5 ∷ b6 ∷ b7 ∷ [])) at0 in
      let at2 = At-next b2 (frames (b3 ∷ b4 ∷ b5 ∷ b6 ∷ b7 ∷ [])) at1 in
      let at3 = At-next b3 (frames (b4 ∷ b5 ∷ b6 ∷ b7 ∷ [])) at2 in
      let at4 = At-next b4 (frames (b5 ∷ b6 ∷ b7 ∷ [])) at3 in
      let at5 = At-next b5 (frames (b6 ∷ b7 ∷ [])) at4 in
      let at6 = At-next b6 (frames (b7 ∷ [])) at5 in
      let at7 = At-next b7 (frames []) at6 in
      record {
        sent =
            bind-append_element c0 _ _ k0
            ∙ bind-append_element c1 _ _ k1
            ∙ bind-append_element c2 _ _ k2
            ∙ bind-append_element c3 _ _ k3
            ∙ bind-append_element c4 _ _ k4
            ∙ bind-append_element c5 _ _ k5
            ∙ bind-append_element c6 _ _ k6
            ∙ bind-append_element c7 _ _ k7
            ∙ ap (λ (b : Bytes). (ok b, s8)) (simp (append_assoc, append-nil));
        received =
            bind-read_element c0 p (frames (b1 ∷ b2 ∷ b3 ∷ b4 ∷ b5 ∷ b6 ∷ b7 ∷ [])) _ supported fits
              start k0
            ∙ bind-read_element c1 p (frames (b2 ∷ b3 ∷ b4 ∷ b5 ∷ b6 ∷ b7 ∷ [])) _ supported fits
                at0 k1
            ∙ bind-read_element c2 p (frames (b3 ∷ b4 ∷ b5 ∷ b6 ∷ b7 ∷ [])) _ supported fits at1 k2
            ∙ bind-read_element c3 p (frames (b4 ∷ b5 ∷ b6 ∷ b7 ∷ [])) _ supported fits at2 k3
            ∙ bind-read_element c4 p (frames (b5 ∷ b6 ∷ b7 ∷ [])) _ supported fits at3 k4
            ∙ bind-read_element c5 p (frames (b6 ∷ b7 ∷ [])) _ supported fits at4 k5
            ∙ bind-read_element c6 p (frames (b7 ∷ [])) _ supported fits at5 k6
            ∙ bind-read_element c7 p (frames []) _ supported fits at6 k7
            ∙ bind-require_buffer_size _ _ _ _ (At-end at7);
      }
