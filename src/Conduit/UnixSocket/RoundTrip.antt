-- ===== src/Conduit/UnixSocket/RoundTrip.antt =====
-- What a unix socket's sink writes, the source at the other end reads.
use ractor_wormhole.Prelude.{
  ℕ, ◌<◌, ◌%◌, ◌^◌, ◌≡◌, refl, ap, ◌∙◌, true, none, some, List, [], ◌∷◌, ◌++◌, append_assoc, length,
  arith,
}
use native.Mathlib.Nat.{mod-eq_of_lt}
use ractor_wormhole.Outcome.{ok, err, Error, Bytes}
use ractor_wormhole.Outcome.Action.{Action, bind-eq, bind-lift, pure, lift}
use ractor_wormhole.Outcome.Action
use ractor_wormhole.Platform.{Platform, IsSupported, isize_limit-double}
use ractor_wormhole.Transmaterialization.Utf8.{is_utf8, from_utf8}
use ractor_wormhole.Conduit.Message.{ConduitMessage, handshake, content, close}
use ractor_wormhole.Conduit.ReceiveLoop.{turn}
use ractor_wormhole.Conduit.Frame.{sized, frame, Fits, FrameFits, frames, Decodes}
use ractor_wormhole.Conduit.Bytestream.{to_be_bytes, read_u8, read_data, read_data-lem}
use ractor_wormhole.Conduit.UnixSocket.{
  Writer, write_sized, create_sink, read_message, read_element, create_source,
}

-- A writer that takes what it is given; `sent` is what the other end gets.
pub record Accepts {W : Type 0} (io : Writer W) (sent : W → Bytes) : Type 0 where
  pub accepted : Bytes → W → W
  pub flushed : W → W
  pub write-ok : (bytes : Bytes) (w : W) → io.write bytes w ≡ (ok tt, accepted bytes w)
  pub flush-ok : (w : W) → io.flush w ≡ (ok tt, flushed w)
  pub sent-accepted : (bytes : Bytes) (w : W) → sent (accepted bytes w) ≡ sent w ++ bytes
  pub sent-flushed : (w : W) → sent (flushed w) ≡ sent w

module _ {W : Type 0} (io : Writer W) (sent : W → Bytes) (h : Accepts io sent) where
  abbrev after_sized : ℕ → Bytes → W → W
  after_sized t bytes w =
      h.flushed (h.accepted bytes (h.accepted (to_be_bytes (length bytes)) (h.accepted (t ∷ []) w)))

  -- The writer after a message.
  abbrev pub after_frame : ConduitMessage → W → W
  after_frame (handshake text) w = after_sized 0 text w
  after_frame (content bytes) w = after_sized 1 bytes w
  after_frame (close reason) w = h.flushed (h.accepted (2 ∷ []) w)

  write_sized-ok :
      (t : ℕ) (bytes : Bytes) (w : W)
      → length bytes < 2 ^ 32
      → write_sized io t bytes w ≡ (ok tt, after_sized t bytes w)
  unfolding write_sized
  write_sized-ok t bytes w small =
      bind-eq (io.write (t ∷ [])) _ (h.write-ok (t ∷ []) w)
      ∙ bind-eq (io.write (to_be_bytes (length bytes % 2 ^ 32))) _ (
          ap (λ (n : ℕ). io.write (to_be_bytes n) (h.accepted (t ∷ []) w)) (mod-eq_of_lt small)
          ∙ h.write-ok (to_be_bytes (length bytes)) (h.accepted (t ∷ []) w))
      ∙ bind-eq (io.write bytes) _ (h.write-ok bytes _)
      ∙ h.flush-ok _

  sent-after_sized :
      (t : ℕ) (bytes : Bytes) (w : W) → sent (after_sized t bytes w) ≡ sent w ++ sized t bytes
  sent-after_sized t bytes w =
      h.sent-flushed _
      ∙ h.sent-accepted bytes _
      ∙ ap (λ s. s ++ bytes)
          (h.sent-accepted (to_be_bytes (length bytes)) _
            ∙ ap (λ s. s ++ to_be_bytes (length bytes)) (h.sent-accepted (t ∷ []) w))
      ∙ append_assoc (sent w ++ t ∷ []) (to_be_bytes (length bytes)) bytes
      ∙ append_assoc (sent w) (t ∷ []) (to_be_bytes (length bytes) ++ bytes)

  pub create_sink-ok :
      (p : Platform) (msg : ConduitMessage) (w : W)
      → FrameFits p msg
      → create_sink io msg w ≡ (ok tt, after_frame msg w)
  unfolding create_sink
  create_sink-ok p (handshake text) w fits = write_sized-ok 0 text w fits.0.0
  create_sink-ok p (content bytes) w fits = write_sized-ok 1 bytes w fits.0
  create_sink-ok p (close reason) w fits =
      bind-eq (io.write (2 ∷ [])) _ (h.write-ok (2 ∷ []) w) ∙ h.flush-ok _

  pub sent-after_frame :
      (msg : ConduitMessage) (w : W) → sent (after_frame msg w) ≡ sent w ++ frame msg
  sent-after_frame (handshake text) w = sent-after_sized 0 text w
  sent-after_frame (content bytes) w = sent-after_sized 1 bytes w
  sent-after_frame (close reason) w = h.sent-flushed _ ∙ h.sent-accepted (2 ∷ []) w

-- A portal that sends several messages, one after the other.
unfoldable pub send_all : {W : Type 0} → Writer W → List ConduitMessage → Action W (Unit {0})
send_all io [] = pure tt
send_all io (msg ∷ ms) = Action.◌>>◌ (create_sink io msg) (send_all io ms)

abbrev received : ConduitMessage → ConduitMessage
received (handshake text) = handshake text
received (content bytes) = content bytes
received (close reason) = close none

module _ (p : Platform) (ended : Error) (supported : IsSupported p) where
  pub read_sized :
      (bytes rest : Bytes)
      → Fits p bytes
      → read_data ended p ((to_be_bytes (length bytes) ++ bytes) ++ rest) ≡ (ok bytes, rest)
  read_sized bytes rest fits =
      ap (read_data ended p) (append_assoc (to_be_bytes (length bytes)) bytes rest)
      ∙ read_data-lem ended p bytes rest (omega (arith, fits.0)) fits.1
          (omega (arith, fits.1, isize_limit-double p supported))

  from_utf8-ok : (text : Bytes) → is_utf8 text ≡ true → from_utf8 text ≡ ok text
  unfolding from_utf8
  from_utf8-ok text valid = rw valid refl

  abbrev handshake_of : Bytes → Action Bytes ConduitMessage
  handshake_of text = pure (handshake text)

  abbrev content_of : Bytes → Action Bytes ConduitMessage
  content_of bytes = pure (content bytes)

  read_element-cons :
      (t : ℕ) (bytes : Bytes) → read_element p ended (t ∷ bytes) ≡ read_message p ended t bytes
  unfolding read_element read_u8
  read_element-cons t bytes = bind-eq (read_u8 ended) (read_message p ended) {s = t ∷ bytes} refl

  -- The source gives back the message and what follows it; a `Close` loses its reason.
  pub create_source-frame :
      (msg : ConduitMessage) (rest : Bytes)
      → FrameFits p msg
      → create_source p ended (frame msg ++ rest) ≡ some (ok (received msg), rest)
  unfolding create_source read_message
  create_source-frame (handshake text) rest fits = ap some (
      read_element-cons 0 ((to_be_bytes (length text) ++ text) ++ rest)
      ∙ bind-eq (read_data ended p) (λ bytes. Action.◌>>=◌ (lift (from_utf8 bytes)) handshake_of)
          (read_sized text rest fits.0)
      ∙ bind-lift (from_utf8 text) handshake_of rest (from_utf8-ok text fits.1))
  create_source-frame (content bytes) rest fits = ap some (
      read_element-cons 1 ((to_be_bytes (length bytes) ++ bytes) ++ rest)
      ∙ bind-eq (read_data ended p) content_of (read_sized bytes rest fits))
  create_source-frame (close reason) rest fits = ap some (read_element-cons 2 rest)

  create_source-end : create_source p ended [] ≡ some (err ended, [])
  unfolding create_source read_element read_u8
  create_source-end = ap some (bind-eq (read_u8 ended) (read_message p ended) {s = []} refl)

  -- What the loop needs to know of the source; after a `Close` anything may follow.
  pub create_source-Decodes : Decodes (create_source p ended) p (λ _. Unit {0})
  unfolding turn
  create_source-Decodes = record {
    decodes_handshake = λ text rest fits. create_source-frame (handshake text) rest fits;
    decodes_content = λ bytes rest fits. create_source-frame (content bytes) rest fits;
    breaks_at_close = λ ms t. ap turn (create_source-frame (close none) (frames ms) tt);
    breaks_at_end = ap turn create_source-end;
  }
