-- ===== src/Conduit/Ssh/Closing.antt =====
-- What the source of conduit/ssh/client.rs makes of a `Close` that its own sink has written.
use ractor_wormhole.Prelude.{◌≡◌, refl, ap, ◌∙◌, Option, some, [], ◌∷◌, ◌++◌, length}
use ractor_wormhole.Outcome.{ok, err, Error, send_failed, Bytes}
use ractor_wormhole.Outcome.Action.{lift, bind-eq}
use ractor_wormhole.Platform.{Platform, IsSupported}
use ractor_wormhole.Transmaterialization.Utf8.{from_utf8}
use ractor_wormhole.Conduit.Message.{close}
use ractor_wormhole.Conduit.Bytestream.{to_be_bytes}
use ractor_wormhole.Conduit.Frame.{Fits}
use ractor_wormhole.Conduit.UnixSocket.{Writer}
use ractor_wormhole.Conduit.UnixSocket.RoundTrip.{Accepts}
use ractor_wormhole.Conduit.Ssh.{create_sink, create_source, forgive, reason_of, decode_message}
use ractor_wormhole.Conduit.Ssh.Delivery.{create_source-close, read_body-sized}

module _ {W : Type 0} (io : Writer W) (sent : W → Bytes) (h : Accepts io sent) where
  create_sink-close :
      (reason : Option Bytes) (w : W)
      → create_sink io (close reason) w ≡ (err send_failed, h.flushed (h.accepted (2 ∷ []) w))
  unfolding create_sink
  create_sink-close reason w =
      bind-eq (λ v. forgive (io.write (2 ∷ []) v)) _ {s = w} (ap forgive (h.write-ok (2 ∷ []) w))
      ∙ bind-eq (λ v. forgive (io.flush v)) (λ _. lift (err send_failed))
          {s = h.accepted (2 ∷ []) w} (ap forgive (h.flush-ok (h.accepted (2 ∷ []) w)))

  sent-close :
      (reason : Option Bytes) (w : W)
      → sent w ≡ []
      → sent (create_sink io (close reason) w).1 ≡ 2 ∷ []
  sent-close reason w fresh =
      ap (λ r. sent r.1) (create_sink-close reason w)
      ∙ h.sent-flushed _
      ∙ h.sent-accepted (2 ∷ []) w
      ∙ ap (λ bytes. bytes ++ 2 ∷ []) fresh

  -- A `Close` that the ssh sink writes first to a stream that takes all it is given is misread by
  -- the ssh source, whatever its reason, on a supported platform: at the end of the stream it is
  -- an error, and before a length and as many bytes, fewer than 2^32 and within the receiver's
  -- memory, which may belong to what is sent next, it is a `Close` that takes these bytes for its
  -- reason.
  pub create_source-close_misread :
      (p : Platform) (ended : Error) (reason : Option Bytes) (w : W) (text rest : Bytes)
      → IsSupported p
      → sent w ≡ []
      → Fits p text
      → (create_source p ended (sent (create_sink io (close reason) w).1) ≡ some (err ended, []))
        × (create_source p ended (
              sent (create_sink io (close reason) w).1
              ++ ((to_be_bytes (length text) ++ text) ++ rest))
            ≡ some (ok (close (reason_of (from_utf8 text))), rest))
  create_source-close_misread p ended reason w text rest supported fresh fits = (
    ap (create_source p ended) (sent-close reason w fresh) ∙ create_source-close p ended reason,
    ap (λ bytes. create_source p ended (bytes ++ ((to_be_bytes (length text) ++ text) ++ rest)))
          (sent-close reason w fresh)
        ∙ unfold create_source in
          ap some (read_body-sized p ended supported 2 text rest fits)
          ∙ unfold decode_message in refl,
  )
