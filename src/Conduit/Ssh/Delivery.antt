-- ===== src/Conduit/Ssh/Delivery.antt =====
-- What the ssh conduit makes of frames. Its source wants a length after every type, and no sink writes
-- one after the type of a `Close`.
use ractor_wormhole.Prelude.{
  ℕ, ◌<◌, ◌≡◌, refl, sym, ap, ◌∙◌, Bool, true, false, none, some, if◌then◌else◌, List, [], ◌∷◌,
  ◌++◌, length, All, Option,
}
use ractor_wormhole.Outcome.{ok, err, Error, Bytes}
use ractor_wormhole.Outcome.Action.{bind-eq, ◌>>=◌}
use ractor_wormhole.Platform.{Platform, IsSupported}
use ractor_wormhole.Transmaterialization.Utf8.{from_utf8}
use ractor_wormhole.Conduit.Message.{ConduitMessage, close}
use ractor_wormhole.Conduit.ReceiveLoop.{turn, break, receive_loop}
use ractor_wormhole.Conduit.Bytestream.{to_be_bytes, read_u32, read_data}
use ractor_wormhole.Conduit.Frame.{
  Fits, FrameFits, frame, frames, delivered, Orderly, Orderly-any, Decodes, receive_loop-frames,
}
use ractor_wormhole.Conduit.UnixSocket
use ractor_wormhole.Conduit.UnixSocket.RoundTrip.{read_sized, create_source-Decodes}
use ractor_wormhole.Conduit.Ssh.{create_source, read_body, decode_message, is_unexpected_eof}

module _ (p : Platform) (ended : Error) where
  -- The one byte that the sinks write for a `Close`, at the end of a stream, is read by the ssh
  -- source as an error, since it wants a length after every type.
  pub create_source-close :
      (reason : Option Bytes) → create_source p ended (frame (close reason)) ≡ some (err ended, [])
  unfolding create_source read_body read_data read_u32 ◌>>=◌
  create_source-close reason = refl

  create_source-end : turn (create_source p ended []) ≡ break
  unfolding create_source turn
  create_source-end = quiet (is_unexpected_eof ended)
    where
      quiet : (b : Bool) → turn {R = Bytes} (if b then none else some (err ended, [])) ≡ break
      quiet true = refl
      quiet false = refl

  module _ (supported : IsSupported p) where
    pub read_body-sized :
        (t : ℕ) (bytes rest : Bytes)
        → Fits p bytes
        → read_body p ended t ((to_be_bytes (length bytes) ++ bytes) ++ rest)
          ≡ (decode_message p ended t bytes, rest)
    unfolding read_body
    read_body-sized t bytes rest fits =
        bind-eq (read_data ended p) _ (read_sized p ended supported bytes rest fits)

    ssh-Decodes : Decodes (create_source p ended) p (λ ms. ms ≡ [])
    unfolding create_source decode_message from_utf8 turn
    ssh-Decodes = record {
      decodes_handshake =
          λ text rest fits. ap some (read_body-sized 0 text rest fits.0) ∙ rw fits.1 refl;
      decodes_content = λ bytes rest fits. ap some (read_body-sized 1 bytes rest fits);
      breaks_at_close = λ ms e.
          ap (λ ns. turn (create_source p ended (2 ∷ frames ns))) e
          ∙ ap turn (create_source-close none);
      breaks_at_end = create_source-end;
    }

    -- If the messages fit as for the unix socket and nothing follows a `Close`, the receive loop
    -- over the ssh source gives a living portal the same from their frames as the loop over the
    -- unix socket's source: each message in its order, and then `Close` once.
    pub receive_loop-agrees :
        (alive : ℕ → Bool) (ms : List ConduitMessage) (fuel n : ℕ)
        → ((m : ℕ) → alive m ≡ true)
        → All (FrameFits p) ms
        → Orderly (λ rest. rest ≡ []) ms
        → length ms < fuel
        → (receive_loop (create_source p ended) alive fuel n (frames ms)
            ≡ receive_loop (UnixSocket.create_source p ended) alive fuel n (frames ms))
          × (receive_loop (create_source p ended) alive fuel n (frames ms) ≡ ok (delivered ms))
    receive_loop-agrees alive ms fuel n up fits orderly enough = (
      over_ssh
          ∙ sym (
              receive_loop-frames (UnixSocket.create_source p ended) p _
                (create_source-Decodes p ended supported) alive up ms fuel n fits (Orderly-any ms)
                enough),
      over_ssh,
    )
      where
        over_ssh : receive_loop (create_source p ended) alive fuel n (frames ms) ≡ ok (delivered ms)
        over_ssh =
            receive_loop-frames (create_source p ended) p (λ rest. rest ≡ []) ssh-Decodes alive up
              ms fuel n fits orderly enough
