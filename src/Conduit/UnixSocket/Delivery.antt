-- ===== src/Conduit/UnixSocket/Delivery.antt =====
-- A whole connection over a unix socket: the messages that one portal sends and what the other gets.
use ractor_wormhole.Prelude.{
  ℕ, ◌<◌, ◌≡◌, refl, sym, ap, ◌∙◌, Bool, true, List, [], ◌∷◌, ◌++◌, append_assoc, append-nil,
  length, All,
}
use ractor_wormhole.Outcome.{ok, Error, Bytes}
use ractor_wormhole.Outcome.Action.{bind-eq}
use ractor_wormhole.Platform.{Platform, IsSupported}
use ractor_wormhole.Conduit.Message.{ConduitMessage}
use ractor_wormhole.Conduit.Frame.{
  FrameFits, frame, frames, delivered, Orderly-any, receive_loop-frames,
}
use ractor_wormhole.Conduit.ReceiveLoop.{receive_loop}
use ractor_wormhole.Conduit.UnixSocket.{Writer, create_sink, create_source}
use ractor_wormhole.Conduit.UnixSocket.RoundTrip.{
  Accepts, after_frame, create_sink-ok, sent-after_frame, send_all, create_source-Decodes,
}

module _ {W : Type 0} (io : Writer W) (sent : W → Bytes) (h : Accepts io sent) where
  abbrev after_frames : List ConduitMessage → W → W
  after_frames [] w = w
  after_frames (msg ∷ ms) w = after_frames ms (after_frame io sent h msg w)

  send_all-ok :
      (p : Platform) (ms : List ConduitMessage) (w : W)
      → All (FrameFits p) ms
      → send_all io ms w ≡ (ok tt, after_frames ms w)
  unfolding send_all
  send_all-ok p [] w fits = refl
  send_all-ok p (msg ∷ ms) w fits =
      bind-eq (create_sink io msg) (λ _. send_all io ms) (create_sink-ok io sent h p msg w fits.0)
      ∙ send_all-ok p ms (after_frame io sent h msg w) fits.1

  sent-after_frames :
      (ms : List ConduitMessage) (w : W) → sent (after_frames ms w) ≡ sent w ++ frames ms
  sent-after_frames [] w = sym (append-nil (sent w))
  sent-after_frames (msg ∷ ms) w =
      sent-after_frames ms (after_frame io sent h msg w)
      ∙ ap (λ s. s ++ frames ms) (sent-after_frame io sent h msg w)
      ∙ append_assoc (sent w) (frame msg) (frames ms)

  -- Messages that a portal sends over a unix socket which takes all it is given, each fitting the
  -- `u32` of its length and the receiver's memory and each handshake being UTF-8, are written
  -- without an error, and the receive loop at the other end, run with as much fuel as one more
  -- than their number, gives a living portal each of them in their order up to a `Close`, and then
  -- `Close` once.
  pub send_all-receive_loop :
      (p : Platform) (ended : Error) (alive : ℕ → Bool) (ms : List ConduitMessage) (w : W)
      (fuel n : ℕ)
      → IsSupported p
      → ((m : ℕ) → alive m ≡ true)
      → All (FrameFits p) ms
      → sent w ≡ []
      → length ms < fuel
      → ((send_all io ms w).0 ≡ ok tt)
        × (receive_loop (create_source p ended) alive fuel n (sent (send_all io ms w).1)
            ≡ ok (delivered ms))
  send_all-receive_loop p ended alive ms w fuel n supported up fits fresh enough = (
    ap (λ r. r.0) (send_all-ok p ms w fits),
    ap (λ r. receive_loop (create_source p ended) alive fuel n (sent r.1)) (send_all-ok p ms w fits)
        ∙ ap (receive_loop (create_source p ended) alive fuel n)
            (sent-after_frames ms w ∙ ap (λ s. s ++ frames ms) fresh)
        ∙ receive_loop-frames (create_source p ended) p _ (create_source-Decodes p ended supported)
            alive up ms fuel n fits (Orderly-any ms) enough,
  )
