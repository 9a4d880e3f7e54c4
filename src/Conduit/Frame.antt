-- ===== src/Conduit/Frame.antt =====
-- The frames of the byte-stream conduits: what conduit/mod.rs says of the wire, "a type tag + length
-- prefix", and what a portal is to get from them.
use ractor_wormhole.Prelude.{
  ℕ, zero, suc, ◌<◌, ◌^◌, ◌≡◌, ap, ◌∙◌, Bool, true, some, List, [], ◌∷◌, ◌++◌, length, arith, All,
}
use ractor_wormhole.Outcome.{Outcome, ok, ◌>>=◌, Bytes}
use ractor_wormhole.Platform.{Platform, isize_limit}
use ractor_wormhole.Transmaterialization.Utf8.{is_utf8}
use ractor_wormhole.Portal.Types.{PortalActorMessage}
use ractor_wormhole.Portal.Types
use ractor_wormhole.Conduit.Message.{ConduitMessage, handshake, content, close}
use ractor_wormhole.Conduit.ReceiveLoop.{Source, turn, cast, break, on_turn, receive_loop}
use ractor_wormhole.Conduit.ReceiveLoop.Laws.{on_turn-alive, on_turn-break}
use ractor_wormhole.Conduit.Bytestream.{to_be_bytes}

-- The bytes of a message: its type, its length and its data.
abbrev pub sized : ℕ → Bytes → Bytes
sized message_type bytes = message_type ∷ (to_be_bytes (length bytes) ++ bytes)

abbrev pub frame : ConduitMessage → Bytes
frame (handshake text) = sized 0 text
frame (content bytes) = sized 1 bytes
frame (close reason) = 2 ∷ []

-- The lengths that a `u32` and the receiver's memory hold.
abbrev pub Fits : Platform → Bytes → Type 0
Fits p bytes = (length bytes < 2 ^ 32) × (length bytes < isize_limit p)

abbrev pub FrameFits : Platform → ConduitMessage → Type 0
FrameFits p (handshake text) = Fits p text × (is_utf8 text ≡ true)
FrameFits p (content bytes) = Fits p bytes
FrameFits p (close reason) = Unit {0}

abbrev pub frames : List ConduitMessage → Bytes
frames [] = []
frames (msg ∷ ms) = frame msg ++ frames ms

-- What the portal at the other end has to get: the messages in their order up to a `Close`, and then
-- that the conduit is closed.
abbrev pub delivered : List ConduitMessage → List PortalActorMessage
delivered [] = Types.close ∷ []
delivered (handshake text ∷ ms) = Types.handshake text ∷ delivered ms
delivered (content bytes ∷ ms) = Types.content bytes ∷ delivered ms
delivered (close reason ∷ ms) = Types.close ∷ []

-- Messages with nothing after a `Close` but what `Rest` allows.
abbrev pub Orderly : (List ConduitMessage → Type 0) → List ConduitMessage → Type 0
Orderly Rest [] = Unit {0}
Orderly Rest (handshake text ∷ ms) = Orderly Rest ms
Orderly Rest (content bytes ∷ ms) = Orderly Rest ms
Orderly Rest (close reason ∷ ms) = Rest ms

-- A source that takes frames apart.
pub record Decodes (next : Source Bytes) (p : Platform) (Rest : List ConduitMessage → Type 0)
    : Type 0 where
  pub decodes_handshake :
      (text rest : Bytes)
      → FrameFits p (handshake text)
      → next (frame (handshake text) ++ rest) ≡ some (ok (handshake text), rest)
  pub decodes_content :
      (bytes rest : Bytes)
      → FrameFits p (content bytes)
      → next (frame (content bytes) ++ rest) ≡ some (ok (content bytes), rest)
  pub breaks_at_close : (ms : List ConduitMessage) → Rest ms → turn (next (2 ∷ frames ms)) ≡ break
  pub breaks_at_end : turn (next []) ≡ break

module _ (next : Source Bytes) (p : Platform) (Rest : List ConduitMessage → Type 0) where
  module _ (h : Decodes next p Rest) (alive : ℕ → Bool) (up : (n : ℕ) → alive n ≡ true) where
    abbrev again : ℕ → ℕ → Bytes → Outcome (List PortalActorMessage)
    again fuel n = receive_loop next alive fuel n

    -- One turn of the loop, for what the source makes of the bytes.
    turn-casts :
        (fuel n : ℕ) (bytes rest : Bytes) (m : PortalActorMessage)
        → turn (next bytes) ≡ cast m rest
        → again (suc fuel) n bytes ≡ (again fuel (suc n) rest >>= (λ r. ok (m ∷ r)))
    unfolding receive_loop
    turn-casts fuel n bytes rest m e =
        ap (λ i. on_turn alive n i (again fuel (suc n))) e
        ∙ on_turn-alive next alive up n m rest (again fuel (suc n))

    turn-breaks :
        (fuel n : ℕ) (bytes : Bytes)
        → turn (next bytes) ≡ break
        → again (suc fuel) n bytes ≡ ok (Types.close ∷ [])
    unfolding receive_loop
    turn-breaks fuel n bytes e =
        ap (λ i. on_turn alive n i (again fuel (suc n))) e
        ∙ on_turn-break next alive up n (again fuel (suc n))

    -- The loop over frames gives the portal each message in its order, and `Close` once, last.
    pub receive_loop-frames :
        (ms : List ConduitMessage) (fuel n : ℕ)
        → All (FrameFits p) ms
        → Orderly Rest ms
        → length ms < fuel
        → again fuel n (frames ms) ≡ ok (delivered ms)
    unfolding turn
    receive_loop-frames ms zero n fits orderly enough = absurd (omega arith)
    receive_loop-frames [] (suc fuel) n fits orderly enough = turn-breaks fuel n [] h.breaks_at_end
    receive_loop-frames (handshake text ∷ ms) (suc fuel) n fits orderly enough =
        turn-casts fuel n _ (frames ms) (Types.handshake text)
          (ap turn (h.decodes_handshake text (frames ms) fits.0))
        ∙ ap (λ rest. rest >>= (λ r. ok (Types.handshake text ∷ r)))
            (receive_loop-frames ms fuel (suc n) fits.1 orderly (omega arith))
    receive_loop-frames (content bytes ∷ ms) (suc fuel) n fits orderly enough =
        turn-casts fuel n _ (frames ms) (Types.content bytes)
          (ap turn (h.decodes_content bytes (frames ms) fits.0))
        ∙ ap (λ rest. rest >>= (λ r. ok (Types.content bytes ∷ r)))
            (receive_loop-frames ms fuel (suc n) fits.1 orderly (omega arith))
    receive_loop-frames (close reason ∷ ms) (suc fuel) n fits orderly enough =
        turn-breaks fuel n _ (h.breaks_at_close ms orderly)

-- Where anything may follow a `Close`.
pub Orderly-any : (ms : List ConduitMessage) → Orderly (λ _. Unit {0}) ms
Orderly-any [] = tt
Orderly-any (handshake text ∷ ms) = Orderly-any ms
Orderly-any (content bytes ∷ ms) = Orderly-any ms
Orderly-any (close reason ∷ ms) = tt
