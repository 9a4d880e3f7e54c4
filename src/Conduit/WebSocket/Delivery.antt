-- ===== src/Conduit/WebSocket/Delivery.antt =====
-- What travels over a websocket.
use ractor_wormhole.Prelude.{
  ℕ, zero, suc, ◌<◌, ◌≡◌, refl, ap, ◌∙◌, Bool, true, Option, none, some, List, [], ◌∷◌, length,
  arith,
}
use ractor_wormhole.Outcome.{Outcome, ok, ◌>>=◌, Bytes}
use ractor_wormhole.Portal.Types.{PortalActorMessage}
use ractor_wormhole.Portal.Types
use ractor_wormhole.Conduit.Message.{ConduitMessage, handshake, content, close}
use ractor_wormhole.Conduit.ReceiveLoop.{turn, receive_loop}
use ractor_wormhole.Conduit.ReceiveLoop.Laws.{on_turn-alive, on_turn-break}
use ractor_wormhole.Conduit.Frame.{delivered}
use ractor_wormhole.Conduit.WebSocket.{
  Message, text, binary, closing, other, Received, message, map_conduit_to_ws, client_from_ws,
  server_from_ws, map_ws_to_conduit,
}

-- What a source receives when these messages are sent to it, with what is not for the conduit among
-- them.
pub data Carries : List ConduitMessage → List Received → Type 0 where
  ended : Carries [] []
  carried :
      (m : ConduitMessage) {ms : List ConduitMessage} {xs : List Received}
      → Carries ms xs
      → Carries (m ∷ ms) (message (map_conduit_to_ws m) ∷ xs)
  passed :
      {ms : List ConduitMessage} {xs : List Received}
      → Carries ms xs
      → Carries ms (message other ∷ xs)

-- What the two sources have in common.
record Understands (from_ws : Message → Option ConduitMessage) : Type 0 where
  text_is : (t : Bytes) → from_ws (text t) ≡ some (handshake t)
  binary_is : (bytes : Bytes) → from_ws (binary bytes) ≡ some (content bytes)
  closing_is : from_ws (closing none) ≡ some (close none)
  other_is : from_ws other ≡ none

module _ (from_ws : Message → Option ConduitMessage) (h : Understands from_ws) where
  module _ (alive : ℕ → Bool) (up : (n : ℕ) → alive n ≡ true) where
    abbrev again : ℕ → ℕ → List Received → Outcome (List PortalActorMessage)
    again fuel n = receive_loop (map_ws_to_conduit from_ws) alive fuel n

    receive_loop-Carries :
        {ms : List ConduitMessage} {xs : List Received} (fuel n : ℕ)
        → Carries ms xs
        → length ms < fuel
        → again fuel n xs ≡ ok (delivered ms)
    unfolding receive_loop map_ws_to_conduit map_conduit_to_ws turn
    receive_loop-Carries zero n c enough = absurd (omega arith)
    receive_loop-Carries (suc fuel) n ended enough =
        on_turn-break (map_ws_to_conduit from_ws) alive up n (again fuel (suc n))
    receive_loop-Carries (suc fuel) n (carried (handshake t) {ms} {xs} c) enough =
        rw (h.text_is t) (
          on_turn-alive (map_ws_to_conduit from_ws) alive up n (Types.handshake t) xs
            (again fuel (suc n))
          ∙ ap (λ rest. rest >>= (λ r. ok (Types.handshake t ∷ r)))
              (receive_loop-Carries fuel (suc n) c (omega arith)))
    receive_loop-Carries (suc fuel) n (carried (content bytes) {ms} {xs} c) enough =
        rw (h.binary_is bytes) (
          on_turn-alive (map_ws_to_conduit from_ws) alive up n (Types.content bytes) xs
            (again fuel (suc n))
          ∙ ap (λ rest. rest >>= (λ r. ok (Types.content bytes ∷ r)))
              (receive_loop-Carries fuel (suc n) c (omega arith)))
    receive_loop-Carries (suc fuel) n (carried (close reason) c) enough =
        rw (h.closing_is)
          (on_turn-break (map_ws_to_conduit from_ws) alive up n (again fuel (suc n)))
    receive_loop-Carries (suc fuel) n (passed c) enough =
        rw (h.other_is) (receive_loop-Carries (suc fuel) n c enough)

client-Understands : (display : ℕ × Bytes → Bytes) → Understands (client_from_ws display)
unfolding client_from_ws
client-Understands display = record {
  text_is = λ t. refl;
  binary_is = λ b. refl;
  closing_is = refl;
  other_is = refl;
}

server-Understands : Understands server_from_ws
unfolding server_from_ws
server-Understands = record {
  text_is = λ t. refl;
  binary_is = λ b. refl;
  closing_is = refl;
  other_is = refl;
}

-- From the websocket's messages for a list of conduit messages, with any number of pings and the
-- like among them, the receive loop over the client's source and over the server's, run with as
-- much fuel as one more than the number of conduit messages, gives a living portal each conduit
-- message in its order up to a `Close`, and then `Close` once.
pub websocket-delivers :
    (display : ℕ × Bytes → Bytes) (alive : ℕ → Bool) (ms : List ConduitMessage) (xs : List Received)
    (fuel n : ℕ)
    → ((m : ℕ) → alive m ≡ true)
    → Carries ms xs
    → length ms < fuel
    → (receive_loop (map_ws_to_conduit (client_from_ws display)) alive fuel n xs
        ≡ ok (delivered ms))
      × (receive_loop (map_ws_to_conduit server_from_ws) alive fuel n xs ≡ ok (delivered ms))
websocket-delivers display alive ms xs fuel n up c enough = (
  receive_loop-Carries (client_from_ws display) (client-Understands display) alive up fuel n c
      enough,
  receive_loop-Carries server_from_ws server-Understands alive up fuel n c enough,
)
