-- ===== src/Conduit/WebSocket.antt =====
-- conduit/websocket/client/tokio_tungstenite.rs and server/tokio_tungstenite.rs: the messages of a
-- websocket and those of a conduit.
pub mod Delivery
use ractor_wormhole.Prelude.{ℕ, Option, none, some, List, [], ◌∷◌}
use ractor_wormhole.Outcome.{Outcome, ok, err, Error, Bytes}
use ractor_wormhole.Conduit.Message.{ConduitMessage, handshake, content, close}
use ractor_wormhole.Conduit.ReceiveLoop.{Source}

-- `tungstenite::Message`; `other` is a ping, a pong or a raw frame. A close frame has a code and a
-- reason.
pub data Message : Type 0 where
  text : Bytes → Message
  binary : Bytes → Message
  closing : Option (ℕ × Bytes) → Message
  other : Message

pub data Received : Type 0 where
  message : Message → Received
  failed : Error → Received

-- Both sinks send no reason with a `Close`.
unfoldable pub map_conduit_to_ws : ConduitMessage → Message
map_conduit_to_ws (handshake t) = text t
map_conduit_to_ws (content bytes) = binary bytes
map_conduit_to_ws (close reason) = closing none

-- The client's source; `format!("Close code: {:?}, reason: {}")` is `display`.
unfoldable pub client_from_ws : (display : ℕ × Bytes → Bytes) → Message → Option ConduitMessage
client_from_ws display (text t) = some (handshake t)
client_from_ws display (binary bytes) = some (content bytes)
client_from_ws display (closing (some reason)) = some (close (some (display reason)))
client_from_ws display (closing none) = some (close none)
client_from_ws display other = none

unfoldable pub server_from_ws : Message → Option ConduitMessage
server_from_ws (text t) = some (handshake t)
server_from_ws (binary bytes) = some (content bytes)
server_from_ws (closing frame) = some (close none)
server_from_ws other = none

-- `source.filter_map`: what is not for the conduit is passed over.
unfoldable pub map_ws_to_conduit : (Message → Option ConduitMessage) → Source (List Received)
map_ws_to_conduit from_ws [] = none
map_ws_to_conduit from_ws (failed e ∷ more) = some (err e, more)
map_ws_to_conduit from_ws (message m ∷ more) =
    kept (from_ws m) more (map_ws_to_conduit from_ws more)
  where
    kept :
        Option ConduitMessage
        → List Received
        → Option (Outcome ConduitMessage × List Received)
        → Option (Outcome ConduitMessage × List Received)
    kept (some c) more rest = some (ok c, more)
    kept none more rest = rest
