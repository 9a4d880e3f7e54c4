-- ===== src/Conduit/UnixSocket.antt =====
-- `create_sink` and `create_source` of conduit/unix_socket/client.rs and server.rs, which are the same
-- code.
pub mod RoundTrip
pub mod Closing
pub mod Delivery
use ractor_wormhole.Prelude.{ℕ, ◌%◌, ◌^◌, Option, none, some, [], ◌∷◌, ◌==◌, if◌then◌else◌, length}
use ractor_wormhole.Outcome.{ok, err, Error, unknown_message_type, Bytes}
use ractor_wormhole.Outcome.Action.{Action, pure, lift, ◌>>=◌, ◌>>◌}
use ractor_wormhole.Platform.{Platform}
use ractor_wormhole.Transmaterialization.Utf8.{from_utf8}
use ractor_wormhole.Conduit.Message.{ConduitMessage, handshake, content, close}
use ractor_wormhole.Conduit.ReceiveLoop.{Source}
use ractor_wormhole.Conduit.Bytestream.{to_be_bytes, read_u8, read_data}

-- The writer of a socket: `write_u8`, `write_u32` and `write_all` write bytes, and each may fail.
pub record Writer (W : Type 0) : Type 0 where
  pub write : Bytes → Action W (Unit {0})
  pub flush : Action W (Unit {0})

-- `len` is a `u32`.
unfoldable pub write_sized :
    {W : Type 0} → Writer W → (message_type : ℕ) → Bytes → Action W (Unit {0})
unfolding ◌>>=◌
write_sized io message_type bytes = do
  io.write (message_type ∷ [])
  io.write (to_be_bytes (length bytes % 2 ^ 32))
  io.write bytes
  io.flush

unfoldable pub create_sink : {W : Type 0} → Writer W → ConduitMessage → Action W (Unit {0})
unfolding write_sized ◌>>=◌
create_sink io (handshake text) = write_sized io 0 text
create_sink io (content bytes) = write_sized io 1 bytes
create_sink io (close reason) = do io.write (2 ∷ []); io.flush

module _ (p : Platform) (ended : Error) where
  unfoldable pub read_message : (message_type : ℕ) → Action Bytes ConduitMessage
  unfolding ◌>>=◌ read_data
  read_message message_type =
      if message_type == 0
      then (do bytes ← read_data ended p; text ← lift (from_utf8 bytes); pure (handshake text))
      else if message_type == 1
      then (do bytes ← read_data ended p; pure (content bytes))
      else if message_type == 2
      then pure (close none)
      else lift (err (unknown_message_type message_type))

  unfoldable pub read_element : Action Bytes ConduitMessage
  unfolding ◌>>=◌ read_u8 read_message
  read_element = read_u8 ended >>= read_message

  unfoldable pub create_source : Source Bytes
  unfolding read_element
  create_source reader = some (read_element reader)
