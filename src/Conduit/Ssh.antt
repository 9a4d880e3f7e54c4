-- ===== src/Conduit/Ssh.antt =====
-- `create_sink` and `create_source` of conduit/ssh/client.rs.
pub mod Delivery
pub mod Closing
use ractor_wormhole.Prelude.{ℕ, Bool, true, false, Option, none, some, [], ◌∷◌, ◌==◌, if◌then◌else◌}
use ractor_wormhole.Outcome
use ractor_wormhole.Outcome.{
  Outcome, ok, err, panic, stuck, Error, end_of_stream, unknown_message_type, send_failed, Bytes,
}
use ractor_wormhole.Outcome.Action.{Action, pure, lift, ◌>>=◌, ◌>>◌}
use ractor_wormhole.Platform.{Platform}
use ractor_wormhole.Transmaterialization.Utf8.{from_utf8}
use ractor_wormhole.Conduit.Message.{ConduitMessage, handshake, content, close}
use ractor_wormhole.Conduit.ReceiveLoop.{Source}
use ractor_wormhole.Conduit.Bytestream.{read_u8, read_data}
use ractor_wormhole.Conduit.UnixSocket.{Writer, write_sized}

-- `.ok()`: an error is dropped, a panic is not.
module _ {W : Type 0} where
  pub forgive : Outcome (Unit {0}) × W → Outcome (Unit {0}) × W
  forgive (err e, w) = (ok tt, w)
  forgive r = r

  -- A `Close` is written as well as it can be, and then the sink fails.
  unfoldable pub create_sink : Writer W → ConduitMessage → Action W (Unit {0})
  unfolding write_sized ◌>>=◌ forgive
  create_sink io (handshake text) = write_sized io 0 text
  create_sink io (content bytes) = write_sized io 1 bytes
  create_sink io (close reason) = do
    λ w. forgive (io.write (2 ∷ []) w)
    λ w. forgive (io.flush w)
    lift (err send_failed)

-- `e.kind() == std::io::ErrorKind::UnexpectedEof`
is_unexpected_eof : Error → Bool
is_unexpected_eof end_of_stream = true
is_unexpected_eof e = false

-- `String::from_utf8(buffer).ok()`
unfoldable pub reason_of : Outcome Bytes → Option Bytes
reason_of (ok text) = some text
reason_of r = none

module _ (p : Platform) (ended : Error) where
  -- What becomes of a message that has been read, data and all.
  unfoldable pub decode_message : (message_type : ℕ) → Bytes → Outcome ConduitMessage
  unfolding reason_of
  decode_message message_type buffer =
      if message_type == 0
      then Outcome.◌>>=◌ (from_utf8 buffer) (λ text. ok (handshake text))
      else if message_type == 1
      then ok (content buffer)
      else if message_type == 2
      then ok (close (reason_of (from_utf8 buffer)))
      else err (unknown_message_type message_type)

  -- Every type has a length and data.
  unfoldable pub read_body : (message_type : ℕ) → Action Bytes ConduitMessage
  unfolding ◌>>=◌ read_data decode_message
  read_body message_type = do buffer ← read_data ended p; lift (decode_message message_type buffer)

  unfoldable pub create_source : Source Bytes
  unfolding is_unexpected_eof read_body
  create_source [] = if is_unexpected_eof ended then none else some (err ended, [])
  create_source (message_type ∷ reader) = some (read_body message_type reader)
