-- ===== src/Conduit/Tests.antt =====
-- The conduits at concrete bytes.
use ractor_wormhole.Prelude.{ℕ, ◌≡◌, refl, true, false, none, some, List, [], ◌∷◌, ◌++◌, arith}
use ractor_wormhole.Outcome.{ok, err, end_of_stream, Bytes}
use ractor_wormhole.Platform.{Platform, IsSupported}
use ractor_wormhole.Transmaterialization.Utf8.{is_utf8, from_utf8}
use ractor_wormhole.Portal.Types
use ractor_wormhole.Conduit.Message.{ConduitMessage, handshake, content, close}
use ractor_wormhole.Conduit.ReceiveLoop.{receive_loop}
use ractor_wormhole.Conduit.ReceiveLoop.Laws.{Closes}
use ractor_wormhole.Conduit.Frame.{frames}
use ractor_wormhole.Nexus
use ractor_wormhole.Conduit.Connect.{Host, serve}
use ractor_wormhole.Conduit.Connect.Loops.{Fed}
use ractor_wormhole.Conduit.Connect.Started.{serve-starts, fresh}
use ractor_wormhole.Conduit.UnixSocket.{Writer}
use ractor_wormhole.Conduit.UnixSocket
use ractor_wormhole.Conduit.UnixSocket.RoundTrip.{Accepts, send_all}
use ractor_wormhole.Conduit.UnixSocket.Delivery.{send_all-receive_loop}
use ractor_wormhole.Conduit.UnixSocket.Closing.{receive_loop-closed}
use ractor_wormhole.Conduit.Ssh
use ractor_wormhole.Conduit.Ssh.Delivery.{receive_loop-agrees}
use ractor_wormhole.Conduit.Ssh.Closing.{create_source-close_misread}
use ractor_wormhole.Conduit.Bytestream.{to_be_bytes}
use ractor_wormhole.Conduit.WebSocket.{
  Received, message, other, map_conduit_to_ws, map_ws_to_conduit, client_from_ws, server_from_ws,
}
use ractor_wormhole.Conduit.WebSocket.Delivery.{ended, carried, passed, websocket-delivers}

abbrev platform_64 : Platform
platform_64 = record { usize_bits = 64; overflow_checks = false }

supported : IsSupported platform_64
supported = record { above = omega arith; below = omega arith }

-- A socket that takes everything.
abbrev socket : Writer Bytes
socket = record { write = λ bytes w. (ok tt, w ++ bytes); flush = λ w. (ok tt, w) }

socket-Accepts : Accepts socket (λ w. w)
socket-Accepts = record {
  accepted = λ bytes w. w ++ bytes;
  flushed = λ w. w;
  write-ok = λ bytes w. refl;
  flush-ok = λ w. refl;
  sent-accepted = λ bytes w. refl;
  sent-flushed = λ w. refl;
}

-- "{}", two bytes, and the end.
abbrev conversation : List ConduitMessage
conversation = handshake (123 ∷ 125 ∷ []) ∷ content (7 ∷ 255 ∷ []) ∷ close none ∷ []

send_all-receive_loop_example :
    ((send_all socket conversation []).0 ≡ ok tt)
    × (receive_loop
          (UnixSocket.create_source platform_64 end_of_stream)
          (λ n. true)
          4
          0
          (send_all socket conversation []).1
        ≡ ok (Types.handshake (123 ∷ 125 ∷ []) ∷ Types.content (7 ∷ 255 ∷ []) ∷ Types.close ∷ []))
unfolding is_utf8
send_all-receive_loop_example =
    send_all-receive_loop socket (λ w. w) socket-Accepts platform_64 end_of_stream (λ n. true)
      conversation [] 4 0 supported (λ m. refl)
      (((omega arith, omega arith), refl), ((omega arith, omega arith), (tt, tt))) refl
      (omega arith)

receive_loop-closed_example : Closes (
    receive_loop
      (UnixSocket.create_source platform_64 end_of_stream)
      (λ n. true)
      4
      0
      (9 ∷ 1 ∷ 255 ∷ []))
receive_loop-closed_example =
    receive_loop-closed platform_64 end_of_stream (λ n. true) (9 ∷ 1 ∷ 255 ∷ []) 4 0 supported
      (omega arith) (λ m. refl) (omega arith, (omega arith, (omega arith, tt))) (omega arith)

create_source-close_misread_example :
    (Ssh.create_source platform_64 end_of_stream (Ssh.create_sink socket (close none) []).1
      ≡ some (err end_of_stream, []))
    × (Ssh.create_source platform_64 end_of_stream (
          (Ssh.create_sink socket (close none) []).1
          ++ ((to_be_bytes 2 ++ 104 ∷ 105 ∷ []) ++ 1 ∷ []))
        ≡ some (ok (close (some (104 ∷ 105 ∷ []))), 1 ∷ []))
unfolding is_utf8 from_utf8 Ssh.reason_of
create_source-close_misread_example =
    create_source-close_misread socket (λ w. w) socket-Accepts platform_64 end_of_stream none []
      (104 ∷ 105 ∷ []) (1 ∷ []) supported refl (omega arith, omega arith)

receive_loop-agrees_example :
    (receive_loop
        (Ssh.create_source platform_64 end_of_stream)
        (λ n. true)
        4
        0
        (frames conversation)
      ≡ receive_loop
          (UnixSocket.create_source platform_64 end_of_stream)
          (λ n. true)
          4
          0
          (frames conversation))
    × (receive_loop
          (Ssh.create_source platform_64 end_of_stream)
          (λ n. true)
          4
          0
          (frames conversation)
        ≡ ok (Types.handshake (123 ∷ 125 ∷ []) ∷ Types.content (7 ∷ 255 ∷ []) ∷ Types.close ∷ []))
unfolding is_utf8
receive_loop-agrees_example =
    receive_loop-agrees platform_64 end_of_stream supported (λ n. true) conversation 4 0 (λ m. refl)
      (((omega arith, omega arith), refl), ((omega arith, omega arith), (tt, tt))) refl
      (omega arith)

abbrev received : List Received
received =
    message (map_conduit_to_ws (handshake (123 ∷ 125 ∷ [])))
    ∷ message other
    ∷ message (map_conduit_to_ws (content (7 ∷ 255 ∷ [])))
    ∷ message (map_conduit_to_ws (close none))
    ∷ []

websocket-delivers_example :
    (receive_loop (map_ws_to_conduit (client_from_ws (λ r. r.1))) (λ n. true) 4 0 received
      ≡ ok (Types.handshake (123 ∷ 125 ∷ []) ∷ Types.content (7 ∷ 255 ∷ []) ∷ Types.close ∷ []))
    × (receive_loop (map_ws_to_conduit server_from_ws) (λ n. true) 4 0 received
        ≡ ok (Types.handshake (123 ∷ 125 ∷ []) ∷ Types.content (7 ∷ 255 ∷ []) ∷ Types.close ∷ []))
websocket-delivers_example =
    websocket-delivers (λ r. r.1) (λ n. true) conversation received 4 0 (λ m. refl)
      (carried (handshake (123 ∷ 125 ∷ []))
        (passed (carried (content (7 ∷ 255 ∷ [])) (carried (close none) ended))))
      (omega arith)

-- Two connections, of whose portals the first is 30 and the second 31.
abbrev nexus_env : ℕ → Nexus.Env
nexus_env portal = record {
  spawn = λ identifier. ok portal;
  callback_open = true;
  port_open = λ port. true;
}

abbrev two_connections : List (Nexus.Env × Bytes)
two_connections = (nexus_env 30, 2 ∷ []) ∷ (nexus_env 31, []) ∷ []

abbrev served : Host Bytes
served = serve (λ n. n ∷ []) 0 two_connections (fresh (some 5) 9)

serve-starts_example :
    (served.loops ≡ (30, 2 ∷ []) ∷ (31, []) ∷ []) × Fed served.nexus.portals served.loops
serve-starts_example =
    serve-starts (λ n. n ∷ []) (some 5) 9 two_connections (30 ∷ 31 ∷ [])
      (
        record { spawned = refl; callback = refl; port = refl },
        (record { spawned = refl; callback = refl; port = refl }, tt),
      )
