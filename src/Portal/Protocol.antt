-- ===== src/Portal/Protocol.antt =====
-- The protocol between the two portals of a conduit: the handshake, the look-up of an actor by its
-- name, and the end of an actor.
use ractor_wormhole.Prelude.{ℕ, ◌≡◌, refl, ap, true, [], ◌∷◌, ◌++◌, map, length, All}
use ractor_wormhole.Prelude.Map.{nat_eq, bytes_eq}
use ractor_wormhole.Outcome.{ok, Bytes}
use ractor_wormhole.Transmaterialization.LeBytes.{IsByte, from_le_bytes}
use ractor_wormhole.Transmaterialization.Util.{require_buffer_size-eq}
use ractor_wormhole.Portal.Types.{
  Effect, remote_actor_id_eq, CrossPortalMessage, send_content, reply_opened, Introduction,
  PortalActorState, handshake, content, opening, open_with,
}
use ractor_wormhole.Portal.Env.{Env}
use ractor_wormhole.Portal.Wire.{immaterialize, rematerialize}
use ractor_wormhole.Portal.Xor.{xor_arrays_comm}
use ractor_wormhole.Portal.Handle.{
  handle, channel_id_of, on_handshake, on_content, on_frame, send_frame, send_to,
}

-- Two portals that are opening, each handling the other's introduction with contributions that are
-- bytes, both open with the same channel id, answer all who wait, in order, and change nothing
-- else.
pub handshake-agrees :
    (env_a env_b : Env) (a b : PortalActorState) (intro_a intro_b : Introduction)
    (text_a text_b : Bytes)
    → a.channel_state ≡ opening intro_a
    → b.channel_state ≡ opening intro_b
    → env_a.parse_introduction text_b ≡ ok intro_b
    → env_b.parse_introduction text_a ≡ ok intro_a
    → All IsByte intro_a.channel_id_contribution
    → All IsByte intro_b.channel_id_contribution
    → let opened : PortalActorState → PortalActorState = λ s. record s {
      channel_state = open_with (channel_id_of intro_a intro_b);
      waiting_for_handshake = [];
      effects = s.effects ++ map reply_opened s.waiting_for_handshake;
    } in
      (handle env_a (handshake text_b) a ≡ (ok tt, opened a))
      × (handle env_b (handshake text_a) b ≡ (ok tt, opened b))
unfolding handle on_handshake
handshake-agrees env_a env_b a b intro_a intro_b text_a text_b ea eb pa pb ha hb =
    (rw (ea, on_handshake) (rw pa), rw (eb, on_handshake) (rw pb (rw same)))
  where
    same : channel_id_of intro_b intro_a ≡ channel_id_of intro_a intro_b
    same = unfold channel_id_of in ap from_le_bytes (xor_arrays_comm _ _ hb ha)

-- bincode decodes what it encoded, and says how many bytes that took.
pub record IsBincode (sender receiver : Env) : Type 0 where
  pub decodes :
      (msg : CrossPortalMessage) (bytes : Bytes)
      → sender.encode_to_vec msg ≡ ok bytes
      → receiver.decode_from_slice bytes ≡ ok (msg, length bytes)

pub rematerialize_exact :
    (env : Env) (msg : CrossPortalMessage) (bytes : Bytes)
    → env.decode_from_slice bytes ≡ ok (msg, length bytes)
    → rematerialize env bytes ≡ ok msg
unfolding rematerialize
rematerialize_exact env msg bytes h = rw h (rw (require_buffer_size-eq bytes (length bytes) refl))

pub rematerialize_lem :
    (sender receiver : Env) (msg : CrossPortalMessage) (bytes : Bytes)
    → IsBincode sender receiver
    → sender.encode_to_vec msg ≡ ok bytes
    → rematerialize receiver bytes ≡ ok msg
rematerialize_lem sender receiver msg bytes h e =
    rematerialize_exact receiver msg bytes (h.decodes msg bytes e)

-- What is left of a handler when the frame is read, and when the conduit takes the reply.
pub content-frame :
    (env : Env) (msg : CrossPortalMessage) (bytes : Bytes) (channel : ℕ) (s : PortalActorState)
    → s.channel_state ≡ open_with channel
    → rematerialize env bytes ≡ ok msg
    → handle env (content bytes) s ≡ on_frame env channel msg s
unfolding handle on_content
content-frame env msg bytes channel s e r = rw (e, on_content) (rw r)

pub send_frame-ok :
    (env : Env) (msg : CrossPortalMessage) (bytes : Bytes) (s : PortalActorState)
    → env.encode_to_vec msg ≡ ok bytes
    → env.sink_open ≡ true
    → send_frame env msg s ≡ (ok tt, record s { effects = s.effects ++ send_content bytes ∷ [] })
unfolding send_frame immaterialize
send_frame-ok env msg bytes s e o = rw (e, immaterialize) (rw o)

pub send_to-ok :
    (env : Env) (port : ℕ) (e : Effect) (s : PortalActorState)
    → env.port_open port ≡ true
    → send_to env port e s ≡ (ok tt, record s { effects = s.effects ++ e ∷ [] })
unfolding send_to
send_to-ok env port e s up = rw up
