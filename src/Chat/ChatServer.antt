-- ===== src/Chat/ChatServer.antt =====
-- chat_app/server/src/chat_server.rs, with the messages of chat_app/shared/src/lib.rs. A portal, a client
-- and a reply port are known by their numbers.
pub mod Laws
use ractor_wormhole.Prelude.{
  ℕ, Option, none, some, List, [], ◌∷◌, ◌++◌, map, not, ◌==◌, if◌then◌else◌,
}
use ractor_wormhole.Prelude.Map.{get, insert, nat_eq}
use ractor_wormhole.Outcome.{ok, Bytes}
use ractor_wormhole.Outcome.Action
use ractor_wormhole.Outcome.Action.{Action, pure, lift, ◌>>=◌, ◌>>◌}
use ractor_wormhole.Platform.{Platform}
use ractor_wormhole.Chat.AliasGenerator.{AliasGenerator, generate_capitalized}

-- `PostMessage` is the one `ChatServerMessage`.
pub data Msg : Type 0 where
  connect : (portal client reply : ℕ) → Msg
  post_message : (sender : ℕ) → (chat_message : Bytes) → (reply : ℕ) → Msg

pub data ChatClientMessage : Type 0 where
  user_connected : Bytes → ChatClientMessage
  message_received : Bytes → Bytes → ChatClientMessage
  disconnect : ChatClientMessage

-- What the server sends; errors of a send are ignored.
pub data Sent : Type 0 where
  to_client : (client : ℕ) → ChatClientMessage → Sent
  reply_alias : (reply : ℕ) → Bytes → Sent
  acknowledge : (reply : ℕ) → Sent

pub record ChatServerState : Type 0 where
  pub alias_generator : AliasGenerator
  -- the key is the portal
  pub clients : List (ℕ × (ℕ × Bytes))
  pub sends : List Sent

abbrev pub send_all : List Sent → ChatServerState → ChatServerState
send_all out s = record s { sends = s.sends ++ out }

abbrev pub tell : ChatClientMessage → ℕ × (ℕ × Bytes) → Sent
tell msg (portal, (client, alias)) = to_client client msg

-- `for (client, _) in state.clients.values()`, and the acknowledgement.
unfoldable pub post : Option (ℕ × Bytes) → Bytes → (reply : ℕ) → ChatServerState → ChatServerState
post none chat_message reply s = s
post (some (client, alias)) chat_message reply s =
    send_all (map (tell (message_received alias chat_message)) s.clients ++ acknowledge reply ∷ [])
      s

-- `if id != &new_client.get_id()`: the key of a client, which is its portal's, is compared with the new
-- client.
unfoldable pub announce : (new_client : ℕ) → Bytes → List (ℕ × (ℕ × Bytes)) → List Sent
announce new_client alias [] = []
announce new_client alias ((id, entry) ∷ more) =
    let rest = announce new_client alias more in
    if id == new_client then rest else tell (user_connected alias) (id, entry) ∷ rest

module _ (p : Platform) (to_uppercase : ℕ → Bytes) where
  -- The generator is a part of the state.
  unfoldable pub generate : Action ChatServerState Bytes
  unfolding generate_capitalized
  generate s =
      let (r, g) = generate_capitalized p to_uppercase s.alias_generator in
      (r, record s { alias_generator = g })

  unfoldable pub connected : (portal client reply : ℕ) → Bytes → Action ChatServerState (Unit {0})
  unfolding announce
  connected portal client reply alias s =
      let clients = insert portal (client, alias) s.clients in
      (
        ok tt,
        record s {
          clients = clients;
          sends = s.sends ++ (reply_alias reply alias ∷ announce client alias clients);
        },
      )

  unfoldable pub handle : Msg → Action ChatServerState (Unit {0})
  unfolding ◌>>=◌ generate connected post get
  handle (connect portal client reply) s = (generate >>= connected portal client reply) s
  handle (post_message sender chat_message reply) s =
      (ok tt, post (get sender s.clients) chat_message reply s)
