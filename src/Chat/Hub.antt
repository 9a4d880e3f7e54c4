-- ===== src/Chat/Hub.antt =====
-- chat_app/server/src/hub.rs: the hub of one portal, with the chat server that it asks and the proxies
-- that it makes.
pub mod Laws
use ractor_wormhole.Prelude.{ℕ, suc, Option, none, some, List, [], ◌∷◌, ◌++◌, ◌==◌, if◌then◌else◌}
use ractor_wormhole.Prelude.Map.{get, insert, nat_eq}
use ractor_wormhole.Outcome.{Outcome, ok, panic, Bytes}
use ractor_wormhole.Outcome.Action.{Action, pure, lift, ◌>>=◌, ◌>>◌}
use ractor_wormhole.Platform.{Platform}
use ractor_wormhole.Chat.ChatServer.{
  Msg, connect, post_message, Sent, to_client, reply_alias, acknowledge, ChatServerState, handle,
}

pub record HubWorld : Type 0 where
  pub chat_server : ChatServerState
  -- the actors that `map` has made, each with the portal that its closure holds
  pub proxies : List (ℕ × ℕ)
  pub next_proxy : ℕ
  pub next_port : ℕ
  -- `rpc_reply_port.send((new_user_alias, proxy))`
  pub connected : List (ℕ × (Bytes × ℕ))

-- What the port was replied.
unfoldable pub alias_for : (port : ℕ) → List Sent → Option Bytes
alias_for port [] = none
alias_for port (reply_alias q alias ∷ more) = if q == port then some alias else alias_for port more
alias_for port (to_client c m ∷ more) = alias_for port more
alias_for port (acknowledge q ∷ more) = alias_for port more

-- `.unwrap()`
abbrev unwrap : Option Bytes → Outcome Bytes
unwrap (some alias) = ok alias
unwrap none = panic

module _ (p : Platform) (to_uppercase : ℕ → Bytes) where
  -- `chat_server.ask(|rpc| Msg::Connect(portal, client, rpc), None).await.unwrap()`
  unfoldable pub ask_connect : (portal client : ℕ) → Action HubWorld Bytes
  unfolding handle alias_for
  ask_connect portal client w =
      let (r, s) = handle p to_uppercase (connect portal client w.next_port) w.chat_server in
      (
        unwrap (alias_for w.next_port s.sends),
        record w { chat_server = s; next_port = suc w.next_port },
      )

  -- `chat_server.map(move |msg| Msg::Public(portal_copy, msg))`, and the reply.
  unfoldable pub reply_proxy : (portal reply : ℕ) → Bytes → Action HubWorld (Unit {0})
  reply_proxy portal reply alias w = (
    ok tt,
    record w {
      proxies = insert w.next_proxy portal w.proxies;
      next_proxy = suc w.next_proxy;
      connected = w.connected ++ (reply, (alias, w.next_proxy)) ∷ [];
    },
  )

  -- `HubMessage::Connect`, at the hub of the portal.
  unfoldable pub on_connect : (portal client reply : ℕ) → Action HubWorld (Unit {0})
  unfolding ◌>>=◌ ask_connect reply_proxy
  on_connect portal client reply = ask_connect portal client >>= reply_proxy portal reply

  -- A proxy gets `PostMessage`, and the chat server what the closure makes of it.
  unfoldable pub forward_post :
      Option ℕ → (chat_message : Bytes) → (reply : ℕ) → Action HubWorld (Unit {0})
  unfolding handle
  forward_post none chat_message reply w = (ok tt, w)
  forward_post (some portal) chat_message reply w =
      let (r, s) = handle p to_uppercase (post_message portal chat_message reply) w.chat_server in
      (r, record w { chat_server = s })

  unfoldable pub proxy_posts :
      (proxy : ℕ) → (chat_message : Bytes) → (reply : ℕ) → Action HubWorld (Unit {0})
  unfolding get forward_post
  proxy_posts proxy chat_message reply w = forward_post (get proxy w.proxies) chat_message reply w
