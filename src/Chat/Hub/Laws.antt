-- ===== src/Chat/Hub/Laws.antt =====
-- A client's way through the hub to the others.
use ractor_wormhole.Prelude.{
  ℕ, suc, ◌≡◌, ◌≢◌, refl, ap, ◌∙◌, none, some, List, [], ◌∷◌, ◌++◌, map, ==_refl, if◌then◌else◌,
  arith,
}
use ractor_wormhole.Prelude.Map.{get, insert, nat_eq, get-insert}
use ractor_wormhole.Outcome.{Outcome, ok, Bytes}
use ractor_wormhole.Outcome.Action.{bind-eq}
use ractor_wormhole.Platform.{Platform}
use ractor_wormhole.Chat.AliasGenerator.{AliasGenerator, generate_capitalized}
use ractor_wormhole.Chat.ChatServer
use ractor_wormhole.Chat.ChatServer.{
  Sent, to_client, reply_alias, acknowledge, message_received, user_connected, tell, send_all,
  ChatServerState,
}
use ractor_wormhole.Chat.ChatServer.Laws.{NoneIs, joined, connect-post}
use ractor_wormhole.Chat.Hub.{
  HubWorld, alias_for, unwrap, ask_connect, reply_proxy, on_connect, forward_post, proxy_posts,
}

alias_for-append :
    (port : ℕ) (alias : Bytes) (es more : List Sent)
    → alias_for port es ≡ none
    → alias_for port (es ++ (reply_alias port alias ∷ more)) ≡ some alias
unfolding alias_for
alias_for-append port alias [] more h = rw (==_refl port)
alias_for-append port alias (reply_alias q a ∷ es) more h =
    ground (arith, alias_for-append port alias es more)
alias_for-append port alias (to_client c m ∷ es) more h = alias_for-append port alias es more h
alias_for-append port alias (acknowledge q ∷ es) more h = alias_for-append port alias es more h

module _ (p : Platform) (to_uppercase : ℕ → Bytes) where
  -- The world when the client has its alias and its proxy.
  abbrev pub welcomed : (portal client reply : ℕ) → Bytes → AliasGenerator → HubWorld → HubWorld
  welcomed portal client reply alias g w = record w {
    chat_server = joined p to_uppercase portal client w.next_port alias g w.chat_server;
    proxies = insert w.next_proxy portal w.proxies;
    next_proxy = suc w.next_proxy;
    next_port = suc w.next_port;
    connected = w.connected ++ (reply, (alias, w.next_proxy)) ∷ [];
  }

  -- If the generator gives an alias, no portal has the new client's id and the port of the hub's
  -- question is new, a client that connects through the hub of its portal is kept under that
  -- portal and given its alias and a new proxy, everybody who is connected then, the new client
  -- too, is told of it, and a message that is posted to the proxy goes to everybody with this
  -- alias and is acknowledged.
  pub connect-proxy_posts :
      (portal client reply reply' : ℕ) (alias chat_message : Bytes) (g : AliasGenerator)
      (w : HubWorld)
      → generate_capitalized p to_uppercase w.chat_server.alias_generator ≡ (ok alias, g)
      → portal ≢ client
      → NoneIs client w.chat_server.clients
      → alias_for w.next_port w.chat_server.sends ≡ none
      → (on_connect p to_uppercase portal client reply w
          ≡ (ok tt, welcomed portal client reply alias g w))
        × (proxy_posts p to_uppercase w.next_proxy chat_message reply'
              (welcomed portal client reply alias g w)
            ≡ (
              ok tt,
              record (welcomed portal client reply alias g w) {
                chat_server =
                    send_all
                      (map
                          (tell (message_received alias chat_message))
                          (insert portal (client, alias) w.chat_server.clients)
                        ++ acknowledge reply' ∷ [])
                      (joined p to_uppercase portal client w.next_port alias g w.chat_server);
              },
            ))
  unfolding on_connect
  connect-proxy_posts portal client reply reply' alias chat_message g w e distinct none_is fresh =
      let (came, kept, posted) =
        connect-post p to_uppercase portal client w.next_port reply' alias chat_message g
          w.chat_server e distinct none_is in
      (
        bind-eq (ask_connect p to_uppercase portal client) (reply_proxy p to_uppercase portal reply)
              {s = w} (asked came)
            ∙ unfold reply_proxy in refl,
        unfold proxy_posts in
            ap
              (λ o.
                forward_post p to_uppercase o chat_message reply'
                  (welcomed portal client reply alias g w))
              found
            ∙ unfold forward_post in
              ap
                (λ (r : Outcome (Unit {0}) × ChatServerState).
                  (r.0, record (welcomed portal client reply alias g w) { chat_server = r.1 }))
                posted,
      )
    where
      server : ChatServerState
      server = joined p to_uppercase portal client w.next_port alias g w.chat_server

      asked :
          ChatServer.handle p to_uppercase
              (ChatServer.connect portal client w.next_port)
              w.chat_server
            ≡ (ok tt, server)
          → ask_connect p to_uppercase portal client w
            ≡ (ok alias, record w { chat_server = server; next_port = suc w.next_port })
      asked came =
          unfold ask_connect in
          ap
            (λ (r : Outcome (Unit {0}) × ChatServerState). (
              unwrap (alias_for w.next_port r.1.sends),
              record w { chat_server = r.1; next_port = suc w.next_port },
            ))
            came
          ∙ ap (λ o. (unwrap o, record w { chat_server = server; next_port = suc w.next_port }))
              (alias_for-append w.next_port alias w.chat_server.sends _ fresh)

      found : get w.next_proxy (insert w.next_proxy portal w.proxies) ≡ some portal
      found =
          get-insert w.next_proxy w.next_proxy portal w.proxies
          ∙ ap (λ b. if b then some portal else get w.next_proxy w.proxies) (==_refl w.next_proxy)
