-- ===== src/Chat/ChatServer/Laws.antt =====
-- Who hears of what in the chat.
use ractor_wormhole.Prelude.{
  ℕ, ◌≡◌, ◌≢◌, refl, All, Bool-cases, inl, inr, ap, ◌∙◌, some, List, [], ◌∷◌, ◌++◌, map, ==_refl,
  ==_ne, ◌==◌, if◌then◌else◌,
}
use ractor_wormhole.Prelude.Map.{get, insert, nat_eq, get-insert}
use ractor_wormhole.Outcome.{ok, Bytes}
use ractor_wormhole.Outcome.Action.{bind-eq}
use ractor_wormhole.Platform.{Platform}
use ractor_wormhole.Chat.AliasGenerator.{AliasGenerator, generate_capitalized}
use ractor_wormhole.Chat.ChatServer.{
  connect, post_message, user_connected, message_received, reply_alias, acknowledge,
  ChatServerState, tell, post, send_all, announce, generate, connected, handle,
}

-- No entry has the key of the new client.
abbrev pub NoneIs : (client : ℕ) → List (ℕ × (ℕ × Bytes)) → Type 0
NoneIs client clients = All (λ (e : ℕ × (ℕ × Bytes)). e.0 ≢ client) clients

NoneIs-insert :
    (portal client : ℕ) (v : ℕ × Bytes) (clients : List (ℕ × (ℕ × Bytes)))
    → portal ≢ client
    → NoneIs client clients
    → NoneIs client (insert portal v clients)
unfolding insert
NoneIs-insert portal client v [] h t = (h, tt)
NoneIs-insert portal client v ((j, w) ∷ more) h t = elim (Bool-cases (j == portal)) [
  | inl e ↦ rw e (h, t.1)
  | inr e ↦ rw e (t.0, NoneIs-insert portal client v more h t.1)
]

announce-all :
    (client : ℕ) (alias : Bytes) (clients : List (ℕ × (ℕ × Bytes)))
    → NoneIs client clients
    → announce client alias clients ≡ map (tell (user_connected alias)) clients
unfolding announce
announce-all client alias [] h = refl
announce-all client alias ((j, w) ∷ more) h =
    rw (==_ne j client h.0)
      (ap (λ t. tell (user_connected alias) (j, w) ∷ t) (announce-all client alias more h.1))

module _ (p : Platform) (to_uppercase : ℕ → Bytes) where
  -- The server when a client has come, and has been told its alias.
  abbrev pub joined :
      (portal client reply : ℕ) → Bytes → AliasGenerator → ChatServerState → ChatServerState
  joined portal client reply alias g s =
      let clients = insert portal (client, alias) s.clients in
      record s {
        alias_generator = g;
        clients = clients;
        sends = s.sends ++ (reply_alias reply alias ∷ map (tell (user_connected alias)) clients);
      }

  -- If the generator gives an alias and no portal has the new client's id, a client that connects
  -- is replied its alias and kept under its portal, everybody who is connected then, the new
  -- client too, is told of it, and a message that its portal posts after that goes to everybody
  -- with this alias and is acknowledged.
  pub connect-post :
      (portal client reply reply' : ℕ) (alias chat_message : Bytes) (g : AliasGenerator)
      (s : ChatServerState)
      → generate_capitalized p to_uppercase s.alias_generator ≡ (ok alias, g)
      → portal ≢ client
      → NoneIs client s.clients
      → (handle p to_uppercase (connect portal client reply) s
          ≡ (ok tt, joined portal client reply alias g s))
        × (get portal (joined portal client reply alias g s).clients ≡ some (client, alias))
        × (handle p to_uppercase
              (post_message portal chat_message reply')
              (joined portal client reply alias g s)
            ≡ (
              ok tt,
              send_all
                  (map
                      (tell (message_received alias chat_message))
                      (insert portal (client, alias) s.clients)
                    ++ acknowledge reply' ∷ [])
                  (joined portal client reply alias g s),
            ))
  unfolding handle post
  connect-post portal client reply reply' alias chat_message g s e distinct none_is = (
    bind-eq (generate p to_uppercase) (connected p to_uppercase portal client reply) {s = s}
          generated
        ∙ unfold connected in
          ap
            (λ out. (
              ok tt,
              record s {
                alias_generator = g;
                clients = insert portal (client, alias) s.clients;
                sends = s.sends ++ (reply_alias reply alias ∷ out);
              },
            ))
            (announce-all client alias (insert portal (client, alias) s.clients)
              (NoneIs-insert portal client (client, alias) s.clients distinct none_is)),
    found,
    ap (λ o. (ok tt, post o chat_message reply' (joined portal client reply alias g s))) found,
  )
    where
      generated : generate p to_uppercase s ≡ (ok alias, record s { alias_generator = g })
      generated = unfold generate in rw e refl

      found : get portal (insert portal (client, alias) s.clients) ≡ some (client, alias)
      found =
          get-insert portal portal (client, alias) s.clients
          ∙ ap (λ b. if b then some (client, alias) else get portal s.clients) (==_refl portal)
