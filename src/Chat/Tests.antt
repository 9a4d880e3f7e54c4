-- ===== src/Chat/Tests.antt =====
-- The chat server at its first clients, with the words in the order of the source.
use ractor_wormhole.Prelude.{ℕ, ◌≡◌, ◌≢◌, ◌-◌, refl, false, [], ◌∷◌, arith}
use ractor_wormhole.Prelude.Map.{insert, nat_eq}
use ractor_wormhole.Outcome.{ok, Bytes}
use ractor_wormhole.Platform.{Platform, IsSupported}
use ractor_wormhole.Chat.AliasGenerator.{AliasGenerator, get_pair, generate_capitalized}
use ractor_wormhole.Chat.AliasGenerator.Words.{adjectives, nouns}
use ractor_wormhole.Chat.AliasGenerator.Unique.{IsFull, alias_of, at_count, get_pair_unique}
use ractor_wormhole.Chat.ChatServer.{
  message_received, to_client, acknowledge, ChatServerState, send_all,
}
use ractor_wormhole.Chat.Hub.{HubWorld, alias_for, on_connect, proxy_posts}
use ractor_wormhole.Chat.Hub.Laws.{welcomed, connect-proxy_posts}

abbrev platform_64 : Platform
platform_64 = record { usize_bits = 64; overflow_checks = false }

supported : IsSupported platform_64
supported = record { above = omega arith; below = omega arith }

abbrev fresh : AliasGenerator
fresh = record { adjectives = adjectives; nouns = nouns; generated_count = 0 }

fresh-IsFull : IsFull fresh
fresh-IsFull = record {
  thirty_adjectives = refl;
  thirty_nouns = refl;
  distinct_adjectives = refl;
  distinct_nouns = refl;
}

get_pair_unique_example :
    (get_pair platform_64 (at_count fresh 3) ≡ (ok (alias_of fresh 3), at_count fresh 4))
    × (get_pair platform_64 (at_count fresh 33) ≡ (ok (alias_of fresh 33), at_count fresh 34))
    × (alias_of fresh 3 ≢ alias_of fresh 33)
get_pair_unique_example =
    get_pair_unique platform_64 supported fresh fresh-IsFull 3 33 (omega arith) (omega arith)
      (λ e. omega (arith, e))

abbrev empty : ChatServerState
empty = record { alias_generator = fresh; clients = []; sends = [] }

-- "Smirking Gutterrunner"
abbrev first_alias : Bytes
first_alias =
    83 ∷ 109 ∷ 105 ∷ 114 ∷ 107 ∷ 105 ∷ 110 ∷ 103 ∷ 32 ∷ 71 ∷ 117 ∷ 116 ∷ 116 ∷ 101 ∷ 114 ∷ 114 ∷ 117
    ∷ 110 ∷ 110 ∷ 101 ∷ 114 ∷ []

abbrev to_uppercase : ℕ → Bytes
to_uppercase c = (c - 32) ∷ []

abbrev world : HubWorld
world = record { chat_server = empty; proxies = []; next_proxy = 90; next_port = 3; connected = [] }

abbrev after : HubWorld
after = welcomed platform_64 to_uppercase 1 50 8 first_alias (at_count fresh 1) world

connect-proxy_posts_example :
    (on_connect platform_64 to_uppercase 1 50 8 world ≡ (ok tt, after))
    × (proxy_posts platform_64 to_uppercase 90 (104 ∷ 105 ∷ []) 4 after ≡ (
      ok tt,
      record after {
        chat_server =
            send_all
              (to_client 50 (message_received first_alias (104 ∷ 105 ∷ [])) ∷ acknowledge 4 ∷ [])
              after.chat_server;
      },
    ))
unfolding insert generate_capitalized get_pair alias_for
connect-proxy_posts_example =
    connect-proxy_posts platform_64 to_uppercase 1 50 8 4 first_alias (104 ∷ 105 ∷ [])
      (at_count fresh 1) world refl (λ e. omega (arith, e)) tt refl
