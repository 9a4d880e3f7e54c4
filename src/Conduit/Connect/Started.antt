-- ===== src/Conduit/Connect/Started.antt =====
-- A server that nothing fails: the portal and the receive loop of each connection.
use ractor_wormhole.Prelude.{
  ℕ, suc, ◌≡◌, ◌≤◌, ◌∙◌, refl, ap, true, Option, none, some, inl, inr, List, [], ◌∷◌, ◌++◌,
  Bool-cases, ◌==◌, if◌then◌else◌, arith, append_assoc, append-nil, sym,
}
use ractor_wormhole.Prelude.Map.{insert, nat_eq, beq_refl, beq_ne}
use ractor_wormhole.Outcome.{Outcome, ok, Bytes}
use ractor_wormhole.Outcome.Action.{◌>>=◌, ◌>>◌}
use ractor_wormhole.Nexus.{
  NexusActorState, Env, Effect, spawn_portal, call_back, reply_portal, reply_portals, reply_actor,
  handle, on_connected, call_back_to, send_to, emit, initial,
}
use ractor_wormhole.Conduit.Connect.{
  Host, portal_for, ask_connected, spawn_loop, from_sink_source, handle_connection, serve,
}
use ractor_wormhole.Conduit.Connect.Loops.{Fed, serve-Feeds}

portal_for-append :
    (q : ℕ) (es fs : List Effect)
    → portal_for q es ≡ none
    → portal_for q (es ++ fs) ≡ portal_for q fs
unfolding portal_for
portal_for-append q [] fs e = refl
portal_for-append q (reply_portal r p ∷ es) fs e = elim (Bool-cases (r == q)) [
  | inl here ↦ absurd (cc (rw here at e))
  | inr later ↦ rw later (portal_for-append q es fs (rw later at e))
]
portal_for-append q (spawn_portal i ∷ es) fs e = portal_for-append q es fs e
portal_for-append q (call_back i r ∷ es) fs e = portal_for-append q es fs e
portal_for-append q (reply_portals r ps ∷ es) fs e = portal_for-append q es fs e
portal_for-append q (reply_actor r a ∷ es) fs e = portal_for-append q es fs e

-- What the nexus adds to its effects for a new portal.
abbrev told : Bytes → ℕ → ℕ → Option ℕ → List Effect
told i reply p none = spawn_portal i ∷ reply_portal reply p ∷ []
told i reply p (some callback) = spawn_portal i ∷ call_back i p ∷ reply_portal reply p ∷ []

module _ (env : Env) (i : Bytes) (reply p : ℕ) where
  -- It can start the portal, and the callback and the port are there.
  pub record Succeeds : Type 0 where
    pub spawned : env.spawn i ≡ ok p
    pub callback : env.callback_open ≡ true
    pub port : env.port_open reply ≡ true

  on_connected-ok :
      (s : NexusActorState)
      → Succeeds
      → on_connected env i reply s ≡ (
        ok tt,
        record s {
          portals = insert p i s.portals;
          effects = s.effects ++ told i reply p s.on_client_connected;
        },
      )
  unfolding on_connected emit send_to call_back_to ◌>>=◌
  on_connected-ok s g = rw g.spawned (rest s.on_client_connected)
    where
      spawned : NexusActorState
      spawned = record s {
        portals = insert p i s.portals;
        effects = s.effects ++ spawn_portal i ∷ [];
      }

      with_effects : List Effect → Outcome (Unit {0}) × NexusActorState
      with_effects es = (ok tt, record spawned { effects = es })

      rest :
          (callback : Option ℕ)
          → (call_back_to env i p callback >> send_to env reply (reply_portal reply p)) spawned
            ≡ with_effects (s.effects ++ told i reply p callback)
      rest none = rw g.port (
          ap with_effects
            (append_assoc s.effects (spawn_portal i ∷ []) (reply_portal reply p ∷ [])))
      rest (some c) =
          rw (g.callback, g.port)
            (ap with_effects (
              append_assoc (s.effects ++ spawn_portal i ∷ []) (call_back i p ∷ [])
                (reply_portal reply p ∷ [])
              ∙ append_assoc s.effects (spawn_portal i ∷ [])
                  (call_back i p ∷ reply_portal reply p ∷ [])))

  portal_for-told :
      (q : ℕ) (callback : Option ℕ)
      → portal_for q (told i reply p callback) ≡ (if reply == q then some p else none)
  unfolding portal_for
  portal_for-told q none = refl
  portal_for-told q (some c) = refl

module _ {R : Type 0} where
  -- The nexus runs, and the ports that come have got nothing.
  pub record Ready (h : Host R) : Type 0 where
    pub running : h.alive ≡ true
    pub unanswered : (q : ℕ) → h.next_port ≤ q → portal_for q h.nexus.effects ≡ none

  abbrev after : Bytes → ℕ → R → Host R → Host R
  after i p source h = record h {
    nexus = record h.nexus {
      portals = insert p i h.nexus.portals;
      effects = h.nexus.effects ++ told i h.next_port p h.nexus.on_client_connected;
    };
    alive = true;
    next_port = suc h.next_port;
    loops = h.loops ++ (p, source) ∷ [];
  }

  got :
      (env : Env) (i : Bytes) (h : Host R) (p : ℕ)
      → Ready h
      → portal_for h.next_port (h.nexus.effects ++ told i h.next_port p h.nexus.on_client_connected)
        ≡ some p
  got env i h p r =
      portal_for-append h.next_port h.nexus.effects _ (r.unanswered h.next_port (omega arith))
      ∙ portal_for-told env i h.next_port p h.next_port h.nexus.on_client_connected
      ∙ ap (λ t. if t then some p else none) (beq_refl h.next_port)

  from_sink_source-ok :
      (env : Env) (i : Bytes) (source : R) (h : Host R) (p : ℕ)
      → Ready h
      → Succeeds env i h.next_port p
      → from_sink_source env i source h ≡ (ok p, after i p source h)
  unfolding from_sink_source ask_connected spawn_loop handle ◌>>=◌
  from_sink_source-ok env i source h p r g = rw r.running (
      rw (on_connected-ok env i h.next_port p h.nexus g) (
        rw (got env i h p r)
          (ap (λ b. (ok p, record (after i p source h) { alive = b })) r.running)))

  after-Ready :
      (env : Env) (i : Bytes) (source : R) (h : Host R) (p : ℕ)
      → Ready h
      → Ready (after i p source h)
  after-Ready env i source h p r = record {
    running = refl;
    unanswered = λ q above.
        portal_for-append q h.nexus.effects _ (r.unanswered q (omega (arith, above)))
        ∙ portal_for-told env i h.next_port p q h.nexus.on_client_connected
        ∙ ap (λ t. if t then some p else none)
            (beq_ne h.next_port q (λ e. absurd (omega (arith, above, e))));
  }

  -- What the nexus meets at each connection: nothing fails, and these are the portals.
  abbrev pub AllSucceed : (ℕ → Bytes) → (n port : ℕ) → List (Env × R) → List ℕ → Type 0
  AllSucceed identify n port [] [] = Unit {0}
  AllSucceed identify n port ((env, source) ∷ more) (p ∷ ps) =
      Succeeds env (identify (suc n)) port p × AllSucceed identify (suc n) (suc port) more ps
  AllSucceed identify n port [] (p ∷ ps) = ⊥
  AllSucceed identify n port ((env, source) ∷ more) [] = ⊥

  abbrev pub fed_by : List (Env × R) → List ℕ → List (ℕ × R)
  fed_by ((env, source) ∷ more) (p ∷ ps) = (p, source) ∷ fed_by more ps
  fed_by _ _ = []

  serve-loops :
      (identify : ℕ → Bytes) (connections : List (Env × R)) (portals : List ℕ) (n : ℕ) (h : Host R)
      → Ready h
      → AllSucceed identify n h.next_port connections portals
      → (serve identify n connections h).loops ≡ h.loops ++ fed_by connections portals
  unfolding serve handle_connection
  serve-loops identify [] [] n h r a = sym (append-nil h.loops)
  serve-loops identify ((env, source) ∷ more) (p ∷ ps) n h r a =
      ap (λ t. (serve identify (suc n) more t.1).loops)
        (from_sink_source-ok env (identify (suc n)) source h p r a.0)
      ∙ serve-loops identify more ps (suc n) (after (identify (suc n)) p source h)
          (after-Ready env (identify (suc n)) source h p r) a.1
      ∙ append_assoc h.loops ((p, source) ∷ []) (fed_by more ps)
  serve-loops identify [] (p ∷ ps) n h r a = elim a [ ]
  serve-loops identify ((env, source) ∷ more) [] n h r a = elim a [ ]

  -- A server and its nexus that have just started.
  abbrev pub fresh : Option ℕ → ℕ → Host R
  fresh callback port = record {
    nexus = initial callback;
    alive = true;
    next_port = port;
    loops = [];
  }

  -- If the nexus can start a portal for each connection and its callback and the ports are there,
  -- a server that has just started, with a nexus that has just started, starts exactly one receive
  -- loop for each connection, in their order and for the connection's own portal, and the nexus
  -- keeps every one of these portals.
  pub serve-starts :
      (identify : ℕ → Bytes) (callback : Option ℕ) (port : ℕ) (connections : List (Env × R))
      (portals : List ℕ)
      → AllSucceed identify 0 port connections portals
      → let h = serve identify 0 connections (fresh callback port) in
        (h.loops ≡ fed_by connections portals) × Fed h.nexus.portals h.loops
  unfolding portal_for
  serve-starts identify callback port connections portals a = (
    serve-loops identify connections portals 0 (fresh callback port)
        (record { running = refl; unanswered = λ q above. refl }) a,
    (serve-Feeds identify connections 0 (fresh callback port) (tt, tt)).1,
  )
